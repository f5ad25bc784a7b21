-- ===== src/Terminal/Calculator/Complete.antt =====
-- The calculator answers every expression that has a value.
use Prim.Native.String.{[] as ε, ◌∷◌ as ◌▸◌}
use mathlib.Core.Option.{bind as bind_some}
use text.Mathlib.TextLemmas.{nil-append, append_assoc}
use tbd_dev.Prelude.{
  ℕ, zero, suc, ◌+◌, ◌*◌, ◌<◌, String, Option, none, some, ◌⧺◌, ◌≡◌, refl, ap, ◌∙◌, arith,
  Bool-cases, inl, inr,
}
use tbd_dev.Terminal.Calculator.{
  Floats, length_text, skip, parse_factor, parse_term, parse_factors, parse_expression, parse_terms,
  apply_mul, apply_add, safe_eval_math, finish,
}
use tbd_dev.Terminal.Calculator.Fuel.{bind, or_failed}
use tbd_dev.Terminal.Calculator.Grammar.{
  IsBlank, mul_sign, add_sign, Factor, number, positive, negative, group, Factors, no_factors,
  factors, Term, term, Terms, no_terms, terms, Expression, expression, write_factor, write_factors,
  write_term, write_terms, write, factor_value, factors_value, term_value, terms_value, value,
  answer, finite,
}
use tbd_dev.Terminal.Calculator.Layout.{length_text-append, skip-skip}
use tbd_dev.Terminal.Calculator.Lengths.{length-write_factor_pos}
use tbd_dev.Terminal.Calculator.Follows.{
  EndsFactor, EndsTerm, EndsExpression, skip-IsBlank_empty, mul_sign-space, add_sign-space,
  mul_op-sign, add_op-sign, factors-EndsFactor, terms-EndsTerm, bracket-EndsExpression,
  blank-EndsExpression,
}
use tbd_dev.Terminal.Calculator.Steps.{
  plus_space, minus_space, bracket_space, ahead, length-ahead, bracketed, at, number-factor,
  at-bind, or_failed-bind, at-negate, at-bracket,
}

module _ (floats : Floats) where
  mutual
    unfolding parse_factor parse_term parse_factors parse_expression parse_terms factor_value
        factors_value write_factor length_text bind_some

    factor_complete :
        (f : ℕ) (e : Factor) (rest : String)
        → EndsFactor rest
        → 3 * length_text (write_factor e ⧺ rest) < f
        → parse_factor floats f (write_factor e ⧺ rest) ≡ at floats rest (factor_value floats e)
    factor_complete zero e rest h k = absurd (omega arith)
    factor_complete (suc f) (number b text hb ht) rest h k =
        number-factor floats f b text rest hb ht h
    factor_complete (suc f) (positive b hb e) rest h k =
        rw (ahead b "+" (write_factor e) rest hb plus_space)
          (factor_complete f e rest h (omega (arith, length-ahead b "+" (write_factor e) rest)))
    factor_complete (suc f) (negative b hb e) rest h k =
        rw
          (
            ahead b "-" (write_factor e) rest hb minus_space,
            factor_complete f e rest h (omega (arith, length-ahead b "-" (write_factor e) rest)),
          )
          (at-negate floats (factor_value floats e) rest)
    factor_complete (suc f) (group b end hb he e) rest h k =
        rw
          (
            ahead b "(" (write e ⧺ (end ⧺ (")" ▸ ε))) rest hb bracket_space,
            bracketed e end rest,
            expression_complete f e (end ⧺ (")" ▸ rest)) (bracket-EndsExpression end rest he) (
                omega (
                  arith,
                  length-ahead b "(" (write e ⧺ (end ⧺ (")" ▸ ε))) rest,
                  ap length_text (bracketed e end rest),
                )),
          )
          (at-bracket floats (value floats e) end rest he)

    factors_complete :
        (f : ℕ) (es : Factors) (v : floats.Number) (rest : String)
        → EndsTerm rest
        → 3 * length_text (write_factors es ⧺ rest) < f
        → parse_factors floats f v (write_factors es ⧺ rest)
          ≡ at floats (skip rest) (factors_value floats es v)
    factors_complete zero es v rest h k = absurd (omega arith)
    factors_complete (suc f) no_factors v rest (h, ended) k =
        rw (nil-append rest) (rw (ended, parse_factors) refl)
    factors_complete (suc f) (factors b hb op e es) v rest h k =
        let s = write_factor e ⧺ write_factors es in
        let joined = append_assoc (write_factor e) (write_factors es) rest in
        let front = ahead b (mul_sign op) s rest hb (mul_sign-space op) in
        rw (front, parse_factors)
          (rw (mul_op-sign op (s ⧺ rest)) (
            rw
              (
                front,
                joined,
                factor_complete f e (write_factors es ⧺ rest) (factors-EndsFactor es rest h)
                    (omega (arith, ap length_text joined, length-ahead b (mul_sign op) s rest)),
              )
              (at-bind floats (factor_value floats e) (write_factors es ⧺ rest) (skip rest) _ _
                (λ rhs. or_failed-bind floats (apply_mul floats op v rhs) (skip rest) _ _ (λ w.
                  factors_complete f es w rest h (
                    omega (
                      arith,
                      ap length_text joined,
                      length-ahead b (mul_sign op) s rest,
                      length_text-append (write_factor e) (write_factors es ⧺ rest),
                    )))))))

    term_complete :
        (f : ℕ) (t : Term) (rest : String)
        → EndsTerm rest
        → 3 * length_text (write_term t ⧺ rest) + 1 < f
        → parse_term floats f (write_term t ⧺ rest) ≡ at floats (skip rest) (term_value floats t)
    term_complete zero t rest h k = absurd (omega arith)
    term_complete (suc f) (term e es) rest h k =
        let joined = append_assoc (write_factor e) (write_factors es) rest in
        rw
          (
            joined,
            factor_complete f e (write_factors es ⧺ rest) (factors-EndsFactor es rest h)
                (omega (arith, ap length_text joined)),
          )
          (at-bind floats (factor_value floats e) (write_factors es ⧺ rest) (skip rest)
            (parse_factors floats f) (factors_value floats es)
            (λ v. factors_complete f es v rest h (
              omega (
                arith,
                ap length_text joined,
                length-write_factor_pos e,
                length_text-append (write_factor e) (write_factors es ⧺ rest),
              ))))

    expression_complete :
        (f : ℕ) (e : Expression) (rest : String)
        → EndsExpression rest
        → 3 * length_text (write e ⧺ rest) + 2 < f
        → parse_expression floats f (write e ⧺ rest) ≡ at floats (skip rest) (value floats e)
    expression_complete zero e rest h k = absurd (omega arith)
    expression_complete (suc f) (expression t ts) rest h k =
        let joined = append_assoc (write_term t) (write_terms ts) rest in
        rw
          (
            joined,
            term_complete f t (write_terms ts ⧺ rest) (terms-EndsTerm ts rest h)
                (omega (arith, ap length_text joined)),
          )
          (at-bind floats (term_value floats t) (skip (write_terms ts ⧺ rest)) (skip rest) _ _ (λ v.
            terms_complete f ts v rest h (
              omega (
                arith,
                ap length_text joined,
                length_text-append (write_term t) (write_terms ts ⧺ rest),
              ))))

    terms_complete :
        (f : ℕ) (ts : Terms) (v : floats.Number) (rest : String)
        → EndsExpression rest
        → 3 * length_text (write_terms ts ⧺ rest) < f
        → parse_terms floats f v (skip (write_terms ts ⧺ rest))
          ≡ at floats (skip rest) (terms_value floats ts v)
    terms_complete zero ts v rest h k = absurd (omega arith)
    terms_complete (suc f) no_terms v rest (h, ended) k =
        rw (nil-append rest)
          (rw (skip-skip rest, parse_terms) (rw (ended) (rw (skip-skip rest) refl)))
    terms_complete (suc f) (terms b hb op t ts) v rest h k =
        let s = write_term t ⧺ write_terms ts in
        let joined = append_assoc (write_term t) (write_terms ts) rest in
        let front = skip-skip _ ∙ ahead b (add_sign op) s rest hb (add_sign-space op) in
        rw (front, parse_terms)
          (rw (add_op-sign op (s ⧺ rest)) (
            rw
              (
                front,
                joined,
                term_complete f t (write_terms ts ⧺ rest) (terms-EndsTerm ts rest h)
                    (omega (arith, ap length_text joined, length-ahead b (add_sign op) s rest)),
              )
              (at-bind floats (term_value floats t) (skip (write_terms ts ⧺ rest)) (skip rest) _ _
                (λ rhs. terms_complete f ts (apply_add floats op v rhs) rest h (
                  omega (
                    arith,
                    ap length_text joined,
                    length-ahead b (add_sign op) s rest,
                    length_text-append (write_term t) (write_terms ts ⧺ rest),
                  ))))))

  answered :
      (o : Option floats.Number)
      → bind (at floats ε o) (finish floats) ≡ or_failed (bind_some o (finite floats))
  unfolding bind_some skip
  answered none = refl
  answered (some v) = elim (Bool-cases (floats.is_finite v)) [
    | inl small ↦ rw small refl
    | inr large ↦ rw large refl
  ]

  -- An arithmetic expression, with any spaces in it and behind it, is answered with its value; one that
  -- has none, or none that is finite, is refused.
  pub safe_eval_math-write :
      (e : Expression) (b : String)
      → IsBlank b
      → safe_eval_math floats (write e ⧺ b) ≡ or_failed (answer floats e)
  unfolding safe_eval_math skip
  safe_eval_math-write e b hb =
      rw
        (
          expression_complete (3 * length_text (write e ⧺ b) + 3) e b (blank-EndsExpression b hb)
              (omega arith),
          skip-IsBlank_empty b hb,
        )
        (answered (value floats e))
