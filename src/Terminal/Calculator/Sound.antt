-- ===== src/Terminal/Calculator/Sound.antt =====
-- The fuel suffices, and what the parser reads is the writing of a tree with the value it answers.
use mathlib.Core.Option.{map, bind as bind_some}
use text.Mathlib.TextLemmas.{nil-append}
use tbd_dev.Prelude.{
  ℕ, zero, suc, ◌+◌, ◌*◌, ◌<◌, ◌≢◌, String, some, ◌⧺◌, ◌≡◌, refl, ap, sym, ◌∙◌, arith, truthy_text,
  Bool-cases, Option-cases, inl, inr,
}
use tbd_dev.Terminal.Calculator.{
  Floats, length_text, skip, head_is, drop_head, mul_op, add_op, parse_factor, parse_term,
  parse_factors, parse_expression, parse_terms, apply_mul, apply_add, safe_eval_math, finish,
}
use tbd_dev.Terminal.Calculator.Fuel.{
  ok, out_of_fuel, Gives, Gives-weaken, Gives-bind, Gives-or_failed, Gives-if, Gives-ok,
  Gives-out_of_fuel,
}
use tbd_dev.Terminal.Calculator.Grammar.{
  IsBlank, positive, negative, no_factors, no_terms, Expression, write_factor, write_factors,
  write_term, write_terms, write, factor_value, factors_value, term_value, terms_value, value,
  answer,
}
use tbd_dev.Terminal.Calculator.Layout.{skip-skip}
use tbd_dev.Terminal.Calculator.Lengths.{
  length-behind, length-behind_term, length-drop_mul, length-drop_add, length-drop, empty_of_falsy,
  IsBlank-of_skip,
}
use tbd_dev.Terminal.Calculator.Readings.{
  IsFactor, Reads, parse_number-IsFactor, signed-IsFactor, bracket-Gives, term-Reads,
  expression-Reads, factors-Reads, terms-Reads,
}

module _ (floats : Floats) where
  mutual
    unfolding parse_factor parse_term parse_factors parse_expression parse_terms factor_value
        factors_value write_factor length_text

    parse_factor-Gives :
        (f : ℕ) (s : String)
        → 3 * length_text s < f
        → Gives (IsFactor floats s) (parse_factor floats f s)
    parse_factor-Gives zero s h = absurd (omega arith)
    parse_factor-Gives (suc f) s h =
        Gives-if (IsFactor floats s) (head_is b'+' (skip s)) _ _
          (λ here.
            Gives-weaken (IsFactor floats (drop_head (skip s))) (IsFactor floats s) _
              (parse_factor-Gives f (drop_head (skip s)) (omega (arith, length-drop "+" s here)))
              (λ (v, rest) read.
                signed-IsFactor floats "+" s positive v v rest (λ b hb e. refl) (λ b hb e k. k) here
                  read))
          (λ _.
            Gives-if (IsFactor floats s) (head_is b'-' (skip s)) _ _
              (λ here.
                Gives-bind (IsFactor floats (drop_head (skip s))) (IsFactor floats s) _ _
                  (parse_factor-Gives f (drop_head (skip s))
                    (omega (arith, length-drop "-" s here)))
                  (λ (v, rest) read.
                    signed-IsFactor floats "-" s negative v (floats.negate v) rest (λ b hb e. refl)
                      (λ b hb e k. ap (map floats.negate) k) here read))
              (λ _.
                Gives-if (IsFactor floats s) (head_is b'(' (skip s)) _ _
                  (λ here. bracket-Gives floats s _ here (
                    parse_expression-Gives f (drop_head (skip s))
                      (omega (arith, length-drop "(" s here))))
                  (λ _. parse_number-IsFactor floats s)))

    parse_term-Gives :
        (f : ℕ) (s : String)
        → 3 * length_text s + 1 < f
        → Gives (Reads floats write_term (term_value floats) s) (parse_term floats f s)
    parse_term-Gives zero s h = absurd (omega arith)
    parse_term-Gives (suc f) s h =
        Gives-bind (IsFactor floats s) (Reads floats write_term (term_value floats) s) _ _
          (parse_factor-Gives f s (omega arith))
          (λ (v, rest) (e, he, hv).
            Gives-weaken (Reads floats write_factors (λ es. factors_value floats es v) rest) _ _
              (parse_factors-Gives f v rest (omega (arith, length-behind e s rest he)))
              (λ (w, end) read. term-Reads floats s rest end e v w he hv read))

    parse_factors-Gives :
        (f : ℕ) (v : floats.Number) (s : String)
        → 3 * length_text s < f
        → Gives
            (Reads floats write_factors (λ es. factors_value floats es v) s)
            (parse_factors floats f v s)
    parse_factors-Gives zero v s h = absurd (omega arith)
    parse_factors-Gives (suc f) v s h = elim (Option-cases (mul_op (skip s))) [
      | inl none_left ↦
          rw (none_left, parse_factors) (no_factors, s, sym (nil-append s), refl, refl)
      | inr (op, found) ↦
          rw (found, parse_factors)
            (Gives-bind (IsFactor floats (drop_head (skip s))) _ _ _
              (parse_factor-Gives f (drop_head (skip s))
                (omega (arith, length-drop_mul op s found)))
              (λ (rhs, rest) (e, he, hv).
                Gives-bind (λ w. apply_mul floats op v rhs ≡ some w) _ _ _
                  (Gives-or_failed _ (apply_mul floats op v rhs) (λ w k. k))
                  (λ w applied.
                    Gives-weaken (Reads floats write_factors (λ es. factors_value floats es w) rest)
                      _ _
                      (parse_factors-Gives f w rest (
                        omega (
                          arith,
                          length-behind e (drop_head (skip s)) rest he,
                          length-drop_mul op s found,
                        )))
                      (λ (u, end) read.
                        factors-Reads floats op s rest end e v rhs w u found he hv applied read))))
    ]

    parse_expression-Gives :
        (f : ℕ) (s : String)
        → 3 * length_text s + 2 < f
        → Gives (Reads floats write (value floats) s) (parse_expression floats f s)
    parse_expression-Gives zero s h = absurd (omega arith)
    parse_expression-Gives (suc f) s h =
        Gives-bind (Reads floats write_term (term_value floats) s)
          (Reads floats write (value floats) s) _ _ (parse_term-Gives f s (omega arith))
          (λ (v, rest) (t, behind, ht, hrest, hv). rw hrest (
            Gives-weaken (Reads floats write_terms (λ ts. terms_value floats ts v) behind) _ _
              (parse_terms-Gives f v behind (omega (arith, length-behind_term t s behind ht)))
              (λ (w, end) read. expression-Reads floats s behind end t v w ht hv read)))

    parse_terms-Gives :
        (f : ℕ) (v : floats.Number) (s : String)
        → 3 * length_text s < f
        → Gives
            (Reads floats write_terms (λ ts. terms_value floats ts v) s)
            (parse_terms floats f v (skip s))
    parse_terms-Gives zero v s h = absurd (omega arith)
    parse_terms-Gives (suc f) v s h =
        rw (skip-skip s, parse_terms)
          (elim (Option-cases (add_op (skip s))) [
            | inl none_left ↦ rw none_left (no_terms, s, sym (nil-append s), skip-skip s, refl)
            | inr (op, found) ↦ rw found (
                rw (skip-skip s) (
                  Gives-bind (Reads floats write_term (term_value floats) (drop_head (skip s))) _ _
                    _
                    (parse_term-Gives f (drop_head (skip s))
                      (omega (arith, length-drop_add op s found)))
                    (λ (rhs, rest) (t, behind, ht, hrest, hv). rw hrest (
                      Gives-weaken
                        (Reads floats write_terms
                          (λ ts. terms_value floats ts (apply_add floats op v rhs)) behind)
                        _ _
                        (parse_terms-Gives f (apply_add floats op v rhs) behind (
                          omega (
                            arith,
                            length-behind_term t (drop_head (skip s)) behind ht,
                            length-drop_add op s found,
                          )))
                        (λ (u, end) read.
                          terms-Reads floats op s behind end t v rhs u found ht hv read)))))
          ])

  finish-Gives :
      (s : String) (r : floats.Number × String)
      → Reads floats write (value floats) s r
      → Gives
          (λ out.
            (e : Expression) × (b : String) × (s ≡ write e ⧺ b)
            × IsBlank b
            × (answer floats e ≡ some out))
          (finish floats r)
  unfolding bind_some
  finish-Gives s (v, rest) (e, behind, he, hrest, hv) =
      elim (Bool-cases (truthy_text (skip rest))) [
        | inl more ↦ rw more tt
        | inr done ↦ elim (Bool-cases (floats.is_finite v)) [
          | inl small ↦
              let (b, hb, eb) =
                IsBlank-of_skip behind
                  (sym (ap skip hrest ∙ skip-skip behind) ∙ empty_of_falsy (skip rest) done) in
              rw (done, small) (e, b, he ∙ ap (λ t. write e ⧺ t) eb, hb, rw (hv, small) refl)
          | inr large ↦ rw (done, large) tt
        ]
      ]

  safe_eval_math-Gives :
      (text : String)
      → Gives
          (λ out.
            (e : Expression) × (b : String) × (text ≡ write e ⧺ b)
            × IsBlank b
            × (answer floats e ≡ some out))
          (safe_eval_math floats text)
  unfolding safe_eval_math
  safe_eval_math-Gives text =
      Gives-bind (Reads floats write (value floats) text) _ _ (finish floats)
        (parse_expression-Gives (3 * length_text text + 3) text (omega arith)) (finish-Gives text)

  -- The calculator ends on every text: no text needs more steps than three for each of its characters
  -- and three.
  pub safe_eval_math-ends : (text : String) → safe_eval_math floats text ≢ out_of_fuel
  safe_eval_math-ends text =
      Gives-out_of_fuel _ (safe_eval_math floats text) (safe_eval_math-Gives text)

  -- A text that the calculator answers is an arithmetic expression, with spaces behind it, and the
  -- answer is the expression's: multiplication binds closer than addition, operators of one kind apply
  -- from the left, nothing is divided by zero, and the value is finite.
  pub safe_eval_math_sound :
      (text out : String)
      → safe_eval_math floats text ≡ ok out
      → (e : Expression) × (b : String) × (text ≡ write e ⧺ b)
        × IsBlank b
        × (answer floats e ≡ some out)
  safe_eval_math_sound text out h =
      Gives-ok _ (safe_eval_math floats text) out (safe_eval_math-Gives text) h
