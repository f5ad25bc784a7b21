-- ===== src/Terminal/Calculator/Readings.antt =====
-- From the parts that were read to the tree that holds them.
use Prim.Native.Char.{Char, code}
use Prim.Native.String.{◌∷◌ as ◌▸◌}
use mathlib.Core.Option.{bind as bind_some}
use text.Mathlib.TextLemmas.{cons-append, append_assoc}
use tbd_dev.Prelude.{
  String, true, false, Option, some, ◌⧺◌, ◌≡◌, ap, sym, ◌∙◌, truthy_text, Bool-cases, inl, inr,
}
use tbd_dev.Terminal.Calculator.{
  Floats, skip, span_number, head_is, drop_head, AddOp, MulOp, mul_op, add_op, close_bracket,
  parse_number, taken, apply_mul, apply_add,
}
use tbd_dev.Terminal.Calculator.Fuel.{
  Outcome, ok, bind, or_failed, Gives, Gives-bind, Gives-or_failed,
}
use tbd_dev.Terminal.Calculator.Grammar.{
  IsBlank, mul_sign, add_sign, Factor, number, group, factors, Term, term, terms, Expression,
  expression, write_factor, write_factors, write_term, write_terms, write, factor_value,
  factors_value, term_value, terms_value, value,
}
use tbd_dev.Terminal.Calculator.Layout.{
  head-cons, skip-IsBlank, skip-skip, IsSpan, span_number-IsSpan, mul_op_lem, add_op_lem,
  close_bracket-Gives,
}
use tbd_dev.Terminal.Calculator.Lengths.{bracket-append}

module _ (floats : Floats) where
  -- A tree was read, up to a position.
  abbrev pub IsFactor : String → floats.Number × String → Type 0
  IsFactor s (v, rest) =
      (e : Factor) × (s ≡ write_factor e ⧺ rest) × (factor_value floats e ≡ some v)

  -- A tree was read, up to the spaces in front of a position.
  abbrev pub Reads :
      {T : Type 0}
      → (T → String)
      → (T → Option floats.Number)
      → String
      → floats.Number × String
      → Type 0
  Reads {T} written worth s (v, rest) =
      (e : T) × (behind : String) × (s ≡ written e ⧺ behind)
      × (rest ≡ skip behind)
      × (worth e ≡ some v)

  pub taken-IsFactor :
      (s b : String) (p : String × String)
      → IsBlank b
      → s ≡ b ⧺ skip s
      → IsSpan false (skip s) p
      → Gives (IsFactor s) (taken floats p)
  unfolding factor_value write_factor
  taken-IsFactor s b (text, rest) hb hs (ht, e) = elim (Bool-cases (truthy_text text)) [
    | inl told ↦ rw told (
        Gives-bind (λ v. floats.number text ≡ some v) (IsFactor s) (or_failed (floats.number text))
          (λ v. ok (v, rest))
          (Gives-or_failed (λ v. floats.number text ≡ some v) (floats.number text) (λ v h. h))
          (λ v h. (
            number b text hb (told, ht),
            hs ∙ ap (λ t. b ⧺ t) e ∙ sym (append_assoc b text rest),
            h,
          )))
    | inr empty ↦ rw empty tt
  ]

  pub parse_number-IsFactor : (s : String) → Gives (IsFactor s) (parse_number floats (skip s))
  unfolding parse_number
  parse_number-IsFactor s =
      let (b, hb, e) = skip-IsBlank s in
      taken-IsFactor s b (span_number false (skip (skip s))) hb e
        (rw (skip-skip s) (span_number-IsSpan false (skip s)))

  pub signed-IsFactor :
      (c : Char) (s : String) (sign : (b : String) → IsBlank b → Factor → Factor)
      (v w : floats.Number) (rest : String)
      → ((b : String) (hb : IsBlank b) (e : Factor)
          → write_factor (sign b hb e) ≡ b ⧺ (c ▸ write_factor e))
      → ((b : String) (hb : IsBlank b) (e : Factor)
          → factor_value floats e ≡ some v
          → factor_value floats (sign b hb e) ≡ some w)
      → head_is (code c) (skip s) ≡ true
      → IsFactor (drop_head (skip s)) (v, rest)
      → IsFactor s (w, rest)
  signed-IsFactor c s sign v w rest written worth here (e, he, hv) =
      let (b, hb, eb) = skip-IsBlank s in
      (
        sign b hb e,
        eb
            ∙ ap (λ t. b ⧺ t) (head-cons c (skip s) here ∙ ap (λ t. c ▸ t) he)
            ∙ simp (written b hb e, append_assoc, cons-append),
        worth b hb e hv,
      )

  -- A bracketed expression, from what was read behind the bracket that opens.
  pub group-IsFactor :
      (s behind rest end : String) (e : Expression) (v : floats.Number)
      → head_is b'(' (skip s) ≡ true
      → drop_head (skip s) ≡ write e ⧺ behind
      → skip behind ≡ (")" ▸ end)
      → value floats e ≡ some v
      → IsFactor s (v, end)
  unfolding write_factor factor_value
  group-IsFactor s behind rest end e v here he closed hv =
      let (b, hb, eb) = skip-IsBlank s in
      let (b', hb', eb') = skip-IsBlank behind in
      (
        group b b' hb hb' e,
        eb
            ∙ ap (λ t. b ⧺ t) (head-cons "(" (skip s) here ∙ ap (λ t. "(" ▸ t) he)
            ∙ ap (λ t. b ⧺ ("(" ▸ (write e ⧺ t))) (eb' ∙ ap (λ t. b' ⧺ t) closed)
            ∙ simp (append_assoc, cons-append, bracket-append),
        hv,
      )

  pub bracket-Gives :
      (s : String) (o : Outcome (floats.Number × String))
      → head_is b'(' (skip s) ≡ true
      → Gives (Reads write (value floats) (drop_head (skip s))) o
      → Gives
          (IsFactor s)
          (bind o (λ (v, rest). bind (close_bracket (skip rest)) (λ end. ok (v, end))))
  bracket-Gives s o here h =
      Gives-bind (Reads write (value floats) (drop_head (skip s))) (IsFactor s) _ _ h
        (λ (v, rest) (e, behind, he, hrest, hv).
          Gives-bind (λ end. skip rest ≡ (")" ▸ end)) (IsFactor s) _ _
            (close_bracket-Gives (skip rest))
            (λ end closed.
              group-IsFactor s behind rest end e v here he
                (sym (ap skip hrest ∙ skip-skip behind) ∙ closed) hv))

  pub term-Reads :
      (s rest end : String) (e : Factor) (v w : floats.Number)
      → s ≡ write_factor e ⧺ rest
      → factor_value floats e ≡ some v
      → Reads write_factors (λ es. factors_value floats es v) rest (w, end)
      → Reads write_term (term_value floats) s (w, end)
  unfolding write_factor factor_value bind_some
  term-Reads s rest end e v w he hv (es, behind, hes, hend, hw) = (
    term e es,
    behind,
    he
        ∙ ap (λ t. write_factor e ⧺ t) hes
        ∙ sym (append_assoc (write_factor e) (write_factors es) behind),
    hend,
    rw hv hw,
  )

  pub expression-Reads :
      (s rest end : String) (t : Term) (v w : floats.Number)
      → s ≡ write_term t ⧺ rest
      → term_value floats t ≡ some v
      → Reads write_terms (λ ts. terms_value floats ts v) rest (w, end)
      → Reads write (value floats) s (w, end)
  unfolding write_factor factor_value bind_some
  expression-Reads s rest end t v w ht hv (ts, behind, hts, hend, hw) = (
    expression t ts,
    behind,
    ht ∙ ap (λ u. write_term t ⧺ u) hts ∙ sym (append_assoc (write_term t) (write_terms ts) behind),
    hend,
    rw hv hw,
  )

  pub factors-Reads :
      (op : MulOp) (s rest end : String) (e : Factor) (v rhs w u : floats.Number)
      → mul_op (skip s) ≡ some op
      → drop_head (skip s) ≡ write_factor e ⧺ rest
      → factor_value floats e ≡ some rhs
      → apply_mul floats op v rhs ≡ some w
      → Reads write_factors (λ es. factors_value floats es w) rest (u, end)
      → Reads write_factors (λ es. factors_value floats es v) s (u, end)
  unfolding write_factor factor_value bind_some
  factors-Reads op s rest end e v rhs w u found he hv applied (es, behind, hes, hend, hu) =
      let (b, hb, eb) = skip-IsBlank s in
      (
        factors b hb op e es,
        behind,
        eb
            ∙ ap (λ t. b ⧺ t) (mul_op_lem (skip s) op found)
            ∙ ap (λ t. b ⧺ (mul_sign op ▸ t)) (he ∙ ap (λ t. write_factor e ⧺ t) hes)
            ∙ simp (append_assoc, cons-append),
        hend,
        rw (hv, applied) hu,
      )

  pub terms-Reads :
      (op : AddOp) (s rest end : String) (t : Term) (v rhs u : floats.Number)
      → add_op (skip s) ≡ some op
      → drop_head (skip s) ≡ write_term t ⧺ rest
      → term_value floats t ≡ some rhs
      → Reads write_terms (λ ts. terms_value floats ts (apply_add floats op v rhs)) rest (u, end)
      → Reads write_terms (λ ts. terms_value floats ts v) s (u, end)
  unfolding write_factor factor_value bind_some
  terms-Reads op s rest end t v rhs u found ht hv (ts, behind, hts, hend, hu) =
      let (b, hb, eb) = skip-IsBlank s in
      (
        terms b hb op t ts,
        behind,
        eb
            ∙ ap (λ k. b ⧺ k) (add_op_lem (skip s) op found)
            ∙ ap (λ k. b ⧺ (add_sign op ▸ k)) (ht ∙ ap (λ k. write_term t ⧺ k) hts)
            ∙ simp (append_assoc, cons-append),
        hend,
        rw hv hu,
      )
