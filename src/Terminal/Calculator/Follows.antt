-- ===== src/Terminal/Calculator/Follows.antt =====
-- What stands behind a part that was written, and why the parser stops there.
use Prim.Native.Char.{Char}
use Prim.Native.String.{[] as ε, ◌∷◌ as ◌▸◌}
use text.Mathlib.TextLemmas.{nil-append, cons-append, append_assoc, append-nil}
use tbd_dev.Prelude.{
  ℕ, String, Bool, true, false, none, some, ◌⧺◌, ◌≡◌, refl, ap, sym, ◌∙◌, subst, arith, Bool-cases,
  inl, inr, not, ◌&&◌, ◌||◌, eqb, leb,
}
use tbd_dev.Terminal.Shell.{is_space}
use tbd_dev.Terminal.Calculator.{
  skip, span_number, head_is, is_digit, is_dot, AddOp, MulOp, plus, minus, times, over, modulo,
  mul_op, add_op,
}
use tbd_dev.Terminal.Calculator.Grammar.{
  blank, numeric, IsBlank, IsNumeral, mul_sign, add_sign, Factors, no_factors, factors, Terms,
  no_terms, terms, write_factors, write_terms, write_factor, write_term,
}
use tbd_dev.Terminal.Calculator.Layout.{skip-blank_append}

abbrev pub in_numeral : Char → Bool
in_numeral c = is_digit c || is_dot c

-- No numeral goes on here.
unfoldable pub stops : String → Bool
stops ε = true
stops (c ▸ s) = not (in_numeral c)

abbrev pub EndsFactor : String → Type 0
EndsFactor s = stops s ≡ true

abbrev pub EndsTerm : String → Type 0
EndsTerm s = (stops s ≡ true) × (mul_op (skip s) ≡ none)

abbrev pub EndsExpression : String → Type 0
EndsExpression s = EndsTerm s × (add_op (skip s) ≡ none)

stops-space : (c : Char) → is_space c ≡ true → in_numeral c ≡ false
unfolding is_space
stops-space c h = ground arith

space-numeral : (c : Char) → in_numeral c ≡ true → is_space c ≡ false
unfolding is_space
space-numeral c h = ground arith

-- Behind spaces, a character that no numeral has.
pub stops-blank :
    (b : String) (c : Char) (s : String)
    → IsBlank b
    → in_numeral c ≡ false
    → stops (b ⧺ (c ▸ s)) ≡ true
unfolding stops blank
stops-blank ε c s hb h = ap stops (nil-append (c ▸ s)) ∙ rw h refl
stops-blank (d ▸ b) c s hb h =
    ap stops (cons-append d b (c ▸ s)) ∙ rw (stops-space d (ground arith)) refl

pub stops-IsBlank : (b : String) → IsBlank b → stops b ≡ true
unfolding stops blank
stops-IsBlank ε hb = refl
stops-IsBlank (d ▸ b) hb = rw (stops-space d (ground arith)) refl

pub skip-sign :
    (b : String) (c : Char) (s : String)
    → IsBlank b
    → is_space c ≡ false
    → skip (b ⧺ (c ▸ s)) ≡ (c ▸ s)
unfolding skip
skip-sign b c s hb h = skip-blank_append b (c ▸ s) hb ∙ rw h refl

pub skip-IsBlank_empty : (b : String) → IsBlank b → skip b ≡ ε
unfolding skip
skip-IsBlank_empty b hb = ap skip (sym (append-nil b)) ∙ skip-blank_append b ε hb

pub mul_sign-space : (op : MulOp) → is_space (mul_sign op) ≡ false
unfolding is_space
mul_sign-space times = refl
mul_sign-space over = refl
mul_sign-space modulo = refl

pub add_sign-space : (op : AddOp) → is_space (add_sign op) ≡ false
unfolding is_space
add_sign-space plus = refl
add_sign-space minus = refl

pub mul_op-sign : (op : MulOp) (s : String) → mul_op (mul_sign op ▸ s) ≡ some op
unfolding mul_op
mul_op-sign times s = refl
mul_op-sign over s = refl
mul_op-sign modulo s = refl

pub add_op-sign : (op : AddOp) (s : String) → add_op (add_sign op ▸ s) ≡ some op
unfolding add_op
add_op-sign plus s = refl
add_op-sign minus s = refl

mul_sign-numeral : (op : MulOp) → in_numeral (mul_sign op) ≡ false
mul_sign-numeral times = refl
mul_sign-numeral over = refl
mul_sign-numeral modulo = refl

add_sign-EndsTerm :
    (op : AddOp) (s : String)
    → (in_numeral (add_sign op) ≡ false) × (mul_op (add_sign op ▸ s) ≡ none)
unfolding mul_op
add_sign-EndsTerm plus s = (refl, refl)
add_sign-EndsTerm minus s = (refl, refl)

-- A product goes on, or ends, behind a factor.
pub factors-EndsFactor :
    (es : Factors) (s : String) → EndsTerm s → EndsFactor (write_factors es ⧺ s)
unfolding write_factors
factors-EndsFactor no_factors s (h, k) = ap stops (nil-append s) ∙ h
factors-EndsFactor (factors b hb op e es) s h =
    ap stops (
      append_assoc b (mul_sign op ▸ (write_factor e ⧺ write_factors es)) s
      ∙ ap (λ t. b ⧺ t) (cons-append (mul_sign op) _ s))
    ∙ stops-blank b (mul_sign op) _ hb (mul_sign-numeral op)

pub terms-EndsTerm : (ts : Terms) (s : String) → EndsExpression s → EndsTerm (write_terms ts ⧺ s)
unfolding write_terms
terms-EndsTerm no_terms s (h, k) = subst EndsTerm (sym (nil-append s)) h
terms-EndsTerm (terms b hb op t ts) s h =
    let (signed, ends) = add_sign-EndsTerm op ((write_term t ⧺ write_terms ts) ⧺ s) in
    subst EndsTerm
      (sym (
        append_assoc b (add_sign op ▸ (write_term t ⧺ write_terms ts)) s
        ∙ ap (λ t. b ⧺ t) (cons-append (add_sign op) _ s)))
      (
        stops-blank b (add_sign op) _ hb signed,
        ap mul_op (skip-sign b (add_sign op) _ hb (add_sign-space op)) ∙ ends,
      )

-- A bracket that closes, and the end of the text.
pub bracket-EndsExpression : (b s : String) → IsBlank b → EndsExpression (b ⧺ (")" ▸ s))
unfolding is_space mul_op add_op
bracket-EndsExpression b s hb =
    let skipped = skip-sign b ")" s hb refl in
    ((stops-blank b ")" s hb refl, ap mul_op skipped), ap add_op skipped)

pub blank-EndsExpression : (b : String) → IsBlank b → EndsExpression b
unfolding mul_op add_op
blank-EndsExpression b hb =
    let skipped = skip-IsBlank_empty b hb in
    ((stops-IsBlank b hb, ap mul_op skipped), ap add_op skipped)

-- A numeral is read whole.
pub span_number-numeric :
    (seen : Bool) (text s : String)
    → numeric seen text ≡ true
    → EndsFactor s
    → span_number seen (text ⧺ s) ≡ (text, s)
unfolding span_number numeric stops
span_number-numeric seen ε ε ht hs = refl
span_number-numeric seen ε (c ▸ s) ht hs =
    ap (span_number seen) (nil-append (c ▸ s)) ∙ rw (dotless, digitless) refl
  where
    dotless : is_dot c ≡ false
    dotless = ground arith

    digitless : is_digit c ≡ false
    digitless = ground arith
span_number-numeric seen (c ▸ text) s ht hs =
    ap (span_number seen) (cons-append c text s) ∙ elim (Bool-cases (is_dot c)) [
      | inl dot ↦ elim (Bool-cases seen) [
        | inl again ↦ absurd (let h = rw (dot, again) at ht in cc)
        | inr first ↦
            rw (dot, first, span_number-numeric true text s (rw (dot, first) at ht) hs) refl
      ]
      | inr other ↦ elim (Bool-cases (is_digit c)) [
        | inl digit ↦
            rw (other, digit, span_number-numeric seen text s (rw (other, digit) at ht) hs) refl
        | inr neither ↦ absurd (let h = rw (other, neither) at ht in cc)
      ]
    ]

-- A numeral's first character is no sign, no bracket and no space.
pub head_is-numeral :
    (n : ℕ) (text s : String)
    → IsNumeral text
    → (not (leb b'0' n && leb n b'9') && not (eqb n b'.')) ≡ true
    → head_is n (text ⧺ s) ≡ false
unfolding numeric
head_is-numeral n ε s (told, ht) h = cc
head_is-numeral n (c ▸ text) s (told, ht) h = ap (head_is n) (cons-append c text s) ∙ ground arith

pub skip-numeral : (text s : String) → IsNumeral text → skip (text ⧺ s) ≡ text ⧺ s
unfolding skip numeric
skip-numeral ε s (told, ht) = cc
skip-numeral (c ▸ text) s (told, ht) =
    ap skip (cons-append c text s)
    ∙ rw (space-numeral c (ground arith)) (sym (cons-append c text s))
