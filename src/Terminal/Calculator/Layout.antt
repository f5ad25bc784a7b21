-- ===== src/Terminal/Calculator/Layout.antt =====
-- What the parser's steps on the text take off: spaces, numerals, operators and brackets.
use Prim.Native.Char.{Char, code}
use Prim.Native.String.{[] as ε, ◌∷◌ as ◌▸◌}
use text.Mathlib.TextEquality.{Char-path}
use text.Mathlib.TextLemmas.{nil-append, cons-append}
use tbd_dev.Prelude.{
  ◌+◌, ◌≤◌, String, Bool, true, false, some, ◌⧺◌, ◌≡◌, refl, ap, sym, ◌∙◌, arith, Bool-cases, inl,
  inr,
}
use tbd_dev.Terminal.Shell.{is_space}
use tbd_dev.Terminal.Calculator.{
  length_text, skip, is_digit, is_dot, in_front, span_number, head_is, drop_head, MulOp, times,
  over, modulo, AddOp, plus, minus, mul_op, add_op, close_bracket,
}
use tbd_dev.Terminal.Calculator.Fuel.{Gives}
use tbd_dev.Terminal.Calculator.Grammar.{blank, numeric, IsBlank, mul_sign, add_sign}

pub length_text-append : (s t : String) → length_text (s ⧺ t) ≡ length_text s + length_text t
unfolding length_text
length_text-append ε t = omega (arith, ap length_text (nil-append t))
length_text-append (c ▸ s) t =
    omega (arith, ap length_text (cons-append c s t), length_text-append s t)

pub head-cons : (c : Char) (s : String) → head_is (code c) s ≡ true → s ≡ (c ▸ drop_head s)
head-cons c ε h = cc
head-cons c (d ▸ s) h = ap (λ (e : Char). e ▸ s) (Char-path d c (ground arith))

-- The spaces that `skip` takes off.
pub skip-IsBlank : (s : String) → (b : String) × IsBlank b × (s ≡ b ⧺ skip s)
unfolding skip blank
skip-IsBlank ε = (ε, refl, sym (nil-append ε))
skip-IsBlank (c ▸ s) = elim (Bool-cases (is_space c)) [
  | inl space ↦
      let (b, hb, e) = skip-IsBlank s in
      (
        c ▸ b,
        rw (space, hb) refl,
        rw space (ap (λ (t : String). c ▸ t) e ∙ sym (cons-append c b (skip s))),
      )
  | inr other ↦ (ε, refl, rw other (sym (nil-append (c ▸ s))))
]

pub skip-blank_append : (b s : String) → IsBlank b → skip (b ⧺ s) ≡ skip s
unfolding skip blank
skip-blank_append ε s h = ap skip (nil-append s)
skip-blank_append (c ▸ b) s h = elim (Bool-cases (is_space c)) [
  | inl space ↦ ap skip (cons-append c b s) ∙ rw space (skip-blank_append b s (rw space at h))
  | inr other ↦ absurd (let h' = rw other at h in cc)
]

pub skip-skip : (s : String) → skip (skip s) ≡ skip s
skip-skip s =
    let (b, hb, e) = skip-IsBlank s in sym (ap skip e ∙ skip-blank_append b (skip s) hb) ∙ refl

pub length-skip : (s : String) → length_text (skip s) ≤ length_text s
length-skip s =
    let (b, hb, e) = skip-IsBlank s in
    omega (arith, ap length_text e, length_text-append b (skip s))

-- What the loop of `parseNumber` takes and leaves.
abbrev pub IsSpan : Bool → String → String × String → Type 0
IsSpan seen s (text, rest) = (numeric seen text ≡ true) × (s ≡ text ⧺ rest)

IsSpan-in_front :
    (seen before : Bool) (c : Char) (s : String) (p : String × String)
    → ((t : String) → numeric before t ≡ true → numeric seen (c ▸ t) ≡ true)
    → IsSpan before s p
    → IsSpan seen (c ▸ s) (in_front c p)
IsSpan-in_front seen before c s (text, rest) k (h, e) =
    (k text h, ap (λ (t : String). c ▸ t) e ∙ sym (cons-append c text rest))

pub span_number-IsSpan : (seen : Bool) (s : String) → IsSpan seen s (span_number seen s)
unfolding span_number numeric
span_number-IsSpan seen ε = (refl, sym (nil-append ε))
span_number-IsSpan seen (c ▸ s) = elim (Bool-cases (is_dot c)) [
  | inl dot ↦ elim (Bool-cases seen) [
    | inl again ↦ rw (dot, again) (refl, sym (nil-append (c ▸ s)))
    | inr first ↦
        rw (dot, first)
          (IsSpan-in_front false true c s (span_number true s) (λ t ht. rw (dot, ht) refl)
            (span_number-IsSpan true s))
  ]
  | inr other ↦ elim (Bool-cases (is_digit c)) [
    | inl digit ↦
        rw (other, digit)
          (IsSpan-in_front seen seen c s (span_number seen s) (λ t ht. rw (other, digit, ht) refl)
            (span_number-IsSpan seen s))
    | inr stop ↦ rw (other, stop) (refl, sym (nil-append (c ▸ s)))
  ]
]

pub mul_op_lem : (s : String) (op : MulOp) → mul_op s ≡ some op → s ≡ (mul_sign op ▸ drop_head s)
unfolding mul_op
mul_op_lem s times h = head-cons "*" s (ground arith)
mul_op_lem s over h = head-cons "/" s (ground arith)
mul_op_lem s modulo h = head-cons "%" s (ground arith)

pub add_op_lem : (s : String) (op : AddOp) → add_op s ≡ some op → s ≡ (add_sign op ▸ drop_head s)
unfolding add_op
add_op_lem s plus h = head-cons "+" s (ground arith)
add_op_lem s minus h = head-cons "-" s (ground arith)

pub close_bracket-Gives : (s : String) → Gives (λ rest. s ≡ (")" ▸ rest)) (close_bracket s)
unfolding close_bracket
close_bracket-Gives s = elim (Bool-cases (head_is b')' s)) [
  | inl closed ↦ rw closed (head-cons ")" s closed)
  | inr open_end ↦ rw open_end tt
]
