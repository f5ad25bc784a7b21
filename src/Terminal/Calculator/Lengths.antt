-- ===== src/Terminal/Calculator/Lengths.antt =====
-- How much of a text is left behind a part of it.
use Prim.Native.Char.{Char, code}
use Prim.Native.String.{[] as ε, ◌∷◌ as ◌▸◌}
use text.Mathlib.TextLemmas.{nil-append, cons-append, append_assoc, append-nil}
use tbd_dev.Prelude.{◌<◌, String, true, false, some, ◌⧺◌, ◌≡◌, refl, ap, ◌∙◌, arith, truthy_text}
use tbd_dev.Terminal.Calculator.{
  length_text, skip, head_is, drop_head, AddOp, MulOp, mul_op, add_op,
}
use tbd_dev.Terminal.Calculator.Grammar.{
  IsBlank, mul_sign, add_sign, Factor, number, positive, negative, group, Term, term, write_factor,
  write_factors, write_term, write,
}
use tbd_dev.Terminal.Calculator.Layout.{
  length_text-append, head-cons, skip-IsBlank, length-skip, mul_op_lem, add_op_lem,
}

pub bracket-append : (s : String) → ")" ⧺ s ≡ (")" ▸ s)
bracket-append s = cons-append ")" ε s ∙ ap (λ t. ")" ▸ t) (nil-append s)

pub length-write_factor_pos : (e : Factor) → 0 < length_text (write_factor e)
unfolding write_factor length_text
length-write_factor_pos (number s ε hs (told, ht)) = cc
length-write_factor_pos (number s (c ▸ text) hs ht) = omega (arith, length_text-append s (c ▸ text))
length-write_factor_pos (positive s hs e) =
    omega (arith, length_text-append s ("+" ▸ write_factor e))
length-write_factor_pos (negative s hs e) =
    omega (arith, length_text-append s ("-" ▸ write_factor e))
length-write_factor_pos (group s end hs he e) =
    omega (arith, length_text-append s ("(" ▸ (write e ⧺ (end ⧺ (")" ▸ ε)))))

-- What is left behind a written factor is shorter.
pub length-behind :
    (e : Factor) (s rest : String) → s ≡ write_factor e ⧺ rest → length_text rest < length_text s
length-behind e s rest h =
    omega
      (arith, length-write_factor_pos e, ap length_text h, length_text-append (write_factor e) rest)

pub length-behind_term :
    (t : Term) (s rest : String) → s ≡ write_term t ⧺ rest → length_text rest < length_text s
unfolding write_factor
length-behind_term (term e es) s rest h = omega (
  arith,
  length-behind e s (write_factors es ⧺ rest)
      (h ∙ append_assoc (write_factor e) (write_factors es) rest),
  length_text-append (write_factors es) rest,
)

pub length-drop_head :
    (c : Char) (s : String)
    → skip s ≡ (c ▸ drop_head (skip s))
    → length_text (drop_head (skip s)) < length_text s
unfolding length_text
length-drop_head c s here = omega (arith, ap length_text here, length-skip s)

pub length-drop_mul :
    (op : MulOp) (s : String)
    → mul_op (skip s) ≡ some op
    → length_text (drop_head (skip s)) < length_text s
length-drop_mul op s found = length-drop_head (mul_sign op) s (mul_op_lem (skip s) op found)

pub length-drop_add :
    (op : AddOp) (s : String)
    → add_op (skip s) ≡ some op
    → length_text (drop_head (skip s)) < length_text s
length-drop_add op s found = length-drop_head (add_sign op) s (add_op_lem (skip s) op found)

pub length-drop :
    (c : Char) (s : String)
    → head_is (code c) (skip s) ≡ true
    → length_text (drop_head (skip s)) < length_text s
length-drop c s here = length-drop_head c s (head-cons c (skip s) here)

pub empty_of_falsy : (s : String) → truthy_text s ≡ false → s ≡ ε
empty_of_falsy ε h = refl
empty_of_falsy (c ▸ s) h = cc

-- A text of which `skip` leaves nothing is blank.
pub IsBlank-of_skip : (s : String) → skip s ≡ ε → (b : String) × IsBlank b × (s ≡ b)
IsBlank-of_skip s h =
    let (b, hb, e) = skip-IsBlank s in (b, hb, e ∙ ap (λ t. b ⧺ t) h ∙ append-nil b)
