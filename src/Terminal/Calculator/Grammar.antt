-- ===== src/Terminal/Calculator/Grammar.antt =====
-- The arithmetic expressions, as trees that keep the spaces: how a tree is written, and what it is worth.
use Prim.Native.Char.{Char}
use Prim.Native.String.{[] as ε, ◌∷◌ as ◌▸◌}
use mathlib.Core.Option.{map, bind}
use tbd_dev.Prelude.{
  String, Bool, true, false, Option, none, some, ◌⧺◌, ◌&&◌, not, ◌≡◌, if◌then◌else◌, truthy_text,
}
use tbd_dev.Terminal.Shell.{is_space}
use tbd_dev.Terminal.Calculator.{
  Floats, MulOp, times, over, modulo, AddOp, plus, minus, is_digit, is_dot, apply_mul, apply_add,
}

-- Spaces, possibly none.
unfoldable pub blank : String → Bool
blank ε = true
blank (c ▸ s) = is_space c && blank s

-- Digits, with at most one dot or none.
unfoldable pub numeric : Bool → String → Bool
numeric seen_dot ε = true
numeric seen_dot (c ▸ s) =
    let with_dot = numeric true s in
    let with_digit = numeric seen_dot s in
    if is_dot c then not seen_dot && with_dot else is_digit c && with_digit

-- A numeral: at least one character, digits and at most one dot.
abbrev pub IsNumeral : String → Type 0
IsNumeral text = (truthy_text text ≡ true) × (numeric false text ≡ true)

abbrev pub IsBlank : String → Type 0
IsBlank s = blank s ≡ true

mutual
  -- Each operand with the spaces in front of it, and a bracket with those in front of its end.
  pub data Factor : Type 0 where
    number : (s text : String) → IsBlank s → IsNumeral text → Factor
    positive : (s : String) → IsBlank s → Factor → Factor
    negative : (s : String) → IsBlank s → Factor → Factor
    group : (s end : String) → IsBlank s → IsBlank end → Expression → Factor

  -- The operands behind the first of a product, each behind its operator.
  pub data Factors : Type 0 where
    no_factors : Factors
    factors : (s : String) → IsBlank s → MulOp → Factor → Factors → Factors

  pub data Term : Type 0 where
    term : Factor → Factors → Term

  pub data Terms : Type 0 where
    no_terms : Terms
    terms : (s : String) → IsBlank s → AddOp → Term → Terms → Terms

  pub data Expression : Type 0 where
    expression : Term → Terms → Expression

abbrev pub mul_sign : MulOp → Char
mul_sign times = "*"
mul_sign over = "/"
mul_sign modulo = "%"

abbrev pub add_sign : AddOp → Char
add_sign plus = "+"
add_sign minus = "-"

unfoldable mutual
  pub write_factor : Factor → String
  write_factor (number s text hs ht) = s ⧺ text
  write_factor (positive s hs e) = s ⧺ ("+" ▸ write_factor e)
  write_factor (negative s hs e) = s ⧺ ("-" ▸ write_factor e)
  write_factor (group s end hs he e) = s ⧺ ("(" ▸ (write e ⧺ (end ⧺ (")" ▸ ε))))

  pub write_factors : Factors → String
  write_factors no_factors = ε
  write_factors (factors s hs op e es) = s ⧺ (mul_sign op ▸ (write_factor e ⧺ write_factors es))

  pub write_term : Term → String
  write_term (term e es) = write_factor e ⧺ write_factors es

  pub write_terms : Terms → String
  write_terms no_terms = ε
  write_terms (terms s hs op t ts) = s ⧺ (add_sign op ▸ (write_term t ⧺ write_terms ts))

  pub write : Expression → String
  write (expression t ts) = write_term t ⧺ write_terms ts

module _ (floats : Floats) where
  -- The operators of a product, and of a sum, apply from the left; `none` for a numeral without a digit
  -- and for a division by zero.
  unfoldable mutual
    pub factor_value : Factor → Option floats.Number
    factor_value (number s text hs ht) = floats.number text
    factor_value (positive s hs e) = factor_value e
    factor_value (negative s hs e) = map floats.negate (factor_value e)
    factor_value (group s end hs he e) = value e

    pub factors_value : Factors → floats.Number → Option floats.Number
    factors_value no_factors v = some v
    factors_value (factors s hs op e es) v =
        bind (factor_value e) (λ rhs. bind (apply_mul floats op v rhs) (λ w. factors_value es w))

    pub term_value : Term → Option floats.Number
    term_value (term e es) = bind (factor_value e) (λ v. factors_value es v)

    pub terms_value : Terms → floats.Number → Option floats.Number
    terms_value no_terms v = some v
    terms_value (terms s hs op t ts) v =
        bind (term_value t) (λ rhs. terms_value ts (apply_add floats op v rhs))

    pub value : Expression → Option floats.Number
    value (expression t ts) = bind (term_value t) (λ v. terms_value ts v)

  -- The text of the value, if it is finite.
  abbrev pub finite : floats.Number → Option String
  finite v = if floats.is_finite v then some (floats.show v) else none

  abbrev pub answer : Expression → Option String
  answer e = bind (value e) finite
