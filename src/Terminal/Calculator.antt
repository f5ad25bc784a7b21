-- ===== src/Terminal/Calculator.antt =====
-- web/src/app/page.tsx: `safeEvalMath`, the calculator behind `bc` and `expr`. A parser's closures over
-- the position `i` take the text from there on and return it with the value; `null` is `failed`, and
-- what the position is behind a failure is read by nothing. JavaScript's numbers are a parameter.
pub mod Fuel
pub mod Grammar
pub mod Layout
pub mod Lengths
pub mod Readings
pub mod Sound
pub mod Follows
pub mod Steps
pub mod Complete
use Prim.Native.Char.{Char, code}
use Prim.Native.String.{[] as ε, ◌∷◌ as ◌▸◌}
use tbd_dev.Prelude.{
  ℕ, zero, suc, ◌+◌, ◌*◌, String, Bool, true, false, Option, none, some, ◌||◌, ◌&&◌, eqb, leb,
  if◌then◌else◌, truthy_text,
}
use tbd_dev.Terminal.Shell.{is_space}
use tbd_dev.Terminal.Calculator.Fuel.{Outcome, ok, failed, out_of_fuel, bind, or_failed}

-- JavaScript's numbers: `Number(text)` without NaN, the operators, and `String(n)`.
pub record Floats : Type 1 where
  pub Number : Type 0
  pub number : String → Option Number
  pub negate : Number → Number
  pub add : Number → Number → Number
  pub subtract : Number → Number → Number
  pub multiply : Number → Number → Number
  pub divide : Number → Number → Number
  pub remainder : Number → Number → Number
  pub is_zero : Number → Bool
  pub is_finite : Number → Bool
  pub show : Number → String

unfoldable pub length_text : String → ℕ
length_text ε = 0
length_text (c ▸ s) = suc (length_text s)

-- `skip`
unfoldable pub skip : String → String
skip ε = ε
skip (c ▸ s) = let rest = skip s in if is_space c then rest else c ▸ s

abbrev pub is_digit : Char → Bool
is_digit c = leb b'0' (code c) && leb (code c) b'9'

abbrev pub is_dot : Char → Bool
is_dot c = eqb (code c) b'.'

abbrev pub in_front : Char → String × String → String × String
in_front c (text, rest) = (c ▸ text, rest)

-- The loop of `parseNumber`: the characters it takes, and those behind them.
unfoldable pub span_number : Bool → String → String × String
span_number seen_dot ε = (ε, ε)
span_number seen_dot (c ▸ s) =
    let with_dot = span_number true s in
    let with_digit = span_number seen_dot s in
    if is_dot c
    then if seen_dot then (ε, c ▸ s) else in_front c with_dot
    else if is_digit c
    then in_front c with_digit
    else (ε, c ▸ s)

abbrev pub head_is : ℕ → String → Bool
head_is n ε = false
head_is n (c ▸ s) = eqb (code c) n

abbrev pub drop_head : String → String
drop_head ε = ε
drop_head (c ▸ s) = s

pub data MulOp : Type 0 where
  times over modulo : MulOp

pub data AddOp : Type 0 where
  plus minus : AddOp

-- The operator at the front of a text, behind which a loop goes on.
unfoldable pub mul_op : String → Option MulOp
mul_op s =
    if head_is b'*' s
    then some times
    else if head_is b'/' s
    then some over
    else if head_is b'%' s
    then some modulo
    else none

unfoldable pub add_op : String → Option AddOp
add_op s = if head_is b'+' s then some plus else if head_is b'-' s then some minus else none

-- The text behind a bracket that must be there.
unfoldable pub close_bracket : String → Outcome String
close_bracket s = if head_is b')' s then ok (drop_head s) else failed

module _ (floats : Floats) where
  abbrev pub Parser : Type 0
  Parser = String → Outcome (floats.Number × String)

  abbrev pub taken : String × String → Outcome (floats.Number × String)
  taken (text, rest) =
      if truthy_text text then bind (or_failed (floats.number text)) (λ v. ok (v, rest)) else failed

  unfoldable pub parse_number : Parser
  unfolding skip span_number
  parse_number s = taken (span_number false (skip s))

  -- One turn of the loop of `parseTerm`, on the right operand.
  unfoldable pub apply_mul : MulOp → floats.Number → floats.Number → Option floats.Number
  apply_mul times v rhs = some (floats.multiply v rhs)
  apply_mul over v rhs = if floats.is_zero rhs then none else some (floats.divide v rhs)
  apply_mul modulo v rhs = if floats.is_zero rhs then none else some (floats.remainder v rhs)

  unfoldable pub apply_add : AddOp → floats.Number → floats.Number → floats.Number
  apply_add plus v rhs = floats.add v rhs
  apply_add minus v rhs = floats.subtract v rhs

  -- What a call leaves of the text is not a structural part of it, so each call costs a unit of fuel.
  unfoldable mutual
    unfolding skip parse_number close_bracket mul_op add_op

    pub parse_factor : ℕ → Parser
    parse_factor zero s = out_of_fuel
    parse_factor (suc f) s =
        let ahead = skip s in
        let inner = parse_factor f (drop_head ahead) in
        let grouped = parse_expression f (drop_head ahead) in
        if head_is b'+' ahead
        then inner
        else if head_is b'-' ahead
        then bind inner (λ (v, rest). ok (floats.negate v, rest))
        else if head_is b'(' ahead
        then bind grouped (λ (v, rest). bind (close_bracket (skip rest)) (λ behind. ok (v, behind)))
        else parse_number ahead

    pub parse_term : ℕ → Parser
    parse_term zero s = out_of_fuel
    parse_term (suc f) s = bind (parse_factor f s) (λ (v, rest). parse_factors f v rest)

    -- The loop of `parseTerm`.
    pub parse_factors : ℕ → floats.Number → Parser
    parse_factors zero v s = out_of_fuel
    parse_factors (suc f) v s = elim (mul_op (skip s)) [
      | none ↦ ok (v, skip s)
      | some op ↦
          bind (parse_factor f (drop_head (skip s)))
            (λ (rhs, rest). bind (or_failed (apply_mul op v rhs)) (λ w. parse_factors f w rest))
    ]

    pub parse_expression : ℕ → Parser
    parse_expression zero s = out_of_fuel
    parse_expression (suc f) s = bind (parse_term f s) (λ (v, rest). parse_terms f v rest)

    -- The loop of `parseExpression`.
    pub parse_terms : ℕ → floats.Number → Parser
    parse_terms zero v s = out_of_fuel
    parse_terms (suc f) v s = elim (add_op (skip s)) [
      | none ↦ ok (v, skip s)
      | some op ↦
          bind (parse_term f (drop_head (skip s)))
            (λ (rhs, rest). parse_terms f (apply_add op v rhs) rest)
    ]

  abbrev pub shown : floats.Number → Outcome String
  shown v = if floats.is_finite v then ok (floats.show v) else failed

  abbrev pub finish : floats.Number × String → Outcome String
  finish (v, rest) = if truthy_text (skip rest) then failed else shown v

  unfoldable pub safe_eval_math : String → Outcome String
  unfolding parse_expression
  safe_eval_math expr = bind (parse_expression (3 * length_text expr + 3) expr) finish
