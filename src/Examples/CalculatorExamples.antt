-- ===== src/Examples/CalculatorExamples.antt =====
-- The theorems about the calculator, applied.
use mathlib.Core.Option.{bind}
use tbd_dev.Prelude.{String, ◌⧺◌, ◌≡◌, ◌≢◌, refl, some}
use tbd_dev.Terminal.Shell.{is_space}
use tbd_dev.Terminal.Calculator.{
  times, plus, safe_eval_math, parse_expression, parse_number, skip, span_number, mul_op, add_op,
  length_text, apply_mul, apply_add,
}
use tbd_dev.Terminal.Calculator.Fuel.{ok, out_of_fuel}
use tbd_dev.Terminal.Calculator.Grammar.{
  IsBlank, blank, numeric, Factor, number, group, no_factors, factors, term, no_terms, terms,
  Expression, expression, write, factor_value, answer,
}
use tbd_dev.Terminal.Calculator.Sound.{safe_eval_math_sound, safe_eval_math-ends}
use tbd_dev.Terminal.Calculator.Complete.{safe_eval_math-write}
use tbd_dev.Examples.Machine.{tally, whole}

one : Factor
unfolding blank numeric
one = number "" "1" refl (refl, refl)

two : Factor
unfolding blank numeric is_space
two = number " " "2" refl (refl, refl)

-- "2*(1 +2)" with a space in front
product : Expression
unfolding blank is_space numeric
product =
    expression
      (term two (
        factors "" refl times
          (group "" "" refl refl (
            expression (term one no_factors)
              (terms " " refl plus (term (number "" "2" refl (refl, refl)) no_factors) no_terms)))
          no_factors))
      no_terms

safe_eval_math-write_example : safe_eval_math whole (write product ⧺ " ") ≡ ok "IIIIII"
unfolding product one two factor_value apply_mul apply_add tally blank is_space bind
safe_eval_math-write_example = safe_eval_math-write whole product " " refl

safe_eval_math_sound_example :
    (e : Expression) × (b : String) × ("1+1" ≡ write e ⧺ b)
    × IsBlank b
    × (answer whole e ≡ some "II")
unfolding safe_eval_math parse_expression skip is_space span_number mul_op add_op length_text tally
    apply_add parse_number
safe_eval_math_sound_example = safe_eval_math_sound whole "1+1" "II" refl

safe_eval_math-ends_example : safe_eval_math whole "((1" ≢ out_of_fuel
safe_eval_math-ends_example = safe_eval_math-ends whole "((1"
