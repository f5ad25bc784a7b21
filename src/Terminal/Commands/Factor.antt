-- ===== src/Terminal/Commands/Factor.antt =====
-- web/src/app/page.tsx, `runCommandTokens`: `factor`. `Number` and the printing of a number are parameters.
-- The loops take fuel; `none` says that it ran out.
pub mod Primes
use tbd_dev.Prelude.{
  ℕ, zero, suc, ◌/◌, ◌%◌, String, Bool, ◌&&◌, Option, none, some, List, [], ◌∷◌, ◌++◌, ◌⧺◌, map,
  if◌then◌else◌, ltb, leb, eqb, truthy_text,
}
use tbd_dev.Terminal.Commands.{CommandResult, error, ok_lines, result}
use tbd_dev.Terminal.Commands.NameCommands.{spaced}

-- What `Number` reads: a whole number from 0, one that no divisor from 2 divides without a rest and that is
-- finite (below 0, or not whole) with its text, `Infinity`, or `NaN`.
pub data Numeral : Type 0 where
  natural : ℕ → Numeral
  undivided : String → Numeral
  infinity nan : Numeral

abbrev pub pushed : ℕ → Option (List ℕ × ℕ) → Option (List ℕ × ℕ)
pushed d none = none
pushed d (some (factors, value)) = some (d ∷ factors, value)

-- `while (value % divisor === 0)`: the divisors pushed, and the value left.
unfoldable pub divide : ℕ → ℕ → ℕ → Option (List ℕ × ℕ)
divide zero divisor value = none
divide (suc fuel) divisor value =
    let rest = divide fuel divisor (value / divisor) in
    if eqb (value % divisor) 0 then pushed divisor rest else some ([], value)

abbrev pub joined : List ℕ → Option (List ℕ) → Option (List ℕ)
joined factors none = none
joined factors (some rest) = some (factors ++ rest)

abbrev pub and_then : Option (List ℕ × ℕ) → (ℕ → Option (List ℕ)) → Option (List ℕ)
and_then none f = none
and_then (some (factors, value)) f = joined factors (f value)

-- `while (value > 1 && divisor <= value)`
unfoldable pub factor_from : ℕ → ℕ → ℕ → Option (List ℕ)
unfolding divide
factor_from zero divisor value = none
factor_from (suc fuel) divisor value =
    let rest = and_then (divide (suc value) divisor value) (factor_from fuel (suc divisor)) in
    if ltb 1 value && leb divisor value then rest else some []

-- The rounds of the outer loop are fewer than the number.
unfoldable pub factors : ℕ → Option (List ℕ)
unfolding factor_from
factors n = factor_from (suc n) 2 n

abbrev pub factor_line : (ℕ → String) → ℕ → List ℕ → String
factor_line print n found = print n ⧺ ": " ⧺ spaced (map print found)

abbrev invalid : String → CommandResult
invalid cwd = result cwd 1 (error "factor: invalid number" ∷ [])

module _ (number : String → Numeral) (print : ℕ → String) where
  abbrev factored : String → ℕ → Option (List ℕ) → Option CommandResult
  factored cwd n none = none
  factored cwd n (some found) = some (result cwd 0 (ok_lines (factor_line print n found ∷ [])))

  -- `Infinity % divisor` is `NaN` and every divisor is below it, so its loop has no end.
  abbrev pub factor_numeral : String → Numeral → Option CommandResult
  factor_numeral cwd (natural n) = factored cwd n (factors n)
  factor_numeral cwd (undivided text) = some (result cwd 0 (ok_lines ((text ⧺ ": ") ∷ [])))
  factor_numeral cwd infinity = none
  factor_numeral cwd nan = some (invalid cwd)

  unfoldable pub factor : List String → String → Option CommandResult
  unfolding factors ok_lines spaced
  factor [] cwd = some (invalid cwd)
  factor (arg ∷ args) cwd =
      if truthy_text arg then factor_numeral cwd (number arg) else some (invalid cwd)
