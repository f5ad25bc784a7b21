-- ===== src/Examples/RunExamples.antt =====
-- The theorems about the terminal's lines, variables and commands, applied.
use tbd_dev.Prelude.{true, ℕ, List, some, arith, [], ◌∷◌, ◌⧺◌, ◌≡◌, refl}
use tbd_dev.Terminal.Path.{join}
use tbd_dev.Terminal.Path.Resolve.{IsCanonical}
use tbd_dev.Terminal.Variables.{set_var, is_valid_var_name, all_word, expand_token}
use tbd_dev.Terminal.Variables.Expanded.{expand_token-set_var}
use tbd_dev.Terminal.Commands.TextCommands.{uniq_runs}
use tbd_dev.Terminal.Commands.Runs.{unfold_runs, IsApart, uniq_runs_lem}
use tbd_dev.Terminal.Commands.{ok_lines, result}
use tbd_dev.Terminal.Commands.Factor.{natural, factor, factor_line}
use tbd_dev.Terminal.Commands.Factor.Primes.{IsFactored, factor_lem}
use tbd_dev.Terminal.Run.{run_shell}
use tbd_dev.Terminal.Run.Directory.{run_shell-IsCanonical}
use tbd_dev.Examples.Machine.{tally, machine, at_home}

run_shell-IsCanonical_example :
    IsCanonical (run_shell machine "mkdir a; cd a/../a && mkdir b" at_home).0.cwd
unfolding join
run_shell-IsCanonical_example =
    run_shell-IsCanonical machine "mkdir a; cd a/../a && mkdir b" at_home ([], refl, tt)

expand_token-set_var_example :
    expand_token tally ("a/" ⧺ "${name}b") (set_var "name" "x" []) 0 "~"
    ≡ "a/" ⧺ ("x" ⧺ expand_token tally "b" (set_var "name" "x" []) 0 "~")
unfolding is_valid_var_name all_word
expand_token-set_var_example =
    expand_token-set_var tally true "a/" "name" "x" "b" "~" [] 0 refl (refl, (refl, tt)) refl

uniq_runs_lem_example :
    (unfold_runs (uniq_runs ("" ∷ "" ∷ "a" ∷ "" ∷ [])) ≡ "" ∷ "" ∷ "a" ∷ "" ∷ [])
    × IsApart (uniq_runs ("" ∷ "" ∷ "a" ∷ "" ∷ []))
uniq_runs_lem_example = uniq_runs_lem ("" ∷ "" ∷ "a" ∷ "" ∷ [])

factor_lem_example :
    (found : List ℕ) × (factor (λ arg. natural 12) tally ("12" ∷ []) "~"
      ≡ some (result "~" 0 (ok_lines (factor_line tally 12 found ∷ []))))
    × IsFactored 2 12 found
factor_lem_example = factor_lem (λ arg. natural 12) tally "12" "~" [] 12 refl refl (omega arith)
