-- ===== src/Terminal/Commands/TextCommands.antt =====
-- web/src/app/page.tsx, `runCommandTokens`: `pwd`, `echo`, `uniq`, `yes`, `bc` and `expr`.
use tbd_dev.Prelude.{
  ℕ, zero, suc, ◌-◌, String, Bool, Option, none, some, List, [], ◌∷◌, ◌++◌, ◌⧺◌, ◌==◌,
  if◌then◌else◌, map, filterb, truthy_text,
}
use tbd_dev.Prelude.{starts_with}
use tbd_dev.Terminal.Path.{resolve_path, to_absolute}
use tbd_dev.Terminal.Files.{Files, Node, file, get_node}
use tbd_dev.Terminal.Variables.{text_length}
use tbd_dev.Terminal.Calculator.{Floats, safe_eval_math}
use tbd_dev.Terminal.Calculator.Fuel.{Outcome, ok}
use tbd_dev.Terminal.Commands.{CommandResult, error, ok_lines, result, includes}
use tbd_dev.Terminal.Commands.NameCommands.{spaced}
use tbd_dev.Terminal.Commands.FileCommands.{lookup, split_lines, no_flag}

unfoldable pub pwd : String → CommandResult
unfolding ok_lines to_absolute
pwd cwd = result cwd 0 (ok_lines (to_absolute cwd ∷ []))

-- `echo`, which prints a line with `-n` as well
abbrev echoed : List String → List String
echoed [] = []
echoed (arg ∷ args) = if arg == "-n" then args else arg ∷ args

unfoldable pub echo : List String → String → CommandResult
unfolding ok_lines spaced
echo args cwd = result cwd 0 (ok_lines (spaced (echoed args) ∷ []))

-- The loop of `uniq`: the lines that `flush` pushes, with their counts.
unfoldable pub flush : String → ℕ → List (String × ℕ)
flush prev zero = []
flush prev (suc n) = (prev, suc n) ∷ []

unfoldable pub uniq_from : String → ℕ → List String → List (String × ℕ)
unfolding flush
uniq_from prev n [] = flush prev n
uniq_from prev n (line ∷ lines) =
    if line == prev then uniq_from prev (suc n) lines else flush prev n ++ uniq_from line 1 lines

unfoldable pub uniq_runs : List String → List (String × ℕ)
unfolding uniq_from
uniq_runs lines = uniq_from "" 0 lines

-- `s.padStart(n, " ")`
unfoldable pub pad_start : ℕ → String → String
pad_start zero s = s
pad_start (suc n) s = " " ⧺ pad_start n s

abbrev run_line : (ℕ → String) → Bool → String × ℕ → String
run_line print count (line, n) =
    if count then pad_start (7 - text_length (print n)) (print n) ⧺ " " ⧺ line else line

-- The lines of the files up to the first that is missing, and its name.
abbrev lines_of : String → Option Node → List String × Option String → List String × Option String
lines_of name (some (file f)) (lines, missing) = (split_lines f.content ++ lines, missing)
lines_of name _ later = ([], some name)

unfoldable pub read_all : String → Files → List String → List String × Option String
unfolding split_lines get_node resolve_path
read_all cwd fs [] = ([], none)
read_all cwd fs (name ∷ names) =
    lines_of name (lookup fs (resolve_path cwd name)) (read_all cwd fs names)

abbrev uniq_of : (ℕ → String) → Bool → String → List String × Option String → CommandResult
uniq_of print count cwd (lines, some name) =
    result cwd 1 (error ("uniq: " ⧺ name ⧺ ": No such file or directory") ∷ [])
uniq_of print count cwd (lines, none) =
    result cwd 0 (ok_lines (map (run_line print count) (uniq_runs lines)))

abbrev uniq_files : (ℕ → String) → Bool → List String → List String → String → Files → CommandResult
uniq_files print count [] stdin cwd fs = uniq_of print count cwd (stdin, none)
uniq_files print count (name ∷ names) stdin cwd fs =
    uniq_of print count cwd (read_all cwd fs (name ∷ names))

unfoldable pub uniq : (ℕ → String) → List String → List String → String → Files → CommandResult
unfolding ok_lines uniq_runs pad_start text_length read_all includes starts_with
uniq print args stdin cwd fs =
    uniq_files print (includes "-c" args) (filterb no_flag args) stdin cwd fs

-- `yes`: 25 lines
unfoldable pub repeated {ℓ} : {A : Type ℓ} → ℕ → A → List A
repeated zero a = []
repeated (suc n) a = a ∷ repeated n a

abbrev first_or : String → List String → String
first_or d [] = d
first_or d (a ∷ rest) = a

unfoldable pub yes : List String → String → CommandResult
unfolding ok_lines repeated
yes args cwd = result cwd 0 (ok_lines (repeated 25 (first_or "y" args)))

-- `bc` and `expr`; an empty answer would count as none.
abbrev calculated : String → String → Outcome String → CommandResult
calculated cmd cwd (ok answer) =
    if truthy_text answer
    then result cwd 0 (ok_lines (answer ∷ []))
    else result cwd 1 (error (cmd ⧺ ": invalid expression") ∷ [])
calculated cmd cwd _ = result cwd 1 (error (cmd ⧺ ": invalid expression") ∷ [])

unfoldable pub calculate : Floats → String → List String → String → CommandResult
unfolding safe_eval_math ok_lines spaced
calculate floats cmd args cwd = calculated cmd cwd (safe_eval_math floats (spaced args))
