-- ===== src/Terminal/Run/Directory.antt =====
-- The terminal's directory.
use tbd_dev.Prelude.{
  ℕ, String, Bool, true, false, Option, none, some, List, [], ◌∷◌, ◌≡◌, refl, arith, if◌then◌else◌,
  ◌||◌, not, ◌==◌, truthy_text, sym, subst,
}
use tbd_dev.Terminal.Path.{resolve_path, join}
use tbd_dev.Terminal.Path.Resolve.{IsCanonical, resolve_path-IsCanonical}
use tbd_dev.Terminal.Files.{Files, Node, file, dir}
use tbd_dev.Terminal.Variables.{Vars, assignments}
use tbd_dev.Terminal.Calculator.{Floats}
use tbd_dev.Terminal.Commands.{CommandResult, World}
use tbd_dev.Terminal.Commands.FileCommands.{
  cd, entered, lookup, cat, mkdir, touch, rm, mv, file_command,
}
use tbd_dev.Terminal.Commands.NameCommands.{
  alias_command, unalias_command, export_command, env_command, which_command,
}
use tbd_dev.Terminal.Commands.TextCommands.{pwd, echo, uniq, yes, calculate}
use tbd_dev.Terminal.Commands.Dispatch.{
  Platform, run_changing, run_command, dispatch, run_command_tokens,
}
use tbd_dev.Terminal.Run.{Session, run_shell}
use tbd_dev.Terminal.Run.Chaining.{run_shell-Inv}

cat_stays :
    (args stdin : List String) (cwd : String) (fs : Files) → (cat args stdin cwd fs).cwd ≡ cwd
unfolding cat
cat_stays args stdin cwd fs = ground arith

mkdir_stays :
    (now : ℕ) (args : List String) (cwd : String) (fs : Files) → (mkdir now args cwd fs).1.cwd ≡ cwd
unfolding mkdir
mkdir_stays now args cwd fs = ground arith

touch_stays :
    (now : ℕ) (args : List String) (cwd : String) (fs : Files) → (touch now args cwd fs).1.cwd ≡ cwd
unfolding touch
touch_stays now args cwd fs = ground arith

rm_stays : (args : List String) (cwd : String) (fs : Files) → (rm args cwd fs).1.cwd ≡ cwd
unfolding rm
rm_stays args cwd fs = ground arith

mv_stays : (args : List String) (cwd : String) (fs : Files) → (mv args cwd fs).1.cwd ≡ cwd
unfolding mv
mv_stays args cwd fs = ground arith

file_command_stays :
    (args : List String) (cwd : String) (fs : Files) → (file_command args cwd fs).cwd ≡ cwd
unfolding file_command
file_command_stays args cwd fs = ground arith

alias_command_stays :
    (trim : String → String) (args : List String) (cwd : String) (aliases : Vars)
    → (alias_command trim args cwd aliases).1.cwd ≡ cwd
unfolding alias_command
alias_command_stays trim args cwd aliases = ground arith

unalias_command_stays :
    (args : List String) (cwd : String) (aliases : Vars)
    → (unalias_command args cwd aliases).1.cwd ≡ cwd
unfolding unalias_command
unalias_command_stays args cwd aliases = ground arith

export_command_stays :
    (sort : List String → List String) (args : List String) (cwd : String) (env : Vars)
    → (export_command sort args cwd env).1.cwd ≡ cwd
unfolding export_command
export_command_stays sort args cwd env = ground arith

which_command_stays :
    (commands : List String) (cmd : String) (args : List String) (cwd : String) (aliases : Vars)
    → (which_command commands cmd args cwd aliases).cwd ≡ cwd
unfolding which_command
which_command_stays commands cmd args cwd aliases = ground arith

uniq_stays :
    (print : ℕ → String) (args stdin : List String) (cwd : String) (fs : Files)
    → (uniq print args stdin cwd fs).cwd ≡ cwd
unfolding uniq
uniq_stays print args stdin cwd fs = ground arith

calculate_stays :
    (floats : Floats) (cmd : String) (args : List String) (cwd : String)
    → (calculate floats cmd args cwd).cwd ≡ cwd
unfolding calculate
calculate_stays floats cmd args cwd = ground arith

-- A command ends in the directory where it began, or in a canonical one.
abbrev Ends : String → World × CommandResult → Type 0
Ends cwd (w, r) = IsCanonical r.cwd

choose :
    (cwd : String) (b : Bool) (x y : World × CommandResult)
    → Ends cwd x
    → Ends cwd y
    → Ends cwd (if b then x else y)
choose cwd true x y h k = h
choose cwd false x y h k = k

pick :
    (b : Bool) (x y : CommandResult)
    → IsCanonical x.cwd
    → IsCanonical y.cwd
    → IsCanonical (if b then x else y).cwd
pick true x y h k = h
pick false x y h k = k

home-IsCanonical : IsCanonical "~"
unfolding join
home-IsCanonical = ([], refl, tt)

entered-IsCanonical :
    (cwd arg target : String) (o : Option Node)
    → IsCanonical cwd
    → IsCanonical target
    → IsCanonical (entered cwd arg target o).cwd
entered-IsCanonical cwd arg target none h k = h
entered-IsCanonical cwd arg target (some (file f)) h k = h
entered-IsCanonical cwd arg target (some (dir d)) h k = k

cd-IsCanonical :
    (args : List String) (cwd : String) (fs : Files)
    → IsCanonical cwd
    → IsCanonical (cd args cwd fs).cwd
unfolding cd
cd-IsCanonical [] cwd fs h = home-IsCanonical
cd-IsCanonical (arg ∷ args) cwd fs h =
    pick (not (truthy_text arg) || arg == "~") _ _ home-IsCanonical (
      entered-IsCanonical cwd arg (resolve_path cwd arg) (lookup fs (resolve_path cwd arg)) h
        (resolve_path-IsCanonical cwd arg))

module _ (js : Platform) (cwd : String) (h : IsCanonical cwd) where
  stays : {e : String} → e ≡ cwd → IsCanonical e
  stays e = subst IsCanonical (sym e) h

  run_changing-Ends :
      (cmd : String) (args stdin : List String) (w : World)
      → Ends cwd (run_changing js cmd args stdin cwd w)
  unfolding run_changing
  run_changing-Ends cmd args stdin w =
      choose cwd (cmd == "mkdir") _ _ (stays (mkdir_stays js.now args cwd w.files)) (
        choose cwd (cmd == "touch") _ _ (stays (touch_stays js.now args cwd w.files)) (
          choose cwd (cmd == "rm") _ _ (stays (rm_stays args cwd w.files)) (
            choose cwd (cmd == "mv") _ _ (stays (mv_stays args cwd w.files)) (
              choose cwd (cmd == "alias") _ _
                (stays (alias_command_stays js.trim args cwd w.aliases))
                (choose cwd (cmd == "unalias") _ _
                  (stays (unalias_command_stays args cwd w.aliases))
                  (choose cwd (cmd == "export") _ _
                    (stays (export_command_stays js.sort args cwd w.env))
                    (choose cwd (cmd == "unset") _ _ h h)))))))

  run_command-Ends :
      (cmd : String) (args stdin : List String) (w : World)
      → Ends cwd (run_command js cmd args stdin cwd w)
  unfolding run_command pwd echo env_command yes
  run_command-Ends cmd args stdin w = choose cwd (cmd == "clear" || cmd == "reset") _ _ h (
      choose cwd (cmd == "pwd") _ _ h (
        choose cwd (cmd == "cd") _ _ (cd-IsCanonical args cwd w.files h) (
          choose cwd (cmd == "cat") _ _ (stays (cat_stays args stdin cwd w.files)) (
            choose cwd (cmd == "echo") _ _ h (
              choose cwd (cmd == "uniq") _ _ (stays (uniq_stays js.print args stdin cwd w.files)) (
                choose cwd (cmd == "env" || cmd == "printenv") _ _ h (
                  choose cwd (cmd == "which" || cmd == "type") _ _
                    (stays (which_command_stays js.command_list cmd args cwd w.aliases))
                    (choose cwd (cmd == "file") _ _ (stays (file_command_stays args cwd w.files)) (
                      choose cwd (cmd == "true") _ _ h (
                        choose cwd (cmd == "false") _ _ h (
                          choose cwd (cmd == "yes") _ _ h (
                            choose cwd (cmd == "bc" || cmd == "expr") _ _
                              (stays (calculate_stays js.floats cmd args cwd))
                              (run_changing-Ends cmd args stdin w)))))))))))))

  dispatch-Ends :
      (tokens : List String) (env : Vars) (stdin : List String) (w : World)
      → Ends cwd (dispatch js (tokens, env) stdin cwd w)
  dispatch-Ends [] env stdin w = h
  dispatch-Ends (cmd ∷ args) env stdin w = run_command-Ends cmd args stdin (record w { env = env })

run_command_tokens-IsCanonical :
    (js : Platform) (tokens stdin : List String) (cwd : String) (w : World)
    → IsCanonical cwd
    → IsCanonical (run_command_tokens js tokens stdin cwd w).1.cwd
unfolding run_command_tokens
run_command_tokens-IsCanonical js tokens stdin cwd w h =
    dispatch-Ends js cwd h (assignments tokens w.env).0 (assignments tokens w.env).1 stdin w

-- Whatever line is run, the directory of the terminal stays a path from the home directory down with
-- nothing in it to resolve: no "..", no "." and no empty part.
pub run_shell-IsCanonical :
    (js : Platform) (input : String) (s : Session)
    → IsCanonical s.cwd
    → IsCanonical (run_shell js input s).0.cwd
run_shell-IsCanonical js input s h =
    run_shell-Inv js (λ w cwd. IsCanonical cwd) (run_command_tokens-IsCanonical js)
      (λ w cwd path text append k. k) (λ w cwd env k. k) input s h
