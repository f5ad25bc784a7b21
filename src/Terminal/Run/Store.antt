-- ===== src/Terminal/Run/Store.antt =====
-- The files behind a line.
use tbd_dev.Prelude.{
  ℕ, String, Bool, true, false, Option, none, some, List, [], ◌∷◌, ◌≡◌, refl, if◌then◌else◌, ◌||◌,
  ◌==◌, get_elem?, Option-cases, inl, inr, leb, length, not, filterb,
}
use tbd_dev.Terminal.Path.{resolve_path}
use tbd_dev.Terminal.Files.{Files, Node, file, dir, get_node, split_last}
use tbd_dev.Terminal.Files.Written.{IsClosed}
use tbd_dev.Terminal.Files.Closed.{write_file-IsClosed}
use tbd_dev.Terminal.Files.Kept.{set-IsClosed, make_dir_at-IsClosed}
use tbd_dev.Terminal.Files.Kept.Relocated.{remove_node-IsClosed, move_node-IsClosed}
use tbd_dev.Terminal.Variables.{Vars, assignments}
use tbd_dev.Terminal.Commands.{CommandResult, World, includes}
use tbd_dev.Terminal.Commands.FileCommands.{
  operands, mkdir, mkdir_one, touch, touch_one, touch_node, rm, rm_one, mv, mv_one, moved, headed,
  forced, exists, no_flag,
}
use tbd_dev.Terminal.Commands.Dispatch.{
  Platform, run_changing, run_command, dispatch, run_command_tokens,
}
use tbd_dev.Terminal.Run.{Session, run_shell}
use tbd_dev.Terminal.Run.Chaining.{run_shell-Inv}

headed-IsClosed :
    (cmd : String) (o : Files × Option String) → IsClosed o.0 → IsClosed (headed cmd o).0
headed-IsClosed cmd (fs, none) h = h
headed-IsClosed cmd (fs, some e) h = h

forced-IsClosed :
    (force : Bool) (o : Files × Option String) → IsClosed o.0 → IsClosed (forced force o).0
forced-IsClosed force (fs, none) h = h
forced-IsClosed force (fs, some e) h = h

operands-IsClosed :
    (step : String → Files → Files × Option String) (args : List String) (fs : Files)
    → ((arg : String) (gs : Files) → IsClosed gs → IsClosed (step arg gs).0)
    → IsClosed fs
    → IsClosed (operands step args fs).0
unfolding operands
operands-IsClosed step [] fs keeps h = h
operands-IsClosed step (arg ∷ args) fs keeps h =
    operands-IsClosed step args (step arg fs).0 keeps (keeps arg fs h)

choose :
    (b : Bool) (x y : Files × Option String)
    → IsClosed x.0
    → IsClosed y.0
    → IsClosed (if b then x else y).0
choose true x y h k = h
choose false x y h k = k

mkdir_one-IsClosed :
    (now : ℕ) (recursive : Bool) (cwd arg : String) (fs : Files)
    → IsClosed fs
    → IsClosed (mkdir_one now recursive cwd arg fs).0
unfolding mkdir_one
mkdir_one-IsClosed now recursive cwd arg fs h =
    choose (exists (get_node fs (resolve_path cwd arg))) _ _ h
      (headed-IsClosed "mkdir: " _ (make_dir_at-IsClosed now (resolve_path cwd arg) recursive fs h))

touch_node-IsClosed :
    (now : ℕ) (fs : Files) (a : ℕ) (o : Option Node)
    → get_elem? fs a ≡ o
    → IsClosed fs
    → IsClosed (touch_node now fs a o)
unfolding touch_node
touch_node-IsClosed now fs a none at h = h
touch_node-IsClosed now fs a (some (file f)) at h = set-IsClosed fs a _ (file f) at (λ p. refl) h
touch_node-IsClosed now fs a (some (dir d)) at h = set-IsClosed fs a _ (dir d) at (λ p. refl) h

touch_one-IsClosed :
    (now : ℕ) (cwd arg : String) (fs : Files) → IsClosed fs → IsClosed (touch_one now cwd arg fs).0
unfolding touch_one
touch_one-IsClosed now cwd arg fs h = elim (Option-cases (get_node fs (resolve_path cwd arg))) [
  | inl new ↦
      rw (new, touch_one)
        (headed-IsClosed "touch: " _ (write_file-IsClosed now (resolve_path cwd arg) "" false fs h))
  | inr (a, old) ↦ rw (old, touch_one) (touch_node-IsClosed now fs a (get_elem? fs a) refl h)
]

mkdir-IsClosed :
    (now : ℕ) (args : List String) (cwd : String) (fs : Files)
    → IsClosed fs
    → IsClosed (mkdir now args cwd fs).0
unfolding mkdir
mkdir-IsClosed now [] cwd fs h = h
mkdir-IsClosed now (arg ∷ args) cwd fs h =
    operands-IsClosed (mkdir_one now (includes "-p" (arg ∷ args)) cwd)
      (filterb (λ (a : String). not (a == "-p")) (arg ∷ args)) fs
      (mkdir_one-IsClosed now (includes "-p" (arg ∷ args)) cwd) h

touch-IsClosed :
    (now : ℕ) (args : List String) (cwd : String) (fs : Files)
    → IsClosed fs
    → IsClosed (touch now args cwd fs).0
unfolding touch
touch-IsClosed now [] cwd fs h = h
touch-IsClosed now (arg ∷ args) cwd fs h =
    operands-IsClosed (touch_one now cwd) (arg ∷ args) fs (touch_one-IsClosed now cwd) h

rm-IsClosed :
    (args : List String) (cwd : String) (fs : Files) → IsClosed fs → IsClosed (rm args cwd fs).0
unfolding rm rm_one
rm-IsClosed [] cwd fs h = h
rm-IsClosed (arg ∷ args) cwd fs h =
    let both = includes "-rf" (arg ∷ args) || includes "-fr" (arg ∷ args) in
    let recursive = includes "-r" (arg ∷ args) || both in
    operands-IsClosed (rm_one recursive (includes "-f" (arg ∷ args) || both) cwd)
      (filterb no_flag (arg ∷ args)) fs
      (λ a gs k. forced-IsClosed _ _ (remove_node-IsClosed (resolve_path cwd a) recursive gs k)) h

moved-IsClosed :
    (cwd : String) (o : Option (List String × String)) (fs : Files)
    → IsClosed fs
    → IsClosed (moved cwd o fs).0
unfolding mv_one
moved-IsClosed cwd none fs h = h
moved-IsClosed cwd (some (sources, dest)) fs h =
    operands-IsClosed (mv_one cwd (resolve_path cwd dest)) sources fs
      (λ a gs k.
        headed-IsClosed "mv: " _
          (move_node-IsClosed (resolve_path cwd a) (resolve_path cwd dest) gs k))
      h

pick :
    (b : Bool) (x y : Files × CommandResult)
    → IsClosed x.0
    → IsClosed y.0
    → IsClosed (if b then x else y).0
pick true x y h k = h
pick false x y h k = k

mv-IsClosed :
    (args : List String) (cwd : String) (fs : Files) → IsClosed fs → IsClosed (mv args cwd fs).0
unfolding mv
mv-IsClosed args cwd fs h =
    pick (leb 2 (length args)) _ _ (moved-IsClosed cwd (split_last args) fs h) h

-- The files that a command leaves.
Keeps : World × CommandResult → Type 0
Keeps (w, r) = IsClosed w.files

among : (b : Bool) (x y : World × CommandResult) → Keeps x → Keeps y → Keeps (if b then x else y)
among true x y h k = h
among false x y h k = k

module _ (js : Platform)
    (others : (cmd : String) (args stdin : List String) (cwd : String) (w : World)
      → IsClosed w.files
      → IsClosed (js.others cmd args stdin cwd w).0) where
  run_changing-Keeps :
      (cmd : String) (args stdin : List String) (cwd : String) (w : World)
      → IsClosed w.files
      → Keeps (run_changing js cmd args stdin cwd w)
  unfolding run_changing Keeps
  run_changing-Keeps cmd args stdin cwd w h =
      among (cmd == "mkdir") _ _ (mkdir-IsClosed js.now args cwd w.files h) (
        among (cmd == "touch") _ _ (touch-IsClosed js.now args cwd w.files h) (
          among (cmd == "rm") _ _ (rm-IsClosed args cwd w.files h) (
            among (cmd == "mv") _ _ (mv-IsClosed args cwd w.files h) (
              among (cmd == "alias") _ _ h (
                among (cmd == "unalias") _ _ h (
                  among (cmd == "export") _ _ h
                    (among (cmd == "unset") _ _ h (others cmd args stdin cwd w h))))))))

  run_command-Keeps :
      (cmd : String) (args stdin : List String) (cwd : String) (w : World)
      → IsClosed w.files
      → Keeps (run_command js cmd args stdin cwd w)
  unfolding run_command Keeps
  run_command-Keeps cmd args stdin cwd w h = among (cmd == "clear" || cmd == "reset") _ _ h (
      among (cmd == "pwd") _ _ h (
        among (cmd == "cd") _ _ h (
          among (cmd == "cat") _ _ h (
            among (cmd == "echo") _ _ h (
              among (cmd == "uniq") _ _ h (
                among (cmd == "env" || cmd == "printenv") _ _ h (
                  among (cmd == "which" || cmd == "type") _ _ h (
                    among (cmd == "file") _ _ h (
                      among (cmd == "true") _ _ h (
                        among (cmd == "false") _ _ h (
                          among (cmd == "yes") _ _ h (
                            among (cmd == "bc" || cmd == "expr") _ _ h
                              (run_changing-Keeps cmd args stdin cwd w h)))))))))))))

  dispatch-Keeps :
      (tokens : List String) (env : Vars) (stdin : List String) (cwd : String) (w : World)
      → IsClosed w.files
      → Keeps (dispatch js (tokens, env) stdin cwd w)
  unfolding Keeps
  dispatch-Keeps [] env stdin cwd w h = h
  dispatch-Keeps (cmd ∷ args) env stdin cwd w h =
      run_command-Keeps cmd args stdin cwd (record w { env = env }) h

  run_command_tokens-IsClosed :
      (tokens stdin : List String) (cwd : String) (w : World)
      → IsClosed w.files
      → IsClosed (run_command_tokens js tokens stdin cwd w).0.files
  unfolding run_command_tokens Keeps
  run_command_tokens-IsClosed tokens stdin cwd w h =
      dispatch-Keeps (assignments tokens w.env).0 (assignments tokens w.env).1 stdin cwd w h

  -- Whatever line is run, with the errors it meets, every entry of the files still leads to a node, if that
  -- was so before and the commands that are not modelled keep it.
  pub run_shell-IsClosed :
      (input : String) (s : Session)
      → IsClosed s.world.files
      → IsClosed (run_shell js input s).0.world.files
  run_shell-IsClosed input s h =
      run_shell-Inv js (λ w cwd. IsClosed w.files) run_command_tokens-IsClosed
        (λ w cwd path text append k.
          write_file-IsClosed js.now (resolve_path cwd path) text append w.files k)
        (λ w cwd env k. k) input s h
