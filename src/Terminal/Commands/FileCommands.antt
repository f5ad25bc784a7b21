-- ===== src/Terminal/Commands/FileCommands.antt =====
-- web/src/app/page.tsx, `runCommandTokens`: the commands on files. `resolvePath` returns no empty text, so
-- the tests of its result never fail.
use Prim.Native.Char.{Char, code}
use Prim.Native.String.{[] as ε, ◌∷◌ as ◌▸◌}
use tbd_dev.Prelude.{
  eqb, ℕ, String, Bool, true, false, Option, none, some, List, [], ◌∷◌, ◌++◌, ◌⧺◌, ◌||◌, not, ◌==◌,
  leb, if◌then◌else◌, length, get_elem?, filterb, truthy_text,
}
use tbd_dev.Prelude.{starts_with}
use tbd_dev.Terminal.Path.{resolve_path}
use tbd_dev.Terminal.Files.{Files, Node, file, dir, get_node, set, split_last}
use tbd_dev.Terminal.Files.Write.{write_file, make_dir_at}
use tbd_dev.Terminal.Files.Remove.{remove_node, move_node}
use tbd_dev.Terminal.Commands.{
  OutputLine, CommandResult, error, ok_lines, result, includes, Report, reported, silent, complain,
}

abbrev pub node_at : Files → Option ℕ → Option Node
node_at fs none = none
node_at fs (some a) = get_elem? fs a

abbrev pub lookup : Files → String → Option Node
lookup fs path = node_at fs (get_node fs path)

-- `cd`
abbrev pub entered : String → String → String → Option Node → CommandResult
entered cwd arg target none = result cwd 1 (error ("cd: no such file or directory: " ⧺ arg) ∷ [])
entered cwd arg target (some (file f)) = result cwd 1 (error ("cd: not a directory: " ⧺ arg) ∷ [])
entered cwd arg target (some (dir d)) = result target 0 []

unfoldable pub cd : List String → String → Files → CommandResult
unfolding get_node resolve_path
cd [] cwd fs = result "~" 0 []
cd (arg ∷ args) cwd fs =
    if not (truthy_text arg) || arg == "~"
    then result "~" 0 []
    else entered cwd arg (resolve_path cwd arg) (lookup fs (resolve_path cwd arg))

-- `s.split("\n")`
abbrev push_front : Char → List String → List String
push_front c [] = (c ▸ ε) ∷ []
push_front c (p ∷ ps) = (c ▸ p) ∷ ps

unfoldable pub split_lines : String → List String
split_lines ε = ε ∷ []
split_lines (c ▸ s) =
    let rest = split_lines s in if eqb (code c) 10 then ε ∷ rest else push_front c rest

-- `cat`
abbrev lines_in_front : List OutputLine → Report → Report
lines_in_front ls r = record r { lines = ls ++ r.lines }

abbrev shown : String → Option Node → Report → Report
shown arg none r = complain ("cat: " ⧺ arg ⧺ ": No such file or directory") r
shown arg (some (dir d)) r = complain ("cat: " ⧺ arg ⧺ ": Is a directory") r
shown arg (some (file f)) r = lines_in_front (ok_lines (split_lines f.content)) r

unfoldable pub cat_all : String → Files → List String → Report
unfolding split_lines ok_lines get_node resolve_path
cat_all cwd fs [] = silent
cat_all cwd fs (arg ∷ args) = shown arg (lookup fs (resolve_path cwd arg)) (cat_all cwd fs args)

unfoldable pub cat : List String → List String → String → Files → CommandResult
unfolding cat_all ok_lines
cat [] stdin cwd fs = result cwd 0 (ok_lines stdin)
cat (arg ∷ args) stdin cwd fs = reported cwd (cat_all cwd fs (arg ∷ args))

-- The loop over operands: each changes the files, and may complain.
abbrev noted : Option String → Report → Report
noted none r = r
noted (some text) r = complain text r

abbrev behind : Option String → Files × Report → Files × Report
behind message (fs, r) = (fs, noted message r)

unfoldable pub operands :
    (String → Files → Files × Option String) → List String → Files → Files × Report
operands step [] fs = (fs, silent)
operands step (arg ∷ args) fs = behind (step arg fs).1 (operands step args (step arg fs).0)

abbrev finished : String → Files × Report → Files × CommandResult
finished cwd (fs, r) = (fs, reported cwd r)

abbrev stopped : String → Files → String → Files × CommandResult
stopped cwd fs text = (fs, result cwd 1 (error text ∷ []))

abbrev pub headed : String → Files × Option String → Files × Option String
headed cmd (fs, none) = (fs, none)
headed cmd (fs, some e) = (fs, some (cmd ⧺ e))

abbrev pub exists : Option ℕ → Bool
exists none = false
exists (some a) = true

-- `mkdir`
unfoldable pub mkdir_one : ℕ → Bool → String → String → Files → Files × Option String
unfolding get_node resolve_path make_dir_at
mkdir_one now recursive cwd arg fs =
    if exists (get_node fs (resolve_path cwd arg))
    then (
      fs,
      if recursive
          then none
          else some ("mkdir: cannot create directory '" ⧺ arg ⧺ "': File exists"),
    )
    else headed "mkdir: " (make_dir_at now (resolve_path cwd arg) recursive fs)

unfoldable pub mkdir : ℕ → List String → String → Files → Files × CommandResult
unfolding includes operands mkdir_one
mkdir now [] cwd fs = stopped cwd fs "mkdir: missing operand"
mkdir now (arg ∷ args) cwd fs = finished cwd (
    operands (mkdir_one now (includes "-p" (arg ∷ args)) cwd)
      (filterb (λ (a : String). not (a == "-p")) (arg ∷ args)) fs)

-- `touch`
abbrev stamp : ℕ → Node → Node
stamp now (file f) = file (record f { mtime = now })
stamp now (dir d) = dir (record d { mtime = now })

unfoldable pub touch_node : ℕ → Files → ℕ → Option Node → Files
unfolding set
touch_node now fs a none = fs
touch_node now fs a (some n) = set fs a (stamp now n)

unfoldable pub touch_one : ℕ → String → String → Files → Files × Option String
unfolding get_node resolve_path write_file touch_node
touch_one now cwd arg fs = elim (get_node fs (resolve_path cwd arg)) [
  | some a ↦ (touch_node now fs a (get_elem? fs a), none)
  | none ↦ headed "touch: " (write_file now (resolve_path cwd arg) "" false fs)
]

unfoldable pub touch : ℕ → List String → String → Files → Files × CommandResult
unfolding operands touch_one
touch now [] cwd fs = stopped cwd fs "touch: missing file operand"
touch now (arg ∷ args) cwd fs = finished cwd (operands (touch_one now cwd) (arg ∷ args) fs)

-- `rm`
abbrev pub forced : Bool → Files × Option String → Files × Option String
forced force (fs, none) = (fs, none)
forced force (fs, some e) = (fs, if force then none else some ("rm: " ⧺ e))

unfoldable pub rm_one : Bool → Bool → String → String → Files → Files × Option String
unfolding resolve_path remove_node
rm_one recursive force cwd arg fs = forced force (remove_node (resolve_path cwd arg) recursive fs)

abbrev pub no_flag : String → Bool
no_flag a = not (starts_with a "-")

unfoldable pub rm : List String → String → Files → Files × CommandResult
unfolding includes operands rm_one starts_with
rm [] cwd fs = stopped cwd fs "rm: missing operand"
rm (arg ∷ args) cwd fs =
    let both = includes "-rf" (arg ∷ args) || includes "-fr" (arg ∷ args) in
    finished cwd (
      operands
        (rm_one (includes "-r" (arg ∷ args) || both) (includes "-f" (arg ∷ args) || both) cwd)
        (filterb no_flag (arg ∷ args)) fs)

-- `mv`
unfoldable pub mv_one : String → String → String → Files → Files × Option String
unfolding resolve_path move_node
mv_one cwd dest arg fs = headed "mv: " (move_node (resolve_path cwd arg) dest fs)

abbrev pub moved : String → Option (List String × String) → Files → Files × CommandResult
moved cwd none fs = stopped cwd fs "mv: missing file operand"
moved cwd (some (sources, dest)) fs =
    finished cwd (operands (mv_one cwd (resolve_path cwd dest)) sources fs)

unfoldable pub mv : List String → String → Files → Files × CommandResult
unfolding operands mv_one split_last resolve_path
mv args cwd fs =
    if leb 2 (length args)
    then moved cwd (split_last args) fs
    else stopped cwd fs "mv: missing file operand"

-- `arg.endsWith(".json")`
unfoldable pub ends_with_json : String → Bool
ends_with_json ε = false
ends_with_json (c ▸ s) = let rest = ends_with_json s in (c ▸ s) == ".json" || rest

-- `file`
abbrev kind : String → String → Option Node → CommandResult
kind cwd arg none = result cwd 1 (error ("file: cannot open '" ⧺ arg ⧺ "'") ∷ [])
kind cwd arg (some (dir d)) = result cwd 0 (ok_lines ((arg ⧺ ": directory") ∷ []))
kind cwd arg (some (file f)) =
    result cwd 0 (
      ok_lines
        ((arg ⧺ ": " ⧺ (if ends_with_json arg then "JSON text data" else "ASCII text")) ∷ []))

unfoldable pub file_command : List String → String → Files → CommandResult
unfolding ok_lines get_node resolve_path ends_with_json
file_command [] cwd fs = result cwd 1 (error "file: missing operand" ∷ [])
file_command (arg ∷ args) cwd fs =
    if truthy_text arg
    then kind cwd arg (lookup fs (resolve_path cwd arg))
    else result cwd 1 (error "file: missing operand" ∷ [])
