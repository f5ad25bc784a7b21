-- ===== src/Terminal/Commands/NameCommands.antt =====
-- web/src/app/page.tsx, `runCommandTokens`: `alias`, `unalias`, `export`, `unset` and `which`. `trim` and
-- the sort of keys are JavaScript's.
use Prim.Native.Char.{Char, code}
use Prim.Native.String.{[] as ε, ◌∷◌ as ◌▸◌}
use tbd_dev.Prelude.{
  String, Bool, Option, none, some, List, [], ◌∷◌, ◌⧺◌, ◌||◌, eqb, if◌then◌else◌, map, or_else,
  truthy_text,
}
use tbd_dev.Prelude.{before_mark, after_mark, truthy}
use tbd_dev.Terminal.Variables.{Vars, get_var, set_var, delete_var, is_valid_var_name}
use tbd_dev.Terminal.Commands.{
  OutputLine, CommandResult, error, ok_lines, result, includes, Report, reported, silent, complain,
}

-- `names.join(" ")`
unfoldable pub spaced : List String → String
spaced [] = ""
spaced (w ∷ []) = w
spaced (w ∷ v ∷ ws) = w ⧺ " " ⧺ spaced (v ∷ ws)

abbrev is_quote : Char → Bool
is_quote c = eqb (code c) b'\'' || eqb (code c) b'"'

abbrev without_front : String → String
without_front ε = ε
without_front (c ▸ s) = if is_quote c then s else c ▸ s

abbrev drop_end : Char → String → String → String
drop_end c ε dropped = if is_quote c then ε else c ▸ ε
drop_end c (d ▸ s) dropped = c ▸ dropped

unfoldable pub without_end : String → String
without_end ε = ε
without_end (c ▸ s) = drop_end c s (without_end s)

-- `value.replace(/^['"]|['"]$/g, "")`
unfoldable pub unquote : String → String
unfolding without_end
unquote s = without_end (without_front s)

abbrev alias_line : String × String → String
alias_line (name, value) = "alias " ⧺ name ⧺ "='" ⧺ value ⧺ "'"

abbrev aliased : String → String → Option String → String → Vars → Vars × CommandResult
aliased cwd name none value aliases =
    (aliases, result cwd 1 (error "alias: invalid assignment" ∷ []))
aliased cwd name (some rest) value aliases =
    if truthy_text name
    then (set_var name value aliases, result cwd 0 [])
    else (aliases, result cwd 1 (error "alias: invalid name" ∷ []))

unfoldable pub alias_command :
    (String → String) → List String → String → Vars → Vars × CommandResult
unfolding ok_lines set_var spaced unquote before_mark after_mark
alias_command trim [] cwd aliases = (aliases, result cwd 0 (ok_lines (map alias_line aliases)))
alias_command trim (arg ∷ args) cwd aliases =
    let assignment = trim (spaced (arg ∷ args)) in
    let value = after_mark b'=' assignment in
    aliased cwd (trim (before_mark b'=' assignment)) value (unquote (trim (or_else value "")))
      aliases

unfoldable pub unalias_command : List String → String → Vars → Vars × CommandResult
unfolding delete_var
unalias_command [] cwd aliases = (aliases, result cwd 1 (error "unalias: usage: unalias name" ∷ []))
unalias_command (name ∷ args) cwd aliases =
    if truthy_text name
    then (delete_var name aliases, result cwd 0 [])
    else (aliases, result cwd 1 (error "unalias: usage: unalias name" ∷ []))

-- One operand of `export`.
abbrev exported : String → Option String → Vars → Vars
exported key none env = set_var key (or_else (get_var key env) "") env
exported key (some value) env = set_var key value env

unfoldable pub export_all : List String → Vars → Vars
unfolding is_valid_var_name set_var get_var before_mark after_mark
export_all [] env = env
export_all (arg ∷ args) env = export_all args (
    if is_valid_var_name (before_mark b'=' arg)
    then exported (before_mark b'=' arg) (after_mark b'=' arg) env
    else env)

abbrev key_of : String × String → String
key_of (name, value) = name

abbrev export_line : Vars → String → String
export_line env key = "export " ⧺ key ⧺ "=\"" ⧺ or_else (get_var key env) "undefined" ⧺ "\""

unfoldable pub export_command :
    (List String → List String) → List String → String → Vars → Vars × CommandResult
unfolding ok_lines export_all get_var
export_command sort [] cwd env =
    (env, result cwd 0 (ok_lines (map (export_line env) (sort (map key_of env)))))
export_command sort (arg ∷ args) cwd env = (export_all (arg ∷ args) env, result cwd 0 [])

unfoldable pub unset_all : List String → Vars → Vars
unfolding delete_var
unset_all [] env = env
unset_all (arg ∷ args) env = unset_all args (delete_var arg env)

abbrev env_line : Vars → String → String
env_line env key = key ⧺ "=" ⧺ or_else (get_var key env) "undefined"

unfoldable pub env_command : (List String → List String) → String → Vars → CommandResult
unfolding ok_lines get_var
env_command sort cwd env = result cwd 0 (ok_lines (map (env_line env) (sort (map key_of env))))

-- `which` and `type`
abbrev zinc : String → OutputLine
zinc text = record { text = text; cls = some "text-zinc-300" }

abbrev told : OutputLine → Report → Report
told line r = record r { lines = line ∷ r.lines }

abbrev which_one : List String → Vars → String → Report → Report
which_one commands aliases name r =
    if truthy (get_var name aliases)
    then told (zinc (name ⧺ " is aliased to '" ⧺ or_else (get_var name aliases) "" ⧺ "'")) r
    else if includes name commands
    then told (zinc ("/usr/bin/" ⧺ name)) r
    else complain (name ⧺ " not found") r

unfoldable pub which_all : List String → Vars → List String → Report
unfolding get_var includes
which_all commands aliases [] = silent
which_all commands aliases (name ∷ names) =
    which_one commands aliases name (which_all commands aliases names)

unfoldable pub which_command : List String → String → List String → String → Vars → CommandResult
unfolding which_all
which_command commands cmd [] cwd aliases = result cwd 1 (error (cmd ⧺ ": missing operand") ∷ [])
which_command commands cmd (name ∷ names) cwd aliases =
    if truthy_text name
    then reported cwd (which_all commands aliases (name ∷ names))
    else result cwd 1 (error (cmd ⧺ ": missing operand") ∷ [])
