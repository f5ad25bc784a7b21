-- ===== src/Terminal/Variables.antt =====
-- web/src/app/page.tsx: the variables and aliases of the terminal, and how a token is expanded. A record of
-- texts is a list of entries under distinct names, in the order in which they were added. The program's
-- records are JavaScript objects, which also find the names of `Object.prototype`, such as `toString`, where
-- nothing was set under them; those are not modelled.
pub mod Expanded
use Prim.Native.Char.{Char, code}
use Prim.Native.String.{[] as ε, ◌∷◌ as ◌▸◌}
use tbd_dev.Prelude.{
  ℕ, zero, suc, ◌+◌, String, Bool, true, false, Option, none, some, List, [], ◌∷◌, ◌⧺◌, ◌||◌, ◌&&◌,
  ◌==◌, eqb, leb, if◌then◌else◌, or_else, or_default,
}
use tbd_dev.Prelude.{before_mark, after_mark}
use tbd_dev.Terminal.Path.{home_dir, to_absolute}

abbrev pub Vars : Type 0
Vars = List (String × String)

-- `vars[name]`
unfoldable pub get_var : String → Vars → Option String
get_var name [] = none
get_var name ((k, v) ∷ vars) = if k == name then some v else get_var name vars

-- `vars[name] = value`
unfoldable pub set_var : String → String → Vars → Vars
set_var name value [] = (name, value) ∷ []
set_var name value ((k, v) ∷ vars) =
    if k == name then (k, value) ∷ vars else (k, v) ∷ set_var name value vars

-- `delete vars[name]`
unfoldable pub delete_var : String → Vars → Vars
delete_var name [] = []
delete_var name ((k, v) ∷ vars) =
    let rest = delete_var name vars in if k == name then rest else (k, v) ∷ rest

-- `[A-Za-z_]` and `\w`
abbrev pub is_letter : Char → Bool
is_letter c =
    (leb b'A' (code c) && leb (code c) b'Z')
    || (leb b'a' (code c) && leb (code c) b'z')
    || eqb (code c) b'_'

abbrev pub is_word : Char → Bool
is_word c = is_letter c || (leb b'0' (code c) && leb (code c) b'9')

unfoldable pub all_word : String → Bool
all_word ε = true
all_word (c ▸ s) = is_word c && all_word s

-- `isValidVarName`
unfoldable pub is_valid_var_name : String → Bool
unfolding all_word
is_valid_var_name ε = false
is_valid_var_name (c ▸ s) = is_letter c && all_word s

-- The characters of a name at the front of a text: `\w+`.
unfoldable pub word_front : String → String
word_front ε = ε
word_front (c ▸ s) = let rest = word_front s in if is_word c then c ▸ rest else ε

unfoldable pub text_length : String → ℕ
text_length ε = 0
text_length (c ▸ s) = suc (text_length s)

abbrev has_mark : Option String → Bool
has_mark none = false
has_mark (some rest) = true

-- What the expression finds behind a `$`, as the key and the number of characters; `{` wants a `}` behind
-- one character or more.
abbrev braced : String → Option String → Option (String × ℕ)
braced ε behind = none
braced (c ▸ s) none = none
braced (c ▸ s) (some behind) = some (c ▸ s, 2 + text_length (c ▸ s))

abbrev special : String → Option (String × ℕ)
special ε = none
special (c ▸ s) =
    if eqb (code c) b'?'
    then some ("?", 1)
    else if eqb (code c) b'{'
    then braced (before_mark b'}' s) (after_mark b'}' s)
    else none

abbrev named : String → String → Option (String × ℕ)
named s ε = special s
named s (c ▸ word) = some (c ▸ word, text_length (c ▸ word))

unfoldable pub variable_at : String → Option (String × ℕ)
unfolding word_front text_length before_mark after_mark
variable_at s = named s (word_front s)

-- The replacer of `expandToken`.
unfoldable pub value_of : (ℕ → String) → Vars → ℕ → String → String → String
unfolding get_var to_absolute
value_of print env last_status cwd key =
    if key == "?"
    then print last_status
    else if key == "PWD"
    then or_else (get_var "PWD" env) (to_absolute cwd)
    else if key == "HOME"
    then or_else (get_var "HOME" env) home_dir
    else or_else (get_var key env) ""

-- The global replacement; `skip` counts the characters of a match that are still to be passed.
unfoldable pub expand_from : (String → String) → ℕ → String → String
unfolding variable_at
expand_from value skip ε = ε
expand_from value (suc n) (c ▸ s) = expand_from value n s
expand_from value zero (c ▸ s) =
    if eqb (code c) b'$'
    then elim (variable_at s) [
      | none ↦ c ▸ expand_from value zero s
      | some (key, n) ↦ value key ⧺ expand_from value n s
    ]
    else c ▸ expand_from value zero s

unfoldable pub expand_token : (ℕ → String) → String → Vars → ℕ → String → String
unfolding expand_from value_of
expand_token print token env last_status cwd =
    expand_from (value_of print env last_status cwd) zero token

-- `/^[A-Za-z_][A-Za-z0-9_]*=.*/`
unfoldable pub is_assignment : String → Bool
unfolding is_valid_var_name
is_assignment token = has_mark (after_mark b'=' token) && is_valid_var_name (before_mark b'=' token)

abbrev pub assign : String → Option String → Vars → Vars
assign key none env = env
assign key (some value) env = if is_valid_var_name key then set_var key value env else env

-- The loop over the assignments in front of a command: the tokens behind them, and the variables.
unfoldable pub assignments : List String → Vars → List String × Vars
unfolding is_assignment set_var
assignments [] env = ([], env)
assignments (token ∷ tokens) env =
    if is_assignment token
    then assignments tokens (assign (before_mark b'=' token) (after_mark b'=' token) env)
    else (token ∷ tokens, env)
