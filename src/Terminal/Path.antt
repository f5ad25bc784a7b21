-- ===== src/Terminal/Path.antt =====
-- web/src/app/page.tsx: `splitPath`, `resolvePath`, `toAbsolute` and `shortCwd`. Texts are lists of
-- code points.
pub mod Split
pub mod Resolve
use Prim.Native.Char.{Char, code}
use Prim.Native.String.{[] as ε, ◌∷◌ as ◌▸◌}
use mathlib.Core.List.{reverse}
use tbd_dev.Prelude.{
  ℕ, String, Bool, true, false, Option, none, some, List, [], ◌∷◌, ◌++◌, ◌⧺◌, ◌≡◌, refl, not, ◌||◌,
  ◌-◌, eqb, leb, ◌==◌, if◌then◌else◌, truthy_text, filterb, length, drop,
}

-- Puts a character in front of the first part.
push_front : Char → List String → List String
push_front c [] = (c ▸ ε) ∷ []
push_front c (p ∷ ps) = (c ▸ p) ∷ ps

-- `s.split("/")`
unfoldable pub split : String → List String
unfolding push_front
split ε = ε ∷ []
split (c ▸ s) = let parts = split s in if eqb (code c) b'/' then ε ∷ parts else push_front c parts

-- `parts.join("/")`
unfoldable pub join : List String → String
join [] = ε
join (p ∷ []) = p
join (p ∷ q ∷ ps) = p ⧺ "/" ⧺ join (q ∷ ps)

unfoldable pub split_path : String → List String
unfolding split
split_path path = filterb truthy_text (split path)

-- The rest of a text behind a prefix: `startsWith` and `slice`.
unfoldable pub strip : String → String → Option String
strip ε s = some s
strip (a ▸ p) ε = none
strip (a ▸ p) (b ▸ s) = let rest = strip p s in if eqb (code a) (code b) then rest else none

-- `if (resolved.length > 1) resolved.pop()`, with the last part at the head.
pop : List String → List String
pop (x ∷ y ∷ rest) = y ∷ rest
pop rest = rest

-- One round of the loop of `resolvePath`.
unfoldable pub resolve_step : List String → String → List String
unfolding pop
resolve_step resolved p =
    if p == "."
    then resolved
    else if p == ".."
    then pop resolved
    else if p == "~"
    then "~" ∷ []
    else p ∷ resolved

unfoldable pub resolve_parts : List String → List String → List String
unfolding resolve_step
resolve_parts resolved [] = resolved
resolve_parts resolved (p ∷ parts) = resolve_parts (resolve_step resolved p) parts

-- The parts that `resolvePath` walks through, by the form of its target.
unfoldable pub target_parts : String → String → List String
unfolding split_path strip
target_parts cwd target = elim (strip "~/" target) [
  | some rest ↦ "~" ∷ split_path rest
  | none ↦ elim (strip "/" target) [
    | some rest ↦ "~" ∷ split_path rest
    | none ↦ split_path cwd ++ split_path target
  ]
]

-- The end of `resolvePath`: the parts in order, with "~" in front.
unfoldable pub rooted : List String → List String
rooted [] = "~" ∷ []
rooted (p ∷ ps) = if p == "~" then p ∷ ps else "~" ∷ p ∷ ps

-- It never returns null, whatever its type says.
unfoldable pub resolve_path : String → String → String
unfolding target_parts resolve_parts rooted join
resolve_path cwd target =
    if not (truthy_text target) || target == "~"
    then "~"
    else if target == "/"
    then "~"
    else join (rooted (reverse (resolve_parts [] (target_parts cwd target))))

abbrev pub home_dir : String
home_dir = "/home/developer"

-- `path.replace("~", HOME_DIR)`: the first occurrence only.
unfoldable pub to_absolute : String → String
to_absolute ε = ε
to_absolute (c ▸ path) =
    let rest = to_absolute path in if eqb (code c) b'~' then home_dir ⧺ path else c ▸ rest

unfoldable pub short_cwd : String → String
unfolding split join
short_cwd cwd =
    if cwd == "~"
    then "~"
    else let parts = split cwd in
      if leb (length parts) 2 then cwd else join (drop (length parts - 2) parts)

up_and_over : resolve_path "~/projects/portfolio" "../.././notes/~/bin//x" ≡ "~/bin/x"
unfolding resolve_path
up_and_over = refl

above_root : resolve_path "~/notes" "../../../../etc" ≡ "~/etc"
unfolding resolve_path
above_root = refl

short : short_cwd "~/projects/portfolio/src" ≡ "portfolio/src"
unfolding short_cwd
short = refl
