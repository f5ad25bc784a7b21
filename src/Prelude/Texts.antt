-- ===== src/Prelude/Texts.antt =====
-- JavaScript's text methods that the components share.
use Prim.Native.Char.{Char, code}
use Prim.Native.Nat.{ℕ}
use Prim.Native.String.{String, [], ◌∷◌}
use mathlib.Core.Bool.{Bool, true, false, ◌&&◌}
use mathlib.Core.Option.{Option, none, some}
use tbd_dev.Prelude.Tests.{eqb, if◌then◌else◌}

-- `s.startsWith(p)`
unfoldable pub starts_with : String → String → Bool
starts_with s [] = true
starts_with [] (a ∷ p) = false
starts_with (b ∷ s) (a ∷ p) = eqb (code a) (code b) && starts_with s p

abbrev strip_front : ℕ → Char → String → String
strip_front end c [] = if eqb (code c) end then [] else c ∷ []
strip_front end c (d ∷ s) = c ∷ d ∷ s

-- The text without the occurrences of a character at its end: `s.replace(/c+$/, "")`.
unfoldable pub strip_end : ℕ → String → String
strip_end end [] = []
strip_end end (c ∷ s) = strip_front end c (strip_end end s)

-- The text up to the first occurrence of a character, and the text behind it.
unfoldable pub before_mark : ℕ → String → String
before_mark mark [] = []
before_mark mark (c ∷ s) =
    let rest = before_mark mark s in if eqb (code c) mark then [] else c ∷ rest

unfoldable pub after_mark : ℕ → String → Option String
after_mark mark [] = none
after_mark mark (c ∷ s) = let rest = after_mark mark s in if eqb (code c) mark then some s else rest

-- `s.split(mark)[1]`
unfoldable pub second_part : ℕ → String → Option String
unfolding before_mark after_mark
second_part mark s = elim (after_mark mark s) [
  | none ↦ none
  | some rest ↦ some (before_mark mark rest)
]
