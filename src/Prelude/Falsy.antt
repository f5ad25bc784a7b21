-- ===== src/Prelude/Falsy.antt =====
-- JavaScript's truth value of a text that may be null: false at null and at the empty text.
use Prim.Native.String.{String, [], ◌∷◌}
use mathlib.Core.Bool.{Bool, true, false}
use mathlib.Core.Option.{Option, none, some}

abbrev pub truthy_text : String → Bool
truthy_text [] = false
truthy_text (c ∷ s) = true

abbrev pub truthy : Option String → Bool
truthy none = false
truthy (some s) = truthy_text s

-- `o || d`
abbrev pub or_default : Option String → String → String
or_default none d = d
or_default (some []) d = d
or_default (some (c ∷ s)) d = c ∷ s
