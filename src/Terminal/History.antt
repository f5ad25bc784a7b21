-- ===== src/Terminal/History.antt =====
-- web/src/app/page.tsx: the command history of the terminal, as the arrow keys walk through it. A
-- command comes with its trimmed text; what the shell does with it is not part of this state.
pub mod Keys
use tbd_dev.Prelude.{
  ℕ, zero, suc, ◌+◌, ◌-◌, String, Bool, true, false, Option, none, some, List, [], ◌∷◌, ◌++◌,
  length, get_elem?, leb, eqb, if◌then◌else◌, truthy_text,
}

pub record History : Type 0 where
  pub commands : List String
  -- `historyIndex`, none for -1
  pub index : Option ℕ
  -- the text of the input line, none for undefined
  pub input : Option String

abbrev pub no_history : History
no_history = record { commands = []; index = none; input = some "" }

-- The end of `handleCommand`.
unfoldable pub submit : String → History → History
submit trimmed h =
    if truthy_text trimmed
    then record { commands = h.commands ++ trimmed ∷ []; index = none; input = some "" }
    else h

-- `Math.max(0, historyIndex - 1)`, or the last index.
abbrev pub earlier : ℕ → Option ℕ → ℕ
earlier n none = n - 1
earlier n (some i) = i - 1

abbrev pub move_to : ℕ → History → History
move_to i h = record h { index = some i; input = get_elem? h.commands i }

unfoldable pub arrow_up : History → History
arrow_up h =
    if eqb (length h.commands) 0 then h else move_to (earlier (length h.commands) h.index) h

abbrev later : ℕ → History → History
later i h =
    if leb (length h.commands) i then record h { index = none; input = some "" } else move_to i h

unfoldable pub arrow_down : History → History
arrow_down h = elim h.index [ none ↦ h | some i ↦ later (i + 1) h ]

-- A change of the input line.
unfoldable pub type_text : String → History → History
type_text text h = record h { input = some text }
