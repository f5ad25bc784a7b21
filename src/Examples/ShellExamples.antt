-- ===== src/Examples/ShellExamples.antt =====
-- The theorems about the terminal's command lines and history, applied.
use tbd_dev.Prelude.{ℕ, String, true, none, some, [], ◌∷◌, ◌++◌, ◌≡◌, refl, arith}
use tbd_dev.Terminal.Shell.{tokenize, split_by_operator, parse_redirection}
use tbd_dev.Terminal.Shell.Quoting.{quoted, tokenize-quoted}
use tbd_dev.Terminal.Shell.Operators.{as_group, split_by_operator_lem}
use tbd_dev.Terminal.Shell.Redirections.{parse_redirection_lem}
use tbd_dev.Terminal.History.{History, no_history}
use tbd_dev.Terminal.History.Keys.{
  enter, typed, up, down, press_all, IsInBounds, press_all-IsInBounds,
}

tokenize-quoted_example : tokenize "'a b' '\"' " ≡ "a b" ∷ "\"" ∷ []
unfolding quoted
tokenize-quoted_example =
    tokenize-quoted ("a b" ∷ "\"" ∷ [])
      ((refl, (omega arith, (omega arith, (omega arith, tt)))), ((refl, (omega arith, tt)), tt))

split_by_operator_lem_example :
    (split_by_operator ("ls" ∷ "-l" ∷ []) "|" ≡ as_group ("ls" ∷ "-l" ∷ []))
    × (split_by_operator ("ls" ∷ "|" ∷ "|" ∷ "wc" ∷ []) "|"
        ≡ split_by_operator ("ls" ∷ []) "|" ++ split_by_operator ("|" ∷ "wc" ∷ []) "|")
split_by_operator_lem_example =
    split_by_operator_lem "|" ("ls" ∷ "-l" ∷ []) ("ls" ∷ []) ("|" ∷ "wc" ∷ []) (refl, (refl, tt))

parse_redirection_lem_example :
    (parse_redirection ("echo" ∷ "hi" ∷ []) ≡ ("echo" ∷ "hi" ∷ [], none))
    × (parse_redirection ("echo" ∷ "hi" ∷ ">>" ∷ []) ≡ ("echo" ∷ "hi" ∷ [], none))
    × (parse_redirection ("echo" ∷ "hi" ∷ ">>" ∷ "log" ∷ "there" ∷ [])
        ≡ ("echo" ∷ "hi" ∷ "there" ∷ [], some (record { path = "log"; append = true })))
parse_redirection_lem_example =
    parse_redirection_lem ("echo" ∷ "hi" ∷ []) ">>" "log" ("there" ∷ []) (refl, (refl, tt)) refl

abbrev say : ℕ → String
say n = "more"

no_history-IsInBounds : IsInBounds no_history
no_history-IsInBounds = record { bound = λ i e. cc; defined = refl }

press_all-IsInBounds_example :
    IsInBounds (press_all (enter "ls" ∷ up ∷ up ∷ typed "l" ∷ down ∷ down ∷ []) no_history)
press_all-IsInBounds_example =
    press_all-IsInBounds (enter "ls" ∷ up ∷ up ∷ typed "l" ∷ down ∷ down ∷ []) no_history
      no_history-IsInBounds

abbrev two_commands : History
two_commands = record no_history { commands = "ls" ∷ "pwd" ∷ [] }
