-- ===== src/Terminal/History/Keys.antt =====
-- Walking through the history.
use tbd_dev.Prelude.{
  ℕ, zero, suc, ◌+◌, ◌-◌, ◌<◌, String, true, false, Option, none, some, List, [], ◌∷◌, ◌≡◌, ◌≢◌,
  refl, arith, length, get_elem?, leb, eqb, truthy_text, is_some, Bool-cases, inl, inr, ap, ◌∙◌,
}
use tbd_dev.Terminal.History.{History, submit, arrow_up, arrow_down, type_text, move_to, earlier}

pub data Key : Type 0 where
  enter typed : String → Key
  up down : Key

pub press : Key → History → History
press (enter text) h = submit text h
press (typed text) h = type_text text h
press up h = arrow_up h
press down h = arrow_down h

pub press_all : List Key → History → History
press_all [] h = h
press_all (k ∷ ks) h = press_all ks (press k h)

-- The index stands at a command, and the input line is a text.
pub record IsInBounds (h : History) : Type 0 where
  pub bound : (i : ℕ) → h.index ≡ some i → i < length h.commands
  pub defined : is_some h.input ≡ true

get_elem?-is_some : (xs : List String) (i : ℕ) → i < length xs → is_some (get_elem? xs i) ≡ true
get_elem?-is_some [] i h = absurd (omega arith)
get_elem?-is_some (x ∷ xs) zero h = refl
get_elem?-is_some (x ∷ xs) (suc i) h = get_elem?-is_some xs i (omega arith)

move_to-IsInBounds : (i : ℕ) (h : History) → i < length h.commands → IsInBounds (move_to i h)
move_to-IsInBounds i h lt = record {
  bound = λ j e. ground arith;
  defined = get_elem?-is_some h.commands i lt;
}

earlier_lt : (n : ℕ) (o : Option ℕ) → ((i : ℕ) → o ≡ some i → i < n) → n ≢ 0 → earlier n o < n
earlier_lt n none b nonzero = omega arith
earlier_lt n (some i) b nonzero = omega (arith, b i refl)

arrow_up-IsInBounds : (h : History) → IsInBounds h → IsInBounds (arrow_up h)
unfolding arrow_up
arrow_up-IsInBounds h w = elim (Bool-cases (eqb (length h.commands) 0)) [
  | inl empty ↦ rw empty w
  | inr some_commands ↦ rw some_commands (
      move_to-IsInBounds (earlier (length h.commands) h.index) h
        (earlier_lt (length h.commands) h.index w.bound (ground arith)))
]

arrow_down-IsInBounds : (h : History) → IsInBounds h → IsInBounds (arrow_down h)
unfolding arrow_down
arrow_down-IsInBounds h w = stepped h.index refl
  where
    stepped : (o : Option ℕ) → h.index ≡ o → IsInBounds (arrow_down h)
    stepped none e = rw (e, arrow_down) w
    stepped (some i) e = elim (Bool-cases (leb (length h.commands) (i + 1))) [
      | inl past ↦ rw (e, arrow_down, past) (record { bound = λ j f. cc; defined = refl })
      | inr within ↦ rw (e, arrow_down, within) (move_to-IsInBounds (i + 1) h (ground arith))
    ]

press-IsInBounds : (k : Key) (h : History) → IsInBounds h → IsInBounds (press k h)
unfolding press submit type_text
press-IsInBounds (enter text) h w = elim (Bool-cases (truthy_text text)) [
  | inl told ↦ rw told (record { bound = λ i e. cc; defined = refl })
  | inr empty ↦ rw empty w
]
press-IsInBounds (typed text) h w = record { bound = w.bound; defined = refl }
press-IsInBounds up h w = arrow_up-IsInBounds h w
press-IsInBounds down h w = arrow_down-IsInBounds h w

-- Whatever keys are pressed, the history index stands at a command or nowhere, and the input line is
-- never undefined, if that holds at first.
pub press_all-IsInBounds :
    (ks : List Key) (h : History) → IsInBounds h → IsInBounds (press_all ks h)
unfolding press_all
press_all-IsInBounds [] h w = w
press_all-IsInBounds (k ∷ ks) h w = press_all-IsInBounds ks (press k h) (press-IsInBounds k h w)

unfoldable pub ups : ℕ → History → History
unfolding arrow_up
ups zero h = h
ups (suc k) h = arrow_up (ups k h)

nonempty_length : (xs : List String) → xs ≢ [] → eqb (length xs) 0 ≡ false
nonempty_length [] h = absurd (h refl)
nonempty_length (x ∷ xs) h = ground arith

arrow_up_first :
    (h : History)
    → h.index ≡ none
    → h.commands ≢ []
    → arrow_up h ≡ move_to (length h.commands - 1) h
unfolding arrow_up
arrow_up_first h none_yet some_commands =
    rw (nonempty_length h.commands some_commands, none_yet) refl

arrow_up-move_to :
    (i : ℕ) (h : History) → h.commands ≢ [] → arrow_up (move_to i h) ≡ move_to (i - 1) h
unfolding arrow_up
arrow_up-move_to i h some_commands = rw (nonempty_length h.commands some_commands) refl

-- From the input line, pressing the up key shows the commands from the newest to the oldest, and stays
-- at the oldest.
pub ups_lem :
    (k : ℕ) (h : History)
    → h.index ≡ none
    → h.commands ≢ []
    → ups (suc k) h ≡ move_to (length h.commands - suc k) h
unfolding ups
ups_lem zero h none_yet some_commands = arrow_up_first h none_yet some_commands
ups_lem (suc k) h none_yet some_commands =
    let one_less : length h.commands - suc k - 1 ≡ length h.commands - suc (suc k) = omega arith in
    ap arrow_up (ups_lem k h none_yet some_commands)
    ∙ arrow_up-move_to (length h.commands - suc k) h some_commands
    ∙ ap (λ i. move_to i h) one_less
