-- ===== src/Terminal/Shell/Operators.antt =====
-- Groups between operators.
use mathlib.Core.List.{append-nil, append_assoc}
use tbd_dev.Prelude.{
  String, false, List, [], ◌∷◌, ◌++◌, ◌≡◌, ◌≢◌, inl, inr, refl, ap, sym, ◌∙◌, not, ◌==◌, All,
  All-append, filterb, Bool-cases, eq_refl,
}
use tbd_dev.Terminal.Shell.{close_group, split_from, split_by_operator}

-- A group of tokens: not empty, and none of them the operator.
abbrev pub IsGroup : String → List String → Type 0
IsGroup op group = (group ≢ []) × All (λ (t : String). (t == op) ≡ false) group

close_group-IsGroup :
    (op : String) (groups : List (List String)) (current : List String)
    → All (IsGroup op) groups
    → All (λ (t : String). (t == op) ≡ false) current
    → All (IsGroup op) (close_group groups current)
close_group-IsGroup op groups [] h k = h
close_group-IsGroup op groups (t ∷ ts) h k =
    All-append (IsGroup op) groups ((t ∷ ts) ∷ []) h (((λ e. cc), k), tt)

split_from-IsGroup :
    (op : String) (groups : List (List String)) (current tokens : List String)
    → All (IsGroup op) groups
    → All (λ (t : String). (t == op) ≡ false) current
    → All (IsGroup op) (split_from op groups current tokens)
unfolding split_from
split_from-IsGroup op groups current [] h k = close_group-IsGroup op groups current h k
split_from-IsGroup op groups current (t ∷ tokens) h k = elim (Bool-cases (t == op)) [
  | inl same ↦ rw same (
      split_from-IsGroup op (close_group groups current) [] tokens
        (close_group-IsGroup op groups current h k) tt)
  | inr other ↦ rw other (
      split_from-IsGroup op groups (current ++ t ∷ []) tokens h
        (All-append (λ (u : String). (u == op) ≡ false) current (t ∷ []) k (other, tt)))
]

-- `flat()`
abbrev pub flat : List (List String) → List String
flat [] = []
flat (g ∷ gs) = g ++ flat gs

flat-append : (gs : List (List String)) (g : List String) → flat (gs ++ g ∷ []) ≡ flat gs ++ g
flat-append [] g = append-nil g
flat-append (h ∷ gs) g = ap (λ ts. h ++ ts) (flat-append gs g) ∙ sym (append_assoc h (flat gs) g)

flat-close_group :
    (groups : List (List String)) (current : List String)
    → flat (close_group groups current) ≡ flat groups ++ current
flat-close_group groups [] = sym (append-nil (flat groups))
flat-close_group groups (t ∷ ts) = flat-append groups (t ∷ ts)

abbrev without_op : String → List String → List String
without_op op = filterb (λ (t : String). not (t == op))

flat-split_from :
    (op : String) (groups : List (List String)) (current tokens : List String)
    → flat (split_from op groups current tokens) ≡ (flat groups ++ current) ++ without_op op tokens
unfolding split_from
flat-split_from op groups current [] =
    flat-close_group groups current ∙ sym (append-nil (flat groups ++ current))
flat-split_from op groups current (t ∷ tokens) = elim (Bool-cases (t == op)) [
  | inl same ↦ rw same (
      flat-split_from op (close_group groups current) [] tokens
      ∙ ap (λ ts. ts ++ without_op op tokens)
          (append-nil (flat (close_group groups current)) ∙ flat-close_group groups current))
  | inr other ↦ rw other (
      flat-split_from op groups (current ++ t ∷ []) tokens
      ∙ ap (λ ts. ts ++ without_op op tokens) (sym (append_assoc (flat groups) current (t ∷ [])))
      ∙ append_assoc (flat groups ++ current) (t ∷ []) (without_op op tokens))
]

-- The groups are not empty and hold no operator, and in their order they hold all the other tokens.
pub split_by_operator-IsGroup :
    (tokens : List String) (op : String)
    → All (IsGroup op) (split_by_operator tokens op)
      × (flat (split_by_operator tokens op) ≡ filterb (λ (t : String). not (t == op)) tokens)
unfolding split_by_operator
split_by_operator-IsGroup tokens op =
    (split_from-IsGroup op [] [] tokens tt tt, flat-split_from op [] [] tokens)

close_group-append :
    (groups : List (List String)) (current : List String)
    → close_group groups current ≡ groups ++ close_group [] current
close_group-append groups [] = sym (append-nil groups)
close_group-append groups (t ∷ ts) = refl

split_from-groups :
    (op : String) (groups : List (List String)) (current tokens : List String)
    → split_from op groups current tokens ≡ groups ++ split_from op [] current tokens
unfolding split_from
split_from-groups op groups current [] = close_group-append groups current
split_from-groups op groups current (t ∷ tokens) = elim (Bool-cases (t == op)) [
  | inl same ↦ rw same (
      ap (λ gs. split_from op gs [] tokens) (close_group-append groups current)
      ∙ split_from-groups op (groups ++ close_group [] current) [] tokens
      ∙ append_assoc groups (close_group [] current) (split_from op [] [] tokens)
      ∙ ap (λ gs. groups ++ gs) (sym (split_from-groups op (close_group [] current) [] tokens)))
  | inr other ↦ rw other (split_from-groups op groups (current ++ t ∷ []) tokens)
]

split_from-append :
    (op : String) (current before after : List String)
    → split_from op [] current (before ++ op ∷ after)
      ≡ split_from op [] current before ++ split_from op [] [] after
unfolding split_from
split_from-append op current [] after =
    rw (eq_refl op) (split_from-groups op (close_group [] current) [] after)
split_from-append op current (t ∷ before) after = elim (Bool-cases (t == op)) [
  | inl same ↦ rw same (
      split_from-groups op (close_group [] current) [] (before ++ op ∷ after)
      ∙ ap (λ gs. close_group [] current ++ gs) (split_from-append op [] before after)
      ∙ sym (
          append_assoc (close_group [] current) (split_from op [] [] before)
            (split_from op [] [] after))
      ∙ ap (λ gs. gs ++ split_from op [] [] after)
          (sym (split_from-groups op (close_group [] current) [] before)))
  | inr other ↦ rw other (split_from-append op (current ++ t ∷ []) before after)
]

split_from-plain :
    (op : String) (current plain : List String)
    → All (λ (t : String). (t == op) ≡ false) plain
    → split_from op [] current plain ≡ close_group [] (current ++ plain)
unfolding split_from
split_from-plain op current [] h = ap (close_group []) (sym (append-nil current))
split_from-plain op current (t ∷ plain) (other, h) = rw other (
    split_from-plain op (current ++ t ∷ []) plain h
    ∙ ap (close_group []) (append_assoc current (t ∷ []) plain))

-- Tokens as one group, and no group for no tokens.
abbrev pub as_group : List String → List (List String)
as_group [] = []
as_group (t ∷ ts) = (t ∷ ts) ∷ []

as_group-close : (tokens : List String) → close_group [] tokens ≡ as_group tokens
as_group-close [] = refl
as_group-close (t ∷ ts) = refl

-- Groups end at the operators and nowhere else: tokens without an operator are one group, or none if
-- there are no tokens; at an operator, the groups of what is in front of it end and those of what is
-- behind it follow.
pub split_by_operator_lem :
    (op : String) (plain before after : List String)
    → All (λ (t : String). (t == op) ≡ false) plain
    → (split_by_operator plain op ≡ as_group plain)
      × (split_by_operator (before ++ op ∷ after) op
          ≡ split_by_operator before op ++ split_by_operator after op)
unfolding split_by_operator
split_by_operator_lem op plain before after h =
    (split_from-plain op [] plain h ∙ as_group-close plain, split_from-append op [] before after)
