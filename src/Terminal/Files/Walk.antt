-- ===== src/Terminal/Files/Walk.antt =====
-- Walking down a store, and how walks survive a change of it.
use tbd_dev.Prelude.{
  ℕ, String, Option, none, some, List, [], ◌∷◌, ◌++◌, ◌≡◌, ◌∙◌, refl, ap, subst, ◌==◌, get_elem?,
  Bool-cases, Option-cases, inl, inr, All,
}
use tbd_dev.Terminal.Path.{split_path, join}
use tbd_dev.Terminal.Path.Split.{IsPart, split_path-IsPart, split_path-join}
use tbd_dev.Terminal.Files.{
  Files, root, child, walk, get_parts, get_node, split_last, get_parent, only_dir, parent_of,
}

-- The step behind a walk.
abbrev pub then_child : Files → String → Option ℕ → Option ℕ
then_child fs name none = none
then_child fs name (some a) = child (get_elem? fs a) name

-- A walk to the last part is a walk to the part before it, and one step.
pub walk-append :
    (fs : Files) (a : ℕ) (ps : List String) (name : String)
    → walk fs a (ps ++ name ∷ []) ≡ then_child fs name (walk fs a ps)
unfolding walk
walk-append fs a [] name = elim (Option-cases (child (get_elem? fs a) name)) [
  | inl gone ↦ rw (gone, walk)
  | inr (b, found) ↦ rw (found, walk)
]
walk-append fs a (p ∷ ps) name = elim (Option-cases (child (get_elem? fs a) p)) [
  | inl gone ↦ rw (gone, walk)
  | inr (b, found) ↦ rw (found, walk) (walk-append fs b ps name)
]

-- Every entry of the one store is an entry of the other.
abbrev pub Extends : Files → Files → Type 0
Extends fs gs =
    (a : ℕ) (p : String) (b : ℕ)
    → child (get_elem? fs a) p ≡ some b
    → child (get_elem? gs a) p ≡ some b

pub walk-Extends :
    (fs gs : Files) (a b : ℕ) (ps : List String)
    → Extends fs gs
    → walk fs a ps ≡ some b
    → walk gs a ps ≡ some b
unfolding walk
walk-Extends fs gs a b [] e h = h
walk-Extends fs gs a b (p ∷ ps) e h = elim (Option-cases (child (get_elem? fs a) p)) [
  | inl gone ↦ let h' = rw (gone, walk) at h in cc
  | inr (c, found) ↦ rw (e a p c found, walk) (walk-Extends fs gs c b ps e (rw (found, walk) at h))
]

get_parts-Extends :
    (fs gs : Files) (a : ℕ) (ps : List String)
    → Extends fs gs
    → get_parts fs ps ≡ some a
    → get_parts gs ps ≡ some a
unfolding get_parts
get_parts-Extends fs gs a [] e h = h
get_parts-Extends fs gs a (p ∷ ps) e h = elim (Bool-cases (p == "~")) [
  | inl home ↦ rw home (walk-Extends fs gs root a ps e (rw home at h))
  | inr other ↦ rw other (rw other at h)
]

-- A path that leads to an address goes on leading there.
pub get_node-Extends :
    (fs gs : Files) (path : String) (a : ℕ)
    → Extends fs gs
    → get_node fs path ≡ some a
    → get_node gs path ≡ some a
unfolding get_node
get_node-Extends fs gs path a e h = get_parts-Extends fs gs a (split_path path) e h

pub split_last-append :
    (before : List String) (name : String) → split_last (before ++ name ∷ []) ≡ some (before, name)
unfolding split_last
split_last-append [] name = refl
split_last-append (p ∷ before) name = rw (split_last-append before name)

abbrev pair : Option ℕ → String → Option ℕ × String
pair o s = (o, s)

-- A path that leads from the home directory to the entry `name` of the directory at `before`.
abbrev pub LeadsTo : String → List String → String → Type 0
LeadsTo path before name = split_path path ≡ "~" ∷ (before ++ name ∷ [])

append-parts :
    (before : List String) (name : String) → All IsPart (before ++ name ∷ []) → All IsPart before
append-parts [] name _ = tt
append-parts (p ∷ before) name (h, hs) = (h, append-parts before name hs)

module _ (path : String) (before : List String) (name : String)
    (leads : LeadsTo path before name) where
  parts : All IsPart ("~" ∷ (before ++ name ∷ []))
  parts = subst (All IsPart) leads (split_path-IsPart path)

  pub get_node-LeadsTo : (fs : Files) → get_node fs path ≡ then_child fs name (walk fs root before)
  unfolding get_node
  get_node-LeadsTo fs = ap (get_parts fs) leads ∙ walk-append fs root before name

  get_node-before : (fs : Files) → get_node fs (join ("~" ∷ before)) ≡ walk fs root before
  unfolding get_node
  get_node-before fs =
      ap (get_parts fs) (split_path-join ("~" ∷ before) (parts.0, append-parts before name parts.1))

  pub get_parent-LeadsTo :
      (fs : Files) → get_parent fs path ≡ (only_dir fs (walk fs root before), name)
  unfolding get_parent
  get_parent-LeadsTo fs =
      ap (parent_of fs) (ap split_last leads ∙ split_last-append ("~" ∷ before) name)
      ∙ ap (λ (o : Option ℕ). pair (only_dir fs o) name) (get_node-before fs)
