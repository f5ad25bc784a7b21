-- ===== src/Terminal/Files/Moved.antt =====
-- `moveNode` with one path as source and destination.
use tbd_dev.Prelude.{
  ℕ, String, true, Option, none, some, List, [], ◌∷◌, ◌++◌, ◌≡◌, ◌∙◌, refl, ap, sym, subst, arith,
  eqb, eqb_refl, eq_iff, get_elem?, Bool-cases, Option-cases, inl, inr, All, truthy_text,
}
use tbd_dev.Terminal.Path.{split, join}
use tbd_dev.Terminal.Path.Split.{IsPart, split-join, split_path-join, parts-NoSlash}
use tbd_dev.Terminal.Files.{
  FsFile, FsDir, file, dir, Files, root, put, child, walk, get_node, get_parent, only_dir,
  update_children, Outcome,
}
use tbd_dev.Terminal.Files.Store.{entry-put, get_elem?-update_children}
use tbd_dev.Terminal.Files.Walk.{
  LeadsTo, get_node-LeadsTo, get_parent-LeadsTo, then_child, split_last-append,
}
use tbd_dev.Terminal.Files.Written.{DirAt, only_dir-eq-some}
use tbd_dev.Terminal.Files.Remove.{relocate, last_or, move_into, move_from, move_node}
use tbd_dev.Terminal.Files.Removed.{Loses, get_node-Loses, without-Loses}

relocate-Loses :
    (fs : Files) (a b : ℕ) (d : FsDir) (name : String)
    → DirAt fs a d
    → child (get_elem? fs a) name ≡ some b
    → Loses fs (relocate a name b a name fs) a name
unfolding relocate
relocate-Loses fs a b d name at held =
    let put_at = get_elem?-update_children (put name b) a a fs d at in
    let l =
      without-Loses (update_children (put name b) a fs) a
        (record d { children = put name b d.children }) name (rw (put_at, eqb_refl a)) in
    record { kept = λ x p c h. put_back x p c (l.kept x p c h); gone = l.gone }
  where
    put_back :
        (x : ℕ) (p : String) (c : ℕ)
        → child (get_elem? (update_children (put name b) a fs) x) p ≡ some c
        → child (get_elem? fs x) p ≡ some c
    put_back x p c h = elim (Bool-cases (eqb a x)) [
      | inl same ↦
          let here : a ≡ x = ground arith in
          let h' = rw (get_elem?-update_children (put name b) a x fs d at, same, entry-put) at h in
          let held' = rw at at held in rw (← here, at) (ground (arith, eq_iff name p))
      | inr other ↦ rw (get_elem?-update_children (put name b) a x fs d at, other) at h
    ]

last_or-join :
    (d p : String) (before : List String) (name : String)
    → All IsPart (p ∷ (before ++ name ∷ []))
    → truthy_text name ≡ true
    → last_or d (split (join (p ∷ (before ++ name ∷ [])))) ≡ name
unfolding last_or
last_or-join d p before name parts told =
    rw (split-join p (before ++ name ∷ []) (parts-NoSlash (p ∷ (before ++ name ∷ [])) parts))
      (rw (split_last-append (p ∷ before) name, last_or) (rw told))

-- The name at the end is a part.
last-IsPart :
    (before : List String) (name : String) → All IsPart (before ++ name ∷ []) → IsPart name
last-IsPart [] name (h, _) = h
last-IsPart (p ∷ before) name (_, hs) = last-IsPart before name hs

home-IsPart : IsPart "~"
home-IsPart = (refl, (ground arith, tt))

abbrev pair : Option ℕ → String → Option ℕ × String
pair o s = (o, s)

-- What a move that succeeds and loses the file leaves.
abbrev Lost : String → Outcome → Type 0
Lost path (gs, problem) = (problem ≡ none) × (get_node gs path ≡ none)

module _ (fs : Files) (before : List String) (name : String) (b : ℕ) (f : FsFile)
    (parts : All IsPart (before ++ name ∷ [])) where
  abbrev self : String
  self = join ("~" ∷ (before ++ name ∷ []))

  self-LeadsTo : LeadsTo self before name
  self-LeadsTo = split_path-join ("~" ∷ (before ++ name ∷ [])) (home-IsPart, parts)

  move_into-self :
      (a : ℕ)
      → only_dir fs (walk fs root before) ≡ some a
      → get_node fs self ≡ some b
      → Lost self (move_into b a name self fs none (some a))
  unfolding move_into
  move_into-self a parent found =
      let (d, walked, at) = only_dir-eq-some fs (walk fs root before) a parent in
      let steps = sym (get_node-LeadsTo self before name self-LeadsTo fs) ∙ found in
      let held : child (get_elem? fs a) name ≡ some b = rw walked at steps in
      let lost = relocate-Loses fs a b d name at held in
      let named =
        last_or-join name "~" before name (home-IsPart, parts) (last-IsPart before name parts).0 in
      rw named (refl, get_node-Loses self before name fs _ a self-LeadsTo walked lost)

  move_from-self :
      (a : ℕ)
      → only_dir fs (walk fs root before) ≡ some a
      → get_node fs self ≡ some b
      → get_elem? fs b ≡ some (file f)
      → Lost self (move_from self self fs (some b) (some a, name))
  unfolding move_from
  move_from-self a parent found is_file =
      let into : only_dir fs (get_node fs self) ≡ none =
        ap (only_dir fs) found ∙ rw (is_file, only_dir) refl in
      let into_parent =
        ap (λ (held : Option ℕ × String). held.0)
          (get_parent-LeadsTo self before name self-LeadsTo fs)
        ∙ parent in
      subst (λ o. Lost self (move_into b a name self fs o (get_parent fs self).0)) (sym into)
        (subst (λ o. Lost self (move_into b a name self fs none o)) (sym into_parent)
          (move_into-self a parent found))

-- What holds an entry is a directory.
only_dir-held :
    (fs : Files) (o : Option ℕ) (name : String) (b : ℕ)
    → then_child fs name o ≡ some b
    → (a : ℕ) × (only_dir fs o ≡ some a)
only_dir-held fs none name b h = cc
only_dir-held fs (some a) name b h = elim (Option-cases (get_elem? fs a)) [
  | inl gone ↦ absurd (let h' = rw gone at h in cc)
  | inr (file f, e) ↦ absurd (let h' = rw e at h in cc)
  | inr (dir d, e) ↦ (a, rw (e, only_dir) refl)
]

-- Moving a file onto itself reports no error and loses the file: its path leads nowhere afterwards.
pub move_node_self :
    (fs : Files) (before : List String) (name : String) (b : ℕ) (f : FsFile)
    → All IsPart (before ++ name ∷ [])
    → get_node fs (join ("~" ∷ (before ++ name ∷ []))) ≡ some b
    → get_elem? fs b ≡ some (file f)
    → let path = join ("~" ∷ (before ++ name ∷ [])) in
      ((move_node path path fs).1 ≡ none) × (get_node (move_node path path fs).0 path ≡ none)
unfolding move_node
move_node_self fs before name b f parts found is_file =
    let leads = self-LeadsTo fs before name b f parts in
    let path = join ("~" ∷ (before ++ name ∷ [])) in
    let steps = sym (get_node-LeadsTo path before name leads fs) ∙ found in
    let (a, parent) = only_dir-held fs (walk fs root before) name b steps in
    let held =
      get_parent-LeadsTo path before name leads fs ∙ ap (λ (o : Option ℕ). pair o name) parent in
    subst (λ o. Lost path (move_from path path fs o (get_parent fs path))) (sym found)
      (subst (λ h. Lost path (move_from path path fs (some b) h)) (sym held)
        (move_from-self fs before name b f parts a parent found is_file))
