-- ===== src/Terminal/Files/Removed.antt =====
-- `removeNode`: what is removed is gone, and nothing is added.
use tbd_dev.Prelude.{
  ℕ, String, Bool, Option, none, some, List, ◌≡◌, ◌≢◌, ◌⊎◌, ◌∙◌, refl, arith, eqb, eqb_refl,
  eq_refl, ◌&&◌, not, get_elem?, Bool-cases, inl, inr,
}
use tbd_dev.Terminal.Files.{
  FsDir, Files, root, without, child, walk, get_node, only_dir, is_dir, lookup_in, update_children,
}
use tbd_dev.Terminal.Files.Store.{entry-without, get_elem?-update_children}
use tbd_dev.Terminal.Files.Walk.{
  Extends, walk-Extends, LeadsTo, get_node-LeadsTo, get_parent-LeadsTo, then_child,
  get_node-Extends,
}
use tbd_dev.Terminal.Files.Written.{DirAt, only_dir-eq-some}
use tbd_dev.Terminal.Files.Remove.{remove_node, remove_entry, remove_in}

-- A store whose entries are those of `fs`, but for `name` in the directory at `a`, which is gone.
pub record Loses (fs gs : Files) (a : ℕ) (name : String) : Type 0 where
  pub kept : Extends gs fs
  pub gone : child (get_elem? gs a) name ≡ none

pub without-Loses :
    (fs : Files) (a : ℕ) (d : FsDir) (name : String)
    → DirAt fs a d
    → Loses fs (update_children (without name) a fs) a name
without-Loses fs a d name at = record {
  kept = λ b p c h. elim (Bool-cases (eqb a b)) [
    | inl same ↦
        let here : a ≡ b = ground arith in
        let h' =
          rw (get_elem?-update_children (without name) a b fs d at, same, entry-without) at h in
        rw (← here, at) (ground arith)
    | inr other ↦ rw (get_elem?-update_children (without name) a b fs d at, other) at h
  ];
  gone =
      rw (get_elem?-update_children (without name) a a fs d at, eqb_refl a)
        (rw (entry-without, eq_refl));
}

-- A path to an entry that is lost leads nowhere.
pub get_node-Loses :
    (path : String) (before : List String) (name : String) (fs gs : Files) (a : ℕ)
    → LeadsTo path before name
    → walk fs root before ≡ some a
    → Loses fs gs a name
    → get_node gs path ≡ none
get_node-Loses path before name fs gs a leads walked l =
    get_node-LeadsTo path before name leads gs ∙ ends (walk gs root before) refl
  where
    ends :
        (o : Option ℕ) → walk gs root before ≡ o → then_child gs name (walk gs root before) ≡ none
    ends none e = rw e
    ends (some c) e =
        let same : c ≡ a = ground (arith, walk-Extends gs fs root c before l.kept e) in
        rw (e, same) l.gone

-- What a removal leaves behind: the path is gone and nothing new is there, or nothing has changed.
abbrev pub Removes : String → Files → Files × Option String → Type 0
Removes path fs (gs, problem) =
    ((problem ≡ none)
      × (get_node gs path ≡ none)
      × ((other : String) (x : ℕ) → get_node gs other ≡ some x → get_node fs other ≡ some x))
    ⊎ ((problem ≢ none) × (gs ≡ fs))

module _ (path : String) (recursive : Bool) (fs : Files) (before : List String) (name : String)
    (leads : LeadsTo path before name) where
  failed-Removes : (message : String) → Removes path fs (fs, some message)
  failed-Removes message = inr ((λ h. cc), refl)

  remove_entry-Removes :
      (a : ℕ) (d : FsDir) (o : Option ℕ)
      → walk fs root before ≡ some a
      → DirAt fs a d
      → Removes path fs (remove_entry path recursive fs a name o)
  unfolding remove_entry
  remove_entry-Removes a d none walked at = failed-Removes _
  remove_entry-Removes a d (some b) walked at =
      elim (Bool-cases (is_dir (get_elem? fs b) && not recursive)) [
        | inl kept ↦ rw kept (failed-Removes _)
        | inr lost ↦
            let l = without-Loses fs a d name at in
            rw lost (
              inl (
                refl,
                get_node-Loses path before name fs _ a leads walked l,
                λ other x e. get_node-Extends _ fs other x l.kept e,
              ))
      ]

  remove_in-Removes :
      (o : Option ℕ)
      → only_dir fs (walk fs root before) ≡ o
      → Removes path fs (remove_in path recursive fs (o, name))
  unfolding remove_in
  remove_in-Removes none h = failed-Removes _
  remove_in-Removes (some a) h =
      let (d, walked, at) = only_dir-eq-some fs (walk fs root before) a h in
      remove_entry-Removes a d (lookup_in fs a name) walked at

-- What a removal from a path below the home directory does: either it reports no error, the path leads
-- nowhere, and any path that still leads to a node led to the same node before; or it reports an error
-- and nothing has changed.
pub remove_node-Removes :
    (path : String) (recursive : Bool) (fs : Files) (before : List String) (name : String)
    → LeadsTo path before name
    → Removes path fs (remove_node path recursive fs)
unfolding remove_node
remove_node-Removes path recursive fs before name leads =
    rw (get_parent-LeadsTo path before name leads fs) (
      remove_in-Removes path recursive fs before name leads (only_dir fs (walk fs root before))
        refl)
