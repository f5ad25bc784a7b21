-- ===== src/Terminal/Files/Closed.antt =====
-- A write keeps the store closed: no entry leads out of it.
use tbd_dev.Prelude.{
  ℕ, ◌+◌, ◌<◌, String, Bool, Option, none, some, List, [], ◌∷◌, ◌≡◌, ◌∙◌, refl, arith, eqb, ◌==◌,
  length, length-append, get_elem?, Bool-cases, Option-cases, inl, inr,
}
use tbd_dev.Terminal.Files.{
  FsFile, FsDir, Node, file, dir, Files, entry, put, set, alloc, get_node, get_parent, parent_of,
  parent_path, split_last, lookup_in, add_node, make_file,
}
use tbd_dev.Terminal.Path.{split_path}
use tbd_dev.Terminal.Files.Store.{
  entry-put, get_elem?-set, get_elem?-add_node, length-set, length-update_children,
}
use tbd_dev.Terminal.Files.Written.{IsClosed, DirAt, only_dir-eq-some}
use tbd_dev.Terminal.Files.Write.{write_file, write_in, write_entry, write_existing}

length-add_node :
    (name : String) (node : Node) (a : ℕ) (fs : Files)
    → length (add_node name node a fs) ≡ length fs + 1
unfolding add_node
length-add_node name node a fs =
    length-update_children (put name (length fs)) a (alloc fs node) ∙ length-append fs (node ∷ [])

module _ (fs : Files) (closed : IsClosed fs) where
  entry-lt :
      (a : ℕ) (d : FsDir) (p : String) (b : ℕ)
      → DirAt fs a d
      → entry p d.children ≡ some b
      → b < length fs
  entry-lt a d p b at h = closed a p b (rw at h)

  add_node-IsClosed :
      (name content : String) (now a : ℕ) (d : FsDir)
      → DirAt fs a d
      → IsClosed (add_node name (make_file content now) a fs)
  add_node-IsClosed name content now a d at b p c h =
      rw (length-add_node name (make_file content now) a fs) (elim (Bool-cases (eqb a b)) [
        | inl same ↦
            let h' =
              rw (get_elem?-add_node name (make_file content now) a b fs d at, same, entry-put) at
                h in
            elim (Bool-cases (name == p)) [
              | inl new ↦ let h2 = rw new at h' in ground arith
              | inr old ↦
                  let h2 = rw old at h' in let before = entry-lt a d p c at h2 in omega arith
            ]
        | inr other ↦
            let h' = rw (get_elem?-add_node name (make_file content now) a b fs d at, other) at h in
            elim (Bool-cases (eqb (length fs) b)) [
              | inl new ↦ absurd (let h2 = rw new at h' in cc)
              | inr old ↦ let h2 = rw old at h' in let before = closed b p c h2 in omega arith
            ]
      ])

  set-IsClosed :
      (b : ℕ) (f g : FsFile) → get_elem? fs b ≡ some (file f) → IsClosed (set fs b (file g))
  set-IsClosed b f g at a p c h = rw (length-set fs b (file g)) (elim (Bool-cases (eqb b a)) [
    | inl same ↦ absurd (let h' = rw (get_elem?-set fs b a (file g) (file f) at, same) at h in cc)
    | inr other ↦ closed a p c (rw (get_elem?-set fs b a (file g) (file f) at, other) at h)
  ])

  write_existing-IsClosed :
      (now b : ℕ) (name content : String) (append : Bool) (o : Option Node)
      → get_elem? fs b ≡ o
      → IsClosed (write_existing now name content append b fs o).0
  unfolding write_existing
  write_existing-IsClosed now b name content append none at = closed
  write_existing-IsClosed now b name content append (some (dir d)) at = closed
  write_existing-IsClosed now b name content append (some (file f)) at = set-IsClosed b f _ at

  write_in-IsClosed :
      (now : ℕ) (path content : String) (append : Bool) (o : Option ℕ) (name : String)
      → ((a : ℕ) → o ≡ some a → (d : FsDir) × DirAt fs a d)
      → IsClosed (write_in now path content append fs (o, name)).0
  unfolding write_in write_entry
  write_in-IsClosed now path content append none name held = closed
  write_in-IsClosed now path content append (some a) name held =
      elim (Option-cases (lookup_in fs a name)) [
        | inl new ↦
            let (d, at) = held a refl in
            rw (new, write_entry) (add_node-IsClosed name content now a d at)
        | inr (b, old) ↦
            rw (old, write_entry)
              (write_existing-IsClosed now b name content append (get_elem? fs b) refl)
      ]

pub parent_of-DirAt :
    (fs : Files) (parts : Option (List String × String)) (a : ℕ)
    → (parent_of fs parts).0 ≡ some a
    → (d : FsDir) × DirAt fs a d
parent_of-DirAt fs none a h = cc
parent_of-DirAt fs (some (before, name)) a h =
    let (d, _, at) = only_dir-eq-some fs (get_node fs (parent_path before)) a h in (d, at)

-- A write, with or without an error, leaves every entry of a closed store leading to a node.
pub write_file-IsClosed :
    (now : ℕ) (path content : String) (append : Bool) (fs : Files)
    → IsClosed fs
    → IsClosed (write_file now path content append fs).0
unfolding write_file get_parent
write_file-IsClosed now path content append fs closed =
    let held = get_parent fs path in
    write_in-IsClosed fs closed now path content append held.0 held.1
      (λ a h. parent_of-DirAt fs (split_last (split_path path)) a h)
