-- ===== src/Terminal/Files/Kept.antt =====
-- Making directories and changing nodes keep the store closed.
pub mod Relocated
use tbd_dev.Prelude.{
  ℕ, ◌<◌, String, Bool, true, false, Option, none, some, List, [], ◌∷◌, ◌≡◌, ◌∙◌, ◌⊎◌, inl, inr,
  refl, sym, ap, arith, eqb, ◌==◌, if◌then◌else◌, length, length-append, get_elem?, Bool-cases,
  Option-cases,
}
use tbd_dev.Terminal.Files.{
  Entries, FsDir, Node, file, dir, Files, root, entry, put, without, child, set, alloc, walk,
  get_parts, get_node, get_parent, split_last, lookup_in, update_children, add_node, make_dir,
  is_dir, Outcome,
}
use tbd_dev.Terminal.Path.{split_path}
use tbd_dev.Terminal.Files.Store.{
  entry-put, entry-without, get_elem?-set, get_elem?-alloc, get_elem?-update_children, length-set,
  length-update_children, lt_of_get_elem?,
}
use tbd_dev.Terminal.Files.Written.{IsClosed, DirAt}
use tbd_dev.Terminal.Files.Closed.{parent_of-DirAt}
use tbd_dev.Terminal.Files.Write.{make_dirs, made, make_dir_at}
use tbd_dev.Terminal.Files.Remove.{
  remove_node, remove_in, remove_entry, move_node, move_from, move_into, relocate,
}

-- New entries that lead to nodes, and no others, keep the store closed.
pub Leads : (Entries → Entries) → ℕ → Type 0
Leads f n =
    (es : Entries) (p : String) (b : ℕ) → entry p (f es) ≡ some b → (entry p es ≡ some b) ⊎ (b < n)

pub update_children-IsClosed :
    (f : Entries → Entries) (a : ℕ) (fs : Files)
    → Leads f (length fs)
    → IsClosed fs
    → IsClosed (update_children f a fs)
unfolding Leads update_children
update_children-IsClosed f a fs leads closed c p b h = with_node (get_elem? fs a) refl
  where
    changed :
        (d : FsDir)
        → DirAt fs a d
        → child (get_elem? (update_children f a fs) c) p ≡ some b
        → b < length fs
    changed d at k = elim (Bool-cases (eqb a c)) [
      | inl same ↦
          elim (leads d.children p b (rw (get_elem?-update_children f a c fs d at, same) at k)) [
            | inl old ↦ closed a p b (ap (λ o. child o p) at ∙ old)
            | inr lt ↦ lt
          ]
      | inr other ↦ closed c p b (rw (get_elem?-update_children f a c fs d at, other) at k)
    ]

    with_node : (o : Option Node) → get_elem? fs a ≡ o → b < length (update_children f a fs)
    with_node (some (dir d)) at = rw (length-update_children f a fs) (changed d at h)
    with_node (some (file g)) at = rw (length-update_children f a fs) (closed c p b (rw at at h))
    with_node none at = rw (length-update_children f a fs) (closed c p b (rw at at h))

pub put-Leads : (name : String) (b n : ℕ) → b < n → Leads (put name b) n
unfolding Leads
put-Leads name b n lt es p c h = elim (Bool-cases (name == p)) [
  | inl same ↦ inr (let h' = rw (entry-put, same) at h in ground arith)
  | inr other ↦ inl (rw (entry-put, other) at h)
]

pub without-Leads : (name : String) (n : ℕ) → Leads (without name) n
unfolding Leads
without-Leads name n es p c h = elim (Bool-cases (name == p)) [
  | inl same ↦ absurd (let h' = rw (entry-without, same) at h in cc)
  | inr other ↦ inl (rw (entry-without, other) at h)
]

alloc-IsClosed :
    (fs : Files) (node : Node)
    → ((p : String) → child (some node) p ≡ none)
    → IsClosed fs
    → IsClosed (alloc fs node)
alloc-IsClosed fs node bare closed a p b h =
    rw (length-append fs (node ∷ [])) (elim (Bool-cases (eqb (length fs) a)) [
      | inl new ↦ absurd (let h' = rw (get_elem?-alloc fs a node, new) at h in let e = bare p in cc)
      | inr old ↦
          let before = closed a p b (rw (get_elem?-alloc fs a node, old) at h) in omega arith
    ])

pub set-IsClosed :
    (fs : Files) (a : ℕ) (n m : Node)
    → get_elem? fs a ≡ some m
    → ((p : String) → child (some n) p ≡ child (some m) p)
    → IsClosed fs
    → IsClosed (set fs a n)
set-IsClosed fs a n m at same closed c p b h = rw (length-set fs a n) (elim (Bool-cases (eqb a c)) [
  | inl here ↦
      closed a p b
        (ap (λ o. child o p) at ∙ sym (same p) ∙ rw (get_elem?-set fs a c n m at, here) at h)
  | inr other ↦ closed c p b (rw (get_elem?-set fs a c n m at, other) at h)
])

-- A new directory.
add_dir-IsClosed :
    (now : ℕ) (name : String) (a : ℕ) (fs : Files)
    → IsClosed fs
    → IsClosed (add_node name (make_dir [] now) a fs)
unfolding add_node entry
add_dir-IsClosed now name a fs closed =
    update_children-IsClosed (put name (length fs)) a (alloc fs (make_dir [] now))
      (put-Leads name (length fs) (length (alloc fs (make_dir [] now)))
        (omega (arith, length-append fs (make_dir [] now ∷ []))))
      (alloc-IsClosed fs (make_dir [] now) (λ p. refl) closed)

pub either :
    (b : Bool) (x y : Outcome) → IsClosed x.0 → IsClosed y.0 → IsClosed (if b then x else y).0
either true x y h k = h
either false x y h k = k

make_dirs-IsClosed :
    (now : ℕ) (path : String) (recursive : Bool) (fs : Files) (a : ℕ) (names : List String)
    → IsClosed fs
    → IsClosed (make_dirs now path recursive fs a names).0
unfolding make_dirs
make_dirs-IsClosed now path recursive fs a [] closed = closed
make_dirs-IsClosed now path recursive fs a (name ∷ names) closed =
    elim (Option-cases (lookup_in fs a name)) [
      | inl new ↦
          rw (new, make_dirs)
            (either _ _ _ closed (
              make_dirs-IsClosed now path recursive (add_node name (make_dir [] now) a fs)
                (length fs) names (add_dir-IsClosed now name a fs closed)))
      | inr (b, old) ↦
          rw (old, make_dirs)
            (elim (Bool-cases (is_dir (get_elem? fs b))) [
              | inl is ↦
                  rw (is, make_dirs) (make_dirs-IsClosed now path recursive fs b names closed)
              | inr not_dir ↦ rw (not_dir, make_dirs) closed
            ])
    ]

walk-lt :
    (fs : Files) (a x : ℕ) (names : List String)
    → IsClosed fs
    → a < length fs
    → walk fs a names ≡ some x
    → x < length fs
unfolding walk
walk-lt fs a x [] closed lt h = ground arith
walk-lt fs a x (n ∷ names) closed lt h = elim (Option-cases (child (get_elem? fs a) n)) [
  | inl gone ↦ absurd (let h' = rw (gone, walk) at h in cc)
  | inr (b, found) ↦ walk-lt fs b x names closed (closed a n b found) (rw (found, walk) at h)
]

pub get_node-lt :
    (fs : Files) (path : String) (a x : ℕ)
    → IsClosed fs
    → a < length fs
    → get_node fs path ≡ some x
    → x < length fs
unfolding get_node get_parts
get_node-lt fs path a x closed lt h = with_parts (split_path path) h
  where
    with_parts : (parts : List String) → get_parts fs parts ≡ some x → x < length fs
    with_parts [] e = cc
    with_parts (p ∷ ps) e = elim (Bool-cases (p == "~")) [
      | inl home ↦ walk-lt fs root x ps closed (omega arith) (rw (home, get_parts) at e)
      | inr away ↦ absurd (let e' = rw (away, get_parts) at e in cc)
    ]

-- `makeDirAt`, with or without an error, leaves every entry of a closed store leading to a node.
pub make_dir_at-IsClosed :
    (now : ℕ) (path : String) (recursive : Bool) (fs : Files)
    → IsClosed fs
    → IsClosed (make_dir_at now path recursive fs).0
unfolding make_dir_at
make_dir_at-IsClosed now path recursive fs closed = with_parts (split_path path)
  where
    with_parts : (parts : List String) → IsClosed (made now path recursive fs parts).0
    with_parts [] = closed
    with_parts (p ∷ ps) =
        either (p == "~") _ _ (make_dirs-IsClosed now path recursive fs root ps closed) closed
