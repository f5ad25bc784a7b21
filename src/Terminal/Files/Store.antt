-- ===== src/Terminal/Files/Store.antt =====
-- The laws of the store: reading behind a write, an allocation or a change of entries.
use tbd_dev.Prelude.{
  ℕ, zero, suc, ◌<◌, String, Option, none, some, [], ◌∷◌, ◌≡◌, refl, ap, ◌∙◌, arith, eqb, eq_iff,
  ◌==◌, if◌then◌else◌, length, get_elem?, Option-cases, inl, inr,
}
use tbd_dev.Terminal.Files.{
  Entries, FsDir, Node, file, dir, Files, entry, put, without, set, alloc, child, with_children,
  update_children, add_node,
}

pub entry-put :
    (n j : String) (a : ℕ) (es : Entries)
    → entry j (put n a es) ≡ (if n == j then some a else entry j es)
unfolding entry put
entry-put n j a [] = refl
entry-put n j a ((i, b) ∷ es) =
    ground (arith, eq_iff n j, eq_iff i n, eq_iff i j, entry-put n j a es)

pub entry-without :
    (n j : String) (es : Entries) → entry j (without n es) ≡ (if n == j then none else entry j es)
unfolding entry without
entry-without n j [] = ground arith
entry-without n j ((i, b) ∷ es) =
    ground (arith, eq_iff n j, eq_iff i n, eq_iff i j, entry-without n j es)

pub length-set : (fs : Files) (a : ℕ) (n : Node) → length (set fs a n) ≡ length fs
unfolding set
length-set [] a n = refl
length-set (m ∷ fs) zero n = refl
length-set (m ∷ fs) (suc a) n = ap suc (length-set fs a n)

-- Reading behind a write.
pub get_elem?-set :
    (fs : Files) (a b : ℕ) (n m : Node)
    → get_elem? fs a ≡ some m
    → get_elem? (set fs a n) b ≡ (if eqb a b then some n else get_elem? fs b)
unfolding set
get_elem?-set [] a b n m h = cc
get_elem?-set (k ∷ fs) zero zero n m h = refl
get_elem?-set (k ∷ fs) zero (suc b) n m h = ground arith
get_elem?-set (k ∷ fs) (suc a) zero n m h = ground arith
get_elem?-set (k ∷ fs) (suc a) (suc b) n m h = ground (arith, get_elem?-set fs a b n m h)

-- Reading behind an allocation.
pub get_elem?-alloc :
    (fs : Files) (b : ℕ) (n : Node)
    → get_elem? (alloc fs n) b ≡ (if eqb (length fs) b then some n else get_elem? fs b)
get_elem?-alloc [] zero n = refl
get_elem?-alloc [] (suc b) n = ground arith
get_elem?-alloc (k ∷ fs) zero n = ground arith
get_elem?-alloc (k ∷ fs) (suc b) n = ground (arith, get_elem?-alloc fs b n)

pub lt_of_get_elem? : (fs : Files) (a : ℕ) (n : Node) → get_elem? fs a ≡ some n → a < length fs
lt_of_get_elem? [] a n h = cc
lt_of_get_elem? (k ∷ fs) zero n h = omega arith
lt_of_get_elem? (k ∷ fs) (suc a) n h = omega (arith, lt_of_get_elem? fs a n h)

pub get_elem?-alloc_old :
    (fs : Files) (a : ℕ) (n m : Node) → get_elem? fs a ≡ some m → get_elem? (alloc fs n) a ≡ some m
get_elem?-alloc_old fs a n m h = ground (arith, get_elem?-alloc fs a n, lt_of_get_elem? fs a m)

pub lt_of_child :
    (fs : Files) (a : ℕ) (p : String) (b : ℕ) → child (get_elem? fs a) p ≡ some b → a < length fs
lt_of_child fs a p b h = elim (Option-cases (get_elem? fs a)) [
  | inl gone ↦ absurd (let h' = rw gone at h in cc)
  | inr (n, found) ↦ lt_of_get_elem? fs a n found
]

-- A directory whose entries change, and every other node.
pub get_elem?-update_children :
    (f : Entries → Entries) (a b : ℕ) (fs : Files) (d : FsDir)
    → get_elem? fs a ≡ some (dir d)
    → get_elem? (update_children f a fs) b
      ≡ (if eqb a b then some (dir (record d { children = f d.children })) else get_elem? fs b)
unfolding update_children
get_elem?-update_children f a b fs d h =
    rw (h, update_children)
      (get_elem?-set fs a b (dir (record d { children = f d.children })) (dir d) h)

pub length-update_children :
    (f : Entries → Entries) (a : ℕ) (fs : Files) → length (update_children f a fs) ≡ length fs
unfolding update_children
length-update_children f a fs = with_length (get_elem? fs a)
  where
    with_length : (o : Option Node) → length (with_children f o a fs) ≡ length fs
    with_length (some (dir d)) = length-set fs a _
    with_length (some (file g)) = refl
    with_length none = refl

-- The store behind `add_node`, at an existing directory.
pub get_elem?-add_node :
    (name : String) (node : Node) (a b : ℕ) (fs : Files) (d : FsDir)
    → get_elem? fs a ≡ some (dir d)
    → get_elem? (add_node name node a fs) b ≡ (
        if eqb a b
        then some (dir (record d { children = put name (length fs) d.children }))
        else if eqb (length fs) b
        then some node
        else get_elem? fs b)
unfolding add_node
get_elem?-add_node name node a b fs d h =
    get_elem?-update_children (put name (length fs)) a b (alloc fs node) d
      (get_elem?-alloc_old fs a node _ h)
    ∙ ap
        (λ rest.
          if eqb a b
          then some (dir (record d { children = put name (length fs) d.children }))
          else rest)
        (get_elem?-alloc fs b node)
