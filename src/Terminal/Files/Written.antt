-- ===== src/Terminal/Files/Written.antt =====
-- `writeFile` and `makeDirAt`: what is written is found, and nothing else is lost.
use text.Mathlib.TextLemmas.{nil-append}
use tbd_dev.Prelude.{
  ℕ, zero, suc, ◌<◌, String, Bool, false, Option, none, some, List, [], ◌∷◌, ◌⧺◌, ◌≡◌, ◌∙◌, refl,
  ap, sym, subst, arith, eqb, eqb_refl, eq_iff, eq_refl, if◌then◌else◌, length, get_elem?,
  Bool-cases, Option-cases, inl, inr,
}
use tbd_dev.Terminal.Files.{
  FsFile, FsDir, Node, file, dir, Files, root, entry, child, walk, get_node, set, only_dir,
  add_node, make_file,
}
use tbd_dev.Terminal.Files.Store.{
  entry-put, get_elem?-set, get_elem?-add_node, lt_of_get_elem?, lt_of_child,
}
use tbd_dev.Terminal.Files.Walk.{
  Extends, walk-Extends, LeadsTo, get_node-LeadsTo, get_parent-LeadsTo, then_child,
  get_node-Extends,
}
use tbd_dev.Terminal.Files.Write.{write_file, write_in, write_entry, write_existing}

-- Every entry leads to a node.
abbrev pub IsClosed : Files → Type 0
IsClosed fs = (a : ℕ) (p : String) (b : ℕ) → child (get_elem? fs a) p ≡ some b → b < length fs

-- A directory of the store.
abbrev pub DirAt : Files → ℕ → FsDir → Type 0
DirAt fs a d = get_elem? fs a ≡ some (dir d)

pub only_dir-eq-some :
    (fs : Files) (o : Option ℕ) (a : ℕ)
    → only_dir fs o ≡ some a
    → (d : FsDir) × (o ≡ some a) × DirAt fs a d
only_dir-eq-some fs none a h = cc
only_dir-eq-some fs (some b) a h = elim (Option-cases (get_elem? fs b)) [
  | inl gone ↦ absurd (ground arith)
  | inr (file f, e) ↦ absurd (ground arith)
  | inr (dir d, e) ↦
      let same : b ≡ a = ground arith in (d, ap some same, subst (λ x. DirAt fs x d) same e)
]

module _ (fs : Files) (a : ℕ) (d : FsDir) (at : DirAt fs a d) (name : String) (node : Node) where
  add_node-Extends : entry name d.children ≡ none → Extends fs (add_node name node a fs)
  add_node-Extends fresh b p c h = elim (Bool-cases (eqb a b)) [
    | inl same ↦
        rw (get_elem?-add_node name node a b fs d at, same)
          (rw entry-put (ground (arith, eq_iff name p)))
    | inr other ↦
        rw (get_elem?-add_node name node a b fs d at, other)
          (elim (Bool-cases (eqb (length fs) b)) [
            | inl new ↦ absurd (ground (arith, lt_of_child fs b p c h))
            | inr old ↦ rw old h
          ])
  ]

  add_node-child : child (get_elem? (add_node name node a fs) a) name ≡ some (length fs)
  add_node-child =
      rw (get_elem?-add_node name node a a fs d at, eqb_refl a) (rw (entry-put, eq_refl))

  add_node-new : get_elem? (add_node name node a fs) (length fs) ≡ some node
  add_node-new =
      let other : eqb a (length fs) ≡ false = ground (arith, lt_of_get_elem? fs a (dir d)) in
      rw (get_elem?-add_node name node a (length fs) fs d at, other, eqb_refl (length fs))

-- A write over a file: the walks are those of before.
set_file-Extends :
    (fs : Files) (b : ℕ) (f g : FsFile)
    → get_elem? fs b ≡ some (file f)
    → Extends fs (set fs b (file g))
set_file-Extends fs b f g at a p c h = elim (Bool-cases (eqb b a)) [
  | inl same ↦ let here : b ≡ a = ground arith in absurd (let h' = rw (← here, at) at h in cc)
  | inr other ↦ rw (get_elem?-set fs b a (file g) (file f) at, other) h
]

abbrev pub old_content : Option Node → String
old_content (some (file f)) = f.content
old_content _ = ""

abbrev pub node_at : Files → String → Option Node
node_at fs path = elim (get_node fs path) [ none ↦ none | some a ↦ get_elem? fs a ]

get_elem?-lt : (fs : Files) (a : ℕ) → a < length fs → (n : Node) × (get_elem? fs a ≡ some n)
get_elem?-lt [] a h = absurd (omega arith)
get_elem?-lt (n ∷ fs) zero h = (n, refl)
get_elem?-lt (n ∷ fs) (suc a) h = get_elem?-lt fs a (omega arith)

-- What a write that reports no error leaves behind.
abbrev pub Writes : String → Bool → String → Files → Files → Type 0
Writes content append path fs gs =
    ((f : FsFile) × (node_at gs path ≡ some (file f))
      × (f.content ≡ (if append then old_content (node_at fs path) ⧺ content else content)))
    × ((other : String) (a : ℕ) → get_node fs other ≡ some a → get_node gs other ≡ some a)

module _ (now : ℕ) (path content : String) (append : Bool) (fs : Files) (before : List String)
    (name : String) (closed : IsClosed fs) (leads : LeadsTo path before name) where
  module _ (a : ℕ) (d : FsDir) (walked : walk fs root before ≡ some a) (at : DirAt fs a d) where
    get_node_here : (gs : Files) → Extends fs gs → get_node gs path ≡ child (get_elem? gs a) name
    get_node_here gs e =
        get_node-LeadsTo path before name leads gs
        ∙ ap (then_child gs name) (walk-Extends fs gs root a before e walked)

    node_at_here :
        (gs : Files) (c : ℕ)
        → Extends fs gs
        → child (get_elem? gs a) name ≡ some c
        → node_at gs path ≡ get_elem? gs c
    node_at_here gs c e h = rw (get_node_here gs e ∙ h, node_at)

    no_node_here : child (get_elem? fs a) name ≡ none → node_at fs path ≡ none
    no_node_here h = rw (get_node_here fs (λ _ _ _ x. x) ∙ h, node_at)

    create-Writes :
        child (get_elem? fs a) name ≡ none
        → Writes content append path fs (add_node name (make_file content now) a fs)
    create-Writes fresh =
        let gs : Files = add_node name (make_file content now) a fs in
        let e : Extends fs gs =
          add_node-Extends fs a d at name (make_file content now) (rw at at fresh) in
        (
          (
            record { content = content; mtime = now; mode = "-rw-r--r--" },
            node_at_here gs (length fs) e (add_node-child fs a d at name (make_file content now))
                ∙ add_node-new fs a d at name (make_file content now),
            rw (no_node_here fresh) (ground (arith, nil-append content)),
          ),
          λ other x h. get_node-Extends fs gs other x e h,
        )

    replace-Writes :
        (b : ℕ) (n : Node)
        → child (get_elem? fs a) name ≡ some b
        → get_elem? fs b ≡ some n
        → (write_existing now name content append b fs (some n)).1 ≡ none
        → Writes content append path fs (write_existing now name content append b fs (some n)).0
    unfolding write_existing
    replace-Writes b (dir g) held found done = cc
    replace-Writes b (file f) held found done =
        let g : FsFile = record f {
          content = if append then f.content ⧺ content else content;
          mtime = now;
        } in
        let gs : Files = set fs b (file g) in
        let e : Extends fs gs = set_file-Extends fs b f g found in
        (
          (
            g,
            node_at_here gs b e (e a name b held) ∙ written gs g refl,
            ap (λ (o : Option Node). if append then old_content o ⧺ content else content)
                (sym (node_at_here fs b (λ _ _ _ x. x) held ∙ found)),
          ),
          λ other x h. get_node-Extends fs gs other x e h,
        )
      where
        written :
            (gs : Files) (g : FsFile) → gs ≡ set fs b (file g) → get_elem? gs b ≡ some (file g)
        written gs g e = rw (e, get_elem?-set fs b b (file g) (file f) found, eqb_refl b)

    write_entry-Writes :
        (o : Option ℕ)
        → child (get_elem? fs a) name ≡ o
        → (write_entry now name content append a fs o).1 ≡ none
        → Writes content append path fs (write_entry now name content append a fs o).0
    unfolding write_entry
    write_entry-Writes none h done = create-Writes h
    write_entry-Writes (some b) h done =
        let (n, found) = get_elem?-lt fs b (closed a name b h) in
        rw found (replace-Writes b n h found (rw found at done))

  write_in-Writes :
      (o : Option ℕ)
      → only_dir fs (walk fs root before) ≡ o
      → (write_in now path content append fs (o, name)).1 ≡ none
      → Writes content append path fs (write_in now path content append fs (o, name)).0
  unfolding write_in
  write_in-Writes none h done = cc
  write_in-Writes (some a) h done =
      let (d, walked, at) = only_dir-eq-some fs (walk fs root before) a h in
      write_entry-Writes a d walked at (child (get_elem? fs a) name) refl done

-- In a closed store, a write that reports no error to a path below the home directory leaves a file
-- at that path, with the new content, behind the old one where it appends; and every path that led
-- to a node before leads to the same node.
pub write_file-get_node :
    (now : ℕ) (path content : String) (append : Bool) (fs : Files) (before : List String)
    (name : String)
    → IsClosed fs
    → LeadsTo path before name
    → (write_file now path content append fs).1 ≡ none
    → Writes content append path fs (write_file now path content append fs).0
unfolding write_file
write_file-get_node now path content append fs before name closed leads done =
    rw (get_parent-LeadsTo path before name leads fs) (
      write_in-Writes now path content append fs before name closed leads
        (only_dir fs (walk fs root before)) refl
        (rw (get_parent-LeadsTo path before name leads fs) at done))
