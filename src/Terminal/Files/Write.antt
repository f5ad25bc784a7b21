-- ===== src/Terminal/Files/Write.antt =====
-- web/src/app/page.tsx: `writeFile` and `makeDirAt`.
use tbd_dev.Prelude.{
  ℕ, String, Bool, true, false, Option, none, some, List, [], ◌∷◌, ◌⧺◌, ◌&&◌, not, ◌==◌,
  if◌then◌else◌, length, get_elem?,
}
use tbd_dev.Terminal.Path.{split_path}
use tbd_dev.Terminal.Files.{
  Node, file, dir, Files, root, set, make_file, make_dir, get_parent, lookup_in, add_node, Outcome,
  is_dir,
}

-- A write over an entry. One that leads nowhere does not occur in a closed store.
unfoldable pub write_existing : ℕ → String → String → Bool → ℕ → Files → Option Node → Outcome
unfolding set
write_existing now name content append b fs (some (dir d)) =
    (fs, some ("cannot overwrite '" ⧺ name ⧺ "': Is a directory"))
write_existing now name content append b fs (some (file f)) = (
  set fs b
      (file (record f { content = if append then f.content ⧺ content else content; mtime = now })),
  none,
)
write_existing now name content append b fs none = (fs, none)

-- A write to an entry of the directory at an address.
unfoldable pub write_entry : ℕ → String → String → Bool → ℕ → Files → Option ℕ → Outcome
unfolding write_existing add_node
write_entry now name content append a fs none = (add_node name (make_file content now) a fs, none)
write_entry now name content append a fs (some b) =
    write_existing now name content append b fs (get_elem? fs b)

unfoldable pub write_in : ℕ → String → String → Bool → Files → Option ℕ × String → Outcome
unfolding write_entry lookup_in
write_in now path content append fs (none, name) =
    (fs, some ("cannot create '" ⧺ path ⧺ "': No such file or directory"))
write_in now path content append fs (some a, name) =
    write_entry now name content append a fs (lookup_in fs a name)

unfoldable pub write_file : ℕ → String → String → Bool → Files → Outcome
unfolding get_parent write_in
write_file now path content append fs = write_in now path content append fs (get_parent fs path)

abbrev not_last : List String → Bool
not_last [] = false
not_last (p ∷ ps) = true

-- The loop of `makeDirAt`, at the directory at an address.
unfoldable pub make_dirs : ℕ → String → Bool → Files → ℕ → List String → Outcome
unfolding lookup_in add_node
make_dirs now path recursive fs a [] = (fs, none)
make_dirs now path recursive fs a (name ∷ rest) =
    let deeper =
      make_dirs now path recursive (add_node name (make_dir [] now) a fs) (length fs) rest in
    elim (lookup_in fs a name) [
      | none ↦
          if not recursive && not_last rest
          then (fs, some ("cannot create directory '" ⧺ path ⧺ "': No such file or directory"))
          else deeper
      | some b ↦ elim (is_dir (get_elem? fs b)) [
        | true ↦ make_dirs now path recursive fs b rest
        | false ↦ (fs, some ("cannot create directory '" ⧺ path ⧺ "': Not a directory"))
      ]
    ]

-- `makeDirAt`, with the parts of the path.
abbrev pub made : ℕ → String → Bool → Files → List String → Outcome
made now path recursive fs [] = (fs, some "invalid path")
made now path recursive fs (p ∷ parts) =
    if p == "~" then make_dirs now path recursive fs root parts else (fs, some "invalid path")

unfoldable pub make_dir_at : ℕ → String → Bool → Files → Outcome
unfolding make_dirs
make_dir_at now path recursive fs = made now path recursive fs (split_path path)
