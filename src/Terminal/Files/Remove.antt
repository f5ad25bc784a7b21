-- ===== src/Terminal/Files/Remove.antt =====
-- web/src/app/page.tsx: `removeNode` and `moveNode`.
use tbd_dev.Prelude.{
  ℕ, String, Bool, Option, none, some, List, ◌⧺◌, ◌&&◌, not, if◌then◌else◌, get_elem?, truthy_text,
}
use tbd_dev.Terminal.Path.{split}
use tbd_dev.Terminal.Files.{
  Files, put, without, get_node, split_last, get_parent, lookup_in, update_children, Outcome,
  is_dir, only_dir,
}

-- A removal of an entry of the directory at an address.
unfoldable pub remove_entry : String → Bool → Files → ℕ → String → Option ℕ → Outcome
unfolding update_children without
remove_entry path recursive fs a name none =
    (fs, some ("cannot remove '" ⧺ path ⧺ "': No such file or directory"))
remove_entry path recursive fs a name (some b) =
    if is_dir (get_elem? fs b) && not recursive
    then (fs, some ("cannot remove '" ⧺ path ⧺ "': Is a directory"))
    else (update_children (without name) a fs, none)

unfoldable pub remove_in : String → Bool → Files → Option ℕ × String → Outcome
unfolding remove_entry lookup_in
remove_in path recursive fs (none, name) =
    (fs, some ("cannot remove '" ⧺ path ⧺ "': No such file or directory"))
remove_in path recursive fs (some a, name) =
    remove_entry path recursive fs a name (lookup_in fs a name)

unfoldable pub remove_node : String → Bool → Files → Outcome
unfolding get_parent remove_in
remove_node path recursive fs = remove_in path recursive fs (get_parent fs path)

-- The last part of a path as `split("/").pop()` gives it, or a default where that is empty.
unfoldable pub last_or : String → List String → String
unfolding split_last
last_or d parts = elim (split_last parts) [
  | none ↦ d
  | some (before, name) ↦ if truthy_text name then name else d
]

-- `destParent.children[destName] = srcNode; delete parent.children[name]`.
unfoldable pub relocate : ℕ → String → ℕ → ℕ → String → Files → Files
unfolding update_children put without
relocate b as_name node a name fs =
    update_children (without name) a (update_children (put as_name node) b fs)

-- `moveNode`, with the entry that holds the node, the directory at the destination and the parent of
-- the destination.
unfoldable pub move_into : ℕ → ℕ → String → String → Files → Option ℕ → Option ℕ → Outcome
unfolding last_or relocate split
move_into node a name dest fs (some b) parent = (relocate b name node a name fs, none)
move_into node a name dest fs none none =
    (fs, some ("cannot move '" ⧺ dest ⧺ "': No such file or directory"))
move_into node a name dest fs none (some b) =
    (relocate b (last_or name (split dest)) node a name fs, none)

-- `moveNode`, with the node and its parent.
unfoldable pub move_from : String → String → Files → Option ℕ → Option ℕ × String → Outcome
unfolding move_into get_node get_parent
move_from src dest fs none held =
    (fs, some ("cannot stat '" ⧺ src ⧺ "': No such file or directory"))
move_from src dest fs (some node) (none, name) =
    (fs, some ("cannot move '" ⧺ src ⧺ "': No such file or directory"))
move_from src dest fs (some node) (some a, name) =
    move_into node a name dest fs (only_dir fs (get_node fs dest)) ((get_parent fs dest).0)

unfoldable pub move_node : String → String → Files → Outcome
unfolding move_from get_node get_parent
move_node src dest fs = move_from src dest fs (get_node fs src) (get_parent fs src)
