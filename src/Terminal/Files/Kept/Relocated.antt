-- ===== src/Terminal/Files/Kept/Relocated.antt =====
-- Removing and moving keep the store closed.
use tbd_dev.Prelude.{ℕ, ◌<◌, String, Bool, Option, none, some, ◌≡◌, refl, length}
use tbd_dev.Terminal.Files.{
  FsDir, dir, Files, put, without, get_node, get_parent, split_last, lookup_in,
}
use tbd_dev.Terminal.Path.{split_path}
use tbd_dev.Terminal.Files.Store.{lt_of_get_elem?}
use tbd_dev.Terminal.Files.Written.{IsClosed, DirAt}
use tbd_dev.Terminal.Files.Closed.{parent_of-DirAt}
use tbd_dev.Terminal.Files.Remove.{
  remove_node, remove_in, remove_entry, move_node, move_from, move_into, relocate,
}
use tbd_dev.Terminal.Files.Kept.{
  update_children-IsClosed, put-Leads, without-Leads, get_node-lt, either,
}

-- `removeNode` and `moveNode`, with or without an error, leave every entry of a closed store leading to a
-- node.
remove_entry-IsClosed :
    (path : String) (recursive : Bool) (fs : Files) (a : ℕ) (name : String) (o : Option ℕ)
    → IsClosed fs
    → IsClosed (remove_entry path recursive fs a name o).0
unfolding remove_entry
remove_entry-IsClosed path recursive fs a name none closed = closed
remove_entry-IsClosed path recursive fs a name (some b) closed =
    either _ _ _ closed
      (update_children-IsClosed (without name) a fs (without-Leads name (length fs)) closed)

remove_in-IsClosed :
    (path : String) (recursive : Bool) (fs : Files) (held : Option ℕ × String)
    → IsClosed fs
    → IsClosed (remove_in path recursive fs held).0
unfolding remove_in
remove_in-IsClosed path recursive fs (none, name) closed = closed
remove_in-IsClosed path recursive fs (some a, name) closed =
    remove_entry-IsClosed path recursive fs a name (lookup_in fs a name) closed

pub remove_node-IsClosed :
    (path : String) (recursive : Bool) (fs : Files)
    → IsClosed fs
    → IsClosed (remove_node path recursive fs).0
unfolding remove_node
remove_node-IsClosed path recursive fs closed =
    remove_in-IsClosed path recursive fs (get_parent fs path) closed

relocate-IsClosed :
    (b : ℕ) (as_name : String) (node a : ℕ) (name : String) (fs : Files)
    → node < length fs
    → IsClosed fs
    → IsClosed (relocate b as_name node a name fs)
unfolding relocate
relocate-IsClosed b as_name node a name fs lt closed =
    update_children-IsClosed (without name) a _ (without-Leads name _) (
      update_children-IsClosed (put as_name node) b fs (put-Leads as_name node (length fs) lt)
        closed)

move_into-IsClosed :
    (node a : ℕ) (name dest : String) (fs : Files) (o parent : Option ℕ)
    → node < length fs
    → IsClosed fs
    → IsClosed (move_into node a name dest fs o parent).0
unfolding move_into
move_into-IsClosed node a name dest fs (some b) parent lt closed =
    relocate-IsClosed b name node a name fs lt closed
move_into-IsClosed node a name dest fs none none lt closed = closed
move_into-IsClosed node a name dest fs none (some b) lt closed =
    relocate-IsClosed b _ node a name fs lt closed

move_from-IsClosed :
    (src dest : String) (fs : Files) (o : Option ℕ) (held : Option ℕ × String)
    → get_node fs src ≡ o
    → ((a : ℕ) → held.0 ≡ some a → (d : FsDir) × DirAt fs a d)
    → IsClosed fs
    → IsClosed (move_from src dest fs o held).0
unfolding move_from
move_from-IsClosed src dest fs none held e at closed = closed
move_from-IsClosed src dest fs (some node) (none, name) e at closed = closed
move_from-IsClosed src dest fs (some node) (some a, name) e at closed =
    let (d, there) = at a refl in
    move_into-IsClosed node a name dest fs _ _
      (get_node-lt fs src a node closed (lt_of_get_elem? fs a (dir d) there) e) closed

pub move_node-IsClosed :
    (src dest : String) (fs : Files) → IsClosed fs → IsClosed (move_node src dest fs).0
unfolding move_node get_parent
move_node-IsClosed src dest fs closed =
    move_from-IsClosed src dest fs (get_node fs src) (get_parent fs src) refl
      (λ a h. parent_of-DirAt fs (split_last (split_path src)) a h) closed
