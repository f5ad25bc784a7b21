-- ===== src/Terminal/Files.antt =====
-- web/src/app/page.tsx: the simulated file system. Its objects are shared and changed in place, so
-- the model is a store: a node's address is its position, and a directory holds addresses. A new node
-- goes to the end of the store.
--
-- `Record<string, FSNode>` is a list of entries under distinct names; a name of `Object.prototype`
-- (`constructor` and the like), which JavaScript also finds in an empty record, is not modelled.
pub mod Store
pub mod Walk
pub mod Write
pub mod Written
pub mod Closed
pub mod Remove
pub mod Removed
pub mod Moved
pub mod Kept
use tbd_dev.Prelude.{
  ℕ, zero, suc, String, Bool, true, false, Option, none, some, List, [], ◌∷◌, ◌++◌, ◌⧺◌, ◌||◌, ◌&&◌,
  not, eqb, ◌==◌, if◌then◌else◌, length, get_elem?,
}
use tbd_dev.Terminal.Path.{split_path, split, join}

-- The entries of a directory.
abbrev pub Entries : Type 0
Entries = List (String × ℕ)

pub record FsFile : Type 0 where
  pub content : String
  pub mtime : ℕ
  pub mode : String

pub record FsDir : Type 0 where
  pub children : Entries
  pub mtime : ℕ
  pub mode : String

pub data Node : Type 0 where
  file : FsFile → Node
  dir : FsDir → Node

abbrev pub default_file_mode : String
default_file_mode = "-rw-r--r--"

abbrev pub default_dir_mode : String
default_dir_mode = "drwxr-xr-x"

abbrev pub make_file : String → ℕ → Node
make_file text now = file (record { content = text; mtime = now; mode = default_file_mode })

abbrev pub make_dir : Entries → ℕ → Node
make_dir entries now = dir (record { children = entries; mtime = now; mode = default_dir_mode })

-- The nodes by address; the root directory has address 0.
abbrev pub Files : Type 0
Files = List Node

abbrev pub root : ℕ
root = 0

unfoldable pub entry : String → Entries → Option ℕ
entry name [] = none
entry name ((n, a) ∷ es) = if n == name then some a else entry name es

-- `children[name] = a`
unfoldable pub put : String → ℕ → Entries → Entries
put name a [] = (name, a) ∷ []
put name a ((n, b) ∷ es) = if n == name then (n, a) ∷ es else (n, b) ∷ put name a es

-- `delete children[name]`
unfoldable pub without : String → Entries → Entries
without name [] = []
without name ((n, b) ∷ es) = let rest = without name es in if n == name then rest else (n, b) ∷ rest

-- Writes the node at an address.
unfoldable pub set : Files → ℕ → Node → Files
set [] a n = []
set (m ∷ ns) zero n = n ∷ ns
set (m ∷ ns) (suc a) n = m ∷ set ns a n

abbrev pub alloc : Files → Node → Files
alloc fs n = fs ++ n ∷ []

-- The entry of a node, if it is a directory that has one.
abbrev pub child : Option Node → String → Option ℕ
child (some (dir d)) name = entry name d.children
child (some (file f)) name = none
child none name = none

-- The loop of `getNode`.
unfoldable pub walk : Files → ℕ → List String → Option ℕ
walk fs a [] = some a
walk fs a (p ∷ ps) = elim (child (get_elem? fs a) p) [ none ↦ none | some b ↦ walk fs b ps ]

unfoldable pub get_parts : Files → List String → Option ℕ
get_parts fs [] = none
get_parts fs (p ∷ ps) = if p == "~" then walk fs root ps else none

-- `getNode(root, path)`: the address of the node.
unfoldable pub get_node : Files → String → Option ℕ
unfolding get_parts
get_node fs path = get_parts fs (split_path path)

-- `parts.pop()`: the parts before the last, and the last.
unfoldable pub split_last : List String → Option (List String × String)
split_last [] = none
split_last (p ∷ ps) = elim (split_last ps) [
  | none ↦ some ([], p)
  | some (before, last) ↦ some (p ∷ before, last)
]

abbrev pub dir_at : Files → ℕ → Option FsDir
dir_at fs a = elim (get_elem? fs a) [ some (dir d) ↦ some d | _ ↦ none ]

abbrev pub only_dir : Files → Option ℕ → Option ℕ
only_dir fs none = none
only_dir fs (some a) = elim (dir_at fs a) [ none ↦ none | some d ↦ some a ]

abbrev pub parent_path : List String → String
parent_path [] = "~"
parent_path (p ∷ ps) = join (p ∷ ps)

abbrev pub parent_of : Files → Option (List String × String) → Option ℕ × String
parent_of fs none = (none, "")
parent_of fs (some (before, name)) = (only_dir fs (get_node fs (parent_path before)), name)

-- `getParent`: the address of the parent if that is a directory, and the name in it.
unfoldable pub get_parent : Files → String → Option ℕ × String
unfolding split_last get_node
get_parent fs path = parent_of fs (split_last (split_path path))

-- `parent.children[name]`, for a directory at an address.
unfoldable pub lookup_in : Files → ℕ → String → Option ℕ
lookup_in fs a name = child (get_elem? fs a) name

abbrev pub with_children : (Entries → Entries) → Option Node → ℕ → Files → Files
with_children f (some (dir d)) a fs = set fs a (dir (record d { children = f d.children }))
with_children f _ a fs = fs

-- Changes the entries of the directory at an address.
unfoldable pub update_children : (Entries → Entries) → ℕ → Files → Files
unfolding set
update_children f a fs = with_children f (get_elem? fs a) a fs

-- `parent.children[name] = node`, where the node is new.
unfoldable pub add_node : String → Node → ℕ → Files → Files
unfolding update_children put
add_node name node a fs = update_children (put name (length fs)) a (alloc fs node)

abbrev pub is_dir : Option Node → Bool
is_dir (some (dir d)) = true
is_dir _ = false

abbrev pub Outcome : Type 0
Outcome = Files × Option String
