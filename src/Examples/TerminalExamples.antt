-- ===== src/Examples/TerminalExamples.antt =====
-- The theorems about the terminal's paths and files, applied.
use tbd_dev.Prelude.{zero, suc, true, false, none, [], ◌∷◌, ◌≡◌, refl, arith, All}
use tbd_dev.Terminal.Path.{resolve_path, split_path, join}
use tbd_dev.Terminal.Path.Split.{IsPart, split_path-IsPart}
use tbd_dev.Terminal.Path.Resolve.{IsCanonical, resolve_path-IsCanonical}
use tbd_dev.Terminal.Files.{Files, make_file, make_dir, entry, walk, get_node}
use tbd_dev.Terminal.Files.Write.{write_file}
use tbd_dev.Terminal.Files.Written.{IsClosed, Writes, write_file-get_node}
use tbd_dev.Terminal.Files.Remove.{remove_node, move_node}
use tbd_dev.Terminal.Files.Removed.{Removes, remove_node-Removes}
use tbd_dev.Terminal.Files.Moved.{move_node_self}

resolve_path-IsCanonical_example : IsCanonical (resolve_path "~/docs" "../notes/./today")
resolve_path-IsCanonical_example = resolve_path-IsCanonical "~/docs" "../notes/./today"

docs-parts : All IsPart ("~" ∷ "docs" ∷ [])
unfolding split_path
docs-parts = split_path-IsPart "~/docs"

-- A home directory with one file.
abbrev home : Files
home = make_dir (("notes", 1) ∷ []) 0 ∷ make_file "hi" 0 ∷ []

home-IsClosed : IsClosed home
unfolding entry
home-IsClosed zero p b h = ground arith
home-IsClosed (suc zero) p b h = cc
home-IsClosed (suc (suc a)) p b h = cc

write_file-get_node_example :
    Writes "x" true "~/notes" home (write_file 5 "~/notes" "x" true home).0
unfolding write_file split_path join walk entry
write_file-get_node_example =
    write_file-get_node 5 "~/notes" "x" true home [] "notes" home-IsClosed refl refl

remove_node-Removes_example : Removes "~/notes" home (remove_node "~/notes" false home)
unfolding split_path
remove_node-Removes_example = remove_node-Removes "~/notes" false home [] "notes" refl

notes-part : All IsPart ("notes" ∷ [])
unfolding split_path
notes-part = split_path-IsPart "notes"

move_node_self_example :
    ((move_node "~/notes" "~/notes" home).1 ≡ none)
    × (get_node (move_node "~/notes" "~/notes" home).0 "~/notes" ≡ none)
unfolding get_node join split_path walk entry
move_node_self_example = move_node_self home [] "notes" 1 _ notes-part refl refl
