-- ===== src/Tests/Transactions.antt =====
-- A transaction on a small disk: the instances of the theorems on replays, and tests.
use httk_workflow.Transactions.Keeps.{spots, leaves, clear, apart_within}
use httk_workflow.Transactions.Rename.{
  parent, way_is_free, with_directories, mkdir, permitted, moved_tree, rename, try_rename, resolved,
  try_all, rename_verified,
}
use httk_workflow.Stateful.{◌>>=◌, of, check}
use httk_workflow.Names.JobKey.{validate_label, is_label}
use httk_workflow.Base.{
  pos, ◌≡◌, refl, String, Bool, true, false, some, List, [], ◌∷◌, ◌++◌, if◌then◌else◌, ◌&&◌,
}
use httk_workflow.Errors.{ok, err, unavailable_error, format_error}
use httk_workflow.Json.{
  Json, obj, int, str, arr, items, Members, end, field, get, lookup, is_str, is_int, truthy,
  require_string,
}
use httk_workflow.Json.Numbers.{codes}
use httk_workflow.Names.Text.{Text, text_eq}
use httk_workflow.Transactions.{
  Place, Node, nothing, directory, file, Tree, performed, refused, Kernel, Disk, within, exists,
  is_dir, below, is_file, subtree, digest_matches,
}
use httk_workflow.Names.Path.{parts}
use httk_workflow.Transactions.Manifest.{
  accepted, relative_path, label_of, collect, disjoint, overlap,
}
use httk_workflow.Transactions.Operation.{
  Operation, make_dir, put_file, remove_path, replace_tree, data_dir, operation_of,
}
use httk_workflow.Transactions.Replay.{
  replay_transaction, set_aside, apply, replay_all, replay_one, nonempty, look, put_back,
  mkdir_or_raise, installed, applied, steps, put_file_steps, remove_steps,
}
use httk_workflow.Transactions.Resume.{apply_all, separated}
use httk_workflow.Transactions.Restart.{
  operations_of, interrupted, replay_transaction-interrupted, entry_of,
}
use httk_workflow.Transactions.Midway.{apply-set_aside, apply-remove_path}

abbrev at : List String → Place
at [] = []
at (s ∷ ss) = codes s ∷ at ss

-- the content of the file `f` of a directory
abbrev content : Node → Text
content (file c) = c
content _ = []

abbrev is_nothing : Node → Bool
is_nothing nothing = true
is_nothing _ = false

-- Digests are contents, and a directory is empty if it has no `f`. The first attempt of every
-- rename is refused.
abbrev kernel : Kernel
kernel = record {
  sha256_file = λ c. c;
  tree_digest = λ t. content (t (at ("f" ∷ [])));
  is_empty = λ t p. is_nothing (t (p ++ at ("f" ∷ [])));
  tries = λ n. refused ∷ performed ∷ [];
}

abbrev same_place : Place → Place → Bool
same_place p q = within p q && within q p

-- a file to be put, a tree to be put, and an old tree
abbrev start_tree : Tree
start_tree p =
    if same_place p (at ("data" ∷ []))
    then directory
    else if same_place p (at ("data" ∷ "old" ∷ []))
    then directory
    else if same_place p (at ("data" ∷ "old" ∷ "f" ∷ []))
    then file (codes "before")
    else if same_place p (at ("transaction" ∷ []))
    then directory
    else if same_place p (at ("transaction" ∷ "new" ∷ []))
    then directory
    else if same_place p (at ("transaction" ∷ "new" ∷ "f" ∷ []))
    then file (codes "after")
    else if same_place p (at ("transaction" ∷ "g" ∷ []))
    then file (codes "abc")
    else nothing

abbrev start : Disk
start = record { tree = start_tree; tick = 0 }

abbrev put_g : Json
put_g = obj (
    field "id" (str "put") (
      field "op" (str "put-file")
        (field "path" (str "a/g") (field "source" (str "g") (field "sha256" (str "abc") end)))))

abbrev remove_old : Json
remove_old = obj (field "id" (str "old") (field "op" (str "remove") (field "path" (str "old") end)))

abbrev manifest : Members
manifest = field "format" (str "httk-workflow-transaction") (
    field "format_version" (int (pos 2)) (
      field "expected_data_generation" (int (pos 4))
        (field "operations" (arr (items (put_g ∷ remove_old ∷ []))) end)))

abbrev its_operations : List Operation
its_operations =
    put_file (at ("data" ∷ "a" ∷ "g" ∷ [])) (at ("transaction" ∷ "g" ∷ [])) (some (codes "abc"))
    ∷ remove_path (at ("data" ∷ "old" ∷ [])) (at ("transaction" ∷ "trash" ∷ "old" ∷ "removed" ∷ []))
        false
    ∷ []

manifest-accepted : accepted (pos 4) manifest ≡ ok (put_g ∷ remove_old ∷ [])
unfolding accepted collect disjoint overlap within below get lookup is_str is_int truthy
    require_string text_eq label_of validate_label is_label relative_path parts
manifest-accepted = refl

manifest-operations : operations_of (put_g ∷ remove_old ∷ []) ≡ ok its_operations
unfolding operations_of entry_of operation_of get lookup is_str is_int truthy require_string text_eq
    label_of validate_label is_label relative_path parts
manifest-operations = refl

manifest-separated : separated (make_dir data_dir ∷ its_operations) ≡ true
unfolding separated apart_within spots leaves clear overlap within below text_eq
manifest-separated = refl

abbrev finished : Disk
finished = (replay_transaction kernel (pos 4) (ok manifest) start).1

manifest-replayed : replay_transaction kernel (pos 4) (ok manifest) start ≡ (ok true, finished)
unfolding replay_transaction replay_all replay_one nonempty accepted collect disjoint overlap
    operation_of get lookup is_str is_int truthy require_string text_eq label_of validate_label
    is_label relative_path parts below within exists is_file is_dir subtree digest_matches parent
    way_is_free with_directories mkdir permitted moved_tree rename try_rename resolved try_all
    rename_verified ◌>>=◌ of check look put_back mkdir_or_raise installed applied steps
    put_file_steps remove_steps set_aside apply
manifest-replayed = refl

moved_file : finished.tree (at ("data" ∷ "a" ∷ "g" ∷ [])) ≡ file (codes "abc")
unfolding replay_transaction replay_all replay_one nonempty accepted collect disjoint overlap
    operation_of get lookup is_str is_int truthy require_string text_eq label_of validate_label
    is_label relative_path parts below within exists is_file is_dir subtree digest_matches parent
    way_is_free with_directories mkdir permitted moved_tree rename try_rename resolved try_all
    rename_verified ◌>>=◌ of check look put_back mkdir_or_raise installed applied steps
    put_file_steps remove_steps set_aside apply
moved_file = refl

-- The replay stopped after the file was put.
replay_transaction-interrupted_example :
    replay_transaction kernel (pos 4) (ok manifest) (interrupted kernel (put_g ∷ []) start)
    ≡ (ok true, finished)
replay_transaction-interrupted_example =
    replay_transaction-interrupted kernel (pos 4) manifest (put_g ∷ []) (remove_old ∷ [])
      its_operations start finished true manifest-accepted manifest-operations manifest-separated
      manifest-replayed

abbrev old : Place
old = at ("data" ∷ "old" ∷ [])

abbrev new : Place
new = at ("transaction" ∷ "new" ∷ [])

abbrev trashed : Place
trashed = at ("transaction" ∷ "trash" ∷ "r" ∷ "old" ∷ [])

abbrev half : Disk
half = (set_aside kernel old trashed start).1

set_aside-half : set_aside kernel old trashed start ≡ (ok tt, half)
unfolding below within exists is_file is_dir subtree digest_matches parent way_is_free
    with_directories mkdir permitted moved_tree rename try_rename resolved try_all rename_verified
    set_aside text_eq
set_aside-half = refl

apply-set_aside_example :
    apply kernel (replace_tree old new trashed (some (codes "after"))) half
    ≡ apply kernel (replace_tree old new trashed (some (codes "after"))) start
unfolding overlap exists applied
apply-set_aside_example =
    apply-set_aside kernel old new trashed (some (codes "after")) start half refl refl refl refl
      set_aside-half

-- An old tree is removed and its directory made again: the transaction is done, and then it is
-- replayed.
abbrev emptied : List Operation
emptied = remove_path old trashed false ∷ make_dir old ∷ []

abbrev after_emptied : Disk
after_emptied = (apply_all kernel emptied start).1

emptied_returns : apply_all kernel emptied start ≡ (ok tt, after_emptied)
unfolding apply_all below within exists is_file is_dir subtree digest_matches parent way_is_free
    with_directories mkdir permitted moved_tree rename try_rename resolved try_all rename_verified
    ◌>>=◌ of check look put_back mkdir_or_raise installed applied steps put_file_steps remove_steps
    set_aside apply text_eq
emptied_returns = refl

home_there : is_dir after_emptied.tree (at ("transaction" ∷ "trash" ∷ "r" ∷ [])) ≡ true
unfolding apply_all below within exists is_file is_dir subtree digest_matches parent way_is_free
    with_directories mkdir permitted moved_tree rename try_rename resolved try_all rename_verified
    ◌>>=◌ of check look put_back mkdir_or_raise installed applied steps put_file_steps remove_steps
    set_aside apply text_eq
home_there = refl

made_again : is_dir after_emptied.tree old ≡ true
unfolding apply_all below within exists is_file is_dir subtree digest_matches parent way_is_free
    with_directories mkdir permitted moved_tree rename try_rename resolved try_all rename_verified
    ◌>>=◌ of check look put_back mkdir_or_raise installed applied steps put_file_steps remove_steps
    set_aside apply text_eq
made_again = refl

trash_there : is_dir after_emptied.tree trashed ≡ true
unfolding apply_all below within exists is_file is_dir subtree digest_matches parent way_is_free
    with_directories mkdir permitted moved_tree rename try_rename resolved try_all rename_verified
    ◌>>=◌ of check look put_back mkdir_or_raise installed applied steps put_file_steps remove_steps
    set_aside apply text_eq
trash_there = refl

trash_full : kernel.is_empty after_emptied.tree trashed ≡ false
unfolding apply_all below within exists is_file is_dir subtree digest_matches parent way_is_free
    with_directories mkdir permitted moved_tree rename try_rename resolved try_all rename_verified
    ◌>>=◌ of check look put_back mkdir_or_raise installed applied steps put_file_steps remove_steps
    set_aside apply text_eq
trash_full = refl

apply-remove_path_example :
    (apply kernel (remove_path old trashed false) after_emptied).0 ≡ err unavailable_error
unfolding parent
apply-remove_path_example =
    apply-remove_path kernel old trashed false after_emptied home_there made_again trash_there
      trash_full

-- A path of one dot is taken for the data directory itself.
dot_path : relative_path (str ".") ≡ ok []
unfolding get lookup is_str is_int truthy require_string text_eq label_of validate_label is_label
    relative_path parts
dot_path = refl

dots_inside : relative_path (str "a/./b//c") ≡ ok (at ("a" ∷ "b" ∷ "c" ∷ []))
unfolding get lookup is_str is_int truthy require_string text_eq label_of validate_label is_label
    relative_path parts
dots_inside = refl

dots_up : relative_path (str "a/../b") ≡ err format_error
unfolding get lookup is_str is_int truthy require_string text_eq label_of validate_label is_label
    relative_path parts
dots_up = refl
