-- ===== src/Transactions/Replay.antt =====
-- transactions.py: the second loop of replay_transaction.
use httk_workflow.Base.{
  ℤ, Bool, true, false, not, ◌&&◌, ◌||◌, Option, none, some, List, [], ◌∷◌, if◌then◌else◌,
}
use httk_workflow.Errors.{require, Result, ok, err, format_error, transaction_error, os_error}
use httk_workflow.Json.{Json, Members, as_mapping}
use httk_workflow.Names.Text.{Text}
use httk_workflow.Stateful.{Stateful, ◌>>=◌, ◌>>◌, of, check}
use httk_workflow.Transactions.{Place, Tree, Kernel, Disk, exists, is_file, is_dir, digest_matches}
use httk_workflow.Transactions.Rename.{mkdir, rename_verified}
use httk_workflow.Transactions.Manifest.{accepted}
use httk_workflow.Transactions.Operation.{
  Operation, make_dir, put_file, put_tree, remove_path, replace_tree, data_dir, operation_of,
}

-- the tree as it is now
unfoldable pub look : Stateful Disk Tree
look d = (ok d.tree, d)

unfoldable pub put_back : Option Tree → Stateful Disk (Unit {0})
put_back none d = (err os_error, d)
put_back (some t') d = (ok tt, record d { tree = t' })

-- `path.mkdir(parents=True, exist_ok=True)`
unfoldable pub mkdir_or_raise : Place → Stateful Disk (Unit {0})
mkdir_or_raise p d = put_back (mkdir p d.tree) d

-- the destination has what is asked for, and the source is gone
unfoldable pub installed : Kernel → Tree → Place → Place → Option Text → Bool
unfolding digest_matches exists
installed k t destination source expected =
    exists t destination && (digest_matches k t destination expected && not (exists t source))

unfoldable pub put_file_steps : Kernel → Place → Place → Option Text → Stateful Disk (Unit {0})
put_file_steps k destination source expected = do
  t ← look
  check (is_file t source && digest_matches k t source expected) transaction_error
  rename_verified k source destination
  t' ← look
  check (digest_matches k t' destination expected) transaction_error

unfoldable pub put_tree_steps : Kernel → Place → Place → Option Text → Stateful Disk (Unit {0})
put_tree_steps k destination source expected = do
  t ← look
  check (not (exists t destination)) transaction_error
  check (is_dir t source && digest_matches k t source expected) transaction_error
  rename_verified k source destination

unfoldable pub remove_steps : Kernel → Place → Place → Stateful Disk (Unit {0})
remove_steps k destination trash_place = do
  t ← look
  check (exists t destination) transaction_error
  rename_verified k destination trash_place

unfoldable pub set_aside : Kernel → Place → Place → Stateful Disk (Unit {0})
set_aside k destination trash_place d =
    if exists d.tree destination && not (exists d.tree trash_place)
    then rename_verified k destination trash_place d
    else (ok tt, d)

unfoldable pub install_steps : Kernel → Place → Place → Option Text → Stateful Disk (Unit {0})
install_steps k destination source expected = do
  t ← look
  check (is_dir t source && digest_matches k t source expected) transaction_error
  rename_verified k source destination

unfoldable pub replace_tree_steps :
    Kernel → Place → Place → Place → Option Text → Stateful Disk (Unit {0})
replace_tree_steps k destination source trash_place expected = do
  set_aside k destination trash_place
  install_steps k destination source expected

-- whether an operation is found to have been applied, so that nothing is done
unfoldable pub applied : Kernel → Operation → Tree → Bool
unfolding installed
applied k (make_dir destination) t = is_dir t destination
applied k (put_file destination source expected) t = installed k t destination source expected
applied k (put_tree destination source expected) t = installed k t destination source expected
applied k (remove_path destination trash_place missing_ok) t =
    not (exists t destination) && (exists t trash_place || missing_ok)
applied k (replace_tree destination source trash_place expected) t =
    installed k t destination source expected

unfoldable pub steps : Kernel → Operation → Stateful Disk (Unit {0})
steps k (make_dir destination) = do
  mkdir_or_raise destination
  t ← look
  check (is_dir t destination) transaction_error
steps k (put_file destination source expected) = put_file_steps k destination source expected
steps k (put_tree destination source expected) = put_tree_steps k destination source expected
steps k (remove_path destination trash_place missing_ok) = remove_steps k destination trash_place
steps k (replace_tree destination source trash_place expected) =
    replace_tree_steps k destination source trash_place expected

unfoldable pub apply : Kernel → Operation → Stateful Disk (Unit {0})
apply k o d = if applied k o d.tree then (ok tt, d) else steps k o d

unfoldable pub replay_one : Kernel → Json → Stateful Disk (Unit {0})
replay_one k v = do
  raw ← of (require (as_mapping v) format_error)
  o ← of (operation_of raw)
  apply k o

unfoldable pub replay_all : Kernel → List Json → Stateful Disk (Unit {0})
replay_all k [] d = (ok tt, d)
replay_all k (v ∷ vs) d = (replay_one k v >>= λ _. replay_all k vs) d

unfoldable pub nonempty : List Json → Bool
nonempty [] = false
nonempty (v ∷ vs) = true

-- `read_json` of the manifest is a parameter: the object, or what reading it raises
unfoldable pub replay_transaction : Kernel → ℤ → Result Members → Stateful Disk Bool
replay_transaction k expected_generation manifest = do
  members ← of manifest
  operations ← of (accepted expected_generation members)
  mkdir_or_raise data_dir
  replay_all k operations
  of (ok (nonempty operations))
