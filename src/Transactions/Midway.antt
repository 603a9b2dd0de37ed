-- ===== src/Transactions/Midway.antt =====
-- transactions.py: a replace-tree between its two renames, and a removal whose place is taken again.
use httk_workflow.Base.{◌≡◌, refl, Bool, true, false, Option, some, List, [], ◌∷◌, arith}
use httk_workflow.Errors.{ok, err, unavailable_error}
use httk_workflow.Stateful.{◌>>=◌, check}
use httk_workflow.Transactions.{
  Text, Place, Tree, Kernel, Disk, RenameAttempt, performed, refused, rename_refused, exists,
  is_dir, is_file,
}
use httk_workflow.Transactions.Rename.{
  parent, mkdir, permitted, rename, try_rename, resolved, try_all, rename_verified,
}
use httk_workflow.Transactions.Operation.{remove_path, replace_tree}
use httk_workflow.Transactions.Replay.{
  look, installed, set_aside, remove_steps, replace_tree_steps, applied, steps, apply,
}
use httk_workflow.Transactions.Untouched.{Apart, rename_verified-Arrived}

gone-not_installed :
    (k : Kernel) (t : Tree) (a b : Place) (x : Option Text)
    → exists t a ≡ false
    → installed k t a b x ≡ false
unfolding installed
gone-not_installed k t a b x h = rw h refl

set_aside-idle :
    (k : Kernel) (a t : Place) (d : Disk) → exists d.tree a ≡ false → set_aside k a t d ≡ (ok tt, d)
unfolding set_aside
set_aside-idle k a t d h = rw h refl

aside :
    (k : Kernel) (a t : Place) (d d1 : Disk)
    → exists d.tree a ≡ true
    → exists d.tree t ≡ false
    → set_aside k a t d ≡ (ok tt, d1)
    → rename_verified k a t d ≡ (ok tt, d1)
unfolding set_aside
aside k a t d d1 here free e = rw (here, free) at e

-- A replacement that stopped after it had set the old tree aside: applying it again does what
-- applying it at first would have done, where the old place was taken, the place in the trash free,
-- and the two stand apart.
pub apply-set_aside :
    (k : Kernel) (a b t : Place) (x : Option Text) (d d1 : Disk)
    → Apart t a
    → exists d.tree a ≡ true
    → exists d.tree t ≡ false
    → applied k (replace_tree a b t x) d.tree ≡ false
    → set_aside k a t d ≡ (ok tt, d1)
    → apply k (replace_tree a b t x) d1 ≡ apply k (replace_tree a b t x) d
unfolding apply applied steps replace_tree_steps ◌>>=◌
apply-set_aside k a b t x d d1 h here free fresh moved =
    let arrived = rename_verified-Arrived k a t h d d1 here (aside k a t d d1 here free moved) in
    rw
      (
        gone-not_installed k d1.tree a b x arrived.gone,
        set_aside-idle k a t d1 arrived.gone,
        fresh,
        moved,
      )
      refl

module _ (k : Kernel) (source destination : Place) (t : Tree)
    (home : is_dir t (parent destination) ≡ true) (from : is_dir t source ≡ true)
    (full : is_dir t destination ≡ true) (holds : k.is_empty t destination ≡ false) where
  mkdir_home : mkdir (parent destination) t ≡ some t
  unfolding mkdir
  mkdir_home = rw home refl

  not_permitted : permitted k source destination t ≡ false
  unfolding permitted exists is_file is_dir
  not_permitted = ground arith

  try_rename-still : (a : RenameAttempt) → try_rename k a source destination t ≡ t
  unfolding try_rename rename
  try_rename-still refused = refl
  try_rename-still rename_refused = rw mkdir_home refl
  try_rename-still performed = rw mkdir_home (rw not_permitted refl)

  still_there : resolved source destination t ≡ false
  unfolding resolved exists is_dir
  still_there = ground arith

  try_all-still :
      (tries : List RenameAttempt)
      → try_all k source destination tries t ≡ (err unavailable_error, t)
  unfolding try_all
  try_all-still [] = refl
  try_all-still (a ∷ later) = rw (try_rename-still a, still_there) (try_all-still later)

dir_exists : (t : Tree) (p : Place) → is_dir t p ≡ true → exists t p ≡ true
unfolding is_dir exists
dir_exists t p h = ground arith

-- A removal of a directory is refused for good, whatever the attempts meet, where the place in the
-- trash already holds a directory that is not empty: this is what a replay finds after a removal and
-- a make-dir at the same path.
pub apply-remove_path :
    (k : Kernel) (a b : Place) (missing_ok : Bool) (d : Disk)
    → is_dir d.tree (parent b) ≡ true
    → is_dir d.tree a ≡ true
    → is_dir d.tree b ≡ true
    → k.is_empty d.tree b ≡ false
    → (apply k (remove_path a b missing_ok) d).0 ≡ err unavailable_error
unfolding apply applied steps remove_steps look check rename_verified ◌>>=◌
apply-remove_path k a b m d home from full holds =
    let still = try_all-still k a b d.tree home from full holds (k.tries d.tick) in
    rw (dir_exists d.tree a from, still) refl
