-- ===== src/Transactions/Rename.antt =====
-- transactions.py: mkdir with its parents, os.rename and os.replace, and _rename_verified.
use httk_workflow.Base.{
  suc, Bool, not, ◌&&◌, ◌||◌, Option, none, some, List, [], ◌∷◌, ◌++◌, if◌then◌else◌,
}
use httk_workflow.Errors.{Result, ok, err, unavailable_error}
use httk_workflow.Stateful.{Stateful}
use httk_workflow.Transactions.{
  Place, nothing, directory, Tree, RenameAttempt, performed, rename_refused, refused, Kernel, Disk,
  below, within, exists, is_file, is_dir,
}

-- `path.parent`
unfoldable pub parent : Place → Place
parent [] = []
parent (x ∷ []) = []
parent (x ∷ y ∷ p) = x ∷ parent (y ∷ p)

-- no file stands at `front`, nor on the way from it down to `front ++ p`
unfoldable pub way_is_free : Tree → Place → Place → Bool
unfolding is_file
way_is_free t front [] = not (is_file t front)
way_is_free t front (x ∷ p) = not (is_file t front) && way_is_free t (front ++ x ∷ []) p

-- every directory on the way to `p`, and `p`, is there
unfoldable pub with_directories : Place → Tree → Tree
unfolding within
with_directories p t q = if within q p then directory else t q

-- `path.mkdir(parents=True, exist_ok=True)`; none is an OSError
unfoldable pub mkdir : Place → Tree → Option Tree
unfolding is_dir way_is_free with_directories
mkdir p t =
    if is_dir t p then some t else if way_is_free t [] p then some (with_directories p t) else none

-- What a rename may replace: nothing, a file by a file, an empty directory by a directory.
unfoldable pub permitted : Kernel → Place → Place → Tree → Bool
unfolding exists is_file is_dir
permitted k source destination t =
    exists t source
    && (not (exists t destination)
        || (is_file t source && is_file t destination
            || is_dir t source && (is_dir t destination && k.is_empty t destination)))

-- the tree after a rename
unfoldable pub moved_tree : Place → Place → Tree → Tree
unfolding below
moved_tree source destination t q = elim (below destination q) [
  | some r ↦ t (source ++ r)
  | none ↦ elim (below source q) [ some r ↦ nothing | none ↦ t q ]
]

unfoldable pub rename : Kernel → Place → Place → Tree → Tree
unfolding permitted moved_tree
rename k source destination t =
    if permitted k source destination t then moved_tree source destination t else t

-- what is done once the parents are there; without them the rename is not reached
abbrev pub after_mkdir : Tree → (Tree → Tree) → Option Tree → Tree
after_mkdir t f none = t
after_mkdir t f (some t') = f t'

-- `try: … except OSError`, for one attempt: what was done stays
unfoldable pub try_rename : Kernel → RenameAttempt → Place → Place → Tree → Tree
try_rename k refused source destination t = t
try_rename k rename_refused source destination t =
    after_mkdir t (λ t'. t') (mkdir (parent destination) t)
try_rename k performed source destination t =
    after_mkdir t (rename k source destination) (mkdir (parent destination) t)

-- `destination.exists() and not source.exists()`
unfoldable pub resolved : Place → Place → Tree → Bool
unfolding exists
resolved source destination t = exists t destination && not (exists t source)

unfoldable pub try_all :
    Kernel → Place → Place → List RenameAttempt → Tree → Result (Unit {0}) × Tree
try_all k source destination [] t = (err unavailable_error, t)
try_all k source destination (a ∷ as_) t =
    let t' = try_rename k a source destination t in
    let rest = try_all k source destination as_ t' in
    if resolved source destination t' then (ok tt, t') else rest

-- `_rename_verified`. `os.replace` and `os.rename` do the same on POSIX.
unfoldable pub rename_verified : Kernel → Place → Place → Stateful Disk (Unit {0})
unfolding try_all
rename_verified k source destination d =
    let (r, t) = try_all k source destination (k.tries d.tick) d.tree in
    (r, record d { tree = t; tick = suc d.tick })
