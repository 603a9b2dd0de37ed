-- ===== src/Transactions.antt =====
-- transactions.py: the file system that a replay changes. The data directory and the directory of
-- the transaction are two trees that do not overlap. Digests, and whether a directory is empty, are
-- given by a `Kernel`, as is what each attempt at a rename meets.
pub mod Rename
pub mod Places
pub mod Untouched
pub mod Keeps
pub mod Applied
pub mod Returned
pub mod Resume
pub mod Restart
pub mod Midway
pub mod Manifest
pub mod Operation
pub mod Replay
use httk_workflow.Base.{
  ℕ, Bool, true, false, not, ◌&&◌, ◌||◌, Option, none, some, List, [], ◌∷◌, ◌++◌, is_some,
  if◌then◌else◌,
}
use httk_workflow.Json.Numbers.{codes}
use httk_workflow.Names.Text.{Text, text_eq}

-- the parts of a path, the first of which names the tree
abbrev pub Place : Type 0
Place = List Text

pub data Node : Type 0 where
  nothing directory : Node
  file : Text → Node

abbrev pub Tree : Type 0
Tree = Place → Node

-- What one attempt meets: everything done, the rename refused, or the creation of parents too.
pub data RenameAttempt : Type 0 where
  performed rename_refused refused : RenameAttempt

pub record Kernel : Type 0 where
  pub sha256_file : Text → Text  -- of the content of a file
  pub tree_digest : Tree → Text  -- of what stands below a directory
  pub is_empty : Tree → Place → Bool
  pub tries : ℕ → List RenameAttempt  -- for each call of `_rename_verified`

pub record Disk : Type 0 where
  pub tree : Tree
  pub tick : ℕ

-- `p` without the front `q`, if `p` is at `q` or below it
unfoldable pub below : Place → Place → Option Place
unfolding text_eq
below [] p = some p
below (x ∷ q) [] = none
below (x ∷ q) (y ∷ p) = if text_eq x y then below q p else none

-- `q == p or q in p.parents`
unfoldable pub within : Place → Place → Bool
unfolding below
within q p = is_some (below q p)

unfoldable pub exists : Tree → Place → Bool
exists t p = elim (t p) [ nothing ↦ false | _ ↦ true ]

unfoldable pub is_file : Tree → Place → Bool
is_file t p = elim (t p) [ file _ ↦ true | _ ↦ false ]

unfoldable pub is_dir : Tree → Place → Bool
is_dir t p = elim (t p) [ directory ↦ true | _ ↦ false ]

-- what stands at a place and below it
unfoldable pub subtree : Tree → Place → Tree
subtree t p r = t (p ++ r)

matches_node : Kernel → Node → Tree → Text → Bool
unfolding text_eq
matches_node k nothing t expected = false
matches_node k (file content) t expected = text_eq (k.sha256_file content) expected
matches_node k directory t expected = text_eq (k.tree_digest t) expected

-- `_digest_matches`, for an expected digest that is a text
unfoldable pub digest_matches : Kernel → Tree → Place → Option Text → Bool
unfolding subtree matches_node
digest_matches k t p none = false
digest_matches k t p (some expected) = matches_node k (t p) (subtree t p) expected
