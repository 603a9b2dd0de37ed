-- ===== src/Transactions/Applied.antt =====
-- transactions.py: an operation that has been applied stays applied under operations that stand
-- apart from it.
use httk_workflow.Base.{◌≡◌, refl, true, not, Option, none, some, List, [], ◌∷◌, all, arith}
use httk_workflow.Names.Text.{Text}
use httk_workflow.Transactions.{Place, Tree, Kernel, Disk, within, exists, is_dir, digest_matches}
use httk_workflow.Transactions.Rename.{mkdir}
use httk_workflow.Transactions.Places.{exists-same, digest_matches-same}
use httk_workflow.Transactions.Operation.{
  Operation, make_dir, put_file, put_tree, remove_path, replace_tree,
}
use httk_workflow.Transactions.Replay.{mkdir_or_raise, put_back, installed, applied, apply}
use httk_workflow.Transactions.Untouched.{rename_verified-is_dir, mkdir-is_dir}
use httk_workflow.Transactions.Keeps.{
  spots, clear, leaves, Keeps, Harmless, apply-Keeps, apply-subtree,
}

mkdir_or_raise-is_dir : (p q : Place) → Keeps (λ t. is_dir t p ≡ true) (mkdir_or_raise q)
unfolding mkdir_or_raise put_back
mkdir_or_raise-is_dir p q = record { at = λ d. made d (mkdir q d.tree) refl }
  where
    made :
        (d : Disk) (o : Option Tree)
        → mkdir q d.tree ≡ o
        → is_dir d.tree p ≡ true
        → is_dir (put_back o d).1.tree p ≡ true
    made d none e h = h
    made d (some t) e h = mkdir-is_dir p q d.tree t e h

above-Harmless :
    (k : Kernel) (p : Place) (o : Operation)
    → all (λ s. not (within s p)) (spots o) ≡ true
    → Harmless k (λ t. is_dir t p ≡ true) o
unfolding Harmless spots
above-Harmless k p (make_dir q) h = mkdir_or_raise-is_dir p q
above-Harmless k p (put_file a b x) h = record {
  at = rename_verified-is_dir k b a p (ground arith) (ground arith);
}
above-Harmless k p (put_tree a b x) h = record {
  at = rename_verified-is_dir k b a p (ground arith) (ground arith);
}
above-Harmless k p (remove_path a b m) h = record {
  at = rename_verified-is_dir k a b p (ground arith) (ground arith);
}
above-Harmless k p (replace_tree a b t x) h = (
  record { at = rename_verified-is_dir k a t p (ground arith) (ground arith) },
  record { at = rename_verified-is_dir k b a p (ground arith) (ground arith) },
)

all-clear :
    (p : Place) (ps : List Place) (o : Operation)
    → all (λ p. clear p o) (p ∷ ps) ≡ true
    → (clear p o ≡ true) × (all (λ p. clear p o) ps ≡ true)
all-clear p ps o h = ground arith

module _ (k : Kernel) (later : Operation) (d : Disk) (p : Place) (h : clear p later ≡ true) where
  exists-apply : exists (apply k later d).1.tree p ≡ exists d.tree p
  exists-apply = exists-same d.tree (apply k later d).1.tree p p (apply-subtree k p later d h)

  digest_matches-apply :
      (x : Option Text)
      → digest_matches k (apply k later d).1.tree p x ≡ digest_matches k d.tree p x
  digest_matches-apply =
      digest_matches-same d.tree (apply k later d).1.tree p p (apply-subtree k p later d h) k

installed-apply :
    (k : Kernel) (a b : Place) (x : Option Text) (later : Operation) (d : Disk)
    → clear a later ≡ true
    → clear b later ≡ true
    → installed k d.tree a b x ≡ true
    → installed k (apply k later d).1.tree a b x ≡ true
unfolding installed
installed-apply k a b x later d ha hb e =
    rw
      (
        exists-apply k later d a ha,
        digest_matches-apply k later d a ha x,
        exists-apply k later d b hb,
      )
      e

-- Work that leaves an operation applied.
pub applied-apply :
    (k : Kernel) (earlier later : Operation) (d : Disk)
    → leaves earlier later ≡ true
    → applied k earlier d.tree ≡ true
    → applied k earlier (apply k later d).1.tree ≡ true
unfolding leaves spots applied
applied-apply k (make_dir p) later d h e =
    apply-Keeps k (λ t. is_dir t p ≡ true) later d (above-Harmless k p later h) e
applied-apply k (put_file a b x) later d h e =
    let (ha, hb) = all-clear a (b ∷ []) later h in
    installed-apply k a b x later d ha (all-clear b [] later hb).0 e
applied-apply k (put_tree a b x) later d h e =
    let (ha, hb) = all-clear a (b ∷ []) later h in
    installed-apply k a b x later d ha (all-clear b [] later hb).0 e
applied-apply k (remove_path a b m) later d h e =
    let (ha, hb) = all-clear a (b ∷ []) later h in
    rw (exists-apply k later d a ha, exists-apply k later d b (all-clear b [] later hb).0) e
applied-apply k (replace_tree a b t x) later d h e =
    let (ha, hbt) = all-clear a (b ∷ t ∷ []) later h in
    installed-apply k a b x later d ha (all-clear b (t ∷ []) later hbt).0 e
