-- ===== src/Transactions/Places.antt =====
-- Paths of transactions.py that stand apart, and trees that agree below one.

use mathlib.Core.List.{append-nil}
use httk_workflow.Base.{◌∙◌, ◌≡◌, refl, ap, sym, true, Option, none, some, [], ◌∷◌, ◌++◌, arith}
use httk_workflow.Names.Text.{text_eq_sym, Text, text_eq_refl}
use httk_workflow.Transactions.{
  Place, Tree, Kernel, below, within, exists, is_dir, subtree, digest_matches,
}
use httk_workflow.Transactions.Rename.{parent}
use httk_workflow.Transactions.Manifest.{overlap}

pub below-append : (p r : Place) → below p (p ++ r) ≡ some r
unfolding below
below-append [] r = refl
below-append (x ∷ p) r = rw (text_eq_refl x) (below-append p r)

pub within_refl : (p : Place) → within p p ≡ true
unfolding within below
within_refl [] = refl
within_refl (x ∷ p) = rw (text_eq_refl x) (within_refl p)

-- a place above a place above
pub within-append : (p r q : Place) → within (p ++ r) q ≡ true → within p q ≡ true
unfolding within below
within-append [] r q h = refl
within-append (x ∷ p) r [] h = cc
within-append (x ∷ p) r (y ∷ q) h = ground (arith, within-append p r q)

pub within-parent : (p q : Place) → within p (parent q) ≡ true → within p q ≡ true
unfolding within below parent
within-parent [] q h = refl
within-parent (x ∷ p) [] h = cc
within-parent (x ∷ p) (y ∷ []) h = cc
within-parent (x ∷ p) (y ∷ z ∷ q) h = ground (arith, within-parent p (z ∷ q))

-- Two places above the same one are above one another.
pub within_both : (a b r : Place) → within a (b ++ r) ≡ true → overlap a b ≡ true
unfolding overlap within below
within_both [] b r h = refl
within_both (x ∷ a) [] r h = ground arith
within_both (x ∷ a) (y ∷ b) r h = ground (arith, within_both a b r, text_eq_sym x y)

pub subtree-root : (t : Tree) (p : Place) → subtree t p [] ≡ t p
unfolding subtree
subtree-root t p = rw append-nil refl

module _ (t t' : Tree) (p p' : Place) (e : subtree t' p' ≡ subtree t p) where
  same_root : t' p' ≡ t p
  same_root = sym (subtree-root t' p') ∙ ap (λ (s : Tree). s []) e ∙ subtree-root t p

  pub exists-same : exists t' p' ≡ exists t p
  unfolding exists
  exists-same = rw (same_root, exists) refl

  pub is_dir-same : is_dir t' p' ≡ is_dir t p
  unfolding is_dir
  is_dir-same = rw (same_root, is_dir) refl

  pub digest_matches-same :
      (k : Kernel) (x : Option Text) → digest_matches k t' p' x ≡ digest_matches k t p x
  unfolding digest_matches
  digest_matches-same k none = refl
  digest_matches-same k (some x) = rw (same_root, e) refl
