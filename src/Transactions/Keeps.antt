-- ===== src/Transactions/Keeps.antt =====
-- transactions.py: what an operation keeps, and the places that it leaves alone.
use httk_workflow.Base.{
  ◌≡◌, refl, ◌∙◌, Bool, true, false, not, ◌&&◌, Bool-cases, inl, inr, Option, none, some, List, [],
  ◌∷◌, all, arith, if◌then◌else◌,
}
use httk_workflow.Errors.{Raised, Result, ok, err}
use httk_workflow.Stateful.{Stateful, and_then, ◌>>=◌, check}
use httk_workflow.Transactions.{Place, Tree, Kernel, Disk, within, exists, subtree}
use httk_workflow.Transactions.Rename.{mkdir, rename_verified}
use httk_workflow.Transactions.Manifest.{overlap}
use httk_workflow.Transactions.Operation.{
  Operation, make_dir, put_file, put_tree, remove_path, replace_tree,
}
use httk_workflow.Transactions.Replay.{
  mkdir_or_raise, put_back, look, install_steps, put_file_steps, put_tree_steps, remove_steps,
  set_aside, replace_tree_steps, applied, steps, apply,
}
use httk_workflow.Transactions.Untouched.{Apart, mkdir-subtree, rename_verified-subtree}

-- the places that an operation moves things from and to
unfoldable pub spots : Operation → List Place
spots (make_dir p) = []
spots (put_file destination source x) = destination ∷ source ∷ []
spots (put_tree destination source x) = destination ∷ source ∷ []
spots (remove_path destination trash m) = destination ∷ trash ∷ []
spots (replace_tree destination source trash x) = destination ∷ source ∷ trash ∷ []

-- an operation changes nothing at this place nor below it
unfoldable pub clear : Place → Operation → Bool
unfolding spots
clear p (make_dir q) = not (within p q)
clear p o = all (λ s. not (overlap s p)) (spots o)

-- an operation leaves an earlier one applied
unfoldable pub leaves : Operation → Operation → Bool
unfolding clear spots
leaves (make_dir p) later = all (λ s. not (within s p)) (spots later)
leaves earlier later = all (λ p. clear p later) (spots earlier)

-- the places of an operation stand apart
unfoldable pub apart_within : List Place → Bool
apart_within [] = true
apart_within (p ∷ ps) = all (λ q. not (overlap p q) && not (overlap q p)) ps && apart_within ps

-- Work that keeps a predicate of the tree, whether it returns or raises.
pub record Keeps (P : Tree → Type 0) {A : Type 0} (m : Stateful Disk A) : Type 0 where
  pub at : (d : Disk) → P d.tree → P (m d).1.tree

module _ {P : Tree → Type 0} where
  Keeps->>= :
      {A B : Type 0} {m : Stateful Disk A} {f : A → Stateful Disk B}
      → Keeps P m
      → ((a : A) → Keeps P (f a))
      → Keeps P (m >>= f)
  unfolding ◌>>=◌
  Keeps->>= {A} {B} {m} {f} hm hf = record { at = λ d h. after (m d) (hm.at d h) }
    where
      after : (r : Result A × Disk) → P r.1.tree → P (and_then r f).1.tree
      after (ok a, v) h = (hf a).at v h
      after (err x, v) h = h

  check-Keeps : (b : Bool) (x : Raised) → Keeps P (check b x)
  unfolding check
  check-Keeps true x = record { at = λ d h. h }
  check-Keeps false x = record { at = λ d h. h }

  -- a block that looks at the tree, and one that checks something, keeps what its rest keeps
  looking-Keeps :
      {A : Type 0} {f : Tree → Stateful Disk A}
      → ((t : Tree) → Keeps P (f t))
      → Keeps P (look >>= f)
  unfolding look
  looking-Keeps h = Keeps->>= (record { at = λ d p. p }) h

  checking-Keeps :
      {A : Type 0} (b : Bool) (x : Raised) (f : Unit {0} → Stateful Disk A)
      → Keeps P (f tt)
      → Keeps P (check b x >>= f)
  checking-Keeps b x f h = Keeps->>= (check-Keeps b x) (λ _. h)

-- The changes that an operation makes keep the predicate.
unfoldable pub Harmless : Kernel → (Tree → Type 0) → Operation → Type 0
Harmless k P (make_dir q) = Keeps P (mkdir_or_raise q)
Harmless k P (put_file a b x) = Keeps P (rename_verified k b a)
Harmless k P (put_tree a b x) = Keeps P (rename_verified k b a)
Harmless k P (remove_path a b m) = Keeps P (rename_verified k a b)
Harmless k P (replace_tree a b t x) =
    Keeps P (rename_verified k a t) × Keeps P (rename_verified k b a)

module _ (k : Kernel) {P : Tree → Type 0} where
  set_aside-Keeps : (a b : Place) → Keeps P (rename_verified k a b) → Keeps P (set_aside k a b)
  unfolding set_aside
  set_aside-Keeps a b moves = record {
    at = λ d h. split d h (exists d.tree a && not (exists d.tree b));
  }
    where
      split :
          (d : Disk)
          → P d.tree
          → (c : Bool) → P (if c then rename_verified k a b d else (ok tt, d)).1.tree
      split d h true = moves.at d h
      split d h false = h

  steps-Keeps : (o : Operation) → Harmless k P o → Keeps P (steps k o)
  unfolding steps Harmless put_file_steps put_tree_steps remove_steps replace_tree_steps
      install_steps
  steps-Keeps (make_dir q) h = Keeps->>= h (λ _. looking-Keeps (λ t. check-Keeps _ _))
  steps-Keeps (put_file a b x) h =
      looking-Keeps
        (λ t. checking-Keeps _ _ _ (Keeps->>= h (λ _. looking-Keeps (λ t'. check-Keeps _ _))))
  steps-Keeps (put_tree a b x) h =
      looking-Keeps (λ t. checking-Keeps _ _ _ (checking-Keeps _ _ _ h))
  steps-Keeps (remove_path a b m) h = looking-Keeps (λ t. checking-Keeps _ _ _ h)
  steps-Keeps (replace_tree a b t x) h =
      Keeps->>= (set_aside-Keeps a t h.0) (λ _. looking-Keeps (λ t'. checking-Keeps _ _ _ h.1))

pub apply-Keeps :
    (k : Kernel) (P : Tree → Type 0) (o : Operation) (d : Disk)
    → Harmless k P o
    → P d.tree
    → P (apply k o d).1.tree
unfolding apply
apply-Keeps k P o d h p = elim (Bool-cases (applied k o d.tree)) [
  | inl e ↦ rw e p
  | inr e ↦ rw e ((steps-Keeps k o h).at d p)
]

clear-Apart :
    (p a : Place) (as_ : List Place)
    → all (λ s. not (overlap s p)) (a ∷ as_) ≡ true
    → Apart a p × (all (λ s. not (overlap s p)) as_ ≡ true)
clear-Apart p a as_ h = ground arith

-- What stands at a clear place and below it.
module _ (k : Kernel) (p : Place) (s : Tree) where
  abbrev Stands : Tree → Type 0
  Stands t = subtree t p ≡ s

  mkdir-Stands : (q : Place) → within p q ≡ false → Keeps Stands (mkdir_or_raise q)
  unfolding mkdir_or_raise put_back
  mkdir-Stands q h = record { at = λ d e. made d (mkdir q d.tree) refl e }
    where
      made :
          (d : Disk) (o : Option Tree)
          → mkdir q d.tree ≡ o
          → Stands d.tree
          → Stands (put_back o d).1.tree
      made d none m e = e
      made d (some t) m e = mkdir-subtree p q d.tree t h m ∙ e

  rename-Stands : (a b : Place) → Apart a p → Apart b p → Keeps Stands (rename_verified k a b)
  rename-Stands a b ha hb = record { at = rename_verified-subtree k a b p s ha hb }

  clear-Harmless : (o : Operation) → clear p o ≡ true → Harmless k Stands o
  unfolding Harmless clear spots
  clear-Harmless (make_dir q) h = mkdir-Stands q (ground arith)
  clear-Harmless (put_file a b x) h =
      let (ha, hb) = clear-Apart p a (b ∷ []) h in rename-Stands b a (clear-Apart p b [] hb).0 ha
  clear-Harmless (put_tree a b x) h =
      let (ha, hb) = clear-Apart p a (b ∷ []) h in rename-Stands b a (clear-Apart p b [] hb).0 ha
  clear-Harmless (remove_path a b m) h =
      let (ha, hb) = clear-Apart p a (b ∷ []) h in rename-Stands a b ha (clear-Apart p b [] hb).0
  clear-Harmless (replace_tree a b t x) h =
      let (ha, hbt) = clear-Apart p a (b ∷ t ∷ []) h in
      let (hb, ht) = clear-Apart p b (t ∷ []) hbt in
      (rename-Stands a t ha (clear-Apart p t [] ht).0, rename-Stands b a hb ha)

pub apply-subtree :
    (k : Kernel) (p : Place) (o : Operation) (d : Disk)
    → clear p o ≡ true
    → subtree (apply k o d).1.tree p ≡ subtree d.tree p
apply-subtree k p o d h =
    apply-Keeps k (λ t. subtree t p ≡ subtree d.tree p) o d
      (clear-Harmless k p (subtree d.tree p) o h) refl
