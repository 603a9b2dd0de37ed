-- ===== src/Transactions/Untouched.antt =====
-- transactions.py: what a rename leaves as it was, and what it brings.
use mathlib.Core.Path.{fun_ext}
use mathlib.Core.List.{append-nil}
use httk_workflow.Base.{
  ◌≡◌, refl, ap, ◌∙◌, true, false, Bool-cases, inl, inr, Option, none, some, List, [], ◌∷◌, ◌++◌,
  arith, if◌then◌else◌,
}
use httk_workflow.Errors.{Result, ok}
use httk_workflow.Transactions.{
  Place, nothing, Tree, RenameAttempt, performed, rename_refused, refused, Kernel, Disk, below,
  within, exists, is_dir, subtree,
}
use httk_workflow.Transactions.Rename.{
  parent, with_directories, mkdir, permitted, moved_tree, rename, after_mkdir, try_rename, resolved,
  try_all, rename_verified,
}
use httk_workflow.Transactions.Manifest.{overlap}
use httk_workflow.Transactions.Places.{
  within-append, within-parent, within_both, exists-same, below-append,
}

-- A place stands apart from another: neither is above the other.
abbrev pub Apart : Place → Place → Type 0
Apart p q = overlap p q ≡ false

not_within : (p r q : Place) → within p q ≡ false → within (p ++ r) q ≡ false
not_within p r q h = ground (arith, within-append p r q)

directories-subtree :
    (p q : Place) (t : Tree) → within p q ≡ false → subtree (with_directories q t) p ≡ subtree t p
unfolding subtree with_directories
directories-subtree p q t h = fun_ext (λ r. rw (not_within p r q h) refl)

pub mkdir-subtree :
    (p q : Place) (t t' : Tree)
    → within p q ≡ false
    → mkdir q t ≡ some t'
    → subtree t' p ≡ subtree t p
unfolding mkdir
mkdir-subtree p q t t' h e = ground (arith, directories-subtree p q t h)

not_below : (a p r : Place) → Apart a p → below a (p ++ r) ≡ none
unfolding within
not_below a p r h = ground (arith, within_both a p r)

moved-subtree :
    (source destination p : Place) (t : Tree)
    → Apart source p
    → Apart destination p
    → subtree (moved_tree source destination t) p ≡ subtree t p
unfolding subtree moved_tree
moved-subtree source destination p t s d =
    fun_ext (λ r. rw (not_below destination p r d, moved_tree) (rw (not_below source p r s) refl))

parent-Apart : (destination p : Place) → Apart destination p → within p (parent destination) ≡ false
unfolding overlap
parent-Apart destination p h = ground (arith, within-parent p destination)

-- What a rename keeps, if its creation of directories and its move keep it.
module _ (k : Kernel) (source destination : Place) (P : Tree → Type 0)
    (making : (t t' : Tree) → mkdir (parent destination) t ≡ some t' → P t → P t')
    (moving : (t : Tree) → P t → P (moved_tree source destination t)) where
  rename-keeps : (t : Tree) → P t → P (rename k source destination t)
  unfolding rename
  rename-keeps t h = elim (Bool-cases (permitted k source destination t)) [
    | inl e ↦ rw e (moving t h)
    | inr e ↦ rw e h
  ]

  after_mkdir-keeps :
      (t : Tree) (f : Tree → Tree)
      → ((t' : Tree) → P t' → P (f t'))
      → (made : Option Tree) → mkdir (parent destination) t ≡ made
      → P t
      → P (after_mkdir t f made)
  after_mkdir-keeps t f keep none e h = h
  after_mkdir-keeps t f keep (some t') e h = keep t' (making t t' e h)

  try_rename-keeps : (a : RenameAttempt) (t : Tree) → P t → P (try_rename k a source destination t)
  unfolding try_rename
  try_rename-keeps refused t h = h
  try_rename-keeps rename_refused t h = after_mkdir-keeps t (λ t'. t') (λ t' h'. h') _ refl h
  try_rename-keeps performed t h =
      after_mkdir-keeps t (rename k source destination) rename-keeps _ refl h

  try_all-keeps :
      (tries : List RenameAttempt) (t : Tree) → P t → P (try_all k source destination tries t).1
  unfolding try_all
  try_all-keeps [] t h = h
  try_all-keeps (a ∷ later) t h =
      elim (Bool-cases (resolved source destination (try_rename k a source destination t))) [
        | inl e ↦ rw e (try_rename-keeps a t h)
        | inr e ↦
            rw e
              (try_all-keeps later (try_rename k a source destination t) (try_rename-keeps a t h))
      ]

  pub rename_verified-keeps :
      (d : Disk) → P d.tree → P (rename_verified k source destination d).1.tree
  unfolding rename_verified
  rename_verified-keeps d h = try_all-keeps (k.tries d.tick) d.tree h

pub rename_verified-subtree :
    (k : Kernel) (source destination p : Place) (s : Tree)
    → Apart source p
    → Apart destination p
    → (d : Disk) → subtree d.tree p ≡ s
    → subtree (rename_verified k source destination d).1.tree p ≡ s
rename_verified-subtree k source destination p s hs hd =
    rename_verified-keeps k source destination (λ t. subtree t p ≡ s)
      (λ t t' e h. mkdir-subtree p (parent destination) t t' (parent-Apart destination p hd) e ∙ h)
      (λ t h. moved-subtree source destination p t hs hd ∙ h)

pub mkdir-is_dir :
    (p q : Place) (t t' : Tree) → mkdir q t ≡ some t' → is_dir t p ≡ true → is_dir t' p ≡ true
unfolding mkdir is_dir with_directories
mkdir-is_dir p q t t' e h = ground arith

moved-is_dir :
    (source destination p : Place) (t : Tree)
    → within source p ≡ false
    → within destination p ≡ false
    → is_dir t p ≡ true
    → is_dir (moved_tree source destination t) p ≡ true
unfolding is_dir moved_tree within
moved-is_dir source destination p t s d h = ground arith

pub rename_verified-is_dir :
    (k : Kernel) (source destination p : Place)
    → within source p ≡ false
    → within destination p ≡ false
    → (d : Disk) → is_dir d.tree p ≡ true
    → is_dir (rename_verified k source destination d).1.tree p ≡ true
rename_verified-is_dir k source destination p hs hd =
    rename_verified-keeps k source destination (λ t. is_dir t p ≡ true)
      (mkdir-is_dir p (parent destination)) (λ t. moved-is_dir source destination p t hs hd)

below-none : (a b : Place) → Apart a b → below a b ≡ none
unfolding overlap within
below-none a b h = ground arith

below_self : (p : Place) → below p p ≡ some []
below_self p = rw append-nil at (below-append p [])

not_resolved :
    (source destination : Place) (t : Tree)
    → exists t source ≡ true
    → resolved source destination t ≡ false
unfolding resolved
not_resolved source destination t h = ground arith

is_resolved :
    (source destination : Place) (t : Tree)
    → exists t destination ≡ true
    → exists t source ≡ false
    → resolved source destination t ≡ true
unfolding resolved
is_resolved source destination t h g = ground arith

nothing_exists : (t : Tree) (p : Place) → t p ≡ nothing → exists t p ≡ false
unfolding exists
nothing_exists t p h = rw (h, exists) refl

-- What one attempt does to the source: it stays, or it has arrived at the destination.
data Outcome (source destination : Place) (before after : Tree) : Type 0 where
  stayed : subtree after source ≡ subtree before source → Outcome source destination before after
  arrived :
      subtree after destination ≡ subtree before source
      → after source ≡ nothing
      → Outcome source destination before after

module _ (k : Kernel) (source destination : Place) (h : Apart destination source) where
  moved-Outcome : (t : Tree) → Outcome source destination t (moved_tree source destination t)
  unfolding moved_tree subtree
  moved-Outcome t =
      arrived (fun_ext (λ r. rw (below-append destination r, moved_tree) refl))
        (rw (below-none destination source h, moved_tree) (rw (below_self source) refl))

  rename-Outcome : (t : Tree) → Outcome source destination t (rename k source destination t)
  unfolding rename
  rename-Outcome t = elim (Bool-cases (permitted k source destination t)) [
    | inl e ↦ rw e (moved-Outcome t)
    | inr e ↦ rw e (stayed refl)
  ]

  Outcome-after :
      {before between after : Tree}
      → subtree between source ≡ subtree before source
      → Outcome source destination between after
      → Outcome source destination before after
  Outcome-after e (stayed f) = stayed (f ∙ e)
  Outcome-after e (arrived f g) = arrived (f ∙ e) g

  after_mkdir-Outcome :
      (t : Tree) (f : Tree → Tree)
      → ((t' : Tree) → Outcome source destination t' (f t'))
      → (made : Option Tree) → mkdir (parent destination) t ≡ made
      → Outcome source destination t (after_mkdir t f made)
  after_mkdir-Outcome t f each none e = stayed refl
  after_mkdir-Outcome t f each (some t') e =
      Outcome-after
        (mkdir-subtree source (parent destination) t t' (parent-Apart destination source h) e)
        (each t')

  try_rename-Outcome :
      (a : RenameAttempt) (t : Tree)
      → Outcome source destination t (try_rename k a source destination t)
  unfolding try_rename
  try_rename-Outcome refused t = stayed refl
  try_rename-Outcome rename_refused t = after_mkdir-Outcome t (λ t'. t') (λ t'. stayed refl) _ refl
  try_rename-Outcome performed t =
      after_mkdir-Outcome t (rename k source destination) rename-Outcome _ refl

  -- the destination holds what the source held, and the source is gone
  pub record Arrived (before after : Tree) : Type 0 where
    pub same : subtree after destination ≡ subtree before source
    pub here : exists after destination ≡ true
    pub gone : exists after source ≡ false

  try_all-Arrived :
      (tries : List RenameAttempt) (t t' : Tree)
      → exists t source ≡ true
      → try_all k source destination tries t ≡ (ok tt, t')
      → Arrived t t'
  unfolding try_all
  try_all-Arrived [] t t' x e = cc
  try_all-Arrived (a ∷ later) t t' x e =
      decided (try_rename k a source destination t) (try_rename-Outcome a t) e
        (try_all-Arrived later (try_rename k a source destination t) t')
    where
      decided :
          (t1 : Tree)
          → Outcome source destination t t1
          → (if resolved source destination t1
              then (ok tt, t1)
              else try_all k source destination later t1)
            ≡ (ok tt, t')
          → (exists t1 source ≡ true
              → try_all k source destination later t1 ≡ (ok tt, t')
              → Arrived t1 t')
          → Arrived t t'
      decided t1 (stayed f) e onward =
          let still : exists t1 source ≡ true = exists-same t t1 source source f ∙ x in
          let rest = onward still (rw (not_resolved source destination t1 still) at e) in
          record { same = rest.same ∙ f; here = rest.here; gone = rest.gone }
      decided t1 (arrived f g) e onward =
          let here : exists t1 destination ≡ true = exists-same t t1 source destination f ∙ x in
          let gone = nothing_exists t1 source g in
          let last : (ok tt, t1) ≡ (ok tt, t') =
            rw (is_resolved source destination t1 here gone) at e in
          rw (← ap (λ (r : Result (Unit {0}) × Tree). r.1) last)
            (record { same = f; here = here; gone = gone })

  pub rename_verified-Arrived :
      (d d' : Disk)
      → exists d.tree source ≡ true
      → rename_verified k source destination d ≡ (ok tt, d')
      → Arrived d.tree d'.tree
  unfolding rename_verified
  rename_verified-Arrived d d' x e = try_all-Arrived (k.tries d.tick) d.tree d'.tree x (cc)
