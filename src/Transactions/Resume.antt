-- ===== src/Transactions/Resume.antt =====
-- transactions.py: a replay that is started again, after it was done or in the midst of it.
use httk_workflow.Base.{◌≡◌, refl, ap, sym, ◌∙◌, Bool, true, ◌&&◌, List, [], ◌∷◌, ◌++◌, all, arith}
use httk_workflow.Errors.{Result, ok, err}
use httk_workflow.Stateful.{Stateful, and_then}
use httk_workflow.Transactions.{Tree, Kernel, Disk}
use httk_workflow.Transactions.Operation.{Operation}
use httk_workflow.Transactions.Replay.{applied, apply}
use httk_workflow.Transactions.Keeps.{spots, leaves, apart_within}
use httk_workflow.Transactions.Applied.{applied-apply}
use httk_workflow.Transactions.Returned.{apply-applied}

unfoldable pub apply_all : Kernel → List Operation → Stateful Disk (Unit {0})
apply_all k [] d = (ok tt, d)
apply_all k (o ∷ os) d = and_then (apply k o d) (λ _. apply_all k os)

-- The places of each operation stand apart, and no later operation undoes an earlier one.
unfoldable pub separated : List Operation → Bool
separated [] = true
separated (o ∷ os) = apart_within (spots o) && (all (leaves o) os && separated os)

all_applied : Kernel → List Operation → Tree → Bool
all_applied k os t = all (λ o. applied k o t) os

applied-apply_all :
    (k : Kernel) (o : Operation) (os : List Operation) (d : Disk)
    → all (leaves o) os ≡ true
    → applied k o d.tree ≡ true
    → applied k o (apply_all k os d).1.tree ≡ true
unfolding apply_all
applied-apply_all k o [] d h e = e
applied-apply_all k o (x ∷ os) d h e =
    after (apply k x d) (applied-apply k o x d (ground arith) e)
      (λ v. applied-apply_all k o os v (ground arith))
  where
    after :
        (r : Result (Unit {0}) × Disk)
        → applied k o r.1.tree ≡ true
        → ((v : Disk) → applied k o v.tree ≡ true → applied k o (apply_all k os v).1.tree ≡ true)
        → applied k o (and_then r (λ _. apply_all k os)).1.tree ≡ true
    after (err y, v) e later = e
    after (ok u, v) e later = later v e

skip_all :
    (k : Kernel) (os : List Operation) (d : Disk)
    → all_applied k os d.tree ≡ true
    → apply_all k os d ≡ (ok tt, d)
unfolding apply_all all_applied apply
skip_all k [] d h = refl
skip_all k (o ∷ os) d h =
    let here : applied k o d.tree ≡ true = ground arith in rw here (skip_all k os d (ground arith))

all_applied-apply_all :
    (k : Kernel) (os : List Operation) (d d' : Disk)
    → separated os ≡ true
    → apply_all k os d ≡ (ok tt, d')
    → all_applied k os d'.tree ≡ true
unfolding apply_all all_applied separated
all_applied-apply_all k [] d d' s e = refl
all_applied-apply_all k (o ∷ os) d d' s e =
    after (apply k o d) refl e (λ v. all_applied-apply_all k os v d' (ground arith))
  where
    after :
        (r : Result (Unit {0}) × Disk)
        → apply k o d ≡ r
        → and_then r (λ _. apply_all k os) ≡ (ok tt, d')
        → ((v : Disk) → apply_all k os v ≡ (ok tt, d') → all_applied k os d'.tree ≡ true)
        → applied k o d'.tree && all (λ o. applied k o d'.tree) os ≡ true
    after (err x, v) m e later = cc
    after (ok u, v) m e later =
        let now = apply-applied k o d v (ground arith) m in
        let kept = applied-apply_all k o os v (ground arith) now in
        let still : applied k o d'.tree ≡ true =
          rw (ap (λ (r : Result (Unit {0}) × Disk). r.1) e) at kept in
        rw still (later v e)

apply_all-append :
    (k : Kernel) (as_ bs : List Operation) (d : Disk)
    → apply_all k (as_ ++ bs) d ≡ and_then (apply_all k as_ d) (λ _. apply_all k bs)
unfolding apply_all
apply_all-append k [] bs d = refl
apply_all-append k (o ∷ as_) bs d = after (apply k o d) (apply_all-append k as_ bs)
  where
    after :
        (r : Result (Unit {0}) × Disk)
        → ((v : Disk)
            → apply_all k (as_ ++ bs) v ≡ and_then (apply_all k as_ v) (λ _. apply_all k bs))
        → and_then r (λ _. apply_all k (as_ ++ bs))
          ≡ and_then (and_then r (λ _. apply_all k as_)) (λ _. apply_all k bs)
    after (ok u, v) later = later v
    after (err x, v) later = refl

all-append_left :
    {A : Type 0} (as_ bs : List A) (p : A → Bool) → all p (as_ ++ bs) ≡ true → all p as_ ≡ true
all-append_left [] bs p h = refl
all-append_left (a ∷ as_) bs p h = ground (arith, all-append_left as_ bs p)

separated-append : (as_ bs : List Operation) → separated (as_ ++ bs) ≡ true → separated as_ ≡ true
unfolding separated
separated-append [] bs h = refl
separated-append (o ∷ as_) bs h =
    ground (arith, separated-append as_ bs, all-append_left as_ bs (leaves o))

-- Operations that returned are done again without a change, and the rest as if there had been no
-- interruption.
pub apply_all-again :
    (k : Kernel) (as_ bs : List Operation) (d d' : Disk)
    → separated (as_ ++ bs) ≡ true
    → apply_all k (as_ ++ bs) d ≡ (ok tt, d')
    → apply_all k (as_ ++ bs) (apply_all k as_ d).1 ≡ (ok tt, d')
apply_all-again k as_ bs d d' s e =
    after (apply_all k as_ d) refl (sym (apply_all-append k as_ bs d) ∙ e)
  where
    after :
        (r : Result (Unit {0}) × Disk)
        → apply_all k as_ d ≡ r
        → and_then r (λ _. apply_all k bs) ≡ (ok tt, d')
        → apply_all k (as_ ++ bs) r.1 ≡ (ok tt, d')
    after (err x, v) m e = cc
    after (ok u, v) m e =
        let done = all_applied-apply_all k as_ d v (separated-append as_ bs s) m in
        rw (apply_all-append k as_ bs v, skip_all k as_ v done) e
