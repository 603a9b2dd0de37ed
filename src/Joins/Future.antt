-- ===== src/Joins/Future.antt =====
-- The futures of a join's children. A child that has stopped stays as it is, any other may become
-- anything. What the counts and quantifiers of the conditions do along such a future.
use httk_workflow.Base.{
  ◌+◌, ◌≤◌, ◌≡◌, ◌≢◌, ◌&&◌, refl, inl, inr, Bool-cases, Bool, true, false, not, List, [], ◌∷◌, all,
  any, count_if, arith, if◌then◌else◌, map,
}
use httk_workflow.Kinds.{StateKind, succeeded, is_terminal, is_succeeded, is_lost}
use httk_workflow.Joins.{is_pending}

pub data Future : List StateKind → List StateKind → Type 0 where
  over : Future [] []
  stays : (k : StateKind) {ks js : List StateKind} → Future ks js → Future (k ∷ ks) (k ∷ js)
  moves :
      (k j : StateKind) {ks js : List StateKind}
      → is_terminal k ≡ false
      → Future ks js
      → Future (k ∷ ks) (j ∷ js)

-- the future in which every pending child succeeds
abbrev pub best : List StateKind → List StateKind
best = map (λ k. if is_terminal k then k else succeeded)

pub Future-best : (ks : List StateKind) → Future ks (best ks)
Future-best [] = over
Future-best (k ∷ ks) = elim (Bool-cases (is_terminal k)) [
  | inl t ↦ rw t (stays k (Future-best ks))
  | inr f ↦ rw f (moves k succeeded f (Future-best ks))
]

pub all_succeeded-best :
    (ks : List StateKind) → any is_lost ks ≡ false → all is_succeeded (best ks) ≡ true
all_succeeded-best [] h = refl
all_succeeded-best (k ∷ ks) h = ground (arith, all_succeeded-best ks)

pub all_terminal-best : (ks : List StateKind) → all is_terminal (best ks) ≡ true
all_terminal-best [] = refl
all_terminal-best (k ∷ ks) = ground (arith, all_terminal-best ks)

pub count-best :
    (ks : List StateKind)
    → count_if is_succeeded (best ks) ≡ count_if is_succeeded ks + count_if is_pending ks
count-best [] = omega arith
count-best (k ∷ ks) = ground (arith, count-best ks)

pub any_succeeded-best :
    (ks : List StateKind)
    → (all is_terminal ks && not (any is_succeeded ks)) ≡ false
    → any is_succeeded (best ks) ≡ true
any_succeeded-best [] h = cc
any_succeeded-best (k ∷ ks) h = ground (arith, any_succeeded-best ks)

pub any_terminal-best : (ks : List StateKind) → ks ≢ [] → any is_terminal (best ks) ≡ true
any_terminal-best [] h = absurd (h refl)
any_terminal-best (k ∷ ks) h = ground arith

-- A child that is lost keeps the join from having every child succeed.
pub lost-Future :
    {ks js : List StateKind} → Future ks js → any is_lost ks ≡ true → all is_succeeded js ≡ false
lost-Future over h = cc
lost-Future (stays k f) h = ground (arith, lost-Future f)
lost-Future (moves k j t f) h = ground (arith, lost-Future f)

-- Where every child has stopped the future is the present.
pub terminal-Future : {ks js : List StateKind} → Future ks js → all is_terminal ks ≡ true → js ≡ ks
terminal-Future over h = refl
terminal-Future (stays k f) h = ground (arith, terminal-Future f)
terminal-Future (moves k j t f) h = ground arith

-- The successes to come are at most those of the children that are pending.
pub count-Future :
    {ks js : List StateKind}
    → Future ks js
    → (count_if is_succeeded ks ≤ count_if is_succeeded js)
      × (count_if is_succeeded js ≤ count_if is_succeeded ks + count_if is_pending ks)
count-Future over = omega arith
count-Future (stays k f) = ground (arith, count-Future f)
count-Future (moves k j t f) = ground (arith, count-Future f)

pub succeeded-Future :
    {ks js : List StateKind}
    → Future ks js
    → all is_succeeded ks ≡ true
    → all is_succeeded js ≡ true
succeeded-Future over h = refl
succeeded-Future (stays k f) h = ground (arith, succeeded-Future f)
succeeded-Future (moves k j t f) h = ground arith

-- A test that only stopped children can pass stays passed.
pub any-Future :
    (p : StateKind → Bool)
    → ((k : StateKind) → is_terminal k ≡ false → p k ≡ false)
    → {ks js : List StateKind} → Future ks js
    → any p ks ≡ true
    → any p js ≡ true
any-Future p stopped over h = cc
any-Future p stopped (stays k f) h = elim (Bool-cases (p k)) [
  | inl t ↦ rw t
  | inr n ↦ rw n (any-Future p stopped f (rw n at h))
]
any-Future p stopped (moves k j t f) h =
    let rest = any-Future p stopped f (rw (stopped k t) at h) in
    elim (Bool-cases (p j)) [ inl y ↦ rw y | inr n ↦ rw n rest ]

succeeded_stopped : (k : StateKind) → is_terminal k ≡ false → is_succeeded k ≡ false
succeeded_stopped k h = ground arith

pub any_succeeded-Future :
    {ks js : List StateKind}
    → Future ks js
    → any is_succeeded ks ≡ true
    → any is_succeeded js ≡ true
any_succeeded-Future f h = any-Future is_succeeded succeeded_stopped f h

pub any_terminal-Future :
    {ks js : List StateKind} → Future ks js → any is_terminal ks ≡ true → any is_terminal js ≡ true
any_terminal-Future f h = any-Future is_terminal (λ k t. t) f h
