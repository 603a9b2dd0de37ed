-- ===== src/Scheduling/Requirement.antt =====
-- What a requirement, a fit and a reservation come to, name by name.
use httk_workflow.Base.{
  ℕ, ◌+◌, ◌-◌, ◌≤◌, ◌<◌, ◌≡◌, ◌≢◌, ◌↔◌, refl, sym, ◌∙◌, String, false, Option, none, some, List, [],
  ◌∷◌, arith, str_eq, eq_iff, if◌then◌else◌, Bool-cases, inl, inr,
}
use native.Mathlib.Nat.{div-le_self}
use mathlib.Core.Path.{subst}
use mathlib.Core.Bool.{false≢true}
use httk_workflow.Errors.{ok}
use httk_workflow.Resources.{Resources, find, has, put, find-put}
use httk_workflow.Frame.{StateFrame}
use httk_workflow.Job.{JobDefinition}
use httk_workflow.Scheduling.{
  share_of, with_share, default_share, selected_requirement, effective_requirement, too_much, least,
  unfit_resource, lower, reserve, available_resources,
}

-- a value that the capacity can meet
abbrev pub Meets : Option ℕ → ℕ → Type 0
Meets none value = ⊥
Meets (some total) value = (0 < total) × (value ≤ total)

abbrev pub Fits : Resources → Resources → Type 0
Fits [] capacity = Unit {0}
Fits ((name, value) ∷ rest) capacity = Meets (find name capacity) value × Fits rest capacity

-- what a requirement asks of one resource
abbrev pub demand : String → Resources → ℕ
demand name [] = 0
demand name ((other, value) ∷ rest) = (if str_eq other name then value else 0) + demand name rest

abbrev pub total_demand : String → List Resources → ℕ
total_demand name [] = 0
total_demand name (r ∷ running) = demand name r + total_demand name running

-- what is left of one resource after a reservation
abbrev pub lowered : Option ℕ → ℕ → Option ℕ
lowered none n = none
lowered (some c) n = some (c - n)

too_much-Meets : (o : Option ℕ) (value : ℕ) → (too_much o value ≡ false) ↔ Meets o value
unfolding too_much
too_much-Meets none value = (λ h. cc, λ h. absurd h)
too_much-Meets (some total) value = (λ h. ground arith, λ h. ground arith)

least_some : (name : String) (o : Option String) → least name o ≢ none
unfolding least
least_some name none h = cc
least_some name (some other) h = ground arith

-- A requirement has no unfit resource exactly when the capacity declares every resource that it
-- names, with a positive amount that is at least what it asks.
pub unfit_resource_iff :
    (requirement capacity : Resources)
    → (unfit_resource requirement capacity ≡ none) ↔ Fits requirement capacity
unfolding unfit_resource
unfit_resource_iff [] capacity = (λ h. tt, λ h. refl)
unfit_resource_iff ((name, value) ∷ rest) capacity =
    let found = find name capacity in
    let here = too_much-Meets (find name capacity) value in
    let there = unfit_resource_iff rest capacity in
    elim (Bool-cases (too_much (find name capacity) value)) [
      | inl bad ↦ (
        λ h. absurd (least_some name (unfit_resource rest capacity) (rw bad at h)),
        λ h. absurd (false≢true (sym (here.1 h.0) ∙ bad)),
      )
      | inr good ↦ (λ h. (here.0 good, there.0 (rw good at h)), λ h. rw good (there.1 h.1))
    ]

lowered_zero : (o : Option ℕ) → o ≡ lowered o 0
lowered_zero none = refl
lowered_zero (some c) = ground arith

lowered_add : (o : Option ℕ) (a b : ℕ) → lowered (lowered o a) b ≡ lowered o (a + b)
lowered_add none a b = refl
lowered_add (some c) a b = ground arith

find-lower :
    (o : Option ℕ) (name k : String) (value : ℕ) (available : Resources)
    → find name available ≡ o
    → find k (lower o name value available)
      ≡ lowered (find k available) (if str_eq name k then value else 0)
unfolding lower
find-lower none name k value available e =
    ground (arith, eq_iff name k, lowered_zero (find k available))
find-lower (some left) name k value available e = ground (
  arith,
  eq_iff name k,
  lowered_zero (find k available),
  find-put name k (left - value) available,
)

find-reserve :
    (k : String) (requirement available : Resources)
    → find k (reserve requirement available) ≡ lowered (find k available) (demand k requirement)
unfolding reserve
find-reserve k [] available = lowered_zero (find k available)
find-reserve k ((name, value) ∷ rest) available =
    find-reserve k rest (lower (find name available) name value available)
    ∙ (rw (find-lower (find name available) name k value available refl)
        (lowered_add (find k available) (if str_eq name k then value else 0) (demand k rest)))

-- What is left of each declared resource is its capacity less what all running attempts reserve,
-- and nothing below zero; no resource is added or lost.
pub find-available_resources :
    (k : String) (capacity : Resources) (running : List Resources)
    → find k (available_resources capacity running)
      ≡ lowered (find k capacity) (total_demand k running)
unfolding available_resources
find-available_resources k capacity [] = lowered_zero (find k capacity)
find-available_resources k capacity (attempt ∷ running) =
    find-available_resources k (reserve attempt capacity) running
    ∙ (rw (find-reserve k attempt capacity)
        (lowered_add (find k capacity) (demand k attempt) (total_demand k running)))

share-le : (total workers : ℕ) → share_of total workers ≤ total
unfolding share_of
share-le total workers = grind (arith, div-le_self)

Fits-put :
    (requirement capacity : Resources) (name : String) (value : ℕ)
    → Fits requirement capacity
    → Meets (find name capacity) value
    → Fits (put name value requirement) capacity
unfolding put
Fits-put [] capacity name value h m = (m, tt)
Fits-put ((other, w) ∷ rest) capacity name value h m = elim (Bool-cases (str_eq other name)) [
  | inl e ↦
      let same : other ≡ name = (eq_iff other name).0 e in
      rw e ((subst (λ n. Meets (find n capacity) value) (sym same) m, h.1))
  | inr e ↦ rw e (h.0, Fits-put rest capacity name value h.1 m)
]

-- a declared capacity that is not zero
abbrev pub Positive : Option ℕ → Type 0
Positive none = Unit {0}
Positive (some total) = 0 < total

Fits-with_share :
    (o : Option ℕ) (capacity requirement : Resources) (workers : ℕ) (name : String)
    → find name capacity ≡ o
    → Positive o
    → Fits requirement capacity
    → Fits (with_share o workers name requirement) capacity
unfolding with_share
Fits-with_share none capacity requirement workers name e p h = h
Fits-with_share (some total) capacity requirement workers name e p h =
    elim (Bool-cases (has name requirement)) [
      | inl own ↦ rw own h
      | inr missing ↦ rw missing (
          Fits-put requirement capacity name (share_of total workers) h
            (rw e (p, share-le total workers)))
    ]

-- A requirement that fits still fits with the default shares of processors and memory, where the
-- capacity that the manager declares of these is positive.
pub effective_requirement-Fits :
    (job : JobDefinition) (state : StateFrame) (capacity : Resources) (workers : ℕ)
    (selected effective : Resources)
    → Positive (find "procs" capacity)
    → Positive (find "mem" capacity)
    → selected_requirement job state ≡ ok selected
    → Fits selected capacity
    → effective_requirement job state capacity workers ≡ ok effective
    → Fits effective capacity
unfolding effective_requirement default_share
effective_requirement-Fits job state capacity workers selected effective procs mem e h f =
    let shared =
      default_share capacity workers "mem" (default_share capacity workers "procs" selected) in
    let done : ok shared ≡ ok effective = rw e at f in
    let same : shared ≡ effective = cc done in
    rw (← same) (
      Fits-with_share (find "mem" capacity) capacity _ workers "mem" refl mem
        (Fits-with_share (find "procs" capacity) capacity selected workers "procs" refl procs h))
