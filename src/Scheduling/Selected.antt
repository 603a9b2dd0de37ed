-- ===== src/Scheduling/Selected.antt =====
-- _manager_scheduling.py: the requirement that a frame has selected once is selected again, and
-- keeps the shares of it.
use httk_workflow.Base.{
  ℕ, String, ◌≡◌, refl, sym, ap, true, Option, none, some, arith, str_eq, eq_iff, inl, inr,
  Option-cases, Bool-cases, or_else, is_some,
}
use httk_workflow.Errors.{ok, ◌>>=◌, >>=-eq-ok}
use httk_workflow.Json.{Json, null, bool, int, str, arr, obj, get}
use httk_workflow.Json.Numbers.{codes}
use httk_workflow.Names.JobKey.{is_label}
use httk_workflow.Resources.{Resources, find, find-put, validate_resources}
use httk_workflow.Resources.Valid.{
  IsRequirement, put-IsRequirement, validate_resources-IsRequirement,
}
use httk_workflow.Frame.{StateFrame}
use httk_workflow.Frame.Read
use httk_workflow.Job.{JobDefinition}
use httk_workflow.Scheduling.{
  selected_requirement, with_share, default_share, share_of, effective_requirement,
}

-- the requirements that a job document declares, each of which `validate_resources` has made
pub record IsDeclared (job : JobDefinition) : Type 0 where
  pub resources : IsRequirement job.resources
  pub steps :
      (step : String) (r : Resources) → find step job.step_resources ≡ some r → IsRequirement r

ok_same : {a b : Resources} → ok a ≡ ok b → a ≡ b
ok_same e = cc

validated :
    (v : Json) {r : Resources}
    → (validate_resources v >>= λ validated. ok (some validated)) ≡ ok (some r)
    → IsRequirement r
validated v {r} e =
    let (n, q, k) = >>=-eq-ok (validate_resources v) (λ validated. ok (some validated)) e in
    let same : n ≡ r = cc in rw (sym same) (validate_resources-IsRequirement v q)

module _ (job : JobDefinition) (state : StateFrame) (d : IsDeclared job) where
  dynamic-IsRequirement :
      (v : Json) {r : Resources}
      → get "resources" state ≡ v
      → Read.resources state ≡ ok (some r)
      → IsRequirement r
  unfolding Read.resources
  dynamic-IsRequirement null q e = (let bad = rw (Read.resources, q) at e in cc)
  dynamic-IsRequirement (bool b) q e = validated (bool b) (rw (Read.resources, q) at e)
  dynamic-IsRequirement (int z) q e = validated (int z) (rw (Read.resources, q) at e)
  dynamic-IsRequirement (str t) q e = validated (str t) (rw (Read.resources, q) at e)
  dynamic-IsRequirement (arr xs) q e = validated (arr xs) (rw (Read.resources, q) at e)
  dynamic-IsRequirement (obj m) q e = validated (obj m) (rw (Read.resources, q) at e)

  found-IsRequirement :
      (step : String) (o : Option Resources)
      → find step job.step_resources ≡ o
      → IsRequirement (or_else o job.resources)
  found-IsRequirement step none e = d.resources
  found-IsRequirement step (some r) e = d.steps step r e

  static-IsRequirement :
      (o : Option String)
      → IsRequirement (elim o [
        | none ↦ job.resources
        | some step ↦ or_else (find step job.step_resources) job.resources
      ])
  static-IsRequirement none = d.resources
  static-IsRequirement (some step) = found-IsRequirement step (find step job.step_resources) refl

  selected-IsRequirement : {r : Resources} → selected_requirement job state ≡ ok r → IsRequirement r
  unfolding selected_requirement
  selected-IsRequirement {r} e =
      let (dynamic, q, e) = >>=-eq-ok (Read.resources state) _ e in chosen dynamic q e
    where
      chosen :
          (dynamic : Option Resources)
          → Read.resources state ≡ ok dynamic
          → ok (elim dynamic [
            | some requirement ↦ requirement
            | none ↦ elim (Read.step state) [
              | none ↦ job.resources
              | some step ↦ or_else (find step job.step_resources) job.resources
            ]
          ])
            ≡ ok r
          → IsRequirement r
      chosen none q e =
          (let same : _ ≡ r = ok_same e in rw (sym same) (static-IsRequirement (Read.step state)))
      chosen (some s) q e =
          (let same : s ≡ r = cc in
            rw (sym same) (dynamic-IsRequirement (get "resources" state) refl q))

default_share-IsRequirement :
    (capacity : Resources) (workers : ℕ) (name : String) (r : Resources)
    → is_label (codes name) ≡ true
    → IsRequirement r
    → IsRequirement (default_share capacity workers name r)
unfolding default_share with_share
default_share-IsRequirement capacity workers name r l h = elim (Option-cases (find name capacity)) [
  | inl e ↦ rw e h
  | inr (total, e) ↦ elim (Bool-cases (is_some (find name r))) [
    | inl q ↦ rw (e, q) h
    | inr q ↦ rw (e, q) (put-IsRequirement name (share_of total workers) r l h)
  ]
]

-- a share of the resource is not added again
abbrev Shared : Option ℕ → String → Resources → Type 0
Shared none name r = Unit {0}
Shared (some total) name r = is_some (find name r) ≡ true

Shared-stays :
    (o : Option ℕ) (workers : ℕ) (name : String) (r : Resources)
    → Shared o name r
    → with_share o workers name r ≡ r
unfolding with_share
Shared-stays none workers name r h = refl
Shared-stays (some total) workers name r h = rw h refl

Shared-with_share :
    (o : Option ℕ) (workers : ℕ) (name : String) (r : Resources)
    → Shared o name (with_share o workers name r)
unfolding with_share
Shared-with_share none workers name r = tt
Shared-with_share (some total) workers name r = elim (Bool-cases (is_some (find name r))) [
  | inl q ↦ rw (q, q) refl
  | inr q ↦
      (let f = find-put name name (share_of total workers) r in
        let e : str_eq name name ≡ true = ground (arith, eq_iff name name) in rw q (rw (f, e) refl))
]

Shared-other :
    (o p : Option ℕ) (workers : ℕ) (name other : String) (r : Resources)
    → Shared o name r
    → Shared o name (with_share p workers other r)
unfolding with_share
Shared-other none p workers name other r h = tt
Shared-other (some total) none workers name other r h = h
Shared-other (some total) (some all) workers name other r h =
    ground (arith, h, find-put other name (share_of all workers) r)

module _ (capacity : Resources) (workers : ℕ) where
  shares : Resources → Resources
  shares r = default_share capacity workers "mem" (default_share capacity workers "procs" r)

  -- the shares of a requirement that has them are not added again
  shares_stay : (r : Resources) → shares (shares r) ≡ shares r
  unfolding shares default_share
  shares_stay r =
      let procs = find "procs" capacity in
      let mem = find "mem" capacity in
      let some_procs = with_share procs workers "procs" r in
      let had =
        Shared-other procs mem workers "procs" "mem" some_procs
          (Shared-with_share procs workers "procs" r) in
      let has_mem = Shared-with_share mem workers "mem" some_procs in
      rw (Shared-stays procs workers "procs" (with_share mem workers "mem" some_procs) had)
        (Shared-stays mem workers "mem" (with_share mem workers "mem" some_procs) has_mem)

  effective-shares :
      (job : JobDefinition) (state : StateFrame) {r : Resources}
      → effective_requirement job state capacity workers ≡ ok r
      → (selected : Resources) × (selected_requirement job state ≡ ok selected)
        × (r ≡ shares selected)
  unfolding effective_requirement shares
  effective-shares job state e =
      let (selected, q, e) = >>=-eq-ok (selected_requirement job state) _ e in
      (selected, q, sym (ok_same e))

  pub effective-IsRequirement :
      (job : JobDefinition) (state : StateFrame) {r : Resources}
      → IsDeclared job
      → effective_requirement job state capacity workers ≡ ok r
      → IsRequirement r
  unfolding shares is_label
  effective-IsRequirement job state d e =
      let (selected, q, same) = effective-shares job state e in
      let chosen = selected-IsRequirement job state d q in
      rw same (
        default_share-IsRequirement capacity workers "mem"
          (default_share capacity workers "procs" selected) refl
          (default_share-IsRequirement capacity workers "procs" selected refl chosen))

  -- a frame that selects an effective requirement has it as its effective requirement
  pub effective_stays :
      (job other : JobDefinition) (state later : StateFrame) {r : Resources}
      → effective_requirement job state capacity workers ≡ ok r
      → selected_requirement other later ≡ ok r
      → effective_requirement other later capacity workers ≡ ok r
  unfolding effective_requirement shares
  effective_stays job other state later e k =
      let (selected, q, same) = effective-shares job state e in
      rw (k, same) (ap ok (shares_stay selected))
