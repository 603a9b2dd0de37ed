-- ===== src/Scheduling/Ready/Attribution.antt =====
-- Every job that the census can read and that the manager cannot claim is counted once.
use httk_workflow.Base.{
  ◌&&◌, ◌+◌, ◌≡◌, refl, String, Bool, true, false, not, Option, none, some, List, [], ◌∷◌, arith,
  or_else, Bool-cases, inl, inr,
}
use httk_workflow.Errors.{Result, ok, err}
use httk_workflow.Resources.{Resources, find, put}
use httk_workflow.Frame.{StateFrame}
use httk_workflow.Kinds.{submitted, same_kind}
use httk_workflow.Job.{member_of, JobDefinition}
use httk_workflow.Scheduling.{ManagerConfig, effective_requirement, unfit_resource}
use httk_workflow.Scheduling.Ready.{
  Candidate, Blocked, Counter, counter_sum, count_one, classify_unfit, classify_requirement,
  least_of, classify_fit, classify_missing, classify_pending, ready_blocked_total, one_if,
  missing_of, serves,
}

counter_sum-put :
    (name : String) (counter : Counter)
    → counter_sum (put name (or_else (find name counter) 0 + 1) counter) ≡ counter_sum counter + 1
unfolding put find
counter_sum-put name [] = omega arith
counter_sum-put name ((j, n) ∷ rest) = ground (arith, counter_sum-put name rest)

counter_sum-count_one :
    (name : String) (counter : Counter)
    → counter_sum (count_one name counter) ≡ counter_sum counter + 1
unfolding count_one
counter_sum-count_one name counter = counter_sum-put name counter

abbrev is_ok : Result Resources → Bool
is_ok (ok _) = true
is_ok (err _) = false

-- the census can read the job, its state and its requirement
abbrev pub attributable : ManagerConfig → Candidate → Bool
attributable m c = elim c.job [
  | none ↦ false
  | some job ↦ elim c.state [
    | none ↦ false
    | some state ↦ is_ok (effective_requirement job state m.resources m.maximum_workers)
  ]
]

-- Of the two results of the census for a marker, the total grows by one when it cannot claim it.
abbrev Counted : Bool × Blocked → Blocked → Type 0
Counted found b = ready_blocked_total found.1 ≡ ready_blocked_total b + one_if (not found.0)

unfit_counts : (o : Option String) (b : Blocked) → Counted (classify_unfit o b) b
unfolding classify_unfit ready_blocked_total
unfit_counts none b = omega arith
unfit_counts (some name) b = omega (arith, counter_sum-count_one name b.resources)

requirement_counts :
    (m : ManagerConfig) (r : Result Resources) (b : Blocked)
    → is_ok r ≡ true
    → Counted (classify_requirement m r b) b
unfolding classify_requirement
requirement_counts m (ok r) b h = unfit_counts (unfit_resource r m.resources) b
requirement_counts m (err e) b h = cc

missing_counts :
    (m : ManagerConfig) (job : JobDefinition) (state : StateFrame) (b : Blocked) (cs : List String)
    → is_ok (effective_requirement job state m.resources m.maximum_workers) ≡ true
    → Counted (classify_missing m job (some state) b cs) b
unfolding classify_missing
missing_counts m job state b [] h =
    unfold classify_fit in
    requirement_counts m (effective_requirement job state m.resources m.maximum_workers) b h
missing_counts m job state b (c ∷ cs) h =
    unfold ready_blocked_total in omega (arith, counter_sum-count_one (least_of c cs) b.capability)

-- A pending job whose document, frame and requirement the census can all read adds exactly one to
-- the number of blocked jobs where the census does not count it as actionable, and none where it does.
pub ready_blocked_total-classify_pending :
    (m : ManagerConfig) (c : Candidate) (b : Blocked)
    → attributable m c ≡ true
    → ready_blocked_total (classify_pending m c b).1
      ≡ ready_blocked_total b + one_if (not (classify_pending m c b).0)
ready_blocked_total-classify_pending m c b h = counts c.job c.state refl refl
  where
    counts :
        (job : Option JobDefinition) (state : Option StateFrame)
        → c.job ≡ job
        → c.state ≡ state
        → Counted (classify_pending m c b) b
    counts none state e s = cc
    counts (some job) none e s = cc
    counts (some job) (some state) e s =
        let readable : is_ok (effective_requirement job state m.resources m.maximum_workers)
            ≡ true =
          (rw (e, s) at h) in
        let missing =
          missing_counts m job state b (missing_of job.required_capabilities m.capabilities)
            readable in
        elim (Bool-cases (serves m job)) [
          | inr n ↦
              unfold classify_pending ready_blocked_total in
              rw (e, n) (omega (arith, counter_sum-count_one job.runner_executor b.executor))
          | inl y ↦ elim (Bool-cases (same_kind c.marker.kind submitted)) [
            | inl k ↦ unfold classify_pending in rw (e, y, k) (omega arith)
            | inr k ↦
                elim (Bool-cases
                  (not m.accept_any_pool && not (member_of job.claim_pool m.pools))) [
                    | inl n ↦
                        unfold classify_pending ready_blocked_total in
                        rw (e, y, k, n) (omega (arith, counter_sum-count_one job.claim_pool b.pool))
                    | inr p ↦ unfold classify_pending in rw (e, y, k, p, s) missing
                  ]
          ]
        ]
