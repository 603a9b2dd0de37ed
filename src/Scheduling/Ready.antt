-- ===== src/Scheduling/Ready.antt =====
-- Which ready jobs a manager can claim, and how the census tells an operator why it cannot claim
-- the others. A loaded job is what `_load_job_and_state` gives for its marker.
pub mod Agreement
pub mod Attribution
use httk_workflow.Base.{
  ℕ, suc, ◌+◌, ℤ, ltb_ℤ, eq_ℤ, String, Bool, true, false, not, ◌&&◌, ◌||◌, Option, none, some, List,
  [], ◌∷◌, all, is_some, str_eq, if◌then◌else◌, or_else,
}
use httk_workflow.Errors.{Result, ok, err}
use httk_workflow.Json.Numbers.{codes}
use httk_workflow.Kinds.{StateKind, submitted, ready, succeeded, failed, waiting, same_kind}
use httk_workflow.Marker.{Marker, marker_path, text_lt}
use httk_workflow.Resources.{Resources, find, put}
use httk_workflow.Frame.{StateFrame}
use httk_workflow.Job.{JobDefinition, member_of}
use httk_workflow.Scheduling.{ManagerConfig, effective_requirement, unfit_resource, least}

-- `_executor_for(job) is not None`
unfoldable pub serves : ManagerConfig → JobDefinition → Bool
serves m job =
    member_of job.runner_executor m.allowed_executors && member_of job.runner_executor m.executors

-- `required_capabilities - capabilities`
unfoldable pub missing_of : List String → List String → List String
missing_of [] have = []
missing_of (c ∷ cs) have =
    let rest = missing_of cs have in if member_of c have then rest else c ∷ rest

abbrev is_empty : List String → Bool
is_empty [] = true
is_empty (_ ∷ _) = false

-- What the workspace holds under one marker; `none` where it cannot be read.
pub record Candidate : Type 0 where
  pub marker : Marker
  pub job : Option JobDefinition
  pub state : Option StateFrame

-- the requirement of a ready job that the manager can claim
claimable : ManagerConfig → JobDefinition → StateFrame → Option Resources
claimable m job state =
    if not (serves m job)
    then none
    else if not m.accept_any_pool && not (member_of job.claim_pool m.pools)
    then none
    else if not (all (λ c. member_of c m.capabilities) job.required_capabilities)
    then none
    else elim (effective_requirement job state m.resources m.maximum_workers) [
      | err _ ↦ none
      | ok requirement ↦
          if is_some (unfit_resource requirement m.resources) then none else some requirement
    ]

-- one turn of the loop of `eligible_ready`
unfoldable pub eligible : ManagerConfig → Candidate → Option Resources
unfolding claimable
eligible m c = elim c.job [
  | none ↦ none
  | some job ↦ elim c.state [ none ↦ none | some state ↦ claimable m job state ]
]

-- the sort key of `eligible_ready`: the priority, then the path
unfoldable pub comes_before : Marker → Marker → Bool
comes_before a b =
    ltb_ℤ a.priority b.priority
    || (eq_ℤ a.priority b.priority && text_lt (marker_path a) (marker_path b))

unfoldable pub place : Marker × Resources → List (Marker × Resources) → List (Marker × Resources)
place x [] = x ∷ []
place x (y ∷ ys) = if comes_before y.0 x.0 then y ∷ place x ys else x ∷ y ∷ ys

unfoldable pub add_eligible :
    Option Resources → Marker → List (Marker × Resources) → List (Marker × Resources)
add_eligible none marker rest = rest
add_eligible (some requirement) marker rest = place (marker, requirement) rest

-- The window is filtered and sorted. Paths differ, so any sort by the key gives this list.
unfoldable pub eligible_ready : ManagerConfig → List Candidate → List (Marker × Resources)
eligible_ready m [] = []
eligible_ready m (c ∷ cs) = add_eligible (eligible m c) c.marker (eligible_ready m cs)

-- `Counter`
abbrev pub Counter : Type 0
Counter = List (String × ℕ)

unfoldable pub count_one : String → Counter → Counter
count_one name counter = put name (or_else (find name counter) 0 + 1) counter

pub record Blocked : Type 0 where
  pub executor : Counter
  pub pool : Counter
  pub capability : Counter
  pub resources : Counter

-- `min(missing)`
least_of : String → List String → String
least_of c [] = c
least_of c (d ∷ ds) = let m = least_of d ds in if text_lt (codes m) (codes c) then m else c

classify_unfit : Option String → Blocked → Bool × Blocked
classify_unfit none blocked = (true, blocked)
classify_unfit (some name) blocked =
    (false, record blocked { resources = count_one name blocked.resources })

classify_requirement : ManagerConfig → Result Resources → Blocked → Bool × Blocked
unfolding classify_unfit
classify_requirement m (err _) blocked = (false, blocked)
classify_requirement m (ok requirement) blocked =
    classify_unfit (unfit_resource requirement m.resources) blocked

classify_fit : ManagerConfig → JobDefinition → Option StateFrame → Blocked → Bool × Blocked
unfolding classify_requirement
classify_fit m job none blocked = (false, blocked)
classify_fit m job (some state) blocked =
    classify_requirement m (effective_requirement job state m.resources m.maximum_workers) blocked

classify_missing :
    ManagerConfig → JobDefinition → Option StateFrame → Blocked → List String → Bool × Blocked
unfolding classify_fit least_of
classify_missing m job state blocked [] = classify_fit m job state blocked
classify_missing m job state blocked (c ∷ cs) =
    (false, record blocked { capability = count_one (least_of c cs) blocked.capability })

-- `_classify_pending` of a submitted or ready marker
unfoldable pub classify_pending : ManagerConfig → Candidate → Blocked → Bool × Blocked
unfolding classify_missing
classify_pending m c blocked = elim c.job [
  | none ↦ (same_kind c.marker.kind submitted, blocked)
  | some job ↦
      if not (serves m job)
      then (false, record blocked { executor = count_one job.runner_executor blocked.executor })
      else if same_kind c.marker.kind submitted
      then (true, blocked)
      else if not m.accept_any_pool && not (member_of job.claim_pool m.pools)
      then (false, record blocked { pool = count_one job.claim_pool blocked.pool })
      else classify_missing m job c.state blocked
          (missing_of job.required_capabilities m.capabilities)
]

pub record WorkCensus : Type 0 where
  pub succeeded : ℕ
  pub failed : ℕ
  pub ready_claimable : ℕ
  pub ready_blocked : Blocked
  pub waiting : ℕ
  pub paused : ℕ
  pub actionable_count : ℕ
  pub unreadable : ℕ

-- the loop over the settled markers
settle : StateKind → WorkCensus → WorkCensus
settle succeeded w = record w { succeeded = suc w.succeeded }
settle failed w = record w { failed = suc w.failed }
settle waiting w = record w { waiting = suc w.waiting }
settle _ w = record w { paused = suc w.paused }

abbrev pub one_if : Bool → ℕ
one_if true = 1
one_if false = 0

-- the loop over the submitted and ready markers
unfoldable pub pend : ManagerConfig → Candidate → WorkCensus → WorkCensus
pend m c w =
    let (actionable, blocked) = classify_pending m c w.ready_blocked in
    record w {
      ready_blocked = blocked;
      actionable_count = w.actionable_count + one_if actionable;
      ready_claimable = w.ready_claimable + one_if (actionable && same_kind c.marker.kind ready);
    }

-- the loop over the committing and cancelling markers
move : ManagerConfig → Candidate → WorkCensus → WorkCensus
move m c w = elim c.job [
  | none ↦ record w { unreadable = suc w.unreadable }
  | some job ↦ record w { actionable_count = w.actionable_count + one_if (serves m job) }
]

settle_all : List StateKind → WorkCensus → WorkCensus
unfolding settle
settle_all [] w = w
settle_all (k ∷ ks) w = settle_all ks (settle k w)

unfoldable pub pend_all : ManagerConfig → List Candidate → WorkCensus → WorkCensus
pend_all m [] w = w
pend_all m (c ∷ cs) w = pend_all m cs (pend m c w)

move_all : ManagerConfig → List Candidate → WorkCensus → WorkCensus
unfolding move
move_all m [] w = w
move_all m (c ∷ cs) w = move_all m cs (move m c w)

abbrev pub nothing_blocked : Blocked
nothing_blocked = record { executor = []; pool = []; capability = []; resources = [] }

abbrev pub empty_census : WorkCensus
empty_census = record {
  succeeded = 0;
  failed = 0;
  ready_claimable = 0;
  ready_blocked = nothing_blocked;
  waiting = 0;
  paused = 0;
  actionable_count = 0;
  unreadable = 0;
}

unfoldable pub work_census :
    ManagerConfig → List StateKind → List Candidate → List Candidate → WorkCensus
unfolding settle_all move_all
work_census m settled pending moving =
    move_all m moving (pend_all m pending (settle_all settled empty_census))

-- `WorkCensus.ready_blocked_total`
abbrev pub counter_sum : Counter → ℕ
counter_sum [] = 0
counter_sum ((_, n) ∷ rest) = n + counter_sum rest

unfoldable pub ready_blocked_total : Blocked → ℕ
ready_blocked_total b =
    counter_sum b.executor + counter_sum b.pool + counter_sum b.capability + counter_sum b.resources
