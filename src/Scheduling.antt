-- ===== src/Scheduling.antt =====
-- src/httk/workflow/_manager_scheduling.py: what a ready job requires, what is left of a manager's
-- capacity, and which jobs the manager can claim.
pub mod Requirement
pub mod Retries
pub mod Selected
pub mod Ready
use Prim.Native.Nat.{max}
use httk_workflow.Base.{
  ℕ, ◌-◌, ◌/◌, ℤ, pos, ltb_ℤ, leb_ℤ, String, Bool, true, false, not, ◌&&◌, ◌||◌, Option, none, some,
  List, [], ◌∷◌, leb, ltb, ◌==◌, if◌then◌else◌, or_else, is_some, str_eq,
}
use httk_workflow.Errors.{Result, ok, err, ◌>>=◌}
use httk_workflow.Json.Numbers.{codes}
use httk_workflow.Resources.{Resources, find, has, put}
use httk_workflow.Frame.{StateFrame}
use httk_workflow.Frame.Read
use httk_workflow.Job.{JobDefinition, RetryPolicy}
use httk_workflow.Marker.{text_lt}

-- the static part of a manager
pub record ManagerConfig : Type 0 where
  pub resources : Resources
  pub maximum_workers : ℕ
  pub pools : List String
  pub accept_any_pool : Bool
  pub capabilities : List String
  pub allowed_executors : List String
  pub executors : List String

-- the requirement that the activation selects, before the defaults
unfoldable pub selected_requirement : JobDefinition → StateFrame → Result Resources
selected_requirement job state = do
  dynamic ← Read.resources state
  ok (elim dynamic [
    | some requirement ↦ requirement
    | none ↦ elim (Read.step state) [
      | none ↦ job.resources
      | some step ↦ or_else (find step job.step_resources) job.resources
    ]
  ])

-- an equal share of the capacity, or all of it where the share rounds to zero
share_of : ℕ → ℕ → ℕ
share_of capacity workers =
    let share = capacity / workers in if share == 0 && ltb 0 capacity then capacity else share

-- the body of `for name in ("procs", "mem")`
with_share : Option ℕ → ℕ → String → Resources → Resources
unfolding share_of
with_share none workers name requirement = requirement
with_share (some total) workers name requirement =
    if has name requirement then requirement else put name (share_of total workers) requirement

default_share : Resources → ℕ → String → Resources → Resources
unfolding with_share
default_share capacity workers name requirement =
    with_share (find name capacity) workers name requirement

unfoldable pub effective_requirement : JobDefinition → StateFrame → Resources → ℕ → Result Resources
unfolding default_share
effective_requirement job state capacity maximum_workers = do
  requirement ← selected_requirement job state
  ok (
      default_share capacity maximum_workers "mem"
        (default_share capacity maximum_workers "procs" requirement))

-- `name not in capacity or capacity[name] <= 0 or value > capacity[name]`
too_much : Option ℕ → ℕ → Bool
too_much none value = true
too_much (some total) value = leb total 0 || ltb total value

-- the smaller of a name and one found so far
least : String → Option String → Option String
least name none = some name
least name (some other) = if text_lt (codes other) (codes name) then some other else some name

-- `for name in sorted(requirement)`: the first unfit name in order is the least unfit name
unfoldable pub unfit_resource : Resources → Resources → Option String
unfolding too_much least
unfit_resource [] capacity = none
unfit_resource ((name, value) ∷ rest) capacity =
    let later = unfit_resource rest capacity in
    if too_much (find name capacity) value then least name later else later

-- `available[name] = max(0, available[name] - value)` for a name of the capacity
lower : Option ℕ → String → ℕ → Resources → Resources
lower none name value available = available
lower (some left) name value available = put name (left - value) available

unfoldable pub reserve : Resources → Resources → Resources
unfolding lower
reserve [] available = available
reserve ((name, value) ∷ rest) available =
    reserve rest (lower (find name available) name value available)

-- the capacity that the reservations of the running attempts leave
unfoldable pub available_resources : Resources → List Resources → Resources
available_resources capacity [] = capacity
available_resources capacity (attempt ∷ running) =
    available_resources (reserve attempt capacity) running

pub data Budget : Type 0 where
  maximum_attempts_per_activation_exceeded maximum_total_attempts_exceeded : Budget

-- `limit is not None and n > limit`
unfoldable pub exceeds : Option ℤ → ℤ → Bool
exceeds none n = false
exceeds (some limit) n = ltb_ℤ limit n

unfoldable pub attempt_budget_failure : JobDefinition → ℤ → ℤ → Option Budget
unfolding exceeds
attempt_budget_failure job attempt_ordinal total_attempts =
    if exceeds job.retry_policy.maximum_attempts_per_activation attempt_ordinal
    then some maximum_attempts_per_activation_exceeded
    else if exceeds job.retry_policy.maximum_total_attempts total_attempts
    then some maximum_total_attempts_exceeded
    else none

-- another attempt of this activation is permitted
unfoldable pub retry_budget_available : JobDefinition → StateFrame → Bool
retry_budget_available job state =
    let attempts = or_else (Read.attempt_ordinal state) (pos 1) in
    let total = or_else (Read.total_attempts state) attempts in
    let exhausted : Bool = elim job.retry_policy.maximum_attempts_per_activation [
      | none ↦ false
      | some maximum ↦ leb_ℤ maximum attempts
    ] in
    if exhausted then false else elim job.retry_policy.maximum_total_attempts [
      | none ↦ true
      | some maximum ↦ ltb_ℤ total maximum
    ]
