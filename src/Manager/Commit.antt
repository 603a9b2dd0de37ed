-- ===== src/Manager/Commit.antt =====
-- _manager_commit.py: the next state of a job whose attempt has ended.
pub mod Budgets
use httk_workflow.Base.{
  ℕ, suc, ℤ, pos, ◌+ℤ◌, leb_ℤ, ltb_ℤ, String, Bool, true, false, not, ◌&&◌, ◌||◌, Option, none,
  some, List, [], ◌∷◌, map, str_eq, if◌then◌else◌, or_else,
}
use httk_workflow.Errors.{Result, ok, err, format_error}
use httk_workflow.Json.{
  Json, null, bool, int, str, arr, obj, items, Members, end, field, get, has_key, as_array, is_str,
  insert, as_text,
}
use httk_workflow.Kinds.{StateKind, ready, failed}
use httk_workflow.Marker.{Marker}
use httk_workflow.Resources.{resource_members, Resources}
use httk_workflow.Job.{JobDefinition, RetryPolicy, member_of}
use httk_workflow.Scheduling.{exceeds}
use httk_workflow.Frame.{StateFrame, Member, replace, carried}
use httk_workflow.Frame.Read
use httk_workflow.World.{Host, World, Step, ◌>>=◌, of, pure, next_tick}
use httk_workflow.Workspace.{read_state}
use httk_workflow.Manager.Deferral.{move}

-- `failure`, with the paths that it always names
unfoldable pub failure : String → String → Option ℤ → Json
failure code message exit_status =
    let logs = field "log_paths" (arr (items (str "logs/stdio.out" ∷ []))) end in
    let details : Members = elim exit_status [
      | none ↦ logs
      | some status ↦ insert "exit_status" (int status) logs
    ] in
    obj
      (field "code" (str code) (field "message" (str message) (field "details" (obj details) end)))

process_kept : Option Members → StateFrame → StateFrame → Result StateFrame
process_kept none state progress = ok progress
process_kept (some _) state progress =
    if has_key "process" state
    then ok (replace progress ((Member.process, get "process" state) ∷ []))
    else err format_error

-- `_retain_deferred_pause_process`
unfoldable pub retain_process : StateFrame → StateFrame → Result StateFrame
unfolding process_kept
retain_process state progress = process_kept (Read.pause_requested state) state progress

unfoldable pub optional_text : Option String → Json
optional_text none = null
optional_text (some s) = str s

unfoldable pub optional_resources : Option Resources → Json
optional_resources none = null
optional_resources (some r) = obj (resource_members r)

-- the keyword arguments of `advance`
pub record Advance : Type 0 where
  pub next_step : String
  pub progress : StateFrame
  pub reason : String
  pub join_summary : Option (List Json)
  pub resources : Option Resources
  pub priority : Option ℤ

pub record Plan : Type 0 where
  pub kind : StateKind
  pub updates : StateFrame
  pub priority : Option ℤ

reaches : Option ℤ → ℤ → Bool
reaches none n = false
reaches (some limit) n = leb_ℤ limit n

unfoldable pub optional_summary : Option (List Json) → Json
optional_summary none = null
optional_summary (some xs) = arr (items xs)

-- the activation that an advance starts
unfoldable pub next_activation : StateFrame → ℤ
next_activation state = or_else (Read.activation_ordinal state) (pos 1) +ℤ pos 1

-- what `advance` moves the job to, with the identifier of the new activation
-- the members that an advance sets
abbrev pub advance_members : StateFrame → Advance → String → List (Member × Json)
advance_members state a activation =
    (Member.step, str a.next_step)
    ∷ (Member.activation_id, str activation)
    ∷ (Member.activation_ordinal, int (next_activation state))
    ∷ (Member.attempt_ordinal, int (pos 0))
    ∷ (Member.reason, str a.reason)
    ∷ (Member.join_summary, optional_summary a.join_summary)
    ∷ (Member.resources, optional_resources a.resources)
    ∷ (Member.previous_attempt_id, optional_text (Read.attempt_id state))
    ∷ []

-- what `advance` moves the job to, with the identifier of the new activation
unfoldable pub advance_plan : JobDefinition → StateFrame → Advance → String → StateFrame → Plan
advance_plan job state a activation progress =
    if exceeds job.retry_policy.maximum_activations (next_activation state)
    then record {
      kind = failed;
      updates = replace progress (
          (Member.failure, failure "budget_exhausted" "maximum_activations exceeded" none)
          ∷ (Member.reason, str "budget_exhausted")
          ∷ []);
      priority = none;
    }
    else record {
      kind = ready;
      updates = replace progress (advance_members state a activation);
      priority = a.priority;
    }

unfoldable pub advance : Host → Marker → JobDefinition → StateFrame → Advance → Step Marker
advance h marker job state a = do
  progress ← of (retain_process state a.progress)
  n ← next_tick
  let plan = advance_plan job state a (h.uuid4 n) progress
  move h marker plan.kind plan.updates plan.priority

-- the keyword arguments of `retry`
pub record Retry : Type 0 where
  pub progress : StateFrame
  pub reason : String
  pub unclean : Bool
  pub takeover_evidence : Option Members
  pub priority : Option ℤ

-- `{} if takeover_evidence is None`
unfoldable pub evidence_of : Option Members → Members
evidence_of none = end
evidence_of (some members) = members

with_evidence : Option Members → StateFrame → StateFrame
with_evidence none retried = retried
with_evidence (some members) retried =
    replace retried ((Member.takeover_evidence, obj members) ∷ [])

-- the members that a retry sets
abbrev pub retry_members : StateFrame → Retry → List (Member × Json)
retry_members state r =
    (Member.reason, str r.reason)
    ∷ (Member.unclean_restart, bool r.unclean)
    ∷ (
      Member.unsafe_persistent_takeover,
      bool (is_str "unsafe_persistent_takeover" (get "evidence" (evidence_of r.takeover_evidence))),
    )
    ∷ (Member.previous_attempt_id, optional_text (Read.attempt_id state))
    ∷ []

unfoldable pub retry_plan : JobDefinition → StateFrame → Retry → StateFrame → Plan
unfolding reaches with_evidence
retry_plan job state r progress =
    if reaches job.retry_policy.maximum_attempts_per_activation
      (or_else (Read.attempt_ordinal state) (pos 1))
    then record {
      kind = failed;
      updates = replace progress (
          (Member.failure, failure "retry_exhausted" r.reason none)
          ∷ (Member.reason, str "retry_exhausted")
          ∷ []);
      priority = none;
    }
    else record {
      kind = ready;
      updates = with_evidence r.takeover_evidence (replace progress (retry_members state r));
      priority = r.priority;
    }

unfoldable pub retry : Host → Marker → JobDefinition → StateFrame → Retry → Step Marker
retry h marker job state r = do
  progress ← of (retain_process state r.progress)
  let plan = retry_plan job state r progress
  move h marker plan.kind plan.updates plan.priority

-- `attempt_failure` after the frame is read: retry where the policy names the code
kept_process : StateFrame → StateFrame → StateFrame
kept_process state updates =
    if has_key "process" state
    then replace updates ((Member.process, get "process" state) ∷ [])
    else updates

-- what an attempt left behind
pub record Ended : Type 0 where
  pub code : String
  pub message : String
  pub exit_status : Option ℤ
  pub unclean : Bool
  pub takeover_evidence : Option Members

unfoldable pub failed_frame : StateFrame → Ended → StateFrame
unfolding kept_process with_evidence
failed_frame state e = with_evidence e.takeover_evidence (
    kept_process state (
      replace (carried state) (
        (Member.failure, failure e.code e.message e.exit_status)
        ∷ (Member.reason, str e.code)
        ∷ [])))

failure_step : Host → Marker → JobDefinition → Ended → StateFrame → Step Marker
failure_step h marker job e state =
    if member_of e.code job.retry_policy.retry_on
    then retry h marker job state (record {
      progress = carried state;
      reason = e.code;
      unclean = e.unclean;
      takeover_evidence = e.takeover_evidence;
      priority = none;
    })
    else move h marker failed (failed_frame state e) none

-- the body of the `try` of `handle_attempt_failure`
unfoldable pub record_failure : Host → Marker → JobDefinition → Ended → Step Marker
unfolding failure_step
record_failure h marker job e = (λ w. (read_state marker w, w)) >>= failure_step h marker job e
