-- ===== src/Manager/Launch.antt =====
-- manager.py: `_claim_and_launch`. Starting the process of an attempt is a parameter.
use httk_workflow.Base.{String, Bool, true, false, not, Option, none, some, [], ◌∷◌, if◌then◌else◌}
use httk_workflow.Errors.{
  Raised, Result, ok, err, transition_lost_error, runner_resolution_error, format_error,
  is_workflow_or_os,
}
use httk_workflow.Json.{str, Members, has_key}
use httk_workflow.Kinds.{ready, claimed, failed}
use httk_workflow.Marker.{Marker}
use httk_workflow.Job.{JobDefinition}
use httk_workflow.Frame.{StateFrame, Member, replace, carried}
use httk_workflow.Scheduling.{effective_requirement, attempt_budget_failure, Budget}
use httk_workflow.World.{Host, Step, ◌>>=◌, of, pure, attempt, next_tick, raise}
use httk_workflow.Workspace.{read_state, load_job, on_disk}
use httk_workflow.Manager.Deferral.{move}
use httk_workflow.Manager.Commit.{failure, record_failure}
use httk_workflow.Manager.Claim.{
  Claimant, claim_frame, next_ordinal, next_total, release_claim, budget_text,
}

-- what `_launch_claimed` does with a claimed job, and how an attempt that it cannot prepare is named
pub record Launcher : Type 0 where
  pub launch : Marker → JobDefinition → StateFrame → Step (Unit {0})
  pub resolution_code : String  -- `exc.code` of a RunnerResolutionError

-- the code that `_fail_attempt_preparation` records
preparation_code : Launcher → Raised → String
preparation_code l runner_resolution_error = l.resolution_code
preparation_code l format_error = "protocol_error"
preparation_code l _ = "process_failure"

-- `handle_attempt_failure` swallows what keeps it from recording the failure
unreported : Result Marker → Step (Unit {0})
unreported (ok _) = pure tt
unreported (err e) = if is_workflow_or_os e then pure tt else raise e

fail_preparation : Host → Launcher → Marker → JobDefinition → Raised → Step (Unit {0})
unfolding preparation_code unreported
fail_preparation h l marker job e =
    attempt (
      record_failure h marker job (record {
        code = preparation_code l e;
        message = "";
        exit_status = none;
        unclean = true;
        takeover_evidence = none;
      }))
    >>= unreported

launched : Host → Launcher → Marker → JobDefinition → Result (Unit {0}) → Step Bool
unfolding fail_preparation
launched h l marker job (ok _) = pure true
launched h l marker job (err transition_lost_error) = raise transition_lost_error
launched h l marker job (err e) =
    if is_workflow_or_os e then (fail_preparation h l marker job e >>= λ _. pure true) else raise e

-- after the claim: the maintenance lock may have appeared
started : Host → Launcher → Bool → JobDefinition → StateFrame → Marker → Step Bool
unfolding launched
started h l maintenance job state marker =
    if maintenance
    then (release_claim h marker "maintenance_lock" none >>= λ _. pure true)
    else (attempt (l.launch marker job state) >>= launched h l marker job)

claim : Host → Claimant → Launcher → Bool → Marker → JobDefinition → StateFrame → Step Bool
unfolding started
claim h c l maintenance marker job state = do
  attempt_tick ← next_tick
  requirement ← of (effective_requirement job state c.config.resources c.config.maximum_workers)
  claim_tick ← next_tick
  moved ←
      move h marker claimed
        (claim_frame c job state requirement (h.uuid4 attempt_tick) (h.uuid4 claim_tick)) none
  started h l maintenance job state moved

within_budget :
    Option Budget
    → Host
    → Claimant
    → Launcher
    → Bool
    → Marker
    → JobDefinition
    → StateFrame
    → Step Bool
unfolding claim
within_budget none h c l maintenance marker job state = claim h c l maintenance marker job state
within_budget (some b) h c l maintenance marker job state =
    move h marker failed
      (replace (carried state) (
        (Member.failure, failure "budget_exhausted" (budget_text b) none)
        ∷ (Member.reason, str "budget_exhausted")
        ∷ []))
      none
    >>= λ _. pure true

claim_loaded :
    Host → Claimant → Launcher → Bool → Marker → Result JobDefinition → Result Members → Step Bool
unfolding within_budget
claim_loaded h c l maintenance marker (ok job) (ok state) =
    if has_key "pause_requested" state
    then (move h marker ready
          (replace (carried state) ((Member.reason, str "pause_requested") ∷ [])) none
        >>= λ _. pure true)
    else within_budget (attempt_budget_failure job (next_ordinal state) (next_total state)) h c l
        maintenance marker job state
claim_loaded h c l maintenance marker _ _ = pure false

-- `ownership is True`, or the marker is gone and the transition will report a lost race
may_claim : Option Bool → Bool → Bool
may_claim none there = false
may_claim (some true) there = true
may_claim (some false) there = not there

unfoldable pub claim_and_launch :
    Host → Claimant → Launcher → Option Bool → Bool → Marker → Step Bool
unfolding claim_loaded may_claim
claim_and_launch h c l owns maintenance marker w =
    if may_claim owns (on_disk marker w.markers)
    then claim_loaded h c l maintenance marker (load_job marker w) (read_state marker w) w
    else (ok false, w)
