-- ===== src/Manager/Claim.antt =====
-- manager.py: `_claim_and_launch` and `_release_claim`.
pub mod Release
use Prim.Native.String
use httk_workflow.Base.{
  ℕ, ℤ, pos, ◌+ℤ◌, ◌-ℤ◌, max_zero, String, Bool, true, false, not, Option, none, some, List, [],
  ◌∷◌, map, if◌then◌else◌, or_else, is_some,
}
use httk_workflow.Errors.{
  Raised, Result, ok, err, transition_lost_error, runner_resolution_error, format_error,
  is_workflow_or_os,
}
use httk_workflow.Json.{Json, int, str, arr, items, Members, has_key}
use httk_workflow.Json.Numbers.{codes}
use httk_workflow.Kinds.{StateKind, ready, claimed, failed}
use httk_workflow.Marker.{Marker, text_lt}
use httk_workflow.Resources.{Resources}
use httk_workflow.Job.{JobDefinition}
use httk_workflow.Frame.{StateFrame, Member, replace, carried}
use httk_workflow.Frame.Read
use httk_workflow.Scheduling.{ManagerConfig, effective_requirement, attempt_budget_failure, Budget}
use httk_workflow.World.{Host, World, Step, ◌>>=◌, ◌>>◌, of, pure, attempt, next_tick, raise}
use httk_workflow.Workspace.{read_state, load_job, on_disk}
use httk_workflow.Manager.Deferral.{move}
use httk_workflow.Manager.Commit.{failure, optional_resources, Ended, record_failure}

-- what a manager is called, and what it writes into its claims
pub record Claimant : Type 0 where
  pub config : ManagerConfig
  pub manager_id : String
  pub writer_id : String
  pub lease_seconds : ℤ

-- `sorted` of texts
unfoldable pub insert_text : String → List String → List String
insert_text s [] = s ∷ []
insert_text s (t ∷ ts) = if text_lt (codes t) (codes s) then t ∷ insert_text s ts else s ∷ t ∷ ts

unfoldable pub sorted_texts : List String → List String
sorted_texts [] = []
sorted_texts (s ∷ ss) = insert_text s (sorted_texts ss)

unfoldable pub budget_text : Budget → String
budget_text Budget.maximum_attempts_per_activation_exceeded =
    "maximum_attempts_per_activation exceeded"
budget_text Budget.maximum_total_attempts_exceeded = "maximum_total_attempts exceeded"

-- `(state.attempt_ordinal or 0) + 1`, and the same of the total
unfoldable pub next_ordinal : StateFrame → ℤ
next_ordinal state = or_else (Read.attempt_ordinal state) (pos 0) +ℤ pos 1

unfoldable pub next_total : StateFrame → ℤ
next_total state = or_else (Read.total_attempts state) (pos 0) +ℤ pos 1

-- the members that a claim sets; the two identifiers are new ones
abbrev pub claim_members :
    Claimant → JobDefinition → StateFrame → Resources → String → String → List (Member × Json)
claim_members c job state requirement attempt_id claim_id =
    (Member.manager_id, str c.manager_id)
    ∷ (Member.writer_id, str c.writer_id)
    ∷ (Member.claim_id, str claim_id)
    ∷ (Member.attempt_id, str attempt_id)
    ∷ (Member.attempt_control, str (String.◌++◌ "attempts/" attempt_id))
    ∷ (Member.attempt_ordinal, int (next_ordinal state))
    ∷ (Member.total_attempts, int (next_total state))
    ∷ (Member.resources, optional_resources (some requirement))
    ∷ (Member.lease_seconds, int c.lease_seconds)
    ∷ (Member.matched_pool, str job.claim_pool)
    ∷ (Member.matched_capabilities, arr (items (map str (sorted_texts job.required_capabilities))))
    ∷ (Member.reason, str (or_else (Read.reason state) "claim"))
    ∷ []

unfoldable pub claim_frame :
    Claimant → JobDefinition → StateFrame → Resources → String → String → StateFrame
claim_frame c job state requirement attempt_id claim_id =
    replace (carried state) (claim_members c job state requirement attempt_id claim_id)

-- the members that a release sets: the attempt is given back to both budgets
abbrev pub release_members : StateFrame → String → List (Member × Json)
release_members state reason =
    (Member.reason, str reason)
    ∷ (
      Member.attempt_ordinal,
      int (max_zero (or_else (Read.attempt_ordinal state) (pos 1) -ℤ pos 1)),
    )
    ∷ (Member.total_attempts, int (max_zero (or_else (Read.total_attempts state) (pos 1) -ℤ pos 1)))
    ∷ []

unfoldable pub release_frame : StateFrame → String → StateFrame
release_frame state reason = replace (carried state) (release_members state reason)

-- a transition that is lost to another actor is no fault, any other exception goes on
lost_is_none : Result Marker → Step (Option Marker)
lost_is_none (ok moved) = pure (some moved)
lost_is_none (err transition_lost_error) = pure none
lost_is_none (err e) = raise e

release_to : Host → Marker → String → Result StateFrame → Step (Option Marker)
unfolding lost_is_none
release_to h marker reason (err e) = pure none
release_to h marker reason (ok state) =
    attempt (move h marker ready (release_frame state reason) none) >>= lost_is_none

-- `_release_claim`, which reads the frame where none is given
unfoldable pub release_claim : Host → Marker → String → Option StateFrame → Step (Option Marker)
unfolding release_to
release_claim h marker reason (some state) w = release_to h marker reason (ok state) w
release_claim h marker reason none w = release_to h marker reason (read_state marker w) w
