-- ===== src/Tests/Scheduling.antt =====
-- Requirements, capacity and the census, at one manager and one job.
use httk_workflow.Base.{◌≡◌, ◌↔◌, ◌+◌, refl, not, none, some, [], ◌∷◌, arith, length}
use httk_workflow.Errors.{ok}
use httk_workflow.Json.{Json, str, Members, end, field}
use httk_workflow.Resources.{Resources, find}
use httk_workflow.Frame.Read
use httk_workflow.Scheduling.{effective_requirement, selected_requirement, unfit_resource}
use httk_workflow.Scheduling.Requirement.{Fits, unfit_resource_iff, effective_requirement-Fits}
use httk_workflow.Scheduling.Ready.{
  Candidate, eligible_ready, classify_pending, ready_blocked_total, pend_all, nothing_blocked,
  empty_census, one_if,
}
use httk_workflow.Scheduling.Ready.Agreement.{ready_claimable-eligible_ready}
use httk_workflow.Scheduling.Ready.Attribution.{ready_blocked_total-classify_pending}
use httk_workflow.Tests.Samples.{marker, job, frame, config, needs}

abbrev candidate : Candidate
candidate = record { marker = marker; job = some job; state = some frame }

abbrev both : Resources
both = ("procs", 2) ∷ ("mem", 32) ∷ []

unfit_resource_iff_example :
    (unfit_resource needs config.resources ≡ none) ↔ Fits needs config.resources
unfit_resource_iff_example = unfit_resource_iff needs config.resources

selects_needs : selected_requirement job frame ≡ ok needs
unfolding selected_requirement httk_workflow.Frame.Read.resources httk_workflow.Json.get
    httk_workflow.Frame.Read.step httk_workflow.Frame.string_member find
selects_needs = refl

shares_mem : effective_requirement job frame config.resources 2 ≡ ok both
unfolding effective_requirement selected_requirement httk_workflow.Frame.Read.resources
    httk_workflow.Json.get find httk_workflow.Frame.Read.step httk_workflow.Frame.string_member
    httk_workflow.Resources.put
shares_mem = refl

effective_requirement-Fits_example : Fits both config.resources
unfolding find
effective_requirement-Fits_example =
    effective_requirement-Fits job frame config.resources 2 needs both (omega arith) (omega arith)
      selects_needs ((omega arith, omega arith), tt) shares_mem

ready_claimable-eligible_ready_example :
    (pend_all config (candidate ∷ []) empty_census).ready_claimable
    ≡ 0 + length (eligible_ready config (candidate ∷ []))
ready_claimable-eligible_ready_example =
    ready_claimable-eligible_ready config (candidate ∷ []) empty_census refl

ready_blocked_total-classify_pending_example :
    ready_blocked_total (classify_pending config candidate nothing_blocked).1
    ≡ ready_blocked_total nothing_blocked
      + one_if (not (classify_pending config candidate nothing_blocked).0)
unfolding effective_requirement selected_requirement httk_workflow.Frame.Read.resources
    httk_workflow.Json.get
ready_blocked_total-classify_pending_example =
    ready_blocked_total-classify_pending config candidate nothing_blocked refl
