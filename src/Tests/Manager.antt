-- ===== src/Tests/Manager.antt =====
-- A manager with one job: pauses, claims, retries and requests.
use httk_workflow.Base.{
  ◌≡◌, ◌≢◌, ◌≤◌, ◌+◌, refl, ℕ, ℤ, pos, String, Bool, true, false, not, ◌&&◌, Option, none, some,
  List, [], ◌∷◌, arith, or_else, length, inl,
}
use httk_workflow.Errors.{ok}
use httk_workflow.Json.{
  Json, str, int, null, obj, Members, end, field, update, lookup, get, has_key,
}
use httk_workflow.Kinds.{StateKind, ready, claimed, paused, failed, running, committing, same_kind}
use httk_workflow.Resources.{Resources, find}
use httk_workflow.Frame.{StateFrame, Member, member_name}
use httk_workflow.Frame.Read
use httk_workflow.Scheduling.{selected_requirement, effective_requirement, exceeds}
use httk_workflow.Scheduling.Selected.{IsDeclared}
use httk_workflow.Resources.Valid.{IsRequirement}
use httk_workflow.Names.JobKey.{is_label}
use httk_workflow.Manager.Deferral.{defer}
use httk_workflow.Manager.Deferral.Laws.{pause_requested-defer, defer-requested}
use httk_workflow.Manager.Claim.{Claimant, claim_frame, release_frame}
use httk_workflow.Manager.Claim.Release.{untouched, release-claim, selected_requirement-release}
use httk_workflow.Manager.Commit.{Advance, Retry, advance_plan, retry_plan, next_activation}
use httk_workflow.Manager.Commit.Budgets.{next_attempt, retry_plan-budget}
use httk_workflow.Manager.Pass.{Pool, Claim, claim_ready}
use httk_workflow.Manager.Pass.Capacity.{Bounded, IsDict, claim_ready-Bounded}
use httk_workflow.Manager.Requests.{apply_to}
use httk_workflow.Manager.Requests.Effects.{Applies, apply_to-Applies}
use httk_workflow.Tests.Samples.{
  host, world, marker, job, frame, pausing, pause_request, config, needs,
}

abbrev paused_frame : StateFrame
paused_frame = field "step" (str "start") (
    field "operator" (str "ann") (
      field "operator_reason" null
        (field "request_id" (str "q") (field "reason" (str "operator_pause_deferred") end))))

defers : defer running ready pausing none ≡ ok (paused, paused_frame)
unfolding defer has_key Read.pause_requested httk_workflow.Frame.mapping_member get
    httk_workflow.Frame.replace httk_workflow.Json.insert httk_workflow.Json.remove
defers = refl

pause_requested-defer_example : lookup "pause_requested" paused_frame ≡ none
pause_requested-defer_example =
    pause_requested-defer running ready paused pausing paused_frame none defers refl

requests_pause : Read.pause_requested pausing ≡ some pause_request
unfolding Read.pause_requested httk_workflow.Frame.mapping_member get
requests_pause = refl

defer-requested_example :
    (paused ≡ paused)
    × (lookup "request_id" paused_frame ≡ some (get "request_id" pause_request))
    × (lookup "operator" paused_frame ≡ some (get "operator" pause_request))
    × (lookup "reason" paused_frame ≡ some (str "operator_pause_deferred"))
    × ((same_kind running committing && not (has_key "process" paused_frame)) ≡ false)
unfolding has_key httk_workflow.Manager.Deferral.request_source
defer-requested_example =
    defer-requested running ready paused pausing paused_frame pause_request none refl requests_pause
      defers

abbrev claimant : Claimant
claimant = record { config = config; manager_id = "m"; writer_id = "wr"; lease_seconds = pos 60 }

release-claim_example :
    (Read.attempt_ordinal (release_frame (claim_frame claimant job frame needs "at" "cl") "lock")
      ≡ some (or_else (Read.attempt_ordinal frame) (pos 0)))
    × (Read.total_attempts (release_frame (claim_frame claimant job frame needs "at" "cl") "lock")
        ≡ some (or_else (Read.total_attempts frame) (pos 0)))
    × ((m : Member)
        → untouched m ≡ true
        → lookup
            (member_name m)
            (release_frame (claim_frame claimant job frame needs "at" "cl") "lock")
          ≡ lookup (member_name m) frame)
unfolding Read.attempt_ordinal httk_workflow.Frame.integer_member get Read.total_attempts
release-claim_example = release-claim claimant job frame needs "at" "cl" "lock" refl refl

-- what the job needs with its share of the memory
abbrev all_needs : Resources
all_needs = ("procs", 2) ∷ ("mem", 32) ∷ []

requires : effective_requirement job frame config.resources config.maximum_workers ≡ ok all_needs
unfolding effective_requirement selected_requirement Read.resources get find Read.step
    httk_workflow.Frame.string_member httk_workflow.Resources.put
requires = refl

needs-IsRequirement : IsRequirement needs
unfolding is_label find
needs-IsRequirement = (refl, refl, tt)

job-IsDeclared : IsDeclared job
unfolding find
job-IsDeclared = record { resources = needs-IsRequirement; steps = λ step r e. cc }

selected_requirement-release_example :
    (effective_requirement job
        (claim_frame claimant job frame all_needs "at" "cl")
        config.resources
        config.maximum_workers
      ≡ ok all_needs)
    × (selected_requirement job
          (release_frame (claim_frame claimant job frame all_needs "at" "cl") "lock")
        ≡ ok all_needs)
selected_requirement-release_example =
    selected_requirement-release claimant job frame all_needs "at" "cl" "lock" job job-IsDeclared
      requires

abbrev again : Retry
again = record {
  progress = frame;
  reason = "process_failure";
  unclean = true;
  takeover_evidence = none;
  priority = none;
}

attempt_one : Read.attempt_ordinal frame ≡ some (pos 1)
unfolding Read.attempt_ordinal httk_workflow.Frame.integer_member get
attempt_one = refl

retries : (retry_plan job frame again frame).kind ≡ ready
unfolding retry_plan Read.attempt_ordinal httk_workflow.Frame.integer_member get
retries = refl

retry_plan-budget_example :
    exceeds job.retry_policy.maximum_attempts_per_activation
      (next_attempt (retry_plan job frame again frame).updates)
    ≡ false
retry_plan-budget_example =
    retry_plan-budget job frame frame again (pos 1) attempt_one attempt_one retries

abbrev onward : Advance
onward = record {
  next_step = "finish";
  progress = frame;
  reason = "advance";
  join_summary = none;
  resources = none;
  priority = none;
}

advances : (advance_plan job frame onward "a2" frame).kind ≡ ready
unfolding advance_plan exceeds next_activation httk_workflow.Base.◌+ℤ◌ Read.activation_ordinal
    httk_workflow.Frame.integer_member get
advances = refl

abbrev take : Claim
take m w = (true, ok true, w)

abbrev idle : Pool
idle = record { running = []; changed = false; world = world }

needs-IsDict : IsDict needs
unfolding find
needs-IsDict name = ground arith

idle-Bounded : Bounded config []
idle-Bounded = (omega arith, λ name total h. omega arith)

claim_ready-Bounded_example :
    Bounded config
      (claim_ready config take
        ((marker, needs) ∷ (marker, needs) ∷ (marker, needs) ∷ [])
        idle).1.running
claim_ready-Bounded_example =
    claim_ready-Bounded config take ((marker, needs) ∷ (marker, needs) ∷ (marker, needs) ∷ []) idle
      (needs-IsDict, (needs-IsDict, (needs-IsDict, tt))) idle-Bounded

abbrev request : String → ℤ → Members
request action generation =
    field "action" (str action)
      (field "expected_generation" (int generation) (field "expected_record_ref" (str "r4") end))

pause_handled : (apply_to none host marker (request "pause" (pos 4)) none world).0 ≡ ok none
unfolding apply_to get httk_workflow.Json.is_str httk_workflow.Workspace.read_state find
    httk_workflow.Workspace.agrees httk_workflow.Json.is_int httk_workflow.Kinds.kind_name
    httk_workflow.Workspace.load_job httk_workflow.Manager.Requests.action_of
    httk_workflow.Manager.Deferral.move defer has_key httk_workflow.Frame.replace
    httk_workflow.Json.insert httk_workflow.Manager.Requests.audited httk_workflow.Frame.carried
    httk_workflow.Frame.select Read.pause_requested httk_workflow.Frame.mapping_member
    httk_workflow.Job.member_of lookup httk_workflow.Json.remove update
    httk_workflow.Manager.Deferral.request_source httk_workflow.Manager.Requests.ref_or_null
    httk_workflow.Marker.same_marker httk_workflow.Names.Base36.to_base36
    httk_workflow.Names.JobKey.but_last is_label httk_workflow.Names.JobKey.last
    httk_workflow.Names.JobKey.parse_job_key httk_workflow.Names.JobKey.validate_label
    httk_workflow.Names.MarkerName.ascii httk_workflow.Names.MarkerName.in_priority_range
    httk_workflow.Names.MarkerName.joined httk_workflow.Names.MarkerName.marker_basename
    httk_workflow.Names.MarkerName.natural httk_workflow.Names.Text.text_eq
    httk_workflow.Names.Uuid.is_uuid httk_workflow.Workspace.append httk_workflow.Workspace.envelope
    httk_workflow.Workspace.find_markers httk_workflow.Workspace.job_id
    httk_workflow.Workspace.moved_to httk_workflow.Workspace.on_disk httk_workflow.Workspace.prepare
    httk_workflow.Workspace.record_state httk_workflow.Workspace.renamed
    httk_workflow.Workspace.require_unsealed httk_workflow.Workspace.transition
    httk_workflow.Workspace.verified_rename httk_workflow.Workspace.without
pause_handled = refl

apply_to-Applies_example : Applies marker (request "pause" (pos 4)) world
apply_to-Applies_example =
    apply_to-Applies none host marker (request "pause" (pos 4)) none world (inl pause_handled)

abbrev null_priority : Members
null_priority = field "priority" null (request "set_priority" (pos 4))
