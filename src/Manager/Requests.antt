-- ===== src/Manager/Requests.antt =====
-- _manager_requests.py: what an operator's request does to a job, from the point at which the job
-- that it names is found. `_request_cancel` is the one of _manager_cancellation.py; the signals that
-- it sends are not part of the model.
pub mod Refusals
pub mod Effects
use httk_workflow.Base.{
  ℕ, ℤ, pos, negsuc, eq_ℤ, String, Bool, true, false, not, ◌&&◌, ◌||◌, Option, none, some, List, [],
  ◌∷◌, map, ◌++◌, str_eq, if◌then◌else◌, is_some,
}
use httk_workflow.Errors.{
  Raised, Result, ok, err, format_error, transition_lost_error, os_error, type_error,
  is_workflow_or_os, is_value_error,
}
use httk_workflow.Json.{
  Json, null, int, str, obj, Members, end, field, get, has_key, remove, as_int, as_text, is_str,
  truthy, update,
}
use httk_workflow.Json.Numbers.{py_int}
use httk_workflow.Kinds.{
  StateKind, submitted, ready, waiting, paused, claimed, running, committing, cancelling, succeeded,
  failed, cancelled, kind_name, same_kind, is_terminal,
}
use httk_workflow.Marker.{Marker}
use httk_workflow.Job.{JobDefinition, validate_step}
use httk_workflow.Frame.{
  StateFrame, Member, member_name, replace, select, carried, carried_state_members,
}
use httk_workflow.Frame.Read
use httk_workflow.World.{Host, World, Step, ◌>>=◌, ◌>>◌, of, pure, next_tick, raise, check}
use httk_workflow.Workspace.{read_state, load_job}
use httk_workflow.Manager.Deferral.{move}
use httk_workflow.Manager.Commit.{advance, retry}

pub data Action : Type 0 where
  cancel set_priority pause continue_job override_step : Action

unfoldable pub action_of : Json → Option Action
action_of value =
    if is_str "cancel" value
    then some cancel
    else if is_str "set_priority" value
    then some set_priority
    else if is_str "pause" value
    then some pause
    else if is_str "continue" value
    then some continue_job
    else if is_str "override_step" value
    then some override_step
    else none

-- the kinds that `action_class` lists for set_priority
abbrev pub settable : StateKind → Bool
settable submitted = true
settable ready = true
settable waiting = true
settable paused = true
settable failed = true
settable _ = false

-- the kinds that it lists for pause
abbrev pub pausable : StateKind → Bool
pausable submitted = true
pausable ready = true
pausable waiting = true
pausable claimed = true
pausable running = true
pausable committing = true
pausable paused = true
pausable _ = false

-- the kinds that it lists for continue and for override_step
abbrev pub revivable : StateKind → Bool
revivable failed = true
revivable paused = true
revivable _ = false

unfoldable pub action_class : Option Action → StateKind → Result Action
action_class none kind = err format_error
action_class (some cancel) kind = if is_terminal kind then err format_error else ok cancel
action_class (some set_priority) kind = if settable kind then ok set_priority else err format_error
action_class (some pause) kind = if pausable kind then ok pause else err format_error
action_class (some continue_job) kind = if revivable kind then ok continue_job else err format_error
action_class (some override_step) kind =
    if revivable kind then ok override_step else err format_error

-- the text that a refusal is retired with
pub data Refusal : Type 0 where
  stale_generation stale_record already_cancelling consumed_by_join : Refusal

abbrev pub Reply : Type 0
Reply = Option Refusal

-- `_CANCELLING_MEMBERS`
unfoldable pub cancelling_members : List String
cancelling_members =
    carried_state_members
    ++ (map member_name (
        Member.attempt_control ∷ Member.manager_id ∷ Member.writer_id ∷ Member.lease_seconds
        ∷ Member.workdir ∷ Member.started_at ∷ Member.process ∷ Member.operator
        ∷ Member.operator_key ∷ Member.operator_reason ∷ Member.request_id ∷ []))

-- who asked for it: `operator`, `operator_reason`, `request_id`, and the key of a signed request
unfoldable pub audited : Members → Option String → StateFrame → StateFrame
audited request key frame =
    let named : StateFrame = replace frame (
      (Member.operator, get "operator" request)
      ∷ (Member.operator_reason, get "reason" request)
      ∷ (Member.request_id, get "request_id" request)
      ∷ []) in
    elim key [ none ↦ named | some k ↦ replace named ((Member.operator_key, str k) ∷ []) ]

done : Marker → Step Reply
done moved = pure none

request_cancel : Host → Marker → StateFrame → Members → Option String → Step Reply
unfolding cancelling_members done
request_cancel h marker state request key =
    let audit : StateFrame = audited request key (select cancelling_members state) in
    if same_kind marker.kind cancelling
    then pure (some already_cancelling)
    else if same_kind marker.kind running
    then (move h marker cancelling (replace audit ((Member.reason, str "operator_cancel") ∷ []))
          none
        >>= done)
    else (next_tick >>= λ n.
        move h marker cancelled
          (replace audit (
            (
              Member.cancellation,
              obj (
                  field "verified" (str "no_live_attempt") (
                    field "from_kind" (str (kind_name marker.kind))
                      (field "verified_at" (str (h.utc_now n)) end))),
            )
            ∷ (Member.reason, str "operator_cancel")
            ∷ []))
          none
        >>= done)

-- `int(request.get("priority", -1))`
unfoldable pub wanted_priority : Members → Result ℤ
wanted_priority request =
    if has_key "priority" request then py_int (get "priority" request) else ok (negsuc 0)

-- the members that a change of priority preserves
preserved_members : List String
preserved_members = map member_name (
    Member.join ∷ Member.join_summary ∷ Member.next_step ∷ Member.pause ∷ Member.pause_requested
    ∷ Member.failure ∷ [])

apply_priority : Host → Marker → StateFrame → Members → StateFrame → Step Reply
unfolding preserved_members done
apply_priority h marker state request audit = of (wanted_priority request) >>= λ priority.
    (move h marker marker.kind
        (replace (update audit (select preserved_members state))
          ((Member.reason, str "operator_priority") ∷ []))
        (some priority)
      >>= done)

-- `_STATE_ENVELOPE_MEMBERS` are left out
without_envelope : StateFrame → StateFrame
without_envelope state = remove "priority" (
    remove "created_at" (
      remove "previous_record_ref" (
        remove "kind" (
          remove "state_generation" (
            remove "placement" (
              remove "job_key" (
                remove "job_id"
                  (remove "workspace_id" (remove "format_version" (remove "format" state))))))))))

requested_at : Json → String → Json
requested_at (str s) now = if str_eq s "" then str now else str s
requested_at _ now = str now

-- a pause of an attempt under way is noted in the frame
unfoldable pub pause_note : StateFrame → Members → String → StateFrame
unfolding without_envelope requested_at
pause_note state request now = replace (without_envelope state) (
    (
      Member.pause_requested,
      obj (
          field "operator" (get "operator" request) (
            field "reason" (get "reason" request) (
              field "request_id" (get "request_id" request)
                (field "requested_at" (requested_at (get "created_at" request) now) end)))),
    )
    ∷ [])

-- the kinds that `apply` lists for set_priority, for a pause of an attempt under way, for a pause
-- before the attempt, and for continue and override_step
abbrev pub takes_priority : StateKind → Bool
takes_priority submitted = true
takes_priority ready = true
takes_priority waiting = true
takes_priority paused = true
takes_priority failed = true
takes_priority _ = false

abbrev pub under_way : StateKind → Bool
under_way claimed = true
under_way running = true
under_way committing = true
under_way _ = false

abbrev pub before_attempt : StateKind → Bool
before_attempt submitted = true
before_attempt ready = true
before_attempt waiting = true
before_attempt _ = false

abbrev pub continues_from : StateKind → Bool
continues_from failed = true
continues_from paused = true
continues_from _ = false

apply_pause : Host → Marker → StateFrame → Members → StateFrame → Step Reply
unfolding done
apply_pause h marker state request audit =
    if under_way marker.kind
    then (next_tick >>= λ n.
        move h marker marker.kind (pause_note state request (h.utc_now n)) none >>= done)
    else if before_attempt marker.kind
    then (move h marker paused (replace audit ((Member.reason, str "operator_pause") ∷ [])) none
        >>= done)
    else if same_kind marker.kind paused
    then pure none
    else raise format_error

-- `continue` of a job that has an activation to continue
continue_activation :
    Host → Marker → JobDefinition → StateFrame → StateFrame → Option String → Step Reply
unfolding done
continue_activation h marker job state audit none = raise format_error
continue_activation h marker job state audit (some _) =
    retry h marker job state (record {
      progress = audit;
      reason = "manual_continue";
      unclean = false;
      takeover_evidence = none;
      priority = none;
    })
    >>= done

override : Host → Marker → JobDefinition → StateFrame → StateFrame → Result String → Step Reply
unfolding done
override h marker job state audit (err e) = raise e
override h marker job state audit (ok step) =
    advance h marker job state (record {
      next_step = step;
      progress = audit;
      reason = "operator_override_step";
      join_summary = none;
      resources = none;
      priority = none;
    })
    >>= done

revive : Host → Marker → JobDefinition → StateFrame → Members → StateFrame → Bool → Step Reply
unfolding continue_activation override
revive h marker job state request audit continues =
    if continues
    then continue_activation h marker job state audit (Read.activation_id state)
    else override h marker job state audit (validate_step (get "step" request))

-- `hazard` is what `_decided_join_hazard` finds
revive_hazard :
    Option Json
    → Host
    → Marker
    → JobDefinition
    → StateFrame
    → Members
    → StateFrame
    → Bool
    → Step Reply
unfolding revive
revive_hazard none h marker job state request audit continues =
    revive h marker job state request audit continues
revive_hazard (some hazard) h marker job state request audit continues =
    if truthy (get "force" request)
    then revive h marker job state request (replace audit ((Member.revival_hazard, hazard) ∷ []))
        continues
    else pure (some consumed_by_join)

pub dispatch :
    Option Action
    → Option Json
    → Host
    → Marker
    → JobDefinition
    → StateFrame
    → Members
    → Option String
    → Step Reply
unfolding request_cancel apply_priority apply_pause revive_hazard
dispatch none hazard h marker job state request key = raise format_error
dispatch (some cancel) hazard h marker job state request key =
    if is_terminal marker.kind
    then raise format_error
    else request_cancel h marker state request key
dispatch (some set_priority) hazard h marker job state request key =
    if takes_priority marker.kind
    then apply_priority h marker state request (audited request key (carried state))
    else raise format_error
dispatch (some pause) hazard h marker job state request key =
    apply_pause h marker state request (audited request key (carried state))
dispatch (some continue_job) hazard h marker job state request key =
    if continues_from marker.kind
    then revive_hazard hazard h marker job state request (audited request key (carried state)) true
    else raise format_error
dispatch (some override_step) hazard h marker job state request key =
    if continues_from marker.kind
    then revive_hazard hazard h marker job state request (audited request key (carried state)) false
    else raise format_error

-- `expected_record_ref is not None and not isinstance(expected_record_ref, str)`
unfoldable pub ref_or_null : Json → Bool
ref_or_null null = true
ref_or_null (str _) = true
ref_or_null _ = false

read_both :
    Result Members
    → Result JobDefinition
    → Option Json
    → Host
    → Marker
    → Members
    → Option String
    → Step Reply
unfolding dispatch
read_both (err e) job hazard h marker request key = raise e
read_both (ok state) (err e) hazard h marker request key = raise e
read_both (ok state) (ok job) hazard h marker request key =
    dispatch (action_of (get "action" request)) hazard h marker job state request key

current : Option ℤ → Option Json → Host → Marker → Members → Option String → Step Reply
unfolding ref_or_null read_both
current none hazard h marker request key w = (err format_error, w)
current (some generation) hazard h marker request key w =
    if not (ref_or_null (get "expected_record_ref" request))
    then (err format_error, w)
    else if not (eq_ℤ (pos marker.generation) generation)
    then (ok (some stale_generation), w)
    else if not (is_str marker.record_ref (get "expected_record_ref" request))
    then (ok (some stale_record), w)
    else read_both (read_state marker w) (load_job marker w) hazard h marker request key w

-- `apply`, once the marker of the job is found and the signature is checked
unfoldable pub apply_to : Option Json → Host → Marker → Members → Option String → Step Reply
unfolding current
apply_to hazard h marker request key =
    current (as_int (get "expected_generation" request)) hazard h marker request key

-- what `handle` does with a request that raises
pub data Handled : Type 0 where
  retired left_claimed quarantined escapes : Handled

unfoldable pub handler_of : Raised → Handled
handler_of transition_lost_error = retired
handler_of os_error = left_claimed
handler_of e = if is_workflow_or_os e || is_value_error e then quarantined else escapes
