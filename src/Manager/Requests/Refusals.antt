-- ===== src/Manager/Requests/Refusals.antt =====
-- _manager_requests.py: the actions that the classification refuses are those that applying refuses.
use httk_workflow.Base.{◌≡◌, refl, pos, eq_ℤ, String, true, Option, none, some, arith}
use httk_workflow.Errors.{
  Raised, ok, err, format_error, type_error, is_workflow_or_os, is_value_error,
}
use httk_workflow.Json.{Json, Members, get, as_int, is_str}
use httk_workflow.Marker.{Marker}
use httk_workflow.Job.{JobDefinition}
use httk_workflow.Frame.{StateFrame}
use httk_workflow.World.{Host, World}
use httk_workflow.Workspace.{read_state, load_job}
use httk_workflow.Manager.Requests.{
  Action, cancel, set_priority, pause, continue_job, override_step, action_of, action_class,
  takes_priority, dispatch, read_both, current, ref_or_null, apply_to, wanted_priority,
  apply_priority, apply_pause, handler_of, escapes,
}

ref_text : (value : Json) (s : String) → is_str s value ≡ true → ref_or_null value ≡ true
unfolding is_str ref_or_null
ref_text (Json.str t) s h = refl
ref_text _ s h = cc

module _ (hazard : Option Json) (h : Host) (marker : Marker) (request : Members)
    (key : Option String) where
  pub dispatch_refused :
      (o : Option Action) (job : JobDefinition) (state : StateFrame) (w : World) (e : Raised)
      → action_class o marker.kind ≡ err e
      → dispatch o hazard h marker job state request key w ≡ (err format_error, w)
  unfolding dispatch apply_pause action_class
  dispatch_refused none job state w e r = refl
  dispatch_refused (some cancel) job state w e r = ground arith
  dispatch_refused (some set_priority) job state w e r = ground arith
  dispatch_refused (some pause) job state w e r = ground arith
  dispatch_refused (some continue_job) job state w e r = ground arith
  dispatch_refused (some override_step) job state w e r = ground arith

  -- A request for the present state that sets a priority which `int` refuses with a TypeError (null,
  -- an array or an object) raises that TypeError, and no handler of a request takes it.
  pub apply_to-priority_type :
      (job : JobDefinition) (state : StateFrame) (w : World)
      → as_int (get "expected_generation" request) ≡ some (pos marker.generation)
      → is_str marker.record_ref (get "expected_record_ref" request) ≡ true
      → read_state marker w ≡ ok state
      → load_job marker w ≡ ok job
      → action_of (get "action" request) ≡ some set_priority
      → takes_priority marker.kind ≡ true
      → wanted_priority request ≡ err type_error
      → (apply_to hazard h marker request key w ≡ (err type_error, w))
        × (handler_of type_error ≡ escapes)
  unfolding apply_to current read_both dispatch apply_priority handler_of is_workflow_or_os
      is_value_error
  apply_to-priority_type job state w g r s j a k p = (
    rw (
      g,
      ref_text (get "expected_record_ref" request) marker.record_ref r,
      same,
      r,
      s,
      j,
      a,
      k,
      p,
    ),
    refl,
  )
    where
      same : eq_ℤ (pos marker.generation) (pos marker.generation) ≡ true
      same = ground arith
