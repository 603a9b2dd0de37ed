-- ===== src/Manager/Joins.antt =====
-- _manager_joins.py: what `evaluate` does with a waiting job whose children are all observed, and
-- what `_evaluate_joins` of manager.py does with the exceptions that it raises.
pub mod Decisions
use httk_workflow.Base.{
  ℤ, String, Bool, true, false, Option, none, some, List, [], ◌∷◌, if◌then◌else◌, map,
}
use httk_workflow.Errors.{
  Raised, Result, ok, err, format_error, transition_lost_error, is_workflow_or_os,
}
use httk_workflow.Json.{Json, str, arr, items, Members, get, has_key, as_mapping, is_str}
use httk_workflow.Kinds.{StateKind, failed}
use httk_workflow.Marker.{Marker}
use httk_workflow.Resources.{Resources}
use httk_workflow.Job.{JobDefinition, validate_step}
use httk_workflow.Frame.{StateFrame, Member, replace, carried}
use httk_workflow.Frame.Read
use httk_workflow.Joins.{Verdict, join_satisfied, join_impossible, join_blocked, classify}
use httk_workflow.World.{Host, World, Step, ◌>>=◌, of, pure}
use httk_workflow.Manager.Deferral.{move}
use httk_workflow.Manager.Commit.{Advance, advance, failure}

-- a child that is observed: its kind, and the mapping that the summary records of it
pub record Observation : Type 0 where
  pub kind : StateKind
  pub summary : Json

-- `str(join.get("condition", ""))` of a text
unfoldable pub condition_of : Members → String
condition_of join = elim (get "condition" join) [ str s ↦ s | _ ↦ "" ]

changed : Marker → Step Bool
changed moved = pure true

advance_to : Host → Marker → JobDefinition → StateFrame → List Json → String → Json → Step Bool
unfolding changed
advance_to h marker job state summary reason step = of (validate_step step) >>= λ next_step.
    of (Read.resources state) >>= λ resources.
    (advance h marker job state (record {
      next_step = next_step;
      progress = carried state;
      reason = reason;
      join_summary = some summary;
      resources = resources;
      priority = none;
    })
      >>= changed)

-- `isinstance(on_impossible, Mapping) and on_impossible.get("action") == "advance"`
advances_when_impossible : Members → Option Members
advances_when_impossible join = elim (as_mapping (get "on_impossible" join)) [
  | none ↦ none
  | some on_impossible ↦
      if is_str "advance" (get "action" on_impossible) then some on_impossible else none
]

impossible_step :
    Option Members → Host → Marker → JobDefinition → StateFrame → List Json → Step Bool
unfolding advance_to
impossible_step (some on_impossible) h marker job state summary =
    advance_to h marker job state summary "join_impossible" (get "next_step" on_impossible)
impossible_step none h marker job state summary =
    move h marker failed
      (replace (carried state) (
        (Member.failure, failure "dependency_failure" "join condition became impossible" none)
        ∷ (Member.join_summary, arr (items summary))
        ∷ (Member.reason, str "join_impossible")
        ∷ []))
      none
    >>= changed

decide : Verdict → Members → Host → Marker → JobDefinition → StateFrame → List Json → Step Bool
unfolding impossible_step advances_when_impossible
decide join_blocked join h marker job state summary = pure false
decide join_satisfied join h marker job state summary =
    advance_to h marker job state summary "join_satisfied" (get "next_step" state)
decide join_impossible join h marker job state summary =
    impossible_step (advances_when_impossible join) h marker job state summary

-- `evaluate`, once every child is observed
unfoldable pub evaluate :
    Host → Marker → JobDefinition → StateFrame → Members → List Observation → Step Bool
unfolding decide
evaluate h marker job state join observations =
    of (classify (condition_of join) join (map (λ o. o.kind) observations)) >>= λ verdict.
    decide verdict join h marker job state (map (λ o. o.summary) observations)

-- what `_evaluate_joins` does with a join that raises
pub data Handled : Type 0 where
  ignored failed_waiting reported escapes : Handled

unfoldable pub handler_of : Raised → Handled
handler_of transition_lost_error = ignored
handler_of format_error = failed_waiting
handler_of e = if is_workflow_or_os e then reported else escapes
