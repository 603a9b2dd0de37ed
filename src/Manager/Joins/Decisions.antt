-- ===== src/Manager/Joins/Decisions.antt =====
-- What the manager does with a join follows its verdict.
use httk_workflow.Base.{◌≡◌, refl, false, List, map}
use httk_workflow.Errors.{Raised, ok, err, type_error, value_error, is_workflow_or_os}
use httk_workflow.Json.{Members}
use httk_workflow.Marker.{Marker}
use httk_workflow.Job.{JobDefinition}
use httk_workflow.Frame.{StateFrame}
use httk_workflow.Joins.{classify, satisfied, count_of, join_blocked}
use httk_workflow.World.{Host, World}
use httk_workflow.Manager.Joins.{Observation, condition_of, evaluate, decide, handler_of, escapes}

module _ (h : Host) (marker : Marker) (job : JobDefinition) (state : StateFrame) (join : Members)
    (observations : List Observation) (w : World) where
  -- A join that is neither satisfied nor impossible changes nothing.
  pub evaluate-blocked :
      classify (condition_of join) join (map (λ o. o.kind) observations) ≡ ok join_blocked
      → evaluate h marker job state join observations w ≡ (ok false, w)
  unfolding evaluate decide
  evaluate-blocked b = rw b

  -- The join of a waiting job with the condition `at_least` and a count that `int` refuses raises
  -- what `int` raises, whatever its children are, and changes nothing. No handler of
  -- `_evaluate_joins` takes a TypeError or a ValueError.
  pub evaluate-count_error :
      (e : Raised)
      → condition_of join ≡ "at_least"
      → count_of join ≡ err e
      → (evaluate h marker job state join observations w ≡ (err e, w))
        × (handler_of type_error ≡ escapes)
        × (handler_of value_error ≡ escapes)
  unfolding evaluate classify satisfied handler_of is_workflow_or_os
  evaluate-count_error e c n = (rw (c, n), refl, refl)
