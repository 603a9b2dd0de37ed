-- ===== src/Tests/Joins.antt =====
-- Joins of two and three children.
use httk_workflow.Base.{◌≡◌, refl, pos, true, false, [], ◌∷◌}
use httk_workflow.Errors.{ok, err, type_error}
use httk_workflow.Json.{Json, int, str, null, Members, end, field}
use httk_workflow.Kinds.{running, succeeded, failed}
use httk_workflow.Joins.{
  classify, satisfied, count_of, join_satisfied, join_impossible, join_blocked,
}
use httk_workflow.Joins.Future.{Future, best, over, stays, moves}
use httk_workflow.Joins.Outcome.{impossible_final, satisfied_final, blocked_open}
use httk_workflow.Manager.Joins.{Observation, condition_of}

abbrev two_of_three : Members
two_of_three = field "count" (int (pos 2)) end

never : classify "at_least" two_of_three (succeeded ∷ failed ∷ failed ∷ []) ≡ ok join_impossible
unfolding classify count_of
never = refl

impossible_final_example :
    satisfied "at_least" two_of_three (succeeded ∷ failed ∷ failed ∷ []) ≡ ok false
impossible_final_example =
    impossible_final "at_least" two_of_three never
      (stays succeeded (stays failed (stays failed over)))

yet : classify "at_least" two_of_three (succeeded ∷ succeeded ∷ running ∷ []) ≡ ok join_satisfied
unfolding classify count_of
yet = refl

satisfied_final_example :
    classify "at_least" two_of_three (succeeded ∷ succeeded ∷ failed ∷ []) ≡ ok join_satisfied
satisfied_final_example =
    satisfied_final "at_least" two_of_three yet
      (stays succeeded (stays succeeded (moves running failed refl over)))

open_still : classify "at_least" two_of_three (succeeded ∷ running ∷ failed ∷ []) ≡ ok join_blocked
unfolding classify count_of
open_still = refl

blocked_open_example :
    Future (succeeded ∷ running ∷ failed ∷ []) (best (succeeded ∷ running ∷ failed ∷ []))
    × (satisfied "at_least" two_of_three (best (succeeded ∷ running ∷ failed ∷ [])) ≡ ok true)
blocked_open_example =
    blocked_open "at_least" two_of_three (succeeded ∷ running ∷ failed ∷ []) (λ e. cc) open_still

abbrev bad_join : Members
bad_join = field "condition" (str "at_least") (field "count" null end)

abbrev child : Observation
child = record { kind = running; summary = null }

bad_condition : condition_of bad_join ≡ "at_least"
unfolding condition_of httk_workflow.Json.get
bad_condition = refl

bad_count : count_of bad_join ≡ err type_error
unfolding count_of
bad_count = refl
