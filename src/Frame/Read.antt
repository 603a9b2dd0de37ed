-- ===== src/Frame/Read.antt =====
-- The typed accessors of a state frame.
use httk_workflow.Base.{ℤ, String, Bool, Option, none, some}
use httk_workflow.Errors.{Result, ok, ◌>>=◌}
use httk_workflow.Json.{Json, null, str, Members, as_int, get}
use httk_workflow.Names.Uuid.{canonical_uuid}
use httk_workflow.Resources.{Resources, validate_resources}
use httk_workflow.Frame.{StateFrame, string_member, integer_member, mapping_member, flag_member}

unfoldable pub step : StateFrame → Option String
step frame = string_member "step" frame

unfoldable pub activation_id : StateFrame → Option String
activation_id frame = string_member "activation_id" frame

unfoldable pub attempt_id : StateFrame → Option String
attempt_id frame = string_member "attempt_id" frame

unfoldable pub started_at : StateFrame → Option String
started_at frame = string_member "started_at" frame

unfoldable pub workdir : StateFrame → Option String
workdir frame = string_member "workdir" frame

unfoldable pub next_step : StateFrame → Option String
next_step frame = string_member "next_step" frame

unfoldable pub previous_attempt_id : StateFrame → Option String
previous_attempt_id frame = string_member "previous_attempt_id" frame

unfoldable pub reason : StateFrame → Option String
reason frame = string_member "reason" frame

unfoldable pub activation_ordinal : StateFrame → Option ℤ
activation_ordinal frame = integer_member "activation_ordinal" frame

unfoldable pub attempt_ordinal : StateFrame → Option ℤ
attempt_ordinal frame = integer_member "attempt_ordinal" frame

unfoldable pub total_attempts : StateFrame → Option ℤ
total_attempts frame = integer_member "total_attempts" frame

unfoldable pub data_generation : StateFrame → Option ℤ
data_generation frame = integer_member "data_generation" frame

unfoldable pub join_unresolved : StateFrame → Option Members
join_unresolved frame = mapping_member "join_unresolved" frame

unfoldable pub join : StateFrame → Option Members
join frame = mapping_member "join" frame

unfoldable pub failure : StateFrame → Option Members
failure frame = mapping_member "failure" frame

unfoldable pub pause_requested : StateFrame → Option Members
pause_requested frame = mapping_member "pause_requested" frame

unfoldable pub cancellation : StateFrame → Option Members
cancellation frame = mapping_member "cancellation" frame

unfoldable pub child_digests : StateFrame → Option Members
child_digests frame = mapping_member "child_digests" frame

unfoldable pub unclean_restart : StateFrame → Bool
unclean_restart frame = flag_member "unclean_restart" frame

unfoldable pub unsafe_persistent_takeover : StateFrame → Bool
unsafe_persistent_takeover frame = flag_member "unsafe_persistent_takeover" frame

unfoldable pub join_summary : StateFrame → Json
join_summary frame = get "join_summary" frame

unfoldable pub pause : StateFrame → Json
pause frame = get "pause" frame

unfoldable pub resources : StateFrame → Result (Option Resources)
resources frame = elim (get "resources" frame) [
  | null ↦ ok none
  | value ↦ do validated ← validate_resources value; ok (some validated)
]

-- a frame that does not name a canonical manager UUID is a protocol violation
unfoldable pub manager_id : StateFrame → Result (Option String)
manager_id frame = elim (string_member "manager_id" frame) [
  | none ↦ ok none
  | some value ↦ do id ← canonical_uuid (str value); ok (some id)
]

-- an integer lease; one with a fraction is not modelled
unfoldable pub lease_seconds : StateFrame → Option ℤ
lease_seconds frame = as_int (get "lease_seconds" frame)
