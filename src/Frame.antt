-- ===== src/Frame.antt =====
-- models.py: `StateFrame`, the members of one state frame, and its typed accessors.
-- A frame is held as on disk. Every member that the managers write is one of the declared keywords.
pub mod Laws
pub mod Read
use httk_workflow.Base.{
  ℤ, String, Bool, true, false, Option, none, some, List, [], ◌∷◌, str_eq, if◌then◌else◌, map, ◌++◌,
  ◌||◌,
}
use httk_workflow.Errors.{Result, ok, err, ◌>>=◌, format_error}
use httk_workflow.Json.{
  Json, null, bool, int, str, obj, Members, end, field, lookup, insert, has_key, get, as_int,
  as_mapping, as_text, require_mapping,
}
use httk_workflow.Json.Numbers.{codes}

-- the keywords of `StateFrame.replace`
pub data Member : Type 0 where
  step activation_id activation_ordinal attempt_id attempt_ordinal total_attempts : Member
  data_generation resources join_summary runner_steps manager_id writer_id : Member
  claim_id attempt_control lease_seconds matched_pool matched_capabilities process : Member
  started_at workdir outcome_action child_digests child_labels next_step : Member
  join pause pause_requested failure job_digest join_unresolved : Member
  unclean_restart unsafe_persistent_takeover takeover_evidence cancellation previous_attempt_id
        operator :
      Member
  operator_key operator_reason request_id revival_hazard reason : Member

abbrev pub member_name : Member → String
member_name step = "step"
member_name activation_id = "activation_id"
member_name activation_ordinal = "activation_ordinal"
member_name attempt_id = "attempt_id"
member_name attempt_ordinal = "attempt_ordinal"
member_name total_attempts = "total_attempts"
member_name data_generation = "data_generation"
member_name resources = "resources"
member_name join_summary = "join_summary"
member_name runner_steps = "runner_steps"
member_name manager_id = "manager_id"
member_name writer_id = "writer_id"
member_name claim_id = "claim_id"
member_name attempt_control = "attempt_control"
member_name lease_seconds = "lease_seconds"
member_name matched_pool = "matched_pool"
member_name matched_capabilities = "matched_capabilities"
member_name process = "process"
member_name started_at = "started_at"
member_name workdir = "workdir"
member_name outcome_action = "outcome_action"
member_name child_digests = "child_digests"
member_name child_labels = "child_labels"
member_name next_step = "next_step"
member_name join = "join"
member_name pause = "pause"
member_name pause_requested = "pause_requested"
member_name failure = "failure"
member_name job_digest = "job_digest"
member_name join_unresolved = "join_unresolved"
member_name unclean_restart = "unclean_restart"
member_name unsafe_persistent_takeover = "unsafe_persistent_takeover"
member_name takeover_evidence = "takeover_evidence"
member_name cancellation = "cancellation"
member_name previous_attempt_id = "previous_attempt_id"
member_name operator = "operator"
member_name operator_key = "operator_key"
member_name operator_reason = "operator_reason"
member_name request_id = "request_id"
member_name revival_hazard = "revival_hazard"
member_name reason = "reason"

-- the tuple `written`
abbrev pub vocabulary : List Member
vocabulary =
    step ∷ activation_id ∷ activation_ordinal ∷ attempt_id ∷ attempt_ordinal ∷ total_attempts
    ∷ data_generation ∷ resources ∷ join_summary ∷ runner_steps ∷ manager_id ∷ writer_id ∷ claim_id
    ∷ attempt_control ∷ lease_seconds ∷ matched_pool ∷ matched_capabilities ∷ process ∷ started_at
    ∷ workdir ∷ outcome_action ∷ child_digests ∷ child_labels ∷ next_step ∷ join ∷ pause
    ∷ pause_requested ∷ failure ∷ job_digest ∷ join_unresolved ∷ unclean_restart
    ∷ unsafe_persistent_takeover ∷ takeover_evidence ∷ cancellation ∷ previous_attempt_id ∷ operator
    ∷ operator_key ∷ operator_reason ∷ request_id ∷ revival_hazard ∷ reason ∷ []

abbrev pub StateFrame : Type 0
StateFrame = Members

-- the keyword arguments of one call; a keyword that is not given is UNSET
abbrev pub keywords : List (Member × Json) → Member → Option Json
keywords [] m = none
keywords ((k, v) ∷ rest) m =
    if str_eq (member_name k) (member_name m) then some v else keywords rest m

set_given : Option Json → Member → Members → Members
set_given none m members = members
set_given (some v) m members = insert (member_name m) v members

-- `for name, value in written: if value is not _UNSET: members[name] = value`
write : List Member → (Member → Option Json) → Members → Members
unfolding set_given
write [] given members = members
write (m ∷ ms) given members = write ms given (set_given (given m) m members)

unfoldable pub replace : StateFrame → List (Member × Json) → StateFrame
unfolding write
replace base given = write vocabulary (keywords given) base

-- CARRIED_STATE_MEMBERS
abbrev pub carried_state_members : List String
carried_state_members = map member_name (
    step ∷ activation_id ∷ activation_ordinal ∷ attempt_id ∷ attempt_ordinal ∷ total_attempts
    ∷ data_generation ∷ resources ∷ join_summary ∷ pause_requested ∷ runner_steps ∷ [])

select_into : Members → List String → Members → Members
select_into acc [] members = acc
select_into acc (n ∷ ns) members =
    select_into (elim (lookup n members) [ none ↦ acc | some v ↦ insert n v acc ]) ns members

-- `{name: self.members[name] for name in names if name in self.members}`
unfoldable pub select : List String → StateFrame → StateFrame
unfolding select_into
select names frame = select_into end names frame

unfoldable pub carried : StateFrame → StateFrame
carried frame = select carried_state_members frame

-- the reads `_string`, `_integer`, `_mapping` and `_flag`
unfoldable pub string_member : String → StateFrame → Option String
string_member name frame = elim (get name frame) [
  | str s ↦ if str_eq s "" then none else some s
  | _ ↦ none
]

unfoldable pub integer_member : String → StateFrame → Option ℤ
integer_member name frame = as_int (get name frame)

unfoldable pub mapping_member : String → StateFrame → Option Members
mapping_member name frame = as_mapping (get name frame)

unfoldable pub flag_member : String → StateFrame → Bool
flag_member name frame = elim (get name frame) [ bool b ↦ b | _ ↦ false ]

-- `StateFrame.from_mapping`
unfoldable pub from_mapping : Json → Result StateFrame
from_mapping value = require_mapping value
