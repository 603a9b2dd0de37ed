-- ===== src/Journal/Verify.antt =====
-- journal.py: verify_record, which reports what read_record raises.
use httk_workflow.Base.{Bool, List, [], ◌∷◌, Option, none, some, is_some, if◌then◌else◌}
use httk_workflow.Errors.{Result, ok, err}
use httk_workflow.Json.{Members}
use httk_workflow.Names.Text.{Text}
use httk_workflow.Names.RecordRef.{RecordRef, parse_record_ref}
use httk_workflow.Journal.{Codec, File, Segments}
use httk_workflow.Journal.Read.{FrameProblem, got, problem, fault, transient, read_ref, seen}

-- the codes that a verification reports
pub data Damage : Type 0 where
  invalid_record_ref unreadable_segment unreadable_frame : Damage
  frame_problem : FrameProblem → Damage

pub record RecordVerification : Type 0 where
  pub record_ref : Text
  pub frame : Option Members
  pub problem : Option Damage

-- the property `ok`
unfoldable pub is_verified : RecordVerification → Bool
is_verified v = is_some v.frame

verified : Text → Members → RecordVerification
verified r m = record { record_ref = r; frame = some m; problem = none }

damaged : Text → Damage → RecordVerification
damaged r d = record { record_ref = r; frame = none; problem = some d }

-- what is reported when the attempts are over, for the last problem that was met
given_up : Text → Option FrameProblem → RecordVerification
unfolding damaged
given_up r none = damaged r unreadable_frame
given_up r (some p) = damaged r (frame_problem p)

probes : Codec → Text → RecordRef → Option FrameProblem → List File → RecordVerification
unfolding given_up verified damaged transient read_ref
probes c r ref last [] = given_up r last
probes c r ref last (file ∷ later) = elim (read_ref c ref file) [
  | got m ↦ verified r m
  | fault ↦ damaged r unreadable_segment
  | problem p ↦
      let rest = probes c r ref (some p) later in if transient p then rest else given_up r (some p)
]

unfoldable pub verify_parsed : Codec → List Segments → Text → Result RecordRef → RecordVerification
unfolding damaged probes seen
verify_parsed c views r (err e) = damaged r invalid_record_ref
verify_parsed c views r (ok ref) = probes c r ref none (seen ref views)

unfoldable pub verify_record : Codec → List Segments → Text → RecordVerification
unfolding verify_parsed
verify_record c views r = verify_parsed c views r (parse_record_ref r)
