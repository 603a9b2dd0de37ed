-- ===== src/Manager/Deferral.antt =====
-- manager.py: `_transition`, through which every manager moves a job. A pause that an operator asked
-- for while an attempt was under way takes effect at the next state in which the job rests.
pub mod Laws
use httk_workflow.Base.{
  ℤ, String, Bool, true, false, not, ◌&&◌, ◌||◌, Option, none, some, List, [], ◌∷◌, if◌then◌else◌,
  or_else,
}
use httk_workflow.Errors.{Result, ok, err, or_fallback, format_error}
use httk_workflow.Json.{Json, str, Members, get, has_key, remove}
use httk_workflow.Kinds.{
  StateKind, ready, waiting, paused, committing, cancelling, succeeded, failed, cancelled,
  same_kind,
}
use httk_workflow.Marker.{Marker}
use httk_workflow.Frame.{StateFrame, Member, replace, operator, operator_reason, request_id, reason}
use httk_workflow.Frame.Read
use httk_workflow.World.{Host, World, Step, ◌>>=◌, of}
use httk_workflow.Workspace.{read_state, transition}

-- `{"ready", "waiting"}`
abbrev pub is_queued : StateKind → Bool
is_queued ready = true
is_queued waiting = true
is_queued _ = false

-- `{*TERMINAL_KINDS, "cancelling"}`
abbrev pub is_ending : StateKind → Bool
is_ending succeeded = true
is_ending failed = true
is_ending cancelled = true
is_ending cancelling = true
is_ending _ = false

-- the members that a deferred pause sets
abbrev pub pause_members : Members → List (Member × Json)
pause_members request =
    (operator, get "operator" request)
    ∷ (operator_reason, get "reason" request)
    ∷ (request_id, get "request_id" request)
    ∷ (reason, str "operator_pause_deferred")
    ∷ []

-- the frame that says whether a pause is requested: the updates, or else the current one
unfoldable pub request_source : Bool → Bool → Option StateFrame → StateFrame → StateFrame
request_source true looks current updates = updates
request_source false true (some frame) updates = frame
request_source false _ _ updates = updates

-- a move to ready or waiting while the member is present
queued_pause : Option Members → StateKind → StateKind → StateFrame → Result (StateKind × StateFrame)
queued_pause none from kind retained = ok (kind, retained)
queued_pause (some request) from kind retained =
    if same_kind from committing && not (has_key "process" retained)
    then err format_error
    else ok (paused, replace retained (pause_members request))

-- a move to paused while the member is present
settled_pause : Option Members → StateFrame → StateFrame
settled_pause none retained = retained
settled_pause (some request) retained = replace retained (pause_members request)

deferred : StateKind → StateKind → StateFrame → StateFrame → Result (StateKind × StateFrame)
unfolding queued_pause settled_pause
deferred from kind updates source =
    if is_queued kind && has_key "pause_requested" source
    then queued_pause (Read.pause_requested source) from kind (remove "pause_requested" updates)
    else if same_kind kind paused && has_key "pause_requested" source
    then ok (kind, settled_pause (Read.pause_requested source) (remove "pause_requested" updates))
    else if is_ending kind && has_key "pause_requested" updates
    then ok (kind, remove "pause_requested" updates)
    else ok (kind, updates)

-- from which kind, to which kind, the updates, and the current frame where it can be read
unfoldable pub defer :
    StateKind → StateKind → StateFrame → Option StateFrame → Result (StateKind × StateFrame)
unfolding deferred request_source
defer from kind updates current = deferred from kind updates (
    request_source (has_key "pause_requested" updates) (is_queued kind || same_kind kind paused)
      current updates)

readable : Result Members → Option StateFrame
readable (ok frame) = some frame
readable (err _) = none

unfoldable pub move : Host → Marker → StateKind → StateFrame → Option ℤ → Step Marker
unfolding readable
move h marker kind updates priority w =
    (do
      (to, members) ← of (defer marker.kind kind updates (readable (read_state marker w)))
      transition h marker to members priority false)
      w
