-- ===== src/Manager/Deferral/Laws.antt =====
-- A requested pause is neither lost nor kept beyond the state in which it takes effect.
use httk_workflow.Base.{
  ◌≡◌, refl, ◌∙◌, String, Bool, true, false, not, ◌&&◌, ◌||◌, Option, none, some, arith,
}
use httk_workflow.Errors.{ok}
use httk_workflow.Json.{str, Members, get, has_key, lookup, remove, lookup-remove}
use httk_workflow.Kinds.{StateKind, paused, committing, same_kind}
use httk_workflow.Frame.{StateFrame, replace, mapping_member, Member, operator, request_id, reason}
use httk_workflow.Frame.Read
use httk_workflow.Frame.Laws.{lookup-replace}
use httk_workflow.Manager.Deferral.{
  is_queued, is_ending, pause_members, request_source, queued_pause, settled_pause, deferred, defer,
}

-- a state in which no attempt of the job is under way
abbrev pub at_rest : StateKind → Bool
at_rest kind = is_queued kind || same_kind kind paused || is_ending kind

removed_absent : (m : Members) → lookup "pause_requested" (remove "pause_requested" m) ≡ none
removed_absent m = lookup-remove "pause_requested" "pause_requested" m

replaced_absent :
    (m : Members) (request : Members)
    → lookup "pause_requested" (replace (remove "pause_requested" m) (pause_members request)) ≡ none
replaced_absent m request =
    lookup-replace Member.pause_requested (remove "pause_requested" m) (pause_members request)
    ∙ removed_absent m

absent_key : (k : String) (m : Members) → has_key k m ≡ false → lookup k m ≡ none
unfolding has_key
absent_key k m h = ground arith

queued_absent :
    (o : Option Members) (from kind k : StateKind) (updates u : StateFrame)
    → queued_pause o from kind (remove "pause_requested" updates) ≡ ok (k, u)
    → lookup "pause_requested" u ≡ none
unfolding queued_pause
queued_absent none from kind k updates u e = ground (arith, removed_absent updates)
queued_absent (some request) from kind k updates u e =
    ground (arith, replaced_absent updates request)

settled_absent :
    (o : Option Members) (updates : StateFrame)
    → lookup "pause_requested" (settled_pause o (remove "pause_requested" updates)) ≡ none
unfolding settled_pause
settled_absent none updates = removed_absent updates
settled_absent (some request) updates = replaced_absent updates request

deferred_absent :
    (from kind k : StateKind) (updates u source : StateFrame)
    → (has_key "pause_requested" source ≡ false → has_key "pause_requested" updates ≡ false)
    → deferred from kind updates source ≡ ok (k, u)
    → at_rest k ≡ true
    → lookup "pause_requested" u ≡ none
unfolding deferred
deferred_absent from kind k updates u source sees e rest = ground (
  arith,
  queued_absent (Read.pause_requested source) from kind k updates u,
  settled_absent (Read.pause_requested source) updates,
  removed_absent updates,
  absent_key "pause_requested" updates,
)

-- No frame that is written for a job that becomes ready, waiting, paused, cancelling or terminal
-- carries a pause request.
pub pause_requested-defer :
    (from kind k : StateKind) (updates u : StateFrame) (current : Option StateFrame)
    → defer from kind updates current ≡ ok (k, u)
    → at_rest k ≡ true
    → lookup "pause_requested" u ≡ none
unfolding defer deferred request_source
pause_requested-defer from kind k updates u current e rest =
    let looks = is_queued kind || same_kind kind paused in
    deferred_absent from kind k updates u
      (request_source (has_key "pause_requested" updates) looks current updates)
      (seen (has_key "pause_requested" updates) looks current updates refl) e rest
  where
    seen :
        (has looks : Bool) (c : Option StateFrame) (v : StateFrame)
        → has_key "pause_requested" v ≡ has
        → has_key "pause_requested" (request_source has looks c v) ≡ false
        → has_key "pause_requested" v ≡ false
    seen true looks c v h g = g
    seen false looks c v h g = h

-- the frame that holds the request when a job is put into a queue
abbrev pub request_holder : StateFrame → Option StateFrame → StateFrame
request_holder updates current =
    request_source (has_key "pause_requested" updates) true current updates

present :
    (frame : StateFrame) (request : Members)
    → Read.pause_requested frame ≡ some request
    → has_key "pause_requested" frame ≡ true
unfolding Read.pause_requested mapping_member has_key get
present frame request h = ground arith

-- A job with a requested pause that would become ready or waiting becomes paused, for the operator
-- and the request that asked for it. A commit is only moved so with its process recorded.
pub defer-requested :
    (from kind k : StateKind) (updates u request : StateFrame) (current : Option StateFrame)
    → is_queued kind ≡ true
    → Read.pause_requested (request_holder updates current) ≡ some request
    → defer from kind updates current ≡ ok (k, u)
    → (k ≡ paused)
      × (lookup "request_id" u ≡ some (get "request_id" request))
      × (lookup "operator" u ≡ some (get "operator" request))
      × (lookup "reason" u ≡ some (str "operator_pause_deferred"))
      × ((same_kind from committing && not (has_key "process" u)) ≡ false)
unfolding defer deferred queued_pause
defer-requested from kind k updates u request current q r e =
    let source = request_holder updates current in
    let has = present source request r in
    let result : queued_pause (some request) from kind (remove "pause_requested" updates)
        ≡ ok (k, u) =
      rw (q, has, r) at e in
    let retained = remove "pause_requested" updates in
    let same_process : has_key "process" (replace retained (pause_members request))
        ≡ has_key "process" retained =
      (unfold has_key in
        ground (arith, lookup-replace Member.process retained (pause_members request))) in
    ground (
      arith,
      same_process,
      lookup-replace request_id retained (pause_members request),
      lookup-replace operator retained (pause_members request),
      lookup-replace reason retained (pause_members request),
    )
