-- ===== src/Workspace/ReadBack.antt =====
-- The frame that a transition writes is the frame that the moved marker reads.
use httk_workflow.Base.{
  ◌+◌, ◌≡◌, refl, ap, ℤ, String, Bool, true, false, Option, none, some, str_eq, eq_iff, or_else,
  arith,
}
use httk_workflow.Errors.{ok}
use httk_workflow.Json.{
  null, Members, end, field, update, insert, lookup, lookup-insert, get, is_str, is_int,
}
use httk_workflow.Kinds.{StateKind, kind_name}
use httk_workflow.Marker.{Marker}
use httk_workflow.Resources.{find}
use httk_workflow.World.{Host, World}
use httk_workflow.Workspace.Race.{transition-eq-ok}
use httk_workflow.Workspace.{
  moved_to, transition, read_state, checked, read_record, agrees, envelope,
}

-- A dictionary that lacks a name leaves the name as it was.
lookup-update_absent :
    (k : String) (r m : Members) → lookup k r ≡ none → lookup k (update m r) ≡ lookup k m
unfolding update lookup
lookup-update_absent k end m h = refl
lookup-update_absent k (field j v r) m h =
    ground (arith, lookup-update_absent k r (insert j v m), lookup-insert j k v m)

-- the updates leave the members that a read compares
abbrev pub LeavesEnvelope : Members → Type 0
LeavesEnvelope updates =
    (lookup "format" updates ≡ none)
    × (lookup "format_version" updates ≡ none)
    × (lookup "workspace_id" updates ≡ none)
    × (lookup "job_key" updates ≡ none)
    × (lookup "state_generation" updates ≡ none)
    × (lookup "kind" updates ≡ none)

get-update_absent : (k : String) (r m : Members) → lookup k r ≡ none → get k (update m r) ≡ get k m
unfolding get
get-update_absent k r m h =
    ap (λ o. elim o [ none ↦ null | some v ↦ v ]) (lookup-update_absent k r m h)

str_refl : (s : String) → str_eq s s ≡ true
str_refl s = (eq_iff s s).1 refl

module _ (workspace_id created_at : String) (m d : Marker) (kind : StateKind) (priority : ℤ)
    (updates : Members) where
  agrees-envelope :
      LeavesEnvelope updates
      → d.kind ≡ kind
      → d.job_key ≡ m.job_key
      → d.generation ≡ m.generation + 1
      → agrees workspace_id d
          (update (envelope workspace_id m kind priority (m.generation + 1) created_at) updates)
        ≡ true
  unfolding agrees envelope get lookup is_str is_int
  agrees-envelope (f, v, i, j, g, k) same key next =
      let base = envelope workspace_id m kind priority (m.generation + 1) created_at in
      rw
        (
          same,
          key,
          next,
          get-update_absent "format" updates base f,
          get-update_absent "format_version" updates base v,
          get-update_absent "workspace_id" updates base i,
          get-update_absent "job_key" updates base j,
          get-update_absent "state_generation" updates base g,
          get-update_absent "kind" updates base k,
          str_refl workspace_id,
          str_refl m.job_key,
          str_refl (kind_name kind),
        )
        (ground arith)

-- After a transition that succeeds, reading the state of the moved marker gives exactly the frame
-- that was written: the envelope of the new generation and kind, then the updates. The updates must
-- leave the six members that a read compares with the marker, and a new record is not named `init`.
pub read_state-transition :
    (h : Host) (m : Marker) (kind : StateKind) (updates : Members) (priority : Option ℤ)
    (allow_sealed : Bool) (w w' : World) (moved : Marker)
    → LeavesEnvelope updates
    → str_eq (h.record_ref w.tick) "init" ≡ false
    → transition h m kind updates priority allow_sealed w ≡ (ok moved, w')
    → read_state moved w'
      ≡ ok (
          update
            (envelope w.workspace_id m kind
              (or_else priority m.priority)
              (m.generation + 1)
              (h.utc_now w.tick))
            updates)
unfolding read_state moved_to checked read_record find agrees update
read_state-transition h m kind updates priority allow_sealed w w' moved leaves named e =
    let (same, _, journal, id) =
      transition-eq-ok h m kind updates priority allow_sealed w w' moved e in
    let agree =
      agrees-envelope w.workspace_id (h.utc_now w.tick) m moved kind (or_else priority m.priority)
        updates leaves (ap (λ x. x.kind) same) (ap (λ x. x.job_key) same)
        (ap (λ x. x.generation) same) in
    let ref : moved.record_ref ≡ h.record_ref w.tick = ap (λ x. x.record_ref) same in
    rw (ref, named, journal, id, str_refl (h.record_ref w.tick), agree)
