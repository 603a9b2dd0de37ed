-- ===== src/Workspace/Prepared.antt =====
-- What a transition has written when it comes to the rename.
use httk_workflow.Base.{suc, ◌+◌, ◌≡◌, ℤ, Bool, Option, ◌∷◌, or_else, arith}
use httk_workflow.Errors.{ok}
use httk_workflow.Json.{Members, update}
use httk_workflow.Kinds.{StateKind}
use httk_workflow.Marker.{Marker}
use httk_workflow.World.{Host, World}
use httk_workflow.Workspace.{require_unsealed, append, moved_to, prepare, record_state, envelope}

module _ (h : Host) (m : Marker) (kind : StateKind) (updates : Members) (priority : Option ℤ)
    (allow_sealed : Bool) where
  -- Nothing is moved before the rename.
  pub prepare-markers :
      (w : World) → (prepare h m kind updates priority allow_sealed w).1.markers ≡ w.markers
  unfolding prepare require_unsealed record_state append
  prepare-markers w = ground arith

  abbrev pub target : World → Marker
  target w = moved_to m kind (or_else priority m.priority) (h.record_ref w.tick)

  abbrev pub frame_for : World → Members
  frame_for w =
      update
        (envelope w.workspace_id m kind (or_else priority m.priority) (m.generation + 1)
          (h.utc_now w.tick))
        updates

  abbrev pub recorded : World → World
  recorded w = record w {
    journal = (h.record_ref w.tick, ok (frame_for w)) ∷ w.journal;
    tick = suc w.tick;
  }

  pub prepare-eq-ok :
      (w v : World) (d : Marker)
      → prepare h m kind updates priority allow_sealed w ≡ (ok d, v)
      → (d ≡ target w) × (v ≡ recorded w)
  unfolding prepare require_unsealed record_state append
  prepare-eq-ok w v d e = ground arith
  -- A preparation that raises has at most added to the journal.
