-- ===== src/Journal/Log.antt =====
-- journal.py: what a writer keeps on disk, as a log of payloads, and that its append implements
-- one step of the log.
use httk_workflow.Base.{
  sym, ap, ◌-◌, ℕ, suc, ◌+◌, ◌^◌, ◌<◌, ◌≡◌, refl, Bool, true, false, Bool-cases, inl, inr, some,
  List, [], ◌∷◌, ◌++◌, length, ltb, arith, length-append, if◌then◌else◌,
}
use mathlib.Core.Path.{subst}
use mathlib.Core.List.{append_assoc, append-nil}
use httk_workflow.Errors.{Result, ok, err}
use httk_workflow.Json.{Members}
use httk_workflow.Names.RecordRef.{encode_record_ref}
use httk_workflow.Names.Text.{Text, text_eq_refl}
use httk_workflow.Journal.{
  Bytes, Codec, File, holds, Segments, segment_header, frame_bytes, frame_digest,
}
use httk_workflow.Journal.Writer.{
  JournalWriter, and_then, stored, grown, created, open_segment, close, tell, next_segment,
  fits_segment, rotated, rotate_if_needed, written, put_frame, append,
}

-- the frames of some payloads, one after the other
unfoldable pub frames : Codec → List Bytes → Bytes
frames c [] = []
frames c (p ∷ ps) = frame_bytes c p ++ frames c ps

pub frames-append :
    (c : Codec) (ps : List Bytes) (p : Bytes)
    → frames c (ps ++ p ∷ []) ≡ frames c ps ++ frame_bytes c p
unfolding frames
frames-append c [] p = append-nil (frame_bytes c p)
frames-append c (q ∷ ps) p = rw (frames-append c ps p) (rw append_assoc refl)

-- The open segment holds these payloads, and the handle stands at its end.
pub record Records (c : Codec) (j : JournalWriter) (ps : List Bytes) : Type 0 where
  pub held : j.disk j.writer_id j.segment_number ≡ holds (segment_header ++ frames c ps)
  pub at_end : j.handle ≡ some (12 + length (frames c ps))
  pub numbered : j.segment_number < 2 ^ 32

-- Whether the segment with these payloads takes one more; a segment with none takes any.
unfoldable pub has_room : Codec → ℕ → List Bytes → Bytes → Bool
has_room c maximum ps p =
    fits_segment (12 + length (frames c ps)) (length (frame_bytes c p)) maximum

-- the payloads of the open segment after one more
unfoldable pub logged : Codec → ℕ → List Bytes → Bytes → List Bytes
logged c maximum ps p = if has_room c maximum ps p then ps ++ p ∷ [] else p ∷ []

stored_self : (w : Text) (n : ℕ) (file : File) (disk : Segments) → stored w n file disk w n ≡ file
unfolding stored
stored_self w n file disk = ground (arith, text_eq_refl w)

pub open_segment-ok :
    (n : ℕ) (j j' : JournalWriter)
    → open_segment n j ≡ (ok tt, j')
    → (j' ≡ (created n j).1) × (n < 2 ^ 32)
unfolding open_segment created
open_segment-ok n j j' h = elim (Bool-cases (ltb (2 ^ 32 - 1) n)) [
  | inl exhausted ↦ ground arith
  | inr fine ↦ ground arith
]

pub created-Records :
    (c : Codec) (n : ℕ) (j : JournalWriter)
    → j.segment_number ≡ n
    → n < 2 ^ 32
    → Records c (created n j).1 []
unfolding created frames
created-Records c n j e h = record {
  held = rw e (stored_self j.writer_id n (holds segment_header) j.disk);
  at_end = refl;
  numbered = rw e h;
}

put_frame-done :
    (c : Codec) (p : Bytes) (j : JournalWriter) (position : ℕ)
    → j.handle ≡ some position
    → put_frame c p j ≡ (
      ok (encode_record_ref j.writer_id j.segment_number position (length p) (frame_digest c p)),
      written position (frame_bytes c p) j,
    )
unfolding put_frame
put_frame-done c p j position h = rw h refl

pub written-Records :
    (c : Codec) (j : JournalWriter) (ps : List Bytes) (p : Bytes)
    → Records c j ps
    → Records c (written (12 + length (frames c ps)) (frame_bytes c p) j) (ps ++ p ∷ [])
unfolding written
written-Records c j ps p h = record {
  held =
      rw (stored_self j.writer_id j.segment_number _ j.disk)
        (rw (h.held, grown) (rw (frames-append c ps p) (rw append_assoc refl)));
  at_end =
      rw (frames-append c ps p)
        (ap some (omega (arith, length-append (frames c ps) (frame_bytes c p))));
  numbered = h.numbered;
}

-- What the writing of a frame behind these payloads returns, and the writer after it.
abbrev pub Wrote : Codec → Bytes → JournalWriter → List Bytes → Text → JournalWriter → Type 0
Wrote c p base qs ref j' =
    (ref
      ≡ encode_record_ref base.writer_id base.segment_number (12 + length (frames c qs)) (length p)
          (frame_digest c p))
    × (j' ≡ written (12 + length (frames c qs)) (frame_bytes c p) base)

put_frame-ok :
    (c : Codec) (p : Bytes) (base : JournalWriter) (qs : List Bytes)
    → Records c base qs
    → {ref : Text} {j' : JournalWriter} → put_frame c p base ≡ (ok ref, j')
    → Wrote c p base qs ref j'
put_frame-ok c p base qs h e =
    let done = put_frame-done c p base (12 + length (frames c qs)) h.at_end in (cc, cc)

module _ (c : Codec) (j : JournalWriter) (ps : List Bytes) (h : Records c j ps) where
  unfoldable pub fresh : JournalWriter
  fresh = record (close j) { segment_number = suc j.segment_number }

  -- The segment has room: nothing is done before the frame is written.
  append-room :
      (r : Members)
      → has_room c j.maximum_segment_bytes ps (c.json_bytes r) ≡ true
      → append c r j ≡ put_frame c (c.json_bytes r) j
  unfolding append rotate_if_needed rotated tell has_room
  append-room r room = rw h.at_end (rw room refl)

  -- It has none: the frame becomes the first of a new segment.
  append-full :
      (r : Members)
      → has_room c j.maximum_segment_bytes ps (c.json_bytes r) ≡ false
      → append c r j
        ≡ and_then (open_segment (suc j.segment_number) fresh) (λ _. put_frame c (c.json_bytes r))
  unfolding append rotate_if_needed rotated tell has_room next_segment fresh
  append-full r full = rw h.at_end (rw full refl)

  -- The writer to which a frame is written, and the payloads that its open segment held: this one,
  -- or one that has opened the next segment.
  pub data Target (p : Bytes) : JournalWriter → List Bytes → Type 0 where
    here : has_room c j.maximum_segment_bytes ps p ≡ true → Target p j ps
    next :
        has_room c j.maximum_segment_bytes ps p ≡ false
        → suc j.segment_number < 2 ^ 32
        → Target p (created (suc j.segment_number) fresh).1 []

  pub Target-Records :
      (p : Bytes) {base : JournalWriter} {qs : List Bytes} → Target p base qs → Records c base qs
  unfolding fresh
  Target-Records p (here room) = h
  Target-Records p (next full n) = created-Records c (suc j.segment_number) fresh refl n

  -- What an append that returns has done.
  abbrev pub Appended : Bytes → Text → JournalWriter → Type 0
  Appended p ref j' =
      (base : JournalWriter) × (qs : List Bytes) × Target p base qs × Wrote c p base qs ref j'

  pub append-ok :
      (r : Members) {ref : Text} {j' : JournalWriter}
      → append c r j ≡ (ok ref, j')
      → Appended (c.json_bytes r) ref j'
  append-ok r {ref} {j'} e =
      elim (Bool-cases (has_room c j.maximum_segment_bytes ps (c.json_bytes r))) [
        | inl room ↦ (
          j,
          ps,
          here room,
          put_frame-ok c (c.json_bytes r) j ps h (rw (append-room r room) at e),
        )
        | inr full ↦
            open_file (open_segment (suc j.segment_number) fresh) refl full
              (rw (append-full r full) at e)
      ]
    where
      open_file :
          (o : Result (Unit {0}) × JournalWriter)
          → open_segment (suc j.segment_number) fresh ≡ o
          → has_room c j.maximum_segment_bytes ps (c.json_bytes r) ≡ false
          → and_then o (λ _. put_frame c (c.json_bytes r)) ≡ (ok ref, j')
          → Appended (c.json_bytes r) ref j'
      open_file (err x, v) o full a = cc
      open_file (ok u, v) o full a =
          let (base_is, n) = open_segment-ok (suc j.segment_number) fresh v o in
          let target : Target (c.json_bytes r) v [] =
            subst (λ (w : JournalWriter). Target (c.json_bytes r) w []) (sym base_is)
              (next full n) in
          (
            v,
            [],
            target,
            put_frame-ok c (c.json_bytes r) v [] (Target-Records (c.json_bytes r) target) a,
          )
