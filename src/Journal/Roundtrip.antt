-- ===== src/Journal/Roundtrip.antt =====
-- journal.py: the record that an append has written is read back by its reference.
use httk_workflow.Base.{
  ◌+◌, ◌^◌, ◌<◌, ◌≡◌, refl, ==_iff, true, some, List, [], ◌∷◌, ◌++◌, length, take, drop, arith,
  length-append,
}
use mathlib.Core.List.{append_assoc, append-nil}
use httk_workflow.Errors.{ok}
use httk_workflow.Json.{Members, obj}
use httk_workflow.Names.Text.{Text, text_eq, text_eq_refl}
use httk_workflow.Names.Uuid.{is_uuid}
use httk_workflow.Names.RecordRef.{
  RecordRef, all_bytes, hex, encode_record_ref, parse-encode_record_ref,
}
use httk_workflow.Journal.{
  Bytes, Codec, IsCodec, File, holds, segment_header, frame_bytes, frame_digest, pack,
}
use httk_workflow.Journal.Writer.{close, created, JournalWriter, append, written, fits_segment}
use httk_workflow.Journal.Read.{
  got, check_cut, frame_at, read_frame, read_ref, read_attempts, judged, parsed, seen, read_record,
}
use httk_workflow.Journal.Cuts.{length-pack, length-frame_digest, cut-frame, drop-prefix}
use httk_workflow.Journal.Grow.{HeaderStands, read_frame_of}
use httk_workflow.Journal.Log.{
  frames, frames-append, Records, has_room, logged, fresh, Target, here, next, Target-Records,
  append-ok, written-Records,
}

-- The writer after an append holds one payload more.
pub append-Records :
    (c : Codec) (j j' : JournalWriter) (ps : List Bytes) (r : Members) {ref : Text}
    → Records c j ps
    → append c r j ≡ (ok ref, j')
    → Records c j' (logged c j.maximum_segment_bytes ps (c.json_bytes r))
unfolding logged
append-Records c j j' ps r h e =
    let (base, qs, target, wrote) = append-ok c j ps h r e in
    logs wrote.1 target
      (written-Records c base qs (c.json_bytes r) (Target-Records c j ps h (c.json_bytes r) target))
  where
    logs :
        {base w : JournalWriter} {qs : List Bytes}
        → j' ≡ w
        → Target c j ps h (c.json_bytes r) base qs
        → Records c w (qs ++ c.json_bytes r ∷ [])
        → Records c j' (logged c j.maximum_segment_bytes ps (c.json_bytes r))
    logs e (here room) x = rw (e, logged) (rw room x)
    logs e (next full n) x = rw (e, logged) (rw full x)

module _ (c : Codec) (j : JournalWriter) (ps : List Bytes) (h : Records c j ps) (p : Bytes) where
  Target-writer :
      {base : JournalWriter} {qs : List Bytes}
      → Target c j ps h p base qs
      → base.writer_id ≡ j.writer_id
  unfolding fresh created close
  Target-writer (here room) = refl
  Target-writer (next full n) = refl

  Target-offset :
      {base : JournalWriter} {qs : List Bytes}
      → j.maximum_segment_bytes < 36 ^ 13
      → Target c j ps h p base qs
      → 12 + length (frames c qs) < 36 ^ 13
  unfolding has_room fits_segment frames
  Target-offset limit (here room) = ground arith
  Target-offset limit (next full n) = omega arith

module _ (c : Codec) (k : IsCodec c) where
  frame_digest-bytes : (p : Bytes) → all_bytes (frame_digest c p) ≡ true
  unfolding frame_digest
  frame_digest-bytes p = k.digest_bytes (pack (length p) ++ p)

  check_cut-frame :
      (p rest : Bytes) {m : Members}
      → c.json_loads p ≡ some (obj m)
      → check_cut c (length p) (hex (take 16 (frame_digest c p))) (record {
        length_bytes = pack (length p);
        len = length p;
        payload = p;
        checksum = frame_digest c p;
        trailer = pack (length p);
        rest = rest;
      })
        ≡ got m
  unfolding check_cut frame_digest
  check_cut-frame p rest loads = simp (
    length-pack (length p),
    (==_iff (length p) (length p)).1 refl,
    k.digest_length (pack (length p) ++ p),
    text_eq_refl,
    loads,
  )

  frame_at-frame :
      (p rest : Bytes) {m : Members}
      → length p < 2 ^ 64
      → c.json_loads p ≡ some (obj m)
      → frame_at c (length p) (hex (take 16 (frame_digest c p))) (frame_bytes c p ++ rest) ≡ got m
  unfolding frame_at
  frame_at-frame p rest small loads = rw (cut-frame c k p rest small) (check_cut-frame p rest loads)

  behind :
      (qs : List Bytes) (p : Bytes)
      → drop (12 + length (frames c qs)) (segment_header ++ frames c (qs ++ p ∷ []))
        ≡ frame_bytes c p
  behind qs p = rw (frames-append c qs p) (
      rw (← append_assoc segment_header (frames c qs) (frame_bytes c p)) (
        drop-prefix (12 + length (frames c qs)) (segment_header ++ frames c qs) (frame_bytes c p)
          (omega (arith, length-append segment_header (frames c qs)))))

  read_frame-frames :
      (qs : List Bytes) (p : Bytes) {m : Members}
      → length p < 2 ^ 64
      → c.json_loads p ≡ some (obj m)
      → read_frame c
          (holds (segment_header ++ frames c (qs ++ p ∷ [])))
          (12 + length (frames c qs))
          (length p)
          (hex (take 16 (frame_digest c p)))
        ≡ got m
  unfolding HeaderStands text_eq
  read_frame-frames qs p small loads =
      read_frame_of c _ _ _ _ (refl, refl)
        (rw (behind qs p) (rw append-nil at (frame_at-frame p [] small loads)))

  read_attempts-got :
      (ref : RecordRef) (file : File) {m : Members}
      → read_frame c file ref.offset ref.length ref.checksum ≡ got m
      → read_attempts c ref (file ∷ []) ≡ ok m
  unfolding read_attempts judged read_ref
  read_attempts-got ref file h = rw h refl

  -- the reference of a frame written behind these payloads, read from the disk that holds it
  read-Records :
      (j : JournalWriter) (qs : List Bytes) (p : Bytes) {m : Members}
      → Records c j (qs ++ p ∷ [])
      → is_uuid j.writer_id ≡ true
      → 12 + length (frames c qs) < 36 ^ 13
      → length p < 2 ^ 64
      → c.json_loads p ≡ some (obj m)
      → read_record c (j.disk ∷ []) (
          encode_record_ref j.writer_id j.segment_number
            (12 + length (frames c qs))
            (length p)
            (frame_digest c p))
        ≡ ok m
  unfolding read_record parsed seen
  read-Records j qs p h uuid offset small loads =
      rw
        (parse-encode_record_ref j.writer_id j.segment_number (12 + length (frames c qs)) (length p)
          (frame_digest c p) uuid (omega (arith, h.numbered)) offset (omega arith)
          (frame_digest-bytes p) (omega (arith, length-frame_digest c k p)))
        (read_attempts-got _ _ (rw h.held (read_frame-frames qs p small loads)))

  -- A writer whose open segment holds the frames of some payloads, and whose segments are limited to
  -- less than 36 ^ 13 bytes, appends a record: the reference that it returns is read back as the
  -- members that the record's JSON denotes, if the writer's identity is a canonical UUID and the JSON
  -- has less than 2 ^ 64 bytes.
  pub read_record-append_self :
      (j j' : JournalWriter) (ps : List Bytes) (r : Members) {ref : Text} {m : Members}
      → Records c j ps
      → append c r j ≡ (ok ref, j')
      → is_uuid j.writer_id ≡ true
      → j.maximum_segment_bytes < 36 ^ 13
      → length (c.json_bytes r) < 2 ^ 64
      → c.json_loads (c.json_bytes r) ≡ some (obj m)
      → read_record c (j'.disk ∷ []) ref ≡ ok m
  unfolding written
  read_record-append_self j j' ps r {ref} {m} h e uuid limit small loads =
      let (base, qs, target, wrote) = append-ok c j ps h r e in
      let p = c.json_bytes r in
      let before = Target-Records c j ps h p target in
      let found =
        read-Records (written (12 + length (frames c qs)) (frame_bytes c p) base) qs p
          (written-Records c base qs p before) (rw (Target-writer c j ps h p target) uuid)
          (Target-offset c j ps h p limit target) small loads in
      rw (wrote.0, wrote.1) found
