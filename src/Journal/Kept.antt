-- ===== src/Journal/Kept.antt =====
-- journal.py: an append only adds to the files of a journal, and what was read stays readable.
use httk_workflow.Base.{
  suc, ◌-◌, Option, ◌^◌, ltb, ℕ, ◌≡◌, refl, inl, inr, ◌==◌, ◌&&◌, false, Bool-cases, Option, none,
  some, [], ◌∷◌, arith,
}
use mathlib.Core.Path.{subst}
use httk_workflow.Errors.{value_error, unavailable_error, Result, ok, err}
use httk_workflow.Json.{Members}
use httk_workflow.Names.Text.{Text, text_eq, text_eq_sound}
use httk_workflow.Names.RecordRef.{RecordRef, parse_record_ref}
use httk_workflow.Journal.{
  frame_bytes, Bytes, Codec, File, absent, unreadable, holds, Segments, segment_header,
}
use httk_workflow.Journal.Writer.{
  fits_segment, close, next_segment, written, rotated, tell, path_exists, put_frame, created,
  JournalWriter, Writing, and_then, stored, grown, open_segment, rotate_if_needed, append, ◌>>=◌,
}
use httk_workflow.Journal.Read.{
  Probe, got, problem, fault, judged, parsed, read_frame, read_ref, read_attempts, seen,
  read_record,
}
use httk_workflow.Journal.Grow.{read_frame-grown}

-- One file follows another: it is the same with more bytes at its end, or nothing was there.
pub data Follows : File → File → Type 0 where
  more : (file : File) (b : Bytes) → Follows file (grown file b)
  same : (file : File) → Follows file file
  made : (file : File) → Follows absent file
  steps : {a b c : File} → Follows a b → Follows b c → Follows a c

abbrev pub Extends : Segments → Segments → Type 0
Extends before after = (w : Text) (n : ℕ) → Follows (before w n) (after w n)

stored-Follows :
    (w : Text) (n : ℕ) (file : File) (disk : Segments)
    → Follows (disk w n) file
    → Extends disk (stored w n file disk)
unfolding stored
stored-Follows w n file disk h w' n' = elim (Bool-cases (text_eq w w' && n == n')) [
  | inl here ↦
      let (e, f) : (w ≡ w') × (n ≡ n') = (text_eq_sound w w' (ground arith), ground arith) in
      rw here (subst (λ u. Follows (disk u n') file) e (subst (λ k. Follows (disk w k) file) f h))
  | inr other ↦ rw other (same (disk w' n'))
]

read_ref-Follows :
    (c : Codec) (ref : RecordRef) {before after : File} {m : Members}
    → Follows before after
    → read_ref c ref before ≡ got m
    → read_ref c ref after ≡ got m
unfolding read_ref read_frame
read_ref-Follows c ref (more file b) h = read_frame-grown c file _ _ _ b h
read_ref-Follows c ref (same file) h = h
read_ref-Follows c ref (made file) h = cc
read_ref-Follows c ref (steps s t) h = read_ref-Follows c ref t (read_ref-Follows c ref s h)

-- Work of a writer that only adds to the disk.
abbrev pub Adds {ℓ} : {A : Type ℓ} → Writing A → Type 0
Adds m = (j : JournalWriter) → Extends j.disk (m j).1.disk

Adds->>= {ℓ κ} :
    {A : Type ℓ} {B : Type κ} (m : Writing A) (f : A → Writing B)
    → Adds m
    → ((a : A) → Adds (f a))
    → Adds (m >>= f)
Adds->>= {A = A} {B = B} m f hm hf j = after (m j) (hm j)
  where
    after :
        (r : Result A × JournalWriter)
        → Extends j.disk r.1.disk
        → Extends j.disk (and_then r f).1.disk
    after (ok a, v) q w n = steps (q w n) (hf a v w n)
    after (err e, v) q w n = q w n

created-Extends :
    (n : ℕ) (j : JournalWriter)
    → j.disk j.writer_id n ≡ absent
    → Extends j.disk (created n j).1.disk
unfolding created
created-Extends n j h =
    stored-Follows j.writer_id n (holds segment_header) j.disk (rw h (made (holds segment_header)))

not-exists : (file : File) → path_exists file ≡ false → file ≡ absent
unfolding path_exists
not-exists absent h = refl
not-exists unreadable h = cc
not-exists (holds b) h = cc

open_segment-Adds : (n : ℕ) → Adds (open_segment n)
unfolding open_segment
open_segment-Adds n j = elim (Bool-cases (ltb (2 ^ 32 - 1) n)) [
  | inl exhausted ↦ rw exhausted (λ w k. same (j.disk w k))
  | inr fine ↦ rw fine (elim (Bool-cases (path_exists (j.disk j.writer_id n))) [
    | inl there ↦ rw there (λ w k. same (j.disk w k))
    | inr free ↦ rw free (created-Extends n j (not-exists (j.disk j.writer_id n) free))
  ])
]

tell-Adds : Adds tell
unfolding tell
tell-Adds j = unmoved j.handle
  where
    unmoved :
        (handle : Option ℕ)
        → Extends j.disk
            (let r : Result ℕ × JournalWriter = elim handle [
              | none ↦ (err value_error, j)
              | some position ↦ (ok position, j)
            ] in
              r).1.disk
    unmoved none w n = same (j.disk w n)
    unmoved (some position) w n = same (j.disk w n)

rotated-Adds : (position n : ℕ) → Adds (rotated position n)
unfolding rotated next_segment close
rotated-Adds position n j = elim (Bool-cases (fits_segment position n j.maximum_segment_bytes)) [
  | inl fits ↦ rw fits (λ w k. same (j.disk w k))
  | inr full ↦ rw full (open_segment-Adds (suc j.segment_number) _)
]

rotate_if_needed-Adds : (n : ℕ) → Adds (rotate_if_needed n)
unfolding rotate_if_needed
rotate_if_needed-Adds n =
    Adds->>= tell (λ position. rotated position n) tell-Adds (λ position. rotated-Adds position n)

put_frame-Adds : (c : Codec) (payload : Bytes) → Adds (put_frame c payload)
unfolding put_frame written
put_frame-Adds c payload = Adds->>= tell _ tell-Adds (λ offset j.
    stored-Follows j.writer_id j.segment_number _ j.disk
      (more (j.disk j.writer_id j.segment_number) (frame_bytes c payload)))

pub append-Adds : (c : Codec) (r : Members) → Adds (append c r)
unfolding append
append-Adds c r =
    Adds->>= (rotate_if_needed _) (λ _. put_frame c _) (rotate_if_needed-Adds _)
      (λ _. put_frame-Adds c _)

judged-ok : (p : Probe Members) {m : Members} → judged p (err unavailable_error) ≡ ok m → p ≡ got m
unfolding judged
judged-ok (got m) h = ground arith
judged-ok fault h = cc
judged-ok (problem p) h = ground arith

read_attempts-Follows :
    (c : Codec) (ref : RecordRef) {before after : File} {m : Members}
    → Follows before after
    → read_attempts c ref (before ∷ []) ≡ ok m
    → read_attempts c ref (after ∷ []) ≡ ok m
unfolding read_attempts
read_attempts-Follows c ref {before} {after} f h =
    rw (read_ref-Follows c ref f (judged-ok (read_ref c ref before) h)) refl

parsed-Extends :
    (c : Codec) (parse : Result RecordRef) {before after : Segments} {m : Members}
    → Extends before after
    → parsed c (before ∷ []) parse ≡ ok m
    → parsed c (after ∷ []) parse ≡ ok m
unfolding parsed seen
parsed-Extends c (err e) x h = h
parsed-Extends c (ok ref) x h = read_attempts-Follows c ref (x ref.writer_id ref.segment) h

-- A record that is read from the journal of a writer is read from it after the writer has appended
-- another record, whether or not the append returns.
pub read_record-append :
    (c : Codec) (j : JournalWriter) (r : Members) (record_ref : Text) {m : Members}
    → read_record c (j.disk ∷ []) record_ref ≡ ok m
    → read_record c ((append c r j).1.disk ∷ []) record_ref ≡ ok m
unfolding read_record
read_record-append c j r record_ref h =
    parsed-Extends c (parse_record_ref record_ref) (append-Adds c r j) h
