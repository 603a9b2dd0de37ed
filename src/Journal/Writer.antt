-- ===== src/Journal/Writer.antt =====
-- journal.py: JournalWriter. The handle is where the open segment ends, or none once it is closed.
-- A write is performed whole; synchronizing to storage has no effect that the model shows.
use httk_workflow.Base.{
  ℕ, suc, ◌+◌, ◌-◌, ◌^◌, ◌==◌, Bool, true, false, ◌&&◌, ◌||◌, Option, none, some, ◌++◌, length, ltb,
  leb, if◌then◌else◌,
}
use httk_workflow.Errors.{Result, ok, err, value_error, os_error, corruption_error}
use httk_workflow.Json.{Members}
use httk_workflow.Names.Text.{Text, text_eq}
use httk_workflow.Names.RecordRef.{encode_record_ref}
use httk_workflow.Journal.{
  Bytes, Codec, File, absent, holds, Segments, segment_header, frame_digest, frame_bytes,
}

pub record JournalWriter : Type 0 where
  pub writer_id : Text
  pub segment_number : ℕ
  pub handle : Option ℕ
  pub maximum_segment_bytes : ℕ
  pub disk : Segments

-- Work of a writer, whose changes stay when it raises.
abbrev pub Writing {ℓ} : Type ℓ → Type ℓ
Writing A = JournalWriter → Result A × JournalWriter

abbrev pub and_then {ℓ κ} :
    {A : Type ℓ} {B : Type κ}
    → Result A × JournalWriter
    → (A → Writing B)
    → Result B × JournalWriter
and_then (ok a, j) f = f a j
and_then (err e, j) f = (err e, j)

infixl 5 ◌>>=◌ ◌>>◌
abbrev pub ◌>>=◌ {ℓ κ} : {A : Type ℓ} {B : Type κ} → Writing A → (A → Writing B) → Writing B
◌>>=◌ m f j = and_then (m j) f

abbrev pub ◌>>◌ {ℓ} : {B : Type ℓ} → Writing (Unit {0}) → Writing B → Writing B
m >> k = m >>= λ _. k

-- a file is put at a path
unfoldable pub stored : Text → ℕ → File → Segments → Segments
unfolding text_eq
stored w n file disk w' n' = if text_eq w w' && n == n' then file else disk w' n'

-- what an open file holds after more bytes; one that was removed meanwhile stays removed
unfoldable pub grown : File → Bytes → File
grown (holds b) more = holds (b ++ more)
grown file more = file

unfoldable pub path_exists : File → Bool
path_exists absent = false
path_exists _ = true

unfoldable pub created : ℕ → JournalWriter → Result (Unit {0}) × JournalWriter
created n j = (
  ok tt,
  record j {
    handle = some (length segment_header);
    disk = stored j.writer_id n (holds segment_header) j.disk;
  },
)

-- `path.open("x+b")` refuses a file that is there
unfoldable pub open_segment : ℕ → Writing (Unit {0})
unfolding path_exists
open_segment n j =
    if ltb (2 ^ 32 - 1) n
    then (err corruption_error, j)
    else if path_exists (j.disk j.writer_id n)
    then (err os_error, j)
    else created n j

-- `handle.tell()`, which a closed file refuses
unfoldable pub tell : Writing ℕ
tell j = elim j.handle [ none ↦ (err value_error, j) | some position ↦ (ok position, j) ]

unfoldable pub close : JournalWriter → JournalWriter
close j = record j { handle = none }

unfoldable pub next_segment : Writing (Unit {0})
unfolding close
next_segment j =
    open_segment (suc j.segment_number) (record (close j) { segment_number = suc j.segment_number })

unfoldable pub fits_segment : ℕ → ℕ → ℕ → Bool
fits_segment position frame_length maximum =
    position == length segment_header || leb (position + frame_length) maximum

unfoldable pub rotated : ℕ → ℕ → Writing (Unit {0})
rotated position frame_length j =
    if fits_segment position frame_length j.maximum_segment_bytes
    then (ok tt, j)
    else next_segment j

unfoldable pub rotate_if_needed : ℕ → Writing (Unit {0})
unfolding tell
rotate_if_needed frame_length = do position ← tell; rotated position frame_length

unfoldable pub written : ℕ → Bytes → JournalWriter → JournalWriter
unfolding grown
written position frame j = record j {
  handle = some (position + length frame);
  disk =
      stored j.writer_id j.segment_number (grown (j.disk j.writer_id j.segment_number) frame)
        j.disk;
}

unfoldable pub put_frame : Codec → Bytes → Writing Text
unfolding tell
put_frame c payload = do
  offset ← tell
  λ j. (
    ok (
        encode_record_ref j.writer_id j.segment_number offset (length payload)
          (frame_digest c payload)),
    written offset (frame_bytes c payload) j,
  )

unfoldable pub append : Codec → Members → Writing Text
append c r = do
  rotate_if_needed (length (frame_bytes c (c.json_bytes r)))
  put_frame c (c.json_bytes r)

-- The end of `JournalWriter(control_dir, …)`: the identity has been found canonical, and the directory
-- of the writer has been made
unfoldable pub new_writer : Text → ℕ → Segments → Result (Unit {0}) × JournalWriter
new_writer writer_id maximum disk = open_segment 0 (record {
  writer_id = writer_id;
  segment_number = 0;
  handle = none;
  maximum_segment_bytes = maximum;
  disk = disk;
})
