-- ===== src/Journal/Read.antt =====
-- journal.py: _read_frame and read_record. What a client sees of a segment may change from one
-- attempt to the next, so a read is given the file as each of `visibility_attempts` finds it.
use httk_workflow.Base.{
  ℕ, Bool, true, false, ◌&&◌, ◌==◌, Option, none, some, List, [], ◌∷◌, ◌++◌, length, take, drop,
  map, if◌then◌else◌,
}
use httk_workflow.Errors.{Result, ok, err, os_error, corruption_error, unavailable_error}
use httk_workflow.Json.{Json, obj, Members}
use httk_workflow.Names.Text.{Text, text_eq}
use httk_workflow.Names.RecordRef.{RecordRef, hex, parse_record_ref}
use httk_workflow.Journal.{
  Bytes, Codec, File, absent, unreadable, holds, Segments, segment_header, Cut, cut,
}

-- the codes of `_FrameProblem`
pub data FrameProblem : Type 0 where
  missing_segment short_read invalid_header length_mismatch trailer_mismatch : FrameProblem
  checksum_mismatch reference_mismatch undecodable_frame not_an_object : FrameProblem

-- TRANSIENT_FRAME_PROBLEMS
unfoldable pub transient : FrameProblem → Bool
transient missing_segment = true
transient short_read = true
transient undecodable_frame = true
transient _ = false

-- `fault` is an OSError.
pub data Probe {ℓ} (A : Type ℓ) : Type ℓ where
  got : A → Probe A
  problem : FrameProblem → Probe A
  fault : Probe A

infixl 5 ◌>>=◌ ◌>>◌
abbrev pub ◌>>=◌ {ℓ κ} : {A : Type ℓ} {B : Type κ} → Probe A → (A → Probe B) → Probe B
(got a) >>= f = f a
(problem p) >>= f = problem p
fault >>= f = fault

abbrev pub ◌>>◌ {ℓ} : {B : Type ℓ} → Probe (Unit {0}) → Probe B → Probe B
m >> k = m >>= λ _. k

-- `if not b: raise _FrameProblem(p, …)`
abbrev pub demand : Bool → FrameProblem → Probe (Unit {0})
demand b p = if b then got tt else problem p

open_file : File → Probe Bytes
open_file absent = problem missing_segment
open_file unreadable = fault
open_file (holds b) = got b

decoded : Option Json → Probe Members
decoded none = problem undecodable_frame
decoded (some (obj m)) = got m
decoded (some _) = problem not_an_object

-- the checks of a frame that has been read, in the order of the code
unfoldable pub check_cut : Codec → ℕ → Text → Cut → Probe Members
unfolding decoded text_eq
check_cut c expected_length expected_prefix p = do
  demand (length p.length_bytes == 8) short_read
  demand (p.len == expected_length) length_mismatch
  demand (length p.payload == p.len && length p.checksum == 32 && length p.trailer == 8) short_read
  demand (text_eq p.trailer p.length_bytes) trailer_mismatch
  demand (text_eq (c.sha256 (p.length_bytes ++ p.payload)) p.checksum) checksum_mismatch
  demand (text_eq (hex (take 16 p.checksum)) expected_prefix) reference_mismatch
  decoded (c.json_loads p.payload)

unfoldable pub frame_at : Codec → ℕ → Text → Bytes → Probe Members
unfolding check_cut
frame_at c expected_length expected_prefix rest =
    check_cut c expected_length expected_prefix (cut rest)

unfoldable pub read_frame : Codec → File → ℕ → ℕ → Text → Probe Members
unfolding open_file frame_at text_eq
read_frame c file offset expected_length expected_prefix = do
  b ← open_file file
  demand (length (take 12 b) == 12) short_read
  demand (text_eq (take 12 b) segment_header) invalid_header
  frame_at c expected_length expected_prefix (drop offset b)

unfoldable pub read_ref : Codec → RecordRef → File → Probe Members
unfolding read_frame
read_ref c ref file = read_frame c file ref.offset ref.length ref.checksum

-- what one attempt decides: to return, to raise, or to go on
unfoldable pub judged : Probe Members → Result Members → Result Members
unfolding transient
judged (got m) later = ok m
judged fault later = err os_error
judged (problem p) later = if transient p then later else err corruption_error

-- the loop over the attempts
unfoldable pub read_attempts : Codec → RecordRef → List File → Result Members
unfolding judged
read_attempts c ref [] = err unavailable_error
read_attempts c ref (file ∷ later) = judged (read_ref c ref file) (read_attempts c ref later)

-- the file of one writer's segment, in each of the views
unfoldable pub seen : RecordRef → List Segments → List File
seen ref views = map (λ (disk : Segments). disk ref.writer_id ref.segment) views

unfoldable pub parsed : Codec → List Segments → Result RecordRef → Result Members
unfolding read_attempts seen
parsed c views (err e) = err e
parsed c views (ok ref) = read_attempts c ref (seen ref views)

unfoldable pub read_record : Codec → List Segments → Text → Result Members
unfolding parsed
read_record c views record_ref = parsed c views (parse_record_ref record_ref)
