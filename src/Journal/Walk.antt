-- ===== src/Journal/Walk.antt =====
-- journal.py: iter_segment_frames, the walk over one segment from its header, and
-- iter_journal_frames over the directories of a journal.
use httk_workflow.Base.{
  ℕ, zero, suc, ◌+◌, ◌*◌, Bool, not, ◌&&◌, ◌||◌, ◌==◌, Option, none, some, List, [], ◌∷◌, ◌++◌,
  length, take, drop, ltb, if◌then◌else◌,
}
use httk_workflow.Json.{obj, Members}
use httk_workflow.Names.Text.{Text, text_eq}
use httk_workflow.Names.Uuid.{is_uuid}
use httk_workflow.Names.RecordRef.{encode_record_ref}
use httk_workflow.Journal.{cut, Cut, Bytes, Codec, File, absent, unreadable, holds, segment_header}

-- MAXIMUM_FRAME_BYTES
abbrev pub maximum_frame_bytes : ℕ
maximum_frame_bytes = 16 * 1024 * 1024

pub record JournalFrame : Type 0 where
  pub record_ref : Text
  pub writer_id : Text
  pub segment : ℕ
  pub offset : ℕ
  pub frame : Members

-- the returns inside the loop: the end of the file, a length out of range, a torn frame
unfoldable pub torn : Cut → Bool
unfolding text_eq
torn p =
    not (length p.length_bytes == 8)
    || (ltb maximum_frame_bytes p.len
        || not (
            length p.payload == p.len
            && length p.checksum == 32
            && text_eq p.trailer p.length_bytes))

-- a frame that is intact yields its record; another is passed over
unfoldable pub intact : Codec → Cut → Option Members
unfolding text_eq
intact c p =
    if text_eq (c.sha256 (p.length_bytes ++ p.payload)) p.checksum
    then (elim (c.json_loads p.payload) [ some (obj m) ↦ some m | _ ↦ none ])
    else none

unfoldable pub yielded : Text → ℕ → ℕ → Cut → Option Members → List JournalFrame → List JournalFrame
yielded writer_id segment offset p none later = later
yielded writer_id segment offset p (some m) later =
    record {
      record_ref = encode_record_ref writer_id segment offset p.len p.checksum;
      writer_id = writer_id;
      segment = segment;
      offset = offset;
      frame = m;
    }
    ∷ later

abbrev pub with_later :
    (List JournalFrame → List JournalFrame)
    → Option (List JournalFrame)
    → Option (List JournalFrame)
with_later f none = none
with_later f (some later) = some (f later)

-- `while True`, on fuel; none says that the fuel ran out
unfoldable pub walk : Codec → Text → ℕ → ℕ → ℕ → Bytes → Option (List JournalFrame)
unfolding cut torn intact yielded
walk c writer_id segment zero offset b = none
walk c writer_id segment (suc fuel) offset b =
    let p = cut b in
    let later = walk c writer_id segment fuel (offset + (48 + p.len)) p.rest in
    if torn p then some [] else with_later (yielded writer_id segment offset p (intact c p)) later

-- Every round takes eight bytes at least, so the length of the file is fuel enough.
unfoldable pub iter_segment_frames : Codec → File → Text → ℕ → Option (List JournalFrame)
unfolding walk text_eq
iter_segment_frames c absent writer_id segment = some []
iter_segment_frames c unreadable writer_id segment = some []
iter_segment_frames c (holds b) writer_id segment =
    if text_eq (take 12 b) segment_header
    then walk c writer_id segment (suc (length b)) 12 (drop 12 b)
    else some []

-- An entry of the journal directory, with its files `*.hwj`: the number that the stem of each
-- spells in base 36, where it spells one, and what the file holds.
pub record WriterDir : Type 0 where
  pub name : Text
  pub is_dir : Bool
  pub files : List (Option ℕ × File)

abbrev pub both_found :
    Option (List JournalFrame) → Option (List JournalFrame) → Option (List JournalFrame)
both_found (some xs) (some ys) = some (xs ++ ys)
both_found _ _ = none

writer_frames : Codec → Text → List (Option ℕ × File) → Option (List JournalFrame)
unfolding iter_segment_frames
writer_frames c writer_id [] = some []
writer_frames c writer_id ((none, file) ∷ files) = writer_frames c writer_id files
writer_frames c writer_id ((some segment, file) ∷ files) =
    both_found (iter_segment_frames c file writer_id segment) (writer_frames c writer_id files)

abbrev pub dir_frames : Codec → WriterDir → Option (List JournalFrame)
unfolding writer_frames is_uuid
dir_frames c d = if d.is_dir && is_uuid d.name then writer_frames c d.name d.files else some []

-- The entries and the files of each come sorted. A journal that is no directory has no entries.
unfoldable pub iter_journal_frames : Codec → List WriterDir → Option (List JournalFrame)
iter_journal_frames c [] = some []
iter_journal_frames c (d ∷ dirs) = both_found (dir_frames c d) (iter_journal_frames c dirs)
