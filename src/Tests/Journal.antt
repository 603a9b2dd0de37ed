-- ===== src/Tests/Journal.antt =====
-- The journal on small inputs: the instances of its theorems, and tests.
use httk_workflow.Base.{
  ℕ, suc, ◌≡◌, refl, if◌then◌else◌, Option, none, some, List, [], ◌∷◌, ◌++◌, map, pos, arith, take,
}
use httk_workflow.Errors.{Result, ok, err, unavailable_error}
use httk_workflow.Json.{Json, obj, int, str, Members, end, field}
use httk_workflow.Json.Numbers.{codes}
use httk_workflow.Names.Text.{Text, text_eq}
use httk_workflow.Journal.{
  Bytes, Codec, IsCodec, absent, holds, Segments, segment_header, frame_bytes,
}
use httk_workflow.Journal.Writer.{JournalWriter, append, new_writer}
use httk_workflow.Journal.Read.{read_record}
use httk_workflow.Journal.Walk.{iter_segment_frames}
use httk_workflow.Journal.Chain.{chain, visited_in}
use httk_workflow.Journal.Kept.{read_record-append}
use httk_workflow.Journal.Log.{frames, Records}
use httk_workflow.Journal.Listing.{listing}
use httk_workflow.Journal.Roundtrip.{read_record-append_self}
use httk_workflow.Journal.Torn.{iter_segment_frames-frames}
use httk_workflow.Journal.Run.{append_all, found_below, members_of, recorded, found-append_all}
use httk_workflow.Journal.Walked.{NoRepeat, Knows, chain_ends}

abbrev zeros : ℕ → Bytes
zeros ℕ.zero = []
zeros (suc n) = 0 ∷ zeros n

-- a record of one number, and its JSON
abbrev numbered : ℕ → Members
numbered n = field "n" (int (pos n)) end

abbrev printed : Members → Bytes
printed (field k (int (pos n)) end) = n ∷ []
printed _ = []

abbrev read_back : Bytes → Option Json
read_back (n ∷ []) = some (obj (numbered n))
read_back _ = none

abbrev codec : Codec
codec = record { sha256 = λ b. zeros 32; json_bytes = printed; json_loads = read_back }

codec-IsCodec : IsCodec codec
codec-IsCodec = record { digest_length = λ b. refl; digest_bytes = λ b. refl }

abbrev writer : Text
writer = codes "00000000-0000-4000-8000-000000000001"

abbrev nothing : Segments
nothing w n = absent

-- Segments of 200 bytes hold three such records.
abbrev new_journal : JournalWriter
new_journal = (new_writer writer 200 nothing).1

abbrev one_record : JournalWriter
one_record = (append codec (numbered 1) new_journal).1

abbrev first_ref : Text
first_ref = codes "w00000000000040008000000000000001-s0-oc-l1-h00000000000000000000000000000000"

opened_lem : new_writer writer 200 nothing ≡ (ok tt, new_journal)
unfolding new_writer httk_workflow.Journal.Writer.open_segment httk_workflow.Journal.Writer.created
opened_lem = refl

first_append : append codec (numbered 1) new_journal ≡ (ok first_ref, one_record)
unfolding append httk_workflow.Journal.Writer.rotate_if_needed new_writer
    httk_workflow.Journal.Writer.open_segment httk_workflow.Journal.Writer.created
    httk_workflow.Journal.Writer.rotated httk_workflow.Journal.Writer.fits_segment
    httk_workflow.Journal.Writer.put_frame httk_workflow.Names.RecordRef.encode_record_ref
    httk_workflow.Names.Uuid.without_hyphens httk_workflow.Names.Base36.to_base36
    httk_workflow.Names.RecordRef.hex httk_workflow.Journal.frame_digest
first_append = refl

new_journal-Records : Records codec new_journal []
unfolding new_writer httk_workflow.Journal.Writer.open_segment httk_workflow.Journal.Writer.created
    httk_workflow.Journal.Writer.stored frames
new_journal-Records = record { held = refl; at_end = refl; numbered = omega arith }

read_record-append_self_example :
    read_record codec (one_record.disk ∷ []) first_ref ≡ ok (numbered 1)
unfolding httk_workflow.Names.Uuid.is_uuid new_writer httk_workflow.Journal.Writer.open_segment
    httk_workflow.Journal.Writer.created
read_record-append_self_example =
    read_record-append_self codec codec-IsCodec new_journal one_record [] (numbered 1)
      new_journal-Records first_append refl (omega arith) (omega arith) refl

read_record-append_example :
    read_record codec ((append codec (numbered 2) one_record).1.disk ∷ []) first_ref
    ≡ ok (numbered 1)
read_record-append_example =
    read_record-append codec one_record (numbered 2) first_ref read_record-append_self_example

iter_segment_frames-frames_example :
    iter_segment_frames codec
      (holds (
        segment_header
        ++ (frames codec ((1 ∷ []) ∷ (2 ∷ []) ∷ []) ++ take 20 (frame_bytes codec (3 ∷ [])))))
      writer
      0
    ≡ some (listing codec writer 0 12 ((1 ∷ []) ∷ (2 ∷ []) ∷ []))
unfolding frame_bytes httk_workflow.Journal.pack
iter_segment_frames-frames_example =
    iter_segment_frames-frames codec codec-IsCodec writer 0 ((1 ∷ []) ∷ (2 ∷ []) ∷ []) (3 ∷ []) 20
      (omega arith) (omega arith) (omega arith)

abbrev five : List Members
five = numbered 1 ∷ numbered 2 ∷ numbered 3 ∷ numbered 4 ∷ numbered 5 ∷ []

abbrev ran : JournalWriter
ran = (append_all codec five new_journal).1

five_appended : append_all codec five new_journal ≡ (ok tt, ran)
unfolding append_all append httk_workflow.Journal.Writer.rotate_if_needed new_writer
    httk_workflow.Journal.Writer.open_segment httk_workflow.Journal.Writer.created
    httk_workflow.Journal.Writer.rotated httk_workflow.Journal.Writer.fits_segment
    httk_workflow.Journal.Writer.put_frame httk_workflow.Journal.Writer.written frame_bytes
    httk_workflow.Journal.pack httk_workflow.Journal.Writer.next_segment
    httk_workflow.Journal.Writer.stored
five_appended = refl

-- The fourth record stands in a second segment.
ran_segments : ran.segment_number ≡ 1
unfolding append_all append httk_workflow.Journal.Writer.rotate_if_needed new_writer
    httk_workflow.Journal.Writer.open_segment httk_workflow.Journal.Writer.created
    httk_workflow.Journal.Writer.rotated httk_workflow.Journal.Writer.fits_segment
    httk_workflow.Journal.Writer.put_frame httk_workflow.Journal.Writer.written frame_bytes
    httk_workflow.Journal.pack httk_workflow.Journal.Writer.next_segment
    httk_workflow.Journal.Writer.stored
ran_segments = refl

found-append_all_example :
    members_of (found_below codec ran.disk ran.writer_id (suc ran.segment_number))
    ≡ some (recorded codec (map printed five))
found-append_all_example =
    found-append_all codec codec-IsCodec writer 200 nothing five new_journal ran opened_lem
      five_appended (omega arith)

-- two records that name one another
abbrev cyclic : Text → Result Members
cyclic r =
    if text_eq r (codes "a")
    then ok (field "previous_record_ref" (str "b") end)
    else if text_eq r (codes "b")
    then ok (field "previous_record_ref" (str "a") end)
    else err unavailable_error

cyclic-Knows : Knows cyclic (codes "a" ∷ codes "b" ∷ [])
unfolding visited_in
cyclic-Knows r m h = ground arith

chain_ends_example :
    (entries : List (Text × Option Members)) × (chain cyclic 3 [] (codes "a") ≡ some entries)
    × NoRepeat [] entries
chain_ends_example =
    chain_ends cyclic (codes "a" ∷ codes "b" ∷ []) 3 (codes "a") cyclic-Knows (omega arith)

-- The walk over them stops at the third step.
cyclic_walk :
    chain cyclic 3 [] (codes "a")
    ≡ some (
        (codes "a", some (field "previous_record_ref" (str "b") end))
        ∷ (codes "b", some (field "previous_record_ref" (str "a") end))
        ∷ [])
unfolding chain httk_workflow.Journal.Chain.stops visited_in httk_workflow.Journal.Chain.visit
    httk_workflow.Journal.Chain.onward httk_workflow.Journal.Chain.previous
cyclic_walk = refl
