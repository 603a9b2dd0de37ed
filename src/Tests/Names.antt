-- ===== src/Tests/Names.antt =====
-- Names, at one job and one writer.
use httk_workflow.Base.{true, ◌≡◌, ◌≤◌, refl, ℕ, pos, List, [], ◌∷◌, take, length, some, arith}
use httk_workflow.Errors.{ok}
use httk_workflow.Json.Numbers.{codes}
use httk_workflow.Names.Text.{Text}
use httk_workflow.Names.Base36.{to_base36, int36, int36-to_base36, to_base36_length}
use httk_workflow.Names.Uuid.{is_uuid}
use httk_workflow.Names.RecordRef.{
  encode_record_ref, parse_record_ref, hex, parse-encode_record_ref,
}
use httk_workflow.Names.JobKey.{
  parse_job_key, make_job_key, is_label, parse-make_job_key, make-parse_job_key,
}
use httk_workflow.Names.MarkerName.{marker_basename, parse_marker_basename, joined}
use httk_workflow.Names.MarkerName.Roundtrip.{initial, parse-marker_basename}
use httk_workflow.Tests.Samples.{key}

abbrev uuid : Text
uuid = codes key

abbrev bytes : List ℕ
bytes = 0 ∷ 1 ∷ 2 ∷ 3 ∷ 4 ∷ 5 ∷ 6 ∷ 7 ∷ 8 ∷ 9 ∷ 10 ∷ 11 ∷ 12 ∷ 13 ∷ 14 ∷ 255 ∷ []

uuid_canonical : is_uuid uuid ≡ true
unfolding is_uuid
uuid_canonical = refl

int36-to_base36_example : int36 (to_base36 1295) ≡ 1295
int36-to_base36_example = int36-to_base36 1295

to_base36_length_example : length (to_base36 1295) ≤ 2
to_base36_length_example = to_base36_length 1295 2 (omega arith) (omega arith)

parse-encode_record_ref_example :
    parse_record_ref (encode_record_ref uuid 3 1000 250 bytes)
    ≡ ok (record {
      writer_id = uuid;
      segment = 3;
      offset = 1000;
      length = 250;
      checksum = hex (take 16 bytes);
    })
parse-encode_record_ref_example =
    parse-encode_record_ref uuid 3 1000 250 bytes uuid_canonical (omega arith) (omega arith)
      (omega arith) refl (omega arith)

tag_label : is_label (codes "relax") ≡ true
unfolding is_label
tag_label = refl

parse-make_job_key_example :
    parse_job_key (make_job_key uuid (some (codes "relax"))) ≡ ok (some (codes "relax"), uuid)
parse-make_job_key_example = parse-make_job_key uuid (some (codes "relax")) uuid_canonical tag_label

make-parse_job_key_example :
    make_job_key uuid (some (codes "relax")) ≡ make_job_key uuid (some (codes "relax"))
make-parse_job_key_example =
    make-parse_job_key (make_job_key uuid (some (codes "relax"))) (some (codes "relax")) uuid
      parse-make_job_key_example

named : marker_basename uuid (pos 100) 4 (codes "init") ≡ ok (joined uuid 100 4 (codes "init"))
unfolding marker_basename parse_job_key is_uuid httk_workflow.Names.JobKey.last
    httk_workflow.Names.MarkerName.in_priority_range httk_workflow.Names.MarkerName.ascii joined
    httk_workflow.Names.MarkerName.natural to_base36
named = refl

parse-marker_basename_example :
    parse_marker_basename (joined uuid 100 4 (codes "init"))
    ≡ ok (record { job_key = uuid; priority = 100; generation = 4; record_ref = codes "init" })
unfolding httk_workflow.Names.MarkerName.natural
parse-marker_basename_example =
    parse-marker_basename uuid (pos 100) 4 (codes "init") (joined uuid 100 4 (codes "init"))
      (initial (codes "init") refl) named
