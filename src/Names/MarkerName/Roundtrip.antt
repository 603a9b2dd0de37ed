-- ===== src/Names/MarkerName/Roundtrip.antt =====
-- A basename that was made is read back.
use httk_workflow.Base.{
  ℕ, ◌≤◌, ◌≡◌, refl, Bool, true, false, not, ◌||◌, Option, none, some, List, [], ◌∷◌, ◌++◌, all,
  length, take, arith, leb, ltb, ◌==◌, ℤ,
}
use httk_workflow.Errors.{Result, ok, err, >>=-eq-ok, guard, format_error}
use httk_workflow.Json.Numbers.{codes}
use httk_workflow.Names.Text.{
  Text, is_alnum, is_hex, text_eq_refl, lacks, split_last, split_last-append, all_weaken,
  all-append,
}
use httk_workflow.Names.Base36.{to_base36, int36-to_base36, to_base36_alnum, to_base36_nonempty}
use httk_workflow.Names.Uuid.{is_uuid, without_hyphens, uuid_digits}
use httk_workflow.Names.RecordRef.{
  encode_record_ref, scan_ref-append, fits, hex, checksum_text, all_bytes,
}
use httk_workflow.Names.JobKey.{parse_job_key, last}
use httk_workflow.Names.MarkerName.{
  marker_basename, parse_marker_basename, joined, maximum_generation, natural, in_priority_range,
  three_digits, marker_ref, generation_field, priority_field,
}

-- A text that stands for a record: the initial reference, or one that the journal encodes.
pub data IsRef : Text → Type 0 where
  initial : (t : Text) → t ≡ codes "init" → IsRef t
  encoded :
      (t writer_id : Text) (segment offset len : ℕ) (checksum : List ℕ)
      → is_uuid writer_id ≡ true
      → all_bytes checksum ≡ true
      → 16 ≤ length checksum
      → t ≡ encode_record_ref writer_id segment offset len checksum
      → IsRef t

alnum_dotless : (c : ℕ) → is_alnum c ≡ true → not (c == 46) ≡ true
alnum_dotless c h = ground arith

hex_dotless : (c : ℕ) → is_hex c ≡ true → not (c == 46) ≡ true
hex_dotless c h = ground arith

base36_lacks : (n : ℕ) → lacks 46 (to_base36 n) ≡ true
base36_lacks n =
    all_weaken is_alnum (λ c. not (c == 46)) (to_base36 n) alnum_dotless (to_base36_alnum n)

digits_lacks : (p : ℕ) → lacks 46 (112 ∷ three_digits p) ≡ true
unfolding three_digits
digits_lacks p = ground arith

generation_lacks : (n : ℕ) → lacks 46 (103 ∷ to_base36 n) ≡ true
generation_lacks n = base36_lacks n

generation_field-base36 : (n : ℕ) → generation_field (103 ∷ to_base36 n) ≡ ok n
unfolding generation_field
generation_field-base36 n =
    ground (arith, to_base36_alnum n, to_base36_nonempty n, int36-to_base36 n)

priority_field-digits : (p : ℕ) → p ≤ 999 → priority_field (112 ∷ three_digits p) ≡ ok p
unfolding priority_field three_digits
priority_field-digits p h = ground arith

accepts : {A : Type 0} → Result A → Bool
accepts (ok _) = true
accepts (err _) = false

hyphen_lacks : lacks 46 (codes "-s") ≡ true
hyphen_lacks = refl

lacks-append : (xs ys : Text) → lacks 46 xs ≡ true → lacks 46 ys ≡ true → lacks 46 (xs ++ ys) ≡ true
lacks-append xs ys h k = all-append (λ c. not (c == 46)) xs ys h k

hex_lacks : (t : Text) → all is_hex t ≡ true → lacks 46 t ≡ true
hex_lacks t h = all_weaken is_hex (λ c. not (c == 46)) t hex_dotless h

fits_nonempty : (n : ℕ) → fits none (length (to_base36 n)) ≡ true
unfolding fits
fits_nonempty n = ground (arith, to_base36_nonempty n)

IsRef-lacks : {t : Text} → IsRef t → lacks 46 t ≡ true
unfolding encode_record_ref
IsRef-lacks (initial t e) = rw e
IsRef-lacks (encoded t writer_id segment offset len checksum uuid bytes long e) =
    let w = hex_lacks (without_hyphens writer_id) (uuid_digits writer_id uuid).0 in
    let h = hex_lacks (hex (take 16 checksum)) (checksum_text checksum bytes long).0 in
    rw e (
      lacks-append (without_hyphens writer_id) _ w (
        lacks-append (to_base36 segment) _ (base36_lacks segment) (
          lacks-append (to_base36 offset) _ (base36_lacks offset)
            (lacks-append (to_base36 len) _ (base36_lacks len) h))))

or_true : (b : Bool) → (b || true) ≡ true
or_true b = ground arith

IsRef-marker_ref : {t : Text} → IsRef t → marker_ref t ≡ true
unfolding marker_ref encode_record_ref
IsRef-marker_ref (initial t e) = rw e (rw text_eq_refl refl)
IsRef-marker_ref (encoded t writer_id segment offset len checksum uuid bytes long e) =
    let scanned =
      scan_ref-append none none (without_hyphens writer_id) (to_base36 segment) (to_base36 offset)
        (to_base36 len) (hex (take 16 checksum)) (uuid_digits writer_id uuid)
        (to_base36_alnum segment, fits_nonempty segment)
        (to_base36_alnum offset, fits_nonempty offset) (to_base36_alnum len, fits_nonempty len)
        (checksum_text checksum bytes long) in
    rw e (rw scanned (or_true _))

split_joined :
    (key : Text) (p g : ℕ) {ref : Text}
    → IsRef ref
    → (split_last 46 (joined key p g ref)
        ≡ some ((key ++ (46 ∷ 112 ∷ three_digits p)) ++ (46 ∷ 103 ∷ to_base36 g), ref))
      × (split_last 46 ((key ++ (46 ∷ 112 ∷ three_digits p)) ++ (46 ∷ 103 ∷ to_base36 g))
          ≡ some (key ++ (46 ∷ 112 ∷ three_digits p), 103 ∷ to_base36 g))
      × (split_last 46 (key ++ (46 ∷ 112 ∷ three_digits p)) ≡ some (key, 112 ∷ three_digits p))
unfolding joined
split_joined key p g {ref} r = (
  split_last-append 46 _ ref (IsRef-lacks r),
  split_last-append 46 _ (103 ∷ to_base36 g) (generation_lacks g),
  split_last-append 46 key (112 ∷ three_digits p) (digits_lacks p),
)

parse-joined :
    (key : Text) (p g : ℕ) {ref : Text} {parts : Option Text × Text}
    → IsRef ref
    → parse_job_key key ≡ ok parts
    → ltb 0 (length key) ≡ true
    → p ≤ 999
    → leb g maximum_generation ≡ true
    → parse_marker_basename (joined key p g ref)
      ≡ ok (record { job_key = key; priority = p; generation = g; record_ref = ref })
unfolding parse_marker_basename
parse-joined key p g {ref} r k nonempty small bounded =
    let (a, b, c) = split_joined key p g r in
    simp (
      a,
      IsRef-marker_ref r,
      b,
      generation_field-base36 g,
      c,
      priority_field-digits p small,
      nonempty,
      k,
      bounded,
    )

cons_nonempty : (c : ℕ) (cs : Text) → ltb 0 (length (c ∷ cs)) ≡ true
cons_nonempty c cs = ground arith

parse_job_key_nonempty :
    (key : Text) {parts : Option Text × Text}
    → parse_job_key key ≡ ok parts
    → ltb 0 (length key) ≡ true
unfolding parse_job_key last is_uuid
parse_job_key_nonempty [] h = cc
parse_job_key_nonempty (c ∷ cs) h = cons_nonempty c cs

priority_small : (p : ℤ) → in_priority_range p ≡ true → natural p ≤ 999
unfolding in_priority_range natural
priority_small p h = ground arith

-- A basename that `marker_basename` makes with the initial reference or an encoded one is read
-- back to the same job key, priority, generation and reference.
pub parse-marker_basename :
    (key : Text) (priority : ℤ) (generation : ℕ) (ref name : Text)
    → IsRef ref
    → marker_basename key priority generation ref ≡ ok name
    → parse_marker_basename name
      ≡ ok (record {
        job_key = key;
        priority = natural priority;
        generation = generation;
        record_ref = ref;
      })
unfolding marker_basename
parse-marker_basename key priority generation ref name r h =
    let (parts, k, h) = >>=-eq-ok (parse_job_key key) _ h in
    let (_, range, h) = >>=-eq-ok (guard (in_priority_range priority) format_error) _ h in
    let (_, bounded, h) = >>=-eq-ok (guard (leb generation maximum_generation) format_error) _ h in
    let made : joined key (natural priority) generation ref ≡ name =
      unfold marker_basename in ground arith in
    rw (← made) (
      parse-joined key (natural priority) generation r k (parse_job_key_nonempty key k)
        (priority_small priority (ground arith)) (ground arith))
