-- ===== src/Names/RecordRef.antt =====
-- `encode_record_ref` and `parse_record_ref` of journal.py, and the record reference inside
-- `_MARKER_PATTERN` of models.py.
use httk_workflow.Base.{
  ℕ, zero, suc, ◌+◌, ◌*◌, ◌/◌, ◌%◌, ◌^◌, ◌<◌, ◌≤◌, ◌≡◌, refl, ap, Bool, true, ◌&&◌, Option, none,
  some, List, [], ◌∷◌, ◌++◌, all, length, take, take-append, drop-append, drop, arith, leb, ltb,
  if◌then◌else◌,
}
use mathlib.Core.List.{append-nil}
use httk_workflow.Errors.{Result, ok, ◌>>=◌, ◌>>◌, guard, require, format_error}
use httk_workflow.Json.Numbers.{codes}
use httk_workflow.Names.Text.{Text, is_hex, is_alnum, span, expect, span-append, expect-append}
use httk_workflow.Names.Base36.{
  to_base36, int36, int36-to_base36, to_base36_alnum, to_base36_nonempty, to_base36_length,
}
use httk_workflow.Names.Uuid.{
  is_uuid, without_hyphens, uuid_of_hex, uuid_of_hex-without_hyphens, uuid_digits,
}

pub record RecordRef : Type 0 where
  pub writer_id : Text
  pub segment : ℕ
  pub offset : ℕ
  pub length : ℕ
  pub checksum : Text

hex_digit : ℕ → ℕ
hex_digit d = if ltb d 10 then 48 + d else 87 + d

-- `bytes.hex()`
unfoldable pub hex : List ℕ → Text
unfolding hex_digit
hex [] = []
hex (b ∷ bs) = hex_digit (b / 16) ∷ hex_digit (b % 16) ∷ hex bs

unfoldable pub encode_record_ref : Text → ℕ → ℕ → ℕ → List ℕ → Text
encode_record_ref writer_id segment offset length checksum =
    codes "w"
    ++ (without_hyphens writer_id
        ++ (codes "-s"
            ++ (to_base36 segment
                ++ (codes "-o"
                    ++ (to_base36 offset
                        ++ (codes "-l"
                            ++ (to_base36 length ++ (codes "-h" ++ hex (take 16 checksum)))))))))

-- `[0-9a-f]{32}`
hex32 : Text → Result (Text × Text)
hex32 t = do
  guard (leb 32 (length (take 32 t)) && all is_hex (take 32 t)) format_error
  ok (take 32 t, drop 32 t)

-- `[0-9a-z]{1,limit}`, or `[0-9a-z]+` where there is no limit
unfoldable pub fits : Option ℕ → ℕ → Bool
fits none n = leb 1 n
fits (some limit) n = leb 1 n && leb n limit

alnum_field : Option ℕ → Text → Result (Text × Text)
unfolding fits
alnum_field limit t = do
  guard (fits limit (length (span is_alnum t).0)) format_error
  ok (span is_alnum t)

literal : Text → Text → Result Text
literal x t = require (expect x t) format_error

-- What `_REF_PATTERN` matches, with the limits on its three numbers.
unfoldable pub scan_ref : Option ℕ → Option ℕ → Text → Result (Text × Text × Text × Text × Text)
unfolding hex32 alnum_field literal
scan_ref short long t = do
  t ← literal (codes "w") t
  (writer, t) ← hex32 t
  t ← literal (codes "-s") t
  (segment, t) ← alnum_field short t
  t ← literal (codes "-o") t
  (offset, t) ← alnum_field long t
  t ← literal (codes "-l") t
  (len, t) ← alnum_field long t
  t ← literal (codes "-h") t
  (checksum, t) ← hex32 t
  guard (leb (length t) 0) format_error
  ok (writer, segment, offset, len, checksum)

unfoldable pub parse_record_ref : Text → Result RecordRef
unfolding scan_ref
parse_record_ref t = do
  (writer, segment, offset, len, checksum) ← scan_ref (some 7) (some 13) t
  ok (record {
    writer_id = uuid_of_hex writer;
    segment = int36 segment;
    offset = int36 offset;
    length = int36 len;
    checksum = checksum;
  })

hex32-append :
    (w : Text)
    → all is_hex w ≡ true
    → length w ≡ 32
    → (rest : Text) → hex32 (w ++ rest) ≡ ok (w, rest)
unfolding hex32
hex32-append w h n rest =
    let front : take 32 (w ++ rest) ≡ w = rw n at (take-append w rest) in
    let back : drop 32 (w ++ rest) ≡ rest = rw n at (drop-append w rest) in rw (front, back, n, h)

hex32-whole : (w : Text) → all is_hex w ≡ true → length w ≡ 32 → hex32 w ≡ ok (w, [])
hex32-whole w h n = rw append-nil at (hex32-append w h n [])

-- A field ends at the hyphen that follows it.
alnum_field-append :
    (limit : Option ℕ) (w : Text)
    → all is_alnum w ≡ true
    → fits limit (length w) ≡ true
    → (rest : Text) → alnum_field limit (w ++ 45 ∷ rest) ≡ ok (w, 45 ∷ rest)
unfolding alnum_field
alnum_field-append limit w h n rest = rw (span-append is_alnum w 45 rest h refl, n)

literal-append : (x rest : Text) → literal x (x ++ rest) ≡ ok rest
unfolding literal
literal-append x rest = rw expect-append

-- The pieces of a well-formed reference, put together, are scanned apart again.
pub scan_ref-append :
    (short long : Option ℕ) (w s o l h : Text)
    → (all is_hex w ≡ true) × (length w ≡ 32)
    → (all is_alnum s ≡ true) × (fits short (length s) ≡ true)
    → (all is_alnum o ≡ true) × (fits long (length o) ≡ true)
    → (all is_alnum l ≡ true) × (fits long (length l) ≡ true)
    → (all is_hex h ≡ true) × (length h ≡ 32)
    → scan_ref short long (
        codes "w"
        ++ (w
            ++ (codes "-s"
                ++ (s ++ (codes "-o" ++ (o ++ (codes "-l" ++ (l ++ (codes "-h" ++ h)))))))))
      ≡ ok (w, s, o, l, h)
unfolding scan_ref expect
scan_ref-append short long w s o l h pw ps po pl ph = simp (
  hex32-append w pw.0 pw.1,
  alnum_field-append short s ps.0 ps.1,
  alnum_field-append long o po.0 po.1,
  alnum_field-append long l pl.0 pl.1,
  hex32-whole h ph.0 ph.1,
)

hex_digit_hex : (d : ℕ) → d < 16 → is_hex (hex_digit d) ≡ true
unfolding hex_digit
hex_digit_hex d h = ground arith

-- every element is a byte
abbrev pub all_bytes : List ℕ → Bool
all_bytes = all (λ b. ltb b 256)

hex_text : (bs : List ℕ) → all_bytes bs ≡ true → all is_hex (hex bs) ≡ true
unfolding hex
hex_text [] h = refl
hex_text (b ∷ bs) h = ground (arith, hex_text bs, hex_digit_hex (b / 16), hex_digit_hex (b % 16))

hex_length : (bs : List ℕ) → length (hex bs) ≡ 2 * length bs
unfolding hex
hex_length [] = omega arith
hex_length (b ∷ bs) = omega (arith, hex_length bs)

take_bytes : (n : ℕ) (bs : List ℕ) → all_bytes bs ≡ true → all_bytes (take n bs) ≡ true
take_bytes zero bs h = refl
take_bytes (suc n) [] h = refl
take_bytes (suc n) (b ∷ bs) h = ground (arith, take_bytes n bs)

take_length : (n : ℕ) (bs : List ℕ) → n ≤ length bs → length (take n bs) ≡ n
take_length zero bs h = refl
take_length (suc n) [] h = absurd (omega arith)
take_length (suc n) (b ∷ bs) h = ap suc (take_length n bs (omega arith))

fits_base36 :
    (value k : ℕ) → 0 < k → value < 36 ^ k → fits (some k) (length (to_base36 value)) ≡ true
unfolding fits
fits_base36 value k pos h = ground (arith, to_base36_nonempty value, to_base36_length value k pos h)

pub checksum_text :
    (checksum : List ℕ)
    → all_bytes checksum ≡ true
    → 16 ≤ length checksum
    → (all is_hex (hex (take 16 checksum)) ≡ true) × (length (hex (take 16 checksum)) ≡ 32)
checksum_text checksum bytes long = (
  hex_text (take 16 checksum) (take_bytes 16 checksum bytes),
  omega (arith, hex_length (take 16 checksum), take_length 16 checksum long),
)

-- Parsing an encoded record reference gives back the writer, the segment number, the offset, the
-- length, and the checksum's first sixteen bytes in hexadecimal, for a canonical writer UUID, a
-- checksum of at least sixteen bytes, a segment below 36 ^ 7, and an offset and a length below
-- 36 ^ 13.
pub parse-encode_record_ref :
    (writer_id : Text) (segment offset len : ℕ) (checksum : List ℕ)
    → is_uuid writer_id ≡ true
    → segment < 36 ^ 7
    → offset < 36 ^ 13
    → len < 36 ^ 13
    → all_bytes checksum ≡ true
    → 16 ≤ length checksum
    → parse_record_ref (encode_record_ref writer_id segment offset len checksum)
      ≡ ok (record {
        writer_id = writer_id;
        segment = segment;
        offset = offset;
        length = len;
        checksum = hex (take 16 checksum);
      })
unfolding parse_record_ref encode_record_ref
parse-encode_record_ref writer_id segment offset len checksum uuid s o l bytes long =
    let scanned =
      scan_ref-append (some 7) (some 13) (without_hyphens writer_id) (to_base36 segment)
        (to_base36 offset) (to_base36 len) (hex (take 16 checksum)) (uuid_digits writer_id uuid)
        (to_base36_alnum segment, fits_base36 segment 7 (omega arith) s)
        (to_base36_alnum offset, fits_base36 offset 13 (omega arith) o)
        (to_base36_alnum len, fits_base36 len 13 (omega arith) l)
        (checksum_text checksum bytes long) in
    simp (scanned, uuid_of_hex-without_hyphens writer_id uuid, int36-to_base36)
