-- ===== src/Names/JobKey.antt =====
-- models.py: `validate_label`, `make_job_key` and `parse_job_key`.
use mathlib.Core.List.{append_assoc}
use httk_workflow.Base.{
  ℕ, zero, suc, ◌-◌, ◌≤◌, ◌≡◌, refl, sym, ap, take-append-drop, Bool, true, false, not, ◌&&◌, ◌||◌,
  Option, none, some, [], ◌∷◌, ◌++◌, all, length, length-append, take, drop, take-append,
  drop-append, arith, leb, ◌==◌, if◌then◌else◌,
}
use httk_workflow.Errors.{Result, ok, err, ◌>>=◌, format_error}
use httk_workflow.Names.Text.{Text, is_alnum, text_eq, text_eq_sound, text_eq_refl}
use httk_workflow.Names.Uuid.{is_uuid, uuid_length}

-- [a-z0-9._-]
is_label_char : ℕ → Bool
is_label_char c = is_alnum c || c == 46 || c == 95 || c == 45

-- `"--" in text`
has_double_hyphen : Text → Bool
has_double_hyphen [] = false
has_double_hyphen (a ∷ []) = false
has_double_hyphen (a ∷ (b ∷ cs)) = (a == 45 && b == 45) || has_double_hyphen (b ∷ cs)

-- `_TAG_PATTERN.fullmatch(text)`
tag_pattern : Text → Bool
unfolding is_label_char
tag_pattern [] = false
tag_pattern (c ∷ cs) = is_alnum c && all is_label_char cs && leb (length cs) 47

unfoldable pub is_label : Text → Bool
unfolding tag_pattern has_double_hyphen
is_label text = tag_pattern text && not (has_double_hyphen text)

unfoldable pub validate_label : Text → Result Text
validate_label text = if is_label text then ok text else err format_error

-- `f"{tag}--{job_id}" if tag else job_id`
unfoldable pub make_job_key : Text → Option Text → Text
make_job_key job_id none = job_id
make_job_key job_id (some []) = job_id
make_job_key job_id (some (c ∷ cs)) = (c ∷ cs) ++ (45 ∷ 45 ∷ job_id)

-- `value[-n:]` and `value[:-n]`
unfoldable pub last : ℕ → Text → Text
last n value = drop (length value - n) value

unfoldable pub but_last : ℕ → Text → Text
but_last n value = take (length value - n) value

unfoldable pub parse_job_key : Text → Result (Option Text × Text)
parse_job_key value =
    let job_id = last 36 value in
    if not (is_uuid job_id)
    then err format_error
    else if length value == 36
    then ok (none, job_id)
    else if not (text_eq (last 2 (but_last 36 value)) (45 ∷ 45 ∷ []))
    then err format_error
    else (do tag ← validate_label (but_last 38 value); ok (some tag, job_id))

last-append : (n : ℕ) (xs ys : Text) → length ys ≡ n → last n (xs ++ ys) ≡ ys
unfolding last
last-append n xs ys e =
    let k : length (xs ++ ys) - n ≡ length xs = omega (arith, length-append xs ys) in
    rw k (drop-append xs ys)

but_last-append : (n : ℕ) (xs ys : Text) → length ys ≡ n → but_last n (xs ++ ys) ≡ xs
unfolding but_last
but_last-append n xs ys e =
    let k : length (xs ++ ys) - n ≡ length xs = omega (arith, length-append xs ys) in
    rw k (take-append xs ys)

-- An option that `make_job_key` and `parse_job_key` both take for a tag.
abbrev pub IsTag : Option Text → Type 0
IsTag none = Unit {0}
IsTag (some t) = is_label t ≡ true

module _ (tag job_id : Text) (n : length job_id ≡ 36) where
  abbrev key : Text
  key = tag ++ (45 ∷ 45 ∷ job_id)

  last-key : last 36 key ≡ job_id
  last-key = rw append_assoc at (last-append 36 (tag ++ 45 ∷ 45 ∷ []) job_id n)

  but_last-key : but_last 36 key ≡ tag ++ 45 ∷ 45 ∷ []
  but_last-key = rw append_assoc at (but_last-append 36 (tag ++ 45 ∷ 45 ∷ []) job_id n)

  tag_key : but_last 38 key ≡ tag
  tag_key = but_last-append 38 tag (45 ∷ 45 ∷ job_id) (omega arith)

  length_key : (length key == 36) ≡ false
  length_key = ground (arith, length-append tag (45 ∷ 45 ∷ job_id))

  parse_key :
      is_uuid job_id ≡ true → is_label tag ≡ true → parse_job_key key ≡ ok (some tag, job_id)
  unfolding parse_job_key validate_label
  parse_key uuid label = simp (
    last-key,
    but_last-key,
    tag_key,
    length_key,
    uuid,
    label,
    last-append 2 tag (45 ∷ 45 ∷ []) refl,
    text_eq_refl,
  )

-- Parsing a made key gives back the tag and the identifier, for a canonical UUID and no tag or a
-- tag that is a label.
pub parse-make_job_key :
    (job_id : Text) (tag : Option Text)
    → is_uuid job_id ≡ true
    → IsTag tag
    → parse_job_key (make_job_key job_id tag) ≡ ok (tag, job_id)
unfolding parse_job_key make_job_key
parse-make_job_key job_id none uuid t =
    let n = uuid_length job_id uuid in
    let whole : last 36 job_id ≡ job_id = last-append 36 [] job_id n in simp (whole, uuid, n)
parse-make_job_key job_id (some []) uuid t = unfold is_label in cc
parse-make_job_key job_id (some (c ∷ cs)) uuid t =
    parse_key (c ∷ cs) job_id (uuid_length job_id uuid) uuid t

split_at : (n : ℕ) (t : Text) → t ≡ but_last n t ++ last n t
unfolding last but_last
split_at n t = sym (take-append-drop (length t - n) t)

made_key :
    (value tag job_id : Text)
    → last 36 value ≡ job_id
    → last 2 (but_last 36 value) ≡ 45 ∷ 45 ∷ []
    → but_last 2 (but_last 36 value) ≡ tag
    → value ≡ tag ++ (45 ∷ 45 ∷ job_id)
made_key value tag job_id a b c =
    let e = split_at 36 value in
    let f = split_at 2 (but_last 36 value) in cc (e, f, append_assoc tag (45 ∷ 45 ∷ []) job_id)

take-take : (m n : ℕ) (xs : Text) → m ≤ n → take m (take n xs) ≡ take m xs
take-take zero n xs h = refl
take-take (suc m) zero xs h = elim h [ ]
take-take (suc m) (suc n) [] h = refl
take-take (suc m) (suc n) (x ∷ xs) h = rw (take-take m n xs (omega arith))

length_take : (n : ℕ) (xs : Text) → n ≤ length xs → length (take n xs) ≡ n
length_take zero xs h = refl
length_take (suc n) [] h = absurd (omega arith)
length_take (suc n) (x ∷ xs) h = ap suc (length_take n xs (omega arith))

but_last_twice : (v : Text) → but_last 2 (but_last 36 v) ≡ but_last 38 v
unfolding but_last
but_last_twice v =
    let inner : length (take (length v - 36) v) ≡ length v - 36 =
      length_take (length v - 36) v (omega arith) in
    let less : length v - 36 - 2 ≡ length v - 38 = omega arith in
    rw (inner, less) (take-take (length v - 38) (length v - 36) v (omega arith))

last_all : (v : Text) → length v ≡ 36 → last 36 v ≡ v
unfolding last
last_all v h = rw h

-- A value that parses is the key that is made of its parts.
pub make-parse_job_key :
    (value : Text) (tag : Option Text) (job_id : Text)
    → parse_job_key value ≡ ok (tag, job_id)
    → make_job_key job_id tag ≡ value
unfolding parse_job_key make_job_key validate_label is_label
make-parse_job_key value none job_id h = ground (arith, last_all value)
make-parse_job_key value (some []) job_id h = ground arith
make-parse_job_key value (some (c ∷ cs)) job_id h = ground (
  arith,
  made_key value (c ∷ cs) job_id,
  but_last_twice value,
  text_eq_sound (last 2 (but_last 36 value)) (45 ∷ 45 ∷ []),
)
