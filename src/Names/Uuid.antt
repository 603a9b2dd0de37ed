-- ===== src/Names/Uuid.antt =====
-- The canonical text of a UUID: five groups of lowercase hexadecimal digits joined by hyphens.
use httk_workflow.Base.{
  ℕ, zero, suc, ◌+◌, ◌≡◌, refl, Bool, true, false, ◌&&◌, List, [], ◌∷◌, all, length, arith, ◌==◌,
  if◌then◌else◌, String,
}
use httk_workflow.Errors.{Result, ok, err, ◌>>=◌, format_error}
use httk_workflow.Json.{Json, require_string}
use httk_workflow.Json.Numbers.{codes}
use httk_workflow.Names.Text.{Text, is_hex}

-- `k` more digits of this group, then a hyphen and a group for each size
shape : ℕ → List ℕ → Text → Bool
shape zero [] [] = true
shape zero [] (c ∷ cs) = false
shape zero (n ∷ ns) [] = false
shape zero (n ∷ ns) (c ∷ cs) = c == 45 && shape n ns cs
shape (suc k) ns [] = false
shape (suc k) ns (c ∷ cs) = is_hex c && shape k ns cs

abbrev groups : List ℕ
groups = 4 ∷ 4 ∷ 4 ∷ 12 ∷ []

-- `_UUID_PATTERN.fullmatch(text)`, which also says that `str(uuid.UUID(text)) == text`
unfoldable pub is_uuid : Text → Bool
unfolding shape
is_uuid text = shape 8 groups text

-- `text.replace("-", "")`
unfoldable pub without_hyphens : Text → Text
without_hyphens [] = []
without_hyphens (c ∷ cs) = let rest = without_hyphens cs in if c == 45 then rest else c ∷ rest

hyphenate : ℕ → List ℕ → Text → Text
hyphenate zero [] cs = cs
hyphenate zero (n ∷ ns) cs = 45 ∷ hyphenate n ns cs
hyphenate (suc k) ns [] = []
hyphenate (suc k) ns (c ∷ cs) = c ∷ hyphenate k ns cs

-- `str(uuid.UUID(hex=digits))` for 32 lowercase digits
unfoldable pub uuid_of_hex : Text → Text
unfolding hyphenate
uuid_of_hex digits = hyphenate 8 groups digits

abbrev sum_of : List ℕ → ℕ
sum_of [] = 0
sum_of (n ∷ ns) = n + sum_of ns

hex_not_hyphen : (c : ℕ) → is_hex c ≡ true → (c == 45) ≡ false
hex_not_hyphen c h = ground arith

hyphenate-without :
    (k : ℕ) (ns : List ℕ) (t : Text) → shape k ns t ≡ true → hyphenate k ns (without_hyphens t) ≡ t
unfolding shape hyphenate without_hyphens
hyphenate-without zero [] [] h = refl
hyphenate-without zero [] (c ∷ cs) h = cc
hyphenate-without zero (n ∷ ns) [] h = cc
hyphenate-without zero (n ∷ ns) (c ∷ cs) h = ground (arith, hyphenate-without n ns cs)
hyphenate-without (suc k) ns [] h = cc
hyphenate-without (suc k) ns (c ∷ cs) h =
    ground (arith, hyphenate-without k ns cs, hex_not_hyphen c)

shape_hex :
    (k : ℕ) (ns : List ℕ) (t : Text)
    → shape k ns t ≡ true
    → (all is_hex (without_hyphens t) ≡ true) × (length (without_hyphens t) ≡ k + sum_of ns)
unfolding shape without_hyphens
shape_hex zero [] [] h = (refl, refl)
shape_hex zero [] (c ∷ cs) h = cc
shape_hex zero (n ∷ ns) [] h = cc
shape_hex zero (n ∷ ns) (c ∷ cs) h = ground (arith, shape_hex n ns cs)
shape_hex (suc k) ns [] h = cc
shape_hex (suc k) ns (c ∷ cs) h = ground (arith, shape_hex k ns cs, hex_not_hyphen c)

shape_length :
    (k : ℕ) (ns : List ℕ) (t : Text) → shape k ns t ≡ true → length t ≡ k + sum_of ns + length ns
unfolding shape
shape_length zero [] [] h = refl
shape_length zero [] (c ∷ cs) h = cc
shape_length zero (n ∷ ns) [] h = cc
shape_length zero (n ∷ ns) (c ∷ cs) h = ground (arith, shape_length n ns cs)
shape_length (suc k) ns [] h = cc
shape_length (suc k) ns (c ∷ cs) h = ground (arith, shape_length k ns cs)

-- The digits of a canonical UUID name it.
pub uuid_of_hex-without_hyphens :
    (t : Text) → is_uuid t ≡ true → uuid_of_hex (without_hyphens t) ≡ t
unfolding is_uuid uuid_of_hex
uuid_of_hex-without_hyphens t h = hyphenate-without 8 groups t h

pub uuid_digits :
    (t : Text)
    → is_uuid t ≡ true
    → (all is_hex (without_hyphens t) ≡ true) × (length (without_hyphens t) ≡ 32)
unfolding is_uuid
uuid_digits t h = shape_hex 8 groups t h

pub uuid_length : (t : Text) → is_uuid t ≡ true → length t ≡ 36
unfolding is_uuid
uuid_length t h = shape_length 8 groups t h

-- models.py: `canonical_uuid`
unfoldable pub canonical_uuid : Json → Result String
unfolding is_uuid require_string
canonical_uuid value = do
  text ← require_string value
  if is_uuid (codes text) then ok text else err format_error
