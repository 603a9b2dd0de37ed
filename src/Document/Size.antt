-- ===== src/Document/Size.antt =====
-- _util.py: `json_bytes`, of which the validators of models.py read only the length.
-- A text holds no lone surrogate here, so that the encoding into UTF-8 cannot fail.
use httk_workflow.Base.{
  ℕ, zero, suc, ◌+◌, ◌/◌, pos, negsuc, ◌||◌, [], ◌∷◌, ltb, ◌==◌, if◌then◌else◌, Bool, true, false,
}
use httk_workflow.Json.{Json, null, bool, int, str, arr, obj, Items, nil, cons, Members, end, field}
use httk_workflow.Json.Numbers.{codes}
use httk_workflow.Names.Text.{Text}

-- `len(chr(c).encode("utf-8"))`
utf8_length : ℕ → ℕ
utf8_length c = if ltb c 128 then 1 else if ltb c 2048 then 2 else if ltb c 65536 then 3 else 4

-- `len(text.encode("utf-8"))`
unfoldable pub encoded_length : Text → ℕ
unfolding utf8_length
encoded_length [] = 0
encoded_length (c ∷ cs) = utf8_length c + encoded_length cs

-- the characters with an escape of two characters: \b, \t, \n, \f, \r, the quote and the backslash
has_short_escape : ℕ → Bool
has_short_escape c =
    c == 8 || (c == 9 || (c == 10 || (c == 12 || (c == 13 || (c == 34 || c == 92)))))

character_length : ℕ → ℕ
unfolding has_short_escape utf8_length
character_length c = if has_short_escape c then 2 else if ltb c 32 then 6 else utf8_length c

characters_length : Text → ℕ
unfolding character_length
characters_length [] = 0
characters_length (c ∷ cs) = character_length c + characters_length cs

-- how many decimal digits a number has; a fuel as large as the number is enough
decimal_digits : ℕ → ℕ → ℕ
decimal_digits zero value = 1
decimal_digits (suc fuel) value = elim (ltb value 10) [
  | true ↦ 1
  | false ↦ suc (decimal_digits fuel (value / 10))
]

decimal_length : ℕ → ℕ
unfolding decimal_digits
decimal_length value = decimal_digits value value

text_length : Text → ℕ
unfolding characters_length
text_length text = 2 + characters_length text

-- `len(json_bytes(value))`; each member and each item carries the comma or bracket that ends it
unfoldable mutual
  unfolding text_length decimal_length

  pub json_length : Json → ℕ
  json_length null = 4
  json_length (bool true) = 4
  json_length (bool false) = 5
  json_length (int (pos n)) = decimal_length n
  json_length (int (negsuc n)) = 1 + decimal_length (suc n)
  json_length (str s) = text_length (codes s)
  json_length (arr nil) = 2
  json_length (arr (cons x xs)) = 1 + items_length (cons x xs)
  json_length (obj end) = 2
  json_length (obj (field k v m)) = 1 + members_length (field k v m)

  items_length : Items → ℕ
  items_length nil = 0
  items_length (cons x xs) = json_length x + 1 + items_length xs

  members_length : Members → ℕ
  members_length end = 0
  members_length (field k v m) = text_length (codes k) + 1 + json_length v + 1 + members_length m
