-- ===== src/Document/Shape.antt =====
-- models.py: how the validators of one job document read optional members and texts.
use httk_workflow.Base.{
  ℕ, String, Bool, true, false, not, ◌&&◌, ◌||◌, Option, none, some, List, [], ◌∷◌, all, length,
  leb, ◌==◌,
}
use httk_workflow.Errors.{Result, ok, guard, format_error}
use httk_workflow.Document.Returned.{◌>>=◌, ◌>>◌}
use httk_workflow.Json.{Json, null, Members, end, field, lookup, require_string}
use httk_workflow.Json.Numbers.{codes}
use httk_workflow.Job.{member_of}
use httk_workflow.Names.Text.{Text, is_digit, is_lower, is_hex, expect}

-- `mapping.get(name, default)`
unfoldable pub get_or : String → Json → Members → Json
unfolding lookup
get_or k default m = elim (lookup k m) [ none ↦ default | some v ↦ v ]

-- `set(mapping) <= names`
unfoldable pub only : List String → Members → Bool
only names end = true
only names (field k v m) = member_of k names && only names m

-- `None if value is None else require_string(value, name)`
unfoldable pub optional_string : Json → Result (Option String)
optional_string null = ok none
optional_string v = do s ← require_string v; ok (some s)

unfoldable pub is_upper : ℕ → Bool
is_upper c = leb 65 c && leb c 90

-- [A-Za-z_] and [A-Za-z0-9_]
unfoldable pub is_word_start : ℕ → Bool
unfolding is_upper
is_word_start c = is_upper c || (is_lower c || c == 95)

unfoldable pub is_word : ℕ → Bool
unfolding is_word_start
is_word c = is_word_start c || is_digit c

-- [A-Za-z_][A-Za-z0-9_]*(\.[A-Za-z_][A-Za-z0-9_]*)*: `fresh` says that a component starts here
dotted : Bool → Text → Bool
unfolding is_word_start is_word
dotted fresh [] = not fresh
dotted true (c ∷ cs) = is_word_start c && dotted false cs
dotted false (c ∷ cs) = (is_word c && dotted false cs) || (c == 46 && dotted true cs)

unfoldable pub is_dotted : Text → Bool
unfolding dotted
is_dotted text = dotted true text

-- [A-Za-z0-9._-]
unfoldable pub is_name_char : ℕ → Bool
unfolding is_word
is_name_char c = is_word c || (c == 46 || c == 45)

-- `".." in text`
has_double_dot : Text → Bool
has_double_dot [] = false
has_double_dot (a ∷ []) = false
has_double_dot (a ∷ (b ∷ cs)) = (a == 46 && b == 46) || has_double_dot (b ∷ cs)

-- `_DECLARATION_NAME_PATTERN.fullmatch(text)`
unfoldable pub declaration_pattern : Text → Bool
unfolding is_name_char is_word
declaration_pattern [] = false
declaration_pattern (c ∷ cs) = is_word c && all is_name_char cs && leb (length cs) 63

unfoldable pub is_declaration_name : Text → Bool
unfolding declaration_pattern has_double_dot
is_declaration_name text = declaration_pattern text && not (has_double_dot text)

unfoldable pub validate_declaration_name : Json → Result String
validate_declaration_name v = do
  text ← require_string v
  guard (is_declaration_name (codes text)) format_error
  ok text

-- `_SHA256_PATTERN.fullmatch(text)`
unfoldable pub is_sha256 : Text → Bool
is_sha256 text = all is_hex text && length text == 64

unfoldable pub validate_sha256 : Json → Result String
validate_sha256 v = do text ← require_string v; guard (is_sha256 (codes text)) format_error; ok text

-- `text.startswith(prefix)`
unfoldable pub starts_with : Text → Text → Bool
unfolding expect
starts_with prefix text = elim (expect prefix text) [ none ↦ false | some _ ↦ true ]
