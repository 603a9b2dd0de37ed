-- ===== src/Json.antt =====
-- JSON values as `json.loads` returns them, and the dictionary operations that the code makes.
-- Numbers with a fraction are not modelled; every number of the protocol that is compared is an
-- integer. A dictionary keeps the order of insertion, and writing a key again keeps its place.
pub mod Numbers
use httk_workflow.Base.{
  String, ℤ, pos, eq_ℤ, Bool, true, false, not, Option, none, some, List, [], ◌∷◌, ◌≡◌, refl, arith,
  str_eq, eq_iff, if◌then◌else◌,
}
use httk_workflow.Errors.{Result, ok, err, format_error}

mutual
  pub data Json : Type 0 where
    null : Json
    bool : Bool → Json
    int : ℤ → Json
    str : String → Json
    arr : Items → Json
    obj : Members → Json

  pub data Items : Type 0 where
    nil : Items
    cons : Json → Items → Items

  pub data Members : Type 0 where
    end : Members
    field : String → Json → Members → Members

-- `members.get(name)` that tells an absent member from a null one
unfoldable pub lookup : String → Members → Option Json
lookup k end = none
lookup k (field j v m) = if str_eq j k then some v else lookup k m

-- `members[name] = value`
unfoldable pub insert : String → Json → Members → Members
insert k v end = field k v end
insert k v (field j w m) = if str_eq j k then field j v m else field j w (insert k v m)

-- `{name: value for name, value in members.items() if name != k}`
unfoldable pub remove : String → Members → Members
remove k end = end
remove k (field j w m) = let rest = remove k m in if str_eq j k then rest else field j w rest

-- `name in members`
unfoldable pub has_key : String → Members → Bool
unfolding lookup
has_key k m = elim (lookup k m) [ none ↦ false | some _ ↦ true ]

-- `members.get(name)`: an absent member reads as None
unfoldable pub get : String → Members → Json
unfolding lookup
get k m = elim (lookup k m) [ none ↦ null | some v ↦ v ]

-- `dict.update`, and the later part of `{**a, **b}`
unfoldable pub update : Members → Members → Members
unfolding insert
update m end = m
update m (field k v r) = update (insert k v m) r

abbrev pub items_of : Items → List Json
items_of nil = []
items_of (cons x xs) = x ∷ items_of xs

abbrev pub items : List Json → Items
items [] = nil
items (x ∷ xs) = cons x (items xs)

abbrev pub is_null : Json → Bool
is_null null = true
is_null _ = false

-- `value == "text"`
unfoldable pub is_str : String → Json → Bool
is_str s (str t) = str_eq t s
is_str s _ = false

-- `value == n` of Python, for which True is 1 and False is 0
unfoldable pub is_int : ℤ → Json → Bool
is_int n (int z) = eq_ℤ z n
is_int n (bool true) = eq_ℤ (pos 1) n
is_int n (bool false) = eq_ℤ (pos 0) n
is_int n _ = false

-- `isinstance(value, str)`
abbrev pub as_text : Json → Option String
as_text (str s) = some s
as_text _ = none

-- `isinstance(value, Mapping)`
abbrev pub as_mapping : Json → Option Members
as_mapping (obj m) = some m
as_mapping _ = none

-- `isinstance(value, Sequence) and not isinstance(value, (str, bytes))`
abbrev pub as_array : Json → Option (List Json)
as_array (arr xs) = some (items_of xs)
as_array _ = none

-- `isinstance(value, int) and not isinstance(value, bool)`
abbrev pub as_int : Json → Option ℤ
as_int (int z) = some z
as_int _ = none

-- `bool(value)`
unfoldable pub truthy : Json → Bool
truthy null = false
truthy (bool b) = b
truthy (int z) = not (eq_ℤ z (pos 0))
truthy (str s) = not (str_eq s "")
truthy (arr nil) = false
truthy (arr (cons _ _)) = true
truthy (obj end) = false
truthy (obj (field _ _ _)) = true

-- _util.py
unfoldable pub require_mapping : Json → Result Members
require_mapping (obj m) = ok m
require_mapping _ = err format_error

unfoldable pub require_string : Json → Result String
require_string (str s) = if str_eq s "" then err format_error else ok s
require_string _ = err format_error

-- A read after a write.
pub lookup-insert :
    (k j : String) (v : Json) (m : Members)
    → lookup j (insert k v m) ≡ (if str_eq k j then some v else lookup j m)
unfolding lookup insert
lookup-insert k j v end = refl
lookup-insert k j v (field i w m) =
    ground (arith, eq_iff k j, eq_iff i k, eq_iff i j, lookup-insert k j v m)

pub lookup-remove :
    (k j : String) (m : Members) → lookup j (remove k m) ≡ (if str_eq k j then none else lookup j m)
unfolding lookup remove
lookup-remove k j end = ground arith
lookup-remove k j (field i w m) =
    ground (arith, eq_iff k j, eq_iff i k, eq_iff i j, lookup-remove k j m)
