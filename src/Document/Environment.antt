-- ===== src/Document/Environment.antt =====
-- models.py: `validate_environment`, the declared and overridden environment of a workflow.
use httk_workflow.Base.{
  ℕ, ◌-◌, String, Bool, true, false, not, ◌&&◌, ◌||◌, Option, none, some, List, [], ◌∷◌, ◌++◌, ltb,
  ◌==◌, str_eq, if◌then◌else◌,
}
use httk_workflow.Errors.{Result, ok, guard, require, format_error}
use httk_workflow.Document.Returned.{◌>>=◌, ◌>>◌}
use httk_workflow.Json.{
  Json, bool, int, str, arr, obj, Members, end, field, get, has_key, insert, as_text,
  require_mapping, require_string,
}
use httk_workflow.Json.Numbers.{codes}
use httk_workflow.Job.{member_of}
use httk_workflow.Names.Text.{Text, is_lower}
use httk_workflow.Resources.{find, put}
use httk_workflow.Document.Shape.{get_or, only, optional_string, is_dotted, starts_with}
use httk_workflow.Document.Size.{json_length}

pub record Environment : Type 0 where
  pub declared : List (String × Members)
  pub overrides : Members

is_str_value : Json → Bool
is_str_value (str _) = true
is_str_value _ = false

-- every number is an integer here
is_number : Json → Bool
is_number (int _) = true
is_number _ = false

is_bool : Json → Bool
is_bool (bool _) = true
is_bool _ = false

is_list : Json → Bool
is_list (arr _) = true
is_list _ = false

is_dict : Json → Bool
is_dict (obj _) = true
is_dict _ = false

-- `_matches_environment_type`
unfoldable pub matches_environment_type : Json → String → Bool
unfolding is_str_value is_number is_bool is_list is_dict
matches_environment_type value environment_type =
    if str_eq environment_type "string"
    then is_str_value value
    else if str_eq environment_type "number"
    then is_number value
    else if str_eq environment_type "integer"
    then is_number value
    else if str_eq environment_type "boolean"
    then is_bool value
    else if str_eq environment_type "array"
    then is_list value
    else is_dict value

-- `setting.upper().replace(".", "_")`, character by character. Of the characters beyond ASCII only
-- the ligature fl becomes letters of WORKFLOW; the others are kept, and never make a reserved name.
variable_characters : Text → Text
variable_characters [] = []
variable_characters (c ∷ cs) =
    let rest = variable_characters cs in
    if is_lower c
    then (c - 32) ∷ rest
    else if c == 46
    then 95 ∷ rest
    else if c == 64258
    then 70 ∷ (76 ∷ rest)
    else c ∷ rest

unfoldable pub environment_variable_name : Text → Text
unfolding variable_characters
environment_variable_name setting = codes "HTTK_" ++ variable_characters setting

-- `_validate_environment_setting` raises
unfoldable pub is_reserved : Text → Bool
is_reserved setting = starts_with (codes "HTTK_WORKFLOW_") (environment_variable_name setting)

-- `metadata.get("setting")`, and the key when there is none
unfoldable pub effective_setting : String → Option String → Text
effective_setting key none = codes key
effective_setting key (some setting) = codes setting

dotted_setting : Option String → Bool
dotted_setting none = true
dotted_setting (some setting) = is_dotted (codes setting)

environment_types : List String
environment_types = "string" ∷ "number" ∷ "integer" ∷ "boolean" ∷ "array" ∷ "object" ∷ []

type_accepted : Members → Option String → Bool
unfolding environment_types
type_accepted metadata none = true
type_accepted metadata (some t) =
    member_of t environment_types
    && (not (has_key "default" metadata) || matches_environment_type (get "default" metadata) t)

description_accepted : Members → Result String
description_accepted metadata =
    if has_key "description" metadata then require_string (get "description" metadata) else ok ""

-- one entry of `declared`
unfoldable pub declared_entry : String → Json → Result Members
unfolding type_accepted description_accepted dotted_setting
declared_entry key raw = do
  guard (not (str_eq key "")) format_error
  metadata ← require_mapping raw
  guard (only ("type" ∷ "description" ∷ "default" ∷ "setting" ∷ []) metadata) format_error
  description ← description_accepted metadata
  environment_type ← optional_string (get "type" metadata)
  guard (type_accepted metadata environment_type) format_error
  setting ← optional_string (get "setting" metadata)
  guard (dotted_setting setting) format_error
  guard (not (is_reserved (effective_setting key setting))) format_error
  ok metadata

unfoldable pub declared_into : List (String × Members) → Members → Result (List (String × Members))
declared_into declared end = ok declared
declared_into declared (field key raw rest) = do
  metadata ← declared_entry key raw
  declared_into (put key metadata declared) rest

-- `not isinstance(environment_type, str) or _matches_environment_type(override, environment_type)`
unfoldable pub override_fits : Members → Json → Bool
override_fits metadata override = elim (as_text (get "type" metadata)) [
  | none ↦ true
  | some t ↦ matches_environment_type override t
]

unfoldable pub overrides_into : List (String × Members) → Members → Members → Result Members
overrides_into declared overrides end = ok overrides
overrides_into declared overrides (field key override rest) = do
  metadata ← require (find key declared) format_error
  guard (override_fits metadata override) format_error
  overrides_into declared (insert key override overrides) rest

objects : List (String × Members) → Members
objects [] = end
objects ((k, m) ∷ ms) = field k (obj m) (objects ms)

-- `{"declared": declared, "overrides": overrides}`
unfoldable pub environment_value : Environment → Json
unfolding objects
environment_value e =
    obj (field "declared" (obj (objects e.declared)) (field "overrides" (obj e.overrides) end))

-- MAXIMUM_ENVIRONMENT_BYTES, which is the bound of the other members too
abbrev pub maximum_bytes : ℕ
maximum_bytes = 262144

unfoldable pub validate_environment : Json → Result Environment
validate_environment value = do
  mapping ← require_mapping value
  declared_raw ← require_mapping (get_or "declared" (obj end) mapping)
  overrides_raw ← require_mapping (get_or "overrides" (obj end) mapping)
  declared ← declared_into [] declared_raw
  overrides ← overrides_into declared end overrides_raw
  guard
      (not (
        ltb maximum_bytes (
          json_length (environment_value (record { declared = declared; overrides = overrides })))))
      format_error
  ok (record { declared = declared; overrides = overrides })
