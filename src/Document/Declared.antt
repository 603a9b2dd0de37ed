-- ===== src/Document/Declared.antt =====
-- models.py: `validate_parameters`, `validate_declared`, `validate_declarations` and
-- `_validate_step_resources`.
use httk_workflow.Base.{String, Bool, true, not, ◌&&◌, List, [], ◌∷◌, ltb, str_eq, if◌then◌else◌}
use httk_workflow.Errors.{Result, ok, guard, format_error}
use httk_workflow.Document.Returned.{◌>>=◌, ◌>>◌}
use httk_workflow.Json.{Json, str, obj, Members, end, field, get, has_key, insert, require_mapping}
use httk_workflow.Job.{validate_step}
use httk_workflow.Resources.{Resources, put, validate_resources}
use httk_workflow.Document.Shape.{only, validate_declaration_name}
use httk_workflow.Document.Size.{json_length}
use httk_workflow.Document.Environment.{maximum_bytes}

-- `if size > MAXIMUM_…_BYTES: raise`
unfoldable pub within_limit : Members → Result Members
within_limit m = do guard (not (ltb maximum_bytes (json_length (obj m)))) format_error; ok m

-- no key is empty
unfoldable pub keys_named : Members → Bool
keys_named end = true
keys_named (field k v m) = not (str_eq k "") && keys_named m

unfoldable pub validate_parameters : Json → Result Members
validate_parameters value = do
  mapping ← require_mapping value
  guard (keys_named mapping) format_error
  within_limit mapping

entries_into : Members → Members → Result Members
entries_into entries end = ok entries
entries_into entries (field key metadata rest) = do
  guard (not (str_eq key "")) format_error
  m ← require_mapping metadata
  entries_into (insert key (obj m) entries) rest

-- one turn of the loop over the sections
section_into : String → Members → Members → Result Members
unfolding entries_into
section_into section mapping result =
    if has_key section mapping
    then (do
      raw ← require_mapping (get section mapping)
      entries ← entries_into end raw
      ok (insert section (obj entries) result))
    else ok result

unfoldable pub validate_declared : Json → Result Members
unfolding section_into
validate_declared value = do
  mapping ← require_mapping value
  guard (only ("parameters" ∷ "inputs" ∷ []) mapping) format_error
  parameters ← section_into "parameters" mapping end
  result ← section_into "inputs" mapping parameters
  within_limit result

unfoldable pub declarations_into : Members → Members → Result Members
declarations_into result end = ok result
declarations_into result (field key document rest) = do
  declaration ← validate_declaration_name (str key)
  m ← require_mapping document
  declarations_into (insert declaration (obj m) result) rest

unfoldable pub validate_declarations : Json → Result Members
validate_declarations value = do
  mapping ← require_mapping value
  result ← declarations_into end mapping
  within_limit result

step_resources_into : List (String × Resources) → Members → Result (List (String × Resources))
step_resources_into result end = ok result
step_resources_into result (field raw_step raw_resources rest) = do
  step ← validate_step (str raw_step)
  needs ← validate_resources raw_resources
  step_resources_into (put step needs result) rest

unfoldable pub validate_step_resources : Json → Result (List (String × Resources))
unfolding step_resources_into
validate_step_resources value = do mapping ← require_mapping value; step_resources_into [] mapping
