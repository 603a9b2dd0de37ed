-- ===== src/Tests/Document.antt =====
-- A job document on which the theorems about accepted documents are applied, and tests.
use httk_workflow.Base.{◌≡◌, ◌↔◌, refl, pos, String, true, false, none, some, [], ◌∷◌, str_eq}
use httk_workflow.Errors.{ok, err, format_error}
use httk_workflow.Json.{
  Json, obj, str, int, Members, end, field, require_mapping, has_key, get, require_string, insert,
  lookup, is_str, is_int,
}
use httk_workflow.Json.Numbers.{codes}
use httk_workflow.Names.Text.{Text, expect, text_eq}
use httk_workflow.Job.{RetryPolicy, member_of, retry_policy, validate_step}
use httk_workflow.Document.Size.{encoded_length, json_length}
use httk_workflow.Document.Paths.{
  validate_runner_path, normalize_placement, parse_package_runner, package_parts, partition,
  relative_parts, runner_parts, is_unsafe, no_parts, workdir_parts, is_up,
}
use httk_workflow.Document.Environment.{
  Environment, validate_environment, is_reserved, declared_into, declared_entry,
  environment_variable_name, effective_setting, environment_value, override_fits,
  matches_environment_type, overrides_into,
}
use httk_workflow.Document.Definition.{
  Document, from_mapping, unless_null, option_of, every, array_of, one_of, runner_digest,
  no_environment, workdir_value, runner_members, workdir_members,
}
use httk_workflow.Document.Pinned.{Pinned, from_mapping-Pinned}
use httk_workflow.Document.Below.{Below}
use httk_workflow.Document.Rooted.{from_mapping-Below}
use httk_workflow.Document.Typed.{AllExportable, AllTyped, validate_environment-Typed}
use httk_workflow.Document.Joined.{path_text}
use httk_workflow.Document.Placement.{IsPlacement, normalize_placement_iff}
use httk_workflow.Document.FileNames.{AllFileNames, from_mapping-AllFileNames}
use httk_workflow.Document.Shape.{
  get_or, only, optional_string, is_dotted, is_upper, is_word, is_word_start, starts_with,
  validate_sha256, is_sha256, validate_declaration_name, is_declaration_name, declaration_pattern,
  is_name_char,
}
use httk_workflow.Document.Returned.{◌>>=◌}
use httk_workflow.Resources.{find, put, label_value, validate_resources}
use httk_workflow.Names.Path.{parts, is_absolute, is_special}
use httk_workflow.Document.Declared.{
  validate_parameters, validate_declared, validate_declarations, validate_step_resources,
  within_limit, keys_named, declarations_into,
}
use httk_workflow.Names.Uuid.{canonical_uuid, is_uuid}
use httk_workflow.Names.JobKey.{is_label}

abbrev digest : String
digest = "0123456789abcdef0123456789abcdef0123456789abcdef0123456789abcdef"

abbrev runner : Json
runner = obj (
    field "source" (str "installed")
      (field "path" (str "pkg:tools.relax/bin/run") (field "sha256" (str digest) end)))

abbrev environment : Json
environment = obj (
    field "declared"
      (obj (
        field "workers"
          (obj (field "type" (str "integer") (field "setting" (str "vasp.workers") end))) end))
      (field "overrides" (obj (field "workers" (int (pos 4)) end)) end))

abbrev document : Members
document = field "format" (str "httk-workflow-job") (
    field "format_version" (int (pos 2)) (
      field "id" (str "11111111-2222-4333-8444-555555555555") (
        field "name" (str "relax") (
          field "workflow" (str "relax") (
            field "runner" runner (
              field "workdir"
                (obj (field "mode" (str "isolated") (field "path" (str "./a/run") end)))
                (field "data" (obj (field "mode" (str "none") end)) (
                  field "initial_step" (str "start") (
                    field "priority" (int (pos 100)) (
                      field "claim" (obj (field "pool" (str "default") end)) (
                        field "environment" environment
                          (field "declarations" (obj (field "energy" (obj end) end)) end))))))))))))

abbrev its_environment : Environment
its_environment = record {
  declared =
      ("workers", field "type" (str "integer") (field "setting" (str "vasp.workers") end)) ∷ [];
  overrides = field "workers" (int (pos 4)) end;
}

abbrev its_policy : RetryPolicy
its_policy = record {
  maximum_attempts_per_activation = none;
  maximum_total_attempts = none;
  maximum_activations = none;
  retry_on = [];
}

abbrev its_document : Document
its_document = record {
  id = "11111111-2222-4333-8444-555555555555";
  tag = none;
  name = "relax";
  workflow = "relax";
  runner_executor = "path";
  runner_source = "installed";
  runner_path = codes "pkg:tools.relax" ∷ codes "bin" ∷ codes "run" ∷ [];
  runner_sha256 = some digest;
  runner_arguments = [];
  workdir_mode = "isolated";
  workdir_path = codes "a" ∷ codes "run" ∷ [];
  data_mode = "none";
  initial_step = "start";
  priority = pos 100;
  claim_pool = "default";
  required_capabilities = [];
  its_retry_policy = its_policy;
  resources = [];
  step_resources = [];
  parameters = end;
  environment = its_environment;
  declarations = field "energy" (obj end) end;
  declared = end;
  parent = none;
  raw = document;
}

environment-accepted : validate_environment environment ≡ ok its_environment
unfolding get_or only optional_string is_dotted is_upper is_word is_word_start starts_with ◌>>=◌
    validate_environment declared_into declared_entry is_reserved environment_variable_name
    effective_setting environment_value override_fits matches_environment_type overrides_into
    json_length require_mapping has_key get require_string insert lookup member_of expect find put
environment-accepted = refl

document-accepted : from_mapping document ≡ ok its_document
unfolding get_or only optional_string is_dotted is_upper is_word is_word_start starts_with ◌>>=◌
    validate_environment declared_into declared_entry is_reserved environment_variable_name
    effective_setting environment_value override_fits matches_environment_type overrides_into
    json_length require_mapping has_key get require_string insert lookup member_of expect find put
    validate_sha256 is_sha256 validate_declaration_name is_declaration_name declaration_pattern
    is_name_char validate_runner_path parse_package_runner package_parts partition relative_parts
    runner_parts is_unsafe no_parts workdir_parts is_up parts is_absolute is_special from_mapping
    unless_null option_of every array_of one_of runner_digest no_environment workdir_value
    runner_members workdir_members validate_parameters validate_declared validate_declarations
    validate_step_resources within_limit keys_named declarations_into is_str is_int retry_policy
    validate_step text_eq canonical_uuid is_uuid is_label label_value validate_resources
document-accepted = refl

placement-accepted : normalize_placement (codes "a//./b") ≡ ok (codes "a" ∷ codes "b" ∷ [])
unfolding normalize_placement relative_parts is_unsafe no_parts parts is_absolute is_special text_eq
    ◌>>=◌ encoded_length
placement-accepted = refl

-- A path that leaves the payload, the reserved form outside `installed`, and a reserved variable.
path-refused : validate_runner_path (str "bin/../run") false ≡ err format_error
unfolding validate_runner_path parse_package_runner package_parts partition relative_parts
    runner_parts is_unsafe no_parts parts is_absolute is_special expect text_eq ◌>>=◌ require_string
    is_dotted is_word is_word_start is_upper
path-refused = refl

package-refused : validate_runner_path (str "pkg:tools/run") false ≡ err format_error
unfolding validate_runner_path parse_package_runner package_parts partition relative_parts
    runner_parts is_unsafe no_parts parts is_absolute is_special expect text_eq ◌>>=◌ require_string
    is_dotted is_word is_word_start is_upper
package-refused = refl

name-reserved : is_reserved (codes "workflow.id") ≡ true
unfolding is_reserved starts_with expect environment_variable_name
name-reserved = refl

ligature-reserved : is_reserved (codes "workﬂow_id") ≡ true
unfolding is_reserved starts_with expect environment_variable_name
ligature-reserved = refl

-- {"workers":4}
size : json_length (obj (field "workers" (int (pos 4)) end)) ≡ 13
unfolding json_length
size = refl

from_mapping-Pinned_example :
    Pinned (str_eq its_document.runner_source "payload") its_document.runner_sha256
from_mapping-Pinned_example = from_mapping-Pinned document its_document document-accepted

from_mapping-Below_example :
    Below (codes "store" ∷ []) its_document.runner_path
    × Below (codes "store" ∷ []) its_document.workdir_path
from_mapping-Below_example =
    from_mapping-Below document its_document (codes "store" ∷ []) document-accepted

validate_environment-Typed_example :
    AllExportable its_environment.declared
    × AllTyped its_environment.declared its_environment.overrides
validate_environment-Typed_example =
    validate_environment-Typed environment its_environment environment-accepted

normalize_placement_iff_example :
    (((value : Text) × (normalize_placement value ≡ ok (codes "a" ∷ codes "b" ∷ [])))
      ↔ IsPlacement (codes "a" ∷ codes "b" ∷ []))
    × ((normalize_placement (path_text (codes "a" ∷ codes "b" ∷ []))
          ≡ ok (codes "a" ∷ codes "b" ∷ []))
        ↔ IsPlacement (codes "a" ∷ codes "b" ∷ []))
normalize_placement_iff_example = normalize_placement_iff (codes "a" ∷ codes "b" ∷ [])

-- The text `a//./b` shows that the two parts are a placement.
two_parts-IsPlacement : IsPlacement (codes "a" ∷ codes "b" ∷ [])
two_parts-IsPlacement = normalize_placement_iff_example.0.0 (codes "a//./b", placement-accepted)

from_mapping-AllFileNames_example : AllFileNames its_document.declarations
from_mapping-AllFileNames_example =
    from_mapping-AllFileNames document its_document document-accepted
