-- ===== src/Document/Definition.antt =====
-- models.py: `JobDefinition`, every member of it, and `JobDefinition.from_mapping`.
use httk_workflow.Base.{
  ℤ, pos, leb_ℤ, String, Bool, ◌&&◌, Option, none, some, List, [], ◌∷◌, str_eq, if◌then◌else◌,
}
use httk_workflow.Errors.{Result, ok, guard, require, format_error}
use httk_workflow.Json.{
  Json, str, arr, obj, nil, Members, end, get, is_null, is_str, is_int, as_int, as_array,
  require_mapping, require_string,
}
use httk_workflow.Json.Numbers.{codes}
use httk_workflow.Job.{RetryPolicy, retry_policy, member_of, validate_step}
use httk_workflow.Names.Text.{Text}
use httk_workflow.Names.Uuid.{canonical_uuid}
use httk_workflow.Resources.{Resources, label_value, validate_resources}
use httk_workflow.Document.Shape.{get_or, validate_sha256}
use httk_workflow.Document.Returned.{◌>>=◌, ◌>>◌}
use httk_workflow.Document.Paths.{validate_runner_path, workdir_parts}
use httk_workflow.Document.Environment.{Environment, validate_environment}
use httk_workflow.Document.Declared.{
  validate_parameters, validate_declared, validate_declarations, validate_step_resources,
}

-- The set of required capabilities is kept as the list that was read.
pub record Document : Type 0 where
  pub id : String
  pub tag : Option String
  pub name : String
  pub workflow : String
  pub runner_executor : String
  pub runner_source : String
  pub runner_path : List Text
  pub runner_sha256 : Option String
  pub runner_arguments : List String
  pub workdir_mode : String
  pub workdir_path : List Text
  pub data_mode : String
  pub initial_step : String
  pub priority : ℤ
  pub claim_pool : String
  pub required_capabilities : List String
  pub its_retry_policy : RetryPolicy
  pub resources : Resources
  pub step_resources : List (String × Resources)
  pub parameters : Members
  pub environment : Environment
  pub declarations : Members
  pub declared : Members
  pub parent : Option Members
  pub raw : Members

-- `default if raw is None else validate(raw)`
unfoldable pub unless_null {ℓ} : {A : Type ℓ} → A → (Json → Result A) → Json → Result A
unless_null default validate raw = if is_null raw then ok default else validate raw

-- `validate(raw)`, of a member that may be null
unfoldable pub option_of : (Json → Result String) → Json → Result (Option String)
option_of validate raw = do s ← validate raw; ok (some s)

option_mapping : Json → Result (Option Members)
option_mapping raw = do m ← require_mapping raw; ok (some m)

-- `tuple(validate(item) for item in items)`
unfoldable pub every {ℓ} : {A : Type ℓ} → (Json → Result A) → List Json → Result (List A)
every validate [] = ok []
every validate (x ∷ xs) = do a ← validate x; rest ← every validate xs; ok (a ∷ rest)

-- an array, each item of which is validated
unfoldable pub array_of {ℓ} : {A : Type ℓ} → (Json → Result A) → Json → Result (List A)
array_of validate raw = do items ← require (as_array raw) format_error; every validate items

-- a nonempty text that is one of a few
unfoldable pub one_of : List String → Json → Result String
one_of names raw = do s ← require_string raw; guard (member_of s names) format_error; ok s

-- `runner.sha256`, by `runner.source`
unfoldable pub runner_digest : Bool → Json → Result (Option String)
runner_digest is_payload raw =
    if is_payload
    then (do guard (is_null raw) format_error; ok none)
    else option_of validate_sha256 raw

-- `require_int(value, "priority", maximum=999)`
validate_priority : Json → Result ℤ
validate_priority raw = do
  z ← require (as_int raw) format_error
  guard (leb_ℤ (pos 0) z && leb_ℤ z (pos 999)) format_error
  ok z

unfoldable pub no_environment : Environment
no_environment = record { declared = []; overrides = end }

unfoldable pub workdir_value : Json → Result (List Text)
workdir_value raw = do s ← require_string raw; workdir_parts (codes s)

-- the members of `runner`
pub record Runner : Type 0 where
  pub executor : String
  pub arguments : List String
  pub source : String
  pub path : List Text
  pub sha256 : Option String

unfoldable pub runner_members : Json → Result Runner
runner_members raw = do
  runner ← require_mapping raw
  executor ← label_value (get_or "executor" (str "path") runner)
  arguments ← array_of require_string (get_or "arguments" (arr nil) runner)
  source ←
      one_of ("payload" ∷ "workspace" ∷ "installed" ∷ []) (get_or "source" (str "payload") runner)
  path ← validate_runner_path (get "path" runner) (str_eq source "installed")
  sha256 ← runner_digest (str_eq source "payload") (get "sha256" runner)
  ok (record {
    executor = executor;
    arguments = arguments;
    source = source;
    path = path;
    sha256 = sha256;
  })

-- the members of `workdir`
unfoldable pub workdir_members : Json → Result (String × List Text)
workdir_members raw = do
  workdir ← require_mapping raw
  mode ← one_of ("persistent" ∷ "isolated" ∷ []) (get "mode" workdir)
  path ← workdir_value (get_or "path" (str "run") workdir)
  ok (mode, path)

unfoldable pub from_mapping : Members → Result Document
unfolding option_mapping validate_priority no_environment
from_mapping value = do
  guard
      (is_str "httk-workflow-job" (get "format" value)
        && is_int (pos 2) (get "format_version" value))
      format_error
  id ← canonical_uuid (get "id" value)
  tag ← unless_null none (option_of label_value) (get "tag" value)
  runner ← runner_members (get "runner" value)
  (workdir_mode, workdir_path) ← workdir_members (get "workdir" value)
  data_member ← require_mapping (get "data" value)
  data_mode ← one_of ("none" ∷ "transactional" ∷ []) (get "mode" data_member)
  claim ← require_mapping (get "claim" value)
  required_capabilities ← array_of label_value (get_or "required_capabilities" (arr nil) claim)
  resources ← validate_resources (get_or "resources" (obj end) value)
  step_resources ← validate_step_resources (get_or "step_resources" (obj end) value)
  parameters ← unless_null end validate_parameters (get "parameters" value)
  environment ← unless_null no_environment validate_environment (get "environment" value)
  declarations ← unless_null end validate_declarations (get "declarations" value)
  declared ← unless_null end validate_declared (get "declared" value)
  parent ← unless_null none option_mapping (get "parent" value)
  name ← require_string (get "name" value)
  workflow ← require_string (get "workflow" value)
  initial_step ← validate_step (get "initial_step" value)
  priority ← validate_priority (get "priority" value)
  claim_pool ← label_value (get "pool" claim)
  policy ← retry_policy (get_or "retry_policy" (obj end) value)
  ok (record {
    id = id;
    tag = tag;
    name = name;
    workflow = workflow;
    runner_executor = runner.executor;
    runner_source = runner.source;
    runner_path = runner.path;
    runner_sha256 = runner.sha256;
    runner_arguments = runner.arguments;
    workdir_mode = workdir_mode;
    workdir_path = workdir_path;
    data_mode = data_mode;
    initial_step = initial_step;
    priority = priority;
    claim_pool = claim_pool;
    required_capabilities = required_capabilities;
    its_retry_policy = policy;
    resources = resources;
    step_resources = step_resources;
    parameters = parameters;
    environment = environment;
    declarations = declarations;
    declared = declared;
    parent = parent;
    raw = value;
  })
