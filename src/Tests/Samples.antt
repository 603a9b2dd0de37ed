-- ===== src/Tests/Samples.antt =====
-- A small workspace: one job, its frame, a manager, and a host on which every rename is performed.
use httk_workflow.Base.{ℕ, zero, suc, pos, String, false, none, some, [], ◌∷◌}
use httk_workflow.Errors.{ok}
use httk_workflow.Json.{str, int, obj, Members, end, field}
use httk_workflow.Kinds.{ready}
use httk_workflow.Marker.{Marker}
use httk_workflow.Resources.{Resources}
use httk_workflow.Job.{JobDefinition, RetryPolicy}
use httk_workflow.Frame.{StateFrame}
use httk_workflow.Scheduling.{ManagerConfig}
use httk_workflow.World.{Host, World, performed, refused}

abbrev pub key : String
key = "11111111-2222-4333-8444-555555555555"

abbrev pub marker : Marker
marker = record {
  kind = ready;
  placement = "project";
  job_key = key;
  priority = pos 100;
  generation = 4;
  record_ref = "r4";
}

abbrev pub policy : RetryPolicy
policy = record {
  maximum_attempts_per_activation = some (pos 3);
  maximum_total_attempts = none;
  maximum_activations = some (pos 5);
  retry_on = "process_failure" ∷ [];
}

abbrev pub needs : Resources
needs = ("procs", 2) ∷ []

abbrev pub job : JobDefinition
job = record {
  job_key = key;
  priority = pos 100;
  runner_executor = "python";
  persistent = false;
  transactional = false;
  initial_step = "start";
  claim_pool = "default";
  required_capabilities = [];
  retry_policy = policy;
  resources = needs;
  step_resources = [];
  parent = none;
  digest = "d";
}

abbrev pub frame : StateFrame
frame = field "format" (str "httk-workflow-state") (
    field "format_version" (int (pos 2)) (
      field "workspace_id" (str "w") (
        field "job_key" (str key) (
          field "state_generation" (int (pos 4)) (
            field "kind" (str "ready") (
              field "step" (str "start") (
                field "activation_id" (str "a1") (
                  field "activation_ordinal" (int (pos 1)) (
                    field "attempt_ordinal" (int (pos 1))
                      (field "total_attempts" (int (pos 1)) end))))))))))

abbrev pub pause_request : Members
pause_request = field "operator" (str "ann") (field "request_id" (str "q") end)

abbrev pub pausing : StateFrame
pausing = field "pause_requested" (obj pause_request) (field "step" (str "start") end)

abbrev pub config : ManagerConfig
config = record {
  resources = ("procs", 8) ∷ ("mem", 64) ∷ [];
  maximum_workers = 2;
  pools = "default" ∷ [];
  accept_any_pool = false;
  capabilities = [];
  allowed_executors = "python" ∷ [];
  executors = "python" ∷ [];
}

abbrev pub reference : ℕ → String
reference zero = "x0"
reference (suc zero) = "x1"
reference (suc (suc n)) = "x2"

abbrev pub host : Host
host = record {
  utc_now = λ n. "now";
  uuid4 = λ n. "u";
  record_ref = λ n. reference n;
  append_fault = λ n. none;
  attempts = λ n. refused ∷ performed ∷ [];
}

abbrev pub world : World
world = record {
  workspace_id = "w";
  markers = marker ∷ [];
  journal = ("r4", ok frame) ∷ [];
  payloads = (key, ok job) ∷ [];
  sealed = false;
  sealed_jobs = [];
  tick = 0;
}
