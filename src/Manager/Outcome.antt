-- ===== src/Manager/Outcome.antt =====
-- _manager_commit.py: what `process_committing` does with the action of an outcome, once the
-- transaction is replayed and the children are registered.
use httk_workflow.Base.{
  ℤ, pos, leb_ℤ, String, false, not, ◌&&◌, ◌||◌, Option, none, some, List, [], ◌∷◌, if◌then◌else◌,
  map,
}
use httk_workflow.Errors.{Result, ok, err, format_error}
use httk_workflow.Json.{
  Json, null, int, str, arr, obj, items, Members, get, has_key, insert, as_array, as_mapping,
  as_text, is_str, require_mapping,
}
use httk_workflow.Kinds.{waiting, succeeded, failed, paused}
use httk_workflow.Marker.{Marker}
use httk_workflow.Resources.{Resources, validate_resources, find}
use httk_workflow.Job.{JobDefinition, validate_step}
use httk_workflow.Scheduling.{retry_budget_available}
use httk_workflow.Frame.{StateFrame, Member, replace, carried}
use httk_workflow.World.{Host, Step, ◌>>=◌, of, raise}
use httk_workflow.Manager.Deferral.{move}
use httk_workflow.Manager.Failure.{Failure, validate_failure, failure_json}
use httk_workflow.Manager.Commit.{failure, optional_resources, retain_process, advance, retry}

-- what a commit has at hand for the next state
pub record Commit : Type 0 where
  pub job : JobDefinition
  pub state : StateFrame
  pub outcome : Members
  pub progress : StateFrame
  pub resources : Option Resources
  pub priority : ℤ

-- the retry of a failure that the runner declared retryable, while both budgets last
declared_failure : Host → Marker → Commit → Failure → Step Marker
unfolding failure_json
declared_failure h marker c f =
    if f.retryable && retry_budget_available c.job c.state
    then retry h marker c.job c.state (record {
      progress = c.progress;
      reason = f.code;
      unclean = false;
      takeover_evidence = none;
      priority = some c.priority;
    })
    else move h marker failed
        (replace c.progress
          ((Member.failure, failure_json f) ∷ (Member.reason, str "declared_failure") ∷ []))
        (some c.priority)

unfoldable pub fail_action : Host → Marker → Commit → Result Failure → Step Marker
unfolding declared_failure
fail_action h marker c (ok f) = declared_failure h marker c f
fail_action h marker c (err e) =
    move h marker failed
      (replace c.progress (
        (
          Member.failure,
          failure "protocol_error" "runner published a malformed failure object" none,
        )
        ∷ (Member.reason, str "protocol_error")
        ∷ []))
      (some c.priority)

-- `nested_reason`
nested_reason : String → Members → Result String
nested_reason key outcome = elim (as_mapping (get key outcome)) [
  | none ↦ err format_error
  | some m ↦ elim (as_text (get "reason" m)) [ none ↦ err format_error | some s ↦ ok s ]
]

-- `outcome.get("resources")` of an action that may set them
next_resources : Members → Result (Option Resources)
next_resources outcome =
    if not (has_key "resources" outcome)
    then ok none
    else if is_str "advance" (get "action" outcome) || is_str "wait" (get "action" outcome)
    then elim (validate_resources (get "resources" outcome)) [ err e ↦ err e | ok r ↦ ok (some r) ]
    else err format_error

-- `require_int(priority_raw, "outcome.priority", maximum=999)`
next_priority : ℤ → Json → Result ℤ
next_priority present null = ok present
next_priority present (int z) =
    if leb_ℤ (pos 0) z && leb_ℤ z (pos 999) then ok z else err format_error
next_priority present _ = err format_error

valid_steps : List Json → Option (List Json)
valid_steps [] = some []
valid_steps (x ∷ xs) = elim (validate_step x) [
  | err _ ↦ none
  | ok step ↦ elim (valid_steps xs) [ none ↦ none | some rest ↦ some (str step ∷ rest) ]
]

-- `declared_runner_steps`: what cannot be used is ignored
declared_steps : Json → StateFrame → StateFrame
unfolding valid_steps
declared_steps value progress = elim (as_array value) [
  | none ↦ progress
  | some xs ↦ elim (valid_steps xs) [
    | none ↦ progress
    | some steps ↦ replace progress ((Member.runner_steps, arr (items steps)) ∷ [])
  ]
]

with_process : StateFrame → StateFrame → StateFrame
with_process state progress =
    if has_key "process" state
    then replace progress ((Member.process, get "process" state) ∷ [])
    else progress

advance_action : Host → Marker → Commit → Step Marker
advance_action h marker c = of (validate_step (get "next_step" c.outcome)) >>= λ step.
    advance h marker c.job c.state (record {
      next_step = step;
      progress = c.progress;
      reason = "advance";
      join_summary = none;
      resources = c.resources;
      priority = some c.priority;
    })

retry_action : Host → Marker → Commit → Step Marker
unfolding nested_reason
retry_action h marker c = of (nested_reason "retry" c.outcome) >>= λ reason.
    retry h marker c.job c.state (record {
      progress = c.progress;
      reason = reason;
      unclean = false;
      takeover_evidence = none;
      priority = some c.priority;
    })

-- `spawn_labels`: the labels of the children by job key, as the spawn file gives them
abbrev pub Labels : Type 0
Labels = Result (List (String × String))

with_label : Option String → Members → Members
with_label none reference = reference
with_label (some label) reference = insert "label" (str label) reference

labeled_reference : List (String × String) → Json → Json
unfolding with_label
labeled_reference labels (obj reference) = elim (get "label" reference) [
  | null ↦ elim (get "job_key" reference) [
    | str key ↦ obj (with_label (find key labels) reference)
    | _ ↦ obj reference
  ]
  | _ ↦ obj reference
]
labeled_reference labels raw = raw

-- `labeled_join`
labeled_join : Members → List (String × String) → Members
unfolding labeled_reference
labeled_join join labels = elim (as_array (get "children" join)) [
  | none ↦ join
  | some children ↦ insert "children" (arr (items (map (labeled_reference labels) children))) join
]

wait_action : Host → Marker → Commit → Labels → Step Marker
unfolding labeled_join
wait_action h marker c labels = of (validate_step (get "next_step" c.outcome)) >>= λ step.
    of (require_mapping (get "join" c.outcome)) >>= λ join. of labels >>= λ known.
    move h marker waiting
      (replace c.progress (
        (Member.next_step, str step)
        ∷ (Member.resources, optional_resources c.resources)
        ∷ (Member.join, obj (labeled_join join known))
        ∷ (Member.reason, str "waiting_for_children")
        ∷ []))
      (some c.priority)

succeed_action : Host → Marker → Commit → Step Marker
succeed_action h marker c =
    move h marker succeeded (replace c.progress ((Member.reason, str "succeeded") ∷ []))
      (some c.priority)

pause_action : Host → Marker → Commit → Step Marker
unfolding with_process
pause_action h marker c =
    move h marker paused
      (replace (with_process c.state c.progress)
        ((Member.pause, get "pause" c.outcome) ∷ (Member.reason, str "step_paused") ∷ []))
      (some c.priority)

unfoldable pub act : Host → Marker → Commit → Labels → Step Marker
unfolding advance_action retry_action wait_action succeed_action pause_action
act h marker c labels =
    let action = get "action" c.outcome in
    if is_str "advance" action
    then advance_action h marker c
    else if is_str "retry" action
    then retry_action h marker c
    else if is_str "wait" action
    then wait_action h marker c labels
    else if is_str "succeed" action
    then succeed_action h marker c
    else if is_str "fail" action
    then fail_action h marker c (validate_failure (get "failure" c.outcome))
    else if is_str "pause" action
    then pause_action h marker c
    else raise format_error

-- the part of `process_committing` that follows the commit of the executor
pub settle : Host → Marker → JobDefinition → StateFrame → Members → Json → Labels → Step Marker
unfolding next_resources next_priority declared_steps
settle h marker job state outcome data_generation labels =
    of (next_resources outcome) >>= λ resources.
    of (
      retain_process state (
        declared_steps (get "runner_steps" outcome)
          (replace (carried state) ((Member.data_generation, data_generation) ∷ []))))
    >>= λ progress. of (next_priority marker.priority (get "priority" outcome)) >>= λ priority.
        act h marker
          (record {
            job = job;
            state = state;
            outcome = outcome;
            progress = progress;
            resources = resources;
            priority = priority;
          })
          labels
