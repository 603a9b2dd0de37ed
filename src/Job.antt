-- ===== src/Job.antt =====
-- models.py: `RetryPolicy`, and the members of `JobDefinition` that the manager reads.
use Prim.Native.String
use httk_workflow.Json.Numbers.{codes}
use httk_workflow.Base.{
  ℕ, not, ltb, any, ◌==◌, ℤ, pos, leb_ℤ, String, Bool, false, Option, none, some, List, [], ◌∷◌,
  str_eq, ◌||◌, if◌then◌else◌,
}
use httk_workflow.Errors.{Result, ok, err, ◌>>=◌, ◌>>◌, guard, require, format_error}
use httk_workflow.Json.{
  Json, null, int, arr, nil, Members, get, has_key, require_mapping, require_string, as_array,
}
use httk_workflow.Resources.{Resources}

pub record RetryPolicy : Type 0 where
  pub maximum_attempts_per_activation : Option ℤ
  pub maximum_total_attempts : Option ℤ
  pub maximum_activations : Option ℤ
  pub retry_on : List String

-- `require_int(raw, name, minimum=1)` of a member that is not null
optional_limit : Json → Result (Option ℤ)
optional_limit null = ok none
optional_limit (int z) = if leb_ℤ (pos 1) z then ok (some z) else err format_error
optional_limit _ = err format_error

strings : List Json → Result (List String)
strings [] = ok []
strings (x ∷ xs) = do s ← require_string x; rest ← strings xs; ok (s ∷ rest)

-- `RetryPolicy.from_mapping`
unfoldable pub retry_policy : Json → Result RetryPolicy
unfolding optional_limit strings
retry_policy value = do
  mapping ← require_mapping value
  raw ←
      require (as_array (if has_key "retry_on" mapping then get "retry_on" mapping else arr nil))
        format_error
  retry_on ← strings raw
  attempts ← optional_limit (get "maximum_attempts_per_activation" mapping)
  total ← optional_limit (get "maximum_total_attempts" mapping)
  activations ← optional_limit (get "maximum_activations" mapping)
  ok (record {
    maximum_attempts_per_activation = attempts;
    maximum_total_attempts = total;
    maximum_activations = activations;
    retry_on = retry_on;
  })

pub record JobDefinition : Type 0 where
  pub job_key : String
  pub priority : ℤ
  pub runner_executor : String
  pub persistent : Bool  -- workdir.mode is "persistent"
  pub transactional : Bool  -- data.mode is "transactional"
  pub initial_step : String
  pub claim_pool : String
  pub required_capabilities : List String
  pub retry_policy : RetryPolicy
  pub resources : Resources
  pub step_resources : List (String × Resources)
  pub parent : Option Members
  pub digest : String

-- `name in names`
unfoldable pub member_of : String → List String → Bool
member_of k [] = false
member_of k (n ∷ ns) = str_eq n k || member_of k ns

bad_step_character : ℕ → Bool
bad_step_character c = c == 47 || c == 0

-- models.py: `validate_step`; the length is the one of the UTF-8 encoding
unfoldable pub validate_step : Json → Result String
unfolding bad_step_character
validate_step value = do
  text ← require_string value
  guard (not (ltb 128 (String.len text) || any bad_step_character (codes text))) format_error
  ok text
