-- ===== src/Scheduling/Retries.antt =====
-- The two checks of the retry policy: the one before a retry and the one at a claim.
use httk_workflow.Base.{◌≡◌, ◌↔◌, refl, ℤ, pos, ◌+ℤ◌, +ℤ_parts, true, Option, none, some, arith}
use httk_workflow.Job.{JobDefinition}
use httk_workflow.Frame.{StateFrame}
use httk_workflow.Frame.Read
use httk_workflow.Scheduling.{exceeds, attempt_budget_failure, retry_budget_available}

-- A retry is permitted for a state exactly when the claim of the next attempt passes its own check
-- of the budgets. The state has both counters, as every state that was claimed has.
pub retry_budget_available_iff :
    (job : JobDefinition) (state : StateFrame) (attempts total : ℤ)
    → Read.attempt_ordinal state ≡ some attempts
    → Read.total_attempts state ≡ some total
    → (retry_budget_available job state ≡ true)
      ↔ (attempt_budget_failure job (attempts +ℤ pos 1) (total +ℤ pos 1) ≡ none)
unfolding retry_budget_available attempt_budget_failure exceeds
retry_budget_available_iff job state attempts total a t =
    check job.retry_policy.maximum_attempts_per_activation job.retry_policy.maximum_total_attempts
      refl refl
  where
    check :
        (per all : Option ℤ)
        → job.retry_policy.maximum_attempts_per_activation ≡ per
        → job.retry_policy.maximum_total_attempts ≡ all
        → (retry_budget_available job state ≡ true)
          ↔ (attempt_budget_failure job (attempts +ℤ pos 1) (total +ℤ pos 1) ≡ none)
    check none none p q = rw (p, q) (ground arith)
    check none (some m) p q = rw (p, q, a, t) (ground (arith, +ℤ_parts total (pos 1)))
    check (some n) none p q = rw (p, q, a) (ground (arith, +ℤ_parts attempts (pos 1)))
    check (some n) (some m) p q =
        rw (p, q, a, t) (ground (arith, +ℤ_parts attempts (pos 1), +ℤ_parts total (pos 1)))
