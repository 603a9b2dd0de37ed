-- ===== src/Manager/Commit/Budgets.antt =====
-- The retry policy bounds what the manager starts: what a retry or an advance makes ready is within
-- the budget that the claim checks.
use httk_workflow.Base.{
  ◌≡◌, refl, ap, ℤ, pos, ◌+ℤ◌, String, false, Option, none, some, List, [], ◌∷◌, arith, or_else,
  Bool-cases, inl, inr, +ℤ_parts,
}
use httk_workflow.Json.{Json, obj, int, Members, str, lookup, get}
use httk_workflow.Kinds.{ready}
use httk_workflow.Job.{JobDefinition}
use httk_workflow.Frame.{StateFrame, keywords, Member, member_name, replace, integer_member}
use httk_workflow.Frame.Read
use httk_workflow.Frame.Laws.{lookup-replace}
use httk_workflow.Scheduling.{exceeds}
use httk_workflow.Manager.Commit.{
  reaches, Advance, Retry, advance_members, advance_plan, retry_plan, next_activation,
  with_evidence, retry_members,
}

-- the attempt that a claim of a frame starts
abbrev pub next_attempt : StateFrame → ℤ
next_attempt state = or_else (Read.attempt_ordinal state) (pos 0) +ℤ pos 1

reaches_next : (o : Option ℤ) (z : ℤ) → reaches o z ≡ false → exceeds o (z +ℤ pos 1) ≡ false
unfolding reaches exceeds
reaches_next none z h = refl
reaches_next (some limit) z h = ground (arith, +ℤ_parts z (pos 1))

attempt_carried :
    (n : ℤ) (progress : StateFrame) (given : List (Member × Json))
    → keywords given Member.attempt_ordinal ≡ none
    → Read.attempt_ordinal progress ≡ some n
    → Read.attempt_ordinal (replace progress given) ≡ some n
unfolding Read.attempt_ordinal integer_member get
attempt_carried n progress given k h =
    ground (arith, lookup-replace Member.attempt_ordinal progress given)

integer_given :
    (m : Member) (progress : StateFrame) (given : List (Member × Json)) (z : ℤ)
    → keywords given m ≡ some (int z)
    → integer_member (member_name m) (replace progress given) ≡ some z
unfolding integer_member get
integer_given m progress given z k = ground (arith, lookup-replace m progress given)

evidence_attempt :
    (o : Option Members) (frame : StateFrame) (n : ℤ)
    → Read.attempt_ordinal frame ≡ some n
    → Read.attempt_ordinal (with_evidence o frame) ≡ some n
unfolding with_evidence
evidence_attempt none frame n h = h
evidence_attempt (some e) frame n h =
    attempt_carried n frame ((Member.takeover_evidence, obj e) ∷ []) refl h

-- A retry that makes the job ready leaves an attempt of this activation: where the state and the
-- progress have the same attempt ordinal, the ordinal that the next claim computes from the ready
-- frame is within `maximum_attempts_per_activation`.
pub retry_plan-budget :
    (job : JobDefinition) (state progress : StateFrame) (r : Retry) (n : ℤ)
    → Read.attempt_ordinal state ≡ some n
    → Read.attempt_ordinal progress ≡ some n
    → (retry_plan job state r progress).kind ≡ ready
    → exceeds job.retry_policy.maximum_attempts_per_activation
        (next_attempt (retry_plan job state r progress).updates)
      ≡ false
unfolding retry_plan
retry_plan-budget job state progress r n h g k =
    elim (Bool-cases (
      reaches job.retry_policy.maximum_attempts_per_activation
        (or_else (Read.attempt_ordinal state) (pos 1)))) [
          | inl t ↦ absurd (ground (arith, t, k))
          | inr f ↦
              let kept =
                evidence_attempt r.takeover_evidence (replace progress (retry_members state r)) n
                  (attempt_carried n progress (retry_members state r) refl g) in
              rw (f, kept)
                (reaches_next job.retry_policy.maximum_attempts_per_activation n (rw h at f))
        ]

-- An advance that makes the job ready starts an activation within `maximum_activations`, at the
-- step and under the identifier given, and the attempt that a claim of it computes is number 1.
pub advance_plan-budget :
    (job : JobDefinition) (state progress : StateFrame) (a : Advance) (activation : String)
    → (advance_plan job state a activation progress).kind ≡ ready
    → (Read.activation_ordinal (advance_plan job state a activation progress).updates
        ≡ some (next_activation state))
      × (exceeds job.retry_policy.maximum_activations (next_activation state) ≡ false)
      × (lookup "step" (advance_plan job state a activation progress).updates
          ≡ some (str a.next_step))
      × (lookup "activation_id" (advance_plan job state a activation progress).updates
          ≡ some (str activation))
      × (next_attempt (advance_plan job state a activation progress).updates ≡ pos 1)
unfolding advance_plan Read.activation_ordinal integer_member Read.attempt_ordinal get ◌+ℤ◌
advance_plan-budget job state progress a activation k =
    let given = advance_members state a activation in
    elim (Bool-cases (exceeds job.retry_policy.maximum_activations (next_activation state))) [
      | inl t ↦ absurd (ground (arith, t, k))
      | inr f ↦ rw f (
        integer_given Member.activation_ordinal progress given (next_activation state) refl,
        refl,
        lookup-replace Member.step progress given,
        lookup-replace Member.activation_id progress given,
        ap (λ o. or_else o (pos 0) +ℤ pos 1)
            (integer_given Member.attempt_ordinal progress given (pos 0) refl),
      )
    ]
