-- ===== src/Manager/Claim/Release.antt =====
-- A claim that is given back costs the job nothing.
use httk_workflow.Base.{
  ◌≡◌, refl, ap, ◌∙◌, ℤ, pos, ◌+ℤ◌, ◌-ℤ◌, max_zero, leb_ℤ, String, Bool, true, false, Option, none,
  some, List, arith, or_else,
}
use httk_workflow.Errors.{ok}
use httk_workflow.Json.{Json, int, lookup, get}
use httk_workflow.Job.{JobDefinition}
use httk_workflow.Resources.{Resources}
use httk_workflow.Frame.{
  StateFrame, Member, member_name, keywords, replace, carried, carried_state_members,
  integer_member,
}
use httk_workflow.Frame.Read
use httk_workflow.Frame.Laws.{lookup-replace, lookup-carried, listed}
use httk_workflow.Resources.{validate_resources}
use httk_workflow.Resources.Valid.{IsRequirement, validate_resources-members}
use httk_workflow.Scheduling.{selected_requirement, effective_requirement}
use httk_workflow.Scheduling.Selected.{IsDeclared, effective-IsRequirement, effective_stays}
use httk_workflow.Manager.Commit.{optional_resources}
use httk_workflow.Manager.Claim.{
  Claimant, claim_frame, claim_members, release_frame, release_members, next_ordinal, next_total,
}

set_integer :
    (m : Member) (base : StateFrame) (given : List (Member × Json)) (z : ℤ)
    → keywords given m ≡ some (int z)
    → integer_member (member_name m) (replace base given) ≡ some z
unfolding integer_member get
set_integer m base given z k = ground (arith, lookup-replace m base given)

back : (z : ℤ) → leb_ℤ (pos 0) z ≡ true → max_zero (z +ℤ pos 1 -ℤ pos 1) ≡ z
unfolding ◌+ℤ◌ ◌-ℤ◌
back (pos n) h = ground arith
back (ℤ.negsuc n) h = ground arith

-- a member of the activation that neither a claim nor a release sets
abbrev pub untouched : Member → Bool
untouched Member.step = true
untouched Member.activation_id = true
untouched Member.activation_ordinal = true
untouched Member.data_generation = true
untouched Member.join_summary = true
untouched Member.pause_requested = true
untouched Member.runner_steps = true
untouched _ = false

selects :
    (job : JobDefinition) (frame : StateFrame) (r : Resources)
    → lookup "resources" frame ≡ some (optional_resources (some r))
    → selected_requirement job frame ≡ validate_resources (optional_resources (some r))
unfolding selected_requirement Read.resources get optional_resources
selects job frame r h = ground (arith, h)

module _ (c : Claimant) (job : JobDefinition) (state : StateFrame) (requirement : Resources)
    (attempt_id claim_id reason : String) where
  abbrev claimed_frame : StateFrame
  claimed_frame = claim_frame c job state requirement attempt_id claim_id

  spared :
      (m : Member)
      → untouched m ≡ true
      → (listed (member_name m) carried_state_members ≡ true)
        × (keywords (claim_members c job state requirement attempt_id claim_id) m ≡ none)
        × (keywords (release_members claimed_frame reason) m ≡ none)
  spared Member.step h = (refl, refl, refl)
  spared Member.activation_id h = (refl, refl, refl)
  spared Member.activation_ordinal h = (refl, refl, refl)
  spared Member.data_generation h = (refl, refl, refl)
  spared Member.join_summary h = (refl, refl, refl)
  spared Member.pause_requested h = (refl, refl, refl)
  spared Member.runner_steps h = (refl, refl, refl)
  spared _ h = cc

  -- a member that neither sets keeps its value through both
  kept :
      (m : Member)
      → untouched m ≡ true
      → lookup (member_name m) (release_frame claimed_frame reason) ≡ lookup (member_name m) state
  unfolding release_frame claim_frame
  kept m h =
      let (carry, claims, releases) = spared m h in
      let given = claim_members c job state requirement attempt_id claim_id in
      ground (
        arith,
        carry,
        claims,
        releases,
        lookup-replace m (carried claimed_frame) (release_members claimed_frame reason),
        lookup-carried (member_name m) claimed_frame,
        lookup-replace m (carried state) given,
        lookup-carried (member_name m) state,
      )

  given_back :
      (z : ℤ) (o : Option ℤ)
      → leb_ℤ (pos 0) z ≡ true
      → o ≡ some (z +ℤ pos 1)
      → max_zero (or_else o (pos 1) -ℤ pos 1) ≡ z
  given_back z o h e = rw e (back z h)

  -- Where neither counter is negative, a release after a claim gives both attempt counters back their
  -- old values (zero for a missing one), and leaves every
  -- member of the activation but the attempt and the resources as it was.
  pub release-claim :
      leb_ℤ (pos 0) (or_else (Read.attempt_ordinal state) (pos 0)) ≡ true
      → leb_ℤ (pos 0) (or_else (Read.total_attempts state) (pos 0)) ≡ true
      → (Read.attempt_ordinal
            (release_frame (claim_frame c job state requirement attempt_id claim_id) reason)
          ≡ some (or_else (Read.attempt_ordinal state) (pos 0)))
        × (Read.total_attempts
              (release_frame (claim_frame c job state requirement attempt_id claim_id) reason)
            ≡ some (or_else (Read.total_attempts state) (pos 0)))
        × ((m : Member)
            → untouched m ≡ true
            → lookup
                (member_name m)
                (release_frame (claim_frame c job state requirement attempt_id claim_id) reason)
              ≡ lookup (member_name m) state)
  unfolding Read.attempt_ordinal Read.total_attempts release_frame claim_frame next_ordinal
      next_total
  release-claim a t =
      let given = claim_members c job state requirement attempt_id claim_id in
      let attempts =
        set_integer Member.attempt_ordinal (carried state) given (next_ordinal state) refl in
      let totals =
        set_integer Member.total_attempts (carried state) given (next_total state) refl in
      (
        set_integer Member.attempt_ordinal (carried claimed_frame)
              (release_members claimed_frame reason) _ refl
            ∙ ap some (given_back (or_else (Read.attempt_ordinal state) (pos 0)) _ a attempts),
        set_integer Member.total_attempts (carried claimed_frame)
              (release_members claimed_frame reason) _ refl
            ∙ ap some (given_back (or_else (Read.total_attempts state) (pos 0)) _ t totals),
        kept,
      )

  still_required :
      lookup "resources" (release_frame claimed_frame reason)
      ≡ some (optional_resources (some requirement))
  unfolding release_frame claim_frame
  still_required =
      let given = claim_members c job state requirement attempt_id claim_id in
      ground (
        arith,
        lookup-replace Member.resources (carried claimed_frame)
            (release_members claimed_frame reason),
        lookup-carried "resources" claimed_frame,
        lookup-replace Member.resources (carried state) given,
      )

  claimed_required : lookup "resources" claimed_frame ≡ some (optional_resources (some requirement))
  unfolding claim_frame
  claimed_required =
      lookup-replace Member.resources (carried state)
        (claim_members c job state requirement attempt_id claim_id)

  reads_back :
      (other : JobDefinition) (frame : StateFrame)
      → IsRequirement requirement
      → lookup "resources" frame ≡ some (optional_resources (some requirement))
      → selected_requirement other frame ≡ ok requirement
  unfolding optional_resources
  reads_back other frame h e =
      selects other frame requirement e ∙ validate_resources-members requirement h

  -- A claim that writes the effective requirement of a job, whose document declares requirements as
  -- `validate_resources` makes them: the launch that reads the claimed frame finds the same effective
  -- requirement, and after the claim is given back any definition of the job selects that very
  -- requirement, the shares of the claiming manager included.
  pub selected_requirement-release :
      (other : JobDefinition)
      → IsDeclared job
      → effective_requirement job state c.config.resources c.config.maximum_workers ≡ ok requirement
      → (effective_requirement other claimed_frame c.config.resources c.config.maximum_workers
          ≡ ok requirement)
        × (selected_requirement other (release_frame claimed_frame reason) ≡ ok requirement)
  selected_requirement-release other d e =
      let h = effective-IsRequirement c.config.resources c.config.maximum_workers job state d e in
      (
        effective_stays c.config.resources c.config.maximum_workers job other state claimed_frame e
            (reads_back other claimed_frame h claimed_required),
        reads_back other (release_frame claimed_frame reason) h still_required,
      )
