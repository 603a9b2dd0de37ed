-- ===== src/Manager/Pass.antt =====
-- _manager_scheduling.py: `claim_pass`, which claims ready jobs in order while workers and resources
-- are left. What one claim does to the disk is a parameter, which `claim_and_launch` fills.
pub mod Capacity
use httk_workflow.Base.{
  ℕ, String, Bool, true, false, ◌&&◌, ◌||◌, Option, none, some, List, [], ◌∷◌, ◌++◌, any, length,
  leb, ltb, ◌==◌, if◌then◌else◌, or_else,
}
use httk_workflow.Errors.{Raised, Result, ok, err, transition_lost_error, is_workflow_or_os}
use httk_workflow.Marker.{Marker}
use httk_workflow.Resources.{Resources, find}
use httk_workflow.Scheduling.{ManagerConfig, available_resources}
use httk_workflow.Scheduling.Ready.{Candidate, eligible_ready}
use httk_workflow.World.{World}

-- the attempts under way, by what each reserves
pub record Pool : Type 0 where
  pub running : List Resources
  pub changed : Bool
  pub world : World

-- What became of one claim: whether an attempt was started, and what was returned or raised. An
-- attempt that starts reserves the requirement of the eligible pass; the launch computes it again from the
-- claimed frame, where the claim has written it.
abbrev pub Claim : Type 0
Claim = Marker → World → Bool × Result Bool × World

zero_left : Option ℕ → Bool
zero_left none = false
zero_left (some n) = n == 0

-- no worker is free, or a declared resource that every job takes a share of is used up
unfoldable pub saturated : ManagerConfig → List Resources → Bool
unfolding zero_left
saturated m running =
    let available = available_resources m.resources running in
    leb m.maximum_workers (length running)
    || (zero_left (find "procs" available) || zero_left (find "mem" available))

-- `any(value > available.get(name, 0) for name, value in requirement.items())`
unfoldable pub overdrawn : Resources → Resources → Bool
overdrawn requirement available =
    any (λ (name, value). ltb (or_else (find name available) 0) value) requirement

start_one : Bool → Resources → List Resources → List Resources
start_one true requirement running = running ++ (requirement ∷ [])
start_one false requirement running = running

reported : Bool → Raised → Pool → (Pool → Result (Unit {0}) × Pool) → Result (Unit {0}) × Pool
reported true e p rest = rest (record p { changed = true })
reported false e p rest = (err e, p)

-- the `try` of one turn; the exception that no handler takes ends the pass
after_claim : Result Bool → Pool → (Pool → Result (Unit {0}) × Pool) → Result (Unit {0}) × Pool
after_claim (ok b) p rest = rest (record p { changed = p.changed || b })
after_claim (err transition_lost_error) p rest = rest p
after_claim (err e) p rest = reported (is_workflow_or_os e) e p rest

one_turn :
    Bool
    → Bool
    → Bool × Result Bool × World
    → Resources
    → Pool
    → (Pool → Result (Unit {0}) × Pool)
    → Result (Unit {0}) × Pool
unfolding after_claim start_one
one_turn true skip outcome requirement p rest = (ok tt, p)
one_turn false true outcome requirement p rest = rest p
one_turn false false (begun, returned, world) requirement p rest =
    after_claim returned
      (record p { running = start_one begun requirement p.running; world = world }) rest

pub claim_ready :
    ManagerConfig → Claim → List (Marker × Resources) → Pool → Result (Unit {0}) × Pool
unfolding one_turn
claim_ready m take [] p = (ok tt, p)
claim_ready m take ((marker, requirement) ∷ later) p =
    one_turn (saturated m p.running)
      (overdrawn requirement (available_resources m.resources p.running)) (take marker p.world)
      requirement p (claim_ready m take later)

pub claim_pass :
    ManagerConfig → Claim → Bool → Bool → List Candidate → Pool → Result (Unit {0}) × Pool
claim_pass m take draining maintenance candidates p =
    if draining || maintenance || saturated m p.running
    then (ok tt, p)
    else claim_ready m take (eligible_ready m candidates) p
