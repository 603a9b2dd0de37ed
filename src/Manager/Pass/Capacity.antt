-- ===== src/Manager/Pass/Capacity.antt =====
-- A claim pass never takes more than the manager has.
use httk_workflow.Base.{
  ℕ, ◌+◌, ◌-◌, ◌≤◌, ◌≡◌, refl, ap, ◌∙◌, String, Bool, true, false, ◌||◌, some, List, [], ◌∷◌, ◌++◌,
  length, length-append, eq_iff, or_else, arith,
}
use httk_workflow.Errors.{Raised, Result, ok, err, transition_lost_error, is_workflow_or_os}
use httk_workflow.Marker.{Marker}
use httk_workflow.Resources.{Resources, find}
use httk_workflow.Scheduling.{ManagerConfig, available_resources}
use httk_workflow.Scheduling.Requirement.{demand, total_demand, lowered, find-available_resources}
use httk_workflow.World.{World}
use httk_workflow.Manager.Pass.{
  Pool, Claim, saturated, overdrawn, start_one, reported, after_claim, one_turn, claim_ready,
}

-- the running attempts are no more than the workers, and reserve no more than the capacity
abbrev pub Bounded : ManagerConfig → List Resources → Type 0
Bounded m running =
    (length running ≤ m.maximum_workers)
    × ((name : String) (total : ℕ)
        → find name m.resources ≡ some total
        → total_demand name running ≤ total)

-- a dictionary: no name twice
abbrev pub IsDict : Resources → Type 0
IsDict r = (name : String) → demand name r ≡ or_else (find name r) 0

total_demand-append :
    (name : String) (running : List Resources) (r : Resources)
    → total_demand name (running ++ (r ∷ [])) ≡ total_demand name running + demand name r
total_demand-append name [] r = omega arith
total_demand-append name (x ∷ xs) r = omega (arith, total_demand-append name xs r)

found_fits :
    (name : String) (r available : Resources)
    → overdrawn r available ≡ false
    → or_else (find name r) 0 ≤ or_else (find name available) 0
unfolding overdrawn find
found_fits name [] available h = omega arith
found_fits name ((other, v) ∷ rest) available h =
    ground (arith, found_fits name rest available, eq_iff other name)

abbrev Rest : Type 0
Rest = Pool → Result (Unit {0}) × Pool

module _ (P : List Resources → Type 0) where
  abbrev Holds : Rest → Type 0
  Holds rest = (q : Pool) → P q.running → P (rest q).1.running

  reported-Holds :
      (b : Bool) (e : Raised) (rest : Rest) → Holds rest → Holds (λ p. reported b e p rest)
  unfolding reported
  reported-Holds true e rest k p h = k (record p { changed = true }) h
  reported-Holds false e rest k p h = h

  after-Holds : (r : Result Bool) (rest : Rest) → Holds rest → Holds (λ p. after_claim r p rest)
  unfolding after_claim
  after-Holds (ok b) rest k p h = k (record p { changed = p.changed || b }) h
  after-Holds (err transition_lost_error) rest k p h = k p h
  after-Holds (err e) rest k p h = reported-Holds (is_workflow_or_os e) e rest k p h

  turn-Holds :
      (full skip : Bool) (r : Result Bool) (begun : Bool) (w : World) (requirement : Resources)
      (p : Pool) (rest : Rest)
      → Holds rest
      → P p.running
      → (full ≡ false → skip ≡ false → P (start_one begun requirement p.running))
      → P (one_turn full skip (begun, r, w) requirement p rest).1.running
  unfolding one_turn
  turn-Holds true skip r begun w requirement p rest k h s = h
  turn-Holds false true r begun w requirement p rest k h s = k p h
  turn-Holds false false r begun w requirement p rest k h s =
      after-Holds r rest k (record p { running = start_one begun requirement p.running; world = w })
        (s refl refl)

-- One more attempt fits where a worker is free and nothing is overdrawn.
start-Bounded :
    (m : ManagerConfig) (begun : Bool) (requirement : Resources) (running : List Resources)
    → IsDict requirement
    → Bounded m running
    → saturated m running ≡ false
    → overdrawn requirement (available_resources m.resources running) ≡ false
    → Bounded m (start_one begun requirement running)
unfolding start_one saturated
start-Bounded m false requirement running dict b s o = b
start-Bounded m true requirement running dict b s o =
    (ground (arith, length-append running (requirement ∷ []), b.0), one_more)
  where
    one_more :
        (name : String) (total : ℕ)
        → find name m.resources ≡ some total
        → total_demand name (running ++ (requirement ∷ [])) ≤ total
    one_more name total h =
        let left : find name (available_resources m.resources running)
            ≡ some (total - total_demand name running) =
          find-available_resources name m.resources running
          ∙ ap (λ c. lowered c (total_demand name running)) h in
        let fits = found_fits name requirement (available_resources m.resources running) o in
        let least : or_else (find name requirement) 0 ≤ total - total_demand name running =
          rw left at fits in
        omega
          (arith, total_demand-append name running requirement, dict name, least, b.1 name total h)

abbrev AllDicts : List (Marker × Resources) → Type 0
AllDicts [] = Unit {0}
AllDicts ((_, requirement) ∷ rest) = IsDict requirement × AllDicts rest

-- Over ready jobs whose requirements are dictionaries, a claim pass that starts within the
-- manager's workers and capacity ends within them, whatever each claim does and raises, and also
-- where the pass itself ends with an exception.
pub claim_ready-Bounded :
    (m : ManagerConfig) (take : Claim) (jobs : List (Marker × Resources)) (p : Pool)
    → AllDicts jobs
    → Bounded m p.running
    → Bounded m (claim_ready m take jobs p).1.running
unfolding claim_ready
claim_ready-Bounded m take [] p d b = b
claim_ready-Bounded m take ((marker, requirement) ∷ later) p d b =
    let (begun, r, w) = take marker p.world in
    turn-Holds (Bounded m) (saturated m p.running)
      (overdrawn requirement (available_resources m.resources p.running)) r begun w requirement p
      (claim_ready m take later) (λ q h. claim_ready-Bounded m take later q d.1 h) b
      (λ s o. start-Bounded m begun requirement p.running d.0 b s o)
