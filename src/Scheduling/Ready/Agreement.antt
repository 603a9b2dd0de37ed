-- ===== src/Scheduling/Ready/Agreement.antt =====
-- The census and the claim pass agree on which ready jobs can be claimed.
use httk_workflow.Base.{
  not, suc, ◌+◌, ◌≡◌, refl, String, Bool, true, false, ◌&&◌, Option, none, some, List, [], ◌∷◌, all,
  arith, is_some, Bool-cases, inl, inr, length,
}
use httk_workflow.Kinds.{submitted, ready, same_kind}
use httk_workflow.Marker.{Marker}
use httk_workflow.Resources.{Resources}
use httk_workflow.Frame.{StateFrame}
use httk_workflow.Job.{JobDefinition, member_of}
use httk_workflow.Scheduling.{ManagerConfig}
use httk_workflow.Scheduling.Ready.{
  Candidate, Blocked, missing_of, serves, claimable, eligible, place, add_eligible, eligible_ready,
  classify_fit, classify_missing, classify_pending, WorkCensus, pend, pend_all, one_if,
}

missing_none :
    (cs have : List String) → missing_of cs have ≡ [] → all (λ c. member_of c have) cs ≡ true
unfolding missing_of
missing_none [] have h = refl
missing_none (c ∷ cs) have h = ground (arith, missing_none cs have)

missing_some :
    (cs have : List String) (c : String) (rest : List String)
    → missing_of cs have ≡ c ∷ rest
    → all (λ c. member_of c have) cs ≡ false
unfolding missing_of
missing_some [] have c rest h = cc
missing_some (d ∷ cs) have c rest h = ground (arith, missing_some cs have c rest)

fit_agrees :
    (m : ManagerConfig) (job : JobDefinition) (state : Option StateFrame) (b : Blocked)
    → serves m job ≡ true
    → (not m.accept_any_pool && not (member_of job.claim_pool m.pools)) ≡ false
    → all (λ c. member_of c m.capabilities) job.required_capabilities ≡ true
    → (classify_fit m job state b).0
      ≡ is_some (elim state [ none ↦ none | some s ↦ claimable m job s ])
unfolding classify_fit claimable
fit_agrees m job none b s p c = refl
fit_agrees m job (some state) b s p c = ground arith

missing_agrees :
    (m : ManagerConfig) (job : JobDefinition) (state : Option StateFrame) (b : Blocked)
    (missing : List String)
    → serves m job ≡ true
    → (not m.accept_any_pool && not (member_of job.claim_pool m.pools)) ≡ false
    → missing_of job.required_capabilities m.capabilities ≡ missing
    → (classify_missing m job state b missing).0
      ≡ is_some (elim state [ none ↦ none | some s ↦ claimable m job s ])
unfolding classify_missing
missing_agrees m job state b [] s p e =
    fit_agrees m job state b s p (missing_none job.required_capabilities m.capabilities e)
missing_agrees m job none b (c ∷ cs) s p e = refl
missing_agrees m job (some state) b (c ∷ cs) s p e =
    let lack = missing_some job.required_capabilities m.capabilities c cs e in
    unfold claimable in rw (s, p, lack)

-- The census finds a marker that is not submitted actionable exactly when the claim pass finds a
-- requirement for it.
pub classify_pending-eligible :
    (m : ManagerConfig) (c : Candidate) (b : Blocked)
    → same_kind c.marker.kind submitted ≡ false
    → (classify_pending m c b).0 ≡ is_some (eligible m c)
classify_pending-eligible m c b k = agrees c.job refl
  where
    agrees :
        (job : Option JobDefinition)
        → c.job ≡ job
        → (classify_pending m c b).0 ≡ is_some (eligible m c)
    agrees none e = unfold classify_pending eligible in rw (e, k)
    agrees (some job) e = elim (Bool-cases (serves m job)) [
      | inr n ↦ unfold classify_pending eligible in ground (arith, e, n, k)
      | inl s ↦
          elim (Bool-cases (not m.accept_any_pool && not (member_of job.claim_pool m.pools))) [
            | inl n ↦ unfold classify_pending eligible in ground (arith, e, s, n, k)
            | inr p ↦
                let found =
                  missing_agrees m job c.state b
                    (missing_of job.required_capabilities m.capabilities) s p refl in
                unfold classify_pending eligible in rw (e, s, k, p) found
          ]
    ]

length-place :
    (x : Marker × Resources) (ys : List (Marker × Resources))
    → length (place x ys) ≡ suc (length ys)
unfolding place
length-place x [] = refl
length-place x (y ∷ ys) = ground (arith, length-place x ys)

ready_not_submitted :
    (c : Candidate)
    → same_kind c.marker.kind ready ≡ true
    → same_kind c.marker.kind submitted ≡ false
ready_not_submitted c h = ground arith

length-add_eligible :
    (o : Option Resources) (marker : Marker) (rest : List (Marker × Resources))
    → length (add_eligible o marker rest) ≡ one_if (is_some o) + length rest
unfolding add_eligible
length-add_eligible none marker rest = omega arith
length-add_eligible (some r) marker rest = omega (arith, length-place (marker, r) rest)

one_more :
    (m : ManagerConfig) (c : Candidate) (cs : List Candidate)
    → length (eligible_ready m (c ∷ cs))
      ≡ one_if (is_some (eligible m c)) + length (eligible_ready m cs)
unfolding eligible_ready
one_more m c cs = length-add_eligible (eligible m c) c.marker (eligible_ready m cs)

and_true : (b : Bool) → (b && true) ≡ b
and_true b = ground arith

-- Over ready markers, the census counts as claimable exactly as many jobs as the claim pass would
-- find eligible.
pub ready_claimable-eligible_ready :
    (m : ManagerConfig) (cs : List Candidate) (w : WorkCensus)
    → all (λ c. same_kind c.marker.kind ready) cs ≡ true
    → (pend_all m cs w).ready_claimable ≡ w.ready_claimable + length (eligible_ready m cs)
unfolding pend_all
ready_claimable-eligible_ready m [] w h = unfold eligible_ready in omega arith
ready_claimable-eligible_ready m (c ∷ cs) w h =
    let now : same_kind c.marker.kind ready ≡ true = ground arith in
    let rest : all (λ c. same_kind c.marker.kind ready) cs ≡ true = ground arith in
    let agrees = classify_pending-eligible m c w.ready_blocked (ready_not_submitted c now) in
    let step : (pend m c w).ready_claimable ≡ w.ready_claimable + one_if (is_some (eligible m c)) =
      unfold pend in rw (now, agrees, and_true) in
    omega (arith, ready_claimable-eligible_ready m cs (pend m c w) rest, step, one_more m c cs)
