-- ===== src/Manager/Cancellation/Fencing.antt =====
-- A job is cancelled only once its attempt has been proven to have stopped, and the attempt is killed
-- only after its grace.
use httk_workflow.Base.{
  ◌≡◌, refl, ap, ◌∙◌, ℕ, ◌+◌, ◌<◌, ◌⊎◌, inl, inr, ℤ, String, true, false, Option, none, some, List,
  [], ◌∷◌, ◌++◌, leb, eq_iff, arith, Bool-cases, Option-cases,
}
use httk_workflow.Errors.{Result, ok}
use httk_workflow.Kinds.{cancelling}
use httk_workflow.Marker.{Marker}
use httk_workflow.Resources.{find, find-put}
use httk_workflow.Frame.{StateFrame, Member, keywords, replace, select, string_member}
use httk_workflow.Frame.Read
use httk_workflow.Frame.Laws.{lookup-replace, lookup-select}
use httk_workflow.Manager.Requests.{cancelling_members}
use httk_workflow.Json.{Json, get, lookup}
use httk_workflow.Job.{member_of}
use httk_workflow.World.{Host, World}
use httk_workflow.Manager.Deferral.{move}
use httk_workflow.Manager.Cancellation.{
  Machine, Cancels, Proof, Process, Signal, validate_process, stopped, absent, sigterm, sigkill,
  evidence, finish, concluded, signalled, report_unverifiable, attempt_of, note_result,
  terminate_attempt, tick_on, unverifiable_frame,
}

pub noted : Host → String → Machine → Marker → StateFrame → Cancels → World
noted h manager_id machine marker state c =
    (move h marker cancelling (unverifiable_frame state manager_id machine (h.utc_now c.world.tick))
      none (tick_on c.world)).1

evidence-signalled :
    (o : Option ℕ) (grace : ℕ) (c : Cancels) (machine : Machine) (state : StateFrame)
    → (evidence (signalled o grace c machine state) machine state ≡ evidence c machine state)
      × ((signalled o grace c machine state).world ≡ c.world)
unfolding signalled evidence
evidence-signalled none grace c machine state = (refl, refl)
evidence-signalled (some at) grace c machine state = ground arith

note_result-false : (r : Result Marker) → note_result r ≡ ok true → ⊥
unfolding note_result
note_result-false r e = ground arith

reported_worlds :
    (h : Host) (manager_id : String) (machine : Machine) (marker : Marker) (state : StateFrame)
    (c : Cancels)
    → ((report_unverifiable h manager_id machine marker state c).0 ≡ ok true → ⊥)
      × (((report_unverifiable h manager_id machine marker state c).1.world ≡ c.world)
          ⊎ ((report_unverifiable h manager_id machine marker state c).1.world
              ≡ noted h manager_id machine marker state c))
unfolding report_unverifiable noted
reported_worlds h manager_id machine marker state c =
    elim (Bool-cases (member_of (attempt_of state) c.unverified)) [
      | inl t ↦ rw t ((λ e. cc), inl refl)
      | inr f ↦ rw f ((λ e. note_result-false _ e), inr refl)
    ]

-- What the machine shows of an attempt that has stopped: the frame names its process, and either it
-- is an attempt of this manager, which polling finds exited, or it is none, it ran on this host, and
-- no process of its group is there.
abbrev pub Stopped : Cancels → Machine → StateFrame → Type 0
Stopped c machine state =
    (p : Process) × (validate_process (get "process" state) ≡ some p)
    × (((pid : ℤ) × (find (attempt_of state) c.running ≡ some pid)
          × (status : ℤ) × (machine.poll_evidence ≡ some status))
        ⊎ ((find (attempt_of state) c.running ≡ none)
            × (p.hostname ≡ machine.hostname)
            × (machine.group_alive p.process_group ≡ false)))

absent_shown :
    (p : Process) (machine : Machine) {proof : Proof}
    → absent p machine ≡ some proof
    → (p.hostname ≡ machine.hostname) × (machine.group_alive p.process_group ≡ false)
unfolding absent
absent_shown p machine e = (ground (arith, eq_iff p.hostname machine.hostname), ground arith)

evidence-Stopped :
    (c : Cancels) (machine : Machine) (state : StateFrame) (o : Option Process) (l : Option ℤ)
    {proof : Proof}
    → validate_process (get "process" state) ≡ o
    → find (attempt_of state) c.running ≡ l
    → stopped o l machine ≡ some proof
    → Stopped c machine state
unfolding stopped
evidence-Stopped c machine state none l v f e = cc
evidence-Stopped c machine state (some p) (some pid) v f e =
    elim (Option-cases machine.poll_evidence) [
      | inl n ↦ (let bad = rw n at e in cc)
      | inr (status, n) ↦ (p, v, inl (pid, f, status, n))
    ]
evidence-Stopped c machine state (some p) none v f e =
    let (here, gone) = absent_shown p machine e in (p, v, inr (f, here, gone))

unproven_evidence :
    (c : Cancels) (machine : Machine) (state : StateFrame)
    → (Stopped c machine state → ⊥)
    → evidence c machine state ≡ none
unfolding evidence
unproven_evidence c machine state n = elim (Option-cases (evidence c machine state)) [
  | inl e ↦ e
  | inr (proof, e) ↦ absurd (
      n (
        evidence-Stopped c machine state (validate_process (get "process" state))
          (find (attempt_of state) c.running) refl refl e))
]

-- Where the machine does not show that the attempt has stopped (a process of another host, one that
-- runs, or one that the frame does not name), a pass never reports the job cancelled, and the disk is
-- as it was or has the job moved to cancelling, with the note that says so.
pub finish-unproven :
    (h : Host) (manager_id : String) (grace : ℕ) (machine : Machine) (marker : Marker)
    (state : StateFrame) (c : Cancels)
    → (Stopped c machine state → ⊥)
    → ((finish h manager_id grace machine marker state c).0 ≡ ok true → ⊥)
      × (((finish h manager_id grace machine marker state c).1.world ≡ c.world)
          ⊎ ((finish h manager_id grace machine marker state c).1.world
              ≡ noted h manager_id machine marker state c))
unfolding finish concluded report_unverifiable noted
finish-unproven h manager_id grace machine marker state c n =
    let e = unproven_evidence c machine state n in
    let told = signalled (find (attempt_of state) c.kill_at) grace c machine state in
    let (same, world) =
      evidence-signalled (find (attempt_of state) c.kill_at) grace c machine state in
    let unproven : evidence told machine state ≡ none = same ∙ e in
    let (never, worlds) = reported_worlds h manager_id machine marker state told in
    rw unproven (
      never,
      elim worlds [
        | inl u ↦ inl (u ∙ world)
        | inr n ↦ inr (
            n
            ∙ ap
                (λ w.
                  (move h marker cancelling
                    (unverifiable_frame state manager_id machine (h.utc_now w.tick)) none
                    (tick_on w)).1)
                world)
      ],
    )

-- how many kill signals were sent
abbrev pub kills : List (Signal × ℤ) → ℕ
kills [] = 0
kills ((sigterm, _) ∷ rest) = kills rest
kills ((sigkill, _) ∷ rest) = 1 + kills rest

kills-append : (xs ys : List (Signal × ℤ)) → kills (xs ++ ys) ≡ kills xs + kills ys
kills-append [] ys = omega arith
kills-append ((sigterm, _) ∷ xs) ys = kills-append xs ys
kills-append ((sigkill, _) ∷ xs) ys = omega (arith, kills-append xs ys)

terms_only :
    (local : Option ℤ) (machine : Machine) (state : StateFrame)
    → kills (terminate_attempt local machine state sigterm) ≡ 0
unfolding terminate_attempt
terms_only none machine state = ground arith
terms_only (some pid) machine state = ground arith

module _ (h : Host) (manager_id : String) (machine : Machine) (marker : Marker)
    (state : StateFrame) where
  concluded_signals :
      (o : Option Proof) (c : Cancels)
      → (concluded o h manager_id machine marker state c).1.signals ≡ c.signals
  unfolding concluded report_unverifiable
  concluded_signals none c = ground arith
  concluded_signals (some p) c = refl

  unproven_kill_at :
      (c : Cancels) → (concluded none h manager_id machine marker state c).1.kill_at ≡ c.kill_at
  unfolding concluded report_unverifiable
  unproven_kill_at c = ground arith

  -- what a pass that follows the first one and comes before the grace has passed leaves
  early_signals :
      (grace at : ℕ) (c : Cancels)
      → find (attempt_of state) c.kill_at ≡ some at
      → machine.now < at
      → (finish h manager_id grace machine marker state c).1.signals ≡ c.signals
  unfolding finish signalled
  early_signals grace at c e early =
      let later : leb at machine.now ≡ false = ground arith in
      let told = signalled (find (attempt_of state) c.kill_at) grace c machine state in
      let same : told.signals ≡ c.signals = rw (e, later) in
      concluded_signals (evidence told machine state) told ∙ same

  -- what the first pass leaves, where it does not prove that the attempt has stopped
  first_pass :
      (grace : ℕ) (c : Cancels)
      → find (attempt_of state) c.kill_at ≡ none
      → evidence c machine state ≡ none
      → (find (attempt_of state) (finish h manager_id grace machine marker state c).1.kill_at
          ≡ some (machine.now + grace))
        × (kills (finish h manager_id grace machine marker state c).1.signals ≡ kills c.signals)
  unfolding finish signalled
  first_pass grace c fresh e =
      let told = signalled none grace c machine state in
      let unproven : evidence told machine state ≡ none =
        (evidence-signalled none grace c machine state).0 ∙ e in
      let sent = terminate_attempt (find (attempt_of state) c.running) machine state sigterm in
      let kept : find (attempt_of state) told.kill_at ≡ some (machine.now + grace) = ground (
        arith,
        find-put (attempt_of state) (attempt_of state) (machine.now + grace) c.kill_at,
        eq_iff (attempt_of state) (attempt_of state),
      ) in
      let quiet : kills told.signals ≡ kills c.signals = omega (
        arith,
        kills-append c.signals sent,
        terms_only (find (attempt_of state) c.running) machine state,
      ) in
      rw (fresh, unproven)
        (
          ap (find (attempt_of state)) (unproven_kill_at told) ∙ kept,
          ap kills (concluded_signals none told) ∙ quiet,
        )

attempt_kept :
    (state : StateFrame) (given : List (Member × Json))
    → keywords given Member.attempt_id ≡ none
    → lookup "attempt_id" (replace (select cancelling_members state) given)
      ≡ lookup "attempt_id" state
unfolding cancelling_members
attempt_kept state given k = ground (
  arith,
  k,
  lookup-replace Member.attempt_id (select cancelling_members state) given,
  lookup-select "attempt_id" cancelling_members state,
)

same_attempt :
    (a b : StateFrame) → lookup "attempt_id" a ≡ lookup "attempt_id" b → attempt_of a ≡ attempt_of b
unfolding attempt_of Read.attempt_id string_member get
same_attempt a b e = rw (attempt_of, Read.attempt_id, string_member, get, e) refl

-- the note of a pass that proves nothing is about the same attempt
pub attempt_noted :
    (state : StateFrame) (manager_id : String) (machine : Machine) (now : String)
    → attempt_of (unverifiable_frame state manager_id machine now) ≡ attempt_of state
unfolding unverifiable_frame
attempt_noted state manager_id machine now =
    same_attempt (unverifiable_frame state manager_id machine now) state (attempt_kept state _ refl)

-- Of two passes over a cancellation, the first of which is also the first to signal the attempt and
-- is not shown that it has stopped, the second sends no kill before the grace has passed, whatever
-- frame it reads for the same attempt; the frame that the first pass notes is one for it.
pub finish-grace :
    (h : Host) (manager_id : String) (grace : ℕ) (one two : Machine) (marker next : Marker)
    (state later : StateFrame) (c : Cancels)
    → find (attempt_of state) c.kill_at ≡ none
    → (Stopped c one state → ⊥)
    → attempt_of later ≡ attempt_of state
    → two.now < one.now + grace
    → (kills
          (finish h manager_id grace two next later
            (finish h manager_id grace one marker state c).1).1.signals
        ≡ kills c.signals)
      × ((now : String)
          → attempt_of (unverifiable_frame state manager_id one now) ≡ attempt_of state)
finish-grace h manager_id grace one two marker next state later c fresh n same early =
    let after = (finish h manager_id grace one marker state c).1 in
    let (kept, quiet) =
      first_pass h manager_id one marker state grace c fresh (unproven_evidence c one state n) in
    (
      ap kills (
            early_signals h manager_id two next later grace (one.now + grace) after (rw same kept)
              early)
          ∙ quiet,
      attempt_noted state manager_id one,
    )
