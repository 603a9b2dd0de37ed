-- ===== src/Manager/Cancellation.antt =====
-- _manager_cancellation.py: finishing the cancellation of a running job. The processes are another
-- program's: what polling an attempt and probing a process group answer is a `Machine`.
pub mod Fencing
use httk_workflow.Base.{
  ℕ, zero, suc, ◌+◌, ℤ, pos, leb_ℤ, String, Bool, true, false, not, ◌&&◌, Option, none, some, List,
  [], ◌∷◌, ◌++◌, leb, str_eq, if◌then◌else◌, or_else,
}
use httk_workflow.Errors.{Raised, Result, ok, err, transition_lost_error}
use httk_workflow.Json.{
  Json, null, int, str, obj, Members, end, field, get, as_int, as_mapping, is_str,
}
use httk_workflow.Kinds.{StateKind, cancelling, cancelled}
use httk_workflow.Marker.{Marker}
use httk_workflow.Resources.{find, put, drop_key}
use httk_workflow.Job.{member_of}
use httk_workflow.Frame.{StateFrame, Member, replace, select, string_member}
use httk_workflow.Frame.Read
use httk_workflow.World.{Host, World}
use httk_workflow.Manager.Deferral.{move}
use httk_workflow.Manager.Requests.{cancelling_members}

-- a process identity that `validate_process` takes
pub record Process : Type 0 where
  pub process_group : ℤ
  pub hostname : String

positive : Option ℤ → Option ℤ
positive none = none
positive (some n) = if leb_ℤ (pos 1) n then some n else none

identity : Option ℤ → Option ℤ → Option String → Option String → Option Process
identity (some pid) (some group) (some host) (some launched) =
    some (record { process_group = group; hostname = host })
identity _ _ _ _ = none

-- models.py: `validate_process`
unfoldable pub validate_process : Json → Option Process
unfolding positive identity
validate_process value = elim (as_mapping value) [
  | none ↦ none
  | some m ↦
      identity (positive (as_int (get "pid" m))) (positive (as_int (get "process_group" m)))
        (string_member "hostname" m) (string_member "launched_at" m)
]

-- What the machine answers while one cancellation is worked on. An attempt is polled when it is
-- signalled and again for the evidence; an exit status says that it has exited.
pub record Machine : Type 0 where
  pub hostname : String
  pub now : ℕ
  pub poll_signalled : Option ℤ
  pub poll_evidence : Option ℤ
  pub group_alive : ℤ → Bool

pub data Signal : Type 0 where
  sigterm sigkill : Signal

-- what a manager remembers of the cancellations that it works on
pub record Cancels : Type 0 where
  pub world : World
  pub running : List (String × ℤ)  -- the local attempts, by the pid of each
  pub kill_at : List (String × ℕ)
  pub unverified : List String
  pub signals : List (Signal × ℤ)

foreign : Option Process → Machine → Signal → List (Signal × ℤ)
foreign none machine s = []
foreign (some p) machine s =
    if str_eq p.hostname machine.hostname then (s, p.process_group) ∷ [] else []

-- `_terminate_attempt`: the signals that it sends
terminate_attempt : Option ℤ → Machine → StateFrame → Signal → List (Signal × ℤ)
unfolding foreign
terminate_attempt (some pid) machine state s = elim machine.poll_signalled [
  | none ↦ (s, pid) ∷ []
  | some _ ↦ []
]
terminate_attempt none machine state s = foreign (validate_process (get "process" state)) machine s

pub data Proof : Type 0 where
  process_exited : (pid exit_status : ℤ) → Proof
  process_group_absent : (process_group : ℤ) → Proof

pub absent : Process → Machine → Option Proof
absent p machine =
    if not (str_eq p.hostname machine.hostname)
    then none
    else if machine.group_alive p.process_group
    then none
    else some (process_group_absent p.process_group)

pub stopped : Option Process → Option ℤ → Machine → Option Proof
unfolding absent
stopped none local machine = none
stopped (some p) (some pid) machine = elim machine.poll_evidence [
  | none ↦ none
  | some status ↦ some (process_exited pid status)
]
stopped (some p) none machine = absent p machine

unfoldable pub attempt_of : StateFrame → String
attempt_of state = or_else (Read.attempt_id state) ""

-- whether the fenced attempt is proven to have stopped
unfoldable pub evidence : Cancels → Machine → StateFrame → Option Proof
unfolding stopped attempt_of
evidence c machine state =
    stopped (validate_process (get "process" state)) (find (attempt_of state) c.running) machine

proof_json : Machine → String → Proof → Json
proof_json machine now (process_exited pid status) = obj (
    field "verified" (str "process_exited") (
      field "hostname" (str machine.hostname) (
        field "pid" (int pid)
          (field "exit_status" (int status) (field "verified_at" (str now) end)))))
proof_json machine now (process_group_absent group) = obj (
    field "verified" (str "process_group_absent") (
      field "hostname" (str machine.hostname)
        (field "process_group" (int group) (field "verified_at" (str now) end))))

-- the grace before a kill: it starts at the first pass
signalled : Option ℕ → ℕ → Cancels → Machine → StateFrame → Cancels
unfolding terminate_attempt attempt_of
signalled none grace c machine state = record c {
  kill_at = put (attempt_of state) (machine.now + grace) c.kill_at;
  signals =
      c.signals ++ terminate_attempt (find (attempt_of state) c.running) machine state sigterm;
}
signalled (some at) grace c machine state =
    if leb at machine.now
    then record c {
      signals =
          c.signals ++ terminate_attempt (find (attempt_of state) c.running) machine state sigkill;
    }
    else c

-- a lost race is no fault of the note
note_result : Result Marker → Result Bool
note_result (ok moved) = ok false
note_result (err transition_lost_error) = ok false
note_result (err e) = err e

-- why the attempt is not proven to have stopped
detail_of : Json → Machine → String
detail_of process machine = elim (as_mapping process) [
  | none ↦ "its running frame has no process identity, so this manager cannot prove that it stopped"
  | some m ↦
      if is_str machine.hostname (get "hostname" m)
      then "its process identity is missing or malformed, so this manager cannot prove that it stopped"
      else "its process is recorded on another host, so this manager cannot prove that it stopped"
]

pub unverifiable_frame : StateFrame → String → Machine → String → StateFrame
unfolding detail_of
unverifiable_frame state manager_id machine now = replace (select cancelling_members state) (
    (
      Member.cancellation,
      obj (
          field "verified" null (
            field "problem" (str "unverifiable_here") (
              field "detail" (str (detail_of (get "process" state) machine))
                (field "observed_by" (str manager_id) (field "observed_at" (str now) end))))),
    )
    ∷ (Member.reason, str "cancel_unverified")
    ∷ [])

tick_on : World → World
tick_on w = record w { tick = suc w.tick }

without_id : String → List String → List String
without_id k [] = []
without_id k (x ∷ xs) = let rest = without_id k xs in if str_eq x k then rest else x ∷ rest

-- `_report_unverifiable_cancellation`, once for an attempt
report_unverifiable :
    Host → String → Machine → Marker → StateFrame → Cancels → Result Bool × Cancels
unfolding note_result unverifiable_frame tick_on attempt_of
report_unverifiable h manager_id machine marker state c =
    let noted =
      move h marker cancelling
        (unverifiable_frame state manager_id machine (h.utc_now c.world.tick)) none
        (tick_on c.world) in
    if member_of (attempt_of state) c.unverified then (ok false, c) else (
      note_result noted.0,
      record c { unverified = attempt_of state ∷ c.unverified; world = noted.1 },
    )

finish_result : Result Marker → Result Bool
finish_result (ok moved) = ok true
finish_result (err e) = err e

concluded :
    Option Proof → Host → String → Machine → Marker → StateFrame → Cancels → Result Bool × Cancels
unfolding report_unverifiable finish_result proof_json without_id
concluded none h manager_id machine marker state c =
    report_unverifiable h manager_id machine marker state c
concluded (some proof) h manager_id machine marker state c =
    let moved =
      move h marker cancelled
        (replace (select cancelling_members state) (
          (Member.cancellation, proof_json machine (h.utc_now c.world.tick) proof)
          ∷ (Member.reason, str "operator_cancel")
          ∷ []))
        none (tick_on c.world) in
    (
      finish_result moved.0,
      record c {
        running = drop_key (attempt_of state) c.running;
        kill_at = drop_key (attempt_of state) c.kill_at;
        unverified = without_id (attempt_of state) c.unverified;
        world = moved.1;
      },
    )

pub finish : Host → String → ℕ → Machine → Marker → StateFrame → Cancels → Result Bool × Cancels
unfolding concluded signalled
finish h manager_id grace machine marker state c =
    let told = signalled (find (attempt_of state) c.kill_at) grace c machine state in
    concluded (evidence told machine state) h manager_id machine marker state told
