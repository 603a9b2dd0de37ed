-- ===== src/Tests/Cancellation.antt =====
-- A running job on another host, and one on this host, whose cancellation is worked on.
use httk_workflow.Base.{
  ◌≡◌, ◌⊎◌, inl, inr, refl, ap, ◌∙◌, some, str_eq, false, ℕ, pos, String, true, none, [], arith,
}
use httk_workflow.Errors.{ok}
use httk_workflow.Json.{str, int, obj, end, field, get, lookup}
use httk_workflow.Resources.{find}
use httk_workflow.Frame.{StateFrame, string_member}
use httk_workflow.Manager.Cancellation.{
  Machine, Cancels, Process, validate_process, finish, attempt_of, unverifiable_frame,
}
use httk_workflow.Manager.Cancellation.Fencing.{
  attempt_noted, Stopped, noted, kills, finish-unproven, finish-grace,
}
use httk_workflow.Tests.Samples.{host, world, marker}

abbrev running_on : String → StateFrame
running_on name = field "attempt_id" (str "at") (
    field "process"
      (obj (
        field "pid" (int (pos 7)) (
          field "process_group" (int (pos 7))
            (field "hostname" (str name) (field "launched_at" (str "then") end)))))
      end)

abbrev machine : ℕ → Machine
machine t = record {
  hostname = "here";
  now = t;
  poll_signalled = none;
  poll_evidence = none;
  group_alive = λ group. true;
}

abbrev cancels : Cancels
cancels = record { world = world; running = []; kill_at = []; unverified = []; signals = [] }

-- the process that the frame names
abbrev process_on : String → Process
process_on name = record { process_group = pos 7; hostname = name }

recorded_on :
    (name : String)
    → str_eq name "" ≡ false
    → validate_process (get "process" (running_on name)) ≡ some (process_on name)
unfolding validate_process get lookup string_member
recorded_on name h = rw h refl

abroad : Stopped cancels (machine 0) (running_on "there") → ⊥
unfolding find
abroad (p, v, inl (pid, f, status, polled)) = cc
abroad (p, v, inr (f, here, gone)) =
    let r = recorded_on "there" refl in
    let q : process_on "there" ≡ p = cc in
    let bad : "there" ≡ "here" = ap Process.hostname q ∙ here in ground (arith, bad)

finish-unproven_example :
    ((finish host "m" 10 (machine 0) marker (running_on "there") cancels).0 ≡ ok true → ⊥)
    × (((finish host "m" 10 (machine 0) marker (running_on "there") cancels).1.world ≡ world)
        ⊎ ((finish host "m" 10 (machine 0) marker (running_on "there") cancels).1.world
            ≡ noted host "m" (machine 0) marker (running_on "there") cancels))
finish-unproven_example =
    finish-unproven host "m" 10 (machine 0) marker (running_on "there") cancels abroad

alive : Stopped cancels (machine 0) (running_on "here") → ⊥
unfolding find
alive (p, v, inl (pid, f, status, polled)) = cc
alive (p, v, inr (f, here, gone)) = cc

first_time : find (attempt_of (running_on "here")) cancels.kill_at ≡ none
unfolding find
first_time = refl

abbrev noted_frame : StateFrame
noted_frame = unverifiable_frame (running_on "here") "m" (machine 0) "then"

same_name : attempt_of noted_frame ≡ attempt_of (running_on "here")
same_name = attempt_noted (running_on "here") "m" (machine 0) "then"

-- The second pass reads the frame that the first has noted.
finish-grace_example :
    (kills
        (finish host "m" 10
          (machine 9)
          marker
          noted_frame
          (finish host "m" 10 (machine 0) marker (running_on "here") cancels).1).1.signals
      ≡ kills cancels.signals)
    × ((now : String)
        → attempt_of (unverifiable_frame (running_on "here") "m" (machine 0) now)
          ≡ attempt_of (running_on "here"))
finish-grace_example =
    finish-grace host "m" 10 (machine 0) (machine 9) marker marker (running_on "here") noted_frame
      cancels first_time alive same_name (omega arith)
