-- ===== src/Tests/Workspace.antt =====
-- A transition on a small disk, and a second actor that comes too late.
use httk_workflow.Base.{◌≡◌, ◌≢◌, ◌+◌, refl, pos, true, false, none, [], arith}
use httk_workflow.Errors.{Result, ok, err, transition_lost_error}
use httk_workflow.Json.{Json, str, Members, end, field, update, lookup}
use httk_workflow.Kinds.{StateKind, ready, claimed, paused}
use httk_workflow.Marker.{Marker}
use httk_workflow.World.{World}
use httk_workflow.Workspace.{on_disk, moved_to, prepare, transition, read_state, envelope, holders}
use httk_workflow.Workspace.Holders.{AtMostOne, transition-AtMostOne}
use httk_workflow.Workspace.Race.{transition-moved, transition-lost}
use httk_workflow.Workspace.ReadBack.{read_state-transition}
use httk_workflow.Tests.Samples.{host, world, marker}

abbrev updates : Members
updates = field "reason" (str "claim") end

one_marker : AtMostOne world
unfolding holders
one_marker key = ground arith

transition-AtMostOne_example : AtMostOne (transition host marker claimed updates none false world).1
transition-AtMostOne_example =
    transition-AtMostOne host marker claimed updates none false world one_marker

abbrev moved : Marker
moved = moved_to marker claimed (pos 100) "x0"

abbrev after : World
after = (transition host marker claimed updates none false world).1

claims : transition host marker claimed updates none false world ≡ (ok moved, after)
unfolding transition prepare httk_workflow.Workspace.require_unsealed httk_workflow.Job.member_of
    httk_workflow.Workspace.record_state httk_workflow.Workspace.append
    httk_workflow.Names.MarkerName.marker_basename httk_workflow.Names.JobKey.parse_job_key
    httk_workflow.Names.Uuid.is_uuid httk_workflow.Names.JobKey.last moved_to
    httk_workflow.Names.MarkerName.in_priority_range httk_workflow.Names.MarkerName.ascii
    httk_workflow.Names.MarkerName.joined httk_workflow.Names.MarkerName.natural
    httk_workflow.Names.Base36.to_base36 httk_workflow.Workspace.verified_rename on_disk
    httk_workflow.Json.insert update httk_workflow.Kinds.kind_name httk_workflow.Marker.same_marker
    envelope httk_workflow.Workspace.find_markers holders httk_workflow.Workspace.job_id
    httk_workflow.Workspace.renamed httk_workflow.Workspace.without
claims = refl

transition-moved_example :
    (moved.kind ≡ claimed)
    × (moved.generation ≡ marker.generation + 1)
    × (moved.job_key ≡ marker.job_key)
    × (on_disk moved after.markers ≡ true)
    × (on_disk marker after.markers ≡ false)
transition-moved_example =
    transition-moved host marker claimed updates none false world after moved one_marker claims

read_state-transition_example :
    read_state moved after
    ≡ ok (update (envelope "w" marker claimed (pos 100) (marker.generation + 1) "now") updates)
unfolding lookup
read_state-transition_example =
    read_state-transition host marker claimed updates none false world after moved
      (refl, refl, refl, refl, refl, refl) refl claims

abbrev late : Result Marker × World
late = prepare host marker paused end none false after

late_ready :
    prepare host marker paused end none false after
    ≡ (ok (moved_to marker paused (pos 100) "x1"), late.1)
unfolding transition prepare httk_workflow.Workspace.require_unsealed httk_workflow.Job.member_of
    httk_workflow.Workspace.record_state httk_workflow.Workspace.append
    httk_workflow.Names.MarkerName.marker_basename httk_workflow.Names.JobKey.parse_job_key
    httk_workflow.Names.Uuid.is_uuid httk_workflow.Names.JobKey.last moved_to
    httk_workflow.Names.MarkerName.in_priority_range httk_workflow.Names.MarkerName.ascii
    httk_workflow.Names.MarkerName.joined httk_workflow.Names.MarkerName.natural
    httk_workflow.Names.Base36.to_base36 httk_workflow.Workspace.verified_rename on_disk
    httk_workflow.Json.insert update httk_workflow.Kinds.kind_name httk_workflow.Marker.same_marker
    envelope httk_workflow.Workspace.find_markers holders httk_workflow.Workspace.job_id
    httk_workflow.Workspace.renamed httk_workflow.Workspace.without
late_ready = refl

late_fresh : on_disk (moved_to marker paused (pos 100) "x1") after.markers ≡ false
unfolding transition prepare httk_workflow.Workspace.require_unsealed httk_workflow.Job.member_of
    httk_workflow.Workspace.record_state httk_workflow.Workspace.append
    httk_workflow.Names.MarkerName.marker_basename httk_workflow.Names.JobKey.parse_job_key
    httk_workflow.Names.Uuid.is_uuid httk_workflow.Names.JobKey.last moved_to
    httk_workflow.Names.MarkerName.in_priority_range httk_workflow.Names.MarkerName.ascii
    httk_workflow.Names.MarkerName.joined httk_workflow.Names.MarkerName.natural
    httk_workflow.Names.Base36.to_base36 httk_workflow.Workspace.verified_rename on_disk
    httk_workflow.Json.insert update httk_workflow.Kinds.kind_name httk_workflow.Marker.same_marker
    envelope httk_workflow.Workspace.find_markers holders httk_workflow.Workspace.job_id
    httk_workflow.Workspace.renamed httk_workflow.Workspace.without
late_fresh = refl

late_tries : host.attempts after.tick ≢ []
late_tries e = cc

transition-lost_example :
    (transition host marker paused end none false after ≡ (err transition_lost_error, late.1))
    × (late.1.markers ≡ after.markers)
transition-lost_example =
    transition-lost host marker claimed paused updates end none none false false world after late.1
      moved (moved_to marker paused (pos 100) "x1") one_marker refl claims late_ready late_fresh
      late_tries
