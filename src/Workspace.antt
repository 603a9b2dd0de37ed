-- ===== src/Workspace.antt =====
-- workspace.py: reading the state of a job and moving its marker. A marker is a file whose name is
-- the whole state, so a transition writes a journal record and then renames one file.
pub mod Holders
pub mod Race
pub mod ReadBack
pub mod Prepared
use httk_workflow.Base.{
  ℕ, suc, ◌+◌, ◌-◌, ℤ, pos, String, Bool, true, false, not, ◌&&◌, ◌||◌, Option, none, some, List,
  [], ◌∷◌, any, count_if, ◌==◌, leb, str_eq, if◌then◌else◌, or_else, eq_ℤ, length,
}
use httk_workflow.Errors.{
  Raised, Result, ok, err, format_error, corruption_error, unavailable_error, transition_lost_error,
  sealed_error,
}
use httk_workflow.Json.{
  Json, null, int, str, Members, end, field, get, update, is_str, is_int, lookup,
}
use httk_workflow.Json.Numbers.{codes}
use httk_workflow.Kinds.{StateKind, is_core, submitted, kind_name, same_kind}
use httk_workflow.Marker.{Marker, same_marker}
use httk_workflow.Job.{JobDefinition, member_of}
use httk_workflow.Resources.{find}
use httk_workflow.Names.MarkerName.{maximum_generation, marker_basename}
use httk_workflow.World.{
  Host, World, Attempt, performed, refused, Step, ◌>>=◌, ◌>>◌, pure, of, raise, check, next_tick,
  attempt, continue,
}

-- the text without its first characters
skip : ℕ → String → String
skip ℕ.zero s = s
skip (suc n) String.[] = String.[]
skip (suc n) (String.◌∷◌ c s) = skip n s

-- `Marker.job_id`: the last 36 characters of a job key
unfoldable pub job_id : Marker → String
unfolding skip
job_id m = skip (length (codes m.job_key) - 36) m.job_key

-- `path.is_file()`
unfoldable pub on_disk : Marker → List Marker → Bool
on_disk m ms = any (same_marker m) ms

unfoldable pub without : Marker → List Marker → List Marker
without m [] = []
without m (x ∷ xs) = let rest = without m xs in if same_marker m x then rest else x ∷ rest

unfoldable pub holders : String → List Marker → List Marker
holders key [] = []
holders key (m ∷ ms) = let rest = holders key ms in if str_eq m.job_key key then m ∷ rest else rest

-- `find_markers` of one job, which searches the core kinds
unfoldable pub find_markers : String → List Marker → List Marker
find_markers key [] = []
find_markers key (m ∷ ms) =
    let rest = find_markers key ms in
    if is_core m.kind && str_eq m.job_key key then m ∷ rest else rest

-- `os.rename` of a marker, which takes the place of a file of the new name
unfoldable pub renamed : Attempt → Marker → Marker → List Marker → List Marker
renamed refused source destination ms = ms
renamed performed source destination ms =
    if on_disk source ms then destination ∷ without destination (without source ms) else ms

-- `len(current)`: none, one or several
raised_for : List Marker → Option Raised
raised_for [] = none
raised_for (m ∷ []) = some transition_lost_error
raised_for (m ∷ n ∷ ms) = some corruption_error

-- The new name is there, or the old one still is, or another actor has moved the marker.
resolve :
    Bool → Bool → Option Raised → Marker → World → Result Marker × World → Result Marker × World
resolve true _ _ destination after again = (ok destination, after)
resolve false true _ destination after again = again
resolve false false (some e) destination after again = (err e, after)
resolve false false none destination after again = again

unfoldable pub verified_rename : List Attempt → Marker → Marker → Step Marker
unfolding raised_for resolve
verified_rename [] source destination w = (err unavailable_error, w)
verified_rename (a ∷ rest) source destination w =
    let after = record w { markers = renamed a source destination w.markers } in
    let again = verified_rename rest source destination after in
    resolve (on_disk destination after.markers) (on_disk source after.markers)
      (raised_for (find_markers source.job_key after.markers)) destination after again

unfoldable pub require_unsealed : Option String → Step (Unit {0})
require_unsealed key w = if w.sealed then (err sealed_error, w) else elim key [
  | none ↦ (ok tt, w)
  | some k ↦ if member_of k w.sealed_jobs then (err sealed_error, w) else (ok tt, w)
]

-- `JournalWriter.append`: the reference is the place and the checksum of the record
unfoldable pub append : Host → Members → Step String
append h frame w =
    let n = w.tick in
    let later = record w { tick = suc n } in
    elim (h.append_fault n) [
      | some e ↦ (err e, later)
      | none ↦
          (ok (h.record_ref n), record later { journal = (h.record_ref n, ok frame) ∷ w.journal })
    ]

-- `None if marker.record_ref == "init" else marker.record_ref`
previous_ref : String → Json
previous_ref ref = if str_eq ref "init" then null else str ref

unfoldable pub envelope : String → Marker → StateKind → ℤ → ℕ → String → Members
unfolding previous_ref
envelope workspace_id m kind priority generation created_at =
    field "format" (str "httk-workflow-state") (
      field "format_version" (int (pos 2)) (
        field "workspace_id" (str workspace_id) (
          field "job_id" (str (job_id m)) (
            field "job_key" (str m.job_key) (
              field "placement" (str m.placement) (
                field "state_generation" (int (pos generation)) (
                  field "kind" (str (kind_name kind)) (
                    field "previous_record_ref" (previous_ref m.record_ref) (
                      field "created_at" (str created_at)
                        (field "priority" (int priority) end))))))))))

unfoldable pub record_state : Host → Marker → StateKind → Members → ℤ → Step String
record_state h m kind updates priority w =
    append h
      (update (envelope w.workspace_id m kind priority (m.generation + 1) (h.utc_now w.tick))
        updates)
      w

-- `marker_path` raises where the name is not one of the core profile
valid_name : Marker → Result (Unit {0})
valid_name m =
    elim (marker_basename (codes m.job_key) m.priority m.generation (codes m.record_ref)) [
      | err e ↦ err e
      | ok _ ↦ ok tt
    ]

-- the destination of a transition
unfoldable pub moved_to : Marker → StateKind → ℤ → String → Marker
moved_to m kind priority ref = record m {
  kind = kind;
  priority = priority;
  generation = m.generation + 1;
  record_ref = ref;
}

-- `transition` up to the rename: the checks, the journal record and the name to move to
unfoldable pub prepare : Host → Marker → StateKind → Members → Option ℤ → Bool → Step Marker
unfolding valid_name
prepare h m kind updates priority allow_sealed = do
  require_unsealed (if allow_sealed then none else some m.job_key)
  check (leb (m.generation + 1) maximum_generation) corruption_error
  ref ← record_state h m kind updates (or_else priority m.priority)
  let destination = moved_to m kind (or_else priority m.priority) ref
  of (valid_name destination)
  pure destination

unfoldable pub transition : Host → Marker → StateKind → Members → Option ℤ → Bool → Step Marker
transition h m kind updates priority allow_sealed w =
    continue (verified_rename (h.attempts w.tick) m)
      (prepare h m kind updates priority allow_sealed w)

-- `frame.get(...) != ...` of `read_state`, all of them
unfoldable pub agrees : String → Marker → Members → Bool
agrees workspace_id m frame =
    is_str "httk-workflow-state" (get "format" frame)
    && (is_int (pos 2) (get "format_version" frame)
        && (is_str workspace_id (get "workspace_id" frame)
            && (is_str m.job_key (get "job_key" frame)
                && (is_int (pos m.generation) (get "state_generation" frame)
                    && is_str (kind_name m.kind) (get "kind" frame)))))

initial_frame : String → Marker → Members
initial_frame workspace_id m = field "format" (str "httk-workflow-state") (
    field "format_version" (int (pos 2)) (
      field "workspace_id" (str workspace_id) (
        field "job_id" (str (job_id m)) (
          field "job_key" (str m.job_key) (
            field "placement" (str m.placement) (
              field "state_generation" (int (pos 0)) (
                field "kind" (str "submitted") (
                  field "previous_record_ref" null
                    (field "created_at" null (field "priority" (int m.priority) end))))))))))

-- `read_record`: a record that is not there may become visible, until the deadline
read_record : String → List (String × Result Members) → Result Members
read_record ref journal = or_else (find ref journal) (err unavailable_error)

checked : String → Marker → Result Members → Result Members
checked workspace_id m (err e) = err e
checked workspace_id m (ok frame) =
    if agrees workspace_id m frame then ok frame else err corruption_error

unfoldable pub read_state : Marker → World → Result Members
unfolding initial_frame read_record checked
read_state m w =
    if str_eq m.record_ref "init"
    then ok (initial_frame w.workspace_id m)
    else checked w.workspace_id m (read_record m.record_ref w.journal)

job_agrees : Marker → Result JobDefinition → Result JobDefinition
job_agrees m (err e) = err e
job_agrees m (ok job) =
    if not (str_eq job.job_key m.job_key)
    then err format_error
    else if not (eq_ℤ job.priority m.priority) && m.generation == 0
    then err format_error
    else ok job

unfoldable pub load_job : Marker → World → Result JobDefinition
unfolding job_agrees
load_job m w = job_agrees m (or_else (find m.job_key w.payloads) (err format_error))
