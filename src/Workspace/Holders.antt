-- ===== src/Workspace/Holders.antt =====
-- No job gets a second marker: what a rename does to the files that name a job, and that every
-- branch of a transition keeps it.
use httk_workflow.Base.{
  ℕ, suc, ◌≤◌, ◌≡◌, refl, sym, ap, ℤ, String, Bool, true, false, Option, none, some, List, [], ◌∷◌,
  str_eq, eq_iff, arith, length,
}
use httk_workflow.Errors.{Raised, Result, ok, err}
use httk_workflow.Json.{Members}
use httk_workflow.Kinds.{StateKind}
use httk_workflow.Marker.{Marker, same_marker}
use httk_workflow.World.{Host, World, Attempt, performed, refused, Keeps, continue}
use httk_workflow.Workspace.Prepared.{prepare-markers, prepare-eq-ok}
use httk_workflow.Workspace.{
  on_disk, find_markers, without, holders, renamed, raised_for, resolve, verified_rename, moved_to,
  prepare, transition,
}

abbrev pub held : String → List Marker → ℕ
held key ms = length (holders key ms)

-- every job has at most one marker
abbrev pub AtMostOne : World → Type 0
AtMostOne w = (key : String) → held key w.markers ≤ 1

pub same_key : (m x : Marker) → same_marker m x ≡ true → str_eq m.job_key x.job_key ≡ true
unfolding same_marker
same_key m x h = ground arith

held-without :
    (key : String) (m : Marker) (ms : List Marker) → held key (without m ms) ≤ held key ms
unfolding holders without
held-without key m [] = omega arith
held-without key m (x ∷ xs) = ground (arith, held-without key m xs)

-- A file that is there and names the job is one of its holders.
held-on_disk :
    (key : String) (m : Marker) (ms : List Marker)
    → str_eq m.job_key key ≡ true
    → on_disk m ms ≡ true
    → suc (held key (without m ms)) ≤ held key ms
unfolding holders without on_disk
held-on_disk key m [] e h = cc
held-on_disk key m (x ∷ xs) e h = ground (
  arith,
  held-without key m xs,
  held-on_disk key m xs e,
  same_key m x,
  eq_iff m.job_key key,
  eq_iff m.job_key x.job_key,
)

resolve-keeps :
    (P : World → Type 0) (there still : Bool) (o : Option Raised) (destination : Marker) (w : World)
    (again : Result Marker × World)
    → P w
    → P again.1
    → P (resolve there still o destination w again).1
unfolding resolve
resolve-keeps P true still o d w again p q = p
resolve-keeps P false true o d w again p q = q
resolve-keeps P false false none d w again p q = q
resolve-keeps P false false (some e) d w again p q = p

module _ (source destination : Marker)
    (same : str_eq source.job_key destination.job_key ≡ true) where
  held-renamed :
      (key : String) (a : Attempt) (ms : List Marker)
      → held key (renamed a source destination ms) ≤ held key ms
  unfolding renamed holders
  held-renamed key refused ms = omega arith
  held-renamed key performed ms = ground (
    arith,
    held-without key destination (without source ms),
    held-without key source ms,
    held-on_disk key source ms,
    eq_iff source.job_key destination.job_key,
  )

  rename-Keeps :
      (attempts : List Attempt) → Keeps AtMostOne (verified_rename attempts source destination)
  unfolding verified_rename
  rename-Keeps [] w p = p
  rename-Keeps (a ∷ rest) w p =
      let after : World = record w { markers = renamed a source destination w.markers } in
      let fewer : (key : String) → held key (renamed a source destination w.markers) ≤ 1 =
        λ key. omega (arith, held-renamed key a w.markers, p key) in
      resolve-keeps AtMostOne (on_disk destination after.markers) (on_disk source after.markers)
        (raised_for (find_markers source.job_key after.markers)) destination after
        (verified_rename rest source destination after) fewer (rename-Keeps rest after fewer)

-- Whatever a transition returns, and whatever renames the file server performs or refuses, a
-- workspace in which no job has two markers stays one.
pub transition-AtMostOne :
    (h : Host) (m : Marker) (kind : StateKind) (updates : Members) (priority : Option ℤ)
    (allow_sealed : Bool)
    → Keeps AtMostOne (transition h m kind updates priority allow_sealed)
unfolding transition moved_to
transition-AtMostOne h m kind updates priority allow_sealed w p =
    after (prepare h m kind updates priority allow_sealed w) refl (λ key.
      omega
        (arith, p key, ap (held key) (prepare-markers h m kind updates priority allow_sealed w)))
  where
    after :
        (r : Result Marker × World)
        → prepare h m kind updates priority allow_sealed w ≡ r
        → AtMostOne r.1
        → AtMostOne (continue (verified_rename (h.attempts w.tick) m) r).1
    after (err x, v) e q = q
    after (ok d, v) e q =
        let same : str_eq m.job_key d.job_key ≡ true = (eq_iff m.job_key d.job_key).1 (
          ap (λ x. x.job_key)
            (sym (prepare-eq-ok h m kind updates priority allow_sealed w v d e).0)) in
        rename-Keeps m d same (h.attempts w.tick) v q
