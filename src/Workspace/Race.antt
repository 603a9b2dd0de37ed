-- ===== src/Workspace/Race.antt =====
-- What a successful transition leaves on disk, and that of two actors who hold the same marker one
-- at most moves it.
use httk_workflow.Base.{
  ◌+◌, ◌≤◌, ◌≡◌, ◌≢◌, ◌⊎◌, ◌∙◌, refl, sym, ap, ℤ, String, Bool, true, false, Option, none, some,
  List, [], ◌∷◌, ◌==◌, str_eq, eq_iff, arith, Bool-cases, inl, inr, length,
}
use httk_workflow.Errors.{Raised, Result, ok, err, transition_lost_error}
use httk_workflow.Json.{Members}
use httk_workflow.Kinds.{same_kind, is_core, StateKind}
use httk_workflow.Marker.{Marker, same_marker}
use httk_workflow.World.{Host, World, Attempt, performed, refused, continue}
use httk_workflow.Workspace.Prepared.{target, recorded, prepare-markers, prepare-eq-ok}
use httk_workflow.Workspace.Holders.{held, AtMostOne, transition-AtMostOne, same_key}
use httk_workflow.Workspace.{
  on_disk, find_markers, holders, renamed, raised_for, resolve, verified_rename, moved_to, prepare,
  transition,
}

resolve-eq-ok :
    (there still : Bool) (o : Option Raised) (d : Marker) (v : World)
    (again : Result Marker × World) (x : Marker) (w' : World)
    → resolve there still o d v again ≡ (ok x, w')
    → ((there ≡ true) × (x ≡ d) × (w' ≡ v)) ⊎ (again ≡ (ok x, w'))
unfolding resolve
resolve-eq-ok true still o d v again x w' e = inl (refl, ground arith, ground arith)
resolve-eq-ok false true o d v again x w' e = inr e
resolve-eq-ok false false none d v again x w' e = inr e
resolve-eq-ok false false (some r) d v again x w' e = cc

-- A rename that succeeds has put the new name on disk and touched nothing but the names.
rename-eq-ok :
    (attempts : List Attempt) (source d : Marker) (v w' : World) (x : Marker)
    → verified_rename attempts source d v ≡ (ok x, w')
    → (x ≡ d)
      × (on_disk d w'.markers ≡ true)
      × (w'.journal ≡ v.journal)
      × (w'.workspace_id ≡ v.workspace_id)
unfolding verified_rename
rename-eq-ok [] source d v w' x e = cc
rename-eq-ok (a ∷ rest) source d v w' x e =
    let after : World = record v { markers = renamed a source d v.markers } in
    elim (resolve-eq-ok (on_disk d after.markers) (on_disk source after.markers)
      (raised_for (find_markers source.job_key after.markers)) d after
      (verified_rename rest source d after) x w' e) [
        | inl (t, same, here) ↦ (
          same,
          ap (λ u. on_disk d u.markers) here ∙ t,
          ap (λ u. u.journal) here,
          ap (λ u. u.workspace_id) here,
        )
        | inr again ↦ rename-eq-ok rest source d after w' x again
      ]

one_holder : (ms : List Marker) → length ms ≡ 1 → raised_for ms ≡ some transition_lost_error
unfolding raised_for
one_holder [] h = cc
one_holder (m ∷ []) h = refl
one_holder (m ∷ n ∷ ms) h = absurd (omega (arith, h))

unmoved :
    (a : Attempt) (source d : Marker) (ms : List Marker)
    → on_disk source ms ≡ false
    → renamed a source d ms ≡ ms
unfolding renamed
unmoved refused source d ms s = refl
unmoved performed source d ms s = rw s

-- Where neither name is on disk, nothing is moved, and the one other marker makes the rename lost.
lost_rename :
    (attempts : List Attempt) (source d : Marker) (v : World)
    → on_disk source v.markers ≡ false
    → on_disk d v.markers ≡ false
    → length (find_markers source.job_key v.markers) ≡ 1
    → attempts ≢ []
    → verified_rename attempts source d v ≡ (err transition_lost_error, v)
unfolding verified_rename resolve
lost_rename [] source d v s t one nonempty = absurd (nonempty refl)
lost_rename (a ∷ rest) source d v s t one nonempty =
    rw
      (unmoved a source d v.markers s, s, t, one_holder (find_markers source.job_key v.markers) one)

same_generation : (m x : Marker) → same_marker m x ≡ true → m.generation ≡ x.generation
unfolding same_marker
same_generation m x h = ground arith

some_holder :
    (key : String) (a : Marker) (ms : List Marker)
    → str_eq a.job_key key ≡ true
    → on_disk a ms ≡ true
    → 1 ≤ held key ms
unfolding on_disk holders
some_holder key a [] ka h = cc
some_holder key a (x ∷ xs) ka h =
    ground (
      arith,
      some_holder key a xs ka,
      same_key a x,
      eq_iff a.job_key x.job_key,
      eq_iff a.job_key key,
    )

found_le : (key : String) (ms : List Marker) → length (find_markers key ms) ≤ held key ms
unfolding find_markers holders
found_le key [] = omega arith
found_le key (x ∷ xs) = ground (arith, found_le key xs)

same_kind_of : (m x : Marker) → same_marker m x ≡ true → is_core m.kind ≡ is_core x.kind
unfolding same_marker
same_kind_of m x h = core_of m.kind x.kind (ground arith)
  where
    core_of : (k j : StateKind) → same_kind k j ≡ true → is_core k ≡ is_core j
    core_of k j e = ground arith

some_found :
    (key : String) (a : Marker) (ms : List Marker)
    → str_eq a.job_key key ≡ true
    → is_core a.kind ≡ true
    → on_disk a ms ≡ true
    → 1 ≤ length (find_markers key ms)
unfolding on_disk find_markers
some_found key a [] ka c h = cc
some_found key a (x ∷ xs) ka c h = ground (
  arith,
  some_found key a xs ka c,
  same_key a x,
  same_kind_of a x,
  eq_iff a.job_key x.job_key,
  eq_iff a.job_key key,
)

-- Two files that name one job are two holders.
two_holders :
    (key : String) (a b : Marker) (ms : List Marker)
    → str_eq a.job_key key ≡ true
    → str_eq b.job_key key ≡ true
    → (a.generation == b.generation) ≡ false
    → on_disk a ms ≡ true
    → on_disk b ms ≡ true
    → 2 ≤ held key ms
unfolding on_disk holders
two_holders key a b [] ka kb d ha hb = cc
two_holders key a b (x ∷ xs) ka kb d ha hb = ground (
  arith,
  some_holder key a xs ka,
  some_holder key b xs kb,
  two_holders key a b xs ka kb d,
  same_key a x,
  same_key b x,
  same_generation a x,
  same_generation b x,
  eq_iff a.job_key x.job_key,
  eq_iff b.job_key x.job_key,
  eq_iff a.job_key key,
)

pub transition-eq-ok :
    (h : Host) (m : Marker) (kind : StateKind) (updates : Members) (priority : Option ℤ)
    (allow_sealed : Bool) (w w' : World) (moved : Marker)
    → transition h m kind updates priority allow_sealed w ≡ (ok moved, w')
    → (moved ≡ target h m kind updates priority allow_sealed w)
      × (on_disk moved w'.markers ≡ true)
      × (w'.journal ≡ (recorded h m kind updates priority allow_sealed w).journal)
      × (w'.workspace_id ≡ w.workspace_id)
unfolding transition
transition-eq-ok h m kind updates priority allow_sealed w w' moved e =
    after (prepare h m kind updates priority allow_sealed w) refl e
  where
    after :
        (r : Result Marker × World)
        → prepare h m kind updates priority allow_sealed w ≡ r
        → continue (verified_rename (h.attempts w.tick) m) r ≡ (ok moved, w')
        → (moved ≡ target h m kind updates priority allow_sealed w)
          × (on_disk moved w'.markers ≡ true)
          × (w'.journal ≡ (recorded h m kind updates priority allow_sealed w).journal)
          × (w'.workspace_id ≡ w.workspace_id)
    after (err x, v) p g = cc
    after (ok d, v) p g =
        let there = prepare-eq-ok h m kind updates priority allow_sealed w v d p in
        let done = rename-eq-ok (h.attempts w.tick) m d v w' moved g in
        (
          done.0 ∙ there.0,
          rw done.0 done.1,
          done.2 ∙ ap (λ u. u.journal) there.1,
          done.3 ∙ ap (λ u. u.workspace_id) there.1,
        )

-- After a transition that succeeds, in a workspace where no job has two markers, the old marker is
-- gone and the new one is there, one generation later and of the kind asked for.
pub transition-moved :
    (h : Host) (m : Marker) (kind : StateKind) (updates : Members) (priority : Option ℤ)
    (allow_sealed : Bool) (w w' : World) (moved : Marker)
    → AtMostOne w
    → transition h m kind updates priority allow_sealed w ≡ (ok moved, w')
    → (moved.kind ≡ kind)
      × (moved.generation ≡ m.generation + 1)
      × (moved.job_key ≡ m.job_key)
      × (on_disk moved w'.markers ≡ true)
      × (on_disk m w'.markers ≡ false)
unfolding moved_to
transition-moved h m kind updates priority allow_sealed w w' moved p e =
    let (same, there, _, _) =
      transition-eq-ok h m kind updates priority allow_sealed w w' moved e in
    let key : moved.job_key ≡ m.job_key = ap (λ x. x.job_key) same in
    let next : moved.generation ≡ m.generation + 1 = ap (λ x. x.generation) same in
    let one : held m.job_key w'.markers ≤ 1 =
      rw e at (transition-AtMostOne h m kind updates priority allow_sealed w p m.job_key) in
    (
      ap (λ x. x.kind) same,
      next,
      key,
      there,
      elim (Bool-cases (on_disk m w'.markers)) [
        | inr gone ↦ gone
        | inl still ↦ absurd (
            omega (
              arith,
              one,
              two_holders m.job_key m moved w'.markers ((eq_iff m.job_key m.job_key).1 refl)
                  ((eq_iff moved.job_key m.job_key).1 key) (ground (arith, next)) still there,
            ))
      ],
    )

-- Two actors hold the same marker, of a job with no other, and the first one moves it to a state of
-- the core profile. If the second one's record and new name are then accepted, that name is not on
-- disk, and a rename is tried at all, its transition is lost and moves nothing, whatever kind and
-- members it chose.
pub transition-lost :
    (h : Host) (m : Marker) (kind other : StateKind) (updates more : Members)
    (priority another : Option ℤ) (allow_sealed allow_other : Bool) (w w' v : World)
    (moved d : Marker)
    → AtMostOne w
    → is_core kind ≡ true
    → transition h m kind updates priority allow_sealed w ≡ (ok moved, w')
    → prepare h m other more another allow_other w' ≡ (ok d, v)
    → on_disk d w'.markers ≡ false
    → h.attempts w'.tick ≢ []
    → transition h m other more another allow_other w' ≡ (err transition_lost_error, v)
      × (v.markers ≡ w'.markers)
transition-lost h m kind other updates more priority another allow_sealed allow_other w w' v moved d
      p core e prepared fresh tries =
    let (of_kind, _, key, there, gone) =
      transition-moved h m kind updates priority allow_sealed w w' moved p e in
    let quiet : v.markers ≡ w'.markers =
      ap (λ r. r.1.markers) (sym prepared)
      ∙ prepare-markers h m other more another allow_other w' in
    let most : held m.job_key w'.markers ≤ 1 =
      rw e at (transition-AtMostOne h m kind updates priority allow_sealed w p m.job_key) in
    let least =
      some_found m.job_key moved w'.markers ((eq_iff moved.job_key m.job_key).1 key)
        (rw of_kind core) there in
    let one : length (find_markers m.job_key v.markers) ≡ 1 =
      rw quiet (omega (arith, most, least, found_le m.job_key w'.markers)) in
    let lost = lost_rename (h.attempts w'.tick) m d v (rw quiet gone) (rw quiet fresh) one tries in
    (unfold transition in rw (prepared, lost), quiet)
