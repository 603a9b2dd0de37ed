-- ===== src/Manager/Requests/Effects.antt =====
-- _manager_requests.py: what a request must say so that anything comes of it.
use httk_workflow.Base.{
  ap, ◌≡◌, refl, sym, ◌⊎◌, inl, inr, ℤ, pos, negsuc, eq_ℤ, String, true, Option, none, some, arith,
  eq_iff, Bool-cases,
}
use httk_workflow.Errors.{Raised, Result, ok, err, format_error}
use httk_workflow.Json.{Json, int, str, Members, get, as_int, is_str}
use httk_workflow.Marker.{Marker}
use httk_workflow.Job.{JobDefinition}
use httk_workflow.Frame.{StateFrame}
use httk_workflow.World.{Host, World}
use httk_workflow.Workspace.{read_state, load_job}
use httk_workflow.Manager.Requests.{
  Action, Reply, Refusal, cancel, set_priority, pause, continue_job, override_step, action_of,
  action_class, dispatch, read_both, current, ref_or_null, apply_to, stale_generation, stale_record,
}
use httk_workflow.Manager.Requests.Refusals.{dispatch_refused}

-- An outcome that is not a refusal: the request was carried out, or the workspace is another one.
abbrev pub Effective : Result Reply × World → World → Type 0
Effective r w = (r.0 ≡ ok none) ⊎ ((r.1 ≡ w) → ⊥)

refused_error : (e : Raised) (w : World) → Effective (err e, w) w → ⊥
refused_error e w (inl q) = cc
refused_error e w (inr n) = n refl

refused_reply : (x : Refusal) (w : World) → Effective (ok (some x), w) w → ⊥
refused_reply x w (inl q) = cc
refused_reply x w (inr n) = n refl

-- What a request must say, and the workspace hold, so that it is carried out on a job.
pub record Applies (marker : Marker) (request : Members) (w : World) : Type 0 where
  pub generation : get "expected_generation" request ≡ int (pos marker.generation)
  pub record_ref : get "expected_record_ref" request ≡ str marker.record_ref
  pub state : StateFrame
  pub is_read : read_state marker w ≡ ok state
  pub job : JobDefinition
  pub is_loaded : load_job marker w ≡ ok job
  pub action : Action
  pub is_known : action_of (get "action" request) ≡ some action
  pub is_allowed : action_class (some action) marker.kind ≡ ok action

as_int-int : (v : Json) {z : ℤ} → as_int v ≡ some z → v ≡ int z
as_int-int (int y) e = (let q : y ≡ _ = cc in ap int q)
as_int-int _ e = cc

is_str-str : (s : String) (v : Json) → is_str s v ≡ true → v ≡ str s
unfolding is_str
is_str-str s (str t) h = (let q : t ≡ s = ground (arith, eq_iff t s) in ap str q)
is_str-str s _ h = cc

eq_ℤ_sound : (a b : ℤ) → eq_ℤ a b ≡ true → a ≡ b
eq_ℤ_sound (pos m) (pos n) h = (let q : m ≡ n = ground arith in ap pos q)
eq_ℤ_sound (negsuc m) (negsuc n) h = (let q : m ≡ n = ground arith in ap negsuc q)
eq_ℤ_sound (pos m) (negsuc n) h = absurd (ground arith)
eq_ℤ_sound (negsuc m) (pos n) h = absurd (ground arith)

class_same : (a b : Action) (marker : Marker) → action_class (some a) marker.kind ≡ ok b → a ≡ b
unfolding action_class
class_same cancel b marker h = ground arith
class_same set_priority b marker h = ground arith
class_same pause b marker h = ground arith
class_same continue_job b marker h = ground arith
class_same override_step b marker h = ground arith

module _ (hazard : Option Json) (h : Host) (marker : Marker) (request : Members)
    (key : Option String) (w : World) where
  abbrev Allowed : Type 0
  Allowed =
      (a : Action) × (action_of (get "action" request) ≡ some a)
      × (action_class (some a) marker.kind ≡ ok a)

  dispatch-Allowed :
      (job : JobDefinition) (state : StateFrame) (o : Option Action) (r : Result Action)
      → action_of (get "action" request) ≡ o
      → action_class o marker.kind ≡ r
      → Effective (dispatch o hazard h marker job state request key w) w
      → Allowed
  dispatch-Allowed job state o (err e) q c f = absurd (
      refused_error format_error w
        (rw (dispatch_refused hazard h marker request key o job state w e c) at f))
  dispatch-Allowed job state none (ok b) q c f = unfold action_class in cc
  dispatch-Allowed job state (some a) (ok b) q c f = (a, q, rw (sym (class_same a b marker c)) at c)

  read-Applies :
      (r : Result StateFrame) (s : Result JobDefinition)
      → Effective (read_both r s hazard h marker request key w) w
      → (state : StateFrame) × (r ≡ ok state) × (job : JobDefinition) × (s ≡ ok job) × Allowed
  unfolding read_both
  read-Applies (err e) s f = absurd (refused_error e w f)
  read-Applies (ok state) (err e) f = absurd (refused_error e w f)
  read-Applies (ok state) (ok job) f = (
    state,
    refl,
    job,
    refl,
    dispatch-Allowed job state (action_of (get "action" request))
        (action_class (action_of (get "action" request)) marker.kind) refl refl f,
  )

  current-Applies :
      (o : Option ℤ)
      → as_int (get "expected_generation" request) ≡ o
      → Effective (current o hazard h marker request key w) w
      → Applies marker request w
  unfolding current
  current-Applies none g f = absurd (refused_error format_error w f)
  current-Applies (some z) g f =
      elim (Bool-cases (ref_or_null (get "expected_record_ref" request))) [
        | inr n ↦ absurd (refused_error format_error w (rw n at f))
        | inl k ↦ elim (Bool-cases (eq_ℤ (pos marker.generation) z)) [
          | inr n ↦ absurd (refused_reply stale_generation w (rw (k, n) at f))
          | inl e ↦
              elim (Bool-cases (is_str marker.record_ref (get "expected_record_ref" request))) [
                | inr n ↦ absurd (refused_reply stale_record w (rw (k, e, n) at f))
                | inl r ↦
                    (let (state, sr, job, jr, (a, known, allowed)) =
                        read-Applies (read_state marker w) (load_job marker w)
                          (rw (k, e, r) at f) in
                      record {
                        generation = rw (eq_ℤ_sound (pos marker.generation) z e) (as_int-int _ g);
                        record_ref = is_str-str marker.record_ref _ r;
                        state = state;
                        is_read = sr;
                        job = job;
                        is_loaded = jr;
                        action = a;
                        is_known = known;
                        is_allowed = allowed;
                      })
              ]
        ]
      ]

  -- A request that is carried out, or of which any change of the workspace comes, even with an error
  -- afterwards, names the present generation of the job and its present record, the state and the
  -- document of the job can be read, and its action is a known one that the classification allows.
  pub apply_to-Applies :
      Effective (apply_to hazard h marker request key w) w → Applies marker request w
  unfolding apply_to
  apply_to-Applies f = current-Applies (as_int (get "expected_generation" request)) refl f
