-- ===== src/Document/Typed.antt =====
-- models.py: what an accepted environment promises to the code that exports it to a runner.
use httk_workflow.Base.{
  ◌≡◌, refl, sym, String, true, false, not, Option, some, List, [], arith, str_eq, eq_iff, inl, inr,
  Bool-cases,
}
use httk_workflow.Errors.{ok}
use httk_workflow.Json.{
  Json, null, bool, int, str, arr, obj, Members, end, field, get, lookup, insert, as_text,
  lookup-insert, require_string,
}
use httk_workflow.Resources.{find, put, find-put}
use httk_workflow.Document.Returned.{Returns, after, here, guard-ok, require-ok}
use httk_workflow.Document.Shape.{optional_string}
use httk_workflow.Document.Environment.{
  Environment, is_reserved, effective_setting, declared_entry, declared_into, override_fits,
  overrides_into, validate_environment,
}

-- the variable that an entry is exported as is not one of the manager's own
abbrev pub Exportable : String → Members → Type 0
Exportable key metadata =
    is_reserved (effective_setting key (as_text (get "setting" metadata))) ≡ false

abbrev pub AllExportable : List (String × Members) → Type 0
AllExportable ds = (key : String) (m : Members) → find key ds ≡ some m → Exportable key m

abbrev pub AllTyped : List (String × Members) → Members → Type 0
AllTyped ds os =
    (key : String) (w : Json)
    → lookup key os ≡ some w
    → (m : Members) × (find key ds ≡ some m) × (override_fits m w ≡ true)

require_string-text : (raw : Json) {s : String} → require_string raw ≡ ok s → some s ≡ as_text raw
unfolding require_string
require_string-text null e = cc
require_string-text (bool b) e = cc
require_string-text (int z) e = cc
require_string-text (str t) e = elim (Bool-cases (str_eq t "")) [
  | inl q ↦ (let h = rw q at e in cc)
  | inr q ↦ (let h = rw q at e in cc)
]
require_string-text (arr xs) e = cc
require_string-text (obj m) e = cc

optional_string-text :
    (raw : Json) → Returns (λ (o : Option String). o ≡ as_text raw) (optional_string raw)
unfolding optional_string
optional_string-text null = here refl
optional_string-text (str t) = after λ s e. here (require_string-text (str t) e)
optional_string-text (bool b) = after λ s e. here (require_string-text (bool b) e)
optional_string-text (int z) = after λ s e. here (require_string-text (int z) e)
optional_string-text (arr xs) = after λ s e. here (require_string-text (arr xs) e)
optional_string-text (obj m) = after λ s e. here (require_string-text (obj m) e)

entry-Exportable : (key : String) (raw : Json) → Returns (Exportable key) (declared_entry key raw)
unfolding declared_entry
entry-Exportable key raw = after λ u _. after λ m _. after λ v _. after λ d _. after λ t _.
    after λ w _. after λ s es. after λ x _. after λ y ey. here (
      let h = guard-ok (not (is_reserved (effective_setting key s))) _ ey in
      rw (sym ((optional_string-text (get "setting" m)).at es)) (ground arith))

put-AllExportable :
    (key : String) (m : Members) (ds : List (String × Members))
    → Exportable key m
    → AllExportable ds
    → AllExportable (put key m ds)
put-AllExportable key m ds h all j n e = elim (Bool-cases (str_eq key j)) [
  | inl q ↦
      (let k : key ≡ j = ground (arith, eq_iff key j) in
        let f = rw (find-put key j m ds, q) at e in let g : m ≡ n = cc in rw (sym k, sym g) h)
  | inr q ↦ all j n (rw (find-put key j m ds, q) at e)
]

declared-AllExportable :
    (ds : List (String × Members)) (raw : Members)
    → AllExportable ds
    → Returns AllExportable (declared_into ds raw)
unfolding declared_into
declared-AllExportable ds end all = here all
declared-AllExportable ds (field key raw rest) all = after λ m em.
    declared-AllExportable (put key m ds) rest
      (put-AllExportable key m ds ((entry-Exportable key raw).at em) all)

insert-AllTyped :
    (ds : List (String × Members)) (key : String) (m : Members) (w : Json) (os : Members)
    → find key ds ≡ some m
    → override_fits m w ≡ true
    → AllTyped ds os
    → AllTyped ds (insert key w os)
insert-AllTyped ds key m w os f h all j v e = elim (Bool-cases (str_eq key j)) [
  | inl q ↦
      (let k : key ≡ j = ground (arith, eq_iff key j) in
        let found = rw (lookup-insert key j w os, q) at e in
        let g : w ≡ v = cc in (m, rw (sym k) f, rw (sym g) h))
  | inr q ↦ all j v (rw (lookup-insert key j w os, q) at e)
]

overrides-AllTyped :
    (ds : List (String × Members)) (os raw : Members)
    → AllTyped ds os
    → Returns (AllTyped ds) (overrides_into ds os raw)
unfolding overrides_into
overrides-AllTyped ds os end all = here all
overrides-AllTyped ds os (field key w rest) all = after λ m em. after λ u eu.
    overrides-AllTyped ds (insert key w os) rest (
      insert-AllTyped ds key m w os (require-ok (find key ds) _ em)
        (guard-ok (override_fits m w) _ eu) all)

environment_returns :
    (value : Json)
    → Returns
        (λ (e : Environment). AllExportable e.declared × AllTyped e.declared e.overrides)
        (validate_environment value)
unfolding validate_environment find lookup
environment_returns value = after λ m _. after λ d _. after λ o _. after λ ds eds. after λ os eos.
    after λ u _. here (
      (declared-AllExportable [] d (λ k n h. cc)).at eds,
      (overrides-AllTyped ds end o (λ k w h. cc)).at eos,
    )

-- In an environment that is accepted, no declared entry is exported as a variable of the manager's
-- own `HTTK_WORKFLOW_` names, and each override is of a declared entry whose type it has.
pub validate_environment-Typed :
    (value : Json) (e : Environment)
    → validate_environment value ≡ ok e
    → AllExportable e.declared × AllTyped e.declared e.overrides
validate_environment-Typed value e eq = (environment_returns value).at eq
