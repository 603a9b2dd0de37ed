-- ===== src/Resources/Valid.antt =====
-- models.py: what `validate_resources` makes is a requirement, and a requirement is read back from
-- the JSON that is written of it.
use mathlib.Core.List.{append_assoc, append-nil}
use httk_workflow.Base.{
  ℕ, String, ◌≡◌, refl, sym, true, false, none, [], ◌∷◌, ◌++◌, arith, str_eq, eq_iff, inl, inr,
  Bool-cases,
}
use httk_workflow.Errors.{ok, >>=-eq-ok}
use httk_workflow.Json.{Json, str, obj, Members, end, field, require_mapping, require_string}
use httk_workflow.Json.Numbers.{codes}
use httk_workflow.Names.JobKey.{is_label}
use httk_workflow.Resources.{
  Resources, find, put, find-put, label_value, natural_value, resources_into, resource_members,
  validate_resources,
}

-- every resource is named by a label, and only once
abbrev pub IsRequirement : Resources → Type 0
IsRequirement [] = Unit {0}
IsRequirement ((k, n) ∷ r) = (is_label (codes k) ≡ true) × (find k r ≡ none) × IsRequirement r

pub put-IsRequirement :
    (k : String) (n : ℕ) (r : Resources)
    → is_label (codes k) ≡ true
    → IsRequirement r
    → IsRequirement (put k n r)
unfolding put find
put-IsRequirement k n [] l h = (l, refl, tt)
put-IsRequirement k n ((j, w) ∷ r) l (m, f, h) = elim (Bool-cases (str_eq j k)) [
  | inl q ↦ rw q (m, f, h)
  | inr q ↦
      let away : find j (put k n r) ≡ none =
        ground (arith, find-put k j n r, eq_iff k j, eq_iff j k, f) in
      rw q (m, away, put-IsRequirement k n r l h)
]

label_is_label : (v : Json) {s : String} → label_value v ≡ ok s → is_label (codes s) ≡ true
unfolding label_value
label_is_label v {s} e =
    let (t, r, h) = >>=-eq-ok (require_string v) _ e in
    elim (Bool-cases (is_label (codes t))) [
      | inl q ↦ (let k = rw q at h in let same : t ≡ s = cc in rw (sym same) q)
      | inr q ↦ (let k = rw q at h in cc)
    ]

into-IsRequirement :
    (acc : Resources) (m : Members) {r : Resources}
    → IsRequirement acc
    → resources_into acc m ≡ ok r
    → IsRequirement r
unfolding resources_into
into-IsRequirement acc end {r} h e = (let same : acc ≡ r = cc in rw (sym same) h)
into-IsRequirement acc (field key raw rest) h e =
    let (label, l, e) = >>=-eq-ok (label_value (str key)) _ e in
    let (n, q, e) = >>=-eq-ok (natural_value raw) _ e in
    into-IsRequirement (put label n acc) rest
      (put-IsRequirement label n acc (label_is_label (str key) l) h) e

-- What `validate_resources` returns is a requirement.
pub validate_resources-IsRequirement :
    (v : Json) {r : Resources} → validate_resources v ≡ ok r → IsRequirement r
unfolding validate_resources
validate_resources-IsRequirement v e =
    let (m, q, e) = >>=-eq-ok (require_mapping v) _ e in into-IsRequirement [] m tt e

labelled : (k : String) → is_label (codes k) ≡ true → label_value (str k) ≡ ok k
unfolding label_value require_string is_label
labelled k h = elim (Bool-cases (str_eq k "")) [
  | inl q ↦ (let e : k ≡ "" = ground (arith, eq_iff k "") in let bad = rw e at h in cc)
  | inr q ↦ rw (q, h) refl
]

later_name :
    (j k : String) (n : ℕ) (acc r : Resources)
    → find j (acc ++ (k, n) ∷ r) ≡ none
    → str_eq k j ≡ false
unfolding find
later_name j k n [] r f = ground arith
later_name j k n ((i, w) ∷ acc) r f = ground (arith, later_name j k n acc r)

-- a resource that follows others is none of them
is_new :
    (acc : Resources) (k : String) (n : ℕ) (r : Resources)
    → IsRequirement (acc ++ (k, n) ∷ r)
    → (is_label (codes k) ≡ true) × (find k acc ≡ none)
unfolding find
is_new [] k n r (l, f, h) = (l, refl)
is_new ((j, w) ∷ acc) k n r (m, f, h) =
    let (l, g) = is_new acc k n r h in
    let away : str_eq j k ≡ false =
      ground (arith, later_name j k n acc r f, eq_iff j k, eq_iff k j) in
    (l, rw away g)

put_new :
    (k : String) (n : ℕ) (acc : Resources) → find k acc ≡ none → put k n acc ≡ acc ++ (k, n) ∷ []
unfolding put find
put_new k n [] f = refl
put_new k n ((j, w) ∷ acc) f = ground (arith, put_new k n acc)

into_members :
    (acc r : Resources)
    → IsRequirement (acc ++ r)
    → resources_into acc (resource_members r) ≡ ok (acc ++ r)
unfolding resources_into resource_members natural_value
into_members acc [] h = rw append-nil refl
into_members acc ((k, n) ∷ r) h =
    let (l, f) = is_new acc k n r h in
    rw (labelled k l, put_new k n acc f)
      (rw append_assoc at (into_members (acc ++ (k, n) ∷ []) r (rw append_assoc h)))

-- A requirement is read back from the JSON that is written of it.
pub validate_resources-members :
    (r : Resources) → IsRequirement r → validate_resources (obj (resource_members r)) ≡ ok r
unfolding validate_resources require_mapping
validate_resources-members r h = into_members [] r h
