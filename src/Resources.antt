-- ===== src/Resources.antt =====
-- models.py: `validate_resources` and `_validate_step_resources`. A requirement or a capacity is a
-- dictionary from names to natural numbers.
pub mod Valid
use httk_workflow.Base.{
  ℕ, String, pos, Bool, Option, none, some, List, [], ◌∷◌, ◌≡◌, refl, str_eq, eq_iff, if◌then◌else◌,
  is_some, arith,
}
use httk_workflow.Errors.{Result, ok, err, ◌>>=◌, format_error}
use httk_workflow.Json.{Json, int, Members, end, field, require_mapping, require_string, str}
use httk_workflow.Json.Numbers.{codes}
use httk_workflow.Names.JobKey.{is_label}

abbrev pub Resources : Type 0
Resources = List (String × ℕ)

module _ {ℓ} {V : Type ℓ} where
  -- `mapping.get(name)`
  unfoldable pub find : String → List (String × V) → Option V
  find k [] = none
  find k ((j, v) ∷ m) = if str_eq j k then some v else find k m

  -- `mapping[name] = value`
  unfoldable pub put : String → V → List (String × V) → List (String × V)
  put k v [] = (k, v) ∷ []
  put k v ((j, w) ∷ m) = if str_eq j k then (j, v) ∷ m else (j, w) ∷ put k v m

  -- `mapping.pop(name, None)`
  unfoldable pub drop_key : String → List (String × V) → List (String × V)
  drop_key k [] = []
  drop_key k ((j, w) ∷ m) = let rest = drop_key k m in if str_eq j k then rest else (j, w) ∷ rest

  pub find-put :
      (k j : String) (v : V) (m : List (String × V))
      → find j (put k v m) ≡ (if str_eq k j then some v else find j m)
  unfolding find put
  find-put k j v [] = refl
  find-put k j v ((i, w) ∷ m) = ground (arith, eq_iff k j, eq_iff i k, eq_iff i j, find-put k j v m)

-- `name in mapping`
abbrev pub has {ℓ} : {V : Type ℓ} → String → List (String × V) → Bool
has k m = is_some (find k m)

-- models.py: `validate_label` of a JSON value
unfoldable pub label_value : Json → Result String
label_value value = do
  text ← require_string value
  if is_label (codes text) then ok text else err format_error

unfoldable pub natural_value : Json → Result ℕ
natural_value (int (pos n)) = ok n
natural_value _ = err format_error

-- a dictionary of resources as a JSON object
unfoldable pub resource_members : Resources → Members
resource_members [] = end
resource_members ((name, n) ∷ rest) = field name (int (pos n)) (resource_members rest)

resources_into : Resources → Members → Result Resources
resources_into acc end = ok acc
resources_into acc (field key raw rest) = do
  label ← label_value (str key)
  n ← natural_value raw
  resources_into (put label n acc) rest

unfoldable pub validate_resources : Json → Result Resources
unfolding resources_into
validate_resources value = do mapping ← require_mapping value; resources_into [] mapping
