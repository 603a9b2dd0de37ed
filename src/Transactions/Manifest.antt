-- ===== src/Transactions/Manifest.antt =====
-- transactions.py: _relative_path, and what replay_transaction checks of a manifest before it
-- changes anything.
use httk_workflow.Base.{
  ℤ, pos, Bool, true, not, ◌&&◌, ◌||◌, ◌==◌, List, [], ◌∷◌, ◌++◌, any, if◌then◌else◌,
}
use httk_workflow.Errors.{Result, ok, ◌>>=◌, ◌>>◌, guard, require, format_error, transaction_error}
use httk_workflow.Json.{Json, Members, get, as_mapping, as_array, is_str, is_int, require_string}
use httk_workflow.Json.Numbers.{codes}
use httk_workflow.Names.Text.{Text, text_eq}
use httk_workflow.Names.JobKey.{validate_label}
use httk_workflow.Names.Path.{parts, is_absolute, is_special}
use httk_workflow.Transactions.{Place, within}

normalized : Text → Result Place
unfolding is_absolute is_special parts
normalized value = do
  guard (not (is_absolute value || any is_special (parts [] value))) format_error
  guard (not (any (any (λ c. c == 0)) (parts [] value))) format_error
  ok (parts [] value)

unfoldable pub relative_path : Json → Result Place
unfolding normalized
relative_path v = do value ← require_string v; normalized (codes value)

-- `validate_label(raw.get("id"), …)`
unfoldable pub label_of : Json → Result Text
label_of v = do value ← require_string v; validate_label (codes value)

-- what the first loop has collected: the identifiers and the paths of the operations
abbrev pub Collected : Type 0
Collected = List Text × List Place

targeted : Members → List Place → Result (List Place)
targeted raw paths =
    if is_str "make-dir" (get "op" raw)
    then ok paths
    else (do path ← relative_path (get "path" raw); ok (paths ++ path ∷ []))

collect_one : Members → Collected → Result Collected
unfolding targeted
collect_one raw (ids, paths) = do
  id ← label_of (get "id" raw)
  guard (not (any (text_eq id) ids)) format_error
  paths' ← targeted raw paths
  ok (id ∷ ids, paths')

unfoldable pub collect : List Json → Collected → Result Collected
unfolding collect_one
collect [] seen = ok seen
collect (v ∷ vs) seen = do
  raw ← require (as_mapping v) format_error
  seen' ← collect_one raw seen
  collect vs seen'

-- `left == right or left in right.parents or right in left.parents`
unfoldable pub overlap : Place → Place → Bool
unfolding within
overlap left right = within left right || within right left

unfoldable pub disjoint : List Place → Bool
disjoint [] = true
disjoint (left ∷ rights) = not (any (overlap left) rights) && disjoint rights

-- the manifest's operations, once they are accepted
unfoldable pub accepted : ℤ → Members → Result (List Json)
unfolding collect disjoint
accepted expected_generation manifest = do
  guard
      (is_str "httk-workflow-transaction" (get "format" manifest)
        && is_int (pos 2) (get "format_version" manifest))
      format_error
  guard (is_int expected_generation (get "expected_data_generation" manifest)) transaction_error
  operations ← require (as_array (get "operations" manifest)) format_error
  (ids, paths) ← collect operations ([], [])
  guard (disjoint paths) format_error
  ok operations
