-- ===== src/Transactions/Operation.antt =====
-- transactions.py: the reading of one operation, in the second loop of replay_transaction.
use httk_workflow.Base.{Bool, Option, none, some, [], ◌∷◌, ◌++◌, if◌then◌else◌}
use httk_workflow.Errors.{Result, ok, err, ◌>>=◌, format_error}
use httk_workflow.Json.{Json, Members, get, as_text, is_str, truthy}
use httk_workflow.Json.Numbers.{codes}
use httk_workflow.Names.Text.{Text}
use httk_workflow.Transactions.{Place}
use httk_workflow.Transactions.Manifest.{label_of, relative_path}

-- An operation with its paths as places of the two trees.
pub data Operation : Type 0 where
  make_dir : Place → Operation
  put_file put_tree : Place → Place → Option Text → Operation
  remove_path : Place → Place → Bool → Operation
  replace_tree : Place → Place → Place → Option Text → Operation

-- the roots of the two trees
abbrev pub data_dir : Place
data_dir = codes "data" ∷ []

abbrev pub transaction_dir : Place
transaction_dir = codes "transaction" ∷ []

in_data : Place → Place
in_data path = data_dir ++ path

in_transaction : Place → Place
in_transaction path = transaction_dir ++ path

-- `transaction_dir / "trash" / operation_id / name`
trash : Text → Text → Place
trash id name = transaction_dir ++ (codes "trash" ∷ id ∷ name ∷ [])

-- `str(raw.get("sha256", ""))`. A value that is not a text is taken to be no digest.
expected_of : Json → Option Text
expected_of v = elim (as_text v) [ none ↦ none | some digest ↦ some (codes digest) ]

typed : Members → Text → Place → Result Operation
unfolding in_data in_transaction trash expected_of
typed raw id path =
    let digest = expected_of (get "sha256" raw) in
    let with_source : (Place → Operation) → Result Operation =
      λ f. (do s ← relative_path (get "source" raw); ok (f (in_transaction s))) in
    if is_str "make-dir" (get "op" raw)
    then ok (make_dir (in_data path))
    else if is_str "put-file" (get "op" raw)
    then with_source (λ s. put_file (in_data path) s digest)
    else if is_str "put-tree" (get "op" raw)
    then with_source (λ s. put_tree (in_data path) s digest)
    else if is_str "remove" (get "op" raw)
    then ok
        (remove_path (in_data path) (trash id (codes "removed")) (truthy (get "missing_ok" raw)))
    else if is_str "replace-tree" (get "op" raw)
    then with_source (λ s. replace_tree (in_data path) s (trash id (codes "old")) digest)
    else err format_error

-- What one object of the manifest asks for. All of it is read before the operation changes anything.
unfoldable pub operation_of : Members → Result Operation
unfolding typed
operation_of raw = do
  id ← label_of (get "id" raw)
  path ← relative_path (get "path" raw)
  typed raw id path
