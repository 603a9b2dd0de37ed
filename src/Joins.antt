-- ===== src/Joins.antt =====
-- src/httk/workflow/_manager_joins.py: when the join of a waiting job is satisfied, and when it
-- can no longer be.
pub mod Future
pub mod Outcome
use httk_workflow.Base.{
  ℕ, ◌+◌, ℤ, pos, leb_ℤ, ltb_ℤ, String, Bool, true, false, not, ◌&&◌, List, [], ◌∷◌, all, any,
  count_if, str_eq, if◌then◌else◌, Option, none, some,
}
use httk_workflow.Errors.{Result, ok, err, ◌>>=◌, format_error}
use httk_workflow.Json.{Json, Members, as_array, get, has_key, int}
use httk_workflow.Json.Numbers.{py_int}
use httk_workflow.Kinds.{StateKind, is_terminal, is_succeeded, is_lost}

-- `join.children` must be a nonempty array
unfoldable pub children : Members → Result (List Json)
unfolding get
children join = elim (as_array (get "children" join)) [
  | none ↦ err format_error
  | some [] ↦ err format_error
  | some (x ∷ xs) ↦ ok (x ∷ xs)
]

-- `int(join.get("count", 0))`
unfoldable pub count_of : Members → Result ℤ
unfolding get has_key py_int
count_of join = if has_key "count" join then py_int (get "count" join) else ok (pos 0)

unfoldable pub satisfied : String → Members → List StateKind → Result Bool
satisfied condition join kinds =
    if str_eq condition "all_succeeded"
    then ok (all is_succeeded kinds)
    else if str_eq condition "all_terminal"
    then ok (all is_terminal kinds)
    else if str_eq condition "any_succeeded"
    then ok (any is_succeeded kinds)
    else if str_eq condition "any_terminal"
    then ok (any is_terminal kinds)
    else if str_eq condition "at_least"
    then (do count ← count_of join; ok (leb_ℤ count (pos (count_if is_succeeded kinds))))
    else err format_error

abbrev pub is_pending : StateKind → Bool
is_pending kind = not (is_terminal kind)

unfoldable pub impossible : String → Members → List StateKind → Result Bool
impossible condition join kinds =
    if str_eq condition "all_succeeded"
    then ok (any is_lost kinds)
    else if str_eq condition "all_terminal"
    then ok false
    else if str_eq condition "any_succeeded"
    then ok (all is_terminal kinds && not (any is_succeeded kinds))
    else if str_eq condition "any_terminal"
    then ok false
    else if str_eq condition "at_least"
    then (do
      count ← count_of join
      ok (ltb_ℤ (pos (count_if is_succeeded kinds + count_if is_pending kinds)) count))
    else err format_error

pub data Verdict : Type 0 where
  join_satisfied join_impossible join_blocked : Verdict

unfoldable pub classify : String → Members → List StateKind → Result Verdict
unfolding satisfied impossible
classify condition join kinds = do
  yet ← satisfied condition join kinds
  if yet then ok join_satisfied else do
    never ← impossible condition join kinds
    ok (if never then join_impossible else join_blocked)
