-- ===== src/Document/Paths.antt =====
-- models.py: `parse_package_runner`, `validate_runner_path` and `normalize_placement`, and the test
-- of `workdir.path` in `JobDefinition.from_mapping`.
use httk_workflow.Base.{
  Bool, true, false, not, ◌||◌, Option, none, some, List, [], ◌∷◌, ◌++◌, any, ltb, ◌==◌,
  if◌then◌else◌,
}
use httk_workflow.Errors.{Result, ok, guard, require, format_error}
use httk_workflow.Document.Returned.{◌>>=◌, ◌>>◌}
use httk_workflow.Json.{Json, require_string}
use httk_workflow.Json.Numbers.{codes}
use httk_workflow.Names.Text.{Text, text_eq, expect}
use httk_workflow.Names.Path.{parts, is_absolute, is_special}
use httk_workflow.Document.Shape.{is_dotted}
use httk_workflow.Document.Size.{encoded_length}

-- `part in _UNSAFE_PATH_COMPONENTS or "\x00" in part`
unfoldable pub is_unsafe : Text → Bool
unfolding is_special
is_unsafe part =
    is_special part || (text_eq part (codes ".httk-workspace") || any (λ c. c == 0) part)

unfoldable pub no_parts : List Text → Bool
no_parts [] = true
no_parts (_ ∷ _) = false

-- what `parse_package_runner`, `validate_runner_path` and `normalize_placement` require of a path
unfoldable pub relative_parts : Text → Result (List Text)
unfolding no_parts
relative_parts text = do
  guard (not (is_absolute text || no_parts (parts [] text))) format_error
  guard (not (any is_unsafe (parts [] text))) format_error
  ok (parts [] text)

-- `text.partition("/")`, where the slash occurs
unfoldable pub partition : Text → Text → Option (Text × Text)
partition before [] = none
partition before (c ∷ cs) =
    let rest = partition (before ++ c ∷ []) cs in if c == 47 then some (before, cs) else rest

unfoldable pub package_parts : Text → Result (Text × List Text)
unfolding partition
package_parts text = do
  (module_name, resource) ← require (partition [] text) format_error
  guard (is_dotted module_name) format_error
  relative ← relative_parts resource
  ok (module_name, relative)

unfoldable pub parse_package_runner : Text → Result (Option (Text × List Text))
unfolding package_parts
parse_package_runner value = elim (expect (codes "pkg:") value) [
  | none ↦ ok none
  | some rest ↦ (do named ← package_parts rest; ok (some named))
]

-- the parts of the path, once `runner.source` is known
unfoldable pub runner_parts : Text → Bool → Option (Text × List Text) → Result (List Text)
runner_parts text is_installed none = relative_parts text
runner_parts text is_installed (some named) = do guard is_installed format_error; ok (parts [] text)

unfoldable pub validate_runner_path : Json → Bool → Result (List Text)
unfolding runner_parts
validate_runner_path value is_installed = do
  s ← require_string value
  named ← parse_package_runner (codes s)
  runner_parts (codes s) is_installed named

-- `part == ".."`
unfoldable pub is_up : Text → Bool
is_up part = text_eq part (46 ∷ 46 ∷ [])

-- `workdir.path`
unfoldable pub workdir_parts : Text → Result (List Text)
unfolding no_parts
workdir_parts text = do
  guard (not (is_absolute text || (any is_up (parts [] text) || no_parts (parts [] text))))
      format_error
  ok (parts [] text)

unfoldable pub normalize_placement : Text → Result (List Text)
normalize_placement value = do
  placement ← relative_parts value
  guard (not (any (λ part. ltb 255 (encoded_length part)) placement)) format_error
  ok placement
