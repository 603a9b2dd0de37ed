-- ===== src/Document/Rooted.antt =====
-- models.py: `runner.path` and `workdir.path` of an accepted job document stay below the directory
-- that they are resolved in.
use httk_workflow.Base.{
  inr, inl, Option-cases, ◌≡◌, refl, sym, String, Bool, true, false, not, ◌||◌, Option, none, some,
  List, [], ◌∷◌, ◌++◌, any, all, arith, str_eq,
}
use httk_workflow.Errors.{ok}
use httk_workflow.Json.{Json, str, Members, get}
use httk_workflow.Json.Numbers.{codes}
use httk_workflow.Names.Text.{Text, text_eq, expect}
use httk_workflow.Names.Path.{parts, is_absolute}
use httk_workflow.Document.Returned.{Returns, after, here, guard-ok, require-ok}
use httk_workflow.Document.Shape.{get_or}
use httk_workflow.Document.Paths.{
  is_up, is_unsafe, no_parts, partition, relative_parts, package_parts, parse_package_runner,
  runner_parts, validate_runner_path, workdir_parts,
}
use httk_workflow.Document.Below.{
  Below, Below-plain, plain, parts-plain, safe-up, parts-partition, partitioned, expect_sound,
  is_trivial,
}
use httk_workflow.Document.Definition.{
  Document, Runner, runner_members, workdir_value, workdir_members, from_mapping,
}
use httk_workflow.Document.Read.{from_mapping-Read}

-- the parts of a path that the tests accept
record Kept (text : Text) (ps : List Text) : Type 0 where
  pub are_parts : ps ≡ parts [] text
  pub some_part : no_parts ps ≡ false
  pub no_up : any is_up ps ≡ false

Kept-plain : (text : Text) (ps : List Text) → Kept text ps → all plain ps ≡ true
Kept-plain text ps k = rw k.are_parts (parts-plain [] text (rw (sym k.are_parts) k.no_up))

Kept-Below : (text : Text) (ps root : List Text) → Kept text ps → Below root ps
Kept-Below text ps root k = Below-plain root ps k.some_part (Kept-plain text ps k)

relative-Kept : (text : Text) → Returns (Kept text) (relative_parts text)
unfolding relative_parts
relative-Kept text = after λ u a. after λ v b. here (record {
  are_parts = refl;
  some_part =
      (let h = guard-ok (not (is_absolute text || no_parts (parts [] text))) _ a in ground arith);
  no_up =
      safe-up (parts [] text)
        (let h = guard-ok (not (any is_unsafe (parts [] text))) _ b in ground arith);
})

workdir-Kept : (text : Text) → Returns (Kept text) (workdir_parts text)
unfolding workdir_parts
workdir-Kept text = after λ u a.
    (let h =
        guard-ok (not (is_absolute text || (any is_up (parts [] text) || no_parts (parts [] text))))
          _ a in
      here (record { are_parts = refl; some_part = ground arith; no_up = ground arith }))

module _ (m later : Text) (ps : List Text) (k : Kept later ps) (rest : Text) where
  package_path :
      partition [] rest ≡ some (m, later)
      → parts [] (codes "pkg:" ++ rest) ≡ (codes "pkg:" ++ m) ∷ parts [] later
  unfolding parts text_eq partitioned is_trivial
  package_path e = parts-partition (codes "pkg:") [] rest m later e

  package-Kept :
      partition [] rest ≡ some (m, later)
      → Kept (codes "pkg:" ++ rest) (parts [] (codes "pkg:" ++ rest))
  unfolding no_parts is_up text_eq
  package-Kept e = record {
    are_parts = refl;
    some_part = rw (package_path e) refl;
    no_up = rw (package_path e, sym k.are_parts) k.no_up;
  }

package_parts-Kept :
    (rest : Text)
    → Returns
        (λ (n : Text × List Text). Kept (codes "pkg:" ++ rest) (parts [] (codes "pkg:" ++ rest)))
        (package_parts rest)
unfolding package_parts
package_parts-Kept rest = after λ b e. after λ u _. after λ r er.
    here
      (package-Kept b.0 b.1 r ((relative-Kept b.1).at er) rest (require-ok (partition [] rest) _ e))

-- the reserved form, where it is used, is a path that is kept
abbrev Named : Text → Option (Text × List Text) → Type 0
Named text none = Unit {0}
Named text (some _) = Kept text (parts [] text)

parse-Named : (text : Text) → Returns (Named text) (parse_package_runner text)
unfolding parse_package_runner expect
parse-Named text = elim (Option-cases (expect (codes "pkg:") text)) [
  | inl e ↦ rw e (here tt)
  | inr (rest, e) ↦ rw e (
      after λ n en.
        here (rw (expect_sound (codes "pkg:") text rest e) ((package_parts-Kept rest).at en)))
]

runner_parts-Kept :
    (text : Text) (b : Bool) (n : Option (Text × List Text))
    → Named text n
    → Returns (Kept text) (runner_parts text b n)
unfolding runner_parts
runner_parts-Kept text b none h = relative-Kept text
runner_parts-Kept text b (some n) h = after λ u _. here h

-- the text of a path, and its parts
abbrev PathOf : List Text → Type 0
PathOf ps = (text : Text) × Kept text ps

runner_path-Kept : (raw : Json) (b : Bool) → Returns PathOf (validate_runner_path raw b)
unfolding validate_runner_path
runner_path-Kept raw b = after λ s _. after λ n en. record {
  at = λ e. (codes s, (runner_parts-Kept (codes s) b n ((parse-Named (codes s)).at en)).at e);
}

runner-Kept : (raw : Json) → Returns (λ (r : Runner). PathOf r.path) (runner_members raw)
unfolding runner_members
runner-Kept raw = after λ m _. after λ x _. after λ a _. after λ s _.
    after λ p ep. after λ d _. here ((runner_path-Kept (get "path" m) (str_eq s "installed")).at ep)

workdir_value-Kept : (raw : Json) → Returns PathOf (workdir_value raw)
unfolding workdir_value
workdir_value-Kept raw = after λ s _. record { at = λ e. (codes s, (workdir-Kept (codes s)).at e) }

workdir_members-Kept :
    (raw : Json) → Returns (λ (w : String × List Text). PathOf w.1) (workdir_members raw)
unfolding workdir_members
workdir_members-Kept raw = after λ m _.
    after λ o _. after λ p ep. here ((workdir_value-Kept (get_or "path" (str "run") m)).at ep)

-- In a job document that is accepted, the path of the runner and the one of the working directory
-- lead strictly below whatever directory they are resolved in, the reserved `pkg:` form included.
pub from_mapping-Below :
    (value : Members) (d : Document) (root : List Text)
    → from_mapping value ≡ ok d
    → Below root d.runner_path × Below root d.workdir_path
from_mapping-Below value d root e =
    let r = (from_mapping-Read value).at e in
    let (text, k) = (runner-Kept (get "runner" value)).at r.runner_read in
    let (other, w) = (workdir_members-Kept (get "workdir" value)).at r.workdir_read in
    (rw r.path_kept (Kept-Below text r.runner.path root k), Kept-Below other d.workdir_path root w)
