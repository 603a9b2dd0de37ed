-- ===== src/Document/FileNames.antt =====
-- models.py: the names of the declarations of a job document, each of which also names a file below
-- `.httk-job/declarations`.
use httk_workflow.Base.{
  ◌≡◌, refl, sym, String, true, false, [], ◌∷◌, all, arith, str_eq, eq_iff, inl, inr, Bool-cases,
  ◌==◌, some, ℕ,
}
use httk_workflow.Errors.{ok}
use httk_workflow.Json.{
  Json, str, obj, Members, end, field, get, lookup, insert, is_null, lookup-insert,
}
use httk_workflow.Json.Numbers.{codes}
use httk_workflow.Names.Text.{Text, text_eq, lacks}
use httk_workflow.Names.Path.{parts, is_special}
use httk_workflow.Document.Returned.{Returns, after, here, guard-ok}
use httk_workflow.Document.Shape.{
  is_word, is_word_start, is_upper, is_declaration_name, validate_declaration_name, is_name_char,
  declaration_pattern,
}
use httk_workflow.Document.Below.{is_trivial, partitioned}
use httk_workflow.Document.Joined.{parts-one}
use httk_workflow.Document.Declared.{validate_declarations, declarations_into, within_limit}
use httk_workflow.Document.Definition.{Document, unless_null, from_mapping}
use httk_workflow.Document.Read.{from_mapping-Read}

-- one part of a path, and neither `.` nor `..`
abbrev pub IsFileName : Text → Type 0
IsFileName name = (parts [] name ≡ name ∷ []) × (is_special name ≡ false)

abbrev pub AllFileNames : Members → Type 0
AllFileNames m = (key : String) (w : Json) → lookup key m ≡ some w → IsFileName (codes key)

name_char-lacks : (cs : Text) → all is_name_char cs ≡ true → lacks 47 cs ≡ true
unfolding is_name_char is_word is_word_start
name_char-lacks [] h = refl
name_char-lacks (c ∷ cs) h = ground (arith, name_char-lacks cs)

word_plain : (c : ℕ) → is_word c ≡ true → ((c == 46) ≡ false) × ((c == 47) ≡ false)
unfolding is_word is_word_start is_upper
word_plain c h = ground arith

name_parts :
    (c : ℕ) (cs : Text)
    → is_declaration_name (c ∷ cs) ≡ true
    → (is_word c ≡ true) × (all is_name_char cs ≡ true)
unfolding is_declaration_name declaration_pattern
name_parts c cs h = ground arith

word-IsFileName :
    (c : ℕ) (cs : Text) → (c == 46) ≡ false → lacks 47 (c ∷ cs) ≡ true → IsFileName (c ∷ cs)
unfolding is_special is_trivial partitioned text_eq
word-IsFileName c cs dot h = (rw (parts-one [] (c ∷ cs) h, dot) refl, rw dot refl)

name-IsFileName : (name : Text) → is_declaration_name name ≡ true → IsFileName name
unfolding is_declaration_name declaration_pattern
name-IsFileName [] h = cc
name-IsFileName (c ∷ cs) h =
    let (w, n) = name_parts c cs h in
    let (dot, slash) = word_plain c w in word-IsFileName c cs dot (rw slash (name_char-lacks cs n))

declaration_name-valid :
    (raw : Json) → Returns (λ (s : String). IsFileName (codes s)) (validate_declaration_name raw)
unfolding validate_declaration_name
declaration_name-valid raw = after λ s e.
    after λ u g. here (name-IsFileName (codes s) (guard-ok (is_declaration_name (codes s)) _ g))

insert-AllFileNames :
    (key : String) (w : Json) (m : Members)
    → IsFileName (codes key)
    → AllFileNames m
    → AllFileNames (insert key w m)
insert-AllFileNames key w m h all j v e = elim (Bool-cases (str_eq key j)) [
  | inl q ↦ (let k : key ≡ j = ground (arith, eq_iff key j) in rw (sym k) h)
  | inr q ↦ all j v (rw (lookup-insert key j w m, q) at e)
]

declarations-AllFileNames :
    (m raw : Members) → AllFileNames m → Returns AllFileNames (declarations_into m raw)
unfolding declarations_into
declarations-AllFileNames m end all = here all
declarations-AllFileNames m (field key document rest) all = after λ s e. after λ d _.
    declarations-AllFileNames (insert s (obj d) m) rest
      (insert-AllFileNames s (obj d) m ((declaration_name-valid (str key)).at e) all)

within_limit-keeps : (P : Members → Type 0) (m : Members) → P m → Returns P (within_limit m)
unfolding within_limit
within_limit-keeps P m h = after λ u _. here h

validate_declarations-AllFileNames : (raw : Json) → Returns AllFileNames (validate_declarations raw)
unfolding validate_declarations lookup
validate_declarations-AllFileNames raw = after λ m _. after λ r er.
    within_limit-keeps AllFileNames r ((declarations-AllFileNames end m (λ k w h. cc)).at er)

optional-AllFileNames :
    (raw : Json) → Returns AllFileNames (unless_null end validate_declarations raw)
unfolding unless_null lookup
optional-AllFileNames raw = elim (Bool-cases (is_null raw)) [
  | inl q ↦ rw q (here (λ k w h. cc))
  | inr q ↦ rw q (validate_declarations-AllFileNames raw)
]

-- Every declaration of a job document that is accepted is named by one part of a path, which is
-- neither `.` nor `..`: its file stands directly in the directory of the declarations.
pub from_mapping-AllFileNames :
    (value : Members) (d : Document) → from_mapping value ≡ ok d → AllFileNames d.declarations
from_mapping-AllFileNames value d e =
    let r = (from_mapping-Read value).at e in
    (optional-AllFileNames (get "declarations" value)).at r.declarations_read
