-- ===== src/Journal/Chain.antt =====
-- journal.py: iter_record_chain, the walk over the history of a job from its newest record. Every
-- reference is read from the same views; none says that the fuel ran out.
use httk_workflow.Base.{
  ℕ, zero, suc, Bool, ◌||◌, Option, none, some, List, [], ◌∷◌, any, if◌then◌else◌,
}
use httk_workflow.Errors.{Result, ok, err}
use httk_workflow.Json.{str, Members, get}
use httk_workflow.Json.Numbers.{codes}
use httk_workflow.Names.Text.{Text, text_eq}
use httk_workflow.Journal.{Codec, Segments}
use httk_workflow.Journal.Read.{read_record}

-- `current in visited`
unfoldable pub visited_in : Text → List Text → Bool
unfolding text_eq
visited_in r visited = any (text_eq r) visited

-- the reference that the walk goes on with, unless the frame ends it
unfoldable pub previous : Members → Option Text
unfolding get text_eq
previous m = elim (get "previous_record_ref" m) [
  | str s ↦ if text_eq (codes s) (codes "init") then none else some (codes s)
  | _ ↦ none
]

unfoldable pub first {ℓ} : {A : Type ℓ} → A → Option (List A) → Option (List A)
first a none = none
first a (some rest) = some (a ∷ rest)

abbrev pub Chain : Type 0
Chain = Option (List (Text × Option Members))

-- goes on with the reference that the frame names, or ends
unfoldable pub onward : Option Text → (Text → Chain) → Chain
onward none after = some []
onward (some r) after = after r

-- the body of the loop, for what reading the current record gave
unfoldable pub visit : Text → Result Members → (Text → Chain) → Chain
unfolding first
visit current (err e) after = some ((current, none) ∷ [])
visit current (ok m) after = first (current, some m) (onward (previous m) after)

-- `current == "init" or current in visited`
unfoldable pub stops : Text → List Text → Bool
unfolding text_eq
stops current visited = text_eq current (codes "init") || visited_in current visited

unfoldable pub chain : (Text → Result Members) → ℕ → List Text → Text → Chain
chain read zero visited current = none
chain read (suc fuel) visited current =
    let after = λ (r : Text). chain read fuel (current ∷ visited) r in
    if stops current visited then some [] else visit current (read current) after

unfoldable pub iter_record_chain : ℕ → Codec → List Segments → Text → Chain
unfolding chain
iter_record_chain fuel c views record_ref = chain (read_record c views) fuel [] record_ref
