-- ===== src/Document/Below.antt =====
-- models.py: the paths of an accepted job document, resolved below a directory.
use mathlib.Core.List.{append_assoc, append-nil}
use httk_workflow.Base.{
  ◌≡◌, refl, Bool, true, false, not, ◌||◌, some, List, [], ◌∷◌, ◌++◌, any, all, arith,
  if◌then◌else◌,
}
use httk_workflow.Names.Text.{Text, text_eq, expect}
use httk_workflow.Names.Path.{parts, is_special}
use httk_workflow.Document.Paths.{is_up, is_unsafe, no_parts, partition}

drop_last : List Text → List Text
drop_last [] = []
drop_last (p ∷ []) = []
drop_last (p ∷ (q ∷ ps)) = p ∷ drop_last (q ∷ ps)

-- the empty part and `.`
unfoldable pub is_trivial : Text → Bool
is_trivial p = text_eq p [] || text_eq p (46 ∷ [])

enter : List Text → Text → List Text
unfolding drop_last
enter at p = if is_up p then drop_last at else if is_trivial p then at else at ++ p ∷ []

-- where a path leads from a directory, as the file system resolves it: `..` leads up
unfoldable pub resolve : List Text → List Text → List Text
unfolding enter
resolve at [] = at
resolve at (p ∷ ps) = resolve (enter at p) ps

-- the path leads to a place strictly below the directory
abbrev pub Below : List Text → List Text → Type 0
Below root [] = ⊥
Below root (p ∷ ps) = resolve root (p ∷ ps) ≡ root ++ p ∷ ps

unfoldable pub plain : Text → Bool
plain p = not (is_up p || is_trivial p)

resolve-plain : (root ps : List Text) → all plain ps ≡ true → resolve root ps ≡ root ++ ps
unfolding resolve enter plain
resolve-plain root [] h = rw append-nil refl
resolve-plain root (p ∷ ps) h =
    ground (arith, resolve-plain (root ++ p ∷ []) ps, append_assoc root (p ∷ []) ps)

pub parts-plain :
    (part text : Text) → any is_up (parts part text) ≡ false → all plain (parts part text) ≡ true
unfolding parts plain is_trivial
parts-plain part [] h = ground arith
parts-plain part (c ∷ text) h =
    ground (arith, parts-plain [] text, parts-plain (part ++ c ∷ []) text)

pub expect_sound : (xs cs rest : Text) → expect xs cs ≡ some rest → cs ≡ xs ++ rest
unfolding expect
expect_sound [] cs rest e = cc
expect_sound (x ∷ xs) [] rest e = cc
expect_sound (x ∷ xs) (c ∷ cs) rest e = ground (arith, expect_sound xs cs rest)

unfoldable pub partitioned : Text → List Text → List Text
unfolding is_trivial
partitioned part rest = if is_trivial part then rest else part ∷ rest

pub parts-partition :
    (front part text before later : Text)
    → partition part text ≡ some (before, later)
    → parts (front ++ part) text ≡ partitioned (front ++ before) (parts [] later)
unfolding parts partition partitioned is_trivial
parts-partition front part [] before later e = cc
parts-partition front part (c ∷ text) before later e = ground (
  arith,
  parts-partition front (part ++ c ∷ []) text before later,
  append_assoc front part (c ∷ []),
)

pub safe-up : (ps : List Text) → any is_unsafe ps ≡ false → any is_up ps ≡ false
unfolding is_unsafe is_special is_up
safe-up [] h = refl
safe-up (p ∷ ps) h = ground (arith, safe-up ps)

pub Below-plain : (root ps : List Text) → no_parts ps ≡ false → all plain ps ≡ true → Below root ps
unfolding no_parts
Below-plain root [] n h = cc
Below-plain root (p ∷ ps) n h = resolve-plain root (p ∷ ps) h
