-- ===== src/Document/Joined.antt =====
-- models.py: a placement that `normalize_placement` returned, written again as a text.
use mathlib.Core.List.{append_assoc, append-nil}
use httk_workflow.Base.{
  ℕ, ◌≡◌, refl, Bool, true, false, not, ◌&&◌, ◌||◌, List, [], ◌∷◌, ◌++◌, any, all, arith, ◌==◌, ltb,
}
use httk_workflow.Errors.{ok}
use httk_workflow.Names.Text.{Text, text_eq, lacks}
use httk_workflow.Names.Path.{parts, is_absolute}
use httk_workflow.Document.Returned.{Returns, after, here, guard-ok, ◌>>=◌}
use httk_workflow.Document.Size.{encoded_length}
use httk_workflow.Document.Paths.{is_unsafe, no_parts, relative_parts, normalize_placement}
use httk_workflow.Document.Below.{is_trivial, partitioned}

-- `str(path)`, of a path that is not absolute and has a part
unfoldable pub path_text : List Text → Text
path_text [] = []
path_text (p ∷ []) = p
path_text (p ∷ (q ∷ ps)) = p ++ 47 ∷ path_text (q ∷ ps)

-- a part as `parts` makes it
unfoldable pub is_part : Text → Bool
is_part p = lacks 47 p && not (is_trivial p)

lacks-snoc :
    (p : Text) (c : ℕ) → lacks 47 p ≡ true → (c == 47) ≡ false → lacks 47 (p ++ c ∷ []) ≡ true
lacks-snoc [] c h n = ground arith
lacks-snoc (x ∷ p) c h n = ground (arith, lacks-snoc p c)

pub parts-is_part : (part text : Text) → lacks 47 part ≡ true → all is_part (parts part text) ≡ true
unfolding parts is_part is_trivial
parts-is_part part [] h = ground arith
parts-is_part part (c ∷ text) h =
    ground (arith, parts-is_part [] text, parts-is_part (part ++ c ∷ []) text, lacks-snoc part c)

pub parts-one : (part p : Text) → lacks 47 p ≡ true → parts part p ≡ partitioned (part ++ p) []
unfolding parts partitioned is_trivial
parts-one part [] h = rw append-nil refl
parts-one part (c ∷ p) h =
    ground (arith, parts-one (part ++ c ∷ []) p, append_assoc part (c ∷ []) p)

parts-slash :
    (part p rest : Text)
    → lacks 47 p ≡ true
    → parts part (p ++ 47 ∷ rest) ≡ partitioned (part ++ p) (parts [] rest)
unfolding parts partitioned is_trivial
parts-slash part [] rest h = rw append-nil refl
parts-slash part (c ∷ p) rest h =
    ground (arith, parts-slash (part ++ c ∷ []) p rest, append_assoc part (c ∷ []) p)

parts-path_text : (ps : List Text) → all is_part ps ≡ true → parts [] (path_text ps) ≡ ps
unfolding path_text is_part partitioned parts
parts-path_text [] h = refl
parts-path_text (p ∷ []) h = ground (arith, parts-one [] p)
parts-path_text (p ∷ (q ∷ ps)) h =
    ground (arith, parts-slash [] p (path_text (q ∷ ps)), parts-path_text (q ∷ ps))

is_absolute-path_text :
    (ps : List Text) → all is_part ps ≡ true → is_absolute (path_text ps) ≡ false
unfolding path_text is_part is_absolute is_trivial text_eq
is_absolute-path_text [] h = refl
is_absolute-path_text ([] ∷ []) h = cc
is_absolute-path_text ((c ∷ p) ∷ []) h = ground arith
is_absolute-path_text ([] ∷ (q ∷ ps)) h = cc
is_absolute-path_text ((c ∷ p) ∷ (q ∷ ps)) h = ground arith

abbrev pub is_long : Text → Bool
is_long part = ltb 255 (encoded_length part)

-- what the tests of `normalize_placement` have established
pub record Placed (ps : List Text) : Type 0 where
  pub are_parts : all is_part ps ≡ true
  pub some_part : no_parts ps ≡ false
  pub none_unsafe : any is_unsafe ps ≡ false
  pub none_long : any is_long ps ≡ false

relative-safe :
    (text : Text)
    → Returns
        (λ ps. (all is_part ps ≡ true) × (no_parts ps ≡ false) × (any is_unsafe ps ≡ false))
        (relative_parts text)
unfolding relative_parts
relative-safe text = after λ u a. after λ v b. here (
  parts-is_part [] text refl,
  (let h = guard-ok (not (is_absolute text || no_parts (parts [] text))) _ a in ground arith),
  (let h = guard-ok (not (any is_unsafe (parts [] text))) _ b in ground arith),
)

pub normalize-Placed : (text : Text) → Returns Placed (normalize_placement text)
unfolding normalize_placement
normalize-Placed text = after λ ps e. after λ u l.
    (let (a, n, s) = (relative-safe text).at e in
      let h = guard-ok (not (any is_long ps)) _ l in
      here (record { are_parts = a; some_part = n; none_unsafe = s; none_long = ground arith }))

pub normalize-path_text : (ps : List Text) → Placed ps → normalize_placement (path_text ps) ≡ ok ps
unfolding normalize_placement relative_parts ◌>>=◌
normalize-path_text ps k =
    rw
      (
        parts-path_text ps k.are_parts,
        is_absolute-path_text ps k.are_parts,
        k.some_part,
        k.none_unsafe,
        k.none_long,
      )
      refl
