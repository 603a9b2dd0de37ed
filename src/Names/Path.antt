-- ===== src/Names/Path.antt =====
-- The parts of a `PurePosixPath`, which transactions.py and models.py test one by one.
use httk_workflow.Base.{Bool, false, ◌||◌, ◌==◌, List, [], ◌∷◌, ◌++◌, if◌then◌else◌}
use httk_workflow.Names.Text.{Text, text_eq}

-- `PurePosixPath(value).parts` of a path that is not absolute: empty parts and `.` are dropped.
-- `part` is what has been read since the last slash.
unfoldable pub parts : Text → Text → List Text
unfolding text_eq
parts part [] = if text_eq part [] || text_eq part (46 ∷ []) then [] else part ∷ []
parts part (c ∷ value) =
    let rest = parts [] value in
    let longer = parts (part ++ c ∷ []) value in
    if c == 47
    then (if text_eq part [] || text_eq part (46 ∷ []) then rest else part ∷ rest)
    else longer

unfoldable pub is_absolute : Text → Bool
is_absolute [] = false
is_absolute (c ∷ value) = c == 47

-- one of "", "." and ".."
unfoldable pub is_special : Text → Bool
unfolding text_eq
is_special part = text_eq part [] || (text_eq part (46 ∷ []) || text_eq part (46 ∷ 46 ∷ []))
