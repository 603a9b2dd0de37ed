-- ===== src/Marker.antt =====
-- models.py: `Marker`, the state marker that locates a job. Its path is the state directory of its
-- kind and placement, and its basename.

use httk_workflow.Base.{
  ℕ, ℤ, eq_ℤ, String, Bool, true, false, ◌&&◌, ◌||◌, [], ◌∷◌, ◌++◌, str_eq, ◌==◌, ltb,
}
use httk_workflow.Json.Numbers.{codes}
use httk_workflow.Kinds.{StateKind, kind_name, same_kind}
use httk_workflow.Names.Text.{Text}
use httk_workflow.Names.MarkerName.{joined, natural}

pub record Marker : Type 0 where
  pub kind : StateKind
  pub placement : String
  pub job_key : String
  pub priority : ℤ
  pub generation : ℕ
  pub record_ref : String

-- `path.as_posix()` below the state root
unfoldable pub marker_path : Marker → Text
unfolding joined natural
marker_path m =
    codes (kind_name m.kind)
    ++ (47
        ∷ (codes m.placement
            ++ (47
                ∷ joined (codes m.job_key) (natural m.priority) m.generation (codes m.record_ref))))

-- Python's `<` of two texts
unfoldable pub text_lt : Text → Text → Bool
text_lt [] [] = false
text_lt [] (b ∷ bs) = true
text_lt (a ∷ as') [] = false
text_lt (a ∷ as') (b ∷ bs) = ltb a b || (a == b && text_lt as' bs)

-- the same file
unfoldable pub same_marker : Marker → Marker → Bool
same_marker a b =
    same_kind a.kind b.kind
    && (str_eq a.placement b.placement
        && (str_eq a.job_key b.job_key
            && (eq_ℤ a.priority b.priority
                && (a.generation == b.generation && str_eq a.record_ref b.record_ref))))
