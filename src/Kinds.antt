-- ===== src/Kinds.antt =====
-- src/httk/workflow/models.py: the kinds of state a marker can be in, and their groups.
use httk_workflow.Base.{ℕ, ◌==◌, Bool, true, false, String, List, [], ◌∷◌}

pub data StateKind : Type 0 where
  submitted ready claimed running committing cancelling relocating transferring : StateKind
  waiting paused succeeded failed cancelled : StateKind

-- the name of a kind in a path and in a frame
unfoldable pub kind_name : StateKind → String
kind_name submitted = "submitted"
kind_name ready = "ready"
kind_name claimed = "claimed"
kind_name running = "running"
kind_name committing = "committing"
kind_name cancelling = "cancelling"
kind_name relocating = "relocating"
kind_name transferring = "transferring"
kind_name waiting = "waiting"
kind_name paused = "paused"
kind_name succeeded = "succeeded"
kind_name failed = "failed"
kind_name cancelled = "cancelled"

abbrev pub state_kinds : List StateKind
state_kinds =
    submitted ∷ ready ∷ claimed ∷ running ∷ committing ∷ cancelling ∷ relocating ∷ transferring
    ∷ waiting ∷ paused ∷ succeeded ∷ failed ∷ cancelled ∷ []

-- `kind in CORE_STATE_KINDS`
abbrev pub is_core : StateKind → Bool
is_core relocating = false
is_core transferring = false
is_core _ = true

-- TERMINAL_KINDS
abbrev pub is_terminal : StateKind → Bool
is_terminal succeeded = true
is_terminal failed = true
is_terminal cancelled = true
is_terminal _ = false

abbrev pub is_succeeded : StateKind → Bool
is_succeeded succeeded = true
is_succeeded _ = false

-- `kind in {"failed", "cancelled"}`
abbrev pub is_lost : StateKind → Bool
is_lost failed = true
is_lost cancelled = true
is_lost _ = false

-- the place of a kind in STATE_KINDS, by which kinds are told apart
abbrev pub place_of : StateKind → ℕ
place_of submitted = 0
place_of ready = 1
place_of claimed = 2
place_of running = 3
place_of committing = 4
place_of cancelling = 5
place_of relocating = 6
place_of transferring = 7
place_of waiting = 8
place_of paused = 9
place_of succeeded = 10
place_of failed = 11
place_of cancelled = 12

-- `kind == other`
abbrev pub same_kind : StateKind → StateKind → Bool
same_kind a b = place_of a == place_of b
