-- ===== src/Errors.antt =====
-- src/httk/workflow/errors.py: the exceptions as values, and the monad of code that may raise.
-- Messages are not kept; the class of an exception decides every handler.
use httk_workflow.Base.{Bool, true, false, ◌≡◌, refl, Option, none, some, if◌then◌else◌}

-- `os_error`, `value_error` and `type_error` are Python's own.
pub data Raised : Type 0 where
  format_error unavailable_error corruption_error transition_lost_error : Raised
  unsupported_extension_error transaction_error sealed_error runner_resolution_error : Raised
  os_error value_error type_error : Raised

-- `except (WorkflowError, OSError)`. SealedError is another package's, and a RuntimeError.
unfoldable pub is_workflow_or_os : Raised → Bool
is_workflow_or_os value_error = false
is_workflow_or_os type_error = false
is_workflow_or_os sealed_error = false
is_workflow_or_os _ = true

-- `except ValueError`: FormatError derives from it.
unfoldable pub is_value_error : Raised → Bool
is_value_error value_error = true
is_value_error format_error = true
is_value_error _ = false

pub data Result {ℓ} (A : Type ℓ) : Type ℓ where
  ok : A → Result A
  err : Raised → Result A

-- `if value is None: raise x`
abbrev pub require {ℓ} : {A : Type ℓ} → Option A → Raised → Result A
require (some value) x = ok value
require none x = err x

-- `try: … except x: fallback`
abbrev pub or_fallback {ℓ} : {A : Type ℓ} → Result A → A → A
or_fallback (err x) fallback = fallback
or_fallback (ok value) fallback = value

-- `if not b: raise x`
abbrev pub guard : Bool → Raised → Result (Unit {0})
guard b x = require (if b then some tt else none) x

module _ {ℓ κ} {A : Type ℓ} {B : Type κ} where
  infixl 5 ◌>>=◌
  -- an exception skips the statements that follow it
  abbrev pub ◌>>=◌ : Result A → (A → Result B) → Result B
  (err x) >>= next = err x
  (ok value) >>= next = next value

  -- What a block returns comes from what its first statement returned.
  pub >>=-eq-ok :
      (first : Result A) (next : A → Result B) {b : B}
      → (first >>= next) ≡ ok b
      → (value : A) × (first ≡ ok value) × (next value ≡ ok b)
  >>=-eq-ok (err x) next e = cc
  >>=-eq-ok (ok value) next e = (value, refl, e)

infixl 5 ◌>>◌
abbrev pub ◌>>◌ {ℓ} : {B : Type ℓ} → Result (Unit {0}) → Result B → Result B
first >> rest = first >>= λ done. rest
