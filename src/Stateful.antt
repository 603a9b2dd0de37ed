-- ===== src/Stateful.antt =====
-- Code that changes a state and may raise: what was changed before an exception stays changed.
use httk_workflow.Base.{Bool, if◌then◌else◌}
use httk_workflow.Errors.{Raised, Result, ok, err}

abbrev pub Stateful {ℓ κ} : Type ℓ → Type κ → Type (ℓ ⊔ κ)
Stateful S A = S → Result A × S

module _ {ℓ κ μ} {S : Type ℓ} {A : Type κ} {B : Type μ} where
  abbrev pub and_then : Result A × S → (A → Stateful S B) → Result B × S
  and_then (ok a, s) f = f a s
  and_then (err e, s) f = (err e, s)

  infixl 5 ◌>>=◌
  unfoldable pub ◌>>=◌ : Stateful S A → (A → Stateful S B) → Stateful S B
  ◌>>=◌ m f s = and_then (m s) f

infixl 5 ◌>>◌
abbrev pub ◌>>◌ {ℓ κ} :
    {S : Type ℓ} {B : Type κ} → Stateful S (Unit {0}) → Stateful S B → Stateful S B
m >> k = m >>= λ _. k

-- code that only decides
unfoldable pub of {ℓ κ} : {S : Type ℓ} {A : Type κ} → Result A → Stateful S A
of r s = (r, s)

-- `if not b: raise e`
unfoldable pub check {ℓ} : {S : Type ℓ} → Bool → Raised → Stateful S (Unit {0})
check b e s = if b then (ok tt, s) else (err e, s)
