-- ===== src/Document/Returned.antt =====
-- The sequencing of models.py, kept shut for the rule on what a block returns, when it does not raise.
use httk_workflow.Base.{◌≡◌, refl, Bool, true, false, Option, none, some}
use httk_workflow.Errors.{Result, ok, err, Raised, guard, require}

module _ {ℓ κ} {A : Type ℓ} {B : Type κ} where
  infixl 5 ◌>>=◌
  unfoldable pub ◌>>=◌ : Result A → (A → Result B) → Result B
  (err x) >>= next = err x
  (ok value) >>= next = next value

infixl 5 ◌>>◌
abbrev pub ◌>>◌ {ℓ} : {B : Type ℓ} → Result (Unit {0}) → Result B → Result B
first >> rest = first >>= λ done. rest

-- `P` holds of the result, if there is one.
pub record Returns {ℓ κ} {A : Type ℓ} (P : A → Type κ) (r : Result A) : Type (ℓ ⊔ κ) where
  pub at : {a : A} → r ≡ ok a → P a

pub here {ℓ κ} : {A : Type ℓ} {P : A → Type κ} {a : A} → P a → Returns P (ok a)
here {a} h = record { at = λ {a = b} e. (let q : b ≡ a = cc in rw q h) }

module _ {ℓ κ μ} {A : Type ℓ} {B : Type κ} {P : B → Type μ} where
  pub after :
      {first : Result A} {next : A → Result B}
      → ((a : A) → first ≡ ok a → Returns P (next a))
      → Returns P (first >>= next)
  unfolding ◌>>=◌
  after {first = err _} h = record { at = λ e. cc }
  after {first = ok a} h = h a refl

pub guard-ok : (b : Bool) (x : Raised) {u : Unit {0}} → guard b x ≡ ok u → b ≡ true
guard-ok true x e = refl
guard-ok false x e = cc

pub require-ok {ℓ} :
    {A : Type ℓ} (o : Option A) (x : Raised) {a : A} → require o x ≡ ok a → o ≡ some a
require-ok none x e = cc
require-ok (some a) x e = cc
