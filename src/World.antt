-- ===== src/World.antt =====
-- The disk of one workspace, and the monad of the code that reads and writes it. What another
-- program or the machine decides is a `Host`: clocks, random identifiers, the reference of a
-- journal record, and whether a rename is performed.
use httk_workflow.Base.{ℕ, suc, String, Bool, Option, List, if◌then◌else◌, ◌≡◌, refl}
use httk_workflow.Errors.{Raised, Result, ok, err}
use httk_workflow.Json.{Members}
use httk_workflow.Marker.{Marker}
use httk_workflow.Job.{JobDefinition}

-- what one attempt at a rename does: the server may perform it and still report an error
pub data Attempt : Type 0 where
  performed refused : Attempt

-- Each answer is given for a tick, which no two questions share.
pub record Host : Type 0 where
  pub utc_now : ℕ → String
  pub uuid4 : ℕ → String
  pub record_ref : ℕ → String
  pub append_fault : ℕ → Option Raised
  pub attempts : ℕ → List Attempt  -- one for each of `visibility_attempts`

pub record World : Type 0 where
  pub workspace_id : String
  pub markers : List Marker  -- the files below the state directory
  pub journal : List (String × Result Members)  -- a record, or what keeps it from being read
  pub payloads : List (String × Result JobDefinition)  -- what `job.json` of a payload parses to
  pub sealed : Bool  -- the workspace or its project
  pub sealed_jobs : List String
  pub tick : ℕ

abbrev pub Step {ℓ} : Type ℓ → Type ℓ
Step A = World → Result A × World

abbrev pub continue {ℓ κ} :
    {A : Type ℓ} {B : Type κ} → (A → Step B) → Result A × World → Result B × World
continue f (ok a, w) = f a w
continue f (err e, w) = (err e, w)

infixl 5 ◌>>=◌ ◌>>◌
abbrev pub ◌>>=◌ {ℓ κ} : {A : Type ℓ} {B : Type κ} → Step A → (A → Step B) → Step B
◌>>=◌ m f w = continue f (m w)

abbrev pub ◌>>◌ {ℓ} : {B : Type ℓ} → Step (Unit {0}) → Step B → Step B
m >> k = m >>= λ _. k

abbrev pub pure {ℓ} : {A : Type ℓ} → A → Step A
pure a w = (ok a, w)

abbrev pub of {ℓ} : {A : Type ℓ} → Result A → Step A
of r w = (r, w)

abbrev pub raise {ℓ} : {A : Type ℓ} → Raised → Step A
raise e w = (err e, w)

abbrev pub check : Bool → Raised → Step (Unit {0})
check b e = if b then pure tt else raise e

-- `try`: the exception becomes a value, and what was written stays
abbrev pub attempt {ℓ} : {A : Type ℓ} → Step A → Step (Result A)
attempt m w = let (r, w') = m w in (ok r, w')

abbrev pub next_tick : Step ℕ
next_tick w = (ok w.tick, record w { tick = suc w.tick })

pub >>=-eq-done {ℓ κ} :
    {A : Type ℓ} {B : Type κ} (m : Step A) (f : A → Step B) (w w' : World) {b : B}
    → (m >>= f) w ≡ (ok b, w')
    → (a : A) × (v : World) × (m w ≡ (ok a, v)) × (f a v ≡ (ok b, w'))
>>=-eq-done {A = A} {B = B} m f w w' {b} h = found (m w) refl h
  where
    found :
        (r : Result A × World)
        → m w ≡ r
        → continue f r ≡ (ok b, w')
        → (a : A) × (v : World) × (m w ≡ (ok a, v)) × (f a v ≡ (ok b, w'))
    found (ok a, v) e g = (a, v, e, g)
    found (err x, v) e g = cc

-- A step keeps a predicate of the disk, whatever it returns.
abbrev pub Keeps {ℓ} : {A : Type ℓ} → (World → Type 0) → Step A → Type 0
Keeps P m = (w : World) → P w → P (m w).1

pub Keeps->>= {ℓ κ} :
    {A : Type ℓ} {B : Type κ} (P : World → Type 0) (m : Step A) (f : A → Step B)
    → Keeps P m
    → ((a : A) → Keeps P (f a))
    → Keeps P (m >>= f)
Keeps->>= {A = A} {B = B} P m f hm hf w p = after (m w) (hm w p)
  where
    after : (r : Result A × World) → P r.1 → P (continue f r).1
    after (ok a, v) q = hf a v q
    after (err e, v) q = q
