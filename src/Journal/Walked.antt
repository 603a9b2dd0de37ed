-- ===== src/Journal/Walked.antt =====
-- journal.py: the walk over the history of a job ends, whatever its records say.
use httk_workflow.Base.{
  sym, ℕ, zero, suc, ◌<◌, ◌≤◌, ◌≡◌, refl, ap, true, false, not, Bool-cases, inl, inr, Option, none,
  some, List, [], ◌∷◌, count_if, length, count_if-le-length, arith,
}
use httk_workflow.Errors.{Result, ok, err}
use httk_workflow.Json.{Members}
use httk_workflow.Names.Text.{text_eq_sym, Text, text_eq, text_eq_sound}
use httk_workflow.Journal.Chain.{visited_in, previous, first, onward, visit, stops, chain}

-- No reference of the walk was met before it, nor twice in it.
abbrev pub NoRepeat : List Text → List (Text × Option Members) → Type 0
NoRepeat visited [] = Unit {0}
NoRepeat visited ((r, m) ∷ entries) =
    (visited_in r visited ≡ false) × NoRepeat (r ∷ visited) entries

-- how many of these references are still to be met
left : List Text → List Text → ℕ
left visited known = count_if (λ u. not (visited_in u visited)) known

left-le : (r : Text) (visited known : List Text) → left (r ∷ visited) known ≤ left visited known
unfolding left visited_in
left-le r visited [] = omega arith
left-le r visited (u ∷ known) = ground (arith, left-le r visited known)

same_visited :
    (r u : Text) (visited : List Text)
    → text_eq r u ≡ true
    → visited_in u visited ≡ visited_in r visited
same_visited r u visited h = ap (λ t. visited_in t visited) (sym (text_eq_sound r u h))

left-le-length : (visited known : List Text) → left visited known ≤ length known
unfolding left
left-le-length visited known = count_if-le-length (λ u. not (visited_in u visited)) known

not_stopped :
    (current : Text) (visited : List Text)
    → stops current visited ≡ false
    → visited_in current visited ≡ false
unfolding stops
not_stopped current visited h = ground arith

-- meeting a known reference for the first time leaves fewer
left-lt :
    (r : Text) (visited known : List Text)
    → visited_in r known ≡ true
    → visited_in r visited ≡ false
    → left (r ∷ visited) known < left visited known
unfolding left visited_in
left-lt r visited [] k h = cc
left-lt r visited (u ∷ known) k h = elim (Bool-cases (text_eq r u)) [
  | inl e ↦ ground (arith, left-le r visited known, text_eq_sym r u e, same_visited r u visited e)
  | inr e ↦ ground (arith, left-lt r visited known)
]

module _ (read : Text → Result Members) (known : List Text) where
  -- every reference that is readable is known
  abbrev pub Knows : Type 0
  Knows = (r : Text) (m : Members) → read r ≡ ok m → visited_in r known ≡ true

  abbrev Ends : ℕ → List Text → Text → Type 0
  Ends fuel visited current =
      (entries : List (Text × Option Members)) × (chain read fuel visited current ≡ some entries)
      × NoRepeat visited entries

  visit-Ends :
      (fuel : ℕ) (visited : List Text) (current : Text) (x : Result Members)
      → visited_in current visited ≡ false
      → ((m : Members) → x ≡ ok m → (r : Text) → Ends fuel (current ∷ visited) r)
      → (entries : List (Text × Option Members)) × (visit current x
            (chain read fuel (current ∷ visited))
          ≡ some entries)
        × NoRepeat visited entries
  unfolding visit onward
  visit-Ends fuel visited current (err e) h later = ((current, none) ∷ [], refl, (h, tt))
  visit-Ends fuel visited current (ok m) h later = after (previous m)
    where
      after :
          (next : Option Text)
          → (entries : List (Text × Option Members)) × (first
                (current, some m)
                (onward next (chain read fuel (current ∷ visited)))
              ≡ some entries)
            × NoRepeat visited entries
      after none = ((current, some m) ∷ [], refl, (h, tt))
      after (some r) =
          let (entries, e, fine) = later m refl r in
          ((current, some m) ∷ entries, rw e refl, (h, fine))

  chain-Ends :
      (fuel : ℕ) (visited : List Text) (current : Text)
      → Knows
      → left visited known < fuel
      → Ends fuel visited current
  unfolding chain
  chain-Ends zero visited current k h = absurd (omega arith)
  chain-Ends (suc fuel) visited current k h = elim (Bool-cases (stops current visited)) [
    | inl stop ↦ ([], rw stop refl, tt)
    | inr on ↦
        let new = not_stopped current visited on in
        let (entries, e, fine) = visit-Ends fuel visited current (read current) new (λ m found r.
          chain-Ends fuel (current ∷ visited) r k
            (omega (arith, left-lt current visited known (k current m found) new))) in
        (entries, rw on e, fine)
  ]

-- The walk over the history of a record ends, and it meets no reference twice, whatever the records
-- name as the one before and whatever the reading is: a fuel above the number of known references is
-- enough, if all references that are readable are known.
pub chain_ends :
    (read : Text → Result Members) (known : List Text) (fuel : ℕ) (record_ref : Text)
    → Knows read known
    → length known < fuel
    → (entries : List (Text × Option Members)) × (chain read fuel [] record_ref ≡ some entries)
      × NoRepeat [] entries
chain_ends read known fuel record_ref k h =
    chain-Ends read known fuel [] record_ref k (omega (arith, left-le-length [] known))
