-- ===== src/Names/Text.antt =====
-- Character classes, and the scanning that stands for the regular expressions of the source.

use httk_workflow.Base.{
  ℕ, ◌≡◌, refl, Bool, true, false, not, ◌&&◌, ◌||◌, Option, none, some, List, [], ◌∷◌, ◌++◌, all,
  arith, leb, ◌==◌, if◌then◌else◌,
}

abbrev pub Text : Type 0
Text = List ℕ

-- [0-9], [a-z], [0-9a-f] and [0-9a-z]
abbrev pub is_digit : ℕ → Bool
is_digit c = leb 48 c && leb c 57

abbrev pub is_lower : ℕ → Bool
is_lower c = leb 97 c && leb c 122

abbrev pub is_hex : ℕ → Bool
is_hex c = is_digit c || (leb 97 c && leb c 102)

abbrev pub is_alnum : ℕ → Bool
is_alnum c = is_digit c || is_lower c

-- equality of two texts
unfoldable pub text_eq : Text → Text → Bool
text_eq [] [] = true
text_eq (a ∷ xs) (b ∷ ys) = a == b && text_eq xs ys
text_eq _ _ = false

pub text_eq_sound : (s t : Text) → text_eq s t ≡ true → s ≡ t
unfolding text_eq
text_eq_sound [] [] h = refl
text_eq_sound [] (b ∷ t) h = cc
text_eq_sound (a ∷ s) [] h = cc
text_eq_sound (a ∷ s) (b ∷ t) h = ground (arith, text_eq_sound s t)

pub text_eq_refl : (s : Text) → text_eq s s ≡ true
unfolding text_eq
text_eq_refl [] = refl
text_eq_refl (a ∷ s) = ground (arith, text_eq_refl s)

pub text_eq_sym : (s t : Text) → text_eq s t ≡ true → text_eq t s ≡ true
text_eq_sym s t h = rw (text_eq_sound s t h) (text_eq_refl t)

-- the longest prefix of a class, and what follows it
unfoldable pub span : (ℕ → Bool) → Text → Text × Text
span p [] = ([], [])
span p (c ∷ cs) = let r = span p cs in if p c then (c ∷ r.0, r.1) else ([], c ∷ cs)

-- a literal prefix
unfoldable pub expect : Text → Text → Option Text
expect [] cs = some cs
expect (x ∷ xs) [] = none
expect (x ∷ xs) (c ∷ cs) = let rest = expect xs cs in if x == c then rest else none

-- no character of `t` is `c`
abbrev pub lacks : ℕ → Text → Bool
lacks c = all (λ x. not (x == c))

-- `text.rpartition(c)`, where `c` occurs
unfoldable pub split_last : ℕ → Text → Option (Text × Text)
split_last c [] = none
split_last c (x ∷ xs) = elim (split_last c xs) [
  | some (pre, post) ↦ some (x ∷ pre, post)
  | none ↦ if x == c then some ([], xs) else none
]

pub all-append :
    (p : ℕ → Bool) (xs ys : Text) → all p xs ≡ true → all p ys ≡ true → all p (xs ++ ys) ≡ true
all-append p [] ys h k = k
all-append p (x ∷ xs) ys h k = ground (arith, all-append p xs ys)

pub all_weaken :
    (p q : ℕ → Bool) (xs : Text)
    → ((c : ℕ) → p c ≡ true → q c ≡ true)
    → all p xs ≡ true
    → all q xs ≡ true
all_weaken p q [] w h = refl
all_weaken p q (x ∷ xs) w h = ground (arith, w x, all_weaken p q xs w)

-- A prefix of the class that ends at a character outside it is found whole.
pub span-append :
    (p : ℕ → Bool) (xs : Text) (c : ℕ) (cs : Text)
    → all p xs ≡ true
    → p c ≡ false
    → span p (xs ++ c ∷ cs) ≡ (xs, c ∷ cs)
unfolding span
span-append p [] c cs h k = rw k
span-append p (x ∷ xs) c cs h k = ground (arith, span-append p xs c cs)

pub expect-append : (xs cs : Text) → expect xs (xs ++ cs) ≡ some cs
unfolding expect
expect-append [] cs = refl
expect-append (x ∷ xs) cs = ground (arith, expect-append xs cs)

split_last-lacks : (c : ℕ) (t : Text) → lacks c t ≡ true → split_last c t ≡ none
unfolding split_last
split_last-lacks c [] h = refl
split_last-lacks c (x ∷ t) h = ground (arith, split_last-lacks c t)

pub split_last-append :
    (c : ℕ) (xs ys : Text) → lacks c ys ≡ true → split_last c (xs ++ c ∷ ys) ≡ some (xs, ys)
unfolding split_last
split_last-append c [] ys h = ground (arith, split_last-lacks c ys)
split_last-append c (x ∷ xs) ys h = ground (arith, split_last-append c xs ys)

-- What a span reads is of the class, and together with the rest it is the text.
pub span_parts :
    (p : ℕ → Bool) (t : Text) → (t ≡ (span p t).0 ++ (span p t).1) × (all p (span p t).0 ≡ true)
unfolding span
span_parts p [] = (refl, refl)
span_parts p (c ∷ cs) = ground (arith, span_parts p cs)

pub expect_parts : (xs t r : Text) → expect xs t ≡ some r → t ≡ xs ++ r
unfolding expect
expect_parts [] t r h = ground arith
expect_parts (x ∷ xs) [] r h = cc
expect_parts (x ∷ xs) (c ∷ cs) r h = ground (arith, expect_parts xs cs r)
