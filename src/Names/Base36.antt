-- ===== src/Names/Base36.antt =====
-- `to_base36` of models.py, and Python's `int(text, 36)` on the digits 0-9a-z.
use native.Mathlib.Nat.{pow-suc}
use httk_workflow.Base.{
  ℕ, zero, suc, ◌+◌, ◌-◌, ◌*◌, ◌/◌, ◌%◌, ◌^◌, ◌≤◌, ◌<◌, ◌≡◌, true, [], ◌∷◌, all, length, arith, leb,
  ltb, ◌==◌, if◌then◌else◌,
}
use httk_workflow.Names.Text.{Text, is_alnum}

-- alphabet[d]
digit_char : ℕ → ℕ
digit_char d = if ltb d 10 then 48 + d else 87 + d

-- `while value: value, remainder = divmod(value, 36); digits = alphabet[remainder] + digits`
base36_loop : ℕ → ℕ → Text → Text
unfolding digit_char
base36_loop zero value digits = digits
base36_loop (suc fuel) value digits =
    let rest = base36_loop fuel (value / 36) (digit_char (value % 36) ∷ digits) in
    if value == 0 then digits else rest

-- The fuel is the value itself, which halves at least with each digit.
unfoldable pub to_base36 : ℕ → Text
unfolding base36_loop
to_base36 value = if value == 0 then 48 ∷ [] else base36_loop value value []

digit_value : ℕ → ℕ
digit_value c = if leb 97 c then c - 87 else c - 48

from_base36 : ℕ → Text → ℕ
from_base36 acc [] = acc
from_base36 acc (c ∷ cs) = from_base36 (acc * 36 + digit_value c) cs

-- `int(text, 36)`
unfoldable pub int36 : Text → ℕ
unfolding from_base36 digit_value
int36 text = from_base36 0 text

digit_value-char : (d : ℕ) → d < 36 → digit_value (digit_char d) ≡ d
unfolding digit_value digit_char
digit_value-char d h = ground arith

from_base36-loop :
    (fuel value : ℕ) (digits : Text)
    → value ≤ fuel
    → from_base36 0 (base36_loop fuel value digits) ≡ from_base36 value digits
unfolding from_base36 base36_loop
from_base36-loop zero value digits h = ground arith
from_base36-loop (suc fuel) value digits h = ground (
  arith,
  from_base36-loop fuel (value / 36) (digit_char (value % 36) ∷ digits),
  digit_value-char (value % 36),
)

-- Reading an encoded number gives it back.
pub int36-to_base36 : (value : ℕ) → int36 (to_base36 value) ≡ value
unfolding to_base36 int36
int36-to_base36 value = ground (arith, from_base36-loop value value [])

char_alnum : (d : ℕ) → d < 36 → is_alnum (digit_char d) ≡ true
unfolding digit_char
char_alnum d h = ground arith

loop_alnum :
    (fuel value : ℕ) (digits : Text)
    → all is_alnum digits ≡ true
    → all is_alnum (base36_loop fuel value digits) ≡ true
unfolding base36_loop
loop_alnum zero value digits h = h
loop_alnum (suc fuel) value digits h = ground (
  arith,
  loop_alnum fuel (value / 36) (digit_char (value % 36) ∷ digits),
  char_alnum (value % 36),
)

pub to_base36_alnum : (value : ℕ) → all is_alnum (to_base36 value) ≡ true
unfolding to_base36
to_base36_alnum value = ground (arith, loop_alnum value value [])

loop-nonempty :
    (fuel value : ℕ) (digits : Text) → length digits ≤ length (base36_loop fuel value digits)
unfolding base36_loop
loop-nonempty zero value digits = omega arith
loop-nonempty (suc fuel) value digits =
    ground (arith, loop-nonempty fuel (value / 36) (digit_char (value % 36) ∷ digits))

pub to_base36_nonempty : (value : ℕ) → 0 < length (to_base36 value)
unfolding to_base36 base36_loop
to_base36_nonempty zero = omega arith
to_base36_nonempty (suc v) =
    ground (arith, loop-nonempty v (suc v / 36) (digit_char (suc v % 36) ∷ []))

div_pow : (value k : ℕ) → value < 36 ^ suc k → value / 36 < 36 ^ k
div_pow value k h = let e = pow-suc 36 k in omega arith

loop_length :
    (fuel value k : ℕ) (digits : Text)
    → value < 36 ^ k
    → length (base36_loop fuel value digits) ≤ k + length digits
unfolding base36_loop
loop_length zero value k digits h = omega arith
loop_length (suc fuel) value zero digits h = ground arith
loop_length (suc fuel) value (suc k) digits h =
    ground
      (arith, loop_length fuel (value / 36) k (digit_char (value % 36) ∷ digits), div_pow value k)

-- A number below 36 ^ k takes at most k digits.
pub to_base36_length : (value k : ℕ) → 0 < k → value < 36 ^ k → length (to_base36 value) ≤ k
unfolding to_base36
to_base36_length value k pos h = ground (arith, loop_length value value k [])
