-- ===== src/Json/Numbers.antt =====
-- Python's `int(value)` of a JSON value. A text is read as ASCII: surrounding white space, a sign,
-- and digits with single underscores between them. Other scripts' digits are not modelled.
use Prim.Native.Char.{code}
use httk_workflow.Base.{
  ℕ, zero, suc, ◌+◌, ◌-◌, ◌*◌, ℤ, pos, negsuc, String, Bool, true, false, ◌&&◌, ◌||◌, Option, none,
  some, List, [], ◌∷◌, leb, ◌==◌, if◌then◌else◌,
}
use mathlib.Core.List.{reverse}
use httk_workflow.Errors.{Result, ok, err, value_error, type_error}
use httk_workflow.Json.{Json, null, bool, int, str, arr, obj}

-- the code points of a text
abbrev pub codes : String → List ℕ
codes String.[] = []
codes (String.◌∷◌ c s) = code c ∷ codes s

is_space : ℕ → Bool
is_space c = c == 32 || (leb 9 c && leb c 13) || (leb 28 c && leb c 31)

strip_left : List ℕ → List ℕ
strip_left [] = []
strip_left (c ∷ cs) = if is_space c then strip_left cs else c ∷ cs

-- `after` says that the last character was a digit
int_digits : ℕ → Bool → List ℕ → Option ℕ
int_digits acc after [] = if after then some acc else none
int_digits acc after (c ∷ cs) =
    let next = int_digits (acc * 10 + (c - 48)) true cs in
    let skip = int_digits acc false cs in
    if leb 48 c && leb c 57 then next else if c == 95 && after then skip else none

negate : ℕ → ℤ
negate zero = pos 0
negate (suc n) = negsuc n

signed : List ℕ → Option ℤ
unfolding int_digits negate
signed [] = none
signed (c ∷ cs) =
    if c == 45
    then elim (int_digits 0 false cs) [ none ↦ none | some n ↦ some (negate n) ]
    else elim (int_digits 0 false (if c == 43 then cs else c ∷ cs)) [
      | none ↦ none
      | some n ↦ some (pos n)
    ]

int_of_text : String → Option ℤ
unfolding is_space strip_left signed
int_of_text s = signed (reverse (strip_left (reverse (strip_left (codes s)))))

unfoldable pub py_int : Json → Result ℤ
unfolding int_of_text
py_int null = err type_error
py_int (bool b) = ok (pos (if b then 1 else 0))
py_int (int z) = ok z
py_int (str s) = elim (int_of_text s) [ none ↦ err value_error | some z ↦ ok z ]
py_int (arr _) = err type_error
py_int (obj _) = err type_error
