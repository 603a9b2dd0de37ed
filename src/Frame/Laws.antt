-- ===== src/Frame/Laws.antt =====
-- What a frame holds after `replace`, `select` and `carried`.
use httk_workflow.Base.{
  ◌≡◌, refl, String, Bool, true, false, ◌||◌, Option, none, some, List, [], ◌∷◌, str_eq, eq_iff,
  if◌then◌else◌, arith, Option-cases, inl, inr,
}
use httk_workflow.Json.{Json, Members, end, lookup, insert, lookup-insert}
use httk_workflow.Frame.{
  Member, member_name, vocabulary, StateFrame, keywords, set_given, write, replace, select_into,
  select, carried, carried_state_members,
}

-- `name in names`
abbrev pub listed : String → List String → Bool
listed k [] = false
listed k (n ∷ ns) = str_eq n k || listed k ns

abbrev named : String → List Member → Bool
named k [] = false
named k (m ∷ ms) = str_eq (member_name m) k || named k ms

-- the value that a write leaves under a name
abbrev pub written_or : Option Json → Option Json → Option Json
written_or none old = old
written_or (some v) old = some v

keywords_same :
    (given : List (Member × Json)) (a b : Member)
    → member_name a ≡ member_name b
    → keywords given a ≡ keywords given b
keywords_same [] a b e = refl
keywords_same ((k, v) ∷ rest) a b e = rw (e, keywords_same rest a b e)

lookup-set_given :
    (o : Option Json) (x : Member) (k : String) (base : Members)
    → lookup k (set_given o x base)
      ≡ (if str_eq (member_name x) k then written_or o (lookup k base) else lookup k base)
unfolding set_given
lookup-set_given none x k base = ground arith
lookup-set_given (some v) x k base = lookup-insert (member_name x) k v base

module _ (given : List (Member × Json)) (m : Member) where
  lookup-write :
      (ms : List Member) (base : Members)
      → lookup (member_name m) (write ms (keywords given) base) ≡ (
          if named (member_name m) ms
          then written_or (keywords given m) (lookup (member_name m) base)
          else lookup (member_name m) base)
  unfolding write
  lookup-write [] base = refl
  lookup-write (x ∷ ms) base = ground (
    arith,
    lookup-write ms (set_given (keywords given x) x base),
    lookup-set_given (keywords given x) x (member_name m) base,
    eq_iff (member_name x) (member_name m),
    keywords_same given x m,
  )

named_all : (m : Member) → named (member_name m) vocabulary ≡ true
named_all Member.step = refl
named_all _ = refl

-- A member that is given is set, any other keeps what the base has.
pub lookup-replace :
    (m : Member) (base : StateFrame) (given : List (Member × Json))
    → lookup (member_name m) (replace base given)
      ≡ written_or (keywords given m) (lookup (member_name m) base)
unfolding replace
lookup-replace m base given = rw (named_all m) at (lookup-write given m vocabulary base)

lookup-write_other :
    (k : String) (given : List (Member × Json)) (ms : List Member) (base : Members)
    → named k ms ≡ false
    → lookup k (write ms (keywords given) base) ≡ lookup k base
unfolding write
lookup-write_other k given [] base h = refl
lookup-write_other k given (x ∷ ms) base h = ground (
  arith,
  lookup-write_other k given ms (set_given (keywords given x) x base),
  lookup-set_given (keywords given x) x k base,
)

-- A member outside the vocabulary is untouched.
pub lookup-replace_other :
    (k : String) (base : StateFrame) (given : List (Member × Json))
    → named k vocabulary ≡ false
    → lookup k (replace base given) ≡ lookup k base
unfolding replace
lookup-replace_other k base given h = lookup-write_other k given vocabulary base h

kept : Bool → Option Json → Option Json → Option Json
kept true (some v) old = some v
kept _ _ old = old

lookup-select_into :
    (k : String) (acc : Members) (ns : List String) (m : Members)
    → lookup k (select_into acc ns m) ≡ kept (listed k ns) (lookup k m) (lookup k acc)
unfolding select_into kept
lookup-select_into k acc [] m = refl
lookup-select_into k acc (n ∷ ns) m = elim (Option-cases (lookup n m)) [
  | inl e ↦ ground (arith, lookup-select_into k acc ns m, eq_iff n k)
  | inr (v, e) ↦
      ground
        (arith, lookup-select_into k (insert n v acc) ns m, lookup-insert n k v acc, eq_iff n k)
]

-- A selection has exactly the members that are named and carried.
pub lookup-select :
    (k : String) (ns : List String) (frame : StateFrame)
    → lookup k (select ns frame) ≡ (if listed k ns then lookup k frame else none)
unfolding select lookup kept
lookup-select k ns frame = ground (arith, lookup-select_into k end ns frame)

pub lookup-carried :
    (k : String) (frame : StateFrame)
    → lookup k (carried frame) ≡ (if listed k carried_state_members then lookup k frame else none)
unfolding carried
lookup-carried k frame = lookup-select k carried_state_members frame
