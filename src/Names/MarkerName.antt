-- ===== src/Names/MarkerName.antt =====
-- models.py: `marker_basename`, and how `Marker.from_path` reads a basename back.
pub mod Roundtrip
use httk_workflow.Base.{
  ℕ, zero, suc, ◌+◌, ◌-◌, ◌*◌, ◌/◌, ◌%◌, ◌^◌, ◌≤◌, ◌<◌, ◌≡◌, refl, Bool, true, false, not, ◌&&◌,
  ◌||◌, Option, none, some, List, [], ◌∷◌, ◌++◌, all, length, arith, leb, ltb, ◌==◌, if◌then◌else◌,
  ℤ, pos, leb_ℤ,
}
use httk_workflow.Errors.{Result, ok, err, ◌>>=◌, ◌>>◌, guard, require, format_error, value_error}
use httk_workflow.Json.Numbers.{codes}
use httk_workflow.Names.Text.{Text, is_digit, is_alnum, text_eq, split_last}
use httk_workflow.Names.Base36.{to_base36, int36}
use httk_workflow.Names.JobKey.{parse_job_key}
use httk_workflow.Names.RecordRef.{scan_ref}

-- the largest unsigned 64-bit number
abbrev pub maximum_generation : ℕ
maximum_generation = 2 ^ 64 - 1

-- the core profile's budget for a basename
abbrev pub marker_bytes : ℕ
marker_bytes = 213

-- `f"{priority:03d}"` of a number below 1000
three_digits : ℕ → Text
three_digits p = (48 + p / 100) ∷ (48 + p / 10 % 10) ∷ (48 + p % 10) ∷ []

-- `f"{job_key}.p{priority:03d}.g{generation_text}.{record_ref}"`
unfoldable pub joined : Text → ℕ → ℕ → Text → Text
unfolding three_digits
joined job_key priority generation record_ref =
    ((job_key ++ (46 ∷ 112 ∷ three_digits priority)) ++ (46 ∷ 103 ∷ to_base36 generation))
    ++ (46 ∷ record_ref)

-- `result.encode("ascii")`
unfoldable pub ascii : Text → Bool
ascii = all (λ c. ltb c 128)

unfoldable pub in_priority_range : ℤ → Bool
in_priority_range p = leb_ℤ (pos 0) p && leb_ℤ p (pos 999)

unfoldable pub natural : ℤ → ℕ
natural (pos n) = n
natural _ = 0

unfoldable pub marker_basename : Text → ℤ → ℕ → Text → Result Text
marker_basename job_key priority generation record_ref = do
  _ ← parse_job_key job_key
  guard (in_priority_range priority) format_error
  guard (leb generation maximum_generation) format_error
  let result = joined job_key (natural priority) generation record_ref
  guard (ascii result) value_error
  guard (leb (length result) marker_bytes) format_error
  ok result

pub record MarkerFields : Type 0 where
  pub job_key : Text
  pub priority : ℕ
  pub generation : ℕ
  pub record_ref : Text

-- the `record_ref` group of `_MARKER_PATTERN`
unfoldable pub marker_ref : Text → Bool
unfolding scan_ref
marker_ref text =
    text_eq text (codes "init") || elim (scan_ref none none text) [ ok _ ↦ true | err _ ↦ false ]

-- the `g[0-9a-z]+` part
unfoldable pub generation_field : Text → Result ℕ
generation_field [] = err format_error
generation_field (c ∷ cs) =
    if c == 103 && (all is_alnum cs && ltb 0 (length cs)) then ok (int36 cs) else err format_error

-- the `p[0-9]{3}` part
unfoldable pub priority_field : Text → Result ℕ
priority_field (p ∷ (a ∷ (b ∷ (c ∷ [])))) =
    if p == 112 && (is_digit a && (is_digit b && is_digit c))
    then ok (100 * (a - 48) + 10 * (b - 48) + (c - 48))
    else err format_error
priority_field _ = err format_error

-- `_MARKER_PATTERN.fullmatch`, whose last three fields hold no dot, and the checks after it
unfoldable pub parse_marker_basename : Text → Result MarkerFields
parse_marker_basename name = do
  (front, record_ref) ← require (split_last 46 name) format_error
  guard (marker_ref record_ref) format_error
  (front, generation_text) ← require (split_last 46 front) format_error
  generation ← generation_field generation_text
  (job_key, priority_text) ← require (split_last 46 front) format_error
  priority ← priority_field priority_text
  guard (ltb 0 (length job_key)) format_error
  _ ← parse_job_key job_key
  guard (leb generation maximum_generation) format_error
  ok (record {
    job_key = job_key;
    priority = priority;
    generation = generation;
    record_ref = record_ref;
  })
