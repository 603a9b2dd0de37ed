-- ===== src/Manager/Failure.antt =====
-- models.py: `Failure` and `validate_failure`, the failure that a runner publishes.
use httk_workflow.Base.{
  ℕ, String, Bool, true, false, not, ◌&&◌, ◌||◌, Option, none, some, any, leb, ltb, ◌==◌, str_eq,
  if◌then◌else◌,
}
use Prim.Native.String
use httk_workflow.Errors.{Result, ok, err, format_error}
use httk_workflow.Json.{
  Json, null, bool, str, obj, Members, end, field, get, has_key, insert, as_mapping, require_string,
}
use httk_workflow.Json.Numbers.{codes}

-- `validate_failure` keeps what it accepts: the code, the message, the details, and whether to retry
pub record Failure : Type 0 where
  pub code : String
  pub message : String
  pub details : Option Members
  pub retryable : Bool

-- `str.isspace` of one character
is_space : ℕ → Bool
is_space c =
    (leb 9 c && leb c 13)
    || ((leb 28 c && leb c 32)
        || (c == 133
            || (c == 160
                || (c == 5760
                    || ((leb 8192 c && leb c 8202)
                        || (c == 8232
                            || (c == 8233 || (c == 8239 || (c == 8287 || c == 12288)))))))))

supported : String → Bool
supported name =
    str_eq name "code"
    || (str_eq name "message" || (str_eq name "details" || str_eq name "retryable"))

all_supported : Members → Bool
all_supported end = true
all_supported (field name value rest) = supported name && all_supported rest

bad_code : String → Bool
bad_code code = ltb 128 (String.len code) || any (λ c. c == 0 || is_space c) (codes code)

optional_details : Json → Result (Option Members)
optional_details null = ok none
optional_details (obj m) = ok (some m)
optional_details _ = err format_error

flag_of : Bool → Json → Result Bool
flag_of false value = ok false
flag_of true (bool b) = ok b
flag_of true _ = err format_error

failure_parts :
    Result String → Result String → Result (Option Members) → Result Bool → Result Failure
failure_parts (ok code) (ok message) (ok details) (ok retryable) =
    if bad_code code
    then err format_error
    else ok (record { code = code; message = message; details = details; retryable = retryable })
failure_parts _ _ _ _ = err format_error

failure_members : Option Members → Result Failure
failure_members none = err format_error
failure_members (some m) =
    if not (all_supported m)
    then err format_error
    else failure_parts (require_string (get "code" m)) (require_string (get "message" m))
        (optional_details (get "details" m)) (flag_of (has_key "retryable" m) (get "retryable" m))

-- models.py: `validate_failure`; every refusal is a format error
unfoldable pub validate_failure : Json → Result Failure
unfolding is_space supported all_supported bad_code optional_details flag_of failure_parts
    failure_members
validate_failure value = failure_members (as_mapping value)

-- `Failure.as_mapping`
unfoldable pub failure_json : Failure → Json
failure_json f =
    let base : Members = field "code" (str f.code) (field "message" (str f.message) end) in
    let full : Members = elim f.details [ none ↦ base | some d ↦ insert "details" (obj d) base ] in
    obj (if f.retryable then insert "retryable" (bool true) full else full)
