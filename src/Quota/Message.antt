-- ===== src/Quota/Message.antt =====
-- internal/quota/errors.go, and the text that a failed refresh task shows (internal/quota/refresh.go).
use cpa_usage.Base.{
  ℕ, zero, suc, Bool, true, false, ◌||◌, [], ◌∷◌, ◌++◌, drop, length, if◌then◌else◌, ◌≡◌, refl,
  Bool-cases, inl, inr, arith,
}
use cpa_usage.Text.{Text, codes, text_eq, is_empty, has_prefix}
use cpa_usage.Text.Trim.{trim_space}

-- An error: which of the package's errors `errors.Is` finds in it, and its text.
pub record QuotaError : Type 0 where
  pub is_timeout : Bool
  pub is_provider_input : Bool
  pub message : Text

abbrev pub plain_error : Text → QuotaError
plain_error m = record { is_timeout = false; is_provider_input = false; message = m }

abbrev pub err_validation : Text
err_validation = codes "quota request validation failed"

abbrev pub err_not_found : Text
err_not_found = codes "quota auth identity not found"

abbrev pub err_unsupported_type : Text
err_unsupported_type = codes "quota identity type is unsupported"

abbrev pub err_provider_input : Text
err_provider_input = codes "quota provider input is invalid"

abbrev pub err_task_not_found : Text
err_task_not_found = codes "quota refresh task not found"

-- `strings.ReplaceAll(s, old, "")`, of an `old` that is not empty. Each turn consumes a byte.
remove_from : ℕ → Text → Text → Text
unfolding has_prefix
remove_from zero old s = []
remove_from (suc fuel) old [] = []
remove_from (suc fuel) old (c ∷ s) = elim (has_prefix (c ∷ s) old) [
  | true ↦ remove_from fuel old (drop (length old) (c ∷ s))
  | false ↦ c ∷ remove_from fuel old s
]

unfoldable pub remove_all : Text → Text → Text
unfolding remove_from
remove_all old s = remove_from (suc (length s)) old s

abbrev message_or : Text → Text → Text
message_or fallback m = if is_empty m || text_eq m err_provider_input then fallback else m

-- `ProviderInputErrorMessage`.
unfoldable pub provider_input_error_message : Text → Text → Text
unfolding remove_all trim_space
provider_input_error_message message fallback = message_or fallback (
    trim_space (
      remove_all (err_provider_input ++ 10 ∷ [])
        (remove_all (err_provider_input ++ codes ": ") message)))

abbrev pub timed_out_message : Text
timed_out_message = codes "Quota refresh timed out. Please try again later."

abbrev pub refresh_failed_message : Text
refresh_failed_message = codes "Quota refresh failed. Please try again later."

abbrev pub parameters_missing : Text
parameters_missing = codes "Quota request is missing required parameters."

-- `refreshTaskErrorMessage`.
unfoldable pub refresh_task_error_message : QuotaError → Text
unfolding provider_input_error_message has_prefix
refresh_task_error_message e =
    if e.is_timeout
    then timed_out_message
    else if e.is_provider_input
    then provider_input_error_message e.message parameters_missing
    else if has_prefix e.message (codes "HTTP ")
    then e.message
    else refresh_failed_message

message_test :
    provider_input_error_message
      (codes "quota provider input is invalid: missing project_id parameter")
      parameters_missing
    ≡ codes "missing project_id parameter"
unfolding provider_input_error_message text_eq
message_test = refl

message_or-there :
    (fallback m : Text) → is_empty fallback ≡ false → is_empty (message_or fallback m) ≡ false
message_or-there fallback m h = ground arith

provider_input_error_message-there :
    (m fallback : Text)
    → is_empty fallback ≡ false
    → is_empty (provider_input_error_message m fallback) ≡ false
unfolding provider_input_error_message
provider_input_error_message-there m fallback h = message_or-there fallback _ h

has_prefix-there : (c : ℕ) (p s : Text) → has_prefix s (c ∷ p) ≡ true → is_empty s ≡ false
unfolding has_prefix
has_prefix-there c p [] h = ground arith
has_prefix-there c p (d ∷ s) h = refl

-- A failed task always shows a text: whatever the error, its message is not empty.
pub refresh_task_error_message-there :
    (e : QuotaError) → is_empty (refresh_task_error_message e) ≡ false
unfolding refresh_task_error_message
refresh_task_error_message-there e = elim (Bool-cases e.is_timeout) [
  | inl is ↦ rw is refl
  | inr in_time ↦ elim (Bool-cases e.is_provider_input) [
    | inl is ↦
        rw (in_time, is) (provider_input_error_message-there e.message parameters_missing refl)
    | inr other ↦ elim (Bool-cases (has_prefix e.message (codes "HTTP "))) [
      | inl http ↦ rw (in_time, other, http) (has_prefix-there b'H' (codes "TTP ") e.message http)
      | inr off ↦ rw (in_time, other, off) refl
    ]
  ]
]
