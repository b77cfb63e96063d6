-- ===== src/Session/Signed.antt =====
-- internal/auth/session.go: the tokens of a manager with a signing key. The signature of a payload
-- (HMAC-SHA256 under the key, in base64url without padding) is an argument.
pub mod Tokens
use cpa_usage.Base.{
  ℕ, zero, suc, ◌+◌, ◌-◌, ◌*◌, ◌/◌, ◌^◌, ◌==◌, Bool, true, false, not, ◌&&◌, ◌||◌, Option, none,
  some, List, [], ◌∷◌, ◌++◌, ltb, leb, if◌then◌else◌,
}
use cpa_usage.Clock.{Time, Duration, second, after}
use cpa_usage.Int.{ℤ, pos, negsuc, max_int64}
use cpa_usage.Result.{Result, ok, err}
use cpa_usage.Text.{Text, codes, is_empty, text_eq}
use cpa_usage.Text.Decimal.{format_uint, digits_value}

abbrev pub signed_session_version : Text
signed_session_version = codes "v1"

-- The seconds from Go's zero time to 1970.
abbrev pub epoch : ℕ
epoch = 62135596800

-- `t.Unix()`.
abbrev pub unix : Time → ℤ
unix t =
    if leb epoch (t / second) then pos (t / second - epoch) else negsuc (epoch - t / second - 1)

-- `time.Unix(s, 0).After(now)`. The sum with the epoch is exact here; the sum of 64 bits wraps for the
-- last 62135596800 numbers, so that the code refuses such an expiry that is admitted here.
abbrev pub after_unix : ℤ → Time → Bool
after_unix (pos s) now = after ((epoch + s) * second) now
after_unix (negsuc s) now = ltb s epoch && after ((epoch - (s + 1)) * second) now

-- `strconv.FormatInt(i, 10)`.
abbrev pub format_int : ℤ → Text
format_int (pos n) = format_uint n
format_int (negsuc n) = b'-' ∷ format_uint (n + 1)

unfoldable pub all_digits : Text → Bool
all_digits [] = true
all_digits (c ∷ s) = leb b'0' c && leb c b'9' && all_digits s

abbrev pub positive : ℕ → Option ℤ
positive n = if leb n max_int64 then some (pos n) else none

abbrev pub negative : ℕ → Option ℤ
negative zero = some (pos 0)
negative (suc n) = if leb n max_int64 then some (negsuc n) else none

-- Digits, of which there must be one, under their sign.
abbrev pub signed_digits : (ℕ → Option ℤ) → Text → Option ℤ
signed_digits sign s = if is_empty s || not (all_digits s) then none else sign (digits_value 0 s)

-- `strconv.ParseInt(s, 10, 64)`.
unfoldable pub parse_int : Text → Option ℤ
parse_int [] = none
parse_int (c ∷ s) =
    if c == b'-'
    then signed_digits negative s
    else if c == b'+'
    then signed_digits positive s
    else signed_digits positive (c ∷ s)

abbrev pub on_first : ℕ → List Text → List Text
on_first c [] = (c ∷ []) ∷ []
on_first c (p ∷ ps) = (c ∷ p) ∷ ps

-- `strings.Split(s, ".")`.
unfoldable pub split : Text → List Text
split [] = [] ∷ []
split (c ∷ s) = let rest = split s in if c == b'.' then [] ∷ rest else on_first c rest

abbrev pub dotted : Text → Text → Text
dotted a b = a ++ b'.' ∷ b

-- The signed part of a token.
abbrev pub payload_of : Text → Text → Text → Text
payload_of version expires nonce = dotted version (dotted expires nonce)

module _ (sign_session_payload : Text → Text) where
  -- `signToken`.
  unfoldable pub sign_token : Time → Text → Text
  sign_token expires_at nonce =
      let payload = payload_of signed_session_version (format_int (unix expires_at)) nonce in
      dotted payload (sign_session_payload payload)

  abbrev pub unexpired : Time → Option ℤ → Bool
  unexpired now none = false
  unexpired now (some s) = after_unix s now

  abbrev pub validate_parts : Time → List Text → Bool
  validate_parts now (version ∷ expires ∷ nonce ∷ signature ∷ []) =
      text_eq version signed_session_version
      && not (is_empty nonce)
      && not (is_empty signature)
      && unexpired now (parse_int expires)
      && text_eq signature (sign_session_payload (payload_of version expires nonce))
  validate_parts now _ = false

  -- `validateSignedToken`.
  unfoldable pub validate_signed_token : Time → Text → Bool
  validate_signed_token now token = validate_parts now (split token)

  -- `Create` and `Validate` of such a manager, which keeps no sessions.
  unfoldable pub create_signed : Duration → Result Text → Time → Result (Text × Time)
  create_signed ttl (err e) now = err e
  create_signed ttl (ok nonce) now = ok (sign_token (now + ttl) nonce, now + ttl)

  unfoldable pub validate_signed : Time → Text → Bool
  validate_signed now token = if is_empty token then false else validate_signed_token now token
