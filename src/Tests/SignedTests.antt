-- ===== src/Tests/SignedTests.antt =====
-- internal/auth/session.go with a key whose signatures are one fixed letter.
use cpa_usage.Base.{◌+◌, ◌*◌, ◌/◌, ◌≡◌, refl, true, arith}
use cpa_usage.Clock.{Time, second, after}
use cpa_usage.Text.{Text, codes, text_eq}
use cpa_usage.Text.Decimal.{digits_value}
use cpa_usage.Session.Signed.{
  epoch, sign_token, validate_signed_token, all_digits, parse_int, split,
}
use cpa_usage.Session.Signed.Tokens.{
  SignedToken, sign_token-validate, validate_signed_token-SignedToken,
}

abbrev sign : Text → Text
sign payload = codes "s"

abbrev nonce : Text
nonce = codes "abc"

abbrev expiry : Time
expiry = (epoch + 100) * second + 5

sign_token-validate_example :
    validate_signed_token sign 7 (sign_token sign expiry nonce)
    ≡ after ((expiry / second) * second) 7
sign_token-validate_example =
    sign_token-validate sign expiry 7 nonce (omega arith) refl (refl, (refl, (refl, tt)))
      (λ p. refl) (λ p. (refl, tt))

accepted : validate_signed_token sign 7 (codes "v1.100.abc.s") ≡ true
unfolding validate_signed_token split parse_int all_digits digits_value text_eq
accepted = refl

validate_signed_token-SignedToken_example : SignedToken sign 7 (codes "v1.100.abc.s")
validate_signed_token-SignedToken_example =
    validate_signed_token-SignedToken sign 7 (codes "v1.100.abc.s") accepted
