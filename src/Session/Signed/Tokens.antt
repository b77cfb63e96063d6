-- ===== src/Session/Signed/Tokens.antt =====
-- internal/auth/session.go: a signed token is accepted until it expires, and no other text is.
use cpa_usage.Base.{
  ℕ, suc, ◌+◌, ◌-◌, ◌*◌, ◌/◌, ◌≤◌, ◌<◌, ◌==◌, ◌≡◌, ◌≢◌, refl, sym, ap, ◌∙◌, subst, Bool, true,
  false, not, ◌&&◌, Option, none, some, List, [], ◌∷◌, ◌++◌, ltb, leb, All, Bool-cases, inl, inr,
  arith, append_assoc, append-nil, ap₂, ==_iff, le→leb,
}
use cpa_usage.Clock.{Time, second, after}
use cpa_usage.Int.{ℤ, pos, negsuc, max_int64}
use cpa_usage.Text.{Text, is_empty, text_eq, text_eq_refl, text_eq_iff}
use cpa_usage.Text.Decimal.{
  format_uint, format_uint-All, format_uint-there, digits_value, digits_value-format_uint,
}
use cpa_usage.Session.Signed.{
  signed_session_version, epoch, unix, after_unix, format_int, all_digits, positive, negative,
  signed_digits, parse_int, split, dotted, payload_of, sign_token, unexpired, validate_parts,
  validate_signed_token,
}

abbrev pub NoDot : ℕ → Type 0
NoDot c = (c == b'.') ≡ false

abbrev IsDigit : ℕ → Type 0
IsDigit c = (48 ≤ c) × (c < 58)

split-dotted : (a s : Text) → All NoDot a → split (dotted a s) ≡ a ∷ split s
unfolding split
split-dotted [] s h = refl
split-dotted (c ∷ a) s (h, hs) = rw (h, split-dotted a s hs) refl

split-last : (a : Text) → All NoDot a → split a ≡ a ∷ []
unfolding split
split-last [] h = refl
split-last (c ∷ a) (h, hs) = rw (h, split-last a hs) refl

all_digits-IsDigit : (s : Text) → All IsDigit s → all_digits s ≡ true
unfolding all_digits
all_digits-IsDigit [] h = refl
all_digits-IsDigit (c ∷ s) ((low, high), hs) = rw (all_digits-IsDigit s hs) (ground arith)

format_uint-IsDigit : (n : ℕ) → All IsDigit (format_uint n)
format_uint-IsDigit n = format_uint-All IsDigit (λ d h. (omega arith, omega (arith, h))) n

format_uint-NoDot : (n : ℕ) → All NoDot (format_uint n)
format_uint-NoDot n = format_uint-All NoDot (λ d h. ground arith) n

signed_digits-digits :
    (sign : ℕ → Option ℤ) (s : Text)
    → is_empty s ≡ false
    → All IsDigit s
    → signed_digits sign s ≡ sign (digits_value 0 s)
signed_digits-digits sign s there h = rw (there, all_digits-IsDigit s h) refl

is_not : (c d : ℕ) → c ≢ d → (c == d) ≡ false
is_not c d h = ground arith

parse_int-digits :
    (s : Text) → is_empty s ≡ false → All IsDigit s → parse_int s ≡ positive (digits_value 0 s)
unfolding parse_int
parse_int-digits [] there h = cc
parse_int-digits (c ∷ s) there ((low, high), hs) =
    let whole = signed_digits-digits positive (c ∷ s) there ((low, high), hs) in
    rw (is_not c b'-' (omega (arith, low, high)), is_not c b'+' (omega (arith, low, high))) whole

-- The range of an `int64`.
abbrev pub InInt64 : ℤ → Type 0
InInt64 (pos n) = n ≤ max_int64
InInt64 (negsuc n) = n ≤ max_int64

plus_one : (n : ℕ) → n + 1 ≡ suc n
plus_one n = omega arith

negative_fits : (n : ℕ) → n ≤ max_int64 → negative (n + 1) ≡ some (negsuc n)
negative_fits n h = ap negative (plus_one n) ∙ rw (le→leb n max_int64 h) refl

parse_int-format_int : (i : ℤ) → InInt64 i → parse_int (format_int i) ≡ some i
parse_int-format_int (pos n) h =
    parse_int-digits (format_uint n) (format_uint-there n) (format_uint-IsDigit n)
    ∙ ap positive (digits_value-format_uint n)
    ∙ ground arith
parse_int-format_int (negsuc n) h =
    unfold parse_int in
    signed_digits-digits negative (format_uint (n + 1)) (format_uint-there (n + 1))
      (format_uint-IsDigit (n + 1))
    ∙ ap negative (digits_value-format_uint (n + 1))
    ∙ negative_fits n h

format_int-NoDot : (i : ℤ) → All NoDot (format_int i)
format_int-NoDot (pos n) = format_uint-NoDot n
format_int-NoDot (negsuc n) = (refl, format_uint-NoDot (n + 1))

past_epoch : (q : ℕ) → leb epoch q ≡ true → epoch + (q - epoch) ≡ q
past_epoch q h = ground arith

before_epoch :
    (q : ℕ)
    → leb epoch q ≡ false
    → (ltb (epoch - q - 1) epoch ≡ true) × (epoch - (epoch - q - 1 + 1) ≡ q)
before_epoch q h = (ground arith, ground arith)

-- The whole second of an expiry time is what a token holds.
after_unix-unix : (t now : Time) → after_unix (unix t) now ≡ after ((t / second) * second) now
after_unix-unix t now = elim (Bool-cases (leb epoch (t / second))) [
  | inl late ↦ rw late (ap (λ q. after (q * second) now) (past_epoch (t / second) late))
  | inr early ↦
      let (small, same) = before_epoch (t / second) early in
      rw (early, small) (ap (λ q. after (q * second) now) same)
]

unix-InInt64 : (t : Time) → t / second ≤ max_int64 → InInt64 (unix t)
unix-InInt64 t h = elim (Bool-cases (leb epoch (t / second))) [
  | inl late ↦ rw late (omega (arith, h))
  | inr early ↦ rw early (omega arith)
]

validate_parts-signed :
    (sign : Text → Text) (now : Time) (i : ℤ) (nonce : Text)
    → is_empty nonce ≡ false
    → is_empty (sign (payload_of signed_session_version (format_int i) nonce)) ≡ false
    → InInt64 i
    → validate_parts sign now (
        signed_session_version
        ∷ format_int i
        ∷ nonce
        ∷ sign (payload_of signed_session_version (format_int i) nonce)
        ∷ [])
      ≡ after_unix i now
validate_parts-signed sign now i nonce there signed fits =
    rw
      (
        there,
        signed,
        parse_int-format_int i fits,
        text_eq_refl (sign (payload_of signed_session_version (format_int i) nonce)),
      )
      (last (after_unix i now))
  where
    last :
        (b : Bool)
        → (text_eq signed_session_version signed_session_version && true && true && b && true) ≡ b
    last b = rw (text_eq_refl signed_session_version) (ground arith)

dotted_assoc : (a b c : Text) → dotted (dotted a b) c ≡ dotted a (dotted b c)
dotted_assoc a b c = append_assoc a (b'.' ∷ b) (b'.' ∷ c)

token_parts :
    (expires nonce signature : Text)
    → All NoDot expires
    → All NoDot nonce
    → All NoDot signature
    → split (dotted (payload_of signed_session_version expires nonce) signature)
      ≡ signed_session_version ∷ expires ∷ nonce ∷ signature ∷ []
token_parts e n s he hn hs =
    ap split (
      dotted_assoc signed_session_version (dotted e n) s
      ∙ ap (dotted signed_session_version) (dotted_assoc e n s))
    ∙ split-dotted signed_session_version (dotted e (dotted n s)) (refl, (refl, tt))
    ∙ ap (◌∷◌ signed_session_version) (
        split-dotted e (dotted n s) he
        ∙ ap (◌∷◌ e) (split-dotted n s hn ∙ ap (◌∷◌ n) (split-last s hs)))

-- A token that was signed for an expiry time is accepted exactly before the whole second of that time, if
-- the random text is not empty and neither it nor the signature holds a dot.
pub sign_token-validate :
    (sign : Text → Text) (expires_at now : Time) (nonce : Text)
    → expires_at / second ≤ max_int64
    → is_empty nonce ≡ false
    → All NoDot nonce
    → ((payload : Text) → is_empty (sign payload) ≡ false)
    → ((payload : Text) → All NoDot (sign payload))
    → validate_signed_token sign now (sign_token sign expires_at nonce)
      ≡ after ((expires_at / second) * second) now
unfolding validate_signed_token sign_token
sign_token-validate sign expires_at now nonce h there plain signed clean =
    let i = unix expires_at in
    let payload = payload_of signed_session_version (format_int i) nonce in
    ap (validate_parts sign now)
      (token_parts (format_int i) nonce (sign payload) (format_int-NoDot i) plain (clean payload))
    ∙ validate_parts-signed sign now i nonce there (signed payload) (unix-InInt64 expires_at h)
    ∙ after_unix-unix expires_at now

-- The parts of a text with the dots between them.
abbrev rest_joined : List Text → Text
rest_joined [] = []
rest_joined (p ∷ ps) = b'.' ∷ p ++ rest_joined ps

abbrev joined : List Text → Text
joined [] = []
joined (p ∷ ps) = p ++ rest_joined ps

split-cons : (s : Text) → (p : Text) × (ps : List Text) × (split s ≡ p ∷ ps)
unfolding split
split-cons [] = ([], [], refl)
split-cons (c ∷ s) =
    let (p, ps, e) = split-cons s in
    elim (Bool-cases (c == b'.')) [
      | inl dot ↦ rw dot ([], split s, refl)
      | inr other ↦ rw (other, e) (c ∷ p, ps, refl)
    ]

joined-split : (s : Text) → joined (split s) ≡ s
unfolding split
joined-split [] = refl
joined-split (c ∷ s) =
    let (p, ps, e) = split-cons s in
    let whole = sym (ap joined e) ∙ joined-split s in
    elim (Bool-cases (c == b'.')) [
      | inl dot ↦ rw dot (ap rest_joined e ∙ ap₂ (λ x y. x ∷ y) (sym ((==_iff c b'.').0 dot)) whole)
      | inr other ↦ rw (other, e) (ap (◌∷◌ c) whole)
    ]

-- A text that carries the signature of its own first three parts, and an expiry time after `now`.
abbrev pub SignedToken : (Text → Text) → Time → Text → Type 0
SignedToken sign now token =
    (expires : Text) × (nonce : Text) × (s : ℤ) × (token
      ≡ dotted (payload_of signed_session_version expires nonce)
          (sign (payload_of signed_session_version expires nonce)))
    × (parse_int expires ≡ some s)
    × (after_unix s now ≡ true)

five_true :
    (a b c d e : Bool) → (a && b && c && d && e) ≡ true → (a ≡ true) × (d ≡ true) × (e ≡ true)
five_true a b c d e h = ground arith

unexpired-some :
    (sign : Text → Text) (now : Time) (o : Option ℤ)
    → unexpired sign now o ≡ true
    → (s : ℤ) × (o ≡ some s) × (after_unix s now ≡ true)
unexpired-some sign now none h = cc
unexpired-some sign now (some s) h = (s, refl, h)

validate_parts-SignedToken :
    (sign : Text → Text) (now : Time) (ps : List Text)
    → validate_parts sign now ps ≡ true
    → SignedToken sign now (joined ps)
validate_parts-SignedToken sign now (v ∷ e ∷ n ∷ g ∷ []) h =
    let (hv, he, hg) =
      five_true (text_eq v signed_session_version) (not (is_empty n)) (not (is_empty g))
        (unexpired sign now (parse_int e)) (text_eq g (sign (payload_of v e n))) h in
    let (s, parsed, fresh) = unexpired-some sign now (parse_int e) he in
    (
      e,
      n,
      s,
      ap (λ x. dotted v (dotted e (dotted n x))) (append-nil g)
          ∙ sym (dotted_assoc v (dotted e n) g ∙ ap (dotted v) (dotted_assoc e n g))
          ∙ ap (dotted (payload_of v e n)) ((text_eq_iff g (sign (payload_of v e n))).0 hg)
          ∙ ap (λ x. dotted (payload_of x e n) (sign (payload_of x e n)))
              ((text_eq_iff v signed_session_version).0 hv),
      parsed,
      fresh,
    )
validate_parts-SignedToken sign now [] h = cc
validate_parts-SignedToken sign now (a ∷ []) h = cc
validate_parts-SignedToken sign now (a ∷ b ∷ []) h = cc
validate_parts-SignedToken sign now (a ∷ b ∷ c ∷ []) h = cc
validate_parts-SignedToken sign now (a ∷ b ∷ c ∷ d ∷ e ∷ ps) h = cc

-- Every text that is accepted at `now` is a version-1 payload followed by the signature of that very
-- payload, whose expiry time is after `now`: no part of an accepted token can be changed without a
-- signature of the change.
pub validate_signed_token-SignedToken :
    (sign : Text → Text) (now : Time) (token : Text)
    → validate_signed_token sign now token ≡ true
    → SignedToken sign now token
unfolding validate_signed_token
validate_signed_token-SignedToken sign now token h =
    subst (SignedToken sign now) (joined-split token)
      (validate_parts-SignedToken sign now (split token) h)
