-- ===== src/Inbox/ErrorText.antt =====
-- `boundedRedisUsageInboxError` of internal/repository/redis_usage_inbox.go: the error text that an
-- inbox row keeps. An error is `none`, or its message.
use cpa_usage.Base.{
  ℕ, zero, suc, ◌≤◌, ◌<◌, ◌≡◌, refl, true, false, Option, none, some, [], ◌∷◌, ◌++◌, arith, leb,
  if◌then◌else◌, length, take, drop, length-take-le, lt→leb_false, take-append-drop, Bool-cases,
  inl, inr,
}
use native.Mathlib.Decide.{dec_le}
use cpa_usage.Text.{Text}
use cpa_usage.Text.Utf8.{valid_string}

abbrev pub max_error_length : ℕ
max_error_length = 1024

-- The loop `for !utf8.ValidString(message) { message = message[:len(message)-1] }` over the lengths
-- of the message, from the longest.
unfoldable pub cut_to_valid : ℕ → Text → Text
cut_to_valid zero message = take zero message
cut_to_valid (suc n) message = elim (valid_string (take (suc n) message)) [
  | true ↦ take (suc n) message
  | false ↦ cut_to_valid n message
]

unfoldable pub bounded_error : Option Text → Text
bounded_error none = []
bounded_error (some message) =
    if leb (length message) max_error_length then message else cut_to_valid max_error_length message

-- What is kept of a message that is cut at `n` bytes or before.
pub record CutAt (n : ℕ) (message kept : Text) : Type 0 where
  pub short : length kept ≤ n
  pub rest : Text
  pub is_prefix : kept ++ rest ≡ message
  pub valid : valid_string kept ≡ true
  pub longest :
      (k : ℕ) → k ≤ n → valid_string (take k message) ≡ true → length (take k message) ≤ length kept

length-take_mono : (k n : ℕ) (s : Text) → k ≤ n → length (take k s) ≤ length (take n s)
length-take_mono zero n s h = omega arith
length-take_mono (suc k) zero s h = elim h [ ]
length-take_mono (suc k) (suc n) [] h = omega arith
length-take_mono (suc k) (suc n) (c ∷ s) h = omega (arith, length-take_mono k n s (omega arith))

whole-CutAt :
    (n : ℕ) (message : Text)
    → valid_string (take n message) ≡ true
    → CutAt n message (take n message)
whole-CutAt n message v = record {
  short = length-take-le n message;
  rest = drop n message;
  is_prefix = take-append-drop n message;
  valid = v;
  longest = λ k le _. length-take_mono k n message le;
}

shorter-CutAt :
    (n : ℕ) (message kept : Text)
    → valid_string (take (suc n) message) ≡ false
    → CutAt n message kept
    → CutAt (suc n) message kept
shorter-CutAt n message kept bad c = record {
  short = omega (arith, c.short);
  rest = c.rest;
  is_prefix = c.is_prefix;
  valid = c.valid;
  longest =
      λ k le v. elim (dec_le k n) [ yes p ↦ c.longest k p v | no p ↦ at_end k (omega arith) v ];
}
  where
    at_end :
        (k : ℕ)
        → k ≡ suc n
        → valid_string (take k message) ≡ true
        → length (take k message) ≤ length kept
    at_end k e v = absurd (cc)

cut_to_valid-CutAt : (n : ℕ) (message : Text) → CutAt n message (cut_to_valid n message)
unfolding cut_to_valid
cut_to_valid-CutAt zero message = whole-CutAt zero message (unfold valid_string in refl)
cut_to_valid-CutAt (suc n) message = elim (Bool-cases (valid_string (take (suc n) message))) [
  | inl v ↦ rw (v, cut_to_valid) (whole-CutAt (suc n) message v)
  | inr bad ↦ rw (bad, cut_to_valid) (shorter-CutAt n message _ bad (cut_to_valid-CutAt n message))
]

-- An error text of more than 1024 bytes is cut to a prefix of at most 1024 bytes that is valid UTF-8,
-- and no longer valid prefix within that bound exists.
pub bounded_error-CutAt :
    (message : Text)
    → max_error_length < length message
    → CutAt max_error_length message (bounded_error (some message))
unfolding bounded_error
bounded_error-CutAt message h =
    rw (lt→leb_false (length message) max_error_length h)
      (cut_to_valid-CutAt max_error_length message)
