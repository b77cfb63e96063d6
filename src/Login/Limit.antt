-- ===== src/Login/Limit.antt =====
-- How many failures count against a client at a time, and how a login changes that.
use cpa_usage.Base.{
  ℕ, suc, ◌≤◌, ◌<◌, ◌-◌, ◌≡◌, ◌∙◌, refl, ap, ap₂, Bool, true, false, Option, none, some, arith,
  if◌then◌else◌, leb, Bool-cases, inl, inr, le→leb, lt→leb_false,
}
use cpa_usage.Clock.{Time, Duration}
use cpa_usage.Result.{Result}
use cpa_usage.Text.{Text, text_eq}
use cpa_usage.Dict.{
  find, remove, Distinct, kept, find-put, find-remove, find-delete_if, Distinct-put,
  Distinct-remove, Distinct-delete_if,
}
use cpa_usage.Login.{
  max_failed_login_attempts, failed_login_attempt_window, FailedLogin, Attempts, is_expired,
  prune_expired, count_of, too_many_failed_attempts, record_failed_attempt, State, too_many,
  invalid_password, Clocks, login,
}

abbrev counted : Time → Option FailedLogin → ℕ
counted t none = 0
counted t (some a) = if is_expired t a then 0 else a.count

-- The failures of a client that count at a time.
unfoldable pub failures : Attempts → Text → Time → ℕ
failures m key t = counted t (find key m)

counted-kept :
    (o : Option FailedLogin) (key : Text) (now t : Time)
    → now ≤ t
    → counted t (kept (λ k a. is_expired now a) key o) ≡ counted t o
counted-kept none key now t h = refl
counted-kept (some a) key now t h = ground arith

count_of-kept :
    (o : Option FailedLogin) (key : Text) (now : Time)
    → count_of (kept (λ k a. is_expired now a) key o) ≡ counted now o
count_of-kept none key now = refl
count_of-kept (some a) key now = ground arith

failures-prune_expired :
    (m : Attempts) (key : Text) (now t : Time)
    → Distinct m
    → now ≤ t
    → failures (prune_expired now m) key t ≡ failures m key t
unfolding failures prune_expired
failures-prune_expired m key now t d h =
    rw (find-delete_if (λ k a. is_expired now a) key m d) (counted-kept (find key m) key now t h)

count_of-prune_expired :
    (m : Attempts) (key : Text) (now : Time)
    → Distinct m
    → count_of (find key (prune_expired now m)) ≡ failures m key now
unfolding failures prune_expired
count_of-prune_expired m key now d =
    rw (find-delete_if (λ k a. is_expired now a) key m d) (count_of-kept (find key m) key now)

Distinct-prune_expired : (m : Attempts) (now : Time) → Distinct m → Distinct (prune_expired now m)
unfolding prune_expired
Distinct-prune_expired m now d = Distinct-delete_if (λ k a. is_expired now a) m d

failures-record :
    (m : Attempts) (key k : Text) (now t : Time)
    → Distinct m
    → now ≤ t
    → t - now ≤ failed_login_attempt_window
    → failures (record_failed_attempt key now m) k t
      ≡ (if text_eq key k then suc (failures m key now) else failures m k t)
failures-record m key k now t d h within = elim (Bool-cases (text_eq key k)) [
  | inl same ↦
      unfold failures record_failed_attempt in
      rw (find-put, same, count_of-prune_expired m key now d) (unfold failures in ground arith)
  | inr other ↦
      unfold failures record_failed_attempt in
      rw (find-put, other) (unfold failures in failures-prune_expired m k now t d h)
]

failures-remove :
    (key k : Text) (t : Time) (m : Attempts)
    → failures (remove key m) k t ≡ (if text_eq key k then 0 else failures m k t)
unfolding failures
failures-remove key k t m = ground (arith, find-remove key k m)

module _ (ttl : Duration) (key : Text) (c : Clocks) (nonce : Result Text) (s : State)
    (apart : Distinct s.attempts) where
  -- If the map has each client once: a wrong password is answered with 429 when five failures or more
  -- count at the time of the check. Such a login leaves the sessions alone, and from that time on
  -- the same failures count for every client: none is added and none is renewed.
  pub login-too_many :
      max_failed_login_attempts ≤ failures s.attempts key c.check
      → ((login ttl key false c nonce s).1 ≡ too_many)
        × ((login ttl key false c nonce s).0.sessions ≡ s.sessions)
        × ((k : Text) (t : Time)
            → c.check ≤ t
            → failures (login ttl key false c nonce s).0.attempts k t ≡ failures s.attempts k t)
  login-too_many many =
      let blocked : leb max_failed_login_attempts
            (count_of (find key (prune_expired c.check s.attempts)))
          ≡ true =
        le→leb max_failed_login_attempts _
          (omega (arith, many, count_of-prune_expired s.attempts key c.check apart)) in
      (
        unfold login too_many_failed_attempts in rw blocked refl,
        unfold login too_many_failed_attempts in rw blocked refl,
        λ k t h.
            unfold login too_many_failed_attempts in
            rw blocked (failures-prune_expired s.attempts k c.check t apart h),
      )

  -- If the map has each client once and the clock does not go back: below five failures a wrong
  -- password is answered with 401, and for 15 minutes from then on the client has one failure more
  -- than it had at that time; other clients keep theirs, and the sessions stay.
  pub login-invalid_password :
      failures s.attempts key c.check < max_failed_login_attempts
      → c.check ≤ c.failure
      → ((login ttl key false c nonce s).1 ≡ invalid_password)
        × ((login ttl key false c nonce s).0.sessions ≡ s.sessions)
        × ((k : Text) (t : Time)
            → c.failure ≤ t
            → t - c.failure ≤ failed_login_attempt_window
            → failures (login ttl key false c nonce s).0.attempts k t ≡ (
                if text_eq key k
                then suc (failures s.attempts key c.failure)
                else failures s.attempts k t))
  login-invalid_password few later =
      let open_ : leb max_failed_login_attempts
            (count_of (find key (prune_expired c.check s.attempts)))
          ≡ false =
        lt→leb_false max_failed_login_attempts _
          (omega (arith, few, count_of-prune_expired s.attempts key c.check apart)) in
      let pruned = prune_expired c.check s.attempts in
      (
        unfold login too_many_failed_attempts in rw open_ refl,
        unfold login too_many_failed_attempts in rw open_ refl,
        λ k t h within.
            unfold login too_many_failed_attempts in
            rw open_ (
              failures-record pruned key k c.failure t
                (Distinct-prune_expired s.attempts c.check apart) h within
              ∙ ap₂ (λ m n. if text_eq key k then suc m else n)
                  (failures-prune_expired s.attempts key c.check c.failure apart later)
                  (failures-prune_expired s.attempts k c.check t apart (omega (arith, h, later)))),
      )

  -- If the map has each client once: however many failures count, a login with the right password
  -- leaves its client without failures, and from the check on those of other clients count as before.
  login-right :
      (k : Text) (t : Time)
      → c.check ≤ t
      → failures (login ttl key true c nonce s).0.attempts k t
        ≡ (if text_eq key k then 0 else failures s.attempts k t)
  login-right k t h =
      unfold login too_many_failed_attempts in
      failures-remove key k t (prune_expired c.check s.attempts)
      ∙ ap (λ n. if text_eq key k then 0 else n)
          (failures-prune_expired s.attempts k c.check t apart h)

  -- A map that has each client once still does behind a login, whatever the login decides.
  login-Distinct : (matches : Bool) → Distinct (login ttl key matches c nonce s).0.attempts
  unfolding login too_many_failed_attempts record_failed_attempt
  login-Distinct true =
      Distinct-remove key (prune_expired c.check s.attempts)
        (Distinct-prune_expired s.attempts c.check apart)
  login-Distinct false =
      let d = Distinct-prune_expired s.attempts c.check apart in
      elim (Bool-cases
        (leb max_failed_login_attempts (count_of (find key (prune_expired c.check s.attempts))))) [
          | inl many ↦ rw many d
          | inr few ↦ rw few (
              Distinct-put key _ _
                (Distinct-prune_expired (prune_expired c.check s.attempts) c.failure d))
        ]
