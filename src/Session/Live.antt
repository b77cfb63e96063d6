-- ===== src/Session/Live.antt =====
-- Which tokens are live at which time, and how the operations change that.
use cpa_usage.Base.{
  ◌≤◌, ◌+◌, ◌≡◌, ◌∙◌, refl, sym, Bool, false, not, ◌&&◌, Option, none, some, [], ◌∷◌, arith,
  if◌then◌else◌, Option-cases, Bool-cases, inl, inr,
}
use cpa_usage.Clock.{Time, Duration, after}
use cpa_usage.Result.{ok}
use cpa_usage.Text.{Text, text_eq, text_eq_iff, is_empty}
use cpa_usage.Dict.{
  find, put, Distinct, kept, find-put, find-remove, find-delete_if, Distinct-put,
  Distinct-delete_if,
}
use cpa_usage.Session.{Sessions, cleanup_expired, create, delete, validate}

abbrev is_live : Option Time → Time → Bool
is_live none t = false
is_live (some expires_at) t = after expires_at t

-- The token is known and has not expired at this time.
unfoldable pub live : Sessions → Text → Time → Bool
live s token t = is_live (find token s) t

kept_live :
    (o : Option Time) (k : Text) (now t : Time)
    → now ≤ t
    → is_live (kept (λ token expires_at. not (after expires_at now)) k o) t ≡ is_live o t
kept_live none k now t h = refl
kept_live (some e) k now t h = ground arith

-- A cleanup changes nothing that is live from its time on.
cleanup_expired-live :
    (s : Sessions) (now : Time) (k : Text) (t : Time)
    → Distinct s
    → now ≤ t
    → live (cleanup_expired now s) k t ≡ live s k t
unfolding live cleanup_expired
cleanup_expired-live s now k t d h =
    rw (find-delete_if (λ token expires_at. not (after expires_at now)) k s d)
      (kept_live (find k s) k now t h)

-- In a map that has each token once, a session is created: from the cleanup on its token is live until
-- the time to live has passed since the expiry time was computed, every other token is live when it
-- was, and the map still has each token once.
create-live :
    (ttl : Duration) (nonce : Text) (now later : Time) (s : Sessions)
    → Distinct s
    → ((k : Text) (t : Time)
        → later ≤ t
        → live (create ttl (ok nonce) now later s).0 k t
          ≡ (if text_eq nonce k then after (now + ttl) t else live s k t))
      × Distinct (create ttl (ok nonce) now later s).0
unfolding create
create-live ttl nonce now later s d = (
  λ k t h. put_live k t (cleanup_expired-live s later k t d h),
  Distinct-put nonce (now + ttl) _
      (unfold cleanup_expired in Distinct-delete_if (λ token e. not (after e later)) s d),
)
  where
    put_live :
        (k : Text) (t : Time)
        → live (cleanup_expired later s) k t ≡ live s k t
        → live (put nonce (now + ttl) (cleanup_expired later s)) k t
          ≡ (if text_eq nonce k then after (now + ttl) t else live s k t)
    put_live k t h =
        unfold live in ground (arith, find-put nonce k (now + ttl) (cleanup_expired later s))

-- A deleted token that is not empty is live at no time; every other token is live when it was.
delete-live :
    (token : Text) (s : Sessions) (k : Text) (t : Time)
    → is_empty token ≡ false
    → live (delete token s) k t ≡ (if text_eq token k then false else live s k t)
unfolding live delete
delete-live token s k t h = ground (arith, find-remove token k s)

expired_gone :
    (token : Text) (at now : Time) (s : Sessions) (k : Text) (t : Time)
    → is_empty token ≡ false
    → find token s ≡ some at
    → after at now ≡ false
    → now ≤ t
    → live (delete token s) k t ≡ live s k t
expired_gone token at now s k t there e old h = elim (Bool-cases (text_eq token k)) [
  | inr other ↦ delete-live token s k t there ∙ rw other refl
  | inl same ↦
      delete-live token s k t there
      ∙ rw same (unfold live in rw (sym ((text_eq_iff token k).0 same), e) (ground arith))
]

-- A validation accepts exactly the tokens that are live, but never the empty one, and changes
-- nothing that is live from its time on.
pub validate-live :
    (token : Text) (now : Time) (s : Sessions)
    → ((validate token now s).1 ≡ (not (is_empty token) && live s token now))
      × ((k : Text) (t : Time) → now ≤ t → live (validate token now s).0 k t ≡ live s k t)
unfolding validate live
validate-live [] now s = (refl, λ k t h. refl)
validate-live (c ∷ token) now s = elim (Option-cases (find (c ∷ token) s)) [
  | inl e ↦ (rw e refl, λ k t h. rw e refl)
  | inr (at, e) ↦ elim (Bool-cases (after at now)) [
    | inl b ↦ (rw (e, b) refl, λ k t h. rw (e, b) refl)
    | inr b ↦
        (rw (e, b) refl, λ k t h. rw (e, b) (expired_gone (c ∷ token) at now s k t refl e b h))
  ]
]
