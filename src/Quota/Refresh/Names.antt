-- ===== src/Quota/Refresh/Names.antt =====
-- internal/quota/refresh.go: the auth indexes in the lists of an answer of `Refresh`.
use cpa_usage.Base.{ℕ, ◌≤◌, ◌<◌, true, length, false, ◌||◌, List, [], ◌∷◌, ◌++◌, ◌≡◌, refl, arith}
use cpa_usage.Text.{codes, Text, is_empty, text_eq, text_eq_iff}
use cpa_usage.Events.{contains_key}
use cpa_usage.Quota.{TaskStore}
use cpa_usage.Quota.Refresh.{
  CheckResponse, start_refresh_task, done, Env, Turn, validate_refresh_auth_index,
}
use cpa_usage.Text.Trim.{trim_space}

-- The auth indexes of tasks, or of rejections.
abbrev pub names : List (Text × Text) → List Text
names [] = []
names ((auth, id) ∷ ts) = auth ∷ names ts

-- No auth index stands twice.
abbrev pub Unique : List (Text × Text) → Type 0
Unique [] = Unit
Unique ((auth, id) ∷ ts) = (contains_key (names ts) auth ≡ false) × Unique ts

pub contains_key-names :
    (ts : List (Text × Text)) (auth id b : Text)
    → contains_key (names (ts ++ (auth, id) ∷ [])) b ≡ (contains_key (names ts) b || text_eq auth b)
unfolding contains_key
contains_key-names [] auth id b = ground arith
contains_key-names ((a, i) ∷ ts) auth id b = ground (arith, contains_key-names ts auth id b)

pub Unique-append :
    (ts : List (Text × Text)) (auth id : Text)
    → Unique ts
    → contains_key (names ts) auth ≡ false
    → Unique (ts ++ (auth, id) ∷ [])
unfolding contains_key
Unique-append [] auth id u fresh = (refl, tt)
Unique-append ((a, i) ∷ ts) auth id (h, u) fresh = (
  ground (arith, contains_key-names ts auth id a, text_eq_iff a auth, text_eq_iff auth a),
  Unique-append ts auth id u (ground arith),
)

module _ {Row : Type 0} (env : Env Row) (limit : ℕ) where
  -- There is a name, and the identity may be refreshed.
  abbrev pub Admissible : Text → Type 0
  Admissible auth = (is_empty auth ≡ false) × (validate_refresh_auth_index env auth ≡ done [])

  -- Why an auth index is rejected, behind those that were read and a number of accepted ones: it is empty,
  -- or was read before, or no more are accepted; or its check rejects it, or its task is not started.
  pub data Cause : List Text → ℕ → Text → Text → Type 0 where
    blank :
        {read : List Text} {n : ℕ} (auth : Text)
        → is_empty auth ≡ true
        → Cause read n auth (codes "invalid")
    again :
        {read : List Text} {n : ℕ} (auth : Text)
        → contains_key read auth ≡ true
        → Cause read n auth (codes "duplicate")
    over :
        {read : List Text} {n : ℕ} (auth : Text) → limit ≤ n → Cause read n auth (codes "invalid")
    refused :
        {read : List Text} {n : ℕ} (auth : Text) (c : ℕ) (why : Text)
        → validate_refresh_auth_index env auth ≡ done (c ∷ why)
        → Cause read n auth (c ∷ why)
    unstarted :
        {read : List Text} {n : ℕ} (auth : Text) (t : Turn Row)
        (s s' : TaskStore (CheckResponse Row)) (id : Text) (c : ℕ) (why : Text)
        → Admissible auth
        → start_refresh_task env t auth s ≡ (s', id, c ∷ why)
        → Cause read n auth (c ∷ why)

  -- The tasks and the rejections that an answer has, behind the auth indexes that were read: each was
  -- accepted or rejected in its turn.
  pub data Answering : List (Text × Text) → List (Text × Text) → List Text → Type 0 where
    none_read : Answering [] [] []
    accepted :
        {ts rs : List (Text × Text)} {read : List Text} (auth id : Text)
        → Admissible auth
        → contains_key read auth ≡ false
        → length ts < limit
        → Answering ts rs read
        → Answering (ts ++ (auth, id) ∷ []) rs (read ++ auth ∷ [])
    rejected :
        {ts rs : List (Text × Text)} {read : List Text} (auth why : Text)
        → Cause read (length ts) auth why
        → Answering ts rs read
        → Answering ts (rs ++ (auth, why) ∷ []) (read ++ auth ∷ [])

-- The auth indexes of a request, trimmed.
abbrev pub requested : {Row : Type 0} → List (Turn Row) → List Text
requested [] = []
requested (t ∷ ts) = trim_space t.raw_auth_index ∷ requested ts
