-- ===== src/Quota/Refresh/Response.antt =====
-- internal/quota/refresh.go: what the answer of `Refresh` says of the request.
use cpa_usage.Base.{ℕ, ◌+◌, ◌≤◌, false, Option, none, some, List, leb, length, ◌≡◌}
use cpa_usage.Text.{Text, is_empty, text_eq}
use cpa_usage.Events.{contains_key}
use cpa_usage.Quota.{TaskStore}
use cpa_usage.Quota.Message.{QuotaError}
use cpa_usage.Quota.Refresh.Seen.{Seen}
use cpa_usage.Quota.Refresh.Names.{names, Unique, Answering, accepted, rejected}
use cpa_usage.Quota.Refresh.{Outcome, done, error, CheckResponse, RefreshResponse, Env, Loop}

module _ (limit : ℕ) {Row : Type 0} (env : Env Row) where
  -- The lists and counters fit the auth indexes that were read, and what was accepted was seen.
  abbrev Sound : List Text → RefreshResponse → List Text → Type 0
  Sound read r seen =
      (length r.tasks ≡ r.accepted)
      × ((r.limit ≡ limit) × (r.accepted ≤ limit))
      × (r.accepted + length r.rejected ≡ length read)
      × Unique r.tasks
      × ((a : Text) → contains_key seen a ≡ false → contains_key (names r.tasks) a ≡ false)
      × Answering env limit r.tasks r.rejected read

  -- What a turn leaves, if it has no error.
  abbrev After : List Text → Loop Row × Option QuotaError → Type 0
  After read (p, some e) = Unit
  After read (p, none) = Sound read p.response p.seen × Seen read p.seen

  -- There is room for an auth index that was not read before and has no task.
  abbrev Fits : List Text → Text → Loop Row → Type 0
  Fits read auth p =
      (leb p.response.limit p.response.accepted ≡ false)
      × (contains_key (names p.response.tasks) auth ≡ false)
      × ((b : Text) → contains_key p.seen b ≡ false → text_eq auth b ≡ false)
      × (is_empty auth ≡ false)
      × (contains_key read auth ≡ false)

module _ {Row : Type 0} (env : Env Row) where
  -- What `Refresh` promises of its answer to a request under a limit.
  abbrev pub Answers : ℕ → List Text → RefreshResponse → Type 0
  Answers limit request r =
      (r.limit ≡ limit)
      × (length r.tasks ≡ r.accepted)
      × (length r.rejected ≡ r.skipped)
      × (r.accepted ≤ limit)
      × (r.accepted + r.skipped ≡ length request)
      × Unique r.tasks
      × Answering env limit r.tasks r.rejected request

  abbrev Answered : ℕ → List Text → TaskStore (CheckResponse Row) × Outcome RefreshResponse → Type 0
  Answered limit request (s, error e) = Unit
  Answered limit request (s, done a) = Answers limit request a
