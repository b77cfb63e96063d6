-- ===== src/Overview/Sums.antt =====
-- internal/repository/usage_overview.go: the counters of a snapshot add up.
use cpa_usage.Base.{
  ℕ, ◌+◌, ◌%◌, ◌^◌, ◌≡◌, refl, sym, ap, ◌∙◌, subst, Bool, true, false, not, Option, none, some,
  List, [], ◌∷◌, if◌then◌else◌, All, weigh, arith, Bool-cases, inl, inr, some_injective,
}
use cpa_usage.Clock.{Time}
use cpa_usage.Text.{Text, text_eq, text_eq_iff}
use cpa_usage.Dict.{Dict, find, put, All-put}
use cpa_usage.Attempt.Types.{UsageEvent}
use cpa_usage.Overview.{
  Bits, ModelSnapshot, ApiSnapshot, StatisticsSnapshot, RequestDetail, add, add_if, no_model,
  no_api, or_zero, event_tokens, event_counted, apply_to_model, apply_to_api,
  apply_usage_event_to_snapshot, empty_snapshot, apply_events, build_usage_snapshot_from_events,
  normalize_usage_overview_dimension,
}

-- The counters that models, APIs and snapshots have.
pub data Counter : Type 0 where
  requests successes failures tokens counted : Counter

abbrev pub model_count : Counter → ModelSnapshot RequestDetail → Bits
model_count requests m = m.total_requests
model_count successes m = m.success_count
model_count failures m = m.failure_count
model_count tokens m = m.total_tokens
model_count counted m = m.canonical_valid_attempts

abbrev pub api_count : Counter → ApiSnapshot RequestDetail → Bits
api_count requests a = a.total_requests
api_count successes a = a.success_count
api_count failures a = a.failure_count
api_count tokens a = a.total_tokens
api_count counted a = a.canonical_valid_attempts

abbrev pub snapshot_count : Counter → StatisticsSnapshot RequestDetail → Bits
snapshot_count requests s = s.total_requests
snapshot_count successes s = s.success_count
snapshot_count failures s = s.failure_count
snapshot_count tokens s = s.total_tokens
snapshot_count counted s = s.canonical_valid_attempts

abbrev one_if : Bool → ℕ
one_if b = if b then 1 else 0

-- What an event adds to a counter.
abbrev pub share : Counter → UsageEvent → ℕ
share requests e = 1
share successes e = one_if (not e.failed)
share failures e = one_if e.failed
share tokens e = event_tokens e
share counted e = one_if (event_counted e)

-- Equal on 64 bits.
infix 40 ◌≈◌
abbrev pub ◌≈◌ : ℕ → ℕ → Type 0
a ≈ b = a % 2 ^ 64 ≡ b % 2 ^ 64

add-sum : (a n : ℕ) → add a n ≈ (a + n)
add-sum a n = omega arith

add_if-sum : (b : Bool) (a : ℕ) → add_if b a ≈ (a + one_if b)
add_if-sum true a = omega arith
add_if-sum false a = omega arith

apply_to_model-count :
    (c : Counter) (i : Bool) (e : UsageEvent) (m : ModelSnapshot RequestDetail)
    → model_count c (apply_to_model i e m) ≈ (model_count c m + share c e)
unfolding apply_to_model
apply_to_model-count requests i e m = add-sum m.total_requests 1
apply_to_model-count successes i e m = add_if-sum (not e.failed) m.success_count
apply_to_model-count failures i e m = add_if-sum e.failed m.failure_count
apply_to_model-count tokens i e m = add-sum m.total_tokens (event_tokens e)
apply_to_model-count counted i e m = add_if-sum (event_counted e) m.canonical_valid_attempts

apply_to_api-count :
    (c : Counter) (i : Bool) (e : UsageEvent) (a : ApiSnapshot RequestDetail)
    → api_count c (apply_to_api i e a) ≈ (api_count c a + share c e)
unfolding apply_to_api
apply_to_api-count requests i e a = add-sum a.total_requests 1
apply_to_api-count successes i e a = add_if-sum (not e.failed) a.success_count
apply_to_api-count failures i e a = add_if-sum e.failed a.failure_count
apply_to_api-count tokens i e a = add-sum a.total_tokens (event_tokens e)
apply_to_api-count counted i e a = add_if-sum (event_counted e) a.canonical_valid_attempts

module _ (day_key hour_key : Time → Text) where
  apply_event-count :
      (c : Counter) (i : Bool) (e : UsageEvent) (s : StatisticsSnapshot RequestDetail)
      → snapshot_count c (apply_usage_event_to_snapshot day_key hour_key i e s)
        ≈ (snapshot_count c s + share c e)
  unfolding apply_usage_event_to_snapshot
  apply_event-count requests i e s = add-sum s.total_requests 1
  apply_event-count successes i e s = add_if-sum (not e.failed) s.success_count
  apply_event-count failures i e s = add_if-sum e.failed s.failure_count
  apply_event-count tokens i e s = add-sum s.total_tokens (event_tokens e)
  apply_event-count counted i e s = add_if-sum (event_counted e) s.canonical_valid_attempts

module _ {V : Type 0} (count : V → ℕ) where
  -- The sum of a count over the values of a map.
  abbrev pub total : Dict V → ℕ
  total = weigh (λ (entry : Text × V). count entry.1)

  abbrev count_at : Option V → ℕ
  count_at none = 0
  count_at (some v) = count v

  total-put :
      (k : Text) (v : V) (m : Dict V) → total (put k v m) + count_at (find k m) ≡ total m + count v
  unfolding put find weigh
  total-put k v [] = omega arith
  total-put k v ((j, w) ∷ m) = elim (Bool-cases (text_eq j k)) [
    | inl same ↦ rw same (omega arith)
    | inr other ↦ rw other (omega (arith, total-put k v m))
  ]

-- The counter of an API is the sum over its models.
abbrev pub ModelsAdd : Counter → Text × ApiSnapshot RequestDetail → Type 0
ModelsAdd c (key, a) = api_count c a ≈ total (model_count c) a.models

-- One value of a map replaced by another that has so much more.
replaced :
    (whole parts parts' old new_ more whole' : ℕ)
    → whole ≈ parts
    → parts' + old ≡ parts + new_
    → new_ ≈ (old + more)
    → whole' ≈ (whole + more)
    → whole' ≈ parts'
replaced whole parts parts' old new_ more whole' h put_ grown added =
    omega (arith, h, put_, grown, added)

or_zero-count :
    (c : Counter) (o : Option (ModelSnapshot RequestDetail))
    → model_count c (or_zero no_model o) ≡ count_at (model_count c) o
or_zero-count requests none = refl
or_zero-count successes none = refl
or_zero-count failures none = refl
or_zero-count tokens none = refl
or_zero-count counted none = refl
or_zero-count c (some m) = refl

or_zero-api_count :
    (c : Counter) (o : Option (ApiSnapshot RequestDetail))
    → api_count c (or_zero no_api o) ≡ count_at (api_count c) o
or_zero-api_count requests none = refl
or_zero-api_count successes none = refl
or_zero-api_count failures none = refl
or_zero-api_count tokens none = refl
or_zero-api_count counted none = refl
or_zero-api_count c (some a) = refl

apply_to_api-ModelsAdd :
    (c : Counter) (i : Bool) (e : UsageEvent) (key : Text) (a : ApiSnapshot RequestDetail)
    → ModelsAdd c (key, a)
    → ModelsAdd c (key, apply_to_api i e a)
apply_to_api-ModelsAdd c i e key a h =
    let name = normalize_usage_overview_dimension e.model in
    let old = or_zero no_model (find name a.models) in
    unfold apply_to_api in
    replaced (api_count c a) (total (model_count c) a.models) _
      (count_at (model_count c) (find name a.models)) (model_count c (apply_to_model i e old))
      (share c e) _ h (total-put (model_count c) name (apply_to_model i e old) a.models)
      (subst (λ x. model_count c (apply_to_model i e old) ≈ (x + share c e))
        (or_zero-count c (find name a.models)) (apply_to_model-count c i e old))
      (apply_to_api-count c i e a)

All-find :
    {V : Type 0} (P : Text × V → Type 0) (k : Text) (v : V) (m : Dict V)
    → All P m
    → find k m ≡ some v
    → P (k, v)
unfolding find
All-find P k v [] h e = cc
All-find P k v ((j, w) ∷ m) (h, hs) e = elim (Bool-cases (text_eq j k)) [
  | inl same ↦
      let found = some_injective (sym (ap (λ b. if b then some w else find k m) same) ∙ e) in
      subst (λ x. P (k, x)) found (subst (λ x. P (x, w)) ((text_eq_iff j k).0 same) h)
  | inr other ↦ All-find P k v m hs (sym (ap (λ b. if b then some w else find k m) other) ∙ e)
]

no_api-ModelsAdd : (c : Counter) (key : Text) → ModelsAdd c (key, no_api)
unfolding weigh
no_api-ModelsAdd requests key = refl
no_api-ModelsAdd successes key = refl
no_api-ModelsAdd failures key = refl
no_api-ModelsAdd tokens key = refl
no_api-ModelsAdd counted key = refl

or_zero-ModelsAdd :
    (c : Counter) (key : Text) (apis : Dict (ApiSnapshot RequestDetail))
    (o : Option (ApiSnapshot RequestDetail))
    → find key apis ≡ o
    → All (ModelsAdd c) apis
    → ModelsAdd c (key, or_zero no_api o)
or_zero-ModelsAdd c key apis none e h = no_api-ModelsAdd c key
or_zero-ModelsAdd c key apis (some a) e h = All-find (ModelsAdd c) key a apis h e

-- A counter of everything is the sum over the APIs, and that of each API the sum over its models.
abbrev pub AddsUp : Counter → StatisticsSnapshot RequestDetail → Type 0
AddsUp c s = (snapshot_count c s ≈ total (api_count c) s.apis) × All (ModelsAdd c) s.apis

module _ (day_key hour_key : Time → Text) where
  apply_event-AddsUp :
      (c : Counter) (i : Bool) (e : UsageEvent) (s : StatisticsSnapshot RequestDetail)
      → AddsUp c s
      → AddsUp c (apply_usage_event_to_snapshot day_key hour_key i e s)
  apply_event-AddsUp c i e s (h, hs) =
      let key = normalize_usage_overview_dimension e.api_group_key in
      let old = or_zero no_api (find key s.apis) in
      let grown = apply_event-count day_key hour_key c i e s in
      unfold apply_usage_event_to_snapshot in
      (
        replaced (snapshot_count c s) (total (api_count c) s.apis) _
            (count_at (api_count c) (find key s.apis)) (api_count c (apply_to_api i e old))
            (share c e) _ h (total-put (api_count c) key (apply_to_api i e old) s.apis)
            (subst (λ x. api_count c (apply_to_api i e old) ≈ (x + share c e))
              (or_zero-api_count c (find key s.apis)) (apply_to_api-count c i e old))
            grown,
        All-put (ModelsAdd c) key (apply_to_api i e old) s.apis
            (apply_to_api-ModelsAdd c i e key old
              (or_zero-ModelsAdd c key s.apis (find key s.apis) refl hs))
            hs,
      )

  apply_events-AddsUp :
      (c : Counter) (es : List UsageEvent) (s : StatisticsSnapshot RequestDetail)
      → AddsUp c s
      → (snapshot_count c (apply_events day_key hour_key es s)
          ≈ (snapshot_count c s + weigh (share c) es))
        × AddsUp c (apply_events day_key hour_key es s)
  unfolding weigh
  apply_events-AddsUp c [] s h = (omega arith, h)
  apply_events-AddsUp c (e ∷ es) s h =
      let next = apply_usage_event_to_snapshot day_key hour_key true e s in
      let (sum, adds) = apply_events-AddsUp c es next (apply_event-AddsUp c true e s h) in
      let grown = apply_event-count day_key hour_key c true e s in (omega (arith, sum, grown), adds)

  empty_snapshot-count : (c : Counter) → snapshot_count c (empty_snapshot day_key hour_key) ≡ 0
  empty_snapshot-count requests = refl
  empty_snapshot-count successes = refl
  empty_snapshot-count failures = refl
  empty_snapshot-count tokens = refl
  empty_snapshot-count counted = refl

  empty_snapshot-AddsUp : (c : Counter) → AddsUp c (empty_snapshot day_key hour_key)
  unfolding weigh
  empty_snapshot-AddsUp c = (ap (λ n. n % 2 ^ 64) (empty_snapshot-count c), tt)

  -- In the snapshot over any events each of the five counters (requests, successes, failures, tokens and
  -- attempts with valid accounting) is on 64 bits what the events add to it, the sum over the APIs, and in
  -- each API the sum over its models.
  pub build_usage_snapshot_from_events-AddsUp :
      (c : Counter) (es : List UsageEvent)
      → (snapshot_count c (build_usage_snapshot_from_events day_key hour_key es)
          ≈ weigh (share c) es)
        × AddsUp c (build_usage_snapshot_from_events day_key hour_key es)
  unfolding build_usage_snapshot_from_events
  build_usage_snapshot_from_events-AddsUp c es =
      let (sum, adds) =
        apply_events-AddsUp c es (empty_snapshot day_key hour_key) (empty_snapshot-AddsUp c) in
      let zero_first = empty_snapshot-count c in (omega (arith, sum, zero_first), adds)
