-- ===== src/History/Once.antt =====
-- Each row that is processed has exactly one event, in every database that the steps lead to.
use mathlib.Core.List.{Memᴰ}
use cpa_usage.Base.{
  ℕ, suc, ◌<◌, ◌≡◌, refl, Bool, true, false, Option, none, some, List, [], ◌∷◌, arith,
  if◌then◌else◌, Bool-cases, inl, inr,
}
use cpa_usage.Clock.{Time}
use cpa_usage.Text.{Text, text_eq, text_eq_iff}
use cpa_usage.Attempt.Types.{UsageEvent}
use cpa_usage.Attempt.Codec.{Platform}
use cpa_usage.Events.{contains_key, event_keys}
use cpa_usage.Events.Keys.{KeysApart}
use cpa_usage.Inbox.{Row, Table, processed, delete_where}
use cpa_usage.Inbox.Order.{delete_where-Ascending}
use cpa_usage.Inbox.Retention.{cleanup, cleanup_failed, expired_processed, expired_failed}
use cpa_usage.Processor.{Db, attempt_event_key}
use cpa_usage.Processor.Consistent.{Consistent, FromRow}
use cpa_usage.Processor.Run.{ConsistentDb, process-Consistent}
use cpa_usage.Intake.Keeps.{pull-Consistent}
use cpa_usage.History.{Reachable, start, pulls, runs, cleans}

mem-delete_where :
    (test : Row → Bool) (r : Row) (rows : List Row) → Memᴰ r (delete_where test rows) → Memᴰ r rows
unfolding delete_where
mem-delete_where test r [] m = m
mem-delete_where test r (q ∷ rows) m =
    mem-if (test q) r q (delete_where test rows) rows (mem-delete_where test r rows) m
  where
    mem-if :
        (b : Bool) (r q : Row) (left rows : List Row)
        → (Memᴰ r left → Memᴰ r rows)
        → Memᴰ r (if b then left else q ∷ left)
        → Memᴰ r (q ∷ rows)
    mem-if true r q left rows f m = Memᴰ.tail (f m)
    mem-if false r q left rows f (Memᴰ.head h) = Memᴰ.head h
    mem-if false r q left rows f (Memᴰ.tail m) = Memᴰ.tail (f m)

module _ (p : Platform) (events : List UsageEvent) where
  delete_where-Consistent :
      (test : Row → Bool) (t : Table)
      → Consistent p t events
      → Consistent p (record t { rows = delete_where test t.rows }) events
  delete_where-Consistent test t c = record {
    ordered = delete_where-Ascending test t.rows c.ordered;
    below = λ r m. c.below r (mem-delete_where test r t.rows m);
    row_ok = λ r m. c.row_ok r (mem-delete_where test r t.rows m);
    apart = c.apart;
    unused = c.unused;
  }

  -- Whichever of its statements fail, a cleanup keeps the inbox consistent with the events.
  cleanup-Consistent :
      (local_day_start : Time → Time) (first second : Option Text) (now : Time) (t : Table)
      → Consistent p t events
      → Consistent p (cleanup local_day_start first second now t).0 events
  unfolding cleanup cleanup_failed
  cleanup-Consistent local_day_start (some e) second now t c = c
  cleanup-Consistent local_day_start none (some e) now t c =
      delete_where-Consistent (expired_processed (local_day_start now)) t c
  cleanup-Consistent local_day_start none none now t c =
      delete_where-Consistent (expired_failed _) _
        (delete_where-Consistent (expired_processed (local_day_start now)) t c)

-- How many events have a key.
pub count_key : List UsageEvent → Text → ℕ
count_key [] k = 0
count_key (e ∷ es) k = let rest = count_key es k in if text_eq e.event_key k then suc rest else rest

count_key_none :
    (events : List UsageEvent) (k : Text)
    → contains_key (event_keys events) k ≡ false
    → count_key events k ≡ 0
unfolding count_key contains_key
count_key_none [] k h = refl
count_key_none (e ∷ es) k h = ground (arith, count_key_none es k)

count_key_once :
    (events : List UsageEvent) (k : Text)
    → KeysApart events
    → contains_key (event_keys events) k ≡ true
    → count_key events k ≡ 1
unfolding count_key contains_key
count_key_once [] k a h = ground arith
count_key_once (e ∷ es) k (new, a) h =
    ground (arith, text_eq_iff e.event_key k, count_key_once es k a, count_key_none es k)

-- The event of a key that is there.
find_event :
    (events : List UsageEvent) (k : Text)
    → contains_key (event_keys events) k ≡ true
    → (e : UsageEvent) × Memᴰ e events × (e.event_key ≡ k)
unfolding contains_key
find_event [] k h = absurd (cc)
find_event (e ∷ es) k h = elim (Bool-cases (text_eq e.event_key k)) [
  | inl b ↦ (e, Memᴰ.head refl, (text_eq_iff e.event_key k).0 b)
  | inr b ↦ let (x, m, eq) = find_event es k (ground arith) in (x, Memᴰ.tail m, eq)
]

module _ (p : Platform) (next_id : ℕ → ℕ) (local_day_start : Time → Time) {R : Type 0}
    (quote : Text → Text) (columns : ℕ) (increment : List UsageEvent → R → R)
    (increases : (n : ℕ) → n < next_id n) where
  -- If the ids that the inbox gives out increase, the invariant holds after every sequence of pulls,
  -- runs and cleanups, whichever of their statements fail.
  pub Reachable-Consistent :
      (db : Db R)
      → Reachable p next_id local_day_start quote columns increment db
      → ConsistentDb p quote columns increment db
  unfolding contains_key
  Reachable-Consistent db (start rollups) = record {
    ordered = tt;
    below = λ r m. elim m [ ];
    row_ok = λ r m. elim m [ ];
    apart = tt;
    unused = λ n lt. refl;
  }
  Reachable-Consistent db (pulls queue_key fault db_now now answer before h) =
      pull-Consistent p next_id increases before.store.events queue_key fault db_now now answer
        before.inbox (Reachable-Consistent before h)
  Reachable-Consistent db (runs env before h) =
      process-Consistent p quote columns increment env before (Reachable-Consistent before h)
  Reachable-Consistent db (cleans first second now before h) =
      cleanup-Consistent p before.store.events local_day_start first second now before.inbox
        (Reachable-Consistent before h)

  -- After any sequence of pulls, runs and cleanups, whichever of their statements fail: a row that is
  -- marked as processed has exactly one event, which is what the row's message decodes to, under the
  -- row's own key and counted as valid. It needs that the ids of the inbox increase.
  pub processed_once :
      (db : Db R) (r : Row)
      → Reachable p next_id local_day_start quote columns increment db
      → Memᴰ r db.inbox.rows
      → r.status ≡ processed
      → (count_key db.store.events (attempt_event_key r.id) ≡ 1)
        × ((e : UsageEvent) × Memᴰ e db.store.events
            × (e.event_key ≡ attempt_event_key r.id)
            × FromRow p r e)
  processed_once db r h m done =
      let c = Reachable-Consistent db h in
      let ok_r = c.row_ok r m in
      let (key, there) = ok_r.done done in
      let (e, stored, same) = find_event db.store.events (attempt_event_key r.id) there in
      (
        count_key_once db.store.events (attempt_event_key r.id) c.apart there,
        (e, stored, same, ok_r.from_row e stored same),
      )
