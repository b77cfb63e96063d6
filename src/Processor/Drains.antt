-- ===== src/Processor/Drains.antt =====
-- A run that does not fail settles every row that it lists.
use mathlib.Core.List.{Memᴰ}
use cpa_usage.Base.{
  ℕ, zero, suc, ◌≤◌, ◌≡◌, ◌⊎◌, refl, sym, ap, ◌∙◌, true, false, Option, none, some, List, [], ◌∷◌,
  arith, take, length, All, Bool-cases, inl, inr, subst,
}
use cpa_usage.Result.{Result, ok, err}
use cpa_usage.Text.{Text}
use cpa_usage.Attempt.Types.{UsageEvent}
use cpa_usage.Attempt.Codec.{Platform}
use cpa_usage.Events.{Store, insert_usage_events}
use cpa_usage.Events.Admit.{insert_usage_events-Accepted}
use cpa_usage.Inbox.{
  Row, Table, is_processable, contains_id, mark_processed_batch, list_processable, count_pending,
  count_where,
}
use cpa_usage.Inbox.Order.{processable, list_processable-oldest}
use cpa_usage.Processor.{
  Db, Env, Decoded, process_limit, ids_of, marks_of, events_of, decode_rows, decoded,
  process_decoded, process_rows, listed, process, persisted, marked, join_errors, without_events,
}
use cpa_usage.Processor.Trace.{
  Mirrors, Sound, valid_of, Mirrors-SameMessages, decode_rows-SameMessages, decode_rows-Sound,
}
use cpa_usage.Processor.Insertion.{events-Accepted, events-Plain}
use cpa_usage.Processor.Run.{ConsistentDb, All-map, listed-Mirrors}
use cpa_usage.Processor.Waiting.{
  Waiting, Settled, Settled-Waiting, Handled, decode_rows-Waiting, decode_rows-Handled,
}
use cpa_usage.Processor.Marked.{Marked, batch-Marked, mark_ids-marks_of}

-- No call fails in this run.
pub record Fine (env : Env) : Type 0 where
  pub lists : env.list_fault ≡ none
  pub marks_decode : (i : ℕ) → env.decode_mark_fault i ≡ none
  pub inserts : env.insert_fault ≡ none
  pub marks_processed : env.processed_mark_fault ≡ none

-- The rows that wait behind a run stood in the table before, and none of those listed waits.
pub record Drained (before listed after : List Row) : Type 0 where
  pub waiting : Waiting before after
  pub settled : All (λ (r : Row). Settled after r.id) listed

module _ (p : Platform) {R : Type 0} (quote : Text → Text) (columns : ℕ)
    (increment : List UsageEvent → R → R) (env : Env) (fine : Fine env) where
  -- The rows that are handed on are settled by their marks.
  handled-Drained :
      (rows before : List Row) (t t' : Table) (valid : List (Row × UsageEvent))
      → Waiting before t.rows
      → All (λ (r : Row). Settled t.rows r.id ⊎ (contains_id (ids_of valid) r.id ≡ true)) rows
      → Marked t.rows (marks_of valid) t'.rows
      → Drained before rows t'.rows
  handled-Drained [] before t t' valid w h m = record {
    waiting = λ r n b. w r (m.waiting r n b) b;
    settled = tt;
  }
  handled-Drained (r ∷ rows) before t t' valid w (one, h) m =
      let later = handled-Drained rows before t t' valid w h m in
      record {
        waiting = later.waiting;
        settled = (
          elim one [
            | inl s ↦ Settled-Waiting t.rows t'.rows r.id m.waiting s
            | inr b ↦
                m.settled r.id
                  (subst (λ l. contains_id l r.id ≡ true) (sym (mark_ids-marks_of valid)) b)
          ],
          later.settled,
        );
      }

  marked_inbox :
      (e : Option Text) (n m : ℕ) (r : Table × Option Text) (s : Store R)
      → (marked p quote columns increment e n m r s).0.inbox ≡ r.0
  marked_inbox e n m (t, none) s = refl
  marked_inbox e n m (t, some f) s = refl

  without_inbox :
      (e : Option Text) (db : Db R)
      → (without_events p quote columns increment e db).0.inbox ≡ db.inbox
  without_inbox none db = refl
  without_inbox (some e) db = refl

  process_decoded_inbox :
      (valid : List (Row × UsageEvent)) (errors : List Text) (t : Table) (s : Store R)
      → All (Sound p t) valid
      → (process_decoded p quote columns increment env
          (record { valid = valid; errors = errors })
          (record { inbox = t; store = s })).0.inbox
        ≡ (mark_processed_batch none env.now (marks_of valid) t).0
  unfolding process_decoded
  process_decoded_inbox [] errors t s h =
      without_inbox (join_errors errors) (record { inbox = t; store = s })
      ∙ unfold mark_processed_batch in refl
  process_decoded_inbox (v ∷ vs) errors t s h =
      let d : Decoded = record { valid = v ∷ vs; errors = errors } in
      let es = events_of (v ∷ vs) in
      ap
        (λ f.
          (persisted p quote columns increment env d t
            (insert_usage_events increment quote columns f es s)).0.inbox)
        fine.inserts
      ∙ ap (λ o. (persisted p quote columns increment env d t o).0.inbox)
          (insert_usage_events-Accepted increment quote columns es s
            (events-Accepted p t (v ∷ vs) h) (events-Plain p t (v ∷ vs) h))
      ∙ marked_inbox (join_errors errors) _ _
          (mark_processed_batch env.processed_mark_fault env.now (marks_of (v ∷ vs)) t) _
      ∙ ap (λ f. (mark_processed_batch f env.now (marks_of (v ∷ vs)) t).0) fine.marks_processed

  decoded-Drained :
      (rows before : List Row) (t : Table) (d : Result Decoded) (s : Store R)
      → Waiting before t.rows
      → Handled p env fine.marks_decode rows (t, d)
      → All (Sound p t) (valid_of d)
      → Drained before rows (decoded p quote columns increment env (t, d) s).0.inbox.rows
  decoded-Drained rows before t (err x) s w h sound = elim h [ ]
  decoded-Drained rows before t (ok d) s w h sound =
      subst (λ (t' : Table). Drained before rows t'.rows)
        (sym (process_decoded_inbox d.valid d.errors t s sound))
        (handled-Drained rows before t (mark_processed_batch none env.now (marks_of d.valid) t).0
          d.valid w h (batch-Marked env.now (marks_of d.valid) t))

  rows-Drained :
      (rows : List Row) (db : Db R)
      → All (Mirrors p db.inbox) rows
      → Drained db.inbox.rows rows (process_rows p quote columns increment env rows db).0.inbox.rows
  unfolding process_rows
  rows-Drained rows db mirrors =
      let t = (decode_rows p env rows db.inbox).0 in
      decoded-Drained rows db.inbox.rows t (decode_rows p env rows db.inbox).1 db.store
        (decode_rows-Waiting p env fine.marks_decode rows db.inbox)
        (decode_rows-Handled p env fine.marks_decode rows db.inbox)
        (decode_rows-Sound p env t rows db.inbox (
          All-map
            (λ r m.
              Mirrors-SameMessages p db.inbox t r (decode_rows-SameMessages p env rows db.inbox) m)
            rows mirrors))

  listed-Drained :
      (rows : List Row) (db : Db R)
      → All (Mirrors p db.inbox) rows
      → Drained db.inbox.rows rows (listed p quote columns increment env rows db).0.inbox.rows
  listed-Drained [] db mirrors = record { waiting = λ r m w. m; settled = tt }
  listed-Drained (r ∷ rows) db mirrors = rows-Drained (r ∷ rows) db mirrors

  -- From a consistent database, a run in which no call of the database fails leaves none of the rows
  -- that it listed, the oldest 1000, waiting; a row that still waits stood in the table before.
  pub process-Drained :
      (db : Db R)
      → ConsistentDb p quote columns increment db
      → Drained db.inbox.rows
          (list_processable process_limit db.inbox)
          (process p quote columns increment env db).0.inbox.rows
  unfolding process
  process-Drained db c =
      rw (fine.lists, process)
        (listed-Drained (list_processable process_limit db.inbox) db
          (listed-Mirrors p db.inbox db.store.events c))

take_all : (n : ℕ) (rows : List Row) → length rows ≤ n → take n rows ≡ rows
take_all zero [] h = refl
take_all zero (r ∷ rows) h = elim h [ ]
take_all (suc n) [] h = refl
take_all (suc n) (r ∷ rows) h = ap (◌∷◌ r) (take_all n rows (omega arith))

processable-mem :
    (r : Row) (rows : List Row)
    → Memᴰ r rows
    → is_processable r.status ≡ true
    → Memᴰ r (processable rows)
unfolding processable
processable-mem r [] m w = m
processable-mem r (q ∷ rows) (Memᴰ.head e) w =
    rw (ap (λ (x : Row). is_processable x.status) (sym e) ∙ w) (Memᴰ.head e)
processable-mem r (q ∷ rows) (Memᴰ.tail m) w = elim (Bool-cases (is_processable q.status)) [
  | inl b ↦ rw b (Memᴰ.tail (processable-mem r rows m w))
  | inr b ↦ rw b (processable-mem r rows m w)
]

Settled-of :
    (r : Row) (rows after : List Row)
    → All (λ (q : Row). Settled after q.id) rows
    → Memᴰ r rows
    → Settled after r.id
Settled-of r [] after h m = elim m [ ]
Settled-of r (q ∷ rows) after (s, h) (Memᴰ.head e) =
    subst (λ (x : Row). Settled after x.id) (sym e) s
Settled-of r (q ∷ rows) after (s, h) (Memᴰ.tail m) = Settled-of r rows after h m

count_none :
    (rows : List Row)
    → ((r : Row) → Memᴰ r rows → is_processable r.status ≡ false)
    → count_where (λ r. is_processable r.status) rows ≡ 0
unfolding count_where
count_none [] h = refl
count_none (r ∷ rows) h = rw (h r (Memᴰ.head refl)) (count_none rows (λ q m. h q (Memᴰ.tail m)))

Drained-rest :
    (before listed after : List Row)
    → Drained before listed after
    → listed ≡ processable before
    → (r : Row) → Memᴰ r after
    → is_processable r.status ≡ false
Drained-rest before listed after d e r m = elim (Bool-cases (is_processable r.status)) [
  | inr b ↦ b
  | inl b ↦
      Settled-of r listed after d.settled
        (subst (λ l. Memᴰ r l) (sym e) (processable-mem r before (d.waiting r m b) b)) r m refl
]

-- If at most 1000 rows wait in a consistent database, a run in which no call of the database fails
-- leaves nothing pending.
pub process-count_pending :
    (p : Platform) {R : Type 0} (quote : Text → Text) (columns : ℕ)
    (increment : List UsageEvent → R → R) (env : Env) (db : Db R)
    → Fine env
    → ConsistentDb p quote columns increment db
    → length (processable db.inbox.rows) ≤ process_limit
    → count_pending (process p quote columns increment env db).0.inbox ≡ 0
unfolding count_pending
process-count_pending p quote columns increment env db fine c few = count_none _ (
    Drained-rest db.inbox.rows (list_processable process_limit db.inbox) _
      (process-Drained p quote columns increment env fine db c)
      (list_processable-oldest 999 db.inbox c.ordered
        ∙ take_all process_limit (processable db.inbox.rows) few))
