-- ===== src/Processor/Run.antt =====
-- A whole run keeps the invariant, whichever of its statements fail.
use mathlib.Core.List.{Memᴰ}
use cpa_usage.Base.{
  ℕ, refl, sym, ap, ◌∙◌, Option, none, some, List, [], ◌∷◌, arith, All, length, Option-cases, inl,
  inr, subst,
}
use cpa_usage.Result.{Result, ok, err}
use cpa_usage.Text.{Text}
use cpa_usage.Attempt.Types.{UsageEvent}
use cpa_usage.Attempt.Codec.{Platform}
use cpa_usage.Events.{Store, insert_usage_events}
use cpa_usage.Events.Admit.{insertion, insert_usage_events-Accepted, insert_usage_events-fault}
use cpa_usage.Inbox.{Row, Table, list_processable, mark_processed_batch}
use cpa_usage.Inbox.Order.{processable, list_processable-oldest}
use cpa_usage.Inbox.Updates.{Ascending-unique, mem-take, mem-processable}
use cpa_usage.Processor.{
  Db, Env, Decoded, process_limit, decode_row, decode_rows, events_of, ids_of, marks_of,
  join_errors, keep_for_retry, marked, persisted, without_events, process_decoded, decoded,
  process_rows, listed, process,
}
use cpa_usage.Processor.Trace.{
  Mirrors, Sound, valid_of, Mirrors-SameMessages, decode_rows-SameMessages, decode_rows-Sound,
}
use cpa_usage.Processor.Consistent.{Consistent, decode_rows-Consistent}
use cpa_usage.Processor.Marks.{
  mark_processed_batch-Consistent, mark_process_failed_batch-Consistent,
}
use cpa_usage.Processor.Insertion.{
  with_new, contains-with_new, events-Accepted, events-Plain, marks-GoodMark, insert-Consistent,
}

All-of_mem : (P : Row → Type 0) (rows : List Row) → ((r : Row) → Memᴰ r rows → P r) → All P rows
All-of_mem P [] h = tt
All-of_mem P (r ∷ rows) h = (h r (Memᴰ.head refl), All-of_mem P rows (λ q m. h q (Memᴰ.tail m)))

pub All-map :
    {P Q : Row → Type 0} → ((r : Row) → P r → Q r) → (rows : List Row) → All P rows → All Q rows
All-map f [] h = tt
All-map f (r ∷ rows) (x, h) = (f r x, All-map f rows h)

module _ (p : Platform) where
  -- A row of the table tells what the rows of its id decode to.
  row-Mirrors :
      (t : Table) (events : List UsageEvent) (r : Row)
      → Consistent p t events
      → Memᴰ r t.rows
      → Mirrors p t r
  row-Mirrors t events r c m = record {
    below = c.below r m;
    same = λ q n e. ap (decode_row p) (Ascending-unique q r t.rows c.ordered n m e);
  }

  pub listed-Mirrors :
      (t : Table) (events : List UsageEvent)
      → Consistent p t events
      → All (Mirrors p t) (list_processable process_limit t)
  listed-Mirrors t events c = All-of_mem (Mirrors p t) _ (λ r m.
      row-Mirrors t events r c
        (mem-processable r t.rows (
          mem-take process_limit r (processable t.rows)
            (subst (λ rs. Memᴰ r rs) (list_processable-oldest 999 t c.ordered) m))).0)

  module _ {R : Type 0} (quote : Text → Text) (columns : ℕ)
      (increment : List UsageEvent → R → R) where
    -- The invariant, of the inbox and the events table of a database.
    abbrev pub ConsistentDb : Db R → Type 0
    ConsistentDb db = Consistent p db.inbox db.store.events

    marked-Consistent :
        (e : Option Text) (n m : ℕ) (r : Table × Option Text) (s : Store R)
        → Consistent p r.0 s.events
        → ConsistentDb (marked p quote columns increment e n m r s).0
    marked-Consistent e n m (t, some f) s c = c
    marked-Consistent e n m (t, none) s c = c

    retry-Consistent :
        (env : Env) (e : Text) (valid : List (Row × UsageEvent)) (db : Db R)
        → ConsistentDb db
        → ConsistentDb (keep_for_retry p quote columns increment env e valid db).0
    unfolding keep_for_retry
    retry-Consistent env e valid db c =
        mark_process_failed_batch-Consistent p db.store.events env.failed_mark_fault env.db_now
          (ids_of valid) (some e) db.inbox c

    stored-Consistent :
        (env : Env) (d : Decoded) (t : Table) (s : Store R)
        → All (Sound p t) d.valid
        → Consistent p t s.events
        → ConsistentDb
            (persisted p quote columns increment env d t
              (insertion increment (length (events_of d.valid)) (events_of d.valid) s)).0
    stored-Consistent env d t s h c =
        marked-Consistent (join_errors d.errors) _ _
          (mark_processed_batch env.processed_mark_fault env.now (marks_of d.valid) t) _
          (mark_processed_batch-Consistent p (with_new p t d.valid s.events)
            env.processed_mark_fault env.now (marks_of d.valid) t
            (marks-GoodMark p t d.valid (with_new p t d.valid s.events) h
              (λ k b. contains-with_new p t d.valid s.events k ∙ ground (arith, b)))
            (insert-Consistent p t d.valid s.events h c))

    persisted-Consistent :
        (env : Env) (fault : Option Text) (v : Row × UsageEvent) (vs : List (Row × UsageEvent))
        (errors : List Text) (t : Table) (s : Store R)
        → All (Sound p t) (v ∷ vs)
        → Consistent p t s.events
        → ConsistentDb
            (persisted p quote columns increment env
              (record { valid = v ∷ vs; errors = errors })
              t
              (insert_usage_events increment quote columns fault (events_of (v ∷ vs)) s)).0
    persisted-Consistent env (some m) (r, e) vs errors t s h c =
        subst
          (λ o.
            ConsistentDb
              (persisted p quote columns increment env
                (record { valid = (r, e) ∷ vs; errors = errors }) t o).0)
          (sym (
            insert_usage_events-fault increment quote columns m e (events_of vs) s
              (events-Accepted p t ((r, e) ∷ vs) h)))
          (retry-Consistent env _ ((r, e) ∷ vs) (record { inbox = t; store = s }) c)
    persisted-Consistent env none (r, e) vs errors t s h c =
        subst
          (λ o.
            ConsistentDb
              (persisted p quote columns increment env
                (record { valid = (r, e) ∷ vs; errors = errors }) t o).0)
          (sym (
            insert_usage_events-Accepted increment quote columns (events_of ((r, e) ∷ vs)) s
              (events-Accepted p t ((r, e) ∷ vs) h) (events-Plain p t ((r, e) ∷ vs) h)))
          (stored-Consistent env (record { valid = (r, e) ∷ vs; errors = errors }) t s h c)

    without-Consistent :
        (e : Option Text) (db : Db R)
        → ConsistentDb db
        → ConsistentDb (without_events p quote columns increment e db).0
    without-Consistent none db c = c
    without-Consistent (some m) db c = c

    process_decoded-Consistent :
        (env : Env) (valid : List (Row × UsageEvent)) (errors : List Text) (t : Table) (s : Store R)
        → All (Sound p t) valid
        → Consistent p t s.events
        → ConsistentDb
            (process_decoded p quote columns increment env
              (record { valid = valid; errors = errors })
              (record { inbox = t; store = s })).0
    unfolding process_decoded
    process_decoded-Consistent env [] errors t s h c =
        without-Consistent (join_errors errors) (record { inbox = t; store = s }) c
    process_decoded-Consistent env (v ∷ vs) errors t s h c =
        persisted-Consistent env env.insert_fault v vs errors t s h c

    decoded-Consistent :
        (env : Env) (t : Table) (d : Result Decoded) (s : Store R)
        → All (Sound p t) (valid_of d)
        → Consistent p t s.events
        → ConsistentDb (decoded p quote columns increment env (t, d) s).0
    decoded-Consistent env t (err m) s h c = c
    decoded-Consistent env t (ok d) s h c = process_decoded-Consistent env d.valid d.errors t s h c

    rows-Consistent :
        (env : Env) (rows : List Row) (db : Db R)
        → All (Mirrors p db.inbox) rows
        → ConsistentDb db
        → ConsistentDb (process_rows p quote columns increment env rows db).0
    unfolding process_rows
    rows-Consistent env rows db mirrors c =
        let t = (decode_rows p env rows db.inbox).0 in
        decoded-Consistent env t (decode_rows p env rows db.inbox).1 db.store
          (decode_rows-Sound p env t rows db.inbox (
            All-map
              (λ r m.
                Mirrors-SameMessages p db.inbox t r (decode_rows-SameMessages p env rows db.inbox)
                  m)
              rows mirrors))
          (decode_rows-Consistent p db.store.events env rows db.inbox c)

    listed-Consistent :
        (env : Env) (rows : List Row) (db : Db R)
        → All (Mirrors p db.inbox) rows
        → ConsistentDb db
        → ConsistentDb (listed p quote columns increment env rows db).0
    listed-Consistent env [] db mirrors c = c
    listed-Consistent env (r ∷ rows) db mirrors c = rows-Consistent env (r ∷ rows) db mirrors c

    -- Whatever the clocks say, and whichever statements and transactions fail: a run keeps the
    -- inbox and the events consistent. Each processed row names its event key, and an event of that
    -- key is stored; each event of a row is what the row's message decodes to, stored once and as
    -- valid; rows that may be tried again have failed less than five times, discarded ones at least
    -- five; no event has the key of a row that is still to come.
    pub process-Consistent :
        (env : Env) (db : Db R)
        → ConsistentDb db
        → ConsistentDb (process p quote columns increment env db).0
    unfolding process
    process-Consistent env db c = elim (Option-cases env.list_fault) [
      | inl e ↦
          rw (e, process) (listed-Consistent env _ db (listed-Mirrors db.inbox db.store.events c) c)
      | inr (m, e) ↦ rw (e, process) c
    ]
