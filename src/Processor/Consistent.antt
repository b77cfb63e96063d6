-- ===== src/Processor/Consistent.antt =====
-- The invariant that ties the inbox to the events: each processed row has its event, each event of a
-- row is what the row's message decodes to. Every statement of a run keeps it.
use mathlib.Core.List.{Memᴰ}
use cpa_usage.Base.{
  ℕ, ◌≤◌, ◌<◌, ◌≡◌, refl, sym, Bool, true, false, Option, none, some, List, arith, ◌==◌, Bool-cases,
  inl, inr, subst,
}
use cpa_usage.Clock.{Time}
use cpa_usage.Result.{ok}
use cpa_usage.Text.{Text}
use cpa_usage.Accounting.{accounting_valid}
use cpa_usage.Attempt.Types.{UsageEvent}
use cpa_usage.Attempt.Codec.{Platform}
use cpa_usage.Events.{contains_key, event_keys, with_state}
use cpa_usage.Events.Keys.{KeysApart}
use cpa_usage.Inbox.{
  Row, Table, processed, discarded, max_process_attempts, is_processable, set_decode_failed,
  set_process_failed, update_where, mark_decode_failed,
}
use cpa_usage.Inbox.Order.{Ascending}
use cpa_usage.Inbox.Updates.{update_where-From, update_where-Ascending}
use cpa_usage.Processor.{Env, attempt_event_key, keyed, decode_row, decode_rows}
use cpa_usage.Processor.Trace.{decode_rows_keeps}

-- The row `i` has its event.
abbrev pub HasEvent : List UsageEvent → ℕ → Type 0
HasEvent events i = contains_key (event_keys events) (attempt_event_key i) ≡ true

module _ (p : Platform) where
  -- A stored event is what the message of the row decodes to, under the row's key and counted as valid.
  abbrev pub FromRow : Row → UsageEvent → Type 0
  FromRow r e =
      (d : UsageEvent) × (decode_row p r ≡ ok d) × (e ≡ with_state accounting_valid (keyed r.id d))

  pub record RowOk (events : List UsageEvent) (r : Row) : Type 0 where
    pub done :
        r.status ≡ processed → (r.usage_event_key ≡ attempt_event_key r.id) × HasEvent events r.id
    pub from_row :
        (e : UsageEvent) → Memᴰ e events → e.event_key ≡ attempt_event_key r.id → FromRow r e
    pub retried : is_processable r.status ≡ true → r.attempt_count < max_process_attempts
    pub given_up : r.status ≡ discarded → max_process_attempts ≤ r.attempt_count

  pub record Consistent (t : Table) (events : List UsageEvent) : Type 0 where
    pub ordered : Ascending t.rows
    pub below : (r : Row) → Memᴰ r t.rows → r.id ≤ t.seq
    pub row_ok : (r : Row) → Memᴰ r t.rows → RowOk events r
    pub apart : KeysApart events
    pub unused :
        (n : ℕ) → t.seq < n → contains_key (event_keys events) (attempt_event_key n) ≡ false

  module _ (events : List UsageEvent) where
    -- An UPDATE that keeps the ids and leaves good rows good.
    pub update-Consistent :
        (t : Table) (test : Row → Bool) (set : Row → Row)
        → ((r : Row) → (set r).id ≡ r.id)
        → ((r : Row) → test r ≡ true → RowOk events r → RowOk events (set r))
        → Consistent t events
        → Consistent (record t { rows = update_where test set t.rows }) events
    update-Consistent t test set same_id good c = record {
      ordered = update_where-Ascending test set same_id t.rows c.ordered;
      below = λ r m.
          let f = update_where-From test set r t.rows m in
          subst (λ (x : Row). x.id ≤ t.seq) (sym f.is_set)
            (elim (Bool-cases (test f.row)) [
              | inl b ↦ rw b (subst (λ n. n ≤ t.seq) (sym (same_id f.row)) (c.below f.row f.there))
              | inr b ↦ rw b (c.below f.row f.there)
            ]);
      row_ok = λ r m.
          let f = update_where-From test set r t.rows m in
          subst (RowOk events) (sym f.is_set) (elim (Bool-cases (test f.row)) [
            | inl b ↦ rw b (good f.row b (c.row_ok f.row f.there))
            | inr b ↦ rw b (c.row_ok f.row f.there)
          ]);
      apart = c.apart;
      unused = c.unused;
    }

    decode_failed-RowOk :
        (now : Time) (e : Option Text) (r : Row)
        → RowOk events r
        → RowOk events (set_decode_failed now e r)
    unfolding set_decode_failed decode_row
    decode_failed-RowOk now e r ok_r = record {
      done = λ h. absurd (cc);
      from_row = ok_r.from_row;
      retried = λ h. absurd (cc);
      given_up = λ h. absurd (cc);
    }

    pub process_failed-RowOk :
        (now : Time) (e : Option Text) (r : Row)
        → RowOk events r
        → RowOk events (set_process_failed now e r)
    unfolding set_process_failed decode_row
    process_failed-RowOk now e r ok_r = record {
      done = λ h. absurd (ground arith);
      from_row = ok_r.from_row;
      retried = λ h. ground arith;
      given_up = λ h. ground arith;
    }

    pub mark_decode_failed-Consistent :
        (fault : Option Text) (now : Time) (i : ℕ) (e : Option Text) (t : Table)
        → Consistent t events
        → Consistent (mark_decode_failed fault now i e t).0 events
    unfolding mark_decode_failed
    mark_decode_failed-Consistent (some f) now i e t c = c
    mark_decode_failed-Consistent none now i e t c =
        update-Consistent t (λ r. r.id == i) (set_decode_failed now e)
          (λ r. unfold set_decode_failed in refl) (λ r b. decode_failed-RowOk now e r) c

    pub decode_rows-Consistent :
        (env : Env) (rows : List Row) (t : Table)
        → Consistent t events
        → Consistent (decode_rows p env rows t).0 events
    decode_rows-Consistent env rows t c =
        decode_rows_keeps p env (λ t'. Consistent t' events)
          (λ i x t' c'.
            mark_decode_failed-Consistent (env.decode_mark_fault i) env.db_now i (some x) t' c')
          rows t c
