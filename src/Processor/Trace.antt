-- ===== src/Processor/Trace.antt =====
-- What the first loop of a run does to the inbox, and what it hands on: rows with the events of their
-- persisted messages.
use mathlib.Core.List.{Memᴰ}
use cpa_usage.Base.{
  ℕ, ◌≤◌, ◌≡◌, refl, sym, ap, ◌∙◌, Bool, Option, none, some, List, [], ◌∷◌, arith, ◌==◌,
  if◌then◌else◌, All, Bool-cases, Option-cases, inl, inr,
}
use cpa_usage.Clock.{Time}
use cpa_usage.Result.{Result, ok, err, Result-cases}
use cpa_usage.Text.{Text}
use cpa_usage.Attempt.Types.{UsageEvent}
use cpa_usage.Attempt.Codec.{Platform}
use cpa_usage.Inbox.{
  Row, Table, Mark, set_processed, set_decode_failed, set_process_failed, update_where,
  mark_decode_failed,
}
use cpa_usage.Inbox.Updates.{update_where-From}
use cpa_usage.Processor.{Env, Decoded, keyed, add_valid, add_error, decode_row, decode_rows}

abbrev pub valid_of : Result Decoded → List (Row × UsageEvent)
valid_of (err x) = []
valid_of (ok d) = d.valid

-- What every mark of a table keeps, any mark that fails included.
module _ (p : Platform) (env : Env) (P : Table → Type 0)
    (mark : (i : ℕ) (x : Text) (t : Table)
      → P t
      → P (mark_decode_failed (env.decode_mark_fault i) env.db_now i (some x) t).0) where
  pub decode_rows_keeps : (rows : List Row) (t : Table) → P t → P (decode_rows p env rows t).0
  unfolding decode_rows
  decode_rows_keeps [] t h = h
  decode_rows_keeps (r ∷ rs) t h = elim (Result-cases (decode_row p r)) [
    | inl (e, good) ↦ rw (good, decode_rows) (decode_rows_keeps rs t h)
    | inr (x, bad) ↦
        elim (Option-cases
          (mark_decode_failed (env.decode_mark_fault r.id) env.db_now r.id (some x) t).1) [
            | inl fine ↦ rw (bad, fine, decode_rows) (decode_rows_keeps rs _ (mark r.id x t h))
            | inr (m, fails) ↦ rw (bad, fails, decode_rows) (mark r.id x t h)
          ]
  ]

module _ (p : Platform) where
  -- The rows keep their ids and their messages.
  pub record SameMessages (t t' : Table) : Type 0 where
    pub seq_eq : t'.seq ≡ t.seq
    pub origin :
        (r' : Row)
        → Memᴰ r' t'.rows
        → (r : Row) × Memᴰ r t.rows × (r'.id ≡ r.id) × (decode_row p r' ≡ decode_row p r)

  pub SameMessages-refl : (t : Table) → SameMessages t t
  SameMessages-refl t = record { seq_eq = refl; origin = λ r m. (r, m, refl, refl) }

  -- A change of a row that leaves its id and its message.
  abbrev pub KeepsMessage : (Row → Row) → Type 0
  KeepsMessage set = (r : Row) → ((set r).id ≡ r.id) × (decode_row p (set r) ≡ decode_row p r)

  pub KeepsMessage-decode_failed :
      (now : Time) (e : Option Text) → KeepsMessage (set_decode_failed now e)
  unfolding set_decode_failed decode_row
  KeepsMessage-decode_failed now e r = (refl, refl)

  pub KeepsMessage-process_failed :
      (now : Time) (e : Option Text) → KeepsMessage (set_process_failed now e)
  unfolding set_process_failed decode_row
  KeepsMessage-process_failed now e r = (refl, refl)

  pub KeepsMessage-processed :
      (marks : List Mark) (now : Time) → KeepsMessage (set_processed marks now)
  unfolding set_processed decode_row
  KeepsMessage-processed marks now r = (refl, refl)

  KeepsMessage-if :
      (test : Row → Bool) (set : Row → Row) (r : Row)
      → KeepsMessage set
      → ((if test r then set r else r).id ≡ r.id)
        × (decode_row p (if test r then set r else r) ≡ decode_row p r)
  KeepsMessage-if test set r keeps = elim (Bool-cases (test r)) [
    | inl e ↦ rw e (keeps r)
    | inr e ↦ rw e (refl, refl)
  ]

  pub update-SameMessages :
      (t₀ t : Table) (test : Row → Bool) (set : Row → Row)
      → KeepsMessage set
      → SameMessages t₀ t
      → SameMessages t₀ (record t { rows = update_where test set t.rows })
  update-SameMessages t₀ t test set keeps s = record {
    seq_eq = s.seq_eq;
    origin = λ r' m.
        let f = update_where-From test set r' t.rows m in
        let (same_id, same_message) = KeepsMessage-if test set f.row keeps in
        let (r, there, id_eq, message_eq) = s.origin f.row f.there in
        (
          r,
          there,
          ap (λ (x : Row). x.id) f.is_set ∙ same_id ∙ id_eq,
          ap (decode_row p) f.is_set ∙ same_message ∙ message_eq,
        );
  }

  mark-SameMessages :
      (fault : Option Text) (now : Time) (i : ℕ) (x : Option Text) (t₀ t : Table)
      → SameMessages t₀ t
      → SameMessages t₀ (mark_decode_failed fault now i x t).0
  unfolding mark_decode_failed
  mark-SameMessages (some e) now i x t₀ t s = s
  mark-SameMessages none now i x t₀ t s =
      update-SameMessages t₀ t (λ r. r.id == i) (set_decode_failed now x)
        (KeepsMessage-decode_failed now x) s

  pub decode_rows-SameMessages :
      (env : Env) (rows : List Row) (t : Table) → SameMessages t (decode_rows p env rows t).0
  decode_rows-SameMessages env rows t =
      decode_rows_keeps p env (SameMessages t)
        (λ i x t' s. mark-SameMessages (env.decode_mark_fault i) env.db_now i (some x) t t' s) rows
        t (SameMessages-refl t)

  -- A listed row that tells what the rows of its id decode to.
  pub record Mirrors (t : Table) (r₀ : Row) : Type 0 where
    pub below : r₀.id ≤ t.seq
    pub same : (r : Row) → Memᴰ r t.rows → r.id ≡ r₀.id → decode_row p r ≡ decode_row p r₀

  pub Mirrors-SameMessages :
      (t t' : Table) (r₀ : Row) → SameMessages t t' → Mirrors t r₀ → Mirrors t' r₀
  Mirrors-SameMessages t t' r₀ s m = record {
    below = omega (arith, m.below, s.seq_eq);
    same = λ r' there e.
        let (r, there', id_eq, message_eq) = s.origin r' there in
        message_eq ∙ m.same r there' (sym id_eq ∙ e);
  }

  -- A row that decoded, with the event that its message gives under its own key.
  pub record Sound (t : Table) (v : Row × UsageEvent) : Type 0 where
    pub event : UsageEvent
    pub keyed_eq : v.1 ≡ keyed v.0.id event
    pub decodes : decode_row p v.0 ≡ ok event
    pub mirrors : Mirrors t v.0

  All-add_valid :
      (t : Table) (r : Row) (e : UsageEvent) (d : Result Decoded)
      → Mirrors t r
      → decode_row p r ≡ ok e
      → All (Sound t) (valid_of d)
      → All (Sound t) (valid_of (add_valid r e d))
  All-add_valid t r e (err x) m good h = tt
  All-add_valid t r e (ok d) m good h =
      (record { event = e; keyed_eq = refl; decodes = good; mirrors = m }, h)

  valid-add_error : (x : Text) (d : Result Decoded) → valid_of (add_error x d) ≡ valid_of d
  valid-add_error x (err y) = refl
  valid-add_error x (ok d) = refl

  pub decode_rows-Sound :
      (env : Env) (T : Table) (rows : List Row) (t : Table)
      → All (Mirrors T) rows
      → All (Sound T) (valid_of (decode_rows p env rows t).1)
  unfolding decode_rows
  decode_rows-Sound env T [] t h = tt
  decode_rows-Sound env T (r ∷ rs) t (m, h) = elim (Result-cases (decode_row p r)) [
    | inl (e, good) ↦
        rw (good, decode_rows)
          (All-add_valid T r e (decode_rows p env rs t).1 m good (decode_rows-Sound env T rs t h))
    | inr (x, bad) ↦
        elim (Option-cases
          (mark_decode_failed (env.decode_mark_fault r.id) env.db_now r.id (some x) t).1) [
            | inl fine ↦
                rw (bad, fine, decode_rows, valid-add_error) (decode_rows-Sound env T rs _ h)
            | inr (y, fails) ↦ rw (bad, fails, decode_rows) tt
          ]
  ]
