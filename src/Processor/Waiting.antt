-- ===== src/Processor/Waiting.antt =====
-- Which rows wait for a run, before and behind the statements of a run that does not fail.
use mathlib.Core.List.{Memᴰ}
use cpa_usage.Base.{
  ℕ, ◌≡◌, ◌⊎◌, refl, sym, ap, ◌∙◌, Bool, true, false, Option, none, some, List, [], ◌∷◌, arith,
  ◌==◌, ==_iff, if◌then◌else◌, All, Bool-cases, inl, inr, subst,
}
use cpa_usage.Clock.{Time}
use cpa_usage.Result.{Result, ok, err, Result-cases}
use cpa_usage.Text.{Text}
use cpa_usage.Attempt.Types.{UsageEvent}
use cpa_usage.Attempt.Codec.{Platform}
use cpa_usage.Inbox.{
  Row, Table, Mark, is_processable, contains_id, set_processed, set_decode_failed, update_where,
  mark_decode_failed,
}
use cpa_usage.Inbox.Updates.{update_where-From}
use cpa_usage.Processor.{Env, Decoded, add_valid, add_error, ids_of, decode_row, decode_rows}
use cpa_usage.Processor.Trace.{decode_rows_keeps}

-- The rows that wait in `after` stood so in `before`.
abbrev pub Waiting : List Row → List Row → Type 0
Waiting before after = (r : Row) → Memᴰ r after → is_processable r.status ≡ true → Memᴰ r before

-- No row of this id waits.
abbrev pub Settled : List Row → ℕ → Type 0
Settled rows i = (r : Row) → Memᴰ r rows → r.id ≡ i → is_processable r.status ≡ false

pub Settled-Waiting :
    (before after : List Row) (i : ℕ) → Waiting before after → Settled before i → Settled after i
Settled-Waiting before after i w s r m e = elim (Bool-cases (is_processable r.status)) [
  | inl b ↦ absurd (cc (s r (w r m b) e))
  | inr b ↦ b
]

module _ (test : Row → Bool) (set : Row → Row)
    (rest : (r : Row) → is_processable (set r).status ≡ false) where
  pub update-Waiting : (rows : List Row) → Waiting rows (update_where test set rows)
  update-Waiting rows r m w =
      let f = update_where-From test set r rows m in
      elim (Bool-cases (test f.row)) [
        | inl b ↦ absurd (
            cc (
              rest f.row,
              w,
              ap (λ (x : Row). is_processable x.status)
                  (f.is_set ∙ ap (λ c. if c then set f.row else f.row) b),
            ))
        | inr b ↦
            subst (λ (x : Row). Memᴰ x rows)
              (sym (f.is_set ∙ ap (λ c. if c then set f.row else f.row) b)) f.there
      ]

  pub update-Settled :
      (rows : List Row) (i : ℕ)
      → ((r : Row) → r.id ≡ i → test r ≡ true)
      → Settled (update_where test set rows) i
  update-Settled rows i hits r m e =
      let f = update_where-From test set r rows m in
      elim (Bool-cases (test f.row)) [
        | inl b ↦
            subst (λ (x : Row). is_processable x.status ≡ false)
              (sym (f.is_set ∙ ap (λ c. if c then set f.row else f.row) b)) (rest f.row)
        | inr b ↦
            let same : r ≡ f.row = f.is_set ∙ ap (λ c. if c then set f.row else f.row) b in
            absurd (cc (hits f.row (ap (λ (x : Row). x.id) (sym same) ∙ e), b))
      ]

decode_failed_rest :
    (now : Time) (e : Option Text) (r : Row)
    → is_processable (set_decode_failed now e r).status ≡ false
unfolding set_decode_failed
decode_failed_rest now e r = refl

pub processed_rest :
    (marks : List Mark) (now : Time) (r : Row)
    → is_processable (set_processed marks now r).status ≡ false
unfolding set_processed
processed_rest marks now r = refl

mark-Waiting :
    (rows : List Row) (fault : Option Text) (now : Time) (i : ℕ) (e : Option Text) (t : Table)
    → Waiting rows t.rows
    → Waiting rows (mark_decode_failed fault now i e t).0.rows
unfolding mark_decode_failed
mark-Waiting rows (some f) now i e t w = w
mark-Waiting rows none now i e t w = λ r m b.
    w r
      (update-Waiting (λ q. q.id == i) (set_decode_failed now e) (decode_failed_rest now e) t.rows r
        m b)
      b

mark-Settled :
    (fault : Option Text) (now : Time) (i : ℕ) (e : Option Text) (t : Table)
    → fault ≡ none
    → Settled (mark_decode_failed fault now i e t).0.rows i
unfolding mark_decode_failed
mark-Settled (some f) now i e t h = absurd (cc)
mark-Settled none now i e t h =
    update-Settled (λ q. q.id == i) (set_decode_failed now e) (decode_failed_rest now e) t.rows i
      (λ r same. (==_iff r.id i).1 same)

mark_fault :
    (fault : Option Text) (now : Time) (i : ℕ) (e : Option Text) (t : Table)
    → (mark_decode_failed fault now i e t).1 ≡ fault
unfolding mark_decode_failed
mark_fault (some f) now i e t = refl
mark_fault none now i e t = refl

module _ (p : Platform) (env : Env) (fine : (i : ℕ) → env.decode_mark_fault i ≡ none) where
  pub decode_rows-Waiting :
      (rows : List Row) (t : Table) → Waiting t.rows (decode_rows p env rows t).0.rows
  decode_rows-Waiting rows t =
      decode_rows_keeps p env (λ t'. Waiting t.rows t'.rows)
        (λ i x t' w. mark-Waiting t.rows (env.decode_mark_fault i) env.db_now i (some x) t' w) rows
        t (λ r m w. m)

  -- Each row of the loop waits no more, or is handed on.
  abbrev pub Handled : List Row → Table × Result Decoded → Type 0
  Handled rows (t, err e) = ⊥
  Handled rows (t, ok d) =
      All (λ (r : Row). Settled t.rows r.id ⊎ (contains_id (ids_of d.valid) r.id ≡ true)) rows

  Handled-valid :
      (r : Row) (e : UsageEvent) (rows : List Row) (t : Table) (d : Result Decoded)
      → Handled rows (t, d)
      → Handled (r ∷ rows) (t, add_valid r e d)
  unfolding contains_id
  Handled-valid r e rows t (err x) h = elim h [ ]
  Handled-valid r e rows t (ok d) h = (inr (ground arith), later rows h)
    where
      later :
          (rows : List Row)
          → All (λ (q : Row). Settled t.rows q.id ⊎ (contains_id (ids_of d.valid) q.id ≡ true)) rows
          → All
              (λ (q : Row). Settled t.rows q.id ⊎ (contains_id (r.id ∷ ids_of d.valid) q.id ≡ true))
              rows
      later [] h = tt
      later (q ∷ rows) (inl s, h) = (inl s, later rows h)
      later (q ∷ rows) (inr b, h) = (inr (ground (arith, b)), later rows h)

  Handled-error :
      (r : Row) (x : Text) (rows : List Row) (t : Table) (d : Result Decoded)
      → Settled t.rows r.id
      → Handled rows (t, d)
      → Handled (r ∷ rows) (t, add_error x d)
  Handled-error r x rows t (err y) s h = elim h [ ]
  Handled-error r x rows t (ok d) s h = (inl s, h)

  pub decode_rows-Handled : (rows : List Row) (t : Table) → Handled rows (decode_rows p env rows t)
  unfolding decode_rows
  decode_rows-Handled [] t = tt
  decode_rows-Handled (r ∷ rs) t = elim (Result-cases (decode_row p r)) [
    | inl (e, good) ↦
        rw (good, decode_rows)
          (Handled-valid r e rs (decode_rows p env rs t).0 (decode_rows p env rs t).1
            (decode_rows-Handled rs t))
    | inr (x, bad) ↦
        let t' = (mark_decode_failed (env.decode_mark_fault r.id) env.db_now r.id (some x) t).0 in
        let none_fails : (mark_decode_failed (env.decode_mark_fault r.id) env.db_now r.id (some x)
              t).1
            ≡ none =
          mark_fault (env.decode_mark_fault r.id) env.db_now r.id (some x) t ∙ fine r.id in
        rw (bad, none_fails, decode_rows)
          (Handled-error r x rs (decode_rows p env rs t').0 (decode_rows p env rs t').1
            (Settled-Waiting t'.rows (decode_rows p env rs t').0.rows r.id
              (decode_rows-Waiting rs t')
              (mark-Settled (env.decode_mark_fault r.id) env.db_now r.id (some x) t (fine r.id)))
            (decode_rows-Handled rs t'))
  ]
