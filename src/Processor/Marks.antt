-- ===== src/Processor/Marks.antt =====
-- The batched statements of a run keep the invariant, chunk by chunk.
use cpa_usage.Base.{
  ℕ, zero, suc, ◌≡◌, refl, true, Option, none, some, List, [], ◌∷◌, arith, ◌==◌, ==_iff, take, drop,
  length, All, Bool-cases, inl, inr, subst,
}
use cpa_usage.Clock.{Time}
use cpa_usage.Text.{Text}
use cpa_usage.Attempt.Types.{UsageEvent}
use cpa_usage.Attempt.Codec.{Platform}
use cpa_usage.Inbox.{
  Row, Table, Mark, mark_ids, contains_id, marked_key, set_processed, set_process_failed, in_chunks,
  mark_process_failed_batch, mark_failed_chunk, mark_processed_batch, mark_processed_chunk,
}
use cpa_usage.Processor.{attempt_event_key, decode_row}
use cpa_usage.Processor.Consistent.{
  HasEvent, RowOk, Consistent, update-Consistent, process_failed-RowOk,
}

module _ {ℓ} {A : Type ℓ} (Good : A → Type 0) where
  All-take : (n : ℕ) (xs : List A) → All Good xs → All Good (take n xs)
  All-take zero xs h = tt
  All-take (suc n) [] h = tt
  All-take (suc n) (x ∷ xs) (g, h) = (g, All-take n xs h)

  All-drop : (n : ℕ) (xs : List A) → All Good xs → All Good (drop n xs)
  All-drop zero xs h = h
  All-drop (suc n) [] h = tt
  All-drop (suc n) (x ∷ xs) (g, h) = All-drop n xs h

  module _ (P : List Row → Type 0) (step : List A → List Row → List Row)
      (keeps : (xs : List A) (rows : List Row) → All Good xs → P rows → P (step xs rows)) where
    -- What each statement keeps, the loop over the chunks keeps.
    in_chunks_keeps :
        (fuel size : ℕ) (xs : List A) (rows : List Row)
        → All Good xs
        → P rows
        → P (in_chunks fuel size step xs rows)
    unfolding in_chunks
    in_chunks_keeps zero size xs rows g h = h
    in_chunks_keeps (suc fuel) size [] rows g h = h
    in_chunks_keeps (suc fuel) size (x ∷ xs) rows g h =
        in_chunks_keeps fuel size (drop size (x ∷ xs)) (step (take size (x ∷ xs)) rows)
          (All-drop size (x ∷ xs) g) (keeps (take size (x ∷ xs)) rows (All-take size (x ∷ xs) g) h)

-- A mark with the key of its row, whose event is there.
abbrev pub GoodMark : List UsageEvent → Mark → Type 0
GoodMark events m = (m.usage_event_key ≡ attempt_event_key m.id) × HasEvent events m.id

marked_key-GoodMark :
    (events : List UsageEvent) (marks : List Mark) (i : ℕ) (old : Text)
    → All (GoodMark events) marks
    → contains_id (mark_ids marks) i ≡ true
    → (marked_key marks i old ≡ attempt_event_key i) × HasEvent events i
unfolding marked_key contains_id
marked_key-GoodMark events [] i old g h = absurd (cc)
marked_key-GoodMark events (m ∷ marks) i old ((key, there), g) h = elim (Bool-cases (m.id == i)) [
  | inl b ↦ rw b (
      subst (λ n. (m.usage_event_key ≡ attempt_event_key n) × HasEvent events n)
        ((==_iff m.id i).0 b) (key, there))
  | inr b ↦ rw b (marked_key-GoodMark events marks i old g (ground arith))
]

module _ (p : Platform) (events : List UsageEvent) where
  processed-RowOk :
      (now : Time) (marks : List Mark) (r : Row)
      → All (GoodMark events) marks
      → contains_id (mark_ids marks) r.id ≡ true
      → RowOk p events r
      → RowOk p events (set_processed marks now r)
  unfolding set_processed decode_row
  processed-RowOk now marks r g b ok_r = record {
    done = λ h. marked_key-GoodMark events marks r.id r.usage_event_key g b;
    from_row = ok_r.from_row;
    retried = λ h. absurd (cc);
    given_up = λ h. absurd (cc);
  }

  pub mark_processed_batch-Consistent :
      (fault : Option Text) (now : Time) (marks : List Mark) (t : Table)
      → All (GoodMark events) marks
      → Consistent p t events
      → Consistent p (mark_processed_batch fault now marks t).0 events
  unfolding mark_processed_batch mark_processed_chunk
  mark_processed_batch-Consistent fault now [] t g c = c
  mark_processed_batch-Consistent (some f) now (m ∷ marks) t g c = c
  mark_processed_batch-Consistent none now (m ∷ marks) t g c =
      in_chunks_keeps (GoodMark events) (λ rows. Consistent p (record t { rows = rows }) events)
        (mark_processed_chunk now)
        (λ ms rows good c'.
          update-Consistent p events (record t { rows = rows })
            (λ r. contains_id (mark_ids ms) r.id) (set_processed ms now)
            (λ r. unfold set_processed in refl) (λ r b. processed-RowOk now ms r good b) c')
        (length (m ∷ marks)) _ (m ∷ marks) t.rows g c

  abbrev AnyId : ℕ → Type 0
  AnyId i = Unit

  All-AnyId : (ids : List ℕ) → All AnyId ids
  All-AnyId [] = tt
  All-AnyId (i ∷ ids) = (tt, All-AnyId ids)

  pub mark_process_failed_batch-Consistent :
      (fault : Option Text) (now : Time) (ids : List ℕ) (e : Option Text) (t : Table)
      → Consistent p t events
      → Consistent p (mark_process_failed_batch fault now ids e t).0 events
  unfolding mark_process_failed_batch mark_failed_chunk
  mark_process_failed_batch-Consistent fault now [] e t c = c
  mark_process_failed_batch-Consistent (some f) now (i ∷ ids) e t c = c
  mark_process_failed_batch-Consistent none now (i ∷ ids) e t c =
      in_chunks_keeps AnyId (λ rows. Consistent p (record t { rows = rows }) events)
        (mark_failed_chunk now e)
        (λ is rows good c'.
          update-Consistent p events (record t { rows = rows }) (λ r. contains_id is r.id)
            (set_process_failed now e) (λ r. unfold set_process_failed in refl)
            (λ r b. process_failed-RowOk p events now e r) c')
        (length (i ∷ ids)) _ (i ∷ ids) t.rows (All-AnyId (i ∷ ids)) c
