-- ===== src/Intake/Decodes.antt =====
-- What a pull makes of a popped batch: a row per message, or nothing and an error.
use cpa_usage.Base.{
  ℕ, ◌≡◌, refl, sym, false, Option, none, some, List, [], ◌∷◌, ◌++◌, append-nil, inl, inr,
}
use cpa_usage.Clock.{Time, is_zero}
use cpa_usage.Result.{Result, ok, err, Result-cases}
use cpa_usage.Text.{Text}
use cpa_usage.Attempt.Codec.{Platform, replay_safe_message, decode_message}
use cpa_usage.Attempt.Replay.{JsonLaws, SameOutcome, replay_safe_message-decodes}
use cpa_usage.Inbox.{Row, Table, Insert, pending, new_row, new_rows, insert_messages}
use cpa_usage.Processor.{decode_row}
use cpa_usage.Intake.{PullOutcome, safe_inputs, cons_input, insert_inputs, pull}

module _ (p : Platform) (queue_key : Text) (now : Time) where
  -- The inputs are the projections of the messages.
  abbrev Projected : List Text → List Insert → Type 0
  Projected [] [] = Unit
  Projected (m ∷ ms) (i ∷ inputs) =
      (i.popped_at ≡ now) × (replay_safe_message p m ≡ ok i.raw_message) × Projected ms inputs
  Projected _ _ = ⊥

  abbrev ProjectedOr : List Text → Result (List Insert) → Type 0
  ProjectedOr ms (ok inputs) = Projected ms inputs
  ProjectedOr ms (err e) = Unit

  cons-ProjectedOr :
      (m s : Text) (ms : List Text) (r : Result (List Insert))
      → replay_safe_message p m ≡ ok s
      → ProjectedOr ms r
      → ProjectedOr
          (m ∷ ms)
          (cons_input (record { queue_key = queue_key; raw_message = s; popped_at = now }) r)
  cons-ProjectedOr m s ms (err e) h k = tt
  cons-ProjectedOr m s ms (ok inputs) h k = (refl, h, k)

  safe_inputs-ProjectedOr : (ms : List Text) → ProjectedOr ms (safe_inputs p queue_key now ms)
  unfolding safe_inputs
  safe_inputs-ProjectedOr [] = tt
  safe_inputs-ProjectedOr (m ∷ ms) = elim (Result-cases (replay_safe_message p m)) [
    | inl (s, good) ↦
        rw (good, safe_inputs)
          (cons-ProjectedOr m s ms (safe_inputs p queue_key now ms) good
            (safe_inputs-ProjectedOr ms))
    | inr (e, bad) ↦ rw (bad, safe_inputs) tt
  ]

  -- One pending row for each message, in order, which decodes as the message does.
  abbrev pub RowsOf : List Text → List Row → Type 0
  RowsOf [] [] = Unit
  RowsOf (m ∷ ms) (r ∷ rows) =
      (r.status ≡ pending) × SameOutcome (decode_row p r) (decode_message p m now) × RowsOf ms rows
  RowsOf _ _ = ⊥

  -- The table is as before and there is an error, or a row for each message stands behind the
  -- old rows.
  abbrev pub AllOrNothing : List Text → Table → PullOutcome → Type 0
  AllOrNothing ms t (t', result, some e) = t' ≡ t
  AllOrNothing ms t (t', result, none) =
      (new : List Row) × (t'.rows ≡ t.rows ++ new) × RowsOf ms new

  module _ (laws : JsonLaws p) (popped : is_zero now ≡ false) (next_id : ℕ → ℕ)
      (db_now : Time) where
    new_row-SameOutcome :
        (m : Text) (id : ℕ) (i : Insert)
        → i.popped_at ≡ now
        → replay_safe_message p m ≡ ok i.raw_message
        → SameOutcome
            (decode_row p (new_row p.sha256_hex next_id id db_now i))
            (decode_message p m now)
    unfolding new_row decode_row
    new_row-SameOutcome m id i at safe =
        rw (at, popped) (replay_safe_message-decodes p m now i.raw_message laws safe)

    new_rows-RowsOf :
        (ms : List Text) (inputs : List Insert) (seq : ℕ)
        → Projected ms inputs
        → RowsOf ms (new_rows p.sha256_hex next_id db_now seq inputs)
    unfolding new_rows
    new_rows-RowsOf [] [] seq h = tt
    new_rows-RowsOf [] (i ∷ inputs) seq h = elim h [ ]
    new_rows-RowsOf (m ∷ ms) [] seq h = elim h [ ]
    new_rows-RowsOf (m ∷ ms) (i ∷ inputs) seq (at, safe, h) = (
      unfold new_row in refl,
      new_row-SameOutcome m (next_id seq) i at safe,
      new_rows-RowsOf ms inputs (next_id seq) h,
    )

    inputs-AllOrNothing :
        (fault : Option Text) (ms : List Text) (r : Result (List Insert)) (t : Table)
        → ProjectedOr ms r
        → AllOrNothing ms t (insert_inputs p next_id fault db_now r t)
    unfolding insert_messages
    inputs-AllOrNothing fault ms (err e) t h = refl
    inputs-AllOrNothing fault [] (ok []) t h = ([], sym (append-nil t.rows), tt)
    inputs-AllOrNothing fault (m ∷ ms) (ok []) t h = elim h [ ]
    inputs-AllOrNothing (some f) ms (ok (i ∷ inputs)) t h = refl
    inputs-AllOrNothing none ms (ok (i ∷ inputs)) t h = (
      new_rows p.sha256_hex next_id db_now t.seq (i ∷ inputs),
      refl,
      new_rows-RowsOf ms (i ∷ inputs) t.seq h,
    )

    -- If encoding/json keeps its laws, of a batch that was popped at a time that is set: either the pull reports an error and leaves the
    -- inbox as it was, or each message has one new pending row, in order, behind the old rows, and
    -- decoding the row gives what decoding the message itself gives.
    pub pull-AllOrNothing :
        (fault : Option Text) (ms : List Text) (t : Table)
        → AllOrNothing ms t (pull p next_id queue_key fault db_now now (some (ok ms)) t)
    unfolding pull
    pull-AllOrNothing fault [] t = ([], sym (append-nil t.rows), tt)
    pull-AllOrNothing fault (m ∷ ms) t =
        inputs-AllOrNothing fault (m ∷ ms) (safe_inputs p queue_key now (m ∷ ms)) t
          (safe_inputs-ProjectedOr (m ∷ ms))
