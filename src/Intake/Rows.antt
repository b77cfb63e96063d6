-- ===== src/Intake/Rows.antt =====
-- New rows stand behind the old ones and wait; writing them keeps the invariant of the processor.
use mathlib.Core.List.{Memᴰ}
use cpa_usage.Base.{
  ℕ, ◌≤◌, ◌<◌, ◌≡◌, ◌⊎◌, refl, ap, ◌∙◌, true, Option, none, some, List, [], ◌∷◌, ◌++◌, arith, All,
  All-append, inl, inr,
}
use cpa_usage.Clock.{Time}
use cpa_usage.Text.{Text, text_eq_refl}
use cpa_usage.Attempt.Types.{UsageEvent}
use cpa_usage.Attempt.Codec.{Platform}
use cpa_usage.Events.{contains_key, event_keys}
use cpa_usage.Inbox.{Row, Table, Insert, pending, new_row, new_rows, last_id, insert_messages}
use cpa_usage.Inbox.Order.{Ascending}
use cpa_usage.Processor.Consistent.{RowOk, Consistent}

mem-contains_key :
    (e : UsageEvent) (events : List UsageEvent)
    → Memᴰ e events
    → contains_key (event_keys events) e.event_key ≡ true
unfolding contains_key
mem-contains_key e [] m = elim m [ ]
mem-contains_key e (x ∷ events) (Memᴰ.head h) =
    rw (ap (λ (y : UsageEvent). y.event_key) h, text_eq_refl x.event_key) refl
mem-contains_key e (x ∷ events) (Memᴰ.tail m) = ground (arith, mem-contains_key e events m)

pub mem-rows : (r : Row) (xs ys : List Row) → Memᴰ r (xs ++ ys) → Memᴰ r xs ⊎ Memᴰ r ys
mem-rows r [] ys m = inr m
mem-rows r (x ∷ xs) ys (Memᴰ.head h) = inl (Memᴰ.head h)
mem-rows r (x ∷ xs) ys (Memᴰ.tail m) = elim (mem-rows r xs ys m) [
  | inl n ↦ inl (Memᴰ.tail n)
  | inr n ↦ inr n
]

Ascending-append :
    (n : ℕ) (xs ys : List Row)
    → Ascending xs
    → Ascending ys
    → ((r : Row) → Memᴰ r xs → r.id ≤ n)
    → All (λ (q : Row). n < q.id) ys
    → Ascending (xs ++ ys)
Ascending-append n [] ys hx hy low high = hy
Ascending-append n (x ∷ xs) ys (below, hx) hy low high = (
  All-append (λ (q : Row). x.id < q.id) xs ys below (above n x.id ys (low x (Memᴰ.head refl)) high),
  Ascending-append n xs ys hx hy (λ r m. low r (Memᴰ.tail m)) high,
)
  where
    above :
        (n i : ℕ) (ys : List Row)
        → i ≤ n
        → All (λ (q : Row). n < q.id) ys
        → All (λ (q : Row). i < q.id) ys
    above n i [] le h = tt
    above n i (y ∷ ys) le (lt, h) = (omega arith, above n i ys le h)

module _ (hash : Text → Text) (next_id : ℕ → ℕ) (increases : (n : ℕ) → n < next_id n) where
  last_id-le : (seq : ℕ) (inputs : List Insert) → seq ≤ last_id hash next_id seq inputs
  unfolding last_id
  last_id-le seq [] = omega arith
  last_id-le seq (input ∷ inputs) = omega (arith, increases seq, last_id-le (next_id seq) inputs)

  -- A new row: pending, without attempts, with an id that was not given out before.
  pub record NewRow (seq last : ℕ) (r : Row) : Type 0 where
    pub waits : r.status ≡ pending
    pub untried : r.attempt_count ≡ 0
    pub above : seq < r.id
    pub below : r.id ≤ last

  id_eq :
      (seq : ℕ) (now : Time) (input : Insert) (r : Row)
      → r ≡ new_row hash next_id (next_id seq) now input
      → r.id ≡ next_id seq
  unfolding new_row
  id_eq seq now input r h = ap (λ (x : Row). x.id) h

  mem-new_rows :
      (now : Time) (seq : ℕ) (inputs : List Insert) (r : Row)
      → Memᴰ r (new_rows hash next_id now seq inputs)
      → NewRow seq (last_id hash next_id seq inputs) r
  unfolding new_rows last_id
  mem-new_rows now seq [] r m = elim m [ ]
  mem-new_rows now seq (input ∷ inputs) r (Memᴰ.head h) = record {
    waits = ap (λ (x : Row). x.status) h ∙ unfold new_row in refl;
    untried = ap (λ (x : Row). x.attempt_count) h ∙ unfold new_row in refl;
    above = omega (arith, increases seq, id_eq seq now input r h);
    below = omega (arith, last_id-le (next_id seq) inputs, id_eq seq now input r h);
  }
  mem-new_rows now seq (input ∷ inputs) r (Memᴰ.tail m) =
      let n = mem-new_rows now (next_id seq) inputs r m in
      record {
        waits = n.waits;
        untried = n.untried;
        above = omega (arith, increases seq, n.above);
        below = n.below;
      }

  All-new_rows :
      (n : ℕ) (now : Time) (seq : ℕ) (inputs : List Insert)
      → n ≤ seq
      → All (λ (q : Row). n < q.id) (new_rows hash next_id now seq inputs)
  unfolding new_rows new_row
  All-new_rows n now seq [] le = tt
  All-new_rows n now seq (input ∷ inputs) le = (
    omega (arith, increases seq),
    All-new_rows n now (next_id seq) inputs (omega (arith, increases seq)),
  )

  new_rows-Ascending :
      (now : Time) (seq : ℕ) (inputs : List Insert)
      → Ascending (new_rows hash next_id now seq inputs)
  unfolding new_rows new_row
  new_rows-Ascending now seq [] = tt
  new_rows-Ascending now seq (input ∷ inputs) = (
    All-new_rows (next_id seq) now (next_id seq) inputs (omega arith),
    new_rows-Ascending now (next_id seq) inputs,
  )

  module _ (p : Platform) (events : List UsageEvent) where
    new-RowOk :
        (t : Table) (last : ℕ) (r : Row)
        → Consistent p t events
        → NewRow t.seq last r
        → RowOk p events r
    new-RowOk t last r c n = record {
      done = λ h. absurd (cc (n.waits, h));
      from_row = λ e m k. absurd (cc (mem-contains_key e events m, k, c.unused r.id n.above));
      retried = λ h. ground (arith, n.untried);
      given_up = λ h. absurd (cc (n.waits, h));
    }

    pub insert_messages-Consistent :
        (fault : Option Text) (now : Time) (inputs : List Insert) (t : Table)
        → Consistent p t events
        → Consistent p (insert_messages hash next_id fault now inputs t).0 events
    unfolding insert_messages
    insert_messages-Consistent fault now [] t c = c
    insert_messages-Consistent (some e) now (input ∷ inputs) t c = c
    insert_messages-Consistent none now (input ∷ inputs) t c = record {
      ordered =
          Ascending-append t.seq t.rows _ c.ordered (new_rows-Ascending now t.seq (input ∷ inputs))
            c.below (All-new_rows t.seq now t.seq (input ∷ inputs) (omega arith));
      below = λ r m. elim (mem-rows r t.rows _ m) [
        | inl old ↦ omega (arith, c.below r old, last_id-le t.seq (input ∷ inputs))
        | inr new ↦ (mem-new_rows now t.seq (input ∷ inputs) r new).below
      ];
      row_ok = λ r m. elim (mem-rows r t.rows _ m) [
        | inl old ↦ c.row_ok r old
        | inr new ↦ new-RowOk t _ r c (mem-new_rows now t.seq (input ∷ inputs) r new)
      ];
      apart = c.apart;
      unused = λ n lt. c.unused n (omega (arith, lt, last_id-le t.seq (input ∷ inputs)));
    }
