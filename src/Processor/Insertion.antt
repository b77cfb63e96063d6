-- ===== src/Processor/Insertion.antt =====
-- The insertion of the events of a run keeps the invariant, and gives each decoded row its event.
use mathlib.Core.List.{Memᴰ}
use cpa_usage.Base.{
  ℕ, ◌<◌, ◌≡◌, ◌≢◌, ◌⊎◌, refl, sym, ap, ◌∙◌, Bool, true, false, ◌||◌, List, [], ◌∷◌, ◌++◌, arith,
  All, Bool-cases, inl, inr, subst,
}
use cpa_usage.Result.{ok}
use cpa_usage.Text.{Text, text_eq, text_eq_iff, text_eq_refl}
use cpa_usage.Accounting.{accounting_valid}
use cpa_usage.Attempt.Types.{UsageEvent}
use cpa_usage.Attempt.Codec.{Platform}
use cpa_usage.Attempt.Valid.{Accepted, decode_message-Accepted}
use cpa_usage.Clock.{is_zero}
use cpa_usage.Events.{contains_key, event_keys, with_state, new_events}
use cpa_usage.Events.Keys.{contains_event-append, contains-new_events, insert-KeysApart}
use cpa_usage.Events.Insert.{IsPlain, Plain}
use cpa_usage.Events.Admit.{stored}
use cpa_usage.Inbox.{Row, Table}
use cpa_usage.Processor.{attempt_event_key, keyed, decode_row, events_of, marks_of}
use cpa_usage.Processor.Keys.{attempt_event_key_injective, attempt_event_key-IsPlain}
use cpa_usage.Processor.Trace.{Sound}
use cpa_usage.Processor.Consistent.{FromRow, RowOk, Consistent}
use cpa_usage.Processor.Marks.{GoodMark}

mem-append : (e : UsageEvent) (xs ys : List UsageEvent) → Memᴰ e (xs ++ ys) → Memᴰ e xs ⊎ Memᴰ e ys
mem-append e [] ys m = inr m
mem-append e (x ∷ xs) ys (Memᴰ.head h) = inl (Memᴰ.head h)
mem-append e (x ∷ xs) ys (Memᴰ.tail m) = elim (mem-append e xs ys m) [
  | inl n ↦ inl (Memᴰ.tail n)
  | inr n ↦ inr n
]

mem-if :
    (b : Bool) (e x : UsageEvent) (skipped taken es : List UsageEvent)
    → (Memᴰ e skipped → Memᴰ e es)
    → (Memᴰ e taken → Memᴰ e es)
    → Memᴰ e (elim b [ true ↦ skipped | false ↦ x ∷ taken ])
    → Memᴰ e (x ∷ es)
mem-if true e x skipped taken es f g m = Memᴰ.tail (f m)
mem-if false e x skipped taken es f g (Memᴰ.head h) = Memᴰ.head h
mem-if false e x skipped taken es f g (Memᴰ.tail m) = Memᴰ.tail (g m)

mem-new_events :
    (e : UsageEvent) (table es : List UsageEvent) → Memᴰ e (new_events table es) → Memᴰ e es
unfolding new_events
mem-new_events e table [] m = m
mem-new_events e table (x ∷ es) m =
    mem-if (contains_key (event_keys table) x.event_key) e x (new_events table es)
      (new_events (table ++ x ∷ []) es) es (mem-new_events e table es)
      (mem-new_events e (table ++ x ∷ []) es) m

key_of_other : (i j : ℕ) → i ≢ j → text_eq (attempt_event_key i) (attempt_event_key j) ≡ false
key_of_other i j apart = elim (Bool-cases (text_eq (attempt_event_key i) (attempt_event_key j))) [
  | inl b ↦ absurd (apart (attempt_event_key_injective i j ((text_eq_iff _ _).0 b)))
  | inr b ↦ b
]

module _ (p : Platform) (t : Table) where
  abbrev sound_key : (v : Row × UsageEvent) → Sound p t v → v.1.event_key ≡ attempt_event_key v.0.id
  sound_key v s = ap (λ (e : UsageEvent). e.event_key) s.keyed_eq

  -- Where a stored event comes from.
  abbrev Origin : List (Row × UsageEvent) → UsageEvent → Type 0
  Origin valid e = (v : Row × UsageEvent) × Sound p t v × (e ≡ with_state accounting_valid v.1)

  mem-stored :
      (valid : List (Row × UsageEvent)) (e : UsageEvent)
      → All (Sound p t) valid
      → Memᴰ e (stored (events_of valid))
      → Origin valid e
  mem-stored [] e h m = elim m [ ]
  mem-stored (v ∷ valid) e (s, h) (Memᴰ.head x) = (v, s, x)
  mem-stored (v ∷ valid) e (s, h) (Memᴰ.tail m) = mem-stored valid e h m

  above_valid :
      (valid : List (Row × UsageEvent)) (n : ℕ)
      → All (Sound p t) valid
      → t.seq < n
      → contains_key (event_keys (stored (events_of valid))) (attempt_event_key n) ≡ false
  unfolding contains_key
  above_valid [] n h lt = refl
  above_valid ((r, e) ∷ valid) n (s, h) lt =
      rw (sound_key (r, e) s, key_of_other r.id n (λ x. omega (arith, s.mirrors.below, lt, x)))
        (above_valid valid n h lt)

  decode_row-Accepted : (r : Row) (e : UsageEvent) → decode_row p r ≡ ok e → Accepted e.accounting
  decode_row-Accepted r e h = elim (Bool-cases (is_zero r.popped_at)) [
    | inl b ↦ absurd (unfold decode_row in ground arith)
    | inr b ↦
        decode_message-Accepted p r.raw_message r.popped_at e (unfold decode_row in ground arith)
  ]

  pub events-Accepted :
      (valid : List (Row × UsageEvent))
      → All (Sound p t) valid
      → All (λ (e : UsageEvent). Accepted e.accounting) (events_of valid)
  events-Accepted [] h = tt
  events-Accepted ((r, e) ∷ valid) (s, h) = (
    subst (λ (x : UsageEvent). Accepted x.accounting) (sym s.keyed_eq)
        (decode_row-Accepted r s.event s.decodes),
    events-Accepted valid h,
  )

  pub events-Plain :
      (valid : List (Row × UsageEvent)) → All (Sound p t) valid → Plain (events_of valid)
  events-Plain [] h = tt
  events-Plain ((r, e) ∷ valid) (s, h) = (
    subst IsPlain (sym (sound_key (r, e) s)) (attempt_event_key-IsPlain r.id),
    events-Plain valid h,
  )

  pub marks-GoodMark :
      (valid : List (Row × UsageEvent)) (events : List UsageEvent)
      → All (Sound p t) valid
      → ((k : Text)
          → contains_key (event_keys (stored (events_of valid))) k ≡ true
          → contains_key (event_keys events) k ≡ true)
      → All (GoodMark events) (marks_of valid)
  unfolding contains_key
  marks-GoodMark [] events h there = tt
  marks-GoodMark ((r, e) ∷ valid) events (s, h) there = (
    (
      sound_key (r, e) s,
      there (attempt_event_key r.id)
          (rw (sound_key (r, e) s, text_eq_refl (attempt_event_key r.id)) refl),
    ),
    marks-GoodMark valid events h (λ k c. there k (ground (arith))),
  )

  -- The events behind an insertion.
  abbrev pub with_new : List (Row × UsageEvent) → List UsageEvent → List UsageEvent
  with_new valid events = events ++ new_events events (stored (events_of valid))

  pub contains-with_new :
      (valid : List (Row × UsageEvent)) (events : List UsageEvent) (k : Text)
      → contains_key (event_keys (with_new valid events)) k ≡ (
          contains_key (event_keys events) k
          || contains_key (event_keys (stored (events_of valid))) k)
  contains-with_new valid events k =
      contains_event-append events (new_events events (stored (events_of valid))) k
      ∙ contains-new_events events (stored (events_of valid)) k

  new-FromRow :
      (valid : List (Row × UsageEvent)) (r : Row) (e : UsageEvent)
      → Memᴰ r t.rows
      → e.event_key ≡ attempt_event_key r.id
      → Origin valid e
      → FromRow p r e
  new-FromRow valid r e m key (v, s, from) =
      let same_id : v.0.id ≡ r.id =
        attempt_event_key_injective v.0.id r.id
          (sym (sound_key v s) ∙ ap (λ (x : UsageEvent). x.event_key) (sym from) ∙ key) in
      (
        s.event,
        s.mirrors.same r m (sym same_id) ∙ s.decodes,
        from ∙ ap (with_state accounting_valid) (s.keyed_eq ∙ ap (λ i. keyed i s.event) same_id),
      )

  insert-RowOk :
      (valid : List (Row × UsageEvent)) (events : List UsageEvent) (r : Row)
      → All (Sound p t) valid
      → Memᴰ r t.rows
      → RowOk p events r
      → RowOk p (with_new valid events) r
  insert-RowOk valid events r h m ok_r = record {
    done = λ d.
        let (key, there) = ok_r.done d in
        (key, contains-with_new valid events (attempt_event_key r.id) ∙ ground (arith, there));
    from_row = λ e n key. elim (mem-append e events _ n) [
      | inl old ↦ ok_r.from_row e old key
      | inr new ↦ new-FromRow valid r e m key (mem-stored valid e h (mem-new_events e events _ new))
    ];
    retried = ok_r.retried;
    given_up = ok_r.given_up;
  }

  pub insert-Consistent :
      (valid : List (Row × UsageEvent)) (events : List UsageEvent)
      → All (Sound p t) valid
      → Consistent p t events
      → Consistent p t (with_new valid events)
  insert-Consistent valid events h c = record {
    ordered = c.ordered;
    below = c.below;
    row_ok = λ r m. insert-RowOk valid events r h m (c.row_ok r m);
    apart = insert-KeysApart events _ c.apart;
    unused = λ n lt.
        contains-with_new valid events (attempt_event_key n)
        ∙ ground (arith, c.unused n lt, above_valid valid n h lt);
  }
