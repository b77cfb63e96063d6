-- ===== src/Events/Keys.antt =====
-- Keys in a table of events.
use cpa_usage.Base.{
  ◌≡◌, refl, sym, ap, true, false, ◌||◌, List, [], ◌∷◌, ◌++◌, append_assoc, append-nil, arith,
  Bool-cases, inl, inr,
}
use cpa_usage.Text.{Text, text_eq_iff, text_eq_refl}
use cpa_usage.Attempt.Types.{UsageEvent}
use cpa_usage.Events.{contains_key, event_keys, new_events}

pub contains_key-append :
    (xs ys : List Text) (k : Text)
    → contains_key (xs ++ ys) k ≡ (contains_key xs k || contains_key ys k)
unfolding contains_key
contains_key-append [] ys k = refl
contains_key-append (x ∷ xs) ys k = ground (arith, contains_key-append xs ys k)

event_keys-append :
    (xs ys : List UsageEvent) → event_keys (xs ++ ys) ≡ event_keys xs ++ event_keys ys
event_keys-append [] ys = refl
event_keys-append (e ∷ xs) ys = ap (◌∷◌ e.event_key) (event_keys-append xs ys)

pub contains_event-append :
    (xs ys : List UsageEvent) (k : Text)
    → contains_key (event_keys (xs ++ ys)) k
      ≡ (contains_key (event_keys xs) k || contains_key (event_keys ys) k)
contains_event-append xs ys k =
    rw (event_keys-append xs ys) (contains_key-append (event_keys xs) (event_keys ys) k)

-- A key of the table is not among the new ones.
pub new_events-disjoint :
    (table es : List UsageEvent) (k : Text)
    → contains_key (event_keys table) k ≡ true
    → contains_key (event_keys (new_events table es)) k ≡ false
unfolding new_events contains_key
new_events-disjoint table [] k h = refl
new_events-disjoint table (e ∷ es) k h = ground (
  arith,
  text_eq_iff e.event_key k,
  new_events-disjoint table es k,
  new_events-disjoint (table ++ e ∷ []) es k,
  contains_event-append table (e ∷ []) k,
)

-- After the insertion the table has the keys that it had, and those of the events.
pub contains-new_events :
    (table es : List UsageEvent) (k : Text)
    → (contains_key (event_keys table) k || contains_key (event_keys (new_events table es)) k)
      ≡ (contains_key (event_keys table) k || contains_key (event_keys es) k)
unfolding new_events contains_key
contains-new_events table [] k = refl
contains-new_events table (e ∷ es) k = ground (
  arith,
  text_eq_iff e.event_key k,
  contains-new_events table es k,
  contains-new_events (table ++ e ∷ []) es k,
  contains_event-append table (e ∷ []) k,
)

-- Inserting two lists one after the other inserts their concatenation.
pub new_events-append :
    (table xs ys : List UsageEvent)
    → new_events table (xs ++ ys)
      ≡ new_events table xs ++ new_events (table ++ new_events table xs) ys
unfolding new_events
new_events-append table [] ys = ap (λ t. new_events t ys) (sym (append-nil table))
new_events-append table (e ∷ xs) ys = ground (
  arith,
  new_events-append table xs ys,
  new_events-append (table ++ e ∷ []) xs ys,
  append_assoc table (e ∷ []) (new_events (table ++ e ∷ []) xs),
)

-- Each key once.
abbrev pub KeysApart : List UsageEvent → Type 0
KeysApart [] = Unit
KeysApart (e ∷ es) = (contains_key (event_keys es) e.event_key ≡ false) × KeysApart es

KeysApart-append :
    (xs ys : List UsageEvent)
    → KeysApart xs
    → KeysApart ys
    → ((k : Text) → contains_key (event_keys xs) k ≡ true → contains_key (event_keys ys) k ≡ false)
    → KeysApart (xs ++ ys)
unfolding contains_key
KeysApart-append [] ys hx hy d = hy
KeysApart-append (e ∷ xs) ys (new, hx) hy d = (
  ground (arith, contains_event-append xs ys e.event_key, d e.event_key, text_eq_refl e.event_key),
  KeysApart-append xs ys hx hy (λ k h. d k (ground arith)),
)

new_events-KeysApart : (table es : List UsageEvent) → KeysApart (new_events table es)
unfolding new_events
new_events-KeysApart table [] = tt
new_events-KeysApart table (e ∷ es) =
    elim (Bool-cases (contains_key (event_keys table) e.event_key)) [
      | inl old ↦ rw (old, new_events) (new_events-KeysApart table es)
      | inr new ↦
          rw (new, new_events)
            (
              new_events-disjoint (table ++ e ∷ []) es e.event_key (
                  unfold contains_key in
                  ground (
                    arith,
                    contains_event-append table (e ∷ []) e.event_key,
                    text_eq_refl e.event_key,
                  )),
              new_events-KeysApart (table ++ e ∷ []) es,
            )
    ]

-- The unique index: an insertion leaves no key twice.
pub insert-KeysApart :
    (table es : List UsageEvent) → KeysApart table → KeysApart (table ++ new_events table es)
insert-KeysApart table es h =
    KeysApart-append table (new_events table es) h (new_events-KeysApart table es)
      (λ k. new_events-disjoint table es k)
