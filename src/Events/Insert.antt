-- ===== src/Events/Insert.antt =====
-- The batched insertion inserts what one statement over all events would insert, and hands exactly
-- the new events to the rollups.
use cpa_usage.Base.{
  ℕ, zero, suc, ◌-◌, ◌≤◌, ◌≡◌, refl, sym, ap, ap₂, ◌∙◌, true, false, ◌&&◌, ◌||◌, not, none, List,
  [], ◌∷◌, ◌++◌, append_assoc, append-nil, arith, if◌then◌else◌, ltb, length, length-append, take,
  drop, take-append-drop, length-drop-le, All, Bool-cases, inl, inr, subst,
}
use cpa_usage.Result.{ok}
use cpa_usage.Text.{Text, text_eq_iff, text_eq_refl, is_empty}
use cpa_usage.Text.Trim.{trim_space}
use cpa_usage.Attempt.Types.{UsageEvent}
use cpa_usage.Events.{
  contains_key, event_keys, select_keys, new_events, batch_keys, trimmed, not_in, Progress,
  insert_batch, insert_loop, Store, committed, insert_admitted,
}
use cpa_usage.Events.Keys.{
  contains_key-append, contains_event-append, new_events-disjoint, contains-new_events,
  new_events-append,
}

-- A key that trimming leaves alone, and that is not empty.
abbrev pub IsPlain : Text → Type 0
IsPlain k = (trim_space k ≡ k) × (is_empty k ≡ false)

abbrev pub Plain : List UsageEvent → Type 0
Plain = All (λ (e : UsageEvent). IsPlain e.event_key)

batch_keys-Plain : (es : List UsageEvent) → Plain es → batch_keys es ≡ event_keys es
unfolding batch_keys
batch_keys-Plain [] h = refl
batch_keys-Plain (e ∷ es) ((fixed, there), h) =
    rw (fixed, there) (ap (◌∷◌ e.event_key) (batch_keys-Plain es h))

trim_space-key :
    (es : List UsageEvent) (k : Text)
    → Plain es
    → contains_key (event_keys es) k ≡ true
    → trim_space k ≡ k
unfolding contains_key
trim_space-key [] k h c = ground arith
trim_space-key (e ∷ es) k ((fixed, there), h) c =
    ground (arith, text_eq_iff e.event_key k, trim_space-key es k h)

contains-select_keys :
    (keys : List Text) (table : List UsageEvent) (k : Text)
    → contains_key (event_keys (select_keys keys table)) k
      ≡ (contains_key keys k && contains_key (event_keys table) k)
unfolding select_keys
contains-select_keys keys [] k = ground arith
contains-select_keys keys (e ∷ table) k =
    ground (arith, text_eq_iff e.event_key k, contains-select_keys keys table k)

trimmed-select_keys :
    (es table : List UsageEvent)
    → Plain es
    → trimmed (event_keys (select_keys (event_keys es) table))
      ≡ event_keys (select_keys (event_keys es) table)
unfolding select_keys trimmed
trimmed-select_keys es [] h = refl
trimmed-select_keys es (e ∷ table) h =
    elim (Bool-cases (contains_key (event_keys es) e.event_key)) [
      | inl c ↦ rw c (ap₂ ◌∷◌ (trim_space-key es e.event_key h c) (trimmed-select_keys es table h))
      | inr c ↦ rw c (trimmed-select_keys es table h)
    ]

contains-not_in :
    (existing ks : List Text) (k : Text)
    → contains_key (not_in existing ks) k ≡ (contains_key ks k && not (contains_key existing k))
unfolding not_in contains_key
contains-not_in existing [] k = ground arith
contains-not_in existing (j ∷ ks) k = ground (arith, text_eq_iff j k, contains-not_in existing ks k)

missing_keys : List UsageEvent → List UsageEvent → List Text
missing_keys table batch =
    not_in (trimmed (event_keys (select_keys (batch_keys batch) table))) (batch_keys batch)

-- The keys of the batch that no row had are the keys of the new events.
contains-missing_keys :
    (table batch : List UsageEvent) (k : Text)
    → Plain batch
    → contains_key (missing_keys table batch) k
      ≡ contains_key (event_keys (new_events table batch)) k
unfolding missing_keys
contains-missing_keys table batch k h =
    rw (batch_keys-Plain batch h, trimmed-select_keys batch table h)
      (ground (
        arith,
        contains-not_in (event_keys (select_keys (event_keys batch) table)) (event_keys batch) k,
        contains-select_keys (event_keys batch) table k,
        contains-new_events table batch k,
        new_events-disjoint table batch k,
      ))

affected_if_new :
    (fresh : List UsageEvent) (xs missing : List Text) (k : Text)
    → contains_key missing k ≡ contains_key (event_keys fresh) k
    → contains_key (if ltb 0 (length fresh) then xs ++ missing else xs) k
      ≡ (contains_key xs k || contains_key (event_keys fresh) k)
affected_if_new [] xs missing k h = unfold contains_key in ground arith
affected_if_new (e ∷ fresh) xs missing k h = ground (arith, contains_key-append xs missing k)

batch_affected :
    (batch : List UsageEvent) (s : Progress) (k : Text)
    → Plain batch
    → contains_key (insert_batch batch s).affected k
      ≡ (contains_key s.affected k || contains_key (event_keys (new_events s.table batch)) k)
unfolding insert_batch missing_keys
batch_affected batch s k h =
    affected_if_new (new_events s.table batch) s.affected (missing_keys s.table batch) k
      (contains-missing_keys s.table batch k h)

-- What the loop knows of the events `done`.
record Inserted (table done : List UsageEvent) (s : Progress) : Type 0 where
  table_eq : s.table ≡ table ++ new_events table done
  count_eq : s.inserted ≡ length (new_events table done)
  affected_eq :
      (k : Text) → contains_key s.affected k ≡ contains_key (event_keys (new_events table done)) k

Inserted-batch :
    (table done batch : List UsageEvent) (s : Progress)
    → Plain batch
    → Inserted table done s
    → Inserted table (done ++ batch) (insert_batch batch s)
Inserted-batch table done batch s h i =
    let split : new_events table (done ++ batch)
        ≡ new_events table done ++ new_events s.table batch =
      new_events-append table done batch
      ∙ ap (λ t. new_events table done ++ new_events t batch) (sym i.table_eq) in
    record {
      table_eq =
          unfold insert_batch in
          ap (λ t. t ++ new_events s.table batch) i.table_eq
          ∙ append_assoc table (new_events table done) (new_events s.table batch)
          ∙ ap (λ t. table ++ t) (sym split);
      count_eq =
          unfold insert_batch in
          omega (
            arith,
            i.count_eq,
            ap length split,
            length-append (new_events table done) (new_events s.table batch),
          );
      affected_eq = λ k.
          batch_affected batch s k h
          ∙ ap (λ b. b || contains_key (event_keys (new_events s.table batch)) k) (i.affected_eq k)
          ∙ sym (contains_event-append (new_events table done) (new_events s.table batch) k)
          ∙ ap (λ t. contains_key (event_keys t) k) (sym split);
    }

Inserted-start :
    (table : List UsageEvent)
    → Inserted table [] (record { table = table; inserted = 0; affected = [] })
unfolding new_events
Inserted-start table = record {
  table_eq = sym (append-nil table);
  count_eq = refl;
  affected_eq = λ k. refl;
}

Plain-split : (xs ys : List UsageEvent) → Plain (xs ++ ys) → Plain xs × Plain ys
Plain-split [] ys h = (tt, h)
Plain-split (e ∷ xs) ys (p, h) = let (hx, hy) = Plain-split xs ys h in ((p, hx), hy)

Inserted-loop :
    (fuel size : ℕ) (table done rest : List UsageEvent) (s : Progress)
    → length rest ≤ fuel
    → Plain rest
    → Inserted table done s
    → Inserted table (done ++ rest) (insert_loop fuel (suc size) rest s)
unfolding insert_loop
Inserted-loop zero size table done [] s le h i = rw (append-nil done) i
Inserted-loop zero size table done (e ∷ es) s le h i = elim le [ ]
Inserted-loop (suc fuel) size table done [] s le h i = rw (append-nil done) i
Inserted-loop (suc fuel) size table done (e ∷ es) s le h i =
    let whole : (e ∷ take size es) ++ drop size es ≡ e ∷ es =
      ap (◌∷◌ e) (take-append-drop size es) in
    let (first, later) =
      Plain-split (e ∷ take size es) (drop size es) (subst Plain (sym whole) h) in
    subst
      (λ l.
        Inserted table l
          (insert_loop fuel (suc size) (drop size es) (insert_batch (e ∷ take size es) s)))
      (append_assoc done (e ∷ take size es) (drop size es) ∙ ap (λ l. done ++ l) whole)
      (Inserted-loop fuel size table (done ++ (e ∷ take size es)) (drop size es)
        (insert_batch (e ∷ take size es) s) (omega (arith, length-drop-le size es)) later
        (Inserted-batch table done (e ∷ take size es) s first i))

select_keys-append :
    (ks : List Text) (xs ys : List UsageEvent)
    → select_keys ks (xs ++ ys) ≡ select_keys ks xs ++ select_keys ks ys
unfolding select_keys
select_keys-append ks [] ys = refl
select_keys-append ks (e ∷ xs) ys = ground (arith, select_keys-append ks xs ys)

select_keys-none :
    (ks : List Text) (xs : List UsageEvent)
    → ((k : Text) → contains_key (event_keys xs) k ≡ true → contains_key ks k ≡ false)
    → select_keys ks xs ≡ []
unfolding select_keys
select_keys-none ks [] h = refl
select_keys-none ks (e ∷ xs) h =
    let absent : contains_key ks e.event_key ≡ false =
      h e.event_key (unfold contains_key in ground (arith, text_eq_refl e.event_key)) in
    rw absent (select_keys-none ks xs (λ k c. h k (unfold contains_key in ground arith)))

select_keys-all :
    (ks : List Text) (xs : List UsageEvent)
    → ((k : Text) → contains_key (event_keys xs) k ≡ true → contains_key ks k ≡ true)
    → select_keys ks xs ≡ xs
unfolding select_keys
select_keys-all ks [] h = refl
select_keys-all ks (e ∷ xs) h =
    let there : contains_key ks e.event_key ≡ true =
      h e.event_key (unfold contains_key in ground (arith, text_eq_refl e.event_key)) in
    rw there (ap (◌∷◌ e) (select_keys-all ks xs (λ k c. h k (unfold contains_key in ground arith))))

-- The rows of the affected keys are the new events.
select-affected :
    (table events : List UsageEvent) (ks : List Text)
    → ((k : Text) → contains_key ks k ≡ contains_key (event_keys (new_events table events)) k)
    → select_keys ks (table ++ new_events table events) ≡ new_events table events
select-affected table events ks h =
    select_keys-append ks table (new_events table events)
    ∙ ap₂ ◌++◌ (select_keys-none ks table (λ k c. h k ∙ new_events-disjoint table events k c))
        (select_keys-all ks (new_events table events) (λ k c. h k ∙ c))

-- Nothing new leaves the rollups alone.
abbrev pub add_events : {R : Type 0} → (List UsageEvent → R → R) → List UsageEvent → R → R
add_events increment [] r = r
add_events increment (e ∷ es) r = increment (e ∷ es) r

module _ {R : Type 0} (increment : List UsageEvent → R → R) where
  rollups_eq :
      (ks : List Text) (selected fresh : List UsageEvent) (r : R)
      → ((k : Text) → contains_key ks k ≡ contains_key (event_keys fresh) k)
      → selected ≡ fresh
      → (elim ks [ [] ↦ r | k ∷ l ↦ increment selected r ]) ≡ add_events increment fresh r
  unfolding contains_key
  rollups_eq [] selected [] r h e = refl
  rollups_eq [] selected (f ∷ fs) r h e =
      absurd (ground (arith, h f.event_key, text_eq_refl f.event_key))
  rollups_eq (k ∷ l) selected [] r h e = absurd (ground (arith, h k, text_eq_refl k))
  rollups_eq (k ∷ l) selected (f ∷ fs) r h e = ap (λ t. increment t r) e

  -- Whatever the batch size: when the transaction succeeds, events with plain keys are appended
  -- in order, each key once and only if no row had it; the counts are those of the new and of the
  -- skipped events; and the rollups grow by exactly the new events.
  pub insert_admitted_lem :
      (size : ℕ) (events : List UsageEvent) (s : Store R)
      → Plain events
      → insert_admitted increment none (suc size) events s ≡ (
        record {
          events = s.events ++ new_events s.events events;
          rollups = add_events increment (new_events s.events events) s.rollups;
        },
        ok (
          length (new_events s.events events),
          length events - length (new_events s.events events),
        ),
      )
  unfolding insert_admitted committed
  insert_admitted_lem size events s h =
      let p =
        insert_loop (length events) (suc size) events
          (record { table = s.events; inserted = 0; affected = [] }) in
      let i : Inserted s.events events p =
        Inserted-loop (length events) size s.events [] events _ (omega arith) h
          (Inserted-start s.events) in
      let selected : select_keys p.affected p.table ≡ new_events s.events events =
        ap (select_keys p.affected) i.table_eq
        ∙ select-affected s.events events p.affected i.affected_eq in
      λ j. (
        record {
          events = i.table_eq j;
          rollups =
              rollups_eq p.affected (select_keys p.affected p.table) (new_events s.events events)
                s.rollups i.affected_eq selected j;
        },
        ok (i.count_eq j, length events - i.count_eq j),
      )
