-- ===== src/Events/Admit.antt =====
-- The first loop of `InsertUsageEvents` on events with canonical facts.
use cpa_usage.Base.{
  ℕ, ◌≡◌, refl, sym, ap, ◌∙◌, none, some, List, [], ◌∷◌, ◌++◌, append-nil, arith, All, length, ◌-◌,
}
use cpa_usage.Result.{Result, ok, err}
use cpa_usage.Text.{Text}
use cpa_usage.Accounting.{accounting_valid}
use cpa_usage.Attempt.Types.{UsageEvent}
use cpa_usage.Attempt.Valid.{Accepted}
use cpa_usage.Events.{
  Store, admit, with_state, cons_result, new_events, insert_usage_events, insert_admitted,
  insert_result,
}
use cpa_usage.Events.BatchSize.{insert_batch_size-suc}
use cpa_usage.Events.Insert.{Plain, add_events, insert_admitted_lem}

abbrev pub stored : List UsageEvent → List UsageEvent
stored [] = []
stored (e ∷ es) = with_state accounting_valid e ∷ stored es

admit-Accepted :
    (quote : Text → Text) (es : List UsageEvent)
    → All (λ (e : UsageEvent). Accepted e.accounting) es
    → admit quote es ≡ ok (stored es)
unfolding admit
admit-Accepted quote [] h = refl
admit-Accepted quote (e ∷ es) (a, h) =
    rw (a.there, a.valid)
      (ap (cons_result (with_state accounting_valid e)) (admit-Accepted quote es h))

Plain-stored : (es : List UsageEvent) → Plain es → Plain (stored es)
Plain-stored [] h = tt
Plain-stored (e ∷ es) (k, h) = (k, Plain-stored es h)

length-stored : (es : List UsageEvent) → length (stored es) ≡ length es
length-stored [] = refl
length-stored (e ∷ es) = omega (arith, length-stored es)

module _ {R : Type 0} (increment : List UsageEvent → R → R) where
  -- The store with the events that are new, as they are stored.
  abbrev pub inserted_store : List UsageEvent → Store R → Store R
  inserted_store es s = record {
    events = s.events ++ new_events s.events (stored es);
    rollups = add_events increment (new_events s.events (stored es)) s.rollups;
  }

  abbrev pub insertion : ℕ → List UsageEvent → Store R → Store R × Result (ℕ × ℕ)
  insertion n es s = (
    inserted_store es s,
    ok (length (new_events s.events (stored es)), n - length (new_events s.events (stored es))),
  )

  -- A call that does not fail, on events with canonical facts and plain keys.
  pub insert_usage_events-Accepted :
      (quote : Text → Text) (columns : ℕ) (es : List UsageEvent) (s : Store R)
      → All (λ (e : UsageEvent). Accepted e.accounting) es
      → Plain es
      → insert_usage_events increment quote columns none es s ≡ insertion (length es) es s
  unfolding insert_usage_events
  insert_usage_events-Accepted quote columns [] s a h =
      unfold new_events in
      λ j. (record { events = sym (append-nil s.events) j; rollups = s.rollups }, ok (0, 0))
  insert_usage_events-Accepted quote columns (e ∷ es) s a h =
      let (size, size_eq) = insert_batch_size-suc columns in
      ap (λ r. insert_result increment none columns r s) (admit-Accepted quote (e ∷ es) a)
      ∙ ap (λ n. insert_admitted increment none n (stored (e ∷ es)) s) size_eq
      ∙ insert_admitted_lem increment size (stored (e ∷ es)) s (Plain-stored (e ∷ es) h)
      ∙ ap (λ n. insertion n (e ∷ es) s) (length-stored (e ∷ es))

  -- A call that fails, on events with canonical facts: nothing changes.
  pub insert_usage_events-fault :
      (quote : Text → Text) (columns : ℕ) (m : Text) (e : UsageEvent) (es : List UsageEvent)
      (s : Store R)
      → All (λ (x : UsageEvent). Accepted x.accounting) (e ∷ es)
      → insert_usage_events increment quote columns (some m) (e ∷ es) s ≡ (s, err m)
  unfolding insert_usage_events insert_admitted
  insert_usage_events-fault quote columns m e es s a =
      ap (λ r. insert_result increment (some m) columns r s) (admit-Accepted quote (e ∷ es) a)
