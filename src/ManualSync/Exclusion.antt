-- ===== src/ManualSync/Exclusion.antt =====
-- At most one caller is inside a manual sync, and none enters behind the closing of the admission.
use cpa_usage.Base.{
  ℕ, ◌+◌, ◌≤◌, ◌≡◌, ◌∙◌, refl, ap, true, List, [], ◌∷◌, ◌++◌, arith, if◌then◌else◌, Bool-cases, inl,
  inr,
}
use cpa_usage.ManualSync.{
  SyncRunner, Caller, waiting, running, turned_away, returned, Shared, with_caller, admitted_caller,
  begin, record_outcome, finish_running, close_admission, Step, begins, records, finishes, closes,
  Steps, stop, step,
}

abbrev one_if : Caller → ℕ
one_if running = 1
one_if _ = 0

-- How many callers are between `begin` and `finishRunning`.
unfoldable pub count_running : List Caller → ℕ
count_running [] = 0
count_running (c ∷ cs) = one_if c + count_running cs

count_running-append :
    (before : List Caller) (c : Caller) (after : List Caller)
    → count_running (before ++ c ∷ after) ≡ count_running before + one_if c + count_running after
unfolding count_running
count_running-append [] c after = omega arith
count_running-append (b ∷ before) c after = omega (arith, count_running-append before c after)

-- The flag counts the callers inside.
abbrev pub Counts : Shared → Type 0
Counts s = count_running s.callers ≡ (if s.runner.manual_running then 1 else 0)

begin-Counts :
    (before after : List Caller) (r : SyncRunner)
    → Counts (with_caller before waiting after r)
    → Counts (with_caller before (admitted_caller (begin r).1) after (begin r).0)
begin-Counts before after r h =
    let old = count_running-append before waiting after in
    elim (Bool-cases r.admission_closed) [
      | inl shut ↦
          unfold begin in
          rw shut (omega (arith, h, old, count_running-append before turned_away after))
      | inr open_ ↦ elim (Bool-cases r.manual_running) [
        | inl busy ↦
            unfold begin in
            rw (open_, busy)
              (omega (
                arith,
                h ∙ ap (λ b. if b then 1 else 0) busy,
                old,
                count_running-append before turned_away after,
              ))
        | inr free ↦
            unfold begin in
            rw (open_, free)
              (omega (
                arith,
                h ∙ ap (λ b. if b then 1 else 0) free,
                old,
                count_running-append before running after,
              ))
      ]
    ]

Step-Counts : (s t : Shared) → Step s t → Counts s → Counts t
unfolding record_outcome finish_running close_admission
Step-Counts s t (begins before after r) h = begin-Counts before after r h
Step-Counts s t (records before after r now o) h = h
Step-Counts s t (finishes before after r) h =
    let old = count_running-append before running after in
    elim (Bool-cases r.manual_running) [
      | inl on ↦ omega (
        arith,
        h ∙ ap (λ b. if b then 1 else 0) on,
        old,
        count_running-append before returned after,
      )
      | inr off ↦ absurd (omega (arith, h ∙ ap (λ b. if b then 1 else 0) off, old))
    ]
Step-Counts s t (closes callers r) h = h

Steps-keeps : (s t : Shared) → Steps s t → Counts s → Counts t
Steps-keeps s t (stop u) c = c
Steps-keeps s t (step u v w before one) c = Step-Counts v w one (Steps-keeps u v before c)

Counts-le : (s : Shared) → Counts s → count_running s.callers ≤ 1
Counts-le s c = elim (Bool-cases s.runner.manual_running) [
  | inl on ↦ omega (arith, c ∙ ap (λ b. if b then 1 else 0) on)
  | inr off ↦ omega (arith, c ∙ ap (λ b. if b then 1 else 0) off)
]

-- However the callers take turns: if the flag counts the callers between `begin` and `finishRunning` at
-- first, at most one caller is there at any time, and the flag is on exactly while one is.
pub Steps-Counts : (s t : Shared) → Steps s t → Counts s → (count_running t.callers ≤ 1) × Counts t
Steps-Counts s t h c = let d = Steps-keeps s t h c in (Counts-le t d, d)

-- Closed for new callers, with at most so many inside.
abbrev pub ClosedWith : ℕ → Shared → Type 0
ClosedWith n s = (s.runner.admission_closed ≡ true) × (count_running s.callers ≤ n)

Step-ClosedWith : (n : ℕ) (s t : Shared) → Step s t → ClosedWith n s → ClosedWith n t
unfolding record_outcome finish_running close_admission
Step-ClosedWith n s t (begins before after r) (shut, h) =
    unfold begin in
    rw shut (
      refl,
      omega (
        arith,
        h,
        count_running-append before waiting after,
        count_running-append before turned_away after,
      ),
    )
Step-ClosedWith n s t (records before after r now o) (shut, h) = (shut, h)
Step-ClosedWith n s t (finishes before after r) (shut, h) = (
  shut,
  omega (
    arith,
    h,
    count_running-append before running after,
    count_running-append before returned after,
  ),
)
Step-ClosedWith n s t (closes callers r) (shut, h) = (refl, h)

-- Once the admission is closed it stays closed, and no caller enters any more: however the callers
-- take turns, there are never more inside than there were.
pub Steps-ClosedWith :
    (s t : Shared)
    → Steps s t
    → s.runner.admission_closed ≡ true
    → ClosedWith (count_running s.callers) t
Steps-ClosedWith s t (stop u) shut = (shut, omega arith)
Steps-ClosedWith s t (step u v w before one) shut =
    Step-ClosedWith (count_running u.callers) v w one (Steps-ClosedWith u v before shut)
