-- ===== src/Processor/Marked.antt =====
-- The batched UPDATE that marks rows as processed settles each marked row, and touches no other.
use cpa_usage.Base.{
  ℕ, zero, suc, ◌≤◌, ◌≡◌, refl, sym, ap, true, ◌||◌, none, List, [], ◌∷◌, ◌++◌, arith, take, drop,
  take-append-drop, length, length-drop-le, Bool-cases, inl, inr, subst,
}
use cpa_usage.Clock.{Time}
use cpa_usage.Attempt.Types.{UsageEvent}
use cpa_usage.Inbox.{
  Row, Table, Mark, mark_ids, contains_id, set_processed, in_chunks, mark_processed_batch,
  mark_processed_chunk,
}
use cpa_usage.Processor.{ids_of, marks_of}
use cpa_usage.Processor.Waiting.{
  Waiting, Settled, Settled-Waiting, update-Waiting, update-Settled, processed_rest,
}

pub mark_ids-marks_of : (valid : List (Row × UsageEvent)) → mark_ids (marks_of valid) ≡ ids_of valid
mark_ids-marks_of [] = refl
mark_ids-marks_of ((r, e) ∷ valid) = ap (◌∷◌ r.id) (mark_ids-marks_of valid)

-- What is known behind a statement: which rows wait, and that the marked ones do not.
pub record Marked (before : List Row) (marks : List Mark) (after : List Row) : Type 0 where
  pub waiting : Waiting before after
  pub settled : (i : ℕ) → contains_id (mark_ids marks) i ≡ true → Settled after i

chunk-Marked :
    (now : Time) (marks : List Mark) (rows : List Row)
    → Marked rows marks (mark_processed_chunk now marks rows)
unfolding mark_processed_chunk
chunk-Marked now marks rows = record {
  waiting =
      update-Waiting (λ r. contains_id (mark_ids marks) r.id) (set_processed marks now)
        (processed_rest marks now) rows;
  settled = λ i b.
      update-Settled (λ r. contains_id (mark_ids marks) r.id) (set_processed marks now)
        (processed_rest marks now) rows i
        (λ r e. subst (λ n. contains_id (mark_ids marks) n ≡ true) (sym e) b);
}

contains_ids-append :
    (xs ys : List Mark) (i : ℕ)
    → contains_id (mark_ids (xs ++ ys)) i
      ≡ (contains_id (mark_ids xs) i || contains_id (mark_ids ys) i)
unfolding contains_id
contains_ids-append [] ys i = refl
contains_ids-append (x ∷ xs) ys i = ground (arith, contains_ids-append xs ys i)

Marked-append :
    (xs ys : List Mark) (a b c : List Row) → Marked a xs b → Marked b ys c → Marked a (xs ++ ys) c
Marked-append xs ys a b c f g = record {
  waiting = λ r m w. f.waiting r (g.waiting r m w) w;
  settled = λ i h. elim (Bool-cases (contains_id (mark_ids ys) i)) [
    | inl here ↦ g.settled i here
    | inr not_here ↦
        Settled-Waiting b c i g.waiting (f.settled i (ground (arith, contains_ids-append xs ys i)))
  ];
}

Marked-nil : (rows : List Row) → Marked rows [] rows
unfolding contains_id
Marked-nil rows = record { waiting = λ r m w. m; settled = λ i h. absurd (cc) }

chunks-Marked :
    (now : Time) (fuel size : ℕ) (marks : List Mark) (rows : List Row)
    → length marks ≤ fuel
    → Marked rows marks (in_chunks fuel (suc size) (mark_processed_chunk now) marks rows)
unfolding in_chunks
chunks-Marked now zero size [] rows le = Marked-nil rows
chunks-Marked now zero size (m ∷ marks) rows le = elim le [ ]
chunks-Marked now (suc fuel) size [] rows le = Marked-nil rows
chunks-Marked now (suc fuel) size (m ∷ marks) rows le =
    let rows' = mark_processed_chunk now (m ∷ take size marks) rows in
    let after = in_chunks fuel (suc size) (mark_processed_chunk now) (drop size marks) rows' in
    subst (λ l. Marked rows (m ∷ l) after) (take-append-drop size marks)
      (Marked-append (m ∷ take size marks) (drop size marks) rows rows' after
        (chunk-Marked now (m ∷ take size marks) rows)
        (chunks-Marked now fuel size (drop size marks) rows'
          (omega (arith, length-drop-le size marks))))

pub batch-Marked :
    (now : Time) (marks : List Mark) (t : Table)
    → Marked t.rows marks (mark_processed_batch none now marks t).0.rows
unfolding mark_processed_batch
batch-Marked now [] t = Marked-nil t.rows
batch-Marked now (m ∷ marks) t =
    chunks-Marked now (length (m ∷ marks)) 331 (m ∷ marks) t.rows (omega arith)

batch_fault :
    (now : Time) (marks : List Mark) (t : Table) → (mark_processed_batch none now marks t).1 ≡ none
unfolding mark_processed_batch
batch_fault now [] t = refl
batch_fault now (m ∷ marks) t = refl
