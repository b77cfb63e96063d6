-- ===== src/Inbox/Batches.antt =====
-- The batched UPDATE statements do what one statement over the whole list would do.
use cpa_usage.Base.{
  ℕ, zero, suc, ◌≤◌, ◌≡◌, refl, sym, ap, ◌∙◌, Bool, true, false, ◌||◌, Option, none, List, [], ◌∷◌,
  ◌++◌, arith, if◌then◌else◌, length, take, drop, take-append-drop, length-drop-le, ap₂, subst,
}
use cpa_usage.Text.{Text}
use cpa_usage.Clock.{Time}
use cpa_usage.Inbox.{
  Row, Table, Mark, mark_ids, contains_id, marked_key, update_where, set_processed,
  set_process_failed, in_chunks, mark_processed_chunk, mark_failed_chunk, mark_processed_batch,
  mark_process_failed_batch,
}

-- No id stands twice.
abbrev pub Apart : List ℕ → Type 0
Apart [] = Unit
Apart (i ∷ ids) = (contains_id ids i ≡ false) × Apart ids

contains_id-append :
    (xs ys : List ℕ) (i : ℕ) → contains_id (xs ++ ys) i ≡ (contains_id xs i || contains_id ys i)
unfolding contains_id
contains_id-append [] ys i = refl
contains_id-append (x ∷ xs) ys i = ground (arith, contains_id-append xs ys i)

Apart-append_right : (xs ys : List ℕ) → Apart (xs ++ ys) → Apart ys
Apart-append_right [] ys h = h
Apart-append_right (x ∷ xs) ys h = Apart-append_right xs ys h.1

Apart-append_disjoint :
    (xs ys : List ℕ) (i : ℕ) → Apart (xs ++ ys) → contains_id xs i ≡ true → contains_id ys i ≡ false
unfolding contains_id
Apart-append_disjoint [] ys i a h = ground arith
Apart-append_disjoint (x ∷ xs) ys i (new, a) h =
    ground (arith, contains_id-append xs ys x, Apart-append_disjoint xs ys i a)

mark_ids-append : (xs ys : List Mark) → mark_ids (xs ++ ys) ≡ mark_ids xs ++ mark_ids ys
mark_ids-append [] ys = refl
mark_ids-append (m ∷ xs) ys = ap (◌∷◌ m.id) (mark_ids-append xs ys)

marked_key-append_left :
    (xs ys : List Mark) (i : ℕ) (old : Text)
    → contains_id (mark_ids xs) i ≡ true
    → marked_key (xs ++ ys) i old ≡ marked_key xs i old
unfolding marked_key contains_id
marked_key-append_left [] ys i old h = ground arith
marked_key-append_left (m ∷ xs) ys i old h = ground (arith, marked_key-append_left xs ys i old)

marked_key-append_right :
    (xs ys : List Mark) (i : ℕ) (old : Text)
    → contains_id (mark_ids xs) i ≡ false
    → marked_key (xs ++ ys) i old ≡ marked_key ys i old
unfolding marked_key contains_id
marked_key-append_right [] ys i old h = refl
marked_key-append_right (m ∷ xs) ys i old h = ground (arith, marked_key-append_right xs ys i old)

-- A step that treats a list like its two parts one after the other treats it like its chunks.
module _ {ℓ} {A : Type ℓ} (Fit : List A → Type 0) (step : List A → List Row → List Row)
    (nothing : (rows : List Row) → step [] rows ≡ rows)
    (fit_drop : (xs ys : List A) → Fit (xs ++ ys) → Fit ys)
    (split : (xs ys : List A) (rows : List Row)
      → Fit (xs ++ ys)
      → step (xs ++ ys) rows ≡ step ys (step xs rows)) where
  in_chunks-step :
      (fuel size : ℕ) (xs : List A) (rows : List Row)
      → length xs ≤ fuel
      → Fit xs
      → in_chunks fuel (suc size) step xs rows ≡ step xs rows
  unfolding in_chunks
  in_chunks-step zero size [] rows le h = sym (nothing rows)
  in_chunks-step zero size (x ∷ xs) rows le h = elim le [ ]
  in_chunks-step (suc fuel) size [] rows le h = sym (nothing rows)
  in_chunks-step (suc fuel) size (x ∷ xs) rows le h =
      in_chunks-step fuel size (drop size xs) (step (x ∷ take size xs) rows)
        (omega (arith, length-drop-le size xs)) (fit_drop (x ∷ take size xs) (drop size xs) whole)
      ∙ sym (split (x ∷ take size xs) (drop size xs) rows whole)
      ∙ ap (λ l. step (x ∷ l) rows) (take-append-drop size xs)
    where
      whole : Fit ((x ∷ take size xs) ++ drop size xs)
      whole = subst (λ l. Fit (x ∷ l)) (sym (take-append-drop size xs)) h

-- Two updates by rows' ids make one, if the row-wise functions do.
update_where-compose :
    (p q o : Row → Bool) (f g h : Row → Row) (rows : List Row)
    → ((r : Row)
        → (if o r then h r else r) ≡ (
            if q (if p r then f r else r)
            then g (if p r then f r else r)
            else (if p r then f r else r)))
    → update_where o h rows ≡ update_where q g (update_where p f rows)
unfolding update_where
update_where-compose p q o f g h [] e = refl
update_where-compose p q o f g h (r ∷ rows) e =
    ap₂ ◌∷◌ (e r) (update_where-compose p q o f g h rows e)

update_where-none :
    (p : Row → Bool) (f : Row → Row) (rows : List Row)
    → ((r : Row) → p r ≡ false)
    → update_where p f rows ≡ rows
unfolding update_where
update_where-none p f [] e = refl
update_where-none p f (r ∷ rows) e = ap₂ ◌∷◌ (rw (e r)) (update_where-none p f rows e)

-- `WHERE id IN ids`.
abbrev in_list : List ℕ → Row → Bool
in_list ids r = contains_id ids r.id

module _ (now : Time) (e : Option Text) where
  mark_failed_chunk-append :
      (xs ys : List ℕ) (rows : List Row)
      → Apart (xs ++ ys)
      → mark_failed_chunk now e (xs ++ ys) rows
        ≡ mark_failed_chunk now e ys (mark_failed_chunk now e xs rows)
  unfolding mark_failed_chunk
  mark_failed_chunk-append xs ys rows a =
      update_where-compose (in_list xs) (in_list ys) (in_list (xs ++ ys)) (set_process_failed now e)
        (set_process_failed now e) (set_process_failed now e) rows
        λ r. ground (arith, contains_id-append xs ys r.id, Apart-append_disjoint xs ys r.id a)

  mark_failed_chunk-nil : (rows : List Row) → mark_failed_chunk now e [] rows ≡ rows
  unfolding mark_failed_chunk contains_id
  mark_failed_chunk-nil rows =
      update_where-none (in_list []) (set_process_failed now e) rows (λ r. refl)

  -- For ids that are apart, recording a failure in batches of 994 changes the table, when the
  -- transaction succeeds, as one UPDATE over all ids does: no row's attempts are counted twice.
  mark_process_failed_batch-chunk :
      (ids : List ℕ) (t : Table)
      → Apart ids
      → mark_process_failed_batch none now ids e t
        ≡ (record t { rows = mark_failed_chunk now e ids t.rows }, none)
  unfolding mark_process_failed_batch
  mark_process_failed_batch-chunk [] t a =
      ap (λ rs. (record t { rows = rs }, none)) (sym (mark_failed_chunk-nil t.rows))
  mark_process_failed_batch-chunk (i ∷ ids) t a =
      ap (λ rs. (record t { rows = rs }, none))
        (in_chunks-step Apart (mark_failed_chunk now e) mark_failed_chunk-nil Apart-append_right
          mark_failed_chunk-append (length (i ∷ ids)) 993 (i ∷ ids) t.rows (omega arith) a)

module _ (now : Time) where
  mark_processed_chunk-append :
      (xs ys : List Mark) (rows : List Row)
      → Apart (mark_ids (xs ++ ys))
      → mark_processed_chunk now (xs ++ ys) rows
        ≡ mark_processed_chunk now ys (mark_processed_chunk now xs rows)
  unfolding mark_processed_chunk set_processed
  mark_processed_chunk-append xs ys rows a =
      update_where-compose (in_list (mark_ids xs)) (in_list (mark_ids ys))
        (in_list (mark_ids (xs ++ ys))) (set_processed xs now) (set_processed ys now)
        (set_processed (xs ++ ys) now) rows
        λ r. ground (
          arith,
          mark_ids-append xs ys,
          contains_id-append (mark_ids xs) (mark_ids ys) r.id,
          Apart-append_disjoint (mark_ids xs) (mark_ids ys) r.id
              (subst Apart (mark_ids-append xs ys) a),
          marked_key-append_left xs ys r.id r.usage_event_key,
          marked_key-append_right xs ys r.id r.usage_event_key,
        )

  mark_processed_chunk-nil : (rows : List Row) → mark_processed_chunk now [] rows ≡ rows
  unfolding mark_processed_chunk contains_id
  mark_processed_chunk-nil rows =
      update_where-none (in_list []) (set_processed [] now) rows (λ r. refl)

  -- For marks of ids that are apart, marking in batches of 332 changes the table, when the
  -- transaction succeeds, as one UPDATE over all marks does.
  pub mark_processed_batch-chunk :
      (marks : List Mark) (t : Table)
      → Apart (mark_ids marks)
      → mark_processed_batch none now marks t
        ≡ (record t { rows = mark_processed_chunk now marks t.rows }, none)
  unfolding mark_processed_batch
  mark_processed_batch-chunk [] t a =
      ap (λ rs. (record t { rows = rs }, none)) (sym (mark_processed_chunk-nil t.rows))
  mark_processed_batch-chunk (m ∷ marks) t a =
      ap (λ rs. (record t { rows = rs }, none))
        (in_chunks-step (λ ms. Apart (mark_ids ms)) (mark_processed_chunk now)
          mark_processed_chunk-nil
          (λ xs ys h.
            Apart-append_right (mark_ids xs) (mark_ids ys) (subst Apart (mark_ids-append xs ys) h))
          mark_processed_chunk-append (length (m ∷ marks)) 331 (m ∷ marks) t.rows (omega arith) a)
