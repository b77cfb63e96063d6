-- ===== src/Inbox/Updates.antt =====
-- How the rows of the table change: an update keeps the order, and each row after it comes from one
-- before it.
use mathlib.Core.List.{Memᴰ}
use cpa_usage.Base.{
  ℕ, zero, suc, ◌<◌, ◌≡◌, refl, sym, ap, ◌∙◌, Bool, true, false, List, [], ◌∷◌, arith,
  if◌then◌else◌, take, All, subst,
}
use cpa_usage.Inbox.{Row, is_processable, update_where}
use cpa_usage.Inbox.Order.{Ascending, processable}

-- Where a row of an updated table comes from.
pub record From (test : Row → Bool) (set : Row → Row) (rows : List Row) (r : Row) : Type 0 where
  pub row : Row
  pub there : Memᴰ row rows
  pub is_set : r ≡ (if test row then set row else row)

module _ (test : Row → Bool) (set : Row → Row) where
  pub update_where-From :
      (r : Row) (rows : List Row) → Memᴰ r (update_where test set rows) → From test set rows r
  unfolding update_where
  update_where-From r [] m = elim m [ ]
  update_where-From r (q ∷ rows) (Memᴰ.head e) = record {
    row = q;
    there = Memᴰ.head refl;
    is_set = e;
  }
  update_where-From r (q ∷ rows) (Memᴰ.tail m) =
      let f = update_where-From r rows m in
      record { row = f.row; there = Memᴰ.tail f.there; is_set = f.is_set }

  module _ (keeps_id : (r : Row) → (set r).id ≡ r.id) where
    All-update_where :
        (n : ℕ) (rows : List Row)
        → All (λ (q : Row). n < q.id) rows
        → All (λ (q : Row). n < q.id) (update_where test set rows)
    unfolding update_where
    All-update_where n [] h = tt
    All-update_where n (q ∷ rows) (p, h) = (ground (arith, keeps_id q), All-update_where n rows h)

    pub update_where-Ascending :
        (rows : List Row) → Ascending rows → Ascending (update_where test set rows)
    unfolding update_where
    update_where-Ascending [] h = tt
    update_where-Ascending (q ∷ rows) (below, h) = (
      subst (λ n. All (λ (x : Row). n < x.id) (update_where test set rows)) (id_eq q)
          (All-update_where q.id rows below),
      update_where-Ascending rows h,
    )
      where
        id_eq : (r : Row) → r.id ≡ (if test r then set r else r).id
        id_eq r = ground (arith, keeps_id r)

All-lt :
    (n : ℕ) (r : Row) (rows : List Row) → All (λ (q : Row). n < q.id) rows → Memᴰ r rows → n < r.id
All-lt n r [] h m = elim m [ ]
All-lt n r (q ∷ rows) (p, h) (Memᴰ.head e) = subst (λ (x : Row). n < x.id) (sym e) p
All-lt n r (q ∷ rows) (p, h) (Memᴰ.tail m) = All-lt n r rows h m

-- In a table in id order an id stands once.
pub Ascending-unique :
    (a b : Row) (rows : List Row) → Ascending rows → Memᴰ a rows → Memᴰ b rows → a.id ≡ b.id → a ≡ b
Ascending-unique a b [] h m n e = elim m [ ]
Ascending-unique a b (q ∷ rows) (below, h) (Memᴰ.head x) (Memᴰ.head y) e = x ∙ sym y
Ascending-unique a b (q ∷ rows) (below, h) (Memᴰ.head x) (Memᴰ.tail n) e =
    absurd (omega (arith, All-lt q.id b rows below n, ap (λ (r : Row). r.id) x))
Ascending-unique a b (q ∷ rows) (below, h) (Memᴰ.tail m) (Memᴰ.head y) e =
    absurd (omega (arith, All-lt q.id a rows below m, ap (λ (r : Row). r.id) y))
Ascending-unique a b (q ∷ rows) (below, h) (Memᴰ.tail m) (Memᴰ.tail n) e =
    Ascending-unique a b rows h m n e

pub mem-take : (n : ℕ) (r : Row) (rows : List Row) → Memᴰ r (take n rows) → Memᴰ r rows
mem-take zero r rows m = elim m [ ]
mem-take (suc n) r [] m = elim m [ ]
mem-take (suc n) r (q ∷ rows) (Memᴰ.head e) = Memᴰ.head e
mem-take (suc n) r (q ∷ rows) (Memᴰ.tail m) = Memᴰ.tail (mem-take n r rows m)

-- A row that is processable and stands in the table.
abbrev pub Waits : Row → List Row → Type 0
Waits r rows = Memᴰ r rows × (is_processable r.status ≡ true)

Waits-cons :
    (r q : Row) (rows rest : List Row) (b : Bool)
    → is_processable q.status ≡ b
    → (Memᴰ r rest → Waits r rows)
    → Memᴰ r (if b then q ∷ rest else rest)
    → Waits r (q ∷ rows)
Waits-cons r q rows rest true e h (Memᴰ.head x) =
    (Memᴰ.head x, subst (λ (y : Row). is_processable y.status ≡ true) (sym x) e)
Waits-cons r q rows rest true e h (Memᴰ.tail m) = let (n, w) = h m in (Memᴰ.tail n, w)
Waits-cons r q rows rest false e h m = let (n, w) = h m in (Memᴰ.tail n, w)

pub mem-processable : (r : Row) (rows : List Row) → Memᴰ r (processable rows) → Waits r rows
unfolding processable
mem-processable r [] m = elim m [ ]
mem-processable r (q ∷ rows) m =
    Waits-cons r q rows (processable rows) (is_processable q.status) refl (mem-processable r rows) m
