-- ===== src/Inbox/Order.antt =====
-- The order of the rows: what `ListProcessableRedisUsageInbox` returns of a table in id order.
use cpa_usage.Base.{
  ℕ, suc, ◌<◌, ◌≡◌, refl, ap, ◌∙◌, Bool, true, false, List, [], ◌∷◌, arith, if◌then◌else◌, take,
  All, Bool-cases, inl, inr,
}
use cpa_usage.Inbox.{
  Row, Table, is_processable, delete_where, insert_by_id, order_by_id, list_processable,
}

abbrev pub Ascending : List Row → Type 0
Ascending [] = Unit
Ascending (r ∷ rs) = All (λ (q : Row). r.id < q.id) rs × Ascending rs

insert_by_id-Ascending :
    (r : Row) (rs : List Row) → All (λ (q : Row). r.id < q.id) rs → insert_by_id r rs ≡ r ∷ rs
unfolding insert_by_id
insert_by_id-Ascending r [] h = refl
insert_by_id-Ascending r (q ∷ qs) h = ground arith

order_by_id-Ascending : (rs : List Row) → Ascending rs → order_by_id rs ≡ rs
unfolding order_by_id
order_by_id-Ascending [] h = refl
order_by_id-Ascending (r ∷ rs) (below, h) =
    rw (order_by_id-Ascending rs h) (insert_by_id-Ascending r rs below)

module _ (test : Row → Bool) where
  All-delete_where : (P : Row → Type 0) (rs : List Row) → All P rs → All P (delete_where test rs)
  unfolding delete_where
  All-delete_where P [] h = tt
  All-delete_where P (r ∷ rs) (p, h) = elim (Bool-cases (test r)) [
    | inl gone ↦ rw gone (All-delete_where P rs h)
    | inr stays ↦ rw stays (p, All-delete_where P rs h)
  ]

  pub delete_where-Ascending : (rs : List Row) → Ascending rs → Ascending (delete_where test rs)
  unfolding delete_where
  delete_where-Ascending [] h = tt
  delete_where-Ascending (r ∷ rs) (below, h) = elim (Bool-cases (test r)) [
    | inl gone ↦ rw gone (delete_where-Ascending rs h)
    | inr stays ↦ rw stays (All-delete_where _ rs below, delete_where-Ascending rs h)
  ]

-- The processable rows of a table, in the order of the table.
unfoldable pub processable : List Row → List Row
processable [] = []
processable (r ∷ rs) = if is_processable r.status then r ∷ processable rs else processable rs

delete_where-processable :
    (rs : List Row)
    → delete_where (λ r. if is_processable r.status then false else true) rs ≡ processable rs
unfolding delete_where processable
delete_where-processable [] = refl
delete_where-processable (r ∷ rs) = ground (arith, delete_where-processable rs)

-- Of a table in id order the listing takes the oldest processable rows, `limit` of them at most.
pub list_processable-oldest :
    (limit : ℕ) (t : Table)
    → Ascending t.rows
    → list_processable (suc limit) t ≡ take (suc limit) (processable t.rows)
unfolding list_processable
list_processable-oldest limit t h =
    ap (take (suc limit)) (
      order_by_id-Ascending _ (delete_where-Ascending _ t.rows h) ∙ delete_where-processable t.rows)
