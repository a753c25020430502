-- ===== src/Example/Ordering/Postgres/Ranks.antt =====
-- gohex-example/ordering/: the statuses that the order_summary projection leaves in its table, from
-- the two sources that it reads.
use gohex.Prelude.{
  ℕ, ◌<◌, ◌≡◌, refl, Option, none, some, List, [], ◌∷◌, leb, eqb, arith, inl, inr, Bool-cases,
  if◌then◌else◌,
}
use gohex.Prelude.EqClass.{◌==◌}
use gohex.Prelude.Map.{get, put, get-put}
use gohex.Prelude.Text.{Text, text_eq, text_beq_iff, lit}
use gohex.Kernel.Errors.{Error}
use gohex.Broker.Message.{Message}
use gohex.Projection.{Meta}
use gohex.Example.Contracts.{
  ContractEvent, order_placed_v1, payment_captured_v1, payment_failed_v1, payment_refunded_v1,
  stock_reserved_v1, stock_rejected_v1, shipment_dispatched_v1,
}
use gohex.Example.Ordering.Order.{OrderEvent, order_placed, customer_notified, foreign_event}
use gohex.Example.Ordering.Ports.{
  rank_placed, rank_paid, rank_reserved, rank_shipped, rank_payment_failed, rank_rejected,
  rank_refunded, NotificationQueue, OrderSummary,
}
use gohex.Example.Ordering.Summary.{
  summarize_placed, summarize_captured, summarize_failed, summarize_reserved, summarize_rejected,
  summarize_refunded, summarize_dispatched,
}
use gohex.Example.Ordering.Postgres.{
  SummaryRow, SummaryTable, raise_status, placed_row, status_row, postgres_summaries,
}

-- What the projection is given: an event of ordering's store, or a message of its inbox.
pub data Item : Type 0 where
  own : OrderEvent → Meta → Item
  foreign : ContractEvent → Message → Item

abbrev pub no_fault : SummaryTable → Option Error
no_fault t = none

module _ {Q : Type 0} (queue : NotificationQueue Q) where
  abbrev pub World : Type 0
  World = SummaryTable × Q

  -- The handler of an item; no handler is installed for ordering's own facts in the inbox.
  unfoldable pub apply_item : World → Item → World × Option Error
  unfolding summarize_placed summarize_captured summarize_failed summarize_reserved
      summarize_rejected summarize_refunded summarize_dispatched
  apply_item w (own (order_placed id customer total qty) m) =
      summarize_placed (postgres_summaries no_fault) queue w (order_placed id customer total qty) m
  apply_item w (own (customer_notified id reason) m) = (w, none)
  apply_item w (own (foreign_event name) m) = (w, none)
  apply_item w (foreign (order_placed_v1 e) msg) = (w, none)
  apply_item w (foreign (payment_captured_v1 e) msg) =
      summarize_captured (postgres_summaries no_fault) queue w e msg
  apply_item w (foreign (payment_failed_v1 e) msg) =
      summarize_failed (postgres_summaries no_fault) queue w e msg
  apply_item w (foreign (payment_refunded_v1 e) msg) =
      summarize_refunded (postgres_summaries no_fault) queue w e msg
  apply_item w (foreign (stock_reserved_v1 e) msg) =
      summarize_reserved (postgres_summaries no_fault) queue w e msg
  apply_item w (foreign (stock_rejected_v1 e) msg) =
      summarize_rejected (postgres_summaries no_fault) queue w e msg
  apply_item w (foreign (shipment_dispatched_v1 e) msg) =
      summarize_dispatched (postgres_summaries no_fault) queue w e msg

  -- Items in some order; an error of one leaves what it has written.
  unfoldable pub apply_items : World → List Item → World
  unfolding apply_item
  apply_items w [] = w
  apply_items w (x ∷ xs) = apply_items (apply_item w x).0 xs

abbrev pub larger : ℕ → ℕ → ℕ
larger a b = if leb a b then b else a

-- The rank that an item gives an order; 0 where it is not about it.
abbrev pub rank_at : Text → Text → ℕ → ℕ
rank_at order subject rank = if subject == order then rank else 0

unfoldable pub rank_for : Text → Item → ℕ
rank_for order (own (order_placed id customer total qty) m) = rank_at order id.value rank_placed
rank_for order (own (customer_notified id reason) m) = 0
rank_for order (own (foreign_event name) m) = 0
rank_for order (foreign (order_placed_v1 e) msg) = 0
rank_for order (foreign (payment_captured_v1 e) msg) = rank_at order e.order_id rank_paid
rank_for order (foreign (payment_failed_v1 e) msg) = rank_at order e.order_id rank_payment_failed
rank_for order (foreign (payment_refunded_v1 e) msg) = rank_at order e.order_id rank_refunded
rank_for order (foreign (stock_reserved_v1 e) msg) = rank_at order e.order_id rank_reserved
rank_for order (foreign (stock_rejected_v1 e) msg) = rank_at order e.order_id rank_rejected
rank_for order (foreign (shipment_dispatched_v1 e) msg) = rank_at order e.order_id rank_shipped

-- The highest rank that the items give an order.
unfoldable pub highest : Text → List Item → ℕ
unfolding rank_for
highest order [] = 0
highest order (x ∷ xs) = larger (rank_for order x) (highest order xs)

-- The status of a rank.
abbrev pub status_of : ℕ → Text
status_of rank =
    if eqb rank 1
    then lit "placed"
    else if eqb rank 2
    then lit "paid"
    else if eqb rank 3
    then lit "reserved"
    else if eqb rank 4
    then lit "shipped"
    else if eqb rank 10
    then lit "payment_failed"
    else if eqb rank 11
    then lit "rejected"
    else if eqb rank 12
    then lit "refunded"
    else []

-- A row, or its absence, shows a rank and its status.
abbrev pub Shows : Option SummaryRow → ℕ → Type 0
Shows none k = k ≡ 0
Shows (some row) k = (row.status_rank ≡ k) × (row.status ≡ status_of k) × (0 < k)

pub Shows-status_row :
    (row : Option SummaryRow) (k rank : ℕ)
    → 0 < rank
    → Shows row k
    → Shows (some (status_row row (status_of rank) rank)) (larger rank k)
unfolding status_row raise_status
Shows-status_row none k rank p h =
    let e : larger rank k ≡ rank = ground arith in rw e (refl, refl, p)
Shows-status_row (some row) k rank p h = rw h.0 (elim (Bool-cases (leb rank k)) [
  | inl e ↦ rw e (refl, h.1, h.2)
  | inr e ↦ rw e (refl, refl, p)
])

pub Shows-placed_row :
    (row : Option SummaryRow) (k : ℕ) (o : OrderSummary)
    → Shows row k
    → Shows (some (placed_row row o)) (larger 1 k)
unfolding placed_row raise_status
Shows-placed_row none k o h = rw h (refl, refl, omega arith)
Shows-placed_row (some row) k o h = rw h.0 (elim (Bool-cases (leb 1 k)) [
  | inl e ↦ rw e (refl, h.1, h.2)
  | inr e ↦ rw e (refl, refl, omega arith)
])

pub larger_assoc : (a b k : ℕ) → larger a (larger b k) ≡ larger (larger b a) k
larger_assoc a b k = ground arith

pub larger_zero : (a : ℕ) → larger a 0 ≡ a
larger_zero a = ground arith

pub zero_keeps : (k : ℕ) (row : Option SummaryRow) → Shows row k → Shows row (larger 0 k)
zero_keeps k row h = let e : larger 0 k ≡ k = ground arith in rw e h

-- A write of the row of `subject`.
pub Shows-put :
    (t : SummaryTable) (order subject : Text) (k rank : ℕ) (row : SummaryRow)
    → Shows (get t order) k
    → (Shows (get t subject) k → Shows (some row) (larger rank k))
    → Shows (get (put t subject row) order) (larger (rank_at order subject rank) k)
Shows-put t order subject k rank row h raise =
    rw (get-put t subject order row) (elim (Bool-cases (subject == order)) [
      | inl e ↦
          let same : subject ≡ order = (text_beq_iff subject order).0 e in rw e (raise (rw same h))
      | inr e ↦ rw e (let z : larger 0 k ≡ k = ground arith in rw z h)
    ])
