-- ===== src/Example/Ordering/Postgres/Highest.antt =====
-- gohex-example/ordering/: the statuses that the order_summary projection leaves in its table, from
-- the two sources that it reads.
use gohex.Prelude.{ℕ, refl, subst, List, [], ◌∷◌, arith}
use gohex.Prelude.Map.{get}
use gohex.Prelude.Text.{Text, text_eq}
use gohex.Example.Contracts.{
  order_placed_v1, payment_captured_v1, payment_failed_v1, payment_refunded_v1, stock_reserved_v1,
  stock_rejected_v1, shipment_dispatched_v1,
}
use gohex.Example.Ordering.Order.{order_placed, customer_notified, foreign_event}
use gohex.Example.Ordering.Ports.{
  rank_placed, rank_paid, rank_reserved, rank_shipped, rank_payment_failed, rank_rejected,
  rank_refunded, NotificationQueue,
}
use gohex.Example.Ordering.Summary.{
  summarize_placed, summarize_captured, summarize_failed, summarize_reserved, summarize_rejected,
  summarize_refunded, summarize_dispatched,
}
use gohex.Example.Ordering.Postgres.{SummaryTable, upsert_placed, set_status}
use gohex.Example.Ordering.Postgres.Ranks.{
  Item, own, foreign, World, apply_item, apply_items, larger, rank_for, highest, Shows,
  Shows-status_row, Shows-placed_row, larger_assoc, larger_zero, zero_keeps, Shows-put,
}

module _ {Q : Type 0} (queue : NotificationQueue Q) where
  apply_item-Shows :
      (t : SummaryTable) (q : Q) (order : Text) (k : ℕ) (x : Item)
      → Shows (get t order) k
      → Shows (get (apply_item queue (t, q) x).0.0 order) (larger (rank_for order x) k)
  unfolding apply_item summarize_placed summarize_captured summarize_failed summarize_reserved
      summarize_rejected summarize_refunded summarize_dispatched upsert_placed set_status rank_for
  apply_item-Shows t q order k (own (order_placed id customer total qty) m) h =
      Shows-put t order id.value k rank_placed _ h (λ g. Shows-placed_row (get t id.value) k _ g)
  apply_item-Shows t q order k (own (customer_notified id reason) m) h = zero_keeps k _ h
  apply_item-Shows t q order k (own (foreign_event name) m) h = zero_keeps k _ h
  apply_item-Shows t q order k (foreign (order_placed_v1 e) msg) h = zero_keeps k _ h
  apply_item-Shows t q order k (foreign (payment_captured_v1 e) msg) h =
      Shows-put t order e.order_id k rank_paid _ h
        (λ g. Shows-status_row (get t e.order_id) k rank_paid (omega arith) g)
  apply_item-Shows t q order k (foreign (payment_failed_v1 e) msg) h =
      Shows-put t order e.order_id k rank_payment_failed _ h
        (λ g. Shows-status_row (get t e.order_id) k rank_payment_failed (omega arith) g)
  apply_item-Shows t q order k (foreign (payment_refunded_v1 e) msg) h =
      Shows-put t order e.order_id k rank_refunded _ h
        (λ g. Shows-status_row (get t e.order_id) k rank_refunded (omega arith) g)
  apply_item-Shows t q order k (foreign (stock_reserved_v1 e) msg) h =
      Shows-put t order e.order_id k rank_reserved _ h
        (λ g. Shows-status_row (get t e.order_id) k rank_reserved (omega arith) g)
  apply_item-Shows t q order k (foreign (stock_rejected_v1 e) msg) h =
      Shows-put t order e.order_id k rank_rejected _ h
        (λ g. Shows-status_row (get t e.order_id) k rank_rejected (omega arith) g)
  apply_item-Shows t q order k (foreign (shipment_dispatched_v1 e) msg) h =
      Shows-put t order e.order_id k rank_shipped _ h
        (λ g. Shows-status_row (get t e.order_id) k rank_shipped (omega arith) g)

  apply_items-Shows :
      (w : World queue) (order : Text) (k : ℕ) (xs : List Item)
      → Shows (get w.0 order) k
      → Shows (get (apply_items queue w xs).0 order) (larger (highest order xs) k)
  unfolding apply_items highest
  apply_items-Shows w order k [] h = zero_keeps k _ h
  apply_items-Shows w order k (x ∷ xs) h =
      subst (Shows (get (apply_items queue w (x ∷ xs)).0 order))
        (larger_assoc (highest order xs) (rank_for order x) k)
        (apply_items-Shows (apply_item queue w x).0 order (larger (rank_for order x) k) xs
          (apply_item-Shows w.0 w.1 order k x h))

  -- The projection's table does not depend on how its two sources interleave. Whatever items it is
  -- given, in whatever order and however often, where the database does not fail: the row of an
  -- order shows the highest rank that any of the items gives the order, with the status of that
  -- rank, and there is a row exactly if one of them gives the order a rank.
  pub status_is_highest :
      (q : Q) (order : Text) (xs : List Item)
      → Shows (get (apply_items queue ([], q) xs).0 order) (highest order xs)
  status_is_highest q order xs =
      subst (Shows (get (apply_items queue ([], q) xs).0 order)) (larger_zero (highest order xs))
        (apply_items-Shows ([], q) order 0 xs (unfold get in refl))
