-- ===== src/Example/Ordering/Summary.antt =====
-- gohex-example/ordering/internal/app/projection.go: the order_summary projection.
use gohex.Prelude.{pos, Option, none, some, List, [], ◌∷◌, ◌⊎◌}
use gohex.Prelude.Text.{Text, lit}
use gohex.Kernel.Errors.{Error, plain}
use gohex.Kernel.Result.{Result, ◌>>=◌}
use gohex.EventStore.Types.{Metadata}
use gohex.Broker.Message.{Message}
use gohex.Projection.{Projection, Meta, new, on, on_integration}
use gohex.Example.Contracts.{
  topic_billing_events, topic_inventory_events, topic_shipping_events, PaymentCapturedV1,
  PaymentFailedV1, PaymentRefundedV1, StockReservedV1, StockRejectedV1, ShipmentDispatchedV1,
}
use gohex.Example.Ordering.Order.{OrderEvent, order_placed, customer_notified, foreign_event}
use gohex.Example.Ordering.Ports.{
  rank_paid, rank_reserved, rank_shipped, rank_payment_failed, rank_rejected, rank_refunded,
  NotificationQueue, SummaryStore,
}

abbrev pub foreign_topics : List Text
foreign_topics = topic_billing_events ∷ topic_inventory_events ∷ topic_shipping_events ∷ []

abbrev pub reason_shipped : Text
reason_shipped = lit "shipped"

abbrev pub reason_payment_failed : Text
reason_payment_failed = lit "payment_failed"

-- json.Unmarshal into each of the foreign event types.
pub record ForeignDecoders : Type 0 where
  pub payment_captured : Text → PaymentCapturedV1 ⊎ Error
  pub payment_failed : Text → PaymentFailedV1 ⊎ Error
  pub stock_reserved : Text → StockReservedV1 ⊎ Error
  pub stock_rejected : Text → StockRejectedV1 ⊎ Error
  pub payment_refunded : Text → PaymentRefundedV1 ⊎ Error
  pub shipment_dispatched : Text → ShipmentDispatchedV1 ⊎ Error

module _ {T Q : Type 0} (store : SummaryStore T) (queue : NotificationQueue Q) where
  -- The summaries and the worklist, which the handlers write.
  abbrev pub Tables : Type 0
  Tables = T × Q

  abbrev pub on_summaries : T × Option Error → Q → Tables × Option Error
  on_summaries (t, e) q = ((t, q), e)

  -- On with the enqueue, unless the status could not be set.
  abbrev pub and_enqueue : Text → Text → Metadata → T × Option Error → Q → Tables × Option Error
  and_enqueue order reason metadata (t, some x) q = ((t, q), some x)
  and_enqueue order reason metadata (t, none) q =
      let (q', e) = queue.enqueue q order reason metadata in ((t, q'), e)

  -- The handler of OrderPlaced, to which alone it is given.
  unfoldable pub summarize_placed : Tables → OrderEvent → Meta → Tables × Option Error
  summarize_placed (t, q) (order_placed id customer total qty) m =
      on_summaries
        (store.upsert_placed t (record {
          order_id = id.value;
          customer_id = customer.value;
          cents = total.cents;
          currency = total.currency;
          qty = qty.n;
          status = lit "placed";
          placed_at = m.occurred_at;
        }))
        q
  summarize_placed w (customer_notified id reason) m = (w, some (plain (lit "type assertion")))
  summarize_placed w (foreign_event name) m = (w, some (plain (lit "type assertion")))

  unfoldable pub summarize_captured : Tables → PaymentCapturedV1 → Message → Tables × Option Error
  summarize_captured (t, q) e msg =
      on_summaries (store.set_status t e.order_id (lit "paid") rank_paid) q

  unfoldable pub summarize_failed : Tables → PaymentFailedV1 → Message → Tables × Option Error
  summarize_failed (t, q) e msg =
      and_enqueue e.order_id reason_payment_failed msg.metadata
        (store.set_status t e.order_id (lit "payment_failed") rank_payment_failed) q

  unfoldable pub summarize_reserved : Tables → StockReservedV1 → Message → Tables × Option Error
  summarize_reserved (t, q) e msg =
      on_summaries (store.set_status t e.order_id (lit "reserved") rank_reserved) q

  unfoldable pub summarize_rejected : Tables → StockRejectedV1 → Message → Tables × Option Error
  summarize_rejected (t, q) e msg =
      on_summaries (store.set_status t e.order_id (lit "rejected") rank_rejected) q

  unfoldable pub summarize_refunded : Tables → PaymentRefundedV1 → Message → Tables × Option Error
  summarize_refunded (t, q) e msg =
      on_summaries (store.set_status t e.order_id (lit "refunded") rank_refunded) q

  unfoldable pub summarize_dispatched :
      Tables → ShipmentDispatchedV1 → Message → Tables × Option Error
  summarize_dispatched (t, q) e msg =
      and_enqueue e.order_id reason_shipped msg.metadata
        (store.set_status t e.order_id (lit "shipped") rank_shipped) q

  unfoldable pub new_order_summary_projection :
      ForeignDecoders → Result (Projection Tables OrderEvent)
  unfolding summarize_placed summarize_captured summarize_failed summarize_reserved
      summarize_rejected summarize_refunded summarize_dispatched
  new_order_summary_projection u = do
    p0 ← new (lit "order_summary")
    p1 ← on p0 (lit "ordering.order_placed") summarize_placed
    p2 ←
        on_integration p1 (lit "billing.payment_captured") (pos 1) u.payment_captured
          summarize_captured
    p3 ← on_integration p2 (lit "billing.payment_failed") (pos 1) u.payment_failed summarize_failed
    p4 ←
        on_integration p3 (lit "inventory.stock_reserved") (pos 1) u.stock_reserved
          summarize_reserved
    p5 ←
        on_integration p4 (lit "inventory.stock_rejected") (pos 1) u.stock_rejected
          summarize_rejected
    p6 ←
        on_integration p5 (lit "billing.payment_refunded") (pos 1) u.payment_refunded
          summarize_refunded
    on_integration p6 (lit "shipping.shipment_dispatched") (pos 1) u.shipment_dispatched
        summarize_dispatched
