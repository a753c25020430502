-- ===== src/Example/Ordering/Fulfillment.antt =====
-- gohex-example/ordering/internal/app/saga.go: the order-fulfillment saga.
pub mod Reaction
use gohex.Prelude.{ℤ, pos, true, List, [], ◌∷◌, ◌⊎◌, inl, inr}
use gohex.Prelude.Text.{Text, lit}
use gohex.Kernel.Errors.{Error}
use gohex.Kernel.Result.{Result, ◌>>=◌}
use gohex.Saga.{OutCommand, Decisions, Definition, send, end_saga, new, on_event}
use gohex.Example.Contracts.{
  topic_ordering_events, topic_billing_events, topic_inventory_events, topic_shipping_events,
  topic_billing_commands, topic_inventory_commands, topic_shipping_commands, OrderPlacedV1,
  PaymentCapturedV1, PaymentFailedV1, StockReservedV1, StockRejectedV1, ShipmentDispatchedV1,
  ContractCommand, capture_payment_cmd, refund_payment_cmd, reserve_stock_cmd, create_shipment_cmd,
}

pub record Fulfillment : Type 0 where
  pub cents : ℤ  -- int64
  pub qty : ℤ  -- int

abbrev pub zero_fulfillment : Fulfillment
zero_fulfillment = record { cents = pos 0; qty = pos 0 }

abbrev pub saga_topics : List Text
saga_topics =
    topic_ordering_events ∷ topic_billing_events ∷ topic_inventory_events ∷ topic_shipping_events
    ∷ []

-- What a handler returns: the state that it mutated, and its decisions beside a nil error.
abbrev pub Reacted : Type 0
Reacted = Fulfillment × (Decisions ContractCommand ⊎ Error)

-- A command with no key.
abbrev pub to : Text → ContractCommand → OutCommand ContractCommand
to topic cmd = record { topic = topic; key = []; cmd = cmd }

unfoldable pub on_order_placed : Fulfillment → OrderPlacedV1 → Reacted
on_order_placed s e = (
  record { cents = e.cents; qty = e.qty },
  inl (
      send (
        to topic_billing_commands
          (capture_payment_cmd (record { order_id = e.order_id; cents = e.cents }))
        ∷ [])),
)

unfoldable pub on_payment_captured : Fulfillment → PaymentCapturedV1 → Reacted
on_payment_captured s e = (
  s,
  inl (
      send (
        to topic_inventory_commands
          (reserve_stock_cmd (record { order_id = e.order_id; qty = s.qty }))
        ∷ [])),
)

unfoldable pub on_payment_failed : Fulfillment → PaymentFailedV1 → Reacted
on_payment_failed s e = (s, inl end_saga)

unfoldable pub on_stock_reserved : Fulfillment → StockReservedV1 → Reacted
on_stock_reserved s e = (
  s,
  inl (
      send
        (to topic_shipping_commands (create_shipment_cmd (record { order_id = e.order_id })) ∷ [])),
)

-- The compensation.
unfoldable pub on_stock_rejected : Fulfillment → StockRejectedV1 → Reacted
on_stock_rejected s e = (
  s,
  inl (record {
    commands =
        to topic_billing_commands (refund_payment_cmd (record { order_id = e.order_id })) ∷ [];
    ends = true;
  }),
)

unfoldable pub on_shipment_dispatched : Fulfillment → ShipmentDispatchedV1 → Reacted
on_shipment_dispatched s e = (s, inl end_saga)

-- json.Unmarshal into each of the event types.
pub record EventDecoders : Type 0 where
  pub order_placed : Text → OrderPlacedV1 ⊎ Error
  pub payment_captured : Text → PaymentCapturedV1 ⊎ Error
  pub payment_failed : Text → PaymentFailedV1 ⊎ Error
  pub stock_reserved : Text → StockReservedV1 ⊎ Error
  pub stock_rejected : Text → StockRejectedV1 ⊎ Error
  pub shipment_dispatched : Text → ShipmentDispatchedV1 ⊎ Error

unfoldable pub new_fulfillment_saga :
    EventDecoders → Result (Definition Fulfillment ContractCommand)
unfolding on_order_placed on_payment_captured on_payment_failed on_stock_reserved on_stock_rejected
    on_shipment_dispatched
new_fulfillment_saga u = do
  d0 ← new (lit "order_fulfillment")
  d1 ←
      on_event d0 (lit "ordering.order_placed") (pos 1) u.order_placed (λ e. e.order_id)
        on_order_placed
  d2 ←
      on_event d1 (lit "billing.payment_captured") (pos 1) u.payment_captured (λ e. e.order_id)
        on_payment_captured
  d3 ←
      on_event d2 (lit "billing.payment_failed") (pos 1) u.payment_failed (λ e. e.order_id)
        on_payment_failed
  d4 ←
      on_event d3 (lit "inventory.stock_reserved") (pos 1) u.stock_reserved (λ e. e.order_id)
        on_stock_reserved
  d5 ←
      on_event d4 (lit "inventory.stock_rejected") (pos 1) u.stock_rejected (λ e. e.order_id)
        on_stock_rejected
  on_event d5 (lit "shipping.shipment_dispatched") (pos 1) u.shipment_dispatched (λ e. e.order_id)
      on_shipment_dispatched
