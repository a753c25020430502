-- ===== src/Example/Ordering/Fulfillment/Reaction.antt =====
-- gohex-example/ordering/internal/app/saga.go: how the saga reacts to the messages that the services
-- publish.
use gohex.Prelude.{◌≡◌, refl, [], inl}
use gohex.Prelude.Map.{get, put}
use gohex.Prelude.Text.{Text, text_eq, text_beq}
use gohex.Kernel.Result.{ok, err, panic}
use gohex.Saga.{Definition, new, on_event}
use gohex.Example.Contracts.{
  OrderPlacedV1, PaymentCapturedV1, PaymentFailedV1, StockReservedV1, StockRejectedV1,
  ShipmentDispatchedV1, ContractEvent, order_placed_v1, payment_captured_v1, payment_failed_v1,
  stock_reserved_v1, stock_rejected_v1, shipment_dispatched_v1, ContractCommand,
}
use gohex.Example.Ordering.Fulfillment.{Fulfillment, EventDecoders, new_fulfillment_saga}

abbrev pub no_saga : Definition Fulfillment ContractCommand
no_saga = record { name = []; handlers = [] }

abbrev pub fulfillment : EventDecoders → Definition Fulfillment ContractCommand
fulfillment u = elim (new_fulfillment_saga u) [ ok d ↦ d | err x ↦ no_saga | panic ↦ no_saga ]

pub new_fulfillment_saga-ok : (u : EventDecoders) → new_fulfillment_saga u ≡ ok (fulfillment u)
unfolding new_fulfillment_saga new on_event get put text_beq
new_fulfillment_saga-ok u = refl

-- encoding/json reads back what it writes for the six events that the saga listens to.
pub record IsEventCodec (event_json : ContractEvent → Text) (u : EventDecoders) : Type 0 where
  pub order_placed : (e : OrderPlacedV1) → u.order_placed (event_json (order_placed_v1 e)) ≡ inl e
  pub payment_captured :
      (e : PaymentCapturedV1) → u.payment_captured (event_json (payment_captured_v1 e)) ≡ inl e
  pub payment_failed :
      (e : PaymentFailedV1) → u.payment_failed (event_json (payment_failed_v1 e)) ≡ inl e
  pub stock_reserved :
      (e : StockReservedV1) → u.stock_reserved (event_json (stock_reserved_v1 e)) ≡ inl e
  pub stock_rejected :
      (e : StockRejectedV1) → u.stock_rejected (event_json (stock_rejected_v1 e)) ≡ inl e
  pub shipment_dispatched :
      (e : ShipmentDispatchedV1)
      → u.shipment_dispatched (event_json (shipment_dispatched_v1 e)) ≡ inl e
