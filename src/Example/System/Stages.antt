-- ===== src/Example/System/Stages.antt =====
-- gohex-example/: the stages of an order on its way through the services.
use gohex.Prelude.{ℕ, true, false, Bool, none, some, List, [], ◌∷◌}
use gohex.Prelude.Map.{Map, put}
use gohex.Prelude.Text.{Text, text_eq, lit}
use gohex.Kernel.Aggregate.{Aggregate}
use gohex.Saga.{OutCommand, send}
use gohex.Example.Contracts.{
  topic_billing_commands, topic_inventory_commands, topic_shipping_commands, capture_payment_cmd,
  refund_payment_cmd, reserve_stock_cmd, create_shipment_cmd, OrderPlacedV1, ContractEvent,
  order_placed_v1, payment_captured_v1, payment_failed_v1, payment_refunded_v1, stock_reserved_v1,
  stock_rejected_v1, shipment_dispatched_v1, ContractCommand,
}
use gohex.Example.Billing.{Payment, PaymentEvent, Status, status_captured}
use gohex.Example.Inventory.{Reservation, ReservationEvent}
use gohex.Example.Shipping.{Shipment, ShipmentEvent}
use gohex.Example.Ordering.Fulfillment.{Fulfillment, EventDecoders, to}
use gohex.Example.System.Saga.{instance_of}
use gohex.Example.System.{System, fact_id}

-- A payment of the order as it stands in billing's store, after `n` events.
abbrev pub payment_of : Text → ℕ → Status → Aggregate Payment PaymentEvent
payment_of order n status = record {
  root = record { version = n; pending = [] };
  state = record { order = order; status = status };
}

module _ (o : OrderPlacedV1) where
  abbrev pub known : Fulfillment
  known = record { cents = o.cents; qty = o.qty }

  abbrev pub failed_event : ContractEvent
  failed_event =
      payment_failed_v1
        (record { order_id = o.order_id; reason = lit "amount exceeds capture limit" })

  abbrev pub captured_event : ContractEvent
  captured_event = payment_captured_v1 (record { order_id = o.order_id; cents = o.cents })

  abbrev pub rejected_event : ContractEvent
  rejected_event =
      stock_rejected_v1 (record { order_id = o.order_id; reason = lit "insufficient stock" })

  abbrev pub reserved_event : ContractEvent
  reserved_event = stock_reserved_v1 (record { order_id = o.order_id; qty = o.qty })

  abbrev pub refunded_event : ContractEvent
  refunded_event = payment_refunded_v1 (record { order_id = o.order_id })

  abbrev pub dispatched_event : ContractEvent
  dispatched_event = shipment_dispatched_v1 (record { order_id = o.order_id })

  abbrev pub capture_command : List (OutCommand ContractCommand)
  capture_command =
      to topic_billing_commands
        (capture_payment_cmd (record { order_id = o.order_id; cents = o.cents }))
      ∷ []

  abbrev pub reserve_command : List (OutCommand ContractCommand)
  reserve_command =
      to topic_inventory_commands
        (reserve_stock_cmd (record { order_id = o.order_id; qty = o.qty }))
      ∷ []

  abbrev pub ship_command : List (OutCommand ContractCommand)
  ship_command =
      to topic_shipping_commands (create_shipment_cmd (record { order_id = o.order_id })) ∷ []

  abbrev pub refund_command : List (OutCommand ContractCommand)
  refund_command =
      to topic_billing_commands (refund_payment_cmd (record { order_id = o.order_id })) ∷ []

  abbrev pub seen_placed : Map Text Bool
  seen_placed = put [] (fact_id (order_placed_v1 o)) true

  abbrev pub seen_captured : Map Text Bool
  seen_captured = put seen_placed (fact_id captured_event) true

  abbrev pub seen_reserved : Map Text Bool
  seen_reserved = put seen_captured (fact_id reserved_event) true

  abbrev pub reservation_of : Aggregate Reservation ReservationEvent
  reservation_of = record {
    root = record { version = 1; pending = [] };
    state = record { order = o.order_id; decided = true };
  }

  abbrev pub shipment_of : Aggregate Shipment ShipmentEvent
  shipment_of = record {
    root = record { version = 1; pending = [] };
    state = record { order = o.order_id; dispatched = true };
  }

module _ (u : EventDecoders) (o : OrderPlacedV1) where
  -- Billing has decided.
  abbrev pub billed : Status → ContractEvent → System
  billed status fact = record {
    saga = instance_of u 2 (known o) false (seen_placed o) (send (capture_command o));
    payment = some (payment_of o.order_id 1 status);
    reservation = none;
    shipment = none;
    delivered = order_placed_v1 o ∷ [];
    in_flight = fact ∷ [];
  }

  -- Inventory has decided.
  abbrev pub stocked : ContractEvent → System
  stocked fact = record {
    saga = instance_of u 4 (known o) false (seen_captured o) (send (reserve_command o));
    payment = some (payment_of o.order_id 1 status_captured);
    reservation = some (reservation_of o);
    shipment = none;
    delivered = order_placed_v1 o ∷ (captured_event o) ∷ [];
    in_flight = fact ∷ [];
  }
