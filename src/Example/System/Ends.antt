-- ===== src/Example/System/Ends.antt =====
-- gohex-example/: where the ways of an order end.
use gohex.Prelude.{true, false, none, some, List, [], ◌∷◌}
use gohex.Prelude.Map.{put}
use gohex.Prelude.Text.{text_eq}
use gohex.Saga.{send, end_saga}
use gohex.Example.Contracts.{OrderPlacedV1, ContractEvent, order_placed_v1}
use gohex.Example.Billing.{status_failed, status_captured, status_refunded}
use gohex.Example.Ordering.Fulfillment.{EventDecoders}
use gohex.Example.System.Saga.{instance_of}
use gohex.Example.System.{System, fact_id}
use gohex.Example.System.Stages.{
  known, failed_event, captured_event, rejected_event, reserved_event, dispatched_event,
  ship_command, refund_command, seen_placed, seen_captured, seen_reserved, reservation_of,
  shipment_of, payment_of,
}

-- What the services and the saga hold when nothing is left to do.
module _ (u : EventDecoders) (o : OrderPlacedV1) where
  abbrev pub unpaid : System
  unpaid = record {
    saga =
        instance_of u 4 (known o) true (put (seen_placed o) (fact_id (failed_event o)) true)
          end_saga;
    payment = some (payment_of o.order_id 1 status_failed);
    reservation = none;
    shipment = none;
    delivered = order_placed_v1 o ∷ failed_event o ∷ [];
    in_flight = [];
  }

  abbrev pub shipping : System
  shipping = record {
    saga = instance_of u 6 (known o) false (seen_reserved o) (send (ship_command o));
    payment = some (payment_of o.order_id 1 status_captured);
    reservation = some (reservation_of o);
    shipment = some (shipment_of o);
    delivered = order_placed_v1 o ∷ captured_event o ∷ reserved_event o ∷ [];
    in_flight = dispatched_event o ∷ [];
  }

  abbrev pub shipped : System
  shipped = record {
    saga =
        instance_of u 8 (known o) true (put (seen_reserved o) (fact_id (dispatched_event o)) true)
          end_saga;
    payment = some (payment_of o.order_id 1 status_captured);
    reservation = some (reservation_of o);
    shipment = some (shipment_of o);
    delivered = order_placed_v1 o ∷ captured_event o ∷ reserved_event o ∷ dispatched_event o ∷ [];
    in_flight = [];
  }

  -- The refund is published behind the end of the saga, which ignores it.
  abbrev pub refunding : List ContractEvent → List ContractEvent → System
  refunding facts left = record {
    saga =
        instance_of u 7 (known o) true (put (seen_captured o) (fact_id (rejected_event o)) true)
          (record { commands = refund_command o; ends = true });
    payment = some (payment_of o.order_id 2 status_refunded);
    reservation = some (reservation_of o);
    shipment = none;
    delivered = order_placed_v1 o ∷ captured_event o ∷ rejected_event o ∷ facts;
    in_flight = left;
  }
