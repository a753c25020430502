-- ===== src/Example/Shipping.antt =====
-- gohex-example/shipping/internal/domain/shipment.go: the Shipment aggregate.
pub mod Service
use gohex.Prelude.{Bool, true, false, Option, none, some}
use gohex.Prelude.Text.{Text, lit}
use gohex.Kernel.Errors.{Error, plain}
use gohex.Kernel.Aggregate.{Applies, Aggregate, new_aggregate, raise}

pub data ShipmentEvent : Type 0 where
  shipment_dispatched : Text → ShipmentEvent
  foreign_event : Text → ShipmentEvent

unfoldable pub shipment_event_name : ShipmentEvent → Text
shipment_event_name (shipment_dispatched order) = lit "shipping.shipment_dispatched"
shipment_event_name (foreign_event name) = name

pub record Shipment : Type 0 where
  pub order : Text
  pub dispatched : Bool

abbrev pub new_shipment : Aggregate Shipment ShipmentEvent
new_shipment = new_aggregate (record { order = lit ""; dispatched = false })

unfoldable pub apply_shipment : Shipment → ShipmentEvent → Shipment × Option Error
apply_shipment s (shipment_dispatched order) = (record { order = order; dispatched = true }, none)
apply_shipment s (foreign_event name) = (s, some (plain (lit "shipment: unknown event")))

instance abbrev pub shipment_applies : Applies Shipment ShipmentEvent
shipment_applies = record { apply = apply_shipment }

unfoldable pub create_shipment : Text → Aggregate Shipment ShipmentEvent × Option Error
unfolding raise apply_shipment
create_shipment order = raise new_shipment (shipment_dispatched order)
