-- ===== src/Example/Shipping/Service.antt =====
-- gohex-example/shipping/internal/app/app.go: the registrations and the command handler of shipping.
use gohex.Prelude.{ℕ, Option, none, some, ◌⊎◌}
use gohex.Prelude.Text.{Text, lit}
use gohex.Kernel.Errors.{Error}
use gohex.Kernel.Result.{Result}
use gohex.Kernel.Event.{DomainEvent}
use gohex.EventStore.Types.{Store}
use gohex.EventStore.Position.{Context, Positions, Extractor}
use gohex.EventStore.Registry.{Registry, register}
use gohex.EventStore.Repository.{Repository, load_aggregate}
use gohex.Cqrs.Command.{HandlerFunc}
use gohex.Cqrs.Bus.{Bus, handle}
use gohex.Cqrs.Wire.{CommandRegistry, register_command}
use gohex.Relay.{Relay, add_translator}
use gohex.Example.Contracts.{ContractEvent, shipment_dispatched_v1, CreateShipment, ContractCommand}
use gohex.Example.Handled.{Handled, unless_decided, returned, save_decision}
use gohex.Example.Shipping.{
  ShipmentEvent, shipment_dispatched, foreign_event, Shipment, new_shipment, shipment_applies,
  create_shipment,
}

-- RegisterEvents, with the Go type's json.Unmarshal.
unfoldable pub register_events :
    Registry ShipmentEvent → (Text → Result ShipmentEvent) → Result (Registry ShipmentEvent)
register_events r dispatched = register r (lit "shipping.shipment_dispatched") dispatched

-- RegisterCommands, with the Go type's json.Unmarshal.
unfoldable pub register_commands :
    CommandRegistry ContractCommand
    → (Text → ContractCommand ⊎ Error)
    → Result (CommandRegistry ContractCommand)
register_commands r create_cmd = register_command r (lit "shipping.create_shipment") create_cmd

-- The translator; it is only called with an event of its own type.
unfoldable pub translate_shipment : ShipmentEvent → Option ContractEvent
translate_shipment (shipment_dispatched order) =
    some (shipment_dispatched_v1 (record { order_id = order }))
translate_shipment (foreign_event name) = none

unfoldable pub register_translators :
    {S B K : Type 0}
    → Relay S B K ShipmentEvent ContractEvent
    → Result (Relay S B K ShipmentEvent ContractEvent)
unfolding translate_shipment
register_translators r = add_translator r (lit "shipping.shipment_dispatched") translate_shipment

-- New: the repository that Handlers holds.
abbrev pub new_handlers :
    {S : Type 0} → Store S → Registry ShipmentEvent → Repository S Shipment ShipmentEvent
new_handlers store registry = record {
  store = store;
  registry = registry;
  category = lit "shipment";
  zero = new_shipment.state;
}

-- The method Register, with the handler as a func of a bus.
unfoldable pub register_handlers : {W C : Type 0} → Bus W C → HandlerFunc W C → Result (Bus W C)
register_handlers bus create_h = handle bus (lit "shipping.create_shipment") create_h

-- CreateShipment.
unfoldable pub dispatch_shipment :
    {S : Type 0} ⦃ev : DomainEvent ShipmentEvent⦄
    → Repository S Shipment ShipmentEvent
    → Extractor
    → Context
    → ℕ
    → CreateShipment
    → S
    → Positions
    → Handled S
unfolding unless_decided save_decision
dispatch_shipment shipments ext ctx now cmd s heap =
    unless_decided s heap (load_aggregate shipments s cmd.order_id) (
      save_decision shipments ext ctx now cmd.order_id s heap
        (returned (create_shipment cmd.order_id)))
