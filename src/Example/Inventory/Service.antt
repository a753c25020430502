-- ===== src/Example/Inventory/Service.antt =====
-- gohex-example/inventory/internal/app/app.go: the registrations and the command handler of
-- inventory.
use gohex.Prelude.{ℕ, Option, none, some, ◌⊎◌}
use gohex.Prelude.Text.{Text, lit}
use gohex.Kernel.Errors.{Error}
use gohex.Kernel.Result.{Result, ◌>>=◌}
use gohex.Kernel.Event.{DomainEvent}
use gohex.Kernel.Aggregate.{Aggregate}
use gohex.EventStore.Types.{Store}
use gohex.EventStore.Position.{Context, Positions, Extractor}
use gohex.EventStore.Registry.{Registry, register}
use gohex.EventStore.Repository.{Repository, load_aggregate}
use gohex.Cqrs.Command.{HandlerFunc}
use gohex.Cqrs.Bus.{Bus, handle}
use gohex.Cqrs.Wire.{CommandRegistry, register_command}
use gohex.Relay.{Relay, add_translator}
use gohex.Example.Contracts.{
  ContractEvent, stock_reserved_v1, stock_rejected_v1, ReserveStock, ContractCommand,
}
use gohex.Example.Handled.{Handled, unless_decided, returned, save_decision}
use gohex.Example.Inventory.{
  new_quantity, ReservationEvent, stock_reserved, stock_rejected, foreign_event, Reservation,
  new_reservation, reservation_applies, reserve,
}

-- RegisterEvents, with the two Go types' json.Unmarshal.
unfoldable pub register_events :
    Registry ReservationEvent
    → (Text → Result ReservationEvent)
    → (Text → Result ReservationEvent)
    → Result (Registry ReservationEvent)
register_events r reserved rejected = do
  r1 ← register r (lit "inventory.stock_reserved") reserved
  register r1 (lit "inventory.stock_rejected") rejected

-- RegisterCommands, with the Go type's json.Unmarshal.
unfoldable pub register_commands :
    CommandRegistry ContractCommand
    → (Text → ContractCommand ⊎ Error)
    → Result (CommandRegistry ContractCommand)
register_commands r reserve_cmd = register_command r (lit "inventory.reserve_stock") reserve_cmd

-- The two translators; each is only called with an event of its own type.
unfoldable pub translate_reservation : ReservationEvent → Option ContractEvent
translate_reservation (stock_reserved order qty) =
    some (stock_reserved_v1 (record { order_id = order; qty = qty }))
translate_reservation (stock_rejected order reason) =
    some (stock_rejected_v1 (record { order_id = order; reason = reason }))
translate_reservation (foreign_event name) = none

unfoldable pub register_translators :
    {S B K : Type 0}
    → Relay S B K ReservationEvent ContractEvent
    → Result (Relay S B K ReservationEvent ContractEvent)
unfolding translate_reservation
register_translators r = do
  r1 ← add_translator r (lit "inventory.stock_reserved") translate_reservation
  add_translator r1 (lit "inventory.stock_rejected") translate_reservation

-- New: the repository that Handlers holds.
abbrev pub new_handlers :
    {S : Type 0} → Store S → Registry ReservationEvent → Repository S Reservation ReservationEvent
new_handlers store registry = record {
  store = store;
  registry = registry;
  category = lit "reservation";
  zero = new_reservation.state;
}

-- The method Register, with the handler as a func of a bus.
unfoldable pub register_handlers : {W C : Type 0} → Bus W C → HandlerFunc W C → Result (Bus W C)
register_handlers bus reserve_h = handle bus (lit "inventory.reserve_stock") reserve_h

-- The middle of ReserveStock.
unfoldable pub decide_reservation : ReserveStock → Result (Aggregate Reservation ReservationEvent)
unfolding new_quantity reserve
decide_reservation cmd = do qty ← new_quantity cmd.qty; returned (reserve cmd.order_id qty)

unfoldable pub reserve_stock :
    {S : Type 0} ⦃ev : DomainEvent ReservationEvent⦄
    → Repository S Reservation ReservationEvent
    → Extractor
    → Context
    → ℕ
    → ReserveStock
    → S
    → Positions
    → Handled S
unfolding unless_decided save_decision
reserve_stock reservations ext ctx now cmd s heap =
    unless_decided s heap (load_aggregate reservations s cmd.order_id)
      (save_decision reservations ext ctx now cmd.order_id s heap (decide_reservation cmd))
