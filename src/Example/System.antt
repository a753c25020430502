-- ===== src/Example/System.antt =====
-- gohex-example/: the services around one order. The commands that the saga's append recorded are
-- routed by their topic, decoded by the service's registry and executed, and the services' facts are
-- carried to the saga. Each service holds its aggregate of the order, as its store has it, and every
-- message is delivered once, in the order of publication.
pub mod Wire
pub mod Saga
pub mod Stages
pub mod Rounds
pub mod Ends
pub mod Settling
use gohex.Prelude.{
  ℕ, ◌+◌, if◌then◌else◌, zero, suc, ◌≡◌, ℤ, pos, Option, none, some, List, [], ◌∷◌, ◌++◌, ◌⊎◌, inl,
  inr,
}
use gohex.Prelude.Text.{Text, text_eq, lit}
use gohex.Kernel.Errors.{Error}
use gohex.Kernel.Result.{Result, ok, err, panic}
use gohex.Kernel.Aggregate.{Aggregate, new_aggregate, take_uncommitted}
use gohex.Broker.Message.{Message}
use gohex.Cqrs.Command.{Command}
use gohex.Cqrs.Wire.{WireCommand, CommandRegistry, decode_command}
use gohex.Example.Billing
use gohex.Example.Inventory
use gohex.Example.Shipping
use gohex.EventStore.Types.{RecordedEvent}
use gohex.Prelude.EqClass.{◌==◌}
use gohex.Saga.{
  Definition, new_instance, SagaEvent, event_received, command_requested, ended, command_route,
}
use gohex.Saga.Runner.{SagaInstance, Decided, ignored, failed, panicked, decided, decide}
use gohex.Example.Contracts.{
  topic_billing_commands, topic_inventory_commands, topic_shipping_commands, OrderPlacedV1,
  ContractEvent, order_placed_v1, payment_captured_v1, payment_failed_v1, payment_refunded_v1,
  stock_reserved_v1, stock_rejected_v1, shipment_dispatched_v1, contract_event_name,
  contract_event_version, ContractCommand, capture_payment_cmd, refund_payment_cmd,
  reserve_stock_cmd, create_shipment_cmd, contract_command_name,
}
use gohex.Example.Handled.{returned}
use gohex.Example.Billing.{PaymentEvent, Payment, refund}
use gohex.Example.Billing.Service.{translate_payment, decide_payment}
use gohex.Example.Inventory.{ReservationEvent, Reservation}
use gohex.Example.Inventory.Service.{translate_reservation, decide_reservation}
use gohex.Example.Shipping.{ShipmentEvent, Shipment, create_shipment}
use gohex.Example.Shipping.Service.{translate_shipment}
use gohex.Example.Ordering.Fulfillment.{Fulfillment, zero_fulfillment}

-- What is known of one order, and the facts that are published and not yet delivered.
pub record System : Type 0 where
  pub saga : SagaInstance Fulfillment ContractCommand
  pub payment : Option (Aggregate Payment PaymentEvent)
  pub reservation : Option (Aggregate Reservation ReservationEvent)
  pub shipment : Option (Aggregate Shipment ShipmentEvent)
  pub delivered : List ContractEvent
  pub in_flight : List ContractEvent

-- The relay's part: the public facts among the events that a handler stored.
abbrev pub translate_all : {E : Type 0} → (E → Option ContractEvent) → List E → List ContractEvent
translate_all f [] = []
translate_all f (e ∷ es) = elim (f e) [
  | none ↦ translate_all f es
  | some fact ↦ fact ∷ translate_all f es
]

-- A decision of a handler, stored and published; a refused one leaves things as they are.
abbrev pub stored :
    {A E : Type 0}
    → (E → Option ContractEvent)
    → Option (Aggregate A E)
    → Result (Aggregate A E)
    → Option (Aggregate A E) × List ContractEvent
stored f before (ok g) = let (g', events) = take_uncommitted g in (some g', translate_all f events)
stored f before (err x) = (before, [])
stored f before panic = (before, [])

-- The handlers that decide once.
abbrev pub stored_once :
    {A E : Type 0}
    → (E → Option ContractEvent)
    → Option (Aggregate A E)
    → Result (Aggregate A E)
    → Option (Aggregate A E) × List ContractEvent
stored_once f (some g) decision = (some g, [])
stored_once f none decision = stored f none decision

abbrev pub stored_refund :
    Option (Aggregate Payment PaymentEvent)
    → Option (Aggregate Payment PaymentEvent) × List ContractEvent
stored_refund none = (none, [])
stored_refund (some p) = stored translate_payment (some p) (returned (refund p))

unfoldable pub execute : ContractCommand → System → System
execute (capture_payment_cmd cmd) w =
    let (p, facts) = stored_once translate_payment w.payment (decide_payment cmd) in
    record w { payment = p; in_flight = w.in_flight ++ facts }
execute (refund_payment_cmd cmd) w =
    let (p, facts) = stored_refund w.payment in
    record w { payment = p; in_flight = w.in_flight ++ facts }
execute (reserve_stock_cmd cmd) w =
    let (r, facts) = stored_once translate_reservation w.reservation (decide_reservation cmd) in
    record w { reservation = r; in_flight = w.in_flight ++ facts }
execute (create_shipment_cmd cmd) w =
    let (s, facts) =
      stored_once translate_shipment w.shipment (returned (create_shipment cmd.order_id)) in
    record w { shipment = s; in_flight = w.in_flight ++ facts }

-- encoding/json on the types of the commands.
pub record CommandJson : Type 0 where
  pub encode : ContractCommand → Text
  pub capture_payment : Text → ContractCommand ⊎ Error
  pub refund_payment : Text → ContractCommand ⊎ Error
  pub reserve_stock : Text → ContractCommand ⊎ Error
  pub create_shipment : Text → ContractCommand ⊎ Error

abbrev registered : Result (CommandRegistry ContractCommand) → CommandRegistry ContractCommand
registered (ok r) = r
registered (err x) = []
registered panic = []

-- The registries of the three services' consumers, as their main functions fill them.
unfoldable pub billing_registry : CommandJson → CommandRegistry ContractCommand
billing_registry json =
    registered (Billing.Service.register_commands [] json.capture_payment json.refund_payment)

unfoldable pub inventory_registry : CommandJson → CommandRegistry ContractCommand
inventory_registry json = registered (Inventory.Service.register_commands [] json.reserve_stock)

unfoldable pub shipping_registry : CommandJson → CommandRegistry ContractCommand
shipping_registry json = registered (Shipping.Service.register_commands [] json.create_shipment)

-- A consumer executes the command that it decodes, and rejects a message that it cannot decode.
abbrev consumed : ContractCommand ⊎ Error → System → System
consumed (inl cmd) w = execute cmd w
consumed (inr x) w = w

-- A message reaches the service that consumes its topic.
unfoldable pub receive_command : CommandJson → Text × Message → System → System
unfolding billing_registry inventory_registry shipping_registry execute
receive_command json (topic, m) w =
    if topic == topic_billing_commands
    then consumed (decode_command (billing_registry json) m) w
    else if topic == topic_inventory_commands
    then consumed (decode_command (inventory_registry json) m) w
    else if topic == topic_shipping_commands
    then consumed (decode_command (shipping_registry json) m) w
    else w

unfoldable pub receive_all : CommandJson → List (Text × Message) → System → System
unfolding receive_command
receive_all json [] w = w
receive_all json (m ∷ ms) w = receive_all json ms (receive_command json m w)

-- The event of the saga's stream at a version, as far as its route reads it.
abbrev recorded_at : Text → ℕ → RecordedEvent
recorded_at order version = record {
  global_seq = version;
  stream = record { category = lit "saga.fulfillment"; id = order };
  version = version;
  event_name = lit "saga.command_requested";
  schema_version = 1;
  payload = [];
  metadata = none;
  occurred_at = 0;
}

abbrev with_routed :
    List (Text × Message) → Result (Option (Text × Message)) → List (Text × Message)
with_routed rest (ok none) = rest
with_routed rest (ok (some m)) = m ∷ rest
with_routed rest (err x) = rest
with_routed rest panic = rest

-- The relay's part on the saga's stream: of what an append recorded behind a version, the requested
-- commands are routed, and the other events have no route.
unfoldable pub relay_commands : Text → ℕ → List SagaEvent → List (Text × Message)
relay_commands order version [] = []
relay_commands order version (event_received m ∷ es) = relay_commands order (version + 1) es
relay_commands order version (ended ∷ es) = relay_commands order (version + 1) es
relay_commands order version (command_requested cr ∷ es) =
    with_routed (relay_commands order (version + 1) es)
      (command_route (recorded_at order (version + 1)) (command_requested cr))

-- The message ID that the relay gives a fact, by its stream and version.
unfoldable pub fact_id : ContractEvent → Text
fact_id (order_placed_v1 e) = lit "order/" ++ e.order_id ++ lit "#1"
fact_id (payment_captured_v1 e) = lit "payment/" ++ e.order_id ++ lit "#1"
fact_id (payment_failed_v1 e) = lit "payment/" ++ e.order_id ++ lit "#1"
fact_id (payment_refunded_v1 e) = lit "payment/" ++ e.order_id ++ lit "#2"
fact_id (stock_reserved_v1 e) = lit "reservation/" ++ e.order_id ++ lit "#1"
fact_id (stock_rejected_v1 e) = lit "reservation/" ++ e.order_id ++ lit "#1"
fact_id (shipment_dispatched_v1 e) = lit "shipment/" ++ e.order_id ++ lit "#1"

instance abbrev pub contract_commands : Command ContractCommand
contract_commands = record { command_name = contract_command_name }

-- `event_json` and `command_json` are encoding/json on the contracts' types.
module _ (event_json : ContractEvent → Text) (command_json : CommandJson) where
  abbrev pub contract_wire : WireCommand ContractCommand
  contract_wire = record { marshal = λ c. ok (command_json.encode c); contract_version = λ c. none }

  abbrev pub message_of : Text → ContractEvent → Message
  message_of order e = record {
    id = fact_id e;
    key = order;
    type_name = contract_event_name e;
    version = contract_event_version e;
    occurred_at = 0;
    payload = event_json e;
    metadata = none;
  }

  -- The one append to the saga's stream, and the commands that it recorded on their way to the
  -- services. Nothing else reaches them.
  abbrev pub after_decision : Text → System → Decided Fulfillment ContractCommand → System
  after_decision order w ignored = w
  after_decision order w (failed x) = w
  after_decision order w panicked = w
  after_decision order w (decided inst) =
      let (saved, events) = take_uncommitted inst in
      receive_all command_json (relay_commands order inst.root.version events)
        (record w { saga = saved })

  -- The delivery of a fact to the saga.
  unfoldable pub deliver : Text → ContractEvent → System → System
  unfolding receive_all relay_commands
  deliver order fact w =
      after_decision order (record w { delivered = w.delivered ++ fact ∷ [] })
        (decide ⦃wire = contract_wire⦄ none order (message_of order fact) w.saga)

  -- At most `n` deliveries.
  unfoldable pub run : Text → ℕ → System → System
  unfolding deliver
  run order zero w = w
  run order (suc n) w = elim (w.in_flight) [
    | [] ↦ w
    | fact ∷ facts ↦ run order n (deliver order fact (record w { in_flight = facts }))
  ]

-- The order is placed and nothing else has happened.
abbrev pub placed_system : Definition Fulfillment ContractCommand → OrderPlacedV1 → System
placed_system d o = record {
  saga = new_instance d zero_fulfillment;
  payment = none;
  reservation = none;
  shipment = none;
  delivered = [];
  in_flight = order_placed_v1 o ∷ [];
}
