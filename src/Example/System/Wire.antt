-- ===== src/Example/System/Wire.antt =====
-- gohex-example/: what the services make of the commands that the saga recorded.
use gohex.Prelude.{ℕ, ◌≡◌, refl, [], ◌∷◌, inl, none}
use gohex.Prelude.Map.{get, put}
use gohex.Prelude.Text.{Text, text_eq, text_beq}
use gohex.Broker.Message.{Message}
use gohex.Cqrs.Wire.{register_command, decode_command}
use gohex.Saga.{CommandRequested, event_received, command_requested, ended, command_route}
use gohex.Saga.Runner.{request}
use gohex.Example.Contracts.{
  topic_billing_commands, topic_inventory_commands, topic_shipping_commands, CapturePayment,
  RefundPayment, ReserveStock, CreateShipment, ContractEvent, ContractCommand, capture_payment_cmd,
  refund_payment_cmd, reserve_stock_cmd, create_shipment_cmd, contract_command_name,
}
use gohex.Example.Billing.Service as BillingService
use gohex.Example.Inventory.Service as InventoryService
use gohex.Example.Shipping.Service as ShippingService
use gohex.Example.Ordering.Fulfillment.{EventDecoders, to}
use gohex.Example.Ordering.Fulfillment.Reaction.{IsEventCodec}
use gohex.Example.System.{
  System, CommandJson, billing_registry, inventory_registry, shipping_registry, receive_command,
  receive_all, relay_commands, execute, contract_commands, contract_wire,
}

-- encoding/json reads back what it writes for the four commands.
pub record IsCommandCodec (json : CommandJson) : Type 0 where
  pub capture_payment :
      (c : CapturePayment)
      → json.capture_payment (json.encode (capture_payment_cmd c)) ≡ inl (capture_payment_cmd c)
  pub refund_payment :
      (c : RefundPayment)
      → json.refund_payment (json.encode (refund_payment_cmd c)) ≡ inl (refund_payment_cmd c)
  pub reserve_stock :
      (c : ReserveStock)
      → json.reserve_stock (json.encode (reserve_stock_cmd c)) ≡ inl (reserve_stock_cmd c)
  pub create_shipment :
      (c : CreateShipment)
      → json.create_shipment (json.encode (create_shipment_cmd c)) ≡ inl (create_shipment_cmd c)

-- The same for the events that the saga listens to and for the commands.
pub record IsWireCodec (event_json : ContractEvent → Text) (command_json : CommandJson)
    (u : EventDecoders) : Type 0 where
  pub events : IsEventCodec event_json u
  pub commands : IsCommandCodec command_json

-- The topic that a command's service consumes.
abbrev pub command_topic : ContractCommand → Text
command_topic (capture_payment_cmd c) = topic_billing_commands
command_topic (refund_payment_cmd c) = topic_billing_commands
command_topic (reserve_stock_cmd c) = topic_inventory_commands
command_topic (create_shipment_cmd c) = topic_shipping_commands

-- The request that the saga records of a command.
abbrev pub requested :
    (ContractEvent → Text) → CommandJson → Text → ContractCommand → CommandRequested
requested event_json json order cmd =
    request ⦃wire = contract_wire event_json json⦄ none order (to (command_topic cmd) cmd)
      (json.encode cmd)

-- A message on a command's topic, with its name and its JSON, is executed by the service.
receive_command-execute :
    (json : CommandJson) (laws : IsCommandCodec json) (cmd : ContractCommand) (m : Message)
    (w : System)
    → m.type_name ≡ contract_command_name cmd
    → m.payload ≡ json.encode cmd
    → receive_command json (command_topic cmd, m) w ≡ execute cmd w
unfolding receive_command decode_command contract_command_name billing_registry inventory_registry
    shipping_registry BillingService.register_commands InventoryService.register_commands
    ShippingService.register_commands register_command get put text_beq
receive_command-execute json laws (capture_payment_cmd c) m w name payload =
    rw (name, payload, laws.capture_payment c) refl
receive_command-execute json laws (refund_payment_cmd c) m w name payload =
    rw (name, payload, laws.refund_payment c) refl
receive_command-execute json laws (reserve_stock_cmd c) m w name payload =
    rw (name, payload, laws.reserve_stock c) refl
receive_command-execute json laws (create_shipment_cmd c) m w name payload =
    rw (name, payload, laws.create_shipment c) refl

module _ (event_json : ContractEvent → Text) (json : CommandJson) (laws : IsCommandCodec json)
    (order : Text) (version : ℕ) (m : Message) (w : System) where
  -- What one append that requested a command makes of the services.
  pub receive_all-request :
      (cmd : ContractCommand)
      → receive_all json
          (relay_commands order version
            (event_received m ∷ command_requested (requested event_json json order cmd) ∷ []))
          w
        ≡ execute cmd w
  unfolding receive_all relay_commands command_route request
  receive_all-request cmd = receive_command-execute json laws cmd _ w refl refl

  pub receive_all-request_ended :
      (cmd : ContractCommand)
      → receive_all json
          (relay_commands order version (
            event_received m
            ∷ command_requested (requested event_json json order cmd)
            ∷ ended
            ∷ []))
          w
        ≡ execute cmd w
  unfolding receive_all relay_commands command_route request
  receive_all-request_ended cmd = receive_command-execute json laws cmd _ w refl refl

  -- An append that requested none.
  pub receive_all-none :
      receive_all json (relay_commands order version (event_received m ∷ ended ∷ [])) w ≡ w
  unfolding receive_all relay_commands
  receive_all-none = refl
