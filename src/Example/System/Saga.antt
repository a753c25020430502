-- ===== src/Example/System/Saga.antt =====
-- gohex-example/: the saga's part in the delivery of a fact.
pub mod Facts
use gohex.Prelude.{
  ℕ, ◌+◌, ◌≡◌, ◌∙◌, refl, ap, inl, true, false, Bool, Option, none, some, [], ◌∷◌, ◌++◌,
}
use gohex.Prelude.Map.{Map, get, put}
use gohex.Prelude.Decimal.{itoa}
use gohex.Prelude.Text.{Text, text_eq, text_beq, is_empty}
use gohex.Kernel.Errors.{Error}
use gohex.Kernel.Aggregate.{take_uncommitted, raise, raised}
use gohex.Broker.Message.{Message}
use gohex.Saga.{
  saga_applies, OutCommand, send, end_saga, Instance, EvHandler, handled, Decisions, event_received,
  new, on_event, event_key, apply_saga, has_seen,
}
use gohex.Saga.Runner.{SagaInstance, decide}
use gohex.Example.Contracts.{
  topic_billing_commands, topic_inventory_commands, topic_shipping_commands, OrderPlacedV1,
  PaymentCapturedV1, PaymentFailedV1, StockReservedV1, StockRejectedV1, ShipmentDispatchedV1,
  ContractEvent, order_placed_v1, payment_captured_v1, payment_failed_v1, stock_reserved_v1,
  stock_rejected_v1, shipment_dispatched_v1, contract_event_name, contract_event_version,
  ContractCommand, capture_payment_cmd, refund_payment_cmd, reserve_stock_cmd, create_shipment_cmd,
}
use gohex.Example.Ordering.Fulfillment.{Fulfillment, EventDecoders, new_fulfillment_saga, to}
use gohex.Example.Ordering.Fulfillment.Reaction.{fulfillment, IsEventCodec}
use gohex.Example.System.Wire.{
  IsWireCodec, receive_all-request, receive_all-request_ended, receive_all-none, command_topic,
}
use gohex.Example.System.{CommandJson, System, message_of, deliver, execute, fact_id}

-- A committed instance of the fulfillment saga.
abbrev pub instance_of :
    EventDecoders
    → ℕ
    → Fulfillment
    → Bool
    → Map Text Bool
    → Decisions ContractCommand
    → SagaInstance Fulfillment ContractCommand
instance_of u n s ended seen decisions = record {
  root = record { version = n; pending = [] };
  state = record {
    def = fulfillment u;
    state = s;
    ended = ended;
    seen = seen;
    last_decisions = decisions;
  };
}

-- What Apply makes of a message whose handler decided without an error.
apply_decided :
    {S C : Type 0} (i : Instance S C) (m : Message) (h : EvHandler S C) (s' : S) (d : Decisions C)
    → get i.def.handlers (event_key m.type_name m.version) ≡ some h
    → h.handle i.state m ≡ (s', inl d)
    → apply_saga i (event_received m)
      ≡ (record i { state = s'; seen = put i.seen m.id true; last_decisions = d }, none)
unfolding apply_saga put
apply_decided i m h s' d installed e =
    rw (apply_saga, installed) (ap (handled (record i { seen = put i.seen m.id true })) e)

command_topic_filled : (cmd : ContractCommand) → is_empty (command_topic cmd) ≡ false
command_topic_filled (capture_payment_cmd c) = refl
command_topic_filled (refund_payment_cmd c) = refl
command_topic_filled (reserve_stock_cmd c) = refl
command_topic_filled (create_shipment_cmd c) = refl

abbrev pub no_handler : EvHandler Fulfillment ContractCommand
no_handler = record {
  correlate = λ m. inl [];
  handle = λ s m. (s, inl (record { commands = []; ends = false }));
}

-- The handler that the saga installs for a fact.
abbrev pub handler_of : EventDecoders → ContractEvent → EvHandler Fulfillment ContractCommand
handler_of u fact =
    elim (get (fulfillment u).handlers
      (event_key (contract_event_name fact) (contract_event_version fact))) [
        | none ↦ no_handler
        | some h ↦ h
      ]

module _ (event_json : ContractEvent → Text) (command_json : CommandJson) (u : EventDecoders)
    (codec : IsWireCodec event_json command_json u) (order : Text) (n : ℕ) (s : Fulfillment)
    (seen : Map Text Bool) (last : Decisions ContractCommand) where
  -- The system once the saga has recorded what it decided of `fact`.
  abbrev pub recorded :
      System → ContractEvent → ℕ → Fulfillment → Bool → Decisions ContractCommand → System
  recorded w fact k s' ended decisions = record w {
    saga = instance_of u (n + k) s' ended (put seen (fact_id fact) true) decisions;
    delivered = w.delivered ++ fact ∷ [];
  }

  abbrev pub before : System → System
  before w = record w { saga = instance_of u n s false seen last }

  abbrev pub delivered : ContractEvent → System → System
  delivered fact w = deliver event_json command_json order fact (before w)

  -- The instance behind Raise of the received message.
  abbrev pub received :
      ContractEvent
      → Fulfillment
      → Decisions ContractCommand
      → SagaInstance Fulfillment ContractCommand
  received fact s' decisions = record {
    root = record {
      version = n;
      pending = event_received (message_of event_json command_json order fact) ∷ [];
    };
    state = record {
      def = fulfillment u;
      state = s';
      ended = false;
      seen = put seen (fact_id fact) true;
      last_decisions = decisions;
    };
  }

  abbrev pub receive : ContractEvent → SagaInstance Fulfillment ContractCommand × Option Error
  receive fact =
      raise (instance_of u n s false seen last)
        (event_received (message_of event_json command_json order fact))

  -- Raise of the received message, whose handler decided without an error.
  pub receive-received :
      (fact : ContractEvent) (s' : Fulfillment) (d : Decisions ContractCommand)
      → get
          (fulfillment u).handlers
          (event_key (contract_event_name fact) (contract_event_version fact))
        ≡ some (handler_of u fact)
      → (handler_of u fact).handle s (message_of event_json command_json order fact) ≡ (s', inl d)
      → receive fact ≡ (received fact s' d, none)
  unfolding raise put
  receive-received fact s' d installed decides = ap (raised (instance_of u n s false seen last) _) (
      apply_decided (instance_of u n s false seen last).state _ (handler_of u fact) s' d installed
        decides)

  module _ (w : System) (fact : ContractEvent) (s' : Fulfillment)
      (fresh : get seen (fact_id fact) ≡ none) where
    pub sends_one :
        (cmd : ContractCommand)
        → let d : Decisions ContractCommand = send (to (command_topic cmd) cmd ∷ []) in
          receive fact ≡ (received fact s' d, none)
          → delivered fact w ≡ execute cmd (recorded w fact 2 s' false d)
    unfolding get
    sends_one cmd e =
        unfold deliver decide has_seen in
        rw (fresh, e, command_topic_filled cmd)
          (unfold raise apply_saga take_uncommitted in
            receive_all-request event_json command_json codec.commands order n
              (message_of event_json command_json order fact)
              (recorded w fact 2 s' false (send (to (command_topic cmd) cmd ∷ []))) cmd)

    pub ends_quietly :
        receive fact ≡ (received fact s' end_saga, none)
        → delivered fact w ≡ recorded w fact 2 s' true end_saga
    unfolding get
    ends_quietly e =
        unfold deliver decide has_seen in
        rw (fresh, e)
          (unfold raise apply_saga take_uncommitted in
            receive_all-none event_json command_json codec.commands order n
              (message_of event_json command_json order fact) (recorded w fact 2 s' true end_saga))

    pub ends_sending :
        (cmd : ContractCommand)
        → let d : Decisions ContractCommand = record {
          commands = to (command_topic cmd) cmd ∷ [];
          ends = true;
        } in
          receive fact ≡ (received fact s' d, none)
          → delivered fact w ≡ execute cmd (recorded w fact 3 s' true d)
    unfolding get
    ends_sending cmd e =
        unfold deliver decide has_seen in
        rw (fresh, e, command_topic_filled cmd)
          (unfold raise apply_saga take_uncommitted in
            receive_all-request_ended event_json command_json codec.commands order n
              (message_of event_json command_json order fact)
              (recorded w fact 3 s' true
                (record { commands = to (command_topic cmd) cmd ∷ []; ends = true }))
              cmd)
