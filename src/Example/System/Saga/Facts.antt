-- ===== src/Example/System/Saga/Facts.antt =====
-- gohex-example/ordering/internal/app/saga.go: what the saga decides of each fact that is delivered.
use gohex.Prelude.{ℕ, ◌≡◌, refl, true, false, Bool, none, [], ◌∷◌}
use gohex.Prelude.Map.{Map, get, put}
use gohex.Prelude.Decimal.{itoa}
use gohex.Prelude.Text.{Text, text_eq, text_beq}
use gohex.Saga.{saga_applies, send, end_saga, Decisions, new, on_event, event_key}
use gohex.Example.Contracts.{
  topic_billing_commands, topic_inventory_commands, topic_shipping_commands, OrderPlacedV1,
  PaymentCapturedV1, PaymentFailedV1, StockReservedV1, StockRejectedV1, ShipmentDispatchedV1,
  ContractEvent, order_placed_v1, payment_captured_v1, payment_failed_v1, stock_reserved_v1,
  stock_rejected_v1, shipment_dispatched_v1, contract_event_name, contract_event_version,
  ContractCommand, capture_payment_cmd, refund_payment_cmd, reserve_stock_cmd, create_shipment_cmd,
}
use gohex.Example.Ordering.Fulfillment.{Fulfillment, EventDecoders, new_fulfillment_saga, to}
use gohex.Example.System.Wire.{IsWireCodec}
use gohex.Example.System.{CommandJson, System, execute, fact_id}
use gohex.Example.System.Saga.{
  recorded, delivered, receive-received, sends_one, ends_quietly, ends_sending,
}

module _ (event_json : ContractEvent → Text) (command_json : CommandJson) (u : EventDecoders)
    (codec : IsWireCodec event_json command_json u) (order : Text) (n : ℕ) (s : Fulfillment)
    (seen : Map Text Bool) (last : Decisions ContractCommand) where
  pub order_placed_delivered :
      (w : System) (e : OrderPlacedV1)
      → get seen (fact_id (order_placed_v1 e)) ≡ none
      → delivered event_json command_json u codec order n s seen last (order_placed_v1 e) w
        ≡ execute (capture_payment_cmd (record { order_id = e.order_id; cents = e.cents })) (
            recorded event_json command_json u codec order n s seen last w
              (order_placed_v1 e)
              2
              (record { cents = e.cents; qty = e.qty })
              false
              (send (
                to topic_billing_commands
                  (capture_payment_cmd (record { order_id = e.order_id; cents = e.cents }))
                ∷ [])))
  unfolding event_key itoa contract_event_name contract_event_version new_fulfillment_saga new
      on_event get put text_beq
  order_placed_delivered w e fresh =
      sends_one event_json command_json u codec order n s seen last w (order_placed_v1 e)
        (record { cents = e.cents; qty = e.qty }) fresh
        (capture_payment_cmd (record { order_id = e.order_id; cents = e.cents }))
        (receive-received event_json command_json u codec order n s seen last (order_placed_v1 e)
          (record { cents = e.cents; qty = e.qty })
          (send (
            to topic_billing_commands
              (capture_payment_cmd (record { order_id = e.order_id; cents = e.cents }))
            ∷ []))
          refl (rw (codec.events.order_placed e) refl))

  pub payment_captured_delivered :
      (w : System) (e : PaymentCapturedV1)
      → get seen (fact_id (payment_captured_v1 e)) ≡ none
      → delivered event_json command_json u codec order n s seen last (payment_captured_v1 e) w
        ≡ execute (reserve_stock_cmd (record { order_id = e.order_id; qty = s.qty })) (
            recorded event_json command_json u codec order n s seen last w
              (payment_captured_v1 e)
              2
              s
              false
              (send (
                to topic_inventory_commands
                  (reserve_stock_cmd (record { order_id = e.order_id; qty = s.qty }))
                ∷ [])))
  unfolding event_key itoa contract_event_name contract_event_version new_fulfillment_saga new
      on_event get put text_beq
  payment_captured_delivered w e fresh =
      sends_one event_json command_json u codec order n s seen last w (payment_captured_v1 e) s
        fresh (reserve_stock_cmd (record { order_id = e.order_id; qty = s.qty }))
        (receive-received event_json command_json u codec order n s seen last
          (payment_captured_v1 e) s
          (send (
            to topic_inventory_commands
              (reserve_stock_cmd (record { order_id = e.order_id; qty = s.qty }))
            ∷ []))
          refl (rw (codec.events.payment_captured e) refl))

  pub payment_failed_delivered :
      (w : System) (e : PaymentFailedV1)
      → get seen (fact_id (payment_failed_v1 e)) ≡ none
      → delivered event_json command_json u codec order n s seen last (payment_failed_v1 e) w
        ≡ recorded event_json command_json u codec order n s seen last w
            (payment_failed_v1 e)
            2
            s
            true
            end_saga
  unfolding event_key itoa contract_event_name contract_event_version new_fulfillment_saga new
      on_event get put text_beq
  payment_failed_delivered w e fresh =
      ends_quietly event_json command_json u codec order n s seen last w (payment_failed_v1 e) s
        fresh
        (receive-received event_json command_json u codec order n s seen last (payment_failed_v1 e)
          s end_saga refl (rw (codec.events.payment_failed e) refl))

  pub stock_reserved_delivered :
      (w : System) (e : StockReservedV1)
      → get seen (fact_id (stock_reserved_v1 e)) ≡ none
      → delivered event_json command_json u codec order n s seen last (stock_reserved_v1 e) w
        ≡ execute (create_shipment_cmd (record { order_id = e.order_id })) (
            recorded event_json command_json u codec order n s seen last w
              (stock_reserved_v1 e)
              2
              s
              false
              (send (
                to topic_shipping_commands (create_shipment_cmd (record { order_id = e.order_id }))
                ∷ [])))
  unfolding event_key itoa contract_event_name contract_event_version new_fulfillment_saga new
      on_event get put text_beq
  stock_reserved_delivered w e fresh =
      sends_one event_json command_json u codec order n s seen last w (stock_reserved_v1 e) s fresh
        (create_shipment_cmd (record { order_id = e.order_id }))
        (receive-received event_json command_json u codec order n s seen last (stock_reserved_v1 e)
          s
          (send (
            to topic_shipping_commands (create_shipment_cmd (record { order_id = e.order_id }))
            ∷ []))
          refl (rw (codec.events.stock_reserved e) refl))

  pub stock_rejected_delivered :
      (w : System) (e : StockRejectedV1)
      → get seen (fact_id (stock_rejected_v1 e)) ≡ none
      → delivered event_json command_json u codec order n s seen last (stock_rejected_v1 e) w
        ≡ execute (refund_payment_cmd (record { order_id = e.order_id })) (
            recorded event_json command_json u codec order n s seen last w
              (stock_rejected_v1 e)
              3
              s
              true
              (record {
                commands =
                    to topic_billing_commands
                      (refund_payment_cmd (record { order_id = e.order_id }))
                    ∷ [];
                ends = true;
              }))
  unfolding event_key itoa contract_event_name contract_event_version new_fulfillment_saga new
      on_event get put text_beq
  stock_rejected_delivered w e fresh =
      ends_sending event_json command_json u codec order n s seen last w (stock_rejected_v1 e) s
        fresh (refund_payment_cmd (record { order_id = e.order_id }))
        (receive-received event_json command_json u codec order n s seen last (stock_rejected_v1 e)
          s
          (record {
            commands =
                to topic_billing_commands (refund_payment_cmd (record { order_id = e.order_id }))
                ∷ [];
            ends = true;
          })
          refl (rw (codec.events.stock_rejected e) refl))

  pub shipment_dispatched_delivered :
      (w : System) (e : ShipmentDispatchedV1)
      → get seen (fact_id (shipment_dispatched_v1 e)) ≡ none
      → delivered event_json command_json u codec order n s seen last (shipment_dispatched_v1 e) w
        ≡ recorded event_json command_json u codec order n s seen last w
            (shipment_dispatched_v1 e)
            2
            s
            true
            end_saga
  unfolding event_key itoa contract_event_name contract_event_version new_fulfillment_saga new
      on_event get put text_beq
  shipment_dispatched_delivered w e fresh =
      ends_quietly event_json command_json u codec order n s seen last w (shipment_dispatched_v1 e)
        s fresh
        (receive-received event_json command_json u codec order n s seen last
          (shipment_dispatched_v1 e) s end_saga refl (rw (codec.events.shipment_dispatched e) refl))
