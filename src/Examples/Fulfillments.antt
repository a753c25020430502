-- ===== src/Examples/Fulfillments.antt =====
-- An order on its way through the services, at a concrete input.
use gohex.Prelude.{suc, ◌≡◌, refl, true, false, [], ◌∷◌, pos, ◌⊎◌, inl, exceeds}
use gohex.Prelude.Text.{Text, lit}
use gohex.Example.Contracts.{
  OrderPlacedV1, ContractEvent, order_placed_v1, payment_captured_v1, payment_failed_v1,
  payment_refunded_v1, stock_reserved_v1, stock_rejected_v1, shipment_dispatched_v1,
  capture_payment_cmd, refund_payment_cmd, reserve_stock_cmd, create_shipment_cmd,
}
use gohex.Example.Billing.{capture_limit_cents, status_failed, status_captured, status_refunded}
use gohex.Example.Inventory.{available_stock}
use gohex.Example.Ordering.Fulfillment.{EventDecoders}
use gohex.Example.Ordering.Fulfillment.Reaction.{fulfillment, IsEventCodec}
use gohex.Example.System.Wire.{IsWireCodec}
use gohex.Example.System.{CommandJson, System, placed_system, run}
use gohex.Example.System.Stages.{
  payment_of, failed_event, captured_event, rejected_event, refunded_event, reserved_event,
  dispatched_event,
}
use gohex.Example.System.Settling.{IsSettled, order_settles}
use gohex.Examples.Codecs.{
  write_int, read_int, behind_int, write_text, read_text, behind_text, codec_laws,
}

abbrev event_json : ContractEvent → Text
event_json (order_placed_v1 e) =
    write_int e.cents
      (write_int e.qty (write_text e.currency (write_text e.customer_id e.order_id)))
event_json (payment_captured_v1 e) = write_int e.cents e.order_id
event_json (payment_failed_v1 e) = write_text e.reason e.order_id
event_json (payment_refunded_v1 e) = e.order_id
event_json (stock_reserved_v1 e) = write_int e.qty e.order_id
event_json (stock_rejected_v1 e) = write_text e.reason e.order_id
event_json (shipment_dispatched_v1 e) = e.order_id

abbrev command_json : CommandJson
command_json = record {
  encode = λ c. elim c [
    | capture_payment_cmd m ↦ write_int m.cents m.order_id
    | refund_payment_cmd m ↦ m.order_id
    | reserve_stock_cmd m ↦ write_int m.qty m.order_id
    | create_shipment_cmd m ↦ m.order_id
  ];
  capture_payment =
      λ p. inl (capture_payment_cmd (record { order_id = behind_int p; cents = read_int p }));
  refund_payment = λ p. inl (refund_payment_cmd (record { order_id = p }));
  reserve_stock =
      λ p. inl (reserve_stock_cmd (record { order_id = behind_int p; qty = read_int p }));
  create_shipment = λ p. inl (create_shipment_cmd (record { order_id = p }));
}

abbrev read_placed : Text → OrderPlacedV1
read_placed p =
    let q = behind_int p in
    let r = behind_int q in
    let t = behind_text r in
    record {
      order_id = behind_text t;
      customer_id = read_text t;
      cents = read_int p;
      currency = read_text r;
      qty = read_int q;
    }

abbrev decoders : EventDecoders
decoders = record {
  order_placed = λ p. inl (read_placed p);
  payment_captured = λ p. inl (record { order_id = behind_int p; cents = read_int p });
  payment_failed = λ p. inl (record { order_id = behind_text p; reason = read_text p });
  stock_reserved = λ p. inl (record { order_id = behind_int p; qty = read_int p });
  stock_rejected = λ p. inl (record { order_id = behind_text p; reason = read_text p });
  shipment_dispatched = λ p. inl (record { order_id = p });
}

decoders-IsEventCodec : IsEventCodec event_json decoders
decoders-IsEventCodec = record {
  order_placed = λ e. simp codec_laws;
  payment_captured = λ e. simp codec_laws;
  payment_failed = λ e. simp codec_laws;
  stock_reserved = λ e. simp codec_laws;
  stock_rejected = λ e. simp codec_laws;
  shipment_dispatched = λ e. refl;
}

wire_codec : IsWireCodec event_json command_json decoders
wire_codec = record {
  events = decoders-IsEventCodec;
  commands = record {
    capture_payment = λ c. simp codec_laws;
    refund_payment = λ c. refl;
    reserve_stock = λ c. simp codec_laws;
    create_shipment = λ c. refl;
  };
}

-- More pieces than the stock has, at a price within the limit.
abbrev order : OrderPlacedV1
order = record {
  order_id = lit "o1";
  customer_id = lit "c1";
  cents = pos 500;
  currency = lit "EUR";
  qty = pos 4000;
}

abbrev settled : System
settled =
    run event_json command_json order.order_id (suc (suc (suc (suc 3))))
      (placed_system (fulfillment decoders) order)

order_settles_example :
    ((exceeds order.cents capture_limit_cents ≡ true)
      × IsSettled settled
          (order_placed_v1 order ∷ failed_event order ∷ [])
          (payment_of order.order_id 1 status_failed)
          false)
    ⊎ ((exceeds order.cents capture_limit_cents ≡ false)
        × (exceeds order.qty available_stock ≡ true)
        × IsSettled settled
            (order_placed_v1 order
              ∷ captured_event order
              ∷ rejected_event order
              ∷ refunded_event order
              ∷ [])
            (payment_of order.order_id 2 status_refunded)
            false)
    ⊎ ((exceeds order.cents capture_limit_cents ≡ false)
        × (exceeds order.qty available_stock ≡ false)
        × IsSettled settled
            (order_placed_v1 order
              ∷ captured_event order
              ∷ reserved_event order
              ∷ dispatched_event order
              ∷ [])
            (payment_of order.order_id 1 status_captured)
            true)
order_settles_example = order_settles event_json command_json decoders wire_codec order 3 refl refl
