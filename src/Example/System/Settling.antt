-- ===== src/Example/System/Settling.antt =====
-- gohex-example/: how every order settles.
use gohex.Prelude.{
  ℕ, suc, ◌≡◌, ◌⊎◌, refl, sym, subst, ◌∙◌, inl, inr, true, false, Bool, is_some, some, List, [],
  ◌∷◌, is_pos, exceeds, Bool-cases,
}
use gohex.Prelude.Map.{get, put}
use gohex.Prelude.Text.{Text, text_eq, text_beq, lit}
use gohex.Kernel.Aggregate.{Aggregate, take_uncommitted}
use gohex.Saga.{send}
use gohex.Saga.Runner.{decide}
use gohex.Example.Contracts.{OrderPlacedV1, ContractEvent, order_placed_v1}
use gohex.Example.Billing.{
  Payment, PaymentEvent, capture_limit_cents, status_failed, status_captured, status_refunded,
  refund,
}
use gohex.Example.Billing.Service.{translate_payment}
use gohex.Example.Inventory.{available_stock}
use gohex.Example.Shipping.{create_shipment}
use gohex.Example.Shipping.Service.{translate_shipment}
use gohex.Example.Ordering.Fulfillment.{EventDecoders}
use gohex.Example.Ordering.Fulfillment.Reaction.{fulfillment}
use gohex.Example.System.Saga.Facts.{
  payment_failed_delivered, stock_reserved_delivered, stock_rejected_delivered,
  shipment_dispatched_delivered,
}
use gohex.Example.System.Wire.{IsWireCodec}
use gohex.Example.System.{CommandJson, System, placed_system, deliver, execute, fact_id}
use gohex.Example.System.Stages.{
  known, failed_event, captured_event, rejected_event, reserved_event, refunded_event,
  dispatched_event, capture_command, reserve_command, ship_command, seen_placed, seen_captured,
  seen_reserved, payment_of, billed, stocked,
}
use gohex.Example.System.Ends.{unpaid, shipping, shipped, refunding}
use gohex.Example.System.Rounds.{
  go, run_next, run_quiet, bills_over, bills_within, stocks_over, stocks_within,
}

-- Nothing is in flight, the saga has ended, and the facts were these.
pub record IsSettled (w : System) (facts : List ContractEvent)
    (payment : Aggregate Payment PaymentEvent) (shipped : Bool) : Type 0 where
  pub quiet : w.in_flight ≡ []
  pub ended : w.saga.state.ended ≡ true
  pub delivered : w.delivered ≡ facts
  pub paid : w.payment ≡ some payment
  pub shipment : is_some w.shipment ≡ shipped

IsSettled-of :
    {w end : System} {facts : List ContractEvent} {payment : Aggregate Payment PaymentEvent}
    {shipped : Bool}
    → w ≡ end
    → IsSettled end facts payment shipped
    → IsSettled w facts payment shipped
IsSettled-of {facts} {payment} {shipped} e h =
    subst (λ v. IsSettled v facts payment shipped) (sym e) h

module _ (event_json : ContractEvent → Text) (command_json : CommandJson) (u : EventDecoders)
    (codec : IsWireCodec event_json command_json u) (o : OrderPlacedV1) where
  abbrev rounds : ℕ → System → System
  rounds = go event_json command_json u codec o

  ends_unpaid :
      (n : ℕ) → rounds (suc n) (billed u o status_failed (failed_event o)) ≡ rounds n (unpaid u o)
  ends_unpaid n = run_next event_json command_json u codec o n _ _ (failed_event o) [] refl (
      payment_failed_delivered event_json command_json u codec o.order_id 2 (known o)
        (seen_placed o) (send (capture_command o))
        (record (billed u o status_failed (failed_event o)) { in_flight = [] })
        (record { order_id = o.order_id; reason = lit "amount exceeds capture limit" })
        (unfold get put fact_id text_beq in refl))

  ships : (n : ℕ) → rounds (suc n) (stocked u o (reserved_event o)) ≡ rounds n (shipping u o)
  ships n = run_next event_json command_json u codec o n _ _ (reserved_event o) [] refl (
      stock_reserved_delivered event_json command_json u codec o.order_id 4 (known o)
        (seen_captured o) (send (reserve_command o))
        (record (stocked u o (reserved_event o)) { in_flight = [] })
        (record { order_id = o.order_id; qty = o.qty }) (unfold get put fact_id text_beq in refl)
      ∙ (unfold execute create_shipment take_uncommitted translate_shipment in refl))

  ends_shipped : (n : ℕ) → rounds (suc n) (shipping u o) ≡ rounds n (shipped u o)
  ends_shipped n = run_next event_json command_json u codec o n _ _ (dispatched_event o) [] refl (
      shipment_dispatched_delivered event_json command_json u codec o.order_id 6 (known o)
        (seen_reserved o) (send (ship_command o)) (record (shipping u o) { in_flight = [] })
        (record { order_id = o.order_id }) (unfold get put fact_id text_beq in refl))

  compensates :
      (n : ℕ)
      → rounds (suc n) (stocked u o (rejected_event o))
        ≡ rounds n (refunding u o [] (refunded_event o ∷ []))
  compensates n = run_next event_json command_json u codec o n _ _ (rejected_event o) [] refl (
      stock_rejected_delivered event_json command_json u codec o.order_id 4 (known o)
        (seen_captured o) (send (reserve_command o))
        (record (stocked u o (rejected_event o)) { in_flight = [] })
        (record { order_id = o.order_id; reason = lit "insufficient stock" })
        (unfold get put fact_id text_beq in refl)
      ∙ (unfold execute refund take_uncommitted translate_payment in refl))

  ignores_refund :
      (n : ℕ)
      → rounds (suc n) (refunding u o [] (refunded_event o ∷ []))
        ≡ rounds n (refunding u o (refunded_event o ∷ []) [])
  ignores_refund n =
      run_next event_json command_json u codec o n _ _ (refunded_event o) [] refl
        (unfold deliver decide in refl)

  -- Every order settles, within four deliveries and whatever more are allowed. An order with a
  -- positive total and quantity is placed, each fact and each command that the saga's append recorded
  -- is delivered once and in order, and the decoders of the saga and of the services read back what
  -- was written. Above the capture limit the payment fails and
  -- nothing is shipped. Otherwise, if the quantity exceeds the stock, nothing is shipped and the
  -- captured payment is refunded; and if it does not, the payment stays captured and the order is
  -- shipped. In each case the saga has ended, nothing is in flight, and the facts that were
  -- delivered are those of that path.
  pub order_settles :
      (n : ℕ)
      → is_pos o.cents ≡ true
      → is_pos o.qty ≡ true
      → let w = rounds (suc (suc (suc (suc n)))) (placed_system (fulfillment u) o) in
        ((exceeds o.cents capture_limit_cents ≡ true)
          × IsSettled w
              (order_placed_v1 o ∷ failed_event o ∷ [])
              (payment_of o.order_id 1 status_failed)
              false)
        ⊎ ((exceeds o.cents capture_limit_cents ≡ false)
            × (exceeds o.qty available_stock ≡ true)
            × IsSettled w
                (order_placed_v1 o ∷ captured_event o ∷ rejected_event o ∷ refunded_event o ∷ [])
                (payment_of o.order_id 2 status_refunded)
                false)
        ⊎ ((exceeds o.cents capture_limit_cents ≡ false)
            × (exceeds o.qty available_stock ≡ false)
            × IsSettled w
                (order_placed_v1 o ∷ captured_event o ∷ reserved_event o ∷ dispatched_event o ∷ [])
                (payment_of o.order_id 1 status_captured)
                true)
  order_settles n paid counted = elim (Bool-cases (exceeds o.cents capture_limit_cents)) [
    | inl over ↦ inl (
      over,
      IsSettled-of
          (bills_over event_json command_json u codec o paid over _
            ∙ ends_unpaid _
            ∙ run_quiet event_json command_json u codec o _ (unpaid u o) refl)
          (record { quiet = refl; ended = refl; delivered = refl; paid = refl; shipment = refl }),
    )
    | inr within ↦ elim (Bool-cases (exceeds o.qty available_stock)) [
      | inl short ↦ inr (
          inl (
            within,
            short,
            IsSettled-of
                (bills_within event_json command_json u codec o paid within _
                  ∙ stocks_over event_json command_json u codec o counted short _
                  ∙ compensates _
                  ∙ ignores_refund _
                  ∙ run_quiet event_json command_json u codec o _ _ refl)
                (record {
                  quiet = refl;
                  ended = refl;
                  delivered = refl;
                  paid = refl;
                  shipment = refl;
                }),
          ))
      | inr stock ↦ inr (
          inr (
            within,
            stock,
            IsSettled-of
                (bills_within event_json command_json u codec o paid within _
                  ∙ stocks_within event_json command_json u codec o counted stock _
                  ∙ ships _
                  ∙ ends_shipped _
                  ∙ run_quiet event_json command_json u codec o _ _ refl)
                (record {
                  quiet = refl;
                  ended = refl;
                  delivered = refl;
                  paid = refl;
                  shipment = refl;
                }),
          ))
    ]
  ]
