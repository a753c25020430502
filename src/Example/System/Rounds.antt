-- ===== src/Example/System/Rounds.antt =====
-- gohex-example/: the rounds of an order through the services, up to the decision on its stock.
use gohex.Prelude.{ℕ, zero, suc, ◌≡◌, refl, ap, ◌∙◌, true, false, List, [], ◌∷◌, is_pos, exceeds}
use gohex.Prelude.Map.{get, put}
use gohex.Prelude.Text.{Text, text_eq, text_beq}
use gohex.Kernel.Aggregate.{take_uncommitted}
use gohex.Saga.{send}
use gohex.Example.Contracts.{OrderPlacedV1, ContractEvent, order_placed_v1}
use gohex.Example.Billing.{capture_limit_cents, status_failed, status_captured}
use gohex.Example.Billing.Service.{decide_payment, translate_payment}
use gohex.Example.Inventory.{available_stock}
use gohex.Example.Inventory.Service.{decide_reservation, translate_reservation}
use gohex.Example.Ordering.Fulfillment.{zero_fulfillment, EventDecoders}
use gohex.Example.Ordering.Fulfillment.Reaction.{fulfillment}
use gohex.Example.System.Saga.Facts.{order_placed_delivered, payment_captured_delivered}
use gohex.Example.System.Stages.{
  known, failed_event, captured_event, rejected_event, reserved_event, capture_command, seen_placed,
  billed, stocked,
}
use gohex.Example.System.Wire.{IsWireCodec}
use gohex.Example.System.{CommandJson, System, placed_system, deliver, run, execute, fact_id}

module _ (event_json : ContractEvent → Text) (command_json : CommandJson) (u : EventDecoders)
    (codec : IsWireCodec event_json command_json u) (o : OrderPlacedV1) where
  abbrev pub go : ℕ → System → System
  go = run event_json command_json o.order_id

  pub run_next :
      (n : ℕ) (w w' : System) (fact : ContractEvent) (facts : List ContractEvent)
      → w.in_flight ≡ fact ∷ facts
      → deliver event_json command_json o.order_id fact (record w { in_flight = facts }) ≡ w'
      → go (suc n) w ≡ go n w'
  unfolding run
  run_next n w w' fact facts h e = rw (run, h) (ap (go n) e)

  pub run_quiet : (n : ℕ) (w : System) → w.in_flight ≡ [] → go n w ≡ w
  unfolding run
  run_quiet zero w h = refl
  run_quiet (suc n) w h = elim_quiet w.in_flight h
    where
      elim_quiet :
          (fs : List ContractEvent)
          → fs ≡ []
          → (elim fs as (λ x. System) [
            | [] ↦ w
            | f ∷ fs' ↦
                go n (deliver event_json command_json o.order_id f (record w { in_flight = fs' }))
          ])
            ≡ w
      elim_quiet [] e = refl
      elim_quiet (f ∷ fs') e = cc

  pub bills_over :
      is_pos o.cents ≡ true
      → exceeds o.cents capture_limit_cents ≡ true
      → (n : ℕ)
      → go (suc n) (placed_system (fulfillment u) o)
        ≡ go n (billed u o status_failed (failed_event o))
  bills_over good over n = run_next n _ _ (order_placed_v1 o) [] refl (
      order_placed_delivered event_json command_json u codec o.order_id 0 zero_fulfillment [] _
        (record (placed_system (fulfillment u) o) { in_flight = [] }) o (unfold get in refl)
      ∙ (unfold execute decide_payment take_uncommitted translate_payment in rw (good, over) refl))

  pub bills_within :
      is_pos o.cents ≡ true
      → exceeds o.cents capture_limit_cents ≡ false
      → (n : ℕ)
      → go (suc n) (placed_system (fulfillment u) o)
        ≡ go n (billed u o status_captured (captured_event o))
  bills_within good within n = run_next n _ _ (order_placed_v1 o) [] refl (
      order_placed_delivered event_json command_json u codec o.order_id 0 zero_fulfillment [] _
        (record (placed_system (fulfillment u) o) { in_flight = [] }) o (unfold get in refl)
      ∙ (unfold execute decide_payment take_uncommitted translate_payment in
          rw (good, within) refl))

  pub stocks_over :
      is_pos o.qty ≡ true
      → exceeds o.qty available_stock ≡ true
      → (n : ℕ)
      → go (suc n) (billed u o status_captured (captured_event o))
        ≡ go n (stocked u o (rejected_event o))
  stocks_over good over n = run_next n _ _ (captured_event o) [] refl (
      payment_captured_delivered event_json command_json u codec o.order_id 2 (known o)
        (seen_placed o) (send (capture_command o))
        (record (billed u o status_captured (captured_event o)) { in_flight = [] })
        (record { order_id = o.order_id; cents = o.cents })
        (unfold get put fact_id text_beq in refl)
      ∙ (unfold execute decide_reservation take_uncommitted translate_reservation in
          rw (good, over) refl))

  pub stocks_within :
      is_pos o.qty ≡ true
      → exceeds o.qty available_stock ≡ false
      → (n : ℕ)
      → go (suc n) (billed u o status_captured (captured_event o))
        ≡ go n (stocked u o (reserved_event o))
  stocks_within good within n = run_next n _ _ (captured_event o) [] refl (
      payment_captured_delivered event_json command_json u codec o.order_id 2 (known o)
        (seen_placed o) (send (capture_command o))
        (record (billed u o status_captured (captured_event o)) { in_flight = [] })
        (record { order_id = o.order_id; cents = o.cents })
        (unfold get put fact_id text_beq in refl)
      ∙ (unfold execute decide_reservation take_uncommitted translate_reservation in
          rw (good, within) refl))
