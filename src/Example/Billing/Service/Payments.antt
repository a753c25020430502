-- ===== src/Example/Billing/Service/Payments.antt =====
-- gohex-example/billing/internal/app/app.go: what CapturePayment does to the payments of a store.
use gohex.Prelude.{
  ℕ, ◌≡◌, refl, ap, ◌∙◌, ℤ, ◌⊎◌, inl, inr, true, false, List, [], ◌∷◌, is_pos, exceeds, Bool-cases,
  if◌then◌else◌,
}
use gohex.Prelude.Text.{Text, lit}
use gohex.Kernel.Errors.{domain}
use gohex.Kernel.Result.{ok, err}
use gohex.Kernel.Event.{DomainEvent}
use gohex.Kernel.Aggregate.{Aggregate, uncommitted_events, take_uncommitted, apply_all}
use gohex.Kernel.Aggregate.Replay.{IsReplay}
use gohex.EventStore.Types.{RecordedEvent, Store}
use gohex.EventStore.Contract.{events_of, Contract}
use gohex.EventStore.Position.{Context, Positions, Extractor}
use gohex.EventStore.Registry.{Registry}
use gohex.EventStore.Repository.{Repository, stream_of, load_aggregate}
use gohex.EventStore.Repository.RoundTrip.Codec.{IsCodec}
use gohex.Example.Contracts.{CapturePayment}
use gohex.Example.Handled.{Handled, unchanged, save_decision}
use gohex.Example.Handled.Once.{
  IsStored, decision-IsStored, unless_decided_missing, unless_decided_again,
}
use gohex.Example.Billing.{
  err_invalid_amount, PaymentEvent, payment_captured, payment_failed, payment_refunded, Payment,
  zero_payment, payment_applies, apply_payment, Status, status_captured, status_failed,
  capture_limit_cents,
}
use gohex.Example.Billing.Service.{new_handlers, decide_payment, capture_payment}

-- The fact that CapturePayment records of a positive amount, and the status that it leads to.
abbrev pub captured_fact : CapturePayment → PaymentEvent
captured_fact cmd =
    if exceeds cmd.cents capture_limit_cents
    then payment_failed cmd.order_id (lit "amount exceeds capture limit")
    else payment_captured cmd.order_id cmd.cents

abbrev pub captured_status : CapturePayment → Status
captured_status cmd =
    if exceeds cmd.cents capture_limit_cents then status_failed else status_captured

-- The new aggregate with that fact uncommitted.
abbrev pub decided : CapturePayment → Aggregate Payment PaymentEvent
decided cmd = record {
  root = record { version = 0; pending = captured_fact cmd ∷ [] };
  state = record { order = cmd.order_id; status = captured_status cmd };
}

decide_payment-decided :
    (cmd : CapturePayment) → is_pos cmd.cents ≡ true → decide_payment cmd ≡ ok (decided cmd)
unfolding decide_payment
decide_payment-decided cmd h = rw h (elim (Bool-cases (exceeds cmd.cents capture_limit_cents)) [
  | inl e ↦ rw e refl
  | inr e ↦ rw e refl
])

decide_payment_invalid :
    (cmd : CapturePayment)
    → is_pos cmd.cents ≡ false
    → decide_payment cmd ≡ err (domain err_invalid_amount)
unfolding decide_payment
decide_payment_invalid cmd h = rw h refl

-- encoding/json reads back what it writes for the three events of a payment.
pub record IsPaymentCodec ⦃ev : DomainEvent PaymentEvent⦄ (registry : Registry PaymentEvent)
    : Type 0 where
  pub captures : (order : Text) (cents : ℤ) → IsCodec registry (payment_captured order cents)
  pub failures : (order reason : Text) → IsCodec registry (payment_failed order reason)
  pub refunds : (order : Text) → IsCodec registry (payment_refunded order)

module _ {S : Type 0} ⦃ev : DomainEvent PaymentEvent⦄ (payments : Repository S Payment PaymentEvent)
    (IsValid : S → Type 0) (ext : Extractor) (ctx : Context) (now : ℕ) where
  -- The command stored its decision. CapturePayment for the same order changes nothing any more.
  pub record IsCaptured (cmd : CapturePayment) (s : S) (h : Handled S) : Type 0 where
    pub stored : IsStored payments IsValid cmd.order_id s (decided cmd) h
    pub again :
        (cmd' : CapturePayment) (heap' : Positions)
        → cmd'.order_id ≡ cmd.order_id
        → capture_payment payments ext ctx now cmd' h.store heap' ≡ unchanged h.store heap' (ok tt)

module _ {S : Type 0} ⦃ev : DomainEvent PaymentEvent⦄ (payments : Repository S Payment PaymentEvent)
    (ext : Extractor) (ctx : Context) (now : ℕ) where
  pub capture_again :
      (cmd' : CapturePayment) (s : S) (heap' : Positions) (p : Aggregate Payment PaymentEvent)
      → load_aggregate payments s cmd'.order_id ≡ ok p
      → capture_payment payments ext ctx now cmd' s heap' ≡ unchanged s heap' (ok tt)
  unfolding capture_payment
  capture_again cmd' s heap' p h = unless_decided_again s heap' _ p _ h

module _ {S : Type 0} ⦃ev : DomainEvent PaymentEvent⦄ {IsValid : S → Type 0}
    {log : S → List RecordedEvent} (store : Store S) (registry : Registry PaymentEvent)
    (c : Contract store IsValid log) (codec : IsPaymentCodec registry) (ext : Extractor)
    (ctx : Context) (now : ℕ) (s : S) (heap : Positions) (valid : IsValid s) where
  abbrev payments : Repository S Payment PaymentEvent
  payments = new_handlers store registry

  captured_fact-IsCodec : (cmd : CapturePayment) → IsCodec registry (captured_fact cmd)
  captured_fact-IsCodec cmd = elim (Bool-cases (exceeds cmd.cents capture_limit_cents)) [
    | inl e ↦ rw e (codec.failures cmd.order_id _)
    | inr e ↦ rw e (codec.captures cmd.order_id cmd.cents)
  ]

  decided-IsReplay : (cmd : CapturePayment) → IsReplay zero_payment [] (decided cmd)
  decided-IsReplay cmd = elim (Bool-cases (exceeds cmd.cents capture_limit_cents)) [
    | inl e ↦ rw e (record { state = unfold apply_all apply_payment in refl; version = refl })
    | inr e ↦ rw e (record { state = unfold apply_all apply_payment in refl; version = refl })
  ]

  -- CapturePayment for an order that has no payment yet, over any store that meets the port's
  -- contract. An amount that is not positive is refused as invalid and changes nothing. Any other
  -- is decided: the handler succeeds and stores the payment, which loads as failed above the
  -- capture limit and as captured otherwise, and no other payment changes; and whatever
  -- CapturePayment comes for the order then succeeds and changes nothing.
  pub capture_payment_once :
      (cmd : CapturePayment)
      → events_of (stream_of payments cmd.order_id) (log s) ≡ []
      → let h = capture_payment payments ext ctx now cmd s heap in
        ((is_pos cmd.cents ≡ false) × (h ≡ unchanged s heap (err (domain err_invalid_amount))))
        ⊎ ((is_pos cmd.cents ≡ true) × IsCaptured payments IsValid ext ctx now cmd s h)
  capture_payment_once cmd missing = elim (Bool-cases (is_pos cmd.cents)) [
    | inl good ↦
        let stored =
          decision-IsStored payments c ext ctx now cmd.order_id s heap valid missing (decided cmd)
            (decided-IsReplay cmd) (unfold uncommitted_events in λ e. cc)
            (unfold uncommitted_events in (captured_fact-IsCodec cmd, tt)) in
        let h = capture_payment payments ext ctx now cmd s heap in
        let here : IsStored payments IsValid cmd.order_id s (decided cmd) h =
          unfold capture_payment in rw (decide_payment-decided cmd good) stored in
        inr (
          good,
          record {
            stored = here;
            again = λ cmd' heap' e.
                capture_again payments ext ctx now cmd' h.store heap'
                  (take_uncommitted (decided cmd)).0
                  (ap (load_aggregate payments h.store) e ∙ here.loads);
          },
        )
    | inr bad ↦ inl (
      bad,
      unfold capture_payment save_decision in
          rw (decide_payment_invalid cmd bad)
            (unless_decided_missing payments c ext ctx now cmd.order_id s heap valid missing _),
    )
  ]
