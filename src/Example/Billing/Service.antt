-- ===== src/Example/Billing/Service.antt =====
-- gohex-example/billing/internal/app/app.go: the registrations and command handlers of billing.
pub mod Payments
pub mod Refunds
use gohex.Prelude.{ℕ, Option, none, some, [], ◌⊎◌, if◌then◌else◌}
use gohex.Prelude.Text.{Text, lit}
use gohex.Kernel.Errors.{Error, domain, errors_is}
use gohex.Kernel.Result.{Result, ok, err, panic, ◌>>=◌}
use gohex.Kernel.Event.{DomainEvent}
use gohex.Kernel.Aggregate.{Aggregate}
use gohex.EventStore.Types.{Store}
use gohex.EventStore.Position.{Context, Positions, Extractor}
use gohex.EventStore.Registry.{Registry, register}
use gohex.EventStore.Repository.{Repository, load_aggregate}
use gohex.Cqrs.Command.{HandlerFunc}
use gohex.Cqrs.Bus.{Bus, handle}
use gohex.Cqrs.Wire.{CommandRegistry, register_command}
use gohex.Relay.{Relay, add_translator}
use gohex.Example.Contracts.{
  ContractEvent, payment_captured_v1, payment_failed_v1, payment_refunded_v1, CapturePayment,
  RefundPayment, ContractCommand,
}
use gohex.Example.Handled.{Handled, unchanged, unless_decided, returned, save_decision}
use gohex.Example.Billing.{
  new_amount, PaymentEvent, payment_captured, payment_failed, payment_refunded, foreign_event,
  Payment, zero_payment, payment_applies, capture, refund, err_already_refunded,
}

-- RegisterEvents, with the three Go types' json.Unmarshal.
unfoldable pub register_events :
    Registry PaymentEvent
    → (Text → Result PaymentEvent)
    → (Text → Result PaymentEvent)
    → (Text → Result PaymentEvent)
    → Result (Registry PaymentEvent)
register_events r captured failed refunded = do
  r1 ← register r (lit "billing.payment_captured") captured
  r2 ← register r1 (lit "billing.payment_failed") failed
  register r2 (lit "billing.payment_refunded") refunded

-- RegisterCommands, with the two Go types' json.Unmarshal.
unfoldable pub register_commands :
    CommandRegistry ContractCommand
    → (Text → ContractCommand ⊎ Error)
    → (Text → ContractCommand ⊎ Error)
    → Result (CommandRegistry ContractCommand)
register_commands r capture_cmd refund_cmd = do
  r1 ← register_command r (lit "billing.capture_payment") capture_cmd
  register_command r1 (lit "billing.refund_payment") refund_cmd

-- The three translators; each is only called with an event of its own type.
unfoldable pub translate_payment : PaymentEvent → Option ContractEvent
translate_payment (payment_captured order cents) =
    some (payment_captured_v1 (record { order_id = order; cents = cents }))
translate_payment (payment_failed order reason) =
    some (payment_failed_v1 (record { order_id = order; reason = reason }))
translate_payment (payment_refunded order) =
    some (payment_refunded_v1 (record { order_id = order }))
translate_payment (foreign_event name) = none

unfoldable pub register_translators :
    {S B K : Type 0}
    → Relay S B K PaymentEvent ContractEvent
    → Result (Relay S B K PaymentEvent ContractEvent)
unfolding translate_payment
register_translators r = do
  r1 ← add_translator r (lit "billing.payment_captured") translate_payment
  r2 ← add_translator r1 (lit "billing.payment_failed") translate_payment
  add_translator r2 (lit "billing.payment_refunded") translate_payment

-- New: the repository that Handlers holds.
abbrev pub new_handlers :
    {S : Type 0} → Store S → Registry PaymentEvent → Repository S Payment PaymentEvent
new_handlers store registry = record {
  store = store;
  registry = registry;
  category = lit "payment";
  zero = zero_payment;
}

-- The method Register, with the two handlers as funcs of a bus.
unfoldable pub register_handlers :
    {W C : Type 0} → Bus W C → HandlerFunc W C → HandlerFunc W C → Result (Bus W C)
register_handlers bus capture_h refund_h = do
  b ← handle bus (lit "billing.capture_payment") capture_h
  handle b (lit "billing.refund_payment") refund_h

-- The middle of CapturePayment.
unfoldable pub decide_payment : CapturePayment → Result (Aggregate Payment PaymentEvent)
unfolding new_amount capture
decide_payment cmd = do amount ← new_amount cmd.cents; returned (capture cmd.order_id amount)

module _ {S : Type 0} ⦃ev : DomainEvent PaymentEvent⦄ (payments : Repository S Payment PaymentEvent)
    (ext : Extractor) (ctx : Context) (now : ℕ) where
  unfoldable pub capture_payment : CapturePayment → S → Positions → Handled S
  unfolding unless_decided save_decision
  capture_payment cmd s heap =
      unless_decided s heap (load_aggregate payments s cmd.order_id)
        (save_decision payments ext ctx now cmd.order_id s heap (decide_payment cmd))

  -- What RefundPayment does with the outcome of Refund.
  abbrev pub after_refund :
      RefundPayment → S → Positions → Aggregate Payment PaymentEvent × Option Error → Handled S
  after_refund cmd s heap (p, none) = save_decision payments ext ctx now cmd.order_id s heap (ok p)
  after_refund cmd s heap (p, some x) =
      if errors_is x (domain err_already_refunded)
      then unchanged s heap (ok tt)
      else unchanged s heap (err x)

  abbrev pub refund_loaded :
      RefundPayment → S → Positions → Result (Aggregate Payment PaymentEvent) → Handled S
  refund_loaded cmd s heap (ok p) = after_refund cmd s heap (refund p)
  refund_loaded cmd s heap (err x) = unchanged s heap (err x)
  refund_loaded cmd s heap panic = unchanged s heap panic

  unfoldable pub refund_payment : RefundPayment → S → Positions → Handled S
  refund_payment cmd s heap = refund_loaded cmd s heap (load_aggregate payments s cmd.order_id)
