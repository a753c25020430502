-- ===== src/Example/Billing.antt =====
-- gohex-example/billing/internal/domain/payment.go: the Payment aggregate.
pub mod Lifecycle
pub mod Service
use gohex.Prelude.{ℕ, Option, none, some, ℤ, is_pos, exceeds, if◌then◌else◌}
use gohex.Prelude.Text.{Text, lit}
use gohex.Kernel.Errors.{DomainError, Error, domain, plain, new_domain_error}
use gohex.Kernel.Result.{Result, ok, err}
use gohex.Kernel.Aggregate.{Applies, Aggregate, new_aggregate, raise}

abbrev pub capture_limit_cents : ℕ
capture_limit_cents = 99_999

abbrev pub err_not_captured : DomainError
err_not_captured = new_domain_error (lit "not_captured") (lit "the payment was never captured")

abbrev pub err_already_refunded : DomainError
err_already_refunded =
    new_domain_error (lit "already_refunded") (lit "the payment is already refunded")

abbrev pub err_invalid_amount : DomainError
err_invalid_amount = new_domain_error (lit "invalid_amount") (lit "amount must be positive")

pub record Amount : Type 0 where
  pub cents : ℤ  -- int64

unfoldable pub new_amount : ℤ → Result Amount
new_amount cents =
    if is_pos cents then ok (record { cents = cents }) else err (domain err_invalid_amount)

-- The event types that the aggregate's type switch names, and any other DomainEvent, by its name.
pub data PaymentEvent : Type 0 where
  payment_captured : Text → ℤ → PaymentEvent
  payment_failed : Text → Text → PaymentEvent
  payment_refunded : Text → PaymentEvent
  foreign_event : Text → PaymentEvent

unfoldable pub payment_event_name : PaymentEvent → Text
payment_event_name (payment_captured order cents) = lit "billing.payment_captured"
payment_event_name (payment_failed order reason) = lit "billing.payment_failed"
payment_event_name (payment_refunded order) = lit "billing.payment_refunded"
payment_event_name (foreign_event name) = name

pub data Status : Type 0 where
  status_none status_captured status_failed status_refunded : Status

pub record Payment : Type 0 where
  pub order : Text
  pub status : Status

abbrev pub zero_payment : Payment
zero_payment = record { order = lit ""; status = status_none }

abbrev pub new_payment : Aggregate Payment PaymentEvent
new_payment = new_aggregate zero_payment

unfoldable pub apply_payment : Payment → PaymentEvent → Payment × Option Error
apply_payment p (payment_captured order cents) =
    (record { order = order; status = status_captured }, none)
apply_payment p (payment_failed order reason) =
    (record { order = order; status = status_failed }, none)
apply_payment p (payment_refunded order) = (record p { status = status_refunded }, none)
apply_payment p (foreign_event name) = (p, some (plain (lit "payment: unknown event")))

instance abbrev pub payment_applies : Applies Payment PaymentEvent
payment_applies = record { apply = apply_payment }

-- Go returns a nil aggregate beside an error; the aggregate here is then of no account.
unfoldable pub capture : Text → Amount → Aggregate Payment PaymentEvent × Option Error
unfolding raise apply_payment
capture order amount =
    if exceeds amount.cents capture_limit_cents
    then raise new_payment (payment_failed order (lit "amount exceeds capture limit"))
    else raise new_payment (payment_captured order amount.cents)

unfoldable pub refund_by_status :
    Status → Aggregate Payment PaymentEvent → Aggregate Payment PaymentEvent × Option Error
unfolding raise apply_payment
refund_by_status status_refunded p = (p, some (domain err_already_refunded))
refund_by_status status_captured p = raise p (payment_refunded p.state.order)
refund_by_status status_none p = (p, some (domain err_not_captured))
refund_by_status status_failed p = (p, some (domain err_not_captured))

unfoldable pub refund :
    Aggregate Payment PaymentEvent → Aggregate Payment PaymentEvent × Option Error
unfolding refund_by_status
refund p = refund_by_status p.state.status p
