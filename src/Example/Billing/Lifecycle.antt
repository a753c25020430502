-- ===== src/Example/Billing/Lifecycle.antt =====
-- gohex-example/billing/internal/domain/payment.go: Capture and the calls of Refund behind it.
use gohex.Prelude.{
  ℕ, zero, suc, ◌≡◌, refl, ◌⊎◌, inl, inr, true, false, Option, none, some, List, [], ◌∷◌, exceeds,
  Bool-cases,
}
use gohex.Prelude.Text.{Text, lit}
use gohex.Kernel.Errors.{Error, domain}
use gohex.Kernel.Aggregate.{Aggregate, uncommitted_events}
use gohex.Kernel.Aggregate.Replay.{IsClean}
use gohex.Example.Billing.{
  Amount, PaymentEvent, payment_captured, payment_failed, payment_refunded, foreign_event, Payment,
  payment_applies, Status, status_captured, status_failed, status_refunded, apply_payment, capture,
  refund, capture_limit_cents, err_not_captured, err_already_refunded,
}

pub payment_applies-IsClean : IsClean payment_applies
unfolding apply_payment
payment_applies-IsClean s (payment_captured order cents) = inl refl
payment_applies-IsClean s (payment_failed order reason) = inl refl
payment_applies-IsClean s (payment_refunded order) = inl refl
payment_applies-IsClean s (foreign_event name) = inr refl

-- `n` calls of Refund on the aggregate, with the errors that they returned.
pub refund_times :
    ℕ → Aggregate Payment PaymentEvent → Aggregate Payment PaymentEvent × List (Option Error)
refund_times zero p = (p, [])
refund_times (suc n) p = let (p', e) = refund p in let (q, es) = refund_times n p' in (q, e ∷ es)

abbrev pub replicate {ℓ} : {A : Type ℓ} → ℕ → A → List A
replicate zero a = []
replicate (suc n) a = a ∷ replicate n a

refund_times_refunded :
    (n : ℕ) (p : Aggregate Payment PaymentEvent)
    → p.state.status ≡ status_refunded
    → refund_times n p ≡ (p, replicate n (some (domain err_already_refunded)))
unfolding refund_times
refund_times_refunded zero p h = refl
refund_times_refunded (suc n) p h =
    let e : refund p ≡ (p, some (domain err_already_refunded)) = unfold refund in rw h in
    rw (e, refund_times_refunded n p h)

refund_times_failed :
    (n : ℕ) (p : Aggregate Payment PaymentEvent)
    → p.state.status ≡ status_failed
    → refund_times n p ≡ (p, replicate n (some (domain err_not_captured)))
unfolding refund_times
refund_times_failed zero p h = refl
refund_times_failed (suc n) p h =
    let e : refund p ≡ (p, some (domain err_not_captured)) = unfold refund in rw h in
    rw (e, refund_times_failed n p h)

-- The aggregates that Capture and a first Refund return.
abbrev recorded : Text → Status → List PaymentEvent → Aggregate Payment PaymentEvent
recorded order status events = record {
  root = record { version = 0; pending = events };
  state = record { order = order; status = status };
}

module _ (order : Text) (amount : Amount) where
  abbrev over_limit : Aggregate Payment PaymentEvent
  over_limit =
      recorded order status_failed (payment_failed order (lit "amount exceeds capture limit") ∷ [])

  abbrev within_limit : Aggregate Payment PaymentEvent
  within_limit = recorded order status_captured (payment_captured order amount.cents ∷ [])

  abbrev refunded_once : Aggregate Payment PaymentEvent
  refunded_once =
      recorded order status_refunded
        (payment_captured order amount.cents ∷ payment_refunded order ∷ [])

  capture_over :
      exceeds amount.cents capture_limit_cents ≡ true → capture order amount ≡ (over_limit, none)
  unfolding capture
  capture_over h = rw h

  capture_within :
      exceeds amount.cents capture_limit_cents ≡ false → capture order amount ≡ (within_limit, none)
  unfolding capture
  capture_within h = rw h

  refund_within :
      (n : ℕ)
      → refund_times (suc n) within_limit
        ≡ (refunded_once, none ∷ replicate n (some (domain err_already_refunded)))
  unfolding refund_times
  refund_within n =
      let e : refund within_limit ≡ (refunded_once, none) = unfold refund in refl in
      rw (e, refund_times_refunded n refunded_once refl)

-- Capture a payment and call Refund any number of times, at least once. Above the limit the one
-- recorded fact is the failure, and each refund is refused as never captured. Otherwise the facts
-- are the capture and one refund: the first call succeeds and each later one is refused as already
-- refunded. Capture itself never fails.
pub capture_then_refunds :
    (order : Text) (amount : Amount) (n : ℕ)
    → let (p, e) = capture order amount in
      let (q, es) = refund_times (suc n) p in
      (e ≡ none)
      × (((exceeds amount.cents capture_limit_cents ≡ true)
            × (uncommitted_events q
                ≡ payment_failed order (lit "amount exceeds capture limit") ∷ [])
            × (es ≡ replicate (suc n) (some (domain err_not_captured))))
          ⊎ ((exceeds amount.cents capture_limit_cents ≡ false)
              × (uncommitted_events q
                  ≡ payment_captured order amount.cents ∷ payment_refunded order ∷ [])
              × (es ≡ none ∷ replicate n (some (domain err_already_refunded)))))
unfolding uncommitted_events
capture_then_refunds order amount n = elim (Bool-cases (exceeds amount.cents capture_limit_cents)) [
  | inl over ↦
      rw
        (capture_over order amount over, refund_times_failed (suc n) (over_limit order amount) refl)
        (refl, inl (over, refl, refl))
  | inr within ↦
      rw (capture_within order amount within, refund_within order amount n)
        (refl, inr (within, refl, refl))
]
