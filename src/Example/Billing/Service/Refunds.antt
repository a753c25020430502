-- ===== src/Example/Billing/Service/Refunds.antt =====
-- gohex-example/billing/internal/app/app.go: what RefundPayment does to the payments of a store.
use gohex.Prelude.{
  ℕ, ◌≡◌, ◌≢◌, refl, ℤ, some, ◌⊎◌, inl, inr, List, [], ◌∷◌, ◌++◌, All, append-ne-nil,
}
use gohex.Prelude.Text.{text_beq}
use gohex.Kernel.Errors.{domain, errors_is}
use gohex.Kernel.Result.{ok, err}
use gohex.Kernel.Event.{DomainEvent}
use gohex.Kernel.Aggregate.{Aggregate, uncommitted_events, take_uncommitted, raise}
use gohex.Kernel.Aggregate.Replay.{raise_ok-IsReplay}
use gohex.EventStore.Types.{RecordedEvent, Store}
use gohex.EventStore.Contract.{Contract}
use gohex.EventStore.Position.{Context, Positions, Extractor}
use gohex.EventStore.Registry.{Registry}
use gohex.EventStore.Repository.{Repository, load_aggregate}
use gohex.EventStore.Repository.RoundTrip.{Tracks}
use gohex.EventStore.Repository.RoundTrip.Codec.{IsCodec}
use gohex.EventStore.Repository.Concurrency.{load-Tracks}
use gohex.Example.Contracts.{CapturePayment, RefundPayment}
use gohex.Example.Handled.{Handled, unchanged}
use gohex.Example.Handled.Once.{IsStored, save-IsStored}
use gohex.Example.Billing.{
  PaymentEvent, payment_refunded, Payment, zero_payment, payment_applies, apply_payment, Status,
  status_captured, status_failed, status_refunded, status_none, refund, err_not_captured,
}
use gohex.Example.Billing.Service.{new_handlers, capture_payment, refund_payment}
use gohex.Example.Billing.Service.Payments.{IsPaymentCodec, capture_again}

-- What Refund makes of a captured payment.
abbrev pub refunded : Aggregate Payment PaymentEvent → Aggregate Payment PaymentEvent
refunded p = record {
  root = record p.root { pending = p.root.pending ++ payment_refunded p.state.order ∷ [] };
  state = record { order = p.state.order; status = status_refunded };
}

module _ {S : Type 0} ⦃ev : DomainEvent PaymentEvent⦄ (payments : Repository S Payment PaymentEvent)
    (IsValid : S → Type 0) (ext : Extractor) (ctx : Context) (now : ℕ) where
  -- The command stored the refund of the payment `p`. A second one changes nothing and succeeds,
  -- and so does a redelivered CapturePayment.
  pub record IsRefunded (cmd : RefundPayment) (s : S) (p : Aggregate Payment PaymentEvent)
      (h : Handled S) : Type 0 where
    pub stored : IsStored payments IsValid cmd.order_id s (refunded p) h
    pub again :
        (heap' : Positions)
        → refund_payment payments ext ctx now cmd h.store heap' ≡ unchanged h.store heap' (ok tt)
    pub captured_before :
        (cents : ℤ) (heap' : Positions)
        → let cmd' : CapturePayment = record { order_id = cmd.order_id; cents = cents } in
          capture_payment payments ext ctx now cmd' h.store heap' ≡ unchanged h.store heap' (ok tt)

module _ {S : Type 0} ⦃ev : DomainEvent PaymentEvent⦄ (payments : Repository S Payment PaymentEvent)
    (ext : Extractor) (ctx : Context) (now : ℕ) where
  refund_again :
      (cmd : RefundPayment) (s : S) (heap' : Positions) (p : Aggregate Payment PaymentEvent)
      → load_aggregate payments s cmd.order_id ≡ ok p
      → p.state.status ≡ status_refunded
      → refund_payment payments ext ctx now cmd s heap' ≡ unchanged s heap' (ok tt)
  unfolding refund_payment refund errors_is text_beq
  refund_again cmd s heap' p h st = rw (h, st) refl

  refund_refused :
      (cmd : RefundPayment) (s : S) (heap' : Positions) (p : Aggregate Payment PaymentEvent)
      → load_aggregate payments s cmd.order_id ≡ ok p
      → refund p ≡ (p, some (domain err_not_captured))
      → refund_payment payments ext ctx now cmd s heap'
        ≡ unchanged s heap' (err (domain err_not_captured))
  unfolding refund_payment errors_is text_beq
  refund_refused cmd s heap' p h e = rw (h, e) refl

module _ {S : Type 0} ⦃ev : DomainEvent PaymentEvent⦄ {IsValid : S → Type 0}
    {log : S → List RecordedEvent} (store : Store S) (registry : Registry PaymentEvent)
    (c : Contract store IsValid log) (codec : IsPaymentCodec registry) (ext : Extractor)
    (ctx : Context) (now : ℕ) (s : S) (heap : Positions) (valid : IsValid s) (cmd : RefundPayment)
    (p : Aggregate Payment PaymentEvent)
    (loaded : load_aggregate (new_handlers store registry) s cmd.order_id ≡ ok p) where
  abbrev payments : Repository S Payment PaymentEvent
  payments = new_handlers store registry

  refunded-Tracks : Tracks payments (log s) cmd.order_id (refunded p)
  refunded-Tracks =
      let t = (load-Tracks payments c s cmd.order_id p valid loaded).0 in
      record {
        events = t.events;
        decoded = t.decoded;
        replay =
            raise_ok-IsReplay zero_payment t.events p (refunded p) (payment_refunded p.state.order)
              (unfold raise apply_payment in refl) t.replay;
      }

  refunded-codecs : All (IsCodec registry) (uncommitted_events (refunded p))
  unfolding uncommitted_events
  refunded-codecs =
      rw (load-Tracks payments c s cmd.order_id p valid loaded).1 (codec.refunds _, tt)

  refund-IsStored :
      p.state.status ≡ status_captured
      → IsStored payments IsValid cmd.order_id s
          (refunded p)
          (refund_payment payments ext ctx now cmd s heap)
  refund-IsStored st =
      unfold refund_payment refund raise apply_payment in
      rw (loaded, st)
        (save-IsStored payments c ext ctx now cmd.order_id s heap valid (refunded p) refunded-Tracks
          (unfold uncommitted_events in append-ne-nil p.root.pending _ (λ e. cc)) refunded-codecs)

  refund-IsRefunded :
      p.state.status ≡ status_captured
      → IsRefunded payments IsValid ext ctx now cmd s p
          (refund_payment payments ext ctx now cmd s heap)
  refund-IsRefunded st =
      let stored = refund-IsStored st in
      let h = refund_payment payments ext ctx now cmd s heap in
      record {
        stored = stored;
        again = λ heap'.
            refund_again payments ext ctx now cmd h.store heap' (take_uncommitted (refunded p)).0
              stored.loads (unfold take_uncommitted in refl);
        captured_before = λ cents heap'.
            capture_again payments ext ctx now (record { order_id = cmd.order_id; cents = cents })
              h.store heap' (take_uncommitted (refunded p)).0 stored.loads;
      }

  refund_by_case :
      (st : Status)
      → p.state.status ≡ st
      → let h = refund_payment payments ext ctx now cmd s heap in
        ((st ≡ status_captured) × IsRefunded payments IsValid ext ctx now cmd s p h)
        ⊎ ((st ≡ status_refunded) × (h ≡ unchanged s heap (ok tt)))
        ⊎ ((st ≢ status_captured)
            × (st ≢ status_refunded)
            × (h ≡ unchanged s heap (err (domain err_not_captured))))
  refund_by_case status_captured e = inl (refl, refund-IsRefunded e)
  refund_by_case status_refunded e =
      inr (inl (refl, refund_again payments ext ctx now cmd s heap p loaded e))
  refund_by_case status_none e = inr (
      inr (
        λ q. cc,
        λ q. cc,
        refund_refused payments ext ctx now cmd s heap p loaded (unfold refund in rw e refl),
      ))
  refund_by_case status_failed e = inr (
      inr (
        λ q. cc,
        λ q. cc,
        refund_refused payments ext ctx now cmd s heap p loaded (unfold refund in rw e refl),
      ))

  -- RefundPayment for an order whose payment loads as `p`, over any store that meets the port's
  -- contract. A captured payment is refunded and stored, and no other payment changes; a second
  -- RefundPayment then succeeds and changes nothing, and so does a CapturePayment that is
  -- delivered again. A payment that is already refunded is left alone with success. Any other
  -- is refused as never captured, and nothing changes.
  pub refund_payment_settles :
      let h = refund_payment payments ext ctx now cmd s heap in
      ((p.state.status ≡ status_captured) × IsRefunded payments IsValid ext ctx now cmd s p h)
      ⊎ ((p.state.status ≡ status_refunded) × (h ≡ unchanged s heap (ok tt)))
      ⊎ ((p.state.status ≢ status_captured)
          × (p.state.status ≢ status_refunded)
          × (h ≡ unchanged s heap (err (domain err_not_captured))))
  refund_payment_settles = refund_by_case p.state.status refl
