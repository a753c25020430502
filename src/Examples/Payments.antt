-- ===== src/Examples/Payments.antt =====
-- The billing service over the in-memory store at concrete inputs.
use gohex.Prelude.{◌≡◌, refl, true, false, is_pos, none, [], ◌∷◌, pos, ◌⊎◌, inl, inr, ◌≢◌}
use gohex.Prelude.Map.{get}
use gohex.Prelude.Text.{Text, text_eq, text_beq, lit}
use gohex.Kernel.Errors.{domain}
use gohex.Kernel.Result.{ok, err}
use gohex.Kernel.Event.{DomainEvent}
use gohex.EventStore.Contract.{events_of}
use gohex.EventStore.Memory.{MemoryStore, new_memory_store, memory_store}
use gohex.EventStore.Repository.{Repository, stream_of}
use gohex.EventStore.Memory.Invariant.{IsValid, new_memory_store-IsValid}
use gohex.EventStore.Memory.Implements.{memory_store-Contract}
use gohex.EventStore.Position.{Context}
use gohex.EventStore.Registry.{Registry, RegistryEntry}
use gohex.Example.Contracts.{CapturePayment, RefundPayment}
use gohex.Example.Handled.{Handled, unchanged}
use gohex.Example.Billing.Service.{new_handlers, capture_payment, refund_payment}
use gohex.Example.Billing.{
  err_invalid_amount, Payment, PaymentEvent, payment_captured, payment_failed, payment_refunded,
  foreign_event, payment_event_name, status_captured, status_refunded, err_not_captured,
}
use gohex.Kernel.Aggregate.{Aggregate, take_uncommitted}
use gohex.Example.Billing.Service.Payments.{
  decided, IsPaymentCodec, IsCaptured, capture_payment_once,
}
use gohex.Example.Billing.Service.Refunds.{IsRefunded, refund_payment_settles}
use gohex.Examples.Codecs.{
  write_int, read_int, behind_int, write_text, read_text, behind_text, codec_laws,
}

abbrev write_payment : PaymentEvent → Text
write_payment (payment_captured order cents) = write_int cents order
write_payment (payment_failed order reason) = write_text reason order
write_payment (payment_refunded order) = order
write_payment (foreign_event name) = name

instance abbrev payment_events : DomainEvent PaymentEvent
payment_events = record { event_name = payment_event_name; marshal = λ e. ok (write_payment e) }

abbrev entry : (Text → PaymentEvent) → RegistryEntry PaymentEvent
entry f = record { decode = λ p. ok (f p); upcasters = [] }

abbrev registry : Registry PaymentEvent
registry = record {
  entries =
      (lit "billing.payment_captured", entry (λ p. payment_captured (behind_int p) (read_int p)))
      ∷ (lit "billing.payment_failed", entry (λ p. payment_failed (behind_text p) (read_text p)))
      ∷ (lit "billing.payment_refunded", entry (λ p. payment_refunded p))
      ∷ [];
}

registry-IsPaymentCodec : IsPaymentCodec registry
unfolding get text_beq payment_event_name
registry-IsPaymentCodec = record {
  captures = λ order cents. record {
    entry = entry (λ p. payment_captured (behind_int p) (read_int p));
    payload = write_int cents order;
    registered = refl;
    marshals = refl;
    unmarshals = simp codec_laws;
  };
  failures = λ order reason. record {
    entry = entry (λ p. payment_failed (behind_text p) (read_text p));
    payload = write_text reason order;
    registered = refl;
    marshals = refl;
    unmarshals = simp codec_laws;
  };
  refunds = λ order. record {
    entry = entry (λ p. payment_refunded p);
    payload = order;
    registered = refl;
    marshals = refl;
    unmarshals = refl;
  };
}

abbrev ctx : Context
ctx = record { position = none; trace = none }

abbrev payments : Repository MemoryStore Payment PaymentEvent
payments = new_handlers memory_store registry

abbrev capture_cmd : CapturePayment
capture_cmd = record { order_id = lit "o1"; cents = pos 500 }

nothing_yet : events_of (stream_of payments capture_cmd.order_id) (new_memory_store).all ≡ []
nothing_yet = refl

abbrev first_call : Handled MemoryStore
first_call = capture_payment payments none ctx 7 capture_cmd new_memory_store []

capture_payment_once_example :
    ((is_pos capture_cmd.cents ≡ false)
      × (first_call ≡ unchanged new_memory_store [] (err (domain err_invalid_amount))))
    ⊎ ((is_pos capture_cmd.cents ≡ true)
        × IsCaptured payments IsValid none ctx 7 capture_cmd new_memory_store first_call)
capture_payment_once_example =
    capture_payment_once memory_store registry memory_store-Contract registry-IsPaymentCodec none
      ctx 7 new_memory_store [] new_memory_store-IsValid capture_cmd nothing_yet

-- The payment that the first call left in the store.
first_call-IsCaptured :
    IsCaptured payments IsValid none ctx 7 capture_cmd new_memory_store first_call
first_call-IsCaptured =
    elim (capture_payment_once memory_store registry memory_store-Contract registry-IsPaymentCodec
      none ctx 7 new_memory_store [] new_memory_store-IsValid capture_cmd nothing_yet) [
        | inl (refused, _) ↦ let e : is_pos capture_cmd.cents ≡ true = refl in cc
        | inr (_, captured) ↦ captured
      ]

abbrev refund_cmd : RefundPayment
refund_cmd = record { order_id = lit "o1" }

abbrev charged : Aggregate Payment PaymentEvent
charged = (take_uncommitted (decided capture_cmd)).0

abbrev refund_call : Handled MemoryStore
refund_call = refund_payment payments none ctx 8 refund_cmd first_call.store []

refund_payment_settles_example :
    ((charged.state.status ≡ status_captured)
      × IsRefunded payments IsValid none ctx 8 refund_cmd first_call.store charged refund_call)
    ⊎ ((charged.state.status ≡ status_refunded)
        × (refund_call ≡ unchanged first_call.store [] (ok tt)))
    ⊎ ((charged.state.status ≢ status_captured)
        × (charged.state.status ≢ status_refunded)
        × (refund_call ≡ unchanged first_call.store [] (err (domain err_not_captured))))
refund_payment_settles_example =
    refund_payment_settles memory_store registry memory_store-Contract registry-IsPaymentCodec none
      ctx 8 first_call.store [] first_call-IsCaptured.stored.valid refund_cmd charged
      first_call-IsCaptured.stored.loads
