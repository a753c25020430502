-- ===== src/Examples/Stores.antt =====
-- The repository over the in-memory store at concrete inputs.
use gohex.Prelude.{◌≡◌, ◌≢◌, refl, none, [], ◌∷◌, All, pos}
use gohex.Prelude.Map.{get}
use gohex.Prelude.Text.{text_eq, text_beq, lit}
use gohex.Kernel.Result.{ok}
use gohex.Kernel.Event.{DomainEvent}
use gohex.Kernel.Aggregate.{Aggregate, new_aggregate, raise, rehydrate, uncommitted_events}
use gohex.Kernel.Aggregate.Replay.{rehydrate-IsReplay, raise_ok-IsReplay}
use gohex.EventStore.Contract.{events_of}
use gohex.EventStore.Memory.{MemoryStore, new_memory_store, memory_store}
use gohex.EventStore.Memory.Invariant.{IsValid, new_memory_store-IsValid}
use gohex.EventStore.Memory.Implements.{memory_store-Contract}
use gohex.EventStore.Position.{Context}
use gohex.EventStore.Registry.{Registry, RegistryEntry}
use gohex.EventStore.Repository.{Repository, stream_of, decode_all, save_aggregate}
use gohex.EventStore.Repository.RoundTrip.{Tracks, IsSaved, save_then_load}
use gohex.EventStore.Repository.RoundTrip.Codec.{IsCodec}
use gohex.EventStore.Repository.Concurrency.{IsConflict, second_save_conflicts}
use gohex.Example.Billing.{
  Payment, status_captured, PaymentEvent, payment_captured, payment_event_name, payment_applies,
  zero_payment, apply_payment,
}

abbrev captured : PaymentEvent
captured = payment_captured (lit "o1") (pos 500)

-- A stand-in for encoding/json that knows one event.
instance abbrev payment_events : DomainEvent PaymentEvent
payment_events = record { event_name = payment_event_name; marshal = λ e. ok (lit "captured") }

abbrev entry : RegistryEntry PaymentEvent
entry = record { decode = λ p. ok captured; upcasters = [] }

abbrev registry : Registry PaymentEvent
registry = record { entries = (lit "billing.payment_captured", entry) ∷ [] }

abbrev repo : Repository MemoryStore Payment PaymentEvent
repo = record {
  store = memory_store;
  registry = registry;
  category = lit "payment";
  zero = zero_payment;
}

abbrev ctx : Context
ctx = record { position = none; trace = none }

-- A payment that was captured and not yet saved.
abbrev unsaved : Aggregate Payment PaymentEvent
unsaved = record {
  root = record { version = 0; pending = captured ∷ [] };
  state = record { order = lit "o1"; status = status_captured };
}

raises : raise (new_aggregate zero_payment) captured ≡ (unsaved, none)
unfolding raise apply_payment
raises = refl

starts :
    rehydrate (new_aggregate {E = PaymentEvent} zero_payment) []
    ≡ (new_aggregate zero_payment, none)
unfolding rehydrate
starts = refl

nothing_stored : decode_all registry (events_of (stream_of repo (lit "p1")) []) ≡ ok []
unfolding decode_all
nothing_stored = refl

unsaved-Tracks : Tracks repo [] (lit "p1") unsaved
unsaved-Tracks = record {
  events = [];
  decoded = nothing_stored;
  replay =
      raise_ok-IsReplay zero_payment [] (new_aggregate zero_payment) unsaved captured raises
        (rehydrate-IsReplay zero_payment [] (new_aggregate zero_payment) starts);
}

unsaved-pending : uncommitted_events unsaved ≢ []
unfolding uncommitted_events
unsaved-pending = λ e. cc

captured-IsCodec : IsCodec registry captured
unfolding get text_beq payment_event_name
captured-IsCodec = record {
  entry = entry;
  payload = lit "captured";
  registered = refl;
  marshals = refl;
  unmarshals = refl;
}

unsaved-codecs : All (IsCodec registry) (uncommitted_events unsaved)
unfolding uncommitted_events
unsaved-codecs = (captured-IsCodec, tt)

save_then_load_example :
    IsSaved repo IsValid
      (λ s. s.all)
      ctx
      (lit "p1")
      new_memory_store
      []
      unsaved
      (save_aggregate repo none ctx 7 (lit "p1") new_memory_store [] unsaved)
save_then_load_example =
    save_then_load repo memory_store-Contract none ctx 7 (lit "p1") new_memory_store [] unsaved
      new_memory_store-IsValid unsaved-Tracks unsaved-pending unsaved-codecs

second_save_conflicts_example :
    IsConflict
      (save_aggregate repo none ctx 7 (lit "p1") new_memory_store [] unsaved).store
      (save_aggregate repo none ctx 7 (lit "p1") new_memory_store [] unsaved).positions
      unsaved
      (save_aggregate repo none ctx 7
        (lit "p1")
        (save_aggregate repo none ctx 7 (lit "p1") new_memory_store [] unsaved).store
        (save_aggregate repo none ctx 7 (lit "p1") new_memory_store [] unsaved).positions
        unsaved)
second_save_conflicts_example =
    second_save_conflicts repo memory_store-Contract none ctx 7 (lit "p1") new_memory_store []
      unsaved unsaved new_memory_store-IsValid unsaved-Tracks unsaved-Tracks unsaved-pending
      unsaved-pending unsaved-codecs unsaved-codecs
