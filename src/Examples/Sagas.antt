-- ===== src/Examples/Sagas.antt =====
-- A saga over the in-memory store at concrete inputs.
use gohex.Prelude.{ℕ, ◌≡◌, refl, ap, sym, ◌∙◌, inl, true, none, some, [], ◌∷◌, All, pos}
use gohex.Prelude.Map.{get, put}
use gohex.Prelude.Text.{Text, text_eq, text_beq, lit}
use gohex.Prelude.Decimal.{itoa}
use gohex.Kernel.Result.{ok, err}
use gohex.Kernel.Errors.{Error}
use gohex.Kernel.Event.{DomainEvent}
use gohex.Kernel.Aggregate.{raise, uncommitted_events, take_uncommitted}
use gohex.EventStore.Memory.{MemoryStore, new_memory_store, memory_store}
use gohex.EventStore.Memory.Invariant.{new_memory_store-IsValid}
use gohex.EventStore.Memory.Implements.{memory_store-Contract}
use gohex.EventStore.Position.{Context, metadata_from_context}
use gohex.EventStore.Registry.{Registry, RegistryEntry}
use gohex.EventStore.Repository.{load_aggregate}
use gohex.EventStore.Repository.RoundTrip.Codec.{IsCodec}
use gohex.Cqrs.Command.{Command}
use gohex.Cqrs.Wire.{WireCommand}
use gohex.Broker.Message.{Message}
use gohex.Saga.{
  Definition, EvHandler, CommandRequested, SagaEvent, event_received, command_requested, ended,
  saga_event_name, new_instance, saga_applies, apply_saga,
}
use gohex.Saga.Runner.{SagaInstance, Runner, ignored, decided, decide}
use gohex.Saga.Runner.Process.{command_metadata, process, Processed}
use gohex.Saga.Decision.Outcome.{IsDecided, decide-IsDecided, decide_again}
use gohex.Saga.Deliveries.{fresh, IsIgnored, saves-IsSaved, process-saved}
use gohex.Saga.Deliveries.Later.{Readable, loaded, begun, at_once, behind}
use gohex.Saga.Redelivery.{redelivery-IsIgnored}

instance abbrev text_commands : Command Text
text_commands = record { command_name = λ c. lit "capture" }

instance abbrev text_wire : WireCommand Text
text_wire = record { marshal = λ c. ok c; contract_version = λ c. none }

-- The handler counts, asks billing to capture, and ends.
abbrev on_placed : EvHandler ℕ Text
on_placed = record {
  correlate = λ m. inl m.key;
  handle = λ n m. (
    1,
    inl (record {
      commands = record { topic = lit "billing.commands"; key = []; cmd = m.payload } ∷ [];
      ends = true;
    }),
  );
}

abbrev definition : Definition ℕ Text
definition = record { name = lit "fulfilment"; handlers = (lit "PlacedV1@v1", on_placed) ∷ [] }

abbrev message : Message
message = record {
  id = lit "order/o1#1";
  key = lit "o1";
  type_name = lit "PlacedV1";
  version = pos 1;
  occurred_at = 0;
  payload = lit "x";
  metadata = none;
}

abbrev requested : CommandRequested
requested = record {
  topic = lit "billing.commands";
  key = lit "o1";
  command_name = lit "capture";
  contract_version = pos 1;
  payload = lit "x";
  metadata = none;
}

abbrev start : SagaInstance ℕ Text
start = new_instance definition 0

abbrev finished : SagaInstance ℕ Text
finished = record {
  root = record {
    version = 0;
    pending = event_received message ∷ command_requested requested ∷ ended ∷ [];
  };
  state = record {
    def = definition;
    state = 1;
    ended = true;
    seen = (lit "order/o1#1", true) ∷ [];
    last_decisions = record {
      commands = record { topic = lit "billing.commands"; key = []; cmd = lit "x" } ∷ [];
      ends = true;
    };
  };
}

decides : decide none (lit "o1") message start ≡ decided finished
unfolding decide get put text_beq raise apply_saga itoa
decides = refl

decide-IsDecided_example : IsDecided none (lit "o1") message start finished
decide-IsDecided_example = decide-IsDecided none (lit "o1") message start finished decides

-- A stand-in for encoding/json that knows the three events above.
instance abbrev saga_events : DomainEvent SagaEvent
saga_events = record { event_name = saga_event_name; marshal = λ e. ok (lit "json") }

abbrev entry : SagaEvent → RegistryEntry SagaEvent
entry e = record { decode = λ p. ok e; upcasters = [] }

abbrev registry : Registry SagaEvent
registry = record {
  entries =
      (lit "saga.event_received", entry (event_received message))
      ∷ (lit "saga.command_requested", entry (command_requested requested))
      ∷ (lit "saga.ended", entry ended)
      ∷ [];
}

abbrev runner : Runner MemoryStore ℕ Text
runner = record {
  def = definition;
  repo = record {
    store = memory_store;
    registry = registry;
    category = lit "saga.fulfilment";
    zero = start.state;
  };
  conflict_retries = 3;
}

codec :
    (e : SagaEvent) → get registry.entries (saga_event_name e) ≡ some (entry e) → IsCodec registry e
codec e h = record {
  entry = entry e;
  payload = lit "json";
  registered = h;
  marshals = refl;
  unmarshals = refl;
}

codecs : All (IsCodec registry) (uncommitted_events finished)
unfolding uncommitted_events get text_beq saga_event_name
codecs = (
  codec (event_received message) refl,
  (codec (command_requested requested) refl, (codec ended refl, tt)),
)

abbrev ctx : Context
ctx = record { position = none; trace = none }

decides_in_context :
    decide (command_metadata none ctx message) (lit "o1") message start ≡ decided finished
unfolding metadata_from_context
decides_in_context = decides

-- Behind it comes a message of another ID, which finds the saga ended.
abbrev second : Message
second = record message { id = lit "order/o1#2" }

abbrev first_store : MemoryStore
first_store = (process runner none ctx 7 (lit "o1") message new_memory_store []).store

ok_injective : {A : Type 0} {a b : A} → ok a ≡ ok b → a ≡ b
ok_injective h = cc

err_is_no_ok : {A : Type 0} {a : A} {x : Error} → err x ≡ ok a → ⊥
err_is_no_ok h = cc

first_loads : load_aggregate runner.repo first_store (lit "o1") ≡ ok (take_uncommitted finished).0
first_loads =
    let sv =
      saves-IsSaved runner memory_store-Contract (lit "o1") none ctx 7 message new_memory_store []
        start finished new_memory_store-IsValid (fresh refl) decides_in_context codecs in
    ap (λ (p : Processed MemoryStore). load_aggregate runner.repo p.store (lit "o1"))
      (process-saved runner memory_store-Contract (lit "o1") none ctx 7 message new_memory_store []
        start finished new_memory_store-IsValid (fresh refl) decides_in_context sv)
    ∙ sv.loads
    ∙ ap ok sv.committed

ended_ignores :
    decide (command_metadata none ctx second) (lit "o1") second (take_uncommitted finished).0
    ≡ ignored
unfolding take_uncommitted
ended_ignores = decide_again (command_metadata none ctx second) (lit "o1") second _ refl

second-Readable : Readable runner none ctx (lit "o1") second first_store
second-Readable i k (loaded l) dec =
    let same : i ≡ (take_uncommitted finished).0 = ok_injective (sym l ∙ first_loads) in
    let quiet : decided k ≡ ignored = sym dec ∙ rw same ended_ignores in absurd cc
second-Readable _ k (begun l) dec = absurd (err_is_no_ok (sym l ∙ first_loads))

abbrev later_store : MemoryStore
later_store = (process runner none ctx 8 (lit "o1") second first_store []).store

redelivery-IsIgnored_example :
    ((process runner none ctx 7 (lit "o1") message new_memory_store []).result ≡ ok tt)
    × ((process runner none ctx 7 (lit "o1") message new_memory_store []).done ≡ true)
    × IsIgnored runner memory_store-Contract (lit "o1") later_store message.id
redelivery-IsIgnored_example =
    redelivery-IsIgnored runner memory_store-Contract none ctx 7 (lit "o1") message new_memory_store
      [] start finished new_memory_store-IsValid (fresh refl) decides_in_context codecs later_store
      (behind none ctx 8 (lit "o1") second [] at_once second-Readable)
