-- ===== src/Examples/Relays.antt =====
-- The relay over the in-memory store, broker and checkpoints at concrete inputs.
use gohex.Prelude.{
  ◌≡◌, refl, false, Option, none, some, List, [], ◌∷◌, ◌++◌, All, pos, map, ◌⊎◌, inl, inr, ap,
  append_assoc, subst,
}
use gohex.Prelude.Map.{get, put}
use gohex.Prelude.Text.{Text, text_eq, text_beq, lit}
use gohex.Kernel.Errors.{Error}
use gohex.Kernel.Result.{ok}
use gohex.EventStore.Types.{StreamId, EventData, RecordedEvent}
use gohex.EventStore.Memory.{MemoryStore, new_memory_store, memory_store, stamp, append}
use gohex.EventStore.Memory.Invariant.{IsValid, new_memory_store-IsValid, append-IsValid}
use gohex.EventStore.Memory.Implements.{memory_store-Contract}
use gohex.EventStore.Registry.{decode}
use gohex.EventStore.Checkpoint.{
  MemoryCheckpointStore, memory_checkpoints, new_memory_checkpoint_store,
}
use gohex.EventStore.Checkpoint.Laws.{stored, memory_checkpoints-Contract}
use gohex.Broker.Message.{Message, IntegrationEvent, Publisher}
use gohex.Relay.{Relay, Groups, no_groups, messages_of, Turn}
use gohex.Relay.Run.{group, run}
use gohex.Relay.Grouping.{has_topic, messages_for, group_in_order}
use gohex.Relay.Publishing.{Accepts}
use gohex.Relay.Batches.{IsReached-nil}
use gohex.Relay.Delivery.{Growing, still, grown, left_behind, IsSafe}
use gohex.Relay.{message_id}
use gohex.Relay.MessageId.{message_id-injective}
use gohex.Relay.Restart.{run-IsSafe}

instance abbrev text_integration : IntegrationEvent Text
text_integration = record {
  event_name = λ e. lit "PlacedV1";
  contract_version = λ e. pos 1;
  marshal = λ e. ok e;
}

-- A broker that records each message with its topic, and accepts all.
abbrev recorder : Publisher (List (Text × Message))
recorder = record { publish = λ b t ms. (b ++ map (λ m. (t, m)) ms, none) }

abbrev IsIn : List (Text × Message) → Text → Message → Type 0
IsIn [] t m = ⊥
IsIn ((u, k) ∷ b) t m = ((u ≡ t) × (k ≡ m)) ⊎ IsIn b t m

IsIn-left : (b c : List (Text × Message)) (t : Text) (m : Message) → IsIn b t m → IsIn (b ++ c) t m
IsIn-left [] c t m h = absurd h
IsIn-left ((u, k) ∷ b) c t m (inl e) = inl e
IsIn-left ((u, k) ∷ b) c t m (inr h) = inr (IsIn-left b c t m h)

IsIn-right : (b c : List (Text × Message)) (t : Text) (m : Message) → IsIn c t m → IsIn (b ++ c) t m
IsIn-right [] c t m h = h
IsIn-right ((u, k) ∷ b) c t m h = inr (IsIn-right b c t m h)

IsIn-map :
    (b : List (Text × Message)) (t : Text) (ms : List Message)
    → All (IsIn (b ++ map (λ m. (t, m)) ms) t) ms
IsIn-map b t [] = tt
IsIn-map b t (m ∷ ms) = (
  IsIn-right b ((t, m) ∷ map (λ k. (t, k)) ms) t m (inl (refl, refl)),
  subst (λ l. All (IsIn l t) ms) (append_assoc b ((t, m) ∷ []) (map (λ k. (t, k)) ms))
      (IsIn-map (b ++ (t, m) ∷ []) t ms),
)

recorder-Accepts : Accepts recorder IsIn
recorder-Accepts = record {
  accepts = λ b b' t ms e.
      subst (λ l. All (IsIn l t) ms) (ap (λ (p : List (Text × Message) × Option Error). p.0) e)
        (IsIn-map b t ms);
  keeps = λ b t u ms m h. IsIn-left b (map (λ k. (t, k)) ms) u m h;
}

-- One event type, translated to a contract of its payload.
abbrev relay : Relay MemoryStore (List (Text × Message)) MemoryCheckpointStore Text Text
relay = record {
  store = memory_store;
  registry = record {
    entries = (lit "placed", record { decode = λ p. ok p; upcasters = [] }) ∷ [];
  };
  publisher = recorder;
  checkpoints = memory_checkpoints;
  cfg = record {
    name = lit "ordering.relay";
    topic = lit "ordering.events";
    poll_interval = pos 1;
    batch_size = pos 10;
    publish_backoff = pos 1;
  };
  translators = (lit "placed", (λ e. some e)) ∷ [];
  routes = [];
}

abbrev placed : EventData
placed = record {
  event_name = lit "placed";
  schema_version = 1;
  payload = lit "x";
  metadata = none;
}

abbrev order_stream : StreamId
order_stream = record { category = lit "order"; id = lit "o1" }

abbrev placed_record : RecordedEvent
placed_record = record {
  global_seq = 1;
  stream = order_stream;
  version = 1;
  event_name = lit "placed";
  schema_version = 1;
  payload = lit "x";
  metadata = none;
  occurred_at = 5;
}

abbrev placed_message : Message
placed_message = record {
  id = lit "order/o1#1";
  key = lit "o1";
  type_name = lit "PlacedV1";
  version = pos 1;
  occurred_at = 5;
  payload = lit "x";
  metadata = none;
}

groups :
    group relay no_groups (placed_record ∷ [])
    ≡ ok (record {
      topics = lit "ordering.events" ∷ [];
      by_topic = (lit "ordering.events", placed_message ∷ []) ∷ [];
    })
unfolding group get put text_beq decode
groups = refl

abbrev grouped : Groups
grouped = record {
  topics = lit "ordering.events" ∷ [];
  by_topic = (lit "ordering.events", placed_message ∷ []) ∷ [];
}

group_in_order_example :
    (messages_of grouped (lit "ordering.events")
      ≡ messages_for relay (lit "ordering.events") (placed_record ∷ []))
    × (has_topic grouped.topics (lit "ordering.events") ≡ false
        → messages_for relay (lit "ordering.events") (placed_record ∷ []) ≡ [])
group_in_order_example =
    group_in_order relay (placed_record ∷ []) grouped groups (lit "ordering.events")

-- The store with one event, and a run that reads it.
abbrev filled : MemoryStore
filled = (append new_memory_store 5 order_stream 0 (placed ∷ [])).0

abbrev turn : Turn MemoryStore
turn = record { store = filled; cancelled = false; cancelled_in_read = false; waits = 2 }

filled-log : filled.all ≡ placed_record ∷ []
unfolding append stamp get text_beq
filled-log = refl

grows : Growing IsValid (λ s. s.all) [] (turn ∷ []) (placed_record ∷ [])
grows =
    grown turn (placed_record ∷ [])
      (append-IsValid new_memory_store 5 order_stream 0 (placed ∷ []) new_memory_store-IsValid)
      filled-log still

fresh-IsSafe : IsSafe relay IsIn stored [] [] new_memory_checkpoint_store
unfolding get
fresh-IsSafe = record { published = tt; reached = IsReached-nil }

run-IsSafe_example :
    IsSafe relay IsIn stored
      (placed_record ∷ [])
      (left_behind (run relay (turn ∷ []) [] new_memory_checkpoint_store)).0
      (left_behind (run relay (turn ∷ []) [] new_memory_checkpoint_store)).1
run-IsSafe_example =
    run-IsSafe relay IsIn stored IsValid (λ s. s.all) memory_store-Contract recorder-Accepts
      memory_checkpoints-Contract [] (placed_record ∷ []) (turn ∷ []) [] new_memory_checkpoint_store
      grows fresh-IsSafe

-- The same position with another payload.
abbrev amended : RecordedEvent
amended = record placed_record { payload = lit "y" }

same_id : message_id placed_record ≡ message_id amended
unfolding message_id
same_id = refl

message_id-injective_example : placed_record.version ≡ 1
message_id-injective_example = message_id-injective placed_record amended refl same_id
