-- ===== src/Examples/Telemetry.antt =====
-- The telemetry of workers and backlogs at concrete inputs.
use gohex.Prelude.{ℕ, ℤ, ◌≡◌, ltb, refl, none, some, List, [], ◌∷◌, length}
use gohex.Prelude.Map.{Map, get, put, get-put}
use gohex.Prelude.Text.{Text, text_eq, text_beq, lit}
use gohex.Kernel.Result.{Result}
use gohex.EventStore.Types.{EventData, StreamId, Metadata}
use gohex.EventStore.Memory.{MemoryStore, new_memory_store, append}
use gohex.EventStore.Checkpoint.{
  MemoryCheckpointStore, memory_checkpoints, set_position, new_memory_checkpoint_store,
}
use gohex.EventStore.Checkpoint.Laws.{memory_checkpoints-Contract}
use gohex.O11y.Backlog.{observe}
use gohex.O11y.Backlog.Lag.{head_side, checkpoint_side}
use gohex.O11y.Origin.{
  origin_traceparent_key, origin_tracestate_key, Propagator, TraceContext, value_at,
  origin_metadata,
}
use gohex.O11y.Origin.Chain.{KeepsOrigin, hand_offs, first_origin_stays}

-- Spans are numbers, of which 0 is invalid, and are written under "traceparent".
abbrev propagator : Propagator ℕ
propagator = record {
  is_valid = λ c. ltb 0 c;
  invalid = 0;
  write = λ c m. put m (lit "traceparent") (c ∷ []);
  read = λ m. length (value_at m (lit "traceparent"));
}

propagator-KeepsOrigin : KeepsOrigin propagator
unfolding value_at
propagator-KeepsOrigin = record {
  parent = λ c m.
      unfold text_beq in
      rw (value_at, get-put m (lit "traceparent") origin_traceparent_key (c ∷ [])) refl;
  state = λ c m.
      unfold text_beq in
      rw (value_at, get-put m (lit "traceparent") origin_tracestate_key (c ∷ [])) refl;
}

abbrev metadata : Metadata
metadata = some ((lit "traceparent", lit "first") ∷ [])

abbrev idle : TraceContext ℕ
idle = record { span = 0; origin = none }

abbrev chain : List (ℕ × TraceContext ℕ)
chain = (7, idle) ∷ (0, idle) ∷ (9, idle) ∷ []

abbrev first_origin : Map Text Text
first_origin = (origin_traceparent_key, lit "first") ∷ []

metadata_origin : origin_metadata metadata ≡ some first_origin
unfolding origin_metadata text_beq get put
metadata_origin = refl

first_origin_stays_example :
    origin_metadata (hand_offs propagator chain metadata) ≡ some first_origin
first_origin_stays_example =
    first_origin_stays propagator propagator-KeepsOrigin chain metadata first_origin metadata_origin

abbrev order_stream : StreamId
order_stream = record { category = lit "order"; id = lit "o1" }

abbrev placed : EventData
placed = record {
  event_name = lit "ordering.order_placed";
  schema_version = 1;
  payload = lit "{}";
  metadata = none;
}

abbrev two_events : MemoryStore
two_events = (append new_memory_store 5 order_stream 0 (placed ∷ placed ∷ [])).0

abbrev relayed : MemoryCheckpointStore
relayed = (set_position new_memory_checkpoint_store (lit "relay") 1).0

abbrev callback : MemoryStore × MemoryCheckpointStore → Result ℤ
callback =
    observe (lit "gohex.relay.lag")
      (head_side memory_checkpoints memory_checkpoints-Contract (lit "relay"))
      (checkpoint_side memory_checkpoints memory_checkpoints-Contract (lit "relay"))
