-- ===== src/Examples/Messages.antt =====
-- The broker, the buses, the consumer and projections at concrete inputs.
use gohex.Prelude.{
  ℕ, suc, ◌≡◌, ◌↔◌, refl, inl, Bool, true, false, none, some, List, [], ◌∷◌, ◌++◌, length, pos,
  arith,
}
use gohex.Prelude.Map.{get, put}
use gohex.Prelude.Text.{Text, text_eq, text_beq, lit}
use gohex.Kernel.Errors.{DomainError, new_domain_error, domain, plain, as_domain_error}
use gohex.Kernel.Result.{ok}
use gohex.Broker.Message.{Message}
use gohex.Broker.Memory.{
  GroupKey, new_memory_broker, publish, join, is_active, next_message, log_of, offset_of,
}
use gohex.Broker.Memory.Delivery.{
  System, idle, publishes, joins, delivers, busy, here, next, IsOrderly,
}
use gohex.Broker.Memory.Delivery.Order.{Reach-IsOrderly}
use gohex.Cqrs.Command.{Command, HandlerFunc, RetryPolicy, with_defaults, is_retryable}
use gohex.Cqrs.Bus.{Bus, Waits, with_retry, should_retry_of, dispatch}
use gohex.Cqrs.Bus.Retry.{IsRun, with_retry-IsRun}
use gohex.Cqrs.Bus.Policy.{domain_error_is_final}
use gohex.Cqrs.Wire.{
  decode_command, MemoryDeduplicator, memory_deduplicator, new_memory_deduplicator,
  memory_deduplicator-Remembers, memory_processed, memory_mark_processed,
}
use gohex.Cqrs.Consumer.{Consumer, consume, deliveries}
use gohex.Cqrs.Consumer.Delivery.{IsTransient, acknowledged_once, error-IsTransient}
use gohex.EventStore.Checkpoint.{
  MemoryCheckpointStore, memory_checkpoints, new_memory_checkpoint_store,
}
use gohex.EventStore.Checkpoint.Laws.{stored, memory_checkpoints-Contract}
use gohex.Projection.Wait.{Reaches, wait_for_checkpoint, wait_for_checkpoint_iff}
use gohex.Prelude.Decimal.{itoa}
use gohex.EventStore.Checkpoint.{set_position}
use gohex.Projection.Runners
use gohex.Projection.Runners.{InboxReader, Turn, applied, apply_messages, inbox_loop}
use gohex.Projection.Runners.Order.{OnePass, inbox_loop-OnePass}
use gohex.Projection.Runners.Log.{Ascending}
use gohex.Projection.Inbox.Reading.{memory_inbox-Contract}
use gohex.Projection.Inbox.{MemoryInbox, memory_inbox, read_inbox, new_memory_inbox, inbox_head}
use gohex.Projection.Inbox.Collapse.{write_all, first_of_each, numbered, write_all-first_of_each}

abbrev message : Message
message = record {
  id = lit "c/1#1";
  key = lit "1";
  type_name = lit "add";
  version = pos 1;
  occurred_at = 0;
  payload = lit "abc";
  metadata = none;
}

-- A message is published, a member joins and is handed it, and another call is turned away.
abbrev group : GroupKey
group = record { topic = lit "t"; group = lit "g" }

abbrev published : System
published = record idle { broker = (publish new_memory_broker (lit "t") (message ∷ [])).0 }

abbrev joined : System
joined = record published {
  broker = (join published.broker group).0;
  members = record { key = group; handling = none } ∷ [];
}

abbrev handed : System
handed = record joined {
  members = [] ++ busy (record { key = group; handling = none }) 0 message ∷ [];
}

joins_first : (join published.broker group).1 ≡ none
unfolding publish join is_active get
joins_first = refl

finds_message : next_message joined.broker group ≡ (0, some message)
unfolding publish join next_message log_of offset_of get put text_beq is_active
finds_message = refl

Reach-IsOrderly_example : IsOrderly handed
Reach-IsOrderly_example = Reach-IsOrderly {s = handed} (
    next
      (next (next here (publishes idle (lit "t") (message ∷ [])))
        (joins published group joins_first))
      (delivers joined [] [] (record { key = group; handling = none }) 0 message refl refl
        finds_message))

-- A command is a text; a handler adds its length to the state, and fails on the empty one.
instance abbrev text_commands : Command Text
text_commands = record { command_name = λ c. lit "add" }

abbrev empty_command : DomainError
empty_command = new_domain_error (lit "empty") (lit "nothing to add")

abbrev add : HandlerFunc (List Text) Text
add w [] = (w, some (domain empty_command))
add w (c ∷ s) = (w ++ (c ∷ s) ∷ [], none)

abbrev policy : RetryPolicy
policy = record { attempts = pos 3; backoff = pos 1; should_retry = none }

abbrev bus : Bus (List Text) Text
bus = record {
  handlers = (lit "add", add) ∷ [];
  middleware = [];
  retry = record { attempts = pos 3; backoff = pos 1; should_retry = some is_retryable };
}

abbrev no_end : Waits
no_end n = false

with_retry-IsRun_example :
    IsRun add
      (should_retry_of bus.retry)
      no_end
      (lit "x")
      1
      3
      []
      (with_retry bus no_end add [] (lit "x")).0
      (with_retry bus no_end add [] (lit "x")).1
with_retry-IsRun_example = with_retry-IsRun bus no_end add [] (lit "x") 2 refl

policy_defaults : bus.retry ≡ with_defaults policy
unfolding with_defaults
policy_defaults = refl

empty_is_domain : as_domain_error (domain empty_command) ≡ some empty_command
unfolding as_domain_error
empty_is_domain = refl

domain_error_is_final_example :
    with_retry bus no_end add [] (lit "") ≡ ([], some (domain empty_command))
domain_error_is_final_example =
    domain_error_is_final bus no_end add [] [] (lit "") policy (domain empty_command) empty_command
      policy_defaults refl refl empty_is_domain

abbrev consumer : Consumer (List Text) Text MemoryDeduplicator
consumer = record {
  bus = bus;
  registry = (lit "add", (λ p. inl p)) ∷ [];
  dedup = memory_deduplicator;
  on_rejected = none;
}

-- The message is executed once, and its ID is marked.
executes :
    consume consumer no_end ([], []) message ≡ ((lit "abc" ∷ [], (lit "c/1#1", true) ∷ []), none)
unfolding consume dispatch memory_processed memory_mark_processed decode_command get text_beq
    with_retry put
executes = refl

acknowledged_once_example :
    consume consumer no_end
      (deliveries consumer (lit "abc" ∷ [], (lit "c/1#1", true) ∷ []) ((no_end, message) ∷ []))
      message
    ≡ (
      deliveries consumer (lit "abc" ∷ [], (lit "c/1#1", true) ∷ []) ((no_end, message) ∷ []),
      none,
    )
acknowledged_once_example =
    acknowledged_once consumer memory_deduplicator-Remembers no_end no_end [] (lit "abc" ∷ []) []
      ((lit "c/1#1", true) ∷ []) message message ((no_end, message) ∷ []) executes refl

-- A consumer whose handler fails.
abbrev failing : Consumer (List Text) Text MemoryDeduplicator
failing = record consumer {
  bus = record bus { handlers = (lit "add", (λ w c. (w, some (plain (lit "down"))))) ∷ [] };
}

fails : consume failing no_end ([], []) message ≡ (([], []), some (plain (lit "down")))
unfolding consume dispatch memory_processed decode_command get text_beq with_retry is_retryable
    as_domain_error
fails = refl

accepts : (d : MemoryDeduplicator) (id : Text) → (memory_mark_processed d id).1 ≡ none
unfolding memory_mark_processed
accepts d id = refl

answers : (d : MemoryDeduplicator) (id : Text) → (b : Bool) × (memory_processed d id ≡ inl b)
unfolding memory_processed
answers d id = (_, refl)

error-IsTransient_example :
    IsTransient failing no_end [] message [] (plain (lit "down"))
    × (new_memory_deduplicator ≡ new_memory_deduplicator)
error-IsTransient_example =
    error-IsTransient failing accepts answers no_end [] [] [] [] message (plain (lit "down")) fails

abbrev behind_one : MemoryCheckpointStore
behind_one = record { positions = (lit "p", 4) ∷ [] }

wait_for_checkpoint_iff_example :
    (wait_for_checkpoint memory_checkpoints
        (lit "p")
        (pos 4)
        new_memory_checkpoint_store
        (behind_one ∷ [])
      ≡ ok tt)
    ↔ Reaches stored (lit "p") 4 new_memory_checkpoint_store (behind_one ∷ [])
wait_for_checkpoint_iff_example =
    wait_for_checkpoint_iff memory_checkpoints memory_checkpoints-Contract (lit "p") 3
      new_memory_checkpoint_store (behind_one ∷ [])

write_all-first_of_each_example :
    ((write_all new_memory_inbox (message ∷ message ∷ [])).msgs
      ≡ numbered 0 (first_of_each (λ id. false) (message ∷ message ∷ [])))
    × (inbox_head (write_all new_memory_inbox (message ∷ message ∷ []))
        ≡ ok (length (first_of_each (λ id. false) (message ∷ message ∷ []))))
write_all-first_of_each_example = write_all-first_of_each (message ∷ message ∷ [])

-- A reader whose handler counts, over an inbox with one message that it handles.
abbrev reader : InboxReader MemoryInbox ℕ Text MemoryCheckpointStore
reader = record {
  projection = record {
    name = lit "summary";
    domain_handlers = [];
    foreign_handlers = (lit "add@v1", (λ n m. (suc n, none))) ∷ [];
  };
  inbox = memory_inbox;
  checkpoints = memory_checkpoints;
  cfg = record { poll_interval = pos 1; batch_size = pos 10 };
}

abbrev one_message : MemoryInbox
one_message = record {
  msgs = record { seq = 1; message = message } ∷ [];
  by_id = (lit "c/1#1", true) ∷ [];
}

abbrev turns : List (Turn MemoryInbox)
turns =
    record {
      log = one_message;
      cancelled = false;
      cancelled_in_read = false;
      cancelled_in_wait = false;
    }
    ∷ []

counts :
    inbox_loop reader turns 0 4 new_memory_checkpoint_store
    ≡ Runners.next 1 5 (record { positions = (lit "projection.summary.inbox", 1) ∷ [] })
unfolding inbox_loop read_inbox get put text_beq set_position itoa
counts = refl

growing : Ascending 0 one_message.msgs
growing = (omega arith, tt)

inbox_loop-OnePass_example : OnePass reader memory_inbox-Contract one_message growing 0 1 4 5
inbox_loop-OnePass_example =
    inbox_loop-OnePass reader memory_inbox-Contract one_message growing turns 0 1 4 5
      new_memory_checkpoint_store (record { positions = (lit "projection.summary.inbox", 1) ∷ [] })
      ((growing, ([], refl)), tt) counts
