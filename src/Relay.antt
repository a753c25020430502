-- ===== src/Relay.antt =====
-- relay/relay.go: the polling relay. The store, the broker and the checkpoints are states of their
-- ports.
pub mod Grouping
pub mod Publishing
pub mod Batches
pub mod Delivery
pub mod Restart
pub mod MessageId
pub mod Run
use gohex.Prelude.{
  ℕ, zero, suc, ◌≡◌, Bool, true, false, ◌||◌, Option, none, some, List, [], ◌∷◌, ◌++◌, ℤ, pos,
  is_pos, is_some, last?, if◌then◌else◌,
}
use gohex.Prelude.Map.{Map, get, put}
use gohex.Prelude.Text.{Text, text_eq, lit, is_empty}
use gohex.Prelude.Decimal.{decimal}
use gohex.Kernel.Errors.{Error, wrap}
use gohex.Kernel.Result.{Result, ok, err, panic, ◌>>=◌}
use gohex.EventStore.Types.{RecordedEvent, Store}
use gohex.EventStore.Contract.{seq_of_last}
use gohex.EventStore.Registry.{Registry, decode}
use gohex.EventStore.Checkpoint.{CheckpointStore}
use gohex.Broker.Message.{Message, IntegrationEvent, new_message, Publisher}

-- Durations are in nanoseconds.
pub record Config : Type 0 where
  pub name : Text
  pub topic : Text
  pub poll_interval : ℤ
  pub batch_size : ℤ
  pub publish_backoff : ℤ

-- `none` is ok = false.
abbrev pub RouteFunc : Type 0 → Type 0
RouteFunc E = RecordedEvent → E → Result (Option (Text × Message))

pub record Relay (S B K E I : Type 0) : Type 0 where
  pub store : Store S
  pub registry : Registry E
  pub publisher : Publisher B
  pub checkpoints : CheckpointStore K
  pub cfg : Config
  pub translators : Map Text (E → Option I)
  pub routes : Map Text (RouteFunc E)

unfoldable pub with_defaults : Config → Config
with_defaults cfg = record cfg {
  poll_interval = if is_pos cfg.poll_interval then cfg.poll_interval else pos 200_000_000;
  batch_size = if is_pos cfg.batch_size then cfg.batch_size else pos 100;
  publish_backoff = if is_pos cfg.publish_backoff then cfg.publish_backoff else pos 1_000_000_000;
}

-- MessageID: "category/stream#version".
unfoldable pub message_id : RecordedEvent → Text
unfolding decimal
message_id rec = rec.stream.category ++ lit "/" ++ rec.stream.id ++ lit "#" ++ decimal rec.version

-- What is published so far of a batch: `topics` in the order of their first message.
pub record Groups : Type 0 where
  pub topics : List Text
  pub by_topic : Map Text (List Message)

abbrev pub no_groups : Groups
no_groups = record { topics = []; by_topic = [] }

-- A missing key reads as the nil slice.
abbrev pub or_nil : Option (List Message) → List Message
or_nil none = []
or_nil (some l) = l

-- byTopic[topic]
unfoldable pub messages_of : Groups → Text → List Message
messages_of g topic = or_nil (get g.by_topic topic)

unfoldable pub add_message : Groups → Text → Message → Groups
unfolding messages_of
add_message g topic msg = record {
  topics = if is_some (get g.by_topic topic) then g.topics else g.topics ++ topic ∷ [];
  by_topic = put g.by_topic topic (messages_of g topic ++ msg ∷ []);
}

unfoldable pub add_translated : Groups → Option (Text × Message) → Groups
unfolding add_message
add_translated g none = g
add_translated g (some (topic, msg)) = add_message g topic msg

-- What an iteration of Run meets: the store at the time of its read, whether the context has ended
-- at its start or by the time a read failed, and how many waits end before the context does.
pub record Turn (S : Type 0) : Type 0 where
  pub store : S
  pub cancelled : Bool
  pub cancelled_in_read : Bool
  pub waits : ℕ

-- How an iteration ends: with the next one, by `return nil`, by an error, or by a panic of a
-- decoder.
pub data Step (B K : Type 0) : Type 0 where
  next : ℕ → B → K → Step B K
  return_nil : B → K → Step B K
  return_err : B → K → Error → Step B K
  panicked : B → K → Step B K

module _ {B : Type 0} where
  -- What an attempt to publish leads to; `left` is the number of waits that remain.
  abbrev pub after_publish : ℕ → (B → B × Option ℕ) → B × Option Error → B × Option ℕ
  after_publish left again (b, none) = (b, some left)
  after_publish left again (b, some x) = again b

  -- publishWithRetry, with the number of waits that the context outlives; the result has the
  -- number left, or `none` for false.
  unfoldable pub publish_with_retry : Publisher B → Text → List Message → ℕ → B → B × Option ℕ
  publish_with_retry p topic msgs zero b =
      after_publish zero (λ b'. (b', none)) (p.publish b topic msgs)
  publish_with_retry p topic msgs (suc waits) b =
      after_publish (suc waits) (λ b'. publish_with_retry p topic msgs waits b')
        (p.publish b topic msgs)

  -- On with the next topic, unless the context ended.
  abbrev pub after_topic : (ℕ → B → B × Option ℕ) → B × Option ℕ → B × Option ℕ
  after_topic rest (b, none) = (b, none)
  after_topic rest (b, some left) = rest left b

module _ {B K : Type 0} where
  -- What Run makes of the outcome of a Set.
  abbrev pub checkpointed : B → ℕ → K × Result (Unit {0}) → Step B K
  checkpointed b seq (k, ok u) = next seq b k
  checkpointed b seq (k, err e) = return_err b k (wrap (lit "relay: checkpoint") e)
  checkpointed b seq (k, panic) = panicked b k

  -- On with the next iteration, unless this one returned.
  abbrev pub and_on : (ℕ → B → K → Step B K) → Step B K → Step B K
  and_on rest (next seq b k) = rest seq b k
  and_on rest (return_nil b k) = return_nil b k
  and_on rest (return_err b k e) = return_err b k e
  and_on rest (panicked b k) = panicked b k

module _ {S B K E I : Type 0} where
  unfoldable pub new :
      Store S → Registry E → Publisher B → CheckpointStore K → Config → Result (Relay S B K E I)
  unfolding with_defaults
  new store registry publisher checkpoints cfg =
      if is_empty cfg.name || is_empty cfg.topic
      then panic
      else ok (record {
        store = store;
        registry = registry;
        publisher = publisher;
        checkpoints = checkpoints;
        cfg = with_defaults cfg;
        translators = [];
        routes = [];
      })

  -- Translate, for the Go type whose EventName is `name`.
  unfoldable pub add_translator : Relay S B K E I → Text → (E → Option I) → Result (Relay S B K E I)
  add_translator r name fn =
      if is_some (get r.translators name) || is_some (get r.routes name)
      then panic
      else ok (record r { translators = put r.translators name fn })

  unfoldable pub route : Relay S B K E I → Text → RouteFunc E → Result (Relay S B K E I)
  route r name fn =
      if is_some (get r.routes name) || is_some (get r.translators name)
      then panic
      else ok (record r { routes = put r.routes name fn })

  -- The loop over the topics of a batch.
  unfoldable pub publish_topics : Relay S B K E I → Groups → List Text → ℕ → B → B × Option ℕ
  unfolding publish_with_retry messages_of
  publish_topics r g [] waits b = (b, some waits)
  publish_topics r g (topic ∷ topics) waits b =
      after_topic (λ left b'. publish_topics r g topics left b')
        (publish_with_retry r.publisher topic (messages_of g topic) waits b)

  -- The end of an iteration, with the outcome of the publishes.
  unfoldable pub commit : Relay S B K E I → List RecordedEvent → K → B × Option ℕ → Step B K
  commit r recs k (b, none) = return_nil b k
  commit r recs k (b, some left) =
      checkpointed b (seq_of_last (last? recs))
        (r.checkpoints.set_checkpoint k r.cfg.name (seq_of_last (last? recs)))
