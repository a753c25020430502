-- ===== src/Saga.antt =====
-- saga/saga.go: saga definitions, the events of an instance's stream, and the instance.
pub mod Runner
pub mod Decision
pub mod Deliveries
pub mod Redelivery
use gohex.Prelude.{
  ℕ, Bool, true, false, ◌||◌, Option, none, some, List, [], ◌∷◌, ◌++◌, ℤ, pos, is_some, ◌⊎◌, inl,
  inr, if◌then◌else◌,
}
use gohex.Prelude.Map.{Map, get, put}
use gohex.Prelude.Text.{Text, text_eq, lit, is_empty}
use gohex.Prelude.Decimal.{itoa}
use gohex.Kernel.Errors.{Error, plain, wrap}
use gohex.Kernel.Result.{Result, ok, err, panic, ◌>>=◌}
use gohex.Kernel.Event.{DomainEvent}
use gohex.Kernel.Aggregate.{Applies, Aggregate, new_aggregate}
use gohex.EventStore.Types.{Metadata, RecordedEvent}
use gohex.EventStore.Registry.{Registry, register}
use gohex.Broker.Message.{Message}
use gohex.Relay.{message_id, RouteFunc}

pub record OutCommand (C : Type 0) : Type 0 where
  pub topic : Text
  pub key : Text
  pub cmd : C

pub record Decisions (C : Type 0) : Type 0 where
  pub commands : List (OutCommand C)
  pub ends : Bool

abbrev pub send : {C : Type 0} → List (OutCommand C) → Decisions C
send cmds = record { commands = cmds; ends = false }

abbrev pub end_saga : {C : Type 0} → Decisions C
end_saga = record { commands = []; ends = true }

-- `handle` mutates the saga's state `S`, also where it returns an error.
pub record EvHandler (S C : Type 0) : Type 0 where
  pub correlate : Message → Text ⊎ Error
  pub handle : S → Message → S × (Decisions C ⊎ Error)

pub record Definition (S C : Type 0) : Type 0 where
  pub name : Text
  pub handlers : Map Text (EvHandler S C)

unfoldable pub event_key : Text → ℤ → Text
event_key name version = name ++ lit "@v" ++ itoa version

-- The events of the stream. The fields of commandRequested are those of its struct.
pub record CommandRequested : Type 0 where
  pub topic : Text
  pub key : Text
  pub command_name : Text
  pub contract_version : ℤ
  pub payload : Text
  pub metadata : Metadata

pub data SagaEvent : Type 0 where
  event_received : Message → SagaEvent
  command_requested : CommandRequested → SagaEvent
  ended : SagaEvent

unfoldable pub saga_event_name : SagaEvent → Text
saga_event_name (event_received m) = lit "saga.event_received"
saga_event_name (command_requested c) = lit "saga.command_requested"
saga_event_name ended = lit "saga.ended"

-- RegisterEvents, with the three Go types' json.Unmarshal.
unfoldable pub register_events :
    Registry SagaEvent
    → (Text → Result SagaEvent)
    → (Text → Result SagaEvent)
    → (Text → Result SagaEvent)
    → Result (Registry SagaEvent)
unfolding saga_event_name
register_events r received requested done = do
  r1 ← register r (lit "saga.event_received") received
  r2 ← register r1 (lit "saga.command_requested") requested
  register r2 (lit "saga.ended") done

-- The RouteFunc that RegisterCommandRouting installs; another event fails its type assertion.
unfoldable pub command_route : RouteFunc SagaEvent
unfolding message_id
command_route rec (command_requested cr) = ok (
    some (
      cr.topic,
      record {
        id = message_id rec;
        key = cr.key;
        type_name = cr.command_name;
        version = cr.contract_version;
        occurred_at = rec.occurred_at;
        payload = cr.payload;
        metadata = cr.metadata;
      },
    ))
command_route rec (event_received m) = panic
command_route rec ended = panic

-- The fields of an instance beside its Root.
pub record Instance (S C : Type 0) : Type 0 where
  pub def : Definition S C
  pub state : S
  pub ended : Bool
  pub seen : Map Text Bool
  pub last_decisions : Decisions C

module _ {S C : Type 0} where
  -- New; the result is the definition, or the panic on an empty name.
  unfoldable pub new : Text → Result (Definition S C)
  new name = if is_empty name then panic else ok (record { name = name; handlers = [] })

  unfoldable pub category : Definition S C → Text
  category d = lit "saga." ++ d.name

  -- The decoding handlers that OnEvent installs around json.Unmarshal into the event type.
  abbrev decoding_handler :
      {E : Type 0}
      → (Text → E ⊎ Error)
      → (E → Text)
      → (S → E → S × (Decisions C ⊎ Error))
      → EvHandler S C
  decoding_handler unmarshal correlate handle = record {
    correlate = λ msg. elim (unmarshal msg.payload) [
      | inl e ↦ inl (correlate e)
      | inr x ↦ inr (wrap (lit "saga: decoding") x)
    ];
    handle = λ s msg. elim (unmarshal msg.payload) [
      | inl e ↦ handle s e
      | inr x ↦ (s, inr (wrap (lit "saga: decoding") x))
    ];
  }

  -- OnEvent, for the Go type with this EventName and ContractVersion.
  unfoldable pub on_event :
      {E : Type 0}
      → Definition S C
      → Text
      → ℤ
      → (Text → E ⊎ Error)
      → (E → Text)
      → (S → E → S × (Decisions C ⊎ Error))
      → Result (Definition S C)
  unfolding event_key
  on_event d name version unmarshal correlate handle =
      let key = event_key name version in
      if is_some (get d.handlers key)
      then panic
      else ok
          (record d { handlers = put d.handlers key (decoding_handler unmarshal correlate handle) })

  -- newInstance, with `zero` the zero value of the saga's state.
  abbrev pub new_instance : Definition S C → S → Aggregate (Instance S C) SagaEvent
  new_instance def zero = new_aggregate (record {
    def = def;
    state = zero;
    ended = false;
    seen = [];
    last_decisions = record { commands = []; ends = false };
  })

  -- i.seen[id]; a missing key reads as false.
  unfoldable pub has_seen : Instance S C → Text → Bool
  has_seen i id = elim (get i.seen id) [ none ↦ false | some b ↦ b ]

  -- What Apply makes of the handler's outcome.
  abbrev pub handled : Instance S C → S × (Decisions C ⊎ Error) → Instance S C × Option Error
  handled i (s, inl decisions) = (record i { state = s; last_decisions = decisions }, none)
  handled i (s, inr x) = (record i { state = s }, some x)

  -- The type switch has a default case for events that are none of the three.
  unfoldable pub apply_saga : Instance S C → SagaEvent → Instance S C × Option Error
  unfolding event_key
  apply_saga i (event_received m) =
      let i' : Instance S C = record i { seen = put i.seen m.id true } in
      elim (get i.def.handlers (event_key m.type_name m.version)) [
        | none ↦ (record i' { last_decisions = record { commands = []; ends = false } }, none)
        | some handler ↦ handled i' (handler.handle i.state m)
      ]
  apply_saga i (command_requested c) = (i, none)
  apply_saga i ended = (record i { ended = true }, none)

instance abbrev pub saga_applies : {S C : Type 0} → Applies (Instance S C) SagaEvent
saga_applies = record { apply = apply_saga }
