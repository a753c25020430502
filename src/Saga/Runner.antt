-- ===== src/Saga/Runner.antt =====
-- saga/runner.go: what process decides between its Load and its Save.
pub mod Process
use gohex.Prelude.{
  ℕ, zero, suc, Bool, true, false, ◌||◌, Option, none, some, List, [], ◌∷◌, pos, inl, inr,
  if◌then◌else◌,
}
use gohex.Prelude.Map.{get}
use gohex.Prelude.Text.{Text, text_eq, lit, is_empty}
use gohex.Kernel.Errors.{Error, plain, wrap, domain, version_conflict, errors_is}
use gohex.Kernel.Result.{Result, ok, err, panic}
use gohex.Kernel.Event.{DomainEvent}
use gohex.Kernel.Aggregate.{Aggregate, raise}
use gohex.EventStore.Types.{Metadata, Store, err_not_found}
use gohex.EventStore.Position.{Context, Positions, Extractor, metadata_from_context}
use gohex.EventStore.Registry.{Registry}
use gohex.EventStore.Repository.{Repository, load_aggregate, save_aggregate}
use gohex.Cqrs.Command.{Command}
use gohex.Cqrs.Wire.{WireCommand}
use gohex.Broker.Message.{Message}
use gohex.Saga.{
  OutCommand, Decisions, Definition, event_key, CommandRequested, SagaEvent, event_received,
  command_requested, ended, Instance, new_instance, category, has_seen, saga_applies,
}

abbrev pub SagaInstance : Type 0 → Type 0 → Type 0
SagaInstance S C = Aggregate (Instance S C) SagaEvent

pub record Runner (St S C : Type 0) : Type 0 where
  pub def : Definition S C
  pub repo : Repository St (Instance S C) SagaEvent
  pub conflict_retries : ℕ

module _ {St S C : Type 0} where
  -- NewRunner, with `initial` the zero value of the saga's state.
  unfoldable pub new_runner : Definition S C → Store St → Registry SagaEvent → S → Runner St S C
  unfolding category
  new_runner def store registry initial = record {
    def = def;
    repo = record {
      store = store;
      registry = registry;
      category = category def;
      zero = (new_instance def initial).state;
    };
    conflict_retries = 3;
  }

-- What comes of the part of process between Load and Save.
pub data Decided (S C : Type 0) : Type 0 where
  ignored : Decided S C
  failed : Error → Decided S C
  panicked : Decided S C
  decided : SagaInstance S C → Decided S C

module _ {S C : Type 0} where
  -- if err := kernel.Raise(inst, e); err != nil { return true, err }
  abbrev pub raised_or_failed :
      (SagaInstance S C → Decided S C) → SagaInstance S C × Option Error → Decided S C
  raised_or_failed rest (inst, none) = rest inst
  raised_or_failed rest (inst, some x) = failed x

  unfoldable pub finish : Decisions C → SagaInstance S C → Decided S C
  finish decisions inst =
      if decisions.ends then raised_or_failed (λ i. decided i) (raise inst ended) else decided inst

module _ {C : Type 0} ⦃cmds : Command C⦄ ⦃wire : WireCommand C⦄ (metadata : Metadata)
    (id : Text) where
  -- The event that records the decision to send `out`, with its payload.
  unfoldable pub request : OutCommand C → Text → CommandRequested
  request out payload = record {
    topic = out.topic;
    key = if is_empty out.key then id else out.key;
    command_name = cmds.command_name out.cmd;
    contract_version = elim (wire.contract_version out.cmd) [ none ↦ pos 1 | some v ↦ v ];
    payload = payload;
    metadata = metadata;
  }

module _ {S C : Type 0} ⦃cmds : Command C⦄ ⦃wire : WireCommand C⦄ (metadata : Metadata)
    (id : Text) where
  abbrev pub encoded_or_failed : (Text → Decided S C) → Result Text → Decided S C
  encoded_or_failed rest (ok payload) = rest payload
  encoded_or_failed rest (err e) = failed (wrap (lit "saga: encoding") e)
  encoded_or_failed rest panic = panicked

  -- The loop over the decided commands, and what follows it.
  unfoldable pub raise_commands : Decisions C → List (OutCommand C) → SagaInstance S C → Decided S C
  unfolding request finish
  raise_commands decisions [] inst = finish decisions inst
  raise_commands decisions (out ∷ outs) inst =
      let rest = λ (i : SagaInstance S C). raise_commands decisions outs i in
      if is_empty out.topic
      then failed (plain (lit "saga: command has no topic"))
      else encoded_or_failed
          (λ payload.
            raised_or_failed rest
              (raise inst (command_requested (request metadata id out payload))))
          (wire.marshal out.cmd)

  unfoldable pub decide : Message → SagaInstance S C → Decided S C
  unfolding raise_commands has_seen
  decide msg inst =
      if inst.state.ended || has_seen inst.state msg.id
      then ignored
      else raised_or_failed
          (λ i. raise_commands i.state.last_decisions i.state.last_decisions.commands i)
          (raise inst (event_received msg))
