-- ===== src/Saga/Decision.antt =====
-- saga/runner.go: the events that process raises on an instance.
pub mod Commands
pub mod Outcome
use gohex.Prelude.{
  ◌≡◌, refl, sym, ap, ◌∙◌, subst, Bool, true, false, ◌||◌, Option, none, some, List, [], ◌∷◌, ◌++◌,
  append-nil, append_assoc, ◌⊎◌, inl, inr, if◌then◌else◌,
}
use gohex.Prelude.Map.{get, put, get-put_self}
use gohex.Prelude.Text.{Text, text_eq, is_empty, lit}
use gohex.Kernel.Errors.{Error, plain}
use gohex.Kernel.Result.{Result, ok, err, panic}
use gohex.Kernel.Aggregate.{raise, raised, uncommitted_events}
use gohex.Kernel.Aggregate.Replay.{IsReplay, raise_ok-IsReplay}
use gohex.EventStore.Types.{Metadata}
use gohex.Cqrs.Command.{Command}
use gohex.Cqrs.Wire.{WireCommand}
use gohex.Broker.Message.{Message}
use gohex.Saga.{
  OutCommand, Decisions, EvHandler, event_key, SagaEvent, event_received, command_requested, ended,
  Instance, has_seen, saga_applies, apply_saga, handled,
}
use gohex.Saga.Runner.{
  SagaInstance, Decided, ignored, failed, decided, raised_or_failed, finish, request,
  encoded_or_failed, raise_commands, decide,
}

abbrev pub end_marker : Bool → List SagaEvent
end_marker true = ended ∷ []
end_marker false = []

module _ {S C : Type 0} where
  -- What a successful Raise does to an instance.
  pub record IsRaised (i : SagaInstance S C) (e : SagaEvent) (j : SagaInstance S C) : Type 0 where
    pub pending : uncommitted_events j ≡ uncommitted_events i ++ e ∷ []
    pub applies : apply_saga i.state e ≡ (j.state, none)
    pub raises : raise i e ≡ (j, none)

  pub IsRaised-step :
      (i : SagaInstance S C) (e : SagaEvent) (rest : SagaInstance S C → Decided S C)
      (k : SagaInstance S C)
      → raised_or_failed rest (raise i e) ≡ decided k
      → (j : SagaInstance S C) × IsRaised i e j × (rest j ≡ decided k)
  unfolding raise uncommitted_events
  IsRaised-step i e rest k h = go (apply_saga i.state e) refl h
    where
      go :
          (o : Instance S C × Option Error)
          → apply_saga i.state e ≡ o
          → raised_or_failed rest (raised i e o) ≡ decided k
          → (j : SagaInstance S C) × IsRaised i e j × (rest j ≡ decided k)
      go (t, some x) q f = absurd cc
      go (t, none) q f = (
        record { root = record i.root { pending = i.root.pending ++ e ∷ [] }; state = t },
        record { pending = refl; applies = q; raises = ap (raised i e) q },
        f,
      )

  abbrev pub marked : Bool → Instance S C → Instance S C
  marked true s = record s { ended = true }
  marked false s = s
