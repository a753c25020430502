-- ===== src/Saga/Decision/Outcome.antt =====
-- saga/runner.go: what process decides to append for one delivery.
use gohex.Prelude.{
  ◌≡◌, refl, sym, ap, ◌∙◌, Bool, true, false, ◌||◌, Option, none, some, List, [], ◌∷◌, ◌++◌,
  append_assoc, ◌⊎◌, inl, inr, if◌then◌else◌,
}
use gohex.Prelude.Map.{get, put, get-put_self}
use gohex.Prelude.Text.{Text, text_eq}
use gohex.Kernel.Errors.{Error}
use gohex.Kernel.Aggregate.{raise, uncommitted_events}
use gohex.Kernel.Aggregate.Replay.{IsReplay, raise_ok-IsReplay}
use gohex.EventStore.Types.{Metadata}
use gohex.Cqrs.Command.{Command}
use gohex.Cqrs.Wire.{WireCommand}
use gohex.Broker.Message.{Message}
use gohex.Saga.{
  Decisions, EvHandler, event_key, SagaEvent, event_received, Instance, has_seen, saga_applies,
  apply_saga, handled,
}
use gohex.Saga.Runner.{SagaInstance, ignored, decided, raised_or_failed, raise_commands, decide}
use gohex.Saga.Decision.{IsRaised, IsRaised-step, end_marker, marked}
use gohex.Saga.Decision.Commands.{commands-lem, CommandsRaised, Requests}

module _ {S C : Type 0} ⦃cmds : Command C⦄ ⦃wire : WireCommand C⦄ (metadata : Metadata)
    (id : Text) where
  -- The outcome of a delivery that was decided: `k` is the instance `i` with the events to append.
  pub record IsDecided (msg : Message) (i k : SagaInstance S C) : Type 0 where
    pub handled_state : Instance S C
    pub handles : apply_saga i.state (event_received msg) ≡ (handled_state, none)
    pub requests : List SagaEvent
    pub asked : Requests metadata id handled_state.last_decisions.commands requests
    pub pending :
        uncommitted_events k
        ≡ uncommitted_events i
          ++ (event_received msg ∷ (requests ++ end_marker handled_state.last_decisions.ends))
    pub state : k.state ≡ marked handled_state.last_decisions.ends handled_state
    pub sees : has_seen k.state msg.id ≡ true
    pub replay :
        (start : Instance S C) (stream : List SagaEvent)
        → IsReplay start stream i
        → IsReplay start stream k

module _ {S C : Type 0} where
  handled-seen :
      (i t : Instance S C) (o : S × (Decisions C ⊎ Error))
      → handled i o ≡ (t, none)
      → t.seen ≡ i.seen
  handled-seen i t (s, inl d) e = sym (ap (λ (p : Instance S C × Option Error). p.0.seen) e)
  handled-seen i t (s, inr x) e = absurd cc

  pub received-seen :
      (i t : Instance S C) (msg : Message)
      → apply_saga i (event_received msg) ≡ (t, none)
      → t.seen ≡ put i.seen msg.id true
  unfolding apply_saga
  received-seen i t msg e = go (get i.def.handlers (event_key msg.type_name msg.version)) e
    where
      i' : Instance S C
      i' = record i { seen = put i.seen msg.id true }

      go :
          (h : Option (EvHandler S C))
          → (elim h as (λ _. Instance S C × Option Error) [
            | none ↦ (record i' { last_decisions = record { commands = []; ends = false } }, none)
            | some handler ↦ handled i' (handler.handle i.state msg)
          ])
            ≡ (t, none)
          → t.seen ≡ put i.seen msg.id true
      go none f = sym (ap (λ (p : Instance S C × Option Error). p.0.seen) f)
      go (some handler) f = handled-seen i' t (handler.handle i.state msg) f

  pub marked-sees :
      (b : Bool) (t : Instance S C) (id : Text)
      → get t.seen id ≡ some true
      → has_seen (marked b t) id ≡ true
  unfolding has_seen
  marked-sees true t id h = rw (h, has_seen) refl
  marked-sees false t id h = rw (h, has_seen) refl

module _ {S C : Type 0} ⦃cmds : Command C⦄ ⦃wire : WireCommand C⦄ (metadata : Metadata) (id : Text)
    (msg : Message) (i k : SagaInstance S C) where
  IsDecided-of :
      (j : SagaInstance S C)
      → IsRaised i (event_received msg) j
      → CommandsRaised metadata id j.state.last_decisions j.state.last_decisions.commands j k
      → IsDecided metadata id msg i k
  IsDecided-of j r c = record {
    handled_state = j.state;
    handles = r.applies;
    requests = c.requests;
    asked = c.asked;
    pending =
        c.pending
        ∙ ap (λ l. l ++ (c.requests ++ end_marker j.state.last_decisions.ends)) r.pending
        ∙ append_assoc (uncommitted_events i) (event_received msg ∷ [])
            (c.requests ++ end_marker j.state.last_decisions.ends);
    state = c.state;
    sees =
        ap (λ s. has_seen s msg.id) c.state
        ∙ marked-sees j.state.last_decisions.ends j.state msg.id (
            ap (λ m. get m msg.id) (received-seen i.state j.state msg r.applies)
            ∙ get-put_self i.state.seen msg.id true);
    replay = λ start stream x.
        c.replay start stream (raise_ok-IsReplay start stream i j (event_received msg) r.raises x);
  }

  -- A delivery that a saga decides leaves the instance with these events to append, and no other:
  -- the received envelope, then one request for each command that the handler decided, in order,
  -- each with a topic and its encoded payload, then the end marker if the handler decided to end.
  -- The instance has then seen the message's ID, and replaying its stream with those events gives
  -- the instance again, its handlers included.
  pub decide-IsDecided : decide metadata id msg i ≡ decided k → IsDecided metadata id msg i k
  unfolding decide
  decide-IsDecided h = go (i.state.ended || has_seen i.state msg.id) h
    where
      go :
          (b : Bool)
          → (if b
              then ignored
              else raised_or_failed
                  (λ j.
                    raise_commands metadata id j.state.last_decisions
                      j.state.last_decisions.commands j)
                  (raise i (event_received msg)))
            ≡ decided k
          → IsDecided metadata id msg i k
      go true f = absurd cc
      go false f =
          let (j, r, g) =
            IsRaised-step i (event_received msg)
              (λ j.
                raise_commands metadata id j.state.last_decisions j.state.last_decisions.commands j)
              k f in
          IsDecided-of j r
            (commands-lem metadata id j.state.last_decisions j.state.last_decisions.commands j k g)

module _ {S C : Type 0} ⦃cmds : Command C⦄ ⦃wire : WireCommand C⦄ where
  -- A delivery of a message that the instance has seen, or for an ended one, is ignored.
  pub decide_again :
      (metadata : Metadata) (id : Text) (msg : Message) (i : SagaInstance S C)
      → i.state.ended || has_seen i.state msg.id ≡ true
      → decide metadata id msg i ≡ ignored
  unfolding decide
  decide_again metadata id msg i h = rw h refl
