-- ===== src/Saga/Decision/Commands.antt =====
-- saga/runner.go: the loop of process over the decided commands.
use gohex.Prelude.{
  ◌≡◌, refl, sym, ap, ◌∙◌, subst, Bool, true, false, Option, List, [], ◌∷◌, ◌++◌, append-nil,
  append_assoc, if◌then◌else◌,
}
use gohex.Prelude.Text.{Text, text_eq, is_empty, lit}
use gohex.Kernel.Errors.{Error, plain}
use gohex.Kernel.Result.{Result, ok, err, panic}
use gohex.Kernel.Aggregate.{raise, uncommitted_events}
use gohex.Kernel.Aggregate.Replay.{IsReplay, raise_ok-IsReplay}
use gohex.EventStore.Types.{Metadata}
use gohex.Cqrs.Command.{Command}
use gohex.Cqrs.Wire.{WireCommand}
use gohex.Saga.{
  OutCommand, Decisions, SagaEvent, command_requested, ended, Instance, saga_applies, apply_saga,
}
use gohex.Saga.Runner.{
  SagaInstance, failed, decided, raised_or_failed, finish, request, encoded_or_failed,
  raise_commands,
}
use gohex.Saga.Decision.{IsRaised, IsRaised-step, end_marker, marked}

-- The events that record the decided commands: one for each, in order, with a topic and the
-- payload that encoding/json gives.
module _ {C : Type 0} ⦃cmds : Command C⦄ ⦃wire : WireCommand C⦄ (metadata : Metadata)
    (id : Text) where
  pub data Requests : List (OutCommand C) → List SagaEvent → Type 0 where
    no_more : Requests [] []
    request_for :
        (out : OutCommand C) (outs : List (OutCommand C)) (es : List SagaEvent) (payload : Text)
        → is_empty out.topic ≡ false
        → wire.marshal out.cmd ≡ ok payload
        → Requests outs es
        → Requests (out ∷ outs) (command_requested (request metadata id out payload) ∷ es)

module _ {S C : Type 0} ⦃cmds : Command C⦄ ⦃wire : WireCommand C⦄ (metadata : Metadata)
    (id : Text) where
  pub record CommandsRaised (decisions : Decisions C) (outs : List (OutCommand C))
      (i k : SagaInstance S C) : Type 0 where
    pub requests : List SagaEvent
    pub asked : Requests metadata id outs requests
    pub pending :
        uncommitted_events k ≡ uncommitted_events i ++ (requests ++ end_marker decisions.ends)
    pub state : k.state ≡ marked decisions.ends i.state
    pub replay :
        (start : Instance S C) (stream : List SagaEvent)
        → IsReplay start stream i
        → IsReplay start stream k

  finish-lem :
      (decisions : Decisions C) (i k : SagaInstance S C)
      → finish decisions i ≡ decided k
      → CommandsRaised decisions [] i k
  unfolding finish apply_saga
  finish-lem decisions i k h = go decisions.ends refl h
    where
      go :
          (b : Bool)
          → decisions.ends ≡ b
          → (if b then raised_or_failed (λ j. decided j) (raise i ended) else decided i) ≡ decided k
          → CommandsRaised decisions [] i k
      go false q f =
          let same : i ≡ k = cc in
          record {
            requests = [];
            asked = no_more;
            pending = rw (q, same) (sym (append-nil (uncommitted_events k)));
            state = rw (q, same) refl;
            replay = λ start stream r. subst (IsReplay start stream) same r;
          }
      go true q f =
          let (j, raised_j, rest) = IsRaised-step i ended (λ j. decided j) k f in
          let same : j ≡ k = cc in
          record {
            requests = [];
            asked = no_more;
            pending = rw (q, ← same) raised_j.pending;
            state =
                rw (q, ← same)
                  (sym (ap (λ (p : Instance S C × Option Error). p.0) raised_j.applies));
            replay = λ start stream r.
                subst (IsReplay start stream) same
                  (raise_ok-IsReplay start stream i j ended raised_j.raises r);
          }

  pub commands-lem :
      (decisions : Decisions C) (outs : List (OutCommand C)) (i k : SagaInstance S C)
      → raise_commands metadata id decisions outs i ≡ decided k
      → CommandsRaised decisions outs i k
  unfolding raise_commands
  commands-lem decisions [] i k h = finish-lem decisions i k h
  commands-lem decisions (out ∷ outs) i k h =
      topic (is_empty out.topic) refl h (λ j r. commands-lem decisions outs j k r)
    where
      asked_one :
          (payload : Text)
          → is_empty out.topic ≡ false
          → wire.marshal out.cmd ≡ ok payload
          → (j : SagaInstance S C)
          → IsRaised i (command_requested (request metadata id out payload)) j
          → CommandsRaised decisions outs j k
          → CommandsRaised decisions (out ∷ outs) i k
      asked_one payload named q j r c =
          let e = command_requested (request metadata id out payload) in
          let same : j.state ≡ i.state =
            sym (ap (λ (p : Instance S C × Option Error). p.0) r.applies)
            ∙ (unfold apply_saga in refl) in
          record {
            requests = e ∷ c.requests;
            asked = request_for out outs c.requests payload named q c.asked;
            pending =
                c.pending
                ∙ ap (λ l. l ++ (c.requests ++ end_marker decisions.ends)) r.pending
                ∙ append_assoc (uncommitted_events i) (e ∷ [])
                    (c.requests ++ end_marker decisions.ends);
            state = c.state ∙ ap (marked decisions.ends) same;
            replay = λ start stream x.
                c.replay start stream (raise_ok-IsReplay start stream i j e r.raises x);
          }

      encoded :
          (o : Result Text)
          → wire.marshal out.cmd ≡ o
          → is_empty out.topic ≡ false
          → encoded_or_failed metadata id
              (λ payload.
                raised_or_failed
                  (λ j. raise_commands metadata id decisions outs j)
                  (raise i (command_requested (request metadata id out payload))))
              o
            ≡ decided k
          → ((j : SagaInstance S C)
              → raise_commands metadata id decisions outs j ≡ decided k
              → CommandsRaised decisions outs j k)
          → CommandsRaised decisions (out ∷ outs) i k
      encoded (err x) q named f rest = absurd cc
      encoded panic q named f rest = absurd cc
      encoded (ok payload) q named f rest =
          let (j, r, g) =
            IsRaised-step i (command_requested (request metadata id out payload))
              (λ j. raise_commands metadata id decisions outs j) k f in
          asked_one payload named q j r (rest j g)

      topic :
          (b : Bool)
          → is_empty out.topic ≡ b
          → (if b
              then failed (plain (lit "saga: command has no topic"))
              else encoded_or_failed metadata id
                  (λ payload.
                    raised_or_failed
                      (λ j. raise_commands metadata id decisions outs j)
                      (raise i (command_requested (request metadata id out payload))))
                  (wire.marshal out.cmd))
            ≡ decided k
          → ((j : SagaInstance S C)
              → raise_commands metadata id decisions outs j ≡ decided k
              → CommandsRaised decisions outs j k)
          → CommandsRaised decisions (out ∷ outs) i k
      topic true q f rest = absurd cc
      topic false q f rest = encoded (wire.marshal out.cmd) refl q f rest
