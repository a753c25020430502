-- ===== src/Saga/Deliveries/Later.antt =====
-- saga/runner.go: sequences of deliveries, and the store that each leaves.
use gohex.Prelude.{
  ℕ, ◌≡◌, refl, ap, ◌∙◌, Bool, true, false, none, some, All, inl, inr, Bool-cases, Option,
}
use gohex.Prelude.EqClass.{◌==◌}
use gohex.Prelude.Map.{get, put, get-put}
use gohex.Prelude.Text.{Text, text_eq}
use gohex.Kernel.Errors.{domain, errors_is}
use gohex.Kernel.Result.{Result, ok, err, panic}
use gohex.Kernel.Event.{DomainEvent}
use gohex.Kernel.Aggregate.{new_aggregate, uncommitted_events}
use gohex.EventStore.Types.{err_not_found}
use gohex.EventStore.Position.{Context, Positions, Extractor}
use gohex.EventStore.Repository.{load_aggregate, save_aggregate}
use gohex.EventStore.Repository.RoundTrip.Codec.{IsCodec}
use gohex.Cqrs.Command.{Command}
use gohex.Cqrs.Wire.{WireCommand}
use gohex.Broker.Message.{Message}
use gohex.Saga.{SagaEvent, Instance, has_seen, saga_applies}
use gohex.Saga.Runner.{SagaInstance, Runner, Decided, ignored, failed, panicked, decided, decide}
use gohex.Saga.Runner.Process.{
  Processed, saved_result, save_decided, command_metadata, after_load, process,
}
use gohex.Saga.Decision.Outcome.{decide-IsDecided, received-seen, marked-sees}

module _ {S C : Type 0} where
  seen_at : (i : Instance S C) (x : Text) → has_seen i x ≡ true → get i.seen x ≡ some true
  unfolding has_seen
  seen_at i x h = go (get i.seen x) h
    where
      go :
          (o : Option Bool)
          → (elim o as (λ _. Bool) [ none ↦ false | some b ↦ b ]) ≡ true
          → o ≡ some true
      go none e = absurd cc
      go (some true) e = refl
      go (some false) e = absurd cc

  put_keeps :
      (i : Instance S C) (id x : Text)
      → has_seen i x ≡ true
      → get (put i.seen id true) x ≡ some true
  put_keeps i id x h = elim (Bool-cases (id == x)) [
    | inl same ↦ rw (get-put i.seen id x true, same) refl
    | inr other ↦ rw (get-put i.seen id x true, other) (seen_at i x h)
  ]

module _ {St S C : Type 0} ⦃ev : DomainEvent SagaEvent⦄ ⦃cmds : Command C⦄ ⦃wire : WireCommand C⦄
    (r : Runner St S C) where
  -- The instance that process works on: the one that Load returns, or a new one where it fails.
  pub data Begins (id : Text) (s : St) : SagaInstance S C → Type 0 where
    loaded : {i : SagaInstance S C} → load_aggregate r.repo s id ≡ ok i → Begins id s i
    begun : {x : _} → load_aggregate r.repo s id ≡ err x → Begins id s (new_aggregate r.repo.zero)

  -- The events that a delivery may append have codecs that read back what they write.
  abbrev pub Readable : Extractor → Context → Text → Message → St → Type 0
  Readable ext ctx id msg s =
      (i k : SagaInstance S C)
      → Begins id s i
      → decide (command_metadata ext ctx msg) id msg i ≡ decided k
      → All (IsCodec r.repo.registry) (uncommitted_events k)

  -- What any number of deliveries make of a store, of any messages for any instances.
  pub data Later (s : St) : St → Type 0 where
    at_once : Later s s
    behind :
        {t : St} (ext : Extractor) (ctx : Context) (now : ℕ) (id : Text) (msg : Message)
        (heap : Positions)
        → Later s t
        → Readable ext ctx id msg t
        → Later s (process r ext ctx now id msg t heap).store

  module _ (ext : Extractor) (ctx : Context) (now : ℕ) (id : Text) (msg : Message) (s : St)
      (heap : Positions) where
    -- The store behind a delivery: as it was, or as a Save left it.
    pub data Leaves (p : Processed St) : Type 0 where
      kept : p.store ≡ s → Leaves p
      saved :
          (i k : SagaInstance S C)
          → Begins id s i
          → decide (command_metadata ext ctx msg) id msg i ≡ decided k
          → p.store ≡ (save_aggregate r.repo ext ctx now id s heap k).store
          → Leaves p

    saved_result-store :
        (t : St) (h : Positions) (res : Result (Unit {0})) → (saved_result t h res).store ≡ t
    saved_result-store t h (ok u) = refl
    saved_result-store t h (err x) = refl
    saved_result-store t h panic = refl

    save_decided-Leaves :
        (i : SagaInstance S C) (d : Decided S C)
        → Begins id s i
        → decide (command_metadata ext ctx msg) id msg i ≡ d
        → Leaves (save_decided r ext ctx now id s heap d)
    save_decided-Leaves i ignored b e = kept refl
    save_decided-Leaves i (failed x) b e = kept refl
    save_decided-Leaves i panicked b e = kept refl
    save_decided-Leaves i (decided k) b e = saved i k b e (saved_result-store _ _ _)

    after_load-Leaves :
        (q : Result (SagaInstance S C))
        → load_aggregate r.repo s id ≡ q
        → Leaves (after_load r ext ctx now id msg s heap q)
    unfolding after_load
    after_load-Leaves (ok i) h = save_decided-Leaves i _ (loaded h) refl
    after_load-Leaves (err x) h = elim (Bool-cases (errors_is x (domain err_not_found))) [
      | inl missing ↦ rw missing (save_decided-Leaves (new_aggregate r.repo.zero) _ (begun h) refl)
      | inr other ↦ rw other (kept refl)
    ]
    after_load-Leaves panic h = kept refl

    pub process-Leaves : Leaves (process r ext ctx now id msg s heap)
    unfolding process
    process-Leaves = after_load-Leaves (load_aggregate r.repo s id) refl

  -- A decision forgets no message that the instance has seen.
  pub decided_keeps :
      (ext : Extractor) (ctx : Context) (id : Text) (msg : Message) (i k : SagaInstance S C)
      (x : Text)
      → decide (command_metadata ext ctx msg) id msg i ≡ decided k
      → has_seen i.state x ≡ true
      → has_seen k.state x ≡ true
  decided_keeps ext ctx id msg i k x dec h =
      let d = decide-IsDecided (command_metadata ext ctx msg) id msg i k dec in
      ap (λ t. has_seen t x) d.state
      ∙ marked-sees d.handled_state.last_decisions.ends d.handled_state x (
          ap (λ m. get m x) (received-seen i.state d.handled_state msg d.handles)
          ∙ put_keeps i.state msg.id x h)
