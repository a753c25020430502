-- ===== src/Saga/Deliveries.antt =====
-- saga/runner.go: process on an instance of the store, and on one that has seen a message's ID.
pub mod Later
use gohex.Prelude.{
  ℕ, ◌≡◌, ◌≢◌, refl, sym, ap, ◌∙◌, Bool, true, false, ◌||◌, none, List, [], ◌∷◌, ◌++◌,
  append-ne-nil, All,
}
use gohex.Prelude.Text.{Text, text_eq, text_beq, lit}
use gohex.Kernel.Errors.{wrap, domain, errors_is}
use gohex.Kernel.Result.{ok, err}
use gohex.Kernel.Event.{DomainEvent}
use gohex.Kernel.Aggregate.{new_aggregate, rehydrate, take_uncommitted, uncommitted_events}
use gohex.Kernel.Aggregate.Replay.{rehydrate-IsReplay}
use gohex.EventStore.Types.{RecordedEvent, err_not_found}
use gohex.EventStore.Contract.{Contract, events_of}
use gohex.EventStore.Position.{Context, Positions, Extractor}
use gohex.EventStore.Repository.{
  Repository, load_aggregate, save_aggregate, stream_of, decode_all, rebuild,
}
use gohex.EventStore.Repository.RoundTrip.{Tracks, IsSaved, load-eq-rebuild, save_then_load}
use gohex.EventStore.Repository.RoundTrip.Codec.{IsCodec}
use gohex.EventStore.Repository.Concurrency.{load-Tracks}
use gohex.Cqrs.Command.{Command}
use gohex.Cqrs.Wire.{WireCommand}
use gohex.Broker.Message.{Message}
use gohex.Saga.{SagaEvent, event_received, Instance, has_seen, saga_applies}
use gohex.Saga.Runner.{SagaInstance, Runner, decided, decide}
use gohex.Saga.Runner.Process.{saved_result, save_decided, command_metadata, after_load, process}
use gohex.Saga.Decision.Outcome.{decide-IsDecided, decide_again}

module _ {S C : Type 0} where
  pub empty_history :
      (start : Instance S C)
      → rehydrate (new_aggregate {E = SagaEvent} start) [] ≡ (new_aggregate start, none)
  unfolding rehydrate
  empty_history start = refl

  rebuild-nil :
      {St : Type 0} (repo : Repository St (Instance S C) SagaEvent)
      → rebuild repo [] ≡ err (wrap (lit "stream") (domain err_not_found))
  unfolding rebuild
  rebuild-nil repo = refl

  pub taken_sees :
      (k : SagaInstance S C) (seen_id : Text)
      → has_seen k.state seen_id ≡ true
      → has_seen (take_uncommitted k).0.state seen_id ≡ true
  unfolding take_uncommitted
  taken_sees k seen_id h = h

pub append_received :
    (xs : List SagaEvent) (x : SagaEvent) (ys : List SagaEvent) (l : List SagaEvent)
    → l ≡ xs ++ (x ∷ ys)
    → l ≢ []
append_received xs x ys l e h = append-ne-nil xs (x ∷ ys) (λ k. cc) (sym e ∙ h)

not_found : errors_is (wrap (lit "stream") (domain err_not_found)) (domain err_not_found) ≡ true
unfolding errors_is text_beq
not_found = refl

module _ {St S C : Type 0} ⦃ev : DomainEvent SagaEvent⦄ ⦃cmds : Command C⦄ ⦃wire : WireCommand C⦄
    (r : Runner St S C) {IsValid : St → Type 0} {log : St → List RecordedEvent}
    (c : Contract r.repo.store IsValid log) (id : Text) where
  -- The instance that process works on: the one that Load returns, or a new one where the stream
  -- has no events.
  pub data Starts (s : St) : SagaInstance S C → Type 0 where
    existing : {i : SagaInstance S C} → load_aggregate r.repo s id ≡ ok i → Starts s i
    fresh : events_of (stream_of r.repo id) (log s) ≡ [] → Starts s (new_aggregate r.repo.zero)

  Starts-Tracks :
      (s : St) (i : SagaInstance S C) → IsValid s → Starts s i → Tracks r.repo (log s) id i
  unfolding decode_all
  Starts-Tracks s i v (existing h) = (load-Tracks r.repo c s id i v h).0
  Starts-Tracks s _ v (fresh h) = record {
    events = [];
    decoded = ap (decode_all r.repo.registry) h;
    replay =
        rehydrate-IsReplay r.repo.zero [] (new_aggregate r.repo.zero) (empty_history r.repo.zero);
  }

  Starts-after_load :
      (ext : Extractor) (ctx : Context) (now : ℕ) (msg : Message) (s : St) (heap : Positions)
      (i : SagaInstance S C)
      → IsValid s
      → Starts s i
      → process r ext ctx now id msg s heap
        ≡ save_decided r ext ctx now id s heap (decide (command_metadata ext ctx msg) id msg i)
  unfolding process after_load
  Starts-after_load ext ctx now msg s heap i v (existing h) =
      ap (after_load r ext ctx now id msg s heap) h
  Starts-after_load ext ctx now msg s heap _ v (fresh h) =
      ap (after_load r ext ctx now id msg s heap)
        (load-eq-rebuild r.repo c s id v ∙ ap (rebuild r.repo) h ∙ rebuild-nil r.repo)
      ∙ (rw not_found refl)

  -- What a redelivery meets.
  pub IsIgnored : St → Text → Type 0
  IsIgnored s seen_id =
      (ext : Extractor) (ctx : Context) (now : ℕ) (copy : Message) (heap : Positions)
      → copy.id ≡ seen_id
      → process r ext ctx now id copy s heap
        ≡ record { store = s; positions = heap; done = true; result = ok tt }

  either_true : (b : Bool) → b || true ≡ true
  either_true true = refl
  either_true false = refl

  -- A well-formed store whose instance has seen an ID.
  pub record Sees (s : St) (seen_id : Text) : Type 0 where
    pub valid : IsValid s
    pub inst : SagaInstance S C
    pub loads : load_aggregate r.repo s id ≡ ok inst
    pub seen : has_seen inst.state seen_id ≡ true

  pub Sees-IsIgnored : (s : St) (seen_id : Text) → Sees s seen_id → IsIgnored s seen_id
  unfolding IsIgnored
  Sees-IsIgnored s seen_id h ext ctx now copy heap same =
      let i = h.inst in
      Starts-after_load ext ctx now copy s heap i h.valid (existing h.loads)
      ∙ ap (save_decided r ext ctx now id s heap) (
          decide_again (command_metadata ext ctx copy) id copy i (
            ap (λ x. i.state.ended || has_seen i.state x) same
            ∙ ap (λ b. i.state.ended || b) h.seen
            ∙ either_true i.state.ended))

  -- A decided delivery for the instance, with its Save.
  pub saves-IsSaved :
      (ext : Extractor) (ctx : Context) (now : ℕ) (msg : Message) (s : St) (heap : Positions)
      (i k : SagaInstance S C)
      → IsValid s
      → Starts s i
      → decide (command_metadata ext ctx msg) id msg i ≡ decided k
      → All (IsCodec r.repo.registry) (uncommitted_events k)
      → IsSaved r.repo IsValid log ctx id s heap k (save_aggregate r.repo ext ctx now id s heap k)
  saves-IsSaved ext ctx now msg s heap i k v starts dec codec =
      let d = decide-IsDecided (command_metadata ext ctx msg) id msg i k dec in
      let t = Starts-Tracks s i v starts in
      save_then_load r.repo c ext ctx now id s heap k v
        (record {
          events = t.events;
          decoded = t.decoded;
          replay = d.replay r.repo.zero t.events t.replay;
        })
        (append_received (uncommitted_events i) (event_received msg) _ (uncommitted_events k)
          d.pending)
        codec

  pub process-saved :
      (ext : Extractor) (ctx : Context) (now : ℕ) (msg : Message) (s : St) (heap : Positions)
      (i k : SagaInstance S C)
      → IsValid s
      → Starts s i
      → decide (command_metadata ext ctx msg) id msg i ≡ decided k
      → IsSaved r.repo IsValid log ctx id s heap k (save_aggregate r.repo ext ctx now id s heap k)
      → let saved = save_aggregate r.repo ext ctx now id s heap k in
        process r ext ctx now id msg s heap
        ≡ record { store = saved.store; positions = saved.positions; done = true; result = ok tt }
  process-saved ext ctx now msg s heap i k v starts dec saves =
      let saved = save_aggregate r.repo ext ctx now id s heap k in
      Starts-after_load ext ctx now msg s heap i v starts
      ∙ ap (save_decided r ext ctx now id s heap) dec
      ∙ ap (saved_result saved.store saved.positions) saves.succeeds
