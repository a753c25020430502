-- ===== src/Saga/Redelivery.antt =====
-- saga/runner.go: process on a message that comes again, after any other deliveries.
use gohex.Prelude.{
  ℕ, ◌≡◌, ◌≢◌, refl, sym, subst, ap, ◌∙◌, true, List, [], ◌∷◌, All, inl, inr, Bool-cases, length,
  arith,
}
use gohex.Prelude.EqClass.{◌==◌}
use gohex.Prelude.Text.{Text, text_eq, text_beq_iff}
use gohex.Kernel.Result.{Result, ok, err}
use gohex.Kernel.Event.{DomainEvent}
use gohex.Kernel.Aggregate.{new_aggregate, version, take_uncommitted, uncommitted_events}
use gohex.Kernel.Aggregate.Replay.{rehydrate-IsReplay}
use gohex.EventStore.Types.{RecordedEvent}
use gohex.EventStore.Contract.{Contract, events_of}
use gohex.EventStore.Position.{Context, Positions, Extractor}
use gohex.EventStore.Repository.{load_aggregate, save_aggregate, stream_of}
use gohex.EventStore.Repository.RoundTrip.{IsSaved}
use gohex.EventStore.Repository.RoundTrip.Codec.{IsCodec}
use gohex.EventStore.Repository.Concurrency.{save_stale}
use gohex.Cqrs.Command.{Command}
use gohex.Cqrs.Wire.{WireCommand}
use gohex.Broker.Message.{Message}
use gohex.Saga.{SagaEvent, event_received, has_seen, saga_applies}
use gohex.Saga.Runner.{SagaInstance, Runner, decided, decide}
use gohex.Saga.Runner.Process.{Processed, command_metadata, process}
use gohex.Saga.Decision.Outcome.{IsDecided, decide-IsDecided}
use gohex.Saga.Deliveries.{
  empty_history, append_received, taken_sees, Starts, existing, fresh, Sees, IsIgnored,
  Sees-IsIgnored, saves-IsSaved, process-saved,
}
use gohex.Saga.Deliveries.Later.{
  loaded, begun, Readable, Later, at_once, behind, Leaves, kept, saved, process-Leaves,
  decided_keeps,
}

module _ {St S C : Type 0} ⦃ev : DomainEvent SagaEvent⦄ ⦃cmds : Command C⦄ ⦃wire : WireCommand C⦄
    (r : Runner St S C) where
  module _ {IsValid : St → Type 0} {log : St → List RecordedEvent}
      (c : Contract r.repo.store IsValid log) (watched seen_id : Text) where
    abbrev Watched : St → Type 0
    Watched s = Sees r c watched s seen_id

    module _ (ext : Extractor) (ctx : Context) (now : ℕ) (id : Text) (msg : Message) (s : St)
        (heap : Positions) (i k : SagaInstance S C)
        (dec : decide (command_metadata ext ctx msg) id msg i ≡ decided k) (h : Watched s) where
      abbrev after : St
      after = (save_aggregate r.repo ext ctx now id s heap k).store

      -- The Save of another instance.
      other-Watched :
          id ≢ watched
          → IsSaved r.repo IsValid log ctx id s heap k
              (save_aggregate r.repo ext ctx now id s heap k)
          → Watched after
      other-Watched ne sv = record {
        valid = sv.valid;
        inst = h.inst;
        loads = sv.others watched ne ∙ h.loads;
        seen = h.seen;
      }

      -- The Save of the instance itself.
      own-Watched :
          id ≡ watched
          → load_aggregate r.repo s id ≡ ok i
          → IsSaved r.repo IsValid log ctx id s heap k
              (save_aggregate r.repo ext ctx now id s heap k)
          → Watched after
      own-Watched e l sv =
          let same : load_aggregate r.repo s watched ≡ ok i = rw (← e) l in
          let sees : has_seen i.state seen_id ≡ true =
            ap (λ (a : SagaInstance S C). has_seen a.state seen_id)
              (loaded_same _ i h.inst same h.loads)
            ∙ h.seen in
          record {
            valid = sv.valid;
            inst = (take_uncommitted k).0;
            loads = ap (load_aggregate r.repo after) (sym e) ∙ sv.loads ∙ ap ok sv.committed;
            seen = taken_sees k seen_id (decided_keeps r ext ctx id msg i k seen_id dec sees);
          }
        where
          loaded_same :
              (q : Result (SagaInstance S C)) (a b : SagaInstance S C) → q ≡ ok a → q ≡ ok b → a ≡ b
          loaded_same q a b f g = cc

      loaded-Watched :
          load_aggregate r.repo s id ≡ ok i
          → All (IsCodec r.repo.registry) (uncommitted_events k)
          → Watched after
      loaded-Watched l codec =
          let sv = saves-IsSaved r c id ext ctx now msg s heap i k h.valid (existing l) dec codec in
          elim (Bool-cases (id == watched)) [
            | inl same ↦ own-Watched ((text_beq_iff id watched).0 same) l sv
            | inr other ↦ other-Watched (λ e. cc ((text_beq_iff id watched).1 e)) sv
          ]

    -- A new instance: its stream is empty, or its Save is refused.
    begun-Watched :
        (ext : Extractor) (ctx : Context) (now : ℕ) (id : Text) (msg : Message) (s : St)
        (heap : Positions) (k : SagaInstance S C) (x : _)
        → decide (command_metadata ext ctx msg) id msg (new_aggregate r.repo.zero) ≡ decided k
        → Watched s
        → load_aggregate r.repo s id ≡ err x
        → All (IsCodec r.repo.registry) (uncommitted_events k)
        → Watched (save_aggregate r.repo ext ctx now id s heap k).store
    unfolding version uncommitted_events
    begun-Watched ext ctx now id msg s heap k x dec h l codec =
        go (events_of (stream_of r.repo id) (log s)) refl
      where
        i : SagaInstance S C
        i = new_aggregate r.repo.zero

        d : IsDecided (command_metadata ext ctx msg) id msg i k
        d = decide-IsDecided (command_metadata ext ctx msg) id msg i k dec

        fresh_version : k.root.version ≡ 0
        fresh_version =
            (d.replay r.repo.zero []
              (rehydrate-IsReplay r.repo.zero [] i (empty_history r.repo.zero))).version

        go :
            (l' : List RecordedEvent)
            → events_of (stream_of r.repo id) (log s) ≡ l'
            → Watched (save_aggregate r.repo ext ctx now id s heap k).store
        go [] e =
            other-Watched ext ctx now id msg s heap i k dec h
              (λ same. let there : load_aggregate r.repo s id ≡ ok h.inst = rw same h.loads in cc)
              (saves-IsSaved r c id ext ctx now msg s heap i k h.valid (fresh e) dec codec)
        go (y ∷ ys) e =
            let refused =
              save_stale r.repo c ext ctx now id s heap k h.valid
                (λ v. absurd (omega (arith, v, fresh_version, ap (λ m. length m) e)))
                (append_received [] (event_received msg) _ (uncommitted_events k) d.pending)
                codec in
            subst Watched (sym (ap (λ sv. sv.store) refused.outcome)) h

    Leaves-Watched :
        (ext : Extractor) (ctx : Context) (now : ℕ) (id : Text) (msg : Message) (s : St)
        (heap : Positions) (p : Processed St)
        → Watched s
        → Readable r ext ctx id msg s
        → Leaves r ext ctx now id msg s heap p
        → Watched p.store
    Leaves-Watched ext ctx now id msg s heap p h reads (kept e) = subst Watched (sym e) h
    Leaves-Watched ext ctx now id msg s heap p h reads (saved i k (loaded l) dec e) =
        subst Watched (sym e)
          (loaded-Watched ext ctx now id msg s heap i k dec h l (reads i k (loaded l) dec))
    Leaves-Watched ext ctx now id msg s heap p h reads (saved _ k (begun l) dec e) =
        subst Watched (sym e)
          (begun-Watched ext ctx now id msg s heap k _ dec h l (reads _ k (begun l) dec))

    Later-Watched : {s t : St} → Later r s t → Watched s → Watched t
    Later-Watched at_once h = h
    Later-Watched (behind {t} ext ctx now id msg heap l reads) h =
        Leaves-Watched ext ctx now id msg t heap (process r ext ctx now id msg t heap)
          (Later-Watched l h) reads (process-Leaves r ext ctx now id msg t heap)

module _ {St S C : Type 0} ⦃ev : DomainEvent SagaEvent⦄ ⦃cmds : Command C⦄
    ⦃wire : WireCommand C⦄ where
  -- A saga delivers a message to an instance at most once. Where process decides on a message and
  -- the events it decides have codecs that read back what they write, the one append succeeds and
  -- the delivery is done with nil. Whatever deliveries of any messages, for this instance or others,
  -- the runner processes behind it, where the events that they decide have such codecs too: another
  -- delivery of a message with the first one's ID, whatever its contents and its context, is then
  -- acknowledged with the store and the positions as they are. The instance may be new or loaded,
  -- and the store is any that keeps the port's contract.
  pub redelivery-IsIgnored :
      (r : Runner St S C) {IsValid : St → Type 0} {log : St → List RecordedEvent}
      (c : Contract r.repo.store IsValid log) (ext : Extractor) (ctx : Context) (now : ℕ)
      (id : Text) (msg : Message) (s : St) (heap : Positions) (i k : SagaInstance S C)
      → IsValid s
      → Starts r c id s i
      → decide (command_metadata ext ctx msg) id msg i ≡ decided k
      → All (IsCodec r.repo.registry) (uncommitted_events k)
      → (t : St) → Later r (process r ext ctx now id msg s heap).store t
      → let p = process r ext ctx now id msg s heap in
        (p.result ≡ ok tt) × (p.done ≡ true) × IsIgnored r c id t msg.id
  redelivery-IsIgnored r c ext ctx now id msg s heap i k v starts dec codec t later =
      let d = decide-IsDecided (command_metadata ext ctx msg) id msg i k dec in
      let sv = saves-IsSaved r c id ext ctx now msg s heap i k v starts dec codec in
      let whole = process-saved r c id ext ctx now msg s heap i k v starts dec sv in
      let first : Sees r c id (save_aggregate r.repo ext ctx now id s heap k).store msg.id =
        record {
          valid = sv.valid;
          inst = (take_uncommitted k).0;
          loads = sv.loads ∙ ap ok sv.committed;
          seen = taken_sees k msg.id d.sees;
        } in
      (
        ap (λ (p : Processed St). p.result) whole,
        ap (λ (p : Processed St). p.done) whole,
        Sees-IsIgnored r c id t msg.id (
            Later-Watched r c id msg.id later (
              subst (λ u. Sees r c id u msg.id) (sym (ap (λ (p : Processed St). p.store) whole))
                first)),
      )
