-- ===== src/Projection/Runners.antt =====
-- projection/catchup.go, projection/inbox.go: the two runners, one iteration of whose loops is a
-- step. A run is over the logs as each iteration finds them.
pub mod Log
pub mod Order
use gohex.Prelude.{ℕ, Bool, ◌||◌, Option, none, some, List, [], ◌∷◌, last?, if◌then◌else◌}
use gohex.Prelude.Map.{get}
use gohex.Prelude.Text.{Text, text_eq, lit}
use gohex.Kernel.Errors.{Error, wrap}
use gohex.Kernel.Result.{Result, ok, err, panic}
use gohex.EventStore.Types.{RecordedEvent, Store}
use gohex.EventStore.Contract.{seq_of_last}
use gohex.EventStore.Registry.{Registry, decode}
use gohex.EventStore.Checkpoint.{CheckpointStore}
use gohex.Projection.{
  Projection, Meta, Config, with_defaults, integration_key, store_checkpoint, inbox_checkpoint,
}
use gohex.Projection.Inbox.{Inbox, InboxMessage}

pub record CatchUp (S W E K : Type 0) : Type 0 where
  pub projection : Projection W E
  pub store : Store S
  pub registry : Registry E
  pub checkpoints : CheckpointStore K
  pub cfg : Config

unfoldable pub new_catch_up :
    {S W E K : Type 0}
    → Projection W E
    → Store S
    → Registry E
    → CheckpointStore K
    → Config
    → CatchUp S W E K
unfolding with_defaults
new_catch_up p store registry checkpoints cfg = record {
  projection = p;
  store = store;
  registry = registry;
  checkpoints = checkpoints;
  cfg = with_defaults cfg;
}

pub record InboxReader (N W E K : Type 0) : Type 0 where
  pub projection : Projection W E
  pub inbox : Inbox N
  pub checkpoints : CheckpointStore K
  pub cfg : Config

unfoldable pub new_inbox_reader :
    {N W E K : Type 0} → Projection W E → Inbox N → CheckpointStore K → Config → InboxReader N W E K
unfolding with_defaults
new_inbox_reader p inbox checkpoints cfg = record {
  projection = p;
  inbox = inbox;
  checkpoints = checkpoints;
  cfg = with_defaults cfg;
}

-- What an iteration meets: the log at its read, whether the context has ended at its start or by
-- the time a read failed, and whether it ends in the idle wait.
pub record Turn (L : Type 0) : Type 0 where
  pub log : L
  pub cancelled : Bool
  pub cancelled_in_read : Bool
  pub cancelled_in_wait : Bool

pub data Step (W K : Type 0) : Type 0 where
  next : ℕ → W → K → Step W K
  return_nil : W → K → Step W K
  return_err : W → K → Error → Step W K
  panicked : W → K → Step W K

-- The read tables, and the error or panic that ended the loop over a batch.
pub data Applied (W : Type 0) : Type 0 where
  applied : W → Applied W
  failed : W → Error → Applied W
  aborted : W → Applied W

module _ {W : Type 0} where
  abbrev pub and_then : (W → Applied W) → W × Option Error → Applied W
  and_then rest (w, none) = rest w
  and_then rest (w, some x) = failed w (wrap (lit "handling") x)

module _ {S W E K : Type 0} (c : CatchUp S W E K) where
  abbrev pub handle_decoded :
      W → RecordedEvent → (W → E → Meta → W × Option Error) → (W → Applied W) → Result E → Applied W
  handle_decoded w rec handler rest (ok event) = and_then rest (
      handler w event (record {
        stream = rec.stream;
        version = rec.version;
        global_seq = rec.global_seq;
        occurred_at = rec.occurred_at;
        metadata = rec.metadata;
      }))
  handle_decoded w rec handler rest (err x) = failed w (wrap (lit "projection") x)
  handle_decoded w rec handler rest panic = aborted w

  -- The loop over a batch of own events; an event without a handler is not decoded.
  unfoldable pub apply_events : List RecordedEvent → W → Applied W
  apply_events [] w = applied w
  apply_events (rec ∷ recs) w = elim (get c.projection.domain_handlers rec.event_name) [
    | none ↦ apply_events recs w
    | some handler ↦
        handle_decoded w rec handler (λ w'. apply_events recs w') (decode c.registry rec)
  ]

module _ {N W E K : Type 0} (r : InboxReader N W E K) where
  -- The loop over a batch of foreign messages.
  unfoldable pub apply_messages : List InboxMessage → W → Applied W
  unfolding integration_key
  apply_messages [] w = applied w
  apply_messages (m ∷ ms) w =
      elim (get r.projection.foreign_handlers
        (integration_key m.message.type_name m.message.version)) [
          | none ↦ apply_messages ms w
          | some handler ↦ and_then (λ w'. apply_messages ms w') (handler w m.message)
        ]

module _ {W K : Type 0} where
  abbrev pub checkpointed : W → ℕ → K × Result (Unit {0}) → Step W K
  checkpointed w seq (k, ok u) = next seq w k
  checkpointed w seq (k, err e) = return_err w k (wrap (lit "checkpoint") e)
  checkpointed w seq (k, panic) = panicked w k

  -- The end of an iteration, with the outcome of its batch.
  abbrev pub commit : CheckpointStore K → Text → ℕ → K → Applied W → Step W K
  commit cps name seq k (applied w) = checkpointed w seq (cps.set_checkpoint k name seq)
  commit cps name seq k (failed w e) = return_err w k e
  commit cps name seq k (aborted w) = panicked w k

  abbrev pub and_on : (ℕ → W → K → Step W K) → Step W K → Step W K
  and_on rest (next seq w k) = rest seq w k
  and_on rest (return_nil w k) = return_nil w k
  and_on rest (return_err w k e) = return_err w k e
  and_on rest (panicked w k) = panicked w k

  -- What both runners do around the batch: `read` is ReadAll, `process` the loop over what it
  -- returned with the position of the last item.
  unfoldable pub iterate :
      {L A : Type 0}
      → Turn L
      → Result (List A)
      → (List A → Applied W)
      → (List A → ℕ)
      → CheckpointStore K
      → Text
      → ℕ
      → W
      → K
      → Step W K
  iterate turn (ok []) process last cps name seq w k =
      if turn.cancelled
      then return_nil w k
      else if turn.cancelled_in_wait
      then return_nil w k
      else next seq w k
  iterate turn (ok (x ∷ xs)) process last cps name seq w k =
      if turn.cancelled
      then return_nil w k
      else commit cps name (last (x ∷ xs)) k (process (x ∷ xs))
  iterate turn (err e) process last cps name seq w k =
      if turn.cancelled || turn.cancelled_in_read
      then return_nil w k
      else return_err w k (wrap (lit "read") e)
  iterate turn panic process last cps name seq w k =
      if turn.cancelled then return_nil w k else panicked w k

abbrev pub seq_of_last_message : Option InboxMessage → ℕ
seq_of_last_message none = 0
seq_of_last_message (some m) = m.seq

module _ {S W E K : Type 0} (c : CatchUp S W E K) where
  -- The loop of CatchUp.Run, as far as the turns go.
  unfoldable pub catch_up_loop : List (Turn S) → ℕ → W → K → Step W K
  unfolding iterate apply_events store_checkpoint
  catch_up_loop [] seq w k = next seq w k
  catch_up_loop (turn ∷ turns) seq w k =
      and_on (λ seq' w' k'. catch_up_loop turns seq' w' k')
        (iterate turn (c.store.read_all turn.log seq c.cfg.batch_size)
          (λ recs. apply_events c recs w) (λ recs. seq_of_last (last? recs)) c.checkpoints
          (store_checkpoint c.projection) seq w k)

module _ {N W E K : Type 0} (r : InboxReader N W E K) where
  -- The loop of InboxReader.Run, as far as the turns go.
  unfoldable pub inbox_loop : List (Turn N) → ℕ → W → K → Step W K
  unfolding iterate apply_messages inbox_checkpoint
  inbox_loop [] seq w k = next seq w k
  inbox_loop (turn ∷ turns) seq w k =
      and_on (λ seq' w' k'. inbox_loop turns seq' w' k')
        (iterate turn (r.inbox.read_all turn.log seq r.cfg.batch_size) (λ ms. apply_messages r ms w)
          (λ ms. seq_of_last_message (last? ms)) r.checkpoints (inbox_checkpoint r.projection) seq w
          k)

module _ {W K : Type 0} where
  abbrev started : (ℕ → W → K → Step W K) → W → K → Result ℕ → Step W K
  started loop w k (ok seq) = loop seq w k
  started loop w k (err e) = return_err w k (wrap (lit "projection") e)
  started loop w k panic = panicked w k

unfoldable pub run_catch_up :
    {S W E K : Type 0} → CatchUp S W E K → List (Turn S) → W → K → Step W K
unfolding catch_up_loop store_checkpoint
run_catch_up c turns w k =
    started (λ seq w' k'. catch_up_loop c turns seq w' k') w k
      (c.checkpoints.get_checkpoint k (store_checkpoint c.projection))

unfoldable pub run_inbox_reader :
    {N W E K : Type 0} → InboxReader N W E K → List (Turn N) → W → K → Step W K
unfolding inbox_loop inbox_checkpoint
run_inbox_reader r turns w k =
    started (λ seq w' k'. inbox_loop r turns seq w' k') w k
      (r.checkpoints.get_checkpoint k (inbox_checkpoint r.projection))
