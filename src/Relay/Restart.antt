-- ===== src/Relay/Restart.antt =====
-- relay/relay.go: runs of a relay over a growing store, and restarts behind them.
use gohex.Prelude.{ℕ, ◌≡◌, refl, sym, ap, ◌∙◌, subst, List, [], ◌∷◌, ◌++◌}
use gohex.Prelude.Text.{Text}
use gohex.Kernel.Result.{ok}
use gohex.EventStore.Types.{RecordedEvent}
use gohex.EventStore.Contract.{Contract, behind, limited, IncreasingFrom}
use gohex.EventStore.Checkpoint.{CheckpointContract}
use gohex.Broker.Message.{Message, IntegrationEvent}
use gohex.Relay.{Relay, Turn, Step, next, return_nil, return_err, panicked, and_on}
use gohex.Relay.Run.{poll, run_loop, started, run}
use gohex.Relay.Publishing.{Accepts}
use gohex.Relay.Delivery.{Growing, still, grown, left_behind, IsSafe, IsSafe-grows}
use gohex.Relay.Delivery.Iteration.{Outcome, poll-Outcome}

module _ {S B K E I : Type 0} ⦃ie : IntegrationEvent I⦄ (r : Relay S B K E I)
    (Has : B → Text → Message → Type 0) (position : K → Text → ℕ) (IsValid : S → Type 0)
    (log : S → List RecordedEvent) (store : Contract r.store IsValid log)
    (laws : Accepts r.publisher Has) (checkpoints : CheckpointContract r.checkpoints position) where
  IsSafeStep : List RecordedEvent → Step B K → Type 0
  IsSafeStep l s = IsSafe r Has position l (left_behind s).0 (left_behind s).1

  -- The log that a turn reads.
  IsSafe-later :
      (before last : List RecordedEvent) (turns : List (Turn S)) (b : B) (k : K)
      → Growing IsValid log before turns last
      → IsSafe r Has position before b k
      → IsSafe r Has position last b k
  IsSafe-later before last turns b k still h = h
  IsSafe-later before last (_ ∷ turns) b k (grown turn more valid e later) h =
      IsSafe-later (before ++ more) last turns b k later (
        IsSafe-grows r Has position before more b k
          (subst (IncreasingFrom 0) e (store.log-IsLog turn.store valid).increasing) h)

  loop-IsSafe :
      (before last : List RecordedEvent) (turns : List (Turn S)) (seq : ℕ) (b : B) (k : K)
      → Growing IsValid log before turns last
      → seq ≡ position k r.cfg.name
      → IsSafe r Has position before b k
      → IsSafe r Has position last
          (left_behind (run_loop r turns seq b k)).0
          (left_behind (run_loop r turns seq b k)).1
  unfolding run_loop
  loop-IsSafe before last [] seq b k still at h = h
  loop-IsSafe before last (_ ∷ turns) seq b k (grown turn more valid e later) at h =
      on (poll r turn seq b k)
        (poll-Outcome r Has position laws checkpoints (before ++ more) inc turn seq b k
          (store.read_all_lem turn.store seq r.cfg.batch_size valid
            ∙ ap (λ l. ok (limited r.cfg.batch_size (behind seq l))) e)
          at (IsSafe-grows r Has position before more b k inc h))
        (λ seq' b' k' at' h'. loop-IsSafe (before ++ more) last turns seq' b' k' later at' h')
    where
      inc : IncreasingFrom 0 (before ++ more)
      inc = subst (IncreasingFrom 0) e (store.log-IsLog turn.store valid).increasing

      on :
          (s : Step B K)
          → Outcome r Has position laws checkpoints (before ++ more) inc s
          → ((seq' : ℕ) (b' : B) (k' : K)
              → seq' ≡ position k' r.cfg.name
              → IsSafe r Has position (before ++ more) b' k'
              → IsSafe r Has position last
                  (left_behind (run_loop r turns seq' b' k')).0
                  (left_behind (run_loop r turns seq' b' k')).1)
          → IsSafe r Has position last
              (left_behind (and_on (λ seq' b' k'. run_loop r turns seq' b' k') s)).0
              (left_behind (and_on (λ seq' b' k'. run_loop r turns seq' b' k') s)).1
      on (next seq' b' k') o f = f seq' b' k' o.0 o.1
      on (return_nil b' k') o f = IsSafe-later (before ++ more) last turns b' k' later o
      on (return_err b' k' x) o f = IsSafe-later (before ++ more) last turns b' k' later o
      on (panicked b' k') o f = IsSafe-later (before ++ more) last turns b' k' later o

-- The relay never loses an event: over a store, a broker and checkpoints that keep their
-- contracts, each run takes a state in which every event of the log up to the stored checkpoint has
-- its message at the broker to such a state, for the log as it has grown by then. That holds
-- however the run ends, with the context, an error, a decoder's panic or in the midst of the loop,
-- so that a restart from the checkpoint misses nothing.
pub run-IsSafe :
    {S B K E I : Type 0} ⦃ie : IntegrationEvent I⦄ (r : Relay S B K E I)
    (Has : B → Text → Message → Type 0) (position : K → Text → ℕ) (IsValid : S → Type 0)
    (log : S → List RecordedEvent)
    → Contract r.store IsValid log
    → Accepts r.publisher Has
    → CheckpointContract r.checkpoints position
    → (before last : List RecordedEvent) (turns : List (Turn S)) (b : B) (k : K)
    → Growing IsValid log before turns last
    → IsSafe r Has position before b k
    → IsSafe r Has position last (left_behind (run r turns b k)).0 (left_behind (run r turns b k)).1
unfolding run
run-IsSafe r Has position IsValid log store laws checkpoints before last turns b k grows h =
    subst
      (λ q.
        IsSafe r Has position last (left_behind (started r turns b k q)).0
          (left_behind (started r turns b k q)).1)
      (sym (checkpoints.get_lem k r.cfg.name))
      (loop-IsSafe r Has position IsValid log store laws checkpoints before last turns
        (position k r.cfg.name) b k grows refl h)
