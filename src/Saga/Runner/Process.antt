-- ===== src/Saga/Runner/Process.antt =====
-- saga/runner.go: process, and the bounded retries on a version conflict.
use gohex.Prelude.{ℕ, zero, suc, Bool, true, false, ◌||◌, none, some, [], inl, inr, if◌then◌else◌}
use gohex.Prelude.Map.{get}
use gohex.Prelude.Text.{Text, text_eq, is_empty}
use gohex.Kernel.Errors.{domain, version_conflict, errors_is}
use gohex.Kernel.Result.{Result, ok, err, panic}
use gohex.Kernel.Event.{DomainEvent}
use gohex.EventStore.Types.{Metadata, err_not_found}
use gohex.EventStore.Position.{Context, Positions, Extractor, metadata_from_context}
use gohex.EventStore.Repository.{load_aggregate, save_aggregate}
use gohex.Cqrs.Command.{Command}
use gohex.Cqrs.Wire.{WireCommand}
use gohex.Broker.Message.{Message}
use gohex.Saga.{event_key, SagaEvent, saga_applies}
use gohex.Saga.Runner.{SagaInstance, Runner, Decided, decide, ignored, failed, panicked, decided}

-- What process leaves behind: the store, the captured positions, and what it returns.
pub record Processed (St : Type 0) : Type 0 where
  pub store : St
  pub positions : Positions
  pub done : Bool
  pub result : Result (Unit {0})

module _ {St : Type 0} where
  -- The end of process, with the outcome of Save.
  abbrev pub saved_result : St → Positions → Result (Unit {0}) → Processed St
  saved_result s heap (ok u) = record { store = s; positions = heap; done = true; result = ok u }
  saved_result s heap (err x) = record {
    store = s;
    positions = heap;
    done = if errors_is x version_conflict then false else true;
    result = err x;
  }
  saved_result s heap panic = record { store = s; positions = heap; done = true; result = panic }

-- The metadata of the decided commands.
abbrev pub command_metadata : Extractor → Context → Message → Metadata
command_metadata ext ctx msg = elim (metadata_from_context ext ctx) [
  | none ↦ msg.metadata
  | some md ↦ some md
]

abbrev pub is_ok : Result (Unit {0}) → Bool
is_ok (ok u) = true
is_ok (err x) = false
is_ok panic = false

module _ {St S C : Type 0} ⦃ev : DomainEvent SagaEvent⦄ where
  abbrev pub save_decided :
      Runner St S C → Extractor → Context → ℕ → Text → St → Positions → Decided S C → Processed St
  save_decided r ext ctx now id s heap ignored = record {
    store = s;
    positions = heap;
    done = true;
    result = ok tt;
  }
  save_decided r ext ctx now id s heap (failed x) = record {
    store = s;
    positions = heap;
    done = true;
    result = err x;
  }
  save_decided r ext ctx now id s heap panicked = record {
    store = s;
    positions = heap;
    done = true;
    result = panic;
  }
  save_decided r ext ctx now id s heap (decided inst) =
      let saved = save_aggregate r.repo ext ctx now id s heap inst in
      saved_result saved.store saved.positions saved.result

module _ {St S C : Type 0} ⦃ev : DomainEvent SagaEvent⦄ ⦃cmds : Command C⦄
    ⦃wire : WireCommand C⦄ where
  -- What follows Load; a missing stream is a new instance.
  unfoldable pub after_load :
      Runner St S C
      → Extractor
      → Context
      → ℕ
      → Text
      → Message
      → St
      → Positions
      → Result (SagaInstance S C)
      → Processed St
  unfolding decide
  after_load r ext ctx now id msg s heap (ok inst) =
      save_decided r ext ctx now id s heap (decide (command_metadata ext ctx msg) id msg inst)
  after_load r ext ctx now id msg s heap (err x) =
      if errors_is x (domain err_not_found)
      then save_decided r ext ctx now id s heap (
          decide (command_metadata ext ctx msg) id msg
            (record { root = record { version = 0; pending = [] }; state = r.repo.zero }))
      else record { store = s; positions = heap; done = true; result = err x }
  after_load r ext ctx now id msg s heap panic = record {
    store = s;
    positions = heap;
    done = true;
    result = panic;
  }

  unfoldable pub process :
      Runner St S C → Extractor → Context → ℕ → Text → Message → St → Positions → Processed St
  unfolding after_load
  process r ext ctx now id msg s heap =
      after_load r ext ctx now id msg s heap (load_aggregate r.repo s id)

  -- The loop of Handler over its attempts: `attempts` are left behind the next one, and `others` is
  -- what other writers do to the store before each.
  unfoldable pub attempt_loop :
      Runner St S C
      → Extractor
      → Context
      → (ℕ → ℕ)
      → (ℕ → St → St)
      → Text
      → Message
      → ℕ
      → ℕ
      → St
      → Positions
      → Processed St
  unfolding process
  attempt_loop r ext ctx clock others id msg zero n s heap =
      process r ext ctx (clock n) id msg (others n s) heap
  attempt_loop r ext ctx clock others id msg (suc attempts) n s heap =
      let p = process r ext ctx (clock n) id msg (others n s) heap in
      let again = attempt_loop r ext ctx clock others id msg attempts (suc n) p.store p.positions in
      if is_ok p.result || p.done then p else again

  -- The func that Handler returns.
  unfoldable pub handle :
      Runner St S C
      → Extractor
      → Context
      → (ℕ → ℕ)
      → (ℕ → St → St)
      → Message
      → St
      → Positions
      → Processed St
  unfolding attempt_loop event_key
  handle r ext ctx clock others msg s heap =
      let ack : Processed St = record {
        store = s;
        positions = heap;
        done = true;
        result = ok tt;
      } in
      elim (get r.def.handlers (event_key msg.type_name msg.version)) [
        | none ↦ ack
        | some handler ↦ elim (handler.correlate msg) [
          | inr x ↦ ack
          | inl id ↦
              if is_empty id
              then ack
              else attempt_loop r ext ctx clock others id msg r.conflict_retries 0 s heap
        ]
      ]
