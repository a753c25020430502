-- ===== src/O11y/Backlog/Lag.antt =====
-- o11y/backlog.go: what the relay's gauge counts over the in-memory store.
use gohex.Prelude.{ℕ, none}
use gohex.Prelude.Text.{Text}
use gohex.Kernel.Result.{Result}
use gohex.EventStore.Memory.{MemoryStore, memory_store}
use gohex.EventStore.Checkpoint.{CheckpointStore, CheckpointContract}
use gohex.O11y.Backlog.{Position, Meter, checkpoint_position, head_position}

-- A meter that fails neither call.
abbrev pub working_meter : Meter
working_meter = record { gauge_error = none; register_error = none }

module _ {K : Type 0} (cps : CheckpointStore K) {position : K → Text → ℕ}
    (c : CheckpointContract cps position) (name : Text) where
  -- The two sides of a relay's backlog, on the store and the checkpoints as they are together.
  abbrev pub head_side : Position (MemoryStore × K)
  head_side w = head_position memory_store w.0

  abbrev pub checkpoint_side : Position (MemoryStore × K)
  checkpoint_side w = checkpoint_position cps name w.1
