-- ===== src/EventStore/Checkpoint.antt =====
-- eventstore/checkpoint.go: named cursors on a sequence.
pub mod Laws
use gohex.Prelude.{ℕ, Option, none, some, [], ◌≡◌, if◌then◌else◌}
use gohex.Prelude.EqClass.{◌==◌}
use gohex.Prelude.Map.{Map, get, put}
use gohex.Prelude.Text.{Text, text_eq}
use gohex.Kernel.Result.{Result, ok}

-- The port over a store's state `C`.
pub record CheckpointStore (C : Type 0) : Type 0 where
  pub get_checkpoint : C → Text → Result ℕ
  pub set_checkpoint : C → Text → ℕ → C × Result (Unit {0})

pub record MemoryCheckpointStore : Type 0 where
  pub positions : Map Text ℕ

abbrev pub new_memory_checkpoint_store : MemoryCheckpointStore
new_memory_checkpoint_store = record { positions = [] }

-- A missing name reads as 0, Go's zero value.
unfoldable pub get_position : MemoryCheckpointStore → Text → Result ℕ
get_position s name = elim (get s.positions name) [ none ↦ ok 0 | some seq ↦ ok seq ]

unfoldable pub set_position :
    MemoryCheckpointStore → Text → ℕ → MemoryCheckpointStore × Result (Unit {0})
set_position s name seq = (record { positions = put s.positions name seq }, ok tt)

abbrev pub memory_checkpoints : CheckpointStore MemoryCheckpointStore
memory_checkpoints = record { get_checkpoint = get_position; set_checkpoint = set_position }

-- The contract of the port: Get returns what was last Set for the name, and 0 before.
pub record CheckpointContract {C : Type 0} (cs : CheckpointStore C) (position : C → Text → ℕ)
    : Type 0 where
  pub get_lem : (c : C) (name : Text) → cs.get_checkpoint c name ≡ ok (position c name)
  pub set_ok : (c : C) (name : Text) (seq : ℕ) → (cs.set_checkpoint c name seq).1 ≡ ok tt
  pub set_lem :
      (c : C) (name other : Text) (seq : ℕ)
      → position (cs.set_checkpoint c name seq).0 other
        ≡ (if name == other then seq else position c other)
