-- ===== src/EventStore/Checkpoint/Laws.antt =====
-- eventstore/checkpoint.go: the in-memory checkpoints and the contract of the port.
use gohex.Prelude.{ℕ, refl, none, some, arith}
use gohex.Prelude.Map.{get, get-put}
use gohex.Prelude.Text.{Text, text_eq}
use gohex.EventStore.Checkpoint.{
  MemoryCheckpointStore, get_position, set_position, memory_checkpoints, CheckpointContract,
}

-- What is stored for a name; 0 if nothing is.
abbrev pub stored : MemoryCheckpointStore → Text → ℕ
stored s name = elim (get s.positions name) [ none ↦ 0 | some seq ↦ seq ]

-- Get returns the position last set for the name and 0 for a name never set; Set succeeds, and
-- changes no other name.
pub memory_checkpoints-Contract : CheckpointContract memory_checkpoints stored
unfolding get_position set_position
memory_checkpoints-Contract = record {
  get_lem = λ c name. ground arith;
  set_ok = λ c name seq. refl;
  set_lem = λ c name other seq. ground (arith, get-put c.positions name other seq);
}
