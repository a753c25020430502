-- ===== src/EventStore/Postgres/Checkpoints.antt =====
-- eventstore-postgres/checkpoints.go: the statements of the checkpoint store, on the rows of its
-- table. The column updated_at, which no statement reads, is left out.
use gohex.Prelude.{ℕ, ◌≡◌, refl, Option, none, some, inl, inr, Bool-cases}
use gohex.Prelude.EqClass.{◌==◌}
use gohex.Prelude.Map.{Map, get, put, get-put}
use gohex.Prelude.Text.{Text, text_eq, lit}
use gohex.Kernel.Errors.{Error, wrap}
use gohex.Kernel.Result.{Result, ok, err}
use gohex.EventStore.Checkpoint.{CheckpointStore, CheckpointContract}

-- The table checkpoints, by its primary key.
abbrev pub CheckpointTable : Type 0
CheckpointTable = Map Text ℕ

module _ (fault : CheckpointTable → Option Error) where
  abbrev pub seq_or_zero : Option ℕ → ℕ
  seq_or_zero none = 0
  seq_or_zero (some seq) = seq

  unfoldable pub get_row : CheckpointTable → Text → Result ℕ
  get_row t name = elim (fault t) [
    | some x ↦ err (wrap (lit "espostgres: checkpoint get") x)
    | none ↦ ok (seq_or_zero (get t name))
  ]

  unfoldable pub set_row : CheckpointTable → Text → ℕ → CheckpointTable × Result (Unit {0})
  set_row t name seq = elim (fault t) [
    | some x ↦ (t, err (wrap (lit "espostgres: checkpoint set") x))
    | none ↦ (put t name seq, ok tt)
  ]

  abbrev pub postgres_checkpoints : CheckpointStore CheckpointTable
  postgres_checkpoints = record { get_checkpoint = get_row; set_checkpoint = set_row }

  -- The checkpoint store meets the port's contract where the database does not fail.
  pub postgres_checkpoints-Contract :
      ((t : CheckpointTable) → fault t ≡ none)
      → CheckpointContract postgres_checkpoints (λ t name. seq_or_zero (get t name))
  unfolding get_row set_row
  postgres_checkpoints-Contract working = record {
    get_lem = λ t name. rw (get_row, working t) refl;
    set_ok = λ t name seq. rw (set_row, working t) refl;
    set_lem = λ t name other seq.
        rw (set_row, working t, get-put t name other seq)
          (elim (Bool-cases (name == other)) [ inl e ↦ rw e refl | inr e ↦ rw e refl ]);
  }
