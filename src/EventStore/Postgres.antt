-- ===== src/EventStore/Postgres.antt =====
-- eventstore-postgres/store.go: the statements of the adapter, on the rows of its table. Append holds
-- the advisory lock from before it reads the version until its transaction ends, so that no other
-- append comes between and it is one step. A statement runs whole or fails: `fault` says whether it
-- fails, and `lost` how many values of the identity column an aborted transaction has taken more.
pub mod Query
pub mod Table
pub mod Sorting
pub mod Reading
pub mod Growth
pub mod Appending
pub mod Atomic
pub mod Checkpoints
use gohex.Prelude.{
  ℕ, zero, suc, ◌+◌, ◌<◌, Bool, true, false, ◌&&◌, ◌||◌, Option, none, some, List, [], ◌∷◌, ◌++◌, ℤ,
  is_pos, to_nat, take, map, select, ltb, leb, eqb, ◌⊎◌, inl, inr, if◌then◌else◌,
}
use gohex.Prelude.EqClass.{◌==◌}
use gohex.Prelude.Map.{Map}
use gohex.Prelude.Text.{Text, lit, text_beq, is_empty}
use gohex.Kernel.Errors.{Error, version_conflict, wrap, plain}
use gohex.Kernel.Result.{Result, ok, err, panic, ◌>>=◌}
use gohex.EventStore.Types.{StreamId, stream_eq, EventData, RecordedEvent, Metadata, Store}

-- A row of events. The two jsonb columns are texts as the database writes them back.
pub record EventRow : Type 0 where
  pub global_seq : ℕ
  pub stream : StreamId  -- category and stream_id
  pub version : ℕ
  pub event_name : Text
  pub schema_version : ℕ
  pub payload : Text
  pub metadata : Text
  pub occurred_at : ℕ

-- The rows in the order in which they were inserted, and the next value of the identity column.
pub record EventsTable : Type 0 where
  pub rows : List EventRow
  pub next_seq : ℕ

abbrev pub empty_events : EventsTable
empty_events = record { rows = []; next_seq = 1 }

pub data Statement : Type 0 where
  begin_tx : Statement
  lock_tx : Statement
  current_version : Statement
  insert_event : ℕ → Statement
  commit_tx : Statement
  query_rows : Statement

-- encoding/json on the metadata, and the conversion of a text to jsonb and back, which refuses what
-- is no JSON.
pub record Json : Type 0 where
  pub encode : Map Text Text → Text ⊎ Error
  pub decode : Text → Map Text Text ⊎ Error
  pub jsonb : Text → Text ⊎ Error

-- coalesce(max(...), 0)
unfoldable pub max_or_zero : List ℕ → ℕ
max_or_zero [] = 0
max_or_zero (n ∷ ns) = let m = max_or_zero ns in if leb n m then m else n

-- UNIQUE (category, stream_id, version)
unfoldable pub is_taken : StreamId → ℕ → List EventRow → Bool
is_taken sid version [] = false
is_taken sid version (r ∷ rs) =
    (r.stream == sid && eqb r.version version) || is_taken sid version rs

module _ (json : Json) where
  unfoldable pub marshal_metadata : Metadata → Text ⊎ Error
  marshal_metadata none = inl (lit "{}")
  marshal_metadata (some []) = inl (lit "{}")
  marshal_metadata (some (kv ∷ m)) = json.encode (kv ∷ m)

  -- The value of `into` afterwards, which was nil.
  abbrev pub nil_if_empty : Map Text Text ⊎ Error → Metadata ⊎ Error
  nil_if_empty (inl []) = inl none
  nil_if_empty (inl (kv ∷ m)) = inl (some (kv ∷ m))
  nil_if_empty (inr x) = inr x

  unfoldable pub unmarshal_metadata : Text → Metadata ⊎ Error
  unmarshal_metadata data_text =
      if is_empty data_text || text_beq data_text (lit "{}")
      then inl none
      else nil_if_empty (json.decode data_text)

  module _ (fault : Statement → EventsTable → Option Error) (lost : EventsTable → ℕ) where
    -- The end of a transaction on `s` that has come to `t` and fails.
    abbrev pub rolled_back : EventsTable → EventsTable → Error → EventsTable × Result ℕ
    rolled_back s t x = (record s { next_seq = t.next_seq + lost t }, err x)

    abbrev pub row_of : EventsTable → ℕ → StreamId → ℕ → EventData → Text → Text → EventRow
    row_of t now sid version e payload metadata = record {
      global_seq = t.next_seq;
      stream = sid;
      version = version;
      event_name = e.event_name;
      schema_version = e.schema_version;
      payload = payload;
      metadata = metadata;
      occurred_at = now;
    }

    -- INSERT INTO events, with the texts that jsonb made of the payload and the metadata.
    abbrev pub insert_values :
        EventsTable
        → ℕ
        → StreamId
        → ℕ
        → EventData
        → Text ⊎ Error
        → Text ⊎ Error
        → EventsTable ⊎ Error
    insert_values t now sid version e (inr x) metadata = inr x
    insert_values t now sid version e (inl payload) (inr x) = inr x
    insert_values t now sid version e (inl payload) (inl metadata) =
        if is_taken sid version t.rows
        then inr (plain (lit "duplicate key value violates unique constraint"))
        else inl (record {
          rows = t.rows ++ row_of t now sid version e payload metadata ∷ [];
          next_seq = t.next_seq + 1;
        })

    unfoldable pub insert_row :
        EventsTable → ℕ → StreamId → ℕ → EventData → Text → EventsTable ⊎ Error
    unfolding is_taken
    insert_row t now sid version e metadata = elim (fault (insert_event version) t) [
      | some x ↦ inr x
      | none ↦ insert_values t now sid version e (json.jsonb e.payload) (json.jsonb metadata)
    ]

    -- What follows in the loop on the two steps that may fail, and on the loop.
    abbrev pub inserted :
        (EventsTable → EventsTable × Result ℕ)
        → EventsTable
        → EventsTable
        → EventsTable ⊎ Error
        → EventsTable × Result ℕ
    inserted rest s t (inl t') = rest t'
    inserted rest s t (inr x) = rolled_back s t (wrap (lit "espostgres: append: insert") x)

    abbrev pub encoded :
        (Text → EventsTable × Result ℕ)
        → EventsTable
        → EventsTable
        → Text ⊎ Error
        → EventsTable × Result ℕ
    encoded rest s t (inl metadata) = rest metadata
    encoded rest s t (inr x) = rolled_back s t (wrap (lit "espostgres: append: metadata") x)

    abbrev pub committed : EventsTable → EventsTable → ℕ → Option Error → EventsTable × Result ℕ
    committed s t last_seq none = (t, ok last_seq)
    committed s t last_seq (some x) = rolled_back s t (wrap (lit "espostgres: append: commit") x)

    -- The loop of Append on a transaction that has come to `t`, with `version` for
    -- expectedVersion + i, and the commit.
    unfoldable pub insert_loop :
        EventsTable → ℕ → StreamId → EventsTable → ℕ → ℕ → List EventData → EventsTable × Result ℕ
    unfolding insert_row marshal_metadata
    insert_loop s now sid t version last_seq [] = committed s t last_seq (fault commit_tx t)
    insert_loop s now sid t version last_seq (e ∷ es) =
        let rest = λ (t' : EventsTable). insert_loop s now sid t' (version + 1) t.next_seq es in
        encoded (λ metadata. inserted rest s t (insert_row t now sid (version + 1) e metadata)) s t
          (marshal_metadata e.metadata)

    abbrev pub versions_of : StreamId → List EventRow → List ℕ
    versions_of sid rows =
        map (λ (r : EventRow). r.version) (select (λ (r : EventRow). r.stream == sid) rows)

    -- A statement of Append that fails before anything is written, or what follows it.
    abbrev pub guarded :
        EventsTable → Text → Option Error → EventsTable × Result ℕ → EventsTable × Result ℕ
    guarded s message none rest = rest
    guarded s message (some x) rest = (s, err (wrap message x))

    -- What follows the read of the current version.
    abbrev pub compared :
        EventsTable → ℕ → StreamId → ℕ → ℕ → List EventData → EventsTable × Result ℕ
    compared s now sid current expected es =
        if eqb current expected
        then insert_loop s now sid s expected 0 es
        else (s, err (wrap (lit "stream at version") version_conflict))

    unfoldable pub append : EventsTable → ℕ → StreamId → ℕ → List EventData → EventsTable × Result ℕ
    unfolding insert_loop max_or_zero
    append s now sid expected [] = (s, ok 0)
    append s now sid expected (e ∷ es) =
        guarded s (lit "espostgres: append: begin") (fault begin_tx s) (
          guarded s (lit "espostgres: append: lock") (fault lock_tx s) (
            guarded s (lit "espostgres: append: current version") (fault current_version s)
              (compared s now sid (max_or_zero (versions_of sid s.rows)) expected (e ∷ es))))
