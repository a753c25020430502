-- ===== src/EventStore/Postgres/Query.antt =====
-- eventstore-postgres/store.go: the queries of the adapter, on the rows of its table.
use gohex.Prelude.{
  ℕ, ◌&&◌, Option, none, some, List, [], ◌∷◌, ℤ, is_pos, to_nat, take, map, select, ltb, leb, ◌⊎◌,
  inl, inr, if◌then◌else◌,
}
use gohex.Prelude.EqClass.{◌==◌}
use gohex.Prelude.Text.{Text, lit}
use gohex.Kernel.Errors.{Error, wrap}
use gohex.Kernel.Result.{Result, ok, err, ◌>>=◌}
use gohex.EventStore.Types.{StreamId, stream_eq, RecordedEvent, Metadata, Store}
use gohex.EventStore.Postgres.{
  EventRow, EventsTable, Statement, query_rows, Json, max_or_zero, unmarshal_metadata, append,
}

-- ORDER BY a column.
unfoldable pub insert_by : (EventRow → ℕ) → EventRow → List EventRow → List EventRow
insert_by column r [] = r ∷ []
insert_by column r (x ∷ xs) =
    let rest = insert_by column r xs in if leb (column r) (column x) then r ∷ x ∷ xs else x ∷ rest

unfoldable pub order_by : (EventRow → ℕ) → List EventRow → List EventRow
unfolding insert_by
order_by column [] = []
order_by column (r ∷ rs) = insert_by column r (order_by column rs)

module _ (json : Json) where
  abbrev pub scanned : EventRow → Metadata ⊎ Error → Result RecordedEvent
  scanned r (inl metadata) = ok (record {
    global_seq = r.global_seq;
    stream = r.stream;
    version = r.version;
    event_name = r.event_name;
    schema_version = r.schema_version;
    payload = r.payload;
    metadata = metadata;
    occurred_at = r.occurred_at;
  })
  scanned r (inr x) = err (wrap (lit "espostgres: scan metadata") x)

  unfoldable pub scan_events : List EventRow → Result (List RecordedEvent)
  unfolding unmarshal_metadata
  scan_events [] = ok []
  scan_events (r ∷ rs) = do
    rec ← scanned r (unmarshal_metadata json r.metadata)
    out ← scan_events rs
    ok (rec ∷ out)

  module _ (fault : Statement → EventsTable → Option Error) where
    abbrev pub queried : EventsTable → Text → List EventRow → Result (List RecordedEvent)
    queried s message rows = elim (fault query_rows s) [
      | some x ↦ err (wrap message x)
      | none ↦ scan_events rows
    ]

    unfoldable pub load : EventsTable → StreamId → ℕ → Result (List RecordedEvent)
    unfolding scan_events order_by
    load s sid after = queried s (lit "espostgres: load") (
        order_by (λ r. r.version)
          (select (λ (r : EventRow). r.stream == sid && ltb after r.version) s.rows))

    unfoldable pub read_all : EventsTable → ℕ → ℤ → Result (List RecordedEvent)
    unfolding scan_events order_by
    read_all s after limit =
        let found =
          order_by (λ r. r.global_seq) (select (λ (r : EventRow). ltb after r.global_seq) s.rows) in
        queried s (lit "espostgres: readall")
          (if is_pos limit then take (to_nat limit) found else found)

    unfoldable pub head : EventsTable → Result ℕ
    unfolding max_or_zero
    head s = elim (fault query_rows s) [
      | some x ↦ err (wrap (lit "espostgres: head") x)
      | none ↦ ok (max_or_zero (map (λ (r : EventRow). r.global_seq) s.rows))
    ]

    abbrev pub postgres_store : (EventsTable → ℕ) → Store EventsTable
    postgres_store lost = record {
      append = append json fault lost;
      load = load;
      read_all = read_all;
      head = head;
    }
