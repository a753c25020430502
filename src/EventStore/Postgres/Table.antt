-- ===== src/EventStore/Postgres/Table.antt =====
-- eventstore-postgres/store.go: the well-formed tables, and the log that a table holds.
use gohex.Prelude.{
  ℕ, suc, ◌+◌, ◌<◌, ◌≡◌, refl, ap, ◌∙◌, inl, inr, ◌⊎◌, false, none, List, [], ◌∷◌, All, map, arith,
  length, length-map, select, last?, eqb, Bool-cases,
}
use gohex.Prelude.EqClass.{◌==◌}
use gohex.Kernel.Errors.{Error}
use gohex.Kernel.Result.{ok}
use gohex.EventStore.Types.{StreamId, stream_eq, RecordedEvent, Metadata}
use gohex.EventStore.Contract.{events_of, VersionsFrom, IncreasingFrom, seq_of_last}
use gohex.EventStore.Postgres.{
  EventRow, EventsTable, Json, max_or_zero, is_taken, unmarshal_metadata,
}
use gohex.EventStore.Postgres.Query.{scan_events}

abbrev pub metadata_or_nil : Metadata ⊎ Error → Metadata
metadata_or_nil (inl m) = m
metadata_or_nil (inr x) = none

module _ (json : Json) where
  -- What a row is read as.
  abbrev pub recorded : EventRow → RecordedEvent
  recorded r = record {
    global_seq = r.global_seq;
    stream = r.stream;
    version = r.version;
    event_name = r.event_name;
    schema_version = r.schema_version;
    payload = r.payload;
    metadata = metadata_or_nil (unmarshal_metadata json r.metadata);
    occurred_at = r.occurred_at;
  }

  abbrev pub log : EventsTable → List RecordedEvent
  log s = map recorded s.rows

  abbrev pub Readable : EventRow → Type 0
  Readable r = unmarshal_metadata json r.metadata ≡ inl (recorded r).metadata

  -- Global positions grow and stand below the next one, the versions of each stream count from 1,
  -- and the metadata of every row can be read.
  pub record IsTable (s : EventsTable) : Type 0 where
    pub increasing : IncreasingFrom 0 (log s)
    pub below : seq_of_last (last? (log s)) < s.next_seq
    pub versions : (sid : StreamId) → VersionsFrom 0 (events_of sid (log s))
    pub readable : All Readable s.rows

  pub scan_events-recorded :
      (rs : List EventRow) → All Readable rs → scan_events json rs ≡ ok (map recorded rs)
  unfolding scan_events
  scan_events-recorded [] h = refl
  scan_events-recorded (r ∷ rs) h = rw (h.0, scan_events-recorded rs h.1) refl

  pub events_of-recorded :
      (sid : StreamId) (rs : List EventRow)
      → events_of sid (map recorded rs)
        ≡ map recorded (select (λ (r : EventRow). r.stream == sid) rs)
  events_of-recorded sid [] = refl
  events_of-recorded sid (r ∷ rs) = elim (Bool-cases (r.stream == sid)) [
    | inl e ↦ rw e (ap (λ l. recorded r ∷ l) (events_of-recorded sid rs))
    | inr e ↦ rw e (events_of-recorded sid rs)
  ]

  -- The last version of a stream is the number of its events.
  max_of_versions :
      (n : ℕ) (r : EventRow) (rs : List EventRow)
      → VersionsFrom n (map recorded (r ∷ rs))
      → max_or_zero (map (λ (x : EventRow). x.version) (r ∷ rs)) ≡ n + length (r ∷ rs)
  unfolding max_or_zero
  max_of_versions n r [] h = ground (arith, h.0)
  max_of_versions n r (x ∷ rs) h = ground (arith, h.0, max_of_versions (n + 1) x rs h.1)

  pub max_version-length :
      (rs : List EventRow)
      → VersionsFrom 0 (map recorded rs)
      → max_or_zero (map (λ (r : EventRow). r.version) rs) ≡ length (map recorded rs)
  unfolding max_or_zero
  max_version-length [] h = refl
  max_version-length (r ∷ rs) h = max_of_versions 0 r rs h ∙ omega (arith, length-map recorded rs)

  pub not_taken :
      (sid : StreamId) (n w : ℕ) (rs : List EventRow)
      → VersionsFrom n (events_of sid (map recorded rs))
      → n + length (events_of sid (map recorded rs)) < w
      → is_taken sid w rs ≡ false
  unfolding is_taken
  not_taken sid n w [] v h = refl
  not_taken sid n w (r ∷ rs) v h = elim (Bool-cases (r.stream == sid)) [
    | inl e ↦
        let v' : (r.version ≡ n + 1) × VersionsFrom (n + 1) (events_of sid (map recorded rs)) =
          rw e at v in
        let h' : n + suc (length (events_of sid (map recorded rs))) < w = rw e at h in
        let differ : eqb r.version w ≡ false = ground (arith, v'.0, h') in
        rw (e, differ) (not_taken sid (n + 1) w rs v'.1 (omega (arith, h')))
    | inr e ↦ rw e (not_taken sid n w rs (rw e at v) (rw e at h))
  ]
