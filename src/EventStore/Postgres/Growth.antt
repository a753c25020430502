-- ===== src/EventStore/Postgres/Growth.antt =====
-- eventstore-postgres/store.go: what one INSERT of Append makes of a table.
use gohex.Prelude.{
  ℕ, ◌+◌, ◌<◌, ◌≡◌, refl, ap, sym, ◌∙◌, inl, inr, ◌⊎◌, false, ◌||◌, none, some, Option, List, [],
  ◌∷◌, ◌++◌, All-append, map, arith, length, select-append, append-nil, map-append, last?,
  last?-append_one, Bool-cases,
}
use gohex.Prelude.EqClass.{◌==◌}
use gohex.Prelude.Map.{Map}
use gohex.Prelude.Text.{Text, lit, text_beq, is_empty}
use gohex.Kernel.Errors.{Error}
use gohex.EventStore.Types.{StreamId, stream_eq, stream_beq_iff, EventData, RecordedEvent, Metadata}
use gohex.EventStore.Contract.{events_of, VersionsFrom, IncreasingFrom, seq_of_last}
use gohex.EventStore.Memory.{stamp}
use gohex.EventStore.Memory.Invariant.{VersionsFrom-append_one}
use gohex.EventStore.Postgres.{
  EventRow, EventsTable, Statement, insert_event, Json, is_taken, marshal_metadata,
  unmarshal_metadata, insert_values, insert_row, row_of,
}
use gohex.EventStore.Postgres.Table.{recorded, log, Readable, IsTable, not_taken}

-- What encoding/json and jsonb do to metadata, which is text in UTF-8: an empty object stays as it
-- is, and metadata that jsonb takes is read back.
pub record IsJson (json : Json) : Type 0 where
  pub empty_object : json.jsonb (lit "{}") ≡ inl (lit "{}")
  pub metadata_kept :
      (kv : Text × Text) (m : Map Text Text) (t t' : Text)
      → json.encode (kv ∷ m) ≡ inl t
      → json.jsonb t ≡ inl t'
      → (json.decode t' ≡ inl (kv ∷ m)) × ((is_empty t' || text_beq t' (lit "{}")) ≡ false)

abbrev pub no_empty : Metadata → Metadata
no_empty none = none
no_empty (some []) = none
no_empty (some (kv ∷ m)) = some (kv ∷ m)

abbrev pub text_or_nil : Text ⊎ Error → Text
text_or_nil (inl t) = t
text_or_nil (inr x) = []

module _ (json : Json) where
  -- An event as the table keeps it: its payload as jsonb writes it, and no metadata for empty
  -- metadata.
  abbrev pub canonical : EventData → EventData
  canonical e = record e {
    payload = text_or_nil (json.jsonb e.payload);
    metadata = no_empty e.metadata;
  }

  -- The database takes the event: its payload and its metadata are JSON.
  abbrev pub Accepted : EventData → Type 0
  Accepted e =
      (p : Text) × (m : Text) × (m' : Text) × (json.jsonb e.payload ≡ inl p)
      × (marshal_metadata json e.metadata ≡ inl m)
      × (json.jsonb m ≡ inl m')

  pub unmarshal-marshal :
      IsJson json
      → (metadata : Metadata) (t t' : Text) → marshal_metadata json metadata ≡ inl t
      → json.jsonb t ≡ inl t'
      → unmarshal_metadata json t' ≡ inl (no_empty metadata)
  unfolding marshal_metadata unmarshal_metadata text_beq
  unmarshal-marshal laws none t t' h k =
      let e : t' ≡ lit "{}" = cc (h, k, laws.empty_object) in rw e refl
  unmarshal-marshal laws (some []) t t' h k =
      let e : t' ≡ lit "{}" = cc (h, k, laws.empty_object) in rw e refl
  unmarshal-marshal laws (some (kv ∷ m)) t t' h k =
      let kept = laws.metadata_kept kv m t t' h k in rw (kept.1, kept.0) refl

  module _ (now : ℕ) (sid : StreamId) (version : ℕ) (e : EventData) (t : EventsTable) where
    -- The table behind the INSERT of the event.
    pub record IsGrown (t' : EventsTable) : Type 0 where
      pub row : EventRow
      pub rows : t'.rows ≡ t.rows ++ row ∷ []
      pub next : t'.next_seq ≡ t.next_seq + 1
      pub kept : recorded json row ≡ stamp sid now t.next_seq version (canonical e)
      pub readable : Readable json row

    pub log-IsGrown :
        {t' : EventsTable} (g : IsGrown t') → log json t' ≡ log json t ++ recorded json g.row ∷ []
    log-IsGrown g = ap (map (recorded json)) g.rows ∙ map-append (recorded json) t.rows (g.row ∷ [])

    before_last :
        (n : ℕ) (x : RecordedEvent) (l : List RecordedEvent)
        → IncreasingFrom n (x ∷ l)
        → n < seq_of_last (last? (x ∷ l))
    before_last n x [] h = h.0
    before_last n x (y ∷ l) h = omega (arith, h.0, before_last x.global_seq y l h.1)

    increasing-append_one :
        (n : ℕ) (l : List RecordedEvent) (r : RecordedEvent)
        → IncreasingFrom n l
        → n < r.global_seq
        → seq_of_last (last? l) < r.global_seq
        → IncreasingFrom n (l ++ r ∷ [])
    increasing-append_one n [] r h lo hi = (lo, tt)
    increasing-append_one n (x ∷ []) r h lo hi = (h.0, (hi, tt))
    increasing-append_one n (x ∷ y ∷ l) r h lo hi = (
      h.0,
      increasing-append_one x.global_seq (y ∷ l) r h.1
          (omega (arith, hi, before_last x.global_seq y l h.1)) hi,
    )

    versions_after :
        (l : List RecordedEvent) (rec : RecordedEvent)
        → ((other : StreamId) → VersionsFrom 0 (events_of other l))
        → rec.version ≡ length (events_of rec.stream l) + 1
        → (other : StreamId) → VersionsFrom 0 (events_of other (l ++ rec ∷ []))
    versions_after l rec versions v other =
        rw (select-append (λ (r : RecordedEvent). r.stream == other) l (rec ∷ []))
          (elim (Bool-cases (rec.stream == other)) [
            | inl same ↦
                let p : rec.stream ≡ other = (stream_beq_iff rec.stream other).0 same in
                rw same (
                  VersionsFrom-append_one 0 (events_of other l) rec (versions other)
                    (omega (arith, v, ap (λ k. length (events_of k l)) p)))
            | inr differ ↦ rw (differ, append-nil (events_of other l)) (versions other)
          ])

    -- An INSERT of the stream's next version keeps the table well formed.
    pub IsGrown-IsTable :
        {t' : EventsTable}
        → IsTable json t
        → version ≡ length (events_of sid (log json t)) + 1
        → IsGrown t'
        → IsTable json t'
    unfolding stamp
    IsGrown-IsTable {t'} valid v g =
        let rec = recorded json g.row in
        let position : g.row.global_seq ≡ t.next_seq =
          ap (λ (r : RecordedEvent). r.global_seq) g.kept in
        let of_stream : g.row.stream ≡ sid = ap (λ (r : RecordedEvent). r.stream) g.kept in
        let numbered : g.row.version ≡ version = ap (λ (r : RecordedEvent). r.version) g.kept in
        let next_version : g.row.version ≡ length (events_of g.row.stream (log json t)) + 1 =
          numbered ∙ v ∙ ap (λ k. length (events_of k (log json t)) + 1) (sym of_stream) in
        record {
          increasing = rw (log-IsGrown g) (
              increasing-append_one 0 (log json t) rec valid.increasing
                (omega (arith, position, valid.below)) (omega (arith, position, valid.below)));
          below =
              rw (log-IsGrown g, last?-append_one (log json t) rec)
                (omega (arith, position, g.next));
          versions = λ other.
              rw (log-IsGrown g)
                (versions_after (log json t) rec valid.versions next_version other);
          readable =
              rw g.rows
                (All-append (Readable json) t.rows (g.row ∷ []) valid.readable (g.readable, tt));
        }

  module _ (laws : IsJson json) (fault : Statement → EventsTable → Option Error)
      (lost : EventsTable → ℕ) (now : ℕ) (sid : StreamId) (version : ℕ) (e : EventData)
      (t : EventsTable) (valid : IsTable json t)
      (at_end : version ≡ length (events_of sid (log json t)) + 1) (m : Text)
      (marshalled : marshal_metadata json e.metadata ≡ inl m) where
    -- The INSERT stores the event, or fails for a fault or for a text that is not JSON.
    abbrev pub Inserted : EventsTable ⊎ Error → Type 0
    Inserted (inl t') = IsGrown now sid version e t t'
    Inserted (inr x) = ((st : Statement) (u : EventsTable) → fault st u ≡ none) → Accepted e → ⊥

    free : is_taken sid version t.rows ≡ false
    free = not_taken json sid 0 version t.rows (valid.versions sid) (omega (arith, at_end))

    values-Inserted :
        (payload metadata : Text ⊎ Error)
        → json.jsonb e.payload ≡ payload
        → json.jsonb m ≡ metadata
        → Inserted (insert_values json fault lost t now sid version e payload metadata)
    values-Inserted (inr x) metadata hp hm = λ working a. cc (hp, a.3)
    values-Inserted (inl p) (inr x) hp hm = λ working (p, m', t', _, a, b).
        let same : m ≡ m' = cc (marshalled, a) in cc (hm, rw (← same) at b)
    values-Inserted (inl p) (inl m') hp hm = rw free (record {
      row = row_of json fault lost t now sid version e p m';
      rows = refl;
      next = refl;
      kept = unfold stamp in rw (hp, unmarshal-marshal laws e.metadata m m' marshalled hm) refl;
      readable = rw (unmarshal-marshal laws e.metadata m m' marshalled hm) refl;
    })

    pub insert_row-Inserted : Inserted (insert_row json fault lost t now sid version e m)
    unfolding insert_row
    insert_row-Inserted = go (fault (insert_event version) t) refl
      where
        go :
            (f : Option Error)
            → fault (insert_event version) t ≡ f
            → Inserted (elim f as (λ x. EventsTable ⊎ Error) [
              | some x ↦ inr x
              | none ↦
                  insert_values json fault lost t now sid version e
                    (json.jsonb e.payload)
                    (json.jsonb m)
            ])
        go (some x) h = λ working a. cc (h, working (insert_event version) t)
        go none h = values-Inserted (json.jsonb e.payload) (json.jsonb m) refl refl
