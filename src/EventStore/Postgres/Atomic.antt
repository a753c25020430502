-- ===== src/EventStore/Postgres/Atomic.antt =====
-- eventstore-postgres/store.go: what Append leaves of a table, whichever statements fail.
use gohex.Prelude.{
  ℕ, ◌≤◌, ◌≡◌, ◌≢◌, refl, ap, sym, subst, ◌∙◌, inl, inr, ◌⊎◌, true, none, some, Option, List, ◌∷◌,
  All, map, arith, length, select, eqb, eqb_iff, Bool-cases,
}
use gohex.Prelude.EqClass.{◌==◌}
use gohex.Prelude.Text.{Text}
use gohex.Kernel.Errors.{Error, version_conflict, errors_is, wrap}
use gohex.Kernel.Result.{Result, ok, err, panic}
use gohex.EventStore.Types.{StreamId, stream_eq, EventData, RecordedEvent}
use gohex.EventStore.Contract.{events_of, Records, IsAppended}
use gohex.EventStore.Postgres.{
  EventRow, EventsTable, Statement, begin_tx, lock_tx, current_version, Json, max_or_zero,
  insert_loop, guarded, compared, append,
}
use gohex.EventStore.Postgres.Table.{log, IsTable, events_of-recorded, max_version-length}
use gohex.EventStore.Postgres.Growth.{IsJson, canonical, Accepted}
use gohex.EventStore.Postgres.Appending.{NoFault, Outcome, loop-Outcome}

module _ (json : Json) (laws : IsJson json) (fault : Statement → EventsTable → Option Error)
    (lost : EventsTable → ℕ) (now : ℕ) (sid : StreamId) (s : EventsTable) where
  -- What Append leaves, with the events that it was given.
  abbrev Settled : ℕ → EventData → List EventData → EventsTable × Result ℕ → Type 0
  Settled v e es (t', ok seq) =
      IsTable json t'
      × (v ≡ length (events_of sid (log json s)))
      × IsAppended sid (map (canonical json) (e ∷ es)) (log json s) (log json t') seq
  Settled v e es (t', err x) =
      (t'.rows ≡ s.rows)
      × (s.next_seq ≤ t'.next_seq)
      × (NoFault json laws fault lost now sid s
          → All (Accepted json) (e ∷ es)
          → (v ≢ length (events_of sid (log json s)))
            × (t' ≡ s)
            × (errors_is x version_conflict ≡ true))
  Settled v e es (t', panic) = ⊥

  module _ (valid : IsTable json s) (v : ℕ) (e : EventData) (es : List EventData) where
    version_read :
        max_or_zero
          (map (λ (r : EventRow). r.version) (select (λ (r : EventRow). r.stream == sid) s.rows))
        ≡ length (events_of sid (log json s))
    version_read =
        let own = select (λ (r : EventRow). r.stream == sid) s.rows in
        let same = events_of-recorded json sid s.rows in
        max_version-length json own (rw same at (valid.versions sid))
        ∙ ap (λ (l : List RecordedEvent). length l) (sym same)

    loop-Settled :
        v ≡ length (events_of sid (log json s))
        → (o : EventsTable × Result ℕ) → Outcome json laws fault lost now sid s v (e ∷ es) s o
        → Settled v e es o
    loop-Settled h (t', ok seq) (valid', recs, grown, records, last) = (
      valid',
      h,
      record {
        recs = recs;
        appended = grown;
        recorded = subst (λ k. Records sid k (map (canonical json) (e ∷ es)) recs) h records;
        last = last;
      },
    )
    loop-Settled h (t', err x) (same, more, why) = (same, more, λ working a. absurd (why working a))
    loop-Settled h (t', panic) o = o

    stopped : (st : Statement) (x y : Error) → fault st s ≡ some x → Settled v e es (s, err y)
    stopped st x y h = (refl, omega arith, λ working a. absurd (cc (h, working st s)))

    guarded-Settled :
        (st : Statement) (message : Text) (f : Option Error) (o : EventsTable × Result ℕ)
        → fault st s ≡ f
        → Settled v e es o
        → Settled v e es (guarded json fault lost s message f o)
    guarded-Settled st message none o h settled = settled
    guarded-Settled st message (some x) o h settled = stopped st x (wrap message x) h

    compared-Settled :
        (current : ℕ)
        → current ≡ length (events_of sid (log json s))
        → Settled v e es (compared json fault lost s now sid current v (e ∷ es))
    unfolding errors_is
    compared-Settled current h = elim (Bool-cases (eqb current v)) [
      | inl same ↦
          let at_end : v ≡ length (events_of sid (log json s)) =
            sym ((eqb_iff current v).0 same) ∙ h in
          rw same (
            loop-Settled at_end (insert_loop json fault lost s now sid s v 0 (e ∷ es)) (
              loop-Outcome json laws fault lost now sid s v 0 (e ∷ es) s valid (omega arith) at_end
                (λ nil. cc)))
      | inr differ ↦ rw differ (
        refl,
        omega arith,
        λ working a. (λ at_end. absurd (ground (arith, differ, h, at_end)), refl, refl),
      )
    ]

    append-Settled : Settled v e es (append json fault lost s now sid v (e ∷ es))
    unfolding append
    append-Settled = guarded-Settled begin_tx _ (fault begin_tx s) _ refl (
        guarded-Settled lock_tx _ (fault lock_tx s) _ refl (
          guarded-Settled current_version _ (fault current_version s) _ refl
            (compared-Settled _ version_read)))

  IsTable-rows :
      (t : EventsTable)
      → IsTable json s
      → t.rows ≡ s.rows
      → s.next_seq ≤ t.next_seq
      → IsTable json t
  IsTable-rows t valid same more = record {
    increasing = rw same valid.increasing;
    below = rw same (omega (arith, valid.below, more));
    versions = λ other. rw same (valid.versions other);
    readable = rw same valid.readable;
  }

  all_or_nothing :
      (v : ℕ) (e : EventData) (es : List EventData) (o : EventsTable × Result ℕ)
      → IsTable json s
      → Settled v e es o
      → IsTable json o.0
        × (((seq : ℕ) × (o.1 ≡ ok seq)
              × (v ≡ length (events_of sid (log json s)))
              × IsAppended sid (map (canonical json) (e ∷ es)) (log json s) (log json o.0) seq)
            ⊎ ((x : Error) × (o.1 ≡ err x) × (o.0.rows ≡ s.rows)))
  all_or_nothing v e es (t, ok seq) valid (valid', at_end, a) = (valid', inl (seq, refl, at_end, a))
  all_or_nothing v e es (t, err x) valid (same, more, why) =
      (IsTable-rows t valid same more, inr (x, refl, same))
  all_or_nothing v e es (t, panic) valid o = absurd o

  -- Append of at least one event on a well-formed table, whichever statements of its transaction
  -- fail, where encoding/json reads back the metadata that it wrote and jsonb took: the table stays well formed, and either Append returns the position of the last event and
  -- the table's log has grown by exactly the events, which were expected at the stream's version and
  -- are kept with their payloads as jsonb writes them, or it returns an error and no row has
  -- changed.
  pub append_all_or_nothing :
      IsTable json s
      → (v : ℕ) (e : EventData) (es : List EventData)
      → let o = append json fault lost s now sid v (e ∷ es) in
        IsTable json o.0
        × (((seq : ℕ) × (o.1 ≡ ok seq)
              × (v ≡ length (events_of sid (log json s)))
              × IsAppended sid (map (canonical json) (e ∷ es)) (log json s) (log json o.0) seq)
            ⊎ ((x : Error) × (o.1 ≡ err x) × (o.0.rows ≡ s.rows)))
  append_all_or_nothing valid v e es =
      all_or_nothing v e es (append json fault lost s now sid v (e ∷ es)) valid
        (append-Settled valid v e es)

  decided :
      (v : ℕ) (e : EventData) (es : List EventData) (o : EventsTable × Result ℕ)
      → NoFault json laws fault lost now sid s
      → All (Accepted json) (e ∷ es)
      → Settled v e es o
      → ((v ≡ length (events_of sid (log json s)))
          × (seq : ℕ) × (o.1 ≡ ok seq)
          × IsAppended sid (map (canonical json) (e ∷ es)) (log json s) (log json o.0) seq)
        ⊎ ((v ≢ length (events_of sid (log json s)))
            × (x : Error) × (o ≡ (s, err x))
            × (errors_is x version_conflict ≡ true))
  decided v e es (t, ok seq) working a (valid', at_end, app) = inl (at_end, seq, refl, app)
  decided v e es (t, err x) working a (same, more, why) =
      let w = why working a in inr (w.0, x, ap (λ (u : EventsTable). (u, err x)) w.1, w.2)
  decided v e es (t, panic) working a o = absurd o

  -- Append as the port's contract asks for it, on a well-formed table, where no statement fails, the
  -- database takes the events' payloads and metadata as JSON, and encoding/json reads back the
  -- metadata that it wrote and jsonb took: at the stream's version it stores all the events and
  -- returns the position of the last, and at any other it is refused as a version conflict and
  -- leaves the table as it was. The unique constraint never refuses a row.
  pub append_decides :
      IsTable json s
      → NoFault json laws fault lost now sid s
      → (v : ℕ) (e : EventData) (es : List EventData) → All (Accepted json) (e ∷ es)
      → let o = append json fault lost s now sid v (e ∷ es) in
        ((v ≡ length (events_of sid (log json s)))
          × (seq : ℕ) × (o.1 ≡ ok seq)
          × IsAppended sid (map (canonical json) (e ∷ es)) (log json s) (log json o.0) seq)
        ⊎ ((v ≢ length (events_of sid (log json s)))
            × (x : Error) × (o ≡ (s, err x))
            × (errors_is x version_conflict ≡ true))
  append_decides valid working v e es accepted =
      decided v e es (append json fault lost s now sid v (e ∷ es)) working accepted
        (append-Settled valid v e es)
