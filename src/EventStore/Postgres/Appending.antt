-- ===== src/EventStore/Postgres/Appending.antt =====
-- eventstore-postgres/store.go: the loop of Append in its transaction, whichever statements fail.
use gohex.Prelude.{
  ℕ, ◌+◌, ◌≤◌, ◌≡◌, refl, ap, sym, ◌∙◌, inl, inr, ◌⊎◌, true, none, some, Option, List, [], ◌∷◌,
  ◌++◌, All, map, arith, length, length-append, append_assoc, append-nil, select-append, last?,
  last?-append_one,
}
use gohex.Prelude.EqClass.{◌==◌}
use gohex.Prelude.Text.{Text, lit}
use gohex.Kernel.Errors.{Error, wrap}
use gohex.Kernel.Result.{Result, ok, err, panic}
use gohex.EventStore.Types.{StreamId, stream_eq, stream_beq_iff, EventData, RecordedEvent}
use gohex.EventStore.Contract.{events_of, Records, data_of, seq_of_last}
use gohex.EventStore.Memory.{stamp}
use gohex.EventStore.Postgres.{
  EventsTable, Statement, commit_tx, Json, marshal_metadata, insert_row, inserted, encoded,
  committed, insert_loop,
}
use gohex.EventStore.Postgres.Table.{recorded, log, IsTable}
use gohex.EventStore.Postgres.Growth.{
  IsJson, canonical, Accepted, IsGrown, log-IsGrown, IsGrown-IsTable, Inserted, insert_row-Inserted,
}

module _ (json : Json) (laws : IsJson json) (fault : Statement → EventsTable → Option Error)
    (lost : EventsTable → ℕ) (now : ℕ) (sid : StreamId) (s : EventsTable) where
  abbrev pub NoFault : Type 0
  NoFault = (st : Statement) (u : EventsTable) → fault st u ≡ none

  -- The events `es` have followed the table `t` in the transaction on `s`, or the transaction is
  -- rolled back.
  abbrev pub Outcome : ℕ → List EventData → EventsTable → EventsTable × Result ℕ → Type 0
  Outcome v es t (t', ok seq) =
      IsTable json t'
      × (recs : List RecordedEvent) × (log json t' ≡ log json t ++ recs)
      × Records sid v (map (canonical json) es) recs
      × (seq ≡ seq_of_last (last? (log json t')))
  Outcome v es t (t', err x) =
      (t'.rows ≡ s.rows) × (s.next_seq ≤ t'.next_seq) × (NoFault → All (Accepted json) es → ⊥)
  Outcome v es t (t', panic) = ⊥

  shift :
      (v : ℕ) (e : EventData) (es : List EventData) (t t' : EventsTable)
      (o : EventsTable × Result ℕ)
      → IsGrown json now sid (v + 1) e t t'
      → Outcome (v + 1) es t' o
      → Outcome v (e ∷ es) t o
  unfolding stamp
  shift v e es t t' (u, ok seq) g (valid, recs, grown, recorded_as, last) = (
    valid,
    recorded json g.row ∷ recs,
    grown
        ∙ ap (λ l. l ++ recs) (log-IsGrown json now sid (v + 1) e t g)
        ∙ append_assoc (log json t) (recorded json g.row ∷ []) recs,
    (
      ap (λ (r : RecordedEvent). r.stream) g.kept,
      ap (λ (r : RecordedEvent). r.version) g.kept,
      ap (λ (r : RecordedEvent). data_of r) g.kept,
      recorded_as,
    ),
    last,
  )
  shift v e es t t' (u, err x) g (same, more, why) = (same, more, λ working a. why working a.1)
  shift v e es t t' (u, panic) g o = o

  failed :
      (v : ℕ) (es : List EventData) (t : EventsTable) (x : Error)
      → s.next_seq ≤ t.next_seq
      → (NoFault → All (Accepted json) es → ⊥)
      → Outcome v es t (record s { next_seq = t.next_seq + lost t }, err x)
  failed v es t x le why = (refl, omega (arith, le), why)

  commit-Outcome :
      (v last : ℕ) (t : EventsTable) (f : Option Error)
      → fault commit_tx t ≡ f
      → IsTable json t
      → s.next_seq ≤ t.next_seq
      → last ≡ seq_of_last (last? (log json t))
      → Outcome v [] t (committed json fault lost s t last f)
  commit-Outcome v last t none h valid le seq = (valid, [], sym (append-nil (log json t)), tt, seq)
  commit-Outcome v last t (some x) h valid le seq =
      failed v [] t (wrap (lit "espostgres: append: commit") x) le
        (λ working a. cc (h, working commit_tx t))

  module _ (v : ℕ) (e : EventData) (es : List EventData) (t : EventsTable) (valid : IsTable json t)
      (le : s.next_seq ≤ t.next_seq) (at_end : v ≡ length (events_of sid (log json t))) where
    at_next : v + 1 ≡ length (events_of sid (log json t)) + 1
    at_next = omega (arith, at_end)

    -- What is needed of the rest of the loop.
    abbrev Rest : (EventsTable → EventsTable × Result ℕ) → Type 0
    Rest rest =
        (t' : EventsTable) → IsGrown json now sid (v + 1) e t t' → Outcome (v + 1) es t' (rest t')

    inserted-Outcome :
        (m : Text) (marshalled : marshal_metadata json e.metadata ≡ inl m)
        (rest : EventsTable → EventsTable × Result ℕ)
        → Rest rest
        → (i : EventsTable ⊎ Error)
        → Inserted json laws fault lost now sid (v + 1) e t valid at_next m marshalled i
        → Outcome v (e ∷ es) t (inserted json fault lost rest s t i)
    inserted-Outcome m marshalled rest r (inl t') g = shift v e es t t' (rest t') g (r t' g)
    inserted-Outcome m marshalled rest r (inr x) why =
        failed v (e ∷ es) t (wrap (lit "espostgres: append: insert") x) le
          (λ working a. why working a.0)

    encoded-Outcome :
        (rest : EventsTable → EventsTable × Result ℕ)
        → Rest rest
        → (mm : Text ⊎ Error) → marshal_metadata json e.metadata ≡ mm
        → Outcome v (e ∷ es) t (
            encoded json fault lost
              (λ m.
                inserted json fault lost rest s t
                  (insert_row json fault lost t now sid (v + 1) e m))
              s
              t
              mm)
    encoded-Outcome rest r (inl m) h =
        inserted-Outcome m h rest r (insert_row json fault lost t now sid (v + 1) e m)
          (insert_row-Inserted json laws fault lost now sid (v + 1) e t valid at_next m h)
    encoded-Outcome rest r (inr x) h =
        failed v (e ∷ es) t (wrap (lit "espostgres: append: metadata") x) le
          (λ working a. cc (h, a.0.4))

    events_after :
        (t' : EventsTable)
        → IsGrown json now sid (v + 1) e t t'
        → v + 1 ≡ length (events_of sid (log json t'))
    unfolding stamp
    events_after t' g =
        let rec = recorded json g.row in
        let of_stream : rec.stream == sid ≡ true =
          (stream_beq_iff rec.stream sid).1 (ap (λ (r : RecordedEvent). r.stream) g.kept) in
        rw
          (
            log-IsGrown json now sid (v + 1) e t g,
            select-append (λ (r : RecordedEvent). r.stream == sid) (log json t) (rec ∷ []),
            of_stream,
          )
          (omega (arith, at_end, length-append (events_of sid (log json t)) (rec ∷ [])))

    last_after :
        (t' : EventsTable)
        → IsGrown json now sid (v + 1) e t t'
        → t.next_seq ≡ seq_of_last (last? (log json t'))
    unfolding stamp
    last_after t' g =
        rw
          (
            log-IsGrown json now sid (v + 1) e t g,
            last?-append_one (log json t) (recorded json g.row),
          )
          (sym (ap (λ (r : RecordedEvent). r.global_seq) g.kept))

  pub loop-Outcome :
      (v last : ℕ) (es : List EventData) (t : EventsTable)
      → IsTable json t
      → s.next_seq ≤ t.next_seq
      → v ≡ length (events_of sid (log json t))
      → (es ≡ [] → last ≡ seq_of_last (last? (log json t)))
      → Outcome v es t (insert_loop json fault lost s now sid t v last es)
  unfolding insert_loop
  loop-Outcome v last [] t valid le at_end seq =
      commit-Outcome v last t (fault commit_tx t) refl valid le (seq refl)
  loop-Outcome v last (e ∷ es) t valid le at_end seq =
      encoded-Outcome v e es t valid le at_end
        (λ t'. insert_loop json fault lost s now sid t' (v + 1) t.next_seq es)
        (λ t' g.
          loop-Outcome (v + 1) t.next_seq es t'
            (IsGrown-IsTable json now sid (v + 1) e t valid (omega (arith, at_end)) g)
            (omega (arith, le, g.next)) (events_after v e es t valid le at_end t' g)
            (λ nil. last_after v e es t valid le at_end t' g))
        (marshal_metadata json e.metadata) refl
