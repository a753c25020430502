-- ===== src/EventStore/Postgres/Reading.antt =====
-- eventstore-postgres/store.go: what Load, ReadAll and Head return of a well-formed table.
use gohex.Prelude.{
  ℕ, zero, suc, ◌+◌, ◌-◌, ◌<◌, ◌≡◌, refl, ap, sym, ◌∙◌, inl, inr, ◌&&◌, none, Option, List, [], ◌∷◌,
  map, arith, select, last?, take, drop, ltb, Bool-cases, if◌then◌else◌, ℤ, is_pos, to_nat,
}
use gohex.Prelude.EqClass.{◌==◌}
use gohex.Prelude.Text.{Text, lit}
use gohex.Kernel.Errors.{Error}
use gohex.Kernel.Result.{ok}
use gohex.EventStore.Types.{StreamId, stream_eq}
use gohex.EventStore.Contract.{
  events_of, behind, limited, VersionsFrom, IncreasingFrom, seq_of_last,
}
use gohex.EventStore.Memory.Reading.{newer, newer-eq-drop}
use gohex.EventStore.Postgres.{EventRow, EventsTable, Statement, query_rows, Json, max_or_zero}
use gohex.EventStore.Postgres.Query.{order_by, scan_events, queried, load, read_all, head}
use gohex.EventStore.Postgres.Table.{
  recorded, log, Readable, IsTable, scan_events-recorded, events_of-recorded,
}
use gohex.EventStore.Postgres.Sorting.{
  SortedFrom, select-SortedFrom, order_by-SortedFrom, select-All, take-All, select_and,
}

max_or_zero_skip : (n m : ℕ) (ns : List ℕ) → n < m → max_or_zero (n ∷ m ∷ ns) ≡ max_or_zero (m ∷ ns)
unfolding max_or_zero
max_or_zero_skip n m ns h = ground (arith, h)

module _ (json : Json) where
  SortedFrom-versions :
      (n : ℕ) (rs : List EventRow)
      → VersionsFrom n (map (recorded json) rs)
      → SortedFrom (λ r. r.version) n rs
  SortedFrom-versions n [] h = tt
  SortedFrom-versions n (r ∷ rs) h =
      (omega (arith, h.0), rw h.0 (SortedFrom-versions (n + 1) rs h.1))

  SortedFrom-positions :
      (n : ℕ) (rs : List EventRow)
      → IncreasingFrom n (map (recorded json) rs)
      → SortedFrom (λ r. r.global_seq) n rs
  SortedFrom-positions n [] h = tt
  SortedFrom-positions n (r ∷ rs) h = (omega (arith, h.0), SortedFrom-positions r.global_seq rs h.1)

  newer-recorded :
      (after : ℕ) (rs : List EventRow)
      → map (recorded json) (select (λ (r : EventRow). ltb after r.version) rs)
        ≡ newer after (map (recorded json) rs)
  newer-recorded after [] = refl
  newer-recorded after (r ∷ rs) = elim (Bool-cases (ltb after r.version)) [
    | inl e ↦ rw e (ap (λ l. recorded json r ∷ l) (newer-recorded after rs))
    | inr e ↦ rw e (newer-recorded after rs)
  ]

  behind-recorded :
      (after : ℕ) (rs : List EventRow)
      → map (recorded json) (select (λ (r : EventRow). ltb after r.global_seq) rs)
        ≡ behind after (map (recorded json) rs)
  behind-recorded after [] = refl
  behind-recorded after (r ∷ rs) = elim (Bool-cases (ltb after r.global_seq)) [
    | inl e ↦ rw e (ap (λ l. recorded json r ∷ l) (behind-recorded after rs))
    | inr e ↦ rw e (behind-recorded after rs)
  ]

  take-recorded :
      (n : ℕ) (rs : List EventRow)
      → map (recorded json) (take n rs) ≡ take n (map (recorded json) rs)
  take-recorded zero rs = refl
  take-recorded (suc n) [] = refl
  take-recorded (suc n) (r ∷ rs) = ap (λ l. recorded json r ∷ l) (take-recorded n rs)

  max_position-last :
      (n : ℕ) (r : EventRow) (rs : List EventRow)
      → IncreasingFrom n (map (recorded json) (r ∷ rs))
      → max_or_zero (map (λ (x : EventRow). x.global_seq) (r ∷ rs))
        ≡ seq_of_last (last? (map (recorded json) (r ∷ rs)))
  unfolding max_or_zero
  max_position-last n r [] h = ground arith
  max_position-last n r (x ∷ rs) h =
      max_or_zero_skip r.global_seq x.global_seq (map (λ (y : EventRow). y.global_seq) rs) h.1.0
      ∙ max_position-last r.global_seq x rs h.1

  head_position :
      (rs : List EventRow)
      → IncreasingFrom 0 (map (recorded json) rs)
      → max_or_zero (map (λ (r : EventRow). r.global_seq) rs)
        ≡ seq_of_last (last? (map (recorded json) rs))
  unfolding max_or_zero
  head_position [] h = refl
  head_position (r ∷ rs) h = max_position-last 0 r rs h

module _ (json : Json) (fault : Statement → EventsTable → Option Error) (s : EventsTable)
    (valid : IsTable json s) (reachable : fault query_rows s ≡ none) where
  queried-ok :
      (message : Text) (rows : List EventRow)
      → queried json fault s message rows ≡ scan_events json rows
  queried-ok message rows = rw (reachable, queried) refl

  load_shows :
      (sid : StreamId) (after : ℕ)
      → load json fault s sid after ≡ ok (drop after (events_of sid (log json s)))
  unfolding load
  load_shows sid after =
      let own = select (λ (r : EventRow). r.stream == sid) s.rows in
      let newest = select (λ (r : EventRow). ltb after r.version) own in
      let versions : VersionsFrom 0 (map (recorded json) own) =
        rw (events_of-recorded json sid s.rows) at (valid.versions sid) in
      let sorted =
        order_by-SortedFrom (λ r. r.version) 0 newest
          (select-SortedFrom (λ r. r.version) (λ r. ltb after r.version) 0 own
            (SortedFrom-versions json 0 own versions)) in
      let zero_left : after - 0 ≡ after = omega arith in
      queried-ok (lit "espostgres: load") (
        order_by (λ r. r.version)
          (select (λ (r : EventRow). r.stream == sid && ltb after r.version) s.rows))
      ∙ ap (λ l. scan_events json (order_by (λ r. r.version) l))
          (select_and (λ (r : EventRow). r.stream == sid) (λ r. ltb after r.version) s.rows)
      ∙ ap (scan_events json) sorted
      ∙ scan_events-recorded json newest (
          select-All (Readable json) (λ r. ltb after r.version) own
            (select-All (Readable json) (λ r. r.stream == sid) s.rows valid.readable))
      ∙ ap ok (
          newer-recorded json after own
          ∙ (rw zero_left at (newer-eq-drop after 0 (map (recorded json) own) versions))
          ∙ ap (drop after) (sym (events_of-recorded json sid s.rows)))

  read_limited :
      (after n : ℕ)
      → let found = select (λ (r : EventRow). ltb after r.global_seq) s.rows in
        scan_events json (take n found) ≡ ok (take n (behind after (log json s)))
  read_limited after n =
      let found = select (λ (r : EventRow). ltb after r.global_seq) s.rows in
      scan_events-recorded json (take n found) (
        take-All (Readable json) n found
          (select-All (Readable json) (λ r. ltb after r.global_seq) s.rows valid.readable))
      ∙ ap ok (take-recorded json n found ∙ ap (take n) (behind-recorded json after s.rows))

  read_unlimited :
      (after : ℕ)
      → scan_events json (select (λ (r : EventRow). ltb after r.global_seq) s.rows)
        ≡ ok (behind after (log json s))
  read_unlimited after =
      scan_events-recorded json (select (λ (r : EventRow). ltb after r.global_seq) s.rows)
        (select-All (Readable json) (λ r. ltb after r.global_seq) s.rows valid.readable)
      ∙ ap ok (behind-recorded json after s.rows)

  read_all_shows :
      (after : ℕ) (limit : ℤ)
      → read_all json fault s after limit ≡ ok (limited limit (behind after (log json s)))
  unfolding read_all
  read_all_shows after limit =
      let found = select (λ (r : EventRow). ltb after r.global_seq) s.rows in
      let sorted =
        order_by-SortedFrom (λ r. r.global_seq) 0 found
          (select-SortedFrom (λ r. r.global_seq) (λ r. ltb after r.global_seq) 0 s.rows
            (SortedFrom-positions json 0 s.rows valid.increasing)) in
      queried-ok (lit "espostgres: readall") (
        if is_pos limit
        then take (to_nat limit) (order_by (λ r. r.global_seq) found)
        else order_by (λ r. r.global_seq) found)
      ∙ ap (λ l. scan_events json (if is_pos limit then take (to_nat limit) l else l)) sorted
      ∙ (elim (Bool-cases (is_pos limit)) [
        | inl e ↦ rw e (read_limited after (to_nat limit))
        | inr e ↦ rw e (read_unlimited after)
      ])

  -- The three reads of a table that is well formed, where the query does not fail: they show the log
  -- that the table holds as the port's contract says, Load the events of the stream behind the
  -- version, ReadAll those behind the position, as many as the limit allows, and Head the position
  -- of the last.
  pub reads-eq-log :
      ((sid : StreamId) (after : ℕ)
        → load json fault s sid after ≡ ok (drop after (events_of sid (log json s))))
      × ((after : ℕ) (limit : ℤ)
          → read_all json fault s after limit ≡ ok (limited limit (behind after (log json s))))
      × (head json fault s ≡ ok (seq_of_last (last? (log json s))))
  unfolding head
  reads-eq-log = (
    load_shows,
    read_all_shows,
    rw (reachable, head) (ap ok (head_position json s.rows valid.increasing)),
  )
