-- ===== src/EventStore/Memory/Implements.antt =====
-- eventstore/memory.go and the contract of eventstore/store.go.
use gohex.Prelude.{
  ℕ, ◌+◌, ◌≡◌, ◌≢◌, refl, ap, sym, ◌∙◌, inl, inr, true, List, [], ◌∷◌, ◌++◌, append-nil,
  append_assoc, arith, length, last?, eqb, eqb_iff, Bool-cases, length-append,
}
use gohex.Prelude.Text.{lit}
use gohex.Kernel.Errors.{Error, version_conflict, wrap, errors_is}
use gohex.Kernel.Result.{ok, err}
use gohex.EventStore.Types.{StreamId, EventData, RecordedEvent}
use gohex.EventStore.Contract.{events_of, Records, IsLog, IsAppended, Contract, seq_of_last}
use gohex.EventStore.Memory.{
  MemoryStore, indexes, stamp, append_one, append_loop, append, last_seq, memory_store,
}
use gohex.EventStore.Memory.Invariant.{IsValid, append-IsValid, length-indexes}
use gohex.EventStore.Memory.Reading.{
  load-eq-drop, read_all-eq-behind, head-eq-last, last_seq_of_cons, IncreasingFrom-of_NumberedFrom,
}

-- The records that the loop of Append makes, with `seq` for the number of events in the store.
abbrev pub stamps : StreamId → ℕ → ℕ → ℕ → List EventData → List RecordedEvent
stamps stream now seq version [] = []
stamps stream now seq version (e ∷ es) =
    stamp stream now (seq + 1) (version + 1) e ∷ stamps stream now (seq + 1) (version + 1) es

all-append_loop :
    (stream : StreamId) (now version n : ℕ) (s : MemoryStore) (es : List EventData)
    → n ≡ length s.all
    → (append_loop stream now version s es).all ≡ s.all ++ stamps stream now n version es
unfolding append_loop
all-append_loop stream now version n s [] h = sym (append-nil s.all)
all-append_loop stream now version n s (e ∷ es) h =
    let one : (append_one stream now (version + 1) s e).all
        ≡ s.all ++ stamp stream now (n + 1) (version + 1) e ∷ [] =
      unfold append_one in rw h refl in
    all-append_loop stream now (version + 1) (n + 1) (append_one stream now (version + 1) s e) es (
      omega (
        arith,
        h,
        ap (λ (l : List RecordedEvent). length l) one,
        length-append s.all (stamp stream now (n + 1) (version + 1) e ∷ []),
      ))
    ∙ rw (one, append_assoc)

stamps-Records :
    (stream : StreamId) (now seq version : ℕ) (es : List EventData)
    → Records stream version es (stamps stream now seq version es)
unfolding stamp
stamps-Records stream now seq version [] = tt
stamps-Records stream now seq version (e ∷ es) =
    (refl, refl, refl, stamps-Records stream now (seq + 1) (version + 1) es)

last_seq_of_append_cons :
    (l rest : List RecordedEvent) (r : RecordedEvent)
    → last_seq (l ++ r ∷ rest) ≡ ok (seq_of_last (last? (l ++ r ∷ rest)))
last_seq_of_append_cons [] rest r = last_seq_of_cons r rest
last_seq_of_append_cons (x ∷ l) rest r = last_seq_of_cons x (l ++ r ∷ rest)

module _ (s : MemoryStore) (now : ℕ) (sid : StreamId) (v : ℕ) (e : EventData)
    (es : List EventData) where
  append_stored :
      eqb (length (indexes s sid)) v ≡ true
      → append s now sid v (e ∷ es)
        ≡ (append_loop sid now v s (e ∷ es), last_seq (append_loop sid now v s (e ∷ es)).all)
  unfolding append
  append_stored h = rw h

  append_accepted :
      IsValid s
      → v ≡ length (events_of sid s.all)
      → (seq : ℕ) × ((append s now sid v (e ∷ es)).1 ≡ ok seq)
        × IsAppended sid (e ∷ es) s.all (append s now sid v (e ∷ es)).0.all seq
  append_accepted valid h =
      let same : eqb (length (indexes s sid)) v ≡ true =
        (eqb_iff (length (indexes s sid)) v).1 (length-indexes s sid valid ∙ sym h) in
      let recs : List RecordedEvent = stamps sid now (length s.all) v (e ∷ es) in
      let grown : (append_loop sid now v s (e ∷ es)).all ≡ s.all ++ recs =
        all-append_loop sid now v (length s.all) s (e ∷ es) refl in
      rw (append_stored same, grown)
        (
          seq_of_last (last? (s.all ++ recs)),
          last_seq_of_append_cons s.all (stamps sid now (length s.all + 1) (v + 1) es)
              (stamp sid now (length s.all + 1) (v + 1) e),
          record {
            recs = recs;
            appended = refl;
            recorded = rw (← h) (stamps-Records sid now (length s.all) v (e ∷ es));
            last = refl;
          },
        )

  append_refused :
      IsValid s
      → v ≢ length (events_of sid s.all)
      → (x : Error) × (append s now sid v (e ∷ es) ≡ (s, err x))
        × (errors_is x version_conflict ≡ true)
  unfolding append errors_is
  append_refused valid h = elim (Bool-cases (eqb (length (indexes s sid)) v)) [
    | inl same ↦
        absurd (h (sym ((eqb_iff (length (indexes s sid)) v).0 same) ∙ length-indexes s sid valid))
    | inr other ↦ (wrap (lit "stream at version") version_conflict, rw other, refl)
  ]

IsValid-IsLog : (s : MemoryStore) → IsValid s → IsLog s.all
IsValid-IsLog s v = record {
  increasing = IncreasingFrom-of_NumberedFrom 0 s.all v.numbered;
  versions = v.versions;
}

-- MemoryStore meets the contract of the port: appends are atomic, stored exactly at the expected
-- version and otherwise refused as a version conflict with nothing changed; Load, ReadAll and Head
-- show the log; and no index is out of range.
pub memory_store-Contract : Contract memory_store IsValid (λ s. s.all)
memory_store-Contract = record {
  log-IsLog = IsValid-IsLog;
  append-IsValid = append-IsValid;
  append_empty = λ s now sid v. unfold append in refl;
  append_at_version = append_accepted;
  append_conflict = append_refused;
  load_lem = load-eq-drop;
  read_all_lem = λ s after limit v. read_all-eq-behind s after limit;
  head_lem = λ s v. head-eq-last s;
}
