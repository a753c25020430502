-- ===== src/EventStore/Memory/Invariant.antt =====
-- eventstore/memory.go: the well-formed states, and Append on them.
use gohex.Prelude.{
  ℕ, suc, ◌+◌, ◌≡◌, refl, ap, sym, ◌∙◌, inl, inr, List, [], ◌∷◌, ◌++◌, append-nil, arith, length,
  length-append, select-append, if◌then◌else◌, eqb, eqb_iff, Bool-cases,
}
use gohex.Prelude.EqClass.{◌==◌}
use gohex.Prelude.Map.{get, get-put}
use gohex.EventStore.Types.{StreamId, stream_eq, stream_beq_iff, EventData, RecordedEvent}
use gohex.EventStore.Contract.{events_of, VersionsFrom}
use gohex.EventStore.Memory.{
  MemoryStore, new_memory_store, indexes, stamp, append_one, append_loop, append,
}

abbrev pub NumberedFrom : ℕ → List RecordedEvent → Type 0
NumberedFrom n [] = Unit
NumberedFrom n (r ∷ rs) = (r.global_seq ≡ n + 1) × NumberedFrom (n + 1) rs

-- The indexes at which a stream's events stand, counted from `i`.
abbrev pub positions : StreamId → ℕ → List RecordedEvent → List ℕ
positions sid i [] = []
positions sid i (r ∷ rs) =
    if r.stream == sid then i ∷ positions sid (i + 1) rs else positions sid (i + 1) rs

-- Global positions count from 1, the index of each stream lists its events, and the versions of
-- each stream count from 1.
pub record IsValid (s : MemoryStore) : Type 0 where
  pub numbered : NumberedFrom 0 s.all
  pub index : (sid : StreamId) → indexes s sid ≡ positions sid 0 s.all
  pub versions : (sid : StreamId) → VersionsFrom 0 (events_of sid s.all)

pub new_memory_store-IsValid : IsValid new_memory_store
unfolding indexes get
new_memory_store-IsValid = record { numbered = tt; index = λ sid. refl; versions = λ sid. tt }

pub NumberedFrom-append_one :
    (n : ℕ) (l : List RecordedEvent) (r : RecordedEvent)
    → NumberedFrom n l
    → r.global_seq ≡ n + length l + 1
    → NumberedFrom n (l ++ r ∷ [])
NumberedFrom-append_one n [] r h e = (omega arith, tt)
NumberedFrom-append_one n (x ∷ l) r h e =
    (h.0, NumberedFrom-append_one (n + 1) l r h.1 (omega arith))

pub VersionsFrom-append_one :
    (n : ℕ) (l : List RecordedEvent) (r : RecordedEvent)
    → VersionsFrom n l
    → r.version ≡ n + length l + 1
    → VersionsFrom n (l ++ r ∷ [])
VersionsFrom-append_one n [] r h e = (omega arith, tt)
VersionsFrom-append_one n (x ∷ l) r h e =
    (h.0, VersionsFrom-append_one (n + 1) l r h.1 (omega arith))

pub positions-append_one :
    (sid : StreamId) (i : ℕ) (l : List RecordedEvent) (r : RecordedEvent)
    → positions sid i (l ++ r ∷ [])
      ≡ positions sid i l ++ (if r.stream == sid then (i + length l) ∷ [] else [])
positions-append_one sid i [] r = elim (Bool-cases (r.stream == sid)) [
  | inl e ↦ rw e (ap (λ k. k ∷ []) (omega arith))
  | inr e ↦ rw e
]
positions-append_one sid i (x ∷ l) r =
    let k : i + 1 + length l ≡ i + suc (length l) = omega arith in
    let ih = positions-append_one sid (i + 1) l r in
    elim (Bool-cases (x.stream == sid)) [ inl e ↦ rw (e, ih, k) | inr e ↦ rw (e, ih, k) ]

pub length-positions :
    (sid : StreamId) (i : ℕ) (l : List RecordedEvent)
    → length (positions sid i l) ≡ length (events_of sid l)
length-positions sid i [] = refl
length-positions sid i (x ∷ l) = elim (Bool-cases (x.stream == sid)) [
  | inl e ↦ rw e (ap suc (length-positions sid (i + 1) l))
  | inr e ↦ rw e (length-positions sid (i + 1) l)
]

pub length-indexes :
    (s : MemoryStore) (sid : StreamId)
    → IsValid s
    → length (indexes s sid) ≡ length (events_of sid s.all)
length-indexes s sid v = rw (v.index sid) (length-positions sid 0 s.all)

module _ (stream : StreamId) (now version : ℕ) (s : MemoryStore) (e : EventData) where
  abbrev new_rec : RecordedEvent
  new_rec = stamp stream now (length s.all + 1) version e

  indexes-append_one :
      (sid : StreamId)
      → indexes (append_one stream now version s e) sid
        ≡ (if stream == sid then indexes s stream ++ length s.all ∷ [] else indexes s sid)
  unfolding append_one indexes
  indexes-append_one sid =
      ground (arith, get-put s.streams stream sid (indexes s stream ++ length s.all ∷ []))

  index_after :
      IsValid s
      → (sid : StreamId)
      → indexes (append_one stream now version s e) sid
        ≡ positions sid 0 (append_one stream now version s e).all
  unfolding append_one stamp
  index_after v sid =
      let at_zero : 0 + length s.all ≡ length s.all = omega arith in
      elim (Bool-cases (stream == sid)) [
        | inl same ↦
            let p : stream ≡ sid = (stream_beq_iff stream sid).0 same in
            rw (indexes-append_one sid, positions-append_one sid 0 s.all new_rec, at_zero, same)
              (ap (λ l. l ++ length s.all ∷ []) (ap (indexes s) p ∙ v.index sid))
        | inr other ↦
            rw (indexes-append_one sid, positions-append_one sid 0 s.all new_rec, at_zero, other)
              (v.index sid ∙ sym (append-nil (positions sid 0 s.all)))
      ]

  versions_after :
      IsValid s
      → version ≡ length (indexes s stream) + 1
      → (sid : StreamId) → VersionsFrom 0 (events_of sid (append_one stream now version s e).all)
  unfolding append_one stamp
  versions_after v h sid =
      rw (select-append (λ (r : RecordedEvent). r.stream == sid) s.all (new_rec ∷ []))
        (elim (Bool-cases (stream == sid)) [
          | inl same ↦
              let p : stream ≡ sid = (stream_beq_iff stream sid).0 same in
              rw same (
                VersionsFrom-append_one 0 (events_of sid s.all) new_rec (v.versions sid) (
                  omega
                    (arith, h, length-indexes s stream v, ap (λ k. length (events_of k s.all)) p)))
          | inr other ↦ rw (other, append-nil (events_of sid s.all)) (v.versions sid)
        ])

  append_one-IsValid :
      IsValid s
      → version ≡ length (indexes s stream) + 1
      → IsValid (append_one stream now version s e)
  append_one-IsValid v h = record {
    numbered =
        unfold append_one stamp in NumberedFrom-append_one 0 s.all new_rec v.numbered (omega arith);
    index = index_after v;
    versions = versions_after v h;
  }

  pub length-indexes-append_one :
      length (indexes (append_one stream now version s e) stream) ≡ length (indexes s stream) + 1
  length-indexes-append_one =
      rw (indexes-append_one stream, (stream_beq_iff stream stream).1 refl)
        (omega (arith, length-append (indexes s stream) (length s.all ∷ [])))

pub append_loop-IsValid :
    (stream : StreamId) (now version : ℕ) (s : MemoryStore) (es : List EventData)
    → IsValid s
    → version ≡ length (indexes s stream)
    → IsValid (append_loop stream now version s es)
unfolding append_loop
append_loop-IsValid stream now version s [] v h = v
append_loop-IsValid stream now version s (e ∷ es) v h =
    append_loop-IsValid stream now (version + 1) (append_one stream now (version + 1) s e) es
      (append_one-IsValid stream now (version + 1) s e v (omega arith))
      (omega (arith, length-indexes-append_one stream now (version + 1) s e))

-- Append keeps the store well formed, whether it stores the events, stores nothing because there
-- are none, or refuses the expected version.
pub append-IsValid :
    (s : MemoryStore) (now : ℕ) (stream : StreamId) (expected : ℕ) (es : List EventData)
    → IsValid s
    → IsValid (append s now stream expected es).0
unfolding append
append-IsValid s now stream expected [] v = v
append-IsValid s now stream expected (e ∷ es) v =
    elim (Bool-cases (eqb (length (indexes s stream)) expected)) [
      | inl same ↦ rw same (
          append_loop-IsValid stream now expected s (e ∷ es) v
            (sym ((eqb_iff (length (indexes s stream)) expected).0 same)))
      | inr other ↦ rw other v
    ]
