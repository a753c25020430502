-- ===== src/EventStore/Contract.antt =====
-- eventstore/store.go: the contract that the comments of the port state, as laws over an abstract
-- log.
pub mod Streams
use gohex.Prelude.{
  ℕ, suc, ◌+◌, ◌<◌, ◌≡◌, ◌≢◌, true, Bool, List, [], ◌∷◌, ◌++◌, ℤ, is_pos, to_nat, length, select,
  take, drop, last?, All, ltb, if◌then◌else◌, Option, none, some,
}
use gohex.Prelude.EqClass.{◌==◌}
use gohex.Kernel.Errors.{Error, version_conflict, errors_is}
use gohex.Kernel.Result.{Result, ok, err}
use gohex.EventStore.Types.{StreamId, stream_eq, EventData, RecordedEvent, Store}

-- The events of one stream, in the order of the log.
abbrev pub events_of : StreamId → List RecordedEvent → List RecordedEvent
events_of sid log = select (λ r. r.stream == sid) log

-- The events behind a position.
abbrev pub behind : ℕ → List RecordedEvent → List RecordedEvent
behind after log = select (λ r. ltb after r.global_seq) log

-- At most `limit` of them; a limit that is not positive is none.
abbrev pub limited {ℓ} : {A : Type ℓ} → ℤ → List A → List A
limited limit l = if is_pos limit then take (to_nat limit) l else l

-- What was appended, with the positions forgotten.
abbrev pub data_of : RecordedEvent → EventData
data_of r = record {
  event_name = r.event_name;
  schema_version = r.schema_version;
  payload = r.payload;
  metadata = r.metadata;
}

-- `rs` records `es` in a stream, with the versions behind `v`.
abbrev pub Records : StreamId → ℕ → List EventData → List RecordedEvent → Type 0
Records sid v [] [] = Unit
Records sid v [] (r ∷ rs) = ⊥
Records sid v (e ∷ es) [] = ⊥
Records sid v (e ∷ es) (r ∷ rs) =
    (r.stream ≡ sid) × (r.version ≡ v + 1) × (data_of r ≡ e) × Records sid (v + 1) es rs

-- Global positions grow strictly, from a bound on.
abbrev pub IncreasingFrom : ℕ → List RecordedEvent → Type 0
IncreasingFrom n [] = Unit
IncreasingFrom n (r ∷ rs) = (n < r.global_seq) × IncreasingFrom r.global_seq rs

-- The versions of a stream's events count from `n` + 1.
abbrev pub VersionsFrom : ℕ → List RecordedEvent → Type 0
VersionsFrom n [] = Unit
VersionsFrom n (r ∷ rs) = (r.version ≡ n + 1) × VersionsFrom (n + 1) rs

abbrev pub seq_of_last : Option RecordedEvent → ℕ
seq_of_last none = 0
seq_of_last (some r) = r.global_seq

-- A well-formed log: what ReadAll and Load may be relied on to show.
pub record IsLog (log : List RecordedEvent) : Type 0 where
  pub increasing : IncreasingFrom 0 log
  pub versions : (sid : StreamId) → VersionsFrom 0 (events_of sid log)

-- The outcome of an append that the store accepts, and of one that it refuses.
pub record IsAppended (sid : StreamId) (es : List EventData) (before after : List RecordedEvent)
    (seq : ℕ) : Type 0 where
  pub recs : List RecordedEvent
  pub appended : after ≡ before ++ recs
  pub recorded : Records sid (length (events_of sid before)) es recs
  pub last : seq ≡ seq_of_last (last? after)

pub record Contract {S : Type 0} (st : Store S) (IsValid : S → Type 0)
    (log : S → List RecordedEvent) : Type 0 where
  pub log-IsLog : (s : S) → IsValid s → IsLog (log s)
  pub append-IsValid :
      (s : S) (now : ℕ) (sid : StreamId) (v : ℕ) (es : List EventData)
      → IsValid s
      → IsValid (st.append s now sid v es).0
  pub append_empty :
      (s : S) (now : ℕ) (sid : StreamId) (v : ℕ) → st.append s now sid v [] ≡ (s, ok 0)
  pub append_at_version :
      (s : S) (now : ℕ) (sid : StreamId) (v : ℕ) (e : EventData) (es : List EventData)
      → IsValid s
      → v ≡ length (events_of sid (log s))
      → (seq : ℕ) × ((st.append s now sid v (e ∷ es)).1 ≡ ok seq)
        × IsAppended sid (e ∷ es) (log s) (log (st.append s now sid v (e ∷ es)).0) seq
  pub append_conflict :
      (s : S) (now : ℕ) (sid : StreamId) (v : ℕ) (e : EventData) (es : List EventData)
      → IsValid s
      → v ≢ length (events_of sid (log s))
      → (x : Error) × (st.append s now sid v (e ∷ es) ≡ (s, err x))
        × (errors_is x version_conflict ≡ true)
  pub load_lem :
      (s : S) (sid : StreamId) (after : ℕ)
      → IsValid s
      → st.load s sid after ≡ ok (drop after (events_of sid (log s)))
  pub read_all_lem :
      (s : S) (after : ℕ) (limit : ℤ)
      → IsValid s
      → st.read_all s after limit ≡ ok (limited limit (behind after (log s)))
  pub head_lem : (s : S) → IsValid s → st.head s ≡ ok (seq_of_last (last? (log s)))
