-- ===== src/EventStore/Memory.antt =====
-- eventstore/memory.go. Each method runs under the mutex, so it is one step. The clones of payloads
-- and metadata are the values themselves: nothing here is mutated in place.
pub mod Invariant
pub mod Reading
pub mod Implements
use gohex.Prelude.{
  ℕ, suc, ◌+◌, Bool, ◌&&◌, Option, none, some, List, [], ◌∷◌, ◌++◌, ℤ, is_pos, to_nat, length,
  get_elem?, last?, ltb, leb, eqb, if◌then◌else◌,
}
use gohex.Prelude.Map.{Map, get, put}
use gohex.Prelude.Text.{lit}
use gohex.Kernel.Errors.{Error, version_conflict, wrap}
use gohex.Kernel.Result.{Result, ok, err, panic, ◌>>=◌}
use gohex.EventStore.Types.{StreamId, stream_eq, EventData, RecordedEvent, Store}

pub record MemoryStore : Type 0 where
  pub all : List RecordedEvent
  pub streams : Map StreamId (List ℕ)  -- indexes into `all`, in version order

abbrev pub new_memory_store : MemoryStore
new_memory_store = record { all = []; streams = [] }

-- s.streams[stream]; a missing key reads as the nil slice.
unfoldable pub indexes : MemoryStore → StreamId → List ℕ
indexes s stream = elim (get s.streams stream) [ none ↦ [] | some l ↦ l ]

unfoldable pub stamp : StreamId → ℕ → ℕ → ℕ → EventData → RecordedEvent
stamp stream now seq version e = record {
  global_seq = seq;
  stream = stream;
  version = version;
  event_name = e.event_name;
  schema_version = e.schema_version;
  payload = e.payload;
  metadata = e.metadata;
  occurred_at = now;
}

-- The body of the loop of Append.
unfoldable pub append_one : StreamId → ℕ → ℕ → MemoryStore → EventData → MemoryStore
unfolding indexes
append_one stream now version s e = record {
  all = s.all ++ stamp stream now (length s.all + 1) version e ∷ [];
  streams = put s.streams stream (indexes s stream ++ length s.all ∷ []);
}

-- for i, e := range events, with `version` for expectedVersion + i.
unfoldable pub append_loop : StreamId → ℕ → ℕ → MemoryStore → List EventData → MemoryStore
unfolding append_one
append_loop stream now version s [] = s
append_loop stream now version s (e ∷ es) =
    append_loop stream now (version + 1) (append_one stream now (version + 1) s e) es

-- s.all[len(s.all)-1].GlobalSeq
unfoldable pub last_seq : List RecordedEvent → Result ℕ
last_seq all = elim (last? all) [ none ↦ panic | some rec ↦ ok rec.global_seq ]

unfoldable pub append : MemoryStore → ℕ → StreamId → ℕ → List EventData → MemoryStore × Result ℕ
unfolding append_loop last_seq
append s now stream expected [] = (s, ok 0)
append s now stream expected (e ∷ es) =
    if eqb (length (indexes s stream)) expected
    then (let s' = append_loop stream now expected s (e ∷ es) in (s', last_seq s'.all))
    else (s, err (wrap (lit "stream at version") version_conflict))

-- The loop of Load over the stream's indexes; an index out of range panics.
unfoldable pub load_loop : List RecordedEvent → ℕ → List ℕ → Result (List RecordedEvent)
load_loop all after [] = ok []
load_loop all after (idx ∷ rest) = elim (get_elem? all idx) [
  | none ↦ panic
  | some rec ↦ (do
    out ← load_loop all after rest
    ok (if ltb after rec.version then rec ∷ out else out))
]

unfoldable pub load : MemoryStore → StreamId → ℕ → Result (List RecordedEvent)
unfolding indexes load_loop
load s stream after = load_loop s.all after (indexes s stream)

-- The loop of ReadAll with `n` events taken.
unfoldable pub read_loop : ℕ → ℤ → ℕ → List RecordedEvent → List RecordedEvent
read_loop after limit n [] = []
read_loop after limit n (rec ∷ rest) =
    let skipped = read_loop after limit n rest in
    let more = read_loop after limit (n + 1) rest in
    if leb rec.global_seq after
    then skipped
    else if is_pos limit && eqb (n + 1) (to_nat limit)
    then rec ∷ []
    else rec ∷ more

unfoldable pub read_all : MemoryStore → ℕ → ℤ → Result (List RecordedEvent)
unfolding read_loop
read_all s after limit = ok (read_loop after limit 0 s.all)

unfoldable pub head : MemoryStore → Result ℕ
unfolding last_seq
head s = elim s.all [ [] ↦ ok 0 | r ∷ rs ↦ last_seq (r ∷ rs) ]

abbrev pub memory_store : Store MemoryStore
memory_store = record { append = append; load = load; read_all = read_all; head = head }
