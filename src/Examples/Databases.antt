-- ===== src/Examples/Databases.antt =====
-- The database adapters at concrete inputs.
use gohex.Prelude.{
  ℕ, zero, suc, ◌≡◌, ◌≢◌, refl, ap, sym, subst, true, false, none, some, Option, List, [], ◌∷◌, pos,
  ◌⊎◌, inl, ℤ, All, length, map, drop, eqb, last?, if◌then◌else◌, arith,
}
use gohex.Prelude.Map.{Map}
use gohex.Prelude.Text.{Text, text_beq, lit}
use gohex.Kernel.Errors.{Error, plain, version_conflict, errors_is}
use gohex.Kernel.Result.{Result, ok, err}
use gohex.EventStore.Types.{StreamId, EventData}
use gohex.EventStore.Contract.{events_of, behind, limited, seq_of_last, IsAppended}
use gohex.EventStore.Postgres.{
  EventsTable, empty_events, Statement, insert_event, Json, marshal_metadata, append,
}
use gohex.EventStore.Postgres.Query.{load, read_all, head}
use gohex.EventStore.Postgres.Table.{log, IsTable}
use gohex.EventStore.Postgres.Growth.{IsJson, canonical, Accepted}
use gohex.EventStore.Postgres.Atomic.{append_all_or_nothing, append_decides}
use gohex.EventStore.Postgres.Reading.{reads-eq-log}
use gohex.Cqrs.Wire.{Remembers}
use gohex.Cqrs.Postgres.{ProcessedTable, postgres_deduplicator, postgres_deduplicator-Remembers}
use gohex.Broker.Message.{Message}
use gohex.Projection.Inbox.{write_inbox}
use gohex.Projection.Postgres.Order.{Shuffled}
use gohex.Projection.Postgres.Order
use gohex.Projection.Postgres.{
  InboxRow, InboxTable, append_row, insert_new, holds_id, empty_inbox, MessageJson, read_rows,
}
use gohex.Projection.Inbox.Collapse.{first_of_each}
use gohex.Projection.Postgres.Rows
use gohex.Projection.Postgres.Rows.{Scanned, write_rows, inbox_keeps_first}
use gohex.Examples.Codecs.{write_text, read_text, behind_text, codec_laws}

-- Pairs of texts, one after the other.
abbrev write_pairs : Map Text Text → Text
write_pairs [] = []
write_pairs ((k, v) ∷ m) = write_text k (write_text v (write_pairs m))

abbrev read_pairs : ℕ → Text → Map Text Text
read_pairs zero t = []
read_pairs (suc n) t =
    (read_text t, read_text (behind_text t)) ∷ read_pairs n (behind_text (behind_text t))

read_pairs-write_pairs : (m : Map Text Text) → read_pairs (length m) (write_pairs m) ≡ m
read_pairs-write_pairs [] = refl
read_pairs-write_pairs ((k, v) ∷ m) = simp (codec_laws, read_pairs-write_pairs m)

abbrev read_map : Text → Map Text Text
read_map [] = []
read_map (b ∷ []) = []
read_map (b ∷ n ∷ t) = read_pairs n t

-- jsonb takes every text as it is.
abbrev json : Json
json = record {
  encode = λ m. inl (0 ∷ length m ∷ write_pairs m);
  decode = λ t. inl (read_map t);
  jsonb = λ t. inl t;
}

kept :
    (kv : Text × Text) (m : Map Text Text) (t t' : Text)
    → json.encode (kv ∷ m) ≡ inl t
    → json.jsonb t ≡ inl t'
    → t' ≡ 0 ∷ length (kv ∷ m) ∷ write_pairs (kv ∷ m)
kept kv m t t' h k = cc

json-IsJson : IsJson json
unfolding text_beq
json-IsJson = record {
  empty_object = refl;
  metadata_kept = λ kv m t t' h k.
      rw (kept kv m t t' h k) (ap (λ l. inl l) (read_pairs-write_pairs (kv ∷ m)), refl);
}

abbrev order_stream : StreamId
order_stream = record { category = lit "order"; id = lit "o1" }

abbrev placed : EventData
placed = record {
  event_name = lit "ordering.order_placed";
  schema_version = 1;
  payload = lit "{}";
  metadata = some ((lit "traceparent", lit "t1") ∷ []);
}

abbrev notified : EventData
notified = record {
  event_name = lit "ordering.customer_notified";
  schema_version = 1;
  payload = lit "{}";
  metadata = some [];
}

empty_events-IsTable : IsTable json empty_events
empty_events-IsTable = record {
  increasing = tt;
  below = omega arith;
  versions = λ sid. tt;
  readable = tt;
}

abbrev none_lost : EventsTable → ℕ
none_lost t = 0

-- The second INSERT fails.
abbrev second_fails : Statement → EventsTable → Option Error
second_fails (insert_event n) t = if eqb n 2 then some (plain (lit "connection lost")) else none
second_fails st t = none

abbrev broken_off : EventsTable × Result ℕ
broken_off =
    append json second_fails none_lost empty_events 7 order_stream 0 (placed ∷ notified ∷ [])

append_all_or_nothing_example :
    IsTable json broken_off.0
    × (((seq : ℕ) × (broken_off.1 ≡ ok seq)
          × (0 ≡ length (events_of order_stream (log json empty_events)))
          × IsAppended order_stream
              (map (canonical json) (placed ∷ notified ∷ []))
              (log json empty_events)
              (log json broken_off.0)
              seq)
        ⊎ ((x : Error) × (broken_off.1 ≡ err x) × (broken_off.0.rows ≡ empty_events.rows)))
append_all_or_nothing_example =
    append_all_or_nothing json json-IsJson second_fails none_lost 7 order_stream empty_events
      empty_events-IsTable 0 placed (notified ∷ [])

abbrev no_fault : Statement → EventsTable → Option Error
no_fault st t = none

both-Accepted : All (Accepted json) (placed ∷ notified ∷ [])
unfolding marshal_metadata
both-Accepted = (
  (placed.payload, 0 ∷ 1 ∷ write_pairs ((lit "traceparent", lit "t1") ∷ []), _, refl, refl, refl),
  ((notified.payload, lit "{}", lit "{}", refl, refl, refl), tt),
)

abbrev appended : EventsTable × Result ℕ
appended = append json no_fault none_lost empty_events 7 order_stream 0 (placed ∷ notified ∷ [])

append_decides_example :
    ((0 ≡ length (events_of order_stream (log json empty_events)))
      × (seq : ℕ) × (appended.1 ≡ ok seq)
      × IsAppended order_stream
          (map (canonical json) (placed ∷ notified ∷ []))
          (log json empty_events)
          (log json appended.0)
          seq)
    ⊎ ((0 ≢ length (events_of order_stream (log json empty_events)))
        × (x : Error) × (appended ≡ (empty_events, err x))
        × (errors_is x version_conflict ≡ true))
append_decides_example =
    append_decides json json-IsJson no_fault none_lost 7 order_stream empty_events
      empty_events-IsTable (λ st t. refl) 0 placed (notified ∷ []) both-Accepted

appended-IsTable : IsTable json appended.0
appended-IsTable =
    (append_all_or_nothing json json-IsJson no_fault none_lost 7 order_stream empty_events
      empty_events-IsTable 0 placed (notified ∷ [])).0

reads-eq-log_example :
    ((sid : StreamId) (after : ℕ)
      → load json no_fault appended.0 sid after
        ≡ ok (drop after (events_of sid (log json appended.0))))
    × ((after : ℕ) (limit : ℤ)
        → read_all json no_fault appended.0 after limit
          ≡ ok (limited limit (behind after (log json appended.0))))
    × (head json no_fault appended.0 ≡ ok (seq_of_last (last? (log json appended.0))))
reads-eq-log_example = reads-eq-log json no_fault appended.0 appended-IsTable refl

-- Inserts fail once three messages are marked.
abbrev full : ProcessedTable → Option Error
full t = if eqb (length t) 3 then some (plain (lit "disk full")) else none

postgres_deduplicator-Remembers_example : Remembers (postgres_deduplicator (λ t. none) full)
postgres_deduplicator-Remembers_example =
    postgres_deduplicator-Remembers (λ t. none) full (λ t. refl)

abbrev message : Text → Text → Message
message id payload = record {
  id = id;
  key = lit "o1";
  type_name = lit "billing.payment_captured";
  version = pos 1;
  occurred_at = 5;
  payload = payload;
  metadata = none;
}

abbrev read_message : Text → Message
read_message t =
    let u = behind_text t in
    record {
      id = read_text t;
      key = lit "o1";
      type_name = lit "billing.payment_captured";
      version = pos 1;
      occurred_at = 5;
      payload = u;
      metadata = none;
    }

abbrev message_json : MessageJson
message_json = record {
  encode = λ m. inl (write_text m.id m.payload);
  decode = λ t. inl (read_message t);
  jsonb = λ t. inl t;
}

-- The first message comes twice, the second time with another payload.
abbrev arriving : List Message
arriving =
    message (lit "m1") (lit "{}")
    ∷ message (lit "m1") (lit "[]")
    ∷ message (lit "m2") (lit "{}")
    ∷ []

abbrev first_row : InboxRow
first_row = record { seq = 1; id = lit "m1"; message = write_text (lit "m1") (lit "{}") }

abbrev last_row : InboxRow
last_row = record { seq = 3; id = lit "m2"; message = write_text (lit "m2") (lit "{}") }

abbrev written : InboxTable
written = write_rows message_json (λ st t. none) empty_inbox arriving

written_rows : written.rows ≡ first_row ∷ last_row ∷ []
unfolding write_rows write_inbox append_row insert_new holds_id text_beq
written_rows = refl

-- The database reads the last row first.
shuffled : Shuffled (last_row ∷ first_row ∷ []) written.rows
shuffled = subst (Shuffled (last_row ∷ first_row ∷ [])) (sym written_rows) (
    Order.placed (last_row ∷ []) [] (last_row ∷ []) first_row
      (Order.placed [] [] [] last_row Order.nothing))

inbox_keeps_first_example :
    Scanned message_json
      (λ st t. none)
      0
      (read_rows message_json
        (λ st t. none)
        (record written { rows = last_row ∷ first_row ∷ [] })
        0
        (pos 0))
      (map (Rows.canonical message_json) (first_of_each (λ id. false) arriving))
inbox_keeps_first_example =
    inbox_keeps_first message_json (λ st t. none) (λ st t. refl) arriving
      (
        record { payload = _; stored = _; encodes = refl; taken = refl; decodes = refl },
        (
          record { payload = _; stored = _; encodes = refl; taken = refl; decodes = refl },
          (record { payload = _; stored = _; encodes = refl; taken = refl; decodes = refl }, tt),
        ),
      )
      (last_row ∷ first_row ∷ []) shuffled
