-- ===== src/EventStore/Repository.antt =====
-- eventstore/repository.go: loading and saving event-sourced aggregates over the port.
pub mod RoundTrip
pub mod Concurrency
use gohex.Prelude.{ℕ, zero, Option, none, some, List, [], ◌∷◌}
use gohex.Prelude.Text.{Text, lit}
use gohex.Kernel.Errors.{Error, domain, wrap}
use gohex.Kernel.Result.{Result, ok, err, panic, ◌>>=◌}
use gohex.Kernel.Event.{DomainEvent}
use gohex.Kernel.Aggregate.{
  Applies, Aggregate, new_aggregate, version, uncommitted_events, take_uncommitted, rehydrate,
}
use gohex.EventStore.Types.{StreamId, Metadata, EventData, RecordedEvent, Store, err_not_found}
use gohex.EventStore.Position.{
  Context, Positions, Extractor, metadata_from_context, record_position,
}
use gohex.EventStore.Registry.{Registry, encode, decode}

-- The store itself is the state that Load and Save are given. `zero` is what `newAgg` returns.
pub record Repository (S A E : Type 0) : Type 0 where
  pub store : Store S
  pub registry : Registry E
  pub category : Text
  pub zero : A

-- What Save leaves behind: the store, the captured positions, the aggregate and the error.
pub record Saved (S A E : Type 0) : Type 0 where
  pub store : S
  pub positions : Positions
  pub agg : Aggregate A E
  pub result : Result (Unit {0})

unfoldable pub decode_all {ℓ} : {E : Type ℓ} → Registry E → List RecordedEvent → Result (List E)
decode_all reg [] = ok []
decode_all reg (rec ∷ recs) = do e ← decode reg rec; es ← decode_all reg recs; ok (e ∷ es)

unfoldable pub encode_all {ℓ} :
    {E : Type ℓ} ⦃ev : DomainEvent E⦄ → Registry E → Metadata → List E → Result (List EventData)
encode_all reg metadata [] = ok []
encode_all reg metadata (e ∷ es) = do
  data_e ← encode reg e
  rest ← encode_all reg metadata es
  ok (record data_e { metadata = metadata } ∷ rest)

module _ {S A E : Type 0} where
  unfoldable pub stream_of : Repository S A E → Text → StreamId
  stream_of repo id = record { category = repo.category; id = id }

module _ {A E : Type 0} where
  abbrev pub rehydrated_result : Aggregate A E × Option Error → Result (Aggregate A E)
  rehydrated_result (a, none) = ok a
  rehydrated_result (a, some x) = err x

module _ {S A E : Type 0} ⦃ap : Applies A E⦄ where
  -- The part of Load behind the read of the stream.
  unfoldable pub rebuild : Repository S A E → List RecordedEvent → Result (Aggregate A E)
  unfolding decode_all
  rebuild repo [] = err (wrap (lit "stream") (domain err_not_found))
  rebuild repo (rec ∷ recs) = do
    events ← decode_all repo.registry (rec ∷ recs)
    rehydrated_result (rehydrate (new_aggregate repo.zero) events)

  unfoldable pub load_aggregate : Repository S A E → S → Text → Result (Aggregate A E)
  unfolding rebuild stream_of
  load_aggregate repo s id = do recs ← repo.store.load s (stream_of repo id) 0; rebuild repo recs

module _ {S A E : Type 0} ⦃ev : DomainEvent E⦄ where
  -- The end of Save, with the outcome of Append.
  abbrev pub settle : Context → Positions → Aggregate A E → S × Result ℕ → Saved S A E
  settle ctx heap a (s, ok seq) = record {
    store = s;
    positions = record_position ctx seq heap;
    agg = (take_uncommitted a).0;
    result = ok tt;
  }
  settle ctx heap a (s, err x) = record { store = s; positions = heap; agg = a; result = err x }
  settle ctx heap a (s, panic) = record { store = s; positions = heap; agg = a; result = panic }

  -- Save's events, encoded and stamped, appended at the aggregate's version.
  abbrev pub append_encoded :
      Repository S A E
      → Context
      → ℕ
      → Text
      → S
      → Positions
      → Aggregate A E
      → Result (List EventData)
      → Saved S A E
  append_encoded repo ctx now id s heap a (ok events) =
      settle ctx heap a
        (repo.store.append s now (record { category = repo.category; id = id }) (version a) events)
  append_encoded repo ctx now id s heap a (err x) = record {
    store = s;
    positions = heap;
    agg = a;
    result = err x;
  }
  append_encoded repo ctx now id s heap a panic = record {
    store = s;
    positions = heap;
    agg = a;
    result = panic;
  }

  abbrev pub save_pending :
      Repository S A E
      → Extractor
      → Context
      → ℕ
      → Text
      → S
      → Positions
      → Aggregate A E
      → List E
      → Saved S A E
  save_pending repo ext ctx now id s heap a [] = record {
    store = s;
    positions = heap;
    agg = a;
    result = ok tt;
  }
  save_pending repo ext ctx now id s heap a (e ∷ es) =
      append_encoded repo ctx now id s heap a
        (encode_all repo.registry (metadata_from_context ext ctx) (e ∷ es))

  -- `now` is the clock that the store reads.
  unfoldable pub save_aggregate :
      Repository S A E
      → Extractor
      → Context
      → ℕ
      → Text
      → S
      → Positions
      → Aggregate A E
      → Saved S A E
  save_aggregate repo ext ctx now id s heap a =
      save_pending repo ext ctx now id s heap a (uncommitted_events a)
