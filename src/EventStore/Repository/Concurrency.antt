-- ===== src/EventStore/Repository/Concurrency.antt =====
-- eventstore/repository.go: optimistic concurrency over the port.
use gohex.Prelude.{
  ℕ, ◌≡◌, ◌≢◌, refl, ap, sym, ◌∙◌, none, some, Option, true, List, [], ◌∷◌, arith, length, All,
  nil_of_length, ne-nil_of_same_length,
}
use gohex.Prelude.Text.{Text}
use gohex.Kernel.Errors.{Error, version_conflict, errors_is}
use gohex.Kernel.Result.{ok, err, bind-eq-ok}
use gohex.Kernel.Event.{DomainEvent}
use gohex.Kernel.Aggregate.{
  Applies, Aggregate, new_aggregate, version, uncommitted_events, rehydrate,
}
use gohex.Kernel.Aggregate.Replay.{
  IsClean, raise_each, raise_each-IsReplay, rehydrate-IsReplay, rehydrate-uncommitted,
}
use gohex.EventStore.Types.{EventData, RecordedEvent}
use gohex.EventStore.Contract.{events_of, Contract}
use gohex.EventStore.Position.{Context, Positions, Extractor, metadata_from_context}
use gohex.EventStore.Repository.{
  Repository, Saved, stream_of, decode_all, rehydrated_result, rebuild, load_aggregate, settle,
  save_aggregate,
}
use gohex.EventStore.Repository.RoundTrip.{
  Tracks, version-Tracks, load-eq-rebuild, save-eq-settle, save_then_load,
}
use gohex.EventStore.Repository.RoundTrip.Codec.{IsCodec, encode_all_ok}

module _ {S A E : Type 0} ⦃a : Applies A E⦄ (repo : Repository S A E) where
  rehydrated_result-ok :
      (r : Aggregate A E × Option Error) (g : Aggregate A E)
      → rehydrated_result r ≡ ok g
      → r ≡ (g, none)
  rehydrated_result-ok (h, none) g e = cc
  rehydrated_result-ok (h, some x) g e = cc

  rebuild-ok :
      (l : List RecordedEvent) (g : Aggregate A E)
      → rebuild repo l ≡ ok g
      → (es : List E) × (decode_all repo.registry l ≡ ok es)
        × (rehydrate (new_aggregate repo.zero) es ≡ (g, none))
  unfolding rebuild
  rebuild-ok [] g h = cc
  rebuild-ok (r ∷ rs) g h =
      let p = bind-eq-ok (decode_all repo.registry (r ∷ rs)) _ h in
      (p.0, p.1, rehydrated_result-ok _ g p.2)

  -- Behaviour that raises events keeps an aggregate on its stream.
  pub raise_each-Tracks :
      (log : List RecordedEvent) (id : Text) (g : Aggregate A E) (es : List E)
      → IsClean a
      → Tracks repo log id g
      → Tracks repo log id (raise_each g es)
  raise_each-Tracks log id g es clean t = record {
    events = t.events;
    decoded = t.decoded;
    replay = raise_each-IsReplay repo.zero t.events g es clean t.replay;
  }

module _ {S A E : Type 0} ⦃a : Applies A E⦄ (repo : Repository S A E) {IsValid : S → Type 0}
    {log : S → List RecordedEvent} (c : Contract repo.store IsValid log) (s : S) (id : Text) where
  -- What Load returns is on its stream, with no uncommitted events.
  pub load-Tracks :
      (g : Aggregate A E)
      → IsValid s
      → load_aggregate repo s id ≡ ok g
      → Tracks repo (log s) id g × (uncommitted_events g ≡ [])
  load-Tracks g v h =
      let p =
        rebuild-ok repo (events_of (stream_of repo id) (log s)) g
          (sym (load-eq-rebuild repo c s id v) ∙ h) in
      (
        record { events = p.0; decoded = p.1; replay = rehydrate-IsReplay repo.zero p.0 g p.2 },
        rehydrate-uncommitted repo.zero p.0 g p.2,
      )

  append_stale :
      (now : ℕ) (v : ℕ) (ds : List EventData)
      → IsValid s
      → ds ≢ []
      → v ≢ length (events_of (stream_of repo id) (log s))
      → (x : Error) × (repo.store.append s now (stream_of repo id) v ds ≡ (s, err x))
        × (errors_is x version_conflict ≡ true)
  append_stale now v [] valid ne h = absurd (ne refl)
  append_stale now v (d ∷ ds) valid ne h =
      c.append_conflict s now (stream_of repo id) v d ds valid h

-- A Save that was refused for its version: nothing is stored, and the aggregate keeps its events.
pub record IsConflict {S A E : Type 0} (s : S) (heap : Positions) (g : Aggregate A E)
    (saved : Saved S A E) : Type 0 where
  pub error : Error
  pub conflict : errors_is error version_conflict ≡ true
  pub outcome : saved ≡ record { store = s; positions = heap; agg = g; result = err error }

module _ {S A E : Type 0} ⦃a : Applies A E⦄ ⦃ev : DomainEvent E⦄ (repo : Repository S A E)
    {IsValid : S → Type 0} {log : S → List RecordedEvent} (c : Contract repo.store IsValid log)
    (ext : Extractor) (ctx : Context) (now : ℕ) (id : Text) where
  -- A Save at another version than the stream's is refused.
  pub save_stale :
      (s : S) (heap : Positions) (g : Aggregate A E)
      → IsValid s
      → version g ≢ length (events_of (stream_of repo id) (log s))
      → uncommitted_events g ≢ []
      → All (IsCodec repo.registry) (uncommitted_events g)
      → IsConflict s heap g (save_aggregate repo ext ctx now id s heap g)
  save_stale s heap g v stale ne codec =
      let enc =
        encode_all_ok repo.registry (metadata_from_context ext ctx) (uncommitted_events g) codec in
      let refused =
        append_stale repo c s id now (version g) enc.0 v
          (ne-nil_of_same_length (uncommitted_events g) enc.0 ne enc.2) stale in
      record {
        error = refused.0;
        conflict = refused.2;
        outcome =
            save-eq-settle repo ext ctx now id s heap g enc.0 ne enc.1
            ∙ ap (settle ctx heap g) refused.1;
      }

  -- No update is lost. Of two aggregates on the same stream of the same store, both with
  -- uncommitted events, save the first: saving the second on the store that this leaves is refused
  -- as a version conflict, stores and reports nothing, and the second keeps its events.
  pub second_save_conflicts :
      (s : S) (heap : Positions) (first second : Aggregate A E)
      → IsValid s
      → Tracks repo (log s) id first
      → Tracks repo (log s) id second
      → uncommitted_events first ≢ []
      → uncommitted_events second ≢ []
      → All (IsCodec repo.registry) (uncommitted_events first)
      → All (IsCodec repo.registry) (uncommitted_events second)
      → let saved = save_aggregate repo ext ctx now id s heap first in
        IsConflict saved.store saved.positions second
          (save_aggregate repo ext ctx now id saved.store saved.positions second)
  second_save_conflicts s heap first second v t1 t2 ne1 ne2 c1 c2 =
      let done = save_then_load repo c ext ctx now id s heap first v t1 ne1 c1 in
      let saved = save_aggregate repo ext ctx now id s heap first in
      save_stale saved.store saved.positions second done.valid
        (λ e. ne1 (
          nil_of_length (uncommitted_events first)
            (omega (arith, e, version-Tracks repo (log s) id second t2, done.grown))))
        ne2 c2
