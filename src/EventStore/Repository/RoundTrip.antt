-- ===== src/EventStore/Repository/RoundTrip.antt =====
-- eventstore/repository.go: Load behind Save.
pub mod Codec
use gohex.Prelude.{
  ℕ, suc, ◌+◌, ◌≡◌, ◌≢◌, refl, ap, sym, ◌∙◌, some, none, List, [], ◌∷◌, ◌++◌, append-nil, arith,
  length, last?, length-append, append-ne-nil, ne-nil_of_same_length, All, drop,
}
use gohex.Prelude.Text.{Text}
use gohex.Kernel.Result.{Result, ok, err, panic, ◌>>=◌}
use gohex.Kernel.Event.{DomainEvent}
use gohex.Kernel.Aggregate.{
  Root, Applies, Aggregate, new_aggregate, version, uncommitted_events, take_uncommitted, rehydrate,
}
use gohex.Kernel.Aggregate.Replay.{IsReplay, rehydrate-IsReplay, IsReplay-rehydrate}
use gohex.EventStore.Types.{StreamId, Metadata, EventData, RecordedEvent}
use gohex.EventStore.Contract.{seq_of_last, events_of, Records, IsAppended, Contract}
use gohex.EventStore.Contract.Streams.{
  length-Records, events_of-IsAppended_self, events_of-IsAppended_ne,
}
use gohex.EventStore.Position.{
  Context, Positions, Extractor, metadata_from_context, record_position,
}
use gohex.EventStore.Registry.{Registry, encode, decode}
use gohex.EventStore.Repository.{
  Repository, Saved, stream_of, decode_all, encode_all, rebuild, load_aggregate, settle,
  append_encoded, save_pending, save_aggregate,
}
use gohex.EventStore.Repository.RoundTrip.Codec.{
  IsCodec, decode_all-append, length-decode_all, encode_all_ok,
}

-- `g` is what its stream in the store says, with its pending events raised since.
pub record Tracks {S A E : Type 0} ⦃a : Applies A E⦄ (repo : Repository S A E)
    (log : List RecordedEvent) (id : Text) (g : Aggregate A E) : Type 0 where
  pub events : List E
  pub decoded : decode_all repo.registry (events_of (stream_of repo id) log) ≡ ok events
  pub replay : IsReplay repo.zero events g

module _ {S A E : Type 0} ⦃a : Applies A E⦄ (repo : Repository S A E) where
  pub version-Tracks :
      (log : List RecordedEvent) (id : Text) (g : Aggregate A E)
      → Tracks repo log id g
      → version g ≡ length (events_of (stream_of repo id) log)
  unfolding version
  version-Tracks log id g t =
      t.replay.version ∙ length-decode_all repo.registry _ t.events t.decoded

  rebuild-of_events :
      (l : List RecordedEvent) (g : Aggregate A E) (es : List E)
      → l ≢ []
      → decode_all repo.registry l ≡ ok es
      → rehydrate (new_aggregate repo.zero) es ≡ (g, none)
      → rebuild repo l ≡ ok g
  unfolding rebuild
  rebuild-of_events [] g es ne h k = absurd (ne refl)
  rebuild-of_events (r ∷ rs) g es ne h k = rw (h, k)

  -- The stream of a tracked aggregate with its pending events recorded behind it.
  rebuild-of_recorded :
      (log : List RecordedEvent) (id : Text) (g : Aggregate A E) (recs : List RecordedEvent)
      → Tracks repo log id g
      → recs ≢ []
      → decode_all repo.registry recs ≡ ok (uncommitted_events g)
      → rebuild repo (events_of (stream_of repo id) log ++ recs) ≡ ok (take_uncommitted g).0
  rebuild-of_recorded log id g recs t ne h =
      rebuild-of_events (events_of (stream_of repo id) log ++ recs) (take_uncommitted g).0
        (t.events ++ uncommitted_events g) (append-ne-nil _ recs ne)
        (decode_all-append repo.registry (events_of (stream_of repo id) log) recs t.events
          (uncommitted_events g) t.decoded h)
        (IsReplay-rehydrate repo.zero t.events g t.replay)

module _ {S A E : Type 0} ⦃a : Applies A E⦄ (repo : Repository S A E) {IsValid : S → Type 0}
    {log : S → List RecordedEvent} (c : Contract repo.store IsValid log) where
  pub load-eq-rebuild :
      (s : S) (id : Text)
      → IsValid s
      → load_aggregate repo s id ≡ rebuild repo (events_of (stream_of repo id) (log s))
  unfolding load_aggregate
  load-eq-rebuild s id v = rw (c.load_lem s (stream_of repo id) 0 v)

  pub append_some :
      (s : S) (now : ℕ) (sid : StreamId) (v : ℕ) (ds : List EventData)
      → IsValid s
      → ds ≢ []
      → v ≡ length (events_of sid (log s))
      → (seq : ℕ) × ((repo.store.append s now sid v ds).1 ≡ ok seq)
        × IsAppended sid ds (log s) (log (repo.store.append s now sid v ds).0) seq
  append_some s now sid v [] valid ne h = absurd (ne refl)
  append_some s now sid v (d ∷ ds) valid ne h = c.append_at_version s now sid v d ds valid h

-- The outcome of a Save that stored the pending events of `g`.
pub record IsSaved {S A E : Type 0} ⦃a : Applies A E⦄ (repo : Repository S A E)
    (IsValid : S → Type 0) (log : S → List RecordedEvent) (ctx : Context) (id : Text) (s : S)
    (heap : Positions) (g : Aggregate A E) (saved : Saved S A E) : Type 0 where
  pub succeeds : saved.result ≡ ok tt
  pub valid : IsValid saved.store
  pub committed : saved.agg ≡ (take_uncommitted g).0
  pub loads : load_aggregate repo saved.store id ≡ ok saved.agg
  pub grown :
      length (events_of (stream_of repo id) (log saved.store))
      ≡ length (events_of (stream_of repo id) (log s)) + length (uncommitted_events g)
  pub others :
      (other : Text)
      → id ≢ other
      → load_aggregate repo saved.store other ≡ load_aggregate repo s other
  pub reported : saved.positions ≡ record_position ctx (seq_of_last (last? (log saved.store))) heap

module _ {S A E : Type 0} ⦃ev : DomainEvent E⦄ (repo : Repository S A E) (ext : Extractor)
    (ctx : Context) (now : ℕ) (id : Text) (s : S) (heap : Positions) where
  save_pending_some :
      (g : Aggregate A E) (es : List E) (ds : List EventData)
      → es ≢ []
      → encode_all repo.registry (metadata_from_context ext ctx) es ≡ ok ds
      → save_pending repo ext ctx now id s heap g es
        ≡ settle ctx heap g (repo.store.append s now (stream_of repo id) (version g) ds)
  unfolding stream_of
  save_pending_some g [] ds ne h = absurd (ne refl)
  save_pending_some g (e ∷ es) ds ne h = ap (append_encoded repo ctx now id s heap g) h

  pub save-eq-settle :
      (g : Aggregate A E) (ds : List EventData)
      → uncommitted_events g ≢ []
      → encode_all repo.registry (metadata_from_context ext ctx) (uncommitted_events g) ≡ ok ds
      → save_aggregate repo ext ctx now id s heap g
        ≡ settle ctx heap g (repo.store.append s now (stream_of repo id) (version g) ds)
  save-eq-settle g ds ne h =
      unfold save_aggregate in save_pending_some g (uncommitted_events g) ds ne h

  settle_ok :
      (g : Aggregate A E) (p : S × Result ℕ) (seq : ℕ)
      → p.1 ≡ ok seq
      → settle ctx heap g p ≡ record {
        store = p.0;
        positions = record_position ctx seq heap;
        agg = (take_uncommitted g).0;
        result = ok tt;
      }
  settle_ok g (s', ok q) seq h = let e : q ≡ seq = cc in rw e
  settle_ok g (s', err x) seq h = cc
  settle_ok g (s', panic) seq h = cc

module _ {S A E : Type 0} ⦃a : Applies A E⦄ ⦃ev : DomainEvent E⦄ (repo : Repository S A E)
    {IsValid : S → Type 0} {log : S → List RecordedEvent} (c : Contract repo.store IsValid log)
    (ext : Extractor) (ctx : Context) (now : ℕ) (id : Text) (s : S) (heap : Positions) where
  IsSaved-of_append :
      (g : Aggregate A E) (ds : List EventData) (s' : S) (seq : ℕ)
      → IsValid s
      → IsValid s'
      → Tracks repo (log s) id g
      → length ds ≡ length (uncommitted_events g)
      → uncommitted_events g ≢ []
      → ((sid : StreamId) (v : ℕ) (rs : List RecordedEvent)
          → Records sid v ds rs
          → decode_all repo.registry rs ≡ ok (uncommitted_events g))
      → IsAppended (stream_of repo id) ds (log s) (log s') seq
      → IsSaved repo IsValid log ctx id s heap g (record {
        store = s';
        positions = record_position ctx seq heap;
        agg = (take_uncommitted g).0;
        result = ok tt;
      })
  IsSaved-of_append g ds s' seq v v' t size ne reads app =
      let sid = stream_of repo id in
      let own = events_of-IsAppended_self app in
      let count : length app.recs ≡ length (uncommitted_events g) =
        length-Records sid _ ds app.recs app.recorded ∙ size in
      record {
        succeeds = refl;
        valid = v';
        committed = refl;
        loads =
            load-eq-rebuild repo c s' id v'
            ∙ ap (rebuild repo) own
            ∙ rebuild-of_recorded repo (log s) id g app.recs t
                (ne-nil_of_same_length (uncommitted_events g) app.recs ne count)
                (reads sid (length (events_of sid (log s))) app.recs app.recorded);
        grown =
            ap (λ l. length l) own
            ∙ length-append (events_of sid (log s)) app.recs
            ∙ ap (λ n. length (events_of sid (log s)) + n) count;
        others = λ other differ.
            load-eq-rebuild repo c s' other v'
            ∙ ap (rebuild repo) (
                events_of-IsAppended_ne app (stream_of repo other)
                  (λ e. differ (unfold stream_of in ap (λ (x : StreamId). x.id) e)))
            ∙ sym (load-eq-rebuild repo c s other v);
        reported = ap (λ q. record_position ctx q heap) app.last;
      }

  -- Save of an aggregate that tracks its stream and has uncommitted events whose types are
  -- registered with a codec that reads back what it writes: it succeeds and the store stays well
  -- formed; the aggregate is committed; loading it gives it back with its state and version; its
  -- stream has grown by the events and every other aggregate of the category loads as before; and
  -- the position of the store's last event is reported to the context.
  pub save_then_load :
      (g : Aggregate A E)
      → IsValid s
      → Tracks repo (log s) id g
      → uncommitted_events g ≢ []
      → All (IsCodec repo.registry) (uncommitted_events g)
      → IsSaved repo IsValid log ctx id s heap g (save_aggregate repo ext ctx now id s heap g)
  save_then_load g v t ne codec =
      let enc =
        encode_all_ok repo.registry (metadata_from_context ext ctx) (uncommitted_events g) codec in
      let sid = stream_of repo id in
      let ds = enc.0 in
      let done =
        append_some repo c s now sid (version g) ds v
          (ne-nil_of_same_length (uncommitted_events g) ds ne enc.2)
          (version-Tracks repo (log s) id g t) in
      let outcome = repo.store.append s now sid (version g) ds in
      rw
        (
          save-eq-settle repo ext ctx now id s heap g ds ne enc.1,
          settle_ok repo ext ctx now id s heap g outcome done.0 done.1,
        )
        (IsSaved-of_append g ds outcome.0 done.0 v (c.append-IsValid s now sid (version g) ds v) t
          enc.2 ne enc.3 done.2)
