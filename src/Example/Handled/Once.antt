-- ===== src/Example/Handled/Once.antt =====
-- The handlers of the example services that decide an aggregate once, over any store that meets the
-- port's contract.
use gohex.Prelude.{ℕ, ◌≡◌, ◌≢◌, refl, ap, ◌∙◌, List, [], All}
use gohex.Prelude.Text.{Text, lit, text_beq}
use gohex.Kernel.Errors.{wrap, domain, errors_is}
use gohex.Kernel.Result.{Result, ok, err}
use gohex.Kernel.Event.{DomainEvent}
use gohex.Kernel.Aggregate.{Applies, Aggregate, uncommitted_events, take_uncommitted}
use gohex.Kernel.Aggregate.Replay.{IsReplay}
use gohex.EventStore.Types.{RecordedEvent, err_not_found}
use gohex.EventStore.Contract.{events_of, Contract}
use gohex.EventStore.Position.{Context, Positions, Extractor}
use gohex.EventStore.Repository.{Repository, stream_of, decode_all, rebuild, load_aggregate}
use gohex.EventStore.Repository.RoundTrip.{Tracks, load-eq-rebuild, save_then_load}
use gohex.EventStore.Repository.RoundTrip.Codec.{IsCodec}
use gohex.Example.Handled.{Handled, unchanged, unless_decided, save_decision}

-- A handler saved the aggregate `g` as `id`, and nothing else of its category.
pub record IsStored {S A E : Type 0} ⦃a : Applies A E⦄ (repo : Repository S A E)
    (IsValid : S → Type 0) (id : Text) (s : S) (g : Aggregate A E) (h : Handled S) : Type 0 where
  pub succeeds : h.result ≡ ok tt
  pub valid : IsValid h.store
  pub loads : load_aggregate repo h.store id ≡ ok (take_uncommitted g).0
  pub others :
      (other : Text) → id ≢ other → load_aggregate repo h.store other ≡ load_aggregate repo s other

module _ {S A E : Type 0} ⦃a : Applies A E⦄ ⦃ev : DomainEvent E⦄ (repo : Repository S A E)
    {IsValid : S → Type 0} {log : S → List RecordedEvent} (c : Contract repo.store IsValid log)
    (ext : Extractor) (ctx : Context) (now : ℕ) (id : Text) (s : S) (heap : Positions)
    (valid : IsValid s) where
  -- Save in a handler, of an aggregate that tracks its stream.
  pub save-IsStored :
      (g : Aggregate A E)
      → Tracks repo (log s) id g
      → uncommitted_events g ≢ []
      → All (IsCodec repo.registry) (uncommitted_events g)
      → IsStored repo IsValid id s g (save_decision repo ext ctx now id s heap (ok g))
  unfolding save_decision
  save-IsStored g t ne codec =
      let saved = save_then_load repo c ext ctx now id s heap g valid t ne codec in
      record {
        succeeds = saved.succeeds;
        valid = saved.valid;
        loads = saved.loads ∙ ap (λ x. ok x) saved.committed;
        others = saved.others;
      }

  module _ (missing : events_of (stream_of repo id) (log s) ≡ []) where
    pub load_missing : load_aggregate repo s id ≡ err (wrap (lit "stream") (domain err_not_found))
    load_missing = load-eq-rebuild repo c s id valid ∙ unfold rebuild in ap (rebuild repo) missing

    pub unless_decided_missing :
        (decide : Handled S) → unless_decided s heap (load_aggregate repo s id) decide ≡ decide
    unfolding text_beq
    unless_decided_missing decide = rw load_missing (unfold unless_decided errors_is in refl)

    pub new-Tracks : (g : Aggregate A E) → IsReplay repo.zero [] g → Tracks repo (log s) id g
    new-Tracks g replay = record {
      events = [];
      decoded = unfold decode_all in ap (decode_all repo.registry) missing;
      replay = replay;
    }

    -- The first call stores the decision.
    pub decision-IsStored :
        (g : Aggregate A E)
        → IsReplay repo.zero [] g
        → uncommitted_events g ≢ []
        → All (IsCodec repo.registry) (uncommitted_events g)
        → IsStored repo IsValid id s g (
            unless_decided s heap
              (load_aggregate repo s id)
              (save_decision repo ext ctx now id s heap (ok g)))
    decision-IsStored g replay ne codec =
        rw unless_decided_missing (save-IsStored g (new-Tracks g replay) ne codec)

-- A call behind it changes nothing, whatever it would decide.
pub unless_decided_again :
    {S A : Type 0} (s : S) (heap : Positions) (r : Result A) (a : A) (decide : Handled S)
    → r ≡ ok a
    → unless_decided s heap r decide ≡ unchanged s heap (ok tt)
unless_decided_again s heap r a decide h = rw h (unfold unless_decided in refl)
