-- ===== src/EventStore/Contract/Streams.antt =====
-- eventstore/store.go: the streams of a log behind an append.
use gohex.Prelude.{
  ℕ, suc, ◌+◌, ◌≡◌, ◌≢◌, refl, ap, ◌∙◌, inl, inr, List, [], ◌∷◌, ◌++◌, append-nil, length,
  select-append, Bool-cases,
}
use gohex.Prelude.EqClass.{◌==◌}
use gohex.EventStore.Types.{StreamId, stream_eq, stream_beq_iff, EventData, RecordedEvent}
use gohex.EventStore.Contract.{events_of, Records, IsAppended}

events_of-append :
    (sid : StreamId) (xs ys : List RecordedEvent)
    → events_of sid (xs ++ ys) ≡ events_of sid xs ++ events_of sid ys
events_of-append sid xs ys = select-append (λ (r : RecordedEvent). r.stream == sid) xs ys

events_of-Records_self :
    (sid : StreamId) (v : ℕ) (es : List EventData) (rs : List RecordedEvent)
    → Records sid v es rs
    → events_of sid rs ≡ rs
events_of-Records_self sid v [] [] h = refl
events_of-Records_self sid v [] (r ∷ rs) h = absurd h
events_of-Records_self sid v (e ∷ es) [] h = absurd h
events_of-Records_self sid v (e ∷ es) (r ∷ rs) h =
    rw ((stream_beq_iff r.stream sid).1 h.0)
      (ap (λ l. r ∷ l) (events_of-Records_self sid (v + 1) es rs h.3))

events_of-Records_ne :
    (sid other : StreamId) (v : ℕ) (es : List EventData) (rs : List RecordedEvent)
    → sid ≢ other
    → Records sid v es rs
    → events_of other rs ≡ []
events_of-Records_ne sid other v [] [] ne h = refl
events_of-Records_ne sid other v [] (r ∷ rs) ne h = absurd h
events_of-Records_ne sid other v (e ∷ es) [] ne h = absurd h
events_of-Records_ne sid other v (e ∷ es) (r ∷ rs) ne h = elim (Bool-cases (r.stream == other)) [
  | inl same ↦ absurd (ne (cc (h.0, (stream_beq_iff r.stream other).0 same)))
  | inr differ ↦ rw differ (events_of-Records_ne sid other (v + 1) es rs ne h.3)
]

pub length-Records :
    (sid : StreamId) (v : ℕ) (es : List EventData) (rs : List RecordedEvent)
    → Records sid v es rs
    → length rs ≡ length es
length-Records sid v [] [] h = refl
length-Records sid v [] (r ∷ rs) h = absurd h
length-Records sid v (e ∷ es) [] h = absurd h
length-Records sid v (e ∷ es) (r ∷ rs) h = ap suc (length-Records sid (v + 1) es rs h.3)

module _ {sid : StreamId} {es : List EventData} {before after : List RecordedEvent} {seq : ℕ}
    (a : IsAppended sid es before after seq) where
  pub events_of-IsAppended_self : events_of sid after ≡ events_of sid before ++ a.recs
  events_of-IsAppended_self =
      ap (events_of sid) a.appended
      ∙ events_of-append sid before a.recs
      ∙ ap (λ l. events_of sid before ++ l) (events_of-Records_self sid _ es a.recs a.recorded)

  pub events_of-IsAppended_ne :
      (other : StreamId) → sid ≢ other → events_of other after ≡ events_of other before
  events_of-IsAppended_ne other ne =
      ap (events_of other) a.appended
      ∙ events_of-append other before a.recs
      ∙ ap (λ l. events_of other before ++ l)
          (events_of-Records_ne sid other _ es a.recs ne a.recorded)
      ∙ append-nil (events_of other before)
