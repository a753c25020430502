-- ===== src/EventStore/Repository/RoundTrip/Codec.antt =====
-- eventstore/repository.go: decoding what was encoded and recorded.
use gohex.Prelude.{
  ℕ, suc, ◌+◌, ◌≡◌, refl, ap, ◌∙◌, none, some, List, [], ◌∷◌, ◌++◌, arith, length, All,
}
use gohex.Prelude.Map.{get}
use gohex.Prelude.Text.{Text, text_eq}
use gohex.Kernel.Result.{ok, bind-eq-ok}
use gohex.Kernel.Event.{DomainEvent}
use gohex.EventStore.Types.{StreamId, Metadata, EventData, RecordedEvent}
use gohex.EventStore.Contract.{data_of, Records}
use gohex.EventStore.Registry.{Registry, RegistryEntry, encode, decode}
use gohex.EventStore.Registry.Evolution.{decode-encode_evolved, register_upcasters, lift_through}
use gohex.EventStore.Repository.{decode_all, encode_all}

module _ {E : Type 0} where
  decode_all-cons :
      (reg : Registry E) (x : RecordedEvent) (xs : List RecordedEvent) (es : List E)
      → decode_all reg (x ∷ xs) ≡ ok es
      → (e : E) × (rest : List E) × (decode reg x ≡ ok e)
        × (decode_all reg xs ≡ ok rest)
        × (es ≡ e ∷ rest)
  unfolding decode_all
  decode_all-cons reg x xs es h =
      let p = bind-eq-ok (decode reg x) _ h in
      let q = bind-eq-ok (decode_all reg xs) _ p.2 in (p.0, q.0, p.1, q.1, cc (q.2))

  pub decode_all-append :
      (reg : Registry E) (xs ys : List RecordedEvent) (es fs : List E)
      → decode_all reg xs ≡ ok es
      → decode_all reg ys ≡ ok fs
      → decode_all reg (xs ++ ys) ≡ ok (es ++ fs)
  unfolding decode_all
  decode_all-append reg [] ys es fs h k = let e : es ≡ [] = cc in rw (e, k)
  decode_all-append reg (x ∷ xs) ys es fs h k =
      let p = decode_all-cons reg x xs es h in
      rw (p.4, p.2, decode_all-append reg xs ys p.1 fs p.3 k)

  pub length-decode_all :
      (reg : Registry E) (recs : List RecordedEvent) (es : List E)
      → decode_all reg recs ≡ ok es
      → length es ≡ length recs
  unfolding decode_all
  length-decode_all reg [] es h = let e : es ≡ [] = cc in rw e
  length-decode_all reg (x ∷ xs) es h =
      let p = decode_all-cons reg x xs es h in rw (p.4) (ap suc (length-decode_all reg xs p.1 p.3))

-- The event's name is registered, and encoding/json reads back what it writes for the event.
pub record IsCodec {E : Type 0} ⦃ev : DomainEvent E⦄ (reg : Registry E) (e : E) : Type 0 where
  pub entry : RegistryEntry E
  pub payload : Text
  pub registered : get reg.entries (ev.event_name e) ≡ some entry
  pub marshals : ev.marshal e ≡ ok payload
  pub unmarshals : entry.decode payload ≡ ok e

module _ {E : Type 0} ⦃ev : DomainEvent E⦄ where
  abbrev encoded : (reg : Registry E) (e : E) → IsCodec reg e → EventData
  encoded reg e c = record {
    event_name = ev.event_name e;
    schema_version = 1 + length c.entry.upcasters;
    payload = c.payload;
    metadata = none;
  }

  encode_ok : (reg : Registry E) (e : E) (c : IsCodec reg e) → encode reg e ≡ ok (encoded reg e c)
  unfolding encode
  encode_ok reg e c = ground (arith, c.registered, c.marshals)

  decode-encode :
      (reg : Registry E) (e : E) (c : IsCodec reg e) (md : Metadata) (rec : RecordedEvent)
      → data_of rec ≡ record (encoded reg e c) { metadata = md }
      → decode reg rec ≡ ok e
  decode-encode reg e c md rec h =
      decode-encode_evolved reg reg e (encoded reg e c) md c.entry rec [] c.registered
        (encode_ok reg e c) (unfold register_upcasters in refl) h
      ∙ (unfold lift_through in c.unmarshals)

  -- Encoding succeeds, and what a store records of it decodes to the events.
  pub encode_all_ok :
      (reg : Registry E) (md : Metadata) (es : List E)
      → All (IsCodec reg) es
      → (ds : List EventData) × (encode_all reg md es ≡ ok ds)
        × (length ds ≡ length es)
        × ((sid : StreamId) (v : ℕ) (rs : List RecordedEvent)
            → Records sid v ds rs
            → decode_all reg rs ≡ ok es)
  unfolding encode_all decode_all
  encode_all_ok reg md [] c = ([], refl, refl, λ sid v rs h. records_nothing sid v rs h)
    where
      records_nothing :
          (sid : StreamId) (v : ℕ) (rs : List RecordedEvent)
          → Records sid v [] rs
          → decode_all reg rs ≡ ok []
      records_nothing sid v [] h = refl
      records_nothing sid v (r ∷ rs) h = absurd h
  encode_all_ok reg md (e ∷ es) c =
      let rest = encode_all_ok reg md es c.1 in
      (
        record (encoded reg e c.0) { metadata = md } ∷ rest.0,
        rw (encode_ok reg e c.0, rest.1),
        ap suc rest.2,
        records_cons rest.0 rest.3,
      )
    where
      records_cons :
          (ds : List EventData)
          → ((sid : StreamId) (v : ℕ) (rs : List RecordedEvent)
              → Records sid v ds rs
              → decode_all reg rs ≡ ok es)
          → (sid : StreamId) (v : ℕ) (rs : List RecordedEvent)
          → Records sid v (record (encoded reg e c.0) { metadata = md } ∷ ds) rs
          → decode_all reg rs ≡ ok (e ∷ es)
      records_cons ds tail sid v [] h = absurd h
      records_cons ds tail sid v (r ∷ rs) h =
          rw (decode-encode reg e c.0 md r h.2, tail sid (v + 1) rs h.3)
