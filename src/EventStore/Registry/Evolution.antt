-- ===== src/EventStore/Registry/Evolution.antt =====
-- eventstore/registry.go: decoding stored events when the schema moves on.
use gohex.Prelude.{
  ℕ, zero, suc, ◌+◌, ◌-◌, ◌≤◌, ◌<◌, ◌≡◌, refl, ap, ◌∙◌, ◌⊎◌, inl, inr, false, some, List, [], ◌∷◌,
  ◌++◌, fun_ext, drop_of_length_le, append-nil, append_assoc, arith, length, drop, drop-append_self,
  get_elem?, length-append, ltb,
}
use native.Mathlib.Decide.{dec_le}
use gohex.Prelude.Map.{get, put, get-put_self}
use gohex.Prelude.Text.{Text, text_eq, lit}
use gohex.Kernel.Errors.{Error, plain}
use gohex.Kernel.Result.{Result, ok, err, wrapping, ◌>>=◌}
use gohex.Kernel.Event.{DomainEvent}
use gohex.EventStore.Types.{Metadata, EventData, RecordedEvent}
use gohex.EventStore.Contract.{data_of}
use gohex.EventStore.Registry.{
  Upcaster, RegistryEntry, Registry, upcast_loop, register_upcaster, decode_with, decode, encode,
}

-- A payload lifted by upcasters, one after the other; the first failure ends it.
unfoldable pub lift_through : List Upcaster → Text → Result Text
lift_through [] payload = ok payload
lift_through (up ∷ ups) payload = wrapping (lit "upcasting") (up payload) >>= lift_through ups

drop-step :
    {A : Type 0} (n : ℕ) (l : List A)
    → n < length l
    → (x : A) × (get_elem? l n ≡ some x) × (drop n l ≡ x ∷ drop (suc n) l)
drop-step n [] h = elim h [ ]
drop-step zero (x ∷ l) h = (x, refl, refl)
drop-step (suc n) (x ∷ l) h = drop-step n l (omega arith)

-- The loop of Decode lifts through the upcasters from the stored version on, and reads no index out
-- of range.
pub upcast_loop-eq-lift :
    (ups : List Upcaster) (n v : ℕ) (payload : Text)
    → v + n ≡ length ups
    → upcast_loop ups n (v + 1) payload ≡ lift_through (drop v ups) payload
unfolding upcast_loop lift_through
upcast_loop-eq-lift ups zero v payload h = rw (drop_of_length_le v ups (omega arith))
upcast_loop-eq-lift ups (suc n) v payload h =
    let d = drop-step v ups (omega arith) in
    let index : v + 1 - 1 ≡ v = omega arith in
    let next : v + 1 + 1 ≡ suc v + 1 = omega arith in
    rw (d.2, index, d.1, upcast_loop, next)
      (ap (λ k. wrapping (lit "upcasting") (d.0 payload) >>= k)
        (fun_ext λ lifted. upcast_loop-eq-lift ups n (suc v) lifted (omega arith)))

module _ {ℓ} {E : Type ℓ} where
  -- The schema version that an entry writes.
  abbrev pub current : RegistryEntry E → ℕ
  current ent = 1 + length ent.upcasters

  pub decode_with-eq-lift :
      (ent : RegistryEntry E) (rec : RecordedEvent)
      → 1 ≤ rec.schema_version
      → rec.schema_version ≤ current ent
      → decode_with ent rec
        ≡ (lift_through (drop (rec.schema_version - 1) ent.upcasters) rec.payload >>= ent.decode)
  unfolding decode_with
  decode_with-eq-lift ent rec lo hi =
      let low : ltb rec.schema_version 1 ≡ false = ground arith in
      let high : ltb (current ent) rec.schema_version ≡ false = ground arith in
      let version : rec.schema_version ≡ rec.schema_version - 1 + 1 = omega arith in
      rw (low, high)
        (ap (λ p. p >>= ent.decode)
          (ap (λ v. upcast_loop ent.upcasters (current ent - rec.schema_version) v rec.payload)
              version
            ∙ upcast_loop-eq-lift ent.upcasters (current ent - rec.schema_version)
                (rec.schema_version - 1) rec.payload (omega arith)))

  decode_with-out_of_range :
      (ent : RegistryEntry E) (rec : RecordedEvent)
      → (rec.schema_version < 1) ⊎ (current ent < rec.schema_version)
      → decode_with ent rec ≡ err (plain (lit "stored schema version outside"))
  unfolding decode_with
  decode_with-out_of_range ent rec h = ground arith

  -- Decode, on an event whose name is registered, lifts the payload through the upcasters from its
  -- stored version on and decodes the outcome, if the version lies between 1 and the current one;
  -- on any other version it fails.
  pub decode_by_version :
      (r : Registry E) (ent : RegistryEntry E) (rec : RecordedEvent)
      → get r.entries rec.event_name ≡ some ent
      → ((1 ≤ rec.schema_version)
          × (rec.schema_version ≤ current ent)
          × (decode r rec ≡ (
              lift_through (drop (rec.schema_version - 1) ent.upcasters) rec.payload
              >>= ent.decode)))
        ⊎ (((rec.schema_version < 1) ⊎ (current ent < rec.schema_version))
            × ((x : Error) × (decode r rec ≡ err x)))
  unfolding decode
  decode_by_version r ent rec found = elim (dec_le 1 rec.schema_version) [
    | yes lo ↦ elim (dec_le rec.schema_version (current ent)) [
      | yes hi ↦ inl (lo, hi, rw (found, decode) (decode_with-eq-lift ent rec lo hi))
      | no hi ↦ inr (
        inr (omega arith),
        (
          plain (lit "stored schema version outside"),
          rw (found, decode) (decode_with-out_of_range ent rec (inr (omega arith))),
        ),
      )
    ]
    | no lo ↦ inr (
      inl (omega arith),
      (
        plain (lit "stored schema version outside"),
        rw (found, decode) (decode_with-out_of_range ent rec (inl (omega arith))),
      ),
    )
  ]

  -- The upcasters that later releases register, in order.
  unfoldable pub register_upcasters : Registry E → Text → List Upcaster → Result (Registry E)
  register_upcasters r name [] = ok r
  register_upcasters r name (up ∷ ups) =
      register_upcaster r name up >>= λ r'. register_upcasters r' name ups

  abbrev with_upcaster : Registry E → Text → RegistryEntry E → Upcaster → Registry E
  with_upcaster r name ent up = record {
    entries = put r.entries name (record ent { upcasters = ent.upcasters ++ up ∷ [] });
  }

  register_upcaster-found :
      (r : Registry E) (name : Text) (ent : RegistryEntry E) (up : Upcaster)
      → get r.entries name ≡ some ent
      → register_upcaster r name up ≡ ok (with_upcaster r name ent up)
  unfolding register_upcaster
  register_upcaster-found r name ent up found = rw (found, register_upcaster)

  get-register_upcasters :
      (r r' : Registry E) (name : Text) (ent : RegistryEntry E) (ups : List Upcaster)
      → get r.entries name ≡ some ent
      → register_upcasters r name ups ≡ ok r'
      → get r'.entries name ≡ some (record ent { upcasters = ent.upcasters ++ ups })
  unfolding register_upcasters
  get-register_upcasters r r' name ent [] found h =
      let same : r ≡ r' = cc in rw (append-nil ent.upcasters) (rw same at found)
  get-register_upcasters r r' name ent (up ∷ ups) found h =
      let r1 = with_upcaster r name ent up in
      let h1 : register_upcasters r1 name ups ≡ ok r' =
        rw (register_upcaster-found r name ent up found) at h in
      rw (append_assoc ent.upcasters (up ∷ []) ups) at (
        get-register_upcasters r1 r' name (record ent { upcasters = ent.upcasters ++ up ∷ [] }) ups
          (get-put_self r.entries name _) h1)

module _ {ℓ} {E : Type ℓ} ⦃ev : DomainEvent E⦄ where
  encode_inv :
      (r : Registry E) (e : E) (d : EventData) (ent : RegistryEntry E)
      → get r.entries (ev.event_name e) ≡ some ent
      → encode r e ≡ ok d
      → (d.event_name ≡ ev.event_name e)
        × (d.schema_version ≡ 1 + length ent.upcasters)
        × (ev.marshal e ≡ ok d.payload)
  unfolding encode
  encode_inv r e d ent found h = ground arith

  -- An event encoded by one release is readable by every later one: if upcasters were registered
  -- for its name since, Decode lifts the stored payload through exactly these and decodes the
  -- outcome; the metadata stored with it has no influence.
  pub decode-encode_evolved :
      (r r' : Registry E) (e : E) (d : EventData) (md : Metadata) (ent : RegistryEntry E)
      (rec : RecordedEvent) (ups : List Upcaster)
      → get r.entries (ev.event_name e) ≡ some ent
      → encode r e ≡ ok d
      → register_upcasters r (ev.event_name e) ups ≡ ok r'
      → data_of rec ≡ record d { metadata = md }
      → decode r' rec ≡ (lift_through ups d.payload >>= ent.decode)
  unfolding decode
  decode-encode_evolved r r' e d md ent rec ups found enc reg stored =
      let inv = encode_inv r e d ent found enc in
      let ent' : RegistryEntry E = record ent { upcasters = ent.upcasters ++ ups } in
      let name : rec.event_name ≡ ev.event_name e =
        ap (λ (x : EventData). x.event_name) stored ∙ inv.0 in
      let version : rec.schema_version ≡ 1 + length ent.upcasters =
        ap (λ (x : EventData). x.schema_version) stored ∙ inv.1 in
      let payload : rec.payload ≡ d.payload = ap (λ (x : EventData). x.payload) stored in
      let found' : get r'.entries rec.event_name ≡ some ent' =
        rw name (get-register_upcasters r r' (ev.event_name e) ent ups found reg) in
      let at_end : rec.schema_version - 1 ≡ length ent.upcasters = omega arith in
      rw (found', decode)
        (decode_with-eq-lift ent' rec (omega arith) (omega (arith, length-append ent.upcasters ups))
          ∙ rw (at_end, payload, drop-append_self))
