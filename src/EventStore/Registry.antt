-- ===== src/EventStore/Registry.antt =====
-- eventstore/registry.go: the JSON codec of domain events, with upcasters.
pub mod Evolution
use gohex.Prelude.{
  ℕ, zero, suc, ◌+◌, ◌-◌, Option, none, some, List, [], ◌∷◌, ◌++◌, length, get_elem?, ltb, ◌||◌,
  is_some, if◌then◌else◌,
}
use gohex.Prelude.Map.{Map, get, put}
use gohex.Prelude.Text.{Text, text_eq, lit, is_empty}
use gohex.Kernel.Errors.{Error, plain, wrap}
use gohex.Kernel.Result.{Result, ok, err, panic, wrapping, ◌>>=◌}
use gohex.Kernel.Event.{DomainEvent}
use gohex.EventStore.Types.{EventData, RecordedEvent}

abbrev pub Upcaster : Type 0
Upcaster = Text → Result Text

pub record RegistryEntry {ℓ} (E : Type ℓ) : Type ℓ where
  pub decode : Text → Result E
  pub upcasters : List Upcaster

pub record Registry {ℓ} (E : Type ℓ) : Type ℓ where
  pub entries : Map Text (RegistryEntry E)

abbrev pub new_registry {ℓ} : {E : Type ℓ} → Registry E
new_registry = record { entries = [] }

-- The loop of Decode over the `n` versions from `v` up to the current one; an index out of range
-- panics.
unfoldable pub upcast_loop : List Upcaster → ℕ → ℕ → Text → Result Text
upcast_loop ups zero v payload = ok payload
upcast_loop ups (suc n) v payload = elim (get_elem? ups (v - 1)) [
  | none ↦ panic
  | some up ↦ wrapping (lit "upcasting") (up payload) >>= λ lifted. upcast_loop ups n (v + 1) lifted
]

module _ {ℓ} {E : Type ℓ} where
  -- Register for the Go type whose EventName is `name` and whose JSON decoder is `unmarshal`.
  unfoldable pub register : Registry E → Text → (Text → Result E) → Result (Registry E)
  register r name unmarshal =
      if is_empty name || is_some (get r.entries name)
      then panic
      else ok (record {
        entries =
            put r.entries name
              (record { decode = λ p. wrapping (lit "decoding") (unmarshal p); upcasters = [] });
      })

  unfoldable pub register_upcaster : Registry E → Text → Upcaster → Result (Registry E)
  register_upcaster r name up = elim (get r.entries name) [
    | none ↦ panic
    | some ent ↦ ok (record {
      entries = put r.entries name (record ent { upcasters = ent.upcasters ++ up ∷ [] });
    })
  ]

  unfoldable pub schema_version : Registry E → Text → Result ℕ
  schema_version r name = elim (get r.entries name) [
    | none ↦ err (plain (lit "unregistered event"))
    | some ent ↦ ok (1 + length ent.upcasters)
  ]

  unfoldable pub decode_with : RegistryEntry E → RecordedEvent → Result E
  unfolding upcast_loop
  decode_with ent rec =
      let current = 1 + length ent.upcasters in
      if ltb rec.schema_version 1 || ltb current rec.schema_version
      then err (plain (lit "stored schema version outside"))
      else (upcast_loop ent.upcasters (current - rec.schema_version) rec.schema_version rec.payload
          >>= ent.decode)

  unfoldable pub decode : Registry E → RecordedEvent → Result E
  unfolding decode_with
  decode r rec = elim (get r.entries rec.event_name) [
    | none ↦ err (plain (lit "unregistered event at seq"))
    | some ent ↦ decode_with ent rec
  ]

module _ {ℓ} {E : Type ℓ} ⦃ev : DomainEvent E⦄ where
  unfoldable pub encode : Registry E → E → Result EventData
  unfolding schema_version
  encode r e = do
    version ← schema_version r (ev.event_name e)
    payload ← wrapping (lit "encoding") (ev.marshal e)
    ok (record {
      event_name = ev.event_name e;
      schema_version = version;
      payload = payload;
      metadata = none;
    })
