-- ===== src/Examples/Core.antt =====
-- The kernel, the event codec, positions and checkpoints at concrete inputs.
use gohex.Prelude.{
  ℕ, ◌-◌, ◌≤◌, ◌<◌, ◌≡◌, ◌↔◌, refl, ◌⊎◌, true, false, none, some, List, [], ◌∷◌, ◌++◌, get_elem?,
  All, map, drop, arith, pos,
}
use gohex.Prelude.Map.{get, put}
use gohex.Prelude.Text.{Text, text_eq, text_beq, lit}
use gohex.Kernel.Errors.{Error, domain, version_conflict, errors_is, as_domain_error}
use gohex.Kernel.Errors.Chain.{wrap_all, errors_is-domain_by_code}
use gohex.Kernel.Result.{ok, err, ◌>>=◌}
use gohex.Kernel.Event.{DomainEvent}
use gohex.Kernel.Aggregate.{
  Aggregate, new_aggregate, rehydrate, uncommitted_events, take_uncommitted,
}
use gohex.Kernel.Aggregate.Replay.{raise_each, rehydrate-raise_each}
use gohex.Kernel.Id.{
  TypedId, invalid, to_lower, parse_id, id_string, id_is_zero, marshal_text, unmarshal_text, new_id,
  hex_digit,
}
use gohex.Kernel.Id.Parsing.{IsUuid, parse_id_total, parse_id_round_trip}
use gohex.Kernel.Id.Format.{new_id-IsUuid, IsByte}
use gohex.EventStore.Types.{EventData, RecordedEvent}
use gohex.EventStore.Registry.{
  Registry, RegistryEntry, Upcaster, schema_version, register_upcaster, decode, encode,
}
use gohex.EventStore.Registry.Evolution.{
  lift_through, register_upcasters, current, decode-encode_evolved, decode_by_version,
}
use gohex.Example.Billing.{
  Payment, status_captured, PaymentEvent, payment_captured, payment_refunded, foreign_event,
  payment_applies, zero_payment, err_not_captured, err_already_refunded, apply_payment,
}
use gohex.Example.Billing.Lifecycle.{payment_applies-IsClean}

abbrev captured : PaymentEvent
captured = payment_captured (lit "o1") (pos 500)

abbrev refunded : PaymentEvent
refunded = payment_refunded (lit "o1")

abbrev loaded : Aggregate Payment PaymentEvent
loaded = record {
  root = record { version = 1; pending = [] };
  state = record { order = lit "o1"; status = status_captured };
}

-- The replay of a captured payment with a refund and an unknown event behind it.
captured_replays : rehydrate (new_aggregate zero_payment) (captured ∷ []) ≡ (loaded, none)
unfolding rehydrate apply_payment
captured_replays = refl

rehydrate-raise_each_example :
    rehydrate (new_aggregate zero_payment) (
      captured ∷ []
      ++ uncommitted_events (raise_each loaded (refunded ∷ foreign_event (lit "x") ∷ [])))
    ≡ ((take_uncommitted (raise_each loaded (refunded ∷ foreign_event (lit "x") ∷ []))).0, none)
rehydrate-raise_each_example =
    rehydrate-raise_each zero_payment (captured ∷ []) loaded
      (refunded ∷ foreign_event (lit "x") ∷ []) payment_applies-IsClean captured_replays

errors_is-domain_by_code_example :
    ((errors_is
          (wrap_all (lit "load" ∷ lit "save" ∷ []) (domain err_not_captured))
          (domain err_already_refunded)
        ≡ true)
      ↔ (err_already_refunded.code ≡ err_not_captured.code))
    × (errors_is
          (wrap_all (lit "load" ∷ lit "save" ∷ []) version_conflict)
          (domain err_already_refunded)
        ≡ false)
    × (errors_is
          (wrap_all (lit "load" ∷ lit "save" ∷ []) (domain err_not_captured))
          version_conflict
        ≡ false)
    × (as_domain_error (wrap_all (lit "load" ∷ lit "save" ∷ []) (domain err_not_captured))
        ≡ some err_not_captured)
errors_is-domain_by_code_example =
    errors_is-domain_by_code (lit "load" ∷ lit "save" ∷ []) err_not_captured err_already_refunded

abbrev upper_id : Text
upper_id = lit "6BA7B810-9DAD-41D1-80B4-00C04FD430C8"

abbrev lower_id : TypedId
lower_id = record { value = map to_lower upper_id }

parse_id_total_example :
    ((parse_id upper_id ≡ ok (record { value = map to_lower upper_id }))
      × IsUuid (map to_lower upper_id))
    ⊎ ((parse_id upper_id ≡ err invalid) × ¬ IsUuid (map to_lower upper_id))
parse_id_total_example = parse_id_total upper_id

abbrev random_bytes : List ℕ
random_bytes = 0 ∷ 1 ∷ 2 ∷ 3 ∷ 4 ∷ 5 ∷ 255 ∷ 7 ∷ 200 ∷ 9 ∷ 10 ∷ 11 ∷ 12 ∷ 13 ∷ 14 ∷ 15 ∷ []

random_bytes-IsByte : All IsByte random_bytes
random_bytes-IsByte = ground arith

new_id-IsUuid_example :
    IsUuid (id_string (new_id random_bytes))
    × (parse_id (id_string (new_id random_bytes)) ≡ ok (new_id random_bytes))
    × (get_elem? (id_string (new_id random_bytes)) 14 ≡ some b'4')
    × ((v : ℕ) × (get_elem? (id_string (new_id random_bytes)) 19 ≡ some (hex_digit v))
        × (8 ≤ v)
        × (v < 12))
new_id-IsUuid_example = new_id-IsUuid random_bytes refl random_bytes-IsByte

upper_id_parses : parse_id upper_id ≡ ok lower_id
unfolding parse_id
upper_id_parses = refl

parse_id_round_trip_example :
    IsUuid (id_string lower_id)
    × (id_is_zero lower_id ≡ false)
    × (marshal_text lower_id ≡ ok (id_string lower_id))
    × (unmarshal_text (record { value = [] }) (id_string lower_id) ≡ (lower_id, ok tt))
parse_id_round_trip_example =
    parse_id_round_trip upper_id lower_id (record { value = [] }) upper_id_parses

-- encoding/json of one event, and a later release with one upcaster.
instance abbrev text_events : DomainEvent Text
text_events = record { event_name = λ e. lit "placed"; marshal = λ e. ok e }

abbrev first_entry : RegistryEntry Text
first_entry = record { decode = λ p. ok p; upcasters = [] }

abbrev first_release : Registry Text
first_release = record { entries = (lit "placed", first_entry) ∷ [] }

abbrev add_field : Upcaster
add_field p = ok (p ++ lit "!")

abbrev second_entry : RegistryEntry Text
second_entry = record { decode = λ p. ok p; upcasters = add_field ∷ [] }

abbrev second_release : Registry Text
second_release = record { entries = (lit "placed", second_entry) ∷ [] }

abbrev stored : RecordedEvent
stored = record {
  global_seq = 1;
  stream = record { category = lit "order"; id = lit "o1" };
  version = 1;
  event_name = lit "placed";
  schema_version = 1;
  payload = lit "x";
  metadata = some [];
  occurred_at = 0;
}

abbrev stored_data : EventData
stored_data = record {
  event_name = lit "placed";
  schema_version = 1;
  payload = lit "x";
  metadata = none;
}

first_found : get first_release.entries (lit "placed") ≡ some first_entry
unfolding get text_beq
first_found = refl

second_found : get second_release.entries stored.event_name ≡ some second_entry
unfolding get text_beq
second_found = refl

stored_encodes : encode first_release (lit "x") ≡ ok stored_data
unfolding encode get text_beq schema_version
stored_encodes = refl

registers : register_upcasters first_release (lit "placed") (add_field ∷ []) ≡ ok second_release
unfolding register_upcasters register_upcaster get text_beq put
registers = refl

decode-encode_evolved_example :
    decode second_release stored ≡ (lift_through (add_field ∷ []) (lit "x") >>= λ p. ok p)
decode-encode_evolved_example =
    decode-encode_evolved first_release second_release (lit "x") stored_data (some []) first_entry
      stored (add_field ∷ []) first_found stored_encodes registers refl

decode_by_version_example :
    ((1 ≤ 1)
      × (1 ≤ current second_entry)
      × (decode second_release stored
          ≡ (lift_through (drop (1 - 1) (add_field ∷ [])) (lit "x") >>= λ p. ok p)))
    ⊎ (((1 < 1) ⊎ (current second_entry < 1))
        × ((x : Error) × (decode second_release stored ≡ err x)))
decode_by_version_example = decode_by_version second_release second_entry stored second_found
