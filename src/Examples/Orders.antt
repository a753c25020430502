-- ===== src/Examples/Orders.antt =====
-- The ordering service over the in-memory store at concrete inputs.
use gohex.Prelude.{
  not, ◌||◌, is_pos, Bool-cases, if◌then◌else◌, ◌≡◌, refl, true, false, none, [], ◌∷◌, pos, ◌⊎◌,
  inl, inr,
}
use gohex.Prelude.Map.{get}
use gohex.Prelude.Text.{Text, text_eq, text_beq, lit, is_empty}
use gohex.Kernel.Errors.{Error, plain, domain}
use gohex.Kernel.Result.{Result, ok, err, ◌>>=◌}
use gohex.Prelude.Utf8.{is_utf8}
use gohex.Kernel.Event.{DomainEvent}
use gohex.Kernel.Id.{TypedId, parse_id}
use gohex.Kernel.Aggregate.{Aggregate, take_uncommitted}
use gohex.EventStore.Contract.{events_of}
use gohex.EventStore.Memory.{MemoryStore, new_memory_store, memory_store}
use gohex.EventStore.Repository.{Repository, stream_of}
use gohex.EventStore.Memory.Invariant.{IsValid, new_memory_store-IsValid}
use gohex.EventStore.Memory.Implements.{memory_store-Contract}
use gohex.EventStore.Position.{Context}
use gohex.EventStore.Registry.{Registry, RegistryEntry}
use gohex.Example.Handled.{Handled, unchanged}
use gohex.Example.Ordering.Values.{
  Money, Quantity, new_money, new_quantity, money_is_zero, err_empty_order, err_empty_reason,
}
use gohex.Example.Ordering.Order.{
  Order, OrderEvent, order_placed, customer_notified, foreign_event, order_event_name, was_notified,
}
use gohex.Example.Ordering.Service.{
  PlaceOrder, NotifyCustomer, new_handlers, place_order, notify_customer,
}
use gohex.Example.Ordering.Service.Codec.{
  IsPlaceable, Placeable, IsUnset, IsOrderCodec, IsMade, new_money-nonzero,
}
use gohex.Example.Ordering.Service.Orders.{IsPlaced, placed, place_order_once}
use gohex.Example.Ordering.Service.Notices.{IsNotified, notify_customer_once}
use gohex.Examples.Codecs.{
  write_int, read_int, behind_int, write_text, read_text, behind_text, codec_laws,
}

abbrev placed_payload : TypedId → TypedId → Money → Quantity → Text
placed_payload id customer total qty =
    write_int total.cents
      (write_int qty.n (write_text total.currency (write_text customer.value id.value)))

abbrev zero_value : Error
zero_value = plain (lit "marshaling a zero value")

-- ID.MarshalText and Quantity.MarshalJSON refuse a zero value, and Money.MarshalJSON its own.
abbrev marshal_order : OrderEvent → Result Text
marshal_order (order_placed id customer total qty) =
    if is_empty id.value || is_empty customer.value || not (is_pos qty.n) || money_is_zero total
    then err zero_value
    else ok (placed_payload id customer total qty)
marshal_order (customer_notified id reason) =
    if is_empty id.value then err zero_value else ok (write_text reason id.value)
marshal_order (foreign_event name) = ok name

instance abbrev order_events : DomainEvent OrderEvent
order_events = record { event_name = order_event_name; marshal = marshal_order }

-- ID.UnmarshalText, Money.UnmarshalJSON and Quantity.UnmarshalJSON check what they read.
abbrev read_placed : Text → Result OrderEvent
read_placed p =
    let q = behind_int p in
    let r = behind_int q in
    let t = behind_text r in
    do
      id ← parse_id (behind_text t)
      customer ← parse_id (read_text t)
      total ← new_money (read_int p) (read_text r)
      qty ← new_quantity (read_int q)
      ok (order_placed id customer total qty)

abbrev read_notified : Text → Result OrderEvent
read_notified p = do id ← parse_id (behind_text p); ok (customer_notified id (read_text p))

abbrev entry : (Text → Result OrderEvent) → RegistryEntry OrderEvent
entry f = record { decode = f; upcasters = [] }

abbrev registry : Registry OrderEvent
registry = record {
  entries =
      (lit "ordering.order_placed", entry read_placed)
      ∷ (lit "ordering.customer_notified", entry read_notified)
      ∷ [];
}

-- ParseID accepts no empty text.
parsed_nonempty : (t : Text) (id : TypedId) → parse_id t ≡ ok id → is_empty t ≡ false
unfolding parse_id
parsed_nonempty [] id h = absurd cc
parsed_nonempty (b ∷ t) id h = refl

unset_rejected :
    (id customer : TypedId) (total : Money) (qty : Quantity)
    → IsUnset id customer qty
    → (x : Error) × (marshal_order (order_placed id customer total qty) ≡ err x)
unset_rejected id customer total qty (inl h) = (zero_value, rw h refl)
unset_rejected id customer total qty (inr (inl h)) = elim (Bool-cases (is_empty id.value)) [
  | inl e ↦ (zero_value, rw e refl)
  | inr e ↦ (zero_value, rw (e, h) refl)
]
unset_rejected id customer total qty (inr (inr h)) = elim (Bool-cases (is_empty id.value)) [
  | inl e ↦ (zero_value, rw e refl)
  | inr e ↦ elim (Bool-cases (is_empty customer.value)) [
    | inl f ↦ (zero_value, rw (e, f) refl)
    | inr f ↦ (zero_value, rw (e, f, h) refl)
  ]
]

placed_marshals :
    (id customer : TypedId) (total : Money) (qty : Quantity)
    → IsPlaceable id customer total qty
    → marshal_order (order_placed id customer total qty) ≡ ok (placed_payload id customer total qty)
placed_marshals id customer total qty p =
    rw
      (
        parsed_nonempty id.value id p.id_parsed,
        parsed_nonempty customer.value customer p.customer_parsed,
        p.qty_made,
        new_money-nonzero total p.total_made,
      )
      refl

new_quantity_made : (q : Quantity) → is_pos q.n ≡ true → new_quantity q.n ≡ ok q
unfolding new_quantity
new_quantity_made q h = rw h refl

placed_read :
    (id customer : TypedId) (total : Money) (qty : Quantity)
    → IsPlaceable id customer total qty
    → read_placed (placed_payload id customer total qty) ≡ ok (order_placed id customer total qty)
placed_read id customer total qty p =
    simp
      (codec_laws, p.id_parsed, p.customer_parsed, p.total_made, new_quantity_made qty p.qty_made)

notified_read :
    (id : TypedId) (reason : Text)
    → parse_id id.value ≡ ok id
    → read_notified (write_text reason id.value) ≡ ok (customer_notified id reason)
notified_read id reason h = simp (codec_laws, h)

registry-IsOrderCodec : IsOrderCodec registry
unfolding get text_beq order_event_name
registry-IsOrderCodec = record {
  placements = λ id customer total qty p. record {
    entry = entry read_placed;
    payload = placed_payload id customer total qty;
    registered = refl;
    marshals = placed_marshals id customer total qty p;
    unmarshals = placed_read id customer total qty p;
  };
  rejects = unset_rejected;
  notices = λ id reason h utf8. record {
    entry = entry read_notified;
    payload = write_text reason id.value;
    registered = refl;
    marshals = rw (parsed_nonempty id.value id h) refl;
    unmarshals = notified_read id reason h;
  };
}

abbrev ctx : Context
ctx = record { position = none; trace = none }

abbrev orders : Repository MemoryStore Order OrderEvent
orders = new_handlers memory_store registry

abbrev order_id : TypedId
order_id = record { value = lit "0f8fad5b-d9cb-469f-a165-70867728950e" }

abbrev place_cmd : PlaceOrder
place_cmd = record {
  id = order_id;
  customer = record { value = lit "7c9e6679-7425-40de-944b-e07fc1f90ae7" };
  total = record { cents = pos 500; currency = lit "EUR" };
  qty = record { n = pos 2 };
}

id_parsed : parse_id order_id.value ≡ ok order_id
unfolding parse_id
id_parsed = refl

customer_parsed : parse_id place_cmd.customer.value ≡ ok place_cmd.customer
unfolding parse_id
customer_parsed = refl

total_made : new_money place_cmd.total.cents place_cmd.total.currency ≡ ok place_cmd.total
unfolding new_money
total_made = refl

total_utf8 : is_utf8 place_cmd.total.currency ≡ true
unfolding is_utf8
total_utf8 = refl

place_cmd-IsMade : IsMade place_cmd
place_cmd-IsMade = record {
  id = inr id_parsed;
  customer = inr customer_parsed;
  total = inr (total_made, total_utf8);
}

nothing_yet : events_of (stream_of orders place_cmd.id.value) (new_memory_store).all ≡ []
nothing_yet = refl

abbrev placed_call : Handled MemoryStore
placed_call = place_order orders none ctx 7 place_cmd new_memory_store []

place_order_once_example :
    ((money_is_zero place_cmd.total ≡ true)
      × (placed_call ≡ unchanged new_memory_store [] (err (domain err_empty_order))))
    ⊎ ((money_is_zero place_cmd.total ≡ false)
        × IsUnset place_cmd.id place_cmd.customer place_cmd.qty
        × ((x : Error) × (placed_call ≡ unchanged new_memory_store [] (err x))))
    ⊎ ((money_is_zero place_cmd.total ≡ false)
        × Placeable place_cmd
        × IsPlaced orders IsValid none ctx 7 place_cmd new_memory_store placed_call)
place_order_once_example =
    place_order_once memory_store registry memory_store-Contract registry-IsOrderCodec none ctx 7
      new_memory_store [] new_memory_store-IsValid place_cmd place_cmd-IsMade nothing_yet

set : ¬ IsUnset place_cmd.id place_cmd.customer place_cmd.qty
set (inl h) = cc
set (inr (inl h)) = cc
set (inr (inr h)) = cc

placed_call-IsPlaced : IsPlaced orders IsValid none ctx 7 place_cmd new_memory_store placed_call
unfolding money_is_zero
placed_call-IsPlaced =
    elim (place_order_once memory_store registry memory_store-Contract registry-IsOrderCodec none
      ctx 7 new_memory_store [] new_memory_store-IsValid place_cmd place_cmd-IsMade nothing_yet) [
        | inl (refused, _) ↦ let e : money_is_zero place_cmd.total ≡ false = refl in cc
        | inr (inl (_, unset, _)) ↦ absurd (set unset)
        | inr (inr (_, _, p)) ↦ p
      ]

abbrev notify_cmd : NotifyCustomer
notify_cmd = record {
  order_id = lit "0F8FAD5B-d9cb-469f-a165-70867728950e";
  reason = lit "payment_failed";
}

notify_cmd_parses : parse_id notify_cmd.order_id ≡ ok order_id
unfolding parse_id
notify_cmd_parses = refl

reason_utf8 : is_utf8 notify_cmd.reason ≡ true
unfolding is_utf8
reason_utf8 = refl

abbrev order_there : Aggregate Order OrderEvent
order_there = (take_uncommitted (placed place_cmd)).0

abbrev notified_call : Handled MemoryStore
notified_call = notify_customer orders none ctx 8 notify_cmd placed_call.store []

notify_customer_once_example :
    ((is_empty notify_cmd.reason ≡ true)
      × (notified_call ≡ unchanged placed_call.store [] (err (domain err_empty_reason))))
    ⊎ ((is_empty notify_cmd.reason ≡ false)
        × (was_notified order_there.state notify_cmd.reason ≡ true)
        × (notified_call ≡ unchanged placed_call.store [] (ok tt)))
    ⊎ ((is_empty notify_cmd.reason ≡ false)
        × (was_notified order_there.state notify_cmd.reason ≡ false)
        × IsNotified orders IsValid none ctx 8 notify_cmd order_id placed_call.store order_there
            notified_call)
unfolding take_uncommitted
notify_customer_once_example =
    notify_customer_once memory_store registry memory_store-Contract registry-IsOrderCodec none ctx
      8 placed_call.store [] placed_call-IsPlaced.stored.valid notify_cmd order_id order_there
      notify_cmd_parses placed_call-IsPlaced.stored.loads id_parsed reason_utf8
