-- ===== src/Example/Ordering/Service/Codec.antt =====
-- gohex-example/ordering/internal/domain/order.go, app/app.go: the orders that JSON can hold.
use gohex.Prelude.{
  zero, suc, ℤ, pos, negsuc, is_pos, eqb, ◌&&◌, if◌then◌else◌, ◌≡◌, refl, ◌⊎◌, inl, inr, true,
  false, length, Bool-cases,
}
use gohex.Prelude.Text.{Text, text_eq, is_empty}
use gohex.Prelude.Utf8.{is_utf8}
use gohex.Kernel.Errors.{Error, domain}
use gohex.Kernel.Result.{ok, err}
use gohex.Kernel.Event.{DomainEvent}
use gohex.Kernel.Id.{TypedId, parse_id}
use gohex.EventStore.Registry.{Registry}
use gohex.EventStore.Repository.RoundTrip.Codec.{IsCodec}
use gohex.Example.Ordering.Values.{
  Money, Quantity, money_is_zero, is_zero_int, new_money, err_invalid_amount, err_invalid_currency,
}
use gohex.Example.Ordering.Order.{OrderEvent, order_placed, customer_notified, order_applies}
use gohex.Example.Ordering.Service.{PlaceOrder}

-- The values of an order as the constructors make them, with a currency that JSON can hold.
pub record IsPlaceable (id customer : TypedId) (total : Money) (qty : Quantity) : Type 0 where
  pub id_parsed : parse_id id.value ≡ ok id
  pub customer_parsed : parse_id customer.value ≡ ok customer
  pub total_made : new_money total.cents total.currency ≡ ok total
  pub total_utf8 : is_utf8 total.currency ≡ true
  pub qty_made : is_pos qty.n ≡ true

-- One of the fields whose marshaller refuses the zero value has that value.
abbrev pub IsUnset : TypedId → TypedId → Quantity → Type 0
IsUnset id customer qty =
    (is_empty id.value ≡ true) ⊎ (is_empty customer.value ≡ true) ⊎ (is_pos qty.n ≡ false)

-- encoding/json on the two events of an order: it reads back what it writes of values that the
-- constructors made and of strings that are valid UTF-8, and it fails where the marshaller of a field
-- does, of ID.MarshalText and Quantity.MarshalJSON.
pub record IsOrderCodec ⦃ev : DomainEvent OrderEvent⦄ (registry : Registry OrderEvent)
    : Type 0 where
  pub placements :
      (id customer : TypedId) (total : Money) (qty : Quantity)
      → IsPlaceable id customer total qty
      → IsCodec registry (order_placed id customer total qty)
  pub rejects :
      (id customer : TypedId) (total : Money) (qty : Quantity)
      → IsUnset id customer qty
      → (x : Error) × (ev.marshal (order_placed id customer total qty) ≡ err x)
  pub notices :
      (id : TypedId) (reason : Text)
      → parse_id id.value ≡ ok id
      → is_utf8 reason ≡ true
      → IsCodec registry (customer_notified id reason)

-- The command's values are zero or made by their constructors.
pub record IsMade (cmd : PlaceOrder) : Type 0 where
  pub id : (is_empty cmd.id.value ≡ true) ⊎ (parse_id cmd.id.value ≡ ok cmd.id)
  pub customer :
      (is_empty cmd.customer.value ≡ true) ⊎ (parse_id cmd.customer.value ≡ ok cmd.customer)
  pub total :
      (money_is_zero cmd.total ≡ true)
      ⊎ ((new_money cmd.total.cents cmd.total.currency ≡ ok cmd.total)
          × (is_utf8 cmd.total.currency ≡ true))

abbrev pub Placeable : PlaceOrder → Type 0
Placeable cmd = IsPlaceable cmd.id cmd.customer cmd.total cmd.qty

pub made-Placeable :
    (cmd : PlaceOrder)
    → IsMade cmd
    → money_is_zero cmd.total ≡ false
    → IsUnset cmd.id cmd.customer cmd.qty ⊎ Placeable cmd
made-Placeable cmd made good = elim (made.id) [
  | inl no_id ↦ inl (inl no_id)
  | inr id ↦ elim (made.customer) [
    | inl no_customer ↦ inl (inr (inl no_customer))
    | inr customer ↦ elim (Bool-cases (is_pos cmd.qty.n)) [
      | inr no_qty ↦ inl (inr (inr no_qty))
      | inl qty ↦ elim (made.total) [
        | inl nothing ↦ absurd cc
        | inr total ↦ inr (record {
          id_parsed = id;
          customer_parsed = customer;
          total_made = total.0;
          total_utf8 = total.1;
          qty_made = qty;
        })
      ]
    ]
  ]
]

-- NewMoney makes no zero value.
pub new_money-nonzero : (m : Money) → new_money m.cents m.currency ≡ ok m → money_is_zero m ≡ false
unfolding new_money money_is_zero
new_money-nonzero m h = positive m.cents m.currency h
  where
    positive :
        (cents : ℤ) (currency : Text)
        → (if is_pos cents
            then if eqb (length currency) 3
              then ok (record { cents = cents; currency = currency })
              else err (domain err_invalid_currency)
            else err (domain err_invalid_amount))
          ≡ ok m
        → (is_zero_int cents && is_empty currency) ≡ false
    positive (pos zero) currency e = absurd cc
    positive (pos (suc n)) currency e = refl
    positive (negsuc n) currency e = refl
