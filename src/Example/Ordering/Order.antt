-- ===== src/Example/Ordering/Order.antt =====
-- gohex-example/ordering/internal/domain/order.go: the Order aggregate.
pub mod Notifications
use gohex.Prelude.{Bool, true, false, Option, none, some, List, [], if◌then◌else◌, pos}
use gohex.Prelude.Map.{Map, get, put}
use gohex.Prelude.Text.{Text, text_eq, lit, is_empty}
use gohex.Kernel.Errors.{Error, domain, plain}
use gohex.Kernel.Aggregate.{Applies, Aggregate, new_aggregate, raise}
use gohex.Kernel.Id.{TypedId}
use gohex.Example.Ordering.Values.{
  Money, Quantity, money_is_zero, err_empty_order, err_empty_reason,
}

pub data OrderEvent : Type 0 where
  order_placed : TypedId → TypedId → Money → Quantity → OrderEvent
  customer_notified : TypedId → Text → OrderEvent
  foreign_event : Text → OrderEvent

unfoldable pub order_event_name : OrderEvent → Text
order_event_name (order_placed id customer total qty) = lit "ordering.order_placed"
order_event_name (customer_notified id reason) = lit "ordering.customer_notified"
order_event_name (foreign_event name) = name

pub record Order : Type 0 where
  pub id : TypedId
  pub customer : TypedId
  pub total : Money
  pub qty : Quantity
  pub notified : Map Text Bool

abbrev pub zero_order : Order
zero_order = record {
  id = record { value = lit "" };
  customer = record { value = lit "" };
  total = record { cents = pos 0; currency = lit "" };
  qty = record { n = pos 0 };
  notified = [];
}

abbrev pub new_order : Aggregate Order OrderEvent
new_order = new_aggregate zero_order

unfoldable pub apply_order : Order → OrderEvent → Order × Option Error
apply_order o (order_placed id customer total qty) =
    (record o { id = id; customer = customer; total = total; qty = qty }, none)
apply_order o (customer_notified id reason) =
    (record o { notified = put o.notified reason true }, none)
apply_order o (foreign_event name) = (o, some (plain (lit "order: unknown event")))

instance abbrev pub order_applies : Applies Order OrderEvent
order_applies = record { apply = apply_order }

unfoldable pub place :
    TypedId → TypedId → Money → Quantity → Aggregate Order OrderEvent × Option Error
unfolding raise apply_order
place id customer total qty =
    if money_is_zero total
    then (new_order, some (domain err_empty_order))
    else raise new_order (order_placed id customer total qty)

-- o.notified[reason]; a missing key reads as false.
unfoldable pub was_notified : Order → Text → Bool
was_notified o reason = elim (get o.notified reason) [ none ↦ false | some b ↦ b ]

unfoldable pub notify :
    Aggregate Order OrderEvent → Text → Aggregate Order OrderEvent × Option Error
unfolding raise apply_order
notify o reason =
    if is_empty reason
    then (o, some (domain err_empty_reason))
    else if was_notified o.state reason
    then (o, none)
    else raise o (customer_notified o.state.id reason)
