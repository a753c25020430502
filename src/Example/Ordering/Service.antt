-- ===== src/Example/Ordering/Service.antt =====
-- gohex-example/ordering/internal/app/app.go: the registrations, commands and handlers of ordering.
pub mod Codec
pub mod Orders
pub mod Notices
use gohex.Prelude.{ℕ, Option, none, some, List, []}
use gohex.Prelude.Text.{Text, lit}
use gohex.Kernel.Errors.{Error}
use gohex.Kernel.Result.{Result, ok, err, panic, ◌>>=◌}
use gohex.Kernel.Event.{DomainEvent}
use gohex.Kernel.Aggregate.{Aggregate}
use gohex.Kernel.Id.{TypedId, parse_id}
use gohex.EventStore.Types.{Store}
use gohex.EventStore.Position.{Context, Positions, Extractor}
use gohex.EventStore.Registry.{Registry}
use gohex.EventStore.Repository.{Repository, load_aggregate}
use gohex.Cqrs.Command.{HandlerFunc}
use gohex.Cqrs.Bus.{Bus, handle}
use gohex.Cqrs.Query.{QueryBus, QueryHandlerFunc, handle_query}
use gohex.Example.Contracts.{ContractEvent, order_placed_v1}
use gohex.Example.Handled.{Handled, unchanged, returned, save_decision}
use gohex.Example.Ordering.Values.{Money, Quantity}
use gohex.Example.Ordering.Order.{
  OrderEvent, order_placed, customer_notified, foreign_event, Order, zero_order, order_applies,
  place, notify,
}
use gohex.Example.Ordering.Ports.{OrderSummary, SummaryStore}

pub record PlaceOrder : Type 0 where
  pub id : TypedId
  pub customer : TypedId
  pub total : Money
  pub qty : Quantity

pub record NotifyCustomer : Type 0 where
  pub order_id : Text
  pub reason : Text

pub record GetOrder : Type 0 where
  pub order_id : Text

-- The commands that the service dispatches to itself, and their CommandName.
pub data OrderingCommand : Type 0 where
  place_order_cmd : PlaceOrder → OrderingCommand
  notify_customer_cmd : NotifyCustomer → OrderingCommand

unfoldable pub ordering_command_name : OrderingCommand → Text
ordering_command_name (place_order_cmd c) = lit "ordering.place_order"
ordering_command_name (notify_customer_cmd c) = lit "ordering.notify_customer"

-- The translator of OrderPlaced; no other event of an order is public.
unfoldable pub translate_order : OrderEvent → Option ContractEvent
translate_order (order_placed id customer total qty) = some (
    order_placed_v1 (record {
      order_id = id.value;
      customer_id = customer.value;
      cents = total.cents;
      currency = total.currency;
      qty = qty.n;
    }))
translate_order (customer_notified id reason) = none
translate_order (foreign_event name) = none

-- New: the repository that Handlers holds beside the summaries.
abbrev pub new_handlers :
    {S : Type 0} → Store S → Registry OrderEvent → Repository S Order OrderEvent
new_handlers store registry = record {
  store = store;
  registry = registry;
  category = lit "order";
  zero = zero_order;
}

-- The method Register, with the handlers as funcs of the two buses.
unfoldable pub register_handlers :
    {W C Q V : Type 0}
    → Bus W C
    → QueryBus W Q V
    → HandlerFunc W C
    → HandlerFunc W C
    → QueryHandlerFunc W Q V
    → Result (Bus W C × QueryBus W Q V)
register_handlers bus queries place_h notify_h get_h = do
  b1 ← handle bus (lit "ordering.place_order") place_h
  b2 ← handle b1 (lit "ordering.notify_customer") notify_h
  q1 ← handle_query queries (lit "ordering.get_order") get_h
  ok (b2, q1)

unfoldable pub get_order : {T : Type 0} → SummaryStore T → T → GetOrder → Result OrderSummary
get_order summaries t q = summaries.get_summary t q.order_id

module _ {S : Type 0} ⦃ev : DomainEvent OrderEvent⦄ (orders : Repository S Order OrderEvent)
    (ext : Extractor) (ctx : Context) (now : ℕ) where
  unfoldable pub place_order : PlaceOrder → S → Positions → Handled S
  unfolding save_decision place
  place_order cmd s heap =
      save_decision orders ext ctx now cmd.id.value s heap
        (returned (place cmd.id cmd.customer cmd.total cmd.qty))

  -- NotifyCustomer behind ParseID, and behind Load.
  abbrev pub notify_loaded :
      TypedId → Text → S → Positions → Result (Aggregate Order OrderEvent) → Handled S
  notify_loaded id reason s heap (ok o) =
      save_decision orders ext ctx now id.value s heap (returned (notify o reason))
  notify_loaded id reason s heap (err x) = unchanged s heap (err x)
  notify_loaded id reason s heap panic = unchanged s heap panic

  abbrev pub notify_parsed : Text → S → Positions → Result TypedId → Handled S
  notify_parsed reason s heap (ok id) =
      notify_loaded id reason s heap (load_aggregate orders s id.value)
  notify_parsed reason s heap (err x) = unchanged s heap (err x)
  notify_parsed reason s heap panic = unchanged s heap panic

  unfoldable pub notify_customer : NotifyCustomer → S → Positions → Handled S
  unfolding save_decision
  notify_customer cmd s heap = notify_parsed cmd.reason s heap (parse_id cmd.order_id)
