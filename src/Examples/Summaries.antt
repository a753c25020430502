-- ===== src/Examples/Summaries.antt =====
-- The read model and the notification worker of ordering at concrete inputs.
use gohex.Prelude.{
  ℕ, ◌≡◌, refl, true, false, ◌||◌, Option, none, some, List, [], ◌∷◌, ◌⊎◌, inl, pos, map,
}
use gohex.Prelude.Map.{get}
use gohex.Prelude.Text.{Text, text_eq, text_beq, lit}
use gohex.Kernel.Errors.{Error, plain}
use gohex.EventStore.Types.{Metadata}
use gohex.EventStore.Position.{Context}
use gohex.Broker.Message.{Message}
use gohex.Projection.{Meta}
use gohex.Example.Contracts.{payment_captured_v1, shipment_dispatched_v1, stock_reserved_v1}
use gohex.Example.Ordering.Ports.{NotificationQueue, PendingNotification}
use gohex.Example.Ordering.Order.{order_placed}
use gohex.Example.Ordering.Service.{NotifyCustomer}
use gohex.Example.Ordering.Postgres.{NotificationRow, Worklist, empty_worklist, postgres_queue}
use gohex.Example.Ordering.Postgres.Ranks.{Item, own, foreign, apply_items, highest, Shows}
use gohex.Example.Ordering.Postgres.Highest.{status_is_highest}
use gohex.Example.Ordering.Notifier.{tick}
use gohex.Example.Ordering.Notifier.Retiring.{worker, succeeded, is_among, tick_retires_succeeded}

-- Metadata as JSON: one flag in front of nothing, which is all that the examples store.
abbrev encode : Metadata → Text ⊎ Error
encode m = inl (lit "null")

abbrev decode : Text → Metadata ⊎ Error
decode t = inl none

abbrev queue : NotificationQueue Worklist
queue = postgres_queue (λ q. none) encode decode

abbrev message : Text → Message
message id = record {
  id = id;
  key = lit "o1";
  type_name = lit "event";
  version = pos 1;
  occurred_at = 5;
  payload = [];
  metadata = none;
}

abbrev meta : Meta
meta = record {
  stream = record { category = lit "order"; id = lit "o1" };
  version = 1;
  global_seq = 1;
  occurred_at = 5;
  metadata = none;
}

-- The shipment and the reservation arrive before the order's own placement, and the payment last.
abbrev items : List Item
items =
    foreign (shipment_dispatched_v1 (record { order_id = lit "o1" })) (message (lit "s"))
    ∷ foreign (stock_reserved_v1 (record { order_id = lit "o1"; qty = pos 2 })) (message (lit "r"))
    ∷ own
        (order_placed (record { value = lit "o1" }) (record { value = lit "c1" })
          (record { cents = pos 500; currency = lit "EUR" }) (record { n = pos 2 }))
        meta
    ∷ foreign (payment_captured_v1 (record { order_id = lit "o1"; cents = pos 500 }))
        (message (lit "p"))
    ∷ []

shipped_last : highest (lit "o1") items ≡ 4
unfolding highest text_beq
shipped_last = refl

status_is_highest_example :
    Shows
      (get (apply_items queue ([], empty_worklist) items).0 (lit "o1"))
      (highest (lit "o1") items)
status_is_highest_example = status_is_highest queue empty_worklist (lit "o1") items

-- A bus on the list of what it was told, which refuses the order "o2".
abbrev dispatch : Context → List Text → NotifyCustomer → List Text × Option Error
dispatch ctx w cmd = (
  cmd.order_id ∷ w,
  elim (text_beq cmd.order_id (lit "o2")) [ true ↦ some (plain (lit "down")) | false ↦ none ],
)

abbrev start_batch : Context → Context
start_batch ctx = ctx

abbrev start_linked : Context → Metadata → Context
start_linked ctx m = record ctx { trace = m }

abbrev ctx : Context
ctx = record { position = none; trace = none }

abbrev pending_row : ℕ → Text → PendingNotification
pending_row id order = record {
  id = id;
  order_id = order;
  reason = lit "payment_failed";
  metadata = none;
}

abbrev stored_row : ℕ → Text → NotificationRow
stored_row id order = record {
  id = id;
  order_id = order;
  reason = lit "payment_failed";
  metadata = lit "null";
  sent = false;
}

abbrev batch : List PendingNotification
batch = pending_row 1 (lit "o1") ∷ pending_row 2 (lit "o2") ∷ pending_row 3 (lit "o3") ∷ []

abbrev worklist : Worklist
worklist = record {
  rows = stored_row 1 (lit "o1") ∷ stored_row 2 (lit "o2") ∷ stored_row 3 (lit "o3") ∷ [];
  next_id = 4;
}

abbrev ticked : List Text × Worklist
ticked = tick (worker encode decode dispatch start_batch start_linked) ctx batch ([], worklist)

abbrev told : List Text × List ℕ
told = succeeded (worker encode decode dispatch start_batch start_linked) (start_batch ctx) batch []

two_succeed : told ≡ (lit "o3" ∷ lit "o2" ∷ lit "o1" ∷ [], 1 ∷ 3 ∷ [])
unfolding succeeded text_beq
two_succeed = refl

tick_retires_succeeded_example :
    (ticked.0 ≡ told.0)
    × (ticked.1.next_id ≡ worklist.next_id)
    × (ticked.1.rows
        ≡ map
            (λ (r : NotificationRow). record r { sent = is_among told.1 r.id || r.sent })
            worklist.rows)
tick_retires_succeeded_example =
    tick_retires_succeeded encode decode dispatch start_batch start_linked ctx batch [] worklist
