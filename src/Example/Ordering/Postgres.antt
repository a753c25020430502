-- ===== src/Example/Ordering/Postgres.antt =====
-- gohex-example/ordering/internal/adapters/postgres/summary.go, notifications.go: the statements of
-- the two adapters, on the rows of their tables. The driver runs a statement whole or fails without
-- an effect: `fault` says whether it fails on a table as it is. The columns created_at and
-- updated_at, which no statement reads, are left out.
pub mod Ranks
pub mod Highest
use gohex.Prelude.{
  ℕ, ◌+◌, ◌&&◌, ◌||◌, Bool, true, false, not, Option, none, some, List, [], ◌∷◌, ◌++◌, map, ℤ, pos,
  negsuc, leb, eqb, ◌⊎◌, inl, inr, take, select, if◌then◌else◌,
}
use gohex.Prelude.Map.{Map, get, put}
use gohex.Prelude.Text.{Text, text_eq, text_beq, lit}
use gohex.Kernel.Errors.{Error, domain, plain, wrap}
use gohex.Kernel.Result.{Result, ok, err, panic, ◌>>=◌}
use gohex.EventStore.Types.{Metadata}
use gohex.Example.Ordering.Ports.{
  err_order_not_found, rank_placed, OrderSummary, PendingNotification, NotificationQueue,
  SummaryStore,
}

-- A row of order_summary beside its primary key. `none` is NULL.
pub record SummaryRow : Type 0 where
  pub customer_id : Text
  pub cents : ℤ
  pub currency : Text
  pub qty : ℤ
  pub status : Text
  pub status_rank : ℕ
  pub placed_at : Option ℕ

abbrev pub SummaryTable : Type 0
SummaryTable = Map Text SummaryRow

-- The defaults of the columns.
abbrev pub default_row : SummaryRow
default_row = record {
  customer_id = [];
  cents = pos 0;
  currency = [];
  qty = pos 0;
  status = [];
  status_rank = 0;
  placed_at = none;
}

-- status and status_rank of DO UPDATE, which both statements share.
unfoldable pub raise_status : SummaryRow → Text → ℕ → SummaryRow
raise_status row status rank = record row {
  status = if leb rank row.status_rank then row.status else status;
  status_rank = if leb rank row.status_rank then row.status_rank else rank;
}

unfoldable pub placed_row : Option SummaryRow → OrderSummary → SummaryRow
unfolding raise_status
placed_row none o = record {
  customer_id = o.customer_id;
  cents = o.cents;
  currency = o.currency;
  qty = o.qty;
  status = lit "placed";
  status_rank = rank_placed;
  placed_at = some o.placed_at;
}
placed_row (some row) o =
    raise_status
      (record row {
        customer_id = o.customer_id;
        cents = o.cents;
        currency = o.currency;
        qty = o.qty;
        placed_at = some o.placed_at;
      })
      (lit "placed") rank_placed

unfoldable pub status_row : Option SummaryRow → Text → ℕ → SummaryRow
unfolding raise_status
status_row none status rank = record default_row { status = status; status_rank = rank }
status_row (some row) status rank = raise_status row status rank

module _ (fault : SummaryTable → Option Error) where
  -- What Exec returns of a statement that would leave `after`.
  abbrev pub exec : SummaryTable → Text → SummaryTable → SummaryTable × Option Error
  exec t message after = elim (fault t) [
    | none ↦ (after, none)
    | some x ↦ (t, some (wrap message x))
  ]

  unfoldable pub upsert_placed : SummaryTable → OrderSummary → SummaryTable × Option Error
  unfolding placed_row
  upsert_placed t o =
      exec t (lit "ordering/postgres: upsert") (put t o.order_id (placed_row (get t o.order_id) o))

  unfoldable pub set_status : SummaryTable → Text → Text → ℕ → SummaryTable × Option Error
  unfolding status_row
  set_status t order status rank =
      exec t (lit "ordering/postgres: set status")
        (put t order (status_row (get t order) status rank))

  abbrev pub scanned : Text → Option SummaryRow → Result OrderSummary
  scanned order none = err (wrap (lit "%w: %s") (domain err_order_not_found))
  scanned order (some row) = ok (record {
    order_id = order;
    customer_id = row.customer_id;
    cents = row.cents;
    currency = row.currency;
    qty = row.qty;
    status = row.status;
    placed_at = elim row.placed_at [ none ↦ 0 | some at ↦ at ];
  })

  unfoldable pub get_summary : SummaryTable → Text → Result OrderSummary
  get_summary t order = elim (fault t) [
    | none ↦ scanned order (get t order)
    | some x ↦ err (wrap (lit "ordering/postgres: get") x)
  ]

  abbrev pub postgres_summaries : SummaryStore SummaryTable
  postgres_summaries = record {
    upsert_placed = upsert_placed;
    set_status = set_status;
    get_summary = get_summary;
  }

-- A row of pending_notification, with whether sent_at is set. `metadata` is its JSON text.
pub record NotificationRow : Type 0 where
  pub id : ℕ
  pub order_id : Text
  pub reason : Text
  pub metadata : Text
  pub sent : Bool

-- The rows in the order of their IDs, and the next value of the identity column.
pub record Worklist : Type 0 where
  pub rows : List NotificationRow
  pub next_id : ℕ

abbrev pub empty_worklist : Worklist
empty_worklist = record { rows = []; next_id = 1 }

-- UNIQUE (order_id, reason)
unfoldable pub conflicts : Text → Text → List NotificationRow → Bool
conflicts order reason [] = false
conflicts order reason (r ∷ rs) =
    (text_beq r.order_id order && text_beq r.reason reason) || conflicts order reason rs

-- The identity column takes its value also where the row is then not inserted.
unfoldable pub insert_pending : Worklist → Text → Text → Text → Worklist
unfolding conflicts
insert_pending w order reason encoded = record {
  rows =
      if conflicts order reason w.rows
      then w.rows
      else w.rows
        ++ record {
          id = w.next_id;
          order_id = order;
          reason = reason;
          metadata = encoded;
          sent = false;
        }
          ∷ [];
  next_id = w.next_id + 1;
}

-- UPDATE ... WHERE id = $1 AND sent_at IS NULL
unfoldable pub update_sent : ℕ → List NotificationRow → List NotificationRow
update_sent id [] = []
update_sent id (r ∷ rs) = (if eqb r.id id then record r { sent = true } else r) ∷ update_sent id rs

-- `encode` and `decode` are encoding/json on the metadata.
module _ (fault : Worklist → Option Error) (encode : Metadata → Text ⊎ Error)
    (decode : Text → Metadata ⊎ Error) where
  abbrev pub exec_insert :
      Worklist → Text → Text → Text ⊎ Error → Option Error → Worklist × Option Error
  exec_insert w order reason (inr x) failing =
      (w, some (wrap (lit "ordering/postgres: encoding metadata") x))
  exec_insert w order reason (inl encoded) none = (insert_pending w order reason encoded, none)
  exec_insert w order reason (inl encoded) (some x) =
      (w, some (wrap (lit "ordering/postgres: enqueue") x))

  unfoldable pub enqueue : Worklist → Text → Text → Metadata → Worklist × Option Error
  unfolding insert_pending
  enqueue w order reason metadata = exec_insert w order reason (encode metadata) (fault w)

  abbrev pub scan_row : NotificationRow → Metadata ⊎ Error → Result PendingNotification
  scan_row r (inl metadata) =
      ok (record { id = r.id; order_id = r.order_id; reason = r.reason; metadata = metadata })
  scan_row r (inr x) = err (wrap (lit "ordering/postgres: decode metadata") x)

  unfoldable pub scan_pending : List NotificationRow → Result (List PendingNotification)
  scan_pending [] = ok []
  scan_pending (r ∷ rs) = do p ← scan_row r (decode r.metadata); ps ← scan_pending rs; ok (p ∷ ps)

  -- The database refuses a negative LIMIT.
  abbrev pub query_pending : Worklist → ℤ → Result (List PendingNotification)
  query_pending w (negsuc n) = err (plain (lit "LIMIT must not be negative"))
  query_pending w (pos n) = scan_pending (take n (select (λ r. not r.sent) w.rows))

  unfoldable pub pending : Worklist → ℤ → Result (List PendingNotification)
  unfolding scan_pending
  pending w limit = elim (fault w) [
    | none ↦ query_pending w limit
    | some x ↦ err (wrap (lit "ordering/postgres: pending notifications") x)
  ]

  unfoldable pub mark_sent : Worklist → ℕ → Worklist × Option Error
  unfolding update_sent
  mark_sent w id = elim (fault w) [
    | none ↦ (record w { rows = update_sent id w.rows }, none)
    | some x ↦ (w, some (wrap (lit "ordering/postgres: mark sent") x))
  ]

  abbrev pub postgres_queue : NotificationQueue Worklist
  postgres_queue = record { enqueue = enqueue; pending = pending; mark_sent = mark_sent }
