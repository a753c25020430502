-- ===== src/Example/Ordering/Ports.antt =====
-- gohex-example/ordering/internal/ports/ports.go: the driven interfaces of ordering.
use gohex.Prelude.{ℕ, ℤ, Option, List}
use gohex.Prelude.Text.{Text, lit}
use gohex.Kernel.Errors.{DomainError, Error, new_domain_error}
use gohex.Kernel.Result.{Result}
use gohex.EventStore.Types.{Metadata}

abbrev pub err_order_not_found : DomainError
err_order_not_found = new_domain_error (lit "not_found") (lit "order does not exist")

abbrev pub rank_placed : ℕ
rank_placed = 1

abbrev pub rank_paid : ℕ
rank_paid = 2

abbrev pub rank_reserved : ℕ
rank_reserved = 3

abbrev pub rank_shipped : ℕ
rank_shipped = 4

abbrev pub rank_payment_failed : ℕ
rank_payment_failed = 10

abbrev pub rank_rejected : ℕ
rank_rejected = 11

abbrev pub rank_refunded : ℕ
rank_refunded = 12

pub record OrderSummary : Type 0 where
  pub order_id : Text
  pub customer_id : Text
  pub cents : ℤ  -- int64
  pub currency : Text
  pub qty : ℤ  -- int
  pub status : Text
  pub placed_at : ℕ

pub record PendingNotification : Type 0 where
  pub id : ℕ  -- int64
  pub order_id : Text
  pub reason : Text
  pub metadata : Metadata

-- The ports over a state of their implementation.
pub record NotificationQueue (Q : Type 0) : Type 0 where
  pub enqueue : Q → Text → Text → Metadata → Q × Option Error
  pub pending : Q → ℤ → Result (List PendingNotification)
  pub mark_sent : Q → ℕ → Q × Option Error

pub record SummaryStore (T : Type 0) : Type 0 where
  pub upsert_placed : T → OrderSummary → T × Option Error
  pub set_status : T → Text → Text → ℕ → T × Option Error
  pub get_summary : T → Text → Result OrderSummary
