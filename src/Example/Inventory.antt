-- ===== src/Example/Inventory.antt =====
-- gohex-example/inventory/internal/domain/reservation.go: the Reservation aggregate.
pub mod Decision
pub mod Service
use gohex.Prelude.{ℕ, Bool, true, false, Option, none, some, ℤ, is_pos, exceeds, if◌then◌else◌}
use gohex.Prelude.Text.{Text, lit}
use gohex.Kernel.Errors.{DomainError, Error, domain, plain, new_domain_error}
use gohex.Kernel.Result.{Result, ok, err}
use gohex.Kernel.Aggregate.{Applies, Aggregate, new_aggregate, raise}

abbrev pub available_stock : ℕ
available_stock = 10

abbrev pub err_invalid_quantity : DomainError
err_invalid_quantity = new_domain_error (lit "invalid_quantity") (lit "quantity must be positive")

pub record Quantity : Type 0 where
  pub n : ℤ  -- int

unfoldable pub new_quantity : ℤ → Result Quantity
new_quantity n = if is_pos n then ok (record { n = n }) else err (domain err_invalid_quantity)

pub data ReservationEvent : Type 0 where
  stock_reserved : Text → ℤ → ReservationEvent
  stock_rejected : Text → Text → ReservationEvent
  foreign_event : Text → ReservationEvent

unfoldable pub reservation_event_name : ReservationEvent → Text
reservation_event_name (stock_reserved order qty) = lit "inventory.stock_reserved"
reservation_event_name (stock_rejected order reason) = lit "inventory.stock_rejected"
reservation_event_name (foreign_event name) = name

pub record Reservation : Type 0 where
  pub order : Text
  pub decided : Bool

abbrev pub new_reservation : Aggregate Reservation ReservationEvent
new_reservation = new_aggregate (record { order = lit ""; decided = false })

unfoldable pub apply_reservation : Reservation → ReservationEvent → Reservation × Option Error
apply_reservation r (stock_reserved order qty) = (record { order = order; decided = true }, none)
apply_reservation r (stock_rejected order reason) = (record { order = order; decided = true }, none)
apply_reservation r (foreign_event name) = (r, some (plain (lit "reservation: unknown event")))

instance abbrev pub reservation_applies : Applies Reservation ReservationEvent
reservation_applies = record { apply = apply_reservation }

unfoldable pub reserve : Text → Quantity → Aggregate Reservation ReservationEvent × Option Error
unfolding raise apply_reservation
reserve order qty =
    if exceeds qty.n available_stock
    then raise new_reservation (stock_rejected order (lit "insufficient stock"))
    else raise new_reservation (stock_reserved order qty.n)
