-- ===== src/Example/Inventory/Decision.antt =====
-- gohex-example/inventory/internal/domain/reservation.go: the outcome of Reserve.
use gohex.Prelude.{
  ◌≡◌, ◌⊎◌, ◌≤◌, true, none, [], ◌∷◌, arith, ℤ, pos, negsuc, to_nat, exceeds, is_pos,
}
use gohex.Prelude.Text.{Text, lit}
use gohex.Kernel.Result.{ok}
use gohex.Kernel.Aggregate.{uncommitted_events}
use gohex.Example.Inventory.{
  Quantity, new_quantity, stock_reserved, stock_rejected, reserve, available_stock,
}

-- Reserve never fails, for a quantity that NewQuantity accepted: it decides the reservation and
-- records one fact. The fact is a reservation of that quantity, which is positive and at most the
-- available stock, or a rejection, and then the quantity exceeds the available stock.
pub reserve_decides :
    (order : Text) (n : ℤ) (qty : Quantity)
    → new_quantity n ≡ ok qty
    → let (r, e) = reserve order qty in
      (e ≡ none)
      × (r.state.decided ≡ true)
      × (r.state.order ≡ order)
      × (((uncommitted_events r ≡ stock_reserved order n ∷ [])
            × (is_pos n ≡ true)
            × (to_nat n ≤ available_stock))
          ⊎ ((uncommitted_events r ≡ stock_rejected order (lit "insufficient stock") ∷ [])
              × (exceeds n available_stock ≡ true)))
unfolding new_quantity reserve uncommitted_events
reserve_decides order (pos n) qty h = ground arith
reserve_decides order (negsuc n) qty h = cc
