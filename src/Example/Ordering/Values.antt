-- ===== src/Example/Ordering/Values.antt =====
-- gohex-example/ordering/internal/domain/order.go: the value objects of an order.
pub mod Json
use gohex.Prelude.{
  ℕ, zero, suc, Bool, true, false, ◌&&◌, ℤ, pos, negsuc, is_pos, eqb, length, ◌⊎◌, inl, inr,
  if◌then◌else◌,
}
use gohex.Prelude.Text.{Text, lit, is_empty}
use gohex.Kernel.Errors.{DomainError, Error, domain, wrap, new_domain_error}
use gohex.Kernel.Result.{Result, ok, err, panic}

abbrev pub err_empty_order : DomainError
err_empty_order = new_domain_error (lit "empty_order") (lit "an order needs a positive total")

abbrev pub err_invalid_amount : DomainError
err_invalid_amount = new_domain_error (lit "invalid_amount") (lit "amount must be positive")

abbrev pub err_invalid_currency : DomainError
err_invalid_currency =
    new_domain_error (lit "invalid_currency") (lit "currency must be a 3-letter code")

abbrev pub err_invalid_quantity : DomainError
err_invalid_quantity = new_domain_error (lit "invalid_quantity") (lit "quantity must be positive")

abbrev pub err_empty_reason : DomainError
err_empty_reason = new_domain_error (lit "empty_reason") (lit "a notification needs a reason")

pub record Money : Type 0 where
  pub cents : ℤ  -- int64
  pub currency : Text

unfoldable pub new_money : ℤ → Text → Result Money
new_money cents currency =
    if is_pos cents
    then if eqb (length currency) 3
      then ok (record { cents = cents; currency = currency })
      else err (domain err_invalid_currency)
    else err (domain err_invalid_amount)

abbrev pub is_zero_int : ℤ → Bool
is_zero_int (pos zero) = true
is_zero_int (pos (suc n)) = false
is_zero_int (negsuc n) = false

-- m == Money{}
unfoldable pub money_is_zero : Money → Bool
money_is_zero m = is_zero_int m.cents && is_empty m.currency

-- The serialized shape.
pub record MoneyJson : Type 0 where
  pub cents : ℤ
  pub currency : Text

-- encoding/json on one Go type: json.Marshal and json.Unmarshal, with their errors.
pub record JsonOf (A : Type 0) : Type 0 where
  pub encode : A → Text ⊎ Error
  pub decode : Text → A ⊎ Error

abbrev json_text : Text ⊎ Error → Result Text
json_text (inl t) = ok t
json_text (inr x) = err x

unfoldable pub marshal_money : JsonOf MoneyJson → Money → Result Text
unfolding money_is_zero
marshal_money json m =
    if money_is_zero m
    then err (wrap (lit "marshaling zero Money") (domain err_invalid_amount))
    else json_text (json.encode (record { cents = m.cents; currency = m.currency }))

abbrev pub money_read : Money → MoneyJson ⊎ Error → Money × Result (Unit {0})
money_read m (inr x) = (m, err x)
money_read m (inl raw) = elim (new_money raw.cents raw.currency) [
  | ok parsed ↦ (parsed, ok tt)
  | err e ↦ (m, err e)
  | panic ↦ (m, panic)
]

-- The receiver is overwritten only by a valid value.
unfoldable pub unmarshal_money : JsonOf MoneyJson → Money → Text → Money × Result (Unit {0})
unfolding new_money
unmarshal_money json m text = money_read m (json.decode text)

pub record Quantity : Type 0 where
  pub n : ℤ  -- int

unfoldable pub new_quantity : ℤ → Result Quantity
new_quantity n = if is_pos n then ok (record { n = n }) else err (domain err_invalid_quantity)

unfoldable pub marshal_quantity : JsonOf ℤ → Quantity → Result Text
marshal_quantity json q =
    if is_pos q.n
    then json_text (json.encode q.n)
    else err (wrap (lit "marshaling zero Quantity") (domain err_invalid_quantity))

abbrev quantity_read : Quantity → ℤ ⊎ Error → Quantity × Result (Unit {0})
quantity_read q (inr x) = (q, err x)
quantity_read q (inl n) = elim (new_quantity n) [
  | ok parsed ↦ (parsed, ok tt)
  | err e ↦ (q, err e)
  | panic ↦ (q, panic)
]

unfoldable pub unmarshal_quantity : JsonOf ℤ → Quantity → Text → Quantity × Result (Unit {0})
unfolding new_quantity
unmarshal_quantity json q text = quantity_read q (json.decode text)
