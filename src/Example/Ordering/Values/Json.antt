-- ===== src/Example/Ordering/Values/Json.antt =====
-- gohex-example/ordering/internal/domain/order.go: the value objects and their
-- serialized shapes.
use gohex.Prelude.{
  ◌≡◌, refl, ◌⊎◌, inl, inr, true, false, ℤ, pos, negsuc, zero, suc, is_pos, length, Bool-cases, eqb,
  eqb_iff,
}
use gohex.Prelude.Text.{Text}
use gohex.Prelude.Utf8.{is_utf8}
use gohex.Kernel.Errors.{Error, domain}
use gohex.Kernel.Result.{ok, err}
use gohex.Example.Ordering.Values.{
  err_invalid_amount, err_invalid_currency, Money, MoneyJson, JsonOf, new_money, marshal_money,
  unmarshal_money, money_read,
}

-- What encoding/json is relied on for: a record whose string is valid UTF-8 is written, and read back
-- as it was.
pub record IsMoneyJson (json : JsonOf MoneyJson) : Type 0 where
  pub reads_back :
      (raw : MoneyJson)
      → is_utf8 raw.currency ≡ true
      → (text : Text) × (json.encode raw ≡ inl text) × (json.decode text ≡ inl raw)

-- For an amount and a currency of valid UTF-8: NewMoney accepts them exactly where the amount is
-- positive and the currency has three bytes, and keeps both. The value that it makes is serialised as
-- the JSON of the two, and reading that into any receiver gives the value back; the JSON of an amount
-- and a currency that NewMoney refuses is refused with the same error and leaves the receiver alone.
pub money_round_trip :
    (json : JsonOf MoneyJson) (laws : IsMoneyJson json) (cents : ℤ) (currency : Text)
    (receiver : Money)
    → is_utf8 currency ≡ true
    → let raw : MoneyJson = record { cents = cents; currency = currency } in
      let m : Money = record { cents = cents; currency = currency } in
      (text : Text) × (json.encode raw ≡ inl text)
      × (((is_pos cents ≡ true)
            × (length currency ≡ 3)
            × (new_money cents currency ≡ ok m)
            × (marshal_money json m ≡ ok text)
            × (unmarshal_money json receiver text ≡ (m, ok tt)))
          ⊎ (((is_pos cents ≡ false) ⊎ (¬ (length currency ≡ 3)))
              × ((x : Error) × (new_money cents currency ≡ err x)
                  × (unmarshal_money json receiver text ≡ (receiver, err x)))))
unfolding new_money marshal_money unmarshal_money
money_round_trip json laws (pos zero) currency receiver valid =
    let (text, writes, reads) =
      laws.reads_back (record { cents = pos zero; currency = currency }) valid in
    (text, writes, inr (inl refl, (domain err_invalid_amount, refl, rw reads refl)))
money_round_trip json laws (pos (suc n)) currency receiver valid =
    let (text, writes, reads) =
      laws.reads_back (record { cents = pos (suc n); currency = currency }) valid in
    (
      text,
      writes,
      elim (Bool-cases (eqb (length currency) 3)) [
        | inl three ↦ inl (
          refl,
          (eqb_iff (length currency) 3).0 three,
          rw three refl,
          rw writes refl,
          rw (reads, money_read, three) refl,
        )
        | inr other ↦ inr (
          inr (λ e. cc ((eqb_iff (length currency) 3).1 e)),
          (domain err_invalid_currency, rw other refl, rw (reads, money_read, other) refl),
        )
      ],
    )
money_round_trip json laws (negsuc n) currency receiver valid =
    let (text, writes, reads) =
      laws.reads_back (record { cents = negsuc n; currency = currency }) valid in
    (text, writes, inr (inl refl, (domain err_invalid_amount, refl, rw reads refl)))
