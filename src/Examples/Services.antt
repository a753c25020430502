-- ===== src/Examples/Services.antt =====
-- The example services' domains at concrete inputs.
use gohex.Prelude.{
  inl, ap, refl, ◌≡◌, ◌⊎◌, true, false, none, some, List, [], ◌∷◌, ◌++◌, map, length, exceeds,
  is_pos, pos,
}
use gohex.Prelude.Text.{Text, lit}
use gohex.Kernel.Errors.{Error, domain}
use gohex.Kernel.Result.{ok, err}
use gohex.Kernel.Aggregate.{uncommitted_events}
use gohex.Example.Billing.{
  Amount, payment_captured, payment_failed, payment_refunded, capture, capture_limit_cents,
  err_not_captured, err_already_refunded,
}
use gohex.Example.Billing.Lifecycle.{refund_times, replicate, capture_then_refunds}
use gohex.Prelude.Utf8.{is_utf8}
use gohex.Examples.Codecs.{write_int, read_int, behind_int, write_text, read_text, codec_laws}
use gohex.Example.Ordering.Values.{
  Money, MoneyJson, JsonOf, new_money, marshal_money, unmarshal_money,
}
use gohex.Example.Ordering.Values.Json.{IsMoneyJson, money_round_trip}
use gohex.Example.Ordering.Order.{customer_notified, zero_order, new_order, was_notified}
use gohex.Example.Ordering.Order.Notifications.{notify_all, novel, notify_all_once}

abbrev price : Amount
price = record { cents = pos 500 }

capture_then_refunds_example :
    ((capture (lit "o1") price).1 ≡ none)
    × (((exceeds price.cents capture_limit_cents ≡ true)
          × (uncommitted_events (refund_times 3 (capture (lit "o1") price).0).0
              ≡ payment_failed (lit "o1") (lit "amount exceeds capture limit") ∷ [])
          × ((refund_times 3 (capture (lit "o1") price).0).1
              ≡ replicate 3 (some (domain err_not_captured))))
        ⊎ ((exceeds price.cents capture_limit_cents ≡ false)
            × (uncommitted_events (refund_times 3 (capture (lit "o1") price).0).0
                ≡ payment_captured (lit "o1") price.cents ∷ payment_refunded (lit "o1") ∷ [])
            × ((refund_times 3 (capture (lit "o1") price).0).1
                ≡ none ∷ replicate 2 (some (domain err_already_refunded)))))
capture_then_refunds_example = capture_then_refunds (lit "o1") price 2

abbrev euro : MoneyJson
euro = record { cents = pos 100; currency = lit "EUR" }

abbrev one_euro : Money
one_euro = record { cents = pos 100; currency = lit "EUR" }

abbrev no_money : Money
no_money = record { cents = pos 0; currency = [] }

abbrev read_money : Text → MoneyJson
read_money t = record { cents = read_int t; currency = read_text (behind_int t) }

abbrev money_json : JsonOf MoneyJson
money_json = record {
  encode = λ m. inl (write_int m.cents (write_text m.currency []));
  decode = λ t. inl (read_money t);
}

money_json-IsMoneyJson : IsMoneyJson money_json
money_json-IsMoneyJson = record {
  reads_back = λ raw valid.
      let same : read_money (write_int raw.cents (write_text raw.currency [])) ≡ raw =
        simp codec_laws in
      (write_int raw.cents (write_text raw.currency []), refl, ap (λ m. inl m) same);
}

eur-is_utf8 : is_utf8 (lit "EUR") ≡ true
unfolding is_utf8
eur-is_utf8 = refl

money_round_trip_example :
    (text : Text) × (money_json.encode euro ≡ inl text)
    × (((is_pos (pos 100) ≡ true)
          × (length (lit "EUR") ≡ 3)
          × (new_money (pos 100) (lit "EUR") ≡ ok one_euro)
          × (marshal_money money_json one_euro ≡ ok text)
          × (unmarshal_money money_json no_money text ≡ (one_euro, ok tt)))
        ⊎ (((is_pos (pos 100) ≡ false) ⊎ (¬ (length (lit "EUR") ≡ 3)))
            × ((x : Error) × (new_money (pos 100) (lit "EUR") ≡ err x)
                × (unmarshal_money money_json no_money text ≡ (no_money, err x)))))
money_round_trip_example =
    money_round_trip money_json money_json-IsMoneyJson (pos 100) (lit "EUR") no_money eur-is_utf8

abbrev reasons : List Text
reasons = lit "paid" ∷ lit "" ∷ lit "shipped" ∷ lit "paid" ∷ []

notify_all_once_example :
    uncommitted_events (notify_all new_order reasons)
    ≡ uncommitted_events new_order
      ++ map (customer_notified zero_order.id) (novel (was_notified zero_order) reasons)
notify_all_once_example = notify_all_once new_order reasons
