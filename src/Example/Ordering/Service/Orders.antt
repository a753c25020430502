-- ===== src/Example/Ordering/Service/Orders.antt =====
-- gohex-example/ordering/internal/app/app.go: what PlaceOrder and NotifyCustomer do to the orders of
-- a store.
use gohex.Prelude.{
  Option, ℕ, none, some, ◌≡◌, refl, ap, sym, ◌∙◌, ◌⊎◌, inl, inr, true, false, List, [], ◌∷◌, arith,
  length, Bool-cases,
}
use gohex.Prelude.Text.{text_eq, lit}
use gohex.Prelude.Map.{get}
use gohex.Kernel.Errors.{Error, plain, wrap, domain, version_conflict, errors_is}
use gohex.Kernel.Result.{ok, err}
use gohex.Kernel.Event.{DomainEvent}
use gohex.Kernel.Aggregate.{
  Aggregate, uncommitted_events, take_uncommitted, version, raise, apply_all,
}
use gohex.Kernel.Aggregate.Replay.{IsReplay}
use gohex.EventStore.Types.{RecordedEvent, Store}
use gohex.EventStore.Contract.{events_of, Contract}
use gohex.EventStore.Position.{Context, Positions, Extractor}
use gohex.EventStore.Registry.{Registry, RegistryEntry, schema_version, encode}
use gohex.EventStore.Repository.{Repository, Saved, stream_of, save_aggregate, encode_all}
use gohex.EventStore.Repository.RoundTrip.{version-Tracks}
use gohex.EventStore.Repository.Concurrency.{load-Tracks, IsConflict, save_stale}
use gohex.Example.Handled.{Handled, unchanged, after_save, save_decision}
use gohex.Example.Handled.Once.{IsStored, save-IsStored, new-Tracks}
use gohex.Example.Ordering.Values.{money_is_zero, err_empty_order}
use gohex.Example.Ordering.Order.{
  OrderEvent, order_placed, Order, zero_order, order_applies, apply_order, place,
}
use gohex.Example.Ordering.Service.{PlaceOrder, new_handlers, place_order}
use gohex.Example.Ordering.Service.Codec.{
  Placeable, IsUnset, IsOrderCodec, IsMade, made-Placeable, new_money-nonzero,
}

-- The new order with its one event uncommitted.
abbrev pub placed : PlaceOrder → Aggregate Order OrderEvent
placed cmd = record {
  root = record { version = 0; pending = order_placed cmd.id cmd.customer cmd.total cmd.qty ∷ [] };
  state = record {
    id = cmd.id;
    customer = cmd.customer;
    total = cmd.total;
    qty = cmd.qty;
    notified = [];
  };
}

module _ {S : Type 0} ⦃ev : DomainEvent OrderEvent⦄ (orders : Repository S Order OrderEvent)
    (IsValid : S → Type 0) (ext : Extractor) (ctx : Context) (now : ℕ) where
  -- The command stored the order. Placing an order under its ID again is refused as a version
  -- conflict, and stores nothing.
  pub record IsPlaced (cmd : PlaceOrder) (s : S) (h : Handled S) : Type 0 where
    pub stored : IsStored orders IsValid cmd.id.value s (placed cmd) h
    pub again :
        (cmd' : PlaceOrder) (heap' : Positions)
        → cmd'.id ≡ cmd.id
        → Placeable cmd'
        → (x : Error) × (errors_is x version_conflict ≡ true)
          × (place_order orders ext ctx now cmd' h.store heap' ≡ unchanged h.store heap' (err x))

module _ {S : Type 0} ⦃ev : DomainEvent OrderEvent⦄ (orders : Repository S Order OrderEvent)
    (ext : Extractor) (ctx : Context) (now : ℕ) where
  place_order-placed :
      (cmd : PlaceOrder) (s : S) (heap : Positions)
      → money_is_zero cmd.total ≡ false
      → place_order orders ext ctx now cmd s heap
        ≡ save_decision orders ext ctx now cmd.id.value s heap (ok (placed cmd))
  unfolding place_order place raise apply_order
  place_order-placed cmd s heap h = rw h refl

  place_order_empty :
      (cmd : PlaceOrder) (s : S) (heap : Positions)
      → money_is_zero cmd.total ≡ true
      → place_order orders ext ctx now cmd s heap ≡ unchanged s heap (err (domain err_empty_order))
  unfolding place_order
  place_order_empty cmd s heap h = rw h refl

placed-IsReplay : (cmd : PlaceOrder) → IsReplay zero_order [] (placed cmd)
placed-IsReplay cmd = record { state = unfold apply_all apply_order in refl; version = refl }

module _ {S : Type 0} ⦃ev : DomainEvent OrderEvent⦄ {IsValid : S → Type 0}
    {log : S → List RecordedEvent} (store : Store S) (registry : Registry OrderEvent)
    (c : Contract store IsValid log) (codec : IsOrderCodec registry) (ext : Extractor)
    (ctx : Context) (now : ℕ) (s : S) (heap : Positions) (valid : IsValid s) where
  abbrev orders : Repository S Order OrderEvent
  orders = new_handlers store registry

  place_again :
      (cmd cmd' : PlaceOrder) (h : Handled S) (heap' : Positions)
      → IsStored orders IsValid cmd.id.value s (placed cmd) h
      → cmd'.id ≡ cmd.id
      → Placeable cmd'
      → IsConflict h.store heap'
          (placed cmd')
          (save_aggregate orders ext ctx now cmd'.id.value h.store heap' (placed cmd'))
  place_again cmd cmd' h heap' stored same good =
      let g = (take_uncommitted (placed cmd)).0 in
      let t = (load-Tracks orders c h.store cmd.id.value g stored.valid stored.loads).0 in
      let count : length (events_of (stream_of orders cmd.id.value) (log h.store)) ≡ 1 =
        sym (version-Tracks orders (log h.store) cmd.id.value g t)
        ∙ unfold version take_uncommitted in refl in
      save_stale orders c ext ctx now cmd'.id.value h.store heap' (placed cmd') stored.valid
        (unfold version in rw same (λ e. absurd (omega (arith, e, count))))
        (unfold uncommitted_events in λ e. cc)
        (unfold uncommitted_events in (codec.placements _ _ _ _ good, tt))

  placed-IsPlaced :
      (cmd : PlaceOrder)
      → let h = place_order orders ext ctx now cmd s heap in
        IsStored orders IsValid cmd.id.value s (placed cmd) h
        → IsPlaced orders IsValid ext ctx now cmd s h
  placed-IsPlaced cmd stored =
      let h = place_order orders ext ctx now cmd s heap in
      record {
        stored = stored;
        again = λ cmd' heap' same good.
            let refused = place_again cmd cmd' h heap' stored same good in
            (
              refused.error,
              refused.conflict,
              place_order-placed orders ext ctx now cmd' h.store heap'
                    (new_money-nonzero cmd'.total good.total_made)
                  ∙ (unfold save_decision in
                      ap (λ (x : Saved S Order OrderEvent). after_save x) refused.outcome),
            );
      }

  encode_rejected :
      (cmd : PlaceOrder)
      → IsUnset cmd.id cmd.customer cmd.qty
      → (x : Error) × (encode registry (order_placed cmd.id cmd.customer cmd.total cmd.qty) ≡ err x)
  unfolding encode schema_version
  encode_rejected cmd unset =
      let (x, fails) = codec.rejects cmd.id cmd.customer cmd.total cmd.qty unset in
      let e : OrderEvent = order_placed cmd.id cmd.customer cmd.total cmd.qty in
      unregistered_or e x fails (get registry.entries (ev.event_name e)) refl
    where
      unregistered_or :
          (e : OrderEvent) (x : Error)
          → ev.marshal e ≡ err x
          → (o : Option (RegistryEntry OrderEvent)) → get registry.entries (ev.event_name e) ≡ o
          → (y : Error) × (encode registry e ≡ err y)
      unregistered_or e x fails none h = (plain (lit "unregistered event"), ground (arith, h))
      unregistered_or e x fails (some entry) h = (wrap (lit "encoding") x, ground (arith, h, fails))

  place_order_rejected :
      (cmd : PlaceOrder)
      → money_is_zero cmd.total ≡ false
      → IsUnset cmd.id cmd.customer cmd.qty
      → (x : Error) × (place_order orders ext ctx now cmd s heap ≡ unchanged s heap (err x))
  unfolding encode_all save_aggregate save_decision uncommitted_events
  place_order_rejected cmd good unset =
      let (x, fails) = encode_rejected cmd unset in
      (x, place_order-placed orders ext ctx now cmd s heap good ∙ rw fails refl)

  -- PlaceOrder under an ID that has no order yet, over any store that meets the port's contract and
  -- with encoding/json as IsOrderCodec has it; the command's ID, customer and total are zero or made by
  -- their constructors, and the currency of a total that is made is valid UTF-8. A zero total is
  -- refused as an empty order and changes nothing. Otherwise, a zero ID or customer or a quantity that
  -- is not positive makes the handler fail, and changes nothing. Otherwise the handler succeeds and the
  -- order loads as it was placed, and no other order changes; and placing another order of made values
  -- under the same ID is refused as a version conflict and changes nothing.
  pub place_order_once :
      (cmd : PlaceOrder)
      → IsMade cmd
      → events_of (stream_of orders cmd.id.value) (log s) ≡ []
      → let h = place_order orders ext ctx now cmd s heap in
        ((money_is_zero cmd.total ≡ true) × (h ≡ unchanged s heap (err (domain err_empty_order))))
        ⊎ ((money_is_zero cmd.total ≡ false)
            × IsUnset cmd.id cmd.customer cmd.qty
            × ((x : Error) × (h ≡ unchanged s heap (err x))))
        ⊎ ((money_is_zero cmd.total ≡ false)
            × Placeable cmd
            × IsPlaced orders IsValid ext ctx now cmd s h)
  place_order_once cmd made missing = elim (Bool-cases (money_is_zero cmd.total)) [
    | inl empty ↦ inl (empty, place_order_empty orders ext ctx now cmd s heap empty)
    | inr good ↦ elim (made-Placeable cmd made good) [
      | inl unset ↦ inr (inl (good, unset, place_order_rejected cmd good unset))
      | inr placeable ↦ inr (
          inr (
            good,
            placeable,
            placed-IsPlaced cmd (
                rw (place_order-placed orders ext ctx now cmd s heap good) (
                  save-IsStored orders c ext ctx now cmd.id.value s heap valid (placed cmd)
                    (new-Tracks orders c ext ctx now cmd.id.value s heap valid missing (placed cmd)
                      (placed-IsReplay cmd))
                    (unfold uncommitted_events in λ e. cc)
                    (unfold uncommitted_events in (codec.placements _ _ _ _ placeable, tt)))),
          ))
    ]
  ]
