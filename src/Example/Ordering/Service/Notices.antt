-- ===== src/Example/Ordering/Service/Notices.antt =====
-- gohex-example/ordering/internal/app/app.go: what NotifyCustomer does to the orders of a store.
use gohex.Prelude.{
  ℕ, ◌≡◌, refl, ◌∙◌, ◌⊎◌, inl, inr, true, false, List, [], ◌∷◌, ◌++◌, All, Bool-cases,
  append-ne-nil,
}
use gohex.Prelude.Map.{put, get-put_self}
use gohex.Prelude.Text.{Text, text_eq, is_empty}
use gohex.Prelude.Utf8.{is_utf8}
use gohex.Kernel.Errors.{domain}
use gohex.Kernel.Result.{ok, err}
use gohex.Kernel.Event.{DomainEvent}
use gohex.Kernel.Aggregate.{Aggregate, uncommitted_events, take_uncommitted, raise}
use gohex.Kernel.Aggregate.Replay.{raise_ok-IsReplay}
use gohex.Kernel.Id.{TypedId, parse_id}
use gohex.EventStore.Types.{RecordedEvent, Store}
use gohex.EventStore.Contract.{Contract}
use gohex.EventStore.Position.{Context, Positions, Extractor}
use gohex.EventStore.Registry.{Registry}
use gohex.EventStore.Repository.{Repository, load_aggregate, save_aggregate}
use gohex.EventStore.Repository.RoundTrip.{Tracks}
use gohex.EventStore.Repository.RoundTrip.Codec.{IsCodec}
use gohex.EventStore.Repository.Concurrency.{load-Tracks}
use gohex.Example.Handled.{Handled, unchanged, returned, save_decision}
use gohex.Example.Handled.Once.{IsStored, save-IsStored}
use gohex.Example.Ordering.Values.{err_empty_reason}
use gohex.Example.Ordering.Order.{
  OrderEvent, customer_notified, Order, zero_order, order_applies, apply_order, notify,
  was_notified,
}
use gohex.Example.Ordering.Service.{NotifyCustomer, new_handlers, notify_customer}
use gohex.Example.Ordering.Service.Codec.{IsOrderCodec}

-- What Notify makes of an order for a reason that is new to it.
abbrev pub notified : Aggregate Order OrderEvent → Text → Aggregate Order OrderEvent
notified o reason = record {
  root = record o.root { pending = o.root.pending ++ customer_notified o.state.id reason ∷ [] };
  state = record o.state { notified = put o.state.notified reason true };
}

module _ {S : Type 0} ⦃ev : DomainEvent OrderEvent⦄ (orders : Repository S Order OrderEvent)
    (IsValid : S → Type 0) (ext : Extractor) (ctx : Context) (now : ℕ) where
  -- The command stored the notification, which the order then shows. The same command again
  -- succeeds and changes nothing.
  pub record IsNotified (cmd : NotifyCustomer) (id : TypedId) (s : S)
      (o : Aggregate Order OrderEvent) (h : Handled S) : Type 0 where
    pub stored : IsStored orders IsValid id.value s (notified o cmd.reason) h
    pub shown : was_notified (notified o cmd.reason).state cmd.reason ≡ true
    pub again :
        (heap' : Positions)
        → notify_customer orders ext ctx now cmd h.store heap' ≡ unchanged h.store heap' (ok tt)

module _ {S : Type 0} ⦃ev : DomainEvent OrderEvent⦄ (orders : Repository S Order OrderEvent)
    (ext : Extractor) (ctx : Context) (now : ℕ) where
  notify_customer-notify :
      (cmd : NotifyCustomer) (id : TypedId) (s : S) (heap : Positions)
      (o : Aggregate Order OrderEvent)
      → parse_id cmd.order_id ≡ ok id
      → load_aggregate orders s id.value ≡ ok o
      → notify_customer orders ext ctx now cmd s heap
        ≡ save_decision orders ext ctx now id.value s heap (returned (notify o cmd.reason))
  unfolding notify_customer
  notify_customer-notify cmd id s heap o p l = rw (p, l) refl

  -- A reason that the order shows as notified.
  notify_customer_known :
      (cmd : NotifyCustomer) (id : TypedId) (s : S) (heap : Positions)
      (o : Aggregate Order OrderEvent)
      → parse_id cmd.order_id ≡ ok id
      → load_aggregate orders s id.value ≡ ok o
      → uncommitted_events o ≡ []
      → is_empty cmd.reason ≡ false
      → was_notified o.state cmd.reason ≡ true
      → notify_customer orders ext ctx now cmd s heap ≡ unchanged s heap (ok tt)
  notify_customer_known cmd id s heap o p l clean ne known =
      notify_customer-notify cmd id s heap o p l
      ∙ (unfold notify save_decision save_aggregate in rw (ne, known, clean) refl)

module _ {S : Type 0} ⦃ev : DomainEvent OrderEvent⦄ {IsValid : S → Type 0}
    {log : S → List RecordedEvent} (store : Store S) (registry : Registry OrderEvent)
    (c : Contract store IsValid log) (codec : IsOrderCodec registry) (ext : Extractor)
    (ctx : Context) (now : ℕ) (s : S) (heap : Positions) (valid : IsValid s) where
  abbrev orders : Repository S Order OrderEvent
  orders = new_handlers store registry

  module _ (cmd : NotifyCustomer) (id : TypedId) (o : Aggregate Order OrderEvent)
      (parsed : parse_id cmd.order_id ≡ ok id) (loaded : load_aggregate orders s id.value ≡ ok o)
      (id_parsed : parse_id o.state.id.value ≡ ok o.state.id)
      (reason_utf8 : is_utf8 cmd.reason ≡ true) where
    notified-Tracks : Tracks orders (log s) id.value (notified o cmd.reason)
    notified-Tracks =
        let t = (load-Tracks orders c s id.value o valid loaded).0 in
        record {
          events = t.events;
          decoded = t.decoded;
          replay =
              raise_ok-IsReplay zero_order t.events o (notified o cmd.reason)
                (customer_notified o.state.id cmd.reason) (unfold raise apply_order in refl)
                t.replay;
        }

    notified-codecs : All (IsCodec registry) (uncommitted_events (notified o cmd.reason))
    unfolding uncommitted_events
    notified-codecs =
        rw (load-Tracks orders c s id.value o valid loaded).1
          (codec.notices _ _ id_parsed reason_utf8, tt)

    notify-IsStored :
        is_empty cmd.reason ≡ false
        → was_notified o.state cmd.reason ≡ false
        → IsStored orders IsValid id.value s
            (notified o cmd.reason)
            (notify_customer orders ext ctx now cmd s heap)
    notify-IsStored ne new =
        rw (notify_customer-notify orders ext ctx now cmd id s heap o parsed loaded) (
          unfold notify raise apply_order in
          rw (ne, new)
            (save-IsStored orders c ext ctx now id.value s heap valid (notified o cmd.reason)
              notified-Tracks
              (unfold uncommitted_events in append-ne-nil o.root.pending _ (λ e. cc))
              notified-codecs))

    notified_shown : was_notified (notified o cmd.reason).state cmd.reason ≡ true
    unfolding was_notified
    notified_shown = rw (was_notified, get-put_self o.state.notified cmd.reason true) refl

    notify-IsNotified :
        is_empty cmd.reason ≡ false
        → was_notified o.state cmd.reason ≡ false
        → IsNotified orders IsValid ext ctx now cmd id s o
            (notify_customer orders ext ctx now cmd s heap)
    notify-IsNotified ne new =
        let stored = notify-IsStored ne new in
        let h = notify_customer orders ext ctx now cmd s heap in
        record {
          stored = stored;
          shown = notified_shown;
          again = λ heap'.
              notify_customer_known orders ext ctx now cmd id h.store heap'
                (take_uncommitted (notified o cmd.reason)).0 parsed stored.loads
                (unfold take_uncommitted uncommitted_events in refl) ne
                (unfold take_uncommitted in notified_shown);
        }

    -- NotifyCustomer for an order that loads as `o`, with an ID that ParseID accepts, and with a reason
    -- of valid UTF-8, over any store that meets the port's contract and with encoding/json as
    -- IsOrderCodec has it. An empty reason is refused and changes nothing. A reason that the order has been notified of
    -- succeeds and changes nothing. Any other is stored: the order loads with it noted, no other
    -- order changes, and the same command again succeeds and changes nothing.
    pub notify_customer_once :
        let h = notify_customer orders ext ctx now cmd s heap in
        ((is_empty cmd.reason ≡ true) × (h ≡ unchanged s heap (err (domain err_empty_reason))))
        ⊎ ((is_empty cmd.reason ≡ false)
            × (was_notified o.state cmd.reason ≡ true)
            × (h ≡ unchanged s heap (ok tt)))
        ⊎ ((is_empty cmd.reason ≡ false)
            × (was_notified o.state cmd.reason ≡ false)
            × IsNotified orders IsValid ext ctx now cmd id s o h)
    notify_customer_once = elim (Bool-cases (is_empty cmd.reason)) [
      | inl e ↦ inl (
        e,
        notify_customer-notify orders ext ctx now cmd id s heap o parsed loaded
            ∙ (unfold notify save_decision in rw e refl),
      )
      | inr ne ↦ elim (Bool-cases (was_notified o.state cmd.reason)) [
        | inl known ↦ inr (
            inl (
              ne,
              known,
              notify_customer_known orders ext ctx now cmd id s heap o parsed loaded
                  (load-Tracks orders c s id.value o valid loaded).1 ne known,
            ))
        | inr new ↦ inr (inr (ne, new, notify-IsNotified ne new))
      ]
    ]
