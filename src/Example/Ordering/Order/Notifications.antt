-- ===== src/Example/Ordering/Order/Notifications.antt =====
-- gohex-example/ordering/internal/domain/order.go: the calls of Notify on an order.
use gohex.Prelude.{
  ◌≡◌, refl, sym, ◌∙◌, inl, inr, Bool, true, false, none, List, [], ◌∷◌, ◌++◌, append_assoc,
  append-nil, map, arith, if◌then◌else◌, Bool-cases, fun_ext,
}
use gohex.Prelude.EqClass.{◌==◌}
use gohex.Prelude.Map.{put, get-put}
use gohex.Prelude.Text.{Text, text_eq, is_empty}
use gohex.Kernel.Aggregate.{Aggregate, uncommitted_events}
use gohex.Kernel.Aggregate.Replay.{IsClean}
use gohex.Example.Ordering.Order.{
  OrderEvent, order_placed, customer_notified, foreign_event, Order, order_applies, apply_order,
  was_notified, notify,
}

pub order_applies-IsClean : IsClean order_applies
unfolding apply_order
order_applies-IsClean o (order_placed id customer total qty) = inl refl
order_applies-IsClean o (customer_notified id reason) = inl refl
order_applies-IsClean o (foreign_event name) = inr refl

-- The worker's calls of Notify, whatever each returns.
pub notify_all : Aggregate Order OrderEvent → List Text → Aggregate Order OrderEvent
notify_all o [] = o
notify_all o (reason ∷ reasons) = notify_all (notify o reason).0 reasons

-- The reasons that are not empty and not yet told, each at its first place.
abbrev pub novel : (Text → Bool) → List Text → List Text
novel told [] = []
novel told (reason ∷ reasons) =
    let skipped = novel told reasons in
    let rest = novel (λ r. if reason == r then true else told r) reasons in
    if is_empty reason then skipped else if told reason then skipped else reason ∷ rest

abbrev told_after : Aggregate Order OrderEvent → Text → Aggregate Order OrderEvent
told_after o reason = record {
  root = record o.root { pending = o.root.pending ++ customer_notified o.state.id reason ∷ [] };
  state = record o.state { notified = put o.state.notified reason true };
}

notify_novel :
    (o : Aggregate Order OrderEvent) (reason : Text)
    → is_empty reason ≡ false
    → was_notified o.state reason ≡ false
    → notify o reason ≡ (told_after o reason, none)
unfolding notify
notify_novel o reason h k = rw (h, k)

notify_empty :
    (o : Aggregate Order OrderEvent) (reason : Text)
    → is_empty reason ≡ true
    → (notify o reason).0 ≡ o
unfolding notify
notify_empty o reason h = rw h

notify_told :
    (o : Aggregate Order OrderEvent) (reason : Text)
    → is_empty reason ≡ false
    → was_notified o.state reason ≡ true
    → (notify o reason).0 ≡ o
unfolding notify
notify_told o reason h k = rw (h, k)

was_notified-told_after :
    (o : Aggregate Order OrderEvent) (reason : Text)
    → was_notified (told_after o reason).state
      ≡ (λ r. if reason == r then true else was_notified o.state r)
unfolding was_notified
was_notified-told_after o reason =
    fun_ext λ r. ground (arith, get-put o.state.notified reason r true)

-- However often the worker asks for a notification, the order records each reason that is not empty
-- and was not told before exactly once, in the order of the first requests.
pub notify_all_once :
    (o : Aggregate Order OrderEvent) (reasons : List Text)
    → uncommitted_events (notify_all o reasons)
      ≡ uncommitted_events o
        ++ map (customer_notified o.state.id) (novel (was_notified o.state) reasons)
unfolding notify_all
notify_all_once o [] = sym (append-nil (uncommitted_events o))
notify_all_once o (reason ∷ reasons) = elim (Bool-cases (is_empty reason)) [
  | inl empty ↦ rw (empty, notify_empty o reason empty) (notify_all_once o reasons)
  | inr some_text ↦ elim (Bool-cases (was_notified o.state reason)) [
    | inl told ↦
        rw (some_text, told, notify_told o reason some_text told) (notify_all_once o reasons)
    | inr new ↦
        rw (some_text, new, notify_novel o reason some_text new)
          (notify_all_once (told_after o reason) reasons
            ∙ rw (was_notified-told_after o reason)
                (unfold uncommitted_events in append_assoc o.root.pending _ _))
  ]
]
