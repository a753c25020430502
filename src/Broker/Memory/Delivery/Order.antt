-- ===== src/Broker/Memory/Delivery/Order.antt =====
-- broker/memory.go: offsets and acknowledged messages along the steps of the system.
use gohex.Prelude.{
  ℕ, ◌≢◌, subst, All, true, false, ◌≡◌, refl, ap, ◌∙◌, inl, inr, Option, none, some, List, [], ◌∷◌,
  ◌++◌, arith, Bool-cases,
}
use gohex.Prelude.EqClass.{◌==◌}
use gohex.Prelude.Map.{get}
use gohex.Prelude.Text.{Text, text_eq}
use gohex.Broker.Message.{Message}
use gohex.Broker.Memory.{
  GroupKey, group_eq, group_beq_iff, MemoryBroker, log_of, offset_of, is_active, publish, join,
  leave, advance,
}
use gohex.Broker.Memory.Delivery.Members.{
  All-map, All-replaced, All-removed, All-at, All-others, All-rest, Distinct-replaced,
  Distinct-removed,
}
use gohex.Broker.Memory.Delivery.{
  offset_of-advance, take-suc, System, at_key, Member, Distinct, AtOffset, free, turned_away, idle,
  Step, Reach, IsOrderly, publishes, joins, delivers, refuses, acknowledges, leaves, here, next,
}
use gohex.Broker.Memory.Delivery.Calls.{
  Grows, publish-Grows, join-Grows, leave-Grows, Grows-acked_prefix, Grows-offset_bound,
  Grows-AtOffset, join-free, is_active-join, is_active-joined, is_active-leave, is_active-advance,
  log_of-advance, next_message_lem, advance-AtOffset,
}

module _ (s : System) (before after : List Member) (x : Member) (h : IsOrderly s)
    (there : s.members ≡ before ++ x ∷ after) where
  exclusive_there : Distinct (before ++ x ∷ after)
  exclusive_there = subst Distinct there h.exclusive

  active_there : All (λ (y : Member). is_active s.broker y.key ≡ true) (before ++ x ∷ after)
  active_there = subst (All (λ (y : Member). is_active s.broker y.key ≡ true)) there h.active

  in_flight_there : All (AtOffset s.broker) (before ++ x ∷ after)
  in_flight_there = subst (All (AtOffset s.broker)) there h.in_flight

  -- A member takes up the message at the offset, or none.
  handling-IsOrderly :
      (now : Option (ℕ × Message))
      → AtOffset s.broker (record x { handling = now })
      → IsOrderly (record s { members = before ++ record x { handling = now } ∷ after })
  handling-IsOrderly now at = record {
    acked_prefix = h.acked_prefix;
    offset_bound = h.offset_bound;
    exclusive = Distinct-replaced before after x (record x { handling = now }) refl exclusive_there;
    active =
        All-replaced (λ y. is_active s.broker y.key ≡ true) (λ y. is_active s.broker y.key ≡ true)
          before after x (record x { handling = now }) (λ y e. e) (λ e. e) active_there;
    in_flight =
        All-replaced (AtOffset s.broker) (AtOffset s.broker) before after x
          (record x { handling = now }) (λ y k. k) (λ k. at) in_flight_there;
  }

  -- The broker with an acknowledged message: no other member has the key.
  acknowledges-IsOrderly :
      (offset : ℕ) (m : Message)
      → x.handling ≡ some (offset, m)
      → IsOrderly (record {
        broker = advance s.broker x.key offset;
        members = before ++ free x ∷ after;
        acked = at_key s.acked x.key (s.acked x.key ++ m ∷ []);
      })
  acknowledges-IsOrderly offset m handles =
      let key = x.key in
      let held = All-at (AtOffset s.broker) before after x in_flight_there offset m handles in
      let step = take-suc offset (log_of s.broker key.topic) m held.1 in
      let b' = advance s.broker key offset in
      record {
        acked_prefix = λ k. elim (Bool-cases (key == k)) [
          | inl same ↦
              rw
                (
                  offset_of-advance s.broker key k offset,
                  log_of-advance s.broker key offset k.topic,
                  same,
                  ← (group_beq_iff key k).0 same,
                )
                (rw (step.0, held.0) (ap (λ l. l ++ m ∷ []) (h.acked_prefix key)))
          | inr other ↦
              rw
                (
                  offset_of-advance s.broker key k offset,
                  log_of-advance s.broker key offset k.topic,
                  other,
                )
                (h.acked_prefix k)
        ];
        offset_bound = λ k. elim (Bool-cases (key == k)) [
          | inl same ↦
              rw
                (
                  offset_of-advance s.broker key k offset,
                  log_of-advance s.broker key offset k.topic,
                  same,
                  ← (group_beq_iff key k).0 same,
                )
                step.1
          | inr other ↦
              rw
                (
                  offset_of-advance s.broker key k offset,
                  log_of-advance s.broker key offset k.topic,
                  other,
                )
                (h.offset_bound k)
        ];
        exclusive = Distinct-replaced before after x (free x) refl exclusive_there;
        active =
            All-replaced (λ y. is_active s.broker y.key ≡ true) (λ y. is_active b' y.key ≡ true)
              before after x (free x) (λ y e. is_active-advance s.broker key y.key offset ∙ e)
              (λ e. is_active-advance s.broker key key offset ∙ e) active_there;
        in_flight =
            All-others (AtOffset s.broker) (AtOffset b') before after x (free x) exclusive_there
              (λ y ne at. advance-AtOffset s.broker key offset y ne at) (λ o n e. cc)
              in_flight_there;
      }

  leaves-IsOrderly :
      IsOrderly (record s { broker = leave s.broker x.key; members = before ++ after })
  leaves-IsOrderly =
      let b' = leave s.broker x.key in
      let g = leave-Grows s.broker x.key in
      record {
        acked_prefix = Grows-acked_prefix s b' g h;
        offset_bound = Grows-offset_bound s b' g h;
        exclusive = Distinct-removed before after x exclusive_there;
        active =
            All-rest (λ y. is_active s.broker y.key ≡ true) (λ y. is_active b' y.key ≡ true) before
              after x exclusive_there (λ y ne e. is_active-leave s.broker x.key y.key ne e)
              active_there;
        in_flight =
            All-map (AtOffset s.broker) (AtOffset b') (before ++ after)
              (Grows-AtOffset s.broker b' g)
              (All-removed (AtOffset s.broker) before after x in_flight_there);
      }

joins-IsOrderly :
    (s : System) (key : GroupKey)
    → IsOrderly s
    → (join s.broker key).1 ≡ none
    → IsOrderly (record s {
      broker = (join s.broker key).0;
      members = record { key = key; handling = none } ∷ s.members;
    })
joins-IsOrderly s key h accepted =
    let b' = (join s.broker key).0 in
    let g = join-Grows s.broker key in
    record {
      acked_prefix = Grows-acked_prefix s b' g h;
      offset_bound = Grows-offset_bound s b' g h;
      exclusive = (
        All-map (λ y. is_active s.broker y.key ≡ true) (λ y. y.key ≢ key) s.members
            (λ y on same.
              let off : is_active s.broker key ≡ false = join-free s.broker key accepted in
              let on' : is_active s.broker key ≡ true = rw (← same) on in cc)
            h.active,
        h.exclusive,
      );
      active = (
        is_active-joined s.broker key accepted,
        All-map (λ y. is_active s.broker y.key ≡ true) (λ y. is_active b' y.key ≡ true) s.members
            (λ y on. is_active-join s.broker key y.key on) h.active,
      );
      in_flight = (
        λ o n e. cc,
        All-map (AtOffset s.broker) (AtOffset b') s.members (Grows-AtOffset s.broker b' g)
            h.in_flight,
      );
    }

-- A change of the broker alone, which keeps its members.
Grows-IsOrderly :
    (s : System) (b' : MemoryBroker)
    → Grows s.broker b'
    → ((k : GroupKey) → is_active s.broker k ≡ true → is_active b' k ≡ true)
    → IsOrderly s
    → IsOrderly (record s { broker = b' })
Grows-IsOrderly s b' g keeps h = record {
  acked_prefix = Grows-acked_prefix s b' g h;
  offset_bound = Grows-offset_bound s b' g h;
  exclusive = h.exclusive;
  active =
      All-map (λ y. is_active s.broker y.key ≡ true) (λ y. is_active b' y.key ≡ true) s.members
        (λ y on. keeps y.key on) h.active;
  in_flight =
      All-map (AtOffset s.broker) (AtOffset b') s.members (Grows-AtOffset s.broker b' g)
        h.in_flight;
}

idle-IsOrderly : IsOrderly idle
unfolding offset_of log_of get
idle-IsOrderly = record {
  acked_prefix = λ k. refl;
  offset_bound = λ k. omega arith;
  exclusive = tt;
  active = tt;
  in_flight = tt;
}

is_active-publish :
    (b : MemoryBroker) (topic : Text) (msgs : List Message) (k : GroupKey)
    → is_active b k ≡ true
    → is_active (publish b topic msgs).0 k ≡ true
unfolding publish is_active
is_active-publish b topic msgs k h = h

Step-IsOrderly : {s t : System} → Step s t → IsOrderly s → IsOrderly t
Step-IsOrderly (publishes s topic msgs) h =
    Grows-IsOrderly s (publish s.broker topic msgs).0 (publish-Grows s.broker topic msgs)
      (is_active-publish s.broker topic msgs) h
Step-IsOrderly (joins s key accepted) h = joins-IsOrderly s key h accepted
Step-IsOrderly (turned_away s key e refused) h =
    Grows-IsOrderly s (join s.broker key).0 (join-Grows s.broker key) (is_active-join s.broker key)
      h
Step-IsOrderly (delivers s before after x offset m there idle_there found) h =
    handling-IsOrderly s before after x h there (some (offset, m)) (λ o n e.
      let p = next_message_lem s.broker x.key offset m found in
      let same_offset : offset ≡ o = ground arith in
      let same_message : m ≡ n = ground arith in rw (← same_offset, ← same_message) p)
Step-IsOrderly (refuses s before after x offset m there handles) h =
    handling-IsOrderly s before after x h there none (λ o n e. cc)
Step-IsOrderly (acknowledges s before after x offset m there handles) h =
    acknowledges-IsOrderly s before after x h there offset m handles
Step-IsOrderly (leaves s before after x there idle_there) h =
    leaves-IsOrderly s before after x h there

-- In every state that a fresh broker reaches by publishing, by calls of Subscribe from anybody, and
-- by their members' delivering, refusing, acknowledging and leaving, in any order: no two members
-- have the same topic and group; the messages acknowledged for a topic and group are a prefix of the
-- topic, in its order and without a gap, as long as the group's offset; and the message that a member
-- is handling is the first one behind it.
pub Reach-IsOrderly : {s : System} → Reach idle s → IsOrderly s
Reach-IsOrderly here = idle-IsOrderly
Reach-IsOrderly (next r step) = Step-IsOrderly step (Reach-IsOrderly r)
