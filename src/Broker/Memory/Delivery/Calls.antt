-- ===== src/Broker/Memory/Delivery/Calls.antt =====
-- broker/memory.go: what the broker's calls change, and what they keep.
use gohex.Prelude.{
  ℕ, ◌≤◌, ◌≢◌, take, true, false, ◌≡◌, refl, ap, sym, ◌∙◌, inl, inr, none, some, List, [], ◌++◌,
  append-nil, arith, length, get_elem?, ltb, if◌then◌else◌, Bool-cases, length-append,
  get_elem?-append_left,
}
use gohex.Prelude.EqClass.{◌==◌}
use gohex.Prelude.Map.{get-put, get-put_self, get-remove}
use gohex.Prelude.Text.{Text, text_eq, text_beq_iff}
use gohex.Broker.Message.{Message}
use gohex.Broker.Memory.{
  GroupKey, group_eq, group_beq_iff, MemoryBroker, log_of, offset_of, is_active, publish, join,
  leave, next_message, advance,
}
use gohex.Broker.Memory.Delivery.{
  lt_of_get_elem?, offset_of-advance, log_of-publish, take-append_of_le, System, Member, AtOffset,
  IsOrderly,
}

-- A step of the broker that moves no offset and only appends to the topics.
pub record Grows (b b' : MemoryBroker) : Type 0 where
  pub offsets : (k : GroupKey) → offset_of b' k ≡ offset_of b k
  pub logs : (t : Text) → (more : List Message) × (log_of b' t ≡ log_of b t ++ more)

pub publish-Grows :
    (b : MemoryBroker) (topic : Text) (msgs : List Message) → Grows b (publish b topic msgs).0
publish-Grows b topic msgs = record {
  offsets = λ k. unfold publish offset_of in refl;
  logs = λ t. elim (Bool-cases (topic == t)) [
    | inl same ↦ (
      msgs,
      rw (log_of-publish b topic t msgs, same)
          (ap (λ x. log_of b x ++ msgs) ((text_beq_iff topic t).0 same)),
    )
    | inr other ↦ ([], rw (log_of-publish b topic t msgs, other) (sym (append-nil (log_of b t))))
  ];
}

pub join-Grows : (b : MemoryBroker) (key : GroupKey) → Grows b (join b key).0
unfolding join log_of offset_of
join-Grows b key = record {
  offsets = λ k. ground arith;
  logs = λ t. (
    [],
    let e : log_of (join b key).0 t ≡ log_of b t = ground arith in
        e ∙ sym (append-nil (log_of b t)),
  );
}

pub leave-Grows : (b : MemoryBroker) (key : GroupKey) → Grows b (leave b key)
unfolding leave log_of offset_of
leave-Grows b key = record { offsets = λ k. refl; logs = λ t. ([], sym (append-nil (log_of b t))) }

pub Grows-acked_prefix :
    (s : System) (b' : MemoryBroker)
    → Grows s.broker b'
    → IsOrderly s
    → (k : GroupKey) → s.acked k ≡ take (offset_of b' k) (log_of b' k.topic)
Grows-acked_prefix s b' g h k =
    h.acked_prefix k
    ∙ rw (g.offsets k, (g.logs k.topic).1)
        (sym (
          take-append_of_le (offset_of s.broker k) (log_of s.broker k.topic) (g.logs k.topic).0
            (h.offset_bound k)))

pub Grows-offset_bound :
    (s : System) (b' : MemoryBroker)
    → Grows s.broker b'
    → IsOrderly s
    → (k : GroupKey) → offset_of b' k ≤ length (log_of b' k.topic)
Grows-offset_bound s b' g h k =
    rw (g.offsets k, (g.logs k.topic).1)
      (omega (arith, h.offset_bound k, length-append (log_of s.broker k.topic) (g.logs k.topic).0))

pub Grows-AtOffset :
    (b b' : MemoryBroker) → Grows b b' → (x : Member) → AtOffset b x → AtOffset b' x
Grows-AtOffset b b' g x at offset m e =
    let old = at offset m e in
    (
      old.0 ∙ sym (g.offsets x.key),
      rw (g.logs x.key.topic).1 (
          get_elem?-append_left (log_of b x.key.topic) (g.logs x.key.topic).0 offset
            (lt_of_get_elem? offset (log_of b x.key.topic) m old.1)
          ∙ old.1),
    )

-- The broker does not let a second member in.
pub join-free :
    (b : MemoryBroker) (key : GroupKey) → (join b key).1 ≡ none → is_active b key ≡ false
unfolding join
join-free b key h = elim (Bool-cases (is_active b key)) [ inl on ↦ absurd cc | inr off ↦ off ]

pub is_active-join :
    (b : MemoryBroker) (key k : GroupKey) → is_active b k ≡ true → is_active (join b key).0 k ≡ true
unfolding join is_active
is_active-join b key k h = elim (Bool-cases (is_active b key)) [
  | inl on ↦ rw on h
  | inr off ↦ elim (Bool-cases (key == k)) [
    | inl same ↦ ground (arith, off, same, get-put b.active key k true)
    | inr other ↦ ground (arith, off, other, h, get-put b.active key k true)
  ]
]

pub is_active-joined :
    (b : MemoryBroker) (key : GroupKey)
    → (join b key).1 ≡ none
    → is_active (join b key).0 key ≡ true
unfolding join is_active
is_active-joined b key h = elim (Bool-cases (is_active b key)) [
  | inl on ↦ rw on on
  | inr off ↦ ground (arith, off, get-put_self b.active key true)
]

pub is_active-leave :
    (b : MemoryBroker) (key k : GroupKey)
    → k ≢ key
    → is_active b k ≡ true
    → is_active (leave b key) k ≡ true
unfolding leave is_active
is_active-leave b key k ne h = elim (Bool-cases (key == k)) [
  | inl same ↦ absurd (ne (sym ((group_beq_iff key k).0 same)))
  | inr other ↦ ground (arith, other, h, get-remove b.active key k)
]

pub is_active-advance :
    (b : MemoryBroker) (key k : GroupKey) (offset : ℕ)
    → is_active (advance b key offset) k ≡ is_active b k
unfolding advance is_active
is_active-advance b key k offset = refl

pub log_of-advance :
    (b : MemoryBroker) (key : GroupKey) (offset : ℕ) (t : Text)
    → log_of (advance b key offset) t ≡ log_of b t
unfolding advance log_of
log_of-advance b key offset t = refl

pub next_message_def :
    (b : MemoryBroker) (key : GroupKey)
    → next_message b key ≡ (
      offset_of b key,
      if ltb (offset_of b key) (length (log_of b key.topic))
          then get_elem? (log_of b key.topic) (offset_of b key)
          else none,
    )
unfolding next_message
next_message_def b key = refl

pub next_message_lem :
    (b : MemoryBroker) (key : GroupKey) (offset : ℕ) (m : Message)
    → next_message b key ≡ (offset, some m)
    → (offset ≡ offset_of b key) × (get_elem? (log_of b key.topic) offset ≡ some m)
next_message_lem b key offset m h = ground (arith, next_message_def b key)

pub advance-AtOffset :
    (b : MemoryBroker) (key : GroupKey) (offset : ℕ) (x : Member)
    → x.key ≢ key
    → AtOffset b x
    → AtOffset (advance b key offset) x
advance-AtOffset b key offset x ne at o m e = elim (Bool-cases (key == x.key)) [
  | inl same ↦ absurd (ne (sym ((group_beq_iff key x.key).0 same)))
  | inr other ↦
      rw (offset_of-advance b key x.key offset, log_of-advance b key offset x.key.topic, other)
        (at o m e)
]
