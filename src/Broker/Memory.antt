-- ===== src/Broker/Memory.antt =====
-- broker/memory.go: the in-process broker. Each locked section of Subscribe is a function; the
-- handler runs between them, and other calls may come between any two.
pub mod Delivery
use gohex.Prelude.{
  ℕ, ◌+◌, ◌≡◌, ◌↔◌, Bool, true, false, ◌&&◌, Option, none, some, List, [], ◌∷◌, ◌++◌, length,
  get_elem?, ltb, arith, if◌then◌else◌,
}
use gohex.Prelude.EqClass.{Eq}
use gohex.Prelude.Map.{Map, get, put, remove}
use gohex.Prelude.Text.{Text, text_eq, text_beq, text_beq_iff, lit}
use gohex.Kernel.Errors.{Error, plain}
use gohex.Broker.Message.{Message, Publisher}

pub record GroupKey : Type 0 where
  pub topic : Text
  pub group : Text

unfoldable pub group_beq : GroupKey → GroupKey → Bool
group_beq a b = text_beq a.topic b.topic && text_beq a.group b.group

pub group_beq_iff : (a b : GroupKey) → (group_beq a b ≡ true) ↔ (a ≡ b)
unfolding group_beq
group_beq_iff a b = ground (arith, text_beq_iff a.topic b.topic, text_beq_iff a.group b.group)

instance abbrev pub group_eq : Eq GroupKey
group_eq = record { beq = group_beq; beq_iff = group_beq_iff }

pub record MemoryBroker : Type 0 where
  pub topics : Map Text (List Message)
  pub offsets : Map GroupKey ℕ
  pub active : Map GroupKey Bool

abbrev pub new_memory_broker : MemoryBroker
new_memory_broker = record { topics = []; offsets = []; active = [] }

-- b.topics[topic], b.offsets[key] and b.active[key], with Go's zero values for missing keys.
unfoldable pub log_of : MemoryBroker → Text → List Message
log_of b topic = elim (get b.topics topic) [ none ↦ [] | some l ↦ l ]

unfoldable pub offset_of : MemoryBroker → GroupKey → ℕ
offset_of b key = elim (get b.offsets key) [ none ↦ 0 | some n ↦ n ]

unfoldable pub is_active : MemoryBroker → GroupKey → Bool
is_active b key = elim (get b.active key) [ none ↦ false | some a ↦ a ]

unfoldable pub publish : MemoryBroker → Text → List Message → MemoryBroker × Option Error
unfolding log_of
publish b topic msgs = (record b { topics = put b.topics topic (log_of b topic ++ msgs) }, none)

-- The entry of Subscribe: one active member per topic and group.
unfoldable pub join : MemoryBroker → GroupKey → MemoryBroker × Option Error
unfolding is_active
join b key =
    if is_active b key
    then (b, some (plain (lit "broker: group already has an active member")))
    else (record b { active = put b.active key true }, none)

-- The deferred exit of Subscribe.
unfoldable pub leave : MemoryBroker → GroupKey → MemoryBroker
leave b key = record b { active = remove b.active key }

-- The locked read of the loop: the offset, and the message there if there is one.
unfoldable pub next_message : MemoryBroker → GroupKey → ℕ × Option Message
unfolding log_of offset_of
next_message b key =
    let offset = offset_of b key in
    let log = log_of b key.topic in
    (offset, if ltb offset (length log) then get_elem? log offset else none)

-- The locked write of the loop, behind a handler that returned nil.
unfoldable pub advance : MemoryBroker → GroupKey → ℕ → MemoryBroker
advance b key offset = record b { offsets = put b.offsets key (offset + 1) }

abbrev pub memory_publisher : Publisher MemoryBroker
memory_publisher = record { publish = publish }
