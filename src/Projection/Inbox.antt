-- ===== src/Projection/Inbox.antt =====
-- projection/inbox.go: the inbox of foreign messages. Each method of MemoryInbox runs under the
-- mutex, so it is one step.
pub mod Collapse
pub mod Reading
use gohex.Prelude.{
  ℕ, zero, suc, ◌+◌, Bool, true, false, ◌&&◌, Option, none, some, List, [], ◌∷◌, ◌++◌, ℤ, is_pos,
  to_nat, length, last?, leb, eqb, if◌then◌else◌,
}
use gohex.Prelude.Map.{Map, get, put}
use gohex.Prelude.Text.{Text, text_eq}
use gohex.Kernel.Errors.{Error}
use gohex.Kernel.Result.{Result, ok, panic}
use gohex.Broker.Message.{Message, Handler}

pub record InboxMessage : Type 0 where
  pub seq : ℕ
  pub message : Message

-- The port over an inbox's state `N`.
pub record Inbox (N : Type 0) : Type 0 where
  pub append : N → Message → N × Option Error
  pub read_all : N → ℕ → ℤ → Result (List InboxMessage)
  pub head : N → Result ℕ

pub record MemoryInbox : Type 0 where
  pub msgs : List InboxMessage
  pub by_id : Map Text Bool

abbrev pub new_memory_inbox : MemoryInbox
new_memory_inbox = record { msgs = []; by_id = [] }

-- A missing key reads as false.
abbrev pub or_false : Option Bool → Bool
or_false none = false
or_false (some b) = b

-- i.byID[id]
unfoldable pub knows : MemoryInbox → Text → Bool
knows i id = or_false (get i.by_id id)

unfoldable pub append_inbox : MemoryInbox → Message → MemoryInbox × Option Error
unfolding knows
append_inbox i msg = if knows i msg.id then (i, none) else (
  record {
    msgs = i.msgs ++ record { seq = length i.msgs + 1; message = msg } ∷ [];
    by_id = put i.by_id msg.id true;
  },
  none,
)

-- The loop of ReadAll with `n` messages taken.
unfoldable pub read_inbox_loop : ℕ → ℤ → ℕ → List InboxMessage → List InboxMessage
read_inbox_loop after limit n [] = []
read_inbox_loop after limit n (m ∷ rest) =
    let skipped = read_inbox_loop after limit n rest in
    let more = read_inbox_loop after limit (n + 1) rest in
    if leb m.seq after
    then skipped
    else if is_pos limit && eqb (n + 1) (to_nat limit)
    then m ∷ []
    else m ∷ more

unfoldable pub read_inbox : MemoryInbox → ℕ → ℤ → Result (List InboxMessage)
unfolding read_inbox_loop
read_inbox i after limit = ok (read_inbox_loop after limit 0 i.msgs)

unfoldable pub inbox_head : MemoryInbox → Result ℕ
inbox_head i = elim (last? i.msgs) [ none ↦ ok 0 | some m ↦ ok m.seq ]

abbrev pub memory_inbox : Inbox MemoryInbox
memory_inbox = record { append = append_inbox; read_all = read_inbox; head = inbox_head }

-- The handler that InboxWriter subscribes with.
unfoldable pub write_inbox : {N : Type 0} → Inbox N → Handler N
write_inbox inbox n msg = inbox.append n msg
