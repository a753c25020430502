-- ===== src/Projection/Inbox/Collapse.antt =====
-- projection/inbox.go: what an InboxWriter leaves in the inbox.
use gohex.Prelude.{
  ℕ, ◌+◌, ◌≡◌, refl, sym, ap, ◌∙◌, fun_ext, inl, inr, Bool, true, false, none, some, List, [], ◌∷◌,
  ◌++◌, append-nil, append_assoc, length, length-append, last?, if◌then◌else◌, arith, Bool-cases,
}
use gohex.Prelude.EqClass.{◌==◌}
use gohex.Prelude.Map.{get, put, get-put}
use gohex.Prelude.Text.{Text, text_eq}
use gohex.Kernel.Result.{Result, ok}
use gohex.Broker.Message.{Message}
use gohex.Projection.Inbox.{
  InboxMessage, MemoryInbox, new_memory_inbox, or_false, knows, append_inbox, inbox_head,
  memory_inbox, write_inbox,
}

-- The messages that an InboxWriter is given, one after the other.
abbrev pub write_all : MemoryInbox → List Message → MemoryInbox
write_all i [] = i
write_all i (m ∷ ms) = write_all (write_inbox memory_inbox i m).0 ms

-- The first message of each ID that `known` does not hold.
abbrev pub first_of_each : (Text → Bool) → List Message → List Message
first_of_each known [] = []
first_of_each known (m ∷ ms) =
    if known m.id
    then first_of_each known ms
    else m ∷ first_of_each (λ id. if m.id == id then true else known id) ms

-- Messages with the positions behind `n`.
abbrev pub numbered : ℕ → List Message → List InboxMessage
numbered n [] = []
numbered n (m ∷ ms) = record { seq = n + 1; message = m } ∷ numbered (n + 1) ms

knows-put :
    (i : MemoryInbox) (l : List InboxMessage) (m : Text) (id : Text)
    → knows (record { msgs = l; by_id = put i.by_id m true }) id
      ≡ (if m == id then true else knows i id)
unfolding knows
knows-put i l m id = ap or_false (get-put i.by_id m id true) ∙ by_test (m == id)
  where
    by_test :
        (b : Bool)
        → or_false (if b then some true else get i.by_id id) ≡ (if b then true else knows i id)
    by_test true = refl
    by_test false = refl

-- What an append does, by whether the ID is known.
append-known :
    (i : MemoryInbox) (m : Message) → knows i m.id ≡ true → (write_inbox memory_inbox i m).0 ≡ i
unfolding write_inbox append_inbox
append-known i m h = rw h refl

append-new :
    (i : MemoryInbox) (m : Message)
    → knows i m.id ≡ false
    → (write_inbox memory_inbox i m).0 ≡ record {
      msgs = i.msgs ++ record { seq = length i.msgs + 1; message = m } ∷ [];
      by_id = put i.by_id m.id true;
    }
unfolding write_inbox append_inbox
append-new i m h = rw h refl

write_all-msgs :
    (i : MemoryInbox) (ms : List Message)
    → (write_all i ms).msgs
      ≡ i.msgs ++ numbered (length i.msgs) (first_of_each (λ id. knows i id) ms)
write_all-msgs i [] = sym (append-nil i.msgs)
write_all-msgs i (m ∷ ms) = elim (Bool-cases (knows i m.id)) [
  | inl old ↦
      ap (λ j. (write_all j ms).msgs) (append-known i m old) ∙ write_all-msgs i ms ∙ (rw old refl)
  | inr new ↦
      let x : InboxMessage = record { seq = length i.msgs + 1; message = m } in
      let j : MemoryInbox = record { msgs = i.msgs ++ x ∷ []; by_id = put i.by_id m.id true } in
      let known : (λ id. knows j id) ≡ (λ id. if m.id == id then true else knows i id) =
        fun_ext λ id. knows-put i (i.msgs ++ x ∷ []) m.id id in
      let count : length (i.msgs ++ x ∷ []) ≡ length i.msgs + 1 = length-append i.msgs (x ∷ []) in
      ap (λ j. (write_all j ms).msgs) (append-new i m new)
      ∙ write_all-msgs j ms
      ∙ ap (λ f. (i.msgs ++ x ∷ []) ++ numbered (length (i.msgs ++ x ∷ [])) (first_of_each f ms))
          known
      ∙ ap
          (λ n.
            (i.msgs ++ x ∷ [])
            ++ numbered n (first_of_each (λ id. if m.id == id then true else knows i id) ms))
          count
      ∙ append_assoc i.msgs (x ∷ []) (
          numbered (length i.msgs + 1)
            (first_of_each (λ id. if m.id == id then true else knows i id) ms))
      ∙ (rw new refl)
]

head-numbered :
    (m : Message) (n : ℕ) (ms : List Message) (i : MemoryInbox)
    → i.msgs ≡ numbered n (m ∷ ms)
    → inbox_head i ≡ ok (n + length (m ∷ ms))
unfolding inbox_head
head-numbered m n ms i e = rw e (last-numbered m n ms)
  where
    last-numbered :
        (m : Message) (n : ℕ) (ms : List Message)
        → elim (last? (numbered n (m ∷ ms))) as (λ _. Result ℕ) [ none ↦ ok 0 | some x ↦ ok x.seq ]
          ≡ ok (n + length (m ∷ ms))
    last-numbered m n [] = refl
    last-numbered m n (k ∷ ms) =
        let e : n + 1 + length (k ∷ ms) ≡ n + length (m ∷ k ∷ ms) = omega arith in
        last-numbered k (n + 1) ms ∙ ap ok e

head_of_messages :
    (ms : List Message) (i : MemoryInbox) → i.msgs ≡ numbered 0 ms → inbox_head i ≡ ok (length ms)
unfolding inbox_head
head_of_messages [] i e = rw e refl
head_of_messages (m ∷ ms) i e =
    let z : 0 + length (m ∷ ms) ≡ length (m ∷ ms) = omega arith in
    head-numbered m 0 ms i e ∙ ap ok z

-- An inbox that a writer fills from any sequence of deliveries, with redeliveries at any place,
-- holds the first message of each ID and no other, in the order in which they arrived, at the
-- positions 1, 2, and so on; and its head is their number.
pub write_all-first_of_each :
    (ms : List Message)
    → ((write_all new_memory_inbox ms).msgs ≡ numbered 0 (first_of_each (λ id. false) ms))
      × (inbox_head (write_all new_memory_inbox ms) ≡ ok (length (first_of_each (λ id. false) ms)))
unfolding knows get
write_all-first_of_each ms =
    let stored = write_all-msgs new_memory_inbox ms in
    (
      stored,
      head_of_messages (first_of_each (λ id. false) ms) (write_all new_memory_inbox ms) stored,
    )
