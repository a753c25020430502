-- ===== src/Projection/Postgres.antt =====
-- projection-postgres/inbox.go: the statements of the inbox, on the rows of its table. The column
-- received_at, which no statement reads, is left out. A statement runs whole or fails: `fault` says
-- whether it fails.
pub mod Order
pub mod Rows
use gohex.Prelude.{
  ℕ, ◌+◌, Bool, true, false, ◌||◌, Option, none, some, List, [], ◌∷◌, ◌++◌, ℤ, is_pos, to_nat, take,
  map, select, ltb, leb, ◌⊎◌, inl, inr, if◌then◌else◌,
}
use gohex.Prelude.Text.{Text, lit, text_beq}
use gohex.Kernel.Errors.{Error, wrap, plain}
use gohex.Kernel.Result.{Result, ok, err, panic, ◌>>=◌}
use gohex.Broker.Message.{Message}
use gohex.Projection.Inbox.{Inbox, InboxMessage}

-- A row of inbox; `message` is a text as jsonb writes it back.
pub record InboxRow : Type 0 where
  pub seq : ℕ
  pub id : Text
  pub message : Text

-- The rows, of which a new one is the last, and the next value of the identity column.
pub record InboxTable : Type 0 where
  pub rows : List InboxRow
  pub next_seq : ℕ

abbrev pub empty_inbox : InboxTable
empty_inbox = record { rows = []; next_seq = 1 }

pub data Statement : Type 0 where
  insert_message : Statement
  query_inbox : Statement

-- encoding/json on messages, and the conversion of a text to jsonb and back.
pub record MessageJson : Type 0 where
  pub encode : Message → Text ⊎ Error
  pub decode : Text → Message ⊎ Error
  pub jsonb : Text → Text ⊎ Error

-- UNIQUE (id)
unfoldable pub holds_id : Text → List InboxRow → Bool
holds_id id [] = false
holds_id id (r ∷ rs) = text_beq r.id id || holds_id id rs

-- coalesce(max(seq), 0)
unfoldable pub max_seq : List InboxRow → ℕ
max_seq [] = 0
max_seq (r ∷ rs) = let m = max_seq rs in if leb r.seq m then m else r.seq

-- ON CONFLICT (id) DO NOTHING. The identity column takes its value also where the row is then not
-- inserted.
unfoldable pub insert_new : InboxTable → Text → Text → InboxTable
unfolding holds_id
insert_new t id message = record {
  rows =
      if holds_id id t.rows
      then t.rows
      else t.rows ++ record { seq = t.next_seq; id = id; message = message } ∷ [];
  next_seq = t.next_seq + 1;
}

-- ORDER BY seq
unfoldable pub insert_by_seq : InboxRow → List InboxRow → List InboxRow
insert_by_seq r [] = r ∷ []
insert_by_seq r (x ∷ xs) =
    let rest = insert_by_seq r xs in if leb r.seq x.seq then r ∷ x ∷ xs else x ∷ rest

unfoldable pub order_by_seq : List InboxRow → List InboxRow
unfolding insert_by_seq
order_by_seq [] = []
order_by_seq (r ∷ rs) = insert_by_seq r (order_by_seq rs)

module _ (json : MessageJson) (fault : Statement → InboxTable → Option Error) where
  abbrev pub insert_jsonb : InboxTable → Text → Text ⊎ Error → InboxTable × Option Error
  insert_jsonb t id (inl message) = (insert_new t id message, none)
  insert_jsonb t id (inr x) = (t, some (wrap (lit "projectionpg: append") x))

  abbrev pub insert_encoded : InboxTable → Text → Text ⊎ Error → InboxTable × Option Error
  insert_encoded t id (inr x) = (t, some (wrap (lit "projectionpg: encoding") x))
  insert_encoded t id (inl payload) = elim (fault insert_message t) [
    | some x ↦ (t, some (wrap (lit "projectionpg: append") x))
    | none ↦ insert_jsonb t id (json.jsonb payload)
  ]

  unfoldable pub append_row : InboxTable → Message → InboxTable × Option Error
  unfolding insert_new
  append_row t msg = insert_encoded t msg.id (json.encode msg)

  abbrev pub scanned : InboxRow → Message ⊎ Error → Result InboxMessage
  scanned r (inl m) = ok (record { seq = r.seq; message = m })
  scanned r (inr x) = err (wrap (lit "projectionpg: decode") x)

  unfoldable pub scan_inbox : List InboxRow → Result (List InboxMessage)
  scan_inbox [] = ok []
  scan_inbox (r ∷ rs) = do m ← scanned r (json.decode r.message); out ← scan_inbox rs; ok (m ∷ out)

  unfoldable pub read_rows : InboxTable → ℕ → ℤ → Result (List InboxMessage)
  unfolding scan_inbox order_by_seq
  read_rows t after limit = elim (fault query_inbox t) [
    | some x ↦ err (wrap (lit "projectionpg: readall") x)
    | none ↦
        let found = order_by_seq (select (λ (r : InboxRow). ltb after r.seq) t.rows) in
        scan_inbox (if is_pos limit then take (to_nat limit) found else found)
  ]

  unfoldable pub head_row : InboxTable → Result ℕ
  unfolding max_seq
  head_row t = elim (fault query_inbox t) [
    | some x ↦ err (wrap (lit "projectionpg: head") x)
    | none ↦ ok (max_seq t.rows)
  ]

  abbrev pub postgres_inbox : Inbox InboxTable
  postgres_inbox = record { append = append_row; read_all = read_rows; head = head_row }
