-- ===== src/Projection/Postgres/Rows.antt =====
-- projection-postgres/inbox.go: what an InboxWriter leaves in the table, and what ReadAll makes of it.
use gohex.Prelude.{
  ℕ, ◌+◌, ◌<◌, ◌≤◌, ◌≡◌, refl, subst, ap, sym, ◌∙◌, fun_ext, inl, inr, Bool, true, false, none,
  some, Option, List, [], ◌∷◌, ◌++◌, All, append-nil, append_assoc, map, arith, ◌⊎◌, Bool-cases,
  if◌then◌else◌, pos,
}
use gohex.Prelude.EqClass.{◌==◌}
use gohex.Prelude.Text.{Text, text_eq, text_beq}
use gohex.Kernel.Errors.{Error}
use gohex.Kernel.Result.{Result, ok}
use gohex.EventStore.Types.{Metadata}
use gohex.Broker.Message.{Message}
use gohex.Projection.Inbox.{InboxMessage, write_inbox}
use gohex.Projection.Inbox.Collapse.{first_of_each}
use gohex.Projection.Postgres.Order.{
  Between, Shuffled, select_behind-shuffled, order_by_seq-shuffled,
}
use gohex.Projection.Postgres.{
  InboxRow, InboxTable, empty_inbox, Statement, insert_message, query_inbox, MessageJson, holds_id,
  insert_new, insert_encoded, append_row, scan_inbox, read_rows, postgres_inbox,
}

-- Messages whose positions grow strictly, from a bound on.
abbrev pub Ascending : ℕ → List InboxMessage → Type 0
Ascending n [] = Unit
Ascending n (m ∷ ms) = (n < m.seq) × Ascending m.seq ms

Between-le : (n hi hi' : ℕ) (rs : List InboxRow) → hi ≤ hi' → Between n rs hi → Between n rs hi'
Between-le n hi hi' [] le h = omega (arith, le, h)
Between-le n hi hi' (r ∷ rs) le h = (h.0, Between-le r.seq hi hi' rs le h.1)

Between-append_one :
    (n hi : ℕ) (rs : List InboxRow) (r : InboxRow)
    → r.seq ≡ hi
    → Between n rs hi
    → Between n (rs ++ r ∷ []) (hi + 1)
Between-append_one n hi [] r e h = (omega (arith, e, h), omega (arith, e))
Between-append_one n hi (x ∷ rs) r e h = (h.0, Between-append_one x.seq hi rs r e h.1)

holds_id-append_one :
    (rs : List InboxRow) (r : InboxRow) (id : Text)
    → holds_id id (rs ++ r ∷ []) ≡ (if r.id == id then true else holds_id id rs)
unfolding holds_id
holds_id-append_one [] r id = elim (Bool-cases (r.id == id)) [
  | inl e ↦ rw e refl
  | inr e ↦ rw e refl
]
holds_id-append_one (x ∷ rs) r id =
    rw (holds_id-append_one rs r id) (elim (Bool-cases (r.id == id)) [
      | inl e ↦ elim (Bool-cases (text_beq x.id id)) [
        | inl f ↦ rw (e, f) refl
        | inr f ↦ rw (e, f) refl
      ]
      | inr e ↦ rw e refl
    ])

-- What jsonb makes of a JSON text that it takes.
abbrev relaid : Text → Text ⊎ Error → Text
relaid before (inl after) = after
relaid before (inr x) = before

-- `omitempty` leaves an empty map out, which is then read as nil.
abbrev nil_if_empty : Metadata → Metadata
nil_if_empty none = none
nil_if_empty (some []) = none
nil_if_empty (some (kv ∷ m)) = some (kv ∷ m)

-- A message as the inbox gives it back: only the layout of its payload's JSON is jsonb's, and
-- metadata without an entry is nil.
abbrev pub canonical : MessageJson → Message → Message
canonical json m = record m {
  payload = relaid m.payload (json.jsonb m.payload);
  metadata = nil_if_empty m.metadata;
}

module _ (json : MessageJson) where
  -- The database takes the message, and encoding/json reads it back as its canonical form.
  pub record Accepted (m : Message) : Type 0 where
    pub payload : Text
    pub stored : Text
    pub encodes : json.encode m ≡ inl payload
    pub taken : json.jsonb payload ≡ inl stored
    pub decodes : json.decode stored ≡ inl (canonical json m)

  -- The rows are read as those messages.
  abbrev Reads : List InboxRow → List Message → Type 0
  Reads [] [] = Unit
  Reads [] (c ∷ cs) = ⊥
  Reads (r ∷ rs) [] = ⊥
  Reads (r ∷ rs) (c ∷ cs) = (json.decode r.message ≡ inl c) × Reads rs cs

  Reads-append_one :
      (rs : List InboxRow) (cs : List Message) (r : InboxRow) (c : Message)
      → Reads rs cs
      → json.decode r.message ≡ inl c
      → Reads (rs ++ r ∷ []) (cs ++ c ∷ [])
  Reads-append_one [] [] r c h e = (e, tt)
  Reads-append_one [] (x ∷ cs) r c h e = absurd h
  Reads-append_one (x ∷ rs) [] r c h e = absurd h
  Reads-append_one (x ∷ rs) (y ∷ cs) r c h e = (h.0, Reads-append_one rs cs r c h.1 e)

  module _ (fault : Statement → InboxTable → Option Error) where
    -- What the scan of such rows returns.
    abbrev pub Scanned : ℕ → Result (List InboxMessage) → List Message → Type 0
    Scanned n result cs =
        (l : List InboxMessage) × (result ≡ ok l)
        × (map (λ (m : InboxMessage). m.message) l ≡ cs)
        × Ascending n l

    scan_inbox-Scanned :
        (n hi : ℕ) (rs : List InboxRow) (cs : List Message)
        → Between n rs hi
        → Reads rs cs
        → Scanned n (scan_inbox json fault rs) cs
    unfolding scan_inbox
    scan_inbox-Scanned n hi [] [] b h = ([], refl, refl, tt)
    scan_inbox-Scanned n hi [] (c ∷ cs) b h = absurd h
    scan_inbox-Scanned n hi (r ∷ rs) [] b h = absurd h
    scan_inbox-Scanned n hi (r ∷ rs) (c ∷ cs) b h =
        let (l, scans, same, up) = scan_inbox-Scanned r.seq hi rs cs b.1 h.1 in
        (
          record { seq = r.seq; message = c } ∷ l,
          rw (h.0, scans) refl,
          ap (λ k. c ∷ k) same,
          (b.0, up),
        )

    -- The messages that an InboxWriter is given, one after the other.
    unfoldable pub write_rows : InboxTable → List Message → InboxTable
    write_rows t [] = t
    write_rows t (m ∷ ms) = write_rows (write_inbox (postgres_inbox json fault) t m).0 ms

    module _ (working : (st : Statement) (t : InboxTable) → fault st t ≡ none) where
      append-Accepted :
          (t : InboxTable) (m : Message) (a : Accepted m)
          → (write_inbox (postgres_inbox json fault) t m).0 ≡ insert_new t m.id a.stored
      unfolding write_inbox append_row
      append-Accepted t m a = rw (a.encodes, insert_encoded, working insert_message t, a.taken) refl

      -- A table and the messages that it is read as.
      abbrev Holds : InboxTable → List Message → Type 0
      Holds t cs = Between 0 t.rows t.next_seq × Reads t.rows cs

      -- What a writer leaves in the table.
      write_rows-Holds :
          (t : InboxTable) (cs ms : List Message)
          → Holds t cs
          → All Accepted ms
          → Holds
              (write_rows t ms)
              (cs ++ map (canonical json) (first_of_each (λ id. holds_id id t.rows) ms))
      unfolding write_rows
      write_rows-Holds t cs [] h a = rw (append-nil cs) h
      write_rows-Holds t cs (m ∷ ms) h a =
          subst
            (λ u.
              Holds (write_rows u ms)
                (cs ++ map (canonical json) (first_of_each (λ id. holds_id id t.rows) (m ∷ ms))))
            (sym (append-Accepted t m a.0))
            (elim (Bool-cases (holds_id m.id t.rows)) [
              | inl known ↦
                  let t1 : InboxTable = record t { next_seq = t.next_seq + 1 } in
                  let step : insert_new t m.id a.0.stored ≡ t1 =
                    unfold insert_new in rw known refl in
                  rw (known, step)
                    (write_rows-Holds t1 cs ms
                      (Between-le 0 t.next_seq (t.next_seq + 1) t.rows (omega arith) h.0, h.1) a.1)
              | inr new ↦
                  let row : InboxRow = record {
                    seq = t.next_seq;
                    id = m.id;
                    message = a.0.stored;
                  } in
                  let t1 : InboxTable = record {
                    rows = t.rows ++ row ∷ [];
                    next_seq = t.next_seq + 1;
                  } in
                  let step : insert_new t m.id a.0.stored ≡ t1 = unfold insert_new in rw new refl in
                  rw (new, step)
                    (subst (Holds (write_rows t1 ms))
                      (ap
                          (λ (known : Text → Bool).
                            (cs ++ canonical json m ∷ [])
                            ++ map (canonical json) (first_of_each known ms))
                          (fun_ext (λ id. holds_id-append_one t.rows row id))
                        ∙ append_assoc cs (canonical json m ∷ []) _)
                      (write_rows-Holds t1 (cs ++ canonical json m ∷ []) ms
                        (
                          Between-append_one 0 t.next_seq t.rows row refl h.0,
                          Reads-append_one t.rows cs row (canonical json m) h.1 a.0.decodes,
                        )
                        a.1))
            ])

      -- Messages written one after the other into an empty inbox and read back from its start, where
      -- no statement fails and the database takes each message, in whichever order it keeps the rows:
      -- ReadAll returns the first message of each ID, with its ID, key, type, version, time and
      -- metadata and with its payload in jsonb's layout, in the order of arrival and at positions
      -- that grow strictly, though a message that comes again takes a position of the identity column
      -- too. Metadata without an entry is nil.
      pub inbox_keeps_first :
          (ms : List Message)
          → All Accepted ms
          → (kept : List InboxRow) → Shuffled kept (write_rows empty_inbox ms).rows
          → Scanned 0
              (read_rows json fault (record (write_rows empty_inbox ms) { rows = kept }) 0 (pos 0))
              (map (canonical json) (first_of_each (λ id. false) ms))
      unfolding read_rows holds_id
      inbox_keeps_first ms a kept shuffled =
          let (between, reads) = write_rows-Holds empty_inbox [] ms (omega arith, tt) a in
          let t = write_rows empty_inbox ms in
          rw
            (
              read_rows,
              working query_inbox (record t { rows = kept }),
              select_behind-shuffled 0 t.next_seq shuffled between,
              order_by_seq-shuffled 0 t.next_seq shuffled between,
            )
            (scan_inbox-Scanned 0 t.next_seq t.rows _ between reads)
