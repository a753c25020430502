-- ===== src/Projection/Postgres/Order.antt =====
-- projection-postgres/inbox.go: ORDER BY seq over the rows of the inbox, in whichever order the database
-- reads them.
use gohex.Prelude.{
  ℕ, ◌+◌, ◌<◌, ◌≡◌, refl, ap, ◌∙◌, inl, inr, true, false, List, [], ◌∷◌, ◌++◌, All, arith, select,
  ltb, leb, Bool-cases,
}
use gohex.Projection.Postgres.{InboxRow, insert_by_seq, order_by_seq}

-- Positions that grow strictly, from a bound on and below another.
abbrev pub Between : ℕ → List InboxRow → ℕ → Type 0
Between n [] hi = n < hi
Between n (r ∷ rs) hi = (n < r.seq) × Between r.seq rs hi

-- The same rows, in any order.
pub data Shuffled : List InboxRow → List InboxRow → Type 0 where
  nothing : Shuffled [] []
  placed :
      (before after rest : List InboxRow) (r : InboxRow)
      → Shuffled (before ++ after) rest
      → Shuffled (before ++ r ∷ after) (r ∷ rest)

abbrev Above : ℕ → List InboxRow → Type 0
Above n rs = All (λ (r : InboxRow). n < r.seq) rs

Above-placed :
    (n : ℕ) (before after : List InboxRow) (r : InboxRow)
    → n < r.seq
    → Above n (before ++ after)
    → Above n (before ++ r ∷ after)
Above-placed n [] after r h a = (h, a)
Above-placed n (b ∷ before) after r h a = (a.0, Above-placed n before after r h a.1)

Above-shuffled : (n : ℕ) {xs ys : List InboxRow} → Shuffled xs ys → Above n ys → Above n xs
Above-shuffled n nothing a = tt
Above-shuffled n (placed before after rest r s) a =
    Above-placed n before after r a.0 (Above-shuffled n s a.1)

Above-Between : (n lo hi : ℕ) (rs : List InboxRow) → n < lo + 1 → Between lo rs hi → Above n rs
Above-Between n lo hi [] le h = tt
Above-Between n lo hi (r ∷ rs) le h =
    (omega (arith, le, h.0), Above-Between n r.seq hi rs (omega (arith, le, h.0)) h.1)

Above-insert_by_seq :
    (n : ℕ) (r : InboxRow) (rs : List InboxRow)
    → n < r.seq
    → Above n rs
    → Above n (insert_by_seq r rs)
unfolding insert_by_seq
Above-insert_by_seq n r [] h a = (h, tt)
Above-insert_by_seq n r (x ∷ xs) h a = elim (Bool-cases (leb r.seq x.seq)) [
  | inl le ↦ rw le (h, a)
  | inr gt ↦ rw gt (a.0, Above-insert_by_seq n r xs h a.1)
]

Above-order_by_seq : (n : ℕ) (rs : List InboxRow) → Above n rs → Above n (order_by_seq rs)
unfolding order_by_seq
Above-order_by_seq n [] a = tt
Above-order_by_seq n (r ∷ rs) a =
    Above-insert_by_seq n r (order_by_seq rs) a.0 (Above-order_by_seq n rs a.1)

-- The row with the least position is the first.
insert_by_seq-least :
    (r : InboxRow) (rs : List InboxRow) → Above r.seq rs → insert_by_seq r rs ≡ r ∷ rs
unfolding insert_by_seq
insert_by_seq-least r [] a = refl
insert_by_seq-least r (x ∷ xs) a =
    let le : leb r.seq x.seq ≡ true = ground (arith, a.0) in rw le refl

order_by_seq-least :
    (before after : List InboxRow) (r : InboxRow)
    → Above r.seq (before ++ after)
    → order_by_seq (before ++ r ∷ after) ≡ r ∷ order_by_seq (before ++ after)
unfolding order_by_seq insert_by_seq
order_by_seq-least [] after r a =
    insert_by_seq-least r (order_by_seq after) (Above-order_by_seq r.seq after a)
order_by_seq-least (b ∷ before) after r a =
    let gt : leb b.seq r.seq ≡ false = ground (arith, a.0) in
    ap (insert_by_seq b) (order_by_seq-least before after r a.1) ∙ rw gt refl

-- Ordered by position, rows that were shuffled are as they were.
pub order_by_seq-shuffled :
    (n hi : ℕ) {xs ys : List InboxRow} → Shuffled xs ys → Between n ys hi → order_by_seq xs ≡ ys
unfolding order_by_seq
order_by_seq-shuffled n hi nothing h = refl
order_by_seq-shuffled n hi (placed before after rest r s) h =
    order_by_seq-least before after r
      (Above-shuffled r.seq s (Above-Between r.seq r.seq hi rest (omega arith) h.1))
    ∙ ap (λ l. r ∷ l) (order_by_seq-shuffled r.seq hi s h.1)

select-Above :
    (n : ℕ) (rs : List InboxRow) → Above n rs → select (λ (r : InboxRow). ltb n r.seq) rs ≡ rs
select-Above n [] a = refl
select-Above n (r ∷ rs) a =
    let new : ltb n r.seq ≡ true = ground (arith, a.0) in
    rw new (ap (λ l. r ∷ l) (select-Above n rs a.1))

-- Every row stands behind the position that the first one stands behind.
pub select_behind-shuffled :
    (n hi : ℕ) {xs ys : List InboxRow}
    → Shuffled xs ys
    → Between n ys hi
    → select (λ (r : InboxRow). ltb n r.seq) xs ≡ xs
select_behind-shuffled n hi {xs} {ys} s h =
    select-Above n xs (Above-shuffled n s (Above-Between n n hi ys (omega arith) h))
