-- ===== src/EventStore/Postgres/Sorting.antt =====
-- eventstore-postgres/store.go: rows in the order of a column.
use gohex.Prelude.{
  ℕ, zero, suc, ◌≤◌, ◌≡◌, refl, ap, inl, inr, true, Bool, ◌&&◌, List, [], ◌∷◌, All, arith, select,
  take, leb, Bool-cases,
}
use gohex.EventStore.Types.{stream_eq}
use gohex.EventStore.Postgres.{EventRow}
use gohex.EventStore.Postgres.Query.{insert_by, order_by}

-- Rows whose column does not fall, from a bound on.
abbrev pub SortedFrom : (EventRow → ℕ) → ℕ → List EventRow → Type 0
SortedFrom column n [] = Unit
SortedFrom column n (r ∷ rs) = (n ≤ column r) × SortedFrom column (column r) rs

pub SortedFrom-le :
    (column : EventRow → ℕ) (m n : ℕ) (rs : List EventRow)
    → m ≤ n
    → SortedFrom column n rs
    → SortedFrom column m rs
SortedFrom-le column m n [] le h = tt
SortedFrom-le column m n (r ∷ rs) le h = (omega (arith, le, h.0), h.1)

pub select-SortedFrom :
    (column : EventRow → ℕ) (p : EventRow → Bool) (n : ℕ) (rs : List EventRow)
    → SortedFrom column n rs
    → SortedFrom column n (select p rs)
select-SortedFrom column p n [] h = tt
select-SortedFrom column p n (r ∷ rs) h = elim (Bool-cases (p r)) [
  | inl e ↦ rw e (h.0, select-SortedFrom column p (column r) rs h.1)
  | inr e ↦ rw e (select-SortedFrom column p n rs (SortedFrom-le column n (column r) rs h.0 h.1))
]

pub insert_by-SortedFrom :
    (column : EventRow → ℕ) (r : EventRow) (rs : List EventRow)
    → SortedFrom column (column r) rs
    → insert_by column r rs ≡ r ∷ rs
unfolding insert_by
insert_by-SortedFrom column r [] h = refl
insert_by-SortedFrom column r (x ∷ xs) h =
    let le : leb (column r) (column x) ≡ true = ground (arith, h.0) in rw le refl

pub order_by-SortedFrom :
    (column : EventRow → ℕ) (n : ℕ) (rs : List EventRow)
    → SortedFrom column n rs
    → order_by column rs ≡ rs
unfolding order_by
order_by-SortedFrom column n [] h = refl
order_by-SortedFrom column n (r ∷ rs) h =
    rw (order_by-SortedFrom column (column r) rs h.1) (insert_by-SortedFrom column r rs h.1)

pub select-All :
    (P : EventRow → Type 0) (p : EventRow → Bool) (rs : List EventRow)
    → All P rs
    → All P (select p rs)
select-All P p [] h = tt
select-All P p (r ∷ rs) h = elim (Bool-cases (p r)) [
  | inl e ↦ rw e (h.0, select-All P p rs h.1)
  | inr e ↦ rw e (select-All P p rs h.1)
]

pub take-All : (P : EventRow → Type 0) (n : ℕ) (rs : List EventRow) → All P rs → All P (take n rs)
take-All P zero rs h = tt
take-All P (suc n) [] h = tt
take-All P (suc n) (r ∷ rs) h = (h.0, take-All P n rs h.1)

pub select_and :
    (p q : EventRow → Bool) (rs : List EventRow)
    → select (λ r. p r && q r) rs ≡ select q (select p rs)
select_and p q [] = refl
select_and p q (r ∷ rs) = elim (Bool-cases (p r)) [
  | inl e ↦ elim (Bool-cases (q r)) [
    | inl f ↦ rw (e, f) (ap (λ l. r ∷ l) (select_and p q rs))
    | inr f ↦ rw (e, f) (select_and p q rs)
  ]
  | inr e ↦ rw e (select_and p q rs)
]
