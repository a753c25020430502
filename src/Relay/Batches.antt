-- ===== src/Relay/Batches.antt =====
-- eventstore/store.go: what reading a growing log in batches covers.
use gohex.Prelude.{
  ℕ, zero, suc, ◌<◌, ◌≤◌, ◌≡◌, refl, ◌⊎◌, inl, inr, Bool, true, false, List, [], ◌∷◌, ◌++◌,
  append_assoc, ℤ, is_pos, to_nat, if◌then◌else◌, arith, Bool-cases, All, last?, take, select, ltb,
  leb, subst,
}
use gohex.EventStore.Types.{RecordedEvent}
use gohex.EventStore.Contract.{behind, limited, IncreasingFrom, seq_of_last}
use gohex.Relay.Publishing.{All-weaken}

module _ {A : Type 0} (P : A → Type 0) where
  pub All-right : (xs ys : List A) → All P (xs ++ ys) → All P ys
  All-right [] ys h = h
  All-right (x ∷ xs) ys h = All-right xs ys h.1

  All-take : (n : ℕ) (xs : List A) → All P xs → All P (take n xs)
  All-take zero xs h = tt
  All-take (suc n) [] h = tt
  All-take (suc n) (x ∷ xs) h = (h.0, All-take n xs h.1)

  All-limited : (limit : ℤ) (xs : List A) → All P xs → All P (limited limit xs)
  All-limited limit xs h = go (is_pos limit)
    where
      go : (b : Bool) → All P (if b then take (to_nat limit) xs else xs)
      go true = All-take (to_nat limit) xs h
      go false = h

  All-select : (p : A → Bool) (xs : List A) → All P xs → All P (select p xs)
  All-select p [] h = tt
  All-select p (x ∷ xs) h = go (p x) (All-select p xs h.1)
    where
      go : (b : Bool) → All P (select p xs) → All P (if b then x ∷ select p xs else select p xs)
      go true k = (h.0, k)
      go false k = k

bound_of_increasing :
    (n : ℕ) (l : List RecordedEvent) → IncreasingFrom n l → All (λ x. n < x.global_seq) l
bound_of_increasing n [] h = tt
bound_of_increasing n (x ∷ l) h = (
  h.0,
  All-weaken (λ y (k : x.global_seq < y.global_seq). let f : n < x.global_seq = h.0 in omega arith)
      l (bound_of_increasing x.global_seq l h.1),
)

IncreasingFrom-of_le :
    (m n : ℕ) (l : List RecordedEvent) → m ≤ n → IncreasingFrom n l → IncreasingFrom m l
IncreasingFrom-of_le m n [] h k = tt
IncreasingFrom-of_le m n (x ∷ l) h k = let f : n < x.global_seq = k.0 in (omega arith, k.1)

behind-IncreasingFrom :
    (n seq : ℕ) (l : List RecordedEvent) → IncreasingFrom n l → IncreasingFrom n (behind seq l)
behind-IncreasingFrom n seq [] h = tt
behind-IncreasingFrom n seq (x ∷ l) h =
    go (ltb seq x.global_seq) (behind-IncreasingFrom x.global_seq seq l h.1)
  where
    go :
        (b : Bool)
        → IncreasingFrom x.global_seq (behind seq l)
        → IncreasingFrom n (if b then x ∷ behind seq l else behind seq l)
    go true k = (h.0, k)
    go false k =
        let f : n < x.global_seq = h.0 in
        IncreasingFrom-of_le n x.global_seq (behind seq l) (omega arith) k

module _ (P : RecordedEvent → Type 0) where
  -- Up to the last event of a non-empty prefix, an increasing list has only the prefix's events.
  last_step :
      (x : RecordedEvent) (l t : List RecordedEvent)
      → All (λ y. x.global_seq < y.global_seq) l
      → All (λ y. y.global_seq ≤ seq_of_last (last? t) → P y) l
      → All (λ y. y.global_seq ≤ seq_of_last (last? (x ∷ t)) → P y) l
  last_step x l [] bound ih =
      All-weaken {Q = λ y. y.global_seq ≤ x.global_seq → P y} (λ y f g. absurd (omega arith)) l
        bound
  last_step x l (y ∷ t) bound ih = ih

  take-covers :
      (n k : ℕ) (l : List RecordedEvent)
      → IncreasingFrom n l
      → All P (take k l)
      → All (λ y. y.global_seq ≤ seq_of_last (last? (take k l)) → P y) l
  take-covers n k [] inc h = tt
  take-covers n zero (x ∷ l) inc h =
      All-weaken {Q = λ y. y.global_seq ≤ 0 → P y} (λ y f g. absurd (omega arith)) (x ∷ l)
        (bound_of_increasing n (x ∷ l) inc)
  take-covers n (suc k) (x ∷ l) inc h = (
    λ _. h.0,
    last_step x l (take k l) (bound_of_increasing x.global_seq l inc.1)
        (take-covers x.global_seq k l inc.1 h.1),
  )

  limited-covers :
      (n : ℕ) (limit : ℤ) (l : List RecordedEvent)
      → IncreasingFrom n l
      → All P (limited limit l)
      → All (λ y. y.global_seq ≤ seq_of_last (last? (limited limit l)) → P y) l
  limited-covers n limit l inc h = go (is_pos limit) h
    where
      go :
          (b : Bool)
          → All P (if b then take (to_nat limit) l else l)
          → All
              (λ y.
                y.global_seq ≤ seq_of_last (last? (if b then take (to_nat limit) l else l)) → P y)
              l
      go true k = take-covers n (to_nat limit) l inc k
      go false k = All-weaken (λ y p _. p) l k

  behind-covers :
      (seq : ℕ) (l : List RecordedEvent)
      → All P (behind seq l)
      → All (λ y. seq < y.global_seq → P y) l
  behind-covers seq [] h = tt
  behind-covers seq (x ∷ l) h = go (ltb seq x.global_seq) refl (λ k. behind-covers seq l k) h
    where
      go :
          (b : Bool)
          → ltb seq x.global_seq ≡ b
          → (All P (behind seq l) → All (λ y. seq < y.global_seq → P y) l)
          → All P (if b then x ∷ behind seq l else behind seq l)
          → All (λ y. seq < y.global_seq → P y) (x ∷ l)
      go true e rest k = (λ _. k.0, rest k.1)
      go false e rest k = (λ f. absurd (ground arith), rest k)

-- A position that only events of the log have or precede: whatever the log grows by is behind it.
pub IsReached : List RecordedEvent → ℕ → Type 0
IsReached log seq =
    (extra : List RecordedEvent)
    → IncreasingFrom 0 (log ++ extra)
    → All (λ y. seq < y.global_seq) extra

pub IsReached-nil : IsReached [] 0
unfolding IsReached
IsReached-nil extra h = bound_of_increasing 0 extra h

pub increasing-IsReached :
    (log extra : List RecordedEvent) (seq : ℕ)
    → IsReached log seq
    → IncreasingFrom 0 (log ++ extra)
    → All (λ y. seq < y.global_seq) extra
unfolding IsReached
increasing-IsReached log extra seq h = h extra

pub IsReached-append :
    (log more : List RecordedEvent) (seq : ℕ) → IsReached log seq → IsReached (log ++ more) seq
unfolding IsReached
IsReached-append log more seq h extra inc =
    All-right (λ (y : RecordedEvent). seq < y.global_seq) more extra
      (h (more ++ extra) (subst (IncreasingFrom 0) (append_assoc log more extra) inc))

module _ (log extra : List RecordedEvent) where
  Below : RecordedEvent → Type 0
  Below x = All (λ y. x.global_seq < y.global_seq) extra

  increasing-Below : (n : ℕ) (l : List RecordedEvent) → IncreasingFrom n (l ++ extra) → All Below l
  unfolding Below
  increasing-Below n [] h = tt
  increasing-Below n (x ∷ l) h = (
    All-right (λ (y : RecordedEvent). x.global_seq < y.global_seq) l extra
        (bound_of_increasing x.global_seq (l ++ extra) h.1),
    increasing-Below x.global_seq l h.1,
  )

  last-Below :
      (x : RecordedEvent) (l : List RecordedEvent)
      → All Below (x ∷ l)
      → All (λ y. seq_of_last (last? (x ∷ l)) < y.global_seq) extra
  unfolding Below
  last-Below x [] h = h.0
  last-Below x (y ∷ l) h = last-Below y l h.1

-- The last event of a non-empty batch is in the log.
pub IsReached-batch :
    (seq : ℕ) (limit : ℤ) (log : List RecordedEvent) (x : RecordedEvent) (l : List RecordedEvent)
    → limited limit (behind seq log) ≡ x ∷ l
    → IsReached log (seq_of_last (last? (x ∷ l)))
unfolding IsReached
IsReached-batch seq limit log x l e extra inc = last-Below log extra x l (
    subst (All (Below log extra)) e (
      All-limited (Below log extra) limit (behind seq log) (
        All-select (Below log extra) (λ r. ltb seq r.global_seq) log
          (increasing-Below log extra 0 log inc))))

le_or_lt : (m n : ℕ) → (m ≤ n) ⊎ (n < m)
le_or_lt m n = elim (Bool-cases (leb m n)) [
  | inl e ↦ inl (ground arith)
  | inr e ↦ inr (ground arith)
]

-- What holds of the events up to a position and of the batch behind it holds up to the batch's
-- last event.
pub batch-covers :
    (P : RecordedEvent → Type 0) (seq : ℕ) (limit : ℤ) (log : List RecordedEvent)
    → IncreasingFrom 0 log
    → All (λ y. y.global_seq ≤ seq → P y) log
    → All P (limited limit (behind seq log))
    → All (λ y. y.global_seq ≤ seq_of_last (last? (limited limit (behind seq log))) → P y) log
batch-covers P seq limit log inc old new = join log old (
    behind-covers (λ y. y.global_seq ≤ seq_of_last (last? (limited limit (behind seq log))) → P y)
      seq log (limited-covers P 0 limit (behind seq log) (behind-IncreasingFrom 0 seq log inc) new))
  where
    top : ℕ
    top = seq_of_last (last? (limited limit (behind seq log)))

    join :
        (l : List RecordedEvent)
        → All (λ y. y.global_seq ≤ seq → P y) l
        → All (λ y. seq < y.global_seq → y.global_seq ≤ top → P y) l
        → All (λ y. y.global_seq ≤ top → P y) l
    join [] a b = tt
    join (y ∷ l) a b =
        (λ h. elim (le_or_lt y.global_seq seq) [ inl f ↦ a.0 f | inr f ↦ b.0 f h ], join l a.1 b.1)
