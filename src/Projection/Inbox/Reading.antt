-- ===== src/Projection/Inbox/Reading.antt =====
-- projection/inbox.go: the loop of MemoryInbox.ReadAll, against the promises of the port.
use gohex.Prelude.{
  ℕ, zero, suc, ◌+◌, ◌≡◌, refl, ap, inl, inr, true, false, List, [], ◌∷◌, ℤ, pos, negsuc, is_pos,
  to_nat, take, ltb, leb, eqb, Bool-cases, arith, if◌then◌else◌, ◌&&◌,
}
use gohex.Kernel.Result.{ok}
use gohex.Projection.Inbox.{InboxMessage, MemoryInbox, memory_inbox, read_inbox, read_inbox_loop}
use gohex.Projection.Runners.Log.{behind_seq, Ascending, InboxContract}

read_loop-take :
    (after : ℕ) (limit : ℤ) (n k : ℕ) (l : List InboxMessage)
    → is_pos limit ≡ true
    → to_nat limit ≡ n + suc k
    → read_inbox_loop after limit n l ≡ take (suc k) (behind_seq after l)
unfolding read_inbox_loop
read_loop-take after limit n k [] p e = refl
read_loop-take after limit n k (m ∷ ms) p e = elim (Bool-cases (leb m.seq after)) [
  | inl old ↦
      let skipped : ltb after m.seq ≡ false = ground (arith, old) in
      rw (old, skipped) (read_loop-take after limit n k ms p e)
  | inr new ↦
      let taken : ltb after m.seq ≡ true = ground (arith, new) in
      rw (new, taken, p) (more k e (λ j h. read_loop-take after limit (n + 1) j ms p h))
]
  where
    more :
        (k : ℕ)
        → to_nat limit ≡ n + suc k
        → ((j : ℕ)
            → to_nat limit ≡ n + 1 + suc j
            → read_inbox_loop after limit (n + 1) ms ≡ take (suc j) (behind_seq after ms))
        → (if true && eqb (n + 1) (to_nat limit)
            then m ∷ []
            else m ∷ read_inbox_loop after limit (n + 1) ms)
          ≡ m ∷ take k (behind_seq after ms)
    more zero e ih =
        let full : eqb (n + 1) (to_nat limit) ≡ true = ground (arith, e) in rw full refl
    more (suc j) e ih =
        let room : eqb (n + 1) (to_nat limit) ≡ false = ground (arith, e) in
        rw room (ap (λ k. m ∷ k) (ih j (omega (arith, e))))

read_loop-unlimited :
    (after : ℕ) (limit : ℤ) (n : ℕ) (l : List InboxMessage)
    → is_pos limit ≡ false
    → read_inbox_loop after limit n l ≡ behind_seq after l
unfolding read_inbox_loop
read_loop-unlimited after limit n [] p = refl
read_loop-unlimited after limit n (m ∷ ms) p = elim (Bool-cases (leb m.seq after)) [
  | inl old ↦
      let skipped : ltb after m.seq ≡ false = ground (arith, old) in
      rw (old, skipped) (read_loop-unlimited after limit n ms p)
  | inr new ↦
      let taken : ltb after m.seq ≡ true = ground (arith, new) in
      rw (new, taken, p) (ap (λ k. m ∷ k) (read_loop-unlimited after limit (n + 1) ms p))
]

-- The in-memory inbox keeps the promises of the port where its positions grow, as those that
-- `write_all-first_of_each` gives do.
pub memory_inbox-Contract :
    InboxContract memory_inbox (λ i. Ascending 0 i.msgs) (λ (i : MemoryInbox). i.msgs)
unfolding read_inbox
memory_inbox-Contract = record {
  ascending = λ i up. up;
  read_all_lem = λ i after limit up. ap (λ l. ok l) (reads after limit i.msgs);
}
  where
    reads :
        (after : ℕ) (limit : ℤ) (l : List InboxMessage)
        → read_inbox_loop after limit 0 l
          ≡ (if is_pos limit then take (to_nat limit) (behind_seq after l) else behind_seq after l)
    reads after (pos zero) l = read_loop-unlimited after (pos zero) 0 l refl
    reads after (pos (suc k)) l = read_loop-take after (pos (suc k)) 0 k l refl (omega arith)
    reads after (negsuc k) l = read_loop-unlimited after (negsuc k) 0 l refl
