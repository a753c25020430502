-- ===== src/Projection/Runners/Log.antt =====
-- projection/inbox.go: what the comments of the port Inbox promise of ReadAll, and the batches that a
-- reader makes of it.
use gohex.Prelude.{
  ℕ, zero, suc, ◌<◌, ◌≤◌, ◌≡◌, refl, sym, subst, ap, ◌∙◌, inl, inr, true, false, List, [], ◌∷◌,
  ◌++◌, append-nil, ℤ, is_pos, to_nat, take, drop, select, last?, ltb, Bool-cases, arith,
}
use gohex.Kernel.Result.{ok}
use gohex.EventStore.Contract.{limited}
use gohex.Projection.Inbox.{Inbox, InboxMessage}
use gohex.Projection.Runners.{seq_of_last_message}

-- The messages behind a position.
abbrev pub behind_seq : ℕ → List InboxMessage → List InboxMessage
behind_seq after l = select (λ (m : InboxMessage). ltb after m.seq) l

-- Positions grow strictly, from a bound on.
abbrev pub Ascending : ℕ → List InboxMessage → Type 0
Ascending n [] = Unit
Ascending n (m ∷ ms) = (n < m.seq) × Ascending m.seq ms

-- The positions of an inbox grow, and ReadAll returns the messages behind a position, in order.
pub record InboxContract {N : Type 0} (inbox : Inbox N) (IsValid : N → Type 0)
    (messages : N → List InboxMessage) : Type 0 where
  pub ascending : (n : N) → IsValid n → Ascending 0 (messages n)
  pub read_all_lem :
      (n : N) (after : ℕ) (limit : ℤ)
      → IsValid n
      → inbox.read_all n after limit ≡ ok (limited limit (behind_seq after (messages n)))

behind_seq-all : (n lo : ℕ) (l : List InboxMessage) → lo ≤ n → Ascending n l → behind_seq lo l ≡ l
behind_seq-all n lo [] le h = refl
behind_seq-all n lo (m ∷ ms) le h =
    let new : ltb lo m.seq ≡ true = ground (arith, le, h.0) in
    rw new (ap (λ k. m ∷ k) (behind_seq-all m.seq lo ms (omega (arith, le, h.0)) h.1))

behind_seq-twice :
    (lo hi : ℕ) (l : List InboxMessage)
    → lo ≤ hi
    → behind_seq hi (behind_seq lo l) ≡ behind_seq hi l
behind_seq-twice lo hi [] le = refl
behind_seq-twice lo hi (m ∷ ms) le = elim (Bool-cases (ltb lo m.seq)) [
  | inl new ↦ rw new (elim (Bool-cases (ltb hi m.seq)) [
    | inl above ↦ rw above (ap (λ k. m ∷ k) (behind_seq-twice lo hi ms le))
    | inr below ↦ rw below (behind_seq-twice lo hi ms le)
  ])
  | inr old ↦
      let below : ltb hi m.seq ≡ false = ground (arith, le, old) in
      rw (old, below) (behind_seq-twice lo hi ms le)
]

Ascending-behind_seq :
    (n lo : ℕ) (l : List InboxMessage) → Ascending n l → Ascending lo (behind_seq lo l)
Ascending-behind_seq n lo [] h = tt
Ascending-behind_seq n lo (m ∷ ms) h = elim (Bool-cases (ltb lo m.seq)) [
  | inl new ↦
      let above : lo < m.seq = ground (arith, new) in
      rw (new, behind_seq-all m.seq lo ms (omega (arith, above)) h.1) (above, h.1)
  | inr old ↦ rw old (Ascending-behind_seq m.seq lo ms h.1)
]

-- Behind the last message of a batch stands the rest.
behind_last :
    (n : ℕ) (x : InboxMessage) (xs rest : List InboxMessage)
    → Ascending n ((x ∷ xs) ++ rest)
    → (n < seq_of_last_message (last? (x ∷ xs)))
      × (behind_seq (seq_of_last_message (last? (x ∷ xs))) ((x ∷ xs) ++ rest) ≡ rest)
behind_last n x [] rest h =
    let own : ltb x.seq x.seq ≡ false = ground arith in
    (h.0, rw own (behind_seq-all x.seq x.seq rest (omega arith) h.1))
behind_last n x (y ∷ ys) rest h =
    let (above, e) = behind_last x.seq y ys rest h.1 in
    let passed : ltb (seq_of_last_message (last? (y ∷ ys))) x.seq ≡ false = ground (arith, above) in
    (omega (arith, h.0, above), rw passed e)

pub behind_batch :
    (seq : ℕ) (all : List InboxMessage) (x : InboxMessage) (xs rest : List InboxMessage)
    → Ascending 0 all
    → behind_seq seq all ≡ (x ∷ xs) ++ rest
    → behind_seq (seq_of_last_message (last? (x ∷ xs))) all ≡ rest
behind_batch seq all x xs rest up h =
    let hi = seq_of_last_message (last? (x ∷ xs)) in
    let (above, e) =
      behind_last seq x xs rest (subst (Ascending seq) h (Ascending-behind_seq 0 seq all up)) in
    sym (behind_seq-twice seq hi all (omega (arith, above))) ∙ ap (behind_seq hi) h ∙ e

take-drop : (n : ℕ) (l : List InboxMessage) → l ≡ take n l ++ drop n l
take-drop zero l = refl
take-drop (suc n) [] = refl
take-drop (suc n) (x ∷ l) = ap (λ k. x ∷ k) (take-drop n l)

-- A limit takes a prefix.
pub limited-prefix :
    (limit : ℤ) (l : List InboxMessage) → (rest : List InboxMessage) × (l ≡ limited limit l ++ rest)
limited-prefix limit l = elim (Bool-cases (is_pos limit)) [
  | inl some_limit ↦ (drop (to_nat limit) l, rw some_limit (take-drop (to_nat limit) l))
  | inr no_limit ↦ ([], rw no_limit (sym (append-nil l)))
]
