-- ===== src/EventStore/Memory/Reading.antt =====
-- eventstore/memory.go: what Load, ReadAll and Head return.
use gohex.Prelude.{
  ℕ, zero, suc, ◌+◌, ◌-◌, ◌<◌, ◌≡◌, refl, ap, sym, ◌∙◌, inl, inr, true, false, some, List, [], ◌∷◌,
  ◌++◌, append_assoc, arith, length, length-append, select, take, drop, drop-nil, take-nil,
  get_elem?, get_elem?-append_right, last?, ltb, leb, eqb, ℤ, pos, negsuc, is_pos, Bool-cases,
}
use gohex.Prelude.EqClass.{◌==◌}
use gohex.Kernel.Result.{Result, ok}
use gohex.EventStore.Types.{StreamId, stream_eq, RecordedEvent}
use gohex.EventStore.Contract.{
  events_of, behind, limited, VersionsFrom, IncreasingFrom, seq_of_last,
}
use gohex.EventStore.Memory.{MemoryStore, last_seq, load_loop, load, read_loop, read_all, head}
use gohex.EventStore.Memory.Invariant.{IsValid, NumberedFrom, positions}

abbrev pub newer : ℕ → List RecordedEvent → List RecordedEvent
newer after l = select (λ r. ltb after r.version) l

get_elem?-middle :
    (before l : List RecordedEvent) (r : RecordedEvent)
    → get_elem? (before ++ r ∷ l) (length before) ≡ some r
get_elem?-middle before l r =
    let e : length before + 0 ≡ length before = omega arith in
    rw e at (get_elem?-append_right before (r ∷ l) 0)

-- The loop over a stream's indexes finds an event at each.
load_loop-positions :
    (after : ℕ) (sid : StreamId) (all before l : List RecordedEvent) (i : ℕ)
    → all ≡ before ++ l
    → i ≡ length before
    → load_loop all after (positions sid i l) ≡ ok (newer after (events_of sid l))
unfolding load_loop
load_loop-positions after sid all before [] i e k = refl
load_loop-positions after sid all before (r ∷ l) i e k =
    let ih =
      load_loop-positions after sid all (before ++ r ∷ []) l (i + 1)
        (e ∙ sym (append_assoc before (r ∷ []) l))
        (omega (arith, k, length-append before (r ∷ []))) in
    let found : get_elem? all i ≡ some r = rw (e, k) (get_elem?-middle before l r) in
    elim (Bool-cases (r.stream == sid)) [
      | inl same ↦ rw same (rw (found, load_loop) (rw ih))
      | inr other ↦ rw other ih
    ]

pub newer-eq-drop :
    (after n : ℕ) (l : List RecordedEvent) → VersionsFrom n l → newer after l ≡ drop (after - n) l
newer-eq-drop after n [] v = sym (drop-nil (after - n))
newer-eq-drop after n (r ∷ l) v =
    let ih = newer-eq-drop after (n + 1) l v.1 in
    elim (Bool-cases (leb after n)) [
      | inl e ↦
          let here : after - n ≡ 0 = ground arith in
          let next : after - (n + 1) ≡ 0 = ground arith in
          let is_newer : ltb after r.version ≡ true = ground arith in
          rw (here, is_newer) (ap (λ k. r ∷ k) (rw next at ih))
      | inr e ↦
          let here : after - n ≡ suc (after - (n + 1)) = ground arith in
          let is_older : ltb after r.version ≡ false = ground arith in rw (here, is_older) ih
    ]

read_loop_unlimited :
    (after : ℕ) (limit : ℤ) (n : ℕ) (l : List RecordedEvent)
    → is_pos limit ≡ false
    → read_loop after limit n l ≡ behind after l
unfolding read_loop
read_loop_unlimited after limit n [] h = refl
read_loop_unlimited after limit n (r ∷ l) h =
    ground (arith, read_loop_unlimited after limit n l, read_loop_unlimited after limit (n + 1) l)

read_loop_limited :
    (after m n : ℕ) (l : List RecordedEvent)
    → n < suc m
    → read_loop after (pos (suc m)) n l ≡ take (suc m - n) (behind after l)
unfolding read_loop
read_loop_limited after m n [] h = sym (take-nil (suc m - n))
read_loop_limited after m n (r ∷ l) h = elim (Bool-cases (leb r.global_seq after)) [
  | inl old ↦
      let is_old : ltb after r.global_seq ≡ false = ground arith in
      rw (old, is_old) (read_loop_limited after m n l h)
  | inr new ↦
      let is_new : ltb after r.global_seq ≡ true = ground arith in
      elim (Bool-cases (eqb (n + 1) (suc m))) [
        | inl full ↦ let left : suc m - n ≡ suc zero = ground arith in rw (new, is_new, full, left)
        | inr room ↦
            let left : suc m - n ≡ suc (suc m - (n + 1)) = ground arith in
            rw (new, is_new, room, left)
              (ap (λ k. r ∷ k) (read_loop_limited after m (n + 1) l (ground arith)))
      ]
]

pub last?_cons :
    (r : RecordedEvent) (l : List RecordedEvent) → (x : RecordedEvent) × (last? (r ∷ l) ≡ some x)
last?_cons r [] = (r, refl)
last?_cons r (x ∷ l) = last?_cons x l

pub last_seq_of_cons :
    (r : RecordedEvent) (l : List RecordedEvent)
    → last_seq (r ∷ l) ≡ ok (seq_of_last (last? (r ∷ l)))
unfolding last_seq
last_seq_of_cons r l = let p = last?_cons r l in rw (p.1, last_seq)

-- Load returns the events of the stream behind the version, in version order; no index is out of
-- range.
pub load-eq-drop :
    (s : MemoryStore) (sid : StreamId) (after : ℕ)
    → IsValid s
    → load s sid after ≡ ok (drop after (events_of sid s.all))
unfolding load
load-eq-drop s sid after v =
    let e : after - 0 ≡ after = omega arith in
    rw (v.index sid) (
      load_loop-positions after sid s.all [] s.all 0 refl refl
      ∙ ap ok (rw e at (newer-eq-drop after 0 (events_of sid s.all) (v.versions sid))))

-- ReadAll returns the events behind the position in global order, at most `limit` of them if the
-- limit is positive.
pub read_all-eq-behind :
    (s : MemoryStore) (after : ℕ) (limit : ℤ)
    → read_all s after limit ≡ ok (limited limit (behind after s.all))
unfolding read_all
read_all-eq-behind s after (pos zero) = ap ok (read_loop_unlimited after (pos zero) 0 s.all refl)
read_all-eq-behind s after (pos (suc m)) =
    let e : suc m - 0 ≡ suc m = omega arith in
    ap ok (rw e at (read_loop_limited after m 0 s.all (omega arith)))
read_all-eq-behind s after (negsuc m) = ap ok (read_loop_unlimited after (negsuc m) 0 s.all refl)

pub head-eq-last : (s : MemoryStore) → head s ≡ ok (seq_of_last (last? s.all))
unfolding head
head-eq-last s = go s.all
  where
    go :
        (l : List RecordedEvent)
        → elim l as (λ _. Result ℕ) [ [] ↦ ok 0 | r ∷ rs ↦ last_seq (r ∷ rs) ]
          ≡ ok (seq_of_last (last? l))
    go [] = refl
    go (r ∷ rs) = last_seq_of_cons r rs

pub IncreasingFrom-of_NumberedFrom :
    (n : ℕ) (l : List RecordedEvent) → NumberedFrom n l → IncreasingFrom n l
IncreasingFrom-of_NumberedFrom n [] h = tt
IncreasingFrom-of_NumberedFrom n (r ∷ l) h =
    (omega arith, rw h.0 (IncreasingFrom-of_NumberedFrom (n + 1) l h.1))
