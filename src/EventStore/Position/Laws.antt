-- ===== src/EventStore/Position/Laws.antt =====
-- eventstore/position.go: what a Position reports of the appends under its context.
use gohex.Prelude.{
  ◌∙◌, All, Bool-cases, inl, inr, get_elem?-append_right, ℕ, zero, suc, ◌+◌, ◌≤◌, ◌<◌, ◌≡◌, ◌≢◌,
  refl, ap, some, List, [], ◌∷◌, ◌++◌, arith, length, get_elem?, ltb, get_elem?-append_left,
  if◌then◌else◌,
}
use mathlib.Core.List.{Memᴰ}
use gohex.EventStore.Position.{
  Context, Positions, record_seq, modify_at, capture_position, record_position,
}

length-modify_at :
    (i : ℕ) (f : ℕ → ℕ) (heap : Positions) → length (modify_at i f heap) ≡ length heap
length-modify_at i f [] = refl
length-modify_at zero f (x ∷ heap) = refl
length-modify_at (suc i) f (x ∷ heap) = ap suc (length-modify_at i f heap)

get_elem?-modify_at_ne :
    (i j : ℕ) (f : ℕ → ℕ) (heap : Positions)
    → i ≢ j
    → get_elem? (modify_at i f heap) j ≡ get_elem? heap j
get_elem?-modify_at_ne i j f [] h = refl
get_elem?-modify_at_ne zero zero f (x ∷ heap) h = absurd (h refl)
get_elem?-modify_at_ne zero (suc j) f (x ∷ heap) h = refl
get_elem?-modify_at_ne (suc i) zero f (x ∷ heap) h = refl
get_elem?-modify_at_ne (suc i) (suc j) f (x ∷ heap) h =
    get_elem?-modify_at_ne i j f heap (λ e. h (ap suc e))

get_elem?-modify_at_self :
    (i c : ℕ) (f : ℕ → ℕ) (heap : Positions)
    → get_elem? heap i ≡ some c
    → get_elem? (modify_at i f heap) i ≡ some (f c)
get_elem?-modify_at_self i c f [] h = cc
get_elem?-modify_at_self zero c f (x ∷ heap) h = ground arith
get_elem?-modify_at_self (suc i) c f (x ∷ heap) h = get_elem?-modify_at_self i c f heap h

-- The saves under one context, each reporting the position that its append reached.
pub record_all : Context → List ℕ → Positions → Positions
record_all ctx [] heap = heap
record_all ctx (seq ∷ seqs) heap = record_all ctx seqs (record_position ctx seq heap)

pub highest : ℕ → List ℕ → ℕ
unfolding record_seq
highest c [] = c
highest c (seq ∷ seqs) = highest (record_seq c seq) seqs

-- The number is one of the list's, and no other of the list is greater.
pub record IsMaximum (m : ℕ) (l : List ℕ) : Type 0 where
  pub among : Memᴰ m l
  pub bounds : All (λ x. x ≤ m) l

highest-ge : (c : ℕ) (seqs : List ℕ) → c ≤ highest c seqs
unfolding highest
highest-ge c [] = omega arith
highest-ge c (seq ∷ seqs) = ground (arith, highest-ge (if ltb c seq then seq else c) seqs)

highest-bounds : (c : ℕ) (seqs : List ℕ) → All (λ x. x ≤ highest c seqs) seqs
unfolding highest
highest-bounds c [] = tt
highest-bounds c (seq ∷ seqs) = (
  ground (arith, highest-ge (if ltb c seq then seq else c) seqs),
  highest-bounds (if ltb c seq then seq else c) seqs,
)

highest-among : (c : ℕ) (seqs : List ℕ) → Memᴰ (highest c seqs) (c ∷ seqs)
unfolding highest
highest-among c [] = Memᴰ.head refl
highest-among c (seq ∷ seqs) = elim (Bool-cases (ltb c seq)) [
  | inl e ↦ rw e (Memᴰ.tail (highest-among seq seqs))
  | inr e ↦ rw e (skip (highest c seqs) c seq seqs (highest-among c seqs))
]
  where
    skip : (m c s : ℕ) (l : List ℕ) → Memᴰ m (c ∷ l) → Memᴰ m (c ∷ s ∷ l)
    skip m c s l (Memᴰ.head e) = Memᴰ.head e
    skip m c s l (Memᴰ.tail t) = Memᴰ.tail (Memᴰ.tail t)

record_position_self :
    (ctx : Context) (p c seq : ℕ) (heap : Positions)
    → ctx.position ≡ some p
    → get_elem? heap p ≡ some c
    → get_elem? (record_position ctx seq heap) p ≡ some (record_seq c seq)
unfolding record_position
record_position_self ctx p c seq heap at h =
    ground (arith, get_elem?-modify_at_self p c (λ k. record_seq k seq) heap h)

record_position_ne :
    (ctx : Context) (p q seq : ℕ) (heap : Positions)
    → ctx.position ≡ some p
    → p ≢ q
    → get_elem? (record_position ctx seq heap) q ≡ get_elem? heap q
unfolding record_position
record_position_ne ctx p q seq heap at h =
    ground (arith, get_elem?-modify_at_ne p q (λ k. record_seq k seq) heap h)

record_all_self :
    (ctx : Context) (p c : ℕ) (seqs : List ℕ) (heap : Positions)
    → ctx.position ≡ some p
    → get_elem? heap p ≡ some c
    → get_elem? (record_all ctx seqs heap) p ≡ some (highest c seqs)
unfolding record_all highest
record_all_self ctx p c [] heap at h = h
record_all_self ctx p c (seq ∷ seqs) heap at h =
    record_all_self ctx p (record_seq c seq) seqs (record_position ctx seq heap) at
      (record_position_self ctx p c seq heap at h)

record_all_ne :
    (ctx : Context) (p q : ℕ) (seqs : List ℕ) (heap : Positions)
    → ctx.position ≡ some p
    → p ≢ q
    → get_elem? (record_all ctx seqs heap) q ≡ get_elem? heap q
unfolding record_all
record_all_ne ctx p q [] heap at h = refl
record_all_ne ctx p q (seq ∷ seqs) heap at h =
    record_all_ne ctx p q seqs (record_position ctx seq heap) at h
    ∙ record_position_ne ctx p q seq heap at h

-- A fresh Position reports the greatest of the positions recorded under its context, 0 if there are
-- none. It shadows the Position of the outer context: no older Position is changed.
pub capture_then_record :
    (ctx : Context) (heap : Positions) (seqs : List ℕ)
    → let (inner, p, heap') = capture_position ctx heap in
      ((m : ℕ) × (get_elem? (record_all inner seqs heap') p ≡ some m) × IsMaximum m (0 ∷ seqs))
      × ((q : ℕ) → q < length heap → get_elem? (record_all inner seqs heap') q ≡ get_elem? heap q)
unfolding capture_position
capture_then_record ctx heap seqs =
    let inner : Context = record ctx { position = some (length heap) } in
    let p = length heap in
    let fresh : get_elem? (heap ++ 0 ∷ []) p ≡ some 0 =
      let e : length heap + 0 ≡ length heap = omega arith in
      rw e at (get_elem?-append_right heap (0 ∷ []) 0) in
    (
      (
        highest 0 seqs,
        record_all_self inner p 0 seqs (heap ++ 0 ∷ []) refl fresh,
        record {
          among = highest-among 0 seqs;
          bounds = (highest-ge 0 seqs, highest-bounds 0 seqs);
        },
      ),
      λ q h.
          record_all_ne inner p q seqs (heap ++ 0 ∷ []) refl (omega arith)
          ∙ get_elem?-append_left heap (0 ∷ []) q h,
    )
