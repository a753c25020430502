-- ===== src/Broker/Memory/Delivery.antt =====
-- broker/memory.go: the broker and its members as a system, with every order of their steps.
pub mod Members
pub mod Calls
pub mod Order
use gohex.Prelude.{
  ℕ, zero, suc, ◌+◌, ◌≤◌, ◌<◌, ◌≡◌, refl, ap, sym, ◌∙◌, inl, inr, true, Option, none, some, List,
  [], All, ◌≢◌, ◌∷◌, ◌++◌, append-nil, arith, length, get_elem?, take, ltb, if◌then◌else◌,
  Bool-cases, length-append, get_elem?-append_left,
}
use gohex.Prelude.EqClass.{◌==◌}
use gohex.Prelude.Map.{get, get-put}
use gohex.Prelude.Text.{Text, text_eq, text_beq_iff}
use gohex.Kernel.Errors.{Error}
use gohex.Broker.Message.{Message}
use gohex.Broker.Memory.{
  GroupKey, group_eq, group_beq_iff, MemoryBroker, new_memory_broker, log_of, offset_of, is_active,
  publish, join, leave, next_message, advance,
}

-- A call of Subscribe that is in its loop: `handling` holds the offset and the message that its
-- handler was called with.
pub record Member : Type 0 where
  pub key : GroupKey
  pub handling : Option (ℕ × Message)

-- The broker with the calls of Subscribe that run; `acked` holds the messages for which the handlers
-- of a key returned nil, in order.
pub record System : Type 0 where
  pub broker : MemoryBroker
  pub members : List Member
  pub acked : GroupKey → List Message

abbrev pub at_key {ℓ} : {A : Type ℓ} → (GroupKey → A) → GroupKey → A → GroupKey → A
at_key f key v k = if key == k then v else f k

abbrev pub idle : System
idle = record { broker = new_memory_broker; members = []; acked = λ k. [] }

abbrev pub busy : Member → ℕ → Message → Member
busy x offset m = record x { handling = some (offset, m) }

abbrev pub free : Member → Member
free x = record x { handling = none }

-- What may happen next. Anybody may call Subscribe; a call that the broker refuses returns. Each of
-- the members on its own calls its handler with the message that its loop read; it moves the offset
-- when the handler returns nil, and reads again otherwise. Its context may end when its handler does
-- not run.
pub data Step : System → System → Type 0 where
  publishes :
      (s : System) (topic : Text) (msgs : List Message)
      → Step s (record s { broker = (publish s.broker topic msgs).0 })
  joins :
      (s : System) (key : GroupKey)
      → (join s.broker key).1 ≡ none
      → Step s (record s {
        broker = (join s.broker key).0;
        members = record { key = key; handling = none } ∷ s.members;
      })
  turned_away :
      (s : System) (key : GroupKey) (e : Error)
      → (join s.broker key).1 ≡ some e
      → Step s (record s { broker = (join s.broker key).0 })
  delivers :
      (s : System) (before after : List Member) (x : Member) (offset : ℕ) (m : Message)
      → s.members ≡ before ++ x ∷ after
      → x.handling ≡ none
      → next_message s.broker x.key ≡ (offset, some m)
      → Step s (record s { members = before ++ busy x offset m ∷ after })
  refuses :
      (s : System) (before after : List Member) (x : Member) (offset : ℕ) (m : Message)
      → s.members ≡ before ++ x ∷ after
      → x.handling ≡ some (offset, m)
      → Step s (record s { members = before ++ free x ∷ after })
  acknowledges :
      (s : System) (before after : List Member) (x : Member) (offset : ℕ) (m : Message)
      → s.members ≡ before ++ x ∷ after
      → x.handling ≡ some (offset, m)
      → Step s (record {
        broker = advance s.broker x.key offset;
        members = before ++ free x ∷ after;
        acked = at_key s.acked x.key (s.acked x.key ++ m ∷ []);
      })
  leaves :
      (s : System) (before after : List Member) (x : Member)
      → s.members ≡ before ++ x ∷ after
      → x.handling ≡ none
      → Step s (record s { broker = leave s.broker x.key; members = before ++ after })

pub data Reach (s : System) : System → Type 0 where
  here : Reach s s
  next : {t u : System} → Reach s t → Step t u → Reach s u

-- No two members have the same key.
abbrev pub Distinct : List Member → Type 0
Distinct [] = Unit
Distinct (x ∷ xs) = All (λ (y : Member). y.key ≢ x.key) xs × Distinct xs

-- What a member handles is the message at its group's offset.
abbrev pub AtOffset : MemoryBroker → Member → Type 0
AtOffset b x =
    (offset : ℕ) (m : Message)
    → x.handling ≡ some (offset, m)
    → (offset ≡ offset_of b x.key) × (get_elem? (log_of b x.key.topic) offset ≡ some m)

-- The messages acknowledged for a key are those before its offset, at most one member has the key,
-- which the broker knows as active, and the message that it is handling is the one at the offset.
pub record IsOrderly (s : System) : Type 0 where
  pub acked_prefix :
      (k : GroupKey) → s.acked k ≡ take (offset_of s.broker k) (log_of s.broker k.topic)
  pub offset_bound : (k : GroupKey) → offset_of s.broker k ≤ length (log_of s.broker k.topic)
  pub exclusive : Distinct s.members
  pub active : All (λ (x : Member). is_active s.broker x.key ≡ true) s.members
  pub in_flight : All (AtOffset s.broker) s.members

log_of-publish :
    (b : MemoryBroker) (topic other : Text) (msgs : List Message)
    → log_of (publish b topic msgs).0 other
      ≡ (if topic == other then log_of b topic ++ msgs else log_of b other)
unfolding publish log_of
log_of-publish b topic other msgs =
    ground (arith, get-put b.topics topic other (log_of b topic ++ msgs))

offset_of-advance :
    (b : MemoryBroker) (key other : GroupKey) (offset : ℕ)
    → offset_of (advance b key offset) other
      ≡ (if key == other then offset + 1 else offset_of b other)
unfolding advance offset_of
offset_of-advance b key other offset = ground (arith, get-put b.offsets key other (offset + 1))

take-append_of_le {ℓ} :
    {A : Type ℓ} (n : ℕ) (xs ys : List A) → n ≤ length xs → take n (xs ++ ys) ≡ take n xs
take-append_of_le zero xs ys h = refl
take-append_of_le (suc n) [] ys h = absurd (omega arith)
take-append_of_le (suc n) (x ∷ xs) ys h = ap (λ l. x ∷ l) (take-append_of_le n xs ys (omega arith))

take-suc {ℓ} :
    {A : Type ℓ} (n : ℕ) (xs : List A) (x : A)
    → get_elem? xs n ≡ some x
    → (take (n + 1) xs ≡ take n xs ++ x ∷ []) × (n + 1 ≤ length xs)
take-suc n [] x h = cc
take-suc zero (y ∷ xs) x h = ground arith
take-suc (suc n) (y ∷ xs) x h =
    let p = take-suc n xs x h in
    let e : suc n + 1 ≡ suc (n + 1) = omega arith in (rw e (ap (λ l. y ∷ l) p.0), omega arith)

lt_of_get_elem? {ℓ} :
    {A : Type ℓ} (n : ℕ) (xs : List A) (x : A) → get_elem? xs n ≡ some x → n < length xs
lt_of_get_elem? n [] x h = cc
lt_of_get_elem? zero (y ∷ xs) x h = omega arith
lt_of_get_elem? (suc n) (y ∷ xs) x h = omega (arith, lt_of_get_elem? n xs x h)
