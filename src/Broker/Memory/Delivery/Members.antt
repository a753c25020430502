-- ===== src/Broker/Memory/Delivery/Members.antt =====
-- broker/memory.go: the members of the groups, where one of them changes or leaves.
use gohex.Prelude.{◌≡◌, ◌≢◌, sym, ◌∙◌, List, [], ◌∷◌, ◌++◌, All}
use gohex.Broker.Memory.Delivery.{Member, Distinct}

pub All-map {κ μ} :
    (P : Member → Type κ) (Q : Member → Type μ) (xs : List Member)
    → ((x : Member) → P x → Q x)
    → All P xs
    → All Q xs
All-map P Q [] f h = tt
All-map P Q (x ∷ xs) f h = (f x h.0, All-map P Q xs f h.1)

-- Every member, of a predicate that may change in the change of one.
pub All-replaced {κ} :
    (P Q : Member → Type κ) (bs cs : List Member) (x y : Member)
    → ((z : Member) → P z → Q z)
    → (P x → Q y)
    → All P (bs ++ x ∷ cs)
    → All Q (bs ++ y ∷ cs)
All-replaced P Q [] cs x y f g h = (g h.0, All-map P Q cs f h.1)
All-replaced P Q (b ∷ bs) cs x y f g h = (f b h.0, All-replaced P Q bs cs x y f g h.1)

pub All-removed {κ} :
    (P : Member → Type κ) (bs cs : List Member) (x : Member)
    → All P (bs ++ x ∷ cs)
    → All P (bs ++ cs)
All-removed P [] cs x h = h.1
All-removed P (b ∷ bs) cs x h = (h.0, All-removed P bs cs x h.1)

pub All-at {κ} :
    (P : Member → Type κ) (bs cs : List Member) (x : Member) → All P (bs ++ x ∷ cs) → P x
All-at P [] cs x h = h.0
All-at P (b ∷ bs) cs x h = All-at P bs cs x h.1

pub Distinct-replaced :
    (bs cs : List Member) (x y : Member)
    → y.key ≡ x.key
    → Distinct (bs ++ x ∷ cs)
    → Distinct (bs ++ y ∷ cs)
Distinct-replaced [] cs x y e h =
    (All-map (λ z. z.key ≢ x.key) (λ z. z.key ≢ y.key) cs (λ z ne same. ne (same ∙ e)) h.0, h.1)
Distinct-replaced (b ∷ bs) cs x y e h = (
  All-replaced (λ z. z.key ≢ b.key) (λ z. z.key ≢ b.key) bs cs x y (λ z ne. ne)
      (λ ne same. ne (sym e ∙ same)) h.0,
  Distinct-replaced bs cs x y e h.1,
)

pub Distinct-removed :
    (bs cs : List Member) (x : Member) → Distinct (bs ++ x ∷ cs) → Distinct (bs ++ cs)
Distinct-removed [] cs x h = h.1
Distinct-removed (b ∷ bs) cs x h =
    (All-removed (λ z. z.key ≢ b.key) bs cs x h.0, Distinct-removed bs cs x h.1)

All-apart {κ} :
    (P Q : Member → Type κ) (zs : List Member) (x : Member)
    → All (λ (z : Member). z.key ≢ x.key) zs
    → ((z : Member) → z.key ≢ x.key → P z → Q z)
    → All P zs
    → All Q zs
All-apart P Q [] x n f h = tt
All-apart P Q (z ∷ zs) x n f h = (f z n.0 h.0, All-apart P Q zs x n.1 f h.1)

-- The others have other keys, so that what one of them does may change what holds of its key alone.
pub All-rest {κ} :
    (P Q : Member → Type κ) (bs cs : List Member) (x : Member)
    → Distinct (bs ++ x ∷ cs)
    → ((z : Member) → z.key ≢ x.key → P z → Q z)
    → All P (bs ++ x ∷ cs)
    → All Q (bs ++ cs)
All-rest P Q [] cs x d f h = All-apart P Q cs x d.0 f h.1
All-rest P Q (b ∷ bs) cs x d f h = (
  f b (λ same. All-at (λ z. z.key ≢ b.key) bs cs x d.0 (sym same)) h.0,
  All-rest P Q bs cs x d.1 f h.1,
)

pub All-others {κ} :
    (P Q : Member → Type κ) (bs cs : List Member) (x y : Member)
    → Distinct (bs ++ x ∷ cs)
    → ((z : Member) → z.key ≢ x.key → P z → Q z)
    → Q y
    → All P (bs ++ x ∷ cs)
    → All Q (bs ++ y ∷ cs)
All-others P Q [] cs x y d f q h = (q, All-apart P Q cs x d.0 f h.1)
All-others P Q (b ∷ bs) cs x y d f q h = (
  f b (λ same. All-at (λ z. z.key ≢ b.key) bs cs x d.0 (sym same)) h.0,
  All-others P Q bs cs x y d.1 f q h.1,
)
