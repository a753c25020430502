-- ===== src/Relay/Publishing.antt =====
-- relay/relay.go: what publishing a batch leaves with the broker.
use gohex.Prelude.{
  ℕ, zero, suc, ◌≡◌, refl, ap, subst, inl, inr, Bool, true, false, Option, none, some, List, [],
  ◌∷◌, if◌then◌else◌, Bool-cases, All,
}
use gohex.Prelude.EqClass.{◌==◌}
use gohex.Prelude.Text.{Text, text_eq, text_beq_iff}
use gohex.Kernel.Errors.{Error}
use gohex.Broker.Message.{Message, Publisher}
use gohex.Relay.{
  Relay, Groups, messages_of, after_publish, publish_with_retry, after_topic, publish_topics,
}
use gohex.Relay.Grouping.{has_topic}

-- What a nil return of Publish promises: the broker has the messages, and keeps them.
pub record Accepts {B : Type 0} (p : Publisher B) (Has : B → Text → Message → Type 0) : Type 0 where
  pub accepts :
      (b b' : B) (t : Text) (ms : List Message) → p.publish b t ms ≡ (b', none) → All (Has b' t) ms
  pub keeps :
      (b : B) (t u : Text) (ms : List Message) (m : Message)
      → Has b u m
      → Has (p.publish b t ms).0 u m

module _ {A : Type 0} {P Q : A → Type 0} where
  pub All-weaken : ((x : A) → P x → Q x) → (xs : List A) → All P xs → All Q xs
  All-weaken f [] h = tt
  All-weaken f (x ∷ xs) h = (f x h.0, All-weaken f xs h.1)

module _ {B : Type 0} (Has : B → Text → Message → Type 0) where
  after_publish-keeps :
      (left : ℕ) (again : B → B × Option ℕ) (o : B × Option Error) (u : Text) (m : Message)
      → ((b : B) → Has b u m → Has (again b).0 u m)
      → Has o.0 u m
      → Has (after_publish left again o).0 u m
  after_publish-keeps left again (b, none) u m f h = h
  after_publish-keeps left again (b, some x) u m f h = f b h

  -- An attempt that was accepted, or a retry that was.
  after_publish-accepts :
      (left : ℕ) (again : B → B × Option ℕ) (o : B × Option Error) (t : Text) (ms : List Message)
      (b' : B) (rest : ℕ)
      → (o.1 ≡ none → All (Has o.0 t) ms)
      → ((b : B) → again b ≡ (b', some rest) → All (Has b' t) ms)
      → after_publish left again o ≡ (b', some rest)
      → All (Has b' t) ms
  after_publish-accepts left again (b, none) t ms b' rest here later e =
      subst (λ x. All (Has x t) ms) (ap (λ (y : B × Option ℕ). y.0) e) (here refl)
  after_publish-accepts left again (b, some x) t ms b' rest here later e = later b e

module _ {B : Type 0} {Has : B → Text → Message → Type 0} (p : Publisher B)
    (laws : Accepts p Has) where
  retry-keeps :
      (t : Text) (ms : List Message) (waits : ℕ) (b : B) (u : Text) (m : Message)
      → Has b u m
      → Has (publish_with_retry p t ms waits b).0 u m
  unfolding publish_with_retry
  retry-keeps t ms zero b u m h =
      after_publish-keeps Has zero (λ b'. (b', none)) (p.publish b t ms) u m (λ b1 k. k)
        (laws.keeps b t u ms m h)
  retry-keeps t ms (suc waits) b u m h =
      after_publish-keeps Has (suc waits) (λ b'. publish_with_retry p t ms waits b')
        (p.publish b t ms) u m (λ b1 k. retry-keeps t ms waits b1 u m k) (laws.keeps b t u ms m h)

  accepted-now :
      (b : B) (t : Text) (ms : List Message)
      → (p.publish b t ms).1 ≡ none
      → All (Has (p.publish b t ms).0 t) ms
  accepted-now b t ms e =
      laws.accepts b (p.publish b t ms).0 t ms (ap (λ x. ((p.publish b t ms).0, x)) e)

  retry-accepts :
      (t : Text) (ms : List Message) (waits : ℕ) (b b' : B) (left : ℕ)
      → publish_with_retry p t ms waits b ≡ (b', some left)
      → All (Has b' t) ms
  unfolding publish_with_retry
  retry-accepts t ms zero b b' left e =
      after_publish-accepts Has zero (λ b1. (b1, none)) (p.publish b t ms) t ms b' left
        (accepted-now b t ms) (λ b1 k. absurd cc) e
  retry-accepts t ms (suc waits) b b' left e =
      after_publish-accepts Has (suc waits) (λ b1. publish_with_retry p t ms waits b1)
        (p.publish b t ms) t ms b' left (accepted-now b t ms)
        (λ b1 k. retry-accepts t ms waits b1 b' left k) e

module _ {S B K E I : Type 0} {Has : B → Text → Message → Type 0} (r : Relay S B K E I)
    (laws : Accepts r.publisher Has) (g : Groups) where
  pub topics-keeps :
      (ts : List Text) (waits : ℕ) (b : B) (u : Text) (m : Message)
      → Has b u m
      → Has (publish_topics r g ts waits b).0 u m
  unfolding publish_topics
  topics-keeps [] waits b u m h = h
  topics-keeps (t ∷ ts) waits b u m h =
      go (publish_with_retry r.publisher t (messages_of g t) waits b)
        (λ left b1 k. topics-keeps ts left b1 u m k)
        (retry-keeps r.publisher laws t (messages_of g t) waits b u m h)
    where
      go :
          (o : B × Option ℕ)
          → ((left : ℕ) (b1 : B) → Has b1 u m → Has (publish_topics r g ts left b1).0 u m)
          → Has o.0 u m
          → Has (after_topic (λ left b'. publish_topics r g ts left b') o).0 u m
      go (b1, none) f k = k
      go (b1, some left) f k = f left b1 k

  topics-step :
      (t : Text) (ts : List Text) (o : B × Option ℕ) (b' : B) (left : ℕ)
      → after_topic (λ n b1. publish_topics r g ts n b1) o ≡ (b', some left)
      → (b1 : B) × (n : ℕ) × (o ≡ (b1, some n)) × (publish_topics r g ts n b1 ≡ (b', some left))
  topics-step t ts (b1, none) b' left e = absurd cc
  topics-step t ts (b1, some n) b' left e = (b1, n, refl, e)

  pub topics-accepts :
      (ts : List Text) (waits : ℕ) (b b' : B) (left : ℕ)
      → publish_topics r g ts waits b ≡ (b', some left)
      → (u : Text) → has_topic ts u ≡ true
      → All (Has b' u) (messages_of g u)
  unfolding publish_topics
  topics-accepts [] waits b b' left e u q = absurd cc
  topics-accepts (t ∷ ts) waits b b' left e u q =
      let (b1, n, first, rest) =
        topics-step t ts (publish_with_retry r.publisher t (messages_of g t) waits b) b' left e in
      let here : All (Has b1 t) (messages_of g t) =
        retry-accepts r.publisher laws t (messages_of g t) waits b b1 n first in
      let kept : All (Has b' t) (messages_of g t) =
        All-weaken
          (λ m k.
            subst (λ x. Has x t m) (ap (λ (y : B × Option ℕ). y.0) rest)
              (topics-keeps ts n b1 t m k))
          (messages_of g t) here in
      elim (Bool-cases (t == u)) [
        | inl same ↦ subst (λ v. All (Has b' v) (messages_of g v)) ((text_beq_iff t u).0 same) kept
        | inr differ ↦ topics-accepts ts n b1 b' left rest u (other (t == u) differ q)
      ]
    where
      other :
          (c : Bool)
          → c ≡ false
          → (if c then true else has_topic ts u) ≡ true
          → has_topic ts u ≡ true
      other true x y = absurd cc
      other false x y = y
