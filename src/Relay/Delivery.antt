-- ===== src/Relay/Delivery.antt =====
-- relay/relay.go: the events up to the checkpoint and their messages at the broker.
pub mod Iteration
use gohex.Prelude.{
  ℕ, zero, suc, ◌≤◌, ◌≡◌, refl, sym, ap, ◌∙◌, subst, inl, inr, Bool, true, false, Option, none,
  some, List, [], ◌∷◌, ◌++◌, arith, if◌then◌else◌, Bool-cases, All, All-append, last?,
}
use gohex.Prelude.EqClass.{beq_refl}
use gohex.Prelude.Text.{Text, text_eq}
use gohex.Kernel.Result.{Result, ok, err, panic}
use gohex.EventStore.Types.{RecordedEvent}
use gohex.EventStore.Contract.{behind, limited, IncreasingFrom, seq_of_last}
use gohex.EventStore.Checkpoint.{CheckpointContract}
use gohex.Broker.Message.{Message, IntegrationEvent}
use gohex.Relay.{
  Relay, Groups, no_groups, Turn, Step, next, return_nil, return_err, panicked, publish_topics,
  checkpointed, commit,
}
use gohex.Relay.Run.{group, translate, publish_groups, after_read, poll}
use gohex.Relay.Grouping.{has_topic, message_for, messages_for, group_in_order}
use gohex.Relay.Publishing.{Accepts, All-weaken, topics-keeps, topics-accepts}
use gohex.Relay.Batches.{
  IsReached, increasing-IsReached, IsReached-append, IsReached-batch, All-right, batch-covers,
}

-- The logs that the turns of a run read: each is the one before it, grown. `last` is the newest.
pub data Growing {S : Type 0} (IsValid : S → Type 0) (log : S → List RecordedEvent)
    : List RecordedEvent → List (Turn S) → List RecordedEvent → Type 0 where
  still : {before : List RecordedEvent} → Growing IsValid log before [] before
  grown :
      {before last : List RecordedEvent} {turns : List (Turn S)} (turn : Turn S)
      (more : List RecordedEvent)
      → IsValid turn.store
      → log turn.store ≡ before ++ more
      → Growing IsValid log (before ++ more) turns last
      → Growing IsValid log before (turn ∷ turns) last

module _ {B K : Type 0} where
  -- The broker and the checkpoints that a run leaves behind, however it ends.
  abbrev pub left_behind : Step B K → B × K
  left_behind (next seq b k) = (b, k)
  left_behind (return_nil b k) = (b, k)
  left_behind (return_err b k e) = (b, k)
  left_behind (panicked b k) = (b, k)

module _ {S B K E I : Type 0} ⦃ie : IntegrationEvent I⦄ (r : Relay S B K E I)
    (Has : B → Text → Message → Type 0) (position : K → Text → ℕ) where
  -- The message that an event translates to, if any, is with the broker.
  abbrev pub IsPublished : B → RecordedEvent → Type 0
  IsPublished b rec = (t : Text) (m : Message) → translate r rec ≡ ok (some (t, m)) → Has b t m

  -- The events of the log up to the stored checkpoint are published, and the log grows behind it.
  pub record IsSafe (log : List RecordedEvent) (b : B) (k : K) : Type 0 where
    pub published : All (λ rec. rec.global_seq ≤ position k r.cfg.name → IsPublished b rec) log
    pub reached : IsReached log (position k r.cfg.name)

  pub IsSafe-grows :
      (log more : List RecordedEvent) (b : B) (k : K)
      → IncreasingFrom 0 (log ++ more)
      → IsSafe log b k
      → IsSafe (log ++ more) b k
  IsSafe-grows log more b k inc h = record {
    published =
        All-append (λ rec. rec.global_seq ≤ position k r.cfg.name → IsPublished b rec) log more
          h.published
          (All-weaken {Q = λ rec. rec.global_seq ≤ position k r.cfg.name → IsPublished b rec}
            (λ y f g. absurd (omega arith)) more
            (increasing-IsReached log more (position k r.cfg.name) h.reached inc));
    reached = IsReached-append log more (position k r.cfg.name) h.reached;
  }

  pub messages_for-published :
      (b : B) (recs : List RecordedEvent)
      → ((u : Text) → All (Has b u) (messages_for r u recs))
      → All (IsPublished b) recs
  messages_for-published b [] h = tt
  messages_for-published b (rec ∷ recs) h = (
    λ t m e. single t m (
        subst (λ x. All (Has b t) (message_for r t x)) e
          (left t (message_for r t (translate r rec)) (messages_for r t recs) (h t))),
    messages_for-published b recs (λ u.
        All-right (Has b u) (message_for r u (translate r rec)) (messages_for r u recs) (h u)),
  )
    where
      left : (u : Text) (xs ys : List Message) → All (Has b u) (xs ++ ys) → All (Has b u) xs
      left u [] ys k = tt
      left u (x ∷ xs) ys k = (k.0, left u xs ys k.1)

      single :
          (t : Text) (m : Message) → All (Has b t) (message_for r t (ok (some (t, m)))) → Has b t m
      single t m k =
          let k' : All (Has b t) (m ∷ []) =
            subst (λ c. All (Has b t) (if c then m ∷ [] else [])) (beq_refl text_eq t) k in
          k'.0
