-- ===== src/Relay/Delivery/Iteration.antt =====
-- relay/relay.go: what one iteration of Run leaves behind.
use gohex.Prelude.{
  ℕ, zero, suc, ◌≤◌, ◌≡◌, refl, sym, ap, ◌∙◌, subst, inl, inr, Bool, true, false, Option, none,
  some, List, [], ◌∷◌, if◌then◌else◌, Bool-cases, All, last?,
}
use gohex.Prelude.EqClass.{beq_refl}
use gohex.Prelude.Text.{Text, text_eq}
use gohex.Kernel.Result.{Result, ok, err, panic}
use gohex.EventStore.Types.{RecordedEvent}
use gohex.EventStore.Contract.{behind, limited, IncreasingFrom, seq_of_last}
use gohex.EventStore.Checkpoint.{CheckpointContract}
use gohex.Broker.Message.{Message, IntegrationEvent}
use gohex.Relay.{
  Relay, Groups, no_groups, Turn, Step, next, return_nil, return_err, panicked, publish_topics,
  checkpointed, commit,
}
use gohex.Relay.Run.{group, publish_groups, after_read, poll}
use gohex.Relay.Grouping.{has_topic, group_in_order}
use gohex.Relay.Publishing.{Accepts, All-weaken, topics-keeps, topics-accepts}
use gohex.Relay.Batches.{IsReached, IsReached-batch, batch-covers}
use gohex.Relay.Delivery.{IsPublished, IsSafe, messages_for-published}

module _ {S B K E I : Type 0} ⦃ie : IntegrationEvent I⦄ (r : Relay S B K E I)
    (Has : B → Text → Message → Type 0) (position : K → Text → ℕ) where
  module _ (laws : Accepts r.publisher Has)
      (checkpoints : CheckpointContract r.checkpoints position) (log : List RecordedEvent)
      (inc : IncreasingFrom 0 log) where
    -- How safe an iteration leaves things: for the next one, its position is the stored one.
    abbrev pub Outcome : Step B K → Type 0
    Outcome (next seq b k) = (seq ≡ position k r.cfg.name) × IsSafe r Has position log b k
    Outcome (return_nil b k) = IsSafe r Has position log b k
    Outcome (return_err b k e) = IsSafe r Has position log b k
    Outcome (panicked b k) = IsSafe r Has position log b k

    group-published :
        (g : Groups) (recs : List RecordedEvent) (b b' : B) (waits left : ℕ)
        → group r no_groups recs ≡ ok g
        → publish_topics r g g.topics waits b ≡ (b', some left)
        → All (IsPublished r Has position b') recs
    group-published g recs b b' waits left grouped e =
        messages_for-published r Has position b' recs (λ u.
          elim (Bool-cases (has_topic g.topics u)) [
            | inl listed ↦
                subst (All (Has b' u)) (group_in_order r recs g grouped u).0
                  (topics-accepts r laws g g.topics waits b b' left e u listed)
            | inr absent ↦
                subst (All (Has b' u)) (sym ((group_in_order r recs g grouped u).1 absent)) tt
          ])

    IsSafe-publish :
        (g : Groups) (ts : List Text) (waits : ℕ) (b : B) (k : K)
        → IsSafe r Has position log b k
        → IsSafe r Has position log (publish_topics r g ts waits b).0 k
    IsSafe-publish g ts waits b k h = record {
      published =
          All-weaken
            {Q = λ rec.
              rec.global_seq ≤ position k r.cfg.name
              → IsPublished r Has position (publish_topics r g ts waits b).0 rec}
            (λ rec f le t m e. topics-keeps r laws g ts waits b t m (f le t m e)) log h.published;
      reached = h.reached;
    }

    -- The store of the checkpoint behind a batch that was published.
    commit-Outcome :
        (seq : ℕ) (x : RecordedEvent) (l : List RecordedEvent) (g : Groups) (waits : ℕ) (b : B)
        (k : K)
        → seq ≡ position k r.cfg.name
        → IsSafe r Has position log b k
        → limited r.cfg.batch_size (behind seq log) ≡ x ∷ l
        → group r no_groups (x ∷ l) ≡ ok g
        → (o : B × Option ℕ) → publish_topics r g g.topics waits b ≡ o
        → Outcome (commit r (x ∷ l) k o)
    unfolding commit
    commit-Outcome seq x l g waits b k at h batch grouped (b', none) e =
        subst (λ (p : B × Option ℕ). IsSafe r Has position log p.0 k) e
          (IsSafe-publish g g.topics waits b k h)
    commit-Outcome seq x l g waits b k at h batch grouped (b', some left) e =
        stored (r.checkpoints.set_checkpoint k r.cfg.name top) refl
      where
        top : ℕ
        top = seq_of_last (last? (x ∷ l))

        before : IsSafe r Has position log b' k
        before =
            subst (λ (p : B × Option ℕ). IsSafe r Has position log p.0 k) e
              (IsSafe-publish g g.topics waits b k h)

        covered : All (λ rec. rec.global_seq ≤ top → IsPublished r Has position b' rec) log
        covered =
            subst
              (λ c.
                All
                  (λ rec.
                    rec.global_seq ≤ seq_of_last (last? c) → IsPublished r Has position b' rec)
                  log)
              batch
              (batch-covers (IsPublished r Has position b') seq r.cfg.batch_size log inc
                (subst
                  (λ n. All (λ rec. rec.global_seq ≤ n → IsPublished r Has position b' rec) log)
                  (sym at) before.published)
                (subst (All (IsPublished r Has position b')) (sym batch)
                  (group-published g (x ∷ l) b b' waits left grouped e)))

        moved : (k' : K) → position k' r.cfg.name ≡ top → IsSafe r Has position log b' k'
        moved k' e' = record {
          published =
              subst (λ n. All (λ rec. rec.global_seq ≤ n → IsPublished r Has position b' rec) log)
                (sym e') covered;
          reached =
              subst (IsReached log) (sym e') (IsReached-batch seq r.cfg.batch_size log x l batch);
        }

        stored :
            (q : K × Result (Unit {0}))
            → r.checkpoints.set_checkpoint k r.cfg.name top ≡ q
            → Outcome (checkpointed b' top q)
        stored (k', ok u) d =
            let e' : position k' r.cfg.name ≡ top =
              subst (λ (p : K × Result (Unit {0})). position p.0 r.cfg.name ≡ top) d
                (checkpoints.set_lem k r.cfg.name r.cfg.name top
                  ∙ ap (λ c. if c then top else position k r.cfg.name)
                      (beq_refl text_eq r.cfg.name)) in
            (sym e', moved k' e')
        stored (k', err x') d =
            let bad : err x' ≡ ok tt =
              sym (ap (λ (p : K × Result (Unit {0})). p.1) d)
              ∙ checkpoints.set_ok k r.cfg.name top in
            absurd cc
        stored (k', panic) d =
            let bad : panic ≡ ok tt =
              sym (ap (λ (p : K × Result (Unit {0})). p.1) d)
              ∙ checkpoints.set_ok k r.cfg.name top in
            absurd cc

    read-Outcome :
        (turn : Turn S) (seq : ℕ) (b : B) (k : K)
        → seq ≡ position k r.cfg.name
        → IsSafe r Has position log b k
        → (recs : List RecordedEvent) → limited r.cfg.batch_size (behind seq log) ≡ recs
        → Outcome (after_read r turn seq b k (ok recs))
    unfolding after_read
    read-Outcome turn seq b k at h [] e = idle turn.waits
      where
        idle : (n : ℕ) → Outcome (elim n [ zero ↦ return_nil b k | suc m ↦ next seq b k ])
        idle zero = h
        idle (suc m) = (at, h)
    read-Outcome turn seq b k at h (x ∷ l) e = grouped (group r no_groups (x ∷ l)) refl
      where
        grouped :
            (q : Result Groups)
            → group r no_groups (x ∷ l) ≡ q
            → Outcome (publish_groups r turn (x ∷ l) b k q)
        grouped (ok g) d =
            commit-Outcome seq x l g turn.waits b k at h e d
              (publish_topics r g g.topics turn.waits b) refl
        grouped (err x') d = h
        grouped panic d = h

    pub poll-Outcome :
        (turn : Turn S) (seq : ℕ) (b : B) (k : K)
        → r.store.read_all turn.store seq r.cfg.batch_size
          ≡ ok (limited r.cfg.batch_size (behind seq log))
        → seq ≡ position k r.cfg.name
        → IsSafe r Has position log b k
        → Outcome (poll r turn seq b k)
    unfolding poll
    poll-Outcome turn seq b k read at h =
        subst
          (λ q. Outcome (if turn.cancelled then return_nil b k else after_read r turn seq b k q))
          (sym read) (go turn.cancelled)
      where
        go :
            (c : Bool)
            → Outcome (
                if c
                then return_nil b k
                else after_read r turn seq b k (ok (limited r.cfg.batch_size (behind seq log))))
        go true = h
        go false = read-Outcome turn seq b k at h (limited r.cfg.batch_size (behind seq log)) refl
