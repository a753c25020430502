-- ===== src/Relay/Run.antt =====
-- relay/relay.go: translating events, and the loop of Run, one iteration of which is `poll`.
use gohex.Prelude.{ℕ, zero, suc, Option, none, some, List, [], ◌∷◌, if◌then◌else◌}
use gohex.Prelude.Map.{get}
use gohex.Prelude.Text.{Text, text_eq, lit}
use gohex.Kernel.Errors.{wrap}
use gohex.Kernel.Result.{Result, ok, err, panic, ◌>>=◌}
use gohex.EventStore.Types.{RecordedEvent}
use gohex.EventStore.Registry.{decode}
use gohex.Broker.Message.{Message, IntegrationEvent, new_message}
use gohex.Relay.{
  Relay, message_id, Groups, no_groups, add_translated, Turn, Step, and_on, publish_topics, commit,
  next, return_nil, return_err, panicked,
}

module _ {S B K E I : Type 0} ⦃ie : IntegrationEvent I⦄ where
  -- The part of translate behind a translator's result.
  unfoldable pub integrate :
      Relay S B K E I → RecordedEvent → Option I → Result (Option (Text × Message))
  unfolding message_id new_message
  integrate r rec none = ok none
  integrate r rec (some integration) = do
    msg ← new_message (message_id rec) rec.stream.id rec.occurred_at integration rec.metadata
    ok (some (r.cfg.topic, msg))

  unfoldable pub translate : Relay S B K E I → RecordedEvent → Result (Option (Text × Message))
  unfolding integrate
  translate r rec = elim (get r.routes rec.event_name) [
    | some fn ↦ (decode r.registry rec >>= λ event. fn rec event)
    | none ↦ elim (get r.translators rec.event_name) [
      | none ↦ ok none
      | some fn ↦ (decode r.registry rec >>= λ event. integrate r rec (fn event))
    ]
  ]

  -- The loop that groups a batch by topic.
  unfoldable pub group : Relay S B K E I → Groups → List RecordedEvent → Result Groups
  unfolding translate add_translated
  group r g [] = ok g
  group r g (rec ∷ recs) = translate r rec >>= λ t. group r (add_translated g t) recs

  abbrev pub publish_groups :
      Relay S B K E I → Turn S → List RecordedEvent → B → K → Result Groups → Step B K
  publish_groups r turn recs b k (ok g) = commit r recs k (publish_topics r g g.topics turn.waits b)
  publish_groups r turn recs b k (err e) = return_err b k (wrap (lit "relay") e)
  publish_groups r turn recs b k panic = panicked b k

  -- What follows ReadAll.
  unfoldable pub after_read :
      Relay S B K E I → Turn S → ℕ → B → K → Result (List RecordedEvent) → Step B K
  unfolding group publish_topics commit
  after_read r turn seq b k (ok []) = elim turn.waits [
    | zero ↦ return_nil b k
    | suc n ↦ next seq b k
  ]
  after_read r turn seq b k (ok (rec ∷ recs)) =
      publish_groups r turn (rec ∷ recs) b k (group r no_groups (rec ∷ recs))
  after_read r turn seq b k (err e) =
      if turn.cancelled_in_read then return_nil b k else return_err b k (wrap (lit "relay: read") e)
  after_read r turn seq b k panic = panicked b k

  unfoldable pub poll : Relay S B K E I → Turn S → ℕ → B → K → Step B K
  unfolding after_read
  poll r turn seq b k =
      if turn.cancelled
      then return_nil b k
      else after_read r turn seq b k (r.store.read_all turn.store seq r.cfg.batch_size)

  -- The loop of Run over the iterations that `turns` describes; `next` where they end before it.
  unfoldable pub run_loop : Relay S B K E I → List (Turn S) → ℕ → B → K → Step B K
  unfolding poll
  run_loop r [] seq b k = next seq b k
  run_loop r (turn ∷ turns) seq b k =
      and_on (λ seq' b' k'. run_loop r turns seq' b' k') (poll r turn seq b k)

  abbrev pub started : Relay S B K E I → List (Turn S) → B → K → Result ℕ → Step B K
  started r turns b k (ok seq) = run_loop r turns seq b k
  started r turns b k (err e) = return_err b k (wrap (lit "relay") e)
  started r turns b k panic = panicked b k

  unfoldable pub run : Relay S B K E I → List (Turn S) → B → K → Step B K
  unfolding run_loop
  run r turns b k = started r turns b k (r.checkpoints.get_checkpoint k r.cfg.name)
