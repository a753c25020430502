-- ===== src/Projection/Runners/Order.antt =====
-- projection/inbox.go: what an InboxReader hands to its projection.
use gohex.Prelude.{
  ℕ, ltb, All, select-append, append_assoc, sym, ◌≡◌, refl, ap, ◌∙◌, Bool, true, false, ◌||◌,
  Option, none, some, List, [], ◌∷◌, ◌++◌, last?, if◌then◌else◌,
}
use gohex.Prelude.Map.{get}
use gohex.Prelude.Text.{Text, text_eq, lit}
use gohex.Kernel.Errors.{Error, wrap}
use gohex.Kernel.Result.{Result, ok, err, panic}
use gohex.EventStore.Checkpoint.{CheckpointStore}
use gohex.Broker.Message.{Handler}
use gohex.Projection.{integration_key, inbox_checkpoint}
use gohex.Projection.Inbox.{InboxMessage}
use gohex.EventStore.Contract.{limited}
use gohex.Projection.Runners.Log.{behind_seq, InboxContract, behind_batch, limited-prefix}
use gohex.Projection.Runners.{
  InboxReader, Turn, Step, next, return_nil, return_err, panicked, Applied, applied, failed,
  aborted, and_then, apply_messages, checkpointed, commit, and_on, iterate, seq_of_last_message,
  inbox_loop,
}

module _ {W : Type 0} where
  -- On with the rest of the messages.
  abbrev and_rest : (W → Applied W) → Applied W → Applied W
  and_rest rest (applied w) = rest w
  and_rest rest (failed w e) = failed w e
  and_rest rest (aborted w) = aborted w

  and_rest-and_then :
      (f g h : W → Applied W) (o : W × Option Error)
      → ((w : W) → f w ≡ and_rest g (h w))
      → and_then f o ≡ and_rest g (and_then h o)
  and_rest-and_then f g h (w, none) e = e w
  and_rest-and_then f g h (w, some x) e = refl

module _ {N W E K : Type 0} (r : InboxReader N W E K) where
  apply_messages-append :
      (xs ys : List InboxMessage) (w : W)
      → apply_messages r (xs ++ ys) w
        ≡ and_rest (λ w'. apply_messages r ys w') (apply_messages r xs w)
  unfolding apply_messages
  apply_messages-append [] ys w = refl
  apply_messages-append (m ∷ xs) ys w =
      go (get r.projection.foreign_handlers (integration_key m.message.type_name m.message.version))
        (λ w'. apply_messages-append xs ys w')
    where
      go :
          (o : Option (Handler W))
          → ((w' : W)
              → apply_messages r (xs ++ ys) w'
                ≡ and_rest (λ v. apply_messages r ys v) (apply_messages r xs w'))
          → elim o as (λ _. Applied W) [
            | none ↦ apply_messages r (xs ++ ys) w
            | some handler ↦ and_then (λ w'. apply_messages r (xs ++ ys) w') (handler w m.message)
          ]
            ≡ and_rest
                (λ v. apply_messages r ys v)
                (elim o as (λ _. Applied W) [
                  | none ↦ apply_messages r xs w
                  | some handler ↦ and_then (λ w'. apply_messages r xs w') (handler w m.message)
                ])
      go none ih = ih w
      go (some handler) ih =
          and_rest-and_then (λ w'. apply_messages r (xs ++ ys) w') (λ v. apply_messages r ys v)
            (λ w'. apply_messages r xs w') (handler w m.message) ih

module _ {W A : Type 0} where
  -- An iteration that leads to the next one: an idle one, or one with a batch that was applied.
  data IsNext (process : List A → Applied W) (last : List A → ℕ) (seq : ℕ) (w : W)
      : Result (List A) → ℕ → W → Type 0 where
    idle : IsNext process last seq w (ok []) seq w
    batch :
        {w' : W} (x : A) (xs : List A)
        → process (x ∷ xs) ≡ applied w'
        → IsNext process last seq w (ok (x ∷ xs)) (last (x ∷ xs)) w'

module _ {W K A : Type 0} where
  stored :
      (process : List A → Applied W) (last : List A → ℕ) (x : A) (xs : List A) (seq seq' : ℕ)
      (w w1 w' : W) (k' : K) (o : K × Result (Unit {0}))
      → process (x ∷ xs) ≡ applied w1
      → checkpointed w1 (last (x ∷ xs)) o ≡ next seq' w' k'
      → IsNext process last seq w (ok (x ∷ xs)) seq' w'
  stored process last x xs seq seq' w w1 w' k' (k, ok u) p h =
      let s : last (x ∷ xs) ≡ seq' = cc in
      let e : w1 ≡ w' = cc in rw (← s) (batch x xs (rw p (rw e refl)))
  stored process last x xs seq seq' w w1 w' k' (k, err e) p h = absurd cc
  stored process last x xs seq seq' w w1 w' k' (k, panic) p h = absurd cc

  committed :
      (process : List A → Applied W) (last : List A → ℕ) (cps : CheckpointStore K) (name : Text)
      (x : A) (xs : List A) (seq seq' : ℕ) (w w' : W) (k k' : K) (o : Applied W)
      → process (x ∷ xs) ≡ o
      → commit cps name (last (x ∷ xs)) k o ≡ next seq' w' k'
      → IsNext process last seq w (ok (x ∷ xs)) seq' w'
  committed process last cps name x xs seq seq' w w' k k' (applied w1) p h =
      stored process last x xs seq seq' w w1 w' k' (cps.set_checkpoint k name (last (x ∷ xs))) p h
  committed process last cps name x xs seq seq' w w' k k' (failed w1 e) p h = absurd cc
  committed process last cps name x xs seq seq' w w' k k' (aborted w1) p h = absurd cc

  iterate-IsNext :
      {L : Type 0} (turn : Turn L) (read : Result (List A)) (process : List A → Applied W)
      (last : List A → ℕ) (cps : CheckpointStore K) (name : Text) (seq seq' : ℕ) (w w' : W)
      (k k' : K)
      → iterate turn read process last cps name seq w k ≡ next seq' w' k'
      → IsNext process last seq w read seq' w'
  unfolding iterate
  iterate-IsNext turn (ok []) process last cps name seq seq' w w' k k' h =
      waited turn.cancelled turn.cancelled_in_wait h
    where
      waited :
          (a b : Bool)
          → (if a then return_nil w k else if b then return_nil w k else next seq w k)
            ≡ next seq' w' k'
          → IsNext process last seq w (ok []) seq' w'
      waited true b e = absurd cc
      waited false true e = absurd cc
      waited false false e = let s : seq ≡ seq' = cc in let v : w ≡ w' = cc in rw (← s, ← v) idle
  iterate-IsNext turn (ok (x ∷ xs)) process last cps name seq seq' w w' k k' h =
      started turn.cancelled h
    where
      started :
          (a : Bool)
          → (if a then return_nil w k else commit cps name (last (x ∷ xs)) k (process (x ∷ xs)))
            ≡ next seq' w' k'
          → IsNext process last seq w (ok (x ∷ xs)) seq' w'
      started true e = absurd cc
      started false e =
          committed process last cps name x xs seq seq' w w' k k' (process (x ∷ xs)) refl e
  iterate-IsNext turn (err x) process last cps name seq seq' w w' k k' h =
      gives_up (turn.cancelled || turn.cancelled_in_read) h
    where
      gives_up :
          (a : Bool)
          → (if a then return_nil w k else return_err w k (wrap (lit "read") x)) ≡ next seq' w' k'
          → IsNext process last seq w (err x) seq' w'
      gives_up true e = absurd cc
      gives_up false e = absurd cc
  iterate-IsNext turn panic process last cps name seq seq' w w' k k' h = gives_up turn.cancelled h
    where
      gives_up :
          (a : Bool)
          → (if a then return_nil w k else panicked w k) ≡ next seq' w' k'
          → IsNext process last seq w panic seq' w'
      gives_up true e = absurd cc
      gives_up false e = absurd cc

module _ {W K : Type 0} where
  and_on-next :
      (rest : ℕ → W → K → Step W K) (s : Step W K) (seq' : ℕ) (w' : W) (k' : K)
      → and_on rest s ≡ next seq' w' k'
      → (seq1 : ℕ) × (w1 : W) × (k1 : K) × (s ≡ next seq1 w1 k1)
        × (rest seq1 w1 k1 ≡ next seq' w' k')
  and_on-next rest (next seq1 w1 k1) seq' w' k' h = (seq1, w1, k1, refl, h)
  and_on-next rest (return_nil w1 k1) seq' w' k' h = absurd cc
  and_on-next rest (return_err w1 k1 e) seq' w' k' h = absurd cc
  and_on-next rest (panicked w1 k1) seq' w' k' h = absurd cc

module _ {N W E K : Type 0} (r : InboxReader N W E K) {IsValid : N → Type 0}
    {messages : N → List InboxMessage} (c : InboxContract r.inbox IsValid messages) (n : N)
    (valid : IsValid n) where
  -- The inbox as an iteration finds it: well formed, and the inbox in the end has its messages first.
  abbrev pub Earlier : Turn N → Type 0
  Earlier turn =
      IsValid turn.log × ((more : List InboxMessage) × (messages n ≡ messages turn.log ++ more))

  -- The messages from one position to another, which the handlers take in order.
  abbrev pub OnePass : ℕ → ℕ → W → W → Type 0
  OnePass seq seq' w w' =
      (passed : List InboxMessage) × (behind_seq seq (messages n)
        ≡ passed ++ behind_seq seq' (messages n))
      × (apply_messages r passed w ≡ applied w')

  -- A batch is the next messages of the inbox.
  read-behind :
      (turn : Turn N) (seq : ℕ) (x : InboxMessage) (xs : List InboxMessage)
      → Earlier turn
      → x ∷ xs ≡ limited r.cfg.batch_size (behind_seq seq (messages turn.log))
      → behind_seq seq (messages n)
        ≡ (x ∷ xs) ++ behind_seq (seq_of_last_message (last? (x ∷ xs))) (messages n)
  read-behind turn seq x xs earlier e =
      let more = earlier.1.0 in
      let (rest, prefix) = limited-prefix r.cfg.batch_size (behind_seq seq (messages turn.log)) in
      let whole : behind_seq seq (messages n) ≡ (x ∷ xs) ++ (rest ++ behind_seq seq more) =
        ap (behind_seq seq) earlier.1.1
        ∙ select-append (λ (m : InboxMessage). ltb seq m.seq) (messages turn.log) more
        ∙ ap (λ l. l ++ behind_seq seq more) (prefix ∙ ap (λ l. l ++ rest) (sym e))
        ∙ append_assoc (x ∷ xs) rest (behind_seq seq more) in
      whole
      ∙ ap (λ l. (x ∷ xs) ++ l)
          (sym (
            behind_batch seq (messages n) x xs (rest ++ behind_seq seq more) (c.ascending n valid)
              whole))

  -- An iteration in front of a pass.
  IsNext-OnePass :
      (turn : Turn N) (q : Result (List InboxMessage)) (seq seq1 seq' : ℕ) (w w1 w' : W)
      → Earlier turn
      → q ≡ ok (limited r.cfg.batch_size (behind_seq seq (messages turn.log)))
      → IsNext (λ ms. apply_messages r ms w) (λ ms. seq_of_last_message (last? ms)) seq w q seq1 w1
      → OnePass seq1 seq' w1 w'
      → OnePass seq seq' w w'
  IsNext-OnePass turn q seq _ seq' w _ w' earlier e idle pass = pass
  IsNext-OnePass turn q seq _ seq' w _ w' earlier e (batch x xs p) (passed, split, applies) =
      let found : x ∷ xs ≡ limited r.cfg.batch_size (behind_seq seq (messages turn.log)) = cc in
      (
        (x ∷ xs) ++ passed,
        read-behind turn seq x xs earlier found
            ∙ ap (λ l. (x ∷ xs) ++ l) split
            ∙ sym (append_assoc (x ∷ xs) passed (behind_seq seq' (messages n))),
        apply_messages-append r (x ∷ xs) passed w
            ∙ ap (and_rest (λ v. apply_messages r passed v)) p
            ∙ applies,
      )

  -- The batches of an inbox reader leave no trace. Over an inbox that keeps the port's promises and
  -- only grows from one iteration to the next, where the loop gets from a position to another: the
  -- read tables are those that one pass of the handlers makes over the messages of the inbox between
  -- the two positions, each once and in the inbox's order with none left out, and no handler of that
  -- pass fails.
  pub inbox_loop-OnePass :
      (turns : List (Turn N)) (seq seq' : ℕ) (w w' : W) (k k' : K)
      → All Earlier turns
      → inbox_loop r turns seq w k ≡ next seq' w' k'
      → OnePass seq seq' w w'
  unfolding inbox_loop apply_messages
  inbox_loop-OnePass [] seq seq' w w' k k' earlier h =
      let e : w ≡ w' = cc in
      let s : seq ≡ seq' = cc in ([], ap (λ q. behind_seq q (messages n)) s, ap applied e)
  inbox_loop-OnePass (turn ∷ turns) seq seq' w w' k k' earlier h =
      let (seq1, w1, k1, first, rest) =
        and_on-next (λ seq2 w2 k2. inbox_loop r turns seq2 w2 k2)
          (iterate turn (r.inbox.read_all turn.log seq r.cfg.batch_size)
            (λ ms. apply_messages r ms w) (λ ms. seq_of_last_message (last? ms)) r.checkpoints
            (inbox_checkpoint r.projection) seq w k)
          seq' w' k' h in
      let n1 =
        iterate-IsNext turn (r.inbox.read_all turn.log seq r.cfg.batch_size)
          (λ ms. apply_messages r ms w) (λ ms. seq_of_last_message (last? ms)) r.checkpoints
          (inbox_checkpoint r.projection) seq seq1 w w1 k k1 first in
      IsNext-OnePass turn (r.inbox.read_all turn.log seq r.cfg.batch_size) seq seq1 seq' w w1 w'
        earlier.0 (c.read_all_lem turn.log seq r.cfg.batch_size earlier.0.0) n1
        (inbox_loop-OnePass turns seq1 seq' w1 w' k1 k' earlier.1 rest)
