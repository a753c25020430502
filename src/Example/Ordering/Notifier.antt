-- ===== src/Example/Ordering/Notifier.antt =====
-- gohex-example/ordering/internal/app/notifier.go: the worker that drains the notification worklist.
pub mod Retiring
use gohex.Prelude.{Bool, ◌||◌, Option, none, some, List, [], ◌∷◌, ℤ, pos, is_pos, if◌then◌else◌}
use gohex.Kernel.Errors.{Error}
use gohex.Kernel.Result.{Result, ok, err, panic}
use gohex.EventStore.Types.{Metadata}
use gohex.EventStore.Position.{Context}
use gohex.Example.Ordering.Ports.{PendingNotification, NotificationQueue}
use gohex.Example.Ordering.Service.{NotifyCustomer}

-- The interval is in nanoseconds.
pub record NotifierConfig : Type 0 where
  pub interval : ℤ
  pub batch_size : ℤ

unfoldable pub with_defaults : NotifierConfig → NotifierConfig
with_defaults c = record {
  interval = if is_pos c.interval then c.interval else pos 5_000_000_000;
  batch_size = if is_pos c.batch_size then c.batch_size else pos 50;
}

-- The bus is its Dispatch, on the state `W` that the command handlers work on. `start_batch` and
-- `start_linked` are the contexts that the telemetry derives.
pub record Notifier (W Q : Type 0) : Type 0 where
  pub queue : NotificationQueue Q
  pub dispatch : Context → W → NotifyCustomer → W × Option Error
  pub start_batch : Context → Context
  pub start_linked : Context → Metadata → Context
  pub cfg : NotifierConfig

unfoldable pub new_notifier :
    {W Q : Type 0}
    → NotificationQueue Q
    → (Context → W → NotifyCustomer → W × Option Error)
    → (Context → Context)
    → (Context → Metadata → Context)
    → NotifierConfig
    → Notifier W Q
unfolding with_defaults
new_notifier queue dispatch start_batch start_linked cfg = record {
  queue = queue;
  dispatch = dispatch;
  start_batch = start_batch;
  start_linked = start_linked;
  cfg = with_defaults cfg;
}

-- What an iteration of Run meets: what others write to the worklist before it, whether the context
-- has ended at its start or by the time a read failed, and whether it outlives the sleep.
pub record Turn (Q : Type 0) : Type 0 where
  pub others : Q → Q
  pub cancelled : Bool
  pub cancelled_in_read : Bool
  pub slept : Bool

pub data Ran (W Q : Type 0) : Type 0 where
  running : W → Q → Ran W Q
  return_nil : W → Q → Ran W Q
  panicked : W → Q → Ran W Q

module _ {W Q : Type 0} (n : Notifier W Q) where
  -- What send does behind the dispatch; the errors are only logged.
  abbrev pub after_dispatch : PendingNotification → Q → W × Option Error → W × Q
  after_dispatch row q (w, some x) = (w, q)
  after_dispatch row q (w, none) = (w, (n.queue.mark_sent q row.id).0)

  unfoldable pub send : Context → PendingNotification → W × Q → W × Q
  send batch_ctx row (w, q) = after_dispatch row q (
      n.dispatch (n.start_linked batch_ctx row.metadata) w
        (record { order_id = row.order_id; reason = row.reason }))

  -- The loop of tick.
  unfoldable pub send_all : Context → List PendingNotification → W × Q → W × Q
  unfolding send
  send_all batch_ctx [] s = s
  send_all batch_ctx (row ∷ rows) s = send_all batch_ctx rows (send batch_ctx row s)

  unfoldable pub tick : Context → List PendingNotification → W × Q → W × Q
  unfolding send_all
  tick ctx pending s = send_all (n.start_batch ctx) pending s

  -- The end of an iteration.
  abbrev pub after_tick : (W × Q → Ran W Q) → Bool → W × Q → Ran W Q
  after_tick rest slept (w, q) = if slept then rest (w, q) else return_nil w q

  -- An iteration behind the check of the context, with the outcome of Pending. tick is not called
  -- for an empty batch, for which it does nothing.
  abbrev pub iterate :
      Context → (W × Q → Ran W Q) → Turn Q → W × Q → Result (List PendingNotification) → Ran W Q
  iterate ctx rest turn s (ok []) = after_tick rest turn.slept s
  iterate ctx rest turn s (ok (row ∷ rows)) = after_tick rest turn.slept (tick ctx (row ∷ rows) s)
  iterate ctx rest turn (w, q) (err x) =
      if turn.cancelled_in_read then return_nil w q else after_tick rest turn.slept (w, q)
  iterate ctx rest turn (w, q) panic = panicked w q

  -- The loop of Run, as far as the turns go.
  unfoldable pub run : Context → List (Turn Q) → W × Q → Ran W Q
  unfolding tick
  run ctx [] (w, q) = running w q
  run ctx (turn ∷ turns) (w, q) =
      let q' = turn.others q in
      let batch =
        iterate ctx (λ s. run ctx turns s) turn (w, q') (n.queue.pending q' n.cfg.batch_size) in
      if turn.cancelled then return_nil w q else batch
