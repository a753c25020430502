-- ===== src/O11y/Backlog.antt =====
-- o11y/backlog.go: the gauges of the work that waits between two durable positions. A Position reads
-- a state `W`; the meter is a parameter, as far as its two calls fail.
pub mod Lag
use gohex.Prelude.{
  ℕ, zero, suc, ◌||◌, Option, none, some, List, [], ◌∷◌, ℤ, pos, negsuc, leb, is_some, not,
  if◌then◌else◌,
}
use gohex.Prelude.Text.{Text, lit}
use gohex.Kernel.Errors.{Error, plain, wrap}
use gohex.Kernel.Result.{Result, ok, err, wrapping, ◌>>=◌}
use gohex.EventStore.Types.{Store}
use gohex.EventStore.Checkpoint.{CheckpointStore}

abbrev pub Position : Type 0 → Type 0
Position W = W → Result ℕ

-- CheckpointPosition
unfoldable pub checkpoint_position : {K : Type 0} → CheckpointStore K → Text → Position K
checkpoint_position cps name k = cps.get_checkpoint k name

-- PositionFunc, of a store's Head.
unfoldable pub head_position : {S : Type 0} → Store S → Position S
head_position st s = st.head s

-- `none` is a nil func.
pub record Backlog (W : Type 0) : Type 0 where
  pub instrument : Text
  pub unit : Text
  pub description : Text
  pub attrs : List (Text × Text)
  pub head : Option (Position W)
  pub checkpoint : Option (Position W)

-- What the meter returns of creating the gauge and of registering the callback.
pub record Meter : Type 0 where
  pub gauge_error : Option Error
  pub register_error : Option Error

-- head - position on int64, of two positions that are not negative: no overflow, but the difference
-- is negative where the checkpoint is ahead.
unfoldable pub difference : ℕ → ℕ → ℤ
difference head zero = pos head
difference zero (suc position) = negsuc position
difference (suc head) (suc position) = difference head position

unfoldable pub lag : ℕ → ℕ → ℤ
unfolding difference
lag head position = if leb head position then pos 0 else difference head position

module _ {W : Type 0} where
  -- The callback: the value that it observes, or its error.
  unfoldable pub observe : Text → Position W → Position W → W → Result ℤ
  unfolding lag
  observe instrument head checkpoint w = do
    h ← wrapping (lit "head") (head w)
    p ← wrapping (lit "checkpoint") (checkpoint w)
    ok (lag h p)

  abbrev pub register_with : Meter → (W → Result ℤ) → Result (W → Result ℤ)
  register_with m callback = elim m.gauge_error [
    | some x ↦ err (wrap (lit "o11y") x)
    | none ↦ elim m.register_error [ some x ↦ err (wrap (lit "o11y") x) | none ↦ ok callback ]
  ]

  abbrev pub with_positions :
      Meter → Text → Option (Position W) → Option (Position W) → Result (W → Result ℤ)
  with_positions m instrument none checkpoint =
      err (plain (lit "both head and checkpoint positions are required"))
  with_positions m instrument (some head) none =
      err (plain (lit "both head and checkpoint positions are required"))
  with_positions m instrument (some head) (some checkpoint) =
      register_with m (observe instrument head checkpoint)

  -- The result is the callback that was registered.
  unfoldable pub watch_backlog : Meter → Backlog W → Result (W → Result ℤ)
  unfolding observe
  watch_backlog m b = with_positions m b.instrument b.head b.checkpoint

  unfoldable pub watch_relay_lag :
      Meter → Text → Option (Position W) → Option (Position W) → Result (W → Result ℤ)
  unfolding watch_backlog
  watch_relay_lag m name head checkpoint = watch_backlog m (record {
    instrument = lit "gohex.relay.lag";
    unit = lit "{event}";
    description = lit "Events appended to the store that the relay has not published yet.";
    attrs = (lit "gohex.relay.name", name) ∷ [];
    head = head;
    checkpoint = checkpoint;
  })

  unfoldable pub watch_projection_lag :
      Meter → Text → Text → Option (Position W) → Option (Position W) → Result (W → Result ℤ)
  unfolding watch_backlog
  watch_projection_lag m projection source head checkpoint = watch_backlog m (record {
    instrument = lit "gohex.projection.lag";
    unit = lit "{event}";
    description = lit "Events available to a projection runner that it has not applied yet.";
    attrs =
        (lit "gohex.projection.name", projection) ∷ (lit "gohex.projection.source", source) ∷ [];
    head = head;
    checkpoint = checkpoint;
  })

  unfoldable pub watch_inbox_depth :
      Meter → Text → Option (Position W) → Option (Position W) → Result (W → Result ℤ)
  unfolding watch_backlog
  watch_inbox_depth m name head checkpoint = watch_backlog m (record {
    instrument = lit "gohex.inbox.depth";
    unit = lit "{message}";
    description = lit "Messages stored in the inbox that its reader has not applied yet.";
    attrs = (lit "gohex.inbox.name", name) ∷ [];
    head = head;
    checkpoint = checkpoint;
  })
