-- ===== src/Cqrs/Consumer.antt =====
-- cqrs/wire.go: the Consumer that bridges a subscription to a command bus.
pub mod Delivery
use gohex.Prelude.{◌⊎◌, inl, inr, Bool, true, false, Option, none, some, List, [], ◌∷◌}
use gohex.Kernel.Errors.{Error, DomainError, as_domain_error}
use gohex.Cqrs.Command.{Command}
use gohex.Cqrs.Bus.{Bus, Waits, dispatch}
use gohex.Cqrs.Wire.{CommandRegistry, decode_command, Deduplicator}
use gohex.Broker.Message.{Message, Handler}

-- `on_rejected` works on the handlers' state `W`; `none` is the nil func. The deduplicator's state
-- `D` is apart from it.
pub record Consumer (W C D : Type 0) : Type 0 where
  pub bus : Bus W C
  pub registry : CommandRegistry C
  pub dedup : Deduplicator D
  pub on_rejected : Option (W → Message → Error → W)

module _ {W C D : Type 0} where
  unfoldable pub reject : Consumer W C D → W → Message → Error → W
  reject c w msg e = elim c.on_rejected [ none ↦ w | some f ↦ f w msg e ]

  -- return c.dedup.MarkProcessed(ctx, msg.ID)
  abbrev pub acknowledge : Consumer W C D → W → D → Message → (W × D) × Option Error
  acknowledge c w d msg = let p = c.dedup.mark_processed d msg.id in ((w, p.0), p.1)

  -- The branches on an error of Dispatch, by the outcome of AsDomainError.
  abbrev pub after_error :
      Consumer W C D → W → D → Message → Error → Option DomainError → (W × D) × Option Error
  after_error c w d msg e none = ((w, d), some e)
  after_error c w d msg e (some definitive) = acknowledge c (reject c w msg e) d msg

  -- What follows Dispatch.
  unfoldable pub after_dispatch :
      Consumer W C D → D → Message → W × Option Error → (W × D) × Option Error
  unfolding reject
  after_dispatch c d msg (w, none) = acknowledge c w d msg
  after_dispatch c d msg (w, some e) = after_error c w d msg e (as_domain_error e)

module _ {W C D : Type 0} ⦃cmds : Command C⦄ where
  -- What follows Decode.
  unfoldable pub after_decode :
      Consumer W C D → Waits → W → D → Message → C ⊎ Error → (W × D) × Option Error
  unfolding reject after_dispatch dispatch
  after_decode c waits w d msg (inl cmd) = after_dispatch c d msg (dispatch c.bus waits w cmd)
  after_decode c waits w d msg (inr e) = acknowledge c (reject c w msg e) d msg

  -- What follows Processed.
  unfoldable pub after_processed :
      Consumer W C D → Waits → W → D → Message → Bool ⊎ Error → (W × D) × Option Error
  unfolding after_decode decode_command
  after_processed c waits w d msg (inl true) = ((w, d), none)
  after_processed c waits w d msg (inl false) =
      after_decode c waits w d msg (decode_command c.registry msg)
  after_processed c waits w d msg (inr e) = ((w, d), some e)

  -- The func that Handler returns.
  unfoldable pub consume : Consumer W C D → Waits → Handler (W × D)
  unfolding after_processed
  consume c waits (w, d) msg = after_processed c waits w d msg (c.dedup.processed d msg.id)

  -- A run of deliveries, each with the contexts of its own retries.
  abbrev pub deliveries : Consumer W C D → W × D → List (Waits × Message) → W × D
  deliveries c s [] = s
  deliveries c s ((waits, msg) ∷ later) = deliveries c (consume c waits s msg).0 later
