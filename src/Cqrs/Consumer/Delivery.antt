-- ===== src/Cqrs/Consumer/Delivery.antt =====
-- cqrs/wire.go: what a Consumer does with a message that comes again.
use gohex.Prelude.Text.{Text}
use gohex.Prelude.{
  ◌≢◌, ◌≡◌, refl, sym, ap, ◌∙◌, ◌⊎◌, inl, inr, Bool, true, false, Option, none, some, List, [], ◌∷◌,
}
use gohex.Kernel.Errors.{Error, DomainError, as_domain_error}
use gohex.Cqrs.Command.{Command}
use gohex.Cqrs.Bus.{Waits, dispatch}
use gohex.Cqrs.Wire.{decode_command, Remembers}
use gohex.Cqrs.Consumer.{
  Consumer, reject, acknowledge, after_error, after_dispatch, after_decode, after_processed,
  consume, deliveries,
}
use gohex.Broker.Message.{Message}

module _ {W C D : Type 0} (c : Consumer W C D) (laws : Remembers c.dedup) where
  abbrev Seen : D → Message → Type 0
  Seen d msg = c.dedup.processed d msg.id ≡ inl true

  acknowledge-Seen :
      (w : W) (d : D) (msg : Message) (w' : W) (d' : D)
      → acknowledge c w d msg ≡ ((w', d'), none)
      → Seen d' msg
  acknowledge-Seen w d msg w' d' e =
      laws.marks d d' msg.id (ap (λ (p : (W × D) × Option Error). (p.0.1, p.1)) e)

  acknowledge-keeps :
      (w : W) (d : D) (msg m : Message) → Seen d m → Seen (acknowledge c w d msg).0.1 m
  acknowledge-keeps w d msg m h = laws.keeps d m.id msg.id h

  after_error-Seen :
      (w : W) (d : D) (msg : Message) (x : Error) (o : Option DomainError) (w' : W) (d' : D)
      → after_error c w d msg x o ≡ ((w', d'), none)
      → Seen d' msg
  after_error-Seen w d msg x none w' d' e = absurd cc
  after_error-Seen w d msg x (some definitive) w' d' e =
      acknowledge-Seen (reject c w msg x) d msg w' d' e

  after_error-keeps :
      (w : W) (d : D) (msg m : Message) (x : Error) (o : Option DomainError)
      → Seen d m
      → Seen (after_error c w d msg x o).0.1 m
  after_error-keeps w d msg m x none h = h
  after_error-keeps w d msg m x (some definitive) h = acknowledge-keeps (reject c w msg x) d msg m h

  after_dispatch-Seen :
      (d : D) (msg : Message) (p : W × Option Error) (w' : W) (d' : D)
      → after_dispatch c d msg p ≡ ((w', d'), none)
      → Seen d' msg
  unfolding after_dispatch
  after_dispatch-Seen d msg (w, none) w' d' e = acknowledge-Seen w d msg w' d' e
  after_dispatch-Seen d msg (w, some x) w' d' e =
      after_error-Seen w d msg x (as_domain_error x) w' d' e

  after_dispatch-keeps :
      (d : D) (msg m : Message) (p : W × Option Error)
      → Seen d m
      → Seen (after_dispatch c d msg p).0.1 m
  unfolding after_dispatch
  after_dispatch-keeps d msg m (w, none) h = acknowledge-keeps w d msg m h
  after_dispatch-keeps d msg m (w, some x) h = after_error-keeps w d msg m x (as_domain_error x) h

  module _ ⦃cmds : Command C⦄ where
    after_processed-Seen :
        (waits : Waits) (w : W) (d : D) (msg : Message) (o : Bool ⊎ Error) (w' : W) (d' : D)
        → c.dedup.processed d msg.id ≡ o
        → after_processed c waits w d msg o ≡ ((w', d'), none)
        → Seen d' msg
    unfolding after_processed after_decode
    after_processed-Seen waits w d msg (inl true) w' d' h e =
        let same : d ≡ d' = ap (λ (p : (W × D) × Option Error). p.0.1) e in rw (sym same) h
    after_processed-Seen waits w d msg (inr x) w' d' h e = absurd cc
    after_processed-Seen waits w d msg (inl false) w' d' h e =
        decoded (decode_command c.registry msg) e
      where
        decoded : (o : C ⊎ Error) → after_decode c waits w d msg o ≡ ((w', d'), none) → Seen d' msg
        decoded (inl cmd) q = after_dispatch-Seen d msg (dispatch c.bus waits w cmd) w' d' q
        decoded (inr x) q = acknowledge-Seen (reject c w msg x) d msg w' d' q

    after_decode-keeps :
        (waits : Waits) (w : W) (d : D) (msg m : Message) (o : C ⊎ Error)
        → Seen d m
        → Seen (after_decode c waits w d msg o).0.1 m
    unfolding after_decode
    after_decode-keeps waits w d msg m (inl cmd) h =
        after_dispatch-keeps d msg m (dispatch c.bus waits w cmd) h
    after_decode-keeps waits w d msg m (inr x) h = acknowledge-keeps (reject c w msg x) d msg m h

    after_processed-keeps :
        (waits : Waits) (w : W) (d : D) (msg m : Message) (o : Bool ⊎ Error)
        → Seen d m
        → Seen (after_processed c waits w d msg o).0.1 m
    unfolding after_processed
    after_processed-keeps waits w d msg m (inl true) h = h
    after_processed-keeps waits w d msg m (inr x) h = h
    after_processed-keeps waits w d msg m (inl false) h =
        after_decode-keeps waits w d msg m (decode_command c.registry msg) h

    deliveries-keeps :
        (s : W × D) (ms : List (Waits × Message)) (m : Message)
        → Seen s.1 m
        → Seen (deliveries c s ms).1 m
    unfolding consume
    deliveries-keeps s [] m h = h
    deliveries-keeps (w, d) ((waits, msg) ∷ later) m h =
        deliveries-keeps (consume c waits (w, d) msg).0 later m
          (after_processed-keeps waits w d msg m (c.dedup.processed d msg.id) h)

    consume_again :
        (waits : Waits) (s : W × D) (m : Message) → Seen s.1 m → consume c waits s m ≡ (s, none)
    unfolding consume after_processed
    consume_again waits (w, d) m h = rw h refl

-- Once a consumer acknowledged a message, by an executed command or by a rejection, any later
-- delivery of a message with the same ID, whatever was delivered in between and however that went,
-- is acknowledged and changes nothing: neither the state of the handlers, nor the record of
-- rejections, nor the deduplicator. The deduplicator is any that keeps the marks it accepted.
pub acknowledged_once :
    {W C D : Type 0} ⦃cmds : Command C⦄ (c : Consumer W C D)
    → Remembers c.dedup
    → (waits again : Waits) (w w' : W) (d d' : D) (msg copy : Message)
      (between : List (Waits × Message))
    → consume c waits (w, d) msg ≡ ((w', d'), none)
    → copy.id ≡ msg.id
    → consume c again (deliveries c (w', d') between) copy ≡ (deliveries c (w', d') between, none)
unfolding consume
acknowledged_once c laws waits again w w' d d' msg copy between e same =
    let seen : c.dedup.processed d' copy.id ≡ inl true =
      rw same
        (after_processed-Seen c laws waits w d msg (c.dedup.processed d msg.id) w' d' refl e) in
    consume_again c laws again (deliveries c (w', d') between) copy
      (deliveries-keeps c laws (w', d') between copy seen)

-- A handler's failure that redelivery can repair: the message decodes, its command's dispatch
-- returned the error `x`, and no DomainError is in the chain of `x`.
pub record IsTransient {W C D : Type 0} ⦃cmds : Command C⦄ (c : Consumer W C D) (waits : Waits)
    (w : W) (msg : Message) (w' : W) (x : Error) : Type 0 where
  pub cmd : C
  pub decodes : decode_command c.registry msg ≡ inl cmd
  pub fails : dispatch c.bus waits w cmd ≡ (w', some x)
  pub not_domain : as_domain_error x ≡ none

module _ {W C D : Type 0} ⦃cmds : Command C⦄ (c : Consumer W C D)
    (accepts : (d : D) (id : Text) → (c.dedup.mark_processed d id).1 ≡ none) where
  acknowledge-nil :
      (w w' : W) (d d' : D) (msg : Message) (x : Error) → acknowledge c w d msg ≢ ((w', d'), some x)
  acknowledge-nil w w' d d' msg x e =
      let f : (c.dedup.mark_processed d msg.id).1 ≡ some x =
        ap (λ (p : (W × D) × Option Error). p.1) e in
      let g : none ≡ some x = sym (accepts d msg.id) ∙ f in absurd cc

  failed_dispatch :
      (waits : Waits) (w w' : W) (d d' : D) (msg : Message) (cmd : C) (x : Error)
      → decode_command c.registry msg ≡ inl cmd
      → (p : W × Option Error) → dispatch c.bus waits w cmd ≡ p
      → after_dispatch c d msg p ≡ ((w', d'), some x)
      → IsTransient c waits w msg w' x × (d' ≡ d)
  unfolding after_dispatch
  failed_dispatch waits w w' d d' msg cmd x dec (w1, none) f e =
      absurd (acknowledge-nil w1 w' d d' msg x e)
  failed_dispatch waits w w' d d' msg cmd x dec (w1, some y) f e =
      by_class (as_domain_error y) refl e
    where
      by_class :
          (o : Option DomainError)
          → as_domain_error y ≡ o
          → after_error c w1 d msg y o ≡ ((w', d'), some x)
          → IsTransient c waits w msg w' x × (d' ≡ d)
      by_class (some definitive) q r = absurd (acknowledge-nil (reject c w1 msg y) w' d d' msg x r)
      by_class none q r =
          let same : ◌≡◌ {A = W × Option Error} (w1, some y) (w', some x) =
            ap (λ (p : (W × D) × Option Error). (p.0.0, p.1)) r in
          let errors : some y ≡ some x = ap (λ (p : (W × D) × Option Error). p.1) r in
          let err_same : y ≡ x = cc in
          (
            record { cmd = cmd; decodes = dec; fails = f ∙ same; not_domain = rw (sym err_same) q },
            sym (ap (λ (p : (W × D) × Option Error). p.0.1) r),
          )

  IsTransient-decoded :
      (waits : Waits) (w w' : W) (d d' : D) (msg : Message) (x : Error) (o : C ⊎ Error)
      → decode_command c.registry msg ≡ o
      → after_decode c waits w d msg o ≡ ((w', d'), some x)
      → IsTransient c waits w msg w' x × (d' ≡ d)
  unfolding after_decode
  IsTransient-decoded waits w w' d d' msg x (inl cmd) q r =
      failed_dispatch waits w w' d d' msg cmd x q (dispatch c.bus waits w cmd) refl r
  IsTransient-decoded waits w w' d d' msg x (inr y) q r =
      absurd (acknowledge-nil (reject c w msg y) w' d d' msg x r)

  IsTransient-processed :
      (waits : Waits) (w w' : W) (d d' : D) (msg : Message) (x : Error) (b : Bool)
      → after_processed c waits w d msg (inl b) ≡ ((w', d'), some x)
      → IsTransient c waits w msg w' x × (d' ≡ d)
  unfolding after_processed
  IsTransient-processed waits w w' d d' msg x true r = absurd cc
  IsTransient-processed waits w w' d d' msg x false r =
      IsTransient-decoded waits w w' d d' msg x (decode_command c.registry msg) refl r

-- With a deduplicator that always answers and accepts every mark, as the one in memory does, an
-- error that the consumer returns to the broker is a command's transient failure: the message
-- decodes, and its command's dispatch returned that error, which has no DomainError in its chain.
-- The deduplicator is unchanged, so that a redelivery executes the command again.
pub error-IsTransient :
    {W C D : Type 0} ⦃cmds : Command C⦄ (c : Consumer W C D)
    (accepts : (d : D) (id : Text) → (c.dedup.mark_processed d id).1 ≡ none)
    (answers : (d : D) (id : Text) → (b : Bool) × (c.dedup.processed d id ≡ inl b)) (waits : Waits)
    (w w' : W) (d d' : D) (msg : Message) (x : Error)
    → consume c waits (w, d) msg ≡ ((w', d'), some x)
    → IsTransient c waits w msg w' x × (d' ≡ d)
unfolding consume
error-IsTransient c accepts answers waits w w' d d' msg x e =
    let (b, a) = answers d msg.id in
    IsTransient-processed c accepts waits w w' d d' msg x b
      (ap (after_processed c waits w d msg) (sym a) ∙ e)
