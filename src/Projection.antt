-- ===== src/Projection.antt =====
-- projection/projection.go: read models, their handlers and their checkpoints.
pub mod Inbox
pub mod Postgres
pub mod Runners
pub mod Wait
use gohex.Prelude.{
  ℕ, Bool, ◌||◌, Option, none, some, List, [], ◌∷◌, ◌++◌, ℤ, pos, is_pos, is_some, ◌⊎◌, inl, inr,
  if◌then◌else◌,
}
use gohex.Prelude.Map.{Map, get, put}
use gohex.Prelude.Text.{Text, text_eq, lit, is_empty}
use gohex.Prelude.Decimal.{itoa}
use gohex.Kernel.Errors.{Error, wrap}
use gohex.Kernel.Result.{Result, ok, err, panic, wrapping}
use gohex.EventStore.Types.{StreamId, Metadata}
use gohex.EventStore.Checkpoint.{CheckpointStore}
use gohex.Broker.Message.{Message, Handler}

pub record Meta : Type 0 where
  pub stream : StreamId
  pub version : ℕ
  pub global_seq : ℕ
  pub occurred_at : ℕ
  pub metadata : Metadata

-- Handlers work on a state `W`, the read tables. `E` is the type of the own events.
abbrev pub DomainHandler : Type 0 → Type 0 → Type 0
DomainHandler W E = W → E → Meta → W × Option Error

pub record Projection (W E : Type 0) : Type 0 where
  pub name : Text
  pub domain_handlers : Map Text (DomainHandler W E)
  pub foreign_handlers : Map Text (Handler W)

unfoldable pub integration_key : Text → ℤ → Text
integration_key name version = name ++ lit "@v" ++ itoa version

pub record Config : Type 0 where
  pub poll_interval : ℤ
  pub batch_size : ℤ

-- The observer of an item only wraps the handler's context, so it is left out.
unfoldable pub with_defaults : Config → Config
with_defaults c = record {
  poll_interval = if is_pos c.poll_interval then c.poll_interval else pos 200_000_000;
  batch_size = if is_pos c.batch_size then c.batch_size else pos 100;
}

module _ {W : Type 0} where
  -- The handler that OnIntegration installs around json.Unmarshal.
  abbrev decoding_handler :
      {I : Type 0} → (Text → I ⊎ Error) → (W → I → Message → W × Option Error) → Handler W
  decoding_handler unmarshal fn w msg = elim (unmarshal msg.payload) [
    | inl e ↦ fn w e msg
    | inr x ↦ (w, some (wrap (lit "projection: decoding") x))
  ]

module _ {W E : Type 0} where
  unfoldable pub new : Text → Result (Projection W E)
  new name =
      if is_empty name
      then panic
      else ok (record { name = name; domain_handlers = []; foreign_handlers = [] })

  -- On, for the Go type whose EventName is `name`.
  unfoldable pub on : Projection W E → Text → DomainHandler W E → Result (Projection W E)
  on p name fn =
      if is_some (get p.domain_handlers name)
      then panic
      else ok (record p { domain_handlers = put p.domain_handlers name fn })

  -- OnIntegration, for the Go type with this EventName and ContractVersion.
  unfoldable pub on_integration :
      {I : Type 0}
      → Projection W E
      → Text
      → ℤ
      → (Text → I ⊎ Error)
      → (W → I → Message → W × Option Error)
      → Result (Projection W E)
  unfolding integration_key
  on_integration p name version unmarshal fn =
      let key = integration_key name version in
      if is_some (get p.foreign_handlers key)
      then panic
      else ok (record p {
        foreign_handlers = put p.foreign_handlers key (decoding_handler unmarshal fn);
      })

  unfoldable pub store_checkpoint : Projection W E → Text
  store_checkpoint p = lit "projection." ++ p.name ++ lit ".store"

  unfoldable pub inbox_checkpoint : Projection W E → Text
  inbox_checkpoint p = lit "projection." ++ p.name ++ lit ".inbox"

module _ {K : Type 0} where
  abbrev reset_failed : K × Result (Unit {0}) → K × Result (Unit {0})
  reset_failed (k, r) = (k, wrapping (lit "projection: reset") r)

  -- The second step of Reset, which a failure of the first leaves out.
  abbrev reset_inbox : CheckpointStore K → Text → K × Result (Unit {0}) → K × Result (Unit {0})
  reset_inbox cps inbox (k, ok u) = reset_failed (cps.set_checkpoint k inbox 0)
  reset_inbox cps inbox (k, err e) = (k, err e)
  reset_inbox cps inbox (k, panic) = (k, panic)

  unfoldable pub reset :
      {W E : Type 0} → CheckpointStore K → Projection W E → K → K × Result (Unit {0})
  unfolding store_checkpoint inbox_checkpoint
  reset cps p k =
      reset_inbox cps (inbox_checkpoint p)
        (reset_failed (cps.set_checkpoint k (store_checkpoint p) 0))
