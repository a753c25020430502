-- ===== src/EventStore/Types.antt =====
-- eventstore/store.go: streams, events as appended and as recorded, and the port.
use gohex.Prelude.{ℕ, ◌≡◌, ◌↔◌, Bool, true, ◌&&◌, Option, arith, List, ℤ}
use gohex.Prelude.EqClass.{Eq}
use gohex.Prelude.Map.{Map}
use gohex.Prelude.Text.{Text, lit, text_beq, text_beq_iff}
use gohex.Kernel.Errors.{DomainError, new_domain_error}
use gohex.Kernel.Result.{Result}

abbrev pub err_not_found : DomainError
err_not_found = new_domain_error (lit "not_found") (lit "aggregate does not exist")

pub record StreamId : Type 0 where
  pub category : Text
  pub id : Text

unfoldable pub stream_beq : StreamId → StreamId → Bool
stream_beq a b = text_beq a.category b.category && text_beq a.id b.id

pub stream_beq_iff : (a b : StreamId) → (stream_beq a b ≡ true) ↔ (a ≡ b)
unfolding stream_beq
stream_beq_iff a b = ground (arith, text_beq_iff a.category b.category, text_beq_iff a.id b.id)

-- A struct of strings is a map key by the equality of its fields.
instance abbrev pub stream_eq : Eq StreamId
stream_eq = record { beq = stream_beq; beq_iff = stream_beq_iff }

-- map[string]string; `none` is the nil map.
abbrev pub Metadata : Type 0
Metadata = Option (Map Text Text)

pub record EventData : Type 0 where
  pub event_name : Text
  pub schema_version : ℕ
  pub payload : Text
  pub metadata : Metadata

-- Positions and versions are int64 counters from 1. A time is a number of its own clock.
pub record RecordedEvent : Type 0 where
  pub global_seq : ℕ
  pub stream : StreamId
  pub version : ℕ
  pub event_name : Text
  pub schema_version : ℕ
  pub payload : Text
  pub metadata : Metadata
  pub occurred_at : ℕ

-- The port over a store's state `S`. The argument behind the state of `append` is the clock's
-- reading. The context carries only cancellation here, which shows as an error.
pub record Store (S : Type 0) : Type 0 where
  pub append : S → ℕ → StreamId → ℕ → List EventData → S × Result ℕ
  pub load : S → StreamId → ℕ → Result (List RecordedEvent)
  pub read_all : S → ℕ → ℤ → Result (List RecordedEvent)
  pub head : S → Result ℕ
