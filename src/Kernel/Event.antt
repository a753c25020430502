-- ===== src/Kernel/Event.antt =====
-- kernel/event.go: what the framework asks of a domain event.
use gohex.Prelude.Text.{Text}
use gohex.Kernel.Result.{Result}

-- `event_name` is the interface's method. `marshal` is encoding/json on the event's Go type, which
-- the event store calls.
pub record DomainEvent {ℓ} (E : Type ℓ) : Type ℓ where
  pub event_name : E → Text
  pub marshal : E → Result Text
