-- ===== src/Broker/Message.antt =====
-- broker/broker.go: the envelope and the ports.
use gohex.Prelude.{ℕ, ℤ, Option, List}
use gohex.Prelude.Text.{Text, lit}
use gohex.Kernel.Errors.{Error}
use gohex.Kernel.Result.{Result, ok, wrapping, ◌>>=◌}
use gohex.EventStore.Types.{Metadata}

pub record Message : Type 0 where
  pub id : Text
  pub key : Text
  pub type_name : Text
  pub version : ℤ  -- int
  pub occurred_at : ℕ
  pub payload : Text
  pub metadata : Metadata

-- The methods of an integration event's Go type, and encoding/json on it.
pub record IntegrationEvent (I : Type 0) : Type 0 where
  pub event_name : I → Text
  pub contract_version : I → ℤ
  pub marshal : I → Result Text

unfoldable pub new_message :
    {I : Type 0} ⦃ie : IntegrationEvent I⦄ → Text → Text → ℕ → I → Metadata → Result Message
new_message ⦃ie⦄ id key occurred_at e metadata = do
  payload ← wrapping (lit "broker: encoding") (ie.marshal e)
  ok (record {
    id = id;
    key = key;
    type_name = ie.event_name e;
    version = ie.contract_version e;
    occurred_at = occurred_at;
    payload = payload;
    metadata = metadata;
  })

-- The outbound port over a broker's state `B`: nil means that every message was accepted.
pub record Publisher (B : Type 0) : Type 0 where
  pub publish : B → Text → List Message → B × Option Error

-- A handler works on a state `W`; nil acknowledges the message.
abbrev pub Handler : Type 0 → Type 0
Handler W = W → Message → W × Option Error
