-- ===== src/Cqrs/Wire.antt =====
-- cqrs/wire.go: commands as broker messages, the registry that decodes them, and deduplication.
use gohex.Prelude.{
  ℕ, ◌≡◌, refl, Bool, true, false, ◌||◌, Option, none, some, [], ℤ, pos, is_some, if◌then◌else◌,
  sym, ◌⊎◌, inl, inr, Bool-cases,
}
use gohex.Prelude.EqClass.{◌==◌}
use gohex.Prelude.Map.{Map, get, put, get-put, get-put_self}
use gohex.Prelude.Text.{Text, text_eq, lit, is_empty}
use gohex.Kernel.Errors.{Error, plain, wrap}
use gohex.Kernel.Result.{Result, ok, panic, wrapping, ◌>>=◌}
use gohex.Cqrs.Command.{Command}
use gohex.Broker.Message.{Message}
use gohex.EventStore.Types.{Metadata}

-- What encoding/json and the optional ContractVersion method give for a command: `none` is a Go
-- type that is not a VersionedCommand.
pub record WireCommand (C : Type 0) : Type 0 where
  pub marshal : C → Result Text
  pub contract_version : C → Option ℤ

module _ {C : Type 0} ⦃cmds : Command C⦄ where
  unfoldable pub new_command_message :
      ⦃wire : WireCommand C⦄ → Text → Text → ℕ → C → Metadata → Result Message
  new_command_message ⦃wire⦄ id key occurred_at cmd metadata = do
    payload ← wrapping (lit "cqrs: encoding") (wire.marshal cmd)
    ok (record {
      id = id;
      key = key;
      type_name = cmds.command_name cmd;
      version = elim (wire.contract_version cmd) [ none ↦ pos 1 | some v ↦ v ];
      occurred_at = occurred_at;
      payload = payload;
      metadata = metadata;
    })

-- Neither the decoders nor Decode panic: json.Unmarshal returns its errors.
abbrev pub CommandRegistry : Type 0 → Type 0
CommandRegistry C = Map Text (Text → C ⊎ Error)

module _ {C : Type 0} where
  -- What a decoder makes of json.Unmarshal's outcome.
  abbrev pub decoding : C ⊎ Error → C ⊎ Error
  decoding (inl cmd) = inl cmd
  decoding (inr e) = inr (wrap (lit "cqrs: decoding") e)

  -- RegisterCommand, for the Go type whose zero value has the CommandName `name`; `unmarshal` is
  -- json.Unmarshal into it.
  unfoldable pub register_command :
      CommandRegistry C → Text → (Text → C ⊎ Error) → Result (CommandRegistry C)
  register_command r name unmarshal =
      if is_empty name || is_some (get r name)
      then panic
      else ok (put r name (λ payload. decoding (unmarshal payload)))

  unfoldable pub decode_command : CommandRegistry C → Message → C ⊎ Error
  decode_command r msg = elim (get r msg.type_name) [
    | none ↦ inr (plain (lit "cqrs: unregistered command"))
    | some decode ↦ decode msg.payload
  ]

-- The port over a deduplicator's state `D`.
pub record Deduplicator (D : Type 0) : Type 0 where
  pub processed : D → Text → Bool ⊎ Error
  pub mark_processed : D → Text → D × Option Error

abbrev pub MemoryDeduplicator : Type 0
MemoryDeduplicator = Map Text Bool

abbrev pub new_memory_deduplicator : MemoryDeduplicator
new_memory_deduplicator = []

unfoldable pub memory_processed : MemoryDeduplicator → Text → Bool ⊎ Error
memory_processed seen id = inl (elim (get seen id) [ none ↦ false | some b ↦ b ])

unfoldable pub memory_mark_processed : MemoryDeduplicator → Text → MemoryDeduplicator × Option Error
memory_mark_processed seen id = (put seen id true, none)

abbrev pub memory_deduplicator : Deduplicator MemoryDeduplicator
memory_deduplicator = record {
  processed = memory_processed;
  mark_processed = memory_mark_processed;
}

-- The contract of the port: a mark that returned nil shows at once, and no mark removes another.
pub record Remembers {D : Type 0} (dedup : Deduplicator D) : Type 0 where
  pub marks :
      (d d' : D) (id : Text)
      → dedup.mark_processed d id ≡ (d', none)
      → dedup.processed d' id ≡ inl true
  pub keeps :
      (d : D) (id j : Text)
      → dedup.processed d id ≡ inl true
      → dedup.processed (dedup.mark_processed d j).0 id ≡ inl true

memory-marks : (d : MemoryDeduplicator) (id : Text) → memory_processed (put d id true) id ≡ inl true
unfolding memory_processed
memory-marks d id = rw (get-put_self d id true) refl

memory-keeps :
    (d : MemoryDeduplicator) (id j : Text)
    → memory_processed d id ≡ inl true
    → memory_processed (put d j true) id ≡ inl true
unfolding memory_processed
memory-keeps d id j h =
    rw (get-put d j id true) (elim (Bool-cases (j == id)) [ inl e ↦ rw e refl | inr e ↦ rw e h ])

pub memory_deduplicator-Remembers : Remembers memory_deduplicator
unfolding memory_mark_processed
memory_deduplicator-Remembers = record {
  marks = λ d d' id e. let s : put d id true ≡ d' = cc in rw (sym s) (memory-marks d id);
  keeps = λ d id j h. memory-keeps d id j h;
}
