-- ===== src/EventStore/Position.antt =====
-- eventstore/position.go and eventstore/metadata.go: what a context carries to Save.
pub mod Laws
use gohex.Prelude.{
  ℕ, zero, suc, ◌+◌, Option, none, some, List, [], ◌∷◌, ◌++◌, length, ltb, leb, if◌then◌else◌,
}
use gohex.Prelude.Map.{Map}
use gohex.Prelude.Text.{Text}
use gohex.EventStore.Types.{Metadata}

-- The values of a context: the Position captured on it, an address into the heap of Positions, and
-- what the tracing library keeps there.
pub record Context : Type 0 where
  pub position : Option ℕ
  pub trace : Metadata

-- Every Position made so far, by address; each holds its field `seq`.
abbrev pub Positions : Type 0
Positions = List ℕ

-- record keeps the maximum.
unfoldable pub record_seq : ℕ → ℕ → ℕ
record_seq current seq = if ltb current seq then seq else current

abbrev pub modify_at : ℕ → (ℕ → ℕ) → Positions → Positions
modify_at i f [] = []
modify_at zero f (x ∷ heap) = f x ∷ heap
modify_at (suc i) f (x ∷ heap) = x ∷ modify_at i f heap

-- The derived context and the address of its Position.
unfoldable pub capture_position : Context → Positions → Context × ℕ × Positions
capture_position ctx heap =
    (record ctx { position = some (length heap) }, length heap, heap ++ 0 ∷ [])

unfoldable pub record_position : Context → ℕ → Positions → Positions
unfolding record_seq
record_position ctx seq heap = elim ctx.position [
  | none ↦ heap
  | some p ↦ if ltb 0 seq then modify_at p (λ c. record_seq c seq) heap else heap
]

-- The extractor that SetContextMetadata installs; `none` before the call.
abbrev pub Extractor : Type 0
Extractor = Option (Context → Metadata)

abbrev nil_if_empty : Metadata → Metadata
nil_if_empty none = none
nil_if_empty (some []) = none
nil_if_empty (some (kv ∷ md)) = some (kv ∷ md)

unfoldable pub set_context_metadata : (Context → Metadata) → Extractor → Extractor
set_context_metadata fn installed = some fn

unfoldable pub metadata_from_context : Extractor → Context → Metadata
metadata_from_context none ctx = none
metadata_from_context (some fn) ctx = nil_if_empty (fn ctx)
