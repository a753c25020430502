-- ===== src/O11y/Origin.antt =====
-- o11y/worker.go, and the two helpers of o11y/o11y.go that it uses: the origin stamp that a durable
-- hand-off carries. The propagator writes a span context into a map and reads it back.
pub mod Chain
use gohex.Prelude.{Bool, true, false, Option, none, some, List, [], ◌∷◌, ◌++◌, if◌then◌else◌}
use gohex.Prelude.Map.{Map, get, put}
use gohex.Prelude.Text.{Text, text_eq, lit, is_empty}
use gohex.EventStore.Types.{Metadata}

abbrev pub origin_traceparent_key : Text
origin_traceparent_key = lit "gohex.origin.traceparent"

abbrev pub origin_tracestate_key : Text
origin_tracestate_key = lit "gohex.origin.tracestate"

-- otel's text map propagator, on span contexts `C`. `invalid` is the zero span context.
pub record Propagator (C : Type 0) : Type 0 where
  pub is_valid : C → Bool
  pub invalid : C
  pub write : C → Map Text Text → Map Text Text
  pub read : Map Text Text → C

-- The values of a context that the package uses.
pub record TraceContext (C : Type 0) : Type 0 where
  pub span : C
  pub origin : Metadata

-- meta[key]; a missing key reads as "".
unfoldable pub value_at : Map Text Text → Text → Text
value_at m key = elim (get m key) [ none ↦ [] | some v ↦ v ]

-- A map of one key, and of a second if its value is not empty.
unfoldable pub two_keys : Text → Text → Text → Text → Map Text Text
two_keys key value second v =
    if is_empty v then put [] key value else put (put [] key value) second v

module _ {C : Type 0} (p : Propagator C) where
  -- Inject
  unfoldable pub inject : TraceContext C → Metadata → Metadata
  inject ctx none = if p.is_valid ctx.span then some (p.write ctx.span []) else none
  inject ctx (some m) = if p.is_valid ctx.span then some (p.write ctx.span m) else some m

  -- The span context of Extract on a context without one.
  unfoldable pub extract : Metadata → C
  extract none = p.invalid
  extract (some []) = p.invalid
  extract (some (kv ∷ m)) = p.read (kv ∷ m)

  unfoldable pub live_span_context_from : Map Text Text → C
  unfolding value_at two_keys extract
  live_span_context_from m =
      if is_empty (value_at m (lit "traceparent"))
      then p.invalid
      else extract (
          some (
            two_keys (lit "traceparent") (value_at m (lit "traceparent")) (lit "tracestate")
              (value_at m (lit "tracestate"))))

  unfoldable pub span_context_from : Map Text Text → C
  unfolding live_span_context_from
  span_context_from m =
      if p.is_valid (live_span_context_from m)
      then live_span_context_from m
      else if is_empty (value_at m origin_traceparent_key)
      then p.invalid
      else extract (
          some (
            two_keys (lit "traceparent") (value_at m origin_traceparent_key) (lit "tracestate")
              (value_at m origin_tracestate_key)))

  abbrev pub if_valid : C → List C
  if_valid c = if p.is_valid c then c ∷ [] else []

  -- The span contexts that StartLinked links its new root to: the row's origin and the batch.
  unfoldable pub links : TraceContext C → Map Text Text → List C
  unfolding span_context_from
  links ctx m = if_valid (span_context_from m) ++ if_valid ctx.span

-- OriginMetadata; both of its branches write the origin keys.
unfoldable pub origin_of : Map Text Text → Metadata
unfolding value_at two_keys
origin_of m =
    if is_empty (value_at m origin_traceparent_key)
    then if is_empty (value_at m (lit "traceparent"))
      then none
      else some (
          two_keys origin_traceparent_key (value_at m (lit "traceparent")) origin_tracestate_key
            (value_at m (lit "tracestate")))
    else some (
        two_keys origin_traceparent_key (value_at m origin_traceparent_key) origin_tracestate_key
          (value_at m origin_tracestate_key))

unfoldable pub origin_metadata : Metadata → Metadata
unfolding origin_of
origin_metadata none = none
origin_metadata (some []) = none
origin_metadata (some (kv ∷ m)) = origin_of (kv ∷ m)

module _ {C : Type 0} where
  abbrev pub with_stamp : TraceContext C → Metadata → TraceContext C
  with_stamp ctx none = ctx
  with_stamp ctx (some origin) = record ctx { origin = some origin }

  unfoldable pub with_origin : TraceContext C → Metadata → TraceContext C
  with_origin ctx metadata = with_stamp ctx (origin_metadata metadata)

  -- A copy of the stamp, or nil.
  unfoldable pub origin_from_context : TraceContext C → Metadata
  origin_from_context ctx = elim ctx.origin [
    | none ↦ none
    | some [] ↦ none
    | some (kv ∷ m) ↦ some (kv ∷ m)
  ]

  -- StartLinked, with the span that the tracer starts as a new root.
  unfoldable pub start_linked : C → TraceContext C → Metadata → TraceContext C
  unfolding with_origin
  start_linked root ctx metadata = with_origin (record ctx { span = root }) metadata

  -- The extractor that Init installs with SetContextMetadata.
  unfoldable pub context_metadata : Propagator C → TraceContext C → Metadata
  unfolding inject origin_from_context
  context_metadata p ctx = inject p ctx (origin_from_context ctx)
