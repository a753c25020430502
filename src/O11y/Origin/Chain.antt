-- ===== src/O11y/Origin/Chain.antt =====
-- o11y/worker.go: the origin stamp along a chain of durable hand-offs.
use gohex.Prelude.{
  ◌≡◌, refl, sym, ap, ◌∙◌, true, false, none, some, List, [], ◌∷◌, inl, inr, Bool-cases,
}
use gohex.Prelude.Map.{Map, get, put}
use gohex.Prelude.Text.{Text, text_eq, text_beq, lit, is_empty}
use gohex.EventStore.Types.{Metadata}
use gohex.O11y.Origin.{
  origin_traceparent_key, origin_tracestate_key, Propagator, TraceContext, value_at, two_keys,
  inject, origin_of, origin_metadata, with_stamp, with_origin, origin_from_context, start_linked,
  context_metadata,
}

abbrev stamp : Text → Text → Map Text Text
stamp parent state = two_keys origin_traceparent_key parent origin_tracestate_key state

value_at-stamp_parent :
    (parent state : Text) → value_at (stamp parent state) origin_traceparent_key ≡ parent
unfolding value_at two_keys get put text_beq
value_at-stamp_parent parent [] = refl
value_at-stamp_parent parent (b ∷ bs) = refl

value_at-stamp_state :
    (parent state : Text) → value_at (stamp parent state) origin_tracestate_key ≡ state
unfolding value_at two_keys get put text_beq
value_at-stamp_state parent [] = refl
value_at-stamp_state parent (b ∷ bs) = refl

-- A map that carries a stamp is read as that stamp.
origin_metadata-carrying :
    (m : Map Text Text) (parent state : Text)
    → is_empty parent ≡ false
    → value_at m origin_traceparent_key ≡ parent
    → value_at m origin_tracestate_key ≡ state
    → origin_metadata (some m) ≡ some (stamp parent state)
unfolding origin_metadata origin_of
origin_metadata-carrying [] parent state ne p s =
    let e : parent ≡ [] = sym p ∙ unfold value_at get in refl in
    let n : true ≡ false = ap is_empty (sym e) ∙ ne in cc
origin_metadata-carrying (kv ∷ m) parent state ne p s = rw (p, s, ne) refl

-- What OriginMetadata returns is a stamp whose traceparent is not empty.
record IsStamp (o : Map Text Text) : Type 0 where
  parent : Text
  state : Text
  present : is_empty parent ≡ false
  stamped : o ≡ stamp parent state

IsStamp-of :
    (parent state : Text) (o : Map Text Text)
    → is_empty parent ≡ false
    → some (stamp parent state) ≡ some o
    → IsStamp o
IsStamp-of parent state o ne h = record {
  parent = parent;
  state = state;
  present = ne;
  stamped = cc;
}

origin_of-IsStamp : (m o : Map Text Text) → origin_of m ≡ some o → IsStamp o
unfolding origin_of
origin_of-IsStamp m o h = elim (Bool-cases (is_empty (value_at m origin_traceparent_key))) [
  | inr kept ↦
      IsStamp-of (value_at m origin_traceparent_key) (value_at m origin_tracestate_key) o kept
        (rw (origin_of, kept) at h)
  | inl fresh ↦ elim (Bool-cases (is_empty (value_at m (lit "traceparent")))) [
    | inr live ↦
        IsStamp-of (value_at m (lit "traceparent")) (value_at m (lit "tracestate")) o live
          (rw (origin_of, fresh, live) at h)
    | inl dead ↦ let e : none ≡ some o = rw (origin_of, fresh, dead) at h in cc
  ]
]

origin_metadata-IsStamp :
    (metadata : Metadata) (o : Map Text Text) → origin_metadata metadata ≡ some o → IsStamp o
unfolding origin_metadata
origin_metadata-IsStamp none o h = cc
origin_metadata-IsStamp (some []) o h = cc
origin_metadata-IsStamp (some (kv ∷ m)) o h = origin_of-IsStamp (kv ∷ m) o h

IsStamp-ne-nil : (o : Map Text Text) → IsStamp o → o ≡ [] → ⊥
IsStamp-ne-nil o st e =
    let blank : value_at o origin_traceparent_key ≡ [] =
      ap (λ (m : Map Text Text). value_at m origin_traceparent_key) e
      ∙ unfold value_at get in refl in
    let held : value_at o origin_traceparent_key ≡ st.parent =
      ap (λ (m : Map Text Text). value_at m origin_traceparent_key) st.stamped
      ∙ value_at-stamp_parent st.parent st.state in
    let n : true ≡ false = ap is_empty (sym blank ∙ held) ∙ st.present in cc

origin_from_context-stamp :
    {C : Type 0} (ctx : TraceContext C) (o : Map Text Text)
    → IsStamp o
    → origin_from_context (record ctx { origin = some o }) ≡ some o
unfolding origin_from_context
origin_from_context-stamp ctx [] st = absurd (IsStamp-ne-nil [] st refl)
origin_from_context-stamp ctx (kv ∷ m) st = refl

start_linked-marked :
    {C : Type 0} (root : C) (ctx : TraceContext C) (metadata : Metadata) (o : Map Text Text)
    → origin_metadata metadata ≡ some o
    → start_linked root ctx metadata ≡ record { span = root; origin = some o }
unfolding start_linked with_origin
start_linked-marked root ctx metadata o h = ap (with_stamp (record ctx { span = root })) h

module _ {C : Type 0} (p : Propagator C) where
  -- The propagator writes its own keys and leaves the origin's as they are.
  pub record KeepsOrigin : Type 0 where
    pub parent :
        (c : C) (m : Map Text Text)
        → value_at (p.write c m) origin_traceparent_key ≡ value_at m origin_traceparent_key
    pub state :
        (c : C) (m : Map Text Text)
        → value_at (p.write c m) origin_tracestate_key ≡ value_at m origin_tracestate_key

  -- The metadata of the events that a worker's commands save, where the worker runs under a new
  -- root span and was handed a row with that metadata.
  abbrev pub hand_off : C → TraceContext C → Metadata → Metadata
  hand_off root ctx metadata = context_metadata p (start_linked root ctx metadata)

  -- One worker after the other, each handed what the one before saved.
  pub hand_offs : List (C × TraceContext C) → Metadata → Metadata
  hand_offs [] metadata = metadata
  hand_offs ((root, ctx) ∷ rest) metadata = hand_offs rest (hand_off root ctx metadata)

  module _ (keeps : KeepsOrigin) where
    inject-stamp :
        (ctx : TraceContext C) (o : Map Text Text)
        → IsStamp o
        → origin_metadata (inject p ctx (some o)) ≡ some o
    unfolding inject origin_metadata
    inject-stamp ctx o st =
        let sp = value_at-stamp_parent st.parent st.state in
        let ss = value_at-stamp_state st.parent st.state in
        elim (Bool-cases (p.is_valid ctx.span)) [
          | inl yes_valid ↦
              rw (inject, yes_valid, st.stamped)
                (origin_metadata-carrying (p.write ctx.span (stamp st.parent st.state)) st.parent
                  st.state st.present (keeps.parent _ _ ∙ sp) (keeps.state _ _ ∙ ss))
          | inr no_span ↦
              rw (inject, no_span, st.stamped)
                (origin_metadata-carrying (stamp st.parent st.state) st.parent st.state st.present
                  sp ss)
        ]

    hand_off_keeps :
        (root : C) (ctx : TraceContext C) (metadata : Metadata) (o : Map Text Text)
        → origin_metadata metadata ≡ some o
        → origin_metadata (hand_off root ctx metadata) ≡ some o
    unfolding context_metadata
    hand_off_keeps root ctx metadata o h =
        let st = origin_metadata-IsStamp metadata o h in
        let marked : TraceContext C = record { span = root; origin = some o } in
        rw (start_linked-marked root ctx metadata o h, origin_from_context-stamp marked o st)
          (inject-stamp marked o st)

    -- The first origin of a chain of hand-offs stays the origin. A row whose metadata carries an
    -- origin stamp or a live trace context has an origin; let worker after worker act on what the
    -- one before saved, each under any new root span and in any context: the metadata at the end of
    -- the chain has the same origin. It is supposed that the propagator leaves the origin's keys
    -- alone.
    pub first_origin_stays :
        (chain : List (C × TraceContext C)) (metadata : Metadata) (o : Map Text Text)
        → origin_metadata metadata ≡ some o
        → origin_metadata (hand_offs chain metadata) ≡ some o
    unfolding hand_offs
    first_origin_stays [] metadata o h = h
    first_origin_stays ((root, ctx) ∷ rest) metadata o h =
        first_origin_stays rest (hand_off root ctx metadata) o
          (hand_off_keeps root ctx metadata o h)
