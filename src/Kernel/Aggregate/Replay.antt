-- ===== src/Kernel/Aggregate/Replay.antt =====
-- kernel/aggregate.go: an aggregate and the replay of its stream.
use gohex.Prelude.{
  ℕ, subst, ◌≡◌, ◌≢◌, refl, sym, ap, ◌∙◌, ◌⊎◌, inl, inr, fun_ext, Option, none, some, List, [], ◌∷◌,
  ◌++◌, append_assoc, append-nil, arith, length, length-append,
}
use gohex.Kernel.Errors.{Error}
use gohex.Kernel.Aggregate.{
  Applies, Aggregate, new_aggregate, uncommitted_events, take_uncommitted, raise, raised, and_then,
  apply_all, rehydrate, rehydrated,
}

pub and_then_assoc {ℓ} :
    {S : Type ℓ} (r : S × Option Error) (f g : S → S × Option Error)
    → and_then (and_then r f) g ≡ and_then r (λ s. and_then (f s) g)
and_then_assoc (s, none) f g = refl
and_then_assoc (s, some x) f g = refl

-- A failed Apply wrote nothing.
abbrev pub IsClean {ℓ} : {S E : Type ℓ} → Applies S E → Type ℓ
IsClean {S} {E} a = (s : S) (e : E) → ((a.apply s e).1 ≡ none) ⊎ ((a.apply s e).0 ≡ s)

module _ {ℓ} {S E : Type ℓ} ⦃a : Applies S E⦄ where
  pub apply_all-append :
      (s : S) (xs ys : List E)
      → apply_all s (xs ++ ys) ≡ and_then (apply_all s xs) (λ t. apply_all t ys)
  unfolding apply_all
  apply_all-append s [] ys = refl
  apply_all-append s (x ∷ xs) ys =
      ap (and_then (a.apply s x)) (fun_ext λ t. apply_all-append t xs ys)
      ∙ sym (and_then_assoc (a.apply s x) (λ t. apply_all t xs) (λ t. apply_all t ys))

  -- Behaviour methods one after the other, each raising one event; an event that was refused is
  -- reported to its caller and the next method runs on the same aggregate.
  pub raise_each : Aggregate S E → List E → Aggregate S E
  raise_each g [] = g
  raise_each g (e ∷ es) = raise_each (raise g e).0 es

  -- `g` is the replay of `stream` and its pending events, with the stream committed.
  pub record IsReplay (zero : S) (stream : List E) (g : Aggregate S E) : Type ℓ where
    pub state : apply_all zero (stream ++ g.root.pending) ≡ (g.state, none)
    pub version : g.root.version ≡ length stream

  rehydrated-IsReplay :
      (zero : S) (stream : List E) (g : Aggregate S E) (r : S × Option Error)
      → apply_all zero stream ≡ r
      → rehydrated (new_aggregate zero) (length stream) r ≡ (g, none)
      → IsReplay zero stream g
  rehydrated-IsReplay zero stream g (t, none) p h =
      rw (← ap (λ q. q.0) h) (record { state = rw (append-nil stream) p; version = omega arith })
  rehydrated-IsReplay zero stream g (t, some x) p h = cc

  pub rehydrate-IsReplay :
      (zero : S) (stream : List E) (g : Aggregate S E)
      → rehydrate (new_aggregate zero) stream ≡ (g, none)
      → IsReplay zero stream g
  unfolding rehydrate
  rehydrate-IsReplay zero stream g h =
      rehydrated-IsReplay zero stream g (apply_all zero stream) refl h

  rehydrated-uncommitted :
      (g h : Aggregate S E) (n : ℕ) (r : S × Option Error)
      → rehydrated g n r ≡ (h, none)
      → uncommitted_events h ≡ uncommitted_events g
  unfolding uncommitted_events
  rehydrated-uncommitted g h n (t, none) p = cc
  rehydrated-uncommitted g h n (t, some x) p = cc

  -- A successful Rehydrate leaves no event uncommitted.
  pub rehydrate-uncommitted :
      (zero : S) (stream : List E) (g : Aggregate S E)
      → rehydrate (new_aggregate zero) stream ≡ (g, none)
      → uncommitted_events g ≡ []
  unfolding rehydrate
  rehydrate-uncommitted zero stream g h =
      rehydrated-uncommitted (new_aggregate zero) g (length stream) (apply_all zero stream) h
      ∙ (unfold uncommitted_events in refl)

  raised_ok :
      (g : Aggregate S E) (e : E) (o : S × Option Error) (h : Aggregate S E)
      → raised g e o ≡ (h, none)
      → o.1 ≡ none
  raised_ok g e (t, none) h p = refl
  raised_ok g e (t, some x) h p = cc

  module _ (zero : S) (stream : List E) where
    raised-IsReplay :
        (g : Aggregate S E) (e : E) (r : S × Option Error)
        → a.apply g.state e ≡ r
        → (r.1 ≡ none) ⊎ (r.0 ≡ g.state)
        → IsReplay zero stream g
        → IsReplay zero stream (raised g e r).0
    unfolding apply_all
    raised-IsReplay g e (t, none) p clean h = record {
      state =
          rw (← append_assoc stream g.root.pending (e ∷ []))
            (rw (apply_all-append zero (stream ++ g.root.pending) (e ∷ []), h.state, p));
      version = h.version;
    }
    raised-IsReplay g e (t, some x) p (inl n) h = cc
    raised-IsReplay g e (t, some x) p (inr same) h = record {
      state = rw same h.state;
      version = h.version;
    }

    -- An event that Apply accepted.
    pub raise_ok-IsReplay :
        (g h : Aggregate S E) (e : E)
        → raise g e ≡ (h, none)
        → IsReplay zero stream g
        → IsReplay zero stream h
    unfolding raise
    raise_ok-IsReplay g h e r k =
        subst (IsReplay zero stream) (ap (λ (p : Aggregate S E × Option Error). p.0) r) (
          raised-IsReplay g e (a.apply g.state e) refl (inl (raised_ok g e (a.apply g.state e) h r))
            k)

    raise-IsReplay :
        (g : Aggregate S E) (e : E)
        → IsClean a
        → IsReplay zero stream g
        → IsReplay zero stream (raise g e).0
    unfolding raise
    raise-IsReplay g e clean h = raised-IsReplay g e (a.apply g.state e) refl (clean g.state e) h

    pub raise_each-IsReplay :
        (g : Aggregate S E) (es : List E)
        → IsClean a
        → IsReplay zero stream g
        → IsReplay zero stream (raise_each g es)
    unfolding raise_each
    raise_each-IsReplay g [] clean h = h
    raise_each-IsReplay g (e ∷ es) clean h =
        raise_each-IsReplay (raise g e).0 es clean (raise-IsReplay g e clean h)

  -- Replaying a stream with the events that an aggregate has pending gives the aggregate as it is
  -- when the repository has taken those events.
  pub IsReplay-rehydrate :
      (zero : S) (stream : List E) (g : Aggregate S E)
      → IsReplay zero stream g
      → rehydrate (new_aggregate zero) (stream ++ uncommitted_events g)
        ≡ ((take_uncommitted g).0, none)
  unfolding rehydrate uncommitted_events take_uncommitted
  IsReplay-rehydrate zero stream g h = rw h.state (
      ap (λ n. (record { root = record { version = n; pending = [] }; state = g.state }, none))
        (omega (arith, h.version, length-append stream g.root.pending)))

  -- A stream can always be replayed. Rehydrate an aggregate from a stream, run any behaviour on it
  -- that raises events of which some may be refused, and take its uncommitted events: rehydrating
  -- the stream with those events appended succeeds and gives the same state and version. It is
  -- supposed that an Apply that fails leaves the state as it was.
  pub rehydrate-raise_each :
      (zero : S) (stream : List E) (g : Aggregate S E) (es : List E)
      → IsClean a
      → rehydrate (new_aggregate zero) stream ≡ (g, none)
      → let g' = raise_each g es in
        rehydrate (new_aggregate zero) (stream ++ uncommitted_events g')
        ≡ ((take_uncommitted g').0, none)
  rehydrate-raise_each zero stream g es clean h =
      IsReplay-rehydrate zero stream (raise_each g es)
        (raise_each-IsReplay zero stream g es clean (rehydrate-IsReplay zero stream g h))

  raised_root :
      (g : Aggregate S E) (e : E) (r : S × Option Error)
      → (((raised g e r).1 ≡ none)
          × (uncommitted_events (raised g e r).0 ≡ uncommitted_events g ++ e ∷ []))
        ⊎ (((raised g e r).1 ≢ none) × ((raised g e r).0.root ≡ g.root))
  unfolding uncommitted_events
  raised_root g e (t, none) = inl (refl, refl)
  raised_root g e (t, some x) = inr (λ p. cc, refl)

  -- Raise either succeeds and records the event as the last uncommitted one, or returns an error
  -- and leaves the version and the uncommitted events as they were.
  pub raise_root :
      (g : Aggregate S E) (e : E)
      → (((raise g e).1 ≡ none)
          × (uncommitted_events (raise g e).0 ≡ uncommitted_events g ++ e ∷ []))
        ⊎ (((raise g e).1 ≢ none) × ((raise g e).0.root ≡ g.root))
  unfolding raise
  raise_root g e = raised_root g e (a.apply g.state e)
