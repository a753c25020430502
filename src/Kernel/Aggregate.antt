-- ===== src/Kernel/Aggregate.antt =====
-- kernel/aggregate.go. An aggregate is its own state `S` beside the embedded Root.
pub mod Replay
use gohex.Prelude.{ℕ, ◌+◌, Option, none, some, List, [], ◌∷◌, ◌++◌, length}
use gohex.Prelude.Text.{lit}
use gohex.Kernel.Errors.{Error, wrap}

pub record Root {ℓ} (E : Type ℓ) : Type ℓ where
  pub version : ℕ  -- int64
  pub pending : List E

-- The method Apply mutates the receiver: a failed call may leave part of its writes behind. It is
-- "pure state assignment", so it sees the state and not the Root, which is unexported.
pub record Applies {ℓ} (S E : Type ℓ) : Type ℓ where
  pub apply : S → E → S × Option Error

pub record Aggregate {ℓ} (S E : Type ℓ) : Type ℓ where
  pub root : Root E
  pub state : S

module _ {ℓ} {S E : Type ℓ} where
  -- A zero-valued aggregate, with `s` the zero value of its own fields.
  abbrev pub new_aggregate : S → Aggregate S E
  new_aggregate s = record { root = record { version = 0; pending = [] }; state = s }

  unfoldable pub version : Aggregate S E → ℕ
  version a = a.root.version

  unfoldable pub uncommitted_events : Aggregate S E → List E
  uncommitted_events a = a.root.pending

  -- Drains the pending events; `int64` does not wrap, since a stream has fewer than 2^63 events.
  unfoldable pub take_uncommitted : Aggregate S E → Aggregate S E × List E
  take_uncommitted a =
      let events = a.root.pending in
      (
        record a { root = record { version = a.root.version + length events; pending = [] } },
        events,
      )

module _ {ℓ} {S : Type ℓ} where
  -- if err != nil { return err }, and on with the mutated receiver.
  abbrev pub and_then : S × Option Error → (S → S × Option Error) → S × Option Error
  and_then (s, none) k = k s
  and_then (s, some x) k = (s, some x)

module _ {ℓ} {S E : Type ℓ} ⦃ap : Applies S E⦄ where
  abbrev pub raised : Aggregate S E → E → S × Option Error → Aggregate S E × Option Error
  raised a e (s, some x) = (record a { state = s }, some (wrap (lit "raise") x))
  raised a e (s, none) =
      (record { root = record a.root { pending = a.root.pending ++ e ∷ [] }; state = s }, none)

  unfoldable pub raise : Aggregate S E → E → Aggregate S E × Option Error
  raise a e = raised a e (ap.apply a.state e)

  -- The loop of Rehydrate: it stops at the first event that cannot be applied.
  unfoldable pub apply_all : S → List E → S × Option Error
  apply_all s [] = (s, none)
  apply_all s (e ∷ es) = and_then (ap.apply s e) (λ t. apply_all t es)

  abbrev rehydrated : Aggregate S E → ℕ → S × Option Error → Aggregate S E × Option Error
  rehydrated a n (s, some x) = (record a { state = s }, some (wrap (lit "rehydrate") x))
  rehydrated a n (s, none) =
      (record { root = record a.root { version = a.root.version + n }; state = s }, none)

  unfoldable pub rehydrate : Aggregate S E → List E → Aggregate S E × Option Error
  unfolding apply_all
  rehydrate a history = rehydrated a (length history) (apply_all a.state history)
