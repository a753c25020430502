-- ===== src/Example/Handled.antt =====
-- What the command handlers of the example services share: the app.go of billing, inventory,
-- shipping and ordering.
pub mod Once
use gohex.Prelude.{ℕ, Option, none, some, if◌then◌else◌}
use gohex.Prelude.Text.{Text}
use gohex.Kernel.Errors.{Error, domain, errors_is}
use gohex.Kernel.Result.{Result, ok, err, panic}
use gohex.Kernel.Event.{DomainEvent}
use gohex.Kernel.Aggregate.{Aggregate}
use gohex.EventStore.Types.{err_not_found}
use gohex.EventStore.Position.{Context, Positions, Extractor}
use gohex.EventStore.Repository.{Repository, Saved, save_aggregate}

-- What a handler leaves behind: the store, the captured positions, and its error.
pub record Handled (S : Type 0) : Type 0 where
  pub store : S
  pub positions : Positions
  pub result : Result (Unit {0})

module _ {S : Type 0} where
  abbrev pub unchanged : S → Positions → Result (Unit {0}) → Handled S
  unchanged s heap r = record { store = s; positions = heap; result = r }

  -- return h.repo.Save(...)
  abbrev pub after_save : {A E : Type 0} → Saved S A E → Handled S
  after_save saved = record {
    store = saved.store;
    positions = saved.positions;
    result = saved.result;
  }

  -- The start of the handlers that decide an aggregate once: what was loaded is already decided, and
  -- only a missing stream is decided now.
  unfoldable pub unless_decided : {A : Type 0} → S → Positions → Result A → Handled S → Handled S
  unless_decided s heap (ok a) decide = unchanged s heap (ok tt)
  unless_decided s heap (err x) decide =
      if errors_is x (domain err_not_found) then decide else unchanged s heap (err x)
  unless_decided s heap panic decide = unchanged s heap panic

-- A decision of the domain and its error.
abbrev pub returned : {A E : Type 0} → Aggregate A E × Option Error → Result (Aggregate A E)
returned (a, none) = ok a
returned (a, some x) = err x

module _ {S A E : Type 0} ⦃ev : DomainEvent E⦄ (repo : Repository S A E) (ext : Extractor)
    (ctx : Context) (now : ℕ) where
  -- The end of a handler: an error of the decision is returned, and the aggregate saved.
  unfoldable pub save_decision : Text → S → Positions → Result (Aggregate A E) → Handled S
  save_decision id s heap (ok a) = after_save (save_aggregate repo ext ctx now id s heap a)
  save_decision id s heap (err x) = unchanged s heap (err x)
  save_decision id s heap panic = unchanged s heap panic
