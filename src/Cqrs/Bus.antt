-- ===== src/Cqrs/Bus.antt =====
-- cqrs/command.go: the command bus.
pub mod Retry
pub mod Policy
use gohex.Prelude.{
  ℕ, zero, suc, ◌+◌, ◌-◌, Bool, true, false, ◌||◌, Option, none, some, List, [], ◌∷◌, ◌++◌, ℤ, pos,
  to_nat, is_some, if◌then◌else◌,
}
use gohex.Prelude.Map.{Map, get, put}
use gohex.Prelude.Text.{Text, text_eq, lit, is_empty}
use gohex.Kernel.Errors.{Error, plain}
use gohex.Kernel.Result.{Result, ok, panic}
use gohex.Cqrs.Command.{Command, HandlerFunc, Middleware, RetryPolicy, with_defaults, is_retryable}

pub record Bus (W C : Type 0) : Type 0 where
  pub handlers : Map Text (HandlerFunc W C)
  pub middleware : List (Middleware W C)
  pub retry : RetryPolicy

-- An Option of NewBus.
pub data BusOption (W C : Type 0) : Type 0 where
  with_middleware : List (Middleware W C) → BusOption W C
  with_retry_policy : RetryPolicy → BusOption W C

-- Where the context ends during the wait behind an attempt, by the attempt's number.
abbrev pub Waits : Type 0
Waits = ℕ → Bool

-- b.retry.ShouldRetry(err); a bus has the policy's defaults, so the func is never nil.
abbrev pub should_retry_of : RetryPolicy → Error → Bool
should_retry_of p e = elim p.should_retry [ none ↦ is_retryable e | some f ↦ f e ]

module _ {W : Type 0} where
  -- What withRetry does with an attempt's outcome when more attempts remain: `ended` says whether
  -- the context ends during the wait.
  abbrev pub after_attempt :
      (Error → Bool) → Bool → (W → W × Option Error) → W × Option Error → W × Option Error
  after_attempt should_retry ended again (w, none) = (w, none)
  after_attempt should_retry ended again (w, some x) =
      if should_retry x then (if ended then (w, some x) else again w) else (w, some x)

module _ {W C : Type 0} where
  unfoldable pub apply_option : Bus W C → BusOption W C → Bus W C
  apply_option b (with_middleware mw) = record b { middleware = b.middleware ++ mw }
  apply_option b (with_retry_policy p) = record b { retry = p }

  unfoldable pub apply_options : Bus W C → List (BusOption W C) → Bus W C
  unfolding apply_option
  apply_options b [] = b
  apply_options b (opt ∷ opts) = apply_options (apply_option b opt) opts

  unfoldable pub new_bus : List (BusOption W C) → Bus W C
  unfolding apply_options with_defaults
  new_bus opts =
      let b : Bus W C = record {
        handlers = [];
        middleware = [];
        retry = record { attempts = pos 0; backoff = pos 0; should_retry = none };
      } in
      let b' = apply_options b opts in record b' { retry = with_defaults b'.retry }

  -- Handle, for the Go type whose CommandName is `name`.
  unfoldable pub handle : Bus W C → Text → HandlerFunc W C → Result (Bus W C)
  handle b name fn =
      if is_empty name || is_some (get b.handlers name)
      then panic
      else ok (record b { handlers = put b.handlers name fn })

  -- The loop of withRetry: `left` attempts remain behind the one with number `attempt`.
  unfoldable pub retry_loop :
      HandlerFunc W C → (Error → Bool) → Waits → ℕ → ℕ → W → C → W × Option Error
  retry_loop h should_retry waits zero attempt w cmd = h w cmd
  retry_loop h should_retry waits (suc left) attempt w cmd =
      after_attempt should_retry (waits attempt)
        (λ w'. retry_loop h should_retry waits left (attempt + 1) w' cmd) (h w cmd)

  unfoldable pub with_retry : Bus W C → Waits → HandlerFunc W C → HandlerFunc W C
  unfolding retry_loop
  with_retry b waits h w cmd =
      retry_loop h (should_retry_of b.retry) waits (to_nat b.retry.attempts - 1) 1 w cmd

  -- The loop over the middleware from the last to the first.
  unfoldable pub wrap_middleware : List (Middleware W C) → HandlerFunc W C → HandlerFunc W C
  wrap_middleware [] final = final
  wrap_middleware (mw ∷ rest) final = mw (wrap_middleware rest final)

module _ {W C : Type 0} ⦃cmds : Command C⦄ where
  unfoldable pub dispatch : Bus W C → Waits → W → C → W × Option Error
  unfolding with_retry wrap_middleware
  dispatch b waits w cmd = elim (get b.handlers (cmds.command_name cmd)) [
    | none ↦ (w, some (plain (lit "cqrs: no handler for command")))
    | some h ↦ wrap_middleware b.middleware (with_retry b waits h) w cmd
  ]
