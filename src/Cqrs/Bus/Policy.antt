-- ===== src/Cqrs/Bus/Policy.antt =====
-- cqrs/command.go: what NewBus promises of every bus, and the reject-or-retry split.
use gohex.Prelude.{
  ℕ, suc, zero, ◌≡◌, refl, Bool, Option, none, some, arith, ℤ, pos, negsuc, is_pos, to_nat, ◌-◌,
  ◌+◌, if◌then◌else◌,
}
use gohex.Kernel.Errors.{DomainError, Error, as_domain_error}
use gohex.Cqrs.Command.{HandlerFunc, RetryPolicy, with_defaults, is_retryable}
use gohex.Cqrs.Bus.{Bus, Waits, retry_loop, with_retry, should_retry_of, after_attempt}

-- Whatever options a bus is built with, it makes at least one attempt, and a nil ShouldRetry is the
-- default classification.
pub with_defaults-attempts :
    (p : RetryPolicy) → (most : ℕ) × (to_nat (with_defaults p).attempts ≡ suc most)
unfolding with_defaults
with_defaults-attempts p = go p.attempts
  where
    go : (a : ℤ) → (most : ℕ) × (to_nat (if is_pos a then a else pos 3) ≡ suc most)
    go (pos zero) = (2, refl)
    go (pos (suc n)) = (n, refl)
    go (negsuc n) = (2, refl)

after_rejected :
    {W : Type 0} (ended : Bool) (k : W → W × Option Error) (w' : W) (x : Error) (d : DomainError)
    → as_domain_error x ≡ some d
    → after_attempt is_retryable ended k (w', some x) ≡ (w', some x)
unfolding is_retryable
after_rejected ended k w' x d h = ground arith

rejected_once :
    {W C : Type 0} (h : HandlerFunc W C) (waits : Waits) (left : ℕ) (w w' : W) (cmd : C) (x : Error)
    (d : DomainError)
    → h w cmd ≡ (w', some x)
    → as_domain_error x ≡ some d
    → retry_loop h is_retryable waits left 1 w cmd ≡ (w', some x)
unfolding retry_loop
rejected_once h waits zero w w' cmd x d e r = e
rejected_once h waits (suc left) w w' cmd x d e r =
    rw e (
      after_rejected (waits 1) (λ w1. retry_loop h is_retryable waits left (1 + 1) w1 cmd) w' x d r)

default_classification :
    {W C : Type 0} (b : Bus W C) (p : RetryPolicy)
    → b.retry ≡ with_defaults p
    → p.should_retry ≡ none
    → should_retry_of b.retry ≡ is_retryable
unfolding with_defaults
default_classification b p built default = rw built (rw default refl)

-- On a bus built with no retry policy, or with one that leaves ShouldRetry nil, an attempt that
-- returns an error with a DomainError in its chain is the only one: its state and error are the
-- outcome, however many attempts are allowed.
pub domain_error_is_final :
    {W C : Type 0} (b : Bus W C) (waits : Waits) (h : HandlerFunc W C) (w w' : W) (cmd : C)
    (p : RetryPolicy) (x : Error) (d : DomainError)
    → b.retry ≡ with_defaults p
    → p.should_retry ≡ none
    → h w cmd ≡ (w', some x)
    → as_domain_error x ≡ some d
    → with_retry b waits h w cmd ≡ (w', some x)
unfolding with_retry
domain_error_is_final b waits h w w' cmd p x d built default e r =
    rw (default_classification b p built default)
      (rejected_once h waits (to_nat b.retry.attempts - 1) w w' cmd x d e r)
