-- ===== src/Cqrs/Command.antt =====
-- cqrs/command.go: commands, handlers and the retry policy.
use gohex.Prelude.{Bool, true, false, Option, none, some, ℤ, pos, is_pos, if◌then◌else◌}
use gohex.Prelude.Text.{Text}
use gohex.Kernel.Errors.{Error, as_domain_error}

-- The method of a command's Go type.
pub record Command (C : Type 0) : Type 0 where
  pub command_name : C → Text

-- Handlers work on a state `W`.
abbrev pub HandlerFunc : Type 0 → Type 0 → Type 0
HandlerFunc W C = W → C → W × Option Error

abbrev pub Middleware : Type 0 → Type 0 → Type 0
Middleware W C = HandlerFunc W C → HandlerFunc W C

-- `none` is the nil func; the wait is in nanoseconds.
pub record RetryPolicy : Type 0 where
  pub attempts : ℤ
  pub backoff : ℤ
  pub should_retry : Option (Error → Bool)

-- The default classification: all but a DomainError.
unfoldable pub is_retryable : Error → Bool
is_retryable e = elim (as_domain_error e) [ none ↦ true | some d ↦ false ]

unfoldable pub with_defaults : RetryPolicy → RetryPolicy
with_defaults p = record {
  attempts = if is_pos p.attempts then p.attempts else pos 3;
  backoff = if is_pos p.backoff then p.backoff else pos 25_000_000;
  should_retry = elim p.should_retry [ none ↦ some is_retryable | some f ↦ some f ];
}
