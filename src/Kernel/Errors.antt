-- ===== src/Kernel/Errors.antt =====
-- kernel/errors.go, and the error values that the other packages build.
pub mod Chain
use gohex.Prelude.{Bool, true, false, Option, none, some}
use gohex.Prelude.EqClass.{◌==◌}
use gohex.Prelude.Text.{Text, text_eq}

pub record DomainError : Type 0 where
  pub code : Text
  pub message : Text

abbrev pub new_domain_error : Text → Text → DomainError
new_domain_error code message = record { code = code; message = message }

-- The errors of the program. `version_conflict` is the sentinel of eventstore/store.go and
-- `ctx_done` is `ctx.Err()`; `plain` is an error that wraps nothing, `wrap` is `fmt.Errorf` with
-- `%w`. Their text is the fixed part of the format: no code reads the text of an error.
pub data Error : Type 0 where
  domain : DomainError → Error
  version_conflict : Error
  ctx_done : Error
  plain : Text → Error
  wrap : Text → Error → Error

-- `errors.As(err, &de)` with `de` a `*DomainError`: the first one down the chain.
unfoldable pub as_domain_error : Error → Option DomainError
as_domain_error (domain d) = some d
as_domain_error (wrap m e) = as_domain_error e
as_domain_error version_conflict = none
as_domain_error ctx_done = none
as_domain_error (plain m) = none

-- The method `Is` of a DomainError: the target's chain holds a DomainError of the same code.
unfoldable pub domain_is : DomainError → Error → Bool
unfolding as_domain_error
domain_is e target = elim (as_domain_error target) [ none ↦ false | some t ↦ t.code == e.code ]

-- `errors.Is(err, target)` for the sentinels that the program compares with: version_conflict, and
-- DomainErrors through their `Is`.
unfoldable pub errors_is : Error → Error → Bool
unfolding domain_is
errors_is (domain d) target = domain_is d target
errors_is (wrap m e) target = errors_is e target
errors_is version_conflict version_conflict = true
errors_is version_conflict target = false
errors_is ctx_done ctx_done = true
errors_is ctx_done target = false
errors_is (plain m) target = false
