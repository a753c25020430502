-- ===== src/Kernel/Errors/Chain.antt =====
-- kernel/errors.go: errors that were wrapped.
use gohex.Prelude.{◌≡◌, refl, ◌↔◌, true, false, some, List, [], ◌∷◌}
use gohex.Prelude.Text.{Text, text_beq_iff}
use gohex.Kernel.Errors.{
  DomainError, Error, domain, version_conflict, wrap, as_domain_error, errors_is,
}

-- fmt.Errorf("...: %w", err), any number of times, innermost format first.
abbrev pub wrap_all : List Text → Error → Error
wrap_all [] e = e
wrap_all (m ∷ ms) e = wrap_all ms (wrap m e)

pub as_domain_error-wrap_all :
    (ms : List Text) (e : Error) → as_domain_error (wrap_all ms e) ≡ as_domain_error e
unfolding as_domain_error
as_domain_error-wrap_all [] e = refl
as_domain_error-wrap_all (m ∷ ms) e = as_domain_error-wrap_all ms (wrap m e)

pub errors_is-wrap_all :
    (ms : List Text) (e target : Error) → errors_is (wrap_all ms e) target ≡ errors_is e target
unfolding errors_is
errors_is-wrap_all [] e target = refl
errors_is-wrap_all (m ∷ ms) e target = errors_is-wrap_all ms (wrap m e) target

-- However often an error was wrapped: `errors.Is` finds a DomainError in a DomainError exactly when
-- the codes are the same, whatever the messages; it finds no DomainError in a version conflict and
-- no version conflict in a DomainError; and AsDomainError finds the wrapped DomainError itself.
pub errors_is-domain_by_code :
    (ms : List Text) (d t : DomainError)
    → ((errors_is (wrap_all ms (domain d)) (domain t) ≡ true) ↔ (t.code ≡ d.code))
      × (errors_is (wrap_all ms version_conflict) (domain t) ≡ false)
      × (errors_is (wrap_all ms (domain d)) version_conflict ≡ false)
      × (as_domain_error (wrap_all ms (domain d)) ≡ some d)
errors_is-domain_by_code ms d t = (
  rw (errors_is-wrap_all ms (domain d) (domain t))
      (unfold errors_is as_domain_error in text_beq_iff t.code d.code),
  rw (errors_is-wrap_all ms version_conflict (domain t)) (unfold errors_is in refl),
  rw (errors_is-wrap_all ms (domain d) version_conflict) (unfold errors_is as_domain_error in refl),
  rw (as_domain_error-wrap_all ms (domain d)) (unfold as_domain_error in refl),
)
