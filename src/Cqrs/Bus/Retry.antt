-- ===== src/Cqrs/Bus/Retry.antt =====
-- cqrs/command.go: how often a command's handler runs.
use gohex.Prelude.{
  ℕ, zero, suc, ◌+◌, ◌-◌, ◌≤◌, ◌≡◌, refl, ap, inl, inr, Bool, true, false, Option, none, some,
  arith, Bool-cases, to_nat,
}
use gohex.Kernel.Errors.{Error}
use gohex.Cqrs.Command.{HandlerFunc}
use gohex.Cqrs.Bus.{Bus, Waits, retry_loop, with_retry, should_retry_of, after_attempt}

module _ {W C : Type 0} (h : HandlerFunc W C) (should_retry : Error → Bool) (waits : Waits)
    (cmd : C) where
  -- `n` attempts from the one with number `attempt` on, started at state `w`: all but the last
  -- returned an error that is to be retried, with no end of the context in the wait behind it, and
  -- the last left `w'` and the error `e`.
  pub data Tries : ℕ → W → ℕ → W → Option Error → Type 0 where
    once : {attempt : ℕ} {w w' : W} {e : Option Error} → h w cmd ≡ (w', e) → Tries attempt w 1 w' e
    again :
        {attempt n : ℕ} {w w1 w' : W} {e : Option Error} (x : Error)
        → h w cmd ≡ (w1, some x)
        → should_retry x ≡ true
        → waits attempt ≡ false
        → Tries (attempt + 1) w1 n w' e
        → Tries attempt w (suc n) w' e

  -- Why the last of `n` attempts was the last: success, a final error, no attempt left, or the end
  -- of the context.
  pub data Stops (attempt most n : ℕ) : Option Error → Type 0 where
    success : Stops attempt most n none
    final : (x : Error) → should_retry x ≡ false → Stops attempt most n (some x)
    exhausted : {e : Option Error} → n ≡ most → Stops attempt most n e
    cancelled : {e : Option Error} → waits (attempt + n - 1) ≡ true → Stops attempt most n e

  pub record IsRun (attempt most : ℕ) (w w' : W) (e : Option Error) : Type 0 where
    pub n : ℕ
    pub tries : Tries attempt w n w' e
    pub at_most : n ≤ most
    pub stops : Stops attempt most n e

  IsRun-later :
      (attempt most : ℕ) (w w1 w' : W) (x : Error) (e : Option Error)
      → h w cmd ≡ (w1, some x)
      → should_retry x ≡ true
      → waits attempt ≡ false
      → IsRun (attempt + 1) most w1 w' e
      → IsRun attempt (suc most) w w' e
  IsRun-later attempt most w w1 w' x e first retried waited r = record {
    n = suc r.n;
    tries = again x first retried waited r.tries;
    at_most = omega (arith, r.at_most);
    stops = later r.stops;
  }
    where
      later :
          {n : ℕ} {e : Option Error}
          → Stops (attempt + 1) most n e
          → Stops attempt (suc most) (suc n) e
      later success = success
      later (final y f) = final y f
      later (exhausted p) = exhausted (ap suc p)
      later {n} (cancelled p) =
          let k : attempt + suc n - 1 ≡ attempt + 1 + n - 1 = omega arith in cancelled (rw k p)

  single :
      (attempt most : ℕ) (w w' : W) (e : Option Error)
      → h w cmd ≡ (w', e)
      → Stops attempt (suc most) 1 e
      → IsRun attempt (suc most) w w' e
  single attempt most w w' e p s = record {
    n = 1;
    tries = once p;
    at_most = omega arith;
    stops = s;
  }

  after_attempt-IsRun :
      (attempt most : ℕ) (w : W) (k : W → W × Option Error) (p : W × Option Error)
      → h w cmd ≡ p
      → ((w1 : W) → IsRun (attempt + 1) most w1 (k w1).0 (k w1).1)
      → IsRun attempt
          (suc most)
          w
          (after_attempt should_retry (waits attempt) k p).0
          (after_attempt should_retry (waits attempt) k p).1
  after_attempt-IsRun attempt most w k (w1, none) first rest =
      single attempt most w w1 none first success
  after_attempt-IsRun attempt most w k (w1, some x) first rest =
      elim (Bool-cases (should_retry x)) [
        | inl retried ↦ elim (Bool-cases (waits attempt)) [
          | inl ended ↦
              let e : attempt + 1 - 1 ≡ attempt = omega arith in
              rw (retried, ended) (single attempt most w w1 (some x) first (cancelled (rw e ended)))
          | inr waited ↦
              rw (retried, waited)
                (IsRun-later attempt most w w1 (k w1).0 x (k w1).1 first retried waited (rest w1))
        ]
        | inr is_final ↦ rw is_final (single attempt most w w1 (some x) first (final x is_final))
      ]

  loop-IsRun :
      (left attempt : ℕ) (w : W)
      → IsRun attempt
          (suc left)
          w
          (retry_loop h should_retry waits left attempt w cmd).0
          (retry_loop h should_retry waits left attempt w cmd).1
  unfolding retry_loop
  loop-IsRun zero attempt w = single attempt 0 w (h w cmd).0 (h w cmd).1 refl (exhausted refl)
  loop-IsRun (suc left) attempt w =
      after_attempt-IsRun attempt (suc left) w _ (h w cmd) refl
        (λ w1. loop-IsRun left (attempt + 1) w1)

-- A bus whose policy allows `most` attempts, at least one, runs a command's handler at least once
-- and at most that often, one attempt on the state that the last left behind. Each attempt but the
-- last returned an error that the policy retries, and the context did not end in the wait behind
-- it; the last is the last because it succeeded, because its error is not retried, because it was
-- the last allowed, or because the context ended. Its state and error are what the caller sees.
pub with_retry-IsRun :
    {W C : Type 0} (b : Bus W C) (waits : Waits) (h : HandlerFunc W C) (w : W) (cmd : C) (most : ℕ)
    → to_nat b.retry.attempts ≡ suc most
    → IsRun h
        (should_retry_of b.retry)
        waits
        cmd
        1
        (suc most)
        w
        (with_retry b waits h w cmd).0
        (with_retry b waits h w cmd).1
unfolding with_retry
with_retry-IsRun b waits h w cmd most e =
    let left : to_nat b.retry.attempts - 1 ≡ most = omega arith in
    rw left (loop-IsRun h (should_retry_of b.retry) waits cmd most 1 w)
