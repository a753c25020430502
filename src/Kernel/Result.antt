-- ===== src/Kernel/Result.antt =====
-- A function that returns (value, error). A panic unwinds every caller: nothing recovers it.
use mathlib.Core.Path.{◌≡◌, refl}
use gohex.Kernel.Errors.{Error, wrap}
use gohex.Prelude.Text.{Text}

pub data Result {ℓ} (A : Type ℓ) : Type ℓ where
  ok : A → Result A
  err : Error → Result A
  panic : Result A

-- The rest of a function behind `if err != nil { return err }`.
infixl 5 ◌>>=◌ ◌>>◌
abbrev pub ◌>>=◌ {ℓ κ} : {X : Type ℓ} {Y : Type κ} → Result X → (X → Result Y) → Result Y
panic >>= rest = panic
err x >>= rest = err x
ok v >>= rest = rest v

abbrev pub ◌>>◌ {ℓ κ} : {X : Type ℓ} {Y : Type κ} → Result X → Result Y → Result Y
r >> rest = r >>= λ _. rest

-- return fmt.Errorf("...: %w", err) where `err` is not nil.
abbrev pub wrapping {ℓ} : {A : Type ℓ} → Text → Result A → Result A
wrapping m (ok a) = ok a
wrapping m (err e) = err (wrap m e)
wrapping m panic = panic

-- Inversion of a bind that returned.
pub bind-eq-ok {ℓ κ} :
    {X : Type ℓ} {Y : Type κ} (r : Result X) (k : X → Result Y) {y : Y}
    → (r >>= k) ≡ ok y
    → (x : X) × (r ≡ ok x) × (k x ≡ ok y)
bind-eq-ok (ok x) k returned = (x, refl, returned)
bind-eq-ok (err e) k returned = cc
bind-eq-ok panic k returned = cc
