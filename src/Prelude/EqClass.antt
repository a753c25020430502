-- ===== src/Prelude/EqClass.antt =====
-- Equality of map keys: a Boolean test with its law.
use Prim.Native.Nat.{ℕ}
use mathlib.Core.Path.{◌≡◌, refl}
use mathlib.Core.Logic.{◌↔◌}
use mathlib.Core.Bool.{Bool, true}
use gohex.Prelude.Tests.{eqb, eqb_iff}

pub record Eq {κ} (K : Type κ) : Type κ where
  pub beq : K → K → Bool
  pub beq_iff : (j k : K) → (beq j k ≡ true) ↔ (j ≡ k)

pub beq_refl {κ} : {K : Type κ} (eq : Eq K) (k : K) → eq.beq k k ≡ true
beq_refl eq k = (eq.beq_iff k k).1 refl

infix 50 ◌==◌
abbrev pub ◌==◌ {κ} : {K : Type κ} ⦃eq : Eq K⦄ → K → K → Bool
◌==◌ ⦃eq⦄ j k = eq.beq j k

instance abbrev pub nat_eq : Eq ℕ
nat_eq = record { beq = eqb; beq_iff = eqb_iff }
