-- ===== src/Kernel/Id/Hex.antt =====
-- kernel/id.go: hex digits.
use gohex.Prelude.{
  ℕ, zero, suc, ◌≡◌, refl, ◌<◌, ◌≤◌, ◌/◌, Bool, true, false, ◌&&◌, arith, eqb, ltb, if◌then◌else◌,
}
use gohex.Kernel.Id.{hex_digit, is_hex, version_byte, variant_byte}

pub hex_digit-is_hex : (d : ℕ) → d < 16 → is_hex (hex_digit d) ≡ true
unfolding hex_digit is_hex
hex_digit-is_hex d h = ground arith

-- Whether a test accepts each number below a bound.
accepts_below : (ℕ → Bool) → ℕ → Bool
accepts_below test zero = true
accepts_below test (suc bound) = if test bound then accepts_below test bound else false

accepted_of_lt :
    (test : ℕ → Bool) (bound b : ℕ) → b < bound → accepts_below test bound ≡ true → test b ≡ true
unfolding accepts_below
accepted_of_lt test zero b lt h = absurd (omega (arith, lt))
accepted_of_lt test (suc bound) b lt h = ground (arith, accepted_of_lt test bound b)

version_table :
    accepts_below (λ b. eqb (version_byte b / 16) 4 && ltb (version_byte b) 256) 256 ≡ true
unfolding accepts_below version_byte
version_table = refl

-- The version byte of an identifier has the digit 4 first.
pub version_byte_lem : (b : ℕ) → b < 256 → (version_byte b / 16 ≡ 4) × (version_byte b < 256)
version_byte_lem b h = ground (arith, accepted_of_lt _ 256 b h version_table)

variant_table :
    accepts_below (λ b. ltb 7 (variant_byte b / 16) && ltb (variant_byte b / 16) 12) 256 ≡ true
unfolding accepts_below variant_byte
variant_table = refl

pub variant_byte_lem : (b : ℕ) → b < 256 → (8 ≤ variant_byte b / 16) × (variant_byte b / 16 < 12)
variant_byte_lem b h = ground (arith, accepted_of_lt _ 256 b h variant_table)
