-- ===== src/Prelude/Text.antt =====
-- Go strings and byte slices, as lists of bytes. `lit` reads an ASCII literal.
use Prim.Native.Char.{code}
use Prim.Native.String.{String}
use Prim.Native.Nat.{ℕ}
use mathlib.Core.Path.{◌≡◌}
use mathlib.Core.Logic.{◌↔◌}
use mathlib.Core.Bool.{Bool, true, false, ◌&&◌}
use mathlib.Core.List.{List, [], ◌∷◌}
use native.Mathlib.Omega.{arith}
use gohex.Prelude.Tests.{eqb, eqb_iff}
use gohex.Prelude.EqClass.{Eq}

abbrev pub Text : Type 0
Text = List ℕ

abbrev pub lit : String → Text
lit String.[] = []
lit (String.◌∷◌ c s) = code c ∷ lit s

unfoldable pub text_beq : Text → Text → Bool
text_beq [] [] = true
text_beq [] (b ∷ t) = false
text_beq (a ∷ s) [] = false
text_beq (a ∷ s) (b ∷ t) = eqb a b && text_beq s t

pub text_beq_iff : (s t : Text) → (text_beq s t ≡ true) ↔ (s ≡ t)
unfolding text_beq
text_beq_iff [] [] = ground arith
text_beq_iff [] (b ∷ t) = ground arith
text_beq_iff (a ∷ s) [] = ground arith
text_beq_iff (a ∷ s) (b ∷ t) = ground (arith, text_beq_iff s t, eqb_iff a b)

instance abbrev pub text_eq : Eq Text
text_eq = record { beq = text_beq; beq_iff = text_beq_iff }

-- s == ""
abbrev pub is_empty : Text → Bool
is_empty [] = true
is_empty (c ∷ s) = false
