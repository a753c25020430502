-- ===== src/Prelude/Decimal.antt =====
-- strconv.Itoa and strconv.FormatInt in base 10.
use Prim.Native.Nat.{ℕ, zero, suc, ◌+◌, ◌/◌, ◌%◌}
use mathlib.Core.List.{[], ◌∷◌, ◌++◌}
use gohex.Prelude.Tests.{ltb, if◌then◌else◌}
use gohex.Prelude.Int.{ℤ, pos, negsuc}
use gohex.Prelude.Text.{Text}

-- On fuel; a number has fewer digits than itself and one.
unfoldable pub digits : ℕ → ℕ → Text
digits zero n = []
digits (suc fuel) n =
    let front = digits fuel (n / 10) in
    if ltb n 10 then (48 + n) ∷ [] else front ++ (48 + n % 10) ∷ []

unfoldable pub decimal : ℕ → Text
unfolding digits
decimal n = digits (suc n) n

unfoldable pub itoa : ℤ → Text
unfolding decimal
itoa (pos n) = decimal n
itoa (negsuc n) = 45 ∷ decimal (suc n)
