-- ===== src/Prelude/Utf8.antt =====
-- unicode/utf8: Valid on the bytes of a string. encoding/json writes the replacement character for
-- each byte of a string that is not valid.
use gohex.Prelude.{
  ℕ, Bool, false, ◌-◌, ◌&&◌, Option, none, some, [], ◌∷◌, ltb, leb, eqb, if◌then◌else◌,
}
use gohex.Prelude.Text.{Text}

-- The bytes that a character still needs, and the bounds of the next one.
record Expected : Type 0 where
  left : ℕ
  low : ℕ
  high : ℕ

abbrev expect : ℕ → ℕ → ℕ → Option Expected
expect left low high = some (record { left = left; low = low; high = high })

abbrev first_byte : ℕ → Option Expected
first_byte b =
    if ltb b 128
    then expect 0 0 0
    else if leb 194 b && leb b 223
    then expect 1 128 191
    else if eqb b 224
    then expect 2 160 191
    else if eqb b 237
    then expect 2 128 159
    else if leb 225 b && leb b 239
    then expect 2 128 191
    else if eqb b 240
    then expect 3 144 191
    else if leb 241 b && leb b 243
    then expect 3 128 191
    else if eqb b 244
    then expect 3 128 143
    else none

abbrev next_byte : Expected → ℕ → Option Expected
next_byte e b =
    if eqb e.left 0
    then first_byte b
    else if leb e.low b && leb b e.high
    then expect (e.left - 1) 128 191
    else none

unfoldable utf8_from : Expected → Text → Bool
utf8_from e [] = eqb e.left 0
utf8_from e (b ∷ t) = elim (next_byte e b) [ none ↦ false | some e' ↦ utf8_from e' t ]

unfoldable pub is_utf8 : Text → Bool
unfolding utf8_from
is_utf8 t = utf8_from (record { left = 0; low = 0; high = 0 }) t
