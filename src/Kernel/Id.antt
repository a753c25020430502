-- ===== src/Kernel/Id.antt =====
-- kernel/id.go: typed identifiers. The type parameter of ID[T] is a phantom and is left out.
mod Hex
pub mod Parsing
pub mod Format
use Prim.Native.Nat.{bit_and, bit_or}
use gohex.Prelude.{
  ℕ, zero, suc, ◌+◌, ◌-◌, ◌/◌, ◌%◌, Bool, true, false, ◌&&◌, ◌||◌, List, [], ◌∷◌, ◌++◌, map, length,
  set, take, drop, ltb, leb, eqb, if◌then◌else◌,
}
use gohex.Prelude.Text.{Text, lit, is_empty}
use gohex.Kernel.Errors.{DomainError, Error, domain, wrap, new_domain_error}
use gohex.Kernel.Result.{Result, ok, err, panic, ◌>>=◌, ◌>>◌}

-- `value` is "" in the zero value; no function of another file writes it.
pub record TypedId : Type 0 where
  pub value : Text

abbrev pub err_invalid_id : DomainError
err_invalid_id = new_domain_error (lit "invalid_id") (lit "malformed identifier")

unfoldable pub invalid : Error
invalid = wrap (lit "%q") (domain err_invalid_id)

-- strings.ToLower on ASCII. On the bytes of any other character the library may write other bytes,
-- but none of these is a dash or a hex digit, so the text is refused at that place either way.
pub to_lower : ℕ → ℕ
to_lower c = if leb b'A' c && leb c b'Z' then c + 32 else c

pub is_dash_at : ℕ → Bool
is_dash_at i = eqb i 8 || eqb i 13 || eqb i 18 || eqb i 23

pub is_hex : ℕ → Bool
is_hex c = if (ltb c b'0' || ltb b'9' c) && (ltb c b'a' || ltb b'f' c) then false else true

-- The byte that the loop of ParseID accepts at index i.
pub accepts : ℕ → ℕ → Bool
unfolding is_dash_at is_hex
accepts i c = if is_dash_at i then eqb c b'-' else is_hex c

-- `for i := range n` from index i on; reading past the end panics.
pub scan : ℕ → ℕ → Text → Result (Unit {0})
unfolding accepts
scan zero i s = ok tt
scan (suc n) i [] = panic
scan (suc n) i (c ∷ s) = let rest = scan n (i + 1) s in if accepts i c then rest else err invalid

unfoldable pub parse_id : Text → Result TypedId
unfolding to_lower accepts scan
parse_id s =
    if eqb (length s) 36
    then (do let t = map to_lower s; scan 36 0 t; ok (record { value = t }))
    else err invalid

unfoldable pub id_is_zero : TypedId → Bool
id_is_zero id = is_empty id.value

unfoldable pub id_string : TypedId → Text
id_string id = id.value

unfoldable pub marshal_text : TypedId → Result Text
unfolding id_is_zero
marshal_text id =
    if id_is_zero id then err (wrap (lit "zero TypedId") (domain err_invalid_id)) else ok id.value

-- The receiver is overwritten only when the text parses.
unfoldable pub unmarshal_text : TypedId → Text → TypedId × Result (Unit {0})
unmarshal_text id text = elim (parse_id text) [
  | ok parsed ↦ (parsed, ok tt)
  | err e ↦ (id, err e)
  | panic ↦ (id, panic)
]

-- encoding/hex: two lower-case digits for a byte.
pub hex_digit : ℕ → ℕ
hex_digit d = if ltb d 10 then b'0' + d else b'a' + (d - 10)

pub hex_encode : List ℕ → Text
hex_encode [] = []
hex_encode (b ∷ bs) = hex_digit (b / 16) ∷ hex_digit (b % 16) ∷ hex_encode bs

abbrev pub slice : List ℕ → ℕ → ℕ → List ℕ
slice b from to = take (to - from) (drop from b)

unfoldable pub format_uuid : List ℕ → Text
unfolding hex_encode hex_digit
format_uuid b =
    hex_encode (slice b 0 4)
    ++ (b'-' ∷ hex_encode (slice b 4 6)
        ++ (b'-' ∷ hex_encode (slice b 6 8)
            ++ (b'-' ∷ hex_encode (slice b 8 10) ++ (b'-' ∷ hex_encode (drop 10 b)))))

-- b[6] = b[6]&0x0f | 0x40
pub version_byte : ℕ → ℕ
version_byte b = bit_or (bit_and b 0x0f) 0x40

-- b[8] = b[8]&0x3f | 0x80
pub variant_byte : ℕ → ℕ
variant_byte b = bit_or (bit_and b 0x3f) 0x80

abbrev pub at_index : List ℕ → ℕ → (ℕ → ℕ) → List ℕ
at_index [] i f = []
at_index (x ∷ xs) zero f = f x ∷ xs
at_index (x ∷ xs) (suc i) f = x ∷ at_index xs i f

-- `random` is what crypto/rand filled the 16 bytes with.
unfoldable pub new_id : List ℕ → TypedId
unfolding format_uuid version_byte variant_byte
new_id random = record {
  value = format_uuid (at_index (at_index random 6 version_byte) 8 variant_byte);
}
