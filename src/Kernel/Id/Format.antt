-- ===== src/Kernel/Id/Format.antt =====
-- kernel/id.go: the form of what NewID makes.
use gohex.Prelude.{
  ℕ, zero, suc, ◌+◌, ◌≡◌, refl, ◌<◌, ◌≤◌, ◌/◌, ◌%◌, Bool, true, false, List, [], ◌∷◌, ◌++◌, arith,
  length, get_elem?, All, some, append-nil, if◌then◌else◌, ap,
}
use gohex.Prelude.Text.{Text}
use gohex.Kernel.Result.{ok}
use gohex.Kernel.Id.{
  is_dash_at, accepts, hex_digit, hex_encode, format_uuid, version_byte, variant_byte, at_index,
  new_id, id_string, parse_id,
}
use gohex.Kernel.Id.Hex.{hex_digit-is_hex, version_byte_lem, variant_byte_lem}
use gohex.Kernel.Id.Parsing.{AllAccepted, IsUuid, parse_id_of_IsUuid}

abbrev pub IsByte : ℕ → Type 0
IsByte b = b < 256

accepts_digit : (i d : ℕ) → is_dash_at i ≡ false → d < 16 → accepts i (hex_digit d) ≡ true
unfolding accepts
accepts_digit i d h l = rw h (hex_digit-is_hex d l)

abbrev no_dash : ℕ → List ℕ → Bool
no_dash i [] = true
no_dash i (b ∷ bs) =
    if is_dash_at i then false else if is_dash_at (i + 1) then false else no_dash (i + 1 + 1) bs

-- The index behind the digits of some bytes.
abbrev behind : List ℕ → ℕ → ℕ
behind [] i = i
behind (b ∷ bs) i = behind bs (i + 1 + 1)

AllAccepted-hex_encode :
    (i : ℕ) (bs : List ℕ) (rest : Text)
    → no_dash i bs ≡ true
    → All IsByte bs
    → AllAccepted (behind bs i) rest
    → AllAccepted i (hex_encode bs ++ rest)
unfolding hex_encode
AllAccepted-hex_encode i [] rest d h r = r
AllAccepted-hex_encode i (b ∷ bs) rest d h r = (
  accepts_digit i (b / 16) (ground arith) (omega arith),
  (
    accepts_digit (i + 1) (b % 16) (ground arith) (omega arith),
    AllAccepted-hex_encode (i + 1 + 1) bs rest (ground arith) h.1 r,
  ),
)

-- To prove a predicate of the lists of `n` elements, element by element.
abbrev Spread : ℕ → (List ℕ → Type 0) → Type 0
Spread zero P = P []
Spread (suc n) P = (x : ℕ) → Spread n (λ xs. P (x ∷ xs))

Spread-elim : (n : ℕ) (P : List ℕ → Type 0) → Spread n P → (b : List ℕ) → length b ≡ n → P b
Spread-elim zero P p [] h = p
Spread-elim zero P p (x ∷ b) h = absurd (omega arith)
Spread-elim (suc n) P p [] h = absurd (omega arith)
Spread-elim (suc n) P p (x ∷ b) h = Spread-elim n (λ xs. P (x ∷ xs)) (p x) b (omega arith)

AllAccepted-uuid :
    (g1 g2 g3 g4 g5 : List ℕ)
    → All IsByte g1
    → All IsByte g2
    → All IsByte g3
    → All IsByte g4
    → All IsByte g5
    → ((no_dash 0 g1 ≡ true) × (behind g1 0 ≡ 8))
    → ((no_dash 9 g2 ≡ true) × (behind g2 9 ≡ 13))
    → ((no_dash 14 g3 ≡ true) × (behind g3 14 ≡ 18))
    → ((no_dash 19 g4 ≡ true) × (behind g4 19 ≡ 23))
    → no_dash 24 g5 ≡ true
    → AllAccepted 0 (
        hex_encode g1
        ++ (b'-' ∷ hex_encode g2
            ++ (b'-' ∷ hex_encode g3 ++ (b'-' ∷ hex_encode g4 ++ (b'-' ∷ hex_encode g5)))))
unfolding accepts is_dash_at
AllAccepted-uuid g1 g2 g3 g4 g5 h1 h2 h3 h4 h5 d1 d2 d3 d4 d5 =
    let t4 : Text = b'-' ∷ hex_encode g5 in
    let t3 : Text = b'-' ∷ hex_encode g4 ++ t4 in
    let t2 : Text = b'-' ∷ hex_encode g3 ++ t3 in
    let t1 : Text = b'-' ∷ hex_encode g2 ++ t2 in
    let a5 : AllAccepted 24 (hex_encode g5) =
      rw (← append-nil (hex_encode g5)) (AllAccepted-hex_encode 24 g5 [] d5 h5 tt) in
    let a4 : AllAccepted 19 (hex_encode g4 ++ t4) =
      AllAccepted-hex_encode 19 g4 t4 d4.0 h4 (rw d4.1 (refl, a5)) in
    let a3 : AllAccepted 14 (hex_encode g3 ++ t3) =
      AllAccepted-hex_encode 14 g3 t3 d3.0 h3 (rw d3.1 (refl, a4)) in
    let a2 : AllAccepted 9 (hex_encode g2 ++ t2) =
      AllAccepted-hex_encode 9 g2 t2 d2.0 h2 (rw d2.1 (refl, a3)) in
    AllAccepted-hex_encode 0 g1 t1 d1.0 h1 (rw d1.1 (refl, a2))

-- An array of 16 bytes prints as a UUID.
pub format_uuid-IsUuid : (b : List ℕ) → length b ≡ 16 → All IsByte b → IsUuid (format_uuid b)
unfolding format_uuid is_dash_at
format_uuid-IsUuid b size bytes =
    Spread-elim 16 (λ b. All IsByte b → IsUuid (format_uuid b))
      (λ b0 b1 b2 b3 b4 b5 b6 b7 b8 b9 b10 b11 b12 b13 b14 b15 h. record {
        size = refl;
        bytes =
            AllAccepted-uuid (b0 ∷ b1 ∷ b2 ∷ b3 ∷ []) (b4 ∷ b5 ∷ []) (b6 ∷ b7 ∷ []) (b8 ∷ b9 ∷ [])
              (b10 ∷ b11 ∷ b12 ∷ b13 ∷ b14 ∷ b15 ∷ []) (omega arith) (omega arith) (omega arith)
              (omega arith) (omega arith) (refl, refl) (refl, refl) (refl, refl) (refl, refl) refl;
      })
      b size bytes

length-at_index : (xs : List ℕ) (i : ℕ) (f : ℕ → ℕ) → length (at_index xs i f) ≡ length xs
length-at_index [] i f = refl
length-at_index (x ∷ xs) zero f = refl
length-at_index (x ∷ xs) (suc i) f = ap suc (length-at_index xs i f)

All-at_index :
    (xs : List ℕ) (i : ℕ) (f : ℕ → ℕ)
    → ((x : ℕ) → IsByte x → IsByte (f x))
    → All IsByte xs
    → All IsByte (at_index xs i f)
All-at_index [] i f k h = tt
All-at_index (x ∷ xs) zero f k h = (k x h.0, h.1)
All-at_index (x ∷ xs) (suc i) f k h = (h.0, All-at_index xs i f k h.1)

abbrev at_or_zero : List ℕ → ℕ → ℕ
at_or_zero [] i = 0
at_or_zero (x ∷ xs) zero = x
at_or_zero (x ∷ xs) (suc i) = at_or_zero xs i

IsByte-at : (xs : List ℕ) (i : ℕ) → All IsByte xs → IsByte (at_or_zero xs i)
IsByte-at [] i h = omega arith
IsByte-at (x ∷ xs) zero h = h.0
IsByte-at (x ∷ xs) (suc i) h = IsByte-at xs i h.1

variant_byte-lt : (b : ℕ) → b < 256 → variant_byte b < 256
variant_byte-lt b h = omega (arith, variant_byte_lem b h)

-- NewID's two fixed bytes stand in the printed form at the digits 14 and 19.
digits_of_fixed_bytes :
    (b : List ℕ)
    → length b ≡ 16
    → let s = format_uuid (at_index (at_index b 6 version_byte) 8 variant_byte) in
      (get_elem? s 14 ≡ some (hex_digit (version_byte (at_or_zero b 6) / 16)))
      × (get_elem? s 19 ≡ some (hex_digit (variant_byte (at_or_zero b 8) / 16)))
unfolding format_uuid
digits_of_fixed_bytes b size =
    Spread-elim 16
      (λ b.
        let s = format_uuid (at_index (at_index b 6 version_byte) 8 variant_byte) in
        (get_elem? s 14 ≡ some (hex_digit (version_byte (at_or_zero b 6) / 16)))
        × (get_elem? s 19 ≡ some (hex_digit (variant_byte (at_or_zero b 8) / 16))))
      (λ b0 b1 b2 b3 b4 b5 b6 b7 b8 b9 b10 b11 b12 b13 b14 b15. (refl, refl)) b size

-- Whatever 16 random bytes NewID draws, its identifier is a UUID that ParseID accepts and returns
-- unchanged, the digit of its version is 4, and that of its variant is 8, 9, a or b.
pub new_id-IsUuid :
    (random : List ℕ)
    → length random ≡ 16
    → All IsByte random
    → IsUuid (id_string (new_id random))
      × (parse_id (id_string (new_id random)) ≡ ok (new_id random))
      × (get_elem? (id_string (new_id random)) 14 ≡ some b'4')
      × ((v : ℕ) × (get_elem? (id_string (new_id random)) 19 ≡ some (hex_digit v))
          × (8 ≤ v)
          × (v < 12))
unfolding new_id id_string hex_digit
new_id-IsUuid random size bytes =
    let fixed = at_index (at_index random 6 version_byte) 8 variant_byte in
    let uuid : IsUuid (format_uuid fixed) =
      format_uuid-IsUuid fixed
        (rw (length-at_index (at_index random 6 version_byte) 8 variant_byte)
          (rw (length-at_index random 6 version_byte) size))
        (All-at_index (at_index random 6 version_byte) 8 variant_byte (λ x h. variant_byte-lt x h)
          (All-at_index random 6 version_byte (λ x h. (version_byte_lem x h).1) bytes)) in
    let digits = digits_of_fixed_bytes random size in
    (
      uuid,
      parse_id_of_IsUuid (format_uuid fixed) uuid,
      rw digits.0 (rw (version_byte_lem (at_or_zero random 6) (IsByte-at random 6 bytes)).0),
      (
        variant_byte (at_or_zero random 8) / 16,
        digits.1,
        (variant_byte_lem (at_or_zero random 8) (IsByte-at random 8 bytes)).0,
        (variant_byte_lem (at_or_zero random 8) (IsByte-at random 8 bytes)).1,
      ),
    )
