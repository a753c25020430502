-- ===== src/Relay/MessageId.antt =====
-- relay/relay.go: the message IDs of the events of a stream.
use gohex.Prelude.{
  ℕ, zero, suc, ◌+◌, ◌-◌, ◌*◌, ◌/◌, ◌%◌, ◌≤◌, ◌<◌, ◌≡◌, refl, sym, subst, ap, ◌∙◌, inl, inr, List,
  [], ◌∷◌, ◌++◌, ltb, arith, Bool-cases,
}
use gohex.Prelude.Text.{Text, lit}
use gohex.Prelude.Decimal.{digits, decimal}
use gohex.EventStore.Types.{StreamId, RecordedEvent}
use gohex.Relay.{message_id}

-- The number that decimal digits stand for, behind those that gave `acc`.
read_digits : ℕ → Text → ℕ
read_digits acc [] = acc
read_digits acc (c ∷ s) = read_digits (acc * 10 + (c - 48)) s

read_digits-append :
    (acc : ℕ) (s : Text) (c : ℕ) → read_digits acc (s ++ c ∷ []) ≡ read_digits acc s * 10 + (c - 48)
unfolding read_digits
read_digits-append acc [] c = refl
read_digits-append acc (d ∷ s) c = read_digits-append (acc * 10 + (d - 48)) s c

read_digits-digits : (fuel n : ℕ) → n < fuel → read_digits 0 (digits fuel n) ≡ n
unfolding digits read_digits
read_digits-digits zero n h = absurd (omega arith)
read_digits-digits (suc fuel) n h = elim (Bool-cases (ltb n 10)) [
  | inl small ↦ let e : 0 * 10 + (48 + n - 48) ≡ n = omega arith in rw small e
  | inr large ↦
      let least : 10 ≤ n = ground arith in
      let front : read_digits 0 (digits fuel (n / 10)) ≡ n / 10 =
        read_digits-digits fuel (n / 10) (omega arith) in
      rw large (
        read_digits-append 0 (digits fuel (n / 10)) (48 + n % 10)
        ∙ ap (λ q. q * 10 + (48 + n % 10 - 48)) front
        ∙ (omega arith))
]

decimal-injective : (m n : ℕ) → decimal m ≡ decimal n → m ≡ n
unfolding decimal
decimal-injective m n h =
    sym (read_digits-digits (suc m) m (omega arith))
    ∙ ap (read_digits 0) h
    ∙ read_digits-digits (suc n) n (omega arith)

append-cancel_left : {A : Type 0} (xs ys zs : List A) → xs ++ ys ≡ xs ++ zs → ys ≡ zs
append-cancel_left [] ys zs h = h
append-cancel_left (x ∷ xs) ys zs h = append-cancel_left xs ys zs cc

abbrev prefix : StreamId → Text
prefix stream = stream.category ++ lit "/" ++ stream.id ++ lit "#"

-- The events of a stream have different message IDs: two recorded events of one stream with the
-- same ID have the same version.
pub message_id-injective :
    (a b : RecordedEvent)
    → a.stream ≡ b.stream
    → message_id a ≡ message_id b
    → a.version ≡ b.version
unfolding message_id
message_id-injective a b same h = decimal-injective a.version b.version (
    append-cancel_left (prefix a.stream) (decimal a.version) (decimal b.version) (
      subst (λ s. prefix a.stream ++ decimal a.version ≡ prefix s ++ decimal b.version) (sym same)
        h))
