-- ===== src/Kernel/Id/Parsing.antt =====
-- kernel/id.go: what ParseID accepts.
use gohex.Prelude.{
  ℕ, zero, suc, ◌+◌, ◌≡◌, refl, ◌⊎◌, inl, inr, true, false, [], ◌∷◌, map, arith, length, length-map,
  eqb, Bool-cases,
}
use gohex.Prelude.Text.{Text, is_empty}
use gohex.Kernel.Result.{ok, err}
use gohex.Kernel.Id.{
  TypedId, invalid, to_lower, accepts, scan, parse_id, id_string, id_is_zero, marshal_text,
  unmarshal_text,
}

-- The byte of each index from `i` on is accepted there.
abbrev pub AllAccepted : ℕ → Text → Type 0
AllAccepted i [] = Unit
AllAccepted i (c ∷ s) = (accepts i c ≡ true) × AllAccepted (i + 1) s

-- 36 bytes with dashes at 8, 13, 18 and 23 and lower-case hex digits elsewhere.
pub record IsUuid (s : Text) : Type 0 where
  pub size : length s ≡ 36
  pub bytes : AllAccepted 0 s

scan_of_AllAccepted : (n i : ℕ) (s : Text) → length s ≡ n → AllAccepted i s → scan n i s ≡ ok tt
unfolding scan
scan_of_AllAccepted zero i s h a = refl
scan_of_AllAccepted (suc n) i [] h a = absurd (omega arith)
scan_of_AllAccepted (suc n) i (c ∷ s) h a =
    rw (a.0) (scan_of_AllAccepted n (i + 1) s (omega arith) a.1)

-- The loop ends with success or with ErrInvalidID.
scan_total :
    (n i : ℕ) (s : Text)
    → length s ≡ n
    → ((scan n i s ≡ ok tt) × AllAccepted i s) ⊎ (scan n i s ≡ err invalid)
unfolding scan
scan_total zero i [] h = inl (refl, tt)
scan_total zero i (c ∷ s) h = absurd (omega arith)
scan_total (suc n) i [] h = absurd (omega arith)
scan_total (suc n) i (c ∷ s) h = elim (Bool-cases (accepts i c)) [
  | inl e ↦ elim (scan_total n (i + 1) s (omega arith)) [
    | inl p ↦ inl (rw e p.0, (e, p.1))
    | inr q ↦ inr (rw e q)
  ]
  | inr e ↦ inr (rw e)
]

to_lower_of_accepts : (i c : ℕ) → accepts i c ≡ true → to_lower c ≡ c
unfolding accepts to_lower
to_lower_of_accepts i c h = ground arith

map-to_lower_of_AllAccepted : (i : ℕ) (s : Text) → AllAccepted i s → map to_lower s ≡ s
map-to_lower_of_AllAccepted i [] a = refl
map-to_lower_of_AllAccepted i (c ∷ s) a =
    cc (to_lower_of_accepts i c a.0, map-to_lower_of_AllAccepted (i + 1) s a.1)

-- ParseID accepts exactly the texts whose lower-case form is a UUID, and returns that form; every
-- other text gives ErrInvalidID. It never reads past the end.
pub parse_id_total :
    (s : Text)
    → ((parse_id s ≡ ok (record { value = map to_lower s })) × IsUuid (map to_lower s))
      ⊎ ((parse_id s ≡ err invalid) × ¬ IsUuid (map to_lower s))
unfolding parse_id
parse_id_total s = elim (Bool-cases (eqb (length s) 36)) [
  | inl e ↦
      let size : length (map to_lower s) ≡ 36 = ground (arith, length-map to_lower s, e) in
      elim (scan_total 36 0 (map to_lower s) size) [
        | inl p ↦ inl (rw e (rw p.0), record { size = size; bytes = p.1 })
        | inr q ↦
            inr (rw e (rw q), λ u. cc (scan_of_AllAccepted 36 0 (map to_lower s) size u.bytes))
      ]
  | inr e ↦ inr (rw e, λ u. ground (arith, length-map to_lower s, u.size))
]

-- A UUID parses to itself.
pub parse_id_of_IsUuid : (s : Text) → IsUuid s → parse_id s ≡ ok (record { value = s })
unfolding parse_id
parse_id_of_IsUuid s u =
    rw (map-to_lower_of_AllAccepted 0 s u.bytes, u.size, scan_of_AllAccepted 36 0 s u.size u.bytes)

is_empty_of_IsUuid : (s : Text) → IsUuid s → is_empty s ≡ false
is_empty_of_IsUuid [] u = absurd (omega (arith, u.size))
is_empty_of_IsUuid (c ∷ s) u = refl

parsed-IsUuid : (s : Text) (id : TypedId) → parse_id s ≡ ok id → IsUuid id.value
parsed-IsUuid s id h = elim (parse_id_total s) [
  | inl p ↦ let e : map to_lower s ≡ id.value = cc (p.0, h) in rw (← e) p.1
  | inr q ↦ cc (q.0, h)
]

-- An identifier that holds a UUID is not the zero value, and serialising it and reading that into
-- any receiver gives it back.
pub unmarshal_text-marshal_text :
    (id receiver : TypedId)
    → IsUuid id.value
    → (id_is_zero id ≡ false)
      × (marshal_text id ≡ ok (id_string id))
      × (unmarshal_text receiver (id_string id) ≡ (id, ok tt))
unfolding id_string id_is_zero marshal_text unmarshal_text
unmarshal_text-marshal_text id receiver u = (
  is_empty_of_IsUuid id.value u,
  rw (is_empty_of_IsUuid id.value u),
  rw (parse_id_of_IsUuid id.value u, unmarshal_text),
)

-- What ParseID returns is not the zero value, its String is a UUID, and serialising it and reading
-- that into any receiver gives it back.
pub parse_id_round_trip :
    (s : Text) (id receiver : TypedId)
    → parse_id s ≡ ok id
    → IsUuid (id_string id)
      × (id_is_zero id ≡ false)
      × (marshal_text id ≡ ok (id_string id))
      × (unmarshal_text receiver (id_string id) ≡ (id, ok tt))
parse_id_round_trip s id receiver h =
    let u = parsed-IsUuid s id h in
    let m = unmarshal_text-marshal_text id receiver u in (unfold id_string in u, m.0, m.1, m.2)
