-- ===== src/Examples/Codecs.antt =====
-- Stand-ins for encoding/json at the inputs of the examples: they write a value as a list of numbers
-- and read it back.
use gohex.Prelude.{
  ℕ, zero, suc, ◌≡◌, refl, ap, [], ◌∷◌, ◌++◌, ℤ, pos, negsuc, length, take, drop, drop-append_self,
}
use gohex.Prelude.Text.{Text}

-- An integer, in front of a rest.
abbrev pub write_int : ℤ → Text → Text
write_int (pos n) rest = 0 ∷ n ∷ rest
write_int (negsuc n) rest = 1 ∷ n ∷ rest

abbrev pub sign_of : ℕ → ℕ → ℤ
sign_of zero n = pos n
sign_of (suc k) n = negsuc n

abbrev pub read_int : Text → ℤ
read_int [] = pos 0
read_int (s ∷ []) = pos 0
read_int (s ∷ n ∷ rest) = sign_of s n

abbrev pub behind_int : Text → Text
behind_int [] = []
behind_int (s ∷ []) = []
behind_int (s ∷ n ∷ rest) = rest

pub read_int-write_int : (i : ℤ) (rest : Text) → read_int (write_int i rest) ≡ i
read_int-write_int (pos n) rest = refl
read_int-write_int (negsuc n) rest = refl

pub behind_int-write_int : (i : ℤ) (rest : Text) → behind_int (write_int i rest) ≡ rest
behind_int-write_int (pos n) rest = refl
behind_int-write_int (negsuc n) rest = refl

-- A text with its length, in front of a rest.
abbrev pub write_text : Text → Text → Text
write_text t rest = length t ∷ (t ++ rest)

abbrev pub read_text : Text → Text
read_text [] = []
read_text (n ∷ l) = take n l

abbrev pub behind_text : Text → Text
behind_text [] = []
behind_text (n ∷ l) = drop n l

pub read_text-write_text : (t rest : Text) → read_text (write_text t rest) ≡ t
read_text-write_text [] rest = refl
read_text-write_text (b ∷ t) rest = ap (λ l. b ∷ l) (read_text-write_text t rest)

pub behind_text-write_text : (t rest : Text) → behind_text (write_text t rest) ≡ rest
behind_text-write_text t rest = drop-append_self t rest

pub ruleset codec_laws =
    (read_int-write_int, behind_int-write_int, read_text-write_text, behind_text-write_text)
