-- ===== src/Xbase64/Encode.antt =====
-- What pefs_name_ntop writes, when it succeeds, and of which characters.
use pefs.Base.{
  ℕ, ◌+◌, ◌*◌, ◌/◌, ◌%◌, ◌^◌, ◌≤◌, ◌<◌, ◌≡◌, refl, Bool, true, false, ◌||◌, bit_and, Option, none,
  some, List, [], ◌∷◌, ◌++◌, map, not, ◌≢◌, ◌-◌, ◌==◌, length, length-append, All, arith,
}
use pefs.Base.Bits.{bit_and_low}
use native.Mathlib.Nat.{one-le-pow}
use pefs.Base.Bytes.{IsBytes}
use pefs.Base.Table.{all_below, all_below-at}
use pefs.Base.Text.{strchr}
use mathlib.Core.List.{append-nil, append_assoc}
use pefs.Xbase64.{
  base64, digit, ntop_size, output_0, output_1, output_2, output_3, ntop_loop, ntop_rest, ntop_end,
  ntop,
}

-- The four characters of three bytes, and the shorter groups at the end.
abbrev pub quad : ℕ → ℕ → ℕ → List ℕ
quad a b c =
    digit (output_0 a) ∷ digit (output_1 a b) ∷ digit (output_2 b c) ∷ digit (output_3 c) ∷ []

unfoldable pub encode : List ℕ → List ℕ
encode [] = []
encode (a ∷ []) = digit (output_0 a) ∷ digit (output_1 a 0) ∷ []
encode (a ∷ b ∷ []) = digit (output_0 a) ∷ digit (output_1 a b) ∷ digit (output_2 b 0) ∷ []
encode (a ∷ b ∷ c ∷ src) = quad a b c ++ encode src

pub length-encode : (src : List ℕ) → length (encode src) ≡ ntop_size (length src)
unfolding encode
length-encode [] = refl
length-encode (a ∷ []) = refl
length-encode (a ∷ b ∷ []) = refl
length-encode (a ∷ b ∷ c ∷ src) = omega (arith, length-encode src)

-- The loop, the padding step and the last test, from any output on.
ntop_from : ℕ → List ℕ → List ℕ → Option (List ℕ)
ntop_from targsize src out = elim (ntop_loop targsize src out) [
  | none ↦ none
  | some (rest, out) ↦ elim (ntop_rest targsize rest out) [
    | none ↦ none
    | some out' ↦ ntop_end targsize out'
  ]
]

ntop_end_full : (targsize : ℕ) (out : List ℕ) → targsize ≤ length out → ntop_end targsize out ≡ none
unfolding ntop_end
ntop_end_full targsize out h = ground arith

ntop_from-encode :
    (targsize : ℕ) (src out : List ℕ)
    → ntop_from targsize src out ≡ ntop_end targsize (out ++ encode src)
unfolding ntop_from ntop_loop ntop_rest ntop_end encode
ntop_from-encode targsize [] out = rw append-nil
ntop_from-encode targsize (a ∷ []) out =
    ground (arith, length-append out (digit (output_0 a) ∷ digit (output_1 a 0) ∷ []))
ntop_from-encode targsize (a ∷ b ∷ []) out =
    let pair = digit (output_0 a) ∷ digit (output_1 a b) ∷ [] in
    let last = digit (output_2 b 0) ∷ [] in
    ground
      (arith, append_assoc out pair last, length-append out pair, length-append out (pair ++ last))
ntop_from-encode targsize (a ∷ b ∷ c ∷ src) out = ground (
  arith,
  ntop_end_full targsize (out ++ quad a b c ++ encode src),
  length-append out (quad a b c ++ encode src),
  ntop_from-encode targsize src (out ++ quad a b c),
  append_assoc out (quad a b c) (encode src),
)

pub ntop_lem : (src : List ℕ) (targsize : ℕ) → ntop src targsize ≡ ntop_end targsize (encode src)
unfolding ntop ntop_from
ntop_lem src targsize = ntop_from-encode targsize src []

-- Every index is below 64.
abbrev digits_of : List ℕ → List ℕ
digits_of = map digit

masked_low : (k a : ℕ) → bit_and a (2 ^ k - 1) < 2 ^ k
masked_low k a = omega (arith, bit_and_low k a, one-le-pow k 2)

output_0-eq : (a : ℕ) → a < 256 → output_0 a < 64
output_0-eq a h = omega arith

pub output_1-eq : (a b : ℕ) → b < 256 → output_1 a b ≡ a % 4 * 16 + b / 16
output_1-eq a b h = omega (arith, bit_and_low 2 a)

pub output_2-eq : (b c : ℕ) → c < 256 → output_2 b c ≡ b % 16 * 4 + c / 64
output_2-eq b c h = omega (arith, bit_and_low 4 b)

pub output_3-eq : (c : ℕ) → output_3 c ≡ c % 64
output_3-eq c = bit_and_low 6 c

-- A character of the alphabet, which is neither the terminating zero nor the '.' before a name.
abbrev pub IsNameChar : ℕ → Type 0
IsNameChar ch = (i : ℕ) × (i < 64) × (ch ≡ digit i)

digit-IsNameChar : (i : ℕ) → i < 64 → IsNameChar (digit i)
digit-IsNameChar i h = (i, h, refl)

pub encode-IsNameChar : (src : List ℕ) → IsBytes src → All IsNameChar (encode src)
unfolding encode
encode-IsNameChar [] h = tt
encode-IsNameChar (a ∷ []) h = (
  digit-IsNameChar (output_0 a) (omega arith),
  (digit-IsNameChar (output_1 a 0) (omega (arith, output_1-eq a 0 (omega arith))), tt),
)
encode-IsNameChar (a ∷ b ∷ []) h = (
  digit-IsNameChar (output_0 a) (omega arith),
  (
    digit-IsNameChar (output_1 a b) (omega (arith, output_1-eq a b (omega arith))),
    (digit-IsNameChar (output_2 b 0) (omega (arith, output_2-eq b 0 (omega arith))), tt),
  ),
)
encode-IsNameChar (a ∷ b ∷ c ∷ src) h = (
  digit-IsNameChar (output_0 a) (omega arith),
  (
    digit-IsNameChar (output_1 a b) (omega (arith, output_1-eq a b (omega arith))),
    (
      digit-IsNameChar (output_2 b c) (omega (arith, output_2-eq b c (omega arith))),
      (digit-IsNameChar (output_3 c) (omega (arith, output_3-eq c)), encode-IsNameChar src h.1.1.1),
    ),
  ),
)

-- The alphabet has no '/' and no '.', and no character is zero.
safe_char : ℕ → Bool
safe_char c = not ((c == 0) || (c == b'/') || (c == b'.'))

alphabet_table : all_below 64 (λ i. safe_char (digit i)) ≡ true
unfolding all_below safe_char digit
alphabet_table = refl

pub IsNameChar-safe : (ch : ℕ) → IsNameChar ch → (ch ≢ 0) × (ch ≢ b'/') × (ch ≢ b'.')
unfolding safe_char
IsNameChar-safe ch (i, h, e) =
    let t = all_below-at 64 (λ i. safe_char (digit i)) i alphabet_table h in ground arith

-- Reading a character of the alphabet back.
abbrev is_at : ℕ → Option ℕ → Bool
is_at i none = false
is_at i (some j) = i == j

strchr_table : all_below 64 (λ i. is_at i (strchr base64 (digit i))) ≡ true
unfolding all_below strchr digit
strchr_table = refl

pub strchr-digit : (i : ℕ) → i < 64 → strchr base64 (digit i) ≡ some i
strchr-digit i h =
    let t = all_below-at 64 (λ i. is_at i (strchr base64 (digit i))) i strchr_table h in
    ground arith

pub digit-ne-zero : (i : ℕ) → i < 64 → (digit i == 0) ≡ false
digit-ne-zero i h = let t = IsNameChar-safe (digit i) (digit-IsNameChar i h) in ground arith
