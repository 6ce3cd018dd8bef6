-- ===== src/Tests/Bytes.antt =====
-- Comparisons, base64 and the field of XTS.
use pefs.Base.{
  ℕ, ◌⊎◌, drop, ◌+◌, ◌^◌, ◌<◌, ◌≤◌, ◌≡◌, ◌↔◌, refl, some, List, [], ◌∷◌, ◌++◌, length, arith, All,
  replicate,
}
use pefs.Xbase64.{
  ntop, ntop_loop, ntop_rest, ntop_end, digit, pton, pton_loop, pton_end, step, failed, done,
  ntop_size, pton_size,
}
use pefs.Base.Text.{strchr}
use pefs.Xbase64.Bounds.{ntop_succeeds_iff, ntop-IsNameChar, pton_bounds}
use pefs.Xbase64.Encode.{IsNameChar}
use pefs.Xbase64.RoundTrip.{pton-ntop}
use pefs.Xts.{Tweak, gf_mul128}
use pefs.Xts.Field.{element, times_x, gf_mul128-times_x}

abbrev bytes : List ℕ
bytes = 1 ∷ 2 ∷ 250 ∷ 7 ∷ []

-- "AQL6Bw"
abbrev text : List ℕ
text = 65 ∷ 81 ∷ 76 ∷ 54 ∷ 66 ∷ 119 ∷ []

bytes-text : ntop bytes 7 ≡ some text
unfolding ntop ntop_loop ntop_rest ntop_end digit
bytes-text = refl

text-bytes : pton (text ++ 0 ∷ []) 6 (some (replicate 5 0)) 5 ≡ done 4 (some (bytes ++ 0 ∷ []))
unfolding pton pton_loop pton_end step strchr
text-bytes = refl

pton-ntop_example :
    (rest : List ℕ) × (length bytes + length rest ≡ 5)
    × (pton (text ++ 0 ∷ []) (length text) (some (replicate 5 0)) 4 ≡ done 4 (some (bytes ++ rest)))
pton-ntop_example =
    pton-ntop bytes 7 text 0 [] (replicate 5 0) 4 (omega arith) bytes-text (omega arith)
      (omega arith)

ntop_succeeds_iff_example :
    ((enc : List ℕ) × (ntop bytes 7 ≡ some enc)) ↔ ((0 < 4) × (ntop_size 4 < 7))
ntop_succeeds_iff_example = ntop_succeeds_iff bytes 7

ntop-IsNameChar_example : (6 ≡ ntop_size 4) × All IsNameChar text
ntop-IsNameChar_example = ntop-IsNameChar bytes 7 text (omega arith) bytes-text

pton_bounds_example :
    (pton (text ++ 0 ∷ []) 6 (some (replicate 9 7)) 5 ≡ failed)
    ⊎ ((m : ℕ) × (t' : List ℕ) × (pton (text ++ 0 ∷ []) 6 (some (replicate 9 7)) 5
          ≡ done m (some t'))
        × (0 < m)
        × (m ≤ 5)
        × (m ≤ pton_size 6)
        × (length t' ≡ 9)
        × (drop 5 t' ≡ replicate 4 7))
pton_bounds_example = pton_bounds (text ++ 0 ∷ []) 6 (replicate 9 7) 5 (omega arith) (omega arith)

abbrev high : Tweak
high = record { lo = 2 ^ 63 + 1; hi = 2 ^ 63 + 5 }

gf_mul128-times_x_example : element (gf_mul128 high) ≡ times_x (element high)
gf_mul128-times_x_example =
    gf_mul128-times_x high (record { lo_fits = omega arith; hi_fits = omega arith })
