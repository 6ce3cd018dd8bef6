-- ===== src/Base/Bytes.antt =====
-- Arrays of bytes: the range of each element, the bytewise exclusive or, and equality as `memcmp`
-- reports it.
use Prim.Native.Nat.{ℕ, zero, suc, ◌≤◌, ◌<◌, bit_xor}
use mathlib.Core.Path.{◌≡◌, refl, ap, ap₂}
use mathlib.Core.Bool.{Bool, true, false, ◌&&◌}
use mathlib.Core.Logic.{◌↔◌}
use mathlib.Core.List.{List, [], ◌∷◌}
use native.Mathlib.Omega.{arith}
use pefs.Base.Bits.{bit_xor_cancel, bit_xor-lt, bit_xor-zero}
use pefs.Base.Lists.{length, take, replicate, All}
use pefs.Base.Tests.{◌==◌}

abbrev pub IsByte : ℕ → Type 0
IsByte x = x < 256

abbrev pub IsBytes : List ℕ → Type 0
IsBytes = All IsByte

-- `dst[i] = a[i] ^ b[i]`, over the shorter of the two.
unfoldable pub xor_bytes : List ℕ → List ℕ → List ℕ
xor_bytes [] ys = []
xor_bytes (x ∷ xs) [] = []
xor_bytes (x ∷ xs) (y ∷ ys) = bit_xor x y ∷ xor_bytes xs ys

pub length-xor_bytes :
    (xs ys : List ℕ) → length xs ≤ length ys → length (xor_bytes xs ys) ≡ length xs
unfolding xor_bytes
length-xor_bytes [] ys h = refl
length-xor_bytes (x ∷ xs) [] h = absurd (omega arith)
length-xor_bytes (x ∷ xs) (y ∷ ys) h = ap suc (length-xor_bytes xs ys (omega arith))

pub xor_bytes_cancel :
    (xs ys : List ℕ) → length xs ≤ length ys → xor_bytes (xor_bytes xs ys) ys ≡ xs
unfolding xor_bytes
xor_bytes_cancel [] ys h = refl
xor_bytes_cancel (x ∷ xs) [] h = absurd (omega arith)
xor_bytes_cancel (x ∷ xs) (y ∷ ys) h =
    ap₂ ◌∷◌ (bit_xor_cancel x y) (xor_bytes_cancel xs ys (omega arith))

pub IsBytes-xor : (xs ys : List ℕ) → IsBytes xs → IsBytes ys → IsBytes (xor_bytes xs ys)
unfolding xor_bytes
IsBytes-xor [] ys h k = tt
IsBytes-xor (x ∷ xs) [] h k = tt
IsBytes-xor (x ∷ xs) (y ∷ ys) h k = (bit_xor-lt 8 x y h.0 k.0, IsBytes-xor xs ys h.1 k.1)

-- `memcmp(a, b, n) == 0` for two arrays of one length.
unfoldable pub bytes_eq : List ℕ → List ℕ → Bool
bytes_eq [] [] = true
bytes_eq [] (y ∷ ys) = false
bytes_eq (x ∷ xs) [] = false
bytes_eq (x ∷ xs) (y ∷ ys) = (x == y) && bytes_eq xs ys

pub bytes_eq_iff : (xs ys : List ℕ) → (bytes_eq xs ys ≡ true) ↔ (xs ≡ ys)
unfolding bytes_eq
bytes_eq_iff [] [] = (λ _. refl, λ _. refl)
bytes_eq_iff [] (y ∷ ys) = ground arith
bytes_eq_iff (x ∷ xs) [] = ground arith
bytes_eq_iff (x ∷ xs) (y ∷ ys) = ground (arith, bytes_eq_iff xs ys)

pub bytes_eq_refl : (xs : List ℕ) → bytes_eq xs xs ≡ true
bytes_eq_refl xs = (bytes_eq_iff xs xs).1 refl

-- Two byte arrays of 16 and more split at a block.
length-take_le : (n : ℕ) (xs : List ℕ) → n ≤ length xs → length (take n xs) ≡ n
length-take_le zero xs h = refl
length-take_le (suc n) [] h = absurd (omega arith)
length-take_le (suc n) (x ∷ xs) h = ap suc (length-take_le n xs (omega arith))

pub xor_bytes-zeros : (n : ℕ) (xs : List ℕ) → length xs ≤ n → xor_bytes xs (replicate n 0) ≡ xs
unfolding xor_bytes
xor_bytes-zeros zero [] h = refl
xor_bytes-zeros (suc n) [] h = refl
xor_bytes-zeros zero (x ∷ xs) h = absurd (omega arith)
xor_bytes-zeros (suc n) (x ∷ xs) h = ap₂ ◌∷◌ (bit_xor-zero x) (xor_bytes-zeros n xs (omega arith))
