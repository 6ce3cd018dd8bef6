-- ===== src/Base/Words.antt =====
-- Words in little-endian memory, as on the machines that PEFS is built for.
use Prim.Native.Nat.{ℕ, zero, suc, ◌+◌, ◌*◌, ◌/◌, ◌%◌, ◌^◌, ◌<◌}
use mathlib.Core.List.{List, [], ◌∷◌}
use mathlib.Core.Path.{◌≡◌, refl, ap, ap₂, ◌∙◌}
use native.Mathlib.Nat.{pow-suc}
use native.Mathlib.Omega.{arith}
use pefs.Base.Bytes.{IsBytes}
use pefs.Base.Lists.{length}

-- The `k` low bytes of a word, and the word that bytes stand for.
unfoldable pub le_bytes : ℕ → ℕ → List ℕ
le_bytes zero w = []
le_bytes (suc k) w = w % 256 ∷ le_bytes k (w / 256)

unfoldable pub le_word : List ℕ → ℕ
le_word [] = 0
le_word (x ∷ xs) = x + 256 * le_word xs

pub length-le_bytes : (k w : ℕ) → length (le_bytes k w) ≡ k
unfolding le_bytes
length-le_bytes zero w = refl
length-le_bytes (suc k) w = ap suc (length-le_bytes k (w / 256))

pub le_bytes-IsBytes : (k w : ℕ) → IsBytes (le_bytes k w)
unfolding le_bytes
le_bytes-IsBytes zero w = tt
le_bytes-IsBytes (suc k) w = (omega arith, le_bytes-IsBytes k (w / 256))

pub le_bytes-le_word : (xs : List ℕ) → IsBytes xs → le_bytes (length xs) (le_word xs) ≡ xs
unfolding le_bytes le_word
le_bytes-le_word [] h = refl
le_bytes-le_word (x ∷ xs) h =
    let low : (x + 256 * le_word xs) % 256 ≡ x = omega arith in
    let high : (x + 256 * le_word xs) / 256 ≡ le_word xs = omega arith in
    ap₂ ◌∷◌ low (ap (le_bytes (length xs)) high ∙ le_bytes-le_word xs h.1)

le_word-lt : (xs : List ℕ) → IsBytes xs → le_word xs < 256 ^ length xs
unfolding le_word
le_word-lt [] h = omega arith
le_word-lt (x ∷ xs) h = omega (arith, le_word-lt xs h.1, pow-suc 256 (length xs))

pub le_word-le_bytes : (k w : ℕ) → w < 256 ^ k → le_word (le_bytes k w) ≡ w
unfolding le_bytes le_word
le_word-le_bytes zero w h = omega arith
le_word-le_bytes (suc k) w h =
    let p = pow-suc 256 k in omega (arith, le_word-le_bytes k (w / 256) (omega (arith, p)))
