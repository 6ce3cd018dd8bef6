-- ===== src/Verify.antt =====
-- The comparisons that take the same time whatever they find: crypto_verify_bytes of
-- sys/crypto/crypto_verify_bytes.c, and pefs_name_checksum_eq of sys/fs/pefs/pefs_crypto.c.
-- Each array is the list of the bytes that the loop reads.
use pefs.Base.{
  ℕ, ◌%◌, ◌≡◌, refl, ◌↔◌, Bool, true, List, [], ◌∷◌, ◌==◌, arith, length, bit_or, bit_xor,
}
use pefs.Base.Bits.{bit_or-lt, bit_xor-lt, bit_or-eq_zero, bit_xor-eq_zero}
use pefs.Base.Bytes.{IsByte, IsBytes}

-- `rc = rc | (buf0[i] ^ buf1[i])`, in a uint8_t.
unfoldable pub verify_loop : ℕ → List ℕ → List ℕ → ℕ
verify_loop rc [] ys = rc
verify_loop rc (x ∷ xs) [] = rc
verify_loop rc (x ∷ xs) (y ∷ ys) = verify_loop (bit_or rc (bit_xor x y) % 256) xs ys

unfoldable pub crypto_verify_bytes : List ℕ → List ℕ → ℕ
unfolding verify_loop
crypto_verify_bytes buf0 buf1 = verify_loop 0 buf0 buf1

-- The same in an int, which holds what the bytes give.
unfoldable pub checksum_loop : ℕ → List ℕ → List ℕ → ℕ
checksum_loop result [] ys = result
checksum_loop result (x ∷ xs) [] = result
checksum_loop result (x ∷ xs) (y ∷ ys) = checksum_loop (bit_or result (bit_xor x y)) xs ys

unfoldable pub pefs_name_checksum_eq : List ℕ → List ℕ → Bool
unfolding checksum_loop
pefs_name_checksum_eq mac1 mac2 = checksum_loop 0 mac1 mac2 == 0

verify_loop-eq_zero :
    (rc : ℕ) (xs ys : List ℕ)
    → IsByte rc
    → IsBytes xs
    → IsBytes ys
    → length xs ≡ length ys
    → (verify_loop rc xs ys ≡ 0) ↔ ((rc ≡ 0) × (xs ≡ ys))
unfolding verify_loop
verify_loop-eq_zero rc [] [] h hx hy e = ground arith
verify_loop-eq_zero rc [] (y ∷ ys) h hx hy e = absurd (omega arith)
verify_loop-eq_zero rc (x ∷ xs) [] h hx hy e = absurd (omega arith)
verify_loop-eq_zero rc (x ∷ xs) (y ∷ ys) h hx hy e =
    let small = bit_or-lt 8 rc (bit_xor x y) h (bit_xor-lt 8 x y hx.0 hy.0) in
    let rest =
      verify_loop-eq_zero (bit_or rc (bit_xor x y) % 256) xs ys (omega arith) hx.1 hy.1
        (omega arith) in
    ground (arith, rest, bit_or-eq_zero rc (bit_xor x y), bit_xor-eq_zero x y)

checksum_loop-eq_zero :
    (rc : ℕ) (xs ys : List ℕ)
    → length xs ≡ length ys
    → (checksum_loop rc xs ys ≡ 0) ↔ ((rc ≡ 0) × (xs ≡ ys))
unfolding checksum_loop
checksum_loop-eq_zero rc [] [] e = ground arith
checksum_loop-eq_zero rc [] (y ∷ ys) e = absurd (omega arith)
checksum_loop-eq_zero rc (x ∷ xs) [] e = absurd (omega arith)
checksum_loop-eq_zero rc (x ∷ xs) (y ∷ ys) e =
    let rest = checksum_loop-eq_zero (bit_or rc (bit_xor x y)) xs ys (omega arith) in
    ground (arith, rest, bit_or-eq_zero rc (bit_xor x y), bit_xor-eq_zero x y)

verify_loop_refl : (xs : List ℕ) → verify_loop 0 xs xs ≡ 0
unfolding verify_loop
verify_loop_refl [] = refl
verify_loop_refl (x ∷ xs) =
    let same : bit_xor x x ≡ 0 = (bit_xor-eq_zero x x).1 refl in rw same (verify_loop_refl xs)

pub crypto_verify_bytes_refl : (xs : List ℕ) → crypto_verify_bytes xs xs ≡ 0
unfolding crypto_verify_bytes
crypto_verify_bytes_refl xs = verify_loop_refl xs

-- crypto_verify_bytes returns zero if and only if the two arrays of one length are identical.
pub crypto_verify_bytes-eq_zero :
    (xs ys : List ℕ)
    → IsBytes xs
    → IsBytes ys
    → length xs ≡ length ys
    → (crypto_verify_bytes xs ys ≡ 0) ↔ (xs ≡ ys)
unfolding crypto_verify_bytes
crypto_verify_bytes-eq_zero xs ys hx hy e =
    ground (arith, verify_loop-eq_zero 0 xs ys (omega arith) hx hy e)

-- pefs_name_checksum_eq answers whether two checksums of one length are the same.
pub pefs_name_checksum_eq_iff :
    (xs ys : List ℕ) → length xs ≡ length ys → (pefs_name_checksum_eq xs ys ≡ true) ↔ (xs ≡ ys)
unfolding pefs_name_checksum_eq
pefs_name_checksum_eq_iff xs ys e = ground (arith, checksum_loop-eq_zero 0 xs ys e)
