-- ===== src/Base/Bits.antt =====
-- Laws of the exclusive or at every width, from the recursion on binary digits that the native
-- operation stands for, and of `|` where the fields do not meet.
use Prim.Native.Nat.{
  ℕ, zero, suc, ◌+◌, ◌-◌, ◌*◌, ◌/◌, ◌%◌, ◌^◌, ◌≤◌, ◌<◌, min, max, bit_and, bit_or, bit_xor, digits,
  differ, bitwise, bit_and-bitwise, bit_or-bitwise, bit_xor-bitwise,
}
use mathlib.Core.Path.{◌≡◌, refl, sym, ap, ◌∙◌}
use mathlib.Core.Logic.{◌↔◌}
use native.Mathlib.Nat.{pow-suc, one-le-pow}
use native.Mathlib.Omega.{arith}

-- One round on the lowest digit; any fuel that covers the first number does.
module _ (left : ℕ → ℕ) (join : ℕ → ℕ → ℕ) where
  enough_fuel :
      (x y fuel spare : ℕ)
      → x ≤ spare
      → x ≤ fuel
      → digits left join fuel x y ≡ digits left join spare x y
  enough_fuel zero y zero zero hs hf = refl
  enough_fuel zero y zero (suc spare) hs hf = refl
  enough_fuel zero y (suc fuel) zero hs hf = refl
  enough_fuel zero y (suc fuel) (suc spare) hs hf = refl
  enough_fuel (suc x) y (suc fuel) (suc spare) hs hf =
      let rest = enough_fuel (suc x / 2) (y / 2) fuel spare (omega arith) (omega arith) in
      omega arith
  enough_fuel (suc x) y zero spare hs hf = absurd (omega arith)
  enough_fuel (suc x) y (suc fuel) zero hs hf = absurd (omega arith)

  lowest_digit :
      (x y : ℕ)
      → bitwise left join (suc x) y
        ≡ bitwise left join (suc x / 2) (y / 2) * 2 + join (suc x % 2) (y % 2)
  lowest_digit x y =
      let half = suc x / 2 in
      omega (arith, enough_fuel half (y / 2) x half (omega arith) (omega arith))

bit_xor_step : (a b : ℕ) → bit_xor a b ≡ bit_xor (a / 2) (b / 2) * 2 + differ (a % 2) (b % 2)
bit_xor_step zero b = omega (arith, bit_xor-bitwise 0 b, bit_xor-bitwise 0 (b / 2))
bit_xor_step (suc a) b = omega (
  arith,
  bit_xor-bitwise (suc a) b,
  bit_xor-bitwise (suc a / 2) (b / 2),
  lowest_digit (λ y. y) differ a b,
)

bit_or_step : (a b : ℕ) → bit_or a b ≡ bit_or (a / 2) (b / 2) * 2 + max (a % 2) (b % 2)
bit_or_step zero b = omega (arith, bit_or-bitwise 0 b, bit_or-bitwise 0 (b / 2))
bit_or_step (suc a) b = omega (
  arith,
  lowest_digit (λ y. y) max a b,
  bit_or-bitwise (suc a / 2) (b / 2),
  bit_or-bitwise (suc a) b,
)

bit_and_step : (a b : ℕ) → bit_and a b ≡ bit_and (a / 2) (b / 2) * 2 + min (a % 2) (b % 2)
bit_and_step zero b = omega (arith, bit_and-bitwise 0 b, bit_and-bitwise 0 (b / 2))
bit_and_step (suc a) b = omega (
  arith,
  lowest_digit (λ y. 0) min a b,
  bit_and-bitwise (suc a / 2) (b / 2),
  bit_and-bitwise (suc a) b,
)

-- Digits of the exclusive or.
differ_digit : (x y : ℕ) → x < 2 → y < 2 → differ x y < 2
differ_digit zero y p q = q
differ_digit (suc zero) zero p q = omega arith
differ_digit (suc zero) (suc zero) p q = omega arith
differ_digit (suc zero) (suc (suc y)) p q = absurd (omega arith)
differ_digit (suc (suc x)) y p q = absurd (omega arith)

differ_cancel : (x y : ℕ) → x < 2 → y < 2 → differ (differ x y) y ≡ x
differ_cancel zero zero p q = refl
differ_cancel zero (suc zero) p q = refl
differ_cancel zero (suc (suc y)) p q = absurd (omega arith)
differ_cancel (suc zero) zero p q = refl
differ_cancel (suc zero) (suc zero) p q = refl
differ_cancel (suc zero) (suc (suc y)) p q = absurd (omega arith)
differ_cancel (suc (suc x)) y p q = absurd (omega arith)

differ_comm : (x y : ℕ) → differ x y ≡ differ y x
differ_comm zero zero = refl
differ_comm zero (suc y) = refl
differ_comm (suc x) zero = refl
differ_comm (suc x) (suc y) = differ_comm x y

xor_digit : (a b : ℕ) → differ (a % 2) (b % 2) < 2
xor_digit a b = differ_digit (a % 2) (b % 2) (omega arith) (omega arith)

half_xor : (a b : ℕ) → bit_xor a b / 2 ≡ bit_xor (a / 2) (b / 2)
half_xor a b = omega (arith, bit_xor_step a b, xor_digit a b)

odd_xor : (a b : ℕ) → bit_xor a b % 2 ≡ differ (a % 2) (b % 2)
odd_xor a b = omega (arith, bit_xor_step a b, xor_digit a b)

bit_xor_cancel_below : (n a b : ℕ) → a ≤ n → b ≤ n → bit_xor (bit_xor a b) b ≡ a
bit_xor_cancel_below zero zero zero p q = refl
bit_xor_cancel_below zero zero (suc b) p q = absurd (omega arith)
bit_xor_cancel_below zero (suc a) b p q = absurd (omega arith)
bit_xor_cancel_below (suc n) a b p q =
    let rest = bit_xor_cancel_below n (a / 2) (b / 2) (omega arith) (omega arith) in
    let digit = differ_cancel (a % 2) (b % 2) (omega arith) (omega arith) in
    bit_xor_step (bit_xor a b) b ∙ rw (half_xor a b, odd_xor a b, rest, digit) (omega arith)

-- What is masked twice comes back.
pub bit_xor_cancel : (a b : ℕ) → bit_xor (bit_xor a b) b ≡ a
bit_xor_cancel a b = bit_xor_cancel_below (a + b) a b (omega arith) (omega arith)

bit_xor_comm_below : (n a b : ℕ) → a ≤ n → b ≤ n → bit_xor a b ≡ bit_xor b a
bit_xor_comm_below zero zero zero p q = refl
bit_xor_comm_below zero zero (suc b) p q = absurd (omega arith)
bit_xor_comm_below zero (suc a) b p q = absurd (omega arith)
bit_xor_comm_below (suc n) a b p q = omega (
  arith,
  bit_xor_step a b,
  bit_xor_step b a,
  bit_xor_comm_below n (a / 2) (b / 2) (omega arith) (omega arith),
  differ_comm (a % 2) (b % 2),
)

pub bit_xor_comm : (a b : ℕ) → bit_xor a b ≡ bit_xor b a
bit_xor_comm a b = bit_xor_comm_below (a + b) a b (omega arith) (omega arith)

pub bit_xor-zero : (a : ℕ) → bit_xor a 0 ≡ a
bit_xor-zero a = bit_xor_comm a 0 ∙ bit_xor-bitwise 0 a

zero-bit_xor : (a : ℕ) → bit_xor 0 a ≡ a
zero-bit_xor a = bit_xor-bitwise 0 a

-- The result needs no more digits than the operands.
pub bit_xor-lt : (k a b : ℕ) → a < 2 ^ k → b < 2 ^ k → bit_xor a b < 2 ^ k
bit_xor-lt zero zero zero p q = omega arith
bit_xor-lt zero zero (suc b) p q = absurd (omega arith)
bit_xor-lt zero (suc a) b p q = absurd (omega arith)
bit_xor-lt (suc k) a b p q =
    let e = pow-suc 2 k in
    let rest = bit_xor-lt k (a / 2) (b / 2) (omega arith) (omega arith) in
    omega (arith, bit_xor_step a b, xor_digit a b)

bit_or-zero_below : (n a : ℕ) → a ≤ n → bit_or a 0 ≡ a
bit_or-zero_below n zero p = refl
bit_or-zero_below zero (suc a) p = absurd (omega arith)
bit_or-zero_below (suc n) (suc a) p =
    omega (arith, bit_or_step (suc a) 0, bit_or-zero_below n (suc a / 2) (omega arith))

bit_and-zero_below : (n a : ℕ) → a ≤ n → bit_and a 0 ≡ 0
bit_and-zero_below n zero p = refl
bit_and-zero_below zero (suc a) p = absurd (omega arith)
bit_and-zero_below (suc n) (suc a) p =
    omega (arith, bit_and_step (suc a) 0, bit_and-zero_below n (suc a / 2) (omega arith))

times_pow : (q k : ℕ) → q * 2 ^ suc k ≡ 2 * (q * 2 ^ k)
times_pow q k = omega (arith, ap (λ (t : ℕ). q * t) (pow-suc 2 k))

-- `|` joins a high field and a low field of `k` bits as `+` does.
pub bit_or_join : (k q r : ℕ) → r < 2 ^ k → bit_or (q * 2 ^ k) r ≡ q * 2 ^ k + r
bit_or_join zero q zero h =
    rw (bit_or-zero_below (q * 2 ^ 0) (q * 2 ^ 0) (omega arith)) (omega arith)
bit_or_join zero q (suc r) h = absurd (omega arith)
bit_or_join (suc k) q r h =
    let e = times_pow q k in
    let half : q * 2 ^ suc k / 2 ≡ q * 2 ^ k = omega arith in
    let digit : q * 2 ^ suc k % 2 ≡ 0 = omega arith in
    let rest = bit_or_join k q (r / 2) (omega (arith, pow-suc 2 k)) in
    bit_or_step (q * 2 ^ suc k) r ∙ rw (half, digit, rest) (omega arith)

bit_and_join : (k q r : ℕ) → r < 2 ^ k → bit_and (q * 2 ^ k + r) (2 ^ k - 1) ≡ r
bit_and_join zero q r h =
    bit_and-zero_below (q * 2 ^ 0 + r) (q * 2 ^ 0 + r) (omega arith) ∙ omega arith
bit_and_join (suc k) q r h =
    let e = times_pow q k in
    let d = pow-suc 2 k in
    let pos = one-le-pow k 2 in
    let half : (q * 2 ^ suc k + r) / 2 ≡ q * 2 ^ k + r / 2 = omega arith in
    let digit : (q * 2 ^ suc k + r) % 2 ≡ r % 2 = omega arith in
    let ones : (2 ^ suc k - 1) / 2 ≡ 2 ^ k - 1 = omega arith in
    let one : (2 ^ suc k - 1) % 2 ≡ 1 = omega arith in
    let rest = bit_and_join k q (r / 2) (omega arith) in
    bit_and_step (q * 2 ^ suc k + r) (2 ^ suc k - 1)
    ∙ rw (half, digit, ones, one, rest) (omega arith)

-- `&` with `k` ones is the remainder by `2 ^ k`.
pub bit_and_low : (k a : ℕ) → bit_and a (2 ^ k - 1) ≡ a % 2 ^ k
bit_and_low k a =
    let pos = one-le-pow k 2 in
    let parts : a ≡ a / 2 ^ k * 2 ^ k + a % 2 ^ k = omega arith in
    ap (λ (t : ℕ). bit_and t (2 ^ k - 1)) parts
    ∙ bit_and_join k (a / 2 ^ k) (a % 2 ^ k) (omega arith)

-- The exclusive or with a low field leaves the high field alone.
pub bit_xor_join :
    (k q r s : ℕ) → r < 2 ^ k → s < 2 ^ k → bit_xor (q * 2 ^ k + r) s ≡ q * 2 ^ k + bit_xor r s
bit_xor_join zero q zero zero h g = rw (bit_xor-zero (q * 2 ^ 0 + 0), bit_xor-zero 0) refl
bit_xor_join zero q zero (suc s) h g = absurd (omega arith)
bit_xor_join zero q (suc r) s h g = absurd (omega arith)
bit_xor_join (suc k) q r s h g =
    let e = times_pow q k in
    let d = pow-suc 2 k in
    let half : (q * 2 ^ suc k + r) / 2 ≡ q * 2 ^ k + r / 2 = omega arith in
    let digit : (q * 2 ^ suc k + r) % 2 ≡ r % 2 = omega arith in
    let rest = bit_xor_join k q (r / 2) (s / 2) (omega arith) (omega arith) in
    bit_xor_step (q * 2 ^ suc k + r) s ∙ rw (half, digit, rest) (omega (arith, bit_xor_step r s))

bit_or-lt_digit : (x y : ℕ) → x < 2 → y < 2 → max x y < 2
bit_or-lt_digit x y p q = omega arith

pub bit_or-lt : (k a b : ℕ) → a < 2 ^ k → b < 2 ^ k → bit_or a b < 2 ^ k
bit_or-lt zero zero zero p q = omega arith
bit_or-lt zero zero (suc b) p q = absurd (omega arith)
bit_or-lt zero (suc a) b p q = absurd (omega arith)
bit_or-lt (suc k) a b p q =
    let e = pow-suc 2 k in
    let rest = bit_or-lt k (a / 2) (b / 2) (omega arith) (omega arith) in
    omega (arith, bit_or_step a b)

bit_or-eq_zero_below : (n a b : ℕ) → a ≤ n → b ≤ n → bit_or a b ≡ 0 → (a ≡ 0) × (b ≡ 0)
bit_or-eq_zero_below zero a b p q h = (omega arith, omega arith)
bit_or-eq_zero_below (suc n) a b p q h =
    let digit : max (a % 2) (b % 2) ≡ 0 = omega (arith, bit_or_step a b) in
    let rest =
      bit_or-eq_zero_below n (a / 2) (b / 2) (omega arith) (omega arith)
        (omega (arith, bit_or_step a b)) in
    (omega (arith, rest.0), omega (arith, rest.1))

-- `|` is zero where both sides are, and `^` where they are the same.
pub bit_or-eq_zero : (a b : ℕ) → (bit_or a b ≡ 0) ↔ ((a ≡ 0) × (b ≡ 0))
bit_or-eq_zero a b =
    (bit_or-eq_zero_below (a + b) a b (omega arith) (omega arith), λ (p, q). rw (p, q) refl)

bit_xor_self : (a : ℕ) → bit_xor a a ≡ 0
bit_xor_self a = ap (λ (t : ℕ). bit_xor t a) (sym (zero-bit_xor a)) ∙ bit_xor_cancel 0 a

pub bit_xor-eq_zero : (a b : ℕ) → (bit_xor a b ≡ 0) ↔ (a ≡ b)
bit_xor-eq_zero a b = (
  λ h. sym (bit_xor_cancel a b) ∙ (ap (λ (t : ℕ). bit_xor t b) h ∙ zero-bit_xor b),
  λ h. rw h (bit_xor_self b),
)
