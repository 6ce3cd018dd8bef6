-- ===== src/Xts/Field.antt =====
-- gf_mul128 is the multiplication by x in the field of 2^128 elements whose polynomial is
-- x^128 + x^7 + x^2 + x + 1.
use pefs.Base.{
  ℕ, ◌+◌, ◌-◌, ◌*◌, ◌/◌, ◌%◌, ◌^◌, ◌<◌, ◌≡◌, refl, bit_and, bit_or, bit_xor, arith, if◌then◌else◌,
  leb, Bool-cases, inl, inr,
}
use pefs.Base.Bits.{bit_or_join, bit_xor_join, bit_xor-lt}
use pefs.Xts.{Tweak, gf_mul128}

-- The two words hold 64 bits each.
pub record IsTweak (t : Tweak) : Type 0 where
  pub lo_fits : t.lo < 2 ^ 64
  pub hi_fits : t.hi < 2 ^ 64

-- The field element of 128 coefficients, the lowest first.
abbrev pub element : Tweak → ℕ
element t = t.hi * 2 ^ 64 + t.lo

-- Multiplication by x: a shift, and the reduction by the polynomial when a coefficient leaves.
abbrev pub times_x : ℕ → ℕ
times_x e = bit_xor (e * 2 % 2 ^ 128) (if leb (2 ^ 127) e then 0x87 else 0)

high_word :
    (hi lo : ℕ)
    → hi < 2 ^ 64
    → lo < 2 ^ 64
    → bit_or (hi * 2 % 2 ^ 64) (lo / 2 ^ 63) ≡ hi * 2 % 2 ^ 64 + lo / 2 ^ 63
high_word hi lo h l =
    let even : hi * 2 % 2 ^ 64 ≡ hi % 2 ^ 63 * 2 ^ 1 = omega arith in
    rw (even, bit_or_join 1 (hi % 2 ^ 63) (lo / 2 ^ 63) (omega arith)) refl

feedback :
    (hi : ℕ)
    → hi < 2 ^ 64
    → bit_and ((256 - hi / 2 ^ 63) % 256) 0x87 ≡ (if leb (2 ^ 63) hi then 0x87 else 0)
feedback hi h = elim (Bool-cases (leb (2 ^ 63) hi)) [
  | inl big ↦ let e : hi / 2 ^ 63 ≡ 1 = ground arith in rw (e, big)
  | inr small ↦ let e : hi / 2 ^ 63 ≡ 0 = ground arith in rw (e, small)
]

reduction : ℕ → ℕ
reduction hi = if leb (2 ^ 63) hi then 0x87 else 0

reduction-lt : (hi : ℕ) → reduction hi < 256
unfolding reduction
reduction-lt hi = ground arith

gf_words :
    (t : Tweak)
    → IsTweak t
    → gf_mul128 t ≡ record {
      lo = t.lo * 2 % 2 ^ 64 / 256 * 256 + bit_xor (t.lo * 2 % 2 ^ 64 % 256) (reduction t.hi);
      hi = t.hi * 2 % 2 ^ 64 + t.lo / 2 ^ 63;
    }
unfolding gf_mul128 reduction
gf_words t h = rw (feedback t.hi h.hi_fits, high_word t.hi t.lo h.hi_fits h.lo_fits)

pub gf_mul128-IsTweak : (t : Tweak) → IsTweak t → IsTweak (gf_mul128 t)
gf_mul128-IsTweak t h =
    let low =
      bit_xor-lt 8 (t.lo * 2 % 2 ^ 64 % 256) (reduction t.hi) (omega arith) (reduction-lt t.hi) in
    rw (gf_words t h) (record { lo_fits = omega arith; hi_fits = omega arith })

-- gf_mul128 multiplies the tweak by x.
pub gf_mul128-times_x : (t : Tweak) → IsTweak t → element (gf_mul128 t) ≡ times_x (element t)
gf_mul128-times_x t h =
    let low = t.lo * 2 % 2 ^ 64 in
    let high = t.hi * 2 % 2 ^ 64 + t.lo / 2 ^ 63 in
    let joined =
      bit_xor_join 8 (high * 2 ^ 56 + low / 256) (low % 256) (reduction t.hi) (omega arith)
        (reduction-lt t.hi) in
    let shifted : element t * 2 % 2 ^ 128 ≡ (high * 2 ^ 56 + low / 256) * 2 ^ 8 + low % 256 =
      omega arith in
    let reduced : (if leb (2 ^ 127) (element t) then 0x87 else 0) ≡ reduction t.hi =
      unfold reduction in ground arith in
    rw (gf_words t h, shifted, reduced, joined) (omega arith)
