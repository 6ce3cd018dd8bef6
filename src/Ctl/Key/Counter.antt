-- ===== src/Ctl/Key/Counter.antt =====
-- pefs_aes_ctr of sbin/pefs/pefs_key.c as the counter mode that it is.
use pefs.Base.{
  ℕ, zero, suc, ◌+◌, ◌/◌, ◌%◌, ◌≤◌, ◌≡◌, refl, sym, ap, ap₂, ◌∙◌, arith, Option, none, some, List,
  [], ◌∷◌, ◌++◌, length, length-append, length-drop, take, drop, ◌==◌, Bool-cases, inl, inr,
}
use pefs.Base.Bits.{bit_xor_comm}
use pefs.Base.Bytes.{xor_bytes, length-xor_bytes, xor_bytes_cancel}
use pefs.Base.Words.{le_bytes, le_word, length-le_bytes, le_bytes-IsBytes, le_bytes-le_word}
use pefs.Ctl.Key.{Rijndael, increment, ctr_loop, pefs_aes_ctr}
use pefs.Xts.Blocks.{IsBlock}

-- The increment of a counter in memory is the increment of its number, modulo its size.
increment-le_bytes : (k w : ℕ) → increment (le_bytes k w) ≡ le_bytes k (w + 1)
unfolding increment le_bytes
increment-le_bytes zero w = refl
increment-le_bytes (suc k) w = elim (Bool-cases ((w % 256 + 1) % 256 == 0)) [
  | inl carry ↦
      let low : (w % 256 + 1) % 256 ≡ (w + 1) % 256 = omega arith in
      let z : (w + 1) % 256 ≡ 0 = ground (arith, carry, low) in
      let high : w / 256 + 1 ≡ (w + 1) / 256 = omega arith in
      rw carry (ap₂ ◌∷◌ low (increment-le_bytes k (w / 256) ∙ ap (le_bytes k) high))
  | inr small ↦
      let low : (w % 256 + 1) % 256 ≡ (w + 1) % 256 = omega arith in
      let z : ¬ ((w + 1) % 256 ≡ 0) = ground (arith, small, low) in
      let high : w / 256 ≡ (w + 1) / 256 = omega (arith, z) in
      rw small (ap₂ ◌∷◌ low (ap (le_bytes k) high))
]

xor_bytes-block :
    (b ps ks : List ℕ) (n : ℕ)
    → length b ≡ n
    → xor_bytes b (take n ps) ++ xor_bytes (drop n ps) ks ≡ xor_bytes ps (b ++ ks)
unfolding xor_bytes
xor_bytes-block [] ps ks zero h = refl
xor_bytes-block [] ps ks (suc n) h = absurd (omega arith)
xor_bytes-block (x ∷ b) ps ks zero h = absurd (omega arith)
xor_bytes-block (x ∷ b) [] ks (suc n) h = refl
xor_bytes-block (x ∷ b) (p ∷ ps) ks (suc n) h =
    ap₂ ◌∷◌ (bit_xor_comm x p) (xor_bytes-block b ps ks n (omega arith))

module _ {R : Type 0} (aes : Rijndael R) (aes_ctx : R) where
  -- The encryptions of the counters from `w` on, each in 16 bytes.
  unfoldable pub keystream : ℕ → ℕ → List ℕ
  keystream w zero = []
  keystream w (suc n) = aes.encrypt aes_ctx (le_bytes 16 w) ++ keystream (w + 1) n

  abbrev pub MakesBlocks : Type 0
  MakesBlocks = (b : List ℕ) → IsBlock b → length (aes.encrypt aes_ctx b) ≡ 16

  counter-IsBlock : (w : ℕ) → IsBlock (le_bytes 16 w)
  counter-IsBlock w = (length-le_bytes 16 w, le_bytes-IsBytes 16 w)

  length-keystream : MakesBlocks → (w n : ℕ) → n ≤ length (keystream w n)
  unfolding keystream
  length-keystream good w zero = omega arith
  length-keystream good w (suc n) = omega (
    arith,
    length-append (aes.encrypt aes_ctx (le_bytes 16 w)) (keystream (w + 1) n),
    good (le_bytes 16 w) (counter-IsBlock w),
    length-keystream good (w + 1) n,
  )

  ctr_loop-keystream :
      MakesBlocks
      → (fuel w : ℕ) (ps : List ℕ) → length ps ≤ fuel
      → ctr_loop aes aes_ctx fuel (le_bytes 16 w) ps ≡ xor_bytes ps (keystream w fuel)
  unfolding ctr_loop keystream
  ctr_loop-keystream good zero w [] h = unfold xor_bytes in refl
  ctr_loop-keystream good zero w (p ∷ ps) h = absurd (omega arith)
  ctr_loop-keystream good (suc fuel) w [] h = unfold xor_bytes in refl
  ctr_loop-keystream good (suc fuel) w (p ∷ ps) h =
      let block = aes.encrypt aes_ctx (le_bytes 16 w) in
      let rest = drop 16 (p ∷ ps) in
      ap (λ (r : List ℕ). xor_bytes block (take 16 (p ∷ ps)) ++ r)
        (ap (λ (c : List ℕ). ctr_loop aes aes_ctx fuel c rest) (increment-le_bytes 16 w)
          ∙ ctr_loop-keystream good fuel (w + 1) rest (omega (arith, length-drop 16 (p ∷ ps))))
      ∙ xor_bytes-block block (p ∷ ps) (keystream (w + 1) fuel) 16
          (good (le_bytes 16 w) (counter-IsBlock w))

  -- The number that the counter starts from.
  abbrev pub first : Option (List ℕ) → ℕ
  first none = 0
  first (some iv) = le_word iv

  abbrev pub IsIv : Option (List ℕ) → Type 0
  IsIv none = Unit
  IsIv (some iv) = IsBlock iv

  ctr-keystream :
      MakesBlocks
      → (iv : Option (List ℕ)) (ps : List ℕ) → IsIv iv
      → pefs_aes_ctr aes aes_ctx iv ps ≡ xor_bytes ps (keystream (first iv) (length ps))
  unfolding pefs_aes_ctr
  ctr-keystream good none ps h =
      let z : le_bytes 16 0 ≡ 0 ∷ 0 ∷ 0 ∷ 0 ∷ 0 ∷ 0 ∷ 0 ∷ 0 ∷ 0 ∷ 0 ∷ 0 ∷ 0 ∷ 0 ∷ 0 ∷ 0 ∷ 0 ∷ [] =
        unfold le_bytes in refl in
      ap (λ (c : List ℕ). ctr_loop aes aes_ctx (length ps) c ps) (sym z)
      ∙ ctr_loop-keystream good (length ps) 0 ps (omega arith)
  ctr-keystream good (some iv) ps h =
      let z : iv ≡ le_bytes 16 (le_word iv) =
        sym (le_bytes-le_word iv h.1) ∙ ap (λ (k : ℕ). le_bytes k (le_word iv)) h.0 in
      ap (λ (c : List ℕ). ctr_loop aes aes_ctx (length ps) c ps) z
      ∙ ctr_loop-keystream good (length ps) (le_word iv) ps (omega arith)

-- With a cipher that makes blocks of 16 bytes, and a first counter that is null or a block,
-- pefs_aes_ctr gives the exclusive or of the text with the encryptions of the first counter and of
-- those that follow it, as numbers of 128 bits in little-endian order; a second pass gives the text
-- back.
pub pefs_aes_ctr_lem :
    {R : Type 0} (aes : Rijndael R) (aes_ctx : R) (iv : Option (List ℕ)) (ps : List ℕ)
    → MakesBlocks aes aes_ctx
    → IsIv aes aes_ctx iv
    → (pefs_aes_ctr aes aes_ctx iv ps
        ≡ xor_bytes ps (keystream aes aes_ctx (first aes aes_ctx iv) (length ps)))
      × (pefs_aes_ctr aes aes_ctx iv (pefs_aes_ctr aes aes_ctx iv ps) ≡ ps)
pefs_aes_ctr_lem aes aes_ctx iv ps good h =
    let ks = keystream aes aes_ctx (first aes aes_ctx iv) (length ps) in
    let long = length-keystream aes aes_ctx good (first aes aes_ctx iv) (length ps) in
    let once = ctr-keystream aes aes_ctx good iv ps h in
    let again = ctr-keystream aes aes_ctx good iv (xor_bytes ps ks) h in
    (
      once,
      rw once (
          again
          ∙ (ap
                (λ (n : ℕ).
                  xor_bytes (xor_bytes ps ks) (keystream aes aes_ctx (first aes aes_ctx iv) n))
                (length-xor_bytes ps ks long)
              ∙ xor_bytes_cancel ps ks long)),
    )

pub length-pefs_aes_ctr :
    {R : Type 0} (aes : Rijndael R) (aes_ctx : R) (iv : Option (List ℕ)) (ps : List ℕ)
    → MakesBlocks aes aes_ctx
    → IsIv aes aes_ctx iv
    → length (pefs_aes_ctr aes aes_ctx iv ps) ≡ length ps
length-pefs_aes_ctr aes aes_ctx iv ps good h = rw (ctr-keystream aes aes_ctx good iv ps h) (
    length-xor_bytes ps (keystream aes aes_ctx (first aes aes_ctx iv) (length ps))
      (length-keystream aes aes_ctx good (first aes aes_ctx iv) (length ps)))
