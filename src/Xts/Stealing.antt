-- ===== src/Xts/Stealing.antt =====
-- A sector of XTS as an equation: whole blocks, and the two blocks at the end that share bytes.
use pefs.Base.{
  ℕ, zero, suc, ◌+◌, ◌*◌, ◌<◌, ◌≡◌, refl, arith, List, ◌++◌, length, length-append, length-take,
  length-drop, take, drop, All-append, All-take, All-drop, take-append_exact, drop-append_exact,
  take-append-drop, take-all, ◌==◌, if◌then◌else◌, Bool-cases, inl, inr,
}
use pefs.Base.Bytes.{IsByte, IsBytes}
use pefs.Xts.{Tweak, Crypt, gf_mul128, xts_fullblock}
use pefs.Xts.Blocks.{IsBlock, IsCipher, fullblock-IsBlock, fullblock_cancel}

-- The last full block and the `r` bytes behind it, encrypted: the block's ciphertext lends the
-- short one what it lacks.
unfoldable pub steal : Crypt → Tweak → ℕ → List ℕ → List ℕ → List ℕ
steal crypt t r block tail =
    let c = xts_fullblock crypt t block in
    xts_fullblock crypt (gf_mul128 t) (tail ++ drop r c) ++ take r c

-- The same the other way round.
unfoldable pub unsteal : Crypt → Tweak → ℕ → List ℕ → List ℕ → List ℕ
unsteal crypt t r block tail =
    let m = xts_fullblock crypt (gf_mul128 t) block in
    xts_fullblock crypt t (tail ++ drop r m) ++ take r m

-- `n + 1` full blocks and `r` bytes more.
unfoldable pub encrypted : Crypt → ℕ → ℕ → Tweak → List ℕ → List ℕ
encrypted crypt zero r t src =
    if r == 0
    then xts_fullblock crypt t (take 16 src)
    else steal crypt t r (take 16 src) (drop 16 src)
encrypted crypt (suc n) r t src =
    xts_fullblock crypt t (take 16 src) ++ encrypted crypt n r (gf_mul128 t) (drop 16 src)

unfoldable pub decrypted : Crypt → ℕ → ℕ → Tweak → List ℕ → List ℕ
decrypted crypt zero r t src =
    if r == 0
    then xts_fullblock crypt t (take 16 src)
    else unsteal crypt t r (take 16 src) (drop 16 src)
decrypted crypt (suc n) r t src =
    xts_fullblock crypt t (take 16 src) ++ decrypted crypt n r (gf_mul128 t) (drop 16 src)

abbrev pub IsSector : ℕ → ℕ → List ℕ → Type 0
IsSector n r src = (length src ≡ 16 + 16 * n + r) × IsBytes src

pub head-IsBlock : (n r : ℕ) (src : List ℕ) → IsSector n r src → IsBlock (take 16 src)
head-IsBlock n r src h = (omega (arith, length-take 16 src), All-take IsByte 16 src h.1)

pub tail-IsSector : (n r : ℕ) (src : List ℕ) → IsSector (suc n) r src → IsSector n r (drop 16 src)
tail-IsSector n r src h = (omega (arith, length-drop 16 src), All-drop IsByte 16 src h.1)

module _ {encrypt decrypt : Crypt} (cipher : IsCipher encrypt decrypt) where
  unsteal-steal :
      (t : Tweak) (r : ℕ) (block tail : List ℕ)
      → IsBlock block
      → IsBytes tail
      → length tail ≡ r
      → r < 16
      → let c = steal encrypt t r block tail in
        unsteal decrypt t r (take 16 c) (drop 16 c) ≡ block ++ tail
  unfolding steal unsteal
  unsteal-steal t r block tail hb ht same small =
      let t' = gf_mul128 t in
      let c = xts_fullblock encrypt t block in
      let hc = fullblock-IsBlock encrypt t block cipher.encrypt-IsBlock hb in
      let merged = tail ++ drop r c in
      let hm : IsBlock merged = (
        omega (arith, length-append tail (drop r c), length-drop r c),
        All-append IsByte tail (drop r c) ht (All-drop IsByte r c hc.1),
      ) in
      let x = xts_fullblock encrypt t' merged in
      let hx = fullblock-IsBlock encrypt t' merged cipher.encrypt-IsBlock hm in
      rw
        (
          take-append_exact 16 x (take r c) hx.0,
          drop-append_exact 16 x (take r c) hx.0,
          fullblock_cancel cipher t' merged hm,
          take-append_exact r tail (drop r c) same,
          drop-append_exact r tail (drop r c) same,
          take-append-drop r c,
          fullblock_cancel cipher t block hb,
        )
        refl

  pub decrypted-encrypted :
      (n r : ℕ) (t : Tweak) (src : List ℕ)
      → r < 16
      → IsSector n r src
      → decrypted decrypt n r t (encrypted encrypt n r t src) ≡ src
  unfolding encrypted decrypted
  decrypted-encrypted zero r t src small h =
      let block = head-IsBlock 0 r src h in
      let tail = drop 16 src in
      let last = length-drop 16 src in
      elim (Bool-cases (r == 0)) [
        | inl none_left ↦
            let c = fullblock-IsBlock encrypt t (take 16 src) cipher.encrypt-IsBlock block in
            rw
              (
                none_left,
                take-all 16 (xts_fullblock encrypt t (take 16 src)) (omega arith),
                fullblock_cancel cipher t (take 16 src) block,
              )
              (take-all 16 src (ground arith))
        | inr some_left ↦
            rw
              (
                some_left,
                unsteal-steal t r (take 16 src) tail block (All-drop IsByte 16 src h.1)
                    (omega arith) small,
              )
              (take-append-drop 16 src)
      ]
  decrypted-encrypted (suc n) r t src small h =
      let block = head-IsBlock (suc n) r src h in
      let c = fullblock-IsBlock encrypt t (take 16 src) cipher.encrypt-IsBlock block in
      rw
        (
          take-append_exact 16 (xts_fullblock encrypt t (take 16 src))
              (encrypted encrypt n r (gf_mul128 t) (drop 16 src)) c.0,
          drop-append_exact 16 (xts_fullblock encrypt t (take 16 src))
              (encrypted encrypt n r (gf_mul128 t) (drop 16 src)) c.0,
          fullblock_cancel cipher t (take 16 src) block,
          decrypted-encrypted n r (gf_mul128 t) (drop 16 src) small (tail-IsSector n r src h),
        )
        (take-append-drop 16 src)
