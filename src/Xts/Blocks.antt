-- ===== src/Xts/Blocks.antt =====
-- One block of XTS: what is asked of a block cipher, and that a block comes back.
use pefs.Base.{
  ℕ, ◌<◌, ◌≡◌, refl, arith, List, length, length-append, length-take, take-all, ◌%◌, All-append,
  All-take, replicate, All-replicate,
}
use pefs.Base.Bytes.{IsByte, IsBytes, xor_bytes, length-xor_bytes, xor_bytes_cancel, IsBytes-xor}
use pefs.Base.Words.{le_bytes, length-le_bytes, le_bytes-IsBytes}
use pefs.Xts.{Tweak, tweak_bytes, Crypt, xts_fullblock, xts_smallblock}

-- 16 bytes.
abbrev pub IsBlock : List ℕ → Type 0
IsBlock b = (length b ≡ 16) × IsBytes b

-- A block cipher under one key: both directions map blocks to blocks, and decryption undoes
-- encryption.
pub record IsCipher (encrypt decrypt : Crypt) : Type 0 where
  pub encrypt-IsBlock : (b : List ℕ) → IsBlock b → IsBlock (encrypt b)
  pub decrypt-IsBlock : (b : List ℕ) → IsBlock b → IsBlock (decrypt b)
  pub decrypt-encrypt : (b : List ℕ) → IsBlock b → decrypt (encrypt b) ≡ b

tweak-IsBlock : (t : Tweak) → IsBlock (tweak_bytes t)
unfolding tweak_bytes
tweak-IsBlock t = (
  omega (
    arith,
    length-append (le_bytes 8 t.lo) (le_bytes 8 t.hi),
    length-le_bytes 8 t.lo,
    length-le_bytes 8 t.hi,
  ),
  All-append IsByte _ _ (le_bytes-IsBytes 8 t.lo) (le_bytes-IsBytes 8 t.hi),
)

pub xor-IsBlock : (a b : List ℕ) → IsBlock a → IsBlock b → IsBlock (xor_bytes a b)
xor-IsBlock a b h k = (omega (arith, length-xor_bytes a b (omega arith)), IsBytes-xor a b h.1 k.1)

pub fullblock-IsBlock :
    (crypt : Crypt) (t : Tweak) (b : List ℕ)
    → ((x : List ℕ) → IsBlock x → IsBlock (crypt x))
    → IsBlock b
    → IsBlock (xts_fullblock crypt t b)
unfolding xts_fullblock
fullblock-IsBlock crypt t b keep h =
    xor-IsBlock _ _ (keep _ (xor-IsBlock b _ h (tweak-IsBlock t))) (tweak-IsBlock t)

module _ {encrypt decrypt : Crypt} (cipher : IsCipher encrypt decrypt) where
  pub fullblock_cancel :
      (t : Tweak) (b : List ℕ) → IsBlock b → xts_fullblock decrypt t (xts_fullblock encrypt t b) ≡ b
  unfolding xts_fullblock
  fullblock_cancel t b h =
      let mask = tweak-IsBlock t in
      let masked = xor-IsBlock b (tweak_bytes t) h mask in
      let crypted = cipher.encrypt-IsBlock _ masked in
      rw
        (
          xor_bytes_cancel (encrypt (xor_bytes b (tweak_bytes t))) (tweak_bytes t) (omega arith),
          cipher.decrypt-encrypt _ masked,
          xor_bytes_cancel b (tweak_bytes t) (omega arith),
        )
        refl

-- The counter mode of a short buffer undoes itself.
pub smallblock_cancel :
    (encrypt : Crypt) (t : Tweak) (src : List ℕ) (len : ℕ)
    → ((x : List ℕ) → IsBlock x → IsBlock (encrypt x))
    → length src ≡ len
    → len < 16
    → xts_smallblock encrypt t (xts_smallblock encrypt t src len) len ≡ src
unfolding xts_smallblock
smallblock_cancel encrypt t src len keep whole small =
    let mask = replicate 16 (len % 256) in
    let masked : IsBlock mask = (refl, All-replicate IsByte 16 (len % 256) (omega arith)) in
    let key = encrypt (xor_bytes mask (tweak_bytes t)) in
    let k : length key ≡ 16 = (keep _ (xor-IsBlock mask _ masked (tweak-IsBlock t))).0 in
    let n = length-xor_bytes src key (omega arith) in
    rw
      (
        take-all len (xor_bytes src key) (omega arith),
        xor_bytes_cancel src key (omega arith),
        take-all len src (omega arith),
      )
      refl

pub length-smallblock :
    (encrypt : Crypt) (t : Tweak) (src : List ℕ) (len : ℕ)
    → ((x : List ℕ) → IsBlock x → IsBlock (encrypt x))
    → length src ≡ len
    → len < 16
    → length (xts_smallblock encrypt t src len) ≡ len
unfolding xts_smallblock
length-smallblock encrypt t src len keep whole small =
    let mask = replicate 16 (len % 256) in
    let masked : IsBlock mask = (refl, All-replicate IsByte 16 (len % 256) (omega arith)) in
    let key = encrypt (xor_bytes mask (tweak_bytes t)) in
    let k : length key ≡ 16 = (keep _ (xor-IsBlock mask _ masked (tweak-IsBlock t))).0 in
    omega (arith, length-take len (xor_bytes src key), length-xor_bytes src key (omega arith))

pub smallblock-IsBytes :
    (encrypt : Crypt) (t : Tweak) (src : List ℕ) (len : ℕ)
    → ((x : List ℕ) → IsBlock x → IsBlock (encrypt x))
    → IsBytes src
    → IsBytes (xts_smallblock encrypt t src len)
unfolding xts_smallblock
smallblock-IsBytes encrypt t src len keep bytes =
    let mask = replicate 16 (len % 256) in
    let masked : IsBlock mask = (refl, All-replicate IsByte 16 (len % 256) (omega arith)) in
    let key = keep (xor_bytes mask (tweak_bytes t)) (xor-IsBlock mask _ masked (tweak-IsBlock t)) in
    All-take IsByte len _ (IsBytes-xor src _ bytes key.1)
