-- ===== src/Crypto/Data/RoundTrip.antt =====
-- File data comes back from its encryption, and holes are kept.
use pefs.Base.{
  ℕ, zero, suc, ◌+◌, ◌*◌, ◌≤◌, ◌<◌, ◌≡◌, refl, arith, min, false, List, ◌==◌, length, length-append,
  length-take, length-drop, take, drop, All-take, All-drop, leb, lt→leb, Bool-cases, inl, inr,
}
use pefs.Base.Bytes.{IsByte, IsBytes}
use pefs.Crypto.{Tkey, Primitives}
use pefs.Crypto.Data.{encrypt_sector, encrypt_loop, is_hole, pefs_data_encrypt}
use pefs.Crypto.Data.Sectors.{encrypt_loop_nil}
use pefs.Xts.Blocks.{IsCipher}
use pefs.Xts.RoundTrip.{length-pefs_xts_block_encrypt}

-- No full sector of the data is all zeros.
abbrev pub HasNoHole : List ℕ → Type 0
HasNoHole buf = (i : ℕ) → is_hole (drop (4096 * i) buf) ≡ false

-- Data of less than a sector has none.
pub short-HasNoHole : (buf : List ℕ) → length buf < 4096 → HasNoHole buf
unfolding is_hole
short-HasNoHole buf h i =
    let short : leb 4096 (length (drop (4096 * i) buf)) ≡ false =
      lt→leb 4096 (length (drop (4096 * i) buf)) (omega (arith, length-drop (4096 * i) buf)) in
    rw short refl

abbrev IsDataCipher : Primitives → Tkey → Type 0
IsDataCipher lib ptk =
    IsCipher (lib.encrypt ptk.key.alg ptk.key.data_ctx) (lib.decrypt ptk.key.alg ptk.key.data_ctx)

module _ (lib : Primitives) (ptk : Tkey) (cipher : IsDataCipher lib ptk) where
  length-encrypt_sector :
      (offset : ℕ) (buf : List ℕ)
      → IsBytes buf
      → length (encrypt_sector lib ptk offset buf) ≡ length buf
  unfolding encrypt_sector
  length-encrypt_sector offset buf bytes =
      (length-pefs_xts_block_encrypt (lib.encrypt ptk.key.alg ptk.key.data_ctx)
        cipher.encrypt-IsBlock (lib.encrypt ptk.key.alg ptk.key.tweak_ctx) offset ptk.tweak buf
        (length buf) bytes refl).0

  length-encrypt_loop :
      (f offset : ℕ) (buf : List ℕ)
      → IsBytes buf
      → length buf ≤ f
      → length (encrypt_loop lib ptk f offset buf) ≡ length buf
  unfolding encrypt_loop
  length-encrypt_loop zero offset buf bytes h = omega arith
  length-encrypt_loop (suc f) offset buf bytes h = elim (Bool-cases (length buf == 0)) [
    | inl nothing ↦ rw (encrypt_loop_nil lib ptk (suc f) offset buf (ground arith)) (ground arith)
    | inr something ↦
        let pos : 0 < length buf = ground arith in
        let b = min (length buf) 4096 in
        let s = length-encrypt_sector offset (take b buf) (All-take IsByte b buf bytes) in
        let n = length-drop b buf in
        let r =
          length-encrypt_loop f (offset + b) (drop b buf) (All-drop IsByte b buf bytes)
            (omega arith) in
        rw (something, length, encrypt_loop)
          (omega (
            arith,
            length-append (encrypt_sector lib ptk offset (take b buf))
                (encrypt_loop lib ptk f (offset + b) (drop b buf)),
            length-take b buf,
          ))
  ]

-- Encrypted data is as long as the data.
pub length-pefs_data_encrypt :
    (lib : Primitives) (ptk : Tkey) (offset : ℕ) (buf : List ℕ)
    → IsCipher (lib.encrypt ptk.key.alg ptk.key.data_ctx) (lib.decrypt ptk.key.alg ptk.key.data_ctx)
    → IsBytes buf
    → length (pefs_data_encrypt lib ptk offset buf) ≡ length buf
unfolding pefs_data_encrypt
length-pefs_data_encrypt lib ptk offset buf cipher bytes =
    length-encrypt_loop lib ptk cipher (length buf) offset buf bytes (omega arith)
