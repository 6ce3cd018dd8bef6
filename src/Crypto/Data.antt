-- ===== src/Crypto/Data.antt =====
-- File data: pefs_data_encrypt and pefs_data_decrypt of sys/fs/pefs/pefs_crypto.c. A chunk is the
-- list of its pc_size bytes, at an offset that is a multiple of the sector size; both functions
-- work in place, and the result is what the chunk holds then. The two MPASS checks are debugging
-- assertions, which are not modelled.
pub mod Sectors
pub mod RoundTrip
pub mod Holes
use pefs.Base.{
  ℕ, zero, suc, ◌+◌, ◌/◌, min, Bool, true, false, List, [], ◌++◌, ◌==◌, leb, if◌then◌else◌, length,
  take, drop, replicate,
}
use pefs.Base.Words.{le_word}
use pefs.Crypto.{Key, Tkey, Primitives}
use pefs.Xts.{pefs_xts_block_encrypt, pefs_xts_block_decrypt}

abbrev pub sector_size : ℕ
sector_size = 4096

-- One call of pefs_xts_block_encrypt or pefs_xts_block_decrypt with a key's contexts.
unfoldable pub encrypt_sector : Primitives → Tkey → ℕ → List ℕ → List ℕ
encrypt_sector lib ptk offset buf =
    let pk = ptk.key in
    pefs_xts_block_encrypt (lib.encrypt pk.alg pk.data_ctx) (lib.encrypt pk.alg pk.tweak_ctx) offset
      ptk.tweak (length buf) buf

unfoldable pub decrypt_sector : Primitives → Tkey → ℕ → List ℕ → List ℕ
decrypt_sector lib ptk offset buf =
    let pk = ptk.key in
    pefs_xts_block_decrypt (lib.encrypt pk.alg pk.data_ctx) (lib.decrypt pk.alg pk.data_ctx)
      (lib.encrypt pk.alg pk.tweak_ctx) offset ptk.tweak (length buf) buf

-- `while (resid > 0)` of pefs_data_encrypt, over the bytes left; each round takes a byte or more,
-- so that their number is enough fuel.
unfoldable pub encrypt_loop : Primitives → Tkey → ℕ → ℕ → List ℕ → List ℕ
encrypt_loop lib ptk zero offset buf = []
encrypt_loop lib ptk (suc fuel) offset buf = elim (length buf == 0) [
  | true ↦ []
  | false ↦
      let block = min (length buf) sector_size in
      encrypt_sector lib ptk offset (take block buf)
      ++ encrypt_loop lib ptk fuel (offset + block) (drop block buf)
]

unfoldable pub pefs_data_encrypt : Primitives → Tkey → ℕ → List ℕ → List ℕ
unfolding encrypt_loop
pefs_data_encrypt lib ptk offset buf = encrypt_loop lib ptk (length buf) offset buf

-- `for (; resid > 0; resid--) if (*(p++) != 0) break`, and whether it ran to the end.
unfoldable pub zero_longs : ℕ → List ℕ → Bool
zero_longs zero p = true
zero_longs (suc resid) p =
    let rest = zero_longs resid (drop 8 p) in if le_word (take 8 p) == 0 then rest else false

-- A full sector of zeros, which stands for a hole in the file.
unfoldable pub is_hole : List ℕ → Bool
unfolding zero_longs
is_hole buf =
    if leb sector_size (length buf)
    then zero_longs (sector_size / 8) (take sector_size buf)
    else false

-- `while (buf < end)` of pefs_data_decrypt.
unfoldable pub decrypt_loop : Primitives → Tkey → ℕ → ℕ → List ℕ → List ℕ
decrypt_loop lib ptk zero offset buf = []
decrypt_loop lib ptk (suc fuel) offset buf = elim (length buf == 0) [
  | true ↦ []
  | false ↦ elim (is_hole buf) [
    | true ↦
        replicate sector_size 0
        ++ decrypt_loop lib ptk fuel (offset + sector_size) (drop sector_size buf)
    | false ↦
        let resid = min (length buf) sector_size in
        decrypt_sector lib ptk offset (take resid buf)
        ++ decrypt_loop lib ptk fuel (offset + resid) (drop resid buf)
  ]
]

unfoldable pub pefs_data_decrypt : Primitives → Tkey → ℕ → List ℕ → List ℕ
unfolding decrypt_loop
pefs_data_decrypt lib ptk offset buf = decrypt_loop lib ptk (length buf) offset buf
