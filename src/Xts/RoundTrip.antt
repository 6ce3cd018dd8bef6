-- ===== src/Xts/RoundTrip.antt =====
-- pefs_xts_block_decrypt after pefs_xts_block_encrypt, at every length.
use pefs.Base.{
  ℕ, ◌+◌, ◌-◌, ◌*◌, ◌/◌, ◌%◌, ◌≡◌, sym, ◌∙◌, arith, List, length, ltb, ltb→lt, Bool-cases, inl, inr,
}
use pefs.Base.Bytes.{IsBytes}
use pefs.Xts.{Crypt, xts_start, pefs_xts_block_encrypt, pefs_xts_block_decrypt}
use pefs.Xts.Blocks.{IsBlock, IsCipher, smallblock_cancel, length-smallblock, smallblock-IsBytes}
use pefs.Xts.Stealing.{encrypted, IsSector, decrypted-encrypted}
use pefs.Xts.Loops.{encrypted-IsSector, encrypt_large, decrypt_large}

-- Decryption with the same keys, sector and tweak gives back what was encrypted, at every length:
-- whole blocks, a last block that is not full, and less than one block. The block cipher is asked
-- to map blocks to blocks and to undo its encryption.
pub pefs_xts_round_trip :
    {encrypt decrypt : Crypt}
    → IsCipher encrypt decrypt
    → (pa_tweak : Crypt) (sector : ℕ) (xtweak src : List ℕ) (len : ℕ) → IsBytes src
    → length src ≡ len
    → pefs_xts_block_decrypt encrypt decrypt pa_tweak sector xtweak len
        (pefs_xts_block_encrypt encrypt pa_tweak sector xtweak len src)
      ≡ src
unfolding pefs_xts_block_encrypt pefs_xts_block_decrypt
pefs_xts_round_trip {encrypt} {decrypt} cipher pa_tweak sector xtweak src len bytes whole =
    let t = xts_start pa_tweak sector xtweak in
    elim (Bool-cases (ltb len 16)) [
      | inl small ↦
          rw (small, pefs_xts_block_encrypt, pefs_xts_block_decrypt)
            (smallblock_cancel encrypt t src len cipher.encrypt-IsBlock whole (ltb→lt len 16 small))
      | inr large ↦
          let n = len / 16 - 1 in
          let r = len % 16 in
          let e : len ≡ 16 + 16 * n + r = ground arith in
          let h : IsSector n r src = (whole ∙ e, bytes) in
          rw
            (
              encrypt_large pa_tweak sector xtweak encrypt cipher.encrypt-IsBlock n r len src
                  (omega arith) h e,
              decrypt_large pa_tweak sector xtweak encrypt decrypt cipher.decrypt-IsBlock n r len
                  (encrypted encrypt n r t src) (omega arith)
                  (encrypted-IsSector encrypt cipher.encrypt-IsBlock n r t src (omega arith) h) e,
            )
            (decrypted-encrypted cipher n r t src (omega arith) h)
    ]

-- The ciphertext is as long as the plaintext.
pub length-pefs_xts_block_encrypt :
    (encrypt : Crypt) (keep : (b : List ℕ) → IsBlock b → IsBlock (encrypt b)) (pa_tweak : Crypt)
    (sector : ℕ) (xtweak src : List ℕ) (len : ℕ)
    → IsBytes src
    → length src ≡ len
    → (length (pefs_xts_block_encrypt encrypt pa_tweak sector xtweak len src) ≡ len)
      × IsBytes (pefs_xts_block_encrypt encrypt pa_tweak sector xtweak len src)
unfolding pefs_xts_block_encrypt
length-pefs_xts_block_encrypt encrypt keep pa_tweak sector xtweak src len bytes whole =
    let t = xts_start pa_tweak sector xtweak in
    elim (Bool-cases (ltb len 16)) [
      | inl small ↦ rw small (
        length-smallblock encrypt t src len keep whole (ltb→lt len 16 small),
        smallblock-IsBytes encrypt t src len keep bytes,
      )
      | inr large ↦
          let e : len ≡ 16 + 16 * (len / 16 - 1) + len % 16 = ground arith in
          let h : IsSector (len / 16 - 1) (len % 16) src = (whole ∙ e, bytes) in
          let out =
            encrypted-IsSector encrypt keep (len / 16 - 1) (len % 16) t src (omega arith) h in
          rw
            (encrypt_large pa_tweak sector xtweak encrypt keep (len / 16 - 1) (len % 16) len src
              (omega arith) h e)
            (out.0 ∙ sym e, out.1)
    ]
