-- ===== src/Hmac.antt =====
-- sys/crypto/hmac/hmac_sha512.c and sys/crypto/pbkdf2/pbkdf2_hmac_sha512.c, over SHA-512.
pub mod Laws
pub mod Genkey
use pefs.Base.{
  ℕ, zero, suc, ◌+◌, ◌-◌, ◌*◌, ◌/◌, ◌%◌, ◌^◌, ◌≡◌, bit_and, Bool, true, false, List, [], ◌∷◌, ◌++◌,
  length, take, replicate, min, ltb, ◌==◌, if◌then◌else◌,
}
use pefs.Base.Bytes.{xor_bytes}

-- SHA512_Init, SHA512_Update and SHA512_Final over their context.
pub record Sha512 (C : Type 0) : Type 0 where
  pub init : C
  pub update : C → List ℕ → C
  pub final : C → List ℕ

-- Data may be given in pieces, and a digest has 64 bytes.
pub record IsSha512 {C : Type 0} (sha : Sha512 C) : Type 0 where
  pub update-append : (c : C) (a b : List ℕ) → sha.update (sha.update c a) b ≡ sha.update c (a ++ b)
  pub length-final : (c : C) → length (sha.final c) ≡ 64

abbrev pub digest_length : ℕ
digest_length = 64

-- `struct hmac_sha512_ctx`.
pub record HmacCtx (C : Type 0) : Type 0 where
  pub shactx : C
  pub k_opad : List ℕ

module _ {C : Type 0} (sha : Sha512 C) where
  -- The array key[128] before the loop: a key within it is followed by zeros, and a longer one is
  -- hashed.
  unfoldable pub block_key : List ℕ → List ℕ
  block_key hkey =
      if length hkey == 0
      then replicate 128 0
      else if ltb 128 (length hkey)
      then sha.final (sha.update sha.init hkey) ++ replicate (128 - digest_length) 0
      else hkey ++ replicate (128 - length hkey) 0

  unfoldable pub hmac_sha512_init : List ℕ → HmacCtx C
  unfolding block_key
  hmac_sha512_init hkey =
      let key = block_key hkey in
      record {
        shactx = sha.update sha.init (xor_bytes key (replicate 128 0x36));
        k_opad = xor_bytes key (replicate 128 0x5c);
      }

  unfoldable pub hmac_sha512_update : HmacCtx C → List ℕ → HmacCtx C
  hmac_sha512_update ctx body = record ctx { shactx = sha.update ctx.shactx body }

  unfoldable pub hmac_sha512_final : HmacCtx C → ℕ → List ℕ
  hmac_sha512_final ctx mdsize =
      let inner = sha.final ctx.shactx in
      let outer = sha.final (sha.update (sha.update sha.init ctx.k_opad) inner) in
      take (if mdsize == 0 then digest_length else mdsize) outer

  unfoldable pub hmac_sha512 : List ℕ → List ℕ → ℕ → List ℕ
  unfolding hmac_sha512_init hmac_sha512_update hmac_sha512_final
  hmac_sha512 hkey body mdsize =
      hmac_sha512_final (hmac_sha512_update (hmac_sha512_init hkey) body) mdsize

  -- `for (i = 1; i < iterations; i++)`, over the rounds that are left.
  unfoldable pub iterate : List ℕ → ℕ → List ℕ → List ℕ → List ℕ
  iterate passphrase zero md keyp = keyp
  iterate passphrase (suc rounds) md keyp =
      let md' = hmac_sha512 passphrase md 0 in
      iterate passphrase rounds md' (xor_bytes keyp (take (length keyp) md'))

  abbrev pub counter : ℕ → List ℕ
  counter count =
      bit_and (count / 2 ^ 24) 0xff
      ∷ bit_and (count / 2 ^ 16) 0xff
      ∷ bit_and (count / 2 ^ 8) 0xff
      ∷ bit_and count 0xff
      ∷ []

  -- One round of the outer loop, for `bsize` bytes of the key, which are zero before.
  unfoldable pub key_block : List ℕ → List ℕ → ℕ → ℕ → ℕ → List ℕ
  unfolding iterate
  key_block salt passphrase iterations count bsize =
      let md = hmac_sha512 passphrase (salt ++ counter count) 0 in
      iterate passphrase (iterations - 1) md (xor_bytes (replicate bsize 0) (take bsize md))

  -- `for (count = 1; keylen > 0; count++, keylen -= bsize, keyp += bsize)`; each round takes a byte
  -- or more, so that keylen is enough fuel.
  unfoldable pub genkey_loop : List ℕ → List ℕ → ℕ → ℕ → ℕ → ℕ → List ℕ
  unfolding key_block
  genkey_loop salt passphrase iterations zero keylen count = []
  genkey_loop salt passphrase iterations (suc fuel) keylen count = elim (keylen == 0) [
    | true ↦ []
    | false ↦
        let bsize = min keylen digest_length in
        key_block salt passphrase iterations count bsize
        ++ genkey_loop salt passphrase iterations fuel (keylen - bsize) ((count + 1) % 2 ^ 32)
  ]

  -- `passphrase` is the string without its terminating zero.
  unfoldable pub pbkdf2_hmac_sha512_genkey : ℕ → List ℕ → List ℕ → ℕ → List ℕ
  unfolding genkey_loop
  pbkdf2_hmac_sha512_genkey keylen salt passphrase iterations =
      genkey_loop salt passphrase iterations keylen keylen 1
