-- ===== src/Crypto/Derive.antt =====
-- Keys of a mount from a master key: pefs_hkdf_expand, pefs_key_wipe, pefs_key_generate and
-- pefs_key_get of sys/fs/pefs/pefs_crypto.c.
pub mod Chain
pub mod Laws
use pefs.Base.{
  ℕ, ◌+◌, ◌≡◌, Bool, true, false, ◌||◌, Option, none, some, List, [], ◌∷◌, ◌++◌, ◌==◌,
  if◌then◌else◌, replicate, take,
}
use pefs.Base.Text.{codes}
use pefs.Crypto.{Alg, aes, camellia, Ctx, Key, alg_aes_xts, alg_camellia_xts, keyid_size}
use pefs.Hmac.{Sha512, hmac_sha512_init, hmac_sha512_update, hmac_sha512_final}

abbrev pub key_size : ℕ
key_size = 64

abbrev pub name_key_bits : ℕ
name_key_bits = 128

-- magic_keyinfo_v1, with its terminating zero.
abbrev pub magic_keyinfo_v1 : List ℕ
magic_keyinfo_v1 = codes "PEFSKEY-V1" ++ 0 ∷ []

-- What is not modelled: SHA-512, `pa_keysetup` of an algorithm, which returns an error number and
-- the context (of `ctx_size` bytes, as all contexts), and vmac_set_key.
pub record Setup (C : Type 0) : Type 0 where
  pub sha : Sha512 C
  pub ctx_size : ℕ
  pub keysetup : Alg → Ctx → List ℕ → ℕ → ℕ × Ctx
  pub vmac_set_key : List ℕ → Ctx → Ctx

module _ {C : Type 0} (lib : Setup C) where
  -- The new contents of `key`. The byte_idx is a uint8_t.
  unfoldable pub pefs_hkdf_expand : List ℕ → List ℕ → ℕ → List ℕ → List ℕ
  pefs_hkdf_expand masterkey key byte_idx magic =
      let ctx = hmac_sha512_init lib.sha (take key_size masterkey) in
      let ctx' = hmac_sha512_update lib.sha ctx key in
      let ctx'' = hmac_sha512_update lib.sha ctx' magic in
      hmac_sha512_final lib.sha (hmac_sha512_update lib.sha ctx'' (byte_idx ∷ [])) key_size

  unfoldable pub pefs_key_wipe : Key → Key
  pefs_key_wipe pk =
      let zeros = replicate lib.ctx_size 0 in
      record pk { name_ctx = zeros; name_csum_ctx = zeros; data_ctx = zeros; tweak_ctx = zeros }

  -- pefs_key_generate from the four values that `key` takes: the error number and the key.
  unfoldable pub setup_from : Key → List ℕ → List ℕ → List ℕ → List ℕ → ℕ × Key
  unfolding pefs_key_wipe
  setup_from pk key1 key2 key3 key4 =
      let pk0 = pefs_key_wipe pk in
      let (error1, data_ctx) = lib.keysetup pk.alg pk0.data_ctx key1 pk.keybits in
      let pk1 = record pk0 { data_ctx = data_ctx } in
      let (error2, tweak_ctx) = lib.keysetup pk.alg pk1.tweak_ctx key2 pk.keybits in
      let pk2 = record pk1 { tweak_ctx = tweak_ctx } in
      let (error3, name_ctx) = lib.keysetup aes pk2.name_ctx key3 name_key_bits in
      let pk3 = record pk2 { name_ctx = name_ctx } in
      let pk4 = record pk3 { name_csum_ctx = lib.vmac_set_key key4 pk3.name_csum_ctx } in
      elim (error1 == 0) [
        | false ↦ (error1, pefs_key_wipe pk1)
        | true ↦ elim (error2 == 0) [
          | false ↦ (error2, pefs_key_wipe pk2)
          | true ↦ elim (error3 == 0) [ false ↦ (error3, pefs_key_wipe pk3) | true ↦ (error3, pk4) ]
        ]
      ]

  unfoldable pub pefs_key_generate : Key → List ℕ → List ℕ → ℕ × Key
  unfolding pefs_hkdf_expand setup_from
  pefs_key_generate pk masterkey magic =
      let key1 = pefs_hkdf_expand masterkey (replicate key_size 0) 1 magic in
      let key2 = pefs_hkdf_expand masterkey key1 2 magic in
      let key3 = pefs_hkdf_expand masterkey key2 3 magic in
      let key4 = pefs_hkdf_expand masterkey key3 4 magic in setup_from pk key1 key2 key3 key4

  -- pk_alg, and whether the algorithm is known.
  unfoldable pub find_alg : ℕ → Option Alg
  find_alg alg =
      if alg == alg_aes_xts
      then some aes
      else if alg == alg_camellia_xts
      then some camellia
      else none

  -- `ptr` is the address of the zeroed memory that the key gets, `fresh` what pefs_ctx_get returns.
  -- The error of pefs_key_generate is not looked at.
  unfoldable pub pefs_key_get : ℕ → Ctx → ℕ → ℕ → List ℕ → List ℕ → Option Key
  unfolding pefs_key_generate find_alg
  pefs_key_get ptr fresh alg keybits key keyid = elim (find_alg alg) [
    | none ↦ none
    | some pk_alg ↦
        if keybits == 128 || (keybits == 192 || keybits == 256)
        then some
            (pefs_key_generate
              (record {
                ptr = ptr;
                refcnt = 1;
                alg = pk_alg;
                name_csum_ctx = fresh;
                name_ctx = fresh;
                tweak_ctx = fresh;
                data_ctx = fresh;
                algid = alg;
                keybits = keybits;
                keyid = take keyid_size keyid;
              })
              key magic_keyinfo_v1).1
        else none
  ]
