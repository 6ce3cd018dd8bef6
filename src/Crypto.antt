-- ===== src/Crypto.antt =====
-- sys/fs/pefs/pefs_crypto.c: keys, the key list of a mount, file data and file names.
-- The ciphers themselves (rijndael, camellia), VMAC and SHA-512 are parameters.
pub mod Keyring
pub mod Name
pub mod Data
pub mod Derive
use pefs.Base.{ℕ, ◌≡◌, Bool, true, false, Option, List, length, ◌==◌}
use pefs.Base.Bytes.{IsBytes}
use pefs.Xts.{Crypt}

-- The two instances of `struct pefs_alg`: pefs_alg_aes and pefs_alg_camellia.
pub data Alg : Type 0 where
  aes camellia : Alg

abbrev pub alg_aes_xts : ℕ
alg_aes_xts = 4

abbrev pub alg_camellia_xts : ℕ
alg_camellia_xts = 5

-- The bytes of a `struct pefs_ctx`.
abbrev pub Ctx : Type 0
Ctx = List ℕ

-- `struct pefs_key`. `ptr` is its address, by which the lists know it.
pub record Key : Type 0 where
  pub ptr : ℕ
  pub refcnt : ℕ
  pub alg : Alg
  pub name_csum_ctx : Ctx
  pub name_ctx : Ctx
  pub tweak_ctx : Ctx
  pub data_ctx : Ctx
  pub algid : ℕ
  pub keybits : ℕ
  pub keyid : List ℕ

abbrev pub keyid_size : ℕ
keyid_size = 8

-- An identifier of PEFS_KEYID_SIZE bytes, and a context of `sizeof(struct pefs_ctx)` bytes.
pub record IsKey (ctx_size : ℕ) (k : Key) : Type 0 where
  pub keyid_length : length k.keyid ≡ keyid_size
  pub keyid_bytes : IsBytes k.keyid
  pub ctx_length : length k.data_ctx ≡ ctx_size
  pub ctx_bytes : IsBytes k.data_ctx

-- `struct pefs_tkey`.
pub record Tkey : Type 0 where
  pub key : Key
  pub tweak : List ℕ

-- What is not modelled: `pa_encrypt` and `pa_decrypt` of the two algorithms under a context, and
-- vmac of data and a nonce under a context.
pub record Primitives : Type 0 where
  pub encrypt : Alg → Ctx → Crypt
  pub decrypt : Alg → Ctx → Crypt
  pub vmac : List ℕ → List ℕ → Ctx → ℕ
