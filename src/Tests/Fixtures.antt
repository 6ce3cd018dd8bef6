-- ===== src/Tests/Fixtures.antt =====
-- A cipher that masks its block, and keys that use it.
use pefs.Base.{ℕ, refl, List, [], ◌∷◌, replicate, get_or, arith, All-replicate}
use pefs.Base.Bytes.{IsByte, xor_bytes, xor_bytes_cancel}
use pefs.Crypto.{Key, Tkey, Primitives, aes}
use pefs.Crypto.Keyring.{Ring}
use pefs.Xts.{Crypt}
use pefs.Xts.Blocks.{IsBlock, IsCipher, xor-IsBlock}

abbrev pub mask : List ℕ
mask = replicate 16 0x5a

abbrev pub masking : Crypt
masking b = xor_bytes b mask

mask-IsBlock : IsBlock mask
mask-IsBlock = (refl, All-replicate IsByte 16 0x5a (omega arith))

pub masking-IsCipher : IsCipher masking masking
masking-IsCipher = record {
  encrypt-IsBlock = λ b h. xor-IsBlock b mask h mask-IsBlock;
  decrypt-IsBlock = λ b h. xor-IsBlock b mask h mask-IsBlock;
  decrypt-encrypt = λ b h. xor_bytes_cancel b mask (omega (arith, h.0));
}

-- The checksum of this library is the first byte of the key's context.
abbrev pub lib : Primitives
lib = record {
  encrypt = λ alg ctx. masking;
  decrypt = λ alg ctx. masking;
  vmac = λ body nonce ctx. get_or ctx 0 0;
}

abbrev pub key_of : ℕ → Key
key_of i = record {
  ptr = i;
  refcnt = 1;
  alg = aes;
  name_csum_ctx = i ∷ [];
  name_ctx = [];
  tweak_ctx = [];
  data_ctx = i ∷ [];
  algid = 4;
  keybits = 256;
  keyid = i ∷ replicate 7 0;
}

abbrev pub home : Tkey
home = record { key = key_of 1; tweak = replicate 8 3 }

abbrev pub ring : Ring
ring = key_of 2 ∷ key_of 1 ∷ []
