-- ===== src/Ctl/Key.antt =====
-- Keys from passphrases and key files, and keys under keys: pefs_aes_ctr, pefs_key_generate,
-- pefs_key_cipher, pefs_key_encrypt, pefs_key_decrypt and pefs_keyid_as_int of sbin/pefs/pefs_key.c.
pub mod Counter
pub mod Seal
pub mod Generate
use pefs.Base.{
  ℕ, zero, suc, ◌+◌, ◌-◌, ◌*◌, ◌%◌, ◌^◌, bit_and, bit_or, Bool, true, false, ◌||◌, ◌&&◌, not,
  Option, none, some, List, [], ◌∷◌, ◌++◌, length, take, drop, replicate, ◌==◌, if◌then◌else◌,
}
use pefs.Base.Bytes.{xor_bytes}
use pefs.Base.Int.{ℤ, pos, negsuc}
use pefs.Base.Text.{codes}
use pefs.Base.Words.{le_bytes, le_word}
use pefs.Ctl.{
  Xkey, Xkeyenc, Link, Keyparam, Input, to_word, pefs_readfiles, and_then, err_usage, err_invalid,
  keyenc_mac_size,
}
use pefs.Ctl.Param.{is_negative, is_positive}
use pefs.Crypto.{keyid_size}
use pefs.Crypto.Derive.{key_size}
use pefs.Hmac.{
  Sha512, HmacCtx, hmac_sha512_init, hmac_sha512_update, hmac_sha512_final,
  pbkdf2_hmac_sha512_genkey,
}
use pefs.Verify.{crypto_verify_bytes}

-- The two texts with their terminating zero.
abbrev pub magic_keyid_info : List ℕ
magic_keyid_info = codes "<KEY ID>" ++ 0 ∷ []

abbrev pub magic_enckey_info : List ℕ
magic_enckey_info = codes "<ENCRYPTED KEY>" ++ 0 ∷ []

abbrev pub aes_block_size : ℕ
aes_block_size = 16

-- rijndael_set_key, for a key and its bits, and rijndael_encrypt under what it prepared.
pub record Rijndael (R : Type 0) : Type 0 where
  pub set_key : List ℕ → ℕ → R
  pub encrypt : R → List ℕ → List ℕ

-- `for (i = 0; i < AES_BLOCK_SIZE; i++) { ctr[i]++; if (ctr[i] != 0) break; }`.
unfoldable pub increment : List ℕ → List ℕ
increment [] = []
increment (c ∷ ctr) =
    let c' = (c + 1) % 256 in if not (c' == 0) then c' ∷ ctr else c' ∷ increment ctr

module _ {R : Type 0} (aes : Rijndael R) (aes_ctx : R) where
  -- Each round takes a byte or more, so that the length of the text is enough fuel.
  unfoldable pub ctr_loop : ℕ → List ℕ → List ℕ → List ℕ
  unfolding increment
  ctr_loop fuel ctr [] = []
  ctr_loop zero ctr (p ∷ plaintext) = []
  ctr_loop (suc fuel) ctr (p ∷ plaintext) =
      let block = aes.encrypt aes_ctx ctr in
      xor_bytes block (take aes_block_size (p ∷ plaintext))
      ++ ctr_loop fuel (increment ctr) (drop aes_block_size (p ∷ plaintext))

  -- A null pointer `iv` is `none`.
  unfoldable pub pefs_aes_ctr : Option (List ℕ) → List ℕ → List ℕ
  unfolding ctr_loop
  pefs_aes_ctr none plaintext = ctr_loop (length plaintext) (replicate aes_block_size 0) plaintext
  pefs_aes_ctr (some iv) plaintext = ctr_loop (length plaintext) iv plaintext

-- The bytes of a `struct pefs_xkey` and of the structure `a` in memory, and back; a machine with
-- little-endian words, where htole32 changes nothing.
unfoldable pub xkey_bytes : Xkey → List ℕ
xkey_bytes xk =
    le_bytes 4 xk.index ++ (le_bytes 4 xk.alg ++ (le_bytes 4 xk.keybits ++ (xk.keyid ++ xk.key)))

unfoldable pub link_bytes : Link → List ℕ
unfolding xkey_bytes
link_bytes a = xkey_bytes a.ke_next ++ (le_bytes 4 a.ke_alg ++ le_bytes 4 a.ke_keybits)

unfoldable pub bytes_xkey : List ℕ → Xkey
bytes_xkey b = record {
  index = le_word (take 4 b);
  alg = le_word (take 4 (drop 4 b));
  keybits = le_word (take 4 (drop 8 b));
  keyid = take 8 (drop 12 b);
  key = take 64 (drop 20 b);
}

unfoldable pub bytes_link : List ℕ → Link
unfolding bytes_xkey
bytes_link b = record {
  ke_next = bytes_xkey (take 84 b);
  ke_alg = le_word (take 4 (drop 84 b));
  ke_keybits = le_word (take 4 (drop 88 b));
}

-- `r <<= 8; r |= keyid[i] & 0xff`, in 64 bits.
unfoldable pub keyid_loop : ℕ → List ℕ → ℕ
keyid_loop r [] = r
keyid_loop r (c ∷ keyid) = keyid_loop (bit_or ((r * 256) % 2 ^ 64) (bit_and c 0xff)) keyid

unfoldable pub pefs_keyid_as_int : List ℕ → ℕ
unfolding keyid_loop
pefs_keyid_as_int keyid = keyid_loop 0 (take keyid_size keyid)

unfoldable pub is_empty : List (List ℕ) → Bool
is_empty [] = true
is_empty (x ∷ xs) = false

unfoldable pub is_text : List ℕ → Bool
is_text [] = false
is_text (c ∷ cs) = true

abbrev pub count : ℤ → ℕ
count (pos n) = n
count (negsuc n) = 0

module _ {C : Type 0} (sha : Sha512 C) where
  unfoldable pub pefs_readkeyfile_handler : HmacCtx C → List ℕ → List ℕ → ℕ × HmacCtx C
  pefs_readkeyfile_handler ctx buf file = (0, hmac_sha512_update sha ctx buf)

  -- What the passphrase adds; a passphrase with no character adds nothing.
  unfoldable pub add_passphrase : HmacCtx C → List ℕ → ℕ → HmacCtx C
  add_passphrase ctx [] iterations = ctx
  add_passphrase ctx (c ∷ cs) iterations =
      if iterations == 0
      then hmac_sha512_update sha ctx (c ∷ cs)
      else hmac_sha512_update sha ctx
          (pbkdf2_hmac_sha512_genkey sha key_size [] (c ∷ cs) iterations)

  -- The key and its identifier, from the digest of all the parts.
  unfoldable pub generate_final : Xkey → HmacCtx C → Xkey
  generate_final xk ctx =
      let key = hmac_sha512_final sha ctx key_size in
      let id_ctx = hmac_sha512_update sha (hmac_sha512_init sha key) magic_keyid_info in
      record xk { keyid = hmac_sha512_final sha id_ctx keyid_size; key = key }

  -- The key's fields hold what was written when an error is returned.
  unfoldable pub pefs_key_generate :
      (ℕ → List ℕ → Option Input) → (ℕ → Input) → Xkey → List ℕ → Keyparam → ℕ × Xkey
  unfolding pefs_readkeyfile_handler add_passphrase is_empty is_text generate_final
  pefs_key_generate open_at stdin xk passphrase kp =
      if not (is_positive kp.alg) || (not (is_positive kp.keybits) || is_negative kp.iterations)
      then (err_invalid, xk)
      else let xk1 : Xkey = record xk {
        index = 2 ^ 32 - 1;
        alg = to_word kp.alg;
        keybits = to_word kp.keybits;
      } in
        if is_empty kp.keyfile && not (is_text passphrase)
        then (err_usage, xk1)
        else let (error, ctx) =
            pefs_readfiles pefs_readkeyfile_handler open_at stdin kp.keyfile
              (hmac_sha512_init sha []) in
          if error == 0
          then (0, generate_final xk1 (add_passphrase ctx passphrase (count kp.iterations)))
          else (error, xk1)

  module _ {R : Type 0} (aes : Rijndael R) where
    -- The key that seals what stands under `parent`.
    unfoldable pub sealing_key : Xkey → List ℕ
    sealing_key parent =
        let ctx = hmac_sha512_update sha (hmac_sha512_init sha parent.key) magic_enckey_info in
        hmac_sha512_final sha ctx key_size

    unfoldable pub seal_mac : List ℕ → List ℕ → List ℕ
    seal_mac key text =
        hmac_sha512_final sha (hmac_sha512_update sha (hmac_sha512_init sha key) text)
          keyenc_mac_size

    -- rijndael_set_key reads the 128 bits of the key that it is asked for.
    unfoldable pub seal_crypt : List ℕ → List ℕ → List ℕ
    unfolding pefs_aes_ctr
    seal_crypt key text = pefs_aes_ctr aes (aes.set_key key 128) none text

    unfoldable pub pefs_key_cipher : Xkeyenc → Bool → Xkey → ℕ × Xkeyenc
    unfolding sealing_key seal_mac seal_crypt
    pefs_key_cipher xe true xk_parent =
        let key = sealing_key xk_parent in
        let text = seal_crypt key xe.a in (0, record { a = text; ke_mac = seal_mac key text })
    pefs_key_cipher xe false xk_parent =
        let key = sealing_key xk_parent in
        if not (crypto_verify_bytes (seal_mac key xe.a) xe.ke_mac == 0)
        then (err_invalid, xe)
        else (0, record xe { a = seal_crypt key xe.a })

    unfoldable pub pefs_key_encrypt : Xkeyenc → Xkey → ℕ × Xkeyenc
    unfolding pefs_key_cipher
    pefs_key_encrypt xe xk_parent = pefs_key_cipher xe true xk_parent

    unfoldable pub pefs_key_decrypt : Xkeyenc → Xkey → ℕ × Xkeyenc
    unfolding pefs_key_cipher
    pefs_key_decrypt xe xk_parent = pefs_key_cipher xe false xk_parent
