-- ===== src/Crypto/Name.antt =====
-- File names: pefs_name_encrypt and pefs_name_decrypt of sys/fs/pefs/pefs_crypto.c and the
-- functions that they call. A name in the clear is padded to [checksum] [tweak] [name] [zeros],
-- encrypted from the tweak on, and written in base64 behind a '.'.
pub mod Cbc
pub mod Search
pub mod Sizes
pub mod Sealed
pub mod Encrypt
pub mod Clear
pub mod RoundTrip
use pefs.Base.{
  ℕ, zero, suc, ◌+◌, ◌-◌, ◌*◌, ◌/◌, ◌%◌, ◌^◌, bit_and, Bool, true, false, ◌&&◌, ◌||◌, not, Option,
  none, some, List, [], ◌∷◌, ◌++◌, ltb, leb, ◌==◌, if◌then◌else◌, length, take, drop, replicate,
  get_elem?, get_or, set,
}
use pefs.Base.Bytes.{xor_bytes}
use pefs.Base.Words.{le_bytes}
use pefs.Crypto.{Key, Tkey, Ctx, Primitives, Alg, aes}
use pefs.Crypto.Keyring.{Ring}
use pefs.Verify.{pefs_name_checksum_eq}
use pefs.Xbase64.{Outcome, fault, failed, done, ntop, pton, ntop_size, pton_size}
use pefs.Xts.{Crypt}

-- MAXNAMLEN, PEFS_NAME_CSUM_SIZE, PEFS_TWEAK_SIZE and PEFS_NAME_BLOCK_SIZE.
abbrev pub maxnamlen : ℕ
maxnamlen = 255

abbrev pub name_csum_size : ℕ
name_csum_size = 8

abbrev pub tweak_size : ℕ
tweak_size = 8

abbrev pub name_block_size : ℕ
name_block_size = 16

-- size_t arithmetic; roundup2 goes up to a multiple of a power of two.
unfoldable pub pefs_name_padsize : ℕ → ℕ
pefs_name_padsize size =
    let psize = (size + 2 ^ 64 - name_csum_size) % 2 ^ 64 in
    name_csum_size + (psize + (name_block_size - 1)) / name_block_size * name_block_size

-- `name` is the part of the buffer that is in use, `maxsize` the buffer's size; `none` is a panic,
-- also that of an assertion.
unfoldable pub pefs_name_pad : List ℕ → ℕ → Option (List ℕ)
pefs_name_pad name maxsize =
    let size = length name in
    let psize = pefs_name_padsize size in
    if leb size name_csum_size || (ltb maxnamlen size || ltb maxnamlen psize)
    then none
    else if psize == size
    then some name
    else if ltb maxsize psize
    then none
    else some (name ++ replicate (psize - size) 0)

-- The checksum's bytes: the first two blocks' worth of bytes behind it serve as a nonce, of which
-- the last bit is cleared.
unfoldable pub pefs_name_checksum : Primitives → Key → List ℕ → List ℕ
pefs_name_checksum lib pk name =
    let nonce = take (tweak_size * 2) (drop name_csum_size name) in
    let nonce' = set nonce 15 (bit_and (get_or nonce 15 0) 0xfe) in
    le_bytes name_csum_size (lib.vmac (drop name_csum_size name) nonce' pk.name_csum_ctx)

-- `while (1)` of pefs_name_enccbc, over the bytes left; each round takes a block, so that their
-- number is enough fuel.
unfoldable pub enccbc_loop : Crypt → ℕ → List ℕ → List ℕ
enccbc_loop crypt zero bytes = []
enccbc_loop crypt (suc fuel) bytes =
    let block = crypt (take name_block_size bytes) in
    let rest = drop name_block_size bytes in
    elim (length rest == 0) [
      | true ↦ block
      | false ↦
          block
          ++ enccbc_loop crypt fuel
              (xor_bytes (take name_block_size rest) block ++ drop name_block_size rest)
    ]

unfoldable pub pefs_name_enccbc : Primitives → Key → List ℕ → List ℕ
unfolding enccbc_loop
pefs_name_enccbc lib pk name =
    let bytes = drop name_csum_size name in
    take name_csum_size name ++ enccbc_loop (lib.encrypt aes pk.name_ctx) (length bytes) bytes

-- `while (size > 0)` of pefs_name_deccbc.
unfoldable pub deccbc_loop : Crypt → ℕ → List ℕ → List ℕ → List ℕ
deccbc_loop crypt zero iv bytes = []
deccbc_loop crypt (suc fuel) iv bytes = elim (length bytes == 0) [
  | true ↦ []
  | false ↦
      let tmp = take name_block_size bytes in
      xor_bytes (crypt tmp) iv ++ deccbc_loop crypt fuel tmp (drop name_block_size bytes)
]

unfoldable pub pefs_name_deccbc : Primitives → Key → List ℕ → List ℕ
unfolding deccbc_loop
pefs_name_deccbc lib pk name =
    let bytes = drop name_csum_size name in
    take name_csum_size name
    ++ deccbc_loop (lib.decrypt aes pk.name_ctx) (length bytes) (replicate name_block_size 0) bytes

pub data Errno : Type 0 where
  enametoolong eoverflow einval : Errno
  -- the -1 of pefs_name_ntop, passed on
  ntop_failed : Errno

pub data Result (A : Type 0) : Type 0 where
  ok : A → Result A
  err : Errno → Result A
  -- a panic, or a read past the end of the source's memory
  crash : Result A

-- The string at `enc` without its terminating zero; its length is the value returned. The first
-- eight bytes of the buffer, not initialised in C, are written by pefs_name_checksum.
unfoldable pub pefs_name_encrypt : Primitives → Tkey → List ℕ → ℕ → Result (List ℕ)
unfolding pefs_name_enccbc
pefs_name_encrypt lib ptk plain enc_size =
    let size = name_csum_size + tweak_size + length plain in
    let r = ntop_size (pefs_name_padsize size) + 1 in
    if ltb maxnamlen (length plain)
    then err enametoolong
    else if ltb maxnamlen r
    then err enametoolong
    else if ltb enc_size r
    then err eoverflow
    else elim (pefs_name_pad (replicate name_csum_size 0 ++ (ptk.tweak ++ plain)) (maxnamlen + 1)) [
      | none ↦ crash
      | some padded ↦
          let buf = pefs_name_enccbc lib ptk.key padded in
          let buf' = pefs_name_checksum lib ptk.key buf ++ drop name_csum_size buf in
          elim (ntop buf' (enc_size - 1)) [
            | none ↦ err ntop_failed
            | some target ↦ ok (b'.' ∷ target)
          ]
    ]

-- `pefs_name_checksum_eq(csum, plain)` for the key of one round.
unfoldable pub checksum_matches : Primitives → List ℕ → Key → Bool
checksum_matches lib name ki =
    pefs_name_checksum_eq (pefs_name_checksum lib ki name) (take name_csum_size name)

-- The do loop over the keys, from position `start` on: forward to the end, then backward from the
-- position before `start`. `none` is a `ki` that is null. Each round looks at another key, so that
-- their number is enough fuel.
unfoldable pub search_key : (Key → Bool) → Ring → ℕ → ℕ → ℕ → Bool → Option Key
search_key matches keys start zero i rev = none
search_key matches keys start (suc fuel) i rev = elim (get_elem? keys i) [
  | none ↦ none
  | some ki ↦ elim (matches ki) [
    | true ↦ some ki
    | false ↦ elim (not rev && ltb (i + 1) (length keys)) [
      | true ↦ search_key matches keys start fuel (i + 1) false
      | false ↦
          let from = if rev then i else start in
          elim (from == 0) [
            | true ↦ none
            | false ↦ search_key matches keys start fuel (from - 1) true
          ]
    ]
  ]
]

-- `while (r > 0 && plain[r - 1] == '\0') r--`.
unfoldable pub strip_padding : List ℕ → ℕ → ℕ
strip_padding plain zero = 0
strip_padding plain (suc r) =
    let rest = strip_padding plain r in if get_or plain r 0 == 0 then rest else suc r

unfoldable pub strlen : List ℕ → ℕ
strlen [] = 0
strlen (c ∷ s) = let rest = strlen s in if c == 0 then 0 else suc rest

-- From the decrypted bytes on: the tweak, and the name without its padding, which must not be empty
-- and must hold no zero.
unfoldable pub clear_name : List ℕ → Key → Result (List ℕ × Tkey)
unfolding strip_padding strlen
clear_name clear ki =
    let tweak = take tweak_size (drop name_csum_size clear) in
    let text = drop (name_csum_size + tweak_size) clear in
    let r = strip_padding text (length text) in
    elim (not (r == 0) && strlen (text ++ 0 ∷ []) == r) [
      | true ↦ ok (take r text, record { key = ki; tweak = tweak })
      | false ↦ crash
    ]

-- The assertion of pefs_name_checksum on its size, from which that of pefs_name_deccbc follows.
abbrev pub is_checkable : ℕ → Bool
is_checkable size =
    leb (name_csum_size + tweak_size * 2) size
    && (leb size maxnamlen && (size - name_csum_size) % name_block_size == 0)

-- From the base64 text behind the '.' on. `mem` is the memory from there, `plain` the buffer. An
-- assertion that fails is a `crash`.
unfoldable pub decrypt_body :
    Primitives → Ring → ℕ → List ℕ → ℕ → List ℕ → ℕ → Result (List ℕ × Tkey)
unfolding search_key pefs_name_deccbc clear_name
decrypt_body lib keys start mem enc_len plain plain_size =
    elim (pton mem enc_len (some plain) plain_size) [
      | fault ↦ crash
      | failed ↦ err einval
      | done r none ↦ crash
      | done r (some buf) ↦
          let name = take r buf in
          elim (is_checkable r) [
            | false ↦ crash
            | true ↦
                elim (search_key (checksum_matches lib name) keys start (length keys) start false) [
                  | none ↦ err einval
                  | some ki ↦ clear_name (pefs_name_deccbc lib ki name) ki
                ]
          ]
    ]

-- `start` is the position of `pk` in the list of keys. `enc` is the memory from the name on. The
-- result is the name, without the terminating zero, and what is stored through `ptk`.
unfoldable pub pefs_name_decrypt :
    Primitives → Ring → ℕ → List ℕ → ℕ → List ℕ → ℕ → Result (List ℕ × Tkey)
unfolding decrypt_body
pefs_name_decrypt lib keys start [] enc_len plain plain_size = crash
pefs_name_decrypt lib keys start (c ∷ mem) enc_len plain plain_size =
    let r = pton_size (enc_len - 1) in
    if (enc_len == 0) || ltb maxnamlen enc_len
    then crash
    else if not (c == b'.') || leb enc_len 1
    then err einval
    else if leb r (tweak_size + name_csum_size) || not ((r - name_csum_size) % name_block_size == 0)
    then err einval
    else if ltb plain_size r
    then err eoverflow
    else decrypt_body lib keys start mem (enc_len - 1) plain plain_size
