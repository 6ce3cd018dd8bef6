-- ===== src/Xts.antt =====
-- sys/fs/pefs/pefs_xts.c: XTS over a block cipher, with ciphertext stealing for a last block that
-- is not full, and the counter mode for a buffer of less than one block.
-- A buffer is the list of its bytes. `src` and `dst` may be the same memory, since every block is
-- read before it is written.
pub mod Field
pub mod Blocks
pub mod Stealing
pub mod Loops
pub mod RoundTrip
use pefs.Base.{
  ℕ, zero, suc, ◌+◌, ◌-◌, ◌*◌, ◌/◌, ◌%◌, ◌^◌, bit_and, bit_or, bit_xor, Bool, true, false, List, [],
  ◌∷◌, ◌++◌, ltb, leb, ◌==◌, if◌then◌else◌, length, take, drop, replicate,
}
use pefs.Base.Bytes.{xor_bytes}
use pefs.Base.Words.{le_bytes, le_word}

abbrev pub blk_bytes : ℕ
blk_bytes = 16

abbrev pub blk_mask : ℕ
blk_mask = blk_bytes - 1

-- `uint64_t tweak[2]`.
pub record Tweak : Type 0 where
  pub lo : ℕ
  pub hi : ℕ

-- The tweak as the 16 bytes that it is in memory, and back.
unfoldable pub tweak_bytes : Tweak → List ℕ
tweak_bytes t = le_bytes 8 t.lo ++ le_bytes 8 t.hi

unfoldable pub tweak_of : List ℕ → Tweak
tweak_of b = record { lo = le_word (take 8 b); hi = le_word (drop 8 b) }

-- `-(int)c1 & gf_128_fdbk` keeps the low 8 bits; the last statement changes the first byte in
-- memory, the lowest of `dst[0]`.
unfoldable pub gf_mul128 : Tweak → Tweak
gf_mul128 src =
    let c0 = src.lo / 2 ^ 63 in
    let c1 = src.hi / 2 ^ 63 in
    let dst0 = src.lo * 2 % 2 ^ 64 in
    let dst1 = bit_or (src.hi * 2 % 2 ^ 64) c0 in
    let c1' = bit_and ((256 - c1) % 256) 0x87 in
    record { lo = dst0 / 256 * 256 + bit_xor (dst0 % 256) c1'; hi = dst1 }

-- A `pa_encrypt` or `pa_decrypt` of an algorithm, at a session and a context.
abbrev pub Crypt : Type 0
Crypt = List ℕ → List ℕ

-- The block that xts_fullblock writes; it also advances the tweak.
unfoldable pub xts_fullblock : Crypt → Tweak → List ℕ → List ℕ
xts_fullblock data_crypt tweak src =
    xor_bytes (data_crypt (xor_bytes src (tweak_bytes tweak))) (tweak_bytes tweak)

-- `dst` is all that has been written so far: its last block is read, its head moved behind it,
-- and the block written anew.
unfoldable pub xts_lastblock : Crypt → Tweak → List ℕ → List ℕ → ℕ → List ℕ
xts_lastblock data_crypt tweak src dst len =
    let front = take (length dst - blk_bytes) dst in
    let prev = drop (length dst - blk_bytes) dst in
    let b = take len src ++ drop len prev in
    front ++ (xts_fullblock data_crypt tweak b ++ take len prev)

unfoldable pub xts_smallblock : Crypt → Tweak → List ℕ → ℕ → List ℕ
xts_smallblock pa_encrypt tweak src len =
    let buf = xor_bytes (replicate blk_bytes (len % 256)) (tweak_bytes tweak) in
    take len (xor_bytes src (pa_encrypt buf))

-- The first word is the sector and the second the eight bytes of the file's tweak.
unfoldable pub xts_start : Crypt → ℕ → List ℕ → Tweak
xts_start pa_encrypt sector xtweak = tweak_of (pa_encrypt (le_bytes 8 sector ++ xtweak))

-- The variables of the block loop; `src` and `dst` are what is left to read and what is written.
pub record State : Type 0 where
  pub tweak : Tweak
  pub src : List ℕ
  pub dst : List ℕ
  pub len : ℕ

unfoldable pub xts_round : Crypt → State → State
xts_round data_crypt s = record {
  tweak = gf_mul128 s.tweak;
  src = drop blk_bytes s.src;
  dst = s.dst ++ xts_fullblock data_crypt s.tweak (take blk_bytes s.src);
  len = s.len - blk_bytes;
}

-- `while (len >= XTS_BLK_BYTES)`, on fuel; each round takes 16 from `len`, so `len` is enough.
unfoldable pub xts_loop : Crypt → ℕ → State → State
xts_loop data_crypt zero s = s
xts_loop data_crypt (suc fuel) s = elim (leb blk_bytes s.len) [
  | true ↦ xts_loop data_crypt fuel (xts_round data_crypt s)
  | false ↦ s
]

unfoldable pub encrypt_end : Crypt → State → List ℕ
encrypt_end data_crypt s =
    if s.len == 0 then s.dst else xts_lastblock data_crypt s.tweak s.src s.dst s.len

unfoldable pub pefs_xts_block_encrypt :
    (pa_encrypt : Crypt) (pa_tweak : Crypt) → ℕ → List ℕ → ℕ → List ℕ → List ℕ
unfolding xts_start xts_loop xts_round encrypt_end
pefs_xts_block_encrypt pa_encrypt pa_tweak sector xtweak len src =
    let tweak = xts_start pa_tweak sector xtweak in
    if ltb len blk_bytes
    then xts_smallblock pa_encrypt tweak src len
    else encrypt_end pa_encrypt
        (xts_loop pa_encrypt len (record { tweak = tweak; src = src; dst = []; len = len }))

-- The last full block is decrypted under the next tweak and the stolen one under `prevtweak`.
unfoldable pub decrypt_end : Crypt → State → List ℕ
unfolding xts_round
decrypt_end data_crypt s =
    if s.len == 0
    then s.dst
    else let prevtweak = s.tweak in
      let s' =
        xts_round data_crypt (record s { tweak = gf_mul128 s.tweak; len = s.len + blk_bytes }) in
      xts_lastblock data_crypt prevtweak s'.src s'.dst s'.len

unfoldable pub pefs_xts_block_decrypt :
    (pa_encrypt pa_decrypt : Crypt) (pa_tweak : Crypt) → ℕ → List ℕ → ℕ → List ℕ → List ℕ
unfolding xts_start xts_loop decrypt_end
pefs_xts_block_decrypt pa_encrypt pa_decrypt pa_tweak sector xtweak len src =
    let tweak = xts_start pa_tweak sector xtweak in
    if ltb len blk_bytes
    then xts_smallblock pa_encrypt tweak src len
    else let len' = if bit_and len blk_mask == 0 then len else len - blk_bytes in
      decrypt_end pa_decrypt
        (xts_loop pa_decrypt len (record { tweak = tweak; src = src; dst = []; len = len' }))
