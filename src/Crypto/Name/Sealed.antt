-- ===== src/Crypto/Name/Sealed.antt =====
-- The data of a file name on its way through pefs_name_encrypt: in the clear, encrypted, and with the
-- checksum in front.
use pefs.Base.{
  ℕ, ◌+◌, ◌*◌, ◌≡◌, ◌↔◌, refl, ap, arith, true, List, ◌++◌, length, length-append, length-replicate,
  replicate, take-append_exact, drop-append_exact, All-append, All-replicate,
}
use pefs.Base.Bytes.{IsByte, IsBytes}
use pefs.Base.Words.{length-le_bytes, le_bytes-IsBytes}
use pefs.Crypto.{Key, Tkey, Primitives, aes}
use pefs.Crypto.Name.{pefs_name_checksum, enccbc_loop, pefs_name_deccbc, checksum_matches}
use pefs.Crypto.Name.Cbc.{IsBlocks, enccbc-IsBlocks, cbc_round_trip}
use pefs.Crypto.Name.Sizes.{more_blocks, added, room_for_name}
use pefs.Verify.{pefs_name_checksum_eq_iff}
use pefs.Xts.Blocks.{IsCipher}

-- What stands behind the checksum: in the clear, and encrypted.
abbrev pub clear : Tkey → List ℕ → List ℕ
clear ptk plain = (ptk.tweak ++ plain) ++ replicate (added (length plain)) 0

abbrev pub sealed : Primitives → Tkey → List ℕ → List ℕ
sealed lib ptk plain =
    enccbc_loop (lib.encrypt aes ptk.key.name_ctx) (length (clear ptk plain)) (clear ptk plain)

-- The checksum under a key of encrypted data.
abbrev pub checksum_of : Primitives → Key → List ℕ → List ℕ
checksum_of lib k body = pefs_name_checksum lib k (replicate 8 0 ++ body)

-- The bytes that are written in base64.
abbrev pub sealed_name : Primitives → Tkey → List ℕ → List ℕ
sealed_name lib ptk plain = checksum_of lib ptk.key (sealed lib ptk plain) ++ sealed lib ptk plain

pub length-checksum :
    (lib : Primitives) (k : Key) (name : List ℕ) → length (pefs_name_checksum lib k name) ≡ 8
unfolding pefs_name_checksum
length-checksum lib k name = length-le_bytes 8 _

checksum-IsBytes :
    (lib : Primitives) (k : Key) (name : List ℕ) → IsBytes (pefs_name_checksum lib k name)
unfolding pefs_name_checksum
checksum-IsBytes lib k name = le_bytes-IsBytes 8 _

-- The checksum reads nothing of the eight bytes in front.
checksum_behind :
    (lib : Primitives) (k : Key) (front body : List ℕ)
    → length front ≡ 8
    → pefs_name_checksum lib k (front ++ body) ≡ checksum_of lib k body
unfolding pefs_name_checksum
checksum_behind lib k front body h = rw (drop-append_exact 8 front body h) refl

pub matches_iff :
    (lib : Primitives) (k k' : Key) (body : List ℕ)
    → (checksum_matches lib (checksum_of lib k body ++ body) k' ≡ true)
      ↔ (checksum_of lib k' body ≡ checksum_of lib k body)
unfolding checksum_matches
matches_iff lib k k' body =
    let n = length-checksum lib k (replicate 8 0 ++ body) in
    let n' = length-checksum lib k' (replicate 8 0 ++ body) in
    rw
      (
        checksum_behind lib k' (checksum_of lib k body) body n,
        take-append_exact 8 (checksum_of lib k body) body n,
      )
      (pefs_name_checksum_eq_iff (checksum_of lib k' body) (checksum_of lib k body) (omega arith))

-- Encrypted data of whole blocks behind eight bytes.
clear-IsBlocks :
    (ptk : Tkey) (plain : List ℕ)
    → length ptk.tweak ≡ 8
    → IsBytes ptk.tweak
    → IsBytes plain
    → IsBlocks (more_blocks (length plain)) (clear ptk plain)
clear-IsBlocks ptk plain tweak tb pb = (
  omega (
    arith,
    length-append (ptk.tweak ++ plain) (replicate (added (length plain)) 0),
    length-append ptk.tweak plain,
    length-replicate {A = ℕ} (added (length plain)) 0,
    room_for_name (length plain),
  ),
  All-append IsByte (ptk.tweak ++ plain) _ (All-append IsByte ptk.tweak plain tb pb)
      (All-replicate IsByte (added (length plain)) 0 (omega arith)),
)

module _ (lib : Primitives) (ptk : Tkey) (plain : List ℕ)
    (cipher : IsCipher (lib.encrypt aes ptk.key.name_ctx) (lib.decrypt aes ptk.key.name_ctx))
    (tweak : length ptk.tweak ≡ 8) (tweak_bytes : IsBytes ptk.tweak)
    (plain_bytes : IsBytes plain) where
  sealed-IsBlocks : IsBlocks (more_blocks (length plain)) (sealed lib ptk plain)
  sealed-IsBlocks =
      let h = clear-IsBlocks ptk plain tweak tweak_bytes plain_bytes in
      enccbc-IsBlocks cipher (more_blocks (length plain)) (length (clear ptk plain))
        (clear ptk plain) h (omega arith)

  pub length-sealed_name : length (sealed_name lib ptk plain) ≡ 24 + 16 * more_blocks (length plain)
  length-sealed_name = omega (
    arith,
    length-append (checksum_of lib ptk.key (sealed lib ptk plain)) (sealed lib ptk plain),
    length-checksum lib ptk.key (replicate 8 0 ++ sealed lib ptk plain),
    sealed-IsBlocks.0,
  )

  pub sealed_name-IsBytes : IsBytes (sealed_name lib ptk plain)
  sealed_name-IsBytes =
      All-append IsByte _ (sealed lib ptk plain)
        (checksum-IsBytes lib ptk.key (replicate 8 0 ++ sealed lib ptk plain)) sealed-IsBlocks.1

  pub deccbc-sealed_name :
      pefs_name_deccbc lib ptk.key (sealed_name lib ptk plain)
      ≡ checksum_of lib ptk.key (sealed lib ptk plain) ++ clear ptk plain
  unfolding pefs_name_deccbc
  deccbc-sealed_name =
      let n = length-checksum lib ptk.key (replicate 8 0 ++ sealed lib ptk plain) in
      let c = checksum_of lib ptk.key (sealed lib ptk plain) in
      rw
        (
          take-append_exact 8 c (sealed lib ptk plain) n,
          drop-append_exact 8 c (sealed lib ptk plain) n,
        )
        (ap (λ (b : List ℕ). c ++ b)
          (cbc_round_trip cipher (more_blocks (length plain)) (clear ptk plain)
            (clear-IsBlocks ptk plain tweak tweak_bytes plain_bytes)))
