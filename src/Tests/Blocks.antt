-- ===== src/Tests/Blocks.antt =====
-- XTS and file data.
use pefs.Base.{ℕ, ◌+◌, ◌≡◌, refl, List, [], ◌∷◌, ◌++◌, length, replicate, arith, length-replicate}
use pefs.Base.Bytes.{IsBytes}
use pefs.Crypto.Data.{pefs_data_encrypt}
use pefs.Crypto.Data.Holes.{pefs_data_encrypt-append}
use pefs.Tests.Fixtures.{masking, masking-IsCipher, lib, home}
use pefs.Xts.{pefs_xts_block_encrypt, pefs_xts_block_decrypt}
use pefs.Xts.RoundTrip.{pefs_xts_round_trip}

-- Two blocks and three bytes.
abbrev sector : List ℕ
sector = replicate 32 17 ++ 1 ∷ 2 ∷ 3 ∷ []

sector-IsBytes : IsBytes sector
sector-IsBytes = omega arith

pefs_xts_round_trip_example :
    pefs_xts_block_decrypt masking masking masking 8192
      (replicate 8 3)
      35
      (pefs_xts_block_encrypt masking masking 8192 (replicate 8 3) 35 sector)
    ≡ sector
pefs_xts_round_trip_example =
    pefs_xts_round_trip masking-IsCipher masking 8192 (replicate 8 3) sector 35 sector-IsBytes refl

pefs_data_encrypt-append_example :
    pefs_data_encrypt lib home 0 (replicate 4096 17 ++ sector)
    ≡ pefs_data_encrypt lib home 0 (replicate 4096 17)
      ++ pefs_data_encrypt lib home (0 + length {A = ℕ} (replicate 4096 17)) sector
pefs_data_encrypt-append_example =
    pefs_data_encrypt-append lib home 0 1 (replicate 4096 17) sector
      (length-replicate {A = ℕ} 4096 17)
