-- ===== src/Tests/Names.antt =====
-- File names.
use pefs.Base.{
  ℕ, ◌<◌, ◌≤◌, ◌≡◌, ◌≢◌, ◌⊎◌, inl, inr, refl, ap, subst, false, List, [], ◌∷◌, ◌++◌, length, arith,
  get_or, replicate, All, ◌==◌,
}
use pefs.Crypto.{Key}
use pefs.Crypto.Keyring.Lookup.{Holds}
use pefs.Crypto.Name.{
  enametoolong, eoverflow, ntop_failed, ok, err, pefs_name_encrypt, pefs_name_decrypt,
  pefs_name_checksum, enccbc_loop, search_key, pefs_name_padsize, pefs_name_pad, pefs_name_enccbc,
}
use pefs.Crypto.Name.Encrypt.{name_room, pefs_name_encrypt_lem}
use pefs.Crypto.Name.RoundTrip.{pefs_name_round_trip}
use pefs.Crypto.Name.Sealed.{checksum_of, sealed}
use pefs.Crypto.Name.Search.{find_first, search_order, search_key_lem}
use pefs.Tests.Fixtures.{lib, home, ring, key_of, masking-IsCipher}
use pefs.Base.Words.{le_bytes}
use pefs.Base.Bytes.{xor_bytes}
use pefs.Xbase64.{ntop, ntop_loop, ntop_rest, ntop_end, digit}
use pefs.Xbase64.Encode.{IsNameChar}

abbrev plain : List ℕ
plain = b'a' ∷ b'.' ∷ b'c' ∷ []

abbrev enc : List ℕ
enc =
    b'.' ∷ 65 ∷ 81 ∷ 65 ∷ 65 ∷ 65 ∷ 65 ∷ 65 ∷ 65 ∷ 65 ∷ 65 ∷ 66 ∷ 90 ∷ 87 ∷ 86 ∷ 108 ∷ 90 ∷ 87 ∷ 86
    ∷ 108 ∷ 90 ∷ 87 ∷ 84 ∷ 116 ∷ 48 ∷ 79 ∷ 86 ∷ 112 ∷ 97 ∷ 87 ∷ 108 ∷ 112 ∷ 97 ∷ []

-- A key with another checksum stands in front of the name's key.
sealed_plain : pefs_name_encrypt lib home plain 256 ≡ ok enc
unfolding pefs_name_encrypt pefs_name_padsize pefs_name_pad pefs_name_enccbc enccbc_loop
    pefs_name_checksum le_bytes xor_bytes ntop ntop_loop ntop_rest ntop_end digit
sealed_plain = refl

other_checksum :
    checksum_of lib (key_of 2) (sealed lib home plain)
    ≢ checksum_of lib (key_of 1) (sealed lib home plain)
unfolding pefs_name_checksum le_bytes
other_checksum e = let first : ◌≡◌ {A = ℕ} 2 1 = ap (λ (l : List ℕ). get_or l 0 0) e in omega arith

only_home :
    (k : Key)
    → Holds k ring
    → checksum_of lib k (sealed lib home plain) ≡ checksum_of lib (key_of 1) (sealed lib home plain)
    → k ≡ key_of 1
only_home k (inl e) same = absurd (
    other_checksum (
      subst
        (λ (j : Key).
          checksum_of lib j (sealed lib home plain)
          ≡ checksum_of lib (key_of 1) (sealed lib home plain))
        e same))
only_home k (inr (inl e)) same = e
only_home k (inr (inr e)) same = absurd e

pefs_name_round_trip_example :
    pefs_name_decrypt lib ring 0 (enc ++ 0 ∷ []) (length enc) (replicate 64 0) 64 ≡ ok (plain, home)
pefs_name_round_trip_example =
    pefs_name_round_trip lib home plain masking-IsCipher refl (omega arith) (omega arith)
      (omega arith) (omega arith) 256 enc sealed_plain ring 0 (omega arith) (inr (inl refl))
      only_home 0 [] (replicate 64 0) 64 (omega arith) (omega arith)

pefs_name_encrypt_lem_example :
    ((168 < 3) × (pefs_name_encrypt lib home plain 256 ≡ err enametoolong))
    ⊎ (((3 ≤ 168)
          × (256 < name_room plain)
          × (pefs_name_encrypt lib home plain 256 ≡ err eoverflow))
        ⊎ (((3 ≤ 168)
              × (256 ≡ name_room plain)
              × (pefs_name_encrypt lib home plain 256 ≡ err ntop_failed))
            ⊎ ((target : List ℕ) × (3 ≤ 168)
                × (name_room plain < 256)
                × (pefs_name_encrypt lib home plain 256 ≡ ok (b'.' ∷ target))
                × (length (b'.' ∷ target) ≡ name_room plain)
                × (name_room plain ≤ 255)
                × All IsNameChar target)))
pefs_name_encrypt_lem_example =
    pefs_name_encrypt_lem lib home plain 256 masking-IsCipher refl (omega arith) (omega arith)

abbrev blocks : List ℕ
blocks = replicate 20 7 ++ replicate 12 9

search_key_lem_example :
    search_key (λ k. k.ptr == 2) ring 1 2 1 false
    ≡ find_first (λ k. k.ptr == 2) (search_order ring 1)
search_key_lem_example = search_key_lem (λ k. k.ptr == 2) ring 1 (omega arith)
