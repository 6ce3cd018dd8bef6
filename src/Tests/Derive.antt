-- ===== src/Tests/Derive.antt =====
-- HMAC, PBKDF2 and the keys of a mount, with a hash that counts its text.
use pefs.Base.{
  ℕ, ◌%◌, ◌≡◌, ◌≢◌, ◌⊎◌, refl, none, some, List, [], ◌∷◌, ◌++◌, length, take, replicate, arith,
}
use mathlib.Core.List.{append_assoc}
use pefs.Crypto.{Alg}
use pefs.Crypto.Derive.{Setup, pefs_key_generate, pefs_key_get, magic_keyinfo_v1}
use pefs.Crypto.Derive.Chain.{
  data_setup, tweak_setup, name_setup, derived_key, wiped_key, AllSetUp, IsFirst,
}
use pefs.Crypto.Derive.Laws.{bare, IsAlg, pefs_key_generate_lem, pefs_key_get_lem}
use pefs.Hmac.{Sha512, IsSha512, hmac_sha512, pbkdf2_hmac_sha512_genkey}
use pefs.Hmac.Laws.{standard_hmac, hmac_sha512_lem}
use pefs.Hmac.Genkey.{pbkdf2_hmac_sha512_genkey_lem}
use pefs.Tests.Fixtures.{key_of}

abbrev pub counting : Sha512 (List ℕ)
counting = record {
  init = [];
  update = λ c text. c ++ text;
  final = λ c. length c % 256 ∷ replicate 63 0;
}

pub counting-IsSha512 : IsSha512 counting
counting-IsSha512 = record { update-append = λ c a b. append_assoc c a b; length-final = λ c. refl }

abbrev setup : Setup (List ℕ)
setup = record {
  sha = counting;
  ctx_size = 4;
  keysetup = λ alg ctx key bits. (0, take 4 key);
  vmac_set_key = λ key ctx. take 4 key;
}

hmac_sha512_lem_example :
    hmac_sha512 counting (1 ∷ 2 ∷ []) (3 ∷ []) 0 ≡ standard_hmac counting (1 ∷ 2 ∷ []) (3 ∷ [])
hmac_sha512_lem_example = hmac_sha512_lem counting counting-IsSha512 (1 ∷ 2 ∷ []) (3 ∷ [])

pbkdf2_hmac_sha512_genkey_lem_example :
    (length (pbkdf2_hmac_sha512_genkey counting 100 (7 ∷ []) (8 ∷ 9 ∷ []) 3) ≡ 100)
    × (take 70 (pbkdf2_hmac_sha512_genkey counting 100 (7 ∷ []) (8 ∷ 9 ∷ []) 3)
        ≡ pbkdf2_hmac_sha512_genkey counting 70 (7 ∷ []) (8 ∷ 9 ∷ []) 3)
pbkdf2_hmac_sha512_genkey_lem_example =
    pbkdf2_hmac_sha512_genkey_lem counting 70 100 (7 ∷ []) (8 ∷ 9 ∷ []) 3 counting-IsSha512
      (omega arith)

pefs_key_generate_lem_example :
    let (error, pk') = pefs_key_generate setup (key_of 1) (replicate 64 5) magic_keyinfo_v1 in
    ((error ≡ 0)
      × ((data_setup setup (key_of 1) (replicate 64 5) magic_keyinfo_v1).0 ≡ 0)
      × ((tweak_setup setup (key_of 1) (replicate 64 5) magic_keyinfo_v1).0 ≡ 0)
      × ((name_setup setup (replicate 64 5) magic_keyinfo_v1).0 ≡ 0)
      × (pk' ≡ derived_key setup (key_of 1) (replicate 64 5) magic_keyinfo_v1))
    ⊎ (IsFirst
          (data_setup setup (key_of 1) (replicate 64 5) magic_keyinfo_v1).0
          (tweak_setup setup (key_of 1) (replicate 64 5) magic_keyinfo_v1).0
          (name_setup setup (replicate 64 5) magic_keyinfo_v1).0
          error
        × (pk' ≡ wiped_key setup (key_of 1)))
pefs_key_generate_lem_example =
    pefs_key_generate_lem setup (key_of 1) (replicate 64 5) magic_keyinfo_v1 counting-IsSha512

pefs_key_get_lem_example :
    ((((◌≢◌ {A = ℕ} 4 4) × (◌≢◌ {A = ℕ} 4 5))
        ⊎ ((◌≢◌ {A = ℕ} 256 128) × (◌≢◌ {A = ℕ} 256 192) × (◌≢◌ {A = ℕ} 256 256)))
      × (pefs_key_get setup 9 [] 4 256 (replicate 64 5) (replicate 8 1) ≡ none))
    ⊎ ((a : Alg) × IsAlg 4 a
        × ((◌≡◌ {A = ℕ} 256 128) ⊎ ((◌≡◌ {A = ℕ} 256 192) ⊎ (◌≡◌ {A = ℕ} 256 256)))
        × ((AllSetUp setup (bare a 9 [] 4 256 (replicate 8 1)) (replicate 64 5) magic_keyinfo_v1
              × (pefs_key_get setup 9 [] 4 256 (replicate 64 5) (replicate 8 1)
                  ≡ some (
                      derived_key setup
                        (bare a 9 [] 4 256 (replicate 8 1))
                        (replicate 64 5)
                        magic_keyinfo_v1)))
            ⊎ ((¬ AllSetUp setup
                  (bare a 9 [] 4 256 (replicate 8 1))
                  (replicate 64 5)
                  magic_keyinfo_v1)
                × (pefs_key_get setup 9 [] 4 256 (replicate 64 5) (replicate 8 1)
                    ≡ some (wiped_key setup (bare a 9 [] 4 256 (replicate 8 1)))))))
pefs_key_get_lem_example =
    pefs_key_get_lem setup 9 [] 4 256 (replicate 64 5) (replicate 8 1) counting-IsSha512
