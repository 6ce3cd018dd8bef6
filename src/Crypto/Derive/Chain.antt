-- ===== src/Crypto/Derive/Chain.antt =====
-- The chain of HMACs of pefs_key_generate, and the contexts that are set up from it.
use pefs.Base.{
  ℕ, zero, suc, ◌≡◌, ◌≢◌, ◌⊎◌, refl, ◌∙◌, arith, List, [], ◌∷◌, ◌++◌, take, replicate, ◌==◌,
  Bool-cases, inl, inr,
}
use pefs.Crypto.{aes, Ctx, Key}
use pefs.Crypto.Derive.{Setup, pefs_hkdf_expand, pefs_key_wipe, setup_from, pefs_key_generate}
use pefs.Hmac.{IsSha512, hmac_sha512_init, hmac_sha512_update, hmac_sha512_final, hmac_sha512}
use pefs.Hmac.Laws.{standard_hmac, hmac_sha512_lem}

-- The first of three error numbers that is not zero.
abbrev pub IsFirst : ℕ → ℕ → ℕ → ℕ → Type 0
IsFirst e1 e2 e3 error =
    ((e1 ≢ 0) × (error ≡ e1))
    ⊎ (((e1 ≡ 0) × (e2 ≢ 0) × (error ≡ e2)) ⊎ ((e1 ≡ 0) × (e2 ≡ 0) × (e3 ≢ 0) × (error ≡ e3)))

module _ {C : Type 0} (lib : Setup C) where
  -- The chain of keys: each is the HMAC of the one before, the magic and its number. Before the first
  -- one stand 64 zeros.
  unfoldable pub chain : List ℕ → List ℕ → ℕ → List ℕ
  chain masterkey magic zero = replicate 64 0
  chain masterkey magic (suc n) =
      standard_hmac lib.sha (take 64 masterkey) (chain masterkey magic n ++ (magic ++ suc n ∷ []))

  -- The three contexts of ciphers, each with an error number, and the context of the checksum.
  abbrev pub zeros : Ctx
  zeros = replicate lib.ctx_size 0

  abbrev pub data_setup : Key → List ℕ → List ℕ → ℕ × Ctx
  data_setup pk masterkey magic = lib.keysetup pk.alg zeros (chain masterkey magic 1) pk.keybits

  abbrev pub tweak_setup : Key → List ℕ → List ℕ → ℕ × Ctx
  tweak_setup pk masterkey magic = lib.keysetup pk.alg zeros (chain masterkey magic 2) pk.keybits

  abbrev pub name_setup : List ℕ → List ℕ → ℕ × Ctx
  name_setup masterkey magic = lib.keysetup aes zeros (chain masterkey magic 3) 128

  -- The key with what was derived.
  abbrev pub derived_key : Key → List ℕ → List ℕ → Key
  derived_key pk masterkey magic = record pk {
    data_ctx = (data_setup pk masterkey magic).1;
    tweak_ctx = (tweak_setup pk masterkey magic).1;
    name_ctx = (name_setup masterkey magic).1;
    name_csum_ctx = lib.vmac_set_key (chain masterkey magic 4) zeros;
  }

  -- The key with all four contexts zero.
  abbrev pub wiped_key : Key → Key
  wiped_key pk = record pk {
    data_ctx = zeros;
    tweak_ctx = zeros;
    name_ctx = zeros;
    name_csum_ctx = zeros;
  }

  -- All three pa_keysetup succeed.
  abbrev pub AllSetUp : Key → List ℕ → List ℕ → Type 0
  AllSetUp pk masterkey magic =
      ((data_setup pk masterkey magic).0 ≡ 0)
      × ((tweak_setup pk masterkey magic).0 ≡ 0)
      × ((name_setup masterkey magic).0 ≡ 0)

  hkdf-eq :
      (masterkey key magic : List ℕ) (n : ℕ)
      → IsSha512 lib.sha
      → pefs_hkdf_expand lib masterkey key n magic
        ≡ standard_hmac lib.sha (take 64 masterkey) (key ++ (magic ++ n ∷ []))
  unfolding pefs_hkdf_expand hmac_sha512 hmac_sha512_update hmac_sha512_final
  hkdf-eq masterkey key magic n good =
      let m = take 64 masterkey in
      let c = (hmac_sha512_init lib.sha m).shactx in
      let joined : lib.sha.update (lib.sha.update (lib.sha.update c key) magic) (n ∷ [])
          ≡ lib.sha.update c (key ++ (magic ++ n ∷ [])) =
        good.update-append (lib.sha.update c key) magic (n ∷ [])
        ∙ good.update-append c key (magic ++ n ∷ []) in
      rw joined (hmac_sha512_lem lib.sha good m (key ++ (magic ++ n ∷ [])))

  chain-suc :
      (masterkey magic : List ℕ) (n : ℕ)
      → IsSha512 lib.sha
      → pefs_hkdf_expand lib masterkey (chain masterkey magic n) (suc n) magic
        ≡ chain masterkey magic (suc n)
  unfolding chain
  chain-suc masterkey magic n good = hkdf-eq masterkey (chain masterkey magic n) magic (suc n) good

  -- The first value of the chain that the code feeds in are the zeros.
  pub generate-eq :
      (pk : Key) (masterkey magic : List ℕ)
      → IsSha512 lib.sha
      → pefs_key_generate lib pk masterkey magic
        ≡ setup_from lib pk
            (chain masterkey magic 1)
            (chain masterkey magic 2)
            (chain masterkey magic 3)
            (chain masterkey magic 4)
  unfolding pefs_key_generate
  generate-eq pk masterkey magic good =
      let first : pefs_hkdf_expand lib masterkey (replicate 64 0) 1 magic
          ≡ chain masterkey magic 1 =
        unfold chain in chain-suc masterkey magic 0 good in
      rw
        (
          first,
          chain-suc masterkey magic 1 good,
          chain-suc masterkey magic 2 good,
          chain-suc masterkey magic 3 good,
        )
        refl

  pub setup_from-cases :
      (pk : Key) (key1 key2 key3 key4 : List ℕ)
      → let data_set = lib.keysetup pk.alg zeros key1 pk.keybits in
        let tweak_set = lib.keysetup pk.alg zeros key2 pk.keybits in
        let name_set = lib.keysetup aes zeros key3 128 in
        let (error, pk') = setup_from lib pk key1 key2 key3 key4 in
        ((error ≡ 0)
          × (data_set.0 ≡ 0)
          × (tweak_set.0 ≡ 0)
          × (name_set.0 ≡ 0)
          × (pk' ≡ record pk {
            data_ctx = data_set.1;
            tweak_ctx = tweak_set.1;
            name_ctx = name_set.1;
            name_csum_ctx = lib.vmac_set_key key4 zeros;
          }))
        ⊎ (IsFirst data_set.0 tweak_set.0 name_set.0 error × (pk' ≡ wiped_key pk))
  unfolding setup_from pefs_key_wipe
  setup_from-cases pk key1 key2 key3 key4 =
      let e1 = (lib.keysetup pk.alg zeros key1 pk.keybits).0 in
      let e2 = (lib.keysetup pk.alg zeros key2 pk.keybits).0 in
      let e3 = (lib.keysetup aes zeros key3 128).0 in
      elim (Bool-cases (e1 == 0)) [
        | inr bad ↦ rw (bad, setup_from) (inr (inl (ground arith, refl), refl))
        | inl good1 ↦ elim (Bool-cases (e2 == 0)) [
          | inr bad ↦
              rw (good1, setup_from)
                (rw (bad, setup_from) (inr (inr (inl (ground arith, ground arith, refl)), refl)))
          | inl good2 ↦ elim (Bool-cases (e3 == 0)) [
            | inr bad ↦
                rw (good1, setup_from)
                  (rw (good2, setup_from)
                    (rw (bad, setup_from)
                      (inr (inr (inr (ground arith, ground arith, ground arith, refl)), refl))))
            | inl good3 ↦
                rw (good1, setup_from)
                  (rw (good2, setup_from)
                    (rw (good3, setup_from)
                      (inl (ground arith, ground arith, ground arith, ground arith, refl))))
          ]
        ]
      ]
