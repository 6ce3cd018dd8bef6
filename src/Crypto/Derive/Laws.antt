-- ===== src/Crypto/Derive/Laws.antt =====
-- What pefs_key_generate derives from a master key.
use pefs.Base.{
  ℕ, ◌≡◌, ◌≢◌, ◌⊎◌, refl, sym, ◌∙◌, some_inj, some-ne-none, ap, arith, ◌||◌, none, some, List, take,
  ◌==◌, Bool-cases, Option-cases, inl, inr,
}
use pefs.Crypto.{Alg, aes, camellia, Ctx, Key}
use pefs.Crypto.Derive.{Setup, pefs_key_generate, find_alg, pefs_key_get, magic_keyinfo_v1}
use pefs.Hmac.{IsSha512}
use pefs.Crypto.Derive.Chain.{
  IsFirst, chain, data_setup, tweak_setup, name_setup, derived_key, wiped_key, AllSetUp,
  generate-eq, setup_from-cases,
}

-- pefs_key_generate either succeeds, with the cipher contexts and the checksum context set up from
-- the first four values of the chain of HMACs, or some pa_keysetup fails and it returns the error of
-- the first one that does, of the data's, the tweak's and the name's context in this order, with all
-- four contexts zero; SHA-512 may be given its text in pieces and a digest has 64 bytes.
pub pefs_key_generate_lem :
    {C : Type 0} (lib : Setup C) (pk : Key) (masterkey magic : List ℕ)
    → IsSha512 lib.sha
    → let (error, pk') = pefs_key_generate lib pk masterkey magic in
      ((error ≡ 0)
        × ((data_setup lib pk masterkey magic).0 ≡ 0)
        × ((tweak_setup lib pk masterkey magic).0 ≡ 0)
        × ((name_setup lib masterkey magic).0 ≡ 0)
        × (pk' ≡ derived_key lib pk masterkey magic))
      ⊎ (IsFirst
            (data_setup lib pk masterkey magic).0
            (tweak_setup lib pk masterkey magic).0
            (name_setup lib masterkey magic).0
            error
          × (pk' ≡ wiped_key lib pk))
pefs_key_generate_lem lib pk masterkey magic good = rw (generate-eq lib pk masterkey magic good) (
    setup_from-cases lib pk (chain lib masterkey magic 1) (chain lib masterkey magic 2)
      (chain lib masterkey magic 3) (chain lib masterkey magic 4))

-- A key before its contexts are generated.
abbrev pub bare : Alg → ℕ → Ctx → ℕ → ℕ → List ℕ → Key
bare a ptr fresh alg keybits keyid = record {
  ptr = ptr;
  refcnt = 1;
  alg = a;
  name_csum_ctx = fresh;
  name_ctx = fresh;
  tweak_ctx = fresh;
  data_ctx = fresh;
  algid = alg;
  keybits = keybits;
  keyid = take 8 keyid;
}

-- The algorithms: PEFS_ALG_AES_XTS is 4, PEFS_ALG_CAMELLIA_XTS is 5.
abbrev pub IsAlg : ℕ → Alg → Type 0
IsAlg alg a = ((alg ≡ 4) × (a ≡ aes)) ⊎ ((alg ≡ 5) × (a ≡ camellia))

find_alg-none :
    {C : Type 0} (lib : Setup C) (alg : ℕ) → find_alg lib alg ≡ none → (alg ≢ 4) × (alg ≢ 5)
unfolding find_alg
find_alg-none lib alg h = (
  λ e. some-ne-none (sym (ap (find_alg lib) e) ∙ h),
  λ e. some-ne-none (sym (ap (find_alg lib) e) ∙ h),
)

find_alg-some :
    {C : Type 0} (lib : Setup C) (alg : ℕ) (a : Alg) → find_alg lib alg ≡ some a → IsAlg alg a
unfolding find_alg
find_alg-some lib alg a h = elim (Bool-cases (alg == 4)) [
  | inl four ↦ inl (ground arith, sym (some_inj (sym (rw four refl) ∙ h)))
  | inr not_four ↦ elim (Bool-cases (alg == 5)) [
    | inl five ↦ inr (ground arith, sym (some_inj (sym (rw (not_four, five) refl) ∙ h)))
    | inr not_five ↦ absurd (some-ne-none (sym h ∙ rw (not_four, not_five) refl))
  ]
]

first-fails : (e1 e2 e3 error : ℕ) → IsFirst e1 e2 e3 error → ¬ ((e1 ≡ 0) × (e2 ≡ 0) × (e3 ≡ 0))
first-fails e1 e2 e3 error h = ground arith

-- pefs_key_get returns no key for an algorithm that is neither AES-XTS nor Camellia-XTS, or a number
-- of bits that is not 128, 192 or 256. Otherwise it returns a key of that algorithm with one
-- reference: when all three pa_keysetup succeed, its contexts are derived from the master key, and
-- when one fails, the key is returned all the same, with all four contexts zero; SHA-512 may be given
-- its text in pieces and a digest has 64 bytes.
pub pefs_key_get_lem :
    {C : Type 0} (lib : Setup C) (ptr : ℕ) (fresh : Ctx) (alg keybits : ℕ) (key keyid : List ℕ)
    → IsSha512 lib.sha
    → ((((alg ≢ 4) × (alg ≢ 5)) ⊎ ((keybits ≢ 128) × (keybits ≢ 192) × (keybits ≢ 256)))
        × (pefs_key_get lib ptr fresh alg keybits key keyid ≡ none))
      ⊎ ((a : Alg) × IsAlg alg a
          × ((keybits ≡ 128) ⊎ ((keybits ≡ 192) ⊎ (keybits ≡ 256)))
          × ((AllSetUp lib (bare a ptr fresh alg keybits keyid) key magic_keyinfo_v1
                × (pefs_key_get lib ptr fresh alg keybits key keyid
                    ≡ some (
                        derived_key lib (bare a ptr fresh alg keybits keyid) key magic_keyinfo_v1)))
              ⊎ ((¬ AllSetUp lib (bare a ptr fresh alg keybits keyid) key magic_keyinfo_v1)
                  × (pefs_key_get lib ptr fresh alg keybits key keyid
                      ≡ some (wiped_key lib (bare a ptr fresh alg keybits keyid))))))
unfolding pefs_key_get
pefs_key_get_lem lib ptr fresh alg keybits key keyid good = elim (Option-cases (find_alg lib alg)) [
  | inl unknown ↦ inl (inl (find_alg-none lib alg unknown), rw (unknown, pefs_key_get) refl)
  | inr (a, known) ↦ elim (Bool-cases (keybits == 128 || (keybits == 192 || keybits == 256))) [
    | inr bad ↦ inl (inr (ground arith), rw (known, pefs_key_get) (rw (bad, pefs_key_get) refl))
    | inl fits ↦
        let got : pefs_key_get lib ptr fresh alg keybits key keyid
            ≡ some
                (pefs_key_generate lib (bare a ptr fresh alg keybits keyid) key
                  magic_keyinfo_v1).1 =
          rw (known, pefs_key_get) (rw (fits, pefs_key_get) refl) in
        inr (
          a,
          find_alg-some lib alg a known,
          ground arith,
          elim (pefs_key_generate_lem lib (bare a ptr fresh alg keybits keyid) key magic_keyinfo_v1
              good) [
                | inl derived ↦
                    inl ((derived.1, derived.2, derived.3), got ∙ ap {A = Key} some derived.4)
                | inr wiped ↦ inr (first-fails _ _ _ _ wiped.0, got ∙ ap {A = Key} some wiped.1)
              ],
        )
  ]
]
