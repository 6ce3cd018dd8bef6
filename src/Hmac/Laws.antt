-- ===== src/Hmac/Laws.antt =====
-- The HMAC of RFC 2104.
use pefs.Base.{
  ℕ, ◌-◌, ◌≡◌, refl, arith, List, [], ◌∷◌, ◌++◌, length, take-all, replicate, ltb, ◌==◌, false,
  take, if◌then◌else◌, Bool-cases, inl, inr,
}
use pefs.Base.Bytes.{xor_bytes}
use pefs.Hmac.{
  Sha512, IsSha512, block_key, hmac_sha512_init, hmac_sha512_update, hmac_sha512_final, hmac_sha512,
}

module _ {C : Type 0} (sha : Sha512 C) where
  -- The hash of a text, and the key brought to the length of a block, as the standard has them.
  abbrev pub hash : List ℕ → List ℕ
  hash text = sha.final (sha.update sha.init text)

  abbrev pub standard_key : List ℕ → List ℕ
  standard_key key =
      let short = if ltb 128 (length key) then hash key else key in
      short ++ replicate (128 - length short) 0

  abbrev pub standard_hmac : List ℕ → List ℕ → List ℕ
  standard_hmac key text =
      let k = standard_key key in
      hash (xor_bytes k (replicate 128 0x5c) ++ hash (xor_bytes k (replicate 128 0x36) ++ text))

module _ {C : Type 0} (sha : Sha512 C) (good : IsSha512 sha) where
  empty_key : (key : List ℕ) → length key ≡ 0 → key ≡ []
  empty_key [] h = refl
  empty_key (x ∷ xs) h = absurd (omega arith)

  block_key-eq : (key : List ℕ) → block_key sha key ≡ standard_key sha key
  unfolding block_key
  block_key-eq key = elim (Bool-cases (length key == 0)) [
    | inl nothing ↦ let e : key ≡ [] = empty_key key (ground arith) in rw e refl
    | inr something ↦ elim (Bool-cases (ltb 128 (length key))) [
      | inl long ↦ rw (something, long) (rw (good.length-final (sha.update sha.init key)) refl)
      | inr short ↦ rw (something, short) refl
    ]
  ]

  -- hmac_sha512 with mdsize 0 is the HMAC of RFC 2104 over SHA-512, at every length of the key, when
  -- SHA-512 may be given its text in pieces and a digest has 64 bytes.
  pub hmac_sha512_lem :
      (key text : List ℕ) → hmac_sha512 sha key text 0 ≡ standard_hmac sha key text
  unfolding hmac_sha512 hmac_sha512_init hmac_sha512_update hmac_sha512_final
  hmac_sha512_lem key text =
      rw (block_key-eq key, good.update-append, good.update-append)
        (take-all 64 (standard_hmac sha key text) (omega (arith, good.length-final _)))

  pub length-hmac_sha512 : (key text : List ℕ) → length (hmac_sha512 sha key text 0) ≡ 64
  length-hmac_sha512 key text = rw (hmac_sha512_lem key text) (good.length-final _)

  -- A digest that is cut to `n` bytes, one or more.
  pub hmac_final-standard :
      (n : ℕ) (key text : List ℕ)
      → (n == 0) ≡ false
      → hmac_sha512_final sha (hmac_sha512_update sha (hmac_sha512_init sha key) text) n
        ≡ take n (standard_hmac sha key text)
  unfolding hmac_sha512_init hmac_sha512_update hmac_sha512_final
  hmac_final-standard n key text e =
      rw (e, block_key-eq key, good.update-append, good.update-append) refl

  pub length-standard_hmac : (key text : List ℕ) → length (standard_hmac sha key text) ≡ 64
  length-standard_hmac key text = good.length-final _
