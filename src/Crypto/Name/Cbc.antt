-- ===== src/Crypto/Name/Cbc.antt =====
-- pefs_name_deccbc undoes pefs_name_enccbc.
use pefs.Base.{
  ℕ, zero, suc, ◌+◌, ◌*◌, ◌<◌, ◌≡◌, refl, sym, ◌∙◌, subst, true, false, arith, List, [], ◌++◌,
  length, length-append, length-take, length-drop, take, drop, replicate, All-append, All-take,
  All-drop, All-replicate, take-append_exact, drop-append_exact, take-append-drop, take-all, ◌==◌,
}
use pefs.Base.Bytes.{IsByte, IsBytes, xor_bytes, xor_bytes_cancel, xor_bytes-zeros}
use mathlib.Core.List.{append-nil}
use pefs.Crypto.Name.{enccbc_loop, deccbc_loop}
use pefs.Xts.{Crypt}
use pefs.Xts.Blocks.{IsBlock, IsCipher, xor-IsBlock}

-- `n + 1` blocks.
abbrev pub IsBlocks : ℕ → List ℕ → Type 0
IsBlocks n bytes = (length bytes ≡ 16 + 16 * n) × IsBytes bytes

-- The data with its first block masked.
abbrev masked : List ℕ → List ℕ → List ℕ
masked bytes iv = xor_bytes (take 16 bytes) iv ++ drop 16 bytes

first-IsBlock : (n : ℕ) (bytes : List ℕ) → IsBlocks n bytes → IsBlock (take 16 bytes)
first-IsBlock n bytes h = (omega (arith, length-take 16 bytes), All-take IsByte 16 bytes h.1)

rest-IsBlocks : (n : ℕ) (bytes : List ℕ) → IsBlocks (suc n) bytes → IsBlocks n (drop 16 bytes)
rest-IsBlocks n bytes h = (omega (arith, length-drop 16 bytes), All-drop IsByte 16 bytes h.1)

deccbc_nil :
    (crypt : Crypt) (fuel : ℕ) (iv bytes : List ℕ)
    → length bytes ≡ 0
    → deccbc_loop crypt fuel iv bytes ≡ []
unfolding deccbc_loop
deccbc_nil crypt zero iv bytes h = refl
deccbc_nil crypt (suc fuel) iv bytes h = ground arith

deccbc_cons :
    (crypt : Crypt) (fuel : ℕ) (iv block rest : List ℕ)
    → length block ≡ 16
    → deccbc_loop crypt (suc fuel) iv (block ++ rest)
      ≡ xor_bytes (crypt block) iv ++ deccbc_loop crypt fuel block rest
unfolding deccbc_loop
deccbc_cons crypt fuel iv block rest h =
    let nonempty : (length (block ++ rest) == 0) ≡ false =
      ground (arith, length-append block rest) in
    let head = take-append_exact 16 block rest h in
    let tail = drop-append_exact 16 block rest h in rw (nonempty, deccbc_loop) (rw (head, tail))

enccbc_last :
    (crypt : Crypt) (fuel : ℕ) (block rest : List ℕ)
    → length block ≡ 16
    → length rest ≡ 0
    → enccbc_loop crypt (suc fuel) (block ++ rest) ≡ crypt block
unfolding enccbc_loop
enccbc_last crypt fuel block rest h e =
    let tail = drop-append_exact 16 block rest h in
    let ends : (length (drop 16 (block ++ rest)) == 0) ≡ true = rw tail (ground arith) in
    rw (ends, enccbc_loop) (rw (take-append_exact 16 block rest h))

enccbc_more :
    (crypt : Crypt) (fuel : ℕ) (block rest : List ℕ)
    → length block ≡ 16
    → 0 < length rest
    → enccbc_loop crypt (suc fuel) (block ++ rest)
      ≡ crypt block ++ enccbc_loop crypt fuel (masked rest (crypt block))
unfolding enccbc_loop
enccbc_more crypt fuel block rest h e =
    let tail = drop-append_exact 16 block rest h in
    let goes_on : (length (drop 16 (block ++ rest)) == 0) ≡ false = rw tail (ground arith) in
    rw (goes_on, enccbc_loop) (rw (take-append_exact 16 block rest h, tail))

masked-IsBlocks :
    (n : ℕ) (bytes iv : List ℕ) → IsBlocks n bytes → IsBlock iv → IsBlocks n (masked bytes iv)
masked-IsBlocks n bytes iv h hi =
    let x = xor-IsBlock (take 16 bytes) iv (first-IsBlock n bytes h) hi in
    (
      omega (
        arith,
        length-append (xor_bytes (take 16 bytes) iv) (drop 16 bytes),
        length-drop 16 bytes,
      ),
      All-append IsByte _ (drop 16 bytes) x.1 (All-drop IsByte 16 bytes h.1),
    )

module _ {encrypt decrypt : Crypt} (cipher : IsCipher encrypt decrypt) where
  first_back :
      (iv block : List ℕ)
      → IsBlock iv
      → IsBlock block
      → xor_bytes (decrypt (encrypt (xor_bytes block iv))) iv ≡ block
  first_back iv block hi hb =
      rw
        (
          cipher.decrypt-encrypt _ (xor-IsBlock block iv hb hi),
          xor_bytes_cancel block iv (omega arith),
        )
        refl

  -- Both loops on `n + 1` blocks, the encrypted ones behind an initial value.
  deccbc-enccbc :
      (n f g : ℕ) (iv bytes : List ℕ)
      → IsBlock iv
      → IsBlocks n bytes
      → n < f
      → n < g
      → deccbc_loop decrypt g iv (enccbc_loop encrypt f (masked bytes iv)) ≡ bytes
  deccbc-enccbc n zero g iv bytes hi hb hf hg = absurd (omega arith)
  deccbc-enccbc n (suc f) zero iv bytes hi hb hf hg = absurd (omega arith)
  deccbc-enccbc zero (suc f) (suc g) iv bytes hi hb hf hg =
      let block = take 16 bytes in
      let b = first-IsBlock 0 bytes hb in
      let x = xor-IsBlock block iv b hi in
      let e = cipher.encrypt-IsBlock (xor_bytes block iv) x in
      let c = encrypt (xor_bytes block iv) in
      rw
        (
          enccbc_last encrypt f (xor_bytes block iv) (drop 16 bytes) x.0
              (omega (arith, length-drop 16 bytes)),
          sym (append-nil c),
        )
        (deccbc_cons decrypt g iv c [] e.0
          ∙ rw (first_back iv block hi b, deccbc_nil decrypt g c [] refl)
              (append-nil block ∙ take-all 16 bytes (omega arith)))
  deccbc-enccbc (suc n) (suc f) (suc g) iv bytes hi hb hf hg =
      let block = take 16 bytes in
      let b = first-IsBlock (suc n) bytes hb in
      let x = xor-IsBlock block iv b hi in
      let c = encrypt (xor_bytes block iv) in
      let e = cipher.encrypt-IsBlock (xor_bytes block iv) x in
      let rest = drop 16 bytes in
      let more = rest-IsBlocks n bytes hb in
      rw (enccbc_more encrypt f (xor_bytes block iv) rest x.0 (omega arith)) (
        deccbc_cons decrypt g iv c (enccbc_loop encrypt f (masked rest c)) e.0
        ∙ rw
            (
              first_back iv block hi b,
              deccbc-enccbc n f g c rest e more (omega arith) (omega arith),
            )
            (take-append-drop 16 bytes))

  -- The encrypted data has as many blocks.
  pub enccbc-IsBlocks :
      (n f : ℕ) (bytes : List ℕ)
      → IsBlocks n bytes
      → n < f
      → IsBlocks n (enccbc_loop encrypt f bytes)
  enccbc-IsBlocks n zero bytes hb hf = absurd (omega arith)
  enccbc-IsBlocks zero (suc f) bytes hb hf =
      let e = cipher.encrypt-IsBlock (take 16 bytes) (first-IsBlock 0 bytes hb) in
      subst (λ t. IsBlocks 0 (enccbc_loop encrypt (suc f) t)) (take-append-drop 16 bytes)
        (rw
          (enccbc_last encrypt f (take 16 bytes) (drop 16 bytes)
            (omega (arith, length-take 16 bytes)) (omega (arith, length-drop 16 bytes)))
          e)
  enccbc-IsBlocks (suc n) (suc f) bytes hb hf =
      let block = take 16 bytes in
      let rest = drop 16 bytes in
      let e = cipher.encrypt-IsBlock block (first-IsBlock (suc n) bytes hb) in
      let later = masked rest (encrypt block) in
      let i =
        enccbc-IsBlocks n f later
          (masked-IsBlocks n rest (encrypt block) (rest-IsBlocks n bytes hb) e) (omega arith) in
      subst (λ t. IsBlocks (suc n) (enccbc_loop encrypt (suc f) t)) (take-append-drop 16 bytes)
        (rw
          (enccbc_more encrypt f block rest (omega (arith, length-take 16 bytes))
            (omega (arith, length-drop 16 bytes)))
          (
            omega (arith, length-append (encrypt block) (enccbc_loop encrypt f later)),
            All-append IsByte (encrypt block) (enccbc_loop encrypt f later) e.1 i.1,
          ))

  -- With the zero initial value of the code.
  pub cbc_round_trip :
      (n : ℕ) (bytes : List ℕ)
      → IsBlocks n bytes
      → let c = enccbc_loop encrypt (length bytes) bytes in
        deccbc_loop decrypt (length c) (replicate 16 0) c ≡ bytes
  cbc_round_trip n bytes h =
      let zeros : IsBlock (replicate 16 0) = (refl, All-replicate IsByte 16 0 (omega arith)) in
      let plain : masked bytes (replicate 16 0) ≡ bytes =
        rw (xor_bytes-zeros 16 (take 16 bytes) (omega (arith, length-take 16 bytes)))
          (take-append-drop 16 bytes) in
      let c = enccbc-IsBlocks n (length bytes) bytes h (omega arith) in
      subst
        (λ t.
          deccbc_loop decrypt (length (enccbc_loop encrypt (length bytes) bytes)) (replicate 16 0)
            (enccbc_loop encrypt (length bytes) t)
          ≡ bytes)
        plain
        (deccbc-enccbc n (length bytes) (length (enccbc_loop encrypt (length bytes) bytes))
          (replicate 16 0) bytes zeros h (omega arith) (omega arith))
