-- ===== src/Crypto/Name/Encrypt.antt =====
-- The results of pefs_name_encrypt.
use pefs.Base.{
  ℕ, ◌+◌, ◌-◌, ◌*◌, ◌^◌, ◌≤◌, ◌<◌, ◌≡◌, ◌⊎◌, refl, ◌∙◌, ap, arith, true, false, Option, none, some,
  List, ◌∷◌, ◌++◌, length, replicate, All, ◌==◌, ltb, leb, le→ltb, lt→ltb, ltb→lt, leb→le, ==_iff,
  Bool-cases, Option-cases, inl, inr,
}
use pefs.Base.Bytes.{IsBytes}
use pefs.Crypto.{Tkey, Primitives, aes}
use pefs.Crypto.Name.{
  pefs_name_enccbc, Result, ok, err, enametoolong, eoverflow, ntop_failed, pefs_name_encrypt,
}
use pefs.Crypto.Name.Sizes.{more_blocks, padsize-eq, pad-eq}
use pefs.Xbase64.{ntop, ntop_size}
use pefs.Xbase64.Bounds.{ntop_succeeds_iff, ntop-IsNameChar}
use pefs.Xbase64.Encode.{IsNameChar}
use pefs.Xts.Blocks.{IsCipher}
use pefs.Crypto.Name.Sealed.{sealed_name, length-sealed_name, sealed_name-IsBytes}

-- The branches of pefs_name_encrypt.
encrypt_long :
    (lib : Primitives) (ptk : Tkey) (plain : List ℕ) (enc_size : ℕ)
    → 168 < length plain
    → pefs_name_encrypt lib ptk plain enc_size ≡ err enametoolong
unfolding pefs_name_encrypt
encrypt_long lib ptk plain enc_size long = elim (Bool-cases (ltb 255 (length plain))) [
  | inl e ↦ rw e refl
  | inr e ↦
      let small : length plain < 2 ^ 32 = ground arith in
      let p = padsize-eq (length plain) small in
      let r : ltb 255 (ntop_size (24 + 16 * more_blocks (length plain)) + 1) ≡ true =
        lt→ltb 255 (ntop_size (24 + 16 * more_blocks (length plain)) + 1) (omega arith) in
      rw e (rw (p, r) refl)
]

-- The room asked for, and what is written.
abbrev pub name_room : List ℕ → ℕ
name_room plain = ntop_size (24 + 16 * more_blocks (length plain)) + 1

encrypt_short :
    (lib : Primitives) (ptk : Tkey) (plain : List ℕ) (enc_size : ℕ)
    → length plain ≤ 168
    → enc_size < name_room plain
    → pefs_name_encrypt lib ptk plain enc_size ≡ err eoverflow
unfolding pefs_name_encrypt
encrypt_short lib ptk plain enc_size fits short =
    let p = padsize-eq (length plain) (omega arith) in
    let e : ltb 255 (length plain) ≡ false = le→ltb 255 (length plain) (omega arith) in
    let r : ltb 255 (name_room plain) ≡ false = le→ltb 255 (name_room plain) (omega arith) in
    let t : ltb enc_size (name_room plain) ≡ true = lt→ltb enc_size (name_room plain) short in
    rw e (rw (p, r) (rw t refl))

abbrev written : Option (List ℕ) → Result (List ℕ)
written none = err ntop_failed
written (some target) = ok (b'.' ∷ target)

written-eq :
    (o : Option (List ℕ))
    → elim o as (λ _. Result (List ℕ)) [ none ↦ err ntop_failed | some target ↦ ok (b'.' ∷ target) ]
      ≡ written o
written-eq none = refl
written-eq (some target) = refl

encrypt_runs :
    (lib : Primitives) (ptk : Tkey) (plain : List ℕ) (enc_size : ℕ)
    → length ptk.tweak ≡ 8
    → length plain ≤ 168
    → name_room plain ≤ enc_size
    → pefs_name_encrypt lib ptk plain enc_size
      ≡ written (ntop (sealed_name lib ptk plain) (enc_size - 1))
unfolding pefs_name_encrypt pefs_name_enccbc
encrypt_runs lib ptk plain enc_size tweak fits room =
    let p = padsize-eq (length plain) (omega arith) in
    let e : ltb 255 (length plain) ≡ false = le→ltb 255 (length plain) (omega arith) in
    let r : ltb 255 (name_room plain) ≡ false = le→ltb 255 (name_room plain) (omega arith) in
    let t : ltb enc_size (name_room plain) ≡ false = le→ltb enc_size (name_room plain) room in
    let front : length (replicate 8 0 ++ ptk.tweak) ≡ 16 = omega arith in
    let padded =
      pad-eq (replicate 8 0 ++ ptk.tweak) plain 256 front (omega arith) (omega (arith, p))
        (omega (arith, p)) in
    rw e
      (rw (p, r) (rw t (rw padded (written-eq (ntop (sealed_name lib ptk plain) (enc_size - 1))))))

module _ (lib : Primitives) (ptk : Tkey) (plain : List ℕ)
    (cipher : IsCipher (lib.encrypt aes ptk.key.name_ctx) (lib.decrypt aes ptk.key.name_ctx))
    (tweak : length ptk.tweak ≡ 8) (tweak_bytes : IsBytes ptk.tweak)
    (plain_bytes : IsBytes plain) where
  pub encrypt-inv :
      (enc_size : ℕ) (enc : List ℕ)
      → pefs_name_encrypt lib ptk plain enc_size ≡ ok enc
      → (target : List ℕ) × (enc ≡ b'.' ∷ target)
        × (ntop (sealed_name lib ptk plain) (enc_size - 1) ≡ some target)
  encrypt-inv enc_size enc wrote = elim (Bool-cases (ltb 168 (length plain))) [
    | inl long ↦ absurd (
        ground (
          arith,
          encrypt_long lib ptk plain enc_size (omega (arith, ltb→lt 168 (length plain) long)),
        ))
    | inr fits ↦
        let small : length plain ≤ 168 = ground arith in
        elim (Bool-cases (ltb enc_size (name_room plain))) [
          | inl short ↦ absurd (
              ground (
                arith,
                encrypt_short lib ptk plain enc_size small
                    (ltb→lt enc_size (name_room plain) short),
              ))
          | inr room ↦
              let enough : name_room plain ≤ enc_size = ground arith in
              let runs = encrypt_runs lib ptk plain enc_size tweak small enough in
              elim (Option-cases (ntop (sealed_name lib ptk plain) (enc_size - 1))) [
                | inl e ↦ absurd (ground (arith, runs, ap written e))
                | inr (target, e) ↦ (target, ground (arith, runs, ap written e), e)
              ]
        ]
  ]

  -- One byte of room short of the terminating zero, pefs_name_ntop fails.
  encrypt_tight :
      length plain ≤ 168 → pefs_name_encrypt lib ptk plain (name_room plain) ≡ err ntop_failed
  encrypt_tight fits =
      let runs = encrypt_runs lib ptk plain (name_room plain) tweak fits (omega arith) in
      let n = length-sealed_name lib ptk plain cipher tweak tweak_bytes plain_bytes in
      elim (Option-cases (ntop (sealed_name lib ptk plain) (name_room plain - 1))) [
        | inl e ↦ runs ∙ ap written e
        | inr (target, e) ↦ absurd (
            omega (
              arith,
              (ntop_succeeds_iff (sealed_name lib ptk plain) (name_room plain - 1)).0 (target, e),
            ))
      ]

  encrypt_roomy :
      (enc_size : ℕ)
      → length plain ≤ 168
      → name_room plain < enc_size
      → (target : List ℕ) × (pefs_name_encrypt lib ptk plain enc_size ≡ ok (b'.' ∷ target))
        × (length (b'.' ∷ target) ≡ name_room plain)
        × All IsNameChar target
  encrypt_roomy enc_size fits room =
      let n = length-sealed_name lib ptk plain cipher tweak tweak_bytes plain_bytes in
      let (target, wrote) =
        (ntop_succeeds_iff (sealed_name lib ptk plain) (enc_size - 1)).1
          (omega arith, omega arith) in
      let (size, safe) =
        ntop-IsNameChar (sealed_name lib ptk plain) (enc_size - 1) target
          (sealed_name-IsBytes lib ptk plain cipher tweak tweak_bytes plain_bytes) wrote in
      (
        target,
        encrypt_runs lib ptk plain enc_size tweak fits (omega arith) ∙ ap written wrote,
        ground (arith, size, n),
        safe,
      )

-- Every result of pefs_name_encrypt, by the length of the name and the room for the result, with a
-- block cipher and a tweak of eight bytes: more than 168 characters are refused with ENAMETOOLONG;
-- with too little room there is EOVERFLOW, with room for all but the terminating zero the -1 of
-- pefs_name_ntop, and with more room a '.' and characters of the alphabet, at most 255 in all.
pub pefs_name_encrypt_lem :
    (lib : Primitives) (ptk : Tkey) (plain : List ℕ) (enc_size : ℕ)
    → IsCipher (lib.encrypt aes ptk.key.name_ctx) (lib.decrypt aes ptk.key.name_ctx)
    → length ptk.tweak ≡ 8
    → IsBytes ptk.tweak
    → IsBytes plain
    → ((168 < length plain) × (pefs_name_encrypt lib ptk plain enc_size ≡ err enametoolong))
      ⊎ (((length plain ≤ 168)
            × (enc_size < name_room plain)
            × (pefs_name_encrypt lib ptk plain enc_size ≡ err eoverflow))
          ⊎ (((length plain ≤ 168)
                × (enc_size ≡ name_room plain)
                × (pefs_name_encrypt lib ptk plain enc_size ≡ err ntop_failed))
              ⊎ ((target : List ℕ) × (length plain ≤ 168)
                  × (name_room plain < enc_size)
                  × (pefs_name_encrypt lib ptk plain enc_size ≡ ok (b'.' ∷ target))
                  × (length (b'.' ∷ target) ≡ name_room plain)
                  × (name_room plain ≤ 255)
                  × All IsNameChar target)))
pefs_name_encrypt_lem lib ptk plain enc_size cipher tweak tweak_bytes plain_bytes =
    elim (Bool-cases (leb (length plain) 168)) [
      | inr long ↦
          let more : 168 < length plain = ground arith in
          inl (more, encrypt_long lib ptk plain enc_size more)
      | inl short ↦
          let fits : length plain ≤ 168 = leb→le (length plain) 168 short in
          elim (Bool-cases (ltb enc_size (name_room plain))) [
            | inl little ↦
                let less = ltb→lt enc_size (name_room plain) little in
                inr (inl (fits, less, encrypt_short lib ptk plain enc_size fits less))
            | inr enough ↦ elim (Bool-cases (enc_size == name_room plain)) [
              | inl tight ↦
                  let e : enc_size ≡ name_room plain =
                    (==_iff enc_size (name_room plain)).0 tight in
                  inr (
                    inr (
                      inl (
                        fits,
                        e,
                        ap (pefs_name_encrypt lib ptk plain) e
                            ∙ encrypt_tight lib ptk plain cipher tweak tweak_bytes plain_bytes fits,
                      )))
              | inr roomy ↦
                  let more : name_room plain < enc_size = ground arith in
                  let (target, runs, size, safe) =
                    encrypt_roomy lib ptk plain cipher tweak tweak_bytes plain_bytes enc_size fits
                      more in
                  inr (inr (inr (target, fits, more, runs, size, omega arith, safe)))
            ]
          ]
    ]
