-- ===== src/Ctl/Key/Seal.antt =====
-- A key under another key, pefs_key_encrypt and pefs_key_decrypt of sbin/pefs/pefs_key.c.
use pefs.Base.{
  ℕ, zero, suc, ◌+◌, ◌^◌, ◌<◌, ◌≡◌, ◌≢◌, ◌⊎◌, inl, inr, refl, sym, ap, ◌∙◌, arith, true, false,
  none, List, [], ◌∷◌, ◌++◌, length, length-append, length-take, take, drop, take-append_exact,
  drop-append_exact, take-all, ◌==◌, ==_iff, All-take, Bool-cases,
}
use pefs.Base.Bytes.{IsByte, IsBytes}
use pefs.Base.Words.{le_bytes, le_word, length-le_bytes, le_word-le_bytes}
use pefs.Ctl.{Xkey, Xkeyenc, Link, err_invalid}
use pefs.Ctl.Key.{
  Rijndael, xkey_bytes, link_bytes, bytes_xkey, bytes_link, sealing_key, seal_mac, seal_crypt,
  pefs_aes_ctr, pefs_key_cipher, pefs_key_encrypt, pefs_key_decrypt, magic_enckey_info,
}
use pefs.Ctl.Key.Counter.{MakesBlocks, pefs_aes_ctr_lem, length-pefs_aes_ctr}
use pefs.Hmac.{Sha512, IsSha512}
use pefs.Hmac.Laws.{standard_hmac, hmac_final-standard, length-standard_hmac}
use pefs.Verify.{crypto_verify_bytes, crypto_verify_bytes_refl, crypto_verify_bytes-eq_zero}

-- The fields fit their places in memory.
pub record IsXkey (xk : Xkey) : Type 0 where
  pub index : xk.index < 2 ^ 32
  pub alg : xk.alg < 2 ^ 32
  pub keybits : xk.keybits < 2 ^ 32
  pub keyid : length xk.keyid ≡ 8
  pub key : length xk.key ≡ 64

pub record IsLink (a : Link) : Type 0 where
  pub ke_next : IsXkey a.ke_next
  pub ke_alg : a.ke_alg < 2 ^ 32
  pub ke_keybits : a.ke_keybits < 2 ^ 32

module _ (xk : Xkey) (h : IsXkey xk) where
  key-back : take 64 (drop 8 (xk.keyid ++ xk.key)) ≡ xk.key
  key-back =
      ap (take 64) (drop-append_exact 8 xk.keyid xk.key h.keyid)
      ∙ take-all 64 xk.key (omega (arith, h.key))

  bytes_xkey-xkey_bytes : bytes_xkey (xkey_bytes xk) ≡ xk
  unfolding bytes_xkey xkey_bytes le_bytes
  bytes_xkey-xkey_bytes = λ i. record {
    index = le_word-le_bytes 4 xk.index (omega (arith, h.index)) i;
    alg = le_word-le_bytes 4 xk.alg (omega (arith, h.alg)) i;
    keybits = le_word-le_bytes 4 xk.keybits (omega (arith, h.keybits)) i;
    keyid = take-append_exact 8 xk.keyid xk.key h.keyid i;
    key = key-back i;
  }

  length-xkey_bytes : length (xkey_bytes xk) ≡ 84
  unfolding xkey_bytes le_bytes
  length-xkey_bytes = omega (arith, length-append xk.keyid xk.key, h.keyid, h.key)

drop-append_more :
    (n m k : ℕ) (xs ys : List ℕ) → length xs ≡ n → k ≡ n + m → drop k (xs ++ ys) ≡ drop m ys
drop-append_more n m k [] ys h e = ap (λ (k : ℕ). drop k ys) (omega arith)
drop-append_more n m zero (x ∷ xs) ys h e = absurd (omega arith)
drop-append_more zero m (suc k) (x ∷ xs) ys h e = absurd (omega arith)
drop-append_more (suc n) m (suc k) (x ∷ xs) ys h e =
    drop-append_more n m k xs ys (omega arith) (omega arith)

bytes_link-link_bytes : (a : Link) → IsLink a → bytes_link (link_bytes a) ≡ a
unfolding bytes_link link_bytes
bytes_link-link_bytes a h =
    let next = xkey_bytes a.ke_next in
    let alg = le_bytes 4 a.ke_alg in
    let bits = le_bytes 4 a.ke_keybits in
    let len = length-xkey_bytes a.ke_next h.ke_next in
    let next_back =
      ap bytes_xkey (take-append_exact 84 next (alg ++ bits) len)
      ∙ bytes_xkey-xkey_bytes a.ke_next h.ke_next in
    let alg_back =
      ap (λ (b : List ℕ). le_word (take 4 b)) (drop-append_exact 84 next (alg ++ bits) len)
      ∙ (ap le_word (take-append_exact 4 alg bits (length-le_bytes 4 a.ke_alg))
          ∙ le_word-le_bytes 4 a.ke_alg (omega (arith, h.ke_alg))) in
    let bits_back =
      ap (λ (b : List ℕ). le_word (take 4 b))
        (drop-append_more 84 4 88 next (alg ++ bits) len refl
          ∙ drop-append_exact 4 alg bits (length-le_bytes 4 a.ke_alg))
      ∙ (ap le_word (take-all 4 bits (omega (arith, length-le_bytes 4 a.ke_keybits)))
          ∙ le_word-le_bytes 4 a.ke_keybits (omega (arith, h.ke_keybits))) in
    λ i. record { ke_next = next_back i; ke_alg = alg_back i; ke_keybits = bits_back i }

module _ {C R : Type 0} (sha : Sha512 C) (aes : Rijndael R) where
  -- The key of AES and of the checksum under which the parent seals, and that checksum.
  abbrev pub under : Xkey → List ℕ
  under parent = standard_hmac sha parent.key magic_enckey_info

  abbrev pub mac_of : Xkey → List ℕ → List ℕ
  mac_of parent text = take 32 (standard_hmac sha (under parent) text)

  abbrev pub aes_of : Xkey → R
  aes_of parent = aes.set_key (under parent) 128

  module _ (good : IsSha512 sha) where
    sealing_key-eq : (parent : Xkey) → sealing_key sha aes parent ≡ under parent
    unfolding sealing_key
    sealing_key-eq parent =
        hmac_final-standard sha good 64 parent.key magic_enckey_info refl
        ∙ take-all 64 (under parent)
            (omega (arith, length-standard_hmac sha good parent.key magic_enckey_info))

    seal_mac-eq :
        (parent : Xkey) (text : List ℕ)
        → seal_mac sha aes (sealing_key sha aes parent) text ≡ mac_of parent text
    unfolding seal_mac
    seal_mac-eq parent text =
        rw (sealing_key-eq parent) (hmac_final-standard sha good 32 (under parent) text refl)

    seal_crypt-eq :
        (parent : Xkey) (text : List ℕ)
        → seal_crypt sha aes (sealing_key sha aes parent) text
          ≡ pefs_aes_ctr aes (aes_of parent) none text
    unfolding seal_crypt
    seal_crypt-eq parent text = rw (sealing_key-eq parent) refl

    encrypt-eq :
        (xe : Xkeyenc) (parent : Xkey)
        → let text = pefs_aes_ctr aes (aes_of parent) none xe.a in
          pefs_key_encrypt sha aes xe parent ≡ (0, record { a = text; ke_mac = mac_of parent text })
    unfolding pefs_key_encrypt pefs_key_cipher
    encrypt-eq xe parent =
        let text = pefs_aes_ctr aes (aes_of parent) none xe.a in
        let sealed = seal_crypt-eq parent xe.a in
        λ i. (
          0,
          record {
            a = sealed i;
            ke_mac =
                (ap (seal_mac sha aes (sealing_key sha aes parent)) sealed
                    ∙ seal_mac-eq parent text)
                  i;
          },
        )

    decrypt-good :
        (xe : Xkeyenc) (parent : Xkey)
        → (crypto_verify_bytes (mac_of parent xe.a) xe.ke_mac == 0) ≡ true
        → pefs_key_decrypt sha aes xe parent
          ≡ (0, record xe { a = pefs_aes_ctr aes (aes_of parent) none xe.a })
    unfolding pefs_key_decrypt pefs_key_cipher
    decrypt-good xe parent e =
        rw (seal_mac-eq parent xe.a, e) (λ i. (0, record xe { a = seal_crypt-eq parent xe.a i }))

    decrypt-bad :
        (xe : Xkeyenc) (parent : Xkey)
        → (crypto_verify_bytes (mac_of parent xe.a) xe.ke_mac == 0) ≡ false
        → pefs_key_decrypt sha aes xe parent ≡ (err_invalid, xe)
    unfolding pefs_key_decrypt pefs_key_cipher
    decrypt-bad xe parent e = rw (seal_mac-eq parent xe.a, e) refl

    -- What is stored has the size that is looked for when it is read.
    pub encrypt-sizes :
        (xe : Xkeyenc) (parent : Xkey)
        → MakesBlocks aes (aes_of parent)
        → let r = (pefs_key_encrypt sha aes xe parent).1 in
          (length r.a ≡ length xe.a) × (length r.ke_mac ≡ 32)
    encrypt-sizes xe parent blocks =
        let text = pefs_aes_ctr aes (aes_of parent) none xe.a in
        let mac = standard_hmac sha (under parent) text in
        rw (encrypt-eq xe parent) (
          length-pefs_aes_ctr aes (aes_of parent) none xe.a blocks tt,
          omega (arith, length-take 32 mac, length-standard_hmac sha good (under parent) text),
        )

pub length-link_bytes : (a : Link) → IsLink a → length (link_bytes a) ≡ 92
unfolding link_bytes
length-link_bytes a h =
    let next = xkey_bytes a.ke_next in
    omega (
      arith,
      length-append next (le_bytes 4 a.ke_alg ++ le_bytes 4 a.ke_keybits),
      length-append (le_bytes 4 a.ke_alg) (le_bytes 4 a.ke_keybits),
      length-xkey_bytes a.ke_next h.ke_next,
      length-le_bytes 4 a.ke_alg,
      length-le_bytes 4 a.ke_keybits,
    )

-- A key that is sealed under a parent comes back: for a link whose fields fit their places,
-- pefs_key_decrypt of what pefs_key_encrypt made under the same parent succeeds, keeps the checksum
-- and gives bytes that hold the same link, when SHA-512 may be given its text in pieces and has
-- digests of 64 bytes, and AES makes blocks of 16 bytes.
pub pefs_key_decrypt-encrypt :
    {C R : Type 0} (sha : Sha512 C) (aes : Rijndael R) (a : Link) (mac : List ℕ) (parent : Xkey)
    → IsSha512 sha
    → MakesBlocks aes (aes_of sha aes parent)
    → IsLink a
    → let sealed = pefs_key_encrypt sha aes (record { a = link_bytes a; ke_mac = mac }) parent in
      let opened = pefs_key_decrypt sha aes sealed.1 parent in
      (sealed.0 ≡ 0)
      × (opened.0 ≡ 0)
      × (bytes_link opened.1.a ≡ a)
      × (opened.1.ke_mac ≡ sealed.1.ke_mac)
pefs_key_decrypt-encrypt sha aes a mac parent good blocks h =
    let xe : Xkeyenc = record { a = link_bytes a; ke_mac = mac } in
    let ctx = aes_of sha aes parent in
    let text = pefs_aes_ctr aes ctx none (link_bytes a) in
    let xe' : Xkeyenc = record { a = text; ke_mac = mac_of sha aes parent text } in
    let twice = (pefs_aes_ctr_lem aes ctx none (link_bytes a) blocks tt).1 in
    let same : (crypto_verify_bytes xe'.ke_mac xe'.ke_mac == 0) ≡ true =
      rw (crypto_verify_bytes_refl xe'.ke_mac) refl in
    rw (encrypt-eq sha aes good xe parent, decrypt-good sha aes good xe' parent same)
      (refl, refl, ap bytes_link twice ∙ bytes_link-link_bytes a h, refl)

-- pefs_key_decrypt compares 32 bytes of the HMAC of what is stored, under a key that is the HMAC of
-- "<ENCRYPTED KEY>" under the parent's, with the stored checksum: it decrypts when they are the same,
-- and returns PEFS_ERR_INVALID with everything left as it was when they differ, for a stored checksum
-- of 32 bytes and a hash that gives bytes.
pub pefs_key_decrypt_lem :
    {C R : Type 0} (sha : Sha512 C) (aes : Rijndael R) (xe : Xkeyenc) (parent : Xkey)
    → IsSha512 sha
    → ((c : C) → IsBytes (sha.final c))
    → IsBytes xe.ke_mac
    → length xe.ke_mac ≡ 32
    → let r = pefs_key_decrypt sha aes xe parent in
      ((xe.ke_mac ≡ mac_of sha aes parent xe.a)
        × (r ≡ (0, record xe { a = pefs_aes_ctr aes (aes_of sha aes parent) none xe.a })))
      ⊎ ((xe.ke_mac ≢ mac_of sha aes parent xe.a) × (r ≡ (err_invalid, xe)))
pefs_key_decrypt_lem sha aes xe parent good bytes is_mac len =
    let mac = mac_of sha aes parent xe.a in
    let whole = standard_hmac sha (under sha aes parent) xe.a in
    let len' = length-standard_hmac sha good (under sha aes parent) xe.a in
    let compare =
      crypto_verify_bytes-eq_zero mac xe.ke_mac (All-take IsByte 32 whole (bytes _)) is_mac
        (omega (arith, length-take 32 whole)) in
    elim (Bool-cases (crypto_verify_bytes mac xe.ke_mac == 0)) [
      | inl e ↦
          let z : crypto_verify_bytes mac xe.ke_mac ≡ 0 = (==_iff _ 0).0 e in
          inl (sym (compare.0 z), decrypt-good sha aes good xe parent e)
      | inr e ↦ inr (
        λ same. let z = compare.1 (sym same) in ground (arith, e, z),
        decrypt-bad sha aes good xe parent e,
      )
    ]
