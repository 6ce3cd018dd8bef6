-- ===== src/Ctl/Chain/Store.antt =====
-- Storing a key chain, pefs_keychain_set of sbin/pefs/pefs_keychain.c, and reading it again.
use pefs.Base.{
  ℕ, ◌+◌, ◌-◌, ◌^◌, ◌≡◌, ◌≢◌, inl, refl, ap, ◌∙◌, arith, true, false, some, List, [], ◌∷◌, length,
  length-append, take-append_exact, drop-append_exact,
}
use pefs.Ctl.{Xkey, Xkeyenc, err_exist}
use pefs.Ctl.Chain.{
  success, special, Db, Flags, xkeyenc_bytes, bytes_xkeyenc, new_link, put_result,
  pefs_keychain_get, pefs_keychain_set,
}
use pefs.Ctl.Chain.Read.{Stored, Chained, ends, links, pefs_keychain_get_lem}
use pefs.Ctl.Key.{
  Rijndael, link_bytes, sealing_key, pefs_key_cipher, pefs_key_encrypt, pefs_key_decrypt,
}
use pefs.Ctl.Key.Counter.{MakesBlocks}
use pefs.Ctl.Key.Seal.{
  IsXkey, IsLink, aes_of, encrypt-sizes, length-link_bytes, pefs_key_decrypt-encrypt,
}
use pefs.Hmac.{Sha512, IsSha512}

-- The database without errors of input and output, as db(3) has it: a put with R_NOOVERWRITE stores
-- what is found later and changes no other entry, and an entry that is there stays.
pub record IsDb {D : Type 0} (db : Db D) : Type 0 where
  pub put-new :
      (d : D) (k v : List ℕ)
      → db.get d k ≡ special
      → (d' : D) × (db.put d k v ≡ success d')
        × (db.get d' k ≡ success v)
        × ((j : List ℕ) → j ≢ k → db.get d' j ≡ db.get d j)
  pub put-old : (d : D) (k v u : List ℕ) → db.get d k ≡ success u → db.put d k v ≡ special

new_link-IsLink :
    (random : ℕ) (xk xknext : Xkey) → IsXkey xk → IsXkey xknext → IsLink (new_link random xk xknext)
unfolding new_link
new_link-IsLink random xk xknext h k = record {
  ke_next = record {
    index = omega arith;
    alg = k.alg;
    keybits = k.keybits;
    keyid = k.keyid;
    key = k.key;
  };
  ke_alg = h.alg;
  ke_keybits = h.keybits;
}

-- pefs_key_decrypt reads nothing of the parent but its key.
decrypt-same_key :
    {C R : Type 0} (sha : Sha512 C) (aes : Rijndael R) (xe : Xkeyenc) (p q : Xkey)
    → p.key ≡ q.key
    → pefs_key_decrypt sha aes xe p ≡ pefs_key_decrypt sha aes xe q
unfolding pefs_key_decrypt pefs_key_cipher sealing_key
decrypt-same_key sha aes xe p q e = simp (e) refl

module _ {C R D : Type 0} (sha : Sha512 C) (aes : Rijndael R) (db : Db D) (good : IsSha512 sha)
    (random : ℕ) (mac : List ℕ) (xk xknext : Xkey) where
  abbrev pub blank : Xkeyenc
  blank = record { a = link_bytes (new_link random xk xknext); ke_mac = mac }

  abbrev pub sealed : Xkeyenc
  sealed = (pefs_key_encrypt sha aes blank xk).1

  no_error : (pefs_key_encrypt sha aes blank xk).0 ≡ 0
  unfolding pefs_key_encrypt pefs_key_cipher
  no_error = refl

  -- What pefs_keychain_set answers, by what the database answers.
  pub set-new :
      (d d' : D)
      → db.put d xk.keyid (xkeyenc_bytes sealed) ≡ success d'
      → pefs_keychain_set sha aes db random mac (some d) xk xknext ≡ (0, some d')
  unfolding pefs_keychain_set put_result
  set-new d d' e = rw (no_error, e) refl

  set-old :
      (d : D)
      → db.put d xk.keyid (xkeyenc_bytes sealed) ≡ special
      → pefs_keychain_set sha aes db random mac (some d) xk xknext ≡ (err_exist, some d)
  unfolding pefs_keychain_set put_result
  set-old d e = rw (no_error, e) refl

  module _ (blocks : MakesBlocks aes (aes_of sha aes xk)) (h : IsXkey xk) (k : IsXkey xknext) where
    blank-IsLink : IsLink (new_link random xk xknext)
    blank-IsLink = new_link-IsLink random xk xknext h k

    sealed-sizes : (length sealed.a ≡ 92) × (length sealed.ke_mac ≡ 32)
    sealed-sizes =
        let (text, check) = encrypt-sizes sha aes good blank xk blocks in
        (text ∙ length-link_bytes (new_link random xk xknext) blank-IsLink, check)

    bytes_back : bytes_xkeyenc (xkeyenc_bytes sealed) ≡ sealed
    unfolding bytes_xkeyenc xkeyenc_bytes
    bytes_back = λ i. record {
      a = take-append_exact 92 sealed.a sealed.ke_mac sealed-sizes.0 i;
      ke_mac = drop-append_exact 92 sealed.a sealed.ke_mac sealed-sizes.0 i;
    }

    size_ok : length (xkeyenc_bytes sealed) ≡ 124
    unfolding xkeyenc_bytes
    size_ok = omega (arith, length-append sealed.a sealed.ke_mac, sealed-sizes.0, sealed-sizes.1)

    -- What is found under the key opens as the link, with the key or with another that has its bytes.
    pub sealed-Stored :
        (d : D) (p : Xkey)
        → db.get d p.keyid ≡ success (xkeyenc_bytes sealed)
        → p.key ≡ xk.key
        → Stored sha aes db d p (new_link random xk xknext)
    sealed-Stored d p found same =
        let opened = pefs_key_decrypt sha aes sealed xk in
        let (z, ok, link, mac_same) =
          pefs_key_decrypt-encrypt sha aes (new_link random xk xknext) mac xk good blocks
            blank-IsLink in
        record {
          bytes = xkeyenc_bytes sealed;
          ke = opened.1;
          at = found;
          size = size_ok;
          opens =
              ap (λ (xe : Xkeyenc). pefs_key_decrypt sha aes xe p) bytes_back
              ∙ (decrypt-same_key sha aes sealed p xk same ∙ (λ i. (ok i, opened.1)));
          holds = link;
        }

-- A key chain that is set is read again. Over a database with no entry for either key, and for keys
-- whose fields fit their places and a next key with an algorithm: pefs_keychain_set succeeds; then
-- pefs_keychain_get with PEFS_KEYCHAIN_USE gives the key and the next one, its index 2^32 - 1, from
-- two rounds on; and another pefs_keychain_set for the key returns PEFS_ERR_EXIST and changes
-- nothing. SHA-512 may be given its text in pieces and has digests of 64 bytes, AES makes blocks of
-- 16 bytes, and the database works without errors.
pub pefs_keychain_get-set :
    {C R D : Type 0} (sha : Sha512 C) (aes : Rijndael R) (db : Db D) (d : D)
    → (random random' fuel : ℕ) (mac mac' : List ℕ) (xk xknext other : Xkey) → IsSha512 sha
    → MakesBlocks aes (aes_of sha aes xk)
    → IsDb db
    → IsXkey xk
    → IsXkey xknext
    → xknext.alg ≢ 0
    → xknext.keyid ≢ xk.keyid
    → db.get d xk.keyid ≡ special
    → db.get d xknext.keyid ≡ special
    → let used : Flags = record { keychain_use = true; ignore_missing = false } in
      let next : Xkey = record xknext { index = 2 ^ 32 - 1 } in
      (d' : D) × (pefs_keychain_set sha aes db random mac (some d) xk xknext ≡ (0, some d'))
      × (pefs_keychain_get sha aes db (2 + fuel) used (some d') xk ≡ some (0, xk ∷ next ∷ []))
      × (pefs_keychain_set sha aes db random' mac' (some d') xk other ≡ (err_exist, some d'))
pefs_keychain_get-set sha aes db d random random' fuel mac mac' xk xknext other good blocks works h
      k named_alg apart empty empty_next =
    let sealed_xk = sealed sha aes db good random mac xk xknext in
    let (d', put, found, others) = works.put-new d xk.keyid (xkeyenc_bytes sealed_xk) empty in
    let next : Xkey = record xknext { index = 2 ^ 32 - 1 } in
    let link = new_link random xk xknext in
    let stored = sealed-Stored sha aes db good random mac xk xknext blocks h k d' xk found refl in
    let last : db.get d' xknext.keyid ≡ special = others xknext.keyid apart ∙ empty_next in
    let chain : Chained sha aes db d' xk (xk ∷ next ∷ []) =
      unfold new_link in links xk link (next ∷ []) stored named_alg (ends next last) in
    let used : Flags = record { keychain_use = true; ignore_missing = false } in
    let read =
      pefs_keychain_get_lem sha aes db d' (2 + fuel) used xk (xk ∷ next ∷ []) (inl refl) chain
        (omega arith) in
    let full =
      works.put-old d' xk.keyid (xkeyenc_bytes (sealed sha aes db good random' mac' xk other))
        (xkeyenc_bytes sealed_xk) found in
    (
      d',
      set-new sha aes db good random mac xk xknext d d' put,
      read ∙ (rw found refl),
      set-old sha aes db good random' mac' xk other d' full,
    )
