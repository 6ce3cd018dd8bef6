-- ===== src/Ctl/Chain/Loop.antt =====
-- A key chain that leads back to its own key, in sbin/pefs/pefs_keychain.c.
use pefs.Base.{ℕ, zero, suc, ◌≡◌, ◌≢◌, refl, ap, ◌∙◌, true, none, some, List, [], ◌∷◌}
use pefs.Ctl.{Xkey}
use pefs.Ctl.Chain.{
  success, special, Db, Flags, xkeyenc_bytes, loop_detected, get_loop, get_answer, new_link,
  pefs_keychain_get_db, pefs_keychain_get, pefs_keychain_set,
}
use pefs.Ctl.Chain.Read.{step}
use pefs.Ctl.Chain.Store.{IsDb, sealed, sealed-Stored, set-new}
use pefs.Ctl.Key.{Rijndael}
use pefs.Ctl.Key.Counter.{MakesBlocks}
use pefs.Ctl.Key.Seal.{IsXkey, aes_of}
use pefs.Hmac.{Sha512, IsSha512}
use pefs.Verify.{crypto_verify_bytes_refl}

module _ {C R D : Type 0} (sha : Sha512 C) (aes : Rijndael R) (db : Db D) (good : IsSha512 sha)
    (random : ℕ) (mac : List ℕ) (xk : Xkey) (blocks : MakesBlocks aes (aes_of sha aes xk))
    (h : IsXkey xk) (named_alg : xk.alg ≢ 0) (d : D)
    (found : db.get d xk.keyid
      ≡ success (xkeyenc_bytes (sealed sha aes db good random mac xk xk))) where
  round_again :
      (fuel : ℕ) (older : List Xkey) (p : Xkey) (w : ℕ)
      → p.keyid ≡ xk.keyid
      → p.key ≡ xk.key
      → get_loop sha aes db fuel d older p w ≡ none
  round_again zero older p w same_id same_key = unfold get_loop in refl
  round_again (suc fuel) older p w same_id same_key =
      let at = ap (db.get d) same_id ∙ found in
      let s = sealed-Stored sha aes db good random mac xk xk blocks h h d p at same_key in
      step sha aes db d fuel older p (new_link random xk xk) w s (unfold new_link in named_alg)
      ∙ round_again fuel _ _ _ (unfold new_link in refl) (unfold new_link in refl)

  get-never :
      (fuel : ℕ) (flags : Flags)
      → flags.keychain_use ≡ true
      → pefs_keychain_get sha aes db fuel flags (some d) xk ≡ none
  unfolding pefs_keychain_get pefs_keychain_get_db get_answer
  get-never fuel flags e = rw (e, round_again fuel [] xk 0 refl refl) refl

-- A key that is set as its own next key is never read: pefs_keychain_set stores it, and then
-- pefs_keychain_get with PEFS_KEYCHAIN_USE has not returned after any number of rounds, although the
-- scan of its second round finds the loop. The key's fields fit their places, it has an algorithm and
-- no entry before, SHA-512 may be given its text in pieces and has digests of 64 bytes, AES makes
-- blocks of 16 bytes, and the database works without errors.
pub pefs_keychain_get_never :
    {C R D : Type 0} (sha : Sha512 C) (aes : Rijndael R) (db : Db D) (d : D)
    → (random : ℕ) (mac : List ℕ) (xk : Xkey) (flags : Flags) → IsSha512 sha
    → MakesBlocks aes (aes_of sha aes xk)
    → IsDb db
    → IsXkey xk
    → xk.alg ≢ 0
    → flags.keychain_use ≡ true
    → db.get d xk.keyid ≡ special
    → (d' : D) × (pefs_keychain_set sha aes db random mac (some d) xk xk ≡ (0, some d'))
      × ((fuel : ℕ) → pefs_keychain_get sha aes db fuel flags (some d') xk ≡ none)
      × (loop_detected (xk ∷ []) xk ≡ true)
unfolding loop_detected
pefs_keychain_get_never sha aes db d random mac xk flags good blocks works h named_alg asked empty =
    let (d', put, found, others) =
      works.put-new d xk.keyid (xkeyenc_bytes (sealed sha aes db good random mac xk xk)) empty in
    (
      d',
      set-new sha aes db good random mac xk xk d d' put,
      λ fuel. get-never sha aes db good random mac xk blocks h named_alg d' found fuel flags asked,
      rw (crypto_verify_bytes_refl xk.keyid) refl,
    )
