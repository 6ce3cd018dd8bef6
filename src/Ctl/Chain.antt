-- ===== src/Ctl/Chain.antt =====
-- Key chains, sbin/pefs/pefs_keychain.c: keys that stand in a database under the key before them.
pub mod Read
pub mod Store
pub mod Loop
use pefs.Base.{
  ℕ, zero, suc, ◌+◌, ◌-◌, ◌%◌, ◌^◌, Bool, true, false, not, ◌&&◌, Option, none, some, List, [], ◌∷◌,
  ◌++◌, length, take, drop, reverse, ◌==◌, if◌then◌else◌,
}
use pefs.Ctl.{
  Xkey, Xkeyenc, Link, err_invalid, err_sys, err_noent, err_exist, alg_invalid, keyenc_mac_size,
}
use pefs.Ctl.Key.{Rijndael, link_bytes, bytes_link, pefs_key_encrypt, pefs_key_decrypt}
use pefs.Hmac.{Sha512}
use pefs.Verify.{crypto_verify_bytes}

-- What a call of the database answers: the return values 0, 1 and -1 of db(3).
pub data Answer (A : Type 0) : Type 0 where
  success : A → Answer A
  special : Answer A
  failure : Answer A

-- The database library, over its state: get, put with R_NOOVERWRITE, and del.
pub record Db (D : Type 0) : Type 0 where
  pub get : D → List ℕ → Answer (List ℕ)
  pub put : D → List ℕ → List ℕ → Answer D
  pub del : D → List ℕ → Answer D

-- The flags of a request.
pub record Flags : Type 0 where
  pub keychain_use : Bool
  pub ignore_missing : Bool

-- The sizes of the structure `a` and of `struct pefs_xkeyenc`.
abbrev pub a_size : ℕ
a_size = 92

abbrev pub xkeyenc_size : ℕ
xkeyenc_size = 124

unfoldable pub xkeyenc_bytes : Xkeyenc → List ℕ
xkeyenc_bytes ke = ke.a ++ ke.ke_mac

unfoldable pub bytes_xkeyenc : List ℕ → Xkeyenc
bytes_xkeyenc b = record { a = take a_size b; ke_mac = drop a_size b }

-- The scan for a key with the parent's identifier among the keys before it.
unfoldable pub loop_detected : List Xkey → Xkey → Bool
loop_detected [] parent = false
loop_detected (kc ∷ older) parent =
    if crypto_verify_bytes kc.keyid parent.keyid == 0 then true else loop_detected older parent

-- What a reading of a chain leaves: the error, the list of keys, and how many loops it warned of.
pub record Reading : Type 0 where
  pub error : ℕ
  pub kch : List Xkey
  pub warnings : ℕ

abbrev pub no_keys : List Xkey → Bool
no_keys [] = true
no_keys (kc ∷ older) = false

-- `older` holds the keys before the last one, the newest first.
unfoldable pub break_with : ℕ → List Xkey → Xkey → ℕ → Reading
break_with error older kc_parent warnings = record {
  error = error;
  kch = reverse (kc_parent ∷ older);
  warnings = warnings;
}

-- `if (TAILQ_FIRST(kch) != kc_parent) error = 0;`.
unfoldable pub get_failed : ℕ → List Xkey → ℕ
get_failed error older = if no_keys older then error else 0

-- A round of the loop up to its `break`, or the parent and the next key. pefs_alg_name returns no
-- null pointer, so that its tests are not there; calloc succeeds.
pub data Round : Type 0 where
  stop : ℕ → Xkey → Round
  onward : Xkey → Xkey → Round

unfoldable pub follow : Xkey → Link → Round
follow kc_parent a =
    let parent : Xkey = record kc_parent { alg = a.ke_alg; keybits = a.ke_keybits } in
    let next : Xkey = a.ke_next in
    if next.alg == alg_invalid
    then stop 0 parent
    else onward parent (record next { index = 2 ^ 32 - 1 })

unfoldable pub opened_link : Xkey → ℕ × Xkeyenc → Round
unfolding follow
opened_link kc_parent (zero, ke) = follow kc_parent (bytes_link ke.a)
opened_link kc_parent (suc e, ke) = stop (suc e) kc_parent

unfoldable pub get_result : Flags → Reading → ℕ × List Xkey
get_result flags r =
    if not (r.error == 0) && flags.keychain_use then (err_noent, []) else (0, r.kch)

unfoldable pub get_answer : Flags → Option Reading → Option (ℕ × List Xkey)
unfolding get_result
get_answer flags none = none
get_answer flags (some r) = some (get_result flags r)

-- The structure that is stored; `random` is what random(3) returns.
unfoldable pub new_link : ℕ → Xkey → Xkey → Link
new_link random xk xknext = record {
  ke_next = record xknext { index = random % 2 ^ 32 };
  ke_alg = xk.alg;
  ke_keybits = xk.keybits;
}

module _ {D : Type 0} where
  unfoldable pub put_result : D → Answer D → ℕ × D
  put_result d (success d') = (0, d')
  put_result d special = (err_exist, d)
  put_result d failure = (err_sys, d)

  unfoldable pub del_result : Flags → D → Answer D → ℕ × D
  del_result flags d (success d') = (0, d')
  del_result flags d special = if flags.ignore_missing then (0, d) else (err_noent, d)
  del_result flags d failure = (err_sys, d)

module _ {C R D : Type 0} (sha : Sha512 C) (aes : Rijndael R) (db : Db D) where
  unfoldable pub round : List Xkey → Xkey → Answer (List ℕ) → Round
  unfolding get_failed opened_link
  round older kc_parent failure = stop (get_failed err_sys older) kc_parent
  round older kc_parent special = stop (get_failed 1 older) kc_parent
  round older kc_parent (success b) =
      if not (length b == xkeyenc_size)
      then stop err_invalid kc_parent
      else opened_link kc_parent (pefs_key_decrypt sha aes (bytes_xkeyenc b) kc_parent)

  -- `while (1)` on fuel; nothing when the fuel is not enough. The error of the scan for a loop is
  -- overwritten by the call of the database, so that only its warning is left.
  unfoldable pub get_loop : ℕ → D → List Xkey → Xkey → ℕ → Option Reading
  unfolding round break_with loop_detected
  get_loop zero d older kc_parent warnings = none
  get_loop (suc fuel) d older kc_parent warnings =
      let warnings' = if loop_detected older kc_parent then warnings + 1 else warnings in
      elim (round older kc_parent (db.get d kc_parent.keyid)) [
        | stop error parent ↦ some (break_with error older parent warnings')
        | onward parent next ↦ get_loop fuel d (parent ∷ older) next warnings'
      ]

  unfoldable pub pefs_keychain_get_db : ℕ → D → Xkey → Option Reading
  unfolding get_loop
  pefs_keychain_get_db fuel d xk = get_loop fuel d [] xk 0

  -- `opened` is what keychain_dbopen returns; pefs_keychain_free empties the list.
  unfoldable pub pefs_keychain_get : ℕ → Flags → Option D → Xkey → Option (ℕ × List Xkey)
  unfolding pefs_keychain_get_db get_answer
  pefs_keychain_get fuel flags opened xk =
      if not flags.keychain_use && not flags.ignore_missing
      then some (0, xk ∷ [])
      else elim opened [
        | none ↦ if flags.ignore_missing then some (0, xk ∷ []) else some (err_noent, [])
        | some d ↦ get_answer flags (pefs_keychain_get_db fuel d xk)
      ]

  -- The checksum of the structure is not initialized before pefs_key_encrypt: `mac`. The result holds
  -- the database, which is nothing when it could not be opened.
  unfoldable pub pefs_keychain_set : ℕ → List ℕ → Option D → Xkey → Xkey → ℕ × Option D
  unfolding new_link put_result
  pefs_keychain_set random mac opened xk xknext =
      let ke0 : Xkeyenc = record { a = link_bytes (new_link random xk xknext); ke_mac = mac } in
      let (error, ke) = pefs_key_encrypt sha aes ke0 xk in
      if not (error == 0) then (err_invalid, opened) else elim opened [
        | none ↦ (err_invalid, none)
        | some d ↦
            let (error', d') = put_result d (db.put d xk.keyid (xkeyenc_bytes ke)) in
            (error', some d')
      ]

  -- Without the database the C function returns -1, here `none`.
  unfoldable pub pefs_keychain_del : Flags → Option D → Xkey → Option (ℕ × D)
  unfolding del_result
  pefs_keychain_del flags none xk = none
  pefs_keychain_del flags (some d) xk = some (del_result flags d (db.del d xk.keyid))
