-- ===== src/Crypto/Keyring.antt =====
-- The keys of a mount, `pm_keys`, in their order, and the operations of pefs_crypto.c on them. The
-- calling thread holds `pm_keys_lock`, so that each operation is one step.
pub mod Invariant
pub mod Lookup
use pefs.Base.{
  ℕ, zero, suc, ◌+◌, ◌-◌, Bool, true, false, ◌&&◌, ◌||◌, Option, none, some, List, [], ◌∷◌, ◌++◌,
  ◌==◌, if◌then◌else◌, not, length,
}
use pefs.Base.Int.{ℤ, is_nat}
use pefs.Crypto.{Key}
use pefs.Verify.{crypto_verify_bytes}

abbrev pub Ring : Type 0
Ring = List Key

-- pefs_key_ref, and pefs_key_release of a key that is not null: `none` is a key that was freed,
-- its contexts with it.
unfoldable pub pefs_key_ref : Key → Key
pefs_key_ref pk = record pk { refcnt = pk.refcnt + 1 }

unfoldable pub pefs_key_release : Key → Option Key
pefs_key_release pk = if pk.refcnt == 1 then none else some (record pk { refcnt = pk.refcnt - 1 })

unfoldable pub same_keyid : Key → Key → Bool
same_keyid a b = crypto_verify_bytes a.keyid b.keyid == 0

unfoldable pub same_data_ctx : Key → Key → Bool
same_data_ctx a b = crypto_verify_bytes a.data_ctx b.data_ctx == 0

unfoldable pub pefs_key_lookup : Ring → List ℕ → Option Key
pefs_key_lookup [] keyid = none
pefs_key_lookup (pk ∷ keys) keyid =
    if crypto_verify_bytes pk.keyid keyid == 0 then some pk else pefs_key_lookup keys keyid

-- The two results of pefs_key_add; on an error the list is as it was.
pub data Added : Type 0 where
  eexist : Added
  added : Ring → Added

-- TAILQ_FOREACH over the list. `pos` starts at zero and is never advanced; pk_pos is the last
-- element at which `index == pos + 1` held. The outer `none` is the return of EEXIST.
unfoldable pub add_scan : ℤ → Key → ℕ → Ring → Option ℕ → Option (Option ℕ)
add_scan index pk pos [] pk_pos = some pk_pos
add_scan index pk pos (i ∷ keys) pk_pos =
    if same_keyid pk i || same_data_ctx pk i
    then none
    else add_scan index pk pos keys (if is_nat index (pos + 1) then some i.ptr else pk_pos)

-- TAILQ_INSERT_AFTER.
unfoldable pub insert_after : ℕ → Key → Ring → Ring
insert_after p pk [] = []
insert_after p pk (i ∷ keys) = if i.ptr == p then i ∷ pk ∷ keys else i ∷ insert_after p pk keys

abbrev pub is_empty : Ring → Bool
is_empty [] = true
is_empty (k ∷ ks) = false

unfoldable pub add_insert : Key → Ring → Option ℕ → Ring
add_insert pk [] pk_pos = pk ∷ []
add_insert pk (i ∷ keys) none = (i ∷ keys) ++ pk ∷ []
add_insert pk (i ∷ keys) (some p) = insert_after p pk (i ∷ keys)

unfoldable pub pefs_key_add : Ring → ℤ → Key → Added
unfolding add_scan add_insert
pefs_key_add keys index pk =
    if is_nat index 0 && not (is_empty keys) then eexist else elim (add_scan index pk 0 keys none) [
      | none ↦ eexist
      | some pk_pos ↦ added (add_insert pk keys pk_pos)
    ]

-- TAILQ_REMOVE of the element at an address.
unfoldable pub unlink : ℕ → Ring → Ring
unlink p [] = []
unlink p (i ∷ keys) = if i.ptr == p then keys else i ∷ unlink p keys

-- The list without the key, and what is left of the key when the list's reference is dropped.
unfoldable pub pefs_key_remove : Ring → Key → Ring × Option Key
unfolding unlink pefs_key_release
pefs_key_remove keys pk = (unlink pk.ptr keys, pefs_key_release pk)

-- `while (!TAILQ_EMPTY)`, on fuel; the number of keys is enough. The result is the number of
-- keys removed, the list, and what is left of the keys.
unfoldable pub remove_all_loop : ℕ → ℕ → Ring → List (Option Key) → ℕ × Ring × List (Option Key)
unfolding pefs_key_remove
remove_all_loop zero n keys left = (n, keys, left)
remove_all_loop (suc fuel) n [] left = (n, [], left)
remove_all_loop (suc fuel) n (pk ∷ keys) left =
    let r = pefs_key_remove (pk ∷ keys) pk in remove_all_loop fuel (n + 1) r.0 (left ++ r.1 ∷ [])

unfoldable pub pefs_key_remove_all : Ring → ℕ × Ring × List (Option Key)
unfolding remove_all_loop
pefs_key_remove_all keys = remove_all_loop (length keys) 0 keys []

-- pefs_rootkey.
unfoldable pub pefs_rootkey : Ring → Option Key
pefs_rootkey [] = none
pefs_rootkey (pk ∷ keys) = some pk
