-- ===== src/Tests/Keys.antt =====
-- The key list of a mount.
use pefs.Base.{
  ℕ, ◌<◌, ◌≡◌, ◌≢◌, ◌⊎◌, inl, inr, refl, ap, Option, none, some, List, [], ◌∷◌, ◌++◌, arith, get_or,
}
use pefs.Base.Int.{pos}
use pefs.Crypto.{Key, IsKey}
use pefs.Crypto.Keyring.{
  eexist, added, pefs_key_add, pefs_key_lookup, pefs_key_remove, pefs_key_remove_all, same_keyid,
  same_data_ctx, insert_after,
}
use pefs.Verify.{crypto_verify_bytes}
use pefs.Crypto.Keyring.Invariant.{Apart, IsRing, Refused, pefs_key_add_lem, pefs_key_add-IsRing}
use pefs.Crypto.Keyring.Lookup.{
  pefs_key_remove_lem, pefs_key_remove-others, pefs_key_remove_all_lem, Dropped,
}
use pefs.Tests.Fixtures.{key_of, ring}

key_of-IsKey : (i : ℕ) → i < 256 → IsKey 1 (key_of i)
key_of-IsKey i h = record {
  keyid_length = refl;
  keyid_bytes = omega arith;
  ctx_length = refl;
  ctx_bytes = omega arith;
}

key_of-Apart : (i j : ℕ) → i ≢ j → Apart (key_of i) (key_of j)
key_of-Apart i j h = record {
  ptr = h;
  keyid = λ e. h (ap (λ (l : List ℕ). get_or l 0 0) e);
  data_ctx = λ e. h (ap (λ (l : List ℕ). get_or l 0 0) e);
}

ring-IsRing : IsRing 1 ring
ring-IsRing = (
  key_of-IsKey 2 (omega arith),
  (key_of-Apart 2 1 (omega arith), tt),
  (key_of-IsKey 1 (omega arith), tt, tt),
)

pefs_key_add_lem_example :
    (Refused (pos 1) (key_of 3) ring × (pefs_key_add ring (pos 1) (key_of 3) ≡ eexist))
    ⊎ ((¬ Refused (pos 1) (key_of 3) ring)
        × (pefs_key_add ring (pos 1) (key_of 3) ≡ added (ring ++ key_of 3 ∷ [])))
pefs_key_add_lem_example =
    pefs_key_add_lem 1 ring (pos 1) (key_of 3) ring-IsRing (key_of-IsKey 3 (omega arith))

three : pefs_key_add ring (pos 1) (key_of 3) ≡ added (ring ++ key_of 3 ∷ [])
unfolding pefs_key_add same_keyid crypto_verify_bytes same_data_ctx insert_after
three = refl

pefs_key_add-IsRing_example : IsRing 1 (ring ++ key_of 3 ∷ [])
pefs_key_add-IsRing_example =
    pefs_key_add-IsRing 1 ring (ring ++ key_of 3 ∷ []) (pos 1) (key_of 3) ring-IsRing
      (key_of-IsKey 3 (omega arith)) (omega arith, (omega arith, tt)) three

pefs_key_remove_lem_example :
    (pefs_key_lookup (pefs_key_remove ring (key_of 1)).0 (key_of 1).keyid ≡ none)
    × IsRing 1 (pefs_key_remove ring (key_of 1)).0
pefs_key_remove_lem_example = pefs_key_remove_lem 1 ring (key_of 1) ring-IsRing (inr (inl refl))

pefs_key_remove-others_example :
    pefs_key_lookup (pefs_key_remove ring (key_of 1)).0 (key_of 2).keyid ≡ some (key_of 2)
pefs_key_remove-others_example =
    pefs_key_remove-others 1 ring (key_of 1) (key_of 2) ring-IsRing (inl refl) (omega arith)

pefs_key_remove_all_lem_example :
    let keys = record (key_of 1) { refcnt = 3 } ∷ key_of 2 ∷ [] in
    (left : List (Option Key)) × (pefs_key_remove_all keys ≡ (2, [], left)) × Dropped keys left
pefs_key_remove_all_lem_example =
    pefs_key_remove_all_lem (record (key_of 1) { refcnt = 3 } ∷ key_of 2 ∷ []) (omega arith)
