-- ===== src/Dircache/Insert.antt =====
-- pefs_dircache_insert and the searches behind it.
use pefs.Base.{
  ℕ, ◌+◌, ◌%◌, ◌^◌, ◌≡◌, inl, inr, refl, sym, ◌∙◌, false, some, List, ==_refl, Bool-cases,
  some_pair, some-ne-none, arith,
}
use pefs.Crypto.{Tkey}
use pefs.Dircache.{
  Cache, Hashing, Found, fault, missing, found, scan, pefs_dircache_lookup, pefs_dircache_enclookup,
  pefs_dircache_insert, invalid_lengths, link_entry, new_entry,
}
use pefs.Dircache.Lookup.{
  encname_test, encname_bucket, enclookup-scan, insert-at, insert-invalid, linked, linked-enclookup,
  linked-lookup,
}

module _ (hashing : Hashing) (c : Cache) (fresh : ℕ) (ptk : Tkey) (name encname : List ℕ) where
  enclookup-insert_at :
      (s : Found) (c' : Cache) (p : ℕ)
      → invalid_lengths name encname ≡ false
      → scan c.memory (encname_test hashing c encname) (encname_bucket hashing c encname) ≡ s
      → pefs_dircache_insert hashing c fresh ptk name encname ≡ some (c', p)
      → (pefs_dircache_enclookup hashing c' encname).1 ≡ found p
  enclookup-insert_at fault c' p valid e h =
      absurd (some-ne-none (sym h ∙ insert-at hashing c fresh ptk name encname fault valid e))
  enclookup-insert_at missing c' p valid e h =
      let (same_cache, same) =
        some_pair (sym h ∙ insert-at hashing c fresh ptk name encname missing valid e) in
      rw (same_cache, same) (linked-enclookup hashing c fresh ptk name encname)
  enclookup-insert_at (found q) c' p valid e h =
      let (same_cache, same) =
        some_pair (sym h ∙ insert-at hashing c fresh ptk name encname (found q) valid e) in
      rw (same_cache, same) (enclookup-scan hashing c encname ∙ e)

-- After an insertion that returns, whether it made an entry or found one, a search for the encrypted
-- name finds the entry that was returned.
pub pefs_dircache_enclookup-insert :
    (hashing : Hashing) (c : Cache) (fresh : ℕ) (ptk : Tkey) (name encname : List ℕ) (c' : Cache)
    (p : ℕ)
    → pefs_dircache_insert hashing c fresh ptk name encname ≡ some (c', p)
    → (pefs_dircache_enclookup hashing c' encname).1 ≡ found p
pefs_dircache_enclookup-insert hashing c fresh ptk name encname c' p h =
    elim (Bool-cases (invalid_lengths name encname)) [
      | inl bad ↦ absurd (ground (arith, insert-invalid hashing c fresh ptk name encname bad))
      | inr valid ↦ enclookup-insert_at hashing c fresh ptk name encname _ c' p valid refl h
    ]

-- With names of valid lengths, of which the encrypted one is not in the cache, the insertion makes an
-- entry that both searches find, adds one to the count of entries, which wraps at 2^64, and takes one
-- reference of its key.
pub pefs_dircache_insert_lem :
    (hashing : Hashing) (c : Cache) (fresh : ℕ) (ptk : Tkey) (name encname : List ℕ)
    → invalid_lengths name encname ≡ false
    → (pefs_dircache_enclookup hashing c encname).1 ≡ missing
    → (c' : Cache) × (pefs_dircache_insert hashing c fresh ptk name encname ≡ some (c', fresh))
      × ((pefs_dircache_lookup hashing c' name).1 ≡ found fresh)
      × ((pefs_dircache_enclookup hashing c' encname).1 ≡ found fresh)
      × (c'.entries ≡ (c.entries + 1) % 2 ^ 64)
      × (c'.refs ptk.key.ptr ≡ c.refs ptk.key.ptr + 1)
unfolding link_entry new_entry
pefs_dircache_insert_lem hashing c fresh ptk name encname valid absent =
    let free = sym (enclookup-scan hashing c encname) ∙ absent in
    (
      linked hashing c fresh ptk name encname,
      insert-at hashing c fresh ptk name encname missing valid free,
      linked-lookup hashing c fresh ptk name encname,
      linked-enclookup hashing c fresh ptk name encname,
      refl,
      rw (==_refl ptk.key.ptr) refl,
    )
