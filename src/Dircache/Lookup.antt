-- ===== src/Dircache/Lookup.antt =====
-- What the searches find after an insertion and after an expiration.
use pefs.Base.{
  ℕ, ◌≡◌, refl, ◌∙◌, ap, Bool, true, false, ◌&&◌, Option, none, some, List, ◌∷◌, ==_refl,
}
use pefs.Base.Bytes.{bytes_eq_refl}
use pefs.Crypto.{Tkey}
use pefs.Dircache.{
  Entry, Cache, Hashing, put, Found, fault, missing, found, scan, is_dir, dircache_cmp_name,
  dircache_cmp_encname, dircache_hashname, bucket_of, lookup_in, pefs_dircache_lookup,
  pefs_dircache_enclookup, pefs_dircache_insert, new_entry, link_entry, invalid_lengths,
}
use pefs.Dircache.Search.{put_here, scan-found, scan_hit}

abbrev pub name_test : Hashing → Cache → List ℕ → Entry → Bool
name_test hashing c name pde =
    is_dir pde.dir c.pd && dircache_cmp_name pde (dircache_hashname hashing c.pd name) name

abbrev pub encname_test : Hashing → Cache → List ℕ → Entry → Bool
encname_test hashing c encname pde =
    is_dir pde.dir c.pd && dircache_cmp_encname pde (dircache_hashname hashing c.pd encname) encname

abbrev pub name_bucket : Hashing → Cache → List ℕ → List ℕ
name_bucket hashing c name = c.tbl (bucket_of hashing (dircache_hashname hashing c.pd name))

abbrev pub encname_bucket : Hashing → Cache → List ℕ → List ℕ
encname_bucket hashing c encname =
    c.enctbl (bucket_of hashing (dircache_hashname hashing c.pd encname))

-- The result of a lookup is that of its search.
lookup_in-at :
    (c : Cache) (test : Entry → Bool) (bucket : List ℕ) (s : Found)
    → scan c.memory (λ pde. is_dir pde.dir c.pd && test pde) bucket ≡ s
    → (lookup_in c test bucket).1 ≡ s
unfolding lookup_in
lookup_in-at c test bucket fault e = rw (e, lookup_in) refl
lookup_in-at c test bucket missing e = rw (e, lookup_in) refl
lookup_in-at c test bucket (found p) e =
    let f = scan-found c.memory (λ pde. is_dir pde.dir c.pd && test pde) bucket p e in
    rw (e, lookup_in) (rw (f.there, lookup_in) refl)

pub lookup-scan :
    (hashing : Hashing) (c : Cache) (name : List ℕ)
    → (pefs_dircache_lookup hashing c name).1
      ≡ scan c.memory (name_test hashing c name) (name_bucket hashing c name)
unfolding pefs_dircache_lookup
lookup-scan hashing c name =
    lookup_in-at c (λ pde. dircache_cmp_name pde (dircache_hashname hashing c.pd name) name)
      (name_bucket hashing c name) _ refl

pub enclookup-scan :
    (hashing : Hashing) (c : Cache) (encname : List ℕ)
    → (pefs_dircache_enclookup hashing c encname).1
      ≡ scan c.memory (encname_test hashing c encname) (encname_bucket hashing c encname)
unfolding pefs_dircache_enclookup
enclookup-scan hashing c encname =
    lookup_in-at c
      (λ pde. dircache_cmp_encname pde (dircache_hashname hashing c.pd encname) encname)
      (encname_bucket hashing c encname) _ refl

-- pefs_dircache_insert as a result of its search.
pub insert-at :
    (hashing : Hashing) (c : Cache) (fresh : ℕ) (ptk : Tkey) (name encname : List ℕ) (s : Found)
    → invalid_lengths name encname ≡ false
    → scan c.memory (encname_test hashing c encname) (encname_bucket hashing c encname) ≡ s
    → pefs_dircache_insert hashing c fresh ptk name encname ≡ elim s as (λ _. Option (Cache × ℕ)) [
      | fault ↦ none
      | missing ↦ some (link_entry hashing c fresh (new_entry hashing c ptk name encname), fresh)
      | found p ↦ some (c, p)
    ]
unfolding pefs_dircache_insert new_entry
insert-at hashing c fresh ptk name encname fault valid e =
    rw (valid, pefs_dircache_insert) (rw (e, pefs_dircache_insert) refl)
insert-at hashing c fresh ptk name encname missing valid e =
    rw (valid, pefs_dircache_insert) (rw (e, pefs_dircache_insert) refl)
insert-at hashing c fresh ptk name encname (found p) valid e =
    rw (valid, pefs_dircache_insert) (rw (e, pefs_dircache_insert) refl)

pub insert-invalid :
    (hashing : Hashing) (c : Cache) (fresh : ℕ) (ptk : Tkey) (name encname : List ℕ)
    → invalid_lengths name encname ≡ true
    → pefs_dircache_insert hashing c fresh ptk name encname ≡ none
unfolding pefs_dircache_insert
insert-invalid hashing c fresh ptk name encname e = rw (e, pefs_dircache_insert) refl

module _ (hashing : Hashing) (c : Cache) (fresh : ℕ) (ptk : Tkey) (name encname : List ℕ) where
  abbrev pub linked : Cache
  linked = link_entry hashing c fresh (new_entry hashing c ptk name encname)

  pub linked-enclookup : (pefs_dircache_enclookup hashing linked encname).1 ≡ found fresh
  unfolding link_entry new_entry dircache_cmp_encname is_dir
  linked-enclookup =
      let pde = new_entry hashing c ptk name encname in
      let j = bucket_of hashing pde.encnamehash in
      let bucket : put c.enctbl j (fresh ∷ c.enctbl j) j ≡ fresh ∷ c.enctbl j =
        put_here c.enctbl j (fresh ∷ c.enctbl j) in
      let there : put c.memory fresh (some pde) fresh ≡ some pde =
        put_here c.memory fresh (some pde) in
      let hit : encname_test hashing c encname pde ≡ true =
        rw (==_refl c.pd, ==_refl (dircache_hashname hashing c.pd encname), bytes_eq_refl encname)
          refl in
      enclookup-scan hashing linked encname
      ∙ (ap (scan (put c.memory fresh (some pde)) (encname_test hashing c encname)) bucket
          ∙ scan_hit (put c.memory fresh (some pde)) (encname_test hashing c encname) fresh
              (c.enctbl j) pde there hit)

  pub linked-lookup : (pefs_dircache_lookup hashing linked name).1 ≡ found fresh
  unfolding link_entry new_entry dircache_cmp_name is_dir
  linked-lookup =
      let pde = new_entry hashing c ptk name encname in
      let i = bucket_of hashing pde.namehash in
      let bucket : put c.tbl i (fresh ∷ c.tbl i) i ≡ fresh ∷ c.tbl i =
        put_here c.tbl i (fresh ∷ c.tbl i) in
      let there : put c.memory fresh (some pde) fresh ≡ some pde =
        put_here c.memory fresh (some pde) in
      let hit : name_test hashing c name pde ≡ true =
        rw (==_refl c.pd, ==_refl (dircache_hashname hashing c.pd name), bytes_eq_refl name) refl in
      lookup-scan hashing linked name
      ∙ (ap (scan (put c.memory fresh (some pde)) (name_test hashing c name)) bucket
          ∙ scan_hit (put c.memory fresh (some pde)) (name_test hashing c name) fresh (c.tbl i) pde
              there hit)
