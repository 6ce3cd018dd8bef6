-- ===== src/Tests/Caches.antt =====
-- A directory's cache with two entries.
use pefs.Base.{ℕ, ◌+◌, ◌%◌, ◌^◌, ◌≡◌, ◌≢◌, refl, sym, ◌∙◌, false, none, some, List, [], ◌∷◌, arith}
use pefs.Dircache.{
  Entry, Cache, Hashing, found, missing, fault, scan, pefs_dircache_lookup, pefs_dircache_enclookup,
  pefs_dircache_lookup_retry, pefs_dircache_enclookup_retry, pefs_dircache_insert,
  pefs_dircache_expire, pefs_dircache_gc, pefs_dircache_purge, pefs_dircache_valid,
  pefs_dircache_create, pefs_dircache_pool_init, link_entry, new_entry,
}
use pefs.Dircache.Expire.{outdated, expire-eq, pefs_dircache_expire_lem}
use pefs.Dircache.Insert.{pefs_dircache_insert_lem, pefs_dircache_enclookup-insert}
use pefs.Dircache.Invariant.{IsCache}
use pefs.Dircache.Lookup.{enclookup-scan, insert-at, linked-lookup, linked-enclookup}
use pefs.Dircache.Others.{pefs_dircache_expire-others}
use pefs.Dircache.Safety.{pefs_dircache_purge_lem}
use pefs.Dircache.Steps.{Reach, here, next, insert, pefs_dircache_never_faults}
use pefs.Tests.Fixtures.{home}

abbrev hashing : Hashing
hashing = record { hashmask = 3; hashinit = 5381; hash32_buf = λ buf h. 0 }

abbrev unused : Cache
unused = record {
  memory = λ p. none;
  tbl = λ i. 9 ∷ [];
  enctbl = λ i. 9 ∷ [];
  refs = λ k. 0;
  entries = 0;
  pd = 0;
  activehead = [];
  stalehead = [];
  gen = 5;
  retry = λ i. some 9;
}

abbrev empty : Cache
empty = pefs_dircache_create (pefs_dircache_pool_init unused) 100

abbrev names : List ℕ
names = 1 ∷ []

abbrev encnames : List ℕ
encnames = 2 ∷ 3 ∷ []

-- The cache with one entry at 7, and with another at 8.
abbrev first : Entry
first = new_entry hashing empty home names encnames

abbrev one : Cache
one = link_entry hashing empty 7 first

abbrev two : Cache
two = link_entry hashing one 8 (new_entry hashing one home encnames names)

nothing_yet : (pefs_dircache_enclookup hashing empty encnames).1 ≡ missing
unfolding pefs_dircache_create pefs_dircache_pool_init scan
nothing_yet = enclookup-scan hashing empty encnames

inserted : pefs_dircache_insert hashing empty 7 home names encnames ≡ some (one, 7)
inserted =
    insert-at hashing empty 7 home names encnames missing refl
      (sym (enclookup-scan hashing empty encnames) ∙ nothing_yet)

pefs_dircache_insert_lem_example :
    (c' : Cache) × (pefs_dircache_insert hashing empty 7 home names encnames ≡ some (c', 7))
    × ((pefs_dircache_lookup hashing c' names).1 ≡ found 7)
    × ((pefs_dircache_enclookup hashing c' encnames).1 ≡ found 7)
    × (c'.entries ≡ (empty.entries + 1) % 2 ^ 64)
    × (c'.refs 1 ≡ empty.refs 1 + 1)
pefs_dircache_insert_lem_example =
    pefs_dircache_insert_lem hashing empty 7 home names encnames refl nothing_yet

pefs_dircache_enclookup-insert_example : (pefs_dircache_enclookup hashing one encnames).1 ≡ found 7
pefs_dircache_enclookup-insert_example =
    pefs_dircache_enclookup-insert hashing empty 7 home names encnames one 7 inserted

first_there : one.memory 7 ≡ some first
unfolding link_entry
first_there = refl

first_lives : first.dir ≡ some 100
unfolding new_entry pefs_dircache_create
first_lives = refl

first_expires : pefs_dircache_expire hashing one 7 false ≡ some (outdated hashing one 7 first)
unfolding link_entry pefs_dircache_create
first_expires = expire-eq hashing one 7 first false first_there first_lives

pefs_dircache_expire_lem_example :
    let c' = outdated hashing one 7 first in
    ((pefs_dircache_lookup hashing c' names).1 ≢ found 7)
    × ((pefs_dircache_enclookup hashing c' names).1 ≢ found 7)
    × (pefs_dircache_lookup_retry c' names ≡ missing)
    × (pefs_dircache_enclookup_retry c' names ≡ missing)
    × (pefs_dircache_valid c' 5 ≡ false)
unfolding link_entry pefs_dircache_create
pefs_dircache_expire_lem_example =
    pefs_dircache_expire_lem hashing one 7 first false (outdated hashing one 7 first) names 5
      first_there first_lives first_expires

first_there_two : two.memory 7 ≡ some first
unfolding link_entry
first_there_two = refl

pefs_dircache_expire-others_example :
    let c' = outdated hashing two 7 first in
    ((pefs_dircache_lookup hashing c' encnames).1 ≡ found 8)
    × ((pefs_dircache_enclookup hashing c' names).1 ≡ found 8)
unfolding link_entry pefs_dircache_create
pefs_dircache_expire-others_example =
    pefs_dircache_expire-others hashing two 7 first 100 (outdated hashing two 7 first) encnames
      names 8 8 first_there_two first_lives
      (expire-eq hashing two 7 first false first_there_two first_lives)
      (linked-lookup hashing one 8 home encnames names) (omega arith)
      (linked-enclookup hashing one 8 home encnames names) (omega arith)

reached : Reach hashing empty one
unfolding pefs_dircache_create pefs_dircache_pool_init
reached = next here (insert 7 home names encnames 7 refl inserted)

pefs_dircache_never_faults_example :
    IsCache hashing one
    × ((pefs_dircache_lookup hashing one names).1 ≢ fault)
    × ((pefs_dircache_enclookup hashing one names).1 ≢ fault)
    × (pefs_dircache_lookup_retry one names ≢ fault)
    × (pefs_dircache_enclookup_retry one names ≢ fault)
    × (pefs_dircache_gc one ≢ none)
    × (pefs_dircache_purge hashing one ≢ none)
pefs_dircache_never_faults_example = pefs_dircache_never_faults hashing unused 100 one names reached

one-IsCache : IsCache hashing one
one-IsCache = (pefs_dircache_never_faults hashing unused 100 one names reached).0

pefs_dircache_purge_lem_example :
    (c' : Cache) × (pefs_dircache_purge hashing one ≡ some c')
    × IsCache hashing c'
    × (c'.activehead ≡ [])
    × (c'.stalehead ≡ [])
    × (c'.gen ≡ 0)
pefs_dircache_purge_lem_example = pefs_dircache_purge_lem hashing one one-IsCache
