-- ===== src/Dircache.antt =====
-- sys/fs/pefs/pefs_dircache.c and pefs_dircache.h: the cache of a directory's names, in the clear and
-- encrypted. Memory is a map from addresses to entries, so that a list that still holds the address
-- of freed memory shows. The mutexes are not modelled: every operation is one step.
pub mod Search
pub mod Lookup
pub mod Insert
pub mod Expire
pub mod Others
pub mod Invariant
pub mod Safety
pub mod Reads
pub mod Steps
use pefs.Base.{
  ℕ, zero, suc, ◌+◌, ◌-◌, ◌*◌, ◌/◌, ◌%◌, ◌^◌, bit_and, bit_xor, Bool, true, false, not, ◌&&◌, ◌||◌,
  Option, none, some, List, [], ◌∷◌, length, ltb, leb, ◌==◌, if◌then◌else◌,
}
use pefs.Base.Bytes.{bytes_eq}
use pefs.Crypto.{Tkey}

-- A map from addresses or indices, changed at one place.
abbrev pub put {ℓ} : {A : Type ℓ} → (ℕ → A) → ℕ → A → ℕ → A
put f p a q = if q == p then a else f q

-- `struct pefs_dircache_entry` without its list links. `dir` is pde_dircache, which is null once the
-- entry is stale; a name and its length are one list.
pub record Entry : Type 0 where
  pub dir : Option ℕ
  pub tkey : Tkey
  pub namehash : ℕ
  pub encnamehash : ℕ
  pub name : List ℕ
  pub encname : List ℕ

-- The allocated entries, the pool's two hash tables, the references of the keys by the keys'
-- addresses, dircache_entries, which is a u_long of 64 bits, and the fields of the directory that the operations are on. Other
-- directories share the tables. pd_retry has four slots.
pub record Cache : Type 0 where
  pub memory : ℕ → Option Entry
  pub tbl : ℕ → List ℕ
  pub enctbl : ℕ → List ℕ
  pub refs : ℕ → ℕ
  pub entries : ℕ
  pub pd : ℕ
  pub activehead : List ℕ
  pub stalehead : List ℕ
  pub gen : ℕ
  pub retry : ℕ → Option ℕ

-- dircache_hashmask, which is one less than a power of two, and the kernel's HASHINIT and hash of a
-- buffer.
pub record Hashing : Type 0 where
  pub hashmask : ℕ
  pub hashinit : ℕ
  pub hash32_buf : List ℕ → ℕ → ℕ

-- pefs_hash_mixptr of pefs.h, with a uintptr_t of 64 bits.
unfoldable pub pefs_hash_mixptr : ℕ → ℕ
pefs_hash_mixptr ptr =
    let h1 = (2 ^ 64 - 1 - ptr % 2 ^ 64 + ptr * 2 ^ 18) % 2 ^ 64 in
    let h2 = bit_xor h1 (h1 / 2 ^ 31) in
    let h3 = h2 * 21 % 2 ^ 64 in
    let h4 = bit_xor h3 (h3 / 2 ^ 11) in
    let h5 = (h4 + h4 * 2 ^ 6) % 2 ^ 64 in bit_xor h5 (h5 / 2 ^ 22) % 2 ^ 32

unfoldable pub dircache_hashname : Hashing → ℕ → List ℕ → ℕ
unfolding pefs_hash_mixptr
dircache_hashname hashing pd buf =
    bit_xor (pefs_hash_mixptr pd) (hashing.hash32_buf buf (hashing.hashinit * length buf % 2 ^ 32))

-- DIRCACHE_TBL and DIRCACHE_ENCTBL: the index of a bucket.
unfoldable pub bucket_of : Hashing → ℕ → ℕ
bucket_of hashing hash = bit_and hash hashing.hashmask

-- LIST_REMOVE of a node, which stands in a list once at most.
unfoldable pub unlink : ℕ → List ℕ → List ℕ
unlink p [] = []
unlink p (q ∷ qs) = if q == p then unlink p qs else q ∷ unlink p qs

unfoldable pub is_dir : Option ℕ → ℕ → Bool
is_dir none pd = false
is_dir (some d) pd = d == pd

unfoldable pub dircache_cmp_name : Entry → ℕ → List ℕ → Bool
dircache_cmp_name pde h name = pde.namehash == h && bytes_eq pde.name name

unfoldable pub dircache_cmp_encname : Entry → ℕ → List ℕ → Bool
dircache_cmp_encname pde h encname = pde.encnamehash == h && bytes_eq pde.encname encname

-- What a search through a list returns; `fault` is a read of freed memory.
pub data Found : Type 0 where
  fault missing : Found
  found : ℕ → Found

-- LIST_FOREACH with a test on the entry.
unfoldable pub scan : (ℕ → Option Entry) → (Entry → Bool) → List ℕ → Found
scan memory test [] = missing
scan memory test (p ∷ ps) = elim (memory p) [
  | none ↦ fault
  | some pde ↦ elim (test pde) [ true ↦ found p | false ↦ scan memory test ps ]
]

abbrev pub retry_count : ℕ
retry_count = 4

unfoldable pub dircache_retry_set : Cache → ℕ → Entry → Cache
dircache_retry_set c p pde = record c {
  retry = put c.retry (bit_and pde.encnamehash (retry_count - 1)) (some p);
}

unfoldable pub dircache_retry_clear : Cache → Cache
dircache_retry_clear c = record c { retry = λ i. none }

-- A search for an entry of this directory, and the retry slot that it sets when it finds one.
unfoldable pub lookup_in : Cache → (Entry → Bool) → List ℕ → Cache × Found
unfolding dircache_retry_set
lookup_in c test bucket = elim (scan c.memory (λ pde. is_dir pde.dir c.pd && test pde) bucket) [
  | fault ↦ (c, fault)
  | missing ↦ (c, missing)
  | found p ↦ elim (c.memory p) [
    | none ↦ (c, fault)
    | some pde ↦ (dircache_retry_set c p pde, found p)
  ]
]

unfoldable pub pefs_dircache_lookup : Hashing → Cache → List ℕ → Cache × Found
unfolding lookup_in
pefs_dircache_lookup hashing c name =
    let h = dircache_hashname hashing c.pd name in
    lookup_in c (λ pde. dircache_cmp_name pde h name) (c.tbl (bucket_of hashing h))

unfoldable pub pefs_dircache_enclookup : Hashing → Cache → List ℕ → Cache × Found
unfolding lookup_in
pefs_dircache_enclookup hashing c encname =
    let h = dircache_hashname hashing c.pd encname in
    lookup_in c (λ pde. dircache_cmp_encname pde h encname) (c.enctbl (bucket_of hashing h))

-- `for (i = 0; i < PEFS_DIRCACHE_RETRY_COUNT; i++)`, over the slots that are left.
unfoldable pub retry_scan : Cache → (Entry → Bool) → ℕ → ℕ → Found
retry_scan c test zero i = missing
retry_scan c test (suc left) i =
    let rest = retry_scan c test left (i + 1) in
    elim (c.retry i) [
      | none ↦ rest
      | some p ↦ elim (c.memory p) [
        | none ↦ fault
        | some pde ↦ elim (is_dir pde.dir c.pd && test pde) [ true ↦ found p | false ↦ rest ]
      ]
    ]

unfoldable pub pefs_dircache_lookup_retry : Cache → List ℕ → Found
unfolding retry_scan
pefs_dircache_lookup_retry c name = retry_scan c (λ pde. bytes_eq pde.name name) retry_count 0

unfoldable pub pefs_dircache_enclookup_retry : Cache → List ℕ → Found
unfolding retry_scan
pefs_dircache_enclookup_retry c encname =
    retry_scan c (λ pde. bytes_eq pde.encname encname) retry_count 0

-- dircache_entry_free: the key's reference, the list, the count and the memory. `none` is a read of
-- freed memory.
unfoldable pub dircache_entry_free : Cache → ℕ → Option Cache
dircache_entry_free c p = elim (c.memory p) [
  | none ↦ none
  | some pde ↦
      let k = pde.tkey.key.ptr in
      some (record c {
        refs = put c.refs k (c.refs k - 1);
        stalehead = unlink p c.stalehead;
        entries = (c.entries + (2 ^ 64 - 1)) % 2 ^ 64;
        memory = put c.memory p none;
      })
]

-- LIST_FOREACH_SAFE over the nodes that stood in the list.
unfoldable pub free_all : List ℕ → Cache → Option Cache
free_all [] c = some c
free_all (p ∷ ps) c = elim (dircache_entry_free c p) [ none ↦ none | some c' ↦ free_all ps c' ]

unfoldable pub dircache_gc_locked : Cache → Option Cache
unfolding free_all
dircache_gc_locked c = free_all c.stalehead c

-- The entry's directory is the one at hand.
unfoldable pub dircache_entry_expire_locked : Hashing → Cache → ℕ → Option Cache
dircache_entry_expire_locked hashing c p = elim (c.memory p) [
  | none ↦ none
  | some pde ↦
      let i = bucket_of hashing pde.namehash in
      let j = bucket_of hashing pde.encnamehash in
      some (record c {
        memory = put c.memory p (some (record pde { dir = none }));
        activehead = unlink p c.activehead;
        stalehead = p ∷ unlink p c.stalehead;
        tbl = put c.tbl i (unlink p (c.tbl i));
        enctbl = put c.enctbl j (unlink p (c.enctbl j));
      })
]

unfoldable pub expire_all : Hashing → List ℕ → Cache → Option Cache
expire_all hashing [] c = some c
expire_all hashing (p ∷ ps) c = elim (dircache_entry_expire_locked hashing c p) [
  | none ↦ none
  | some c' ↦ expire_all hashing ps c'
]

unfoldable pub pefs_dircache_gc : Cache → Option Cache
unfolding dircache_retry_clear dircache_gc_locked
pefs_dircache_gc c = dircache_gc_locked (dircache_retry_clear c)

unfoldable pub pefs_dircache_purge : Hashing → Cache → Option Cache
unfolding expire_all pefs_dircache_gc
pefs_dircache_purge hashing c = elim (expire_all hashing c.activehead (record c { gen = 0 })) [
  | none ↦ none
  | some c' ↦ pefs_dircache_gc c'
]

-- dircache_entry_expire_locked of an entry of another directory, whose own fields and lists are not
-- in the state: the entry and the shared tables change.
unfoldable pub expire_elsewhere : Hashing → Cache → ℕ → Entry → Cache
expire_elsewhere hashing c p pde =
    let i = bucket_of hashing pde.namehash in
    let j = bucket_of hashing pde.encnamehash in
    record c {
      memory = put c.memory p (some (record pde { dir = none }));
      tbl = put c.tbl i (unlink p (c.tbl i));
      enctbl = put c.enctbl j (unlink p (c.enctbl j));
    }

-- pefs_dircache_expire of any entry; PEFS_DF_FORCE_GC asks for the collection. The generation, the
-- retry slots and the lists that it changes are those of the entry's directory. `none` is a read of
-- freed memory, or a collection in another directory, whose list is not in the state.
unfoldable pub pefs_dircache_expire : Hashing → Cache → ℕ → Bool → Option Cache
unfolding dircache_retry_clear dircache_entry_expire_locked dircache_gc_locked expire_elsewhere
pefs_dircache_expire hashing c p force_gc = elim (c.memory p) [
  | none ↦ none
  | some pde ↦ elim pde.dir [
    | none ↦ some c
    | some pd ↦ elim (pd == c.pd) [
      | false ↦ if force_gc then none else some (expire_elsewhere hashing c p pde)
      | true ↦
          elim (dircache_entry_expire_locked hashing (dircache_retry_clear (record c { gen = 0 }))
            p) [ none ↦ none | some c' ↦ if force_gc then dircache_gc_locked c' else some c' ]
    ]
  ]
]

unfoldable pub pefs_dircache_expire_encname : Hashing → Cache → List ℕ → Bool → Option Cache
unfolding pefs_dircache_expire pefs_dircache_enclookup pefs_dircache_enclookup_retry
pefs_dircache_expire_encname hashing c encname force_gc =
    elim (pefs_dircache_enclookup_retry c encname) [
      | fault ↦ none
      | found p ↦ pefs_dircache_expire hashing c p force_gc
      | missing ↦
          let (c', r) = pefs_dircache_enclookup hashing c encname in
          elim r [
            | fault ↦ none
            | missing ↦ some c'
            | found p ↦ pefs_dircache_expire hashing c' p force_gc
          ]
    ]

-- sizeof(pde_name) and sizeof(pde_encname).
abbrev pub name_size : ℕ
name_size = 255 * 3 / 4 + 1

abbrev pub encname_size : ℕ
encname_size = 255 + 1

abbrev pub invalid_lengths : List ℕ → List ℕ → Bool
invalid_lengths name encname =
    (length name == 0 || leb name_size (length name))
    || (length encname == 0 || leb encname_size (length encname))

-- The new entry, which uma_zalloc puts at the address `fresh`.
unfoldable pub new_entry : Hashing → Cache → Tkey → List ℕ → List ℕ → Entry
new_entry hashing c ptk name encname = record {
  dir = some c.pd;
  tkey = ptk;
  namehash = dircache_hashname hashing c.pd name;
  encnamehash = dircache_hashname hashing c.pd encname;
  name = name;
  encname = encname;
}

-- The entry in all its lists, and the reference that it keeps of its key.
unfoldable pub link_entry : Hashing → Cache → ℕ → Entry → Cache
link_entry hashing c fresh pde =
    let i = bucket_of hashing pde.namehash in
    let j = bucket_of hashing pde.encnamehash in
    let k = pde.tkey.key.ptr in
    record c {
      memory = put c.memory fresh (some pde);
      refs = put c.refs k (c.refs k + 1);
      enctbl = put c.enctbl j (fresh ∷ c.enctbl j);
      tbl = put c.tbl i (fresh ∷ c.tbl i);
      activehead = fresh ∷ c.activehead;
      entries = (c.entries + 1) % 2 ^ 64;
    }

-- The entry that is returned, which on a collision is the one that is there: the reference and the
-- memory of the new one are given back. `none` is a panic or a read of freed memory.
unfoldable pub pefs_dircache_insert :
    Hashing → Cache → ℕ → Tkey → List ℕ → List ℕ → Option (Cache × ℕ)
unfolding new_entry link_entry
pefs_dircache_insert hashing c fresh ptk name encname =
    let pde = new_entry hashing c ptk name encname in
    let bucket = c.enctbl (bucket_of hashing pde.encnamehash) in
    let test =
      λ (xpde : Entry). is_dir xpde.dir c.pd && dircache_cmp_encname xpde pde.encnamehash encname in
    if invalid_lengths name encname then none else elim (scan c.memory test bucket) [
      | fault ↦ none
      | found p ↦ some (c, p)
      | missing ↦ some (link_entry hashing c fresh pde, fresh)
    ]

-- The empty hash tables.
unfoldable pub pefs_dircache_pool_init : Cache → Cache
pefs_dircache_pool_init c = record c { tbl = λ i. []; enctbl = λ i. [] }

-- No entries, and no generation.
unfoldable pub pefs_dircache_create : Cache → ℕ → Cache
pefs_dircache_create c pd = record c {
  pd = pd;
  activehead = [];
  stalehead = [];
  gen = 0;
  retry = λ i. none;
}

unfoldable pub pefs_dircache_valid : Cache → ℕ → Bool
pefs_dircache_valid c gen = if gen == 0 then false else gen == c.gen

unfoldable pub pefs_dircache_endupdate : Cache → ℕ → Cache
pefs_dircache_endupdate c gen = record c { gen = gen }
