-- ===== src/Dircache/Reads.antt =====
-- Insertions and searches keep the invariant, and no search reads freed memory.
use pefs.Base.{
  ℕ, zero, suc, ◌+◌, bit_and, ◌≡◌, ◌≢◌, inl, inr, refl, sym, ◌∙◌, subst, Bool, false, ◌&&◌, Option,
  none, some, List, ◌∷◌, ◌==◌, ==_iff, Bool-cases, Option-cases, some_pair, some-ne-none, All,
}
use pefs.Crypto.{Tkey}
use pefs.Dircache.{
  Entry, Cache, Hashing, put, bucket_of, dircache_hashname, Found, fault, missing, found, scan,
  is_dir, pefs_dircache_insert, link_entry, new_entry, invalid_lengths,
}
use pefs.Dircache.Invariant.{
  IsActive, IsStale, InBucket, namehash, encnamehash, IsSlot, IsCache, All-put_fresh, fresh-absent,
  IsSlot-put,
}
use pefs.Dircache.Lookup.{encname_test, encname_bucket, insert-at, insert-invalid, linked}
use pefs.Dircache.Search.{put_here, Holds}
use pefs.Dircache.{
  pefs_dircache_lookup, pefs_dircache_enclookup, pefs_dircache_lookup_retry,
  pefs_dircache_enclookup_retry, lookup_in, retry_scan, dircache_retry_set, dircache_cmp_name,
  dircache_cmp_encname,
}
use pefs.Base.Bytes.{bytes_eq}
use pefs.Dircache.Lookup.{name_test, name_bucket, lookup-scan, enclookup-scan}
use pefs.Dircache.Search.{scan-found, scan-safe}

table-linked :
    (hashing : Hashing) (hash : Entry → ℕ) (memory : ℕ → Option Entry) (table : ℕ → List ℕ) (p : ℕ)
    (e : Entry) (i : ℕ)
    → memory p ≡ none
    → e.dir ≢ none
    → ((k : ℕ) → All (Holds memory (InBucket hashing hash k)) (table k))
    → All
        (Holds (put memory p (some e)) (InBucket hashing hash i))
        (put table (bucket_of hashing (hash e)) (p ∷ table (bucket_of hashing (hash e))) i)
table-linked hashing hash memory table p e i free live h =
    let j = bucket_of hashing (hash e) in
    elim (Bool-cases (i == j)) [
      | inl here ↦
          let same : i ≡ j = (==_iff i j).0 here in
          rw here (
            record { entry = e; there = put_here memory p (some e); good = (live, sym same) },
            subst
                (λ (k : ℕ). All (Holds (put memory p (some e)) (InBucket hashing hash k)) (table j))
                (sym same)
                (All-put_fresh memory (InBucket hashing hash j) p (some e) (table j) free (h j)),
          )
      | inr elsewhere ↦
          rw elsewhere
            (All-put_fresh memory (InBucket hashing hash i) p (some e) (table i) free (h i))
    ]

linked-IsCache :
    (hashing : Hashing) (c : Cache) (fresh : ℕ) (ptk : Tkey) (name encname : List ℕ)
    → IsCache hashing c
    → c.memory fresh ≡ none
    → IsCache hashing (linked hashing c fresh ptk name encname)
unfolding link_entry new_entry
linked-IsCache hashing c fresh ptk name encname h free =
    let e = new_entry hashing c ptk name encname in
    record {
      active = (
        record { entry = e; there = put_here c.memory fresh (some e); good = refl },
        All-put_fresh c.memory (IsActive c.pd) fresh (some e) c.activehead free h.active,
      );
      stale = All-put_fresh c.memory IsStale fresh (some e) c.stalehead free h.stale;
      distinct = h.distinct;
      distinct_active = (
        fresh-absent c.memory (IsActive c.pd) fresh c.activehead free h.active,
        h.distinct_active,
      );
      tbl = λ i. table-linked hashing namehash c.memory c.tbl fresh e i free some-ne-none h.tbl;
      enctbl = λ i.
          table-linked hashing encnamehash c.memory c.enctbl fresh e i free some-ne-none h.enctbl;
      slots = λ i. IsSlot-put c.memory fresh e (c.retry i) (h.slots i);
    }

insert-at_IsCache :
    (hashing : Hashing) (c : Cache) (fresh : ℕ) (ptk : Tkey) (name encname : List ℕ) (s : Found)
    (c' : Cache) (p : ℕ)
    → IsCache hashing c
    → c.memory fresh ≡ none
    → invalid_lengths name encname ≡ false
    → scan c.memory (encname_test hashing c encname) (encname_bucket hashing c encname) ≡ s
    → pefs_dircache_insert hashing c fresh ptk name encname ≡ some (c', p)
    → IsCache hashing c'
insert-at_IsCache hashing c fresh ptk name encname fault c' p h free valid e ran =
    absurd (some-ne-none (sym ran ∙ insert-at hashing c fresh ptk name encname fault valid e))
insert-at_IsCache hashing c fresh ptk name encname missing c' p h free valid e ran =
    let (same, q) =
      some_pair (sym ran ∙ insert-at hashing c fresh ptk name encname missing valid e) in
    subst (IsCache hashing) (sym same) (linked-IsCache hashing c fresh ptk name encname h free)
insert-at_IsCache hashing c fresh ptk name encname (found q) c' p h free valid e ran =
    let (same, r) =
      some_pair (sym ran ∙ insert-at hashing c fresh ptk name encname (found q) valid e) in
    subst (IsCache hashing) (sym same) h

-- An insertion into a well-formed cache, at an address that was free, leaves a well-formed cache.
pub pefs_dircache_insert-IsCache :
    (hashing : Hashing) (c : Cache) (fresh : ℕ) (ptk : Tkey) (name encname : List ℕ) (c' : Cache)
    (p : ℕ)
    → IsCache hashing c
    → c.memory fresh ≡ none
    → pefs_dircache_insert hashing c fresh ptk name encname ≡ some (c', p)
    → IsCache hashing c'
pefs_dircache_insert-IsCache hashing c fresh ptk name encname c' p h free ran =
    elim (Bool-cases (invalid_lengths name encname)) [
      | inl bad ↦
          absurd (some-ne-none (sym ran ∙ insert-invalid hashing c fresh ptk name encname bad))
      | inr valid ↦ insert-at_IsCache hashing c fresh ptk name encname _ c' p h free valid refl ran
    ]

retry_set-IsCache :
    (hashing : Hashing) (c : Cache) (p : ℕ) (e : Entry)
    → IsCache hashing c
    → c.memory p ≡ some e
    → IsCache hashing (dircache_retry_set c p e)
unfolding dircache_retry_set
retry_set-IsCache hashing c p e h there =
    let k = bit_and e.encnamehash 3 in
    record {
      active = h.active;
      stale = h.stale;
      distinct = h.distinct;
      distinct_active = h.distinct_active;
      tbl = h.tbl;
      enctbl = h.enctbl;
      slots = λ i. elim (Bool-cases (i == k)) [
        | inl here ↦ rw here (record { entry = e; there = there; good = tt })
        | inr elsewhere ↦ rw elsewhere (h.slots i)
      ];
    }

lookup_in-IsCache :
    (hashing : Hashing) (c : Cache) (test : Entry → Bool) (bucket : List ℕ) (s : Found)
    → IsCache hashing c
    → scan c.memory (λ pde. is_dir pde.dir c.pd && test pde) bucket ≡ s
    → IsCache hashing (lookup_in c test bucket).0
unfolding lookup_in
lookup_in-IsCache hashing c test bucket fault h e = rw (e, lookup_in) h
lookup_in-IsCache hashing c test bucket missing h e = rw (e, lookup_in) h
lookup_in-IsCache hashing c test bucket (found p) h e =
    let f = scan-found c.memory (λ pde. is_dir pde.dir c.pd && test pde) bucket p e in
    rw (e, lookup_in) (rw (f.there, lookup_in) (retry_set-IsCache hashing c p f.entry h f.there))

retry_scan-safe :
    (c : Cache) (test : Entry → Bool) (left i : ℕ)
    → ((k : ℕ) → IsSlot c.memory (c.retry k))
    → retry_scan c test left i ≢ fault
unfolding retry_scan
retry_scan-safe c test zero i h = λ e. cc
retry_scan-safe c test (suc left) i h =
    let rest = retry_scan-safe c test left (i + 1) h in
    elim (Option-cases (c.retry i)) [
      | inl empty ↦ rw (empty, retry_scan) rest
      | inr (p, slot) ↦
          let held = subst (IsSlot c.memory) slot (h i) in
          rw (slot, retry_scan)
            (rw (held.there, retry_scan)
              (elim (Bool-cases (is_dir held.entry.dir c.pd && test held.entry)) [
                | inl hit ↦ rw (hit, retry_scan) (λ e. cc)
                | inr miss ↦ rw (miss, retry_scan) rest
              ]))
    ]

-- The four searches of a well-formed cache read no freed memory, and the two that set a retry slot
-- leave a well-formed cache.
pub pefs_dircache_lookup-safe :
    (hashing : Hashing) (c : Cache) (name : List ℕ)
    → IsCache hashing c
    → ((pefs_dircache_lookup hashing c name).1 ≢ fault)
      × ((pefs_dircache_enclookup hashing c name).1 ≢ fault)
      × (pefs_dircache_lookup_retry c name ≢ fault)
      × (pefs_dircache_enclookup_retry c name ≢ fault)
      × IsCache hashing (pefs_dircache_lookup hashing c name).0
      × IsCache hashing (pefs_dircache_enclookup hashing c name).0
unfolding pefs_dircache_lookup pefs_dircache_enclookup pefs_dircache_lookup_retry
    pefs_dircache_enclookup_retry
pefs_dircache_lookup-safe hashing c name h =
    let i = bucket_of hashing (dircache_hashname hashing c.pd name) in
    (
      λ e.
          scan-safe c.memory (name_test hashing c name) (name_bucket hashing c name)
            (InBucket hashing namehash i) (h.tbl i) (sym (lookup-scan hashing c name) ∙ e),
      λ e.
          scan-safe c.memory (encname_test hashing c name) (encname_bucket hashing c name)
            (InBucket hashing encnamehash i) (h.enctbl i) (sym (enclookup-scan hashing c name) ∙ e),
      retry_scan-safe c (λ pde. bytes_eq pde.name name) 4 0 h.slots,
      retry_scan-safe c (λ pde. bytes_eq pde.encname name) 4 0 h.slots,
      lookup_in-IsCache hashing c
          (λ pde. dircache_cmp_name pde (dircache_hashname hashing c.pd name) name)
          (name_bucket hashing c name) _ h refl,
      lookup_in-IsCache hashing c
          (λ pde. dircache_cmp_encname pde (dircache_hashname hashing c.pd name) name)
          (encname_bucket hashing c name) _ h refl,
    )
