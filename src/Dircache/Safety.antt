-- ===== src/Dircache/Safety.antt =====
-- The operations keep the invariant, and none of them reads freed memory.
use pefs.Base.{
  ℕ, ◌≡◌, ◌≢◌, inl, inr, refl, sym, ◌∙◌, ap, subst, Bool, true, false, Option, none, some, List, [],
  ◌∷◌, ◌==◌, ==_iff, Bool-cases, some-ne-none, All, arith,
}
use pefs.Dircache.{
  Entry, Cache, Hashing, put, unlink, bucket_of, dircache_retry_clear, free_all, dircache_gc_locked,
  expire_all, pefs_dircache_gc, pefs_dircache_purge, pefs_dircache_expire,
}
use pefs.Dircache.Expire.{freed, free_all_cons, expired, expire_locked-eq, outdated, expire-eq}
use pefs.Dircache.Invariant.{
  IsActive, IsStale, InBucket, namehash, encnamehash, Distinct, IsSlot, IsCache, All-put_ne,
  All-unlink, unlink-gone, unlink-Distinct, unlink-head, IsSlot-put,
}
use pefs.Dircache.Search.{put_here, Holds}

-- A bucket of a table when `p`, which stood in the bucket `j`, has become stale.
table-expired :
    (hashing : Hashing) (hash : Entry → ℕ) (memory : ℕ → Option Entry) (table : ℕ → List ℕ) (p : ℕ)
    (e : Entry) (a : Option Entry) (i : ℕ)
    → memory p ≡ some e
    → ((k : ℕ) → All (Holds memory (InBucket hashing hash k)) (table k))
    → All
        (Holds (put memory p a) (InBucket hashing hash i))
        (put table (bucket_of hashing (hash e)) (unlink p (table (bucket_of hashing (hash e)))) i)
table-expired hashing hash memory table p e a i there h =
    let j = bucket_of hashing (hash e) in
    elim (Bool-cases (i == j)) [
      | inl here ↦
          let same : i ≡ j = (==_iff i j).0 here in
          rw here (
            subst
              (λ (k : ℕ).
                All (Holds (put memory p a) (InBucket hashing hash k)) (unlink p (table j)))
              (sym same) (All-unlink memory (InBucket hashing hash j) p a (table j) (h j)))
      | inr elsewhere ↦
          let other : j ≢ i = ground arith in
          rw elsewhere (
            All-put_ne memory (InBucket hashing hash i) p a e (table i) there (λ b. other b.1)
              (h i))
    ]

expired-IsCache :
    (hashing : Hashing) (c : Cache) (p : ℕ) (e : Entry)
    → IsCache hashing c
    → c.memory p ≡ some e
    → IsCache hashing (expired hashing c p e)
expired-IsCache hashing c p e h there =
    let a : Option Entry = some (record e { dir = none }) in
    record {
      active = All-unlink c.memory (IsActive c.pd) p a c.activehead h.active;
      stale = (
        record { entry = record e { dir = none }; there = put_here c.memory p a; good = refl },
        All-unlink c.memory IsStale p a c.stalehead h.stale,
      );
      distinct = (unlink-gone p c.stalehead, unlink-Distinct p c.stalehead h.distinct);
      distinct_active = unlink-Distinct p c.activehead h.distinct_active;
      tbl = λ i. table-expired hashing namehash c.memory c.tbl p e a i there h.tbl;
      enctbl = λ i. table-expired hashing encnamehash c.memory c.enctbl p e a i there h.enctbl;
      slots = λ i. IsSlot-put c.memory p (record e { dir = none }) (c.retry i) (h.slots i);
    }

-- Freeing a stale entry when no slot holds an address.
freed-IsCache :
    (hashing : Hashing) (c : Cache) (p : ℕ) (e : Entry)
    → IsCache hashing c
    → c.memory p ≡ some e
    → e.dir ≡ none
    → ((i : ℕ) → c.retry i ≡ none)
    → IsCache hashing (freed c p e)
freed-IsCache hashing c p e h there stale empty =
    let not_active : ¬ IsActive c.pd e = λ live. some-ne-none (sym live ∙ stale) in
    record {
      active = All-put_ne c.memory (IsActive c.pd) p none e c.activehead there not_active h.active;
      stale = All-unlink c.memory IsStale p none c.stalehead h.stale;
      distinct = unlink-Distinct p c.stalehead h.distinct;
      distinct_active = h.distinct_active;
      tbl = λ i.
          All-put_ne c.memory (InBucket hashing namehash i) p none e (c.tbl i) there
            (λ b. b.0 stale) (h.tbl i);
      enctbl = λ i.
          All-put_ne c.memory (InBucket hashing encnamehash i) p none e (c.enctbl i) there
            (λ b. b.0 stale) (h.enctbl i);
      slots = λ i. subst (IsSlot (put c.memory p none)) (sym (empty i)) tt;
    }

-- A collection from a cache without slots.
pub record Collects (hashing : Hashing) (c c' : Cache) : Type 0 where
  pub is_cache : IsCache hashing c'
  pub no_stale : c'.stalehead ≡ []
  pub same_active : c'.activehead ≡ c.activehead
  pub same_gen : c'.gen ≡ c.gen

free_all-Collects :
    (hashing : Hashing) (ps : List ℕ) (c : Cache)
    → IsCache hashing c
    → c.stalehead ≡ ps
    → ((i : ℕ) → c.retry i ≡ none)
    → (c' : Cache) × (free_all ps c ≡ some c') × Collects hashing c c'
unfolding free_all
free_all-Collects hashing [] c h e empty =
    (c, refl, record { is_cache = h; no_stale = e; same_active = refl; same_gen = refl })
free_all-Collects hashing (p ∷ ps) c h e empty =
    let stale = subst (All (Holds c.memory IsStale)) e h.stale in
    let distinct = subst Distinct e h.distinct in
    let x = stale.0.entry in
    let there : c.memory p ≡ some x = stale.0.there in
    let rest : unlink p c.stalehead ≡ ps = ap (unlink p) e ∙ unlink-head p ps distinct.0 in
    let (c', ran, done) =
      free_all-Collects hashing ps (freed c p x)
        (freed-IsCache hashing c p x h there stale.0.good empty) rest empty in
    (
      c',
      free_all_cons p ps c x there ∙ ran,
      record {
        is_cache = done.is_cache;
        no_stale = done.no_stale;
        same_active = done.same_active;
        same_gen = done.same_gen;
      },
    )

cleared-IsCache :
    (hashing : Hashing) (c : Cache) (gen : ℕ)
    → IsCache hashing c
    → IsCache hashing (record c { gen = gen; retry = λ i. none })
cleared-IsCache hashing c gen h = record {
  active = h.active;
  stale = h.stale;
  distinct = h.distinct;
  distinct_active = h.distinct_active;
  tbl = h.tbl;
  enctbl = h.enctbl;
  slots = λ i. tt;
}

-- pefs_dircache_gc of a well-formed cache reads no freed memory; it leaves no stale entry and all the
-- active ones, in a well-formed cache.
pub pefs_dircache_gc_lem :
    (hashing : Hashing) (c : Cache)
    → IsCache hashing c
    → (c' : Cache) × (pefs_dircache_gc c ≡ some c')
      × IsCache hashing c'
      × (c'.stalehead ≡ [])
      × (c'.activehead ≡ c.activehead)
unfolding pefs_dircache_gc dircache_retry_clear dircache_gc_locked
pefs_dircache_gc_lem hashing c h =
    let (c', ran, done) =
      free_all-Collects hashing c.stalehead (record c { retry = λ i. none })
        (cleared-IsCache hashing c c.gen h) refl (λ i. refl) in
    (c', ran, done.is_cache, done.no_stale, done.same_active)

-- pefs_dircache_expire of an entry of the directory, with or without a collection, reads no freed
-- memory and leaves a well-formed cache.
pub pefs_dircache_expire-IsCache :
    (hashing : Hashing) (c : Cache) (p : ℕ) (e : Entry) (force_gc : Bool)
    → IsCache hashing c
    → c.memory p ≡ some e
    → e.dir ≡ some c.pd
    → (c' : Cache) × (pefs_dircache_expire hashing c p force_gc ≡ some c') × IsCache hashing c'
unfolding dircache_gc_locked
pefs_dircache_expire-IsCache hashing c p e false h there live = (
  outdated hashing c p e,
  expire-eq hashing c p e false there live,
  expired-IsCache hashing (record c { gen = 0; retry = λ i. none }) p e
      (cleared-IsCache hashing c 0 h) there,
)
pefs_dircache_expire-IsCache hashing c p e true h there live =
    let x = outdated hashing c p e in
    let ok =
      expired-IsCache hashing (record c { gen = 0; retry = λ i. none }) p e
        (cleared-IsCache hashing c 0 h) there in
    let (c', ran, done) = free_all-Collects hashing x.stalehead x ok refl (λ i. refl) in
    (c', expire-eq hashing c p e true there live ∙ ran, done.is_cache)

expire_all_cons :
    (hashing : Hashing) (p : ℕ) (ps : List ℕ) (c : Cache) (e : Entry)
    → c.memory p ≡ some e
    → expire_all hashing (p ∷ ps) c ≡ expire_all hashing ps (expired hashing c p e)
unfolding expire_all
expire_all_cons hashing p ps c e h = rw (expire_locked-eq hashing c p e h, expire_all) refl

expire_all-IsCache :
    (hashing : Hashing) (ps : List ℕ) (c : Cache)
    → IsCache hashing c
    → c.activehead ≡ ps
    → (c' : Cache) × (expire_all hashing ps c ≡ some c')
      × IsCache hashing c'
      × (c'.activehead ≡ [])
      × (c'.gen ≡ c.gen)
unfolding expire_all
expire_all-IsCache hashing [] c h e = (c, refl, h, e, refl)
expire_all-IsCache hashing (p ∷ ps) c h e =
    let active = subst (All (Holds c.memory (IsActive c.pd))) e h.active in
    let distinct = subst Distinct e h.distinct_active in
    let x = active.0.entry in
    let there : c.memory p ≡ some x = active.0.there in
    let rest : unlink p c.activehead ≡ ps = ap (unlink p) e ∙ unlink-head p ps distinct.0 in
    let (c', ran, ok, none_active, gen) =
      expire_all-IsCache hashing ps (expired hashing c p x) (expired-IsCache hashing c p x h there)
        rest in
    (c', expire_all_cons hashing p ps c x there ∙ ran, ok, none_active, gen)

-- pefs_dircache_purge of a well-formed cache reads no freed memory, and leaves a well-formed cache of
-- a directory without entries and without a generation.
pub pefs_dircache_purge_lem :
    (hashing : Hashing) (c : Cache)
    → IsCache hashing c
    → (c' : Cache) × (pefs_dircache_purge hashing c ≡ some c')
      × IsCache hashing c'
      × (c'.activehead ≡ [])
      × (c'.stalehead ≡ [])
      × (c'.gen ≡ 0)
unfolding pefs_dircache_purge pefs_dircache_gc dircache_retry_clear dircache_gc_locked
pefs_dircache_purge_lem hashing c h =
    let start = record c { gen = 0 } in
    let ok : IsCache hashing start = record {
      active = h.active;
      stale = h.stale;
      distinct = h.distinct;
      distinct_active = h.distinct_active;
      tbl = h.tbl;
      enctbl = h.enctbl;
      slots = h.slots;
    } in
    let (x, ran, good, empty, gen) = expire_all-IsCache hashing c.activehead start ok refl in
    let (c', collected, done) =
      free_all-Collects hashing x.stalehead (record x { retry = λ i. none })
        (cleared-IsCache hashing x x.gen good) refl (λ i. refl) in
    (
      c',
      rw (ran, pefs_dircache_purge) collected,
      done.is_cache,
      done.same_active ∙ empty,
      done.no_stale,
      done.same_gen ∙ gen,
    )
