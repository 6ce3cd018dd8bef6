-- ===== src/Dircache/Steps.antt =====
-- The life of a directory's cache as steps, each a call of one operation.
use pefs.Base.{ℕ, ◌≡◌, ◌≢◌, sym, ◌∙◌, subst, Bool, none, some, some_inj, some-ne-none, List}
use pefs.Crypto.{Tkey}
use pefs.Dircache.{
  Entry, Cache, Hashing, fault, pefs_dircache_lookup, pefs_dircache_enclookup,
  pefs_dircache_lookup_retry, pefs_dircache_enclookup_retry, pefs_dircache_insert,
  pefs_dircache_expire, pefs_dircache_gc, pefs_dircache_purge, pefs_dircache_endupdate,
  pefs_dircache_create, pefs_dircache_pool_init,
}
use pefs.Dircache.Invariant.{IsCache}
use pefs.Dircache.Reads.{pefs_dircache_insert-IsCache, pefs_dircache_lookup-safe}
use pefs.Dircache.Safety.{
  pefs_dircache_gc_lem, pefs_dircache_expire-IsCache, pefs_dircache_purge_lem,
}

-- New entries come at addresses that are free, and what is expired is an entry of the directory.
pub data Step (hashing : Hashing) (c : Cache) (c' : Cache) : Type 0 where
  lookup : (name : List ℕ) → (pefs_dircache_lookup hashing c name).0 ≡ c' → Step hashing c c'
  enclookup :
      (encname : List ℕ) → (pefs_dircache_enclookup hashing c encname).0 ≡ c' → Step hashing c c'
  insert :
      (fresh : ℕ) (ptk : Tkey) (name encname : List ℕ) (p : ℕ)
      → c.memory fresh ≡ none
      → pefs_dircache_insert hashing c fresh ptk name encname ≡ some (c', p)
      → Step hashing c c'
  expire :
      (p : ℕ) (e : Entry) (force_gc : Bool)
      → c.memory p ≡ some e
      → e.dir ≡ some c.pd
      → pefs_dircache_expire hashing c p force_gc ≡ some c'
      → Step hashing c c'
  gc : pefs_dircache_gc c ≡ some c' → Step hashing c c'
  purge : pefs_dircache_purge hashing c ≡ some c' → Step hashing c c'
  endupdate : (gen : ℕ) → pefs_dircache_endupdate c gen ≡ c' → Step hashing c c'

pub data Reach (hashing : Hashing) (c : Cache) : Cache → Type 0 where
  here : Reach hashing c c
  next : {d e : Cache} → Reach hashing c d → Step hashing d e → Reach hashing c e

endupdate-IsCache :
    (hashing : Hashing) (c : Cache) (gen : ℕ)
    → IsCache hashing c
    → IsCache hashing (pefs_dircache_endupdate c gen)
unfolding pefs_dircache_endupdate
endupdate-IsCache hashing c gen h = record {
  active = h.active;
  stale = h.stale;
  distinct = h.distinct;
  distinct_active = h.distinct_active;
  tbl = h.tbl;
  enctbl = h.enctbl;
  slots = h.slots;
}

Step-IsCache :
    (hashing : Hashing) (c c' : Cache) → Step hashing c c' → IsCache hashing c → IsCache hashing c'
Step-IsCache hashing c c' (lookup name e) h =
    subst (IsCache hashing) e (pefs_dircache_lookup-safe hashing c name h).4
Step-IsCache hashing c c' (enclookup encname e) h =
    subst (IsCache hashing) e (pefs_dircache_lookup-safe hashing c encname h).5
Step-IsCache hashing c c' (insert fresh ptk name encname p free ran) h =
    pefs_dircache_insert-IsCache hashing c fresh ptk name encname c' p h free ran
Step-IsCache hashing c c' (expire p e force_gc there live ran) h =
    let (d, made, ok) = pefs_dircache_expire-IsCache hashing c p e force_gc h there live in
    subst (IsCache hashing) (some_inj (sym made ∙ ran)) ok
Step-IsCache hashing c c' (gc ran) h =
    let (d, made, ok, stale, active) = pefs_dircache_gc_lem hashing c h in
    subst (IsCache hashing) (some_inj (sym made ∙ ran)) ok
Step-IsCache hashing c c' (purge ran) h =
    let (d, made, ok, active, stale, gen) = pefs_dircache_purge_lem hashing c h in
    subst (IsCache hashing) (some_inj (sym made ∙ ran)) ok
Step-IsCache hashing c c' (endupdate gen e) h =
    subst (IsCache hashing) e (endupdate-IsCache hashing c gen h)

created-IsCache :
    (hashing : Hashing) (c : Cache) (pd : ℕ)
    → IsCache hashing (pefs_dircache_create (pefs_dircache_pool_init c) pd)
unfolding pefs_dircache_create pefs_dircache_pool_init
created-IsCache hashing c pd = record {
  active = tt;
  stale = tt;
  distinct = tt;
  distinct_active = tt;
  tbl = λ i. tt;
  enctbl = λ i. tt;
  slots = λ i. tt;
}

Reach-IsCache :
    (hashing : Hashing) (c c' : Cache) → Reach hashing c c' → IsCache hashing c → IsCache hashing c'
Reach-IsCache hashing c c' here h = h
Reach-IsCache hashing c c' (next {d} {e} r st) h =
    Step-IsCache hashing d e st (Reach-IsCache hashing c d r h)

-- Whatever sequence of lookups, insertions, expirations, collections and purges follows the creation
-- of a directory's cache over new tables: the cache is well formed, no search reads freed memory, and
-- a collection and a purge run to their end.
pub pefs_dircache_never_faults :
    (hashing : Hashing) (c : Cache) (pd : ℕ) (c' : Cache) (name : List ℕ)
    → Reach hashing (pefs_dircache_create (pefs_dircache_pool_init c) pd) c'
    → IsCache hashing c'
      × ((pefs_dircache_lookup hashing c' name).1 ≢ fault)
      × ((pefs_dircache_enclookup hashing c' name).1 ≢ fault)
      × (pefs_dircache_lookup_retry c' name ≢ fault)
      × (pefs_dircache_enclookup_retry c' name ≢ fault)
      × (pefs_dircache_gc c' ≢ none)
      × (pefs_dircache_purge hashing c' ≢ none)
pefs_dircache_never_faults hashing c pd c' name r =
    let ok = Reach-IsCache hashing _ c' r (created-IsCache hashing c pd) in
    let (a, b, d, e, f, g) = pefs_dircache_lookup-safe hashing c' name ok in
    let (x, ran_gc, gc_ok, stale, active) = pefs_dircache_gc_lem hashing c' ok in
    let (y, ran_purge, purge_ok, no_active, no_stale, gen) =
      pefs_dircache_purge_lem hashing c' ok in
    (ok, a, b, d, e, λ h. some-ne-none (sym ran_gc ∙ h), λ h. some-ne-none (sym ran_purge ∙ h))
