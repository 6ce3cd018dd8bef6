-- ===== src/Dircache/Expire.antt =====
-- pefs_dircache_expire and the searches behind it.
use pefs.Base.{
  ℕ, ◌+◌, ◌-◌, ◌%◌, ◌^◌, ◌≡◌, ◌≢◌, ◌⊎◌, inl, inr, refl, sym, ◌∙◌, ap, subst, Bool, true, false,
  Option, none, some, List, [], ◌∷◌, ◌==◌, if◌then◌else◌, Bool-cases, Option-cases, ==_refl,
  some_inj, some-ne-none, arith, zero, suc,
}
use pefs.Base.Bytes.{bytes_eq}
use pefs.Dircache.{
  Entry, Cache, Hashing, put, unlink, missing, found, dircache_cmp_name, dircache_cmp_encname,
  bucket_of, dircache_hashname, retry_scan, pefs_dircache_lookup, pefs_dircache_enclookup,
  pefs_dircache_lookup_retry, pefs_dircache_enclookup_retry, dircache_entry_free, free_all,
  dircache_gc_locked, dircache_entry_expire_locked, dircache_retry_clear, pefs_dircache_expire,
  pefs_dircache_valid, expire_elsewhere,
}
use pefs.Dircache.Lookup.{name_bucket, encname_bucket, lookup-scan, enclookup-scan}
use pefs.Dircache.Search.{put_here, IsGone, scan-gone}

-- The cache without the entry at `p`.
abbrev pub freed : Cache → ℕ → Entry → Cache
freed c p e = record c {
  refs = put c.refs e.tkey.key.ptr (c.refs e.tkey.key.ptr - 1);
  stalehead = unlink p c.stalehead;
  entries = (c.entries + (2 ^ 64 - 1)) % 2 ^ 64;
  memory = put c.memory p none;
}

pub free_all_cons :
    (p : ℕ) (ps : List ℕ) (c : Cache) (e : Entry)
    → c.memory p ≡ some e
    → free_all (p ∷ ps) c ≡ free_all ps (freed c p e)
unfolding free_all dircache_entry_free
free_all_cons p ps c e h = rw (h, free_all, dircache_entry_free) refl

free_all_fault : (p : ℕ) (ps : List ℕ) (c : Cache) → c.memory p ≡ none → free_all (p ∷ ps) c ≡ none
unfolding free_all dircache_entry_free
free_all_fault p ps c h = rw (h, free_all, dircache_entry_free) refl

-- What a collection leaves alone.
pub record IsKept (c c' : Cache) : Type 0 where
  pub gen : c'.gen ≡ c.gen
  pub retry : c'.retry ≡ c.retry
  pub pd : c'.pd ≡ c.pd
  pub memory : (q : ℕ) → (c'.memory q ≡ c.memory q) ⊎ (c'.memory q ≡ none)

freed-memory :
    (c : Cache) (p : ℕ) (e : Entry) (q : ℕ)
    → ((freed c p e).memory q ≡ c.memory q) ⊎ ((freed c p e).memory q ≡ none)
freed-memory c p e q = elim (Bool-cases (q == p)) [
  | inl here ↦ inr (rw here refl)
  | inr elsewhere ↦ inl (rw elsewhere refl)
]

free_all-IsKept : (ps : List ℕ) (c c' : Cache) → free_all ps c ≡ some c' → IsKept c c'
free_all-IsKept [] c c' h =
    let same : c ≡ c' = some_inj (unfold free_all in h) in
    rw (sym same) (record { gen = refl; retry = refl; pd = refl; memory = λ q. inl refl })
free_all-IsKept (p ∷ ps) c c' h = elim (Option-cases (c.memory p)) [
  | inl none_there ↦ absurd (some-ne-none (sym h ∙ free_all_fault p ps c none_there))
  | inr (e, there) ↦
      let rest = free_all-IsKept ps (freed c p e) c' (sym (free_all_cons p ps c e there) ∙ h) in
      record {
        gen = rest.gen;
        retry = rest.retry;
        pd = rest.pd;
        memory = λ q. elim (rest.memory q) [
          | inl same ↦ elim (freed-memory c p e q) [
            | inl kept ↦ inl (same ∙ kept)
            | inr lost ↦ inr (same ∙ lost)
          ]
          | inr lost ↦ inr lost
        ];
      }
]

-- The cache in which the entry at `p` is stale.
abbrev pub expired : Hashing → Cache → ℕ → Entry → Cache
expired hashing c p e =
    let i = bucket_of hashing e.namehash in
    let j = bucket_of hashing e.encnamehash in
    record c {
      memory = put c.memory p (some (record e { dir = none }));
      activehead = unlink p c.activehead;
      stalehead = p ∷ unlink p c.stalehead;
      tbl = put c.tbl i (unlink p (c.tbl i));
      enctbl = put c.enctbl j (unlink p (c.enctbl j));
    }

pub expire_locked-eq :
    (hashing : Hashing) (c : Cache) (p : ℕ) (e : Entry)
    → c.memory p ≡ some e
    → dircache_entry_expire_locked hashing c p ≡ some (expired hashing c p e)
unfolding dircache_entry_expire_locked
expire_locked-eq hashing c p e h = rw (h, dircache_entry_expire_locked) refl

-- The cache before the collection, if there is one.
abbrev pub outdated : Hashing → Cache → ℕ → Entry → Cache
outdated hashing c p e = expired hashing (record c { gen = 0; retry = λ i. none }) p e

pub expire-eq :
    (hashing : Hashing) (c : Cache) (p : ℕ) (e : Entry) (force_gc : Bool)
    → c.memory p ≡ some e
    → e.dir ≡ some c.pd
    → pefs_dircache_expire hashing c p force_gc ≡ (
        if force_gc
        then dircache_gc_locked (outdated hashing c p e)
        else some (outdated hashing c p e))
unfolding pefs_dircache_expire dircache_retry_clear
expire-eq hashing c p e force_gc h live =
    let locked = expire_locked-eq hashing (record c { gen = 0; retry = λ i. none }) p e h in
    rw (h, pefs_dircache_expire)
      (rw (live, pefs_dircache_expire)
        (rw (==_refl c.pd, pefs_dircache_expire) (rw (locked, pefs_dircache_expire) refl)))

-- An entry of another directory, without a collection.
pub expire_elsewhere-eq :
    (hashing : Hashing) (c : Cache) (p : ℕ) (e : Entry) (d : ℕ)
    → c.memory p ≡ some e
    → e.dir ≡ some d
    → (d == c.pd) ≡ false
    → pefs_dircache_expire hashing c p false ≡ some (expire_elsewhere hashing c p e)
unfolding pefs_dircache_expire
expire_elsewhere-eq hashing c p e d h live other =
    rw (h, pefs_dircache_expire)
      (rw (live, pefs_dircache_expire) (rw (other, pefs_dircache_expire) refl))

outdated-IsGone :
    (hashing : Hashing) (c : Cache) (p : ℕ) (e : Entry) → IsGone (outdated hashing c p e).memory p
outdated-IsGone hashing c p e = record {
  gone = λ i there.
      let here : put c.memory p (some (record e { dir = none })) p
          ≡ some (record e { dir = none }) =
        put_here c.memory p (some (record e { dir = none })) in
      let same : i ≡ record e { dir = none } = some_inj (sym there ∙ here) in
      ap (λ (x : Entry). x.dir) same;
}

-- With or without a collection: the entry is gone, and so are the generation and the slots.
pub record IsExpired (c' : Cache) (p : ℕ) : Type 0 where
  pub entry_gone : IsGone c'.memory p
  pub no_gen : c'.gen ≡ 0
  pub no_retry : c'.retry ≡ (λ i. none)

expire-IsExpired :
    (hashing : Hashing) (c : Cache) (p : ℕ) (e : Entry) (force_gc : Bool) (c' : Cache)
    → c.memory p ≡ some e
    → e.dir ≡ some c.pd
    → pefs_dircache_expire hashing c p force_gc ≡ some c'
    → IsExpired c' p
expire-IsExpired hashing c p e false c' h live ran =
    let same : outdated hashing c p e ≡ c' =
      some_inj (sym (expire-eq hashing c p e false h live) ∙ ran) in
    subst (λ (x : Cache). IsExpired x p) same
      (record { entry_gone = outdated-IsGone hashing c p e; no_gen = refl; no_retry = refl })
expire-IsExpired hashing c p e true c' h live ran =
    let x = outdated hashing c p e in
    let gc : dircache_gc_locked x ≡ some c' = sym (expire-eq hashing c p e true h live) ∙ ran in
    let k = free_all-IsKept x.stalehead x c' (unfold dircache_gc_locked in gc) in
    let g = outdated-IsGone hashing c p e in
    record {
      entry_gone = record {
        gone = λ i there. elim (k.memory p) [
          | inl same ↦ g.gone i (sym same ∙ there)
          | inr lost ↦ absurd (some-ne-none (sym there ∙ lost))
        ];
      };
      no_gen = k.gen;
      no_retry = k.retry;
    }

retry_scan-cleared :
    (c : Cache) (test : Entry → Bool) (left i : ℕ)
    → c.retry ≡ (λ i. none)
    → retry_scan c test left i ≡ missing
unfolding retry_scan
retry_scan-cleared c test zero i h = refl
retry_scan-cleared c test (suc left) i h =
    let empty : c.retry i ≡ none = ap (λ (f : ℕ → Option ℕ). f i) h in
    rw (empty, retry_scan) (retry_scan-cleared c test left (i + 1) h)

-- After pefs_dircache_expire of an entry of the directory at hand, with or without a collection, no
-- search of any kind in that directory finds that entry, the directory's retry slots are empty, and
-- no generation of it is valid.
pub pefs_dircache_expire_lem :
    (hashing : Hashing) (c : Cache) (p : ℕ) (e : Entry) (force_gc : Bool) (c' : Cache)
    (name : List ℕ) (gen : ℕ)
    → c.memory p ≡ some e
    → e.dir ≡ some c.pd
    → pefs_dircache_expire hashing c p force_gc ≡ some c'
    → ((pefs_dircache_lookup hashing c' name).1 ≢ found p)
      × ((pefs_dircache_enclookup hashing c' name).1 ≢ found p)
      × (pefs_dircache_lookup_retry c' name ≡ missing)
      × (pefs_dircache_enclookup_retry c' name ≡ missing)
      × (pefs_dircache_valid c' gen ≡ false)
unfolding pefs_dircache_lookup_retry pefs_dircache_enclookup_retry pefs_dircache_valid
pefs_dircache_expire_lem hashing c p e force_gc c' name gen h live ran =
    let x = expire-IsExpired hashing c p e force_gc c' h live ran in
    let no_gen = x.no_gen in
    (
      λ hit.
          scan-gone c'.memory c'.pd
            (λ i. dircache_cmp_name i (dircache_hashname hashing c'.pd name) name) p
            (name_bucket hashing c' name) x.entry_gone (sym (lookup-scan hashing c' name) ∙ hit),
      λ hit.
          scan-gone c'.memory c'.pd
            (λ i. dircache_cmp_encname i (dircache_hashname hashing c'.pd name) name) p
            (encname_bucket hashing c' name) x.entry_gone
            (sym (enclookup-scan hashing c' name) ∙ hit),
      retry_scan-cleared c' (λ i. bytes_eq i.name name) 4 0 x.no_retry,
      retry_scan-cleared c' (λ i. bytes_eq i.encname name) 4 0 x.no_retry,
      ground arith,
    )
