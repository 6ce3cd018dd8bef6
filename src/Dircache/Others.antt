-- ===== src/Dircache/Others.antt =====
-- Expiring an entry leaves the other entries of its directory to be found.
use pefs.Base.{
  ℕ, ◌≡◌, ◌≢◌, inl, inr, refl, sym, ◌∙◌, ap, subst, Bool, false, Option, none, some, List, ◌∷◌,
  ◌==◌, ==_iff, Bool-cases, some_inj,
}
use pefs.Dircache.{
  Entry, Cache, Hashing, put, unlink, found, scan, is_dir, bucket_of, dircache_hashname,
  pefs_dircache_lookup, pefs_dircache_enclookup, pefs_dircache_expire, expire_elsewhere,
}
use pefs.Dircache.Expire.{expire-eq, expire_elsewhere-eq}
use pefs.Dircache.Lookup.{name_test, encname_test, lookup-scan, enclookup-scan}
use pefs.Dircache.Search.{put_here, put_there, scan-unlink, scan-stale}

-- Through every bucket of a table in which the one of `p` has lost it.
scan-others :
    (memory : ℕ → Option Entry) (test : Entry → Bool) (table : ℕ → List ℕ) (i k p q : ℕ) (e : Entry)
    → test e ≡ false
    → q ≢ p
    → scan memory test (table k) ≡ found q
    → scan (put memory p (some e)) test (put table i (unlink p (table i)) k) ≡ found q
scan-others memory test table i k p q e stale other h =
    let same = put_there memory p (some e) in
    elim (Bool-cases (k == i)) [
      | inl here ↦
          let e_k : k ≡ i = (==_iff k i).0 here in
          let h' : scan memory test (table i) ≡ found q =
            sym (ap (λ (j : ℕ). scan memory test (table j)) e_k) ∙ h in
          rw here (scan-unlink memory (put memory p (some e)) test p (table i) q same other h')
      | inr elsewhere ↦ rw elsewhere (
          scan-stale memory (put memory p (some e)) test p (table k) q same
            (record { entry = e; there = put_here memory p (some e); good = stale }) other h)
    ]

-- The cache with the entry stale and out of the tables, whatever the fields of the directory are.
abbrev without : Hashing → Cache → ℕ → Entry → ℕ → (ℕ → Option ℕ) → List ℕ → List ℕ → Cache
without hashing c p e gen retry active stale =
    let i = bucket_of hashing e.namehash in
    let j = bucket_of hashing e.encnamehash in
    record c {
      memory = put c.memory p (some (record e { dir = none }));
      tbl = put c.tbl i (unlink p (c.tbl i));
      enctbl = put c.enctbl j (unlink p (c.enctbl j));
      gen = gen;
      retry = retry;
      activehead = active;
      stalehead = stale;
    }

without-others :
    (hashing : Hashing) (c : Cache) (p : ℕ) (e : Entry) (gen : ℕ) (retry : ℕ → Option ℕ)
    (active stale : List ℕ) (name encname : List ℕ) (q r : ℕ)
    → (pefs_dircache_lookup hashing c name).1 ≡ found q
    → q ≢ p
    → (pefs_dircache_enclookup hashing c encname).1 ≡ found r
    → r ≢ p
    → let x = without hashing c p e gen retry active stale in
      ((pefs_dircache_lookup hashing x name).1 ≡ found q)
      × ((pefs_dircache_enclookup hashing x encname).1 ≡ found r)
unfolding is_dir
without-others hashing c p e gen retry active stale name encname q r hq other hr other_r =
    let x = without hashing c p e gen retry active stale in
    let lost : Entry = record e { dir = none } in
    (
      lookup-scan hashing x name
          ∙ scan-others c.memory (name_test hashing c name) c.tbl (bucket_of hashing e.namehash)
              (bucket_of hashing (dircache_hashname hashing c.pd name)) p q lost refl other
              (sym (lookup-scan hashing c name) ∙ hq),
      enclookup-scan hashing x encname
          ∙ scan-others c.memory (encname_test hashing c encname) c.enctbl
              (bucket_of hashing e.encnamehash)
              (bucket_of hashing (dircache_hashname hashing c.pd encname)) p r lost refl other_r
              (sym (enclookup-scan hashing c encname) ∙ hr),
    )

-- After pefs_dircache_expire of an entry without a collection, every other entry that a search found
-- before is found by it.
pub pefs_dircache_expire-others :
    (hashing : Hashing) (c : Cache) (p : ℕ) (e : Entry) (d : ℕ) (c' : Cache) (name encname : List ℕ)
    (q r : ℕ)
    → c.memory p ≡ some e
    → e.dir ≡ some d
    → pefs_dircache_expire hashing c p false ≡ some c'
    → (pefs_dircache_lookup hashing c name).1 ≡ found q
    → q ≢ p
    → (pefs_dircache_enclookup hashing c encname).1 ≡ found r
    → r ≢ p
    → ((pefs_dircache_lookup hashing c' name).1 ≡ found q)
      × ((pefs_dircache_enclookup hashing c' encname).1 ≡ found r)
unfolding expire_elsewhere
pefs_dircache_expire-others hashing c p e d c' name encname q r h live ran hq other hr other_r =
    let both = λ (y : Cache).
      ((pefs_dircache_lookup hashing y name).1 ≡ found q)
      × ((pefs_dircache_enclookup hashing y encname).1 ≡ found r) in
    elim (Bool-cases (d == c.pd)) [
      | inl own ↦
          let live' : e.dir ≡ some c.pd = live ∙ ap {A = ℕ} some ((==_iff d c.pd).0 own) in
          subst both (some_inj (sym (expire-eq hashing c p e false h live') ∙ ran)) (
            without-others hashing c p e 0 (λ i. none) (unlink p c.activehead)
              (p ∷ unlink p c.stalehead) name encname q r hq other hr other_r)
      | inr elsewhere ↦
          subst both (some_inj (sym (expire_elsewhere-eq hashing c p e d h live elsewhere) ∙ ran)) (
            without-others hashing c p e c.gen c.retry c.activehead c.stalehead name encname q r hq
              other hr other_r)
    ]
