-- ===== src/Dircache/Search.antt =====
-- A search through a list of entries, and what a change of the memory or of the list does to it.
use pefs.Base.{
  ℕ, ◌≡◌, ◌≢◌, inl, inr, refl, sym, ◌∙◌, ap, Bool, true, false, ◌&&◌, Option, none, some, List, [],
  ◌∷◌, ◌==◌, ==_iff, ==_refl, Bool-cases, Option-cases, All, arith,
}
use pefs.Dircache.{Entry, put, unlink, fault, found, scan, is_dir}

pub put_here {ℓ} : {A : Type ℓ} (f : ℕ → A) (p : ℕ) (a : A) → put f p a p ≡ a
put_here f p a = rw (==_refl p) refl

pub put_there {ℓ} : {A : Type ℓ} (f : ℕ → A) (p : ℕ) (a : A) (q : ℕ) → q ≢ p → put f p a q ≡ f q
put_there f p a q h = let miss : (q == p) ≡ false = ground arith in rw miss refl

-- An address of an entry with a property.
pub record Holds (memory : ℕ → Option Entry) (P : Entry → Type 0) (p : ℕ) : Type 0 where
  pub entry : Entry
  pub there : memory p ≡ some entry
  pub good : P entry

module _ (memory : ℕ → Option Entry) (test : Entry → Bool) where
  pub scan_hit :
      (p : ℕ) (ps : List ℕ) (e : Entry)
      → memory p ≡ some e
      → test e ≡ true
      → scan memory test (p ∷ ps) ≡ found p
  unfolding scan
  scan_hit p ps e h t = rw (h, scan) (rw t refl)

  pub scan_miss :
      (p : ℕ) (ps : List ℕ) (e : Entry)
      → memory p ≡ some e
      → test e ≡ false
      → scan memory test (p ∷ ps) ≡ scan memory test ps
  unfolding scan
  scan_miss p ps e h t = rw (h, scan) (rw (t, scan) refl)

  pub scan_fault : (p : ℕ) (ps : List ℕ) → memory p ≡ none → scan memory test (p ∷ ps) ≡ fault
  unfolding scan
  scan_fault p ps h = rw (h, scan) refl

  -- What is found passes the test.
  pub scan-found :
      (ps : List ℕ) (p : ℕ) → scan memory test ps ≡ found p → Holds memory (λ e. test e ≡ true) p
  scan-found [] p h = absurd (unfold scan in ground (arith, h))
  scan-found (q ∷ qs) p h = elim (Option-cases (memory q)) [
    | inl freed ↦ absurd (ground (arith, h, scan_fault q qs freed))
    | inr (e, there) ↦ elim (Bool-cases (test e)) [
      | inl hit ↦
          let same : p ≡ q = ground (arith, h, scan_hit q qs e there hit) in
          rw same (record { entry = e; there = there; good = hit })
      | inr miss ↦ scan-found qs p (sym (scan_miss q qs e there miss) ∙ h)
    ]
  ]

  -- Without freed entries there is no fault.
  pub scan-safe :
      (ps : List ℕ) (P : Entry → Type 0) → All (Holds memory P) ps → scan memory test ps ≢ fault
  scan-safe [] P h = unfold scan in ground arith
  scan-safe (q ∷ qs) P h =
      let e = h.0.entry in
      elim (Bool-cases (test e)) [
        | inl hit ↦ ground (arith, scan_hit q qs e h.0.there hit)
        | inr miss ↦ ground (arith, scan_miss q qs e h.0.there miss, scan-safe qs P h.1)
      ]

-- A search with another memory in which only `p` differs, where `p` fails the test, through the list
-- without `p`: what is found elsewhere is still found.
pub scan-unlink :
    (memory memory' : ℕ → Option Entry) (test : Entry → Bool) (p : ℕ) (ps : List ℕ) (q : ℕ)
    → ((r : ℕ) → r ≢ p → memory' r ≡ memory r)
    → q ≢ p
    → scan memory test ps ≡ found q
    → scan memory' test (unlink p ps) ≡ found q
unfolding unlink
scan-unlink memory memory' test p [] q same other h = absurd (unfold scan in ground (arith, h))
scan-unlink memory memory' test p (r ∷ rs) q same other h = elim (Option-cases (memory r)) [
  | inl freed ↦ absurd (ground (arith, h, scan_fault memory test r rs freed))
  | inr (e, there) ↦ elim (Bool-cases (r == p)) [
    | inl here ↦
        let is_p : r ≡ p = (==_iff r p).0 here in
        elim (Bool-cases (test e)) [
          | inl hit ↦ absurd (ground (arith, h, scan_hit memory test r rs e there hit))
          | inr miss ↦ rw here (
              scan-unlink memory memory' test p rs q same other
                (sym (scan_miss memory test r rs e there miss) ∙ h))
        ]
    | inr elsewhere ↦
        let not_p : r ≢ p = ground arith in
        let there' = same r not_p ∙ there in
        rw elsewhere (elim (Bool-cases (test e)) [
          | inl hit ↦
              scan_hit memory' test r (unlink p rs) e there' hit
              ∙ (sym (scan_hit memory test r rs e there hit) ∙ h)
          | inr miss ↦
              scan_miss memory' test r (unlink p rs) e there' miss
              ∙ scan-unlink memory memory' test p rs q same other
                  (sym (scan_miss memory test r rs e there miss) ∙ h)
        ])
  ]
]

-- The same through the list as it was, where `p` still has an entry, which fails the test.
pub scan-stale :
    (memory memory' : ℕ → Option Entry) (test : Entry → Bool) (p : ℕ) (ps : List ℕ) (q : ℕ)
    → ((r : ℕ) → r ≢ p → memory' r ≡ memory r)
    → Holds memory' (λ e. test e ≡ false) p
    → q ≢ p
    → scan memory test ps ≡ found q
    → scan memory' test ps ≡ found q
scan-stale memory memory' test p [] q same stale other h = absurd (unfold scan in ground (arith, h))
scan-stale memory memory' test p (r ∷ rs) q same stale other h = elim (Option-cases (memory r)) [
  | inl freed ↦ absurd (ground (arith, h, scan_fault memory test r rs freed))
  | inr (e, there) ↦ elim (Bool-cases (r == p)) [
    | inl here ↦
        let is_p : r ≡ p = (==_iff r p).0 here in
        let there' : memory' r ≡ some stale.entry = ap memory' is_p ∙ stale.there in
        elim (Bool-cases (test e)) [
          | inl hit ↦ absurd (ground (arith, h, scan_hit memory test r rs e there hit))
          | inr miss ↦
              scan_miss memory' test r rs stale.entry there' stale.good
              ∙ scan-stale memory memory' test p rs q same stale other
                  (sym (scan_miss memory test r rs e there miss) ∙ h)
        ]
    | inr elsewhere ↦
        let not_p : r ≢ p = ground arith in
        let there' = same r not_p ∙ there in
        elim (Bool-cases (test e)) [
          | inl hit ↦
              scan_hit memory' test r rs e there' hit
              ∙ (sym (scan_hit memory test r rs e there hit) ∙ h)
          | inr miss ↦
              scan_miss memory' test r rs e there' miss
              ∙ scan-stale memory memory' test p rs q same stale other
                  (sym (scan_miss memory test r rs e there miss) ∙ h)
        ]
  ]
]

-- An address without an entry of a directory is never found.
pub record IsGone (memory : ℕ → Option Entry) (p : ℕ) : Type 0 where
  pub gone : (e : Entry) → memory p ≡ some e → e.dir ≡ none

pub scan-gone :
    (memory : ℕ → Option Entry) (pd : ℕ) (test : Entry → Bool) (p : ℕ) (ps : List ℕ)
    → IsGone memory p
    → scan memory (λ e. is_dir e.dir pd && test e) ps ≢ found p
scan-gone memory pd test p ps g h =
    let f = scan-found memory (λ e. is_dir e.dir pd && test e) ps p h in
    let no_dir = g.gone f.entry f.there in
    let good : (is_dir f.entry.dir pd && test f.entry) ≡ true = f.good in
    let bad : (is_dir f.entry.dir pd && test f.entry) ≡ false = unfold is_dir in rw no_dir refl in
    ground arith
