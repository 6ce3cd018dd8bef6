-- ===== src/Dircache/Invariant.antt =====
-- The lists of a cache hold allocated entries: the active ones of the directory, the stale ones of
-- none, and the two tables only entries of a directory, each in the bucket of its hash.
use pefs.Base.{
  ℕ, ◌≡◌, ◌≢◌, inl, inr, refl, sym, ◌∙◌, ap, subst, false, Option, none, some, List, [], ◌∷◌, ◌==◌,
  ==_refl, Bool-cases, some_inj, some-ne-none, All, arith,
}
use pefs.Dircache.{Entry, Cache, Hashing, put, unlink, bucket_of}
use pefs.Dircache.Search.{put_there, Holds}

abbrev pub IsActive : ℕ → Entry → Type 0
IsActive pd e = e.dir ≡ some pd

abbrev pub IsStale : Entry → Type 0
IsStale e = e.dir ≡ none

-- An entry of some directory with a hash in the bucket.
abbrev pub InBucket : Hashing → (Entry → ℕ) → ℕ → Entry → Type 0
InBucket hashing hash i e = (e.dir ≢ none) × (bucket_of hashing (hash e) ≡ i)

abbrev pub namehash : Entry → ℕ
namehash e = e.namehash

abbrev pub encnamehash : Entry → ℕ
encnamehash e = e.encnamehash

abbrev pub Distinct : List ℕ → Type 0
Distinct [] = Unit
Distinct (p ∷ ps) = All (λ q. q ≢ p) ps × Distinct ps

-- A slot is empty or holds an allocated entry.
abbrev pub IsSlot : (ℕ → Option Entry) → Option ℕ → Type 0
IsSlot memory none = Unit
IsSlot memory (some p) = Holds memory (λ e. Unit) p

pub record IsCache (hashing : Hashing) (c : Cache) : Type 0 where
  pub active : All (Holds c.memory (IsActive c.pd)) c.activehead
  pub stale : All (Holds c.memory IsStale) c.stalehead
  pub distinct : Distinct c.stalehead
  pub distinct_active : Distinct c.activehead
  pub tbl : (i : ℕ) → All (Holds c.memory (InBucket hashing namehash i)) (c.tbl i)
  pub enctbl : (i : ℕ) → All (Holds c.memory (InBucket hashing encnamehash i)) (c.enctbl i)
  pub slots : (i : ℕ) → IsSlot c.memory (c.retry i)

-- Entries that a change of the memory at `p` does not touch.
pub Holds-put :
    (memory : ℕ → Option Entry) (P : Entry → Type 0) (p q : ℕ) (a : Option Entry)
    → q ≢ p
    → Holds memory P q
    → Holds (put memory p a) P q
Holds-put memory P p q a other h = record {
  entry = h.entry;
  there = put_there memory p a q other ∙ h.there;
  good = h.good;
}

-- An entry without the property is another one.
pub Holds-ne :
    (memory : ℕ → Option Entry) (P : Entry → Type 0) (p q : ℕ) (e : Entry)
    → memory p ≡ some e
    → ¬ P e
    → Holds memory P q
    → q ≢ p
Holds-ne memory P p q e there bad h same =
    let one : e ≡ h.entry = some_inj (sym there ∙ (ap memory (sym same) ∙ h.there)) in
    bad (subst P (sym one) h.good)

pub All-put_ne :
    (memory : ℕ → Option Entry) (P : Entry → Type 0) (p : ℕ) (a : Option Entry) (e : Entry)
    (ps : List ℕ)
    → memory p ≡ some e
    → ¬ P e
    → All (Holds memory P) ps
    → All (Holds (put memory p a) P) ps
All-put_ne memory P p a e [] there bad h = tt
All-put_ne memory P p a e (q ∷ qs) there bad h = (
  Holds-put memory P p q a (Holds-ne memory P p q e there bad h.0) h.0,
  All-put_ne memory P p a e qs there bad h.1,
)

pub All-put_fresh :
    (memory : ℕ → Option Entry) (P : Entry → Type 0) (p : ℕ) (a : Option Entry) (ps : List ℕ)
    → memory p ≡ none
    → All (Holds memory P) ps
    → All (Holds (put memory p a) P) ps
All-put_fresh memory P p a [] free h = tt
All-put_fresh memory P p a (q ∷ qs) free h =
    let other : q ≢ p = λ same. some-ne-none (sym h.0.there ∙ (ap memory same ∙ free)) in
    (Holds-put memory P p q a other h.0, All-put_fresh memory P p a qs free h.1)

-- The list without `p`, after a change at `p`.
pub All-unlink :
    (memory : ℕ → Option Entry) (P : Entry → Type 0) (p : ℕ) (a : Option Entry) (ps : List ℕ)
    → All (Holds memory P) ps
    → All (Holds (put memory p a) P) (unlink p ps)
unfolding unlink
All-unlink memory P p a [] h = tt
All-unlink memory P p a (q ∷ qs) h = elim (Bool-cases (q == p)) [
  | inl here ↦ rw here (All-unlink memory P p a qs h.1)
  | inr elsewhere ↦
      let other : q ≢ p = ground arith in
      rw elsewhere (Holds-put memory P p q a other h.0, All-unlink memory P p a qs h.1)
]

pub unlink-gone : (p : ℕ) (ps : List ℕ) → All (λ q. q ≢ p) (unlink p ps)
unfolding unlink
unlink-gone p [] = tt
unlink-gone p (q ∷ qs) = elim (Bool-cases (q == p)) [
  | inl here ↦ rw here (unlink-gone p qs)
  | inr elsewhere ↦ rw elsewhere (ground arith, unlink-gone p qs)
]

pub unlink-absent : (p : ℕ) (ps : List ℕ) → All (λ q. q ≢ p) ps → unlink p ps ≡ ps
unfolding unlink
unlink-absent p [] h = refl
unlink-absent p (q ∷ qs) h =
    let miss : (q == p) ≡ false = ground (arith, h.0) in
    rw miss (ap (λ (r : List ℕ). q ∷ r) (unlink-absent p qs h.1))

pub unlink-head : (p : ℕ) (ps : List ℕ) → All (λ q. q ≢ p) ps → unlink p (p ∷ ps) ≡ ps
unfolding unlink
unlink-head p ps h = rw (==_refl p) (unlink-absent p ps h)

-- A free address is in no list of allocated entries.
pub fresh-absent :
    (memory : ℕ → Option Entry) (P : Entry → Type 0) (p : ℕ) (ps : List ℕ)
    → memory p ≡ none
    → All (Holds memory P) ps
    → All (λ q. q ≢ p) ps
fresh-absent memory P p [] free h = tt
fresh-absent memory P p (q ∷ qs) free h = (
  λ same. some-ne-none (sym h.0.there ∙ (ap memory same ∙ free)),
  fresh-absent memory P p qs free h.1,
)

pub unlink-All : (P : ℕ → Type 0) (p : ℕ) (ps : List ℕ) → All P ps → All P (unlink p ps)
unfolding unlink
unlink-All P p [] h = tt
unlink-All P p (q ∷ qs) h = elim (Bool-cases (q == p)) [
  | inl here ↦ rw here (unlink-All P p qs h.1)
  | inr elsewhere ↦ rw elsewhere (h.0, unlink-All P p qs h.1)
]

pub unlink-Distinct : (p : ℕ) (ps : List ℕ) → Distinct ps → Distinct (unlink p ps)
unfolding unlink
unlink-Distinct p [] h = tt
unlink-Distinct p (q ∷ qs) h = elim (Bool-cases (q == p)) [
  | inl here ↦ rw here (unlink-Distinct p qs h.1)
  | inr elsewhere ↦ rw elsewhere (unlink-All (λ r. r ≢ q) p qs h.0, unlink-Distinct p qs h.1)
]

-- A slot after a change that keeps the memory allocated, and after one at a free address.
pub IsSlot-put :
    (memory : ℕ → Option Entry) (p : ℕ) (e : Entry) (s : Option ℕ)
    → IsSlot memory s
    → IsSlot (put memory p (some e)) s
IsSlot-put memory p e none h = tt
IsSlot-put memory p e (some q) h = elim (Bool-cases (q == p)) [
  | inl here ↦ record { entry = e; there = rw here refl; good = tt }
  | inr elsewhere ↦ Holds-put memory (λ i. Unit) p q (some e) (ground arith) h
]
