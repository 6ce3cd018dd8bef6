-- ===== src/Node/Unique.antt =====
-- A lower vnode has one node in each mount: the hash table of sys/fs/pefs/pefs_subr.c under any
-- sequence of its steps.
use pefs.Base.{
  ℕ, ◌≡◌, ◌⊎◌, inl, inr, refl, sym, subst, ap, ◌∙◌, arith, true, false, ◌&&◌, none, some, List, [],
  ◌∷◌, All, ◌==◌, ==_refl, Bool-cases, Option-cases,
}
use pefs.Crypto.{Tkey}
use pefs.Dircache.{put}
use pefs.Node.{
  Node, Nodes, vref, pefs_nodehash_gethead, find_node, unlink_node, set_dircache,
  pefs_nodehash_insert,
}

-- Another lower vnode, or another mount.
abbrev pub Apart : Node → Node → Type 0
Apart a b = ¬ ((b.lowervp ≡ a.lowervp) × (b.mount ≡ a.mount))

abbrev pub IsFor : ℕ → ℕ → Node → Type 0
IsFor mp lowervp b = (b.lowervp ≡ lowervp) × (b.mount ≡ mp)

-- PN_HASKEY stands for a key.
abbrev pub HasKeyFlag : Node → Type 0
HasKeyFlag a =
    ((a.haskey ≡ false) × (a.tkey ≡ none)) ⊎ ((a.haskey ≡ true) × ((t : Tkey) × (a.tkey ≡ some t)))

abbrev pub Holds : Node → List Node → Type 0
Holds a [] = ⊥
Holds a (b ∷ l) = (a ≡ b) ⊎ Holds a l

module _ (mask : ℕ) where
  -- The list at `i`: nodes of its hash, each with its flag, pairwise apart.
  abbrev pub IsBucket : ℕ → List Node → Type 0
  IsBucket i [] = Unit
  IsBucket i (a ∷ l) =
      (pefs_nodehash_gethead mask a.lowervp ≡ i) × HasKeyFlag a × All (Apart a) l × IsBucket i l

  abbrev pub IsTable : (ℕ → List Node) → Type 0
  IsTable hash = (i : ℕ) → IsBucket i (hash i)

test_iff :
    (mp lowervp : ℕ) (a : Node)
    → ((a.lowervp == lowervp) && (a.mount == mp)) ≡ true
    → IsFor mp lowervp a
test_iff mp lowervp a h = (ground (arith, h), ground (arith, h))

test_not :
    (mp lowervp : ℕ) (a : Node)
    → ((a.lowervp == lowervp) && (a.mount == mp)) ≡ false
    → ¬ IsFor mp lowervp a
test_not mp lowervp a h k = ground (arith, h, k.0, k.1)

find_node-none :
    (mp lowervp : ℕ) (l : List Node)
    → find_node mp lowervp l ≡ none
    → All (λ b. ¬ IsFor mp lowervp b) l
unfolding find_node
find_node-none mp lowervp [] h = tt
find_node-none mp lowervp (a ∷ l) h =
    elim (Bool-cases ((a.lowervp == lowervp) && (a.mount == mp))) [
      | inl e ↦ absurd (cc (h, e))
      | inr e ↦ (test_not mp lowervp a e, find_node-none mp lowervp l (sym (rw e refl) ∙ h))
    ]

pub Holds-All : (P : Node → Type 0) (a : Node) (l : List Node) → All P l → Holds a l → P a
Holds-All P a [] h k = absurd k
Holds-All P a (b ∷ l) h (inl e) = subst P (sym e) h.0
Holds-All P a (b ∷ l) h (inr k) = Holds-All P a l h.1 k

module _ (mask : ℕ) where
  pub find_node-Holds :
      (i : ℕ) (a : Node) (l : List Node)
      → IsBucket mask i l
      → Holds a l
      → find_node a.mount a.lowervp l ≡ some a
  unfolding find_node
  find_node-Holds i a [] h k = absurd k
  find_node-Holds i a (b ∷ l) h (inl e) =
      subst (λ (n : Node). find_node n.mount n.lowervp (b ∷ l) ≡ some n) (sym e)
        (rw (==_refl b.lowervp, ==_refl b.mount) refl)
  find_node-Holds i a (b ∷ l) h (inr k) =
      elim (Bool-cases ((b.lowervp == a.lowervp) && (b.mount == a.mount))) [
        | inl e ↦
            let t = test_iff a.mount a.lowervp b e in
            absurd (Holds-All (Apart b) a l h.2 k (sym t.0, sym t.1))
        | inr e ↦ rw e (find_node-Holds i a l h.3 k)
      ]

  pub bucket_of :
      (i : ℕ) (a : Node) (l : List Node)
      → IsBucket mask i l
      → Holds a l
      → pefs_nodehash_gethead mask a.lowervp ≡ i
  bucket_of i a [] h k = absurd k
  bucket_of i a (b ∷ l) h (inl e) = ap (λ (n : Node). pefs_nodehash_gethead mask n.lowervp) e ∙ h.0
  bucket_of i a (b ∷ l) h (inr k) = bucket_of i a l h.3 k

  pub All-unlink : (P : Node → Type 0) (p : ℕ) (l : List Node) → All P l → All P (unlink_node p l)
  unfolding unlink_node
  All-unlink P p [] h = tt
  All-unlink P p (a ∷ l) h = elim (Bool-cases (a.ptr == p)) [
    | inl e ↦ rw e h.1
    | inr e ↦ rw e (h.0, All-unlink P p l h.1)
  ]

  pub unlink_node-IsBucket :
      (i p : ℕ) (l : List Node) → IsBucket mask i l → IsBucket mask i (unlink_node p l)
  unfolding unlink_node
  unlink_node-IsBucket i p [] h = tt
  unlink_node-IsBucket i p (a ∷ l) (at, flag, apart, h) = elim (Bool-cases (a.ptr == p)) [
    | inl e ↦ rw e h
    | inr e ↦ rw e (at, flag, All-unlink (Apart a) p l apart, unlink_node-IsBucket i p l h)
  ]

  Apart-set_dircache :
      (a : Node) (p : ℕ) (l : List Node) → All (Apart a) l → All (Apart a) (set_dircache p l)
  unfolding set_dircache
  Apart-set_dircache a p [] h = tt
  Apart-set_dircache a p (b ∷ l) h = elim (Bool-cases (b.ptr == p)) [
    | inl e ↦ rw e h
    | inr e ↦ rw e (h.0, Apart-set_dircache a p l h.1)
  ]

  pub set_dircache-IsBucket :
      (i p : ℕ) (l : List Node) → IsBucket mask i l → IsBucket mask i (set_dircache p l)
  unfolding set_dircache
  set_dircache-IsBucket i p [] h = tt
  set_dircache-IsBucket i p (a ∷ l) (at, flag, apart, h) = elim (Bool-cases (a.ptr == p)) [
    | inl e ↦ rw e (at, flag, apart, h)
    | inr e ↦ rw e (at, flag, Apart-set_dircache a p l apart, set_dircache-IsBucket i p l h)
  ]

  pub put-IsTable :
      (hash : ℕ → List Node) (i : ℕ) (l : List Node)
      → IsTable mask hash
      → IsBucket mask i l
      → IsTable mask (put hash i l)
  put-IsTable hash i l h k j = elim (Bool-cases (j == i)) [
    | inl e ↦
        let same : i ≡ j = ground (arith, e) in rw e (subst (λ (m : ℕ). IsBucket mask m l) same k)
    | inr e ↦ rw e (h j)
  ]

  pub insert-IsTable :
      (s : Nodes) (mp : ℕ) (pn : Node)
      → IsTable mask s.hash
      → HasKeyFlag pn
      → pn.mount ≡ mp
      → IsTable mask (pefs_nodehash_insert mask s mp pn).0.hash
  unfolding pefs_nodehash_insert
  insert-IsTable s mp pn h flag of_mp =
      let hd = pefs_nodehash_gethead mask pn.lowervp in
      elim (Option-cases (find_node mp pn.lowervp (s.hash hd))) [
        | inl e ↦
            rw (e, pefs_nodehash_insert)
              (put-IsTable s.hash hd (pn ∷ s.hash hd) h
                (refl, flag, rw of_mp (find_node-none mp pn.lowervp (s.hash hd) e), h hd))
        | inr (a, e) ↦ rw (e, pefs_nodehash_insert) (unfold vref in h)
      ]
