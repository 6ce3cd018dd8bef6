-- ===== src/Crypto/Keyring/Lookup.antt =====
-- Looking keys up and removing them.
use pefs.Base.{
  ℕ, zero, suc, ◌+◌, ◌-◌, ◌≡◌, ◌≢◌, ◌↔◌, ◌⊎◌, ◌≤◌, inl, inr, refl, sym, ◌∙◌, ap, true, false,
  Option, none, some, List, [], ◌∷◌, ◌++◌, ◌==◌, ==_refl, Bool-cases, All, arith, length, map,
}
use mathlib.Core.List.{append_assoc, append-nil}
use pefs.Crypto.{Key, IsKey}
use pefs.Crypto.Keyring.{
  Ring, pefs_key_lookup, unlink, pefs_key_remove, pefs_key_release, remove_all_loop,
  pefs_key_remove_all,
}
use pefs.Crypto.Keyring.Invariant.{Apart, IsRing}
use pefs.Verify.{crypto_verify_bytes, crypto_verify_bytes-eq_zero}

-- Some key of the list.
abbrev pub Holds : Key → Ring → Type 0
Holds pk [] = ⊥
Holds pk (k ∷ ks) = (pk ≡ k) ⊎ Holds pk ks

Holds-Apart : (k pk : Key) (ks : Ring) → All (Apart k) ks → Holds pk ks → Apart k pk
Holds-Apart k pk [] h e = absurd e
Holds-Apart k pk (j ∷ ks) h (inl e) = rw e h.0
Holds-Apart k pk (j ∷ ks) h (inr e) = Holds-Apart k pk ks h.1 e

Holds-IsKey : (n : ℕ) (pk : Key) (ks : Ring) → IsRing n ks → Holds pk ks → IsKey n pk
Holds-IsKey n pk [] h e = absurd e
Holds-IsKey n pk (j ∷ ks) h (inl e) = rw e h.0
Holds-IsKey n pk (j ∷ ks) h (inr e) = Holds-IsKey n pk ks h.2 e

keyid_test :
    (n : ℕ) (k pk : Key)
    → IsKey n k
    → IsKey n pk
    → (crypto_verify_bytes k.keyid pk.keyid ≡ 0) ↔ (k.keyid ≡ pk.keyid)
keyid_test n k pk h hk =
    crypto_verify_bytes-eq_zero k.keyid pk.keyid h.keyid_bytes hk.keyid_bytes
      (h.keyid_length ∙ sym hk.keyid_length)

-- Every key of a list of well formed keys that are pairwise apart is found under its identifier.
pefs_key_lookup-Holds :
    (n : ℕ) (keys : Ring) (pk : Key)
    → IsRing n keys
    → Holds pk keys
    → pefs_key_lookup keys pk.keyid ≡ some pk
unfolding pefs_key_lookup
pefs_key_lookup-Holds n [] pk h e = absurd e
pefs_key_lookup-Holds n (k ∷ ks) pk h (inl e) =
    let hk : IsKey n pk = rw e h.0 in
    let same : k.keyid ≡ pk.keyid = ap (λ (j : Key). j.keyid) (sym e) in
    rw ((keyid_test n k pk h.0 hk).1 same) (ap some (sym e))
pefs_key_lookup-Holds n (k ∷ ks) pk h (inr e) =
    let apart = Holds-Apart k pk ks h.1 e in
    let test = keyid_test n k pk h.0 (Holds-IsKey n pk ks h.2 e) in
    ground (arith, test, apart.keyid, pefs_key_lookup-Holds n ks pk h.2 e)

unlink-All : (P : Key → Type 0) (p : ℕ) (keys : Ring) → All P keys → All P (unlink p keys)
unfolding unlink
unlink-All P p [] h = tt
unlink-All P p (k ∷ ks) h = elim (Bool-cases (k.ptr == p)) [
  | inl hit ↦ rw hit h.1
  | inr miss ↦ rw miss (h.0, unlink-All P p ks h.1)
]

unlink-IsRing : (n p : ℕ) (keys : Ring) → IsRing n keys → IsRing n (unlink p keys)
unfolding unlink
unlink-IsRing n p [] h = tt
unlink-IsRing n p (k ∷ ks) h = elim (Bool-cases (k.ptr == p)) [
  | inl hit ↦ rw hit h.2
  | inr miss ↦ rw miss (h.0, unlink-All (Apart k) p ks h.1, unlink-IsRing n p ks h.2)
]

-- pefs_key_lookup finds nothing under an identifier that no key has.
lookup-none :
    (n : ℕ) (keys : Ring) (pk : Key)
    → IsRing n keys
    → IsKey n pk
    → All (λ k. k.keyid ≢ pk.keyid) keys
    → pefs_key_lookup keys pk.keyid ≡ none
unfolding pefs_key_lookup
lookup-none n [] pk h hk other = refl
lookup-none n (k ∷ ks) pk h hk other =
    ground (arith, keyid_test n k pk h.0 hk, lookup-none n ks pk h.2 hk other.1, other.0)

Apart-keyid : (pk : Key) (keys : Ring) → All (Apart pk) keys → All (λ k. k.keyid ≢ pk.keyid) keys
Apart-keyid pk [] h = tt
Apart-keyid pk (k ∷ ks) h = (λ e. h.0.keyid (sym e), Apart-keyid pk ks h.1)

unlink-keyid :
    (n : ℕ) (pk : Key) (keys : Ring)
    → IsRing n keys
    → Holds pk keys
    → All (λ k. k.keyid ≢ pk.keyid) (unlink pk.ptr keys)
unfolding unlink
unlink-keyid n pk [] h e = absurd e
unlink-keyid n pk (k ∷ ks) h (inl e) =
    let hit : (k.ptr == pk.ptr) ≡ true = rw (ap (λ (j : Key). j.ptr) e) (==_refl k.ptr) in
    rw hit (Apart-keyid pk ks (rw e h.1))
unlink-keyid n pk (k ∷ ks) h (inr e) =
    let apart = Holds-Apart k pk ks h.1 e in
    let miss : (k.ptr == pk.ptr) ≡ false = ground (arith, apart.ptr) in
    rw miss (apart.keyid, unlink-keyid n pk ks h.2 e)

Holds-unlink : (q : Key) (p : ℕ) (keys : Ring) → Holds q keys → q.ptr ≢ p → Holds q (unlink p keys)
unfolding unlink
Holds-unlink q p [] h other = h
Holds-unlink q p (k ∷ ks) (inl e) other =
    let miss : (k.ptr == p) ≡ false = ground arith in rw miss (inl e)
Holds-unlink q p (k ∷ ks) (inr e) other = elim (Bool-cases (k.ptr == p)) [
  | inl hit ↦ rw hit e
  | inr miss ↦ rw miss (inr (Holds-unlink q p ks e other))
]

-- After pefs_key_remove of a key of a list of well formed keys that are pairwise apart, nothing
-- is found under its identifier, and the other
-- keys are still well formed and apart.
pub pefs_key_remove_lem :
    (n : ℕ) (keys : Ring) (pk : Key)
    → IsRing n keys
    → Holds pk keys
    → let keys' = (pefs_key_remove keys pk).0 in
      (pefs_key_lookup keys' pk.keyid ≡ none) × IsRing n keys'
unfolding pefs_key_remove
pefs_key_remove_lem n keys pk h e =
    let ring = unlink-IsRing n pk.ptr keys h in
    (
      lookup-none n (unlink pk.ptr keys) pk ring (Holds-IsKey n pk keys h e)
          (unlink-keyid n pk keys h e),
      ring,
    )

-- Every other key of a list of well formed keys that are pairwise apart, by its address, is found
-- as before.
pub pefs_key_remove-others :
    (n : ℕ) (keys : Ring) (pk q : Key)
    → IsRing n keys
    → Holds q keys
    → q.ptr ≢ pk.ptr
    → pefs_key_lookup (pefs_key_remove keys pk).0 q.keyid ≡ some q
unfolding pefs_key_remove
pefs_key_remove-others n keys pk q h in_list other =
    pefs_key_lookup-Holds n (unlink pk.ptr keys) q (unlink-IsRing n pk.ptr keys h)
      (Holds-unlink q pk.ptr keys in_list other)

remove_all_loop-eq :
    (fuel n : ℕ) (keys : Ring) (left : List (Option Key))
    → length keys ≤ fuel
    → remove_all_loop fuel n keys left ≡ (n + length keys, [], left ++ map pefs_key_release keys)
unfolding remove_all_loop unlink
remove_all_loop-eq zero n [] left h = ground (arith, append-nil left)
remove_all_loop-eq zero n (k ∷ ks) left h = absurd (omega arith)
remove_all_loop-eq (suc fuel) n [] left h = ground (arith, append-nil left)
remove_all_loop-eq (suc fuel) n (k ∷ ks) left h =
    let hit = ==_refl k.ptr in
    let rest = remove_all_loop-eq fuel (n + 1) ks (left ++ pefs_key_release k ∷ []) (omega arith) in
    ground (arith, rest, append_assoc left (pefs_key_release k ∷ []) (map pefs_key_release ks))

-- What is left of each key, in the list's order: nothing of one that had a single reference, and of
-- any other the key with one reference less.
abbrev pub Dropped : Ring → List (Option Key) → Type 0
Dropped [] [] = Unit
Dropped [] (o ∷ os) = ⊥
Dropped (k ∷ ks) [] = ⊥
Dropped (k ∷ ks) (o ∷ os) =
    (((k.refcnt ≡ 1) × (o ≡ none))
      ⊎ ((2 ≤ k.refcnt) × (o ≡ some (record k { refcnt = k.refcnt - 1 }))))
    × Dropped ks os

map-Dropped :
    (keys : Ring) → All (λ k. 1 ≤ k.refcnt) keys → Dropped keys (map pefs_key_release keys)
unfolding pefs_key_release
map-Dropped [] h = tt
map-Dropped (k ∷ ks) h =
    let rest = map-Dropped ks h.1 in
    elim (Bool-cases (k.refcnt == 1)) [
      | inl last ↦ (inl (ground arith, rw last refl), rest)
      | inr more ↦ (inr (ground (arith, h.0), rw more refl), rest)
    ]

-- pefs_key_remove_all of keys with a reference each empties the list and returns the number of the
-- keys; each key, in the list's order, has one reference less then, or is freed when that was its
-- last one.
pub pefs_key_remove_all_lem :
    (keys : Ring)
    → All (λ k. 1 ≤ k.refcnt) keys
    → (left : List (Option Key)) × (pefs_key_remove_all keys ≡ (length keys, [], left))
      × Dropped keys left
unfolding pefs_key_remove_all
pefs_key_remove_all_lem keys h = (
  map pefs_key_release keys,
  ground (arith, remove_all_loop-eq (length keys) 0 keys [] (omega arith)),
  map-Dropped keys h,
)
