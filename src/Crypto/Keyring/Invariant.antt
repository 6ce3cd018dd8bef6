-- ===== src/Crypto/Keyring/Invariant.antt =====
-- The keys of a mount are pairwise apart, and a key is always added at the end.
use pefs.Base.{
  ℕ, ◌≡◌, ◌≢◌, ◌↔◌, ◌⊎◌, inl, inr, refl, sym, ◌∙◌, Bool, true, false, not, ◌&&◌, ◌||◌, Option, none,
  some, [], ◌∷◌, ◌++◌, if◌then◌else◌, Bool-cases, All, All-append, arith,
}
use pefs.Base.Int.{ℤ, pos, negsuc, is_nat}
use pefs.Crypto.{Key, IsKey}
use pefs.Crypto.Keyring.{
  Ring, eexist, added, same_keyid, same_data_ctx, add_scan, insert_after, add_insert, pefs_key_add,
  is_empty,
}
use pefs.Verify.{crypto_verify_bytes-eq_zero}

-- Two keys with different addresses, identifiers and data contexts.
pub record Apart (a b : Key) : Type 0 where
  pub ptr : a.ptr ≢ b.ptr
  pub keyid : a.keyid ≢ b.keyid
  pub data_ctx : a.data_ctx ≢ b.data_ctx

-- Every key is well formed and apart from those behind it.
abbrev pub IsRing : ℕ → Ring → Type 0
IsRing n [] = Unit
IsRing n (k ∷ ks) = IsKey n k × All (Apart k) ks × IsRing n ks

same_keyid_iff :
    (n : ℕ) (a b : Key) → IsKey n a → IsKey n b → (same_keyid a b ≡ true) ↔ (a.keyid ≡ b.keyid)
unfolding same_keyid
same_keyid_iff n a b ha hb = ground (
  arith,
  crypto_verify_bytes-eq_zero a.keyid b.keyid ha.keyid_bytes hb.keyid_bytes
      (ha.keyid_length ∙ sym hb.keyid_length),
)

same_data_ctx_iff :
    (n : ℕ) (a b : Key)
    → IsKey n a
    → IsKey n b
    → (same_data_ctx a b ≡ true) ↔ (a.data_ctx ≡ b.data_ctx)
unfolding same_data_ctx
same_data_ctx_iff n a b ha hb = ground (
  arith,
  crypto_verify_bytes-eq_zero a.data_ctx b.data_ctx ha.ctx_bytes hb.ctx_bytes
      (ha.ctx_length ∙ sym hb.ctx_length),
)

-- The last element's address, which is what the scan selects when it selects one.
last_ptr : Ring → Option ℕ → Option ℕ
last_ptr [] p = p
last_ptr (k ∷ ks) p = last_ptr ks (some k.ptr)

collides : Key → Ring → Bool
collides pk [] = false
collides pk (i ∷ keys) = (same_keyid pk i || same_data_ctx pk i) || collides pk keys

add_scan-eq :
    (index : ℤ) (pk : Key) (keys : Ring) (p : Option ℕ)
    → add_scan index pk 0 keys p
      ≡ (if collides pk keys then none else some (if is_nat index 1 then last_ptr keys p else p))
unfolding add_scan collides last_ptr
add_scan-eq index pk [] p = ground arith
add_scan-eq index pk (i ∷ keys) p =
    ground (arith, add_scan-eq index pk keys (some i.ptr), add_scan-eq index pk keys p)

last_ptr-ne :
    (k j : Key) (ks : Ring) (p : ℕ)
    → All (Apart k) (j ∷ ks)
    → last_ptr ks (some j.ptr) ≡ some p
    → k.ptr ≢ p
unfolding last_ptr
last_ptr-ne k j [] p h e = λ same. h.0.ptr (ground arith)
last_ptr-ne k j (i ∷ ks) p h e = last_ptr-ne k i ks p h.1 e

insert_after-last :
    (n : ℕ) (pk k : Key) (ks : Ring) (p : ℕ)
    → IsRing n (k ∷ ks)
    → last_ptr ks (some k.ptr) ≡ some p
    → insert_after p pk (k ∷ ks) ≡ (k ∷ ks) ++ pk ∷ []
unfolding insert_after last_ptr
insert_after-last n pk k [] p h e = ground arith
insert_after-last n pk k (j ∷ ks) p h e =
    let other = last_ptr-ne k j ks p h.1 e in ground (arith, insert_after-last n pk j ks p h.2 e)

last_ptr-some : (k : Key) (ks : Ring) → (p : ℕ) × (last_ptr ks (some k.ptr) ≡ some p)
unfolding last_ptr
last_ptr-some k [] = (k.ptr, refl)
last_ptr-some k (j ∷ ks) = last_ptr-some j ks

-- A key of the list has the new key's identifier or its data context.
abbrev pub Collides : Key → Ring → Type 0
Collides pk [] = ⊥
Collides pk (i ∷ keys) = (pk.keyid ≡ i.keyid) ⊎ (pk.data_ctx ≡ i.data_ctx) ⊎ Collides pk keys

collides_iff :
    (n : ℕ) (pk : Key) (keys : Ring)
    → IsKey n pk
    → IsRing n keys
    → (collides pk keys ≡ true) ↔ Collides pk keys
unfolding collides
collides_iff n pk [] hk h = (λ e. cc, λ e. absurd e)
collides_iff n pk (i ∷ keys) hk h = ground (
  arith,
  same_keyid_iff n pk i hk h.0,
  same_data_ctx_iff n pk i hk h.0,
  collides_iff n pk keys hk h.2,
)

is_zero_iff : (index : ℤ) → (is_nat index 0 ≡ true) ↔ (index ≡ pos 0)
is_zero_iff (pos n) = ground arith
is_zero_iff (negsuc n) = ground arith

is_empty_iff : (keys : Ring) → (is_empty keys ≡ true) ↔ (keys ≡ [])
is_empty_iff [] = ground arith
is_empty_iff (k ∷ ks) = ground arith

refuses : ℤ → Key → Ring → Bool
refuses index pk keys = (is_nat index 0 && not (is_empty keys)) || collides pk keys

key_add-eq :
    (n : ℕ) (keys : Ring) (index : ℤ) (pk : Key)
    → IsRing n keys
    → pefs_key_add keys index pk
      ≡ (if refuses index pk keys then eexist else added (keys ++ pk ∷ []))
unfolding pefs_key_add add_insert refuses
key_add-eq n [] index pk h = ground (arith, add_scan-eq index pk [] none)
key_add-eq n (k ∷ ks) index pk h =
    let (p, e) = last_ptr-some k ks in
    let placed = insert_after-last n pk k ks p h e in
    let scanned : add_scan index pk 0 (k ∷ ks) none
        ≡ (if collides pk (k ∷ ks) then none else some (if is_nat index 1 then some p else none)) =
      add_scan-eq index pk (k ∷ ks) none ∙ unfold last_ptr in rw e in
    rw (scanned, pefs_key_add) (ground (arith, placed))

-- The key has index 0 where there are keys already, or collides with one of them.
abbrev pub Refused : ℤ → Key → Ring → Type 0
Refused index pk keys = ((index ≡ pos 0) × (keys ≢ [])) ⊎ Collides pk keys

refuses-Refused :
    (n : ℕ) (keys : Ring) (index : ℤ) (pk : Key)
    → IsRing n keys
    → IsKey n pk
    → refuses index pk keys ≡ true
    → Refused index pk keys
unfolding refuses
refuses-Refused n keys index pk h hk refused = elim (Bool-cases (collides pk keys)) [
  | inl hit ↦ inr ((collides_iff n pk keys hk h).0 hit)
  | inr miss ↦
      let z = is_zero_iff index in
      let m = is_empty_iff keys in
      let zero_index : is_nat index 0 ≡ true = ground arith in
      let filled : is_empty keys ≡ false = ground arith in inl (z.0 zero_index, λ e. cc (m.1 e))
]

Refused-refuses :
    (n : ℕ) (keys : Ring) (index : ℤ) (pk : Key)
    → IsRing n keys
    → IsKey n pk
    → Refused index pk keys
    → refuses index pk keys ≡ true
unfolding refuses
Refused-refuses n keys index pk h hk (inl (z, m)) =
    let zero_index = (is_zero_iff index).1 z in
    let filled : is_empty keys ≡ false = ground (arith, is_empty_iff keys) in
    rw (zero_index, filled)
Refused-refuses n keys index pk h hk (inr c) =
    let hit = (collides_iff n pk keys hk h).1 c in ground arith

-- For a list of keys that are well formed and pairwise apart, and a well formed key:
-- pefs_key_add refuses a key with EEXIST when the index is 0 and the list is not empty, or a key
-- of the list has its identifier or its data context. In all other cases it appends the key, at
-- every index: the position that the caller asks for has no effect.
pub pefs_key_add_lem :
    (n : ℕ) (keys : Ring) (index : ℤ) (pk : Key)
    → IsRing n keys
    → IsKey n pk
    → (Refused index pk keys × (pefs_key_add keys index pk ≡ eexist))
      ⊎ ((¬ Refused index pk keys) × (pefs_key_add keys index pk ≡ added (keys ++ pk ∷ [])))
pefs_key_add_lem n keys index pk h hk = elim (Bool-cases (refuses index pk keys)) [
  | inl refused ↦
      inl (
        refuses-Refused n keys index pk h hk refused,
        key_add-eq n keys index pk h ∙ rw refused refl,
      )
  | inr taken ↦ inr (
    λ r. cc (Refused-refuses n keys index pk h hk r),
    key_add-eq n keys index pk h ∙ rw taken refl,
  )
]

IsRing-append :
    (n : ℕ) (pk : Key) (keys : Ring)
    → IsRing n keys
    → IsKey n pk
    → ¬ Collides pk keys
    → All (λ i. i.ptr ≢ pk.ptr) keys
    → IsRing n (keys ++ pk ∷ [])
IsRing-append n pk [] h hk c fresh = (hk, tt, tt)
IsRing-append n pk (k ∷ ks) h hk c fresh =
    let apart : Apart k pk = record {
      ptr = fresh.0;
      keyid = λ e. c (inl (sym e));
      data_ctx = λ e. c (inr (inl (sym e)));
    } in
    (
      h.0,
      All-append (Apart k) ks (pk ∷ []) h.1 (apart, tt),
      IsRing-append n pk ks h.2 hk (λ d. c (inr (inr d))) fresh.1,
    )

-- The keys stay well formed and pairwise apart when pefs_key_add takes a key of a new address.
pub pefs_key_add-IsRing :
    (n : ℕ) (keys keys' : Ring) (index : ℤ) (pk : Key)
    → IsRing n keys
    → IsKey n pk
    → All (λ i. i.ptr ≢ pk.ptr) keys
    → pefs_key_add keys index pk ≡ added keys'
    → IsRing n keys'
pefs_key_add-IsRing n keys keys' index pk h hk fresh e = elim (Bool-cases (refuses index pk keys)) [
  | inl refused ↦ absurd (ground (arith, key_add-eq n keys index pk h))
  | inr taken ↦
      let result : keys' ≡ keys ++ pk ∷ [] = ground (arith, key_add-eq n keys index pk h) in
      rw result (
        IsRing-append n pk keys h hk (λ c. cc (Refused-refuses n keys index pk h hk (inr c))) fresh)
]
