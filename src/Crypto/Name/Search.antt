-- ===== src/Crypto/Name/Search.antt =====
-- The loop of pefs_name_decrypt over the keys tries each key once.
use pefs.Base.{
  ℕ, zero, suc, ◌+◌, ◌-◌, ◌≤◌, ◌<◌, ◌≡◌, refl, sym, ◌∙◌, ap, Bool, true, false, arith, Option, none,
  some, [], ◌∷◌, ◌++◌, length, take, drop, get_elem?, reverse, ltb, ltb→lt, lt→ltb, le→ltb, ◌==◌,
  Bool-cases, inl, inr, if◌then◌else◌,
}
use mathlib.Core.List.{reverse-append}
use pefs.Crypto.{Key}
use pefs.Crypto.Keyring.{Ring}
use pefs.Crypto.Name.{search_key}

-- The first key that passes a test.
unfoldable pub find_first : (Key → Bool) → Ring → Option Key
find_first matches [] = none
find_first matches (k ∷ ks) = if matches k then some k else find_first matches ks

first_hit :
    (matches : Key → Bool) (k : Key) (ks : Ring)
    → matches k ≡ true
    → some k ≡ find_first matches (k ∷ ks)
unfolding find_first
first_hit matches k ks e = rw e

first_miss :
    (matches : Key → Bool) (k : Key) (ks : Ring)
    → matches k ≡ false
    → find_first matches ks ≡ find_first matches (k ∷ ks)
unfolding find_first
first_miss matches k ks e = rw e

-- From a position to the end, then from the position before it back to the beginning.
abbrev pub search_order : Ring → ℕ → Ring
search_order keys start = drop start keys ++ reverse (take start keys)

at :
    (keys : Ring) (i : ℕ)
    → i < length keys
    → (k : Key) × (get_elem? keys i ≡ some k)
      × (drop i keys ≡ k ∷ drop (suc i) keys)
      × (take (suc i) keys ≡ take i keys ++ k ∷ [])
at [] i h = absurd (omega arith)
at (k ∷ ks) zero h = (k, refl, refl, refl)
at (k ∷ ks) (suc i) h = let (j, g, d, t) = at ks i (omega arith) in (j, g, d, ap (λ r. k ∷ r) t)

-- One round at a key that does not match, in the two directions.
hit :
    (matches : Key → Bool) (keys : Ring) (start fuel i : ℕ) (rev : Bool) (k : Key)
    → get_elem? keys i ≡ some k
    → matches k ≡ true
    → search_key matches keys start (suc fuel) i rev ≡ some k
unfolding search_key
hit matches keys start fuel i rev k g e = rw (g, search_key) (rw e)

miss_back :
    (matches : Key → Bool) (keys : Ring) (start fuel i : ℕ) (k : Key)
    → get_elem? keys (suc i) ≡ some k
    → matches k ≡ false
    → search_key matches keys start (suc fuel) (suc i) true
      ≡ search_key matches keys start fuel i true
unfolding search_key
miss_back matches keys start fuel i k g e =
    let less : suc i - 1 ≡ i = omega arith in
    let nonzero : (suc i == 0) ≡ false = ground arith in
    rw (g, search_key)
      (rw e (rw nonzero (ap (λ (j : ℕ). search_key matches keys start fuel j true) less)))

miss_forward :
    (matches : Key → Bool) (keys : Ring) (start fuel i : ℕ) (k : Key)
    → get_elem? keys i ≡ some k
    → matches k ≡ false
    → suc i < length keys
    → search_key matches keys start (suc fuel) i false
      ≡ search_key matches keys start fuel (suc i) false
unfolding search_key
miss_forward matches keys start fuel i k g e more =
    let next : i + 1 ≡ suc i = omega arith in
    let inside : ltb (i + 1) (length keys) ≡ true = lt→ltb (i + 1) (length keys) (omega arith) in
    rw (g, search_key)
      (rw e (rw inside (ap (λ (j : ℕ). search_key matches keys start fuel j false) next)))

search_back :
    (matches : Key → Bool) (keys : Ring) (start fuel i : ℕ)
    → i < length keys
    → i < fuel
    → search_key matches keys start fuel i true ≡ find_first matches (reverse (take (suc i) keys))
search_back matches keys start zero i h f = absurd (omega arith)
search_back matches keys start (suc fuel) zero h f =
    let (k, g, d, t) = at keys 0 h in
    rw t (unfold search_key find_first in rw (g, search_key) (ground arith))
search_back matches keys start (suc fuel) (suc i) h f =
    let (k, g, d, t) = at keys (suc i) h in
    let rest = search_back matches keys start fuel i (omega arith) (omega arith) in
    rw (t, reverse-append (take (suc i) keys) (k ∷ []))
      (elim (Bool-cases (matches k)) [
        | inl e ↦
            hit matches keys start fuel (suc i) true k g e
            ∙ first_hit matches k (reverse (take (suc i) keys)) e
        | inr e ↦
            miss_back matches keys start fuel i k g e
            ∙ (rest ∙ first_miss matches k (reverse (take (suc i) keys)) e)
      ])

drop_end : (keys : Ring) (i : ℕ) → length keys ≤ i → drop i keys ≡ []
drop_end [] zero h = refl
drop_end [] (suc i) h = refl
drop_end (k ∷ ks) zero h = absurd (omega arith)
drop_end (k ∷ ks) (suc i) h = drop_end ks i (omega arith)

-- At the end of the list the loop turns back, from the position before `start`.
turn :
    (matches : Key → Bool) (keys : Ring) (start fuel : ℕ)
    → start < length keys
    → start ≤ fuel
    → elim (start == 0) as (λ _. Option Key) [
      | true ↦ none
      | false ↦ search_key matches keys start fuel (start - 1) true
    ]
      ≡ find_first matches (reverse (take start keys))
unfolding find_first
turn matches keys zero fuel h f = refl
turn matches keys (suc s) fuel h f =
    let less : suc s - 1 ≡ s = omega arith in
    let nonzero : (suc s == 0) ≡ false = ground arith in
    rw (nonzero, less) (search_back matches keys (suc s) fuel s (omega arith) (omega arith))

miss_last :
    (matches : Key → Bool) (keys : Ring) (start fuel i : ℕ) (k : Key)
    → get_elem? keys i ≡ some k
    → matches k ≡ false
    → length keys ≤ suc i
    → start < length keys
    → start ≤ fuel
    → search_key matches keys start (suc fuel) i false
      ≡ find_first matches (reverse (take start keys))
unfolding search_key
miss_last matches keys start fuel i k g e last h f =
    let outside : ltb (i + 1) (length keys) ≡ false = le→ltb (i + 1) (length keys) (omega arith) in
    rw (g, search_key) (rw e (rw outside (turn matches keys start fuel h f)))

search_forward :
    (matches : Key → Bool) (keys : Ring) (start fuel i : ℕ)
    → start ≤ i
    → i < length keys
    → length keys + start ≤ fuel + i
    → search_key matches keys start fuel i false
      ≡ find_first matches (drop i keys ++ reverse (take start keys))
search_forward matches keys start zero i s h f = absurd (omega arith)
search_forward matches keys start (suc fuel) i s h f =
    let (k, g, d, t) = at keys i h in
    let back = reverse (take start keys) in
    rw d (elim (Bool-cases (matches k)) [
      | inl e ↦
          hit matches keys start fuel i false k g e
          ∙ first_hit matches k (drop (suc i) keys ++ back) e
      | inr e ↦ elim (Bool-cases (ltb (suc i) (length keys))) [
        | inl more ↦
            let inside = ltb→lt (suc i) (length keys) more in
            miss_forward matches keys start fuel i k g e inside
            ∙ (search_forward matches keys start fuel (suc i) (omega arith) inside (omega arith)
                ∙ first_miss matches k (drop (suc i) keys ++ back) e)
        | inr last ↦
            let outside : length keys ≤ suc i = ground arith in
            miss_last matches keys start fuel i k g e outside (omega arith) (omega arith)
            ∙ (ap (λ r. find_first matches (r ++ back)) (sym (drop_end keys (suc i) outside))
                ∙ first_miss matches k (drop (suc i) keys ++ back) e)
      ]
    ])

-- From a position inside the list, with the list's length as fuel, the loop returns the first key
-- that matches in this order: the keys from `start` to the end, then those before `start` backward.
pub search_key_lem :
    (matches : Key → Bool) (keys : Ring) (start : ℕ)
    → start < length keys
    → search_key matches keys start (length keys) start false
      ≡ find_first matches (search_order keys start)
search_key_lem matches keys start h =
    search_forward matches keys start (length keys) start (omega arith) h (omega arith)
