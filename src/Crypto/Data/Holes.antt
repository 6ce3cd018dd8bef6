-- ===== src/Crypto/Data/Holes.antt =====
-- Holes of a file, and data that is encrypted in several calls.
use pefs.Base.{
  ℕ, zero, suc, ◌+◌, ◌-◌, ◌*◌, ◌≤◌, ◌<◌, ◌≡◌, refl, sym, ◌∙◌, ap, subst, arith, min, true, List, [],
  ◌∷◌, ◌++◌, ◌==◌, length, length-append, length-take, length-drop, take, drop, replicate,
  length-replicate, leb, le→leb, Bool-cases, inl, inr, take-append-drop,
}
use mathlib.Core.List.{append_assoc}
use pefs.Base.Words.{le_word}
use pefs.Crypto.{Tkey, Primitives}
use pefs.Crypto.Data.{
  encrypt_loop, encrypt_sector, decrypt_loop, zero_longs, is_hole, pefs_data_encrypt,
  pefs_data_decrypt,
}
use pefs.Crypto.Data.Sectors.{
  encrypt_loop_nil, encrypt_loop_cons, decrypt_loop_nil, decrypt_loop_hole,
}

abbrev zeros : ℕ → List ℕ
zeros n = replicate n 0

drop-zeros : (m n r : ℕ) → r ≡ n - m → drop m (zeros n) ≡ zeros r
drop-zeros zero n r e = let same : n ≡ r = omega arith in ap zeros same
drop-zeros (suc m) zero r e = let same : 0 ≡ r = omega arith in ap zeros same
drop-zeros (suc m) (suc n) r e = drop-zeros m n r (omega arith)

take-zeros : (m n : ℕ) → m ≤ n → take m (zeros n) ≡ zeros m
take-zeros zero n h = refl
take-zeros (suc m) zero h = absurd (omega arith)
take-zeros (suc m) (suc n) h = ap (λ (r : List ℕ). 0 ∷ r) (take-zeros m n (omega arith))

suc_add : (m n : ℕ) → suc (m + n) ≡ suc m + n
suc_add m n = omega arith

zeros-add : (m n : ℕ) → zeros m ++ zeros n ≡ zeros (m + n)
zeros-add zero n = ap zeros (omega arith)
zeros-add (suc m) n = ap (λ (r : List ℕ). 0 ∷ r) (zeros-add m n) ∙ ap zeros (suc_add m n)

le_word-zeros : (n : ℕ) → le_word (zeros n) ≡ 0
unfolding le_word
le_word-zeros zero = refl
le_word-zeros (suc n) = omega (arith, le_word-zeros n)

zero_longs-zeros : (k n : ℕ) → 8 * k ≤ n → zero_longs k (zeros n) ≡ true
unfolding zero_longs
zero_longs-zeros zero n h = refl
zero_longs-zeros (suc k) n h =
    let first : le_word (take 8 (zeros n)) ≡ 0 =
      rw (take-zeros 8 n (omega arith)) (le_word-zeros 8) in
    rw first (rw (drop-zeros 8 n (n - 8) refl) (zero_longs-zeros k (n - 8) (omega arith)))

is_hole-zeros : (n : ℕ) → 4096 ≤ n → is_hole (zeros n) ≡ true
unfolding is_hole
is_hole-zeros n h =
    let long : leb 4096 (length (zeros n)) ≡ true =
      le→leb 4096 (length (zeros n)) (omega (arith, length-replicate {A = ℕ} n 0)) in
    rw (long, take-zeros 4096 n h) (zero_longs-zeros 512 4096 (omega arith))

decrypt_zeros :
    (lib : Primitives) (ptk : Tkey) (n f offset : ℕ)
    → 4096 * n ≤ f
    → decrypt_loop lib ptk f offset (zeros (4096 * n)) ≡ zeros (4096 * n)
decrypt_zeros lib ptk zero f offset h = decrypt_loop_nil lib ptk f offset [] refl
decrypt_zeros lib ptk (suc n) zero offset h = absurd (omega arith)
decrypt_zeros lib ptk (suc n) (suc f) offset h =
    let size = length-replicate {A = ℕ} 4096 0 in
    let split : zeros 4096 ++ zeros (4096 * n) ≡ zeros (4096 * suc n) =
      zeros-add 4096 (4096 * n) ∙ ap zeros (omega arith) in
    let hole : is_hole (zeros 4096 ++ zeros (4096 * n)) ≡ true =
      rw split (is_hole-zeros (4096 * suc n) (omega arith)) in
    subst (λ (b : List ℕ). decrypt_loop lib ptk (suc f) offset b ≡ b) split
      (decrypt_loop_hole lib ptk f offset (zeros 4096) (zeros (4096 * n)) size hole
        ∙ ap (λ (b : List ℕ). zeros 4096 ++ b)
            (decrypt_zeros lib ptk n f (offset + 4096) (omega arith)))

-- Sectors of zeros, which were never written, are read as zeros under every key, tweak and offset.
pefs_data_decrypt-zeros :
    (lib : Primitives) (ptk : Tkey) (offset n : ℕ)
    → pefs_data_decrypt lib ptk offset (replicate (4096 * n) 0) ≡ replicate (4096 * n) 0
unfolding pefs_data_decrypt
pefs_data_decrypt-zeros lib ptk offset n =
    decrypt_zeros lib ptk n (length (zeros (4096 * n))) offset
      (omega (arith, length-replicate {A = ℕ} (4096 * n) 0))

-- More fuel changes nothing.
encrypt_loop-fuel :
    (lib : Primitives) (ptk : Tkey) (f g offset : ℕ) (buf : List ℕ)
    → length buf ≤ f
    → length buf ≤ g
    → encrypt_loop lib ptk f offset buf ≡ encrypt_loop lib ptk g offset buf
unfolding encrypt_loop
encrypt_loop-fuel lib ptk zero g offset buf hf hg =
    sym (encrypt_loop_nil lib ptk g offset buf (omega arith))
encrypt_loop-fuel lib ptk (suc f) zero offset buf hf hg =
    encrypt_loop_nil lib ptk (suc f) offset buf (omega arith)
encrypt_loop-fuel lib ptk (suc f) (suc g) offset buf hf hg = elim (Bool-cases (length buf == 0)) [
  | inl nothing ↦ rw (nothing, encrypt_loop) refl
  | inr something ↦
      let b = min (length buf) 4096 in
      let n = length-drop b buf in
      let pos : 0 < length buf = ground arith in
      rw (something, encrypt_loop)
        (ap (λ (r : List ℕ). encrypt_sector lib ptk offset (take b buf) ++ r)
          (encrypt_loop-fuel lib ptk f g (offset + b) (drop b buf) (omega arith) (omega arith)))
]

encrypt_loop-append :
    (lib : Primitives) (ptk : Tkey) (n f g h offset offset' : ℕ) (a b : List ℕ)
    → length a ≡ 4096 * n
    → offset' ≡ offset + length a
    → length (a ++ b) ≤ f
    → length a ≤ g
    → length b ≤ h
    → encrypt_loop lib ptk f offset (a ++ b)
      ≡ encrypt_loop lib ptk g offset a ++ encrypt_loop lib ptk h offset' b
encrypt_loop-append lib ptk zero f g h offset offset' [] b e o hf hg hh =
    let same : offset' ≡ offset = omega arith in
    rw (same, encrypt_loop_nil lib ptk g offset [] refl)
      (encrypt_loop-fuel lib ptk f h offset b hf hh)
encrypt_loop-append lib ptk zero f g h offset offset' (x ∷ xs) b e o hf hg hh = absurd (omega arith)
encrypt_loop-append lib ptk (suc n) zero g h offset offset' a b e o hf hg hh =
    absurd (omega (arith, length-append a b))
encrypt_loop-append lib ptk (suc n) (suc f) zero h offset offset' a b e o hf hg hh =
    absurd (omega arith)
encrypt_loop-append lib ptk (suc n) (suc f) (suc g) h offset offset' a b e o hf hg hh =
    let sector = take 4096 a in
    let rest = drop 4096 a in
    let size : length sector ≡ 4096 = omega (arith, length-take 4096 a) in
    let d = length-drop 4096 a in
    let w = length-append a b in
    let later =
      encrypt_loop-append lib ptk n f g h (offset + 4096) offset' rest b (omega arith) (omega arith)
        (omega (arith, length-append rest b)) (omega arith) hh in
    subst
      (λ (t : List ℕ).
        encrypt_loop lib ptk (suc f) offset (t ++ b)
        ≡ encrypt_loop lib ptk (suc g) offset t ++ encrypt_loop lib ptk h offset' b)
      (take-append-drop 4096 a)
      (rw
        (
          append_assoc sector rest b,
          encrypt_loop_cons lib ptk f offset sector (rest ++ b) size,
          encrypt_loop_cons lib ptk g offset sector rest size,
          later,
        )
        (sym (
          append_assoc (encrypt_sector lib ptk offset sector)
            (encrypt_loop lib ptk g (offset + 4096) rest) (encrypt_loop lib ptk h offset' b))))

-- Data may be cut at a sector's end and encrypted in two calls: the result is that of one call.
pub pefs_data_encrypt-append :
    (lib : Primitives) (ptk : Tkey) (offset n : ℕ) (a b : List ℕ)
    → length a ≡ 4096 * n
    → pefs_data_encrypt lib ptk offset (a ++ b)
      ≡ pefs_data_encrypt lib ptk offset a ++ pefs_data_encrypt lib ptk (offset + length a) b
unfolding pefs_data_encrypt
pefs_data_encrypt-append lib ptk offset n a b e =
    encrypt_loop-append lib ptk n (length (a ++ b)) (length a) (length b) offset (offset + length a)
      a b e refl (omega arith) (omega arith) (omega arith)
