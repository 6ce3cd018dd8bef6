-- ===== src/Hmac/Genkey.antt =====
-- The keys that PBKDF2 derives, by their length.
use pefs.Base.{
  ℕ, zero, suc, ◌+◌, ◌-◌, ◌%◌, ◌^◌, bit_xor, ◌≤◌, ◌<◌, ◌≡◌, refl, sym, ◌∙◌, ap, ap₂, arith, min,
  false, List, [], ◌∷◌, ◌++◌, length, length-append, length-take, length-replicate, take, replicate,
  ◌==◌, leb, leb→le, Bool-cases, inl, inr,
}
use mathlib.Core.List.{append-nil}
use pefs.Base.Bytes.{xor_bytes, length-xor_bytes}
use pefs.Hmac.{
  Sha512, IsSha512, hmac_sha512, iterate, key_block, counter, genkey_loop,
  pbkdf2_hmac_sha512_genkey,
}
use pefs.Hmac.Laws.{length-hmac_sha512}

take-xor :
    (n : ℕ) (xs ys : List ℕ)
    → length xs ≡ length ys
    → take n (xor_bytes xs ys) ≡ xor_bytes (take n xs) (take n ys)
unfolding xor_bytes
take-xor zero xs ys h = refl
take-xor (suc n) [] [] h = refl
take-xor (suc n) [] (y ∷ ys) h = absurd (omega arith)
take-xor (suc n) (x ∷ xs) [] h = absurd (omega arith)
take-xor (suc n) (x ∷ xs) (y ∷ ys) h =
    ap (λ (r : List ℕ). bit_xor x y ∷ r) (take-xor n xs ys (omega arith))

take-take : (n m : ℕ) (xs : List ℕ) → n ≤ m → take n (take m xs) ≡ take n xs
take-take zero m xs h = refl
take-take (suc n) zero xs h = absurd (omega arith)
take-take (suc n) (suc m) [] h = refl
take-take (suc n) (suc m) (x ∷ xs) h = ap (λ (r : List ℕ). x ∷ r) (take-take n m xs (omega arith))

take-append_short : (n : ℕ) (xs ys : List ℕ) → n ≤ length xs → take n (xs ++ ys) ≡ take n xs
take-append_short zero xs ys h = refl
take-append_short (suc n) [] ys h = absurd (omega arith)
take-append_short (suc n) (x ∷ xs) ys h =
    ap (λ (r : List ℕ). x ∷ r) (take-append_short n xs ys (omega arith))

take-append_long :
    (n m : ℕ) (xs ys : List ℕ) → n ≡ length xs + m → take n (xs ++ ys) ≡ xs ++ take m ys
take-append_long n m [] ys h = let same : n ≡ m = omega arith in ap (λ (k : ℕ). take k ys) same
take-append_long zero m (x ∷ xs) ys h = absurd (omega arith)
take-append_long (suc n) m (x ∷ xs) ys h =
    ap (λ (r : List ℕ). x ∷ r) (take-append_long n m xs ys (omega arith))

take-replicate : (n m : ℕ) → n ≤ m → take n (replicate {A = ℕ} m 0) ≡ replicate n 0
take-replicate zero m h = refl
take-replicate (suc n) zero h = absurd (omega arith)
take-replicate (suc n) (suc m) h = ap (λ (r : List ℕ). 0 ∷ r) (take-replicate n m (omega arith))

module _ {C : Type 0} (sha : Sha512 C) (good : IsSha512 sha) (salt passphrase : List ℕ)
    (iterations : ℕ) where
  length-iterate :
      (rounds : ℕ) (md keyp : List ℕ)
      → length keyp ≤ 64
      → length (iterate sha passphrase rounds md keyp) ≡ length keyp
  unfolding iterate
  length-iterate zero md keyp h = refl
  length-iterate (suc rounds) md keyp h =
      let md' = hmac_sha512 sha passphrase md 0 in
      let n = length-hmac_sha512 sha good passphrase md in
      let x =
        length-xor_bytes keyp (take (length keyp) md')
          (omega (arith, length-take (length keyp) md')) in
      length-iterate rounds md' (xor_bytes keyp (take (length keyp) md')) (omega arith) ∙ x

  take-iterate :
      (n rounds : ℕ) (md keyp : List ℕ)
      → length keyp ≤ 64
      → n ≤ length keyp
      → take n (iterate sha passphrase rounds md keyp)
        ≡ iterate sha passphrase rounds md (take n keyp)
  unfolding iterate
  take-iterate n zero md keyp h k = refl
  take-iterate n (suc rounds) md keyp h k =
      let md' = hmac_sha512 sha passphrase md 0 in
      let len = length-hmac_sha512 sha good passphrase md in
      let fits : length keyp ≡ length (take (length keyp) md') =
        omega (arith, length-take (length keyp) md') in
      let x = length-xor_bytes keyp (take (length keyp) md') (omega arith) in
      let size : length (take n keyp) ≡ n = omega (arith, length-take n keyp) in
      take-iterate n rounds md' (xor_bytes keyp (take (length keyp) md')) (omega arith)
        (omega arith)
      ∙ ap (iterate sha passphrase rounds md') (
          rw (take-xor n keyp (take (length keyp) md') fits, take-take n (length keyp) md' k, size)
            refl)

  length-key_block :
      (count bsize : ℕ)
      → bsize ≤ 64
      → length (key_block sha salt passphrase iterations count bsize) ≡ bsize
  unfolding key_block
  length-key_block count bsize h =
      let md = hmac_sha512 sha passphrase (salt ++ counter sha count) 0 in
      let n = length-hmac_sha512 sha good passphrase (salt ++ counter sha count) in
      let z = length-replicate {A = ℕ} bsize 0 in
      let t = length-take bsize md in
      let x = length-xor_bytes (replicate bsize 0) (take bsize md) (omega arith) in
      length-iterate (iterations - 1) md (xor_bytes (replicate bsize 0) (take bsize md))
        (omega arith)
      ∙ (x ∙ z)

  take-key_block :
      (count n bsize : ℕ)
      → n ≤ bsize
      → bsize ≤ 64
      → take n (key_block sha salt passphrase iterations count bsize)
        ≡ key_block sha salt passphrase iterations count n
  unfolding key_block
  take-key_block count n bsize k h =
      let md = hmac_sha512 sha passphrase (salt ++ counter sha count) 0 in
      let len = length-hmac_sha512 sha good passphrase (salt ++ counter sha count) in
      let z = length-replicate {A = ℕ} bsize 0 in
      let t = length-take bsize md in
      let x = length-xor_bytes (replicate bsize 0) (take bsize md) (omega arith) in
      take-iterate n (iterations - 1) md (xor_bytes (replicate bsize 0) (take bsize md))
        (omega arith) (omega arith)
      ∙ ap (iterate sha passphrase (iterations - 1) md) (
          rw
            (
              take-xor n (replicate bsize 0) (take bsize md) (omega arith),
              take-replicate n bsize k,
              take-take n bsize md k,
            )
            refl)

  loop_nil : (fuel count : ℕ) → genkey_loop sha salt passphrase iterations fuel 0 count ≡ []
  unfolding genkey_loop
  loop_nil zero count = refl
  loop_nil (suc fuel) count = refl

  loop_cons :
      (fuel k count : ℕ)
      → 0 < k
      → genkey_loop sha salt passphrase iterations (suc fuel) k count
        ≡ key_block sha salt passphrase iterations count (min k 64)
          ++ genkey_loop sha salt passphrase iterations fuel (k - min k 64) ((count + 1) % 2 ^ 32)
  unfolding genkey_loop
  loop_cons fuel k count pos =
      let more : (k == 0) ≡ false = ground arith in rw (more, genkey_loop) refl

  length-loop :
      (fuel k count : ℕ)
      → k ≤ fuel
      → length (genkey_loop sha salt passphrase iterations fuel k count) ≡ k
  length-loop fuel zero count h = rw (loop_nil fuel count) refl
  length-loop zero (suc k) count h = absurd (omega arith)
  length-loop (suc fuel) (suc k) count h =
      let b = min (suc k) 64 in
      let next =
        genkey_loop sha salt passphrase iterations fuel (suc k - b) ((count + 1) % 2 ^ 32) in
      rw (loop_cons fuel (suc k) count (omega arith)) (
        omega (
          arith,
          length-append (key_block sha salt passphrase iterations count b) next,
          length-key_block count b (omega arith),
          length-loop fuel (suc k - b) ((count + 1) % 2 ^ 32) (omega arith),
        ))

  take-loop :
      (f g k n count : ℕ)
      → k ≤ n
      → k ≤ f
      → n ≤ g
      → take k (genkey_loop sha salt passphrase iterations g n count)
        ≡ genkey_loop sha salt passphrase iterations f k count
  take-loop f g zero n count h hf hg = sym (loop_nil f count)
  take-loop zero g (suc k) n count h hf hg = absurd (omega arith)
  take-loop (suc f) zero (suc k) n count h hf hg = absurd (omega arith)
  take-loop (suc f) (suc g) (suc k) n count h hf hg =
      let j = suc k in
      let next =
        genkey_loop sha salt passphrase iterations g (n - min n 64) ((count + 1) % 2 ^ 32) in
      let first = key_block sha salt passphrase iterations count (min n 64) in
      let size = length-key_block count (min n 64) (omega arith) in
      rw (loop_cons g n count (omega arith), loop_cons f j count (omega arith))
        (elim (Bool-cases (leb j 64)) [
          | inl small ↦
              let le = leb→le j 64 small in
              let cut : min j 64 ≡ j = omega arith in
              let done : j - min j 64 ≡ 0 = omega arith in
              rw (done, loop_nil f ((count + 1) % 2 ^ 32), cut)
                (take-append_short j first next (omega arith)
                  ∙ (take-key_block count j (min n 64) (omega arith) (omega arith)
                      ∙ sym (append-nil (key_block sha salt passphrase iterations count j))))
          | inr large ↦
              let more : 64 < j = ground arith in
              let full : min n 64 ≡ min j 64 = omega arith in
              take-append_long j (j - min j 64) first next (omega arith)
              ∙ ap₂ (λ (a b : List ℕ). a ++ b)
                  (ap (key_block sha salt passphrase iterations count) full)
                  (take-loop f g (j - min j 64) (n - min n 64) ((count + 1) % 2 ^ 32) (omega arith)
                    (omega arith) (omega arith))
        ])

-- The derived key has the length that is asked for, and a shorter key with the same salt, passphrase
-- and iterations is the beginning of a longer one, when SHA-512 may be given its text in pieces and
-- a digest has 64 bytes.
pub pbkdf2_hmac_sha512_genkey_lem :
    {C : Type 0} (sha : Sha512 C) (k n : ℕ) (salt passphrase : List ℕ) (iterations : ℕ)
    → IsSha512 sha
    → k ≤ n
    → (length (pbkdf2_hmac_sha512_genkey sha n salt passphrase iterations) ≡ n)
      × (take k (pbkdf2_hmac_sha512_genkey sha n salt passphrase iterations)
          ≡ pbkdf2_hmac_sha512_genkey sha k salt passphrase iterations)
unfolding pbkdf2_hmac_sha512_genkey
pbkdf2_hmac_sha512_genkey_lem sha k n salt passphrase iterations good h = (
  length-loop sha good salt passphrase iterations n n 1 (omega arith),
  take-loop sha good salt passphrase iterations k n k n 1 h (omega arith) (omega arith),
)
