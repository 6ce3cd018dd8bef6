-- ===== src/Xts/Loops.antt =====
-- The loops of pefs_xts_block_encrypt and pefs_xts_block_decrypt give a sector by its equation.
use pefs.Base.{
  ℕ, zero, suc, ◌+◌, ◌-◌, ◌*◌, ◌≤◌, ◌<◌, ◌≡◌, refl, ◌∙◌, true, false, arith, List, [], ◌++◌, length,
  length-append, length-take, length-drop, take, drop, All-append, All-take, All-drop,
  take-append_exact, drop-append_exact, take-all, ◌==◌, le→ltb, le→leb, lt→leb, Bool-cases, inl,
  inr, bit_and,
}
use pefs.Base.Bits.{bit_and_low}
use pefs.Base.Bytes.{IsByte}
use mathlib.Core.List.{append_assoc}
use pefs.Xts.{
  Tweak, Crypt, State, gf_mul128, xts_fullblock, xts_lastblock, xts_round, xts_loop, encrypt_end,
  decrypt_end, xts_start, pefs_xts_block_encrypt, pefs_xts_block_decrypt,
}
use pefs.Xts.Blocks.{IsBlock, fullblock-IsBlock}
use pefs.Xts.Stealing.{steal, unsteal, encrypted, decrypted, IsSector, head-IsBlock, tail-IsSector}

-- The loop stops below a block.
loop_stop : (crypt : Crypt) (f : ℕ) (s : State) → s.len < 16 → xts_loop crypt f s ≡ s
unfolding xts_loop
loop_stop crypt zero s h = refl
loop_stop crypt (suc f) s h = ground (arith, lt→leb 16 s.len h)

loop_round :
    (crypt : Crypt) (f : ℕ) (s : State)
    → 16 ≤ s.len
    → xts_loop crypt (suc f) s ≡ xts_loop crypt f (xts_round crypt s)
unfolding xts_loop
loop_round crypt f s h = ground (arith, le→leb 16 s.len h)

lastblock-append :
    (crypt : Crypt) (t : Tweak) (src dst c : List ℕ) (r : ℕ)
    → length c ≡ 16
    → length src ≡ r
    → xts_lastblock crypt t src (dst ++ c) r
      ≡ dst ++ (xts_fullblock crypt t (src ++ drop r c) ++ take r c)
unfolding xts_lastblock
lastblock-append crypt t src dst c r hc hs =
    let n : length (dst ++ c) - 16 ≡ length dst = omega (arith, length-append dst c) in
    rw
      (
        n,
        take-append_exact (length dst) dst c refl,
        drop-append_exact (length dst) dst c refl,
        take-all r src (omega arith),
      )
      refl

abbrev start : Tweak → List ℕ → List ℕ → ℕ → State
start t src dst len = record { tweak = t; src = src; dst = dst; len = len }

module _ (encrypt : Crypt) (keep : (b : List ℕ) → IsBlock b → IsBlock (encrypt b)) where
  encrypt_run :
      (n r f len : ℕ) (t : Tweak) (src dst : List ℕ)
      → r < 16
      → IsSector n r src
      → len ≡ 16 + 16 * n + r
      → n < f
      → encrypt_end encrypt (xts_loop encrypt f (start t src dst len))
        ≡ dst ++ encrypted encrypt n r t src
  unfolding xts_round encrypted encrypt_end steal
  encrypt_run n r zero len t src dst small h e fuel = absurd (omega arith)
  encrypt_run zero r (suc f) len t src dst small h e fuel =
      let c = xts_fullblock encrypt t (take 16 src) in
      let hc = fullblock-IsBlock encrypt t (take 16 src) keep (head-IsBlock 0 r src h) in
      let left : len - 16 ≡ r = omega arith in
      let tail = length-drop 16 src in
      rw (loop_round encrypt f (start t src dst len) (omega arith), left)
        (rw (loop_stop encrypt f (start (gf_mul128 t) (drop 16 src) (dst ++ c) r) small)
          (elim (Bool-cases (r == 0)) [
            | inl none_left ↦ rw none_left
            | inr some_left ↦
                rw some_left
                  (lastblock-append encrypt (gf_mul128 t) (drop 16 src) dst c r hc.0 (omega arith))
          ]))
  encrypt_run (suc n) r (suc f) len t src dst small h e fuel =
      let c = xts_fullblock encrypt t (take 16 src) in
      rw (loop_round encrypt f (start t src dst len) (omega arith)) (
        encrypt_run n r f (len - 16) (gf_mul128 t) (drop 16 src) (dst ++ c) small
          (tail-IsSector n r src h) (omega arith) (omega arith)
        ∙ append_assoc dst c _)

  steal-IsSector :
      (r : ℕ) (t : Tweak) (src : List ℕ)
      → r < 16
      → IsSector 0 r src
      → IsSector 0 r (steal encrypt t r (take 16 src) (drop 16 src))
  unfolding steal
  steal-IsSector r t src small h =
      let c = xts_fullblock encrypt t (take 16 src) in
      let hc = fullblock-IsBlock encrypt t (take 16 src) keep (head-IsBlock 0 r src h) in
      let tail = drop 16 src in
      let n = length-drop 16 src in
      let merged = tail ++ drop r c in
      let hm : IsBlock merged = (
        omega (arith, length-append tail (drop r c), length-drop r c),
        All-append IsByte tail (drop r c) (All-drop IsByte 16 src h.1) (All-drop IsByte r c hc.1),
      ) in
      let x = xts_fullblock encrypt (gf_mul128 t) merged in
      let hx = fullblock-IsBlock encrypt (gf_mul128 t) merged keep hm in
      (
        omega (arith, length-append x (take r c), length-take r c),
        All-append IsByte x (take r c) hx.1 (All-take IsByte r c hc.1),
      )

  pub encrypted-IsSector :
      (n r : ℕ) (t : Tweak) (src : List ℕ)
      → r < 16
      → IsSector n r src
      → IsSector n r (encrypted encrypt n r t src)
  unfolding encrypted
  encrypted-IsSector zero r t src small h = elim (Bool-cases (r == 0)) [
    | inl none_left ↦
        let c = fullblock-IsBlock encrypt t (take 16 src) keep (head-IsBlock 0 r src h) in
        rw none_left (ground arith, c.1)
    | inr some_left ↦ rw some_left (steal-IsSector r t src small h)
  ]
  encrypted-IsSector (suc n) r t src small h =
      let c = xts_fullblock encrypt t (take 16 src) in
      let hc = fullblock-IsBlock encrypt t (take 16 src) keep (head-IsBlock (suc n) r src h) in
      let rest =
        encrypted-IsSector n r (gf_mul128 t) (drop 16 src) small (tail-IsSector n r src h) in
      let later = encrypted encrypt n r (gf_mul128 t) (drop 16 src) in
      (omega (arith, length-append c later), All-append IsByte c later hc.1 rest.1)

module _ (decrypt : Crypt) (keep : (b : List ℕ) → IsBlock b → IsBlock (decrypt b)) where
  -- A whole number of blocks.
  decrypt_whole :
      (n f len : ℕ) (t : Tweak) (src dst : List ℕ)
      → IsSector n 0 src
      → len ≡ 16 + 16 * n
      → n < f
      → decrypt_end decrypt (xts_loop decrypt f (start t src dst len))
        ≡ dst ++ decrypted decrypt n 0 t src
  unfolding xts_round decrypted decrypt_end
  decrypt_whole n zero len t src dst h e fuel = absurd (omega arith)
  decrypt_whole zero (suc f) len t src dst h e fuel =
      let c = xts_fullblock decrypt t (take 16 src) in
      let left : len - 16 ≡ 0 = omega arith in
      rw (loop_round decrypt f (start t src dst len) (omega arith), left)
        (rw (loop_stop decrypt f (start (gf_mul128 t) (drop 16 src) (dst ++ c) 0) (omega arith))
          refl)
  decrypt_whole (suc n) (suc f) len t src dst h e fuel =
      let c = xts_fullblock decrypt t (take 16 src) in
      rw (loop_round decrypt f (start t src dst len) (omega arith)) (
        decrypt_whole n f (len - 16) (gf_mul128 t) (drop 16 src) (dst ++ c)
          (tail-IsSector n 0 src h) (omega arith) (omega arith)
        ∙ append_assoc dst c _)

  -- A last block that is not full: the loop stops one block earlier.
  decrypt_partial :
      (n r f len : ℕ) (t : Tweak) (src dst : List ℕ)
      → 0 < r
      → r < 16
      → IsSector n r src
      → len ≡ 16 * n + r
      → n ≤ f
      → decrypt_end decrypt (xts_loop decrypt f (start t src dst len))
        ≡ dst ++ decrypted decrypt n r t src
  unfolding xts_round decrypted decrypt_end unsteal
  decrypt_partial zero r f len t src dst pos small h e fuel =
      let m = xts_fullblock decrypt (gf_mul128 t) (take 16 src) in
      let hm =
        fullblock-IsBlock decrypt (gf_mul128 t) (take 16 src) keep (head-IsBlock 0 r src h) in
      let left : len ≡ r = omega arith in
      let back : r + 16 - 16 ≡ r = omega arith in
      let tail = length-drop 16 src in
      let some_left : (r == 0) ≡ false = ground arith in
      rw (loop_stop decrypt f (start t src dst len) (omega arith), left, some_left, back)
        (lastblock-append decrypt t (drop 16 src) dst m r hm.0 (omega arith))
  decrypt_partial (suc n) r zero len t src dst pos small h e fuel = absurd (omega arith)
  decrypt_partial (suc n) r (suc f) len t src dst pos small h e fuel =
      let c = xts_fullblock decrypt t (take 16 src) in
      rw (loop_round decrypt f (start t src dst len) (omega arith)) (
        decrypt_partial n r f (len - 16) (gf_mul128 t) (drop 16 src) (dst ++ c) pos small
          (tail-IsSector n r src h) (omega arith) (omega arith)
        ∙ append_assoc dst c _)

module _ (pa_tweak : Crypt) (sector : ℕ) (xtweak : List ℕ) where
  abbrev first_tweak : Tweak
  first_tweak = xts_start pa_tweak sector xtweak

  pub encrypt_large :
      (encrypt : Crypt) (keep : (b : List ℕ) → IsBlock b → IsBlock (encrypt b)) (n r len : ℕ)
      (src : List ℕ)
      → r < 16
      → IsSector n r src
      → len ≡ 16 + 16 * n + r
      → pefs_xts_block_encrypt encrypt pa_tweak sector xtweak len src
        ≡ encrypted encrypt n r first_tweak src
  unfolding pefs_xts_block_encrypt
  encrypt_large encrypt keep n r len src small h e =
      rw (le→ltb len 16 (omega arith))
        (encrypt_run encrypt keep n r len len first_tweak src [] small h e (omega arith))

  pub decrypt_large :
      (encrypt decrypt : Crypt) (keep : (b : List ℕ) → IsBlock b → IsBlock (decrypt b))
      (n r len : ℕ) (src : List ℕ)
      → r < 16
      → IsSector n r src
      → len ≡ 16 + 16 * n + r
      → pefs_xts_block_decrypt encrypt decrypt pa_tweak sector xtweak len src
        ≡ decrypted decrypt n r first_tweak src
  unfolding pefs_xts_block_decrypt
  decrypt_large encrypt decrypt keep n zero len src small h e =
      let masked : (bit_and len 15 == 0) ≡ true = ground (arith, bit_and_low 4 len) in
      rw (le→ltb len 16 (omega arith), masked)
        (decrypt_whole decrypt keep n len len first_tweak src [] h (omega arith) (omega arith))
  decrypt_large encrypt decrypt keep n (suc r) len src small h e =
      let masked : (bit_and len 15 == 0) ≡ false = ground (arith, bit_and_low 4 len) in
      rw (le→ltb len 16 (omega arith), masked)
        (decrypt_partial decrypt keep n (suc r) len (len - 16) first_tweak src [] (omega arith)
          small h (omega arith) (omega arith))
