-- ===== src/Crypto/Name/Clear.antt =====
-- The end of pefs_name_decrypt: the tweak and the name out of the bytes in the clear, and the assertion
-- on the name.
use pefs.Base.{
  ℕ, zero, suc, ==_refl, ◌+◌, ◌<◌, ◌≡◌, ◌≢◌, refl, sym, ◌∙◌, ap, arith, false, List, [], ◌∷◌, ◌++◌,
  length, length-append, length-replicate, replicate, take, drop, take-append_exact,
  drop-append_exact, All, ◌==◌,
}
use mathlib.Core.List.{append_assoc}
use pefs.Crypto.{Key}
use pefs.Crypto.Name.{ok, strip_padding, strlen, clear_name}
use pefs.Crypto.Name.Sizes.{added, strip_padding-append}

strlen-name :
    (xs : List ℕ) (n : ℕ)
    → All (λ x. x ≢ 0) xs
    → strlen ((xs ++ replicate n 0) ++ 0 ∷ []) ≡ length xs
unfolding strlen
strlen-name [] zero h = refl
strlen-name [] (suc n) h = refl
strlen-name (x ∷ xs) n h = ground (arith, strlen-name xs n h.1)

-- A name that is not empty and has no zero passes the assertion.
pub clear_name-padded :
    (bytes plain : List ℕ) (n : ℕ) (ki : Key)
    → drop 16 bytes ≡ plain ++ replicate n 0
    → 0 < length plain
    → All (λ x. x ≢ 0) plain
    → clear_name bytes ki ≡ ok (plain, record { key = ki; tweak = take 8 (drop 8 bytes) })
unfolding clear_name
clear_name-padded bytes plain n ki e pos nonzero =
    let zeros = replicate {A = ℕ} n 0 in
    let whole : length (plain ++ zeros) ≡ length plain + n =
      omega (arith, length-append plain zeros, length-replicate {A = ℕ} n 0) in
    let some_left : (length plain == 0) ≡ false = ground arith in
    let strip = strip_padding-append plain n n (length (plain ++ zeros)) nonzero whole in
    let name : take (strip_padding (drop 16 bytes) (length (drop 16 bytes))) (drop 16 bytes)
        ≡ plain =
      rw (e, strip) (take-append_exact (length plain) plain zeros refl) in
    rw (e, clear_name)
      (rw (strip, clear_name)
        (rw (strlen-name plain n nonzero, clear_name)
          (rw (some_left, clear_name)
            (rw (==_refl (length plain), clear_name)
              (ap (λ (b : List ℕ). ok (b, record { key = ki; tweak = take 8 (drop 8 bytes) }))
                name)))))

-- The name and the tweak in the clear data.
pub split_clear :
    (csum t plain : List ℕ)
    → length csum ≡ 8
    → length t ≡ 8
    → let zeros = replicate {A = ℕ} (added (length plain)) 0 in
      let name = csum ++ ((t ++ plain) ++ zeros) in
      (take 8 (drop 8 name) ≡ t) × (drop 16 name ≡ plain ++ zeros)
split_clear csum t plain hc ht =
    let zeros = replicate {A = ℕ} (added (length plain)) 0 in
    let name : csum ++ ((t ++ plain) ++ zeros) ≡ (csum ++ t) ++ (plain ++ zeros) =
      ap (λ (b : List ℕ). csum ++ b) (append_assoc t plain zeros)
      ∙ sym (append_assoc csum t (plain ++ zeros)) in
    let text =
      drop-append_exact 16 (csum ++ t) (plain ++ zeros) (omega (arith, length-append csum t)) in
    (
      rw (drop-append_exact 8 csum ((t ++ plain) ++ zeros) hc, append_assoc t plain zeros)
          (take-append_exact 8 t (plain ++ zeros) ht),
      rw name text,
    )
