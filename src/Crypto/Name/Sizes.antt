-- ===== src/Crypto/Name/Sizes.antt =====
-- The sizes of a file name on its way through pefs_name_encrypt and pefs_name_decrypt: the padding
-- of pefs_name_padsize and pefs_name_pad, and its removal by strip_padding.
use pefs.Base.{
  ℕ, leb, ◌||◌, zero, suc, ◌+◌, ◌-◌, ◌*◌, ◌/◌, ◌%◌, ◌^◌, ◌≤◌, ◌<◌, ◌≡◌, ◌≢◌, refl, sym, ◌∙◌, ap,
  arith, false, some, List, [], ◌∷◌, ◌++◌, length, length-append, replicate, get_or, All, ◌==◌, ltb,
  le→ltb, Bool-cases, inl, inr,
}
use mathlib.Core.List.{append-nil}
use pefs.Crypto.Name.{pefs_name_padsize, pefs_name_pad, strip_padding}
use pefs.Xbase64.{ntop_size, pton_size}

-- The blocks behind the first one, and the zeros added, for a name of `n` characters.
abbrev pub more_blocks : ℕ → ℕ
more_blocks n = (n + 7) / 16

abbrev pub added : ℕ → ℕ
added n = 8 + 16 * more_blocks n - n

pub padsize-eq : (n : ℕ) → n < 2 ^ 32 → pefs_name_padsize (16 + n) ≡ 24 + 16 * more_blocks n
unfolding pefs_name_padsize
padsize-eq n h =
    let psize : (16 + n + 2 ^ 64 - 8) % 2 ^ 64 ≡ n + 8 = omega arith in rw psize (omega arith)

pub room_for_name : (n : ℕ) → n + added n ≡ 8 + 16 * more_blocks n
room_for_name n = omega arith

-- Back from the length of the base64 text.
pub pton_size-ntop_size : (p : ℕ) → pton_size (ntop_size p) ≡ p
pton_size-ntop_size p = omega arith

-- A buffer of 16 bytes and the name is filled up with zeros.
pub pad-eq :
    (front plain : List ℕ) (maxsize : ℕ)
    → length front ≡ 16
    → length plain < 2 ^ 32
    → pefs_name_padsize (16 + length plain) ≤ 255
    → pefs_name_padsize (16 + length plain) ≤ maxsize
    → pefs_name_pad (front ++ plain) maxsize
      ≡ some ((front ++ plain) ++ replicate (added (length plain)) 0)
unfolding pefs_name_pad
pad-eq front plain maxsize h small most room =
    let size : length (front ++ plain) ≡ 16 + length plain =
      omega (arith, length-append front plain) in
    let p = padsize-eq (length plain) small in
    let n = length plain in
    let sane : (leb (16 + n) 8 || (ltb 255 (16 + n) || ltb 255 (24 + 16 * more_blocks n))) ≡ false =
      ground (arith, p) in
    elim (Bool-cases (24 + 16 * more_blocks n == 16 + n)) [
      | inl e ↦
          let nothing : added n ≡ 0 = ground arith in
          rw (size, p, sane) (rw (e, nothing) (ap some (sym (append-nil (front ++ plain)))))
      | inr e ↦
          let fits : ltb maxsize (24 + 16 * more_blocks n) ≡ false =
            le→ltb maxsize (24 + 16 * more_blocks n) (omega arith) in
          let zeros : 24 + 16 * more_blocks n - (16 + n) ≡ added n = omega arith in
          rw (size, p, sane)
            (rw (e, fits) (ap (λ (k : ℕ). some ((front ++ plain) ++ replicate k 0)) zeros))
    ]

get_or-append_left :
    (xs ys : List ℕ) (i : ℕ) → i < length xs → get_or (xs ++ ys) i 0 ≡ get_or xs i 0
get_or-append_left [] ys i h = absurd (omega arith)
get_or-append_left (x ∷ xs) ys zero h = refl
get_or-append_left (x ∷ xs) ys (suc i) h = get_or-append_left xs ys i (omega arith)

get_or-replicate : (n i : ℕ) → get_or {A = ℕ} (replicate n 0) i 0 ≡ 0
get_or-replicate zero i = refl
get_or-replicate (suc n) zero = refl
get_or-replicate (suc n) (suc i) = get_or-replicate n i

get_or-padding :
    (xs : List ℕ) (n i j : ℕ) → j ≡ length xs + i → get_or (xs ++ replicate n 0) j 0 ≡ 0
get_or-padding [] n i j e = get_or-replicate n j
get_or-padding (x ∷ xs) n i zero e = absurd (omega arith)
get_or-padding (x ∷ xs) n i (suc j) e = get_or-padding xs n i j (omega arith)

All-get_or : (xs : List ℕ) (i : ℕ) → All (λ x. x ≢ 0) xs → i < length xs → get_or xs i 0 ≢ 0
All-get_or [] i h less = absurd (omega arith)
All-get_or (x ∷ xs) zero h less = h.0
All-get_or (x ∷ xs) (suc i) h less = All-get_or xs i h.1 (omega arith)

strip_last : (t : List ℕ) (r s : ℕ) → s ≡ suc r → get_or t r 0 ≢ 0 → strip_padding t s ≡ s
unfolding strip_padding
strip_last t r s e h = rw (e, strip_padding) (ground arith)

strip_zero :
    (t : List ℕ) (r s : ℕ) → s ≡ suc r → get_or t r 0 ≡ 0 → strip_padding t s ≡ strip_padding t r
unfolding strip_padding
strip_zero t r s e h = rw (e, strip_padding) (ground arith)

strip_name :
    (xs : List ℕ) (n : ℕ)
    → All (λ x. x ≢ 0) xs
    → strip_padding (xs ++ replicate n 0) (length xs) ≡ length xs
unfolding strip_padding
strip_name [] n h = refl
strip_name (x ∷ xs) n h =
    let last : get_or (x ∷ (xs ++ replicate n 0)) (length xs) 0 ≢ 0 =
      rw (get_or-append_left (x ∷ xs) (replicate n 0) (length xs) (omega arith))
        (All-get_or (x ∷ xs) (length xs) h (omega arith)) in
    strip_last (x ∷ (xs ++ replicate n 0)) (length xs) (suc (length xs)) refl last

-- Without a zero in the name, exactly the padding goes.
pub strip_padding-append :
    (xs : List ℕ) (n r s : ℕ)
    → All (λ x. x ≢ 0) xs
    → s ≡ length xs + r
    → strip_padding (xs ++ replicate n 0) s ≡ length xs
strip_padding-append xs n zero s h e =
    let all : s ≡ length xs = omega arith in rw all (strip_name xs n h)
strip_padding-append xs n (suc r) s h e =
    strip_zero (xs ++ replicate n 0) (length xs + r) s (omega arith)
      (get_or-padding xs n r (length xs + r) refl)
    ∙ strip_padding-append xs n r (length xs + r) h refl
