-- ===== src/Crypto/Data/Sectors.antt =====
-- The two loops of the file data, one sector after another.
use pefs.Base.{
  ℕ, zero, suc, ◌+◌, ◌≤◌, ◌<◌, ◌≡◌, refl, arith, min, true, false, List, [], ◌++◌, ◌==◌, length,
  length-append, length-drop, drop, take-append_exact, drop-append_exact, take-all, replicate,
}
use mathlib.Core.List.{append-nil}
use pefs.Crypto.{Tkey, Primitives}
use pefs.Crypto.Data.{encrypt_sector, decrypt_sector, encrypt_loop, decrypt_loop, is_hole}

pub encrypt_loop_nil :
    (lib : Primitives) (ptk : Tkey) (f offset : ℕ) (buf : List ℕ)
    → length buf ≡ 0
    → encrypt_loop lib ptk f offset buf ≡ []
unfolding encrypt_loop
encrypt_loop_nil lib ptk zero offset buf h = refl
encrypt_loop_nil lib ptk (suc f) offset buf h = ground arith

pub decrypt_loop_nil :
    (lib : Primitives) (ptk : Tkey) (f offset : ℕ) (buf : List ℕ)
    → length buf ≡ 0
    → decrypt_loop lib ptk f offset buf ≡ []
unfolding decrypt_loop
decrypt_loop_nil lib ptk zero offset buf h = refl
decrypt_loop_nil lib ptk (suc f) offset buf h = ground arith

-- A round on a sector in front of other data, and on a last sector.
pub encrypt_loop_cons :
    (lib : Primitives) (ptk : Tkey) (f offset : ℕ) (sector rest : List ℕ)
    → length sector ≡ 4096
    → encrypt_loop lib ptk (suc f) offset (sector ++ rest)
      ≡ encrypt_sector lib ptk offset sector ++ encrypt_loop lib ptk f (offset + 4096) rest
unfolding encrypt_loop
encrypt_loop_cons lib ptk f offset sector rest h =
    let n = length-append sector rest in
    let more : (length (sector ++ rest) == 0) ≡ false = ground (arith, n) in
    let block : min (length (sector ++ rest)) 4096 ≡ 4096 = omega (arith, n) in
    rw (more, encrypt_loop)
      (rw (block, take-append_exact 4096 sector rest h, drop-append_exact 4096 sector rest h) refl)

pub encrypt_loop_last :
    (lib : Primitives) (ptk : Tkey) (f offset : ℕ) (buf : List ℕ)
    → length buf ≤ 4096
    → 0 < length buf
    → encrypt_loop lib ptk (suc f) offset buf ≡ encrypt_sector lib ptk offset buf
unfolding encrypt_loop
encrypt_loop_last lib ptk f offset buf h pos =
    let more : (length buf == 0) ≡ false = ground arith in
    let block : min (length buf) 4096 ≡ length buf = omega arith in
    let rest =
      encrypt_loop_nil lib ptk f (offset + length buf) (drop (length buf) buf)
        (omega (arith, length-drop (length buf) buf)) in
    rw (more, encrypt_loop)
      (rw (block, take-all (length buf) buf (omega arith), rest)
        (append-nil (encrypt_sector lib ptk offset buf)))

pub decrypt_loop_cons :
    (lib : Primitives) (ptk : Tkey) (f offset : ℕ) (sector rest : List ℕ)
    → length sector ≡ 4096
    → is_hole (sector ++ rest) ≡ false
    → decrypt_loop lib ptk (suc f) offset (sector ++ rest)
      ≡ decrypt_sector lib ptk offset sector ++ decrypt_loop lib ptk f (offset + 4096) rest
unfolding decrypt_loop
decrypt_loop_cons lib ptk f offset sector rest h full =
    let n = length-append sector rest in
    let more : (length (sector ++ rest) == 0) ≡ false = ground (arith, n) in
    let block : min (length (sector ++ rest)) 4096 ≡ 4096 = omega (arith, n) in
    rw (more, decrypt_loop)
      (rw full (
        rw (block, take-append_exact 4096 sector rest h, drop-append_exact 4096 sector rest h)
          refl))

pub decrypt_loop_last :
    (lib : Primitives) (ptk : Tkey) (f offset : ℕ) (buf : List ℕ)
    → length buf ≤ 4096
    → 0 < length buf
    → is_hole buf ≡ false
    → decrypt_loop lib ptk (suc f) offset buf ≡ decrypt_sector lib ptk offset buf
unfolding decrypt_loop
decrypt_loop_last lib ptk f offset buf h pos full =
    let more : (length buf == 0) ≡ false = ground arith in
    let block : min (length buf) 4096 ≡ length buf = omega arith in
    let rest =
      decrypt_loop_nil lib ptk f (offset + length buf) (drop (length buf) buf)
        (omega (arith, length-drop (length buf) buf)) in
    rw (more, decrypt_loop)
      (rw full (
        rw (block, take-all (length buf) buf (omega arith), rest)
          (append-nil (decrypt_sector lib ptk offset buf))))

-- A hole becomes zeros.
pub decrypt_loop_hole :
    (lib : Primitives) (ptk : Tkey) (f offset : ℕ) (sector rest : List ℕ)
    → length sector ≡ 4096
    → is_hole (sector ++ rest) ≡ true
    → decrypt_loop lib ptk (suc f) offset (sector ++ rest)
      ≡ replicate 4096 0 ++ decrypt_loop lib ptk f (offset + 4096) rest
unfolding decrypt_loop
decrypt_loop_hole lib ptk f offset sector rest h hole =
    let more : (length (sector ++ rest) == 0) ≡ false = ground (arith, length-append sector rest) in
    rw (more, decrypt_loop) (rw hole (rw (drop-append_exact 4096 sector rest h) refl))
