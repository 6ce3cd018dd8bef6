-- ===== src/Xbase64/RoundTrip.antt =====
-- pefs_name_pton after pefs_name_ntop.
use pefs.Base.{
  ℕ, suc, ◌+◌, ◌*◌, ◌/◌, ◌%◌, ◌^◌, ◌≤◌, ◌<◌, ◌≡◌, refl, sym, ◌∙◌, ap, true, bit_and, bit_or, some,
  List, [], ◌∷◌, ◌++◌, ltb, lt→ltb, Bool-cases, length, length-append, set, length-set, arith, inl,
  inr,
}
use pefs.Base.Bits.{bit_and_low, bit_or_join}
use pefs.Base.Bytes.{IsBytes}
use mathlib.Core.List.{append_assoc}
use pefs.Xbase64.{
  digit, output_0, output_1, output_2, output_3, first, second, third, fourth, Phase, done,
  pton_loop, pton_end, pton, ntop, ntop_end,
}
use pefs.Xbase64.Encode.{
  quad, encode, length-encode, output_1-eq, output_2-eq, output_3-eq, ntop_lem,
}
use pefs.Xbase64.Decode.{cursor, digit-at}

-- The three bytes of a group come back from the two parts in which they are stored.
module _ (a b : ℕ) (ha : a < 256) (hb : b < 256) where
  byte_0 : bit_or (output_0 a * 2 ^ 2 % 256) (output_1 a b / 2 ^ 4) % 256 ≡ a
  byte_0 =
      let high : output_0 a * 2 ^ 2 % 256 ≡ a / 4 * 2 ^ 2 = omega arith in
      let low : output_1 a b / 2 ^ 4 ≡ a % 4 = omega (arith, output_1-eq a b hb) in
      rw (high, low, bit_or_join 2 (a / 4) (a % 4) (omega arith)) (omega arith)

  byte_1 :
      (c : ℕ)
      → c < 256
      → bit_or (bit_and (output_1 a b) 0x0f * 2 ^ 4 % 256) (output_2 b c / 2 ^ 2) % 256 ≡ b
  byte_1 c hc =
      let high : bit_and (output_1 a b) 0x0f * 2 ^ 4 % 256 ≡ b / 16 * 2 ^ 4 =
        omega (arith, output_1-eq a b hb, bit_and_low 4 (output_1 a b)) in
      let low : output_2 b c / 2 ^ 2 ≡ b % 16 = omega (arith, output_2-eq b c hc) in
      rw (high, low, bit_or_join 4 (b / 16) (b % 16) (omega arith)) (omega arith)

  byte_2 : bit_or (bit_and (output_2 a b) 0x03 * 2 ^ 6 % 256) (output_3 b) % 256 ≡ b
  byte_2 =
      let high : bit_and (output_2 a b) 0x03 * 2 ^ 6 % 256 ≡ b / 64 * 2 ^ 6 =
        omega (arith, output_2-eq a b hb, bit_and_low 2 (output_2 a b)) in
      rw (high, output_3-eq b, bit_or_join 6 (b / 64) (b % 64) (omega arith)) (omega arith)

module _ (targsize : ℕ) (out : List ℕ) (i : ℕ) (at : i ≡ length out) where
  group_3 :
      (a b c r₀ r₁ r₂ : ℕ) (rest mem : List ℕ) (n : ℕ)
      → a < 256
      → b < 256
      → c < 256
      → i + 2 < targsize
      → targsize ≤ length out + (3 + length rest)
      → pton_loop targsize
          (quad a b c ++ mem)
          (suc (suc (suc (suc n))))
          (cursor (out ++ r₀ ∷ r₁ ∷ r₂ ∷ rest) i first)
        ≡ pton_loop targsize mem n (cursor (out ++ a ∷ b ∷ c ∷ rest) (i + 1 + 1 + 1) first)
  group_3 a b c r₀ r₁ r₂ rest mem n ha hb hc room fits =
      let l₁ : ltb (i + 1) targsize ≡ true = lt→ltb (i + 1) targsize (omega arith) in
      let l₂ : ltb (i + 1 + 1) targsize ≡ true = lt→ltb (i + 1 + 1) targsize (omega arith) in
      digit-at targsize (output_0 a) out (r₀ ∷ r₁ ∷ r₂ ∷ rest) i 0 first _ _ (omega arith)
        (omega arith) (omega arith) (omega arith)
      ∙ digit-at targsize (output_1 a b) out (output_0 a * 2 ^ 2 % 256 ∷ r₁ ∷ r₂ ∷ rest) i 0 second
          _ _ (omega arith) (omega (arith, output_1-eq a b hb)) (omega arith) (omega arith)
      ∙ rw (l₁, byte_0 a b ha hb)
          (digit-at targsize (output_2 b c) out
              (a ∷ bit_and (output_1 a b) 0x0f * 2 ^ 4 % 256 ∷ r₂ ∷ rest) (i + 1) 1 third _ _
              (omega arith) (omega (arith, output_2-eq b c hc)) (omega arith) (omega arith)
            ∙ rw (l₂, byte_1 a b ha hb c hc)
                (digit-at targsize (output_3 c) out
                    (a ∷ b ∷ bit_and (output_2 b c) 0x03 * 2 ^ 6 % 256 ∷ rest) (i + 1 + 1) 2 fourth
                    _ _ (omega arith) (omega (arith, output_3-eq c)) (omega arith) (omega arith)
                  ∙ rw (byte_2 b c hb hc)))

  -- The last, shorter groups also touch the cell behind their bytes.
  group_1 :
      (a r₀ : ℕ) (rest mem : List ℕ) (n : ℕ)
      → a < 256
      → i < targsize
      → targsize ≤ length out + (1 + length rest)
      → (rest' : List ℕ) × (length rest' ≡ length rest)
        × (pton_loop targsize
              (encode (a ∷ []) ++ mem)
              (suc (suc n))
              (cursor (out ++ r₀ ∷ rest) i first)
            ≡ pton_loop targsize mem n (cursor (out ++ a ∷ rest') (i + 1) third))
  unfolding encode
  group_1 a r₀ rest mem n ha room fits =
      let spilt = bit_and (output_1 a 0) 0x0f * 2 ^ 4 % 256 in
      let run =
        digit-at targsize (output_0 a) out (r₀ ∷ rest) i 0 first (digit (output_1 a 0) ∷ mem)
          (suc n) (omega arith) (omega arith) (omega arith) (omega arith)
        ∙ digit-at targsize (output_1 a 0) out (output_0 a * 2 ^ 2 % 256 ∷ rest) i 0 second mem n
            (omega arith) (omega (arith, output_1-eq a 0 (omega arith))) (omega arith)
            (omega arith) in
      elim (Bool-cases (ltb (i + 1) targsize)) [
        | inl roomy ↦ (
          set rest 0 spilt,
          length-set rest 0 spilt,
          run ∙ rw (roomy, byte_0 a 0 ha (omega arith)),
        )
        | inr full ↦ (rest, refl, run ∙ rw (full, byte_0 a 0 ha (omega arith)))
      ]

  group_2 :
      (a b r₀ r₁ : ℕ) (rest mem : List ℕ) (n : ℕ)
      → a < 256
      → b < 256
      → i + 1 < targsize
      → targsize ≤ length out + (2 + length rest)
      → (rest' : List ℕ) × (length rest' ≡ length rest)
        × (pton_loop targsize
              (encode (a ∷ b ∷ []) ++ mem)
              (suc (suc (suc n)))
              (cursor (out ++ r₀ ∷ r₁ ∷ rest) i first)
            ≡ pton_loop targsize mem n (cursor (out ++ a ∷ b ∷ rest') (i + 1 + 1) fourth))
  unfolding encode
  group_2 a b r₀ r₁ rest mem n ha hb room fits =
      let spilt = bit_and (output_2 b 0) 0x03 * 2 ^ 6 % 256 in
      let run =
        digit-at targsize (output_0 a) out (r₀ ∷ r₁ ∷ rest) i 0 first _ _ (omega arith)
          (omega arith) (omega arith) (omega arith)
        ∙ digit-at targsize (output_1 a b) out (output_0 a * 2 ^ 2 % 256 ∷ r₁ ∷ rest) i 0 second
            (digit (output_2 b 0) ∷ mem) (suc n) (omega arith) (omega (arith, output_1-eq a b hb))
            (omega arith) (omega arith) in
      let last =
        digit-at targsize (output_2 b 0) out (a ∷ bit_and (output_1 a b) 0x0f * 2 ^ 4 % 256 ∷ rest)
          (i + 1) 1 third mem n (omega arith) (omega (arith, output_2-eq b 0 (omega arith)))
          (omega arith) (omega arith) in
      let more = lt→ltb (i + 1) targsize room in
      elim (Bool-cases (ltb (i + 1 + 1) targsize)) [
        | inl roomy ↦ (
          set rest 0 spilt,
          length-set rest 0 spilt,
          run ∙ rw (more, byte_0 a b ha hb) (last ∙ rw (roomy, byte_1 a b ha hb 0 (omega arith))),
        )
        | inr full ↦ (
          rest,
          refl,
          run ∙ rw (more, byte_0 a b ha hb) (last ∙ rw (full, byte_1 a b ha hb 0 (omega arith))),
        )
      ]

-- With srclen used up the loop stops, after it has read one character more.
stop :
    (targsize ch : ℕ) (mem t : List ℕ) (i : ℕ) (p : Phase)
    → 0 < i
    → pton_loop targsize (ch ∷ mem) 0 (cursor t i p) ≡ done i (some t)
unfolding pton_loop pton_end
stop targsize ch mem t i p h = ground arith

-- `src` is written at index `i` and what stands in front of it is kept.
record Reads (targsize m : ℕ) (src out cells mem : List ℕ) (i : ℕ) : Type 0 where
  rest : List ℕ
  fits : length src + length rest ≡ length cells
  run :
      pton_loop targsize (encode src ++ mem) (length (encode src)) (cursor (out ++ cells) i first)
      ≡ done m (some (out ++ (src ++ rest)))

module _ (targsize ch : ℕ) (mem : List ℕ) where
  pton_loop-encode :
      (src out cells : List ℕ) (i m : ℕ)
      → i ≡ length out
      → IsBytes src
      → length src ≤ length cells
      → m ≡ i + length src
      → m ≤ targsize
      → 0 < m
      → targsize ≤ length out + length cells
      → Reads targsize m src out cells (ch ∷ mem) i
  unfolding encode
  pton_loop-encode [] out cells i m at bytes fits e room pos owned = record {
    rest = cells;
    fits = omega arith;
    run =
        stop targsize ch mem (out ++ cells) i first (omega arith)
        ∙ ap (λ j. done j (some (out ++ cells))) (omega arith);
  }
  pton_loop-encode (a ∷ src) out [] i m at bytes fits e room pos owned = absurd (omega arith)
  pton_loop-encode (a ∷ []) out (r₀ ∷ cells) i m at bytes fits e room pos owned =
      let (rest, same, run) =
        group_1 targsize out i at a r₀ cells (ch ∷ mem) 0 bytes.0 (omega arith) (omega arith) in
      let e' : i + 1 ≡ m = omega arith in
      record {
        rest = rest;
        fits = omega arith;
        run =
            run
            ∙ stop targsize ch mem (out ++ a ∷ rest) (i + 1) third (omega arith)
            ∙ ap (λ j. done j (some (out ++ a ∷ rest))) e';
      }
  pton_loop-encode (a ∷ b ∷ src) out (r₀ ∷ []) i m at bytes fits e room pos owned =
      absurd (omega arith)
  pton_loop-encode (a ∷ b ∷ []) out (r₀ ∷ r₁ ∷ cells) i m at bytes fits e room pos owned =
      let (rest, same, run) =
        group_2 targsize out i at a b r₀ r₁ cells (ch ∷ mem) 0 bytes.0 bytes.1.0 (omega arith)
          (omega arith) in
      let e' : i + 1 + 1 ≡ m = omega arith in
      record {
        rest = rest;
        fits = omega arith;
        run =
            run
            ∙ stop targsize ch mem (out ++ a ∷ b ∷ rest) (i + 1 + 1) fourth (omega arith)
            ∙ ap (λ j. done j (some (out ++ a ∷ b ∷ rest))) e';
      }
  pton_loop-encode (a ∷ b ∷ c ∷ src) out (r₀ ∷ r₁ ∷ []) i m at bytes fits e room pos owned =
      absurd (omega arith)
  pton_loop-encode (a ∷ b ∷ c ∷ src) out (r₀ ∷ r₁ ∷ r₂ ∷ cells) i m at bytes fits e room pos owned =
      let head = a ∷ b ∷ c ∷ [] in
      let later =
        pton_loop-encode src (out ++ head) cells (i + 1 + 1 + 1) m
          (omega (arith, length-append out head)) bytes.1.1.1 (omega arith) (omega arith) room pos
          (omega (arith, length-append out head)) in
      record {
        rest = later.rest;
        fits = omega (arith, later.fits);
        run =
            group_3 targsize out i at a b c r₀ r₁ r₂ cells (encode src ++ ch ∷ mem)
              (length (encode src)) bytes.0 bytes.1.0 bytes.1.1.0 (omega arith) (omega arith)
            ∙ (ap
                  (λ t.
                    pton_loop targsize (encode src ++ ch ∷ mem) (length (encode src))
                      (cursor t (i + 1 + 1 + 1) first))
                  (sym (append_assoc out head cells))
                ∙ (later.run
                    ∙ ap (λ t. done m (some t)) (append_assoc out head (src ++ later.rest))));
      }

ntop_end-some :
    (targsize : ℕ) (e out : List ℕ) → ntop_end targsize e ≡ some out → (out ≡ e) × (0 < length e)
unfolding ntop_end
ntop_end-some targsize e out h = ground arith

-- What pefs_name_ntop has written, pefs_name_pton reads back, into any buffer that has room for
-- it and whatever the buffer held: it returns the number of the bytes, and the buffer begins with
-- them. Behind the string one more character must be readable.
pub pton-ntop :
    (src : List ℕ) (targsize : ℕ) (enc : List ℕ) (ch : ℕ) (mem target : List ℕ) (size : ℕ)
    → IsBytes src
    → ntop src targsize ≡ some enc
    → length src ≤ size
    → size ≤ length target
    → (rest : List ℕ) × (length src + length rest ≡ length target)
      × (pton (enc ++ ch ∷ mem) (length enc) (some target) size
          ≡ done (length src) (some (src ++ rest)))
unfolding pton
pton-ntop src targsize enc ch mem target size bytes wrote fits room =
    let (same, pos) =
      ntop_end-some targsize (encode src) enc (sym (ntop_lem src targsize) ∙ wrote) in
    let r =
      pton_loop-encode size ch mem src [] target 0 (length src) refl bytes (omega arith)
        (omega arith) fits (omega (arith, length-encode src)) (omega arith) in
    (
      r.rest,
      r.fits,
      ap (λ (e : List ℕ). pton (e ++ ch ∷ mem) (length e) (some target) size) same ∙ r.run,
    )
