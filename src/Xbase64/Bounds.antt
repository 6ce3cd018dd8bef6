-- ===== src/Xbase64/Bounds.antt =====
-- When pefs_name_ntop and pefs_name_pton succeed, and how much they write.
use pefs.Base.{
  ℕ, ◌==◌, ◌||◌, ◌⊎◌, true, false, ◌∙◌, Bool-cases, drop, leb, ◌+◌, ◌-◌, ◌*◌, ◌≤◌, ◌<◌, ◌≡◌, ◌↔◌,
  refl, some, List, [], ◌∷◌, ltb, Option-cases, length, All, arith, inl, inr,
}
use pefs.Base.Bytes.{IsBytes}
use pefs.Base.Text.{strchr}
use pefs.Xbase64.{
  base64, ntop_size, pton_size, Phase, first, second, third, fourth, Cursor, Outcome, failed, done,
  pton_loop, pton_end, pton, ntop, ntop_end,
}
use pefs.Xbase64.Encode.{encode, length-encode, ntop_lem, IsNameChar, encode-IsNameChar}
use pefs.Xbase64.Decode.{
  cursor, cells, next_index, next_phase, step-cells, length-cells, drop-cells,
}

-- pefs_name_ntop succeeds exactly when there is a byte to encode and the target has room for
-- PEFS_NAME_NTOP_SIZE characters and the terminating zero.
pub ntop_succeeds_iff :
    (src : List ℕ) (targsize : ℕ)
    → ((enc : List ℕ) × (ntop src targsize ≡ some enc))
      ↔ ((0 < length src) × (ntop_size (length src) < targsize))
unfolding ntop_end
ntop_succeeds_iff src targsize = (
  λ (enc, wrote). ground (arith, ntop_lem src targsize, length-encode src),
  λ (pos, room). (encode src, ground (arith, ntop_lem src targsize, length-encode src)),
)

-- What it writes has that length, and every character of it is one of the 64 of the alphabet.
pub ntop-IsNameChar :
    (src : List ℕ) (targsize : ℕ) (enc : List ℕ)
    → IsBytes src
    → ntop src targsize ≡ some enc
    → (length enc ≡ ntop_size (length src)) × All IsNameChar enc
unfolding ntop_end
ntop-IsNameChar src targsize enc bytes wrote =
    let same : enc ≡ encode src = ground (arith, ntop_lem src targsize) in
    rw same (length-encode src, encode-IsNameChar src bytes)

-- The index after `q` characters.
abbrev Counts : Phase → ℕ → ℕ → Type 0
Counts first i q = 4 * i ≡ 3 * q
Counts second i q = 4 * i + 3 ≡ 3 * q
Counts third i q = 4 * i + 2 ≡ 3 * q
Counts fourth i q = 4 * i + 1 ≡ 3 * q

Counts-next : (p : Phase) (i q : ℕ) → Counts p i q → Counts (next_phase p) (next_index p i) (q + 1)
Counts-next first i q c = omega arith
Counts-next second i q c = omega arith
Counts-next third i q c = omega arith
Counts-next fourth i q c = omega arith

Counts-le : (p : Phase) (i q : ℕ) → Counts p i q → 4 * i ≤ 3 * q
Counts-le first i q c = omega arith
Counts-le second i q c = omega arith
Counts-le third i q c = omega arith
Counts-le fourth i q c = omega arith

next_index-le : (p : Phase) (i size : ℕ) → i < size → next_index p i ≤ size
next_index-le first i size h = omega arith
next_index-le second i size h = omega arith
next_index-le third i size h = omega arith
next_index-le fourth i size h = omega arith

-- A return of `m` has advanced at most `size` bytes, no more than the characters stand for, and
-- has changed no cell from `size` on.
record IsWithin (size most m : ℕ) (t t' : List ℕ) : Type 0 where
  positive : 0 < m
  room : m ≤ size
  counted : 4 * m ≤ 3 * most
  kept : length t' ≡ length t
  beyond : drop size t' ≡ drop size t

-- The two ways in which the loop ends.
Ends : ℕ → ℕ → List ℕ → Outcome → Type 0
Ends size most t o =
    (o ≡ failed) ⊎ ((m : ℕ) × (t' : List ℕ) × (o ≡ done m (some t')) × IsWithin size most m t t')

pton_end-Ends :
    (size most : ℕ) (t : List ℕ) (i : ℕ) (p : Phase)
    → i ≤ size
    → 4 * i ≤ 3 * most
    → Ends size most t (pton_end (cursor t i p))
unfolding pton_end Ends
pton_end-Ends size most t i p room counted = elim (Bool-cases (i == 0)) [
  | inl empty ↦ inl (rw empty refl)
  | inr some_bytes ↦ inr (
    i,
    t,
    rw some_bytes refl,
    record { positive = ground arith; room = room; counted = counted; kept = refl; beyond = refl },
  )
]

pton_loop-stop :
    (size : ℕ) (ch n : ℕ) (mem : List ℕ) (c : Cursor)
    → ((ch == 0) || (n == 0)) ≡ true
    → pton_loop size (ch ∷ mem) n c ≡ pton_end c
unfolding pton_loop
pton_loop-stop size ch n mem c h = rw (h, pton_loop) refl

-- A character before the end of the text: no room for it, not one of the alphabet, or one step.
pton_loop-char :
    (size : ℕ) (ch n : ℕ) (mem t : List ℕ) (i : ℕ) (p : Phase)
    → ((ch == 0) || (n == 0)) ≡ false
    → size ≤ length t
    → (pton_loop size (ch ∷ mem) n (cursor t i p) ≡ failed)
      ⊎ ((v : ℕ) × (i < size)
          × (pton_loop size (ch ∷ mem) n (cursor t i p)
              ≡ pton_loop size mem
                  (n - 1)
                  (cursor (cells (ltb (i + 1) size) p v t i) (next_index p i) (next_phase p))))
unfolding pton_loop
pton_loop-char size ch n mem t i p h owned = elim (Bool-cases (leb size i)) [
  | inl full ↦ inl (rw (h, pton_loop) (rw (full, pton_loop) refl))
  | inr room ↦ elim (Option-cases (strchr base64 ch)) [
    | inl miss ↦ inl (rw (h, pton_loop) (rw (room, pton_loop) (rw (miss, pton_loop) refl)))
    | inr (v, found) ↦
        let inside : i < size = ground arith in
        inr (
          v,
          inside,
          rw (h, pton_loop)
              (rw (room, pton_loop)
                (rw (found, pton_loop)
                  (rw (step-cells size v t i p owned inside, pton_loop) refl))),
        )
  ]
]

pton_loop-Ends :
    (size most : ℕ) (mem : List ℕ) (n q i : ℕ) (t : List ℕ) (p : Phase)
    → Counts p i q
    → q + n ≡ most
    → i ≤ size
    → size ≤ length t
    → n < length mem
    → Ends size most t (pton_loop size mem n (cursor t i p))
unfolding Ends
pton_loop-Ends size most [] n q i t p c e room owned more = absurd (omega arith)
pton_loop-Ends size most (ch ∷ mem) n q i t p c e room owned more =
    elim (Bool-cases ((ch == 0) || (n == 0))) [
      | inl stop ↦
          rw (pton_loop-stop size ch n mem (cursor t i p) stop)
            (unfold Ends in pton_end-Ends size most t i p room (omega (arith, Counts-le p i q c)))
      | inr char ↦ elim (pton_loop-char size ch n mem t i p char owned) [
        | inl over ↦ inl over
        | inr (v, inside, next) ↦
            let t₁ = cells (ltb (i + 1) size) p v t i in
            let same : length t₁ ≡ length t = length-cells (ltb (i + 1) size) p v t i in
            let left : 0 < n = ground arith in
            let rest =
              pton_loop-Ends size most mem (n - 1) (q + 1) (next_index p i) t₁ (next_phase p)
                (Counts-next p i q c) (omega arith) (next_index-le p i size inside)
                (omega (arith, same)) (omega arith) in
            elim rest [
              | inl over ↦ inl (next ∙ over)
              | inr (m, t', ended, w) ↦ inr (
                m,
                t',
                next ∙ ended,
                record {
                  positive = w.positive;
                  room = w.room;
                  counted = w.counted;
                  kept = w.kept ∙ same;
                  beyond = w.beyond ∙ drop-cells size p v t i inside;
                },
              )
            ]
      ]
    ]

-- pefs_name_pton with a buffer of targsize bytes or more, where one character more than srclen can be
-- read, makes no access out of bounds. It fails, or it returns a number from 1 to targsize and to
-- PEFS_NAME_PTON_SIZE of srclen, and the buffer, of the same length, is as it was from targsize on.
pub pton_bounds :
    (mem : List ℕ) (srclen : ℕ) (t : List ℕ) (targsize : ℕ)
    → targsize ≤ length t
    → srclen < length mem
    → (pton mem srclen (some t) targsize ≡ failed)
      ⊎ ((m : ℕ) × (t' : List ℕ) × (pton mem srclen (some t) targsize ≡ done m (some t'))
          × (0 < m)
          × (m ≤ targsize)
          × (m ≤ pton_size srclen)
          × (length t' ≡ length t)
          × (drop targsize t' ≡ drop targsize t))
unfolding pton Ends
pton_bounds mem srclen t targsize owned more =
    elim (pton_loop-Ends targsize srclen mem srclen 0 0 t first refl (omega arith) (omega arith)
      owned more) [
        | inl over ↦ inl over
        | inr (m, t', ended, w) ↦
            inr (m, t', ended, w.positive, w.room, omega (arith, w.counted), w.kept, w.beyond)
      ]
