-- ===== src/Xbase64/Decode.antt =====
-- One character of pefs_name_pton at a time, then one group of `encode`.
use pefs.Base.{
  ℕ, zero, suc, ◌+◌, ◌*◌, ◌/◌, ◌%◌, ◌^◌, ◌<◌, ◌≤◌, ◌≡◌, refl, inl, inr, Bool-cases, drop, lt→ltb,
  length-append, ◌∙◌, ap, Bool, true, false, bit_and, bit_or, some, List, [], ◌∷◌, ◌++◌, ltb,
  lt→leb, if◌then◌else◌, length, length-set, get_or, set, arith,
}
use native.Mathlib.Nat.{zero-add}
use pefs.Xbase64.{
  digit, Phase, first, second, third, fourth, Cursor, step, pton_loop, store, or_store, store_next,
  moved,
}
use pefs.Xbase64.Encode.{strchr-digit, digit-ne-zero}

abbrev pub cursor : List ℕ → ℕ → Phase → Cursor
cursor t i p = record { target = some t; tarindex = i; state = p }

-- A character of the alphabet with room for its byte takes one step.
pton_loop-digit :
    (targsize : ℕ) (mem : List ℕ) (n v : ℕ) (t : List ℕ) (i : ℕ) (p : Phase) (c : Cursor)
    → v < 64
    → i < targsize
    → step targsize p v (some t) i ≡ some c
    → pton_loop targsize (digit v ∷ mem) (suc n) (cursor t i p) ≡ pton_loop targsize mem n c
unfolding pton_loop
pton_loop-digit targsize mem n v t i p c hv hi e =
    ground (arith, strchr-digit v hv, digit-ne-zero v hv, lt→leb targsize i hi, e)

-- A buffer in two parts is read and written in its second part.
set-at : (xs ys : List ℕ) (i k v : ℕ) → i ≡ length xs + k → set (xs ++ ys) i v ≡ xs ++ set ys k v
set-at [] ys i k v h = rw (h, zero-add k)
set-at (x ∷ xs) ys zero k v h = absurd (omega arith)
set-at (x ∷ xs) ys (suc i) k v h = ap (λ r. x ∷ r) (set-at xs ys i k v (omega arith))

get_or-at : (xs ys : List ℕ) (i k : ℕ) → i ≡ length xs + k → get_or (xs ++ ys) i 0 ≡ get_or ys k 0
get_or-at [] ys i k h = rw (h, zero-add k)
get_or-at (x ∷ xs) ys zero k h = absurd (omega arith)
get_or-at (x ∷ xs) ys (suc i) k h = get_or-at xs ys i k (omega arith)

-- What a step does to the cells from index k on; `room` says that the next cell may be written.
abbrev pub join_cell : List ℕ → ℕ → ℕ → List ℕ
join_cell ys k v = set ys k (bit_or (get_or ys k 0) v % 256)

abbrev pub open_cell : Bool → List ℕ → ℕ → ℕ → List ℕ
open_cell room ys k v = if room then set ys (k + 1) (v % 256) else ys

abbrev pub cells : Bool → Phase → ℕ → List ℕ → ℕ → List ℕ
cells room first v ys k = set ys k (v * 2 ^ 2 % 256)
cells room second v ys k = open_cell room (join_cell ys k (v / 2 ^ 4)) k (bit_and v 0x0f * 2 ^ 4)
cells room third v ys k = open_cell room (join_cell ys k (v / 2 ^ 2)) k (bit_and v 0x03 * 2 ^ 6)
cells room fourth v ys k = join_cell ys k v

abbrev pub next_index : Phase → ℕ → ℕ
next_index first i = i
next_index _ i = i + 1

abbrev pub next_phase : Phase → Phase
next_phase first = second
next_phase second = third
next_phase third = fourth
next_phase fourth = first

-- A store in the second part of a buffer.
store-at :
    (out ys : List ℕ) (i k w : ℕ)
    → i ≡ length out + k
    → i < length out + length ys
    → store (some (out ++ ys)) i w ≡ some (some (out ++ set ys k (w % 256)))
store-at out ys i k w at h =
    rw (lt→ltb i (length (out ++ ys)) (omega (arith, length-append out ys)))
      (ap (λ (t : List ℕ). some (some t)) (set-at out ys i k (w % 256) at))

module _ (targsize v : ℕ) (out ys : List ℕ) (i k : ℕ) (at : i ≡ length out + k)
    (fits : targsize ≤ length out + length ys) (inside : i < targsize) where
  join-at : (w : ℕ) → or_store (some (out ++ ys)) i w ≡ some (some (out ++ join_cell ys k w))
  join-at w = rw (get_or-at out ys i k at) (store-at out ys i k _ at (omega arith))

  open-at :
      (zs : List ℕ) (w : ℕ)
      → length zs ≡ length ys
      → store_next targsize (some (some (out ++ zs))) i w
        ≡ some (some (out ++ open_cell (ltb (i + 1) targsize) zs k w))
  open-at zs w same = elim (Bool-cases (ltb (i + 1) targsize)) [
    | inl room ↦
        rw room (store-at out zs (i + 1) (k + 1) w (omega arith) (ground (arith, same, fits)))
    | inr full ↦ rw full refl
  ]

  step-at :
      (p : Phase)
      → step targsize p v (some (out ++ ys)) i
        ≡ some
            (cursor (out ++ cells (ltb (i + 1) targsize) p v ys k) (next_index p i) (next_phase p))
  unfolding step
  step-at first = ap (λ t. moved t i second) (store-at out ys i k (v * 2 ^ 2) at (omega arith))
  step-at second =
      ap (λ t. moved (store_next targsize t i (bit_and v 0x0f * 2 ^ 4)) (i + 1) third)
        (join-at (v / 2 ^ 4))
      ∙ ap (λ t. moved t (i + 1) third)
          (open-at (join_cell ys k (v / 2 ^ 4)) (bit_and v 0x0f * 2 ^ 4) (length-set ys k _))
  step-at third =
      ap (λ t. moved (store_next targsize t i (bit_and v 0x03 * 2 ^ 6)) (i + 1) fourth)
        (join-at (v / 2 ^ 2))
      ∙ ap (λ t. moved t (i + 1) fourth)
          (open-at (join_cell ys k (v / 2 ^ 2)) (bit_and v 0x03 * 2 ^ 6) (length-set ys k _))
  step-at fourth = ap (λ t. moved t (i + 1) first) (join-at v)

-- A character with room, on a buffer in two parts.
pub digit-at :
    (targsize v : ℕ) (out ys : List ℕ) (i k : ℕ) (p : Phase) (mem : List ℕ) (n : ℕ)
    → i ≡ length out + k
    → v < 64
    → i < targsize
    → targsize ≤ length out + length ys
    → pton_loop targsize (digit v ∷ mem) (suc n) (cursor (out ++ ys) i p)
      ≡ pton_loop targsize mem n
          (cursor (out ++ cells (ltb (i + 1) targsize) p v ys k) (next_index p i) (next_phase p))
digit-at targsize v out ys i k p mem n at hv hi fits =
    pton_loop-digit targsize mem n v (out ++ ys) i p _ hv hi
      (step-at targsize v out ys i k at fits hi p)

-- The same of a whole buffer.
pub step-cells :
    (targsize v : ℕ) (t : List ℕ) (i : ℕ) (p : Phase)
    → targsize ≤ length t
    → i < targsize
    → step targsize p v (some t) i
      ≡ some (cursor (cells (ltb (i + 1) targsize) p v t i) (next_index p i) (next_phase p))
step-cells targsize v t i p fits inside =
    step-at targsize v [] t i i (omega arith) (omega arith) inside p

length-open : (room : Bool) (ys : List ℕ) (k v : ℕ) → length (open_cell room ys k v) ≡ length ys
length-open true ys k v = length-set ys (k + 1) (v % 256)
length-open false ys k v = refl

pub length-cells :
    (room : Bool) (p : Phase) (v : ℕ) (ys : List ℕ) (k : ℕ)
    → length (cells room p v ys k) ≡ length ys
length-cells room first v ys k = length-set ys k _
length-cells room second v ys k = length-open room _ k _ ∙ length-set ys k _
length-cells room third v ys k = length-open room _ k _ ∙ length-set ys k _
length-cells room fourth v ys k = length-set ys k _

drop-set : (ys : List ℕ) (k n v : ℕ) → k < n → drop n (set ys k v) ≡ drop n ys
drop-set ys k zero v h = absurd (omega arith)
drop-set [] k (suc n) v h = refl
drop-set (y ∷ ys) zero (suc n) v h = refl
drop-set (y ∷ ys) (suc k) (suc n) v h = drop-set ys k n v (omega arith)

drop-open :
    (size : ℕ) (ys : List ℕ) (k v : ℕ)
    → drop size (open_cell (ltb (k + 1) size) ys k v) ≡ drop size ys
drop-open size ys k v = elim (Bool-cases (ltb (k + 1) size)) [
  | inl room ↦ rw room (drop-set ys (k + 1) size (v % 256) (ground arith))
  | inr full ↦ rw full refl
]

-- A step leaves the cells from targsize on alone.
pub drop-cells :
    (size : ℕ) (p : Phase) (v : ℕ) (ys : List ℕ) (k : ℕ)
    → k < size
    → drop size (cells (ltb (k + 1) size) p v ys k) ≡ drop size ys
drop-cells size first v ys k h = drop-set ys k size _ h
drop-cells size second v ys k h = drop-open size _ k _ ∙ drop-set ys k size _ h
drop-cells size third v ys k h = drop-open size _ k _ ∙ drop-set ys k size _ h
drop-cells size fourth v ys k h = drop-set ys k size _ h
