-- ===== src/Xbase64.antt =====
-- sys/fs/pefs/pefs_xbase64.c: the base64 variant in which encrypted file names are written.
-- `ntop` is pefs_name_ntop and `pton` is pefs_name_pton.
pub mod Encode
pub mod Decode
pub mod RoundTrip
pub mod Bounds
use pefs.Base.{
  ℕ, zero, suc, ◌+◌, ◌-◌, ◌*◌, ◌/◌, ◌%◌, ◌^◌, bit_and, bit_or, Bool, true, false, ◌&&◌, ◌||◌,
  Option, none, some, List, [], ◌∷◌, ◌++◌, ltb, leb, ◌==◌, if◌then◌else◌, length, get_or, set,
}
use pefs.Base.Text.{codes, strchr}

abbrev pub base64 : List ℕ
base64 = codes "ABCDEFGHIJKLMNOPQRSTUVWXYZabcdefghijklmnopqrstuvwxyz0123456789+_"

-- `Base64[i]`; every index that the code forms from bytes is below 64.
unfoldable pub digit : ℕ → ℕ
digit i = get_or base64 i 0

-- PEFS_NAME_NTOP_SIZE and PEFS_NAME_PTON_SIZE.
abbrev pub ntop_size : ℕ → ℕ
ntop_size a = (a * 4 + 2) / 3

abbrev pub pton_size : ℕ → ℕ
pton_size a = a * 3 / 4

-- The u_char values output[0] to output[3] for the input bytes a, b, c.
abbrev pub output_0 : ℕ → ℕ
output_0 a = a / 2 ^ 2

abbrev pub output_1 : ℕ → ℕ → ℕ
output_1 a b = (bit_and a 0x03 * 2 ^ 4 + b / 2 ^ 4) % 256

abbrev pub output_2 : ℕ → ℕ → ℕ
output_2 b c = (bit_and b 0x0f * 2 ^ 2 + c / 2 ^ 6) % 256

abbrev pub output_3 : ℕ → ℕ
output_3 c = bit_and c 0x3f

-- `while (2 < srclength)`. The bytes left are `src`; `out` is target[0 .. datalength). The result
-- is what is left of the source and of the target; `none` is the return of -1.
unfoldable pub ntop_loop : ℕ → List ℕ → List ℕ → Option (List ℕ × List ℕ)
ntop_loop targsize (a ∷ b ∷ c ∷ src) out =
    if ltb targsize (length out + 4)
    then none
    else ntop_loop targsize src (
        out
        ++ digit (output_0 a)
          ∷ digit (output_1 a b)
          ∷ digit (output_2 b c)
          ∷ digit (output_3 c)
          ∷ [])
ntop_loop targsize src out = some (src, out)

-- The padding step. The loop leaves two bytes at most; input[] is zeroed first.
unfoldable pub ntop_rest : ℕ → List ℕ → List ℕ → Option (List ℕ)
ntop_rest targsize [] out = some out
ntop_rest targsize (a ∷ []) out =
    if ltb targsize (length out + 2)
    then none
    else some (out ++ digit (output_0 a) ∷ digit (output_1 a 0) ∷ [])
ntop_rest targsize (a ∷ b ∷ rest) out =
    if ltb targsize (length out + 2)
    then none
    else let out' = out ++ digit (output_0 a) ∷ digit (output_1 a b) ∷ [] in
      if ltb targsize (length out' + 1) then none else some (out' ++ digit (output_2 b 0) ∷ [])

-- The last test, and the room for the terminating zero.
unfoldable pub ntop_end : ℕ → List ℕ → Option (List ℕ)
ntop_end targsize out = if leb targsize (length out) || (length out == 0) then none else some out

-- `src` is the array src[0 .. srclength). The result is the string written at `target`, without
-- its terminating zero, and its length is the value returned.
unfoldable pub ntop : List ℕ → ℕ → Option (List ℕ)
unfolding ntop_loop ntop_rest ntop_end
ntop src targsize = elim (ntop_loop targsize src []) [
  | none ↦ none
  | some (rest, out) ↦ elim (ntop_rest targsize rest out) [
    | none ↦ none
    | some out' ↦ ntop_end targsize out'
  ]
]

-- The `state` of pefs_name_pton, 0 to 3; `default:` is not reached.
pub data Phase : Type 0 where
  first second third fourth : Phase

-- `target` is none for a null pointer.
pub record Cursor : Type 0 where
  pub target : Option (List ℕ)
  pub tarindex : ℕ
  pub state : Phase

pub data Outcome : Type 0 where
  -- a read past the end of the source's memory, or a store past the end of the target's
  fault : Outcome
  -- return (-1)
  failed : Outcome
  -- return (tarindex), with the target as it is then
  done : ℕ → Option (List ℕ) → Outcome

-- `target[i] = v` and `target[i] |= v`, where there is a target; `v` is converted to u_char. The
-- outer `none` is a store past the end of the buffer.
abbrev pub store : Option (List ℕ) → ℕ → ℕ → Option (Option (List ℕ))
store none i v = some none
store (some t) i v = if ltb i (length t) then some (some (set t i (v % 256))) else none

abbrev pub or_store : Option (List ℕ) → ℕ → ℕ → Option (Option (List ℕ))
or_store none i v = some none
or_store (some t) i v = store (some t) i (bit_or (get_or t i 0) v)

-- The statements `if (tarindex + 1 < targsize) target[tarindex + 1] = v`, after a store.
abbrev pub store_next : ℕ → Option (Option (List ℕ)) → ℕ → ℕ → Option (Option (List ℕ))
store_next targsize none i v = none
store_next targsize (some t) i v = if ltb (i + 1) targsize then store t (i + 1) v else some t

abbrev pub moved : Option (Option (List ℕ)) → ℕ → Phase → Option Cursor
moved none i state = none
moved (some t) i state = some (record { target = t; tarindex = i; state = state })

-- The switch, for the character at `Base64 + pos`. `none` is a store past the end of the buffer.
unfoldable pub step : ℕ → Phase → ℕ → Option (List ℕ) → ℕ → Option Cursor
step targsize first pos t i = moved (store t i (pos * 2 ^ 2)) i second
step targsize second pos t i =
    moved (store_next targsize (or_store t i (pos / 2 ^ 4)) i (bit_and pos 0x0f * 2 ^ 4)) (i + 1)
      third
step targsize third pos t i =
    moved (store_next targsize (or_store t i (pos / 2 ^ 2)) i (bit_and pos 0x03 * 2 ^ 6)) (i + 1)
      fourth
step targsize fourth pos t i = moved (or_store t i pos) (i + 1) first

abbrev pub has_target : Option (List ℕ) → Bool
has_target none = false
has_target (some t) = true

-- The end of the loop.
unfoldable pub pton_end : Cursor → Outcome
pton_end c = if c.tarindex == 0 then failed else done c.tarindex c.target

-- `mem` is the memory from `src` on. A character is read before srclen is tested, so one more
-- than srclen characters may be read.
unfoldable pub pton_loop : ℕ → List ℕ → ℕ → Cursor → Outcome
pton_loop targsize [] srclen c = fault
pton_loop targsize (ch ∷ mem) srclen c = elim ((ch == 0) || (srclen == 0)) [
  | true ↦ pton_end c
  | false ↦ elim (has_target c.target && leb targsize c.tarindex) [
    | true ↦ failed
    | false ↦ elim (strchr base64 ch) [
      | none ↦ failed
      | some pos ↦ elim (step targsize c.state pos c.target c.tarindex) [
        | none ↦ fault
        | some c' ↦ pton_loop targsize mem (srclen - 1) c'
      ]
    ]
  ]
]

unfoldable pub pton : List ℕ → ℕ → Option (List ℕ) → ℕ → Outcome
unfolding pton_loop pton_end step strchr
pton mem srclen target targsize =
    pton_loop targsize mem srclen (record { target = target; tarindex = 0; state = first })
