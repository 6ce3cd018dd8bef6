-- ===== src/Ctl.antt =====
-- The user's side of a mount, sbin/pefs: keys and their parameters as pefs_ctl.h declares them, the
-- table of algorithms of pefs_key.c, and pefs_readfiles of pefs_subr.c.
pub mod Param
pub mod Key
pub mod Chain
pub mod Passfile
use pefs.Base.{
  ℕ, zero, suc, ◌+◌, ◌-◌, ◌%◌, ◌^◌, ◌≡◌, refl, Bool, true, false, Option, none, some, List, [], ◌∷◌,
  ◌++◌, ◌==◌, ◌&&◌, if◌then◌else◌,
}
use pefs.Base.Bytes.{bytes_eq}
use pefs.Base.Int.{ℤ, pos, negsuc}
use pefs.Base.Text.{codes}
use pefs.Base.Words.{le_bytes}
use pefs.Crypto.{alg_aes_xts, alg_camellia_xts}

abbrev pub err_usage : ℕ
err_usage = 2

abbrev pub err_io : ℕ
err_io = 3

abbrev pub err_sys : ℕ
err_sys = 4

abbrev pub err_noent : ℕ
err_noent = 5

abbrev pub err_exist : ℕ
err_exist = 6

abbrev pub err_invalid : ℕ
err_invalid = 7

abbrev pub keyenc_mac_size : ℕ
keyenc_mac_size = 32

abbrev pub keyparam_files_max : ℕ
keyparam_files_max = 16

abbrev pub kdf_iterations : ℕ
kdf_iterations = 50000

abbrev pub alg_invalid : ℕ
alg_invalid = 0

-- `struct pefs_xkey`: three words of 32 bits and two arrays, of 8 and of 64 bytes.
pub record Xkey : Type 0 where
  pub index : ℕ
  pub alg : ℕ
  pub keybits : ℕ
  pub keyid : List ℕ
  pub key : List ℕ

-- `struct pefs_xkeyenc`: the structure `a` as its bytes, and the checksum.
pub record Xkeyenc : Type 0 where
  pub a : List ℕ
  pub ke_mac : List ℕ

-- `a`, by its fields.
pub record Link : Type 0 where
  pub ke_next : Xkey
  pub ke_alg : ℕ
  pub ke_keybits : ℕ

-- `struct pefs_keyparam`: its counts are the lengths of its lists.
pub record Keyparam : Type 0 where
  pub alg : ℤ
  pub keybits : ℤ
  pub nopassphrase : Bool
  pub iterations : ℤ
  pub keyfile : List (List ℕ)
  pub passfile : List (List ℕ)

-- A C int that becomes a uint32_t.
unfoldable pub to_word : ℤ → ℕ
to_word (pos n) = n % 2 ^ 32
to_word (negsuc n) = 2 ^ 32 - 1 - n % 2 ^ 32

-- `struct algorithm`.
pub record Algorithm : Type 0 where
  pub name : List ℕ
  pub id : ℕ
  pub keybits : ℕ

abbrev row : List ℕ → ℕ → ℕ → Algorithm
row name id keybits = record { name = name; id = id; keybits = keybits }

abbrev pub algs : List Algorithm
algs =
    row (codes "aes128-xts") alg_aes_xts 128
    ∷ row (codes "aes128") alg_aes_xts 128
    ∷ row (codes "aes192-xts") alg_aes_xts 192
    ∷ row (codes "aes192") alg_aes_xts 192
    ∷ row (codes "aes256-xts") alg_aes_xts 256
    ∷ row (codes "aes256") alg_aes_xts 256
    ∷ row (codes "camellia128-xts") alg_camellia_xts 128
    ∷ row (codes "camellia128") alg_camellia_xts 128
    ∷ row (codes "camellia192-xts") alg_camellia_xts 192
    ∷ row (codes "camellia192") alg_camellia_xts 192
    ∷ row (codes "camellia256-xts") alg_camellia_xts 256
    ∷ row (codes "camellia256") alg_camellia_xts 256
    ∷ []

unfoldable pub name_scan : List Algorithm → Xkey → List ℕ
name_scan [] xk = codes "<unknown algorithm>"
name_scan (alg ∷ rest) xk =
    if (alg.id == xk.alg) && (alg.keybits == xk.keybits) then alg.name else name_scan rest xk

unfoldable pub pefs_alg_name : Xkey → List ℕ
unfolding name_scan
pefs_alg_name xk = name_scan algs xk

-- `if (error != 0) return (error);` between two steps.
unfoldable pub and_then {ℓ} : {S : Type ℓ} → ℕ × S → (S → ℕ × S) → ℕ × S
and_then (zero, s) next = next s
and_then (suc e, s) next = (suc e, s)

pub and_then-done {ℓ} : {S : Type ℓ} (r : ℕ × S) → and_then r (λ s. (0, s)) ≡ r
unfolding and_then
and_then-done (zero, s) = refl
and_then-done (suc e, s) = refl

-- What both steps keep of the state and of the error.
pub and_then-keeps {ℓ κ} :
    {S : Type ℓ} (P : ℕ × S → Type κ) (r : ℕ × S) (next : S → ℕ × S)
    → P r
    → ((s : S) → P (0, s) → P (next s))
    → P (and_then r next)
unfolding and_then
and_then-keeps P (zero, s) next h k = k s h
and_then-keeps P (suc e, s) next h k = h

-- What the system answers to the reads of one file: the bytes of each, and whether the last one
-- fails.
pub record Input : Type 0 where
  pub reads : List (List ℕ)
  pub fails : Bool

module _ {S : Type 0} (handler : S → List ℕ → List ℕ → ℕ × S) where
  -- `while ((done = read(fd, buf, sizeof(buf) - 1)) > 0)`.
  unfoldable pub read_loop : List ℕ → S → List (List ℕ) → ℕ × S
  unfolding and_then
  read_loop file ctx [] = (0, ctx)
  read_loop file ctx (buf ∷ rest) =
      and_then (handler ctx buf file) (λ ctx'. read_loop file ctx' rest)

  unfoldable pub read_file : List ℕ → S → Input → ℕ × S
  unfolding read_loop
  read_file file ctx input =
      and_then (read_loop file ctx input.reads)
        (λ ctx'. if input.fails then (err_io, ctx') else (0, ctx'))

  -- A file that cannot be opened is `none`.
  unfoldable pub read_opened : List ℕ → Option Input → S → (S → ℕ × S) → ℕ × S
  unfolding read_file
  read_opened file none ctx next = (err_io, ctx)
  read_opened file (some input) ctx next = and_then (read_file file ctx input) next

  -- `open_at n file` is what the system gives for the file at position n, or nothing when it cannot
  -- be opened; `stdin n` is what it gives for the name "-".
  unfoldable pub read_files :
      (ℕ → List ℕ → Option Input) → (ℕ → Input) → ℕ → List (List ℕ) → S → ℕ × S
  unfolding read_opened
  read_files open_at stdin n [] ctx = (0, ctx)
  read_files open_at stdin n (file ∷ rest) ctx =
      read_opened file (if bytes_eq file (codes "-") then some (stdin n) else open_at n file) ctx
        (λ ctx'. read_files open_at stdin (n + 1) rest ctx')

  unfoldable pub pefs_readfiles :
      (ℕ → List ℕ → Option Input) → (ℕ → Input) → List (List ℕ) → S → ℕ × S
  unfolding read_files
  pefs_readfiles open_at stdin files ctx = read_files open_at stdin 0 files ctx
