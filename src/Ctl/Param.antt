-- ===== src/Ctl/Param.antt =====
-- The parameters of a key: pefs_keyparam_create of sbin/pefs/pefs_ctl.h, and the pefs_keyparam_*
-- functions of sbin/pefs/pefs_key.c.
pub mod Valid
use pefs.Base.{
  ℕ, zero, suc, ◌+◌, Bool, true, false, ◌&&◌, ◌||◌, not, Option, none, some, List, [], ◌∷◌, ◌++◌,
  length, take, drop, ◌==◌, ltb, if◌then◌else◌,
}
use pefs.Base.Bytes.{bytes_eq}
use pefs.Base.Int.{ℤ, pos, negsuc}
use pefs.Base.Text.{strchr}
use pefs.Crypto.{alg_aes_xts}
use pefs.Ctl.{
  Keyparam, Algorithm, algs, err_usage, err_invalid, keyparam_files_max, kdf_iterations, and_then,
}

unfoldable pub pefs_keyparam_create : Keyparam
pefs_keyparam_create = record {
  alg = pos 0;
  keybits = pos 0;
  nopassphrase = false;
  iterations = negsuc 0;
  keyfile = [];
  passfile = [];
}

unfoldable pub is_negative : ℤ → Bool
is_negative (pos n) = false
is_negative (negsuc n) = true

unfoldable pub is_positive : ℤ → Bool
is_positive (pos zero) = false
is_positive (pos (suc n)) = true
is_positive (negsuc n) = false

-- The loop over `algs` that stops at the name.
unfoldable pub find_name : List ℕ → List Algorithm → Option Algorithm
find_name algname [] = none
find_name algname (alg ∷ rest) =
    if bytes_eq algname alg.name then some alg else find_name algname rest

unfoldable pub set_found : Keyparam → Option Algorithm → ℕ × Keyparam
set_found kp none = (err_invalid, kp)
set_found kp (some alg) = (0, record kp { alg = pos alg.id; keybits = pos alg.keybits })

unfoldable pub pefs_keyparam_setalg : Keyparam → List ℕ → ℕ × Keyparam
unfolding find_name set_found
pefs_keyparam_setalg kp algname = set_found kp (find_name algname algs)

-- `atoi` is the C library's.
unfoldable pub pefs_keyparam_setiterations : (List ℕ → ℤ) → Keyparam → List ℕ → ℕ × Keyparam
unfolding is_negative
pefs_keyparam_setiterations atoi kp arg =
    let kp' : Keyparam = record kp { iterations = atoi arg } in
    if is_negative (atoi arg) then (err_invalid, kp') else (0, kp')

-- Which array of the structure `files` points to.
pub data Files : Type 0 where
  kp_keyfile : Files
  kp_passfile : Files
  other_files : Files

unfoldable pub append_file : List (List ℕ) → Option (List ℕ) → ℕ × List (List ℕ)
append_file files none = (err_invalid, files)
append_file files (some []) = (err_invalid, files)
append_file files (some (c ∷ cs)) =
    if length files == keyparam_files_max then (err_invalid, files) else (0, files ++ (c ∷ cs) ∷ [])

-- A null pointer `arg` is `none`.
unfoldable pub pefs_keyparam_setfile : Keyparam → Files → Option (List ℕ) → ℕ × Keyparam
unfolding append_file
pefs_keyparam_setfile kp kp_keyfile arg =
    let r = append_file kp.keyfile arg in (r.0, record kp { keyfile = r.1 })
pefs_keyparam_setfile kp kp_passfile arg =
    let r = append_file kp.passfile arg in (r.0, record kp { passfile = r.1 })
pefs_keyparam_setfile kp other_files arg = (err_invalid, kp)

-- The values that stand where the configuration says nothing.
unfoldable pub default_iterations : ℤ → ℤ
unfolding is_negative
default_iterations iterations = if is_negative iterations then pos kdf_iterations else iterations

unfoldable pub default_alg : Keyparam → Keyparam
unfolding is_positive
default_alg kp =
    if is_positive kp.alg then kp else record kp { alg = pos alg_aes_xts; keybits = pos 128 }

unfoldable pub set_defaults : Keyparam → Keyparam
unfolding default_iterations default_alg
set_defaults kp = default_alg (record kp { iterations = default_iterations kp.iterations })

module _ (atoi : List ℕ → ℤ) where
  unfoldable pub pefs_keyparam_handle : Keyparam → ℕ → List ℕ → ℕ × Keyparam
  unfolding pefs_keyparam_setalg pefs_keyparam_setiterations
  pefs_keyparam_handle kp ind [] = (0, kp)
  pefs_keyparam_handle kp zero (c ∷ cs) = pefs_keyparam_setalg kp (c ∷ cs)
  pefs_keyparam_handle kp (suc zero) (c ∷ cs) = pefs_keyparam_setiterations atoi kp (c ∷ cs)
  pefs_keyparam_handle kp (suc (suc ind)) (c ∷ cs) = (err_usage, kp)

  -- The loop over the fields that colons separate; the string is enough fuel, since each round but
  -- the last takes a colon of it.
  unfoldable pub conf_loop : ℕ → Keyparam → ℕ → List ℕ → ℕ × Keyparam
  unfolding pefs_keyparam_handle and_then
  conf_loop zero kp ind s = pefs_keyparam_handle kp ind s
  conf_loop (suc fuel) kp ind s = elim (strchr s 58) [
    | none ↦ pefs_keyparam_handle kp ind s
    | some n ↦
        and_then (pefs_keyparam_handle kp ind (take n s))
          (λ kp'. conf_loop fuel kp' (ind + 1) (drop (n + 1) s))
  ]

  -- What the configuration says: `link` is what `readlink` put into the buffer of BUFSIZ (1024)
  -- bytes, or nothing when it failed.
  unfoldable pub read_conf : Keyparam → Option (List ℕ) → ℕ × Keyparam
  unfolding conf_loop
  read_conf kp none = (0, kp)
  read_conf kp (some buf) =
      if ltb 0 (length buf) && ltb (length buf) 1024
      then conf_loop (length buf) kp 0 buf
      else (0, kp)

  unfoldable pub pefs_keyparam_init : Keyparam → Option (List ℕ) → ℕ × Keyparam
  unfolding read_conf set_defaults
  pefs_keyparam_init kp link = and_then (read_conf kp link) (λ kp'. (0, set_defaults kp'))
