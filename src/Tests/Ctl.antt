-- ===== src/Tests/Ctl.antt =====
-- Keys and their parameters, with a cipher that masks its block and a hash that counts its text.
use pefs.Base.{
  ℕ, ◌+◌, ◌-◌, ◌*◌, ◌≤◌, ◌≡◌, ◌≢◌, ◌⊎◌, inl, refl, false, none, some, Option, List, [], ◌∷◌, length,
  replicate, arith, All-replicate,
}
use pefs.Base.Bytes.{IsByte, IsBytes, xor_bytes, length-xor_bytes}
use pefs.Base.Int.{ℤ, pos}
use pefs.Base.Text.{codes}
use pefs.Ctl.{Xkey, Xkeyenc, Link, Keyparam, Input, and_then, err_usage, err_invalid}
use pefs.Ctl.Key.{
  Rijndael, pefs_aes_ctr, link_bytes, bytes_link, pefs_key_encrypt, pefs_key_decrypt,
  pefs_key_generate,
}
use pefs.Ctl.Key.Counter.{MakesBlocks, keystream, pefs_aes_ctr_lem}
use pefs.Ctl.Key.Generate.{Outcome, with_alg, all_text, pefs_key_generate-standard_hmac}
use pefs.Ctl.Key.Seal.{
  IsXkey, IsLink, aes_of, mac_of, pefs_key_decrypt-encrypt, pefs_key_decrypt_lem,
}
use pefs.Ctl.Passfile.Lines.{Outcome as PassOutcome}
use pefs.Ctl.Param.{is_positive, pefs_keyparam_create, pefs_keyparam_init, set_defaults}
use pefs.Ctl.Param.Valid.{IsReady, fields, each_field, pefs_keyparam_init_lem}
use pefs.Tests.Derive.{counting, counting-IsSha512}

-- A cipher that masks its block with the bytes of the key.
abbrev pub plain_aes : Rijndael (List ℕ)
plain_aes = record {
  set_key = λ key bits. replicate 16 bits;
  encrypt = λ ctx block. xor_bytes block ctx;
}

pub plain_blocks : (key : List ℕ) (bits : ℕ) → MakesBlocks plain_aes (plain_aes.set_key key bits)
plain_blocks key bits b h =
    let long : length b ≤ length (replicate 16 bits) = omega (arith, h.0) in
    omega (arith, h.0, length-xor_bytes b (replicate 16 bits) long)

abbrev decimal : ℕ → List ℕ → ℕ
decimal n [] = n
decimal n (c ∷ s) = decimal (n * 10 + (c - 48)) s

abbrev atoi : List ℕ → ℤ
atoi s = pos (decimal 0 s)

pefs_keyparam_init_lem_example :
    let buf = codes "aes256:100" in
    let r = pefs_keyparam_init atoi pefs_keyparam_create (some buf) in
    (r
      ≡ and_then
          (each_field atoi pefs_keyparam_create 0 (fields buf))
          (λ kp'. (0, set_defaults kp')))
    × (((r.0 ≡ 0) × IsReady r.1) ⊎ ((r.0 ≡ err_usage) ⊎ (r.0 ≡ err_invalid)))
unfolding pefs_keyparam_create
pefs_keyparam_init_lem_example =
    pefs_keyparam_init_lem atoi pefs_keyparam_create (codes "aes256:100") (inl refl) (omega arith)
      (omega arith)

abbrev text : List ℕ
text = replicate 20 7

pefs_aes_ctr_lem_example :
    (pefs_aes_ctr plain_aes (replicate 16 128) none text
      ≡ xor_bytes text (keystream plain_aes (replicate 16 128) 0 20))
    × (pefs_aes_ctr plain_aes
          (replicate 16 128)
          none
          (pefs_aes_ctr plain_aes (replicate 16 128) none text)
        ≡ text)
pefs_aes_ctr_lem_example =
    pefs_aes_ctr_lem plain_aes (replicate 16 128) none text (plain_blocks [] 128) tt

abbrev pub xkey_of : ℕ → Xkey
xkey_of i = record {
  index = 0;
  alg = 4;
  keybits = 128;
  keyid = i ∷ replicate 7 0;
  key = replicate 64 i;
}

pub xkey_of-IsXkey : (i : ℕ) → IsXkey (xkey_of i)
xkey_of-IsXkey i = record {
  index = omega arith;
  alg = omega arith;
  keybits = omega arith;
  keyid = refl;
  key = refl;
}

abbrev link : Link
link = record { ke_next = xkey_of 2; ke_alg = 5; ke_keybits = 256 }

link-IsLink : IsLink link
link-IsLink = record { ke_next = xkey_of-IsXkey 2; ke_alg = omega arith; ke_keybits = omega arith }

pefs_key_decrypt-encrypt_example :
    let xe : Xkeyenc = record { a = link_bytes link; ke_mac = [] } in
    let sealed = pefs_key_encrypt counting plain_aes xe (xkey_of 1) in
    let opened = pefs_key_decrypt counting plain_aes sealed.1 (xkey_of 1) in
    (sealed.0 ≡ 0)
    × (opened.0 ≡ 0)
    × (bytes_link opened.1.a ≡ link)
    × (opened.1.ke_mac ≡ sealed.1.ke_mac)
pefs_key_decrypt-encrypt_example =
    pefs_key_decrypt-encrypt counting plain_aes link [] (xkey_of 1) counting-IsSha512
      (plain_blocks [] 128) link-IsLink

abbrev stored : Xkeyenc
stored = record { a = replicate 92 1; ke_mac = replicate 32 0 }

counting-IsBytes : (c : List ℕ) → IsBytes (counting.final c)
counting-IsBytes c = (omega arith, All-replicate IsByte 63 0 (omega arith))

pefs_key_decrypt_lem_example :
    let r = pefs_key_decrypt counting plain_aes stored (xkey_of 1) in
    ((stored.ke_mac ≡ mac_of counting plain_aes (xkey_of 1) stored.a)
      × (r ≡ (
        0,
        record stored {
          a = pefs_aes_ctr plain_aes (aes_of counting plain_aes (xkey_of 1)) none stored.a;
        },
      )))
    ⊎ ((stored.ke_mac ≢ mac_of counting plain_aes (xkey_of 1) stored.a)
        × (r ≡ (err_invalid, stored)))
pefs_key_decrypt_lem_example =
    pefs_key_decrypt_lem counting plain_aes stored (xkey_of 1) counting-IsSha512 counting-IsBytes
      (All-replicate IsByte 32 0 (omega arith)) refl

abbrev params : Keyparam
params = record {
  alg = pos 4;
  keybits = pos 128;
  nopassphrase = false;
  iterations = pos 2;
  keyfile = codes "key" ∷ codes "-" ∷ [];
  passfile = [];
}

abbrev open_at : ℕ → List ℕ → Option Input
open_at n file = some (record { reads = replicate 5 n ∷ []; fails = false })

abbrev stdin : ℕ → Input
stdin n = record { reads = (1 ∷ []) ∷ (2 ∷ []) ∷ []; fails = false }

pefs_key_generate-standard_hmac_example :
    let r = pefs_key_generate counting open_at stdin (xkey_of 1) (codes "secret") params in
    (((params.keyfile ≡ []) × (codes "secret" ≡ [])) × (r.0 ≡ err_usage))
    ⊎ ((¬ ((params.keyfile ≡ []) × (codes "secret" ≡ [])))
        × Outcome counting counting-IsSha512
            (with_alg counting counting-IsSha512 open_at stdin (xkey_of 1) params)
            (codes "secret")
            2
            (all_text open_at stdin 0 params.keyfile)
            r)
unfolding is_positive
pefs_key_generate-standard_hmac_example =
    pefs_key_generate-standard_hmac counting open_at stdin (xkey_of 1) params (codes "secret") 2
      counting-IsSha512 refl refl refl

-- Two lines of a file, in one read each.
abbrev two_reads : ℕ → List ℕ → Option Input
two_reads n file =
    some (record { reads = (1 ∷ 2 ∷ 10 ∷ 3 ∷ []) ∷ (4 ∷ 10 ∷ []) ∷ []; fails = false })
