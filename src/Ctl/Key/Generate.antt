-- ===== src/Ctl/Key/Generate.antt =====
-- What pefs_key_generate of sbin/pefs/pefs_key.c makes of the key files and the passphrase.
use pefs.Base.{
  ℕ, ◌+◌, ◌-◌, ◌^◌, ◌≡◌, ◌⊎◌, inl, inr, refl, sym, subst, ap, ◌∙◌, arith, true, false, not, ◌&&◌,
  Option, none, some, List, [], ◌∷◌, ◌++◌, take, take-all, replicate, ◌==◌, if◌then◌else◌,
  Bool-cases,
}
use mathlib.Core.List.{append-nil, append_assoc}
use pefs.Base.Bytes.{bytes_eq, xor_bytes}
use pefs.Base.Int.{pos}
use pefs.Base.Text.{codes}
use pefs.Ctl.{
  Xkey, Keyparam, Input, to_word, read_loop, read_file, read_opened, read_files, pefs_readfiles,
  and_then, err_usage, err_io,
}
use pefs.Ctl.Key.{
  magic_keyid_info, is_empty, is_text, add_passphrase, generate_final, pefs_readkeyfile_handler,
  pefs_key_generate,
}
use pefs.Ctl.Param.{is_negative, is_positive}
use pefs.Hmac.{
  Sha512, IsSha512, HmacCtx, hmac_sha512_init, hmac_sha512_update, hmac_sha512_final, block_key,
  pbkdf2_hmac_sha512_genkey,
}
use pefs.Hmac.Laws.{standard_hmac, hmac_final-standard, length-standard_hmac}

-- The bytes of one file, when all its reads succeed, and of all files.
unfoldable pub joined : List (List ℕ) → List ℕ
joined [] = []
joined (buf ∷ rest) = buf ++ joined rest

abbrev pub whole : Option Input → Option (List ℕ)
whole none = none
whole (some input) = if input.fails then none else some (joined input.reads)

abbrev pub join_text : Option (List ℕ) → Option (List ℕ) → Option (List ℕ)
join_text none more = none
join_text (some t) none = none
join_text (some t) (some u) = some (t ++ u)

module _ (open_at : ℕ → List ℕ → Option Input) (stdin : ℕ → Input) where
  abbrev pub input_at : ℕ → List ℕ → Option Input
  input_at n file = if bytes_eq file (codes "-") then some (stdin n) else open_at n file

  unfoldable pub all_text : ℕ → List (List ℕ) → Option (List ℕ)
  all_text n [] = some []
  all_text n (file ∷ rest) = join_text (whole (input_at n file)) (all_text (n + 1) rest)

module _ {C : Type 0} (sha : Sha512 C) where
  -- The part of the passphrase, through PBKDF2 unless there are no iterations.
  abbrev pub pass_text : List ℕ → ℕ → List ℕ
  pass_text [] iterations = []
  pass_text (c ∷ cs) iterations =
      if iterations == 0 then c ∷ cs else pbkdf2_hmac_sha512_genkey sha 64 [] (c ∷ cs) iterations

  -- The key of a text, by HMAC with no key, and its identifier, by HMAC under that key.
  abbrev pub made_key : Xkey → List ℕ → Xkey
  made_key xk text =
      let key = standard_hmac sha [] text in
      record xk { keyid = take 8 (standard_hmac sha key magic_keyid_info); key = key }

  module _ (good : IsSha512 sha) where
    update-update :
        (ctx : HmacCtx C) (a b : List ℕ)
        → hmac_sha512_update sha (hmac_sha512_update sha ctx a) b
          ≡ hmac_sha512_update sha ctx (a ++ b)
    unfolding hmac_sha512_update
    update-update ctx a b = λ i. record ctx { shactx = good.update-append ctx.shactx a b i }

    update-nothing :
        (key : List ℕ)
        → hmac_sha512_update sha (hmac_sha512_init sha key) [] ≡ hmac_sha512_init sha key
    unfolding hmac_sha512_update hmac_sha512_init
    update-nothing key =
        let pad = xor_bytes (block_key sha key) (replicate 128 0x36) in
        λ i. record {
          shactx =
              (good.update-append sha.init pad [] ∙ ap (sha.update sha.init) (append-nil pad)) i;
          k_opad = xor_bytes (block_key sha key) (replicate 128 0x5c);
        }

    -- The context after a text.
    abbrev after : List ℕ → HmacCtx C
    after t = hmac_sha512_update sha (hmac_sha512_init sha []) t

    read_loop-joined :
        (file t : List ℕ) (reads : List (List ℕ))
        → read_loop (pefs_readkeyfile_handler sha) file (after t) reads
          ≡ (0, after (t ++ joined reads))
    unfolding read_loop pefs_readkeyfile_handler joined and_then
    read_loop-joined file t [] = ap (λ (u : List ℕ). (0, after u)) (sym (append-nil t))
    read_loop-joined file t (buf ∷ rest) = rw (update-update (hmac_sha512_init sha []) t buf) (
        read_loop-joined file (t ++ buf) rest
        ∙ ap (λ (u : List ℕ). (0, after u)) (append_assoc t buf (joined rest)))

    -- A file that is read whole adds its bytes, and any other ends the reading.
    abbrev Adds : List ℕ → Option (List ℕ) → ℕ × HmacCtx C → Type 0
    Adds t none r = r.0 ≡ err_io
    Adds t (some u) r = r ≡ (0, after (t ++ u))

    more-Adds :
        (t j : List ℕ) (more : Option (List ℕ)) (r : ℕ × HmacCtx C)
        → Adds (t ++ j) more r
        → Adds t (join_text (some j) more) r
    more-Adds t j none r h = h
    more-Adds t j (some u) r h = h ∙ ap (λ (v : List ℕ). (0, after v)) (append_assoc t j u)

    read_opened-Adds :
        (file t : List ℕ) (o : Option Input) (more : Option (List ℕ))
        → (next : HmacCtx C → ℕ × HmacCtx C) → ((u : List ℕ) → Adds u more (next (after u)))
        → Adds t
            (join_text (whole o) more)
            (read_opened (pefs_readkeyfile_handler sha) file o (after t) next)
    unfolding read_opened read_file and_then
    read_opened-Adds file t none more next k = refl
    read_opened-Adds file t (some input) more next k =
        rw (read_loop-joined file t input.reads) (elim (Bool-cases input.fails) [
          | inl e ↦ rw e refl
          | inr e ↦ rw e (
              more-Adds t (joined input.reads) more (next (after (t ++ joined input.reads)))
                (k (t ++ joined input.reads)))
        ])

    read_files-Adds :
        (open_at : ℕ → List ℕ → Option Input) (stdin : ℕ → Input) (files : List (List ℕ))
        → (n : ℕ) (t : List ℕ)
        → Adds t
            (all_text open_at stdin n files)
            (read_files (pefs_readkeyfile_handler sha) open_at stdin n files (after t))
    unfolding all_text read_files
    read_files-Adds open_at stdin [] n t = ap (λ (u : List ℕ). (0, after u)) (sym (append-nil t))
    read_files-Adds open_at stdin (file ∷ rest) n t =
        read_opened-Adds file t (input_at open_at stdin n file)
          (all_text open_at stdin (n + 1) rest)
          (λ ctx'. read_files (pefs_readkeyfile_handler sha) open_at stdin (n + 1) rest ctx')
          (λ u. read_files-Adds open_at stdin rest (n + 1) u)

    add_passphrase-after :
        (t pass : List ℕ) (n : ℕ)
        → add_passphrase sha (after t) pass n ≡ after (t ++ pass_text pass n)
    unfolding add_passphrase
    add_passphrase-after t [] n = ap after (sym (append-nil t))
    add_passphrase-after t (c ∷ cs) n = elim (Bool-cases (n == 0)) [
      | inl e ↦ rw e (update-update (hmac_sha512_init sha []) t (c ∷ cs))
      | inr e ↦ rw e (
          update-update (hmac_sha512_init sha []) t
            (pbkdf2_hmac_sha512_genkey sha 64 [] (c ∷ cs) n))
    ]

    generate_final-made : (xk : Xkey) (t : List ℕ) → generate_final sha xk (after t) ≡ made_key xk t
    unfolding generate_final
    generate_final-made xk t =
        let key_eq =
          hmac_final-standard sha good 64 [] t refl
          ∙ take-all 64 (standard_hmac sha [] t)
              (omega (arith, length-standard_hmac sha good [] t)) in
        λ i. record xk {
          keyid =
              (ap
                    (λ (k : List ℕ).
                      hmac_sha512_final sha
                        (hmac_sha512_update sha (hmac_sha512_init sha k) magic_keyid_info) 8)
                    key_eq
                  ∙ hmac_final-standard sha good 8 (standard_hmac sha [] t) magic_keyid_info refl)
                i;
          key = key_eq i;
        }

    -- The result, by what the files hold.
    abbrev pub Outcome : Xkey → List ℕ → ℕ → Option (List ℕ) → ℕ × Xkey → Type 0
    Outcome xk pass n none r = r.0 ≡ err_io
    Outcome xk pass n (some t) r = r ≡ (0, made_key xk (t ++ pass_text pass n))

    finish :
        (xk : Xkey) (pass : List ℕ) (n : ℕ) (text : Option (List ℕ)) (r : ℕ × HmacCtx C)
        → Adds [] text r
        → Outcome xk pass n text (
            if r.0 == 0
            then (0, generate_final sha xk (add_passphrase sha r.1 pass n))
            else (r.0, xk))
    finish xk pass n none r h = rw h refl
    finish xk pass n (some t) r h = rw h (λ i. (
      0,
      (ap (generate_final sha xk) (add_passphrase-after t pass n)
            ∙ generate_final-made xk (t ++ pass_text pass n))
          i,
    ))

module _ {C : Type 0} (sha : Sha512 C) (good : IsSha512 sha) (open_at : ℕ → List ℕ → Option Input)
    (stdin : ℕ → Input) (xk : Xkey) (kp : Keyparam) where
  -- The fields that do not depend on the secrets.
  abbrev pub with_alg : Xkey
  with_alg = record xk { index = 2 ^ 32 - 1; alg = to_word kp.alg; keybits = to_word kp.keybits }

  read_all : Adds sha good [] (all_text open_at stdin 0 kp.keyfile) (
      pefs_readfiles
        (pefs_readkeyfile_handler sha)
        open_at
        stdin
        kp.keyfile
        (hmac_sha512_init sha []))
  unfolding pefs_readfiles
  read_all =
      subst
        (λ (c : HmacCtx C).
          Adds sha good [] (all_text open_at stdin 0 kp.keyfile)
            (read_files (pefs_readkeyfile_handler sha) open_at stdin 0 kp.keyfile c))
        (update-nothing sha good []) (read_files-Adds sha good open_at stdin kp.keyfile 0 [])

  generate-parts :
      (pass : List ℕ) (n : ℕ)
      → is_positive kp.alg ≡ true
      → is_positive kp.keybits ≡ true
      → kp.iterations ≡ pos n
      → (is_empty kp.keyfile && not (is_text pass)) ≡ false
      → Outcome sha good with_alg pass n
          (all_text open_at stdin 0 kp.keyfile)
          (pefs_key_generate sha open_at stdin xk pass kp)
  unfolding pefs_key_generate
  generate-parts pass n alg bits it some_part =
      rw (alg, bits, it)
        (unfold is_negative in
          rw some_part (
            finish sha good with_alg pass n (all_text open_at stdin 0 kp.keyfile)
              (pefs_readfiles (pefs_readkeyfile_handler sha) open_at stdin kp.keyfile
                (hmac_sha512_init sha []))
              read_all))

  generate-nothing :
      (pass : List ℕ) (n : ℕ)
      → is_positive kp.alg ≡ true
      → is_positive kp.keybits ≡ true
      → kp.iterations ≡ pos n
      → (is_empty kp.keyfile && not (is_text pass)) ≡ true
      → (pefs_key_generate sha open_at stdin xk pass kp).0 ≡ err_usage
  unfolding pefs_key_generate
  generate-nothing pass n alg bits it no_part =
      rw (alg, bits, it) (unfold is_negative in rw no_part refl)

no_parts :
    (files : List (List ℕ)) (pass : List ℕ)
    → (is_empty files && not (is_text pass)) ≡ true
    → (files ≡ []) × (pass ≡ [])
unfolding is_empty is_text
no_parts [] [] e = (refl, refl)
no_parts [] (c ∷ cs) e = absurd (cc e)
no_parts (f ∷ fs) pass e = absurd (cc e)

some_parts :
    (files : List (List ℕ)) (pass : List ℕ)
    → (is_empty files && not (is_text pass)) ≡ false
    → ¬ ((files ≡ []) × (pass ≡ []))
unfolding is_empty is_text
some_parts [] [] e h = cc e
some_parts [] (c ∷ cs) e h = cc (h.1)
some_parts (f ∷ fs) pass e h = cc (h.0)

-- With parameters that pefs_keyparam_init left (an algorithm, bits, and a number of iterations that
-- is not negative), and SHA-512 that may be given its text in pieces and has digests of 64 bytes:
-- with no key file and no passphrase pefs_key_generate returns PEFS_ERR_USAGE; otherwise, when a file
-- cannot be opened or read, PEFS_ERR_IO; and otherwise the key is the HMAC of RFC 2104, under the
-- empty key, of the bytes of all files in their order followed by the passphrase or what PBKDF2 makes
-- of it, and its identifier is 8 bytes of the HMAC of "<KEY ID>" under that key.
pub pefs_key_generate-standard_hmac :
    {C : Type 0} (sha : Sha512 C) (open_at : ℕ → List ℕ → Option Input) (stdin : ℕ → Input)
    → (xk : Xkey) (kp : Keyparam) (pass : List ℕ) (n : ℕ) → (good : IsSha512 sha)
    → is_positive kp.alg ≡ true
    → is_positive kp.keybits ≡ true
    → kp.iterations ≡ pos n
    → let r = pefs_key_generate sha open_at stdin xk pass kp in
      (((kp.keyfile ≡ []) × (pass ≡ [])) × (r.0 ≡ err_usage))
      ⊎ ((¬ ((kp.keyfile ≡ []) × (pass ≡ [])))
          × Outcome sha good
              (with_alg sha good open_at stdin xk kp)
              pass
              n
              (all_text open_at stdin 0 kp.keyfile)
              r)
pefs_key_generate-standard_hmac sha open_at stdin xk kp pass n good alg bits it =
    elim (Bool-cases (is_empty kp.keyfile && not (is_text pass))) [
      | inl e ↦ inl (
        no_parts kp.keyfile pass e,
        generate-nothing sha good open_at stdin xk kp pass n alg bits it e,
      )
      | inr e ↦ inr (
        some_parts kp.keyfile pass e,
        generate-parts sha good open_at stdin xk kp pass n alg bits it e,
      )
    ]
