-- ===== src/Ctl/Param/Valid.antt =====
-- What the parameters of a key are after pefs_keyparam_init of sbin/pefs/pefs_key.c, and the fields
-- of .pefs.conf that it reads.
use pefs.Base.{
  ℕ, zero, suc, ◌+◌, ◌≤◌, ◌<◌, ◌≡◌, ◌⊎◌, inl, inr, refl, sym, ap, subst, ◌∙◌, arith, true, Option,
  none, some, List, [], ◌∷◌, length, length-drop, take, drop, All, ◌==◌, lt→ltb, if◌then◌else◌,
  Bool-cases, Option-cases, some_inj,
}
use mathlib.Core.Path.{fun_ext}
use pefs.Base.Int.{ℤ, pos, negsuc}
use pefs.Base.Text.{strchr}
use pefs.Base.Bytes.{bytes_eq}
use pefs.Ctl.{
  Keyparam, Algorithm, algs, err_usage, err_invalid, kdf_iterations, and_then, and_then-done,
  and_then-keeps,
}
use pefs.Ctl.Param.{
  is_negative, is_positive, default_iterations, default_alg, find_name, set_found,
  pefs_keyparam_setalg, pefs_keyparam_setiterations, pefs_keyparam_handle, conf_loop, set_defaults,
  read_conf, pefs_keyparam_init,
}

-- AES or Camellia, with a key of 128, 192 or 256 bits.
abbrev pub IsKnown : ℕ → ℕ → Type 0
IsKnown id bits = ((id ≡ 4) ⊎ (id ≡ 5)) × ((bits ≡ 128) ⊎ ((bits ≡ 192) ⊎ (bits ≡ 256)))

abbrev pub HasAlg : Keyparam → Type 0
HasAlg kp = (id : ℕ) × (bits : ℕ) × (kp.alg ≡ pos id) × (kp.keybits ≡ pos bits) × IsKnown id bits

-- No algorithm yet, or one of those.
abbrev pub IsParam : Keyparam → Type 0
IsParam kp = (kp.alg ≡ pos 0) ⊎ HasAlg kp

-- What pefs_key_generate asks for.
abbrev pub IsReady : Keyparam → Type 0
IsReady kp = HasAlg kp × ((n : ℕ) × (kp.iterations ≡ pos n))

-- The texts between colons.
unfoldable pub prepend : ℕ → List (List ℕ) → List (List ℕ)
prepend c [] = (c ∷ []) ∷ []
prepend c (field ∷ rest) = (c ∷ field) ∷ rest

unfoldable pub fields : List ℕ → List (List ℕ)
unfolding prepend
fields [] = [] ∷ []
fields (c ∷ s) = if c == 58 then [] ∷ fields s else prepend c (fields s)

fields-none : (s : List ℕ) → strchr s 58 ≡ none → fields s ≡ s ∷ []
unfolding fields strchr prepend
fields-none [] h = refl
fields-none (c ∷ s) h = elim (Bool-cases (c == 58)) [
  | inl same ↦ absurd (cc (h, same))
  | inr other ↦ elim (Option-cases (strchr s 58)) [
    | inl e ↦ rw (other, fields-none s e) refl
    | inr (n, e) ↦ absurd (ground (arith, h, other, e))
  ]
]

fields-some :
    (s : List ℕ) (n : ℕ)
    → strchr s 58 ≡ some n
    → (fields s ≡ take n s ∷ fields (drop (suc n) s)) × (n < length s)
unfolding fields strchr prepend
fields-some [] n h = absurd (cc h)
fields-some (c ∷ s) n h = elim (Bool-cases (c == 58)) [
  | inl same ↦
      let e : 0 ≡ n = some_inj (sym (rw same refl) ∙ h) in
      subst
        (λ (k : ℕ).
          (fields (c ∷ s) ≡ take k (c ∷ s) ∷ fields (drop (suc k) (c ∷ s))) × (k < length (c ∷ s)))
        e (rw same refl, omega arith)
  | inr other ↦ elim (Option-cases (strchr s 58)) [
    | inl e ↦ absurd (ground (arith, h, other, e))
    | inr (m, e) ↦
        let k : suc m ≡ n = some_inj (sym (rw (other, e) refl) ∙ h) in
        let rest = fields-some s m e in
        subst
          (λ (k : ℕ).
            (fields (c ∷ s) ≡ take k (c ∷ s) ∷ fields (drop (suc k) (c ∷ s)))
            × (k < length (c ∷ s)))
          k (rw (other, rest.0) refl, omega (arith, rest.1))
  ]
]

module _ (atoi : List ℕ → ℤ) where
  -- The fields of the configuration, one after the other, up to the first that is refused.
  unfoldable pub each_field : Keyparam → ℕ → List (List ℕ) → ℕ × Keyparam
  each_field kp ind [] = (0, kp)
  each_field kp ind (field ∷ rest) =
      and_then (pefs_keyparam_handle atoi kp ind field) (λ kp'. each_field kp' (ind + 1) rest)

  last_field :
      (kp : Keyparam) (ind : ℕ) (s : List ℕ)
      → each_field kp ind (s ∷ []) ≡ pefs_keyparam_handle atoi kp ind s
  unfolding each_field
  last_field kp ind s = and_then-done (pefs_keyparam_handle atoi kp ind s)

  conf_loop-each_field :
      (fuel : ℕ) (kp : Keyparam) (ind : ℕ) (s : List ℕ)
      → length s ≤ fuel
      → conf_loop atoi fuel kp ind s ≡ each_field kp ind (fields s)
  unfolding conf_loop each_field
  conf_loop-each_field zero kp ind [] h = sym (unfold fields in last_field kp ind [])
  conf_loop-each_field zero kp ind (c ∷ s) h = absurd (omega arith)
  conf_loop-each_field (suc fuel) kp ind s h = elim (Option-cases (strchr s 58)) [
    | inl e ↦ rw (e, conf_loop, fields-none s e) (sym (last_field kp ind s))
    | inr (n, e) ↦
        let (split, inside) = fields-some s n e in
        let one : n + 1 ≡ suc n = omega arith in
        let rest = λ (k : Keyparam).
          conf_loop-each_field fuel k (ind + 1) (drop (suc n) s)
            (omega (arith, length-drop (suc n) s)) in
        rw (e, conf_loop, split)
          (ap (and_then (pefs_keyparam_handle atoi kp ind (take n s))) (
            fun_ext (λ (k : Keyparam).
              ap (λ (m : ℕ). conf_loop atoi fuel k (ind + 1) (drop m s)) one ∙ rest k)))
  ]

-- Success, or one of the two errors of a configuration; and the parameters in either case.
abbrev IsConf : ℕ × Keyparam → Type 0
IsConf (err, kp) = ((err ≡ 0) ⊎ ((err ≡ err_usage) ⊎ (err ≡ err_invalid))) × IsParam kp

abbrev IsKnownRow : Algorithm → Type 0
IsKnownRow alg = IsKnown alg.id alg.keybits

algs-IsKnown : All IsKnownRow algs
algs-IsKnown = ground arith

find_name-IsKnown :
    (name : List ℕ) (l : List Algorithm)
    → All IsKnownRow l
    → (alg : Algorithm) → find_name name l ≡ some alg
    → IsKnownRow alg
unfolding find_name
find_name-IsKnown name [] h alg e = absurd (cc e)
find_name-IsKnown name (x ∷ l) h alg e = elim (Bool-cases (bytes_eq name x.name)) [
  | inl same ↦ subst IsKnownRow {x = x} (some_inj (sym (rw same refl) ∙ e)) h.0
  | inr other ↦ find_name-IsKnown name l h.1 alg (sym (rw other refl) ∙ e)
]

set_found-IsConf :
    (kp : Keyparam) (found : Option Algorithm)
    → ((alg : Algorithm) → found ≡ some alg → IsKnownRow alg)
    → IsParam kp
    → IsConf (set_found kp found)
unfolding set_found
set_found-IsConf kp none h p = (inr (inr refl), p)
set_found-IsConf kp (some alg) h p = (inl refl, inr (alg.id, alg.keybits, refl, refl, h alg refl))

module _ (atoi : List ℕ → ℤ) where
  setiterations-IsConf :
      (kp : Keyparam) (arg : List ℕ) → IsParam kp → IsConf (pefs_keyparam_setiterations atoi kp arg)
  unfolding pefs_keyparam_setiterations
  setiterations-IsConf kp arg p = elim (Bool-cases (is_negative (atoi arg))) [
    | inl e ↦ rw e (inr (inr refl), p)
    | inr e ↦ rw e (inl refl, p)
  ]

  handle-IsConf :
      (kp : Keyparam) (ind : ℕ) (s : List ℕ)
      → IsParam kp
      → IsConf (pefs_keyparam_handle atoi kp ind s)
  unfolding pefs_keyparam_handle
  handle-IsConf kp ind [] p = (inl refl, p)
  handle-IsConf kp zero (c ∷ cs) p =
      unfold pefs_keyparam_setalg in
      set_found-IsConf kp (find_name (c ∷ cs) algs) (find_name-IsKnown (c ∷ cs) algs algs-IsKnown) p
  handle-IsConf kp (suc zero) (c ∷ cs) p = setiterations-IsConf kp (c ∷ cs) p
  handle-IsConf kp (suc (suc ind)) (c ∷ cs) p = (inr (inl refl), p)

  each_field-IsConf :
      (kp : Keyparam) (ind : ℕ) (fs : List (List ℕ))
      → IsParam kp
      → IsConf (each_field atoi kp ind fs)
  unfolding each_field
  each_field-IsConf kp ind [] p = (inl refl, p)
  each_field-IsConf kp ind (f ∷ fs) p =
      and_then-keeps IsConf (pefs_keyparam_handle atoi kp ind f)
        (λ kp'. each_field atoi kp' (ind + 1) fs) (handle-IsConf kp ind f p)
        (λ kp' h. each_field-IsConf kp' (ind + 1) fs h.1)

default_iterations-pos : (i : ℤ) → (n : ℕ) × (default_iterations i ≡ pos n)
unfolding default_iterations is_negative
default_iterations-pos (pos n) = (n, refl)
default_iterations-pos (negsuc n) = (kdf_iterations, refl)

IsKnown-positive : (i : ℤ) (id bits : ℕ) → i ≡ pos id → IsKnown id bits → is_positive i ≡ true
unfolding is_positive
IsKnown-positive i zero bits e h = absurd (omega (arith, h))
IsKnown-positive i (suc id) bits e h = rw e refl

default_alg-HasAlg : (kp : Keyparam) → IsParam kp → HasAlg (default_alg kp)
unfolding default_alg
default_alg-HasAlg kp (inl e) =
    rw e (unfold is_positive in (4, 128, refl, refl, (inl refl, inl refl)))
default_alg-HasAlg kp (inr (id, bits, ea, eb, h)) =
    rw (IsKnown-positive kp.alg id bits ea h) (id, bits, ea, eb, h)

default_alg-iterations : (kp : Keyparam) → (default_alg kp).iterations ≡ kp.iterations
unfolding default_alg
default_alg-iterations kp = elim (Bool-cases (is_positive kp.alg)) [
  | inl e ↦ rw e refl
  | inr e ↦ rw e refl
]

set_defaults-IsReady : (kp : Keyparam) → IsParam kp → IsReady (set_defaults kp)
unfolding set_defaults
set_defaults-IsReady kp p =
    let kp' : Keyparam = record kp { iterations = default_iterations kp.iterations } in
    let (n, e) = default_iterations-pos kp.iterations in
    (default_alg-HasAlg kp' p, (n, default_alg-iterations kp' ∙ e))

ready :
    (r : ℕ × Keyparam)
    → IsConf r
    → let r' = and_then r (λ kp'. (0, set_defaults kp')) in
      ((r'.0 ≡ 0) × IsReady r'.1) ⊎ ((r'.0 ≡ err_usage) ⊎ (r'.0 ≡ err_invalid))
unfolding and_then
ready (zero, kp) h = inl (refl, set_defaults-IsReady kp h.1)
ready (suc e, kp) h = inr (ground (arith, h.0))

-- The configuration of a file system, of up to 1023 bytes, is read as its fields between colons, each
-- handled in turn up to the first that is refused. From parameters with no algorithm or one of the
-- known ones, as pefs_keyparam_create and pefs_keyparam_setalg give them, pefs_keyparam_init
-- succeeds with an algorithm and a length of key that pefs has, and with a number of iterations that
-- is not negative, or returns PEFS_ERR_USAGE or PEFS_ERR_INVALID.
pub pefs_keyparam_init_lem :
    (atoi : List ℕ → ℤ) (kp : Keyparam) (buf : List ℕ)
    → IsParam kp
    → 0 < length buf
    → length buf < 1024
    → let r = pefs_keyparam_init atoi kp (some buf) in
      (r ≡ and_then (each_field atoi kp 0 (fields buf)) (λ kp'. (0, set_defaults kp')))
      × (((r.0 ≡ 0) × IsReady r.1) ⊎ ((r.0 ≡ err_usage) ⊎ (r.0 ≡ err_invalid)))
unfolding pefs_keyparam_init read_conf
pefs_keyparam_init_lem atoi kp buf p some_bytes fits =
    rw (lt→ltb 0 (length buf) some_bytes, lt→ltb (length buf) 1024 fits)
      (rw (conf_loop-each_field atoi (length buf) kp 0 buf (omega arith)) (
        refl,
        ready (each_field atoi kp 0 (fields buf)) (each_field-IsConf atoi kp 0 (fields buf) p),
      ))
