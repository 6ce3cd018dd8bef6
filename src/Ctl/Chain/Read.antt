-- ===== src/Ctl/Chain/Read.antt =====
-- Reading a key chain, pefs_keychain_get and pefs_keychain_get_db of sbin/pefs/pefs_keychain.c,
-- against the chain that the database holds.
use pefs.Base.{
  ℕ, zero, suc, ◌+◌, ◌-◌, ◌^◌, ◌≤◌, ◌≡◌, ◌≢◌, ◌⊎◌, inl, inr, refl, ap, ◌∙◌, arith, Bool, true,
  false, not, ◌&&◌, Option, none, some, List, [], ◌∷◌, ◌++◌, length, reverse, ◌==◌, ==_iff,
  if◌then◌else◌, Bool-cases,
}
use mathlib.Core.List.{reverse-cons, append_assoc}
use pefs.Ctl.{Xkey, Xkeyenc, Link, err_noent, alg_invalid}
use pefs.Ctl.Chain.{
  Answer, success, special, failure, Db, Flags, Reading, stop, onward, xkeyenc_size, bytes_xkeyenc,
  loop_detected, no_keys, break_with, get_failed, follow, opened_link, round, get_loop,
  pefs_keychain_get_db, get_result, get_answer, pefs_keychain_get,
}
use pefs.Ctl.Key.{Rijndael, bytes_link, pefs_key_decrypt}
use pefs.Hmac.{Sha512}

-- Whether the database has no entry.
abbrev pub is_special : Answer (List ℕ) → Bool
is_special special = true
is_special (success b) = false
is_special failure = false

module _ {C R D : Type 0} (sha : Sha512 C) (aes : Rijndael R) (db : Db D) (d : D) where
  -- The database holds a link under a key, which opens with that key.
  pub record Stored (p : Xkey) (a : Link) : Type 0 where
    pub bytes : List ℕ
    pub ke : Xkeyenc
    pub at : db.get d p.keyid ≡ success bytes
    pub size : length bytes ≡ 124
    pub opens : pefs_key_decrypt sha aes (bytes_xkeyenc bytes) p ≡ (0, ke)
    pub holds : bytes_link ke.a ≡ a

  -- The parent with the algorithm that its link has, and the key that follows it.
  abbrev pub named : Xkey → Link → Xkey
  named p a = record p { alg = a.ke_alg; keybits = a.ke_keybits }

  abbrev pub next_of : Link → Xkey
  next_of a = record (a.ke_next) { index = 2 ^ 32 - 1 }

  round-follow :
      (older : List Xkey) (p : Xkey) (a : Link)
      → Stored p a
      → round sha aes db older p (db.get d p.keyid) ≡ follow p a
  unfolding round opened_link
  round-follow older p a s =
      let size : (length s.bytes == xkeyenc_size) ≡ true = (==_iff _ _).1 s.size in
      rw s.at (rw (size, s.opens) (ap (follow p) s.holds))

  -- The chain that the database holds from a key on: it ends at a key with no link, or at a link to a
  -- key with no algorithm.
  pub data Chained : Xkey → List Xkey → Type 0 where
    ends : (p : Xkey) → db.get d p.keyid ≡ special → Chained p (p ∷ [])
    closes : (p : Xkey) (a : Link) → Stored p a → a.ke_next.alg ≡ 0 → Chained p (named p a ∷ [])
    links :
        (p : Xkey) (a : Link) (ks : List Xkey)
        → Stored p a
        → a.ke_next.alg ≢ 0
        → Chained (next_of a) ks
        → Chained p (named p a ∷ ks)

  -- The keys are those of the chain, after the ones before; there is an error only when the first key
  -- has no link.
  abbrev pub Read : List Xkey → List Xkey → Answer (List ℕ) → Option Reading → Type 0
  Read older ks first none = ⊥
  Read older ks first (some r) =
      (r.kch ≡ reverse older ++ ks)
      × (r.error ≡ (if no_keys older && is_special first then 1 else 0))

  stop-at :
      (fuel : ℕ) (older : List Xkey) (p p' : Xkey) (w error : ℕ)
      → round sha aes db older p (db.get d p.keyid) ≡ stop error p'
      → get_loop sha aes db (suc fuel) d older p w
        ≡ some (break_with error older p' (if loop_detected older p then w + 1 else w))
  unfolding get_loop
  stop-at fuel older p p' w error e = rw (e, get_loop) refl

  onward-at :
      (fuel : ℕ) (older : List Xkey) (p p' q : Xkey) (w : ℕ)
      → round sha aes db older p (db.get d p.keyid) ≡ onward p' q
      → get_loop sha aes db (suc fuel) d older p w
        ≡ get_loop sha aes db fuel d (p' ∷ older) q (if loop_detected older p then w + 1 else w)
  unfolding get_loop
  onward-at fuel older p p' q w e = rw (e, get_loop) refl

  pub step :
      (fuel : ℕ) (older : List Xkey) (p : Xkey) (a : Link) (w : ℕ)
      → Stored p a
      → a.ke_next.alg ≢ 0
      → get_loop sha aes db (suc fuel) d older p w
        ≡ get_loop sha aes db fuel d
            (named p a ∷ older)
            (next_of a)
            (if loop_detected older p then w + 1 else w)
  step fuel older p a w s more =
      let e : (a.ke_next.alg == alg_invalid) ≡ false = ground (arith, more) in
      onward-at fuel older p (named p a) (next_of a) w
        (round-follow older p a s ∙ (unfold follow in rw e refl))

  get_failed-special :
      (older : List Xkey) → get_failed 1 older ≡ (if no_keys older && true then 1 else 0)
  unfolding get_failed
  get_failed-special [] = refl
  get_failed-special (k ∷ older) = refl

  get_failed-no : (older : List Xkey) → ◌≡◌ {A = ℕ} 0 (if no_keys older && false then 1 else 0)
  get_failed-no [] = refl
  get_failed-no (k ∷ older) = refl

  round-special :
      (older : List Xkey) (p : Xkey)
      → db.get d p.keyid ≡ special
      → round sha aes db older p (db.get d p.keyid) ≡ stop (get_failed 1 older) p
  unfolding round
  round-special older p e = rw e refl

  round-closes :
      (older : List Xkey) (p : Xkey) (a : Link)
      → Stored p a
      → a.ke_next.alg ≡ 0
      → round sha aes db older p (db.get d p.keyid) ≡ stop 0 (named p a)
  round-closes older p a s none_left =
      let e : (a.ke_next.alg == alg_invalid) ≡ true = ground (arith, none_left) in
      round-follow older p a s ∙ (unfold follow in rw e refl)

  reverse-append_one :
      (older ks : List Xkey) (p : Xkey) → reverse (p ∷ older) ++ ks ≡ reverse older ++ (p ∷ ks)
  reverse-append_one older ks p =
      ap (λ (r : List Xkey). r ++ ks) (reverse-cons p older)
      ∙ append_assoc (reverse older) (p ∷ []) ks

  Stored-first : (p : Xkey) (a : Link) → Stored p a → is_special (db.get d p.keyid) ≡ false
  Stored-first p a s = rw s.at refl

  Read-further :
      (older ks : List Xkey) (p : Xkey) (first first' : Answer (List ℕ)) (r : Option Reading)
      → is_special first' ≡ false
      → Read (p ∷ older) ks first r
      → Read older (p ∷ ks) first' r
  Read-further older ks p first first' none e h = h
  Read-further older ks p first first' (some r) e (kch, error) =
      rw e (kch ∙ reverse-append_one older ks p, error ∙ get_failed-no older)

  Read-stopped :
      (error : ℕ) (older : List Xkey) (p' : Xkey) (w : ℕ) (first : Answer (List ℕ))
      → error ≡ (if no_keys older && is_special first then 1 else 0)
      → Read older (p' ∷ []) first (some (break_with error older p' w))
  unfolding break_with
  Read-stopped error older p' w first h = (reverse-cons p' older, h)

  get_loop-Read :
      (fuel : ℕ) (older : List Xkey) (p : Xkey) (ks : List Xkey) (w : ℕ)
      → Chained p ks
      → length ks ≤ fuel
      → Read older ks (db.get d p.keyid) (get_loop sha aes db fuel d older p w)
  get_loop-Read zero older p ks w (ends q e) h = absurd (omega arith)
  get_loop-Read zero older p ks w (closes q a s e) h = absurd (omega arith)
  get_loop-Read zero older p ks w (links q a ks' s more c) h = absurd (omega arith)
  get_loop-Read (suc fuel) older p ks w (ends q e) h =
      rw (stop-at fuel older p p w (get_failed 1 older) (round-special older p e)) (
        Read-stopped (get_failed 1 older) older p _ (db.get d p.keyid)
          (rw e (get_failed-special older)))
  get_loop-Read (suc fuel) older p ks w (closes q a s e) h =
      rw (stop-at fuel older p (named p a) w 0 (round-closes older p a s e)) (
        Read-stopped 0 older (named p a) _ (db.get d p.keyid)
          (rw (Stored-first p a s) (get_failed-no older)))
  get_loop-Read (suc fuel) older p ks w (links q a ks' s more c) h =
      rw (step fuel older p a w s more) (
        Read-further older ks' (named p a) (db.get d (next_of a).keyid) (db.get d p.keyid) _
          (Stored-first p a s)
          (get_loop-Read fuel (named p a ∷ older) (next_of a) ks'
            (if loop_detected older p then w + 1 else w) c (omega arith)))

  get_answer-Read :
      (flags : Flags) (ks : List Xkey) (first : Answer (List ℕ)) (o : Option Reading)
      → Read [] ks first o
      → get_answer flags o
        ≡ some (if flags.keychain_use && is_special first then (err_noent, []) else (0, ks))
  unfolding get_answer get_result
  get_answer-Read flags ks first none h = absurd h
  get_answer-Read flags ks first (some r) (kch, error) =
      rw (error, kch)
        (elim (Bool-cases flags.keychain_use) [
          | inl u ↦ elim (Bool-cases (is_special first)) [
            | inl e ↦ rw (u, e) refl
            | inr e ↦ rw (u, e) refl
          ]
          | inr u ↦ elim (Bool-cases (is_special first)) [
            | inl e ↦ rw (u, e) refl
            | inr e ↦ rw (u, e) refl
          ]
        ])

some_flag :
    (flags : Flags)
    → (flags.keychain_use ≡ true) ⊎ (flags.ignore_missing ≡ true)
    → (not flags.keychain_use && not flags.ignore_missing) ≡ false
some_flag flags (inl e) = rw e refl
some_flag flags (inr e) = elim (Bool-cases flags.keychain_use) [
  | inl u ↦ rw u refl
  | inr u ↦ rw (u, e) refl
]

-- pefs_keychain_get reads a chain of any length to its end, when the database holds one: with a flag
-- set and as much fuel as the chain has keys, the list is the chain from the given key on, each key
-- with the algorithm of its link, and the result is 0; but with PEFS_KEYCHAIN_USE, when the database
-- has no entry for the given key, the list is empty and the result PEFS_ERR_NOENT.
pub pefs_keychain_get_lem :
    {C R D : Type 0} (sha : Sha512 C) (aes : Rijndael R) (db : Db D) (d : D)
    → (fuel : ℕ) (flags : Flags) (xk : Xkey) (ks : List Xkey)
    → (flags.keychain_use ≡ true) ⊎ (flags.ignore_missing ≡ true)
    → Chained sha aes db d xk ks
    → length ks ≤ fuel
    → pefs_keychain_get sha aes db fuel flags (some d) xk
      ≡ some (
          if flags.keychain_use && is_special (db.get d xk.keyid) then (err_noent, []) else (0, ks))
unfolding pefs_keychain_get pefs_keychain_get_db
pefs_keychain_get_lem sha aes db d fuel flags xk ks asked c h = rw (some_flag flags asked) (
    get_answer-Read sha aes db d flags ks (db.get d xk.keyid) (get_loop sha aes db fuel d [] xk 0)
      (get_loop-Read sha aes db d fuel [] xk ks 0 c h))
