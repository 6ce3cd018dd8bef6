-- ===== src/Tests/Chains.antt =====
-- Key chains in a database that is an association list.
use pefs.Base.{
  ℕ, ◌-◌, ◌^◌, ◌≡◌, ◌≢◌, inl, refl, sym, ap, true, false, none, some, List, [], ◌∷◌, ◌&&◌,
  if◌then◌else◌, arith, Bool-cases, inr,
}
use pefs.Base.Bytes.{bytes_eq, bytes_eq_refl, bytes_eq_iff}
use pefs.Ctl.{Xkey, err_noent, err_exist}
use pefs.Ctl.Chain.{
  Answer, success, special, failure, Db, Flags, xkeyenc_bytes, loop_detected, new_link,
  pefs_keychain_get, pefs_keychain_set,
}
use pefs.Ctl.Chain.Loop.{pefs_keychain_get_never}
use pefs.Ctl.Chain.Read.{Chained, ends, links, is_special, pefs_keychain_get_lem}
use pefs.Ctl.Chain.Store.{IsDb, sealed, sealed-Stored, pefs_keychain_get-set}
use pefs.Tests.Ctl.{plain_aes, plain_blocks, xkey_of, xkey_of-IsXkey}
use pefs.Tests.Derive.{counting, counting-IsSha512}

abbrev Table : Type 0
Table = List (List ℕ × List ℕ)

unfoldable get : Table → List ℕ → Answer (List ℕ)
get [] k = special
get ((j, v) ∷ d) k = if bytes_eq j k then success v else get d k

unfoldable put : Table → List ℕ → List ℕ → Answer Table
unfolding get
put d k v = elim (get d k) [
  | success u ↦ special
  | special ↦ success ((k, v) ∷ d)
  | failure ↦ failure
]

-- No deletion is tried here.
abbrev table : Db Table
table = record { get = get; put = put; del = λ d k. failure }

table-new :
    (d : Table) (k v : List ℕ)
    → get d k ≡ special
    → (d' : Table) × (put d k v ≡ success d')
      × (get d' k ≡ success v)
      × ((j : List ℕ) → j ≢ k → get d' j ≡ get d j)
unfolding get put
table-new d k v e = (
  (k, v) ∷ d,
  rw (e, put) refl,
  rw (bytes_eq_refl k) refl,
  λ j apart. elim (Bool-cases (bytes_eq k j)) [
    | inl same ↦ absurd (apart (sym ((bytes_eq_iff k j).0 same)))
    | inr other ↦ rw other refl
  ],
)

table-old : (d : Table) (k v u : List ℕ) → get d k ≡ success u → put d k v ≡ special
unfolding put
table-old d k v u e = rw (e, put) refl

table-IsDb : IsDb table
table-IsDb = record { put-new = table-new; put-old = table-old }

abbrev used : Flags
used = record { keychain_use = true; ignore_missing = false }

abbrev front : List ℕ → ℕ
front [] = 0
front (x ∷ xs) = x

other_key :
    ◌≢◌ {A = List ℕ} (2 ∷ 0 ∷ 0 ∷ 0 ∷ 0 ∷ 0 ∷ 0 ∷ 0 ∷ []) (1 ∷ 0 ∷ 0 ∷ 0 ∷ 0 ∷ 0 ∷ 0 ∷ 0 ∷ [])
other_key e = absurd (omega (arith, ap (λ (l : List ℕ). front l) e))

pefs_keychain_get-set_example :
    let next : Xkey = record (xkey_of 2) { index = 2 ^ 32 - 1 } in
    (d' : Table) × (pefs_keychain_set counting plain_aes table 5 []
        (some [])
        (xkey_of 1)
        (xkey_of 2)
      ≡ (0, some d'))
    × (pefs_keychain_get counting plain_aes table 2 used (some d') (xkey_of 1)
        ≡ some (0, xkey_of 1 ∷ next ∷ []))
    × (pefs_keychain_set counting plain_aes table 6 [] (some d') (xkey_of 1) (xkey_of 1)
        ≡ (err_exist, some d'))
pefs_keychain_get-set_example =
    pefs_keychain_get-set counting plain_aes table [] 5 6 0 [] [] (xkey_of 1) (xkey_of 2)
      (xkey_of 1) counting-IsSha512 (plain_blocks [] 128) table-IsDb (xkey_of-IsXkey 1)
      (xkey_of-IsXkey 2) (omega arith) other_key (unfold get in refl) (unfold get in refl)

pefs_keychain_get_never_example :
    (d' : Table) × (pefs_keychain_set counting plain_aes table 5 []
        (some [])
        (xkey_of 1)
        (xkey_of 1)
      ≡ (0, some d'))
    × ((fuel : ℕ)
        → pefs_keychain_get counting plain_aes table fuel used (some d') (xkey_of 1) ≡ none)
    × (loop_detected (xkey_of 1 ∷ []) (xkey_of 1) ≡ true)
pefs_keychain_get_never_example =
    pefs_keychain_get_never counting plain_aes table [] 5 [] (xkey_of 1) used counting-IsSha512
      (plain_blocks [] 128) table-IsDb (xkey_of-IsXkey 1) (omega arith) refl (unfold get in refl)

-- The entry of the first key, which leads to the second.
abbrev one_link : Table
one_link =
    (
      (xkey_of 1).keyid,
      xkeyenc_bytes
          (sealed counting plain_aes table counting-IsSha512 5 [] (xkey_of 1) (xkey_of 2)),
    )
    ∷ []

one_link-Chained :
    let next : Xkey = record (xkey_of 2) { index = 2 ^ 32 - 1 } in
    Chained counting plain_aes table one_link (xkey_of 1) (xkey_of 1 ∷ next ∷ [])
unfolding new_link get bytes_eq
one_link-Chained =
    let next : Xkey = record (xkey_of 2) { index = 2 ^ 32 - 1 } in
    links (xkey_of 1) (new_link 5 (xkey_of 1) (xkey_of 2)) (next ∷ [])
      (sealed-Stored counting plain_aes table counting-IsSha512 5 [] (xkey_of 1) (xkey_of 2)
        (plain_blocks [] 128) (xkey_of-IsXkey 1) (xkey_of-IsXkey 2) one_link (xkey_of 1) refl refl)
      (omega arith) (ends next refl)

pefs_keychain_get_lem_example :
    let next : Xkey = record (xkey_of 2) { index = 2 ^ 32 - 1 } in
    pefs_keychain_get counting plain_aes table 3 used (some one_link) (xkey_of 1)
    ≡ some (
        if used.keychain_use && is_special (table.get one_link (xkey_of 1).keyid)
        then (err_noent, [])
        else (0, xkey_of 1 ∷ next ∷ []))
pefs_keychain_get_lem_example =
    let next : Xkey = record (xkey_of 2) { index = 2 ^ 32 - 1 } in
    pefs_keychain_get_lem counting plain_aes table one_link 3 used (xkey_of 1)
      (xkey_of 1 ∷ next ∷ []) (inl refl) one_link-Chained (omega arith)
