-- ===== src/Crypto/Name/RoundTrip.antt =====
-- A file name comes back from its encryption.
use pefs.Base.{
  ℕ, ◌||◌, ◌+◌, ◌-◌, ◌*◌, ◌%◌, ◌≤◌, ◌<◌, ◌≡◌, ◌≢◌, ◌↔◌, ◌⊎◌, refl, sym, ◌∙◌, ap, subst, arith, Bool,
  true, false, some, List, [], ◌∷◌, ◌++◌, length, replicate, take, drop, take-append_exact,
  take-append-drop, All, ◌==◌, ltb, leb, le→ltb, lt→leb, Bool-cases, inl, inr, reverse,
}
use mathlib.Core.List.{reverse-cons}
use pefs.Base.Bytes.{IsBytes}
use pefs.Crypto.{Key, Tkey, Primitives, aes}
use pefs.Crypto.Keyring.{Ring}
use pefs.Crypto.Keyring.Lookup.{Holds}
use pefs.Crypto.Name.{
  pefs_name_deccbc, ok, pefs_name_encrypt, checksum_matches, search_key, decrypt_body,
  pefs_name_decrypt, clear_name, is_checkable,
}
use pefs.Crypto.Name.Clear.{clear_name-padded, split_clear}
use pefs.Crypto.Name.Search.{find_first, search_order, search_key_lem}
use pefs.Crypto.Name.Sizes.{more_blocks, added, pton_size-ntop_size}
use pefs.Xbase64.{pton, done, pton_size}
use pefs.Xbase64.Bounds.{ntop-IsNameChar}
use pefs.Xbase64.RoundTrip.{pton-ntop}
use pefs.Xts.Blocks.{IsCipher}
use pefs.Crypto.Name.Sealed.{
  sealed, clear, checksum_of, sealed_name, length-checksum, matches_iff, length-sealed_name,
  sealed_name-IsBytes, deccbc-sealed_name,
}
use pefs.Crypto.Name.Encrypt.{encrypt-inv, pefs_name_encrypt_lem}

-- The first match, where no key but `pk` matches.
find_first-only :
    (matches : Key → Bool) (pk : Key) (ks : Ring)
    → matches pk ≡ true
    → ((k : Key) → Holds k ks → matches k ≡ true → k ≡ pk)
    → Holds pk ks
    → find_first matches ks ≡ some pk
unfolding find_first
find_first-only matches pk [] hit only h = absurd h
find_first-only matches pk (k ∷ ks) hit only h = elim (Bool-cases (matches k)) [
  | inl e ↦ rw e (ap some (only k (inl refl) e))
  | inr e ↦ rw e (
      find_first-only matches pk ks hit (λ j (hj : Holds j ks). only j (inr hj))
        (elim h [
          | inl same ↦ absurd (ground (arith, ap matches same, e, hit))
          | inr later ↦ later
        ]))
]

-- The order of the search holds the same keys as the list.
Holds-append : (k : Key) (xs ys : Ring) → Holds k (xs ++ ys) ↔ (Holds k xs ⊎ Holds k ys)
Holds-append k [] ys = (λ h. inr h, λ h. elim h [ inl n ↦ absurd n | inr y ↦ y ])
Holds-append k (x ∷ xs) ys = ground (arith, Holds-append k xs ys)

Holds-reverse : (k : Key) (xs : Ring) → Holds k (reverse xs) ↔ Holds k xs
Holds-reverse k [] = (λ h. h, λ h. h)
Holds-reverse k (x ∷ xs) =
    let e : reverse (x ∷ xs) ≡ reverse xs ++ x ∷ [] = reverse-cons x xs in
    rw e (ground (arith, Holds-reverse k xs, Holds-append k (reverse xs) (x ∷ [])))

Holds-search_order :
    (k : Key) (keys : Ring) (start : ℕ) → Holds k (search_order keys start) ↔ Holds k keys
Holds-search_order k keys start =
    let whole : Holds k (take start keys ++ drop start keys) ↔ Holds k keys =
      rw (take-append-drop start keys) (λ h. h, λ h. h) in
    ground (
      arith,
      whole,
      Holds-append k (drop start keys) (reverse (take start keys)),
      Holds-append k (take start keys) (drop start keys),
      Holds-reverse k (take start keys),
    )

-- The checksum of one round finds the key of the name.
search-sealed :
    (lib : Primitives) (pk : Key) (keys : Ring) (start : ℕ) (body : List ℕ)
    → start < length keys
    → Holds pk keys
    → ((k : Key) → Holds k keys → checksum_of lib k body ≡ checksum_of lib pk body → k ≡ pk)
    → search_key
        (checksum_matches lib (checksum_of lib pk body ++ body))
        keys
        start
        (length keys)
        start
        false
      ≡ some pk
search-sealed lib pk keys start body h holds only =
    let matches = checksum_matches lib (checksum_of lib pk body ++ body) in
    search_key_lem matches keys start h
    ∙ find_first-only matches pk (search_order keys start) ((matches_iff lib pk pk body).1 refl)
        (λ k hk hit.
          only k ((Holds-search_order k keys start).0 hk) ((matches_iff lib pk k body).0 hit))
        ((Holds-search_order pk keys start).1 holds)

body_found :
    (lib : Primitives) (keys : Ring) (start : ℕ) (mem buffer name rest : List ℕ)
    (r enc_len plain_size : ℕ) (k : Key)
    → pton mem enc_len (some buffer) plain_size ≡ done r (some (name ++ rest))
    → length name ≡ r
    → is_checkable r ≡ true
    → search_key (checksum_matches lib name) keys start (length keys) start false ≡ some k
    → decrypt_body lib keys start mem enc_len buffer plain_size
      ≡ clear_name (pefs_name_deccbc lib k name) k
unfolding decrypt_body
body_found lib keys start mem buffer name rest r enc_len plain_size k back len size found =
    let same = take-append_exact r name rest len in
    let found' =
      subst
        (λ (b : List ℕ).
          search_key (checksum_matches lib b) keys start (length keys) start false ≡ some k)
        (sym same) found in
    rw (back, decrypt_body)
      (rw (size, decrypt_body)
        (rw (found', decrypt_body)
          (ap (λ (b : List ℕ). clear_name (pefs_name_deccbc lib k b) k) same)))

-- From the decoded bytes on.
body-sealed :
    (lib : Primitives) (ptk : Tkey) (plain : List ℕ)
    → IsCipher (lib.encrypt aes ptk.key.name_ctx) (lib.decrypt aes ptk.key.name_ctx)
    → length ptk.tweak ≡ 8
    → IsBytes ptk.tweak
    → IsBytes plain
    → All (λ x. x ≢ 0) plain
    → 0 < length plain
    → length plain ≤ 168
    → (keys : Ring) (start : ℕ) (mem buffer rest : List ℕ) (enc_len plain_size : ℕ)
    → pton mem enc_len (some buffer) plain_size
      ≡ done (length (sealed_name lib ptk plain)) (some (sealed_name lib ptk plain ++ rest))
    → search_key
        (checksum_matches lib (sealed_name lib ptk plain))
        keys
        start
        (length keys)
        start
        false
      ≡ some ptk.key
    → decrypt_body lib keys start mem enc_len buffer plain_size ≡ ok (plain, ptk)
body-sealed lib ptk plain cipher tweak tweak_bytes plain_bytes nonzero pos short keys start mem
      buffer rest enc_len plain_size back found =
    let name = sealed_name lib ptk plain in
    let csum = checksum_of lib ptk.key (sealed lib ptk plain) in
    let (front, text) =
      split_clear csum ptk.tweak plain
        (length-checksum lib ptk.key (replicate 8 0 ++ sealed lib ptk plain)) tweak in
    let n = length-sealed_name lib ptk plain cipher tweak tweak_bytes plain_bytes in
    body_found lib keys start mem buffer name rest (length name) enc_len plain_size ptk.key back
      refl (ground (arith, n)) found
    ∙ (ap (λ (b : List ℕ). clear_name b ptk.key)
          (deccbc-sealed_name lib ptk plain cipher tweak tweak_bytes plain_bytes)
        ∙ (clear_name-padded (csum ++ clear ptk plain) plain (added (length plain)) ptk.key text pos
              nonzero
            ∙ ap (λ (t : List ℕ). ok (plain, record { key = ptk.key; tweak = t })) front))

-- The sizes of a name and of its encryption.
encrypted_sizes :
    (lib : Primitives) (ptk : Tkey) (plain : List ℕ) (enc_size : ℕ) (enc : List ℕ)
    → IsCipher (lib.encrypt aes ptk.key.name_ctx) (lib.decrypt aes ptk.key.name_ctx)
    → length ptk.tweak ≡ 8
    → IsBytes ptk.tweak
    → IsBytes plain
    → pefs_name_encrypt lib ptk plain enc_size ≡ ok enc
    → (length plain ≤ 168) × (length enc ≤ 255)
encrypted_sizes lib ptk plain enc_size enc cipher tweak tweak_bytes plain_bytes wrote =
    elim (pefs_name_encrypt_lem lib ptk plain enc_size cipher tweak tweak_bytes plain_bytes) [
      | inl (long, refused) ↦ absurd (ground (arith, wrote, refused))
      | inr (inl (short, little, refused)) ↦ absurd (ground (arith, wrote, refused))
      | inr (inr (inl (short, tight, refused))) ↦ absurd (ground (arith, wrote, refused))
      | inr (inr (inr (target, short, room, written, size, most, safe))) ↦
          let same : ok enc ≡ ok (b'.' ∷ target) = sym wrote ∙ written in
          (short, ground (arith, same, size, most))
    ]

-- A name that pefs_name_encrypt wrote comes back from pefs_name_decrypt, with its tweak and its
-- key: when the block cipher of the key decrypts what it encrypts, the name is not empty and has no zero byte, the
-- tweak has eight bytes, the key is in the list and no other key of the list gives the same
-- checksum, the buffer holds the name with its padding, and one more character behind the name can
-- be read.
pub pefs_name_round_trip :
    (lib : Primitives) (ptk : Tkey) (plain : List ℕ)
    → IsCipher (lib.encrypt aes ptk.key.name_ctx) (lib.decrypt aes ptk.key.name_ctx)
    → length ptk.tweak ≡ 8
    → IsBytes ptk.tweak
    → IsBytes plain
    → All (λ x. x ≢ 0) plain
    → 0 < length plain
    → (enc_size : ℕ) (enc : List ℕ) → pefs_name_encrypt lib ptk plain enc_size ≡ ok enc
    → (keys : Ring) (start : ℕ) → start < length keys
    → Holds ptk.key keys
    → ((k : Key)
        → Holds k keys
        → checksum_of lib k (sealed lib ptk plain) ≡ checksum_of lib ptk.key (sealed lib ptk plain)
        → k ≡ ptk.key)
    → (ch : ℕ) (mem buffer : List ℕ) (plain_size : ℕ)
    → 24 + 16 * more_blocks (length plain) ≤ plain_size
    → plain_size ≤ length buffer
    → pefs_name_decrypt lib keys start (enc ++ ch ∷ mem) (length enc) buffer plain_size
      ≡ ok (plain, ptk)
unfolding pefs_name_decrypt decrypt_body
pefs_name_round_trip lib ptk plain cipher tweak tweak_bytes plain_bytes nonzero pos enc_size enc
      wrote keys start inside holds only ch mem buffer plain_size room fits =
    let (target, starts, texts) =
      encrypt-inv lib ptk plain cipher tweak tweak_bytes plain_bytes enc_size enc wrote in
    let name = sealed_name lib ptk plain in
    let (short, whole_size) =
      encrypted_sizes lib ptk plain enc_size enc cipher tweak tweak_bytes plain_bytes wrote in
    let n = length-sealed_name lib ptk plain cipher tweak tweak_bytes plain_bytes in
    let bytes = sealed_name-IsBytes lib ptk plain cipher tweak tweak_bytes plain_bytes in
    let t = (ntop-IsNameChar name (enc_size - 1) target bytes texts).0 in
    let (rest, whole, back) =
      pton-ntop name (enc_size - 1) target ch mem buffer plain_size bytes texts (omega arith)
        fits in
    let m = more_blocks (length plain) in
    let size : length enc - 1 ≡ length target = omega (arith, ap {A = List ℕ} length starts) in
    let p : pton_size (length target) ≡ 24 + 16 * m = rw (t, pton_size-ntop_size (length name)) n in
    let zero_len : ((length (b'.' ∷ target) == 0) || ltb 255 (length (b'.' ∷ target))) ≡ false =
      ground (arith, ap {A = List ℕ} length starts, whole_size) in
    let one : leb (length (b'.' ∷ target)) 1 ≡ false =
      lt→leb (length (b'.' ∷ target)) 1 (omega arith) in
    let two : leb (24 + 16 * m) 16 ≡ false = lt→leb (24 + 16 * m) 16 (omega arith) in
    let three : ((24 + 16 * m - 8) % 16 == 0) ≡ true = ground arith in
    let four : ltb plain_size (24 + 16 * m) ≡ false = le→ltb plain_size (24 + 16 * m) room in
    let found = search-sealed lib ptk.key keys start (sealed lib ptk plain) inside holds only in
    let read : length (b'.' ∷ target) - 1 ≡ length target = omega arith in
    rw starts (
      rw (read, p, pefs_name_decrypt)
        (rw (zero_len, one, two)
          (rw (three, four)
            (body-sealed lib ptk plain cipher tweak tweak_bytes plain_bytes nonzero pos short keys
              start (target ++ ch ∷ mem) buffer rest (length target) plain_size back found))))
