-- ===== src/Chunk/Buffers.antt =====
-- A chunk stays within its buffer, and no two chunks share one.
use pefs.Base.{
  ℕ, ◌≤◌, ◌<◌, ◌≡◌, ◌⊎◌, refl, arith, true, false, Option, none, some, leb, ltb, Bool-cases,
  Option-cases, inl, inr, leb→le, le→ltb,
}
use pefs.Chunk.{
  Lockbuf, lockbuf_small, lockbuf_large, Buf, NodeBufs, Chunk, is_locked, set_locked, pefs_node_buf,
  set_buf, wanted, bufsize, take_lock, alone, node_buffer, pefs_chunk_create, pefs_chunk_free,
  pefs_node_buf_free,
}

-- A buffer that is there has the size of its kind.
abbrev pub HasSize : ℕ → Option Buf → Type 0
HasSize n none = Unit
HasSize n (some b) = b.size ≡ n

abbrev pub IsNode : ℕ → NodeBufs → Type 0
IsNode dfltphys pn = HasSize 4096 pn.buf_small × HasSize dfltphys pn.buf_large

node_buffer-size : (o : Option Buf) (fresh n : ℕ) → HasSize n o → (node_buffer o fresh n).size ≡ n
unfolding node_buffer
node_buffer-size none fresh n h = refl
node_buffer-size (some b) fresh n h = h

HasSize-of :
    (dfltphys : ℕ) (pn : NodeBufs) (l : Lockbuf)
    → IsNode dfltphys pn
    → HasSize (bufsize dfltphys l) (pefs_node_buf pn l)
HasSize-of dfltphys pn lockbuf_small h = h.0
HasSize-of dfltphys pn lockbuf_large h = h.1

-- The lock was free, and its buffers hold `size` bytes.
take_lock-free :
    (pn : NodeBufs) (size : ℕ) (l : Lockbuf) (dfltphys : ℕ)
    → 4096 ≤ dfltphys
    → size ≤ dfltphys
    → take_lock pn size ≡ some l
    → (is_locked pn l ≡ false) × (size ≤ bufsize dfltphys l)
unfolding take_lock
take_lock-free pn size lockbuf_small dfltphys big fits h = ground arith
take_lock-free pn size lockbuf_large dfltphys big fits h = ground arith

wanted-fits : (size dfltphys : ℕ) → size ≤ dfltphys → size ≤ bufsize dfltphys (wanted size)
wanted-fits size dfltphys h = elim (Bool-cases (leb size 4096)) [
  | inl e ↦ rw e (leb→le size 4096 e)
  | inr e ↦ rw e h
]

set-IsNode :
    (dfltphys : ℕ) (pn : NodeBufs) (l : Lockbuf) (b : Buf)
    → IsNode dfltphys pn
    → b.size ≡ bufsize dfltphys l
    → IsNode dfltphys (set_buf (set_locked pn l true) l (some b))
set-IsNode dfltphys pn lockbuf_small b h e = (e, h.1)
set-IsNode dfltphys pn lockbuf_large b h e = (h.0, e)

-- Which buffer of its node a chunk of `size` bytes holds, by the locks before: the small one, the
-- large one when the chunk is large or the small one is locked, or none when neither will do.
abbrev pub Chosen : NodeBufs → ℕ → Option Lockbuf → Type 0
Chosen pn size none = (pn.large_locked ≡ true) × ((4096 < size) ⊎ (pn.small_locked ≡ true))
Chosen pn size (some lockbuf_small) = (size ≤ 4096) × (pn.small_locked ≡ false)
Chosen pn size (some lockbuf_large) =
    (pn.large_locked ≡ false) × ((4096 < size) ⊎ (pn.small_locked ≡ true))

take_lock-Chosen :
    (pn : NodeBufs) (size : ℕ) (l : Option Lockbuf) → take_lock pn size ≡ l → Chosen pn size l
unfolding take_lock
take_lock-Chosen pn size none h = ground arith
take_lock-Chosen pn size (some lockbuf_small) h = ground arith
take_lock-Chosen pn size (some lockbuf_large) h = ground arith

-- The node after a chunk took the lock `l` and the buffer `b`: the other lock and the other buffer
-- are as they were.
abbrev pub Taken : NodeBufs → NodeBufs → Buf → ℕ → Option Lockbuf → Type 0
Taken pn pn' b fresh none = (pn' ≡ pn) × (b.ptr ≡ fresh)
Taken pn pn' b fresh (some lockbuf_small) =
    (pn' ≡ record pn { buf_small = some b; small_locked = true })
    × ((pn.buf_small ≡ some b) ⊎ ((pn.buf_small ≡ none) × (b.ptr ≡ fresh)))
Taken pn pn' b fresh (some lockbuf_large) =
    (pn' ≡ record pn { buf_large = some b; large_locked = true })
    × ((pn.buf_large ≡ some b) ⊎ ((pn.buf_large ≡ none) × (b.ptr ≡ fresh)))

node_buffer-from :
    (o : Option Buf) (fresh n : ℕ)
    → (o ≡ some (node_buffer o fresh n)) ⊎ ((o ≡ none) × ((node_buffer o fresh n).ptr ≡ fresh))
unfolding node_buffer
node_buffer-from none fresh n = inr (refl, refl)
node_buffer-from (some b) fresh n = inl refl

set-Taken :
    (pn : NodeBufs) (fresh n : ℕ) (l : Lockbuf)
    → let b = node_buffer (pefs_node_buf pn l) fresh n in
      Taken pn (set_buf (set_locked pn l true) l (some b)) b fresh (some l)
set-Taken pn fresh n lockbuf_small = (refl, node_buffer-from pn.buf_small fresh n)
set-Taken pn fresh n lockbuf_large = (refl, node_buffer-from pn.buf_large fresh n)

-- A chunk of a node holds the bytes that were asked for, and its buffer has as many at least, when
-- the size is at most DFLTPHYS, which is a sector at least, and the node's buffers have the sizes of
-- their kinds, which they keep. A chunk of at most a sector takes the small buffer when no chunk has
-- it locked. A larger one, and a small one that finds the small buffer locked, takes the large buffer
-- when that is not locked. The buffer taken is locked then, is new memory when the node had none, and
-- the other one is as it was. When no such buffer is free, the node is as it was and the chunk's
-- buffer is new memory.
pub pefs_chunk_create_lem :
    (dfltphys : ℕ) (pn : NodeBufs) (size fresh : ℕ)
    → 4096 ≤ dfltphys
    → size ≤ dfltphys
    → IsNode dfltphys pn
    → (pn' : NodeBufs) × (b : Buf) × (l : Option Lockbuf) × (pefs_chunk_create dfltphys
          (some pn)
          size
          fresh
        ≡ some (some pn', record { size = size; capacity = size; base = some b; nodebuf = l }))
      × (size ≤ b.size)
      × IsNode dfltphys pn'
      × Chosen pn size l
      × Taken pn pn' b fresh l
unfolding pefs_chunk_create alone
pefs_chunk_create_lem dfltphys pn size fresh big fits h =
    let small : ltb dfltphys size ≡ false = le→ltb dfltphys size fits in
    elim (Option-cases (take_lock pn size)) [
      | inl lock ↦ (
        pn,
        record { ptr = fresh; size = bufsize dfltphys (wanted size) },
        none,
        rw (small, pefs_chunk_create) (rw (lock, pefs_chunk_create) refl),
        wanted-fits size dfltphys fits,
        h,
        take_lock-Chosen pn size none lock,
        (refl, refl),
      )
      | inr (l, lock) ↦
          let b = node_buffer (pefs_node_buf pn l) fresh (bufsize dfltphys l) in
          let size_of : b.size ≡ bufsize dfltphys l =
            node_buffer-size (pefs_node_buf pn l) fresh (bufsize dfltphys l)
              (HasSize-of dfltphys pn l h) in
          let free = take_lock-free pn size l dfltphys big fits lock in
          (
            set_buf (set_locked pn l true) l (some b),
            b,
            some l,
            rw (small, pefs_chunk_create) (rw (lock, pefs_chunk_create) refl),
            omega (arith, size_of, free.1),
            set-IsNode dfltphys pn l b h size_of,
            take_lock-Chosen pn size (some l) lock,
            set-Taken pn fresh (bufsize dfltphys l) l,
          )
    ]

-- While a chunk holds a buffer of its node, pefs_node_buf_free leaves that buffer in place, and
-- pefs_chunk_free then unlocks it and gives nothing back to malloc.
pub pefs_node_buf_free-held :
    (pn : NodeBufs) (pc : Chunk) (l : Lockbuf)
    → pc.nodebuf ≡ some l
    → is_locked pn l ≡ true
    → let pn' = pefs_node_buf_free pn in
      let (pn'', pc', given_back) = pefs_chunk_free pc pn' in
      (pefs_node_buf pn' l ≡ pefs_node_buf pn l)
      × (is_locked pn'' l ≡ false)
      × (pefs_node_buf pn'' l ≡ pefs_node_buf pn l)
      × (pc'.base ≡ none)
      × (given_back ≡ none)
unfolding pefs_node_buf_free pefs_chunk_free
pefs_node_buf_free-held pn pc lockbuf_small e h =
    rw (e, pefs_chunk_free) (rw h (refl, refl, refl, refl, refl))
pefs_node_buf_free-held pn pc lockbuf_large e h =
    rw (e, pefs_chunk_free) (rw h (refl, refl, refl, refl, refl))
