-- ===== src/Chunk.antt =====
-- The buffers of chunks in sys/fs/pefs/pefs_subr.c: pefs_chunk_create, pefs_chunk_restore,
-- pefs_chunk_setsize, pefs_chunk_free and pefs_node_buf_free. The uio of a chunk is not modelled.
pub mod Buffers
use pefs.Base.{
  ℕ, Bool, true, false, not, ◌&&◌, Option, none, some, List, [], ◌∷◌, ◌++◌, leb, ltb, if◌then◌else◌,
}
use pefs.Crypto.Data.{sector_size}

-- PN_LOCKBUF_SMALL and PN_LOCKBUF_LARGE.
pub data Lockbuf : Type 0 where
  lockbuf_small lockbuf_large : Lockbuf

-- A buffer of malloc, by its address, with its size.
pub record Buf : Type 0 where
  pub ptr : ℕ
  pub size : ℕ

-- pn_buf_small, pn_buf_large and the two bits of pn_flags.
pub record NodeBufs : Type 0 where
  pub buf_small : Option Buf
  pub buf_large : Option Buf
  pub small_locked : Bool
  pub large_locked : Bool

-- `struct pefs_chunk`; pc_nodebuf is 0 or one of the two flags.
pub record Chunk : Type 0 where
  pub size : ℕ
  pub capacity : ℕ
  pub base : Option Buf
  pub nodebuf : Option Lockbuf

abbrev pub is_locked : NodeBufs → Lockbuf → Bool
is_locked pn lockbuf_small = pn.small_locked
is_locked pn lockbuf_large = pn.large_locked

abbrev pub set_locked : NodeBufs → Lockbuf → Bool → NodeBufs
set_locked pn lockbuf_small b = record pn { small_locked = b }
set_locked pn lockbuf_large b = record pn { large_locked = b }

abbrev pub pefs_node_buf : NodeBufs → Lockbuf → Option Buf
pefs_node_buf pn lockbuf_small = pn.buf_small
pefs_node_buf pn lockbuf_large = pn.buf_large

abbrev pub set_buf : NodeBufs → Lockbuf → Option Buf → NodeBufs
set_buf pn lockbuf_small b = record pn { buf_small = b }
set_buf pn lockbuf_large b = record pn { buf_large = b }

abbrev pub wanted : ℕ → Lockbuf
wanted size = if leb size sector_size then lockbuf_small else lockbuf_large

-- wantbufsize, for the lock that is taken in the end.
abbrev pub bufsize : ℕ → Lockbuf → ℕ
bufsize dfltphys lockbuf_small = sector_size
bufsize dfltphys lockbuf_large = dfltphys

abbrev pub is_small : Lockbuf → Bool
is_small lockbuf_small = true
is_small lockbuf_large = false

-- The lock that a chunk takes: the one that it wants, the large one in place of the small one, or
-- none.
unfoldable pub take_lock : NodeBufs → ℕ → Option Lockbuf
take_lock pn size =
    let nodebuf = wanted size in
    if not (is_locked pn nodebuf)
    then some nodebuf
    else if is_small nodebuf && not (is_locked pn lockbuf_large)
    then some lockbuf_large
    else none

-- `if (*nodebuf_ptr == NULL) *nodebuf_ptr = malloc(...)`; `fresh` is the address of new memory.
unfoldable pub node_buffer : Option Buf → ℕ → ℕ → Buf
node_buffer none fresh want = record { ptr = fresh; size = want }
node_buffer (some b) fresh want = b

-- A chunk that holds no buffer of a node.
unfoldable pub alone : ℕ → ℕ → ℕ → Chunk
alone dfltphys size fresh =
    let b : Buf = record { ptr = fresh; size = bufsize dfltphys (wanted size) } in
    record { size = size; capacity = size; base = some b; nodebuf = none }

-- `pn` is the node, which may be null. DFLTPHYS is a constant of the kernel; the outer `none` is a
-- panic.
unfoldable pub pefs_chunk_create : ℕ → Option NodeBufs → ℕ → ℕ → Option (Option NodeBufs × Chunk)
unfolding take_lock node_buffer alone
pefs_chunk_create dfltphys pn size fresh = if ltb dfltphys size then none else elim pn [
  | none ↦ some (none, alone dfltphys size fresh)
  | some node ↦ elim (take_lock node size) [
    | none ↦ some (some node, alone dfltphys size fresh)
    | some nodebuf ↦
        let b = node_buffer (pefs_node_buf node nodebuf) fresh (bufsize dfltphys nodebuf) in
        some (
          some (set_buf (set_locked node nodebuf true) nodebuf (some b)),
          record { size = size; capacity = size; base = some b; nodebuf = some nodebuf },
        )
  ]
]

unfoldable pub pefs_chunk_restore : Chunk → Chunk
pefs_chunk_restore pc = record pc { size = pc.capacity }

unfoldable pub pefs_chunk_setsize : Chunk → ℕ → Chunk
pefs_chunk_setsize pc size = record pc { size = size }

-- The node, the chunk, and what is given back to malloc.
unfoldable pub pefs_chunk_free : Chunk → NodeBufs → NodeBufs × Chunk × Option Buf
pefs_chunk_free pc pn = elim pc.nodebuf [
  | some nodebuf ↦ (set_locked pn nodebuf false, record pc { nodebuf = none; base = none }, none)
  | none ↦ (pn, record pc { nodebuf = none; base = none }, pc.base)
]

-- Buffers that no chunk holds are given back.
unfoldable pub pefs_node_buf_free : NodeBufs → NodeBufs
pefs_node_buf_free pn = record pn {
  buf_small = if pn.small_locked then pn.buf_small else none;
  buf_large = if pn.large_locked then pn.buf_large else none;
}
