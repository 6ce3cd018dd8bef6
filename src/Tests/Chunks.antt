-- ===== src/Tests/Chunks.antt =====
-- Chunks of a node whose small buffer is in use.
use pefs.Base.{◌≤◌, ◌≡◌, refl, true, false, none, some, arith, Option}
use pefs.Chunk.{
  Lockbuf, lockbuf_small, Buf, NodeBufs, Chunk, is_locked, pefs_node_buf, pefs_chunk_create,
  pefs_chunk_free, pefs_node_buf_free,
}
use pefs.Chunk.Buffers.{IsNode, Chosen, Taken, pefs_chunk_create_lem, pefs_node_buf_free-held}

abbrev node : NodeBufs
node = record {
  buf_small = some (record { ptr = 1; size = 4096 });
  buf_large = none;
  small_locked = true;
  large_locked = false;
}

abbrev chunk : Chunk
chunk = record {
  size = 100;
  capacity = 100;
  base = some (record { ptr = 1; size = 4096 });
  nodebuf = some lockbuf_small;
}

pefs_chunk_create_lem_example :
    (pn' : NodeBufs) × (b : Buf) × (l : Option Lockbuf) × (pefs_chunk_create 65536 (some node) 100 7
      ≡ some (some pn', record { size = 100; capacity = 100; base = some b; nodebuf = l }))
    × (100 ≤ b.size)
    × IsNode 65536 pn'
    × Chosen node 100 l
    × Taken node pn' b 7 l
pefs_chunk_create_lem_example =
    pefs_chunk_create_lem 65536 node 100 7 (omega arith) (omega arith) (refl, tt)

pefs_node_buf_free-held_example :
    let pn' = pefs_node_buf_free node in
    let (pn'', pc', given_back) = pefs_chunk_free chunk pn' in
    (pefs_node_buf pn' lockbuf_small ≡ pefs_node_buf node lockbuf_small)
    × (is_locked pn'' lockbuf_small ≡ false)
    × (pefs_node_buf pn'' lockbuf_small ≡ pefs_node_buf node lockbuf_small)
    × (pc'.base ≡ none)
    × (given_back ≡ none)
pefs_node_buf_free-held_example = pefs_node_buf_free-held node chunk lockbuf_small refl refl
