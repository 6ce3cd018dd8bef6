-- ===== src/Node.antt =====
-- The nodes that stand for lower vnodes, sys/fs/pefs/pefs_subr.c: their hash table, how a node is made
-- or found, and how it is freed. Each part that holds the lock of the table is one step; the lock of
-- the lower vnode, which the caller holds, is not modelled.
pub mod Unique
pub mod Steps
pub mod Reach
pub mod Get
use pefs.Base.{
  ℕ, zero, suc, ◌+◌, ◌-◌, ◌%◌, ◌^◌, bit_and, Bool, true, false, not, ◌&&◌, ◌||◌, Option, none, some,
  List, [], ◌∷◌, map, ◌==◌, if◌then◌else◌,
}
use pefs.Crypto.{Key, Tkey}
use pefs.Dircache.{put, pefs_hash_mixptr}

-- `struct pefs_node` without its buffers, with the mount of its vnode: `vnode` is pn_vnode and `mount`
-- that vnode's v_mount. `ptr` is the node's own address.
pub record Node : Type 0 where
  pub ptr : ℕ
  pub lowervp : ℕ
  pub lowervp_dead : Option ℕ
  pub vnode : ℕ
  pub mount : ℕ
  pub haskey : Bool
  pub tkey : Option Tkey
  pub dircache : Bool

-- pefs_nodehash_tbl, pefs_node_freelist and pefs_nodes, with the references of keys and of vnodes.
pub record Nodes : Type 0 where
  pub hash : ℕ → List Node
  pub freelist : List Node
  pub nodes : ℕ
  pub keyrefs : ℕ → ℕ
  pub vrefs : ℕ → ℕ

unfoldable pub vref : Nodes → ℕ → Nodes
vref s vp = record s { vrefs = put s.vrefs vp (s.vrefs vp + 1) }

unfoldable pub vrele : Nodes → ℕ → Nodes
vrele s vp = record s { vrefs = put s.vrefs vp (s.vrefs vp - 1) }

-- pefs_key_ref, and pefs_key_release with its test for a null pointer.
unfoldable pub key_ref : Nodes → Tkey → Nodes
key_ref s t = record s { keyrefs = put s.keyrefs t.key.ptr (s.keyrefs t.key.ptr + 1) }

unfoldable pub key_release : Nodes → Option Tkey → Nodes
key_release s none = s
key_release s (some t) = record s { keyrefs = put s.keyrefs t.key.ptr (s.keyrefs t.key.ptr - 1) }

abbrev pub enoent : ℕ
enoent = 2

-- `mask` is pefs_nodehash_mask; the hash is a uint32_t.
unfoldable pub pefs_nodehash_gethead : ℕ → ℕ → ℕ
pefs_nodehash_gethead mask vp = bit_and (pefs_hash_mixptr vp % 2 ^ 32) mask

unfoldable pub find_node : ℕ → ℕ → List Node → Option Node
find_node mp lowervp [] = none
find_node mp lowervp (a ∷ rest) =
    if (a.lowervp == lowervp) && (a.mount == mp) then some a else find_node mp lowervp rest

-- What pn_tkey is set from: a key that the caller has, or the lookup of the name of the lower vnode,
-- with whether the mount has a root key, what vn_vptocnp returned, and what pefs_name_decrypt gave for
-- the name.
pub data Init : Type 0 where
  knownkey : Option Tkey → Init
  lookupkey : Bool → ℕ → Option Tkey → Init

unfoldable pub pefs_node_init_knownkey : Nodes → Node → Option Tkey → ℕ × Node × Nodes
unfolding key_ref
pefs_node_init_knownkey s pn none = (0, pn, s)
pefs_node_init_knownkey s pn (some t) = (0, record pn { tkey = some t; haskey = true }, key_ref s t)

-- pefs_node_lookup_name turns every error into ENOENT. `decrypted` is what pefs_name_decrypt stored;
-- the assertion at its end excludes that it stores a key and returns a length of 0.
unfoldable pub pefs_node_lookup_key : Nodes → ℕ → Option Tkey → ℕ × Option Tkey × Nodes
unfolding key_ref
pefs_node_lookup_key s (suc error) decrypted = (enoent, none, s)
pefs_node_lookup_key s zero none = (0, none, s)
pefs_node_lookup_key s zero (some t) = (0, some t, key_ref s t)

unfoldable pub with_lookup : Node → ℕ × Option Tkey × Nodes → ℕ × Node × Nodes
with_lookup pn (error, none, s) = (error, pn, s)
with_lookup pn (error, some t, s) = (error, record pn { tkey = some t; haskey = true }, s)

unfoldable pub pefs_node_init_lookupkey : Nodes → Node → Bool → ℕ → Option Tkey → ℕ × Node × Nodes
unfolding pefs_node_lookup_key with_lookup
pefs_node_init_lookupkey s pn false error decrypted = (0, pn, s)
pefs_node_init_lookupkey s pn true error decrypted =
    with_lookup pn (pefs_node_lookup_key s error decrypted)

unfoldable pub init_fn : Nodes → Node → Init → ℕ × Node × Nodes
unfolding pefs_node_init_knownkey pefs_node_init_lookupkey
init_fn s pn (knownkey t) = pefs_node_init_knownkey s pn t
init_fn s pn (lookupkey rootkey error decrypted) =
    pefs_node_init_lookupkey s pn rootkey error decrypted

-- The node is freed and its vnode given back.
unfoldable pub pefs_insmntque_dtr : Nodes → Node → Nodes
unfolding key_release vrele
pefs_insmntque_dtr s pn = key_release (vrele s pn.vnode) pn.tkey

-- What the kernel answers: whether the lower vnode is doomed once its lock is exclusive, the address
-- of the new node, the error of getnewvnode and its vnode, and the error of insmntque1, which calls
-- pefs_insmntque_dtr before it returns one.
pub record Kernel : Type 0 where
  pub doomed : Bool
  pub fresh : ℕ
  pub getnewvnode : ℕ
  pub new_vnode : ℕ
  pub insmntque : ℕ

-- How far pefs_node_get comes before it takes the table's lock for the second time.
pub data Started : Type 0 where
  got : ℕ → Started
  failed : ℕ → Started
  pending : Node → Started

unfoldable pub started : Nodes → ℕ → Kernel → ℕ × Node × Nodes → Nodes × Started
unfolding pefs_insmntque_dtr
started s mp env (suc error, pn, s1) = (s1, failed (suc error))
started s mp env (zero, pn, s1) =
    if not (env.getnewvnode == 0)
    then (key_release s1 pn.tkey, failed env.getnewvnode)
    else let pn1 : Node = record pn { vnode = env.new_vnode; mount = mp } in
      let s2 : Nodes = record s1 { vrefs = put s1.vrefs env.new_vnode 1 } in
      if not (env.insmntque == 0)
      then (pefs_insmntque_dtr s2 pn1, failed env.insmntque)
      else (s2, pending pn1)

unfoldable pub blank : ℕ → ℕ → Node
blank ptr lvp = record {
  ptr = ptr;
  lowervp = lvp;
  lowervp_dead = none;
  vnode = 0;
  mount = 0;
  haskey = false;
  tkey = none;
  dircache = false;
}

-- The node's own address leaves the list that it is in.
unfoldable pub unlink_node : ℕ → List Node → List Node
unlink_node p [] = []
unlink_node p (a ∷ rest) = if a.ptr == p then rest else a ∷ unlink_node p rest

unfoldable pub set_dircache : ℕ → List Node → List Node
set_dircache p [] = []
set_dircache p (a ∷ rest) =
    if a.ptr == p then record a { dircache = true } ∷ rest else a ∷ set_dircache p rest

-- pefs_dircache_create, for a directory's node that is in the list `hd`.
unfoldable pub with_dircache : Bool → ℕ → ℕ → Nodes → Nodes
unfolding set_dircache
with_dircache false hd p s = s
with_dircache true hd p s = record s { hash = put s.hash hd (set_dircache p (s.hash hd)) }

unfoldable pub pefs_node_free : Nodes → Node → Nodes
unfolding vrele
pefs_node_free s pn = elim pn.lowervp_dead [ none ↦ s | some vp ↦ vrele s vp ]

unfoldable pub free_all_nodes : Nodes → List Node → Nodes
unfolding pefs_node_free
free_all_nodes s [] = s
free_all_nodes s (pn ∷ rest) = free_all_nodes (pefs_node_free s pn) rest

unfoldable pub pefs_node_free_proc : Nodes → Nodes
unfolding free_all_nodes
pefs_node_free_proc s = free_all_nodes (record s { freelist = [] }) s.freelist

-- `now` is whether the node may be freed at once: without PM_ASYNCRECLAIM or in the thread vnlru. The
-- directory's cache, which pefs_dircache_free purges, is not part of this state.
unfoldable pub pefs_node_asyncfree : Nodes → Node → Bool → Nodes
unfolding key_release pefs_node_free unlink_node
pefs_node_asyncfree s pn now =
    let s1 : Nodes = key_release s pn.tkey in
    let s2 : Nodes = record s1 {
      nodes = (s1.nodes + (2 ^ 64 - 1)) % 2 ^ 64;
      hash = λ i. unlink_node pn.ptr (s1.hash i);
    } in
    if now then pefs_node_free s2 pn else record s2 { freelist = pn ∷ s2.freelist }

-- The key of a node, or the root key; nothing where an assertion fails.
unfoldable pub pefs_node_key : Node → Option Key → Option Key
pefs_node_key pn rootkey = elim pn.tkey [
  | none ↦ if pn.haskey then none else rootkey
  | some t ↦ if pn.haskey then some (t.key) else none
]

-- The two parts of pefs_node_get behind what the table gave: a node that is there, or none.
unfoldable pub after_get : ℕ → ℕ → Init → Kernel → Nodes × Option ℕ → Nodes × Started
unfolding vrele started init_fn blank
after_get mp lvp init env (s, some vp) = (vrele s lvp, got vp)
after_get mp lvp init env (s, none) =
    if env.doomed
    then (s, failed enoent)
    else started s mp env (init_fn s (blank env.fresh lvp) init)

unfoldable pub after_insert : ℕ → Node → Bool → Nodes × Option ℕ → Nodes × ℕ
unfolding vrele pefs_insmntque_dtr with_dircache
after_insert hd pn is_dir (s, some vp) = (pefs_insmntque_dtr (vrele s pn.lowervp) pn, vp)
after_insert hd pn is_dir (s, none) = (with_dircache is_dir hd pn.ptr s, pn.vnode)

module _ (mask : ℕ) where
  unfoldable pub pefs_nodehash_get : Nodes → ℕ → ℕ → Nodes × Option ℕ
  unfolding pefs_nodehash_gethead find_node vref
  pefs_nodehash_get s mp lowervp =
      elim (find_node mp lowervp (s.hash (pefs_nodehash_gethead mask lowervp))) [
        | none ↦ (s, none)
        | some a ↦ (vref s a.vnode, some (a.vnode))
      ]

  unfoldable pub pefs_nodehash_insert : Nodes → ℕ → Node → Nodes × Option ℕ
  unfolding pefs_nodehash_gethead find_node vref
  pefs_nodehash_insert s mp pn =
      let hd = pefs_nodehash_gethead mask pn.lowervp in
      elim (find_node mp pn.lowervp (s.hash hd)) [
        | none ↦ (
          record s { nodes = (s.nodes + 1) % 2 ^ 64; hash = put s.hash hd (pn ∷ s.hash hd) },
          none,
        )
        | some a ↦ (vref s a.vnode, some (a.vnode))
      ]

  -- pefs_node_get up to the insertion into the table.
  unfoldable pub node_get_start : Nodes → ℕ → ℕ → Init → Kernel → Nodes × Started
  unfolding pefs_nodehash_get after_get
  node_get_start s mp lvp init env = after_get mp lvp init env (pefs_nodehash_get s mp lvp)

  -- The rest of it, for the node that is made, and the vnode that is returned.
  unfoldable pub node_get_finish : Nodes → ℕ → Node → Bool → Nodes × ℕ
  unfolding pefs_nodehash_insert after_insert
  node_get_finish s mp pn is_dir =
      after_insert (pefs_nodehash_gethead mask pn.lowervp) pn is_dir (pefs_nodehash_insert s mp pn)
