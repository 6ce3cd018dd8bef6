-- ===== src/Tests/Nodes.antt =====
-- A thread that makes a node for the lower vnode 7, with the table's lock taken twice.
use pefs.Base.{ℕ, ◌+◌, ◌%◌, ◌^◌, ◌≡◌, ◌⊎◌, inl, refl, true, false, none, some, [], ◌∷◌}
use pefs.Dircache.{pefs_hash_mixptr}
use pefs.Node.{
  Node, Nodes, knownkey, Kernel, vref, pefs_nodehash_get, pefs_nodehash_gethead, find_node,
  node_get_start, node_get_finish, after_get, after_insert, started, init_fn, blank,
  pefs_node_init_knownkey, key_ref, pefs_nodehash_insert, with_dircache, unlink_node,
}
use pefs.Node.Get.{Balanced, owed, node_get_start-Balanced, node_get_finish_lem}
use pefs.Node.Reach.{Config, here, next, Step, start, finish, pefs_nodehash_unique}
use pefs.Node.Unique.{HasKeyFlag, Holds}
use pefs.Tests.Fixtures.{home}

abbrev no_nodes : Nodes
no_nodes = record { hash = λ i. []; freelist = []; nodes = 0; keyrefs = λ p. 1; vrefs = λ vp. 1 }

abbrev kernel : Kernel
kernel = record { doomed = false; fresh = 100; getnewvnode = 0; new_vnode = 200; insmntque = 0 }

abbrev made : Node
made = record {
  ptr = 100;
  lowervp = 7;
  lowervp_dead = none;
  vnode = 200;
  mount = 3;
  haskey = true;
  tkey = some home;
  dircache = false;
}

node_get_start-Balanced_example :
    Balanced no_nodes.keyrefs (node_get_start 0 no_nodes 3 7 (knownkey (some home)) kernel)
node_get_start-Balanced_example =
    node_get_start-Balanced 0 no_nodes 3 7 (knownkey (some home)) kernel

node_get_finish_lem_example :
    let r = node_get_finish 0 no_nodes 3 made true in
    let there = find_node 3 7 (no_nodes.hash (pefs_nodehash_gethead 0 7)) in
    ((pefs_nodehash_get 0 r.0 3 7).1 ≡ some (r.1))
    × (((there ≡ none)
          × (r.1 ≡ 200)
          × (r.0.nodes ≡ (0 + 1) % 2 ^ 64)
          × (r.0.keyrefs ≡ no_nodes.keyrefs))
        ⊎ ((a : Node) × (there ≡ some a)
            × (r.1 ≡ a.vnode)
            × (r.0.hash ≡ no_nodes.hash)
            × (r.0.nodes ≡ 0)
            × ((refs : ℕ → ℕ)
                → ((p : ℕ) → no_nodes.keyrefs p ≡ refs p + owed (some home) p)
                → (p : ℕ) → r.0.keyrefs p ≡ refs p)))
node_get_finish_lem_example = node_get_finish_lem 0 no_nodes made true

abbrev empty : Config
empty = record { nodes = no_nodes; waiting = [] }

abbrev one_waiting : Config
one_waiting = record {
  nodes = (node_get_start 0 no_nodes 3 7 (knownkey (some home)) kernel).0;
  waiting = made ∷ [];
}

abbrev one_node : Config
one_node = record { nodes = (node_get_finish 0 one_waiting.nodes 3 made false).0; waiting = [] }

made_waits : Step 0 empty one_waiting
unfolding node_get_start after_get started init_fn blank pefs_node_init_knownkey key_ref
    pefs_nodehash_get find_node
made_waits = start 3 7 (knownkey (some home)) kernel refl

made_enters : Step 0 one_waiting one_node
unfolding unlink_node
made_enters = finish made false (inl refl) refl

made-Holds : Holds made (one_node.nodes.hash 0)
unfolding node_get_finish after_insert pefs_nodehash_insert find_node with_dircache
    pefs_nodehash_gethead node_get_start after_get started init_fn blank pefs_node_init_knownkey
    key_ref pefs_nodehash_get pefs_hash_mixptr
made-Holds = inl refl

pefs_nodehash_unique_example :
    ((made.lowervp ≡ made.lowervp) → (made.mount ≡ made.mount) → made ≡ made)
    × (pefs_nodehash_get 0 one_node.nodes made.mount made.lowervp
        ≡ (vref one_node.nodes made.vnode, some (made.vnode)))
    × HasKeyFlag made
pefs_nodehash_unique_example =
    pefs_nodehash_unique 0 empty one_node 0 0 made made (λ k. refl) refl
      (next (next here made_waits) made_enters) made-Holds made-Holds
