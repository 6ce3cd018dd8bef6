-- ===== src/Node/Reach.antt =====
-- Nodes of sys/fs/pefs/pefs_subr.c under any interleaving of the threads that make and free them.
use pefs.Base.{
  ℕ, ◌≡◌, inl, inr, refl, sym, subst, ap, ◌∙◌, Bool, some, List, [], ◌∷◌, All, some_inj,
}
use pefs.Node.{
  Node, Nodes, vref, pefs_nodehash_gethead, find_node, Init, Kernel, Started, got, failed, pending,
  unlink_node, pefs_node_free_proc, pefs_node_asyncfree, pefs_nodehash_get, node_get_start,
  node_get_finish,
}
use pefs.Node.Steps.{
  StartedWell, node_get_start-StartedWell, node_get_finish-IsTable, asyncfree-IsTable,
  free_all-hash,
}
use pefs.Node.Unique.{
  HasKeyFlag, Holds, IsBucket, IsTable, Holds-All, All-unlink, find_node-Holds, bucket_of,
}

-- The table, and the nodes that threads have made and not yet tried to insert.
pub record Config : Type 0 where
  pub nodes : Nodes
  pub waiting : List Node

abbrev pub await : Started → List Node → List Node
await (got vp) w = w
await (failed error) w = w
await (pending pn) w = pn ∷ w

-- One thread's step under the lock of the table, or without a change of it.
pub data Step (mask : ℕ) : Config → Config → Type 0 where
  start :
      {c : Config} {c' : Config} (mp lvp : ℕ) (init : Init) (env : Kernel)
      → c' ≡ record {
        nodes = (node_get_start mask c.nodes mp lvp init env).0;
        waiting = await (node_get_start mask c.nodes mp lvp init env).1 c.waiting;
      }
      → Step mask c c'
  finish :
      {c : Config} {c' : Config} (pn : Node) (is_dir : Bool)
      → Holds pn c.waiting
      → c' ≡ record {
        nodes = (node_get_finish mask c.nodes pn.mount pn is_dir).0;
        waiting = unlink_node pn.ptr c.waiting;
      }
      → Step mask c c'
  free :
      {c : Config} {c' : Config} (pn : Node) (now : Bool)
      → c' ≡ record c { nodes = pefs_node_asyncfree c.nodes pn now }
      → Step mask c c'
  clean :
      {c : Config} {c' : Config}
      → c' ≡ record c { nodes = pefs_node_free_proc c.nodes }
      → Step mask c c'

pub data Reach (mask : ℕ) : Config → Config → Type 0 where
  here : {c : Config} → Reach mask c c
  next : {c : Config} {d : Config} {e : Config} → Reach mask c d → Step mask d e → Reach mask c e

module _ (mask : ℕ) where
  abbrev IsConfig : Config → Type 0
  IsConfig c = IsTable mask c.nodes.hash × All HasKeyFlag c.waiting

  await-IsConfig :
      (s : Nodes) (mp : ℕ) (w : List Node) (r : Nodes × Started)
      → StartedWell s mp r
      → IsTable mask s.hash
      → All HasKeyFlag w
      → IsTable mask r.0.hash × All HasKeyFlag (await r.1 w)
  await-IsConfig s mp w (s', got vp) e h k = (subst (IsTable mask) (sym e) h, k)
  await-IsConfig s mp w (s', failed error) e h k = (subst (IsTable mask) (sym e) h, k)
  await-IsConfig s mp w (s', pending pn) (e, flag, of_mp) h k =
      (subst (IsTable mask) (sym e) h, (flag, k))

  Step-IsConfig : (c c' : Config) → Step mask c c' → IsConfig c → IsConfig c'
  Step-IsConfig c c' (start mp lvp init env e) (h, k) = subst IsConfig (sym e) (
      await-IsConfig c.nodes mp c.waiting (node_get_start mask c.nodes mp lvp init env)
        (node_get_start-StartedWell mask c.nodes mp lvp init env) h k)
  Step-IsConfig c c' (finish pn is_dir there e) (h, k) = subst IsConfig (sym e) (
    node_get_finish-IsTable mask c.nodes pn.mount pn is_dir h
        (Holds-All HasKeyFlag pn c.waiting k there) refl,
    All-unlink mask HasKeyFlag pn.ptr c.waiting k,
  )
  Step-IsConfig c c' (free pn now e) (h, k) =
      subst IsConfig (sym e) (asyncfree-IsTable mask c.nodes pn now h, k)
  Step-IsConfig c c' (clean e) (h, k) =
      let same : (pefs_node_free_proc c.nodes).hash ≡ c.nodes.hash =
        unfold pefs_node_free_proc in free_all-hash _ c.nodes.freelist in
      subst IsConfig (sym e) (subst (IsTable mask) (sym same) h, k)

  Reach-IsConfig : (c c' : Config) → Reach mask c c' → IsConfig c → IsConfig c'
  Reach-IsConfig c c' here h = h
  Reach-IsConfig c c' (next {d} {e} r st) h = Step-IsConfig d e st (Reach-IsConfig c d r h)

  flag_of : (i : ℕ) (a : Node) (l : List Node) → IsBucket mask i l → Holds a l → HasKeyFlag a
  flag_of i a [] h k = absurd k
  flag_of i a (b ∷ l) h (inl e) = subst HasKeyFlag (sym e) h.1
  flag_of i a (b ∷ l) h (inr k) = flag_of i a l h.3 k

  get-Holds :
      (s : Nodes) (i : ℕ) (a : Node)
      → IsTable mask s.hash
      → Holds a (s.hash i)
      → pefs_nodehash_get mask s a.mount a.lowervp ≡ (vref s a.vnode, some (a.vnode))
  unfolding pefs_nodehash_get
  get-Holds s i a h k =
      let at = bucket_of mask i a (s.hash i) (h i) k in
      let found = find_node-Holds mask i a (s.hash i) (h i) k in
      rw (ap (λ (j : ℕ). find_node a.mount a.lowervp (s.hash j)) at ∙ found, pefs_nodehash_get) refl

  same_node :
      (s : Nodes) (i j : ℕ) (a b : Node)
      → IsTable mask s.hash
      → Holds a (s.hash i)
      → Holds b (s.hash j)
      → a.lowervp ≡ b.lowervp
      → a.mount ≡ b.mount
      → a ≡ b
  same_node s i j a b h ka kb vp mp =
      let same : i ≡ j =
        sym (bucket_of mask i a (s.hash i) (h i) ka)
        ∙ (ap (pefs_nodehash_gethead mask) vp ∙ bucket_of mask j b (s.hash j) (h j) kb) in
      some_inj (
        sym (find_node-Holds mask i a (s.hash i) (h i) ka)
        ∙ ((λ k. find_node (mp k) (vp k) (s.hash (same k)))
            ∙ find_node-Holds mask j b (s.hash j) (h j) kb))

-- Whatever steps threads take from an empty table with no node waiting, starting and finishing
-- pefs_node_get in any order and freeing nodes: two nodes of the table with the same lower vnode and
-- the same mount are one node; pefs_nodehash_get finds each node of the table under its own lower
-- vnode and mount and takes a reference of its vnode; and a node has PN_HASKEY when it has a key, and
-- only then.
pub pefs_nodehash_unique :
    (mask : ℕ) (c c' : Config) (i j : ℕ) (a b : Node)
    → ((k : ℕ) → c.nodes.hash k ≡ [])
    → c.waiting ≡ []
    → Reach mask c c'
    → Holds a (c'.nodes.hash i)
    → Holds b (c'.nodes.hash j)
    → ((a.lowervp ≡ b.lowervp) → (a.mount ≡ b.mount) → a ≡ b)
      × (pefs_nodehash_get mask c'.nodes a.mount a.lowervp
          ≡ (vref c'.nodes a.vnode, some (a.vnode)))
      × HasKeyFlag a
pefs_nodehash_unique mask c c' i j a b empty none_waiting r ka kb =
    let start_ok : IsTable mask c.nodes.hash = λ k. subst (IsBucket mask k) (sym (empty k)) tt in
    let waits : All HasKeyFlag c.waiting = subst (All HasKeyFlag) (sym none_waiting) tt in
    let ok = (Reach-IsConfig mask c c' r (start_ok, waits)).0 in
    (
      λ vp mp. same_node mask c'.nodes i j a b ok ka kb vp mp,
      get-Holds mask c'.nodes i a ok ka,
      flag_of mask i a (c'.nodes.hash i) (ok i) ka,
    )
