-- ===== src/Node/Get.antt =====
-- What pefs_node_get of sys/fs/pefs/pefs_subr.c returns, and the references of keys that it keeps.
use pefs.Base.{
  ℕ, zero, suc, ◌+◌, ◌%◌, ◌^◌, ◌≡◌, ◌⊎◌, inl, inr, refl, subst, ap, ◌∙◌, arith, Bool, true, false,
  Option, none, some, List, ◌∷◌, ◌==◌, ==_refl, if◌then◌else◌, Bool-cases, Option-cases,
}
use pefs.Crypto.{Tkey}
use pefs.Dircache.{put}
use pefs.Node.{
  Node, Nodes, vref, vrele, key_ref, key_release, pefs_nodehash_gethead, find_node, Init, knownkey,
  lookupkey, pefs_node_init_knownkey, pefs_node_lookup_key, with_lookup, pefs_node_init_lookupkey,
  init_fn, pefs_insmntque_dtr, Kernel, Started, got, failed, pending, started, blank, set_dircache,
  with_dircache, pefs_nodehash_get, pefs_nodehash_insert, after_get, after_insert, node_get_start,
  node_get_finish,
}

-- The reference that a node has of a key.
abbrev pub owed : Option Tkey → ℕ → ℕ
owed none p = 0
owed (some t) p = if p == t.key.ptr then 1 else 0

-- The references of keys after a part of pefs_node_get: a node that is pending has one of its key.
abbrev pub Balanced : (ℕ → ℕ) → Nodes × Started → Type 0
Balanced refs (s', got vp) = (p : ℕ) → s'.keyrefs p ≡ refs p
Balanced refs (s', failed error) = (p : ℕ) → s'.keyrefs p ≡ refs p
Balanced refs (s', pending pn) = (p : ℕ) → s'.keyrefs p ≡ refs p + owed pn.tkey p

key_release-owed :
    (s : Nodes) (t : Option Tkey) (refs : ℕ → ℕ)
    → ((p : ℕ) → s.keyrefs p ≡ refs p + owed t p)
    → (p : ℕ) → (key_release s t).keyrefs p ≡ refs p
unfolding key_release
key_release-owed s none refs h p = omega (arith, h p)
key_release-owed s (some t) refs h p = elim (Bool-cases (p == t.key.ptr)) [
  | inl e ↦
      let same : p ≡ t.key.ptr = ground (arith, e) in
      let before = h t.key.ptr in
      let one : owed (some t) t.key.ptr ≡ 1 = rw (==_refl t.key.ptr) refl in
      simp (e) (omega (arith, before, one, ap refs same))
  | inr e ↦
      let none_owed : owed (some t) p ≡ 0 = simp (e) refl in
      simp (e) (omega (arith, h p, none_owed))
]

-- What the initialisation leaves, an error without a key.
abbrev Initialised : Nodes → ℕ × Node × Nodes → Type 0
Initialised s (zero, pn, s') = (p : ℕ) → s'.keyrefs p ≡ s.keyrefs p + owed pn.tkey p
Initialised s (suc error, pn, s') = (p : ℕ) → s'.keyrefs p ≡ s.keyrefs p

key_ref-owed :
    (s : Nodes) (t : Tkey) (p : ℕ) → (key_ref s t).keyrefs p ≡ s.keyrefs p + owed (some t) p
unfolding key_ref
key_ref-owed s t p = elim (Bool-cases (p == t.key.ptr)) [
  | inl e ↦
      let same : p ≡ t.key.ptr = ground (arith, e) in simp (e) (omega (arith, ap s.keyrefs same))
  | inr e ↦ simp (e) (omega arith)
]

init_fn-Initialised :
    (s : Nodes) (pn : Node) (init : Init) → pn.tkey ≡ none → Initialised s (init_fn s pn init)
unfolding init_fn pefs_node_init_knownkey pefs_node_init_lookupkey with_lookup pefs_node_lookup_key
init_fn-Initialised s pn (knownkey none) h = λ p. rw h (omega arith)
init_fn-Initialised s pn (knownkey (some t)) h = λ p. key_ref-owed s t p
init_fn-Initialised s pn (lookupkey false error o) h = λ p. rw h (omega arith)
init_fn-Initialised s pn (lookupkey true (suc error) o) h = λ p. refl
init_fn-Initialised s pn (lookupkey true zero none) h = λ p. rw h (omega arith)
init_fn-Initialised s pn (lookupkey true zero (some t)) h = λ p. key_ref-owed s t p

started-Balanced :
    (s : Nodes) (mp : ℕ) (env : Kernel) (r : ℕ × Node × Nodes)
    → Initialised s r
    → Balanced s.keyrefs (started s mp env r)
unfolding started pefs_insmntque_dtr
started-Balanced s mp env (suc error, pn, s1) h = h
started-Balanced s mp env (zero, pn, s1) h = elim (Bool-cases (env.getnewvnode == 0)) [
  | inr e ↦ simp (e) (key_release-owed s1 pn.tkey s.keyrefs h)
  | inl e ↦ elim (Bool-cases (env.insmntque == 0)) [
    | inr f ↦
        let s2 : Nodes = record s1 { vrefs = put s1.vrefs env.new_vnode 1 } in
        simp (e, f)
          (key_release-owed (vrele s2 env.new_vnode) pn.tkey s.keyrefs (unfold vrele in h))
    | inl f ↦ simp (e, f) h
  ]
]

module _ (mask : ℕ) where
  get-keyrefs :
      (s : Nodes) (mp lowervp : ℕ) → (pefs_nodehash_get mask s mp lowervp).0.keyrefs ≡ s.keyrefs
  unfolding pefs_nodehash_get
  get-keyrefs s mp lowervp =
      elim (Option-cases (find_node mp lowervp (s.hash (pefs_nodehash_gethead mask lowervp)))) [
        | inl e ↦ rw (e, pefs_nodehash_get) refl
        | inr (a, e) ↦ rw (e, pefs_nodehash_get) (unfold vref in refl)
      ]

  after_get-Balanced :
      (mp lvp : ℕ) (init : Init) (env : Kernel) (r : Nodes × Option ℕ)
      → Balanced r.0.keyrefs (after_get mp lvp init env r)
  unfolding after_get
  after_get-Balanced mp lvp init env (s, some vp) = unfold vrele in (λ p. refl)
  after_get-Balanced mp lvp init env (s, none) = elim (Bool-cases env.doomed) [
    | inl e ↦ simp (e) (λ (p : ℕ). refl)
    | inr e ↦ simp (e) (
        started-Balanced s mp env (init_fn s (blank env.fresh lvp) init)
          (init_fn-Initialised s (blank env.fresh lvp) init (unfold blank in refl)))
  ]

-- The first part of pefs_node_get keeps the references of keys in balance, whatever the kernel
-- answers and however the key is found: when it returns a node that is there or an error, every key
-- has the references that it had; and when a node is to be inserted, the node's key has one more.
pub node_get_start-Balanced :
    (mask : ℕ) (s : Nodes) (mp lvp : ℕ) (init : Init) (env : Kernel)
    → Balanced s.keyrefs (node_get_start mask s mp lvp init env)
unfolding node_get_start
node_get_start-Balanced mask s mp lvp init env =
    let r = pefs_nodehash_get mask s mp lvp in
    subst (λ (k : ℕ → ℕ). Balanced k (after_get mp lvp init env r)) (get-keyrefs mask s mp lvp)
      (after_get-Balanced mask mp lvp init env r)

-- The node's own place in its list, also with its directory cache.
find_first : (pn : Node) (l : List Node) → find_node pn.mount pn.lowervp (pn ∷ l) ≡ some pn
unfolding find_node
find_first pn l = rw (==_refl pn.lowervp, ==_refl pn.mount) refl

module _ (mask : ℕ) where
  get-vnode :
      (s : Nodes) (mp lowervp : ℕ) (a : Node)
      → find_node mp lowervp (s.hash (pefs_nodehash_gethead mask lowervp)) ≡ some a
      → (pefs_nodehash_get mask s mp lowervp).1 ≡ some (a.vnode)
  unfolding pefs_nodehash_get
  get-vnode s mp lowervp a e = rw (e, pefs_nodehash_get) refl

  get-dircache :
      (s : Nodes) (pn : Node) (l : List Node) (is_dir : Bool)
      → s.hash (pefs_nodehash_gethead mask pn.lowervp) ≡ pn ∷ l
      → (pefs_nodehash_get mask
          (with_dircache is_dir (pefs_nodehash_gethead mask pn.lowervp) pn.ptr s)
          pn.mount
          pn.lowervp).1
        ≡ some (pn.vnode)
  unfolding with_dircache set_dircache
  get-dircache s pn l false e =
      get-vnode s pn.mount pn.lowervp pn (ap (find_node pn.mount pn.lowervp) e ∙ find_first pn l)
  get-dircache s pn l true e =
      let hd = pefs_nodehash_gethead mask pn.lowervp in
      let pn' : Node = record pn { dircache = true } in
      let first : put s.hash hd (set_dircache pn.ptr (s.hash hd)) hd ≡ pn' ∷ l =
        rw (==_refl hd, e, ==_refl pn.ptr) refl in
      get-vnode (with_dircache true hd pn.ptr s) pn.mount pn.lowervp pn'
        (ap (find_node pn.mount pn.lowervp) first ∙ find_first pn' l)

  insert-none :
      (s : Nodes) (pn : Node)
      → find_node pn.mount pn.lowervp (s.hash (pefs_nodehash_gethead mask pn.lowervp)) ≡ none
      → let hd = pefs_nodehash_gethead mask pn.lowervp in
        pefs_nodehash_insert mask s pn.mount pn
        ≡ (record s { nodes = (s.nodes + 1) % 2 ^ 64; hash = put s.hash hd (pn ∷ s.hash hd) }, none)
  unfolding pefs_nodehash_insert
  insert-none s pn e = rw (e, pefs_nodehash_insert) refl

  insert-some :
      (s : Nodes) (pn a : Node)
      → find_node pn.mount pn.lowervp (s.hash (pefs_nodehash_gethead mask pn.lowervp)) ≡ some a
      → pefs_nodehash_insert mask s pn.mount pn ≡ (vref s a.vnode, some (a.vnode))
  unfolding pefs_nodehash_insert
  insert-some s pn a e = rw (e, pefs_nodehash_insert) refl

  with_dircache-others :
      (s : Nodes) (is_dir : Bool) (hd p : ℕ)
      → ((with_dircache is_dir hd p s).nodes ≡ s.nodes)
        × ((with_dircache is_dir hd p s).keyrefs ≡ s.keyrefs)
  unfolding with_dircache
  with_dircache-others s false hd p = (refl, refl)
  with_dircache-others s true hd p = (refl, refl)

  dtr-others :
      (s : Nodes) (pn : Node)
      → ((pefs_insmntque_dtr s pn).hash ≡ s.hash) × ((pefs_insmntque_dtr s pn).nodes ≡ s.nodes)
  unfolding pefs_insmntque_dtr vrele key_release
  dtr-others s pn = elim (Option-cases pn.tkey) [
    | inl e ↦ rw e (refl, refl)
    | inr (t, e) ↦ rw e (refl, refl)
  ]

-- The last part of pefs_node_get on any table, also one that other threads have changed since the
-- node was made. With no node there for the lower vnode and the mount it returns the new node's vnode,
-- counts the node and leaves the references of keys. With a node there it returns that node's vnode,
-- leaves the table and its count, and gives back the reference of its key that the new node has. In
-- both cases pefs_nodehash_get then finds the vnode that was returned.
pub node_get_finish_lem :
    (mask : ℕ) (s : Nodes) (pn : Node) (is_dir : Bool)
    → let r = node_get_finish mask s pn.mount pn is_dir in
      let there = find_node pn.mount pn.lowervp (s.hash (pefs_nodehash_gethead mask pn.lowervp)) in
      ((pefs_nodehash_get mask r.0 pn.mount pn.lowervp).1 ≡ some (r.1))
      × (((there ≡ none)
            × (r.1 ≡ pn.vnode)
            × (r.0.nodes ≡ (s.nodes + 1) % 2 ^ 64)
            × (r.0.keyrefs ≡ s.keyrefs))
          ⊎ ((a : Node) × (there ≡ some a)
              × (r.1 ≡ a.vnode)
              × (r.0.hash ≡ s.hash)
              × (r.0.nodes ≡ s.nodes)
              × ((refs : ℕ → ℕ)
                  → ((p : ℕ) → s.keyrefs p ≡ refs p + owed pn.tkey p)
                  → (p : ℕ) → r.0.keyrefs p ≡ refs p)))
unfolding node_get_finish after_insert
node_get_finish_lem mask s pn is_dir =
    let hd = pefs_nodehash_gethead mask pn.lowervp in
    elim (Option-cases (find_node pn.mount pn.lowervp (s.hash hd))) [
      | inl e ↦
          let s1 : Nodes = record s {
            nodes = (s.nodes + 1) % 2 ^ 64;
            hash = put s.hash hd (pn ∷ s.hash hd);
          } in
          let (count, refs) = with_dircache-others mask s1 is_dir hd pn.ptr in
          rw (insert-none mask s pn e) (
            get-dircache mask s1 pn (s.hash hd) is_dir (rw (==_refl hd) refl),
            inl (e, refl, count, refs),
          )
      | inr (a, e) ↦
          let s1 : Nodes = vrele (vref s a.vnode) pn.lowervp in
          let (table, count) = dtr-others mask s1 pn in
          let same : s1.hash ≡ s.hash = unfold vrele vref in refl in
          let found =
            ap (λ (h : ℕ → List Node). find_node pn.mount pn.lowervp (h hd)) (table ∙ same) ∙ e in
          rw (insert-some mask s pn a e) (
            get-vnode mask (pefs_insmntque_dtr s1 pn) pn.mount pn.lowervp a found,
            inr (
              a,
              e,
              refl,
              table ∙ same,
              count ∙ (unfold vrele vref in refl),
              λ refs h.
                  unfold pefs_insmntque_dtr vrele vref in
                  key_release-owed (vrele s1 pn.vnode) pn.tkey refs h,
            ),
          )
    ]
