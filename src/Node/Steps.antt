-- ===== src/Node/Steps.antt =====
-- The steps on the table of nodes, and what holds after any sequence of them.
use pefs.Base.{
  ℕ, zero, suc, ◌≡◌, inl, inr, refl, sym, subst, ◌∙◌, Bool, true, false, Option, none, some, List,
  [], ◌∷◌, ◌==◌, Bool-cases, Option-cases,
}
use pefs.Crypto.{Tkey}
use pefs.Dircache.{put}
use pefs.Node.{
  Node, Nodes, vref, vrele, key_ref, key_release, pefs_nodehash_gethead, find_node, Init, knownkey,
  lookupkey, pefs_node_init_knownkey, pefs_node_lookup_key, with_lookup, pefs_node_init_lookupkey,
  init_fn, pefs_insmntque_dtr, Kernel, Started, got, failed, pending, started, blank, with_dircache,
  pefs_node_free, free_all_nodes, pefs_node_asyncfree, pefs_nodehash_get, pefs_nodehash_insert,
  node_get_start, node_get_finish, after_get, after_insert,
}
use pefs.Node.Unique.{
  HasKeyFlag, IsTable, unlink_node-IsBucket, set_dircache-IsBucket, put-IsTable, insert-IsTable,
}

-- The operations that leave the table alone.
key_release-hash : (s : Nodes) (t : Option Tkey) → (key_release s t).hash ≡ s.hash
unfolding key_release
key_release-hash s none = refl
key_release-hash s (some t) = refl

dtr-hash : (s : Nodes) (pn : Node) → (pefs_insmntque_dtr s pn).hash ≡ s.hash
unfolding pefs_insmntque_dtr
dtr-hash s pn = key_release-hash (vrele s pn.vnode) pn.tkey ∙ (unfold vrele in refl)

node_free-hash : (s : Nodes) (pn : Node) → (pefs_node_free s pn).hash ≡ s.hash
unfolding pefs_node_free
node_free-hash s pn = elim (Option-cases pn.lowervp_dead) [
  | inl e ↦ rw e refl
  | inr (vp, e) ↦ rw e (unfold vrele in refl)
]

pub free_all-hash : (s : Nodes) (l : List Node) → (free_all_nodes s l).hash ≡ s.hash
unfolding free_all_nodes
free_all-hash s [] = refl
free_all-hash s (pn ∷ l) = free_all-hash (pefs_node_free s pn) l ∙ node_free-hash s pn

-- A node that is made has the flag of its key, and the table is as it was.
abbrev Made : Nodes → ℕ × Node × Nodes → Type 0
Made s (error, pn, s') = HasKeyFlag pn × (s'.hash ≡ s.hash)

abbrev NoKey : Node → Type 0
NoKey pn = (pn.haskey ≡ false) × (pn.tkey ≡ none)

init_fn-Made : (s : Nodes) (pn : Node) (init : Init) → NoKey pn → Made s (init_fn s pn init)
unfolding init_fn pefs_node_init_knownkey pefs_node_init_lookupkey with_lookup pefs_node_lookup_key
    key_ref
init_fn-Made s pn (knownkey none) h = (inl h, refl)
init_fn-Made s pn (knownkey (some t)) h = (inr (refl, (t, refl)), refl)
init_fn-Made s pn (lookupkey false error o) h = (inl h, refl)
init_fn-Made s pn (lookupkey true (suc error) o) h = (inl h, refl)
init_fn-Made s pn (lookupkey true zero none) h = (inl h, refl)
init_fn-Made s pn (lookupkey true zero (some t)) h = (inr (refl, (t, refl)), refl)

-- What the first part of pefs_node_get leaves: the table as it was, and a node of the mount.
abbrev pub StartedWell : Nodes → ℕ → Nodes × Started → Type 0
StartedWell s mp (s', got vp) = s'.hash ≡ s.hash
StartedWell s mp (s', failed error) = s'.hash ≡ s.hash
StartedWell s mp (s', pending pn) = (s'.hash ≡ s.hash) × HasKeyFlag pn × (pn.mount ≡ mp)

started-StartedWell :
    (s : Nodes) (mp : ℕ) (env : Kernel) (r : ℕ × Node × Nodes)
    → Made s r
    → StartedWell s mp (started s mp env r)
unfolding started
started-StartedWell s mp env (suc error, pn, s1) h = h.1
started-StartedWell s mp env (zero, pn, s1) h = elim (Bool-cases (env.getnewvnode == 0)) [
  | inr e ↦ simp (e) (key_release-hash s1 pn.tkey ∙ h.1)
  | inl e ↦ elim (Bool-cases (env.insmntque == 0)) [
    | inr f ↦
        simp (e, f)
          (dtr-hash (record s1 { vrefs = put s1.vrefs env.new_vnode 1 })
              (record pn { vnode = env.new_vnode; mount = mp })
            ∙ h.1)
    | inl f ↦ simp (e, f) (h.1, h.0, refl)
  ]
]

module _ (mask : ℕ) where
  get-hash : (s : Nodes) (mp lowervp : ℕ) → (pefs_nodehash_get mask s mp lowervp).0.hash ≡ s.hash
  unfolding pefs_nodehash_get
  get-hash s mp lowervp =
      elim (Option-cases (find_node mp lowervp (s.hash (pefs_nodehash_gethead mask lowervp)))) [
        | inl e ↦ rw (e, pefs_nodehash_get) refl
        | inr (a, e) ↦ rw (e, pefs_nodehash_get) (unfold vref in refl)
      ]

  StartedWell-hash :
      (s s' : Nodes) (mp : ℕ) (r : Nodes × Started)
      → s.hash ≡ s'.hash
      → StartedWell s mp r
      → StartedWell s' mp r
  StartedWell-hash s s' mp (t, got vp) e h = h ∙ e
  StartedWell-hash s s' mp (t, failed error) e h = h ∙ e
  StartedWell-hash s s' mp (t, pending pn) e (h, flag, of_mp) = (h ∙ e, flag, of_mp)

  after_get-StartedWell :
      (mp lvp : ℕ) (init : Init) (env : Kernel) (r : Nodes × Option ℕ)
      → StartedWell r.0 mp (after_get mp lvp init env r)
  unfolding after_get
  after_get-StartedWell mp lvp init env (s, some vp) = unfold vrele in refl
  after_get-StartedWell mp lvp init env (s, none) = elim (Bool-cases env.doomed) [
    | inl e ↦ simp (e) refl
    | inr e ↦ simp (e) (
        started-StartedWell s mp env (init_fn s (blank env.fresh lvp) init)
          (init_fn-Made s (blank env.fresh lvp) init (unfold blank in (refl, refl))))
  ]

  pub node_get_start-StartedWell :
      (s : Nodes) (mp lvp : ℕ) (init : Init) (env : Kernel)
      → StartedWell s mp (node_get_start mask s mp lvp init env)
  unfolding node_get_start
  node_get_start-StartedWell s mp lvp init env =
      let r = pefs_nodehash_get mask s mp lvp in
      StartedWell-hash r.0 s mp (after_get mp lvp init env r) (get-hash s mp lvp)
        (after_get-StartedWell mp lvp init env r)

  with_dircache-IsTable :
      (is_dir : Bool) (hd p : ℕ) (s : Nodes)
      → IsTable mask s.hash
      → IsTable mask (with_dircache is_dir hd p s).hash
  unfolding with_dircache
  with_dircache-IsTable false hd p s h = h
  with_dircache-IsTable true hd p s h =
      put-IsTable mask s.hash hd _ h (set_dircache-IsBucket mask hd p (s.hash hd) (h hd))

  after_insert-IsTable :
      (hd : ℕ) (pn : Node) (is_dir : Bool) (r : Nodes × Option ℕ)
      → IsTable mask r.0.hash
      → IsTable mask (after_insert hd pn is_dir r).0.hash
  unfolding after_insert
  after_insert-IsTable hd pn is_dir (s, some vp) h =
      subst (IsTable mask) (sym (dtr-hash (vrele s pn.lowervp) pn ∙ (unfold vrele in refl))) h
  after_insert-IsTable hd pn is_dir (s, none) h = with_dircache-IsTable is_dir hd pn.ptr s h

  pub node_get_finish-IsTable :
      (s : Nodes) (mp : ℕ) (pn : Node) (is_dir : Bool)
      → IsTable mask s.hash
      → HasKeyFlag pn
      → pn.mount ≡ mp
      → IsTable mask (node_get_finish mask s mp pn is_dir).0.hash
  unfolding node_get_finish
  node_get_finish-IsTable s mp pn is_dir h flag of_mp =
      after_insert-IsTable _ pn is_dir (pefs_nodehash_insert mask s mp pn)
        (insert-IsTable mask s mp pn h flag of_mp)

  pub asyncfree-IsTable :
      (s : Nodes) (pn : Node) (now : Bool)
      → IsTable mask s.hash
      → IsTable mask (pefs_node_asyncfree s pn now).hash
  unfolding pefs_node_asyncfree
  asyncfree-IsTable s pn true h i =
      rw (node_free-hash, key_release-hash s pn.tkey)
        (unlink_node-IsBucket mask i pn.ptr (s.hash i) (h i))
  asyncfree-IsTable s pn false h i =
      rw (key_release-hash s pn.tkey) (unlink_node-IsBucket mask i pn.ptr (s.hash i) (h i))
