-- ===== src/Dht/Routing/Challenge.antt =====
-- The challenge of a full bucket: `add_node` issues it, `resolve_challenge` settles it.
use mars_protocol.Common.{
  ℕ, zero, suc, ◌≤◌, ◌≡◌, ◌≢◌, inl, inr, refl, ap, subst, ◌∙◌, Bool, true, false, not, List, [],
  ◌∷◌, ◌++◌, length, length-retain-le, set, retain, All, arith, Bool-cases, Option-cases, eqb, ◌==◌,
  eq_iff,
}
use mars_protocol.Core.External.{External}
use mars_protocol.Core.Hash.{Hash, hash_eq}
use mars_protocol.Core.Identity.{Identity, node_id}
use mars_protocol.Core.Message.{NodeInfo}
use mars_protocol.Dht.Distance.{xor_distance, bucket_index}
use mars_protocol.Dht.Routing.{
  RoutingTable, KBucket, bucket_full, bucket_size, bucket_at, bucket_for, with_entries, extract,
  add_to_bucket, add_node, resolve_in_bucket, resolve_challenge,
}
use mars_protocol.Dht.Routing.Extract.{Unseen}
use mars_protocol.Dht.Routing.Buckets.{add_to_bucket-bucket_full}
use mars_protocol.Dht.Routing.Invariant.{IsValid, IsNew, BelongsTo, resolve_challenge-IsValid}

set-bucket_at : (bs : List KBucket) (i : ℕ) → set bs i (bucket_at bs i) ≡ bs
set-bucket_at [] i = refl
set-bucket_at (b ∷ bs) zero = refl
set-bucket_at (b ∷ bs) (suc i) = ap (◌∷◌ b) (set-bucket_at bs i)

module _ (x : External) where
  -- An answered challenge makes the asked node the most recent one and drops the candidate.
  pub resolve_in_bucket_alive :
      (lrs candidate : NodeInfo) (rest : List NodeInfo)
      → resolve_in_bucket x (lrs ∷ rest) (node_id x lrs.identity) candidate true ≡ rest ++ lrs ∷ []
  unfolding resolve_in_bucket extract
  resolve_in_bucket_alive lrs candidate rest =
      ground (arith, eq_iff (node_id x lrs.identity) (node_id x lrs.identity))

  -- A challenge that is not answered evicts the asked node, and any that shares its id, and there is
  -- room for the candidate, as the most recent one.
  pub resolve_in_bucket_dead :
      (lrs candidate : NodeInfo) (rest : List NodeInfo)
      → length (lrs ∷ rest) ≤ bucket_size
      → resolve_in_bucket x (lrs ∷ rest) (node_id x lrs.identity) candidate false
        ≡ retain (λ e. not (node_id x e.identity == node_id x lrs.identity)) rest ++ candidate ∷ []
  unfolding resolve_in_bucket
  resolve_in_bucket_dead lrs candidate rest h = ground (
    arith,
    eq_iff (node_id x lrs.identity) (node_id x lrs.identity),
    length-retain-le (λ (e : NodeInfo). not (node_id x e.identity == node_id x lrs.identity)) rest,
  )

  -- what `add_node` says of a table when it answers with a challenge
  pub record Challenged (t : RoutingTable) (node lrs candidate : NodeInfo) : Type 0 where
    pub index : ℕ
    pub here : BelongsTo x t.local_id index node.identity
    pub kept : (add_node x t node).0 ≡ t
    pub same : candidate ≡ node
    pub rest : List NodeInfo
    pub head : (bucket_at t.buckets index).entries ≡ lrs ∷ rest
    pub full : bucket_size ≤ length (lrs ∷ rest)
    pub unseen : Unseen node.identity (bucket_at t.buckets index).entries

  -- A challenge is issued only by a full bucket; it changes nothing, asks the least recently seen
  -- node of the bucket, and its candidate is the new node.
  pub add_node-Challenged :
      (t : RoutingTable) (node lrs candidate : NodeInfo)
      → (add_node x t node).1 ≡ bucket_full lrs candidate
      → Challenged t node lrs candidate
  unfolding add_node bucket_for
  add_node-Challenged t node lrs candidate h =
      elim (Option-cases (bucket_index (xor_distance t.local_id (node_id x node.identity)))) [
        | inl self ↦ absurd (ground arith)
        | inr (i, here) ↦
            let es = (bucket_at t.buckets i).entries in
            let full : (add_to_bucket x es node).1 ≡ bucket_full lrs candidate = ground arith in
            let c =
              add_to_bucket-bucket_full x (BelongsTo x t.local_id i) es node lrs candidate full in
            record {
              index = i;
              here = here;
              kept =
                  rw (here, add_node)
                    (ap (with_entries t i) c.kept
                      ∙ ap (λ bs. record t { buckets = bs }) (set-bucket_at t.buckets i));
              same = c.same;
              rest = c.rest;
              head = c.head;
              full = subst (λ fs. bucket_size ≤ length fs) c.head c.full;
              unseen = c.unseen;
            }
      ]

  -- nodes that are placed in another bucket are other nodes
  Unseen-elsewhere :
      (local : Hash) (i j : ℕ) (identity : Identity) (es : List NodeInfo)
      → BelongsTo x local i identity
      → i ≢ j
      → All (λ e. BelongsTo x local j e.identity) es
      → Unseen identity es
  Unseen-elsewhere local i j identity [] here ne h = tt
  Unseen-elsewhere local i j identity (e ∷ es) here ne h =
      ((λ same. ne (cc (same, here, h.0))), Unseen-elsewhere local i j identity es here ne h.1)

  Challenged-IsNew :
      (t : RoutingTable) {node lrs candidate : NodeInfo}
      → IsValid x t
      → Challenged t node lrs candidate
      → IsNew x t node.identity
  Challenged-IsNew t {node} v c j = elim (Bool-cases (eqb c.index j)) [
    | inl same ↦
        let e : c.index ≡ j = ground arith in
        subst (λ k. Unseen node.identity (bucket_at t.buckets k).entries) e c.unseen
    | inr other ↦
        Unseen-elsewhere t.local_id c.index j node.identity _ c.here (ground arith) (v.at j).placed
  ]

  -- From a valid table, however a challenge that add_node issued is settled, the table is valid.
  pub challenge-IsValid :
      (t : RoutingTable) (node lrs candidate : NodeInfo) (responded : Bool)
      → IsValid x t
      → (add_node x t node).1 ≡ bucket_full lrs candidate
      → IsValid x
          (resolve_challenge x (add_node x t node).0 (node_id x lrs.identity) candidate responded)
  challenge-IsValid t node lrs candidate responded v h =
      let c = add_node-Challenged t node lrs candidate h in
      rw (c.kept, c.same)
        (resolve_challenge-IsValid x t (node_id x lrs.identity) node responded v
          (Challenged-IsNew t v c))
