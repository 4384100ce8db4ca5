-- ===== src/Dht/Routing/Invariant.antt =====
-- The invariant of the routing table, and that every operation keeps it.
use mars_protocol.Common.{
  ℕ, zero, suc, ◌≡◌, inl, inr, refl, subst, Bool, ◌&&◌, some, List, [], ◌∷◌, length, length-set,
  length-replicate, set, replicate, arith, Bool-cases, Option-cases, if◌then◌else◌, ltb, eqb,
}
use mars_protocol.Core.External.{External}
use mars_protocol.Core.Hash.{Hash, hash_eq}
use mars_protocol.Core.Identity.{Identity, node_id}
use mars_protocol.Core.Message.{NodeInfo}
use mars_protocol.Dht.Distance.{xor_distance, bucket_index}
use mars_protocol.Dht.Routing.{
  RoutingTable, KBucket, empty_bucket, num_buckets, new, bucket_at, bucket_for, with_entries,
  add_node, resolve_challenge, remove_node,
}
use mars_protocol.Dht.Routing.Extract.{Unseen}
use mars_protocol.Dht.Routing.Buckets.{
  IsBucket, IsBucket-retain, add_to_bucket-IsBucket, resolve_in_bucket-IsBucket,
}

pub bucket_at-set :
    (bs : List KBucket) (i j : ℕ) (b : KBucket)
    → bucket_at (set bs i b) j ≡ (if eqb i j && ltb i (length bs) then b else bucket_at bs j)
bucket_at-set [] i j b = ground arith
bucket_at-set (c ∷ bs) zero zero b = ground arith
bucket_at-set (c ∷ bs) zero (suc j) b = ground arith
bucket_at-set (c ∷ bs) (suc i) zero b = ground arith
bucket_at-set (c ∷ bs) (suc i) (suc j) b = ground (arith, bucket_at-set bs i j b)

bucket_at-replicate : (n i : ℕ) → bucket_at (replicate n empty_bucket) i ≡ empty_bucket
bucket_at-replicate zero i = refl
bucket_at-replicate (suc n) zero = refl
bucket_at-replicate (suc n) (suc i) = bucket_at-replicate n i

module _ (x : External) where
  -- the node belongs into bucket `i` of a table with this id
  abbrev pub BelongsTo : Hash → ℕ → Identity → Type 0
  BelongsTo local i identity = bucket_index (xor_distance local (node_id x identity)) ≡ some i

  -- 256 buckets; each holds at most 20 nodes, none twice, and only nodes whose distance it stands for.
  pub record IsValid (t : RoutingTable) : Type 0 where
    pub size : length t.buckets ≡ num_buckets
    pub at : (i : ℕ) → IsBucket (BelongsTo t.local_id i) (bucket_at t.buckets i).entries

  with_entries-IsValid :
      (t : RoutingTable) (i : ℕ) (es : List NodeInfo)
      → IsValid t
      → IsBucket (BelongsTo t.local_id i) es
      → IsValid (with_entries t i es)
  with_entries-IsValid t i es v b = record {
    size = omega (arith, v.size, length-set t.buckets i (record { entries = es }));
    at = λ j. elim (Bool-cases (eqb i j && ltb i (length t.buckets))) [
      | inl same ↦
          let e : i ≡ j = ground arith in
          rw (bucket_at-set, same) (subst (λ k. IsBucket (BelongsTo t.local_id k) es) e b)
      | inr other ↦ rw (bucket_at-set, other) (v.at j)
    ];
  }

  -- A new table is valid.
  pub new-IsValid : (local : Hash) → IsValid (new local)
  unfolding new
  new-IsValid local = record {
    size = length-replicate num_buckets empty_bucket;
    at = λ i.
        rw (bucket_at-replicate num_buckets i)
          (record { small = omega arith; placed = tt; distinct = tt });
  }

  -- add_node keeps the routing table valid, whatever its result: 256 buckets of at most 20 nodes,
  -- none twice, each in the bucket of its distance.
  pub add_node-IsValid :
      (t : RoutingTable) (node : NodeInfo) → IsValid t → IsValid (add_node x t node).0
  unfolding add_node bucket_for
  add_node-IsValid t node v =
      elim (Option-cases (bucket_index (xor_distance t.local_id (node_id x node.identity)))) [
        | inl self ↦ rw (self, add_node) v
        | inr (i, here) ↦
            rw (here, add_node)
              (with_entries-IsValid t i _ v
                (add_to_bucket-IsBucket x (BelongsTo t.local_id i) _ node (v.at i) here))
      ]

  -- remove_node keeps the routing table valid.
  pub remove_node-IsValid :
      (t : RoutingTable) (id : Hash) → IsValid t → IsValid (remove_node x t id)
  unfolding remove_node bucket_for
  remove_node-IsValid t id v = elim (Option-cases (bucket_index (xor_distance t.local_id id))) [
    | inl self ↦ rw (self, remove_node) v
    | inr (i, here) ↦
        rw (here, remove_node)
          (with_entries-IsValid t i _ v (IsBucket-retain (BelongsTo t.local_id i) _ _ (v.at i)))
  ]

  -- the candidate stands in no bucket
  abbrev pub IsNew : RoutingTable → Identity → Type 0
  IsNew t identity = (i : ℕ) → Unseen identity (bucket_at t.buckets i).entries

  pub resolve_challenge-IsValid :
      (t : RoutingTable) (lrs_id : Hash) (candidate : NodeInfo) (responded : Bool)
      → IsValid t
      → IsNew t candidate.identity
      → IsValid (resolve_challenge x t lrs_id candidate responded)
  unfolding resolve_challenge bucket_for
  resolve_challenge-IsValid t lrs_id candidate responded v u =
      elim (Option-cases (bucket_index (xor_distance t.local_id (node_id x candidate.identity)))) [
        | inl self ↦ rw (self, resolve_challenge) v
        | inr (i, here) ↦
            rw (here, resolve_challenge)
              (with_entries-IsValid t i _ v (
                resolve_in_bucket-IsBucket x (BelongsTo t.local_id i) _ lrs_id candidate responded
                  (v.at i) here (u i)))
      ]
