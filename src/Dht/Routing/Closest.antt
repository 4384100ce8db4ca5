-- ===== src/Dht/Routing/Closest.antt =====
-- `closest_nodes` returns the nearest nodes, nearest first.
use mathlib.Core.List.{Perm}
use mathlib.Core.List.Perm
use mathlib.Core.Path.{fun_ext}
use mars_protocol.Common.{
  ℕ, zero, suc, ◌+◌, ◌≤◌, min, ◌≡◌, refl, Bool, List, [], ◌∷◌, ◌++◌, length, length-append,
  length-take, All-take, All-drop, take, drop, take-append-drop, All, arith, Bool-cases, inl, inr,
  leb,
}
use mars_protocol.Core.External.{External, HashLaws}
use mars_protocol.Core.Hash.{Hash, blake3}
use mars_protocol.Core.Identity.{Identity, node_id}
use mars_protocol.Core.Message.{NodeInfo}
use mars_protocol.Dht.Distance.Metric.{IsKey, distance, distance_cmp-distance}
use mars_protocol.Dht.Routing.{
  RoutingTable, KBucket, insert_sorted, sort_by, nearer_or_equal, closest_nodes, all_nodes,
  all_entries, len, sum_lengths,
}

module _ {ℓ} {A : Type ℓ} (f : A → ℕ) where
  abbrev pub Sorted : List A → Type 0
  Sorted [] = Unit {0}
  Sorted (a ∷ as_) = All (λ b. f a ≤ f b) as_ × Sorted as_

  abbrev by_key : A → A → Bool
  by_key a b = leb (f a) (f b)

  insert_sorted-perm : (a : A) (as_ : List A) → Perm (insert_sorted by_key a as_) (a ∷ as_)
  unfolding insert_sorted
  insert_sorted-perm a [] = Perm.refl _
  insert_sorted-perm a (b ∷ bs) = elim (Bool-cases (by_key a b)) [
    | inl le ↦ rw le (Perm.refl _)
    | inr gt ↦ rw gt (Perm.trans (Perm.cons b (insert_sorted-perm a bs)) (Perm.swap _ _ _))
  ]

  pub sort_by-perm : (as_ : List A) → Perm (sort_by by_key as_) as_
  unfolding sort_by
  sort_by-perm [] = Perm.refl _
  sort_by-perm (a ∷ as_) =
      Perm.trans (insert_sorted-perm a (sort_by by_key as_)) (Perm.cons a (sort_by-perm as_))

  All-insert_sorted :
      (P : A → Type 0) (a : A) (as_ : List A) → P a → All P as_ → All P (insert_sorted by_key a as_)
  unfolding insert_sorted
  All-insert_sorted P a [] p h = (p, tt)
  All-insert_sorted P a (b ∷ bs) p h = elim (Bool-cases (by_key a b)) [
    | inl le ↦ rw le (p, h)
    | inr gt ↦ rw gt (h.0, All-insert_sorted P a bs p h.1)
  ]

  All-le : (m n : ℕ) (as_ : List A) → m ≤ n → All (λ b. n ≤ f b) as_ → All (λ b. m ≤ f b) as_
  All-le m n [] h k = tt
  All-le m n (b ∷ bs) h k = (omega (arith, k.0), All-le m n bs h k.1)

  insert_sorted-Sorted : (a : A) (as_ : List A) → Sorted as_ → Sorted (insert_sorted by_key a as_)
  unfolding insert_sorted
  insert_sorted-Sorted a [] s = (tt, tt)
  insert_sorted-Sorted a (b ∷ bs) s = elim (Bool-cases (by_key a b)) [
    | inl le ↦ let h : f a ≤ f b = ground arith in rw le ((h, All-le (f a) (f b) bs h s.0), s)
    | inr gt ↦
        rw gt (
          All-insert_sorted (λ c. f b ≤ f c) a bs (ground arith) s.0,
          insert_sorted-Sorted a bs s.1,
        )
  ]

  pub sort_by-Sorted : (as_ : List A) → Sorted (sort_by by_key as_)
  unfolding sort_by
  sort_by-Sorted [] = tt
  sort_by-Sorted (a ∷ as_) = insert_sorted-Sorted a _ (sort_by-Sorted as_)

  length-insert_sorted :
      (a : A) (as_ : List A) → length (insert_sorted by_key a as_) ≡ length as_ + 1
  unfolding insert_sorted
  length-insert_sorted a [] = omega arith
  length-insert_sorted a (b ∷ bs) = ground (arith, length-insert_sorted a bs)

  pub length-sort_by : (as_ : List A) → length (sort_by by_key as_) ≡ length as_
  unfolding sort_by
  length-sort_by [] = refl
  length-sort_by (a ∷ as_) =
      omega (arith, length-insert_sorted a (sort_by by_key as_), length-sort_by as_)

  -- The front of a sorted list is sorted, and lies below the rest.
  pub Sorted-take :
      (n : ℕ) (as_ : List A)
      → Sorted as_
      → Sorted (take n as_) × All (λ a. All (λ b. f a ≤ f b) (drop n as_)) (take n as_)
  Sorted-take zero as_ s = (tt, tt)
  Sorted-take (suc n) [] s = (tt, tt)
  Sorted-take (suc n) (a ∷ as_) s =
      let (front, below) = Sorted-take n as_ s.1 in
      ((All-take (λ b. f a ≤ f b) n as_ s.0, front), (All-drop (λ b. f a ≤ f b) n as_ s.0, below))

length-all_entries : (bs : List KBucket) → length (all_entries bs) ≡ sum_lengths bs
unfolding all_entries sum_lengths
length-all_entries [] = refl
length-all_entries (b ∷ bs) =
    omega (arith, length-append b.entries (all_entries bs), length-all_entries bs)

module _ (x : External) (laws : HashLaws x) where
  node_id-IsKey : (i : Identity) → IsKey (node_id x i)
  unfolding node_id blake3
  node_id-IsKey i = record {
    size = laws.length-blake3 i.public_key;
    in_range = laws.blake3-IsByte i.public_key;
  }

  -- the distance of a node from a target
  abbrev pub node_distance : Hash → NodeInfo → ℕ
  node_distance target e = distance target (node_id x e.identity)

  nearer_or_equal-leb :
      (target : Hash) (a b : NodeInfo)
      → IsKey target
      → nearer_or_equal x target a b ≡ leb (node_distance target a) (node_distance target b)
  nearer_or_equal-leb target a b k =
      ground (arith, distance_cmp-distance k (node_id-IsKey a.identity) (node_id-IsKey b.identity))

  -- what a list of nearest nodes is: in order of distance, as many as were asked for if there are so
  -- many, and none left out that is nearer than one of them
  pub record AreClosest (t : RoutingTable) (target : Hash) (count : ℕ) (r : List NodeInfo)
      : Type 0 where
    pub sorted : Sorted (node_distance target) r
    pub size : length r ≡ min count (len t)
    pub left : List NodeInfo
    pub whole : Perm (r ++ left) (all_nodes t)
    pub nearest : All (λ a. All (λ b. node_distance target a ≤ node_distance target b) left) r

  -- For a target of 32 bytes closest_nodes returns the nodes of the table that are nearest to it,
  -- nearest first, as many as are asked for if there are so many.
  pub closest_nodes-AreClosest :
      (t : RoutingTable) (target : Hash) (count : ℕ)
      → IsKey target
      → AreClosest t target count (closest_nodes x t target count)
  unfolding closest_nodes all_nodes len
  closest_nodes-AreClosest t target count k =
      let f = node_distance target in
      let nodes = all_entries t.buckets in
      let order : nearer_or_equal x target ≡ by_key f =
        fun_ext (λ a. fun_ext (λ b. nearer_or_equal-leb target a b k)) in
      let s = sort_by (by_key f) nodes in
      let (front, below) = Sorted-take f count s (sort_by-Sorted f nodes) in
      rw order (record {
        sorted = front;
        size =
            omega
              (arith, length-take count s, length-sort_by f nodes, length-all_entries t.buckets);
        left = drop count s;
        whole = rw (take-append-drop count s) (sort_by-perm f nodes);
        nearest = below;
      })
