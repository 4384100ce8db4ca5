-- ===== src/Dht/Routing.antt =====
-- mesh-dht/src/routing.rs: the routing table, 256 buckets of at most 20 nodes, the least recently
-- seen first. The hash of a public key decides the bucket. An index is below 256 and a table has
-- 256 buckets, so that the panics of `self.buckets[idx]` are never met (Dht/Routing/Invariant).
pub mod Extract
pub mod Buckets
pub mod Invariant
pub mod Closest
pub mod Challenge
use Prim.Native.Nat.{Ordering}
use mars_protocol.Common.{
  ℕ, zero, suc, ◌+◌, Bool, true, false, not, Option, none, some, List, [], ◌∷◌, ◌++◌, length,
  get_elem?, set, replicate, retain, take, map, if◌then◌else◌, ltb, eqb, ◌==◌,
}
use mars_protocol.Core.External.{External}
use mars_protocol.Core.Hash.{Hash, hash_eq}
use mars_protocol.Core.Identity.{Identity, identity_eq, node_id}
use mars_protocol.Core.Message.{NodeInfo}
use mars_protocol.Dht.Distance.{xor_distance, bucket_index, distance_cmp}

pub data AddNodeResult : Type 0 where
  added : AddNodeResult
  updated : AddNodeResult
  bucket_full : NodeInfo → NodeInfo → AddNodeResult

-- `K`
abbrev pub bucket_size : ℕ
bucket_size = 20

abbrev pub num_buckets : ℕ
num_buckets = 256

pub record KBucket : Type 0 where
  pub entries : List NodeInfo

abbrev pub empty_bucket : KBucket
empty_bucket = record { entries = [] }

pub record RoutingTable : Type 0 where
  pub local_id : Hash
  pub buckets : List KBucket

-- `RoutingTable::new`
unfoldable pub new : Hash → RoutingTable
new local_id = record { local_id = local_id; buckets = replicate num_buckets empty_bucket }

unfoldable pub bucket_for : RoutingTable → Hash → Option ℕ
bucket_for t node_id = bucket_index (xor_distance t.local_id node_id)

-- `self.buckets[index]`
abbrev pub bucket_at : List KBucket → ℕ → KBucket
bucket_at [] i = empty_bucket
bucket_at (b ∷ bs) zero = b
bucket_at (b ∷ bs) (suc i) = bucket_at bs i

unfoldable pub bucket : RoutingTable → ℕ → KBucket
bucket t index = bucket_at t.buckets index

-- a write of the entries of one bucket
abbrev pub with_entries : RoutingTable → ℕ → List NodeInfo → RoutingTable
with_entries t idx entries = record t { buckets = set t.buckets idx (record { entries = entries }) }

-- `iter().position(test)` and the `remove(pos)` of it: the first element that passes, and the rest
unfoldable pub extract {ℓ} : {A : Type ℓ} → (A → Bool) → List A → Option (A × List A)
extract test [] = none
extract test (e ∷ es) =
    let later = extract test es in
    if test e
    then some (e, es)
    else elim later [ none ↦ none | some (f, rest) ↦ some (f, e ∷ rest) ]

-- The result at a full bucket; `entries[0]` of an empty one is never read.
abbrev challenge : List NodeInfo → NodeInfo → AddNodeResult
challenge [] candidate = added
challenge (lrs ∷ _) candidate = bucket_full lrs candidate

module _ (x : External) where
  -- the entries of a bucket after `add_node`, and the result
  unfoldable pub add_to_bucket : List NodeInfo → NodeInfo → List NodeInfo × AddNodeResult
  unfolding extract
  add_to_bucket entries node = elim (extract (λ e. e.identity == node.identity) entries) [
    | some (_, rest) ↦ (rest ++ node ∷ [], updated)
    | none ↦
        if ltb (length entries) bucket_size
        then (entries ++ node ∷ [], added)
        else (entries, challenge entries node)
  ]

  unfoldable pub add_node : RoutingTable → NodeInfo → RoutingTable × AddNodeResult
  unfolding bucket_for
  add_node t node = elim (bucket_for t (node_id x node.identity)) [
    | none ↦ (t, added)
    | some idx ↦
        let (entries, result) = add_to_bucket (bucket_at t.buckets idx).entries node in
        (with_entries t idx entries, result)
  ]

  -- the entries of a bucket after a challenge was answered, or not
  unfoldable pub resolve_in_bucket : List NodeInfo → Hash → NodeInfo → Bool → List NodeInfo
  unfolding extract
  resolve_in_bucket entries lrs_id candidate true =
      elim (extract (λ e. node_id x e.identity == lrs_id) entries) [
        | none ↦ entries
        | some (lrs_node, rest) ↦ rest ++ lrs_node ∷ []
      ]
  resolve_in_bucket entries lrs_id candidate false =
      let kept = retain (λ e. not (node_id x e.identity == lrs_id)) entries in
      if ltb (length kept) bucket_size then kept ++ candidate ∷ [] else kept

  unfoldable pub resolve_challenge : RoutingTable → Hash → NodeInfo → Bool → RoutingTable
  unfolding bucket_for
  resolve_challenge t lrs_id candidate lrs_responded =
      elim (bucket_for t (node_id x candidate.identity)) [
        | none ↦ t
        | some idx ↦
            with_entries t idx
              (resolve_in_bucket (bucket_at t.buckets idx).entries lrs_id candidate lrs_responded)
      ]

  unfoldable pub remove_node : RoutingTable → Hash → RoutingTable
  unfolding bucket_for
  remove_node t id = elim (bucket_for t id) [
    | none ↦ t
    | some idx ↦
        with_entries t idx
          (retain (λ e. not (node_id x e.identity == id)) (bucket_at t.buckets idx).entries)
  ]

  -- the comparison that `closest_nodes` sorts by
  abbrev pub nearer_or_equal : Hash → NodeInfo → NodeInfo → Bool
  nearer_or_equal target a b =
      elim (distance_cmp target (node_id x a.identity) (node_id x b.identity)) [
        | Ordering.gt ↦ false
        | _ ↦ true
      ]

-- `buckets.iter().flat_map(|b| b.entries.iter())`
unfoldable pub all_entries : List KBucket → List NodeInfo
all_entries [] = []
all_entries (b ∷ bs) = b.entries ++ all_entries bs

unfoldable pub all_nodes : RoutingTable → List NodeInfo
all_nodes t = all_entries t.buckets

-- `len`: the sum of the buckets' lengths
unfoldable pub sum_lengths : List KBucket → ℕ
sum_lengths [] = 0
sum_lengths (b ∷ bs) = length b.entries + sum_lengths bs

unfoldable pub len : RoutingTable → ℕ
len t = sum_lengths t.buckets

unfoldable pub is_empty_table : RoutingTable → Bool
unfolding len
is_empty_table t = eqb (len t) 0

-- `slice::sort_by`, a stable sort, by insertion
module _ {ℓ} {A : Type ℓ} (le : A → A → Bool) where
  unfoldable pub insert_sorted : A → List A → List A
  insert_sorted a [] = a ∷ []
  insert_sorted a (b ∷ bs) =
      let rest = insert_sorted a bs in if le a b then a ∷ b ∷ bs else b ∷ rest

  unfoldable pub sort_by : List A → List A
  unfolding insert_sorted
  sort_by [] = []
  sort_by (a ∷ as_) = insert_sorted a (sort_by as_)

module _ (x : External) where
  unfoldable pub closest_nodes : RoutingTable → Hash → ℕ → List NodeInfo
  unfolding all_nodes
  closest_nodes t target count = take count (sort_by (nearer_or_equal x target) (all_nodes t))
