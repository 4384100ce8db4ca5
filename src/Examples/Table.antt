-- ===== src/Examples/Table.antt =====
-- Examples on distances and the routing table of mesh-dht.
use mars_protocol.Common.{
  ℕ, zero, suc, ◌+◌, ◌^◌, ◌≤◌, ◌<◌, ◌≡◌, ◌⊎◌, refl, none, some, [], ◌∷◌, replicate, All, IsByte,
  arith, Bytes, codes, list_beq,
}
use mars_protocol.Core.Hash.{Hash, hash_eq}
use mars_protocol.Core.Identity.{node_id, identity_beq}
use mars_protocol.Core.Message.{NodeInfo}
use mars_protocol.Dht.Distance.{bucket_index, xor_distance}
use mars_protocol.Dht.Distance.Metric.{IsKey}
use mars_protocol.Dht.Distance.Value.{be_value}
use mars_protocol.Dht.Distance.Buckets.{bucket_index_range}
use mars_protocol.Dht.Routing
use mars_protocol.Dht.Routing.{
  RoutingTable, add_node, remove_node, resolve_challenge, closest_nodes, bucket_full, bucket_for,
  bucket_at, bucket_size,
}
use mars_protocol.Dht.Routing.Invariant
use mars_protocol.Dht.Routing.Invariant.{add_node-IsValid, remove_node-IsValid}
use mars_protocol.Dht.Routing.Closest.{AreClosest, closest_nodes-AreClosest}
use mars_protocol.Examples.Primitives.{sample, sample-HashLaws, pad, key_a, noon}

abbrev key_b : Hash
key_b = record { algorithm = 3; digest = pad 32 (codes "data") }

pub key_a-IsKey : IsKey key_a
key_a-IsKey = record { size = refl; in_range = ground arith }

key_b-IsKey : IsKey key_b
key_b-IsKey = record { size = refl; in_range = ground arith }

-- a distance with its highest bit at 2 ^ 242
abbrev some_distance : Bytes
some_distance = 0 ∷ 5 ∷ replicate 30 7

some_distance-IsByte : All IsByte some_distance
some_distance-IsByte = ground arith

abbrev named : ℕ → NodeInfo
named i = record {
  identity = record { algorithm = 1; public_key = pad 32 (128 ∷ i ∷ []) };
  addr = record { protocol = codes "quic"; address = i ∷ [] };
  last_seen = noon;
}

abbrev home : Hash
home = record { algorithm = 3; digest = replicate 32 0 }

-- n nodes of the farthest bucket, the least recently seen with number 0
abbrev filled : ℕ → RoutingTable
filled zero = Routing.new home
filled (suc n) = (add_node sample (filled n) (named n)).0

filled-IsValid : (n : ℕ) → Invariant.IsValid sample (filled n)
filled-IsValid zero = Invariant.new-IsValid sample home
filled-IsValid (suc n) = add_node-IsValid sample (filled n) (named n) (filled-IsValid n)

add_node-IsValid_example : Invariant.IsValid sample (add_node sample (filled 2) (named 1)).0
add_node-IsValid_example = add_node-IsValid sample (filled 2) (named 1) (filled-IsValid 2)

closest_nodes-AreClosest_example :
    AreClosest sample sample-HashLaws (filled 3) key_a 2 (closest_nodes sample (filled 3) key_a 2)
closest_nodes-AreClosest_example =
    closest_nodes-AreClosest sample sample-HashLaws (filled 3) key_a 2 key_a-IsKey

full_answer : (add_node sample (filled 20) (named 20)).1 ≡ bucket_full (named 0) (named 20)
unfolding add_node bucket_for bucket_index xor_distance Routing.new node_id Routing.add_to_bucket
    identity_beq list_beq
full_answer = refl

bucket_index_range_example :
    ((bucket_index some_distance ≡ none) × (be_value some_distance ≡ 0))
    ⊎ ((i : ℕ) × (bucket_index some_distance ≡ some i)
        × (i < 256)
        × (2 ^ i ≤ be_value some_distance)
        × (be_value some_distance < 2 ^ (i + 1)))
bucket_index_range_example = bucket_index_range some_distance refl some_distance-IsByte
