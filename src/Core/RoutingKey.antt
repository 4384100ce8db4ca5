-- ===== src/Core/RoutingKey.antt =====
-- mesh-core/src/routing.rs: routing keys of capability paths.
pub mod Ancestors
use mars_protocol.Common.{
  ℕ, zero, suc, ◌+◌, ◌≡◌, List, [], ◌∷◌, ◌++◌, arith, Text, codes, nat_eq, ◌==◌, length, take, map,
  if◌then◌else◌,
}
use mars_protocol.Core.External.{External}
use mars_protocol.Core.Hash.{Hash, blake3}

-- `str::split('/')`: the parts between the separators, `cur` being the part that is being read.
unfoldable pub split_from : Text → Text → List Text
split_from cur [] = cur ∷ []
split_from cur (c ∷ s) =
    let next = split_from [] s in
    let more = split_from (cur ++ c ∷ []) s in if c == b'/' then cur ∷ next else more

unfoldable pub split : Text → List Text
unfolding split_from
split s = split_from [] s

-- `[&str]::join("/")`
unfoldable pub join : List Text → Text
join [] = []
join (p ∷ []) = p
join (p ∷ q ∷ ps) = p ++ b'/' ∷ join (q ∷ ps)

module _ (x : External) where
  unfoldable pub routing_key : Text → Hash
  routing_key type_string = blake3 x (codes "mesh:route:" ++ type_string)

  -- the loop over `0..parts.len()`: `i` parts are done, `n` remain
  unfoldable pub keys_from : List Text → ℕ → ℕ → List Hash
  keys_from parts i zero = []
  keys_from parts i (suc n) = routing_key (join (take (suc i) parts)) ∷ keys_from parts (suc i) n

  unfoldable pub hierarchical_routing_keys : Text → List Hash
  unfolding split keys_from join
  hierarchical_routing_keys type_path =
      let parts = split type_path in keys_from parts 0 (length parts)
