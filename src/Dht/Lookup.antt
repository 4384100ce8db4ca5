-- ===== src/Dht/Lookup.antt =====
-- `lookup_value` of mesh-dht/src/node.rs: the iterative search of the network for the descriptors
-- under a key. The loop asks the nearest nodes that it has not asked; its rounds are bounded by fuel,
-- and `none` means that the fuel ran out.
pub mod Digests
pub mod Ends
pub mod Keeps
pub mod Answers
use mars_protocol.Common.{
  ℕ, zero, suc, Bool, true, false, not, ◌&&◌, Option, none, some, List, [], ◌∷◌, ◌++◌, length,
  is_empty, any, retain, take, if◌then◌else◌, leb, ◌==◌, nat_eq, Result, ok, err, Bytes,
}
use mathlib.Core.Option
use mars_protocol.Core.External.{External}
use mars_protocol.Core.Hash.{Hash, hash_eq}
use mars_protocol.Core.Identity.{node_id}
use mars_protocol.Core.Descriptor.{Descriptor}
use mars_protocol.Core.Frame.{Frame, msg_find_value, msg_find_value_result}
use mars_protocol.Core.Message.{NodeInfo, FindValue, FindValueResult}
use mars_protocol.Dht.Routing.{closest_nodes, all_nodes, bucket_size, sort_by, nearer_or_equal}
use mars_protocol.Dht.Node.Interface.{DescriptorStorage}
use mars_protocol.Dht.Node.{DhtNode}
use mars_protocol.Dht.Client.{
  TransportError, frame_error, World, MessageCodec, body_of, and_decode, learn_all,
}

-- what the loop has gathered: the ids that it asked, the descriptors, and the new nodes of a round
pub record Round : Type 0 where
  pub queried : List Hash
  pub collected : List Descriptor
  pub new_nodes : List NodeInfo

-- the parts of an answer, if there is one
abbrev pub found_descriptors : Option FindValueResult → List Descriptor
found_descriptors none = []
found_descriptors (some result) = elim result.descriptors [ none ↦ [] | some ds ↦ ds ]

abbrev pub found_nodes : Option FindValueResult → List NodeInfo
found_nodes none = []
found_nodes (some result) = elim result.nodes [ none ↦ [] | some es ↦ es ]

-- the id is noted before the node is asked
abbrev pub gather : Round → Hash → Option FindValueResult → Round
gather r id result = record {
  queried = r.queried ++ id ∷ [];
  collected = r.collected ++ found_descriptors result;
  new_nodes = r.new_nodes ++ found_nodes result;
}

module _ (x : External) {S : Type 0} (storage : DescriptorStorage S) {W : Type 0} (world : World W)
    (codec : MessageCodec) where
  abbrev pub request_of : DhtNode S → Hash → FindValue
  request_of n key = record {
    sender = n.own_identity;
    sender_addr = n.addr;
    key = key;
    max_results = n.config.max_find_value_results;
    filters = none;
  }

  -- what a response says, if it is one that can be read
  abbrev pub read_result : Result TransportError Frame → Option FindValueResult
  read_result resp = and_decode (body_of msg_find_value_result resp) codec.decode_find_value_result

  -- the inner loop: the nodes of one round
  unfoldable pub query_all :
      List NodeInfo → Hash → DhtNode S → W → Round → Result TransportError Round × DhtNode S × W
  query_all [] key n w r = (ok r, n, w)
  query_all (node ∷ nodes) key n w r = elim (codec.encode_find_value (request_of n key)) [
    | none ↦ (err frame_error, n, w)
    | some body ↦
        let (resp, w1) = world.send_request w node.addr msg_find_value body in
        let result = read_result resp in
        query_all nodes key (learn_all x storage world codec n (found_nodes result)) w1
          (gather r (node_id x node.identity) result)
  ]

  -- the next nodes to ask
  unfoldable pub unqueried : List Hash → List NodeInfo → List NodeInfo
  unqueried queried candidates =
      retain (λ e. not (any (λ id. id == node_id x e.identity) queried)) candidates

  -- the candidates for the next round
  abbrev pub merge_candidates : Hash → List NodeInfo → List NodeInfo → List NodeInfo
  merge_candidates key candidates new_nodes =
      take bucket_size (sort_by (nearer_or_equal x key) (candidates ++ new_nodes))

  unfoldable pub lookup_from :
      ℕ
      → Hash
      → DhtNode S
      → W
      → Round
      → List NodeInfo
      → Option (Result TransportError (List Descriptor) × DhtNode S × W)
  lookup_from zero key n w r candidates = none
  lookup_from (suc fuel) key n w r candidates =
      elim (take n.config.alpha (unqueried r.queried candidates)) [
        | [] ↦ some (ok r.collected, n, w)
        | node ∷ nodes ↦
            let (asked, n1, w1) = query_all (node ∷ nodes) key n w (record r { new_nodes = [] }) in
            elim asked [
              | err e ↦ some (err e, n1, w1)
              | ok r1 ↦
                  let rest =
                    lookup_from fuel key n1 w1 r1 (merge_candidates key candidates r1.new_nodes) in
                  if is_empty r1.new_nodes && is_empty r1.collected
                  then some (ok r1.collected, n1, w1)
                  else if not (is_empty r1.collected)
                  then some (ok r1.collected, n1, w1)
                  else rest
            ]
      ]

  -- the fallback of a small network: every known node in turn, until one has descriptors
  unfoldable pub broadcast :
      List NodeInfo → Hash → DhtNode S → W → Result TransportError (List Descriptor) × DhtNode S × W
  broadcast [] key n w = (ok [], n, w)
  broadcast (node ∷ nodes) key n w = elim (codec.encode_find_value (request_of n key)) [
    | none ↦ (err frame_error, n, w)
    | some body ↦
        let (resp, w1) = world.send_request w node.addr msg_find_value body in
        let rest = broadcast nodes key n w1 in
        let found = found_descriptors (read_result resp) in
        if not (is_empty found) then (ok found, n, w1) else rest
  ]

  abbrev pub after_loop :
      Hash
      → Result TransportError (List Descriptor) × DhtNode S × W
      → Result TransportError (List Descriptor) × DhtNode S × W
  after_loop key (err e, n, w) = (err e, n, w)
  after_loop key (ok collected, n, w) =
      let nodes = all_nodes n.routing_table in
      if is_empty collected && leb (length nodes) bucket_size
      then broadcast nodes key n w
      else (ok collected, n, w)

  unfoldable pub lookup_value :
      ℕ → DhtNode S → W → Hash → Option (Result TransportError (List Descriptor) × DhtNode S × W)
  unfolding lookup_from broadcast
  lookup_value fuel n w key = Option.map (after_loop key) (
      lookup_from fuel key n w (record { queried = []; collected = []; new_nodes = [] })
        (closest_nodes x n.routing_table key n.config.alpha))
