-- ===== src/Dht/Client.antt =====
-- The client side of mesh-dht/src/node.rs, over the transport of mesh-dht/src/transport.rs: a node
-- joins the network by its seeds (`bootstrap`) and replicates a descriptor (`iterative_store`). The
-- world outside is a state that each request moves on; it draws the ids of the frames, which are
-- given as type and body, and tells the time. The messages' CBOR form is serde's, so a parameter.
pub mod Keeps
pub mod Counts
use mars_protocol.Common.{
  ℕ, ◌+◌, Bool, true, false, not, ◌&&◌, Option, none, some, List, [], ◌∷◌, ◌++◌, length, any, take,
  if◌then◌else◌, ◌==◌, nat_eq, Result, ok, err, Text, Bytes,
}
use mars_protocol.Core.External.{External}
use mars_protocol.Core.Hash.{Hash, hash_eq}
use mars_protocol.Core.Identity.{node_id}
use mars_protocol.Core.Descriptor.{Descriptor}
use mars_protocol.Core.Frame.{
  Frame, msg_ping, msg_pong, msg_store, msg_store_ack, msg_find_node, msg_find_node_result,
}
use mars_protocol.Core.Message.{
  NodeAddr, NodeInfo, Ping, Pong, Store, FindNode, FindNodeResult, FindValue, FindValueResult,
}
use mars_protocol.Dht.Routing.{add_node, closest_nodes, bucket_size, sort_by, nearer_or_equal}
use mars_protocol.Dht.Node.Interface.{DescriptorStorage}
use mars_protocol.Dht.Node.{DhtNode}

pub data TransportError : Type 0 where
  connection_failed : Text → TransportError
  timeout : TransportError
  frame_error : TransportError
  unreachable : Text → TransportError

-- `Transport`, the random ids and the clock
pub record World (W : Type 0) : Type 0 where
  pub send_request : W → NodeAddr → ℕ → Bytes → Result TransportError Frame × W
  pub now_micros : W → ℕ

-- `to_cbor` and `from_cbor` on the messages that are sent and received here; of an acknowledgement
-- only the field `stored` is read
pub record MessageCodec : Type 0 where
  pub encode_ping : Ping → Option Bytes
  pub encode_find_node : FindNode → Option Bytes
  pub encode_store : Store → Option Bytes
  pub encode_find_value : FindValue → Option Bytes
  pub decode_pong : Bytes → Option Pong
  pub decode_find_node_result : Bytes → Option FindNodeResult
  pub decode_stored : Bytes → Option Bool
  pub decode_find_value_result : Bytes → Option FindValueResult

-- a body, if the request was answered with a frame of the type
abbrev pub body_of : ℕ → Result TransportError Frame → Option Bytes
body_of msg_type (ok f) = if f.msg_type == msg_type then some f.body else none
body_of msg_type (err e) = none

abbrev pub and_decode : {A : Type 0} → Option Bytes → (Bytes → Option A) → Option A
and_decode none decode = none
and_decode (some b) decode = decode b

module _ (x : External) {S : Type 0} (storage : DescriptorStorage S) {W : Type 0} (world : World W)
    (codec : MessageCodec) where
  -- `let _ = self.routing_table.add_node(..)`
  abbrev pub learn : DhtNode S → NodeInfo → DhtNode S
  learn n e = record n { routing_table = (add_node x n.routing_table e).0 }

  unfoldable pub learn_all : DhtNode S → List NodeInfo → DhtNode S
  learn_all n [] = n
  learn_all n (e ∷ es) = learn_all (learn n e) es

  -- what a PONG adds to the table
  abbrev pub after_pong : DhtNode S → NodeAddr → ℕ → Option Pong → ℕ → DhtNode S × ℕ
  after_pong n seed_addr now none discovered = (n, discovered)
  after_pong n seed_addr now (some pong) discovered = (
    learn n (record { identity = pong.sender; addr = seed_addr; last_seen = now }),
    discovered + 1,
  )

  abbrev pub after_nodes : DhtNode S → Option FindNodeResult → ℕ → DhtNode S × ℕ
  after_nodes n none discovered = (n, discovered)
  after_nodes n (some result) discovered =
      (learn_all n result.nodes, discovered + length result.nodes)

  -- the PING of a seed
  unfoldable pub greet : DhtNode S → W → NodeAddr → ℕ → Result TransportError ℕ × DhtNode S × W
  greet n w seed_addr discovered =
      elim (codec.encode_ping (record { sender = n.own_identity; sender_addr = n.addr })) [
        | none ↦ (err frame_error, n, w)
        | some ping_body ↦
            let (pong_resp, w1) = world.send_request w seed_addr msg_ping ping_body in
            let (n1, d1) =
              after_pong n seed_addr (world.now_micros w1)
                (and_decode (body_of msg_pong pong_resp) codec.decode_pong) discovered in
            (ok d1, n1, w1)
      ]

  -- the FIND_NODE for the node's own id
  unfoldable pub ask : DhtNode S → W → NodeAddr → ℕ → Result TransportError ℕ × DhtNode S × W
  unfolding learn_all
  ask n w seed_addr discovered =
      elim (codec.encode_find_node
        (record { sender = n.own_identity; sender_addr = n.addr; target = n.own_id })) [
          | none ↦ (err frame_error, n, w)
          | some body ↦
              let (resp, w1) = world.send_request w seed_addr msg_find_node body in
              let (n1, d1) =
                after_nodes n
                  (and_decode (body_of msg_find_node_result resp) codec.decode_find_node_result)
                  discovered in
              (ok d1, n1, w1)
        ]

  unfoldable pub bootstrap_from :
      List NodeAddr → DhtNode S → W → ℕ → Result TransportError ℕ × DhtNode S × W
  unfolding greet ask
  bootstrap_from [] n w discovered = (ok discovered, n, w)
  bootstrap_from (seed_addr ∷ seeds) n w discovered =
      let (greeted, n1, w1) = greet n w seed_addr discovered in
      elim greeted [
        | err e ↦ (err e, n1, w1)
        | ok d1 ↦
            let (asked, n2, w2) = ask n1 w1 seed_addr d1 in
            elim asked [ err e ↦ (err e, n2, w2) | ok d2 ↦ bootstrap_from seeds n2 w2 d2 ]
      ]

  unfoldable pub bootstrap : DhtNode S → W → List NodeAddr → Result TransportError ℕ × DhtNode S × W
  unfolding bootstrap_from
  bootstrap n w seeds = bootstrap_from seeds n w 0

  -- the targets with the nodes of an answer, each id once
  unfoldable pub merge_targets : List NodeInfo → List NodeInfo → List NodeInfo
  merge_targets targets [] = targets
  merge_targets targets (e ∷ es) =
      merge_targets
        (if any (λ t. node_id x t.identity == node_id x e.identity) targets
          then targets
          else targets ++ e ∷ [])
        es

  abbrev pub after_answer :
      DhtNode S → List NodeInfo → Option FindNodeResult → List NodeInfo × DhtNode S
  after_answer n targets none = (targets, n)
  after_answer n targets (some result) =
      (merge_targets targets result.nodes, learn_all n result.nodes)

  -- the FIND_NODE round of `iterative_store`
  unfoldable pub widen :
      List NodeInfo
      → Hash
      → DhtNode S
      → W
      → List NodeInfo
      → Result TransportError (List NodeInfo) × DhtNode S × W
  unfolding merge_targets learn_all
  widen [] routing_key n w targets = (ok targets, n, w)
  widen (node ∷ nodes) routing_key n w targets =
      elim (codec.encode_find_node
        (record { sender = n.own_identity; sender_addr = n.addr; target = routing_key })) [
          | none ↦ (err frame_error, n, w)
          | some body ↦
              let (resp, w1) = world.send_request w node.addr msg_find_node body in
              let (targets1, n1) =
                after_answer n targets
                  (and_decode (body_of msg_find_node_result resp) codec.decode_find_node_result) in
              widen nodes routing_key n1 w1 targets1
        ]

  -- whether a STORE was acknowledged as stored
  abbrev pub is_stored : Result TransportError Frame → Bool
  is_stored resp = elim (and_decode (body_of msg_store_ack resp) codec.decode_stored) [
    | none ↦ false
    | some b ↦ b
  ]

  -- the STOREs to the targets but the node itself
  unfoldable pub send_stores : List NodeInfo → Hash → Bytes → W → ℕ → ℕ × W
  send_stores [] own_id store_body w total_stored = (total_stored, w)
  send_stores (node ∷ nodes) own_id store_body w total_stored =
      let (resp, w1) = world.send_request w node.addr msg_store store_body in
      let sent =
        send_stores nodes own_id store_body w1
          (if is_stored resp then total_stored + 1 else total_stored) in
      let skipped = send_stores nodes own_id store_body w total_stored in
      if node_id x node.identity == own_id then skipped else sent

  -- the loop over the routing keys
  unfoldable pub store_under :
      List Hash → Descriptor → DhtNode S → W → ℕ → Result TransportError ℕ × DhtNode S × W
  unfolding widen send_stores
  store_under [] descriptor n w total_stored = (ok total_stored, n, w)
  store_under (routing_key ∷ keys) descriptor n w total_stored =
      let closest = closest_nodes x n.routing_table routing_key bucket_size in
      let (widened, n1, w1) = widen (take n.config.alpha closest) routing_key n w closest in
      elim widened [
        | err e ↦ (err e, n1, w1)
        | ok targets ↦
            let nearest = take bucket_size (sort_by (nearer_or_equal x routing_key) targets) in
            elim (codec.encode_store (record {
              sender = n1.own_identity;
              sender_addr = n1.addr;
              descriptor = descriptor;
            })) [
              | none ↦ (err frame_error, n1, w1)
              | some store_body ↦
                  let (total, w2) = send_stores nearest n1.own_id store_body w1 total_stored in
                  store_under keys descriptor n1 w2 total
            ]
      ]

  -- replicated first, and stored locally whatever the storage says of it
  unfoldable pub iterative_store :
      DhtNode S → W → Descriptor → Result TransportError ℕ × DhtNode S × W
  unfolding store_under
  iterative_store n w descriptor =
      let (result, n1, w1) = store_under descriptor.routing_keys descriptor n w 0 in
      elim result [
        | err e ↦ (err e, n1, w1)
        | ok total ↦ (
          ok total,
          record n1 {
            store = (storage.store_descriptor n1.store descriptor (world.now_micros w1)).1;
          },
          w1,
        )
      ]
