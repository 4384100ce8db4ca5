-- ===== src/Dht/Client/Counts.antt =====
-- What `iterative_store` of mesh-dht/src/node.rs reports, whatever the network answers.
use mars_protocol.Common.{
  ℕ, ◌+◌, ◌*◌, ◌≤◌, ◌≡◌, refl, Bool-cases, some, List, [], ◌∷◌, length, length-take, inl, inr, ok,
  Bytes, All, take, arith, ◌==◌,
}
use mars_protocol.Core.External.{External, HashLaws}
use mars_protocol.Core.Hash.{Hash, hash_eq}
use mars_protocol.Core.Identity.{node_id}
use mars_protocol.Core.Descriptor.{Descriptor}
use mars_protocol.Core.Frame.{msg_store, msg_find_node, msg_find_node_result}
use mars_protocol.Core.Message.{NodeInfo, FindNode, Store}
use mars_protocol.Dht.Distance.Metric.{IsKey}
use mars_protocol.Dht.Routing.{closest_nodes, bucket_size, sort_by, nearer_or_equal}
use mars_protocol.Dht.Node.Interface.{DescriptorStorage}
use mars_protocol.Dht.Node.{DhtNode}
use mars_protocol.Dht.Client.{
  World, MessageCodec, and_decode, body_of, after_answer, is_stored, widen, send_stores,
  store_under, iterative_store,
}

-- the messages that a node sends have a CBOR form
pub record Encodes (codec : MessageCodec) : Type 0 where
  pub find_node : (m : FindNode) → (b : Bytes) × (codec.encode_find_node m ≡ some b)
  pub store : (m : Store) → (b : Bytes) × (codec.encode_store m ≡ some b)

module _ (x : External) {S : Type 0} (storage : DescriptorStorage S) {W : Type 0} (world : World W)
    (codec : MessageCodec) where
  send_stores-le :
      (nodes : List NodeInfo) (own : Hash) (body : Bytes) (w : W) (total : ℕ)
      → (send_stores x storage world codec nodes own body w total).0 ≤ total + length nodes
  unfolding send_stores
  send_stores-le [] own body w total = omega arith
  send_stores-le (e ∷ nodes) own body w total = elim (Bool-cases (node_id x e.identity == own)) [
    | inl self ↦ rw self (omega (arith, send_stores-le nodes own body w total))
    | inr other ↦
        let (resp, w1) = world.send_request w e.addr msg_store body in
        rw other (elim (Bool-cases (is_stored x storage world codec resp)) [
          | inl hit ↦ rw hit (omega (arith, send_stores-le nodes own body w1 (total + 1)))
          | inr miss ↦ rw miss (omega (arith, send_stores-le nodes own body w1 total))
        ])
  ]

  module _ (encodes : Encodes codec) where
    widen-ok :
        (nodes : List NodeInfo) (key : Hash) (n : DhtNode S) (w : W) (ts : List NodeInfo)
        → (us : List NodeInfo) × ((widen x storage world codec nodes key n w ts).0 ≡ ok us)
    unfolding widen
    widen-ok [] key n w ts = (ts, refl)
    widen-ok (e ∷ nodes) key n w ts =
        let (body, encoded) =
          encodes.find_node
            (record { sender = n.own_identity; sender_addr = n.addr; target = key }) in
        let (resp, w1) = world.send_request w e.addr msg_find_node body in
        let found = and_decode (body_of msg_find_node_result resp) codec.decode_find_node_result in
        let (targets, m) = after_answer x storage world codec n ts found in
        rw (widen, encoded) (widen-ok nodes key m w1 targets)

    store_under-ok :
        (keys : List Hash) (d : Descriptor) (n : DhtNode S) (w : W) (total : ℕ)
        → (sum : ℕ) × ((store_under x storage world codec keys d n w total).0 ≡ ok sum)
          × (sum ≤ total + 20 * length keys)
    unfolding store_under
    store_under-ok [] d n w total = (total, refl, omega arith)
    store_under-ok (key ∷ keys) d n w total =
        let closest = closest_nodes x n.routing_table key bucket_size in
        let (us, widened) = widen-ok (take n.config.alpha closest) key n w closest in
        let (r, m, w1) =
          widen x storage world codec (take n.config.alpha closest) key n w closest in
        let (body, encoded) =
          encodes.store
            (record { sender = m.own_identity; sender_addr = m.addr; descriptor = d }) in
        let nearest = take bucket_size (sort_by (nearer_or_equal x key) us) in
        let (total1, w2) = send_stores x storage world codec nearest m.own_id body w1 total in
        let (sum, good, few) = store_under-ok keys d m w2 total1 in
        (
          sum,
          rw (store_under, widened, encoded) good,
          omega (
            arith,
            few,
            send_stores-le nearest m.own_id body w1 total,
            length-take bucket_size (sort_by (nearer_or_equal x key) us),
          ),
        )

    -- If the messages have a CBOR form, and the routing keys of the descriptor and all digests of
    -- BLAKE3 have 32 bytes, iterative_store succeeds whatever the network answers, failed
    -- connections and foreign frames included, and reports at most 20 nodes for each routing key.
    pub iterative_store-ok :
        (n : DhtNode S) (w : W) (d : Descriptor)
        → HashLaws x
        → All IsKey d.routing_keys
        → (total : ℕ) × ((iterative_store x storage world codec n w d).0 ≡ ok total)
          × (total ≤ 20 * length d.routing_keys)
    unfolding iterative_store
    iterative_store-ok n w d laws keys =
        let (sum, good, few) = store_under-ok d.routing_keys d n w 0 in
        (sum, rw (iterative_store, good) refl, omega arith)
