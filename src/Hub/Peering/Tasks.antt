-- ===== src/Hub/Peering/Tasks.antt =====
-- The background tasks of mesh-hub/src/peering.rs. Each locks the node and the peers while it uses
-- them, so a task is one step on both. The advertisement is skipped while the peers are locked.
use mars_protocol.Common.{
  ℕ, ◌/◌, Bool, true, false, if◌then◌else◌, Option, none, some, List, [], ◌∷◌, is_empty, nat_eq,
  list_eq, lookup, insert, Result, ok, err, Text, Bytes, codes,
}
use mars_protocol.Core.External.{External}
use mars_protocol.Core.Hash.{Hash, schema_hash}
use mars_protocol.Core.Identity.{Identity, did}
use mars_protocol.Core.RoutingKey.{routing_key}
use mars_protocol.Core.Descriptor.{Descriptor, create}
use mars_protocol.Core.Frame.{Frame, msg_ping, msg_pong, msg_find_value, msg_find_value_result}
use mars_protocol.Core.Message.{NodeAddr}
use mars_protocol.Dht.Node.Interface.{DescriptorStorage}
use mars_protocol.Dht.Node.{DhtNode, handle_store}
use mars_protocol.Dht.Client.{TransportError, body_of, and_decode}
use mars_protocol.Hub.Network.{SocketAddr, validate_outbound_addr}
use mars_protocol.Hub.Peering.{
  HubMetadata, is_disconnected, PeerManager, Network, PeerCodec, fresh_peer,
  discover_peers_from_descriptors, connect_to_peer, gossip_round, health_check,
}

-- the storage of a hub: `inner_mut().skip_rate_limit = ..` and `inner().all_descriptors()`
pub record HubStorage (S : Type 0) : Type 0 where
  pub storage : DescriptorStorage S
  pub set_skip_rate_limit : S → Bool → S
  pub all_descriptors : S → List Descriptor

module _ (x : External) where
  -- mesh-schemas/src/lib.rs
  unfoldable pub schema_hash_infra_hub : Hash
  schema_hash_infra_hub = schema_hash x (codes "infrastructure/hub")

  unfoldable pub routing_key_infrastructure : Hash
  routing_key_infrastructure = routing_key x (codes "infrastructure")

  unfoldable pub routing_key_infrastructure_hub : Hash
  routing_key_infrastructure_hub = routing_key x (codes "infrastructure/hub")

module _ (x : External) (parse : Text → Result Text SocketAddr) {C W : Type 0} (net : Network W C)
    (codec : PeerCodec) where
  -- `now` is the clock in microseconds
  unfoldable pub self_advertisement_descriptor : PeerManager C → ℕ → Option Descriptor
  self_advertisement_descriptor m now = elim (codec.encode_metadata m.hub_metadata) [
    | none ↦ none
    | some payload ↦ some (
        create x m.hub_keypair (schema_hash_infra_hub x) (codes "hub") payload now (now / 1000000)
          3600 (routing_key_infrastructure x ∷ routing_key_infrastructure_hub x ∷ []))
  ]

  -- the loop over the discovered hubs
  unfoldable pub connect_all :
      List (Identity × NodeAddr × HubMetadata) → PeerManager C → W → PeerManager C × W
  connect_all [] m w = (m, w)
  connect_all ((peer, addr, metadata) ∷ discovered) m w =
      let should_connect : Bool = elim (lookup (did x peer) m.peers) [
        | none ↦ true
        | some p ↦ is_disconnected p.status
      ] in
      let (r, m1, w1) = connect_to_peer x parse net codec m w peer addr in
      let tried = connect_all discovered m1 w1 in
      let passed_over = connect_all discovered m w in if should_connect then tried else passed_over

  -- the identity that the answer to the PING gives
  unfoldable pub pong_sender : Result TransportError Frame → Option Identity
  pong_sender resp = elim (and_decode (body_of msg_pong resp) codec.decode_pong) [
    | none ↦ none
    | some pong ↦ some pong.sender
  ]

  -- the descriptors that the answer to the FIND_VALUE gives
  unfoldable pub found_descriptors : Result TransportError Frame → Option (List Descriptor)
  found_descriptors resp =
      elim (and_decode (body_of msg_find_value_result resp) codec.decode_find_value_result) [
        | none ↦ none
        | some result ↦ result.descriptors
      ]

  module _ {S : Type 0} (hub : HubStorage S) where
    unfoldable pub publish_self_advertisement :
        Bool → DhtNode S → PeerManager C → ℕ → ℕ → ℕ → DhtNode S
    unfolding self_advertisement_descriptor
    publish_self_advertisement locked n m created seen now =
        if locked then n else elim (self_advertisement_descriptor m created) [
          | none ↦ n
          | some descriptor ↦
              (handle_store x hub.storage n
                (record {
                  sender = m.hub_identity;
                  sender_addr = m.hub_addr;
                  descriptor = descriptor;
                })
                seen now).1
        ]

    unfoldable pub run_discovery : DhtNode S → PeerManager C → W → DhtNode S × PeerManager C × W
    unfolding connect_all
    run_discovery n m w =
        let (descriptors, store) =
          hub.storage.get_descriptors n.store (routing_key_infrastructure_hub x) none
            (net.now_micros w) in
        let read = record n { store = store } in
        let (m1, w1) =
          connect_all (discover_peers_from_descriptors x parse net codec m descriptors) m w in
        if is_empty descriptors then (read, m, w) else (read, m1, w1)

    unfoldable pub store_each : S → W → List Descriptor → S
    store_each s w [] = s
    store_each s w (desc ∷ ds) =
        store_each (hub.storage.store_descriptor s desc (net.now_micros w)).1 w ds

    -- stored without a rate limit, which is set again behind
    unfoldable pub store_found : DhtNode S → W → Option (List Descriptor) → DhtNode S
    unfolding store_each
    store_found n w none = n
    store_found n w (some ds) = record n {
      store =
          hub.set_skip_rate_limit (store_each (hub.set_skip_rate_limit n.store true) w ds) false;
    }

    -- a seed that answered the PING: its advertisements, and its place among the peers
    unfoldable pub adopt_seed :
        DhtNode S → PeerManager C → W → Text → C → Identity → DhtNode S × PeerManager C × W
    unfolding found_descriptors store_found
    adopt_seed n m w seed connection peer_id =
        let addr : NodeAddr = record { protocol = codes "quic"; address = seed } in
        elim (codec.encode_find_value (record {
          sender = m.hub_identity;
          sender_addr = m.hub_addr;
          key = routing_key_infrastructure_hub x;
          max_results = 50;
          filters = none;
        })) [
          | none ↦ (n, m, w)
          | some find_body ↦
              let (resp, w1) = net.send_request w connection msg_find_value find_body in
              (
                store_found n w1 (found_descriptors resp),
                record m {
                  peers =
                      insert (did x peer_id) (fresh_peer connection addr (net.instant w1)) m.peers;
                },
                w1,
              )
        ]

    -- the connection and the PING of a seed whose address passed the filter
    unfoldable pub contact_seed :
        DhtNode S → PeerManager C → W → Text → SocketAddr → Bytes → DhtNode S × PeerManager C × W
    unfolding pong_sender adopt_seed
    contact_seed n m w seed socket_addr ping_body =
        let (r, w1) = net.connect w socket_addr in
        elim r [
          | err e ↦ (n, m, w1)
          | ok connection ↦
              let (resp, w2) = net.send_request w1 connection msg_ping ping_body in
              elim (pong_sender resp) [
                | none ↦ (n, m, w2)
                | some peer_id ↦ adopt_seed n m w2 seed connection peer_id
              ]
        ]

    -- one round of the loop over the seeds
    unfoldable pub bootstrap_seed :
        DhtNode S → PeerManager C → W → Text → DhtNode S × PeerManager C × W
    unfolding contact_seed
    bootstrap_seed n m w seed =
        elim (codec.encode_ping (record { sender = m.hub_identity; sender_addr = m.hub_addr })) [
          | none ↦ (n, m, w)
          | some ping_body ↦ elim (validate_outbound_addr parse seed m.outbound_allowlist) [
            | err e ↦ (n, m, w)
            | ok socket_addr ↦ contact_seed n m w seed socket_addr ping_body
          ]
        ]

    unfoldable pub bootstrap_from_seeds :
        DhtNode S → PeerManager C → W → List Text → DhtNode S × PeerManager C × W
    unfolding bootstrap_seed
    bootstrap_from_seeds n m w [] = (n, m, w)
    bootstrap_from_seeds n m w (seed ∷ seeds) =
        let (n1, m1, w1) = bootstrap_seed n m w seed in bootstrap_from_seeds n1 m1 w1 seeds

    unfoldable pub run_gossip_round : DhtNode S → PeerManager C → W → PeerManager C × W
    run_gossip_round n m w =
        let descriptors = hub.all_descriptors n.store in
        if is_empty descriptors then (m, w) else gossip_round x parse net codec m w descriptors

    unfoldable pub run_health_check : PeerManager C → W → PeerManager C × W
    run_health_check m w = health_check x parse net codec m w
