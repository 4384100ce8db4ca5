-- ===== src/Examples/Peers.antt =====
-- Examples on the outbound filter and the peering of mesh-hub.
use mars_protocol.Common.{
  ℕ, ◌+◌, ◌≤◌, ◌≡◌, ◌↔◌, ◌⊎◌, refl, true, false, none, some, [], ◌∷◌, Elem, arith, lookup, list_beq,
  list_eq, nat_eq, map_values, AllEntries, Result, ok, err, Text, codes,
}
use mars_protocol.Core.Identity.{identity}
use mars_protocol.Dht.Storage.{DescriptorStore}
use mars_protocol.Dht.Client.{timeout}
use mars_protocol.Hub.Network.{Ipv4Addr, v4, v6, SocketAddr, validate_outbound_addr}
use mars_protocol.Hub.Network.Blocks.{IsReserved}
use mars_protocol.Hub.Network.Filter.{
  to_ipv6_mapped, validate_outbound_addr_iff, validate_outbound_addr-mapped,
}
use mars_protocol.Hub.Peering
use mars_protocol.Hub.Peering.{
  HubMetadata, PeerState, PeerManager, Network, PeerCodec, fresh_peer, connected_peer_count,
  is_connected, is_disconnected, endpoint_to_node_addr, strip_prefix, connect_to_peer, gossip_round,
  health_check, discover_peers_from_descriptors,
}
use mars_protocol.Hub.Peering.Tasks.{HubStorage, run_health_check}
use mars_protocol.Hub.Peering.Valid.{PeersAreValid, fresh_peer-PeerIsValid}
use mars_protocol.Hub.Peering.Reach.{started, later, checks, PeersReach-PeersAreValid}
use mars_protocol.Hub.Peering.Gossip.{uncounted, gossip_round-changes}
use mars_protocol.Hub.Peering.Health.{IsJudged, health_check-judges}
use mars_protocol.Hub.Peering.Silent.{check_times, health_check-gives_up}
use mars_protocol.Examples.Primitives.{sample, bob}
use mars_protocol.Examples.Stored.{note}
use mars_protocol.Examples.Nodes.{storage, addr}

-- 192.168.1.1
abbrev home_router : Ipv4Addr
home_router = record { o0 = 192; o1 = 168; o2 = 1; o3 = 1 }

-- ::ffff:192.168.1.1, port 4433
abbrev mapped : SocketAddr
mapped = record { ip = v6 (to_ipv6_mapped home_router); port = 4433 }

-- every text is read as that address
abbrev parse : Text → Result Text SocketAddr
parse t = ok mapped

abbrev home : SocketAddr
home = record { ip = v4 home_router; port = 4433 }

abbrev parse_home : Text → Result Text SocketAddr
parse_home t = ok home

validate_outbound_addr_iff_example :
    (validate_outbound_addr parse_home (codes "a") [] ≡ ok home)
    ↔ ((parse_home (codes "a") ≡ ok home) × (Elem (codes "a") [] ⊎ (IsReserved home.ip → ⊥)))
validate_outbound_addr_iff_example =
    validate_outbound_addr_iff parse_home (codes "a") [] home
      (record { b0 = omega arith; b1 = omega arith; b2 = omega arith; b3 = omega arith })

validate_outbound_addr-mapped_example : validate_outbound_addr parse (codes "a") [] ≡ ok mapped
validate_outbound_addr-mapped_example =
    validate_outbound_addr-mapped parse (codes "a") [] home_router 4433 refl

-- a network in which connections are made, and no request is answered
abbrev net : Network ℕ Text
net = record {
  connect = λ w to. (ok (codes "link"), w + 1);
  send_request = λ w link msg_type body. (err timeout, w + 1);
  instant = λ w. w;
  now_micros = λ w. w;
}

abbrev metadata : HubMetadata
metadata = record { max_descriptors = 1000; regions = []; endpoint = codes "quic://[::1]:4433" }

abbrev codec : PeerCodec
codec = record {
  encode_ping = λ m. some (1 ∷ []);
  encode_store = λ m. some (2 ∷ []);
  encode_find_value = λ m. some (3 ∷ []);
  encode_metadata = λ m. some (4 ∷ []);
  decode_pong = λ b. none;
  decode_find_value_result = λ b. none;
  decode_metadata = λ b. some metadata;
}

abbrev hub : HubStorage DescriptorStore
hub = record { storage = storage; set_skip_rate_limit = λ s skip. s; all_descriptors = λ s. [] }

abbrev peer : PeerState Text
peer = fresh_peer (codes "link") addr 0

-- the hub of bob, before and after it knows a peer
abbrev alone : PeerManager Text
alone = Peering.new (identity sample bob) bob addr metadata 2 []

abbrev manager : PeerManager Text
manager = record alone { peers = (codes "did:a", peer) ∷ [] }

PeersReach-PeersAreValid_example :
    PeersAreValid (run_health_check sample parse net codec hub alone 0).0.peers
PeersReach-PeersAreValid_example =
    PeersReach-PeersAreValid sample parse net codec hub (identity sample bob) bob addr metadata 2 []
      (run_health_check sample parse net codec hub alone 0).0 (later started (checks 0))

gossip_round-changes_example :
    (map_values uncounted (gossip_round sample parse net codec manager 0 (note ∷ [])).0.peers
      ≡ map_values uncounted manager.peers)
    × AllEntries
        (λ (k : Text) (p : PeerState Text). p.consecutive_failures ≤ 0 + 50)
        (gossip_round sample parse net codec manager 0 (note ∷ [])).0.peers
unfolding lookup
gossip_round-changes_example =
    gossip_round-changes sample parse net codec manager 0 (note ∷ []) 0 (refl, tt) (omega arith, tt)

health_check-judges_example :
    (is_disconnected peer.status ≡ false
      → IsJudged sample parse net codec peer
          (1 ∷ [])
          (lookup (codes "did:a") (health_check sample parse net codec manager 0).0.peers))
    × (is_disconnected peer.status ≡ true
        → lookup (codes "did:a") (health_check sample parse net codec manager 0).0.peers
          ≡ some peer)
unfolding lookup list_beq
health_check-judges_example =
    health_check-judges sample parse net codec manager 0 (codes "did:a") peer (1 ∷ []) refl
      (refl, tt) refl

health_check-gives_up_example :
    (q : PeerState Text) × (lookup
        (codes "did:a")
        (check_times sample parse net codec 5 manager 0).0.peers
      ≡ some q)
    × (is_disconnected q.status ≡ true)
unfolding lookup list_beq
health_check-gives_up_example =
    health_check-gives_up sample parse net codec manager 0 (codes "did:a") peer (1 ∷ [])
      (λ w c body f h. cc) refl
      (record { distinct = (refl, tt); each = (fresh_peer-PeerIsValid (codes "link") addr 0, tt) })
      refl (omega arith)
