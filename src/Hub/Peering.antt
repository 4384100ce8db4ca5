-- ===== src/Hub/Peering.antt =====
-- mesh-hub/src/peering.rs: the peers of a hub, how it connects to them, tells them what it stores and
-- checks their health. The network is a state that each call moves on, and its answers are arbitrary.
-- The loops over the HashMap of peers go by its entries in their order, which Rust leaves open.
pub mod Tasks
pub mod Discover
pub mod Valid
pub mod Keeps
pub mod Reach
pub mod Gossip
pub mod Health
pub mod Silent
pub mod Limit
use mars_protocol.Common.{
  ℕ, ◌+◌, ◌%◌, ◌^◌, Bool, true, false, not, ◌&&◌, Option, none, some, List, [], ◌∷◌, length,
  is_empty, take, retain, map, if◌then◌else◌, ltb, leb, ◌==◌, nat_eq, list_eq, HashMap, lookup,
  insert, modify, keys_where, Result, ok, err, Text, Bytes, codes, add_u32,
}
use mars_protocol.Core.External.{External}
use mars_protocol.Core.Identity.{Identity, Keypair, did}
use mars_protocol.Core.Descriptor.{Descriptor}
use mars_protocol.Core.Frame.{Frame, msg_ping, msg_pong, msg_store}
use mars_protocol.Core.Message.{NodeAddr, Ping, Pong, Store, FindValue, FindValueResult}
use mars_protocol.Dht.Client.{TransportError, body_of, and_decode}
use mars_protocol.Hub.Network.{SocketAddr, AddressValidationError, validate_outbound_addr}

abbrev pub max_gossip_batch : ℕ
max_gossip_batch = 50

abbrev pub unhealthy_threshold : ℕ
unhealthy_threshold = 3

abbrev pub disconnect_threshold : ℕ
disconnect_threshold = 5

pub record HubMetadata : Type 0 where
  pub max_descriptors : ℕ
  pub regions : List Text
  pub endpoint : Text

pub data PeerStatus : Type 0 where
  connected : PeerStatus
  disconnected : PeerStatus
  unhealthy : PeerStatus

abbrev pub is_connected : PeerStatus → Bool
is_connected connected = true
is_connected disconnected = false
is_connected unhealthy = false

abbrev pub is_disconnected : PeerStatus → Bool
is_disconnected connected = false
is_disconnected disconnected = true
is_disconnected unhealthy = false

-- the connections, of any type `C`
pub record PeerState (C : Type 0) : Type 0 where
  pub connection : Option C
  pub addr : NodeAddr
  pub status : PeerStatus
  pub last_seen : ℕ
  pub consecutive_failures : ℕ

-- the peers stand under their DIDs; the endpoint is part of the network
pub record PeerManager (C : Type 0) : Type 0 where
  pub hub_identity : Identity
  pub hub_keypair : Keypair
  pub hub_addr : NodeAddr
  pub peers : HashMap Text (PeerState C)
  pub hub_metadata : HubMetadata
  pub max_peers : ℕ
  pub outbound_allowlist : List Text

-- `MeshEndpoint::connect`, `send_request` and the clocks
pub record Network (W C : Type 0) : Type 0 where
  pub connect : W → SocketAddr → Result TransportError C × W
  pub send_request : W → C → ℕ → Bytes → Result TransportError Frame × W
  pub instant : W → ℕ
  pub now_micros : W → ℕ

-- `to_cbor` and `from_cbor` on what is sent and received here
pub record PeerCodec : Type 0 where
  pub encode_ping : Ping → Option Bytes
  pub encode_store : Store → Option Bytes
  pub encode_find_value : FindValue → Option Bytes
  pub encode_metadata : HubMetadata → Option Bytes
  pub decode_pong : Bytes → Option Pong
  pub decode_find_value_result : Bytes → Option FindValueResult
  pub decode_metadata : Bytes → Option HubMetadata

pub data ConnectError : Type 0 where
  address_rejected : AddressValidationError → ConnectError
  connect_failed : TransportError → ConnectError

-- `PeerManager::new`
unfoldable pub new :
    {C : Type 0} → Identity → Keypair → NodeAddr → HubMetadata → ℕ → List Text → PeerManager C
new hub_identity hub_keypair hub_addr hub_metadata max_peers outbound_allowlist = record {
  hub_identity = hub_identity;
  hub_keypair = hub_keypair;
  hub_addr = hub_addr;
  peers = [];
  hub_metadata = hub_metadata;
  max_peers = max_peers;
  outbound_allowlist = outbound_allowlist;
}

-- `strip_prefix("quic://")`, or else the whole text
unfoldable pub strip_prefix : Text → Text → Option Text
strip_prefix [] s = some s
strip_prefix (p ∷ ps) [] = none
strip_prefix (p ∷ ps) (c ∷ s) = let rest = strip_prefix ps s in if p == c then rest else none

unfoldable pub endpoint_to_node_addr : Text → NodeAddr
unfolding strip_prefix
endpoint_to_node_addr endpoint = record {
  protocol = codes "quic";
  address = elim (strip_prefix (codes "quic://") endpoint) [
    | none ↦ endpoint
    | some address ↦ address
  ];
}

module _ {C : Type 0} where
  unfoldable pub connected_peer_count : HashMap Text (PeerState C) → ℕ
  connected_peer_count peers = length (retain (λ e. is_connected e.1.status) peers)

  unfoldable pub peer_statuses : PeerManager C → List (Text × PeerStatus × ℕ)
  peer_statuses m = map (λ e. (e.0, e.1.status, e.1.consecutive_failures)) m.peers

  -- a peer with a new connection
  abbrev pub fresh_peer : C → NodeAddr → ℕ → PeerState C
  fresh_peer connection addr now = record {
    connection = some connection;
    addr = addr;
    status = connected;
    last_seen = now;
    consecutive_failures = 0;
  }

  -- `entry(did).and_modify(..).or_insert(..)` after a failed attempt
  abbrev pub unreached_peer : Option (PeerState C) → NodeAddr → ℕ → PeerState C
  unreached_peer none addr now = record {
    connection = none;
    addr = addr;
    status = disconnected;
    last_seen = now;
    consecutive_failures = 1;
  }
  unreached_peer (some p) addr now = record p {
    status = disconnected;
    consecutive_failures = add_u32 p.consecutive_failures 1;
  }

  abbrev pub has_connection : PeerState C → Bool
  has_connection p = elim p.connection [ none ↦ false | some c ↦ true ]

  -- what `if let Some(peer) = .. && ..` tests before a connection is made
  abbrev pub already_connected : Option (PeerState C) → Bool
  already_connected none = false
  already_connected (some p) = is_connected p.status && has_connection p

  -- a PONG that can be read
  abbrev pub alive_peer : ℕ → PeerState C → PeerState C
  alive_peer now p = record p { consecutive_failures = 0; status = connected; last_seen = now }

  -- any other answer, and none
  unfoldable pub failed_peer : PeerState C → PeerState C
  failed_peer p =
      let failures = add_u32 p.consecutive_failures 1 in
      if leb disconnect_threshold failures
      then record p { consecutive_failures = failures; status = disconnected; connection = none }
      else if leb unhealthy_threshold failures
      then record p { consecutive_failures = failures; status = unhealthy }
      else record p { consecutive_failures = failures }

  module _ {W : Type 0} (net : Network W C) where
    -- a request on a connection, if there is one
    abbrev pub request_over : Option C → W → ℕ → Bytes → Option (Result TransportError Frame) × W
    request_over none w msg_type body = (none, w)
    request_over (some conn) w msg_type body =
        let (r, w1) = net.send_request w conn msg_type body in (some r, w1)

    -- a request to the peer under a DID
    unfoldable pub request_peer :
        HashMap Text (PeerState C) → W → Text → ℕ → Bytes → Option (Result TransportError Frame) × W
    request_peer peers w key msg_type body = elim (lookup key peers) [
      | none ↦ (none, w)
      | some peer ↦ request_over peer.connection w msg_type body
    ]

-- a STORE that was not answered, or not sent
abbrev pub count_failure : Option (Result TransportError Frame) → ℕ → ℕ
count_failure none failures = add_u32 failures 1
count_failure (some (ok response)) failures = failures
count_failure (some (err e)) failures = add_u32 failures 1

module _ (x : External) (parse : Text → Result Text SocketAddr) {C W : Type 0} (net : Network W C)
    (codec : PeerCodec) where
  -- the descriptors of other hubs whose metadata can be read
  unfoldable pub discover_peers_from_descriptors :
      PeerManager C → List Descriptor → List (Identity × NodeAddr × HubMetadata)
  discover_peers_from_descriptors m [] = []
  discover_peers_from_descriptors m (desc ∷ ds) =
      let rest = discover_peers_from_descriptors m ds in
      if did x desc.publisher == did x m.hub_identity
      then rest
      else elim (codec.decode_metadata desc.payload) [
        | none ↦ rest
        | some metadata ↦ (desc.publisher, endpoint_to_node_addr metadata.endpoint, metadata) ∷ rest
      ]

  -- the attempt behind the filter
  unfoldable pub dial :
      PeerManager C
      → W
      → Text
      → NodeAddr
      → SocketAddr
      → Result ConnectError (Unit {0}) × PeerManager C × W
  dial m w key addr socket_addr =
      let (r, w1) = net.connect w socket_addr in
      elim r [
        | ok connection ↦ (
          ok tt,
          record m { peers = insert key (fresh_peer connection addr (net.instant w1)) m.peers },
          w1,
        )
        | err e ↦ (
          err (connect_failed e),
          record m {
            peers = insert key (unreached_peer (lookup key m.peers) addr (net.instant w1)) m.peers;
          },
          w1,
        )
      ]

  unfoldable pub connect_to_peer :
      PeerManager C → W → Identity → NodeAddr → Result ConnectError (Unit {0}) × PeerManager C × W
  unfolding dial
  connect_to_peer m w peer addr =
      let key = did x peer in
      if leb m.max_peers (connected_peer_count m.peers)
      then (ok tt, m, w)
      else if already_connected (lookup key m.peers)
      then (ok tt, m, w)
      else elim (validate_outbound_addr parse addr.address m.outbound_allowlist) [
        | err e ↦ (err (address_rejected e), m, w)
        | ok socket_addr ↦ dial m w key addr socket_addr
      ]

  -- the STOREs to one peer, and how many of them failed
  unfoldable pub gossip_to : PeerManager C → W → Text → List Descriptor → ℕ → ℕ × W
  gossip_to m w key [] failures = (failures, w)
  gossip_to m w key (desc ∷ batch) failures =
      elim (codec.encode_store
        (record { sender = m.hub_identity; sender_addr = m.hub_addr; descriptor = desc })) [
          | none ↦ gossip_to m w key batch failures
          | some body ↦
              let (result, w1) = request_peer net m.peers w key msg_store body in
              gossip_to m w1 key batch (count_failure result failures)
        ]

  abbrev pub add_failures : ℕ → PeerState C → PeerState C
  add_failures failures p = record p {
    consecutive_failures = add_u32 p.consecutive_failures failures;
  }

  unfoldable pub gossip_all : PeerManager C → W → List Text → List Descriptor → PeerManager C × W
  unfolding gossip_to
  gossip_all m w [] batch = (m, w)
  gossip_all m w (key ∷ dids) batch =
      let (failures, w1) = gossip_to m w key batch 0 in
      gossip_all
        (if ltb 0 failures
          then record m { peers = modify key (add_failures failures) m.peers }
          else m)
        w1 dids batch

  unfoldable pub gossip_round : PeerManager C → W → List Descriptor → PeerManager C × W
  unfolding gossip_all
  gossip_round m w descriptors =
      let batch = take max_gossip_batch descriptors in
      let dids = keys_where (λ p. is_connected p.status && has_connection p) m.peers in
      if is_empty batch then (m, w) else gossip_all m w dids batch

  -- what one PING shows of a peer: a PONG that cannot be read changes nothing
  unfoldable pub judge : Option (Result TransportError Frame) → ℕ → PeerState C → PeerState C
  unfolding failed_peer
  judge none now p = failed_peer p
  judge (some (err e)) now p = failed_peer p
  judge (some (ok response)) now p =
      if response.msg_type == msg_pong
      then elim (codec.decode_pong response.body) [ none ↦ p | some pong ↦ alive_peer now p ]
      else failed_peer p

  unfoldable pub check_all : PeerManager C → W → List Text → PeerManager C × W
  unfolding judge
  check_all m w [] = (m, w)
  check_all m w (key ∷ dids) =
      elim (codec.encode_ping (record { sender = m.hub_identity; sender_addr = m.hub_addr })) [
        | none ↦ check_all m w dids
        | some body ↦
            let (result, w1) = request_peer net m.peers w key msg_ping body in
            check_all (record m { peers = modify key (judge result (net.instant w1)) m.peers }) w1
              dids
      ]

  unfoldable pub health_check : PeerManager C → W → PeerManager C × W
  unfolding check_all
  health_check m w = check_all m w (keys_where (λ p. not (is_disconnected p.status)) m.peers)
