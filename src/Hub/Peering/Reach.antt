-- ===== src/Hub/Peering/Reach.antt =====
-- The peers of a hub under its tasks in any order, mesh-hub/src/peering.rs. The node serves requests
-- in between, and the network answers as it likes, so each step is at any node and any network state.
use mars_protocol.Common.{
  ℕ, inl, inr, none, List, [], ◌∷◌, Option-cases, Result-cases, Result, Text, Bytes,
}
use mars_protocol.Core.External.{External}
use mars_protocol.Core.Identity.{Identity, Keypair, did}
use mars_protocol.Core.Message.{NodeAddr}
use mars_protocol.Core.Frame.{msg_ping, msg_find_value}
use mars_protocol.Dht.Node.{DhtNode}
use mars_protocol.Hub.Network.{SocketAddr, validate_outbound_addr}
use mars_protocol.Hub.Peering
use mars_protocol.Hub.Peering.{HubMetadata, PeerManager, Network, PeerCodec, fresh_peer}
use mars_protocol.Hub.Peering.Tasks.{
  HubStorage, run_discovery, adopt_seed, contact_seed, bootstrap_seed, bootstrap_from_seeds,
  run_gossip_round, run_health_check, pong_sender, routing_key_infrastructure_hub,
}
use mars_protocol.Hub.Peering.Valid.{
  PeersAreValid, insert-PeersAreValid, fresh_peer-PeerIsValid, health_check-PeersAreValid,
}
use mars_protocol.Hub.Peering.Keeps.{run_discovery-PeersAreValid, run_gossip_round-PeersAreValid}

module _ (x : External) (parse : Text → Result Text SocketAddr) {C W : Type 0} (net : Network W C)
    (codec : PeerCodec) {S : Type 0} (hub : HubStorage S) where
  adopt_seed-PeersAreValid :
      (n : DhtNode S) (m : PeerManager C) (w : W) (seed : Text) (c : C) (peer : Identity)
      → PeersAreValid m.peers
      → PeersAreValid (adopt_seed x parse net codec hub n m w seed c peer).1.peers
  unfolding adopt_seed
  adopt_seed-PeersAreValid n m w seed c peer v =
      elim (Option-cases (
        codec.encode_find_value (record {
          sender = m.hub_identity;
          sender_addr = m.hub_addr;
          key = routing_key_infrastructure_hub x;
          max_results = 50;
          filters = none;
        }))) [
          | inl unsent ↦ rw (adopt_seed, unsent) v
          | inr (body, sent) ↦
              rw (adopt_seed, sent)
                (insert-PeersAreValid (did x peer) _ m.peers
                  (fresh_peer-PeerIsValid c _
                    (net.instant (net.send_request w c msg_find_value body).1))
                  v)
        ]

  contact_seed-PeersAreValid :
      (n : DhtNode S) (m : PeerManager C) (w : W) (seed : Text) (addr : SocketAddr) (body : Bytes)
      → PeersAreValid m.peers
      → PeersAreValid (contact_seed x parse net codec hub n m w seed addr body).1.peers
  unfolding contact_seed
  contact_seed-PeersAreValid n m w seed addr body v =
      let (r, w1) = net.connect w addr in
      elim (Result-cases r) [
        | inr (e, failed) ↦ rw (contact_seed, failed) v
        | inl (c, linked) ↦
            let (resp, w2) = net.send_request w1 c msg_ping body in
            elim (Option-cases (pong_sender x parse net codec resp)) [
              | inl silent ↦ rw (contact_seed, linked, silent) v
              | inr (peer, heard) ↦
                  rw (contact_seed, linked, heard) (adopt_seed-PeersAreValid n m w2 seed c peer v)
            ]
      ]

  bootstrap_seed-PeersAreValid :
      (n : DhtNode S) (m : PeerManager C) (w : W) (seed : Text)
      → PeersAreValid m.peers
      → PeersAreValid (bootstrap_seed x parse net codec hub n m w seed).1.peers
  unfolding bootstrap_seed
  bootstrap_seed-PeersAreValid n m w seed v =
      elim (Option-cases
        (codec.encode_ping (record { sender = m.hub_identity; sender_addr = m.hub_addr }))) [
          | inl unsent ↦ rw (bootstrap_seed, unsent) v
          | inr (body, sent) ↦
              elim (Result-cases (validate_outbound_addr parse seed m.outbound_allowlist)) [
                | inr (e, refused) ↦ rw (bootstrap_seed, sent, refused) v
                | inl (target, let_out) ↦
                    rw (bootstrap_seed, sent, let_out)
                      (contact_seed-PeersAreValid n m w seed target body v)
              ]
        ]

  bootstrap_from_seeds-PeersAreValid :
      (n : DhtNode S) (m : PeerManager C) (w : W) (seeds : List Text)
      → PeersAreValid m.peers
      → PeersAreValid (bootstrap_from_seeds x parse net codec hub n m w seeds).1.peers
  unfolding bootstrap_from_seeds
  bootstrap_from_seeds-PeersAreValid n m w [] v = v
  bootstrap_from_seeds-PeersAreValid n m w (seed ∷ seeds) v =
      let (n1, m1, w1) = bootstrap_seed x parse net codec hub n m w seed in
      bootstrap_from_seeds-PeersAreValid n1 m1 w1 seeds (bootstrap_seed-PeersAreValid n m w seed v)

  -- one run of a task
  pub data PeerStep (m : PeerManager C) : PeerManager C → Type 0 where
    bootstraps :
        (n : DhtNode S) (w : W) (seeds : List Text)
        → PeerStep m (bootstrap_from_seeds x parse net codec hub n m w seeds).1
    discovers : (n : DhtNode S) (w : W) → PeerStep m (run_discovery x parse net codec hub n m w).1
    gossips : (n : DhtNode S) (w : W) → PeerStep m (run_gossip_round x parse net codec hub n m w).0
    checks : (w : W) → PeerStep m (run_health_check x parse net codec hub m w).0

  pub data PeersReach (start : PeerManager C) : PeerManager C → Type 0 where
    started : PeersReach start start
    later : {m next : PeerManager C} → PeersReach start m → PeerStep m next → PeersReach start next

  step-PeersAreValid :
      {m next : PeerManager C} → PeerStep m next → PeersAreValid m.peers → PeersAreValid next.peers
  unfolding run_health_check
  step-PeersAreValid {m} (bootstraps n w seeds) v = bootstrap_from_seeds-PeersAreValid n m w seeds v
  step-PeersAreValid {m} (discovers n w) v =
      run_discovery-PeersAreValid x parse net codec hub n m w v
  step-PeersAreValid {m} (gossips n w) v =
      run_gossip_round-PeersAreValid x parse net codec hub n m w v
  step-PeersAreValid {m} (checks w) v = health_check-PeersAreValid x parse net codec m w v

  reach-PeersAreValid :
      {start m : PeerManager C}
      → PeersAreValid start.peers
      → PeersReach start m
      → PeersAreValid m.peers
  reach-PeersAreValid v started = v
  reach-PeersAreValid v (later r step) = step-PeersAreValid step (reach-PeersAreValid v r)

  -- Whatever bootstraps, discoveries, rounds of gossip and health checks a new hub runs, in any
  -- order, with any node state and any answers of the network, no DID has two peers, a peer that
  -- is not disconnected has its connection, and an unhealthy peer has 3 or 4 consecutive failures.
  pub PeersReach-PeersAreValid :
      (own : Identity) (keys : Keypair) (addr : NodeAddr) (metadata : HubMetadata) (max : ℕ)
      (allowlist : List Text) (m : PeerManager C)
      → PeersReach (Peering.new own keys addr metadata max allowlist) m
      → PeersAreValid m.peers
  unfolding Peering.new
  PeersReach-PeersAreValid own keys addr metadata max allowlist m =
      reach-PeersAreValid (record { distinct = tt; each = tt })
