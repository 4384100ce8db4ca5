-- ===== src/Hub/Peering/Gossip.antt =====
-- What gossip of mesh-hub/src/peering.rs changes: the counts of failures, and nothing else.
use mars_protocol.Common.{
  ℕ, ◌+◌, ◌≤◌, ◌≡◌, inl, inr, refl, ◌&&◌, Option, none, some, List, [], ◌∷◌, arith, Bool-cases,
  Option-cases, HashMap, modify, map_values, keys_where, length, take, length-take, Result, ok, err,
  Text, ltb, list_eq, nat_eq, is_empty, ◌∙◌, Elem, NoRepeat, AllEntries, AllEntries-modify, All-map,
  subst, sym, eq_iff, Distinct, keys_where-NoRepeat,
}
use mars_protocol.Core.External.{External}
use mars_protocol.Core.Descriptor.{Descriptor}
use mars_protocol.Core.Frame.{Frame, msg_store}
use mars_protocol.Dht.Client.{TransportError}
use mars_protocol.Hub.Network.{SocketAddr}
use mars_protocol.Hub.Peering.{
  PeerState, PeerManager, Network, PeerCodec, is_connected, has_connection, add_failures, gossip_to,
  gossip_all, gossip_round, count_failure, max_gossip_batch, request_peer,
}

-- a peer with its count of failures left out
abbrev pub uncounted : {C : Type 0} → PeerState C → PeerState C
uncounted p = record p { consecutive_failures = 0 }

module _ {C : Type 0} where
  uncounted-modify :
      (key : Text) (f : PeerState C → PeerState C) (peers : HashMap Text (PeerState C))
      → ((p : PeerState C) → uncounted (f p) ≡ uncounted p)
      → map_values uncounted (modify key f peers) ≡ map_values uncounted peers
  unfolding map_values modify
  uncounted-modify key f [] h = refl
  uncounted-modify key f ((k, p) ∷ peers) h = ground (arith, uncounted-modify key f peers h, h p)

count_failure-le :
    (result : Option (Result TransportError Frame)) (failures : ℕ)
    → count_failure result failures ≤ failures + 1
count_failure-le none failures = omega arith
count_failure-le (some (ok response)) failures = omega arith
count_failure-le (some (err e)) failures = omega arith

-- at most so many failures, and `n` more unless a loop has still to tell the peer
abbrev Counted : {C : Type 0} → ℕ → ℕ → List Text → Text → PeerState C → Type 0
Counted n bound dids k p =
    (Elem k dids → p.consecutive_failures ≤ bound) × (p.consecutive_failures ≤ bound + n)

module _ (x : External) (parse : Text → Result Text SocketAddr) {C W : Type 0} (net : Network W C)
    (codec : PeerCodec) where
  -- no more failures are counted than STOREs are sent
  gossip_to-le :
      (m : PeerManager C) (w : W) (key : Text) (batch : List Descriptor) (failures : ℕ)
      → (gossip_to x parse net codec m w key batch failures).0 ≤ failures + length batch
  unfolding gossip_to
  gossip_to-le m w key [] failures = omega arith
  gossip_to-le m w key (desc ∷ batch) failures =
      elim (Option-cases (
        codec.encode_store
          (record { sender = m.hub_identity; sender_addr = m.hub_addr; descriptor = desc }))) [
            | inl unsent ↦
                rw (gossip_to, unsent) (omega (arith, gossip_to-le m w key batch failures))
            | inr (body, sent) ↦
                let (result, w1) = request_peer net m.peers w key msg_store body in
                rw (gossip_to, sent)
                  (omega (
                    arith,
                    gossip_to-le m w1 key batch (count_failure result failures),
                    count_failure-le result failures,
                  ))
          ]

  gossip_all-uncounted :
      (m : PeerManager C) (w : W) (dids : List Text) (batch : List Descriptor)
      → map_values uncounted (gossip_all x parse net codec m w dids batch).0.peers
        ≡ map_values uncounted m.peers
  unfolding gossip_all
  gossip_all-uncounted m w [] batch = refl
  gossip_all-uncounted m w (key ∷ dids) batch =
      let (failures, w1) = gossip_to x parse net codec m w key batch 0 in
      let told = add_failures x parse net codec failures in
      let next : PeerManager C = record m { peers = modify key told m.peers } in
      elim (Bool-cases (ltb 0 failures)) [
        | inl lost ↦
            rw (gossip_all, lost)
              (gossip_all-uncounted next w1 dids batch
                ∙ uncounted-modify key told m.peers (λ p. refl))
        | inr reached ↦ rw (gossip_all, reached) (gossip_all-uncounted m w1 dids batch)
      ]

  gossip_all-Counted :
      (m : PeerManager C) (w : W) (dids : List Text) (batch : List Descriptor) (bound : ℕ)
      → NoRepeat dids
      → AllEntries (Counted (length batch) bound dids) m.peers
      → AllEntries
          (Counted (length batch) bound [])
          (gossip_all x parse net codec m w dids batch).0.peers
  unfolding gossip_all
  gossip_all-Counted m w [] batch bound fresh h = h
  gossip_all-Counted m w (key ∷ dids) batch bound fresh h =
      let (failures, w1) = gossip_to x parse net codec m w key batch 0 in
      let told = add_failures x parse net codec failures in
      elim (Bool-cases (ltb 0 failures)) [
        | inr reached ↦
            rw (gossip_all, reached)
              (gossip_all-Counted m w1 dids batch bound fresh.1
                (All-map _ m.peers (λ e c. (λ later. c.0 (inr later), c.1)) h))
        | inl lost ↦
            rw (gossip_all, lost)
              (gossip_all-Counted (record m { peers = modify key told m.peers }) w1 dids batch bound
                fresh.1
                (AllEntries-modify _ _ key told m.peers
                  (λ j p c same.
                    let e = (eq_iff j key).0 same in
                    (
                      λ later. absurd (fresh.0 (subst (λ i. Elem i dids) e later)),
                      omega (arith, c.0 (inl (sym e)), gossip_to-le m w key batch 0),
                    ))
                  (λ j p c other. (λ later. c.0 (inr later), c.1)) h))
      ]

  -- If no DID has two peers, a round of gossip leaves every peer as it was but for its count of
  -- failures, and adds at most 50 to the largest count, however many descriptors there are.
  pub gossip_round-changes :
      (m : PeerManager C) (w : W) (descriptors : List Descriptor) (bound : ℕ)
      → Distinct m.peers
      → AllEntries (λ (k : Text) (p : PeerState C). p.consecutive_failures ≤ bound) m.peers
      → (map_values uncounted (gossip_round x parse net codec m w descriptors).0.peers
          ≡ map_values uncounted m.peers)
        × AllEntries
            (λ (k : Text) (p : PeerState C). p.consecutive_failures ≤ bound + 50)
            (gossip_round x parse net codec m w descriptors).0.peers
  unfolding gossip_round
  gossip_round-changes m w descriptors bound d few =
      let batch = take max_gossip_batch descriptors in
      let open_to = λ (p : PeerState C). is_connected p.status && has_connection p in
      elim (Bool-cases (is_empty batch)) [
        | inl nothing ↦ rw nothing (refl, All-map _ m.peers (λ e h. omega arith) few)
        | inr something ↦ rw something (
          gossip_all-uncounted m w (keys_where open_to m.peers) batch,
          All-map _ _ (λ e h. omega (arith, h.1, length-take 50 descriptors))
              (gossip_all-Counted m w (keys_where open_to m.peers) batch bound
                (keys_where-NoRepeat open_to m.peers d)
                (All-map _ m.peers (λ e h. (λ _. h, omega arith)) few)),
        )
      ]
