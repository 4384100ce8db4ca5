-- ===== src/Hub/Peering/Discover.antt =====
-- Whom `discover_peers_from_descriptors` of mesh-hub/src/peering.rs finds.
use mars_protocol.Common.{
  ◌≡◌, ◌≢◌, ◌↔◌, inl, inr, refl, ◌∙◌, false, some, List, [], ◌∷◌, Elem, arith, Bool-cases,
  Option-cases, Result, Text, ◌==◌, eq_iff, list_eq, nat_eq, sym, ap, subst,
}
use mars_protocol.Core.External.{External}
use mars_protocol.Core.Identity.{Identity, did}
use mars_protocol.Core.Descriptor.{Descriptor}
use mars_protocol.Core.Message.{NodeAddr}
use mars_protocol.Hub.Network.{SocketAddr}
use mars_protocol.Hub.Peering.{
  HubMetadata, PeerManager, Network, PeerCodec, endpoint_to_node_addr,
  discover_peers_from_descriptors,
}

module _ (x : External) (parse : Text → Result Text SocketAddr) {C W : Type 0} (net : Network W C)
    (codec : PeerCodec) where
  -- a hub that a descriptor announces
  pub record IsAnnounced (m : PeerManager C) (ds : List Descriptor)
      (found : Identity × NodeAddr × HubMetadata) : Type 0 where
    pub desc : Descriptor
    pub listed : Elem desc ds
    pub other : did x desc.publisher ≢ did x m.hub_identity
    pub metadata : HubMetadata
    pub read : codec.decode_metadata desc.payload ≡ some metadata
    pub entry : found ≡ (desc.publisher, endpoint_to_node_addr metadata.endpoint, metadata)

  abbrev found_in : PeerManager C → List Descriptor → List (Identity × NodeAddr × HubMetadata)
  found_in = discover_peers_from_descriptors x parse net codec

  IsAnnounced-later :
      (m : PeerManager C) (d : Descriptor) (ds : List Descriptor)
      (found : Identity × NodeAddr × HubMetadata)
      → IsAnnounced m ds found
      → IsAnnounced m (d ∷ ds) found
  IsAnnounced-later m d ds found a = record {
    desc = a.desc;
    listed = inr a.listed;
    other = a.other;
    metadata = a.metadata;
    read = a.read;
    entry = a.entry;
  }

  announced :
      (m : PeerManager C) (ds : List Descriptor) (found : Identity × NodeAddr × HubMetadata)
      → Elem found (found_in m ds)
      → IsAnnounced m ds found
  unfolding discover_peers_from_descriptors
  announced m [] found h = elim h [ ]
  announced m (d ∷ ds) found h =
      let further = IsAnnounced-later m d ds found in
      elim (Bool-cases (did x d.publisher == did x m.hub_identity)) [
        | inl self ↦ further (announced m ds found (rw self at h))
        | inr other ↦ elim (Option-cases (codec.decode_metadata d.payload)) [
          | inl unread ↦ further (announced m ds found (rw (other, unread) at h))
          | inr (metadata, read) ↦
              let both : Elem found (
                  (d.publisher, endpoint_to_node_addr metadata.endpoint, metadata)
                  ∷ found_in m ds) =
                rw (other, read) at h in
              elim both [
                | inl e ↦ record {
                  desc = d;
                  listed = inl refl;
                  other = λ same. ground (arith, eq_iff (did x d.publisher) (did x m.hub_identity));
                  metadata = metadata;
                  read = read;
                  entry = sym e;
                }
                | inr more ↦ further (announced m ds found more)
              ]
        ]
      ]

  found_of :
      (m : PeerManager C) (ds : List Descriptor) (desc : Descriptor) (metadata : HubMetadata)
      → Elem desc ds
      → did x desc.publisher ≢ did x m.hub_identity
      → codec.decode_metadata desc.payload ≡ some metadata
      → Elem (desc.publisher, endpoint_to_node_addr metadata.endpoint, metadata) (found_in m ds)
  unfolding discover_peers_from_descriptors
  found_of m [] desc metadata h other read = elim h [ ]
  found_of m (d ∷ ds) desc metadata (inl e) other read =
      let differs : (did x d.publisher == did x m.hub_identity) ≡ false = ground (
        arith,
        eq_iff (did x d.publisher) (did x m.hub_identity),
        ap (λ (r : Descriptor). did x r.publisher) e,
      ) in
      let reads : codec.decode_metadata d.payload ≡ some metadata =
        ap (λ (r : Descriptor). codec.decode_metadata r.payload) e ∙ read in
      rw (differs, reads)
        (inl (
          ap (λ (r : Descriptor). (r.publisher, endpoint_to_node_addr metadata.endpoint, metadata))
            e))
  found_of m (d ∷ ds) desc metadata (inr h) other read =
      let below = found_of m ds desc metadata h other read in
      elim (Bool-cases (did x d.publisher == did x m.hub_identity)) [
        | inl self ↦ rw self below
        | inr differs ↦ elim (Option-cases (codec.decode_metadata d.payload)) [
          | inl unread ↦ rw (differs, unread) below
          | inr (first, reads) ↦ rw (differs, reads) (inr below)
        ]
      ]

  -- A hub is discovered exactly if a descriptor of another publisher has readable metadata: it is
  -- then known as that publisher at the address that the metadata gives.
  pub discover_peers_from_descriptors_iff :
      (m : PeerManager C) (ds : List Descriptor) (found : Identity × NodeAddr × HubMetadata)
      → Elem found (discover_peers_from_descriptors x parse net codec m ds) ↔ IsAnnounced m ds found
  discover_peers_from_descriptors_iff m ds found = (
    announced m ds found,
    λ a.
        subst (λ f. Elem f (found_in m ds)) (sym a.entry)
          (found_of m ds a.desc a.metadata a.listed a.other a.read),
  )
