-- ===== src/Lib.antt =====
-- The mesh protocol: a network of nodes that store signed descriptors in a distributed hash table.
-- The model follows the two crates at its core and the hub that runs them.
--
-- mesh-core, in Core:
--   Core/Hash (mesh-core/src/hash.rs, schema.rs), Core/Identity (identity.rs), Core/Error (error.rs),
--   Core/Message (message.rs): the data that everything else passes around.
--   Core/Descriptor (descriptor.rs): Descriptor, canonical_value for canonical_cbor_bytes, compute_id,
--   create and validate.
--   Core/Frame (frame.rs): the wire envelope, to_bytes and from_bytes.
--   Core/RoutingKey (routing.rs): routing_key and hierarchical_routing_keys.
--   Core/External: what the crates blake3, ed25519-dalek, bs58, hex and ciborium provide. Their code is
--   not part of the repository, so it is a parameter, with the laws that a theorem relies on as
--   hypotheses (HashLaws: a digest has 32 bytes; SignatureLaws: a key verifies what it signs).
--
-- mesh-dht, in Dht:
--   Dht/Distance (mesh-dht/src/distance.rs): the XOR metric on bytes. The source panics on a digest
--   shorter than 32 bytes, where the model stops.
--   Dht/Routing (routing.rs): the routing table. sort_by is a stable insertion sort.
--   Dht/Storage (storage.rs): DescriptorStore and its methods; Limiter and Parse hold its parts. The
--   HashMaps are association lists in which a key stands once. A method returns its result beside the
--   new state, and what was written before an error stays written.
--   Dht/Node (node.rs, hooks.rs): the four request handlers over the interface DescriptorStorage, which
--   Dht/Node/Interface states with its laws and fills with the store. Each method that depends on the
--   time stands as the one with an explicit time and as the one that reads the clock, which a cache
--   answers differently.
--   Dht/Client (node.rs, transport.rs): bootstrap and iterative_store, which ask other nodes. The network
--   is a state that each request moves on, and its answers are arbitrary.
--   Dht/Lookup (node.rs): lookup_value, the iterative search. Its loop takes fuel: a round asks a node
--   whose id was not asked before, and ids are digests of 32 bytes, so 256 ^ 32 rounds are enough.
--
-- mesh-hub, in Hub:
--   Hub/RateLimit (mesh-hub/src/rate_limit.rs): sliding windows per address and per identity.
--   Hub/Policy (policy.rs): store mode, blocklists, quotas and the MU budget.
--   Hub/Redb (storage/redb.rs): RedbStorage, the store on disk, as its four tables; Hub/Cache
--   (storage/mod.rs): CachedStorage over any storage. The database redb and the cache moka are other
--   packages, modelled by what a table, a transaction and an entry promise.
--   Hub/Auth (auth.rs) and Hub/Tenants (tenant.rs): the challenges that prove a DID, and the accounts
--   with their identities, as the rows of three tables; Hub/Hooks (hooks.rs): HubProtocolHook, which
--   asks limiter, accounts and policy before a STORE; Hub/Admin (admin.rs): the HTTP handlers over the
--   accounts, each as a function from the state and the request to the response and the state.
--   Hub/Seeding (seeding.rs): seed_now, the hub's own descriptors.
--   Hub/Network (network.rs): validate_outbound_addr, the filter on outbound addresses. Reading an
--   address from text is the standard library's and a parameter.
--   Hub/Peering (peering.rs): PeerManager and its methods, and in Hub/Peering/Tasks the tasks that call
--   them on the node and the peers. The network is a state that each call moves on; the loops over the
--   HashMap of peers go in the order of its entries, which the theorems do not depend on.
--
-- A request reaches a node as a frame; its handler puts the sender in the routing table, asks the hooks,
-- and calls the storage, which validates a descriptor before it is kept. Time is an argument: a method
-- that reads the clock takes the reading. Numbers are naturals with the wrap of machine words written
-- out where the source adds (add_u64, the casts); theorems name the bound below which no sum wraps, a
-- clock below 2 ^ 63 microseconds. A usize has 64 bits and a release build does not check overflow.
-- Texts are their UTF-8 bytes. Each other loop that is modelled runs over a list.
--
-- Not modelled: the QUIC transport, the configuration, metrics and start-up of the hub, the
-- gateway, the client library and the bindings, and the log and display texts.
--
-- Examples holds each theorem with hypotheses applied to concrete inputs.
pub mod Common
pub mod Core
pub mod Dht
pub mod Hub
pub mod Examples
