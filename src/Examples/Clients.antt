-- ===== src/Examples/Clients.antt =====
-- Examples on the client side of a node of mesh-dht, in a network that answers every request.
use mars_protocol.Common.{
  ℕ, ◌+◌, ◌*◌, ◌≤◌, ◌≡◌, refl, true, none, some, List, [], ◌∷◌, length, replicate, ok, Result,
  Bytes, list_beq, ◌^◌, arith, ◌<◌, ◌⊎◌, All,
}
use mars_protocol.Core.Descriptor.{Descriptor}
use mars_protocol.Core.Message.{NodeAddr}
use mars_protocol.Core.Frame.{Frame, frame_magic, protocol_version, msg_find_value}
use mars_protocol.Dht.Client.{TransportError, World, MessageCodec, bootstrap, iterative_store}
use mars_protocol.Dht.Client.Counts.{Encodes, iterative_store-ok}
use mars_protocol.Core.Descriptor.{create}
use mars_protocol.Examples.Table.{key_a-IsKey}
use mars_protocol.Examples.Primitives.{sample, sample-HashLaws, key_a, noon}
use mars_protocol.Examples.Stored.{note}
use mars_protocol.Dht.Lookup.{lookup_value, lookup_from, unqueried, query_all, broadcast}
use mars_protocol.Dht.Lookup.Ends.{lookup_value_terminates}
use mars_protocol.Dht.Lookup.Answers.{HasNothing, lookup_value-empty}
use mars_protocol.Dht.Routing
use mars_protocol.Dht.Routing.{
  all_nodes, closest_nodes, sort_by, all_entries, add_node, add_to_bucket,
}
use mars_protocol.Dht.Distance.{bucket_index, xor_distance, distance_cmp}
use mars_protocol.Core.Identity.{node_id, identity, identity_beq}
use mars_protocol.Core.Hash.{hash_beq}
use mars_protocol.Dht.Node.{DhtNode, with_store}
use mars_protocol.Dht.Storage.{DescriptorStore}
use mars_protocol.Examples.Nodes.{storage, node, alice_id, addr}

-- a world that counts the requests, and answers each by the response type of its request
abbrev world : World ℕ
world = record {
  send_request = λ w to msg_type body. (
    ok (record {
      magic = frame_magic;
      version = protocol_version;
      msg_type = msg_type + 128;
      msg_id = replicate 16 0;
      body = body;
    }),
    w + 1,
  );
  now_micros = λ w. noon + w;
}

abbrev codec : MessageCodec
codec = record {
  encode_ping = λ m. some (1 ∷ []);
  encode_find_node = λ m. some (2 ∷ []);
  encode_store = λ m. some (3 ∷ []);
  encode_find_value = λ m. some (4 ∷ []);
  decode_pong = λ b. some (record { sender = alice_id; sender_addr = addr; observed_addr = addr });
  decode_find_node_result = λ b.
      some (record { nodes = record { identity = alice_id; addr = addr; last_seen = noon } ∷ [] });
  decode_stored = λ b. some true;
  decode_find_value_result = λ b. some (record {
    descriptors = none;
    nodes = some (record { identity = alice_id; addr = addr; last_seen = noon } ∷ []);
  });
}

codec-Encodes : Encodes codec
codec-Encodes = record { find_node = λ m. (2 ∷ [], refl); store = λ m. (3 ∷ [], refl) }

iterative_store-ok_example :
    (total : ℕ) × ((iterative_store sample storage world codec node 0 note).0 ≡ ok total)
    × (total ≤ 20 * length note.routing_keys)
unfolding create
iterative_store-ok_example =
    iterative_store-ok sample storage world codec codec-Encodes node 0 note sample-HashLaws
      (key_a-IsKey, tt)

lookup_value_terminates_example :
    (result : Result TransportError (List Descriptor) × DhtNode DescriptorStore × ℕ) × (lookup_value
        sample storage world codec
        (256 ^ 32 + 1)
        node
        0
        key_a
      ≡ some result)
lookup_value_terminates_example =
    lookup_value_terminates sample storage world codec (256 ^ 32 + 1) node 0 key_a sample-HashLaws
      (omega arith)

-- the node, once it knows alice
abbrev joined : DhtNode DescriptorStore
joined = (bootstrap sample storage world codec node 0 (addr ∷ [])).1

looked_up : lookup_value sample storage world codec 3 joined 0 key_a ≡ some (ok [], joined, 2)
unfolding bootstrap lookup_value lookup_from unqueried query_all broadcast closest_nodes all_nodes
    with_store Routing.new sort_by all_entries add_node add_to_bucket bucket_index xor_distance
    distance_cmp node_id identity identity_beq list_beq hash_beq
looked_up = refl

abbrev answer : NodeAddr → Bytes → Result TransportError Frame
answer to body = (world.send_request 0 to msg_find_value body).0

lookup_value-empty_example :
    (20 < length (all_nodes joined.routing_table))
    ⊎ All (HasNothing sample storage world codec answer (4 ∷ [])) (all_nodes joined.routing_table)
lookup_value-empty_example =
    lookup_value-empty sample storage world codec answer 3 joined joined 0 2 key_a (4 ∷ [])
      (λ w to body. refl) refl looked_up
