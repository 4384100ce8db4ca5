-- ===== src/Examples/Nodes.antt =====
-- Examples on the DHT node of mesh-dht, over the in-memory store.
use mars_protocol.Common.{ℕ, ◌≡◌, ◌≢◌, ◌≤◌, some, List, Elem, length, ok, none, arith, codes}
use mars_protocol.Core.Identity.{Identity, identity}
use mars_protocol.Core.Message.{NodeAddr, Store, FindNode, FindValue}
use mars_protocol.Dht.Storage.{DescriptorStore, get_descriptors_at}
use mars_protocol.Dht.Storage.Invariant.{IsValid}
use mars_protocol.Dht.Node.Interface.{DescriptorStorage, memory_storage, no_op_hook}
use mars_protocol.Dht.Node.{
  DhtNode, default_config, with_store, with_hooks, handle_store, handle_find_node,
  handle_find_value,
}
use mars_protocol.Dht.Node.Keeps.{NodeIsValid, with_store-NodeIsValid}
use mars_protocol.Dht.Node.Answers.{IsStoreAnswer, handle_store-IsStoreAnswer}
use mars_protocol.Dht.Node.Nearest.{offered, IsFindNodeAnswer, handle_find_node-IsFindNodeAnswer}
use mars_protocol.Dht.Node.Found.{LetsQuery}
use mars_protocol.Dht.Node.Memory.{handle_find_value-memory}
use mars_protocol.Dht.Storage.Serve.{IsServed, stored}
use mars_protocol.Core.Descriptor.{Descriptor, validate}
use mars_protocol.Examples.Primitives.{sample, sample-HashLaws, alice, bob, key_a, noon}
use mars_protocol.Examples.Table.{key_a-IsKey}
use mars_protocol.Examples.Stored.{note, one_note, one_note-IsValid}

abbrev pub addr : NodeAddr
addr = record { protocol = codes "quic"; address = codes "[::1]:4433" }

abbrev pub storage : DescriptorStorage DescriptorStore
storage = memory_storage sample

-- a node of bob that holds a note of alice
abbrev pub node : DhtNode DescriptorStore
node = with_store sample storage bob addr default_config one_note

pub node-NodeIsValid : NodeIsValid sample storage (IsValid sample) node
node-NodeIsValid =
    with_store-NodeIsValid sample storage (IsValid sample) bob addr default_config one_note
      one_note-IsValid

abbrev pub alice_id : Identity
alice_id = identity sample alice

abbrev find_value : FindValue
find_value = record {
  sender = alice_id;
  sender_addr = addr;
  key = key_a;
  max_results = 5;
  filters = none;
}

abbrev hooked : DhtNode DescriptorStore
hooked = with_hooks sample storage node no_op_hook

none_is_some : {A : Type 0} (a : A) → none ≢ some a
none_is_some a e = absurd cc

let_through : LetsQuery sample storage node key_a
unfolding with_store
let_through h e = absurd (none_is_some h e)

handle_find_value-memory_example :
    ((ds : List Descriptor) (d : Descriptor)
      → (handle_find_value sample storage node find_value noon noon).0.descriptors ≡ some ds
      → Elem d ds
      → (Elem d (stored sample one_note one_note-IsValid key_a)
          × IsServed one_note.revoked none noon d)
        × Elem key_a d.routing_keys
        × ((t : ℕ) × (validate sample d t ≡ ok tt)))
    × ((d : Descriptor)
        → Elem d (stored sample one_note one_note-IsValid key_a)
          × IsServed one_note.revoked none noon d
        → length (get_descriptors_at one_note key_a none noon) ≤ 5
        → (ds : List Descriptor) × ((handle_find_value sample storage node find_value noon
              noon).0.descriptors
            ≡ some ds)
          × Elem d ds)
unfolding with_store
handle_find_value-memory_example =
    handle_find_value-memory sample node one_note-IsValid find_value noon noon (omega arith)
      key_a-IsKey let_through

abbrev find_node : FindNode
find_node = record { sender = alice_id; sender_addr = addr; target = key_a }

handle_find_node-IsFindNodeAnswer_example :
    ((handle_find_node sample storage node find_node noon noon).1
      ≡ offered sample sample-HashLaws storage node find_node noon)
    × IsFindNodeAnswer sample sample-HashLaws storage
        (offered sample sample-HashLaws storage node find_node noon)
        key_a
        noon
        (handle_find_node sample storage node find_node noon noon).0.nodes
handle_find_node-IsFindNodeAnswer_example =
    handle_find_node-IsFindNodeAnswer sample sample-HashLaws storage node find_node noon noon
      key_a-IsKey

abbrev store_note : Store
store_note = record { sender = alice_id; sender_addr = addr; descriptor = note }

handle_store-IsStoreAnswer_example :
    IsStoreAnswer sample storage hooked store_note noon
      (handle_store sample storage hooked store_note noon noon)
handle_store-IsStoreAnswer_example =
    handle_store-IsStoreAnswer sample storage hooked store_note noon noon
