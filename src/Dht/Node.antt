-- ===== src/Dht/Node.antt =====
-- mesh-dht/src/node.rs: how a node answers the four requests, over any storage and with hooks.
-- A handler takes the readings of the clock that it makes, in their order, and returns its answer, the
-- node behind it and the hooks that it called for their effect.
pub mod Interface
pub mod Answers
pub mod Nearest
pub mod Found
pub mod Keeps
pub mod Memory
use mars_protocol.Common.{
  ℕ, min, Bool, true, false, not, ◌&&◌, Option, none, some, List, [], ◌∷◌, ◌++◌, length, is_empty,
  any, take, if◌then◌else◌, ltb, ◌==◌, Result, ok, err, Text, map_err,
}
use mars_protocol.Core.External.{External}
use mars_protocol.Core.Hash.{Hash, hash_eq}
use mars_protocol.Core.Identity.{Identity, Keypair, identity_eq, identity, node_id, did}
use mars_protocol.Core.Descriptor.{Descriptor}
use mars_protocol.Core.Message.{
  NodeAddr, NodeInfo, Ping, Pong, Store, FindNode, FindNodeResult, FindValue, FindValueResult,
}
use mars_protocol.Dht.Routing.{RoutingTable, add_node, closest_nodes, bucket_size}
use mars_protocol.Dht.Routing
use mars_protocol.Dht.Storage.Parse.{StoreError}
use Interface.{DescriptorStorage, ProtocolHook}

-- the reasons of `verify_sender_binding`, with the values that its messages show
pub data BindingError : Type 0 where
  sender_mismatch : Text → Text → BindingError
  no_peer_identity : Text → BindingError

pub record DhtConfig : Type 0 where
  pub alpha : ℕ
  pub max_find_value_results : ℕ

-- `DhtConfig::default`
abbrev pub default_config : DhtConfig
default_config = record { alpha = 3; max_find_value_results = 20 }

-- `StoreAck`: the reason is a hook's text, or the display of a store error, here the error itself
pub data AckReason : Type 0 where
  hook_reason : Text → AckReason
  store_reason : StoreError → AckReason

pub record StoreAck : Type 0 where
  pub stored : Bool
  pub reason : Option AckReason

-- the calls `post_store` and `post_query`
pub data HookCall : Type 0 where
  post_store : Descriptor → HookCall
  post_query : Hash → ℕ → HookCall

pub record DhtNode (S : Type 0) : Type 0 where
  pub keypair : Keypair
  pub own_identity : Identity
  pub own_id : Hash
  pub addr : NodeAddr
  pub routing_table : RoutingTable
  pub store : S
  pub config : DhtConfig
  pub hooks : Option ProtocolHook

module _ (x : External) where
  unfoldable pub verify_sender_binding : Identity → Option Identity → Result BindingError (Unit {0})
  verify_sender_binding msg_sender none = err (no_peer_identity (did x msg_sender))
  verify_sender_binding msg_sender (some peer_id) =
      if not (msg_sender == peer_id)
      then err (sender_mismatch (did x msg_sender) (did x peer_id))
      else ok tt

  module _ {S : Type 0} (storage : DescriptorStorage S) where
    -- `DhtNode::with_store`
    unfoldable pub with_store : Keypair → NodeAddr → DhtConfig → S → DhtNode S
    with_store keypair addr config store =
        let own = identity x keypair in
        record {
          keypair = keypair;
          own_identity = own;
          own_id = node_id x own;
          addr = addr;
          routing_table = Routing.new (node_id x own);
          store = store;
          config = config;
          hooks = none;
        }

    -- `DhtNode::with_hooks`
    unfoldable pub with_hooks : DhtNode S → ProtocolHook → DhtNode S
    with_hooks n hooks = record n { hooks = some hooks }

    -- a full bucket leaves the candidate out
    unfoldable pub update_routing_table : DhtNode S → Identity → NodeAddr → ℕ → DhtNode S
    update_routing_table n sender sender_addr now = record n {
      routing_table =
          (add_node x n.routing_table
            (record { identity = sender; addr = sender_addr; last_seen = now })).0;
    }

    unfoldable pub handle_ping : DhtNode S → Ping → ℕ → Pong × DhtNode S
    handle_ping n ping now = (
      record { sender = n.own_identity; sender_addr = n.addr; observed_addr = ping.sender_addr },
      update_routing_table n ping.sender ping.sender_addr now,
    )

    -- the store behind `pre_store`
    unfoldable pub store_and_ack : DhtNode S → Descriptor → ℕ → StoreAck × DhtNode S × List HookCall
    store_and_ack n descriptor now =
        let (r, store) = storage.store_descriptor n.store descriptor now in
        let after = record n { store = store } in
        elim r [
          | ok _ ↦ (
            record { stored = true; reason = none },
            after,
            elim n.hooks [ none ↦ [] | some h ↦ post_store descriptor ∷ [] ],
          )
          | err e ↦ (record { stored = false; reason = some (store_reason e) }, after, [])
        ]

    unfoldable pub handle_store : DhtNode S → Store → ℕ → ℕ → StoreAck × DhtNode S × List HookCall
    handle_store n req seen now =
        let m = update_routing_table n req.sender req.sender_addr seen in
        elim m.hooks [
          | none ↦ store_and_ack m req.descriptor now
          | some h ↦ elim (h.pre_store req.descriptor) [
            | err reason ↦ (record { stored = false; reason = some (hook_reason reason) }, m, [])
            | ok _ ↦ store_and_ack m req.descriptor now
          ]
        ]

    unfoldable pub handle_find_node : DhtNode S → FindNode → ℕ → ℕ → FindNodeResult × DhtNode S
    handle_find_node n req seen now =
        let m = update_routing_table n req.sender req.sender_addr seen in
        let nodes = closest_nodes x m.routing_table req.target bucket_size in
        let self_info : NodeInfo = record {
          identity = m.own_identity;
          addr = m.addr;
          last_seen = now;
        } in
        if not (any (λ e. e.identity == m.own_identity) nodes) && ltb (length nodes) bucket_size
        then (record { nodes = nodes ++ self_info ∷ [] }, m)
        else (record { nodes = nodes }, m)

    -- descriptors, cut to what the request and the server allow, or else the closest nodes
    unfoldable pub find_value_result : DhtNode S → FindValue → List Descriptor → FindValueResult
    find_value_result n req descriptors =
        let max = min req.max_results n.config.max_find_value_results in
        if is_empty descriptors
        then record {
          descriptors = none;
          nodes = some (closest_nodes x n.routing_table req.key bucket_size);
        }
        else record {
          descriptors =
              some (if ltb max (length descriptors) then take max descriptors else descriptors);
          nodes = none;
        }

    abbrev pub answer_find_value :
        DhtNode S → FindValue → ℕ → FindValueResult × DhtNode S × List HookCall
    answer_find_value n req now =
        let (descriptors, store) = storage.get_descriptors n.store req.key req.filters now in
        let result = find_value_result n req descriptors in
        (
          result,
          record n { store = store },
          elim n.hooks [
            | none ↦ []
            | some h ↦
                post_query req.key (elim result.descriptors [ none ↦ 0 | some ds ↦ length ds ]) ∷ []
          ],
        )

    unfoldable pub handle_find_value :
        DhtNode S → FindValue → ℕ → ℕ → FindValueResult × DhtNode S × List HookCall
    unfolding find_value_result
    handle_find_value n req seen now =
        let m = update_routing_table n req.sender req.sender_addr seen in
        elim m.hooks [
          | none ↦ answer_find_value m req now
          | some h ↦ elim (h.pre_query req.key) [
            | err reason ↦ (record { descriptors = none; nodes = none }, m, [])
            | ok _ ↦ answer_find_value m req now
          ]
        ]
