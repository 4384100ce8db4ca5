-- ===== src/Dht/Lookup/Keeps.antt =====
-- `lookup_value` of mesh-dht/src/node.rs keeps a node valid, whatever the network answers.
use mathlib.Core.Option.{some-injective}
use mars_protocol.Common.{
  ℕ, zero, suc, ◌≡◌, inl, inr, refl, sym, ap, subst, not, ◌&&◌, Bool-cases, Option-cases,
  Result-cases, Option, none, some, List, [], ◌∷◌, is_empty, take, arith, Result, ok, err, length,
  leb,
}
use mars_protocol.Core.External.{External}
use mars_protocol.Core.Hash.{Hash}
use mars_protocol.Core.Identity.{node_id}
use mars_protocol.Core.Descriptor.{Descriptor}
use mars_protocol.Core.Frame.{msg_find_value}
use mars_protocol.Core.Message.{NodeInfo}
use mars_protocol.Dht.Routing.{all_nodes, closest_nodes, bucket_size}
use mars_protocol.Dht.Node.Interface.{DescriptorStorage}
use mars_protocol.Dht.Node.{DhtNode}
use mars_protocol.Dht.Node.Keeps.{NodeIsValid}
use mars_protocol.Dht.Client.{TransportError, World, MessageCodec, learn_all}
use mars_protocol.Dht.Client.Keeps.{learn_all-NodeIsValid}
use mars_protocol.Dht.Lookup.{
  Round, gather, found_nodes, read_result, request_of, query_all, unqueried, merge_candidates,
  lookup_from, after_loop, lookup_value,
}
use mars_protocol.Dht.Lookup.Answers.{broadcast-node}

module _ (x : External) {S : Type 0} (storage : DescriptorStorage S) {W : Type 0} (world : World W)
    (codec : MessageCodec) (Valid : S → Type 0) where
  query_all-NodeIsValid :
      (nodes : List NodeInfo) (key : Hash) (n : DhtNode S) (w : W) (r : Round)
      → NodeIsValid x storage Valid n
      → NodeIsValid x storage Valid (query_all x storage world codec nodes key n w r).1
  unfolding query_all
  query_all-NodeIsValid [] key n w r v = v
  query_all-NodeIsValid (node ∷ nodes) key n w r v =
      elim (Option-cases (codec.encode_find_value (request_of x storage world codec n key))) [
        | inl unsent ↦ rw (query_all, unsent) v
        | inr (body, sent) ↦
            let (resp, w1) = world.send_request w node.addr msg_find_value body in
            let result = read_result x storage world codec resp in
            let es = found_nodes result in
            rw (query_all, sent)
              (query_all-NodeIsValid nodes key (learn_all x storage world codec n es) w1
                (gather r (node_id x node.identity) result)
                (learn_all-NodeIsValid x storage world codec Valid es n v))
      ]

  -- valid, if the fuel lasted
  abbrev ValidEnd : Option (Result TransportError (List Descriptor) × DhtNode S × W) → Type 0
  ValidEnd none = Unit {0}
  ValidEnd (some result) = NodeIsValid x storage Valid result.1

  lookup_from-NodeIsValid :
      (fuel : ℕ) (key : Hash) (n : DhtNode S) (w : W) (r : Round) (candidates : List NodeInfo)
      → NodeIsValid x storage Valid n
      → ValidEnd (lookup_from x storage world codec fuel key n w r candidates)
  unfolding lookup_from
  lookup_from-NodeIsValid zero key n w r candidates v = tt
  lookup_from-NodeIsValid (suc fuel) key n w r candidates v =
      by_nodes (λ n1 w1 r1 next. lookup_from-NodeIsValid fuel key n1 w1 r1 next)
        (take n.config.alpha (unqueried x storage world codec r.queried candidates)) refl
    where
      by_nodes :
          ((n1 : DhtNode S) (w1 : W) (r1 : Round) (next : List NodeInfo)
            → NodeIsValid x storage Valid n1
            → ValidEnd (lookup_from x storage world codec fuel key n1 w1 r1 next))
          → (nodes : List NodeInfo)
          → take n.config.alpha (unqueried x storage world codec r.queried candidates) ≡ nodes
          → ValidEnd (lookup_from x storage world codec (suc fuel) key n w r candidates)
      by_nodes rest [] chosen = rw (lookup_from, chosen) v
      by_nodes rest (node ∷ nodes) chosen =
          let start : Round = record r { new_nodes = [] } in
          let (asked, n1, w1) = query_all x storage world codec (node ∷ nodes) key n w start in
          let v1 = query_all-NodeIsValid (node ∷ nodes) key n w start v in
          elim (Result-cases asked) [
            | inr (e, failed) ↦ rw (lookup_from, chosen, failed) v1
            | inl (r1, done) ↦ elim (Bool-cases (is_empty r1.new_nodes && is_empty r1.collected)) [
              | inl stuck ↦ rw (lookup_from, chosen, done, stuck) v1
              | inr moved ↦ elim (Bool-cases (not (is_empty r1.collected))) [
                | inl found ↦ rw (lookup_from, chosen, done, moved, found) v1
                | inr none_yet ↦
                    rw (lookup_from, chosen, done, moved, none_yet)
                      (rest n1 w1 r1
                        (merge_candidates x storage world codec key candidates r1.new_nodes) v1)
              ]
            ]
          ]

  after_loop-NodeIsValid :
      (key : Hash) (r : Result TransportError (List Descriptor)) (n : DhtNode S) (w : W)
      → NodeIsValid x storage Valid n
      → NodeIsValid x storage Valid (after_loop x storage world codec key (r, n, w)).1
  after_loop-NodeIsValid key (err e) n w v = v
  after_loop-NodeIsValid key (ok collected) n w v =
      let nodes = all_nodes n.routing_table in
      elim (Bool-cases (is_empty collected && leb (length nodes) bucket_size)) [
        | inl few ↦ rw few (
            subst (λ k. NodeIsValid x storage Valid k)
              (sym (broadcast-node x storage world codec nodes key n w)) v)
        | inr plenty ↦ rw plenty v
      ]

  pub lookup_value-NodeIsValid :
      (fuel : ℕ) (n m : DhtNode S) (w v : W) (key : Hash)
      (r : Result TransportError (List Descriptor))
      → NodeIsValid x storage Valid n
      → lookup_value x storage world codec fuel n w key ≡ some (r, m, v)
      → NodeIsValid x storage Valid m
  unfolding lookup_value
  lookup_value-NodeIsValid fuel n m w v key r valid h =
      let start : Round = record { queried = []; collected = []; new_nodes = [] } in
      let first = closest_nodes x n.routing_table key n.config.alpha in
      elim (Option-cases (lookup_from x storage world codec fuel key n w start first)) [
        | inl out ↦ absurd (ground arith)
        | inr ((r1, n1, w1), ended) ↦
            let kept : NodeIsValid x storage Valid n1 =
              subst ValidEnd ended (lookup_from-NodeIsValid fuel key n w start first valid) in
            let same : after_loop x storage world codec key (r1, n1, w1) ≡ (r, m, v) =
              some-injective _ _ (rw ended at h) in
            subst (λ k. NodeIsValid x storage Valid k) (ap (λ k. k.1) same)
              (after_loop-NodeIsValid key r1 n1 w1 kept)
      ]
