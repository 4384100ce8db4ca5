-- ===== src/Dht/Client/Keeps.antt =====
-- The client side of mesh-dht/src/node.rs keeps a node valid, whatever the network answers.
use mars_protocol.Common.{ℕ, ◌∙◌, Option, none, some, List, [], ◌∷◌, Result, ok, err, take}
use mars_protocol.Core.External.{External}
use mars_protocol.Core.Hash.{Hash}
use mars_protocol.Core.Descriptor.{Descriptor}
use mars_protocol.Core.Frame.{msg_find_node, msg_find_node_result}
use mars_protocol.Core.Message.{NodeAddr, NodeInfo, Pong, FindNodeResult}
use mars_protocol.Dht.Routing.{closest_nodes, bucket_size, sort_by, nearer_or_equal}
use mars_protocol.Dht.Routing.Invariant
use mars_protocol.Dht.Node.Interface.{DescriptorStorage, StorageLaws}
use mars_protocol.Dht.Node.{DhtNode}
use mars_protocol.Dht.Node.Keeps.{NodeIsValid, add_node-local}
use mars_protocol.Dht.Client.{
  TransportError, and_decode, body_of, World, MessageCodec, learn, learn_all, after_pong,
  after_nodes, after_answer, bootstrap_from, greet, ask, bootstrap, widen, send_stores, store_under,
  iterative_store,
}

-- a claim on both branches of a match on an option
by_option :
    {A B : Type 0} (P : B → Type 0) {z : B} {f : A → B} (o : Option A)
    → P z
    → ((a : A) → P (f a))
    → P (elim o [ none ↦ z | some a ↦ f a ])
by_option P none p q = p
by_option P (some a) p q = q a

by_result :
    {E A B : Type 0} (P : B → Type 0) {f : E → B} {g : A → B} (r : Result E A)
    → ((e : E) → P (f e))
    → ((a : A) → P (g a))
    → P (elim r [ err e ↦ f e | ok a ↦ g a ])
by_result P (err e) p q = p e
by_result P (ok a) p q = q a

module _ (x : External) {S : Type 0} (storage : DescriptorStorage S) {W : Type 0} (world : World W)
    (codec : MessageCodec) (Valid : S → Type 0) where
  abbrev pub Good : DhtNode S → Type 0
  Good n = NodeIsValid x storage Valid n

  record Kept (A : Type 0) (r : Result TransportError A × DhtNode S × W) : Type 0 where
    node : Good r.1

  learn-NodeIsValid :
      (n : DhtNode S) (e : NodeInfo) → Good n → Good (learn x storage world codec n e)
  learn-NodeIsValid n e v = record {
    own_identity = v.own_identity;
    own_id = v.own_id;
    local = add_node-local x storage Valid n.routing_table e ∙ v.local;
    table = Invariant.add_node-IsValid x n.routing_table e v.table;
    store = v.store;
  }

  pub learn_all-NodeIsValid :
      (es : List NodeInfo) (n : DhtNode S) → Good n → Good (learn_all x storage world codec n es)
  unfolding learn_all
  learn_all-NodeIsValid [] n v = v
  learn_all-NodeIsValid (e ∷ es) n v =
      learn_all-NodeIsValid es (learn x storage world codec n e) (learn-NodeIsValid n e v)

  after_pong-NodeIsValid :
      (n : DhtNode S) (a : NodeAddr) (now : ℕ) (p : Option Pong) (d : ℕ)
      → Good n
      → Good (after_pong x storage world codec n a now p d).0
  after_pong-NodeIsValid n a now none d v = v
  after_pong-NodeIsValid n a now (some p) d v = learn-NodeIsValid n _ v

  after_nodes-NodeIsValid :
      (n : DhtNode S) (r : Option FindNodeResult) (d : ℕ)
      → Good n
      → Good (after_nodes x storage world codec n r d).0
  after_nodes-NodeIsValid n none d v = v
  after_nodes-NodeIsValid n (some r) d v = learn_all-NodeIsValid r.nodes n v

  after_answer-NodeIsValid :
      (n : DhtNode S) (ts : List NodeInfo) (r : Option FindNodeResult)
      → Good n
      → Good (after_answer x storage world codec n ts r).1
  after_answer-NodeIsValid n ts none v = v
  after_answer-NodeIsValid n ts (some r) v = learn_all-NodeIsValid r.nodes n v

  greet-NodeIsValid :
      (n : DhtNode S) (w : W) (a : NodeAddr) (d : ℕ)
      → Good n
      → Kept ℕ (greet x storage world codec n w a d)
  unfolding greet
  greet-NodeIsValid n w a d v =
      by_option (Kept ℕ)
        (codec.encode_ping (record { sender = n.own_identity; sender_addr = n.addr }))
        (record { node = v }) (λ b. record { node = after_pong-NodeIsValid n a _ _ d v })

  ask-NodeIsValid :
      (n : DhtNode S) (w : W) (a : NodeAddr) (d : ℕ)
      → Good n
      → Kept ℕ (ask x storage world codec n w a d)
  unfolding ask
  ask-NodeIsValid n w a d v =
      by_option (Kept ℕ)
        (codec.encode_find_node
          (record { sender = n.own_identity; sender_addr = n.addr; target = n.own_id }))
        (record { node = v })
        (λ b. record {
          node =
              after_nodes-NodeIsValid n
                (and_decode
                  (body_of msg_find_node_result (world.send_request w a msg_find_node b).0)
                  codec.decode_find_node_result)
                d v;
        })

  bootstrap_from-NodeIsValid :
      (seeds : List NodeAddr) (n : DhtNode S) (w : W) (d : ℕ)
      → Good n
      → Kept ℕ (bootstrap_from x storage world codec seeds n w d)
  unfolding bootstrap_from
  bootstrap_from-NodeIsValid [] n w d v = record { node = v }
  bootstrap_from-NodeIsValid (a ∷ seeds) n w d v =
      let first = greet x storage world codec n w a d in
      let v1 = (greet-NodeIsValid n w a d v).node in
      by_result (Kept ℕ) first.0 (λ e. record { node = v1 })
        (λ d1.
          let v2 = (ask-NodeIsValid first.1 first.2 a d1 v1).node in
          by_result (Kept ℕ) (ask x storage world codec first.1 first.2 a d1).0
            (λ e. record { node = v2 })
            (λ d2.
              bootstrap_from-NodeIsValid seeds (ask x storage world codec first.1 first.2 a d1).1
                (ask x storage world codec first.1 first.2 a d1).2 d2 v2))

  widen-NodeIsValid :
      (nodes : List NodeInfo) (key : Hash) (n : DhtNode S) (w : W) (ts : List NodeInfo)
      → Good n
      → Kept (List NodeInfo) (widen x storage world codec nodes key n w ts)
  unfolding widen
  widen-NodeIsValid [] key n w ts v = record { node = v }
  widen-NodeIsValid (e ∷ nodes) key n w ts v =
      by_option (Kept (List NodeInfo))
        (codec.encode_find_node
          (record { sender = n.own_identity; sender_addr = n.addr; target = key }))
        (record { node = v })
        (λ body.
          let (resp, w1) = world.send_request w e.addr msg_find_node body in
          let found =
            and_decode (body_of msg_find_node_result resp) codec.decode_find_node_result in
          widen-NodeIsValid nodes key (after_answer x storage world codec n ts found).1 w1
            (after_answer x storage world codec n ts found).0
            (after_answer-NodeIsValid n ts found v))

  store_under-NodeIsValid :
      (keys : List Hash) (d : Descriptor) (n : DhtNode S) (w : W) (total : ℕ)
      → Good n
      → Kept ℕ (store_under x storage world codec keys d n w total)
  unfolding store_under
  store_under-NodeIsValid [] d n w total v = record { node = v }
  store_under-NodeIsValid (key ∷ keys) d n w total v =
      let closest = closest_nodes x n.routing_table key bucket_size in
      let (widened, n1, w1) =
        widen x storage world codec (take n.config.alpha closest) key n w closest in
      let u = (widen-NodeIsValid (take n.config.alpha closest) key n w closest v).node in
      by_result (Kept ℕ) widened (λ e. record { node = u })
        (λ ts.
          by_option (Kept ℕ)
            (codec.encode_store
              (record { sender = n1.own_identity; sender_addr = n1.addr; descriptor = d }))
            (record { node = u })
            (λ body.
              let nearest = take bucket_size (sort_by (nearer_or_equal x key) ts) in
              let (sum, w2) = send_stores x storage world codec nearest n1.own_id body w1 total in
              store_under-NodeIsValid keys d n1 w2 sum u))

  -- Over a storage that keeps its laws, whatever the network answers, joining it (bootstrap) and
  -- replicating a descriptor (iterative_store) leave a valid node valid.
  pub client-NodeIsValid :
      StorageLaws x storage Valid
      → (n : DhtNode S) (w : W) → Good n
      → ((seeds : List NodeAddr) → Good (bootstrap x storage world codec n w seeds).1)
        × ((d : Descriptor) → Good (iterative_store x storage world codec n w d).1)
  unfolding bootstrap iterative_store
  client-NodeIsValid laws n w v = (
    λ seeds. (bootstrap_from-NodeIsValid seeds n w 0 v).node,
    λ d.
        let u = (store_under-NodeIsValid d.routing_keys d n w 0 v).node in
        (by_result (Kept ℕ) (store_under x storage world codec d.routing_keys d n w 0).0
          (λ e. record { node = u })
          (λ total. record {
            node = record {
              own_identity = u.own_identity;
              own_id = u.own_id;
              local = u.local;
              table = u.table;
              store = laws.store-Valid _ d _ u.store;
            };
          })).node,
  )
