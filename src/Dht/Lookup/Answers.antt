-- ===== src/Dht/Lookup/Answers.antt =====
-- What the result of `lookup_value` of mesh-dht/src/node.rs says about the network.
use mathlib.Core.Option.{some-injective}
use mars_protocol.Common.{
  ℕ, ◌<◌, ◌≡◌, ◌⊎◌, inl, inr, refl, sym, ◌∙◌, ap, subst, true, false, ◌&&◌, Bool-cases,
  Option-cases, some, List, [], ◌∷◌, length, is_empty, leb, nat_eq, arith, All, Result, ok, err,
  Bytes,
}
use mars_protocol.Core.External.{External}
use mars_protocol.Core.Hash.{Hash}
use mars_protocol.Core.Descriptor.{Descriptor}
use mars_protocol.Core.Frame.{Frame, msg_find_value}
use mars_protocol.Core.Message.{NodeAddr, NodeInfo}
use mars_protocol.Dht.Routing.{all_nodes, closest_nodes, bucket_size}
use mars_protocol.Dht.Node.Interface.{DescriptorStorage}
use mars_protocol.Dht.Node.{DhtNode}
use mars_protocol.Dht.Client.{TransportError, World, MessageCodec}
use mars_protocol.Dht.Lookup.{
  Round, found_descriptors, read_result, request_of, lookup_from, broadcast, after_loop,
  lookup_value,
}

-- a network that answers a search the same way whenever it is asked
abbrev pub IsSteady :
    {W : Type 0} → World W → (NodeAddr → Bytes → Result TransportError Frame) → Type 0
IsSteady {W} world answer =
    (w : W) (to : NodeAddr) (body : Bytes)
    → (world.send_request w to msg_find_value body).0 ≡ answer to body

is_empty-nil : {A : Type 0} (xs : List A) → is_empty xs ≡ true → xs ≡ []
is_empty-nil [] h = refl
is_empty-nil (a ∷ xs) h = absurd cc

nil_is_empty : {A : Type 0} (xs : List A) → xs ≡ [] → is_empty xs ≡ false → ⊥
nil_is_empty [] e h = cc
nil_is_empty (a ∷ xs) e h = cc

ok-injective : {A : Type 0} (a b : A) → ◌≡◌ {A = Result TransportError A} (ok a) (ok b) → a ≡ b
ok-injective a b h = cc

module _ (x : External) {S : Type 0} (storage : DescriptorStorage S) {W : Type 0} (world : World W)
    (codec : MessageCodec) where
  pub broadcast-node :
      (nodes : List NodeInfo) (key : Hash) (n : DhtNode S) (w : W)
      → (broadcast x storage world codec nodes key n w).1 ≡ n
  unfolding broadcast
  broadcast-node [] key n w = refl
  broadcast-node (node ∷ nodes) key n w =
      elim (Option-cases (codec.encode_find_value (request_of x storage world codec n key))) [
        | inl unsent ↦ rw (broadcast, unsent) refl
        | inr (body, sent) ↦
            let (resp, w1) = world.send_request w node.addr msg_find_value body in
            let found = found_descriptors (read_result x storage world codec resp) in
            elim (Bool-cases (is_empty found)) [
              | inl nothing ↦ rw (broadcast, sent, nothing) (broadcast-node nodes key n w1)
              | inr something ↦ rw (broadcast, sent, something) refl
            ]
      ]

module _ (x : External) {S : Type 0} (storage : DescriptorStorage S) {W : Type 0} (world : World W)
    (codec : MessageCodec) (answer : NodeAddr → Bytes → Result TransportError Frame) where
  -- the node has no descriptors to give
  abbrev pub HasNothing : Bytes → NodeInfo → Type 0
  HasNothing body e =
      found_descriptors (read_result x storage world codec (answer e.addr body)) ≡ []

  broadcast-empty :
      (nodes : List NodeInfo) (key : Hash) (n m : DhtNode S) (w v : W) (body : Bytes)
      → IsSteady world answer
      → codec.encode_find_value (request_of x storage world codec n key) ≡ some body
      → broadcast x storage world codec nodes key n w ≡ (ok [], m, v)
      → All (HasNothing body) nodes
  unfolding broadcast
  broadcast-empty [] key n m w v body steady sent h = tt
  broadcast-empty (node ∷ nodes) key n m w v body steady sent h =
      let (resp, w1) = world.send_request w node.addr msg_find_value body in
      let found = found_descriptors (read_result x storage world codec resp) in
      let same : found
          ≡ found_descriptors (read_result x storage world codec (answer node.addr body)) =
        ap (λ r. found_descriptors (read_result x storage world codec r))
          (steady w node.addr body) in
      elim (Bool-cases (is_empty found)) [
        | inl nothing ↦
            let others =
              broadcast-empty nodes key n m w1 v body steady sent
                (rw (broadcast, sent, nothing) at h) in
            (sym same ∙ is_empty-nil found nothing, others)
        | inr something ↦
            let stopped : (ok found, n, w1) ≡ (ok [], m, v) =
              rw (broadcast, sent, something) at h in
            let nil : found ≡ [] = ok-injective found [] (ap (λ r. r.0) stopped) in
            absurd (nil_is_empty found nil something)
      ]

  loop-empty :
      (key : Hash) (n m : DhtNode S) (w v : W) (r : Result TransportError (List Descriptor))
      (body : Bytes)
      → IsSteady world answer
      → codec.encode_find_value (request_of x storage world codec m key) ≡ some body
      → after_loop x storage world codec key (r, n, w) ≡ (ok [], m, v)
      → (20 < length (all_nodes m.routing_table))
        ⊎ All (HasNothing body) (all_nodes m.routing_table)
  unfolding broadcast
  loop-empty key n m w v (err e) body steady sent h =
      let failed : ◌≡◌ {A = Result TransportError (List Descriptor)} (err e) (ok []) =
        ap (λ r. r.0) h in
      absurd cc
  loop-empty key n m w v (ok collected) body steady sent h =
      let nodes = all_nodes n.routing_table in
      elim (Bool-cases (is_empty collected && leb (length nodes) bucket_size)) [
        | inr plenty ↦
            let kept : (ok collected, n, w) ≡ (ok [], m, v) = rw plenty at h in
            let nil = ok-injective collected [] (ap (λ r. r.0) kept) in
            let many : leb (length nodes) 20 ≡ false =
              subst (λ (ds : List Descriptor). (is_empty ds && leb (length nodes) 20) ≡ false) nil
                plenty in
            inl (
              subst (λ k. 20 < length (all_nodes k.routing_table)) (ap (λ r. r.1) kept)
                (ground arith))
        | inl few ↦
            let sought : broadcast x storage world codec nodes key n w ≡ (ok [], m, v) =
              rw few at h in
            let same : n ≡ m =
              sym (broadcast-node x storage world codec nodes key n w) ∙ ap (λ r. r.1) sought in
            let asked : codec.encode_find_value (request_of x storage world codec n key)
                ≡ some body =
              ap (λ k. codec.encode_find_value (request_of x storage world codec k key)) same
              ∙ sent in
            inr (
              subst (λ k. All (HasNothing body) (all_nodes k.routing_table)) same
                (broadcast-empty nodes key n m w v body steady asked sought))
      ]

  -- In a network that answers a search the same way whenever it is asked, a lookup that ends with
  -- no descriptors means that the table holds more than 20 nodes, or that no node of the table
  -- gives descriptors when it is asked.
  pub lookup_value-empty :
      (fuel : ℕ) (n m : DhtNode S) (w v : W) (key : Hash) (body : Bytes)
      → IsSteady world answer
      → codec.encode_find_value (request_of x storage world codec m key) ≡ some body
      → lookup_value x storage world codec fuel n w key ≡ some (ok [], m, v)
      → (20 < length (all_nodes m.routing_table))
        ⊎ All (HasNothing body) (all_nodes m.routing_table)
  unfolding lookup_value
  lookup_value-empty fuel n m w v key body steady sent h =
      let start : Round = record { queried = []; collected = []; new_nodes = [] } in
      elim (Option-cases (
        lookup_from x storage world codec fuel key n w start
          (closest_nodes x n.routing_table key n.config.alpha))) [
            | inl out ↦ absurd (ground arith)
            | inr ((r, n1, w1), ended) ↦
                loop-empty key n1 m w1 v r body steady sent (some-injective _ _ (rw ended at h))
          ]
