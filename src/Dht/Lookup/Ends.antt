-- ===== src/Dht/Lookup/Ends.antt =====
-- `lookup_value` of mesh-dht/src/node.rs ends: each round asks a node whose id was not asked before.
use mathlib.Core.Option
use mars_protocol.Common.{
  ℕ, zero, suc, ◌^◌, ◌≤◌, ◌<◌, ◌≡◌, inl, inr, refl, sym, ◌∙◌, ap, subst, Bool, true, false, not,
  ◌||◌, ◌&&◌, Bool-cases, Option-cases, Result-cases, Option, some, List, [], ◌∷◌, ◌++◌, Elem, map,
  length, any, retain, take, is_empty, ◌==◌, eq_iff, nat_eq, arith, Result, ok, err, All, All-take,
  All-retain_test,
}
use mars_protocol.Core.External.{External, HashLaws}
use mars_protocol.Core.Hash.{Hash, hash_eq}
use mars_protocol.Core.Identity.{Identity, node_id}
use mars_protocol.Core.Descriptor.{Descriptor}
use mars_protocol.Core.Frame.{msg_find_value}
use mars_protocol.Core.Message.{NodeInfo}
use mars_protocol.Dht.Routing.{closest_nodes}
use mars_protocol.Dht.Node.Interface.{DescriptorStorage}
use mars_protocol.Dht.Node.{DhtNode}
use mars_protocol.Dht.Client.{TransportError, World, MessageCodec, learn_all}
use mars_protocol.Dht.Lookup.{
  Round, gather, found_nodes, read_result, request_of, query_all, unqueried, merge_candidates,
  lookup_from, after_loop, lookup_value,
}
use mars_protocol.Dht.Lookup.Digests.{ids_of_size, length-ids_of_size, node_id-Elem}

-- how many ids of a list were not asked
abbrev unasked : List Hash → List Hash → ℕ
unasked queried ids = length (retain (λ h. not (any (λ id. id == h) queried)) ids)

any-append : (p : Hash → Bool) (xs ys : List Hash) → any p (xs ++ ys) ≡ (any p xs || any p ys)
any-append p [] ys = refl
any-append p (a ∷ xs) ys = ground (arith, any-append p xs ys)

unasked-append-le :
    (queried more ids : List Hash) → unasked (queried ++ more) ids ≤ unasked queried ids
unasked-append-le queried more [] = omega arith
unasked-append-le queried more (h ∷ ids) =
    ground (arith, any-append (λ id. id == h) queried more, unasked-append-le queried more ids)

unasked-lt :
    (queried more ids : List Hash) (h : Hash)
    → Elem h ids
    → any (λ id. id == h) queried ≡ false
    → unasked (queried ++ h ∷ more) ids < unasked queried ids
unasked-lt queried more [] h m fresh = elim m [ ]
unasked-lt queried more (g ∷ ids) h (inl e) fresh =
    let free : any (λ id. id == g) queried ≡ false =
      subst (λ k. any (λ id. id == k) queried ≡ false) (sym e) fresh in
    ground (
      arith,
      any-append (λ id. id == g) queried (h ∷ more),
      unasked-append-le queried (h ∷ more) ids,
      eq_iff h g,
      sym e,
    )
unasked-lt queried more (g ∷ ids) h (inr m) fresh =
    ground
      (arith, any-append (λ id. id == g) queried (h ∷ more), unasked-lt queried more ids h m fresh)

append_snoc : (xs : List Hash) (a : Hash) (ys : List Hash) → (xs ++ a ∷ []) ++ ys ≡ xs ++ a ∷ ys
append_snoc [] a ys = refl
append_snoc (b ∷ xs) a ys = ap (◌∷◌ b) (append_snoc xs a ys)

append_none : (xs : List Hash) → xs ++ [] ≡ xs
append_none [] = refl
append_none (b ∷ xs) = ap (◌∷◌ b) (append_none xs)

module _ (x : External) {S : Type 0} (storage : DescriptorStorage S) {W : Type 0} (world : World W)
    (codec : MessageCodec) where
  -- A round that does not fail notes all the ids that it was given.
  query_all-queried :
      (nodes : List NodeInfo) (key : Hash) (n : DhtNode S) (w : W) (r r1 : Round)
      → (query_all x storage world codec nodes key n w r).0 ≡ ok r1
      → r1.queried ≡ r.queried ++ map (λ e. node_id x e.identity) nodes
  unfolding query_all
  query_all-queried [] key n w r r1 h =
      let same : r ≡ r1 = ground arith in
      ap (λ (a : Round). a.queried) (sym same) ∙ sym (append_none r.queried)
  query_all-queried (node ∷ nodes) key n w r r1 h =
      elim (Option-cases (codec.encode_find_value (request_of x storage world codec n key))) [
        | inl unsent ↦ absurd (ground arith)
        | inr (body, sent) ↦
            let (resp, w1) = world.send_request w node.addr msg_find_value body in
            let result = read_result x storage world codec resp in
            let id = node_id x node.identity in
            query_all-queried nodes key (learn_all x storage world codec n (found_nodes result)) w1
              (gather r id result) r1 (rw (query_all, sent) at h)
            ∙ append_snoc r.queried id (map (λ e. node_id x e.identity) nodes)
      ]

  abbrev Returns : Option (Result TransportError (List Descriptor) × DhtNode S × W) → Type 0
  Returns o = (result : Result TransportError (List Descriptor) × DhtNode S × W) × (o ≡ some result)

  -- a round ends if the rounds behind it do
  round_ends :
      (fuel : ℕ) (key : Hash) (n : DhtNode S) (w : W) (r : Round) (candidates : List NodeInfo)
      (node : NodeInfo) (nodes : List NodeInfo)
      → take n.config.alpha (unqueried x storage world codec r.queried candidates) ≡ node ∷ nodes
      → ((n1 : DhtNode S) (w1 : W) (r1 : Round) (next : List NodeInfo)
          → r1.queried ≡ r.queried ++ map (λ e. node_id x e.identity) (node ∷ nodes)
          → Returns (lookup_from x storage world codec fuel key n1 w1 r1 next))
      → Returns (lookup_from x storage world codec (suc fuel) key n w r candidates)
  unfolding lookup_from
  round_ends fuel key n w r candidates node nodes chosen rest =
      let start : Round = record r { new_nodes = [] } in
      let (asked, n1, w1) = query_all x storage world codec (node ∷ nodes) key n w start in
      elim (Result-cases asked) [
        | inr (e, failed) ↦ ((err e, n1, w1), rw (lookup_from, chosen, failed) refl)
        | inl (r1, done) ↦ elim (Bool-cases (is_empty r1.new_nodes && is_empty r1.collected)) [
          | inl stuck ↦ ((ok r1.collected, n1, w1), rw (lookup_from, chosen, done, stuck) refl)
          | inr moved ↦ elim (Bool-cases (not (is_empty r1.collected))) [
            | inl found ↦
                ((ok r1.collected, n1, w1), rw (lookup_from, chosen, done, moved, found) refl)
            | inr none_yet ↦
                let (result, ends) =
                  rest n1 w1 r1 (merge_candidates x storage world codec key candidates r1.new_nodes)
                    (query_all-queried (node ∷ nodes) key n w start r1 done) in
                (result, rw (lookup_from, chosen, done, moved, none_yet) ends)
          ]
        ]
      ]

  module _ (ids : List Hash) (all_ids : (i : Identity) → Elem (node_id x i) ids) where
    lookup_from_ends :
        (fuel : ℕ) (key : Hash) (n : DhtNode S) (w : W) (r : Round) (candidates : List NodeInfo)
        → unasked r.queried ids < fuel
        → Returns (lookup_from x storage world codec fuel key n w r candidates)
    unfolding lookup_from unqueried
    lookup_from_ends zero key n w r candidates h = absurd (omega arith)
    lookup_from_ends (suc fuel) key n w r candidates h =
        let fresh = λ (e : NodeInfo). not (any (λ id. id == node_id x e.identity) r.queried) in
        by_nodes (λ n1 w1 r1. lookup_from_ends fuel key n1 w1 r1)
          (take n.config.alpha (retain fresh candidates)) refl
          (All-take _ n.config.alpha (retain fresh candidates) (All-retain_test fresh candidates))
      where
        by_nodes :
            ((n1 : DhtNode S) (w1 : W) (r1 : Round) (next : List NodeInfo)
              → unasked r1.queried ids < fuel
              → Returns (lookup_from x storage world codec fuel key n1 w1 r1 next))
            → (nodes : List NodeInfo)
            → take n.config.alpha (unqueried x storage world codec r.queried candidates) ≡ nodes
            → All (λ e. not (any (λ id. id == node_id x e.identity) r.queried) ≡ true) nodes
            → Returns (lookup_from x storage world codec (suc fuel) key n w r candidates)
        by_nodes rest [] next _ = ((ok r.collected, n, w), rw (lookup_from, next) refl)
        by_nodes rest (node ∷ nodes) next (first, _) =
            round_ends fuel key n w r candidates node nodes next (λ n1 w1 r1 more noted.
              let fewer =
                unasked-lt r.queried (map (λ e. node_id x e.identity) nodes) ids
                  (node_id x node.identity) (all_ids node.identity) (ground arith) in
              rest n1 w1 r1 more (subst (λ q. unasked q ids < fuel) (sym noted) (omega arith)))

  unasked-none : (ids : List Hash) → unasked [] ids ≡ length ids
  unasked-none [] = refl
  unasked-none (h ∷ ids) = ap suc (unasked-none ids)

  -- Whatever the network answers, the loop of lookup_value ends: more rounds of fuel than there
  -- are digests of 32 bytes always give a result.
  pub lookup_value_terminates :
      (fuel : ℕ) (n : DhtNode S) (w : W) (key : Hash)
      → HashLaws x
      → 256 ^ 32 < fuel
      → (result : Result TransportError (List Descriptor) × DhtNode S × W) × (lookup_value x storage
            world codec fuel n w key
          ≡ some result)
  unfolding lookup_value
  lookup_value_terminates fuel n w key laws enough =
      let start : Round = record { queried = []; collected = []; new_nodes = [] } in
      let (result, ends) =
        lookup_from_ends (ids_of_size 32) (node_id-Elem x laws) fuel key n w start
          (closest_nodes x n.routing_table key n.config.alpha)
          (omega (arith, unasked-none (ids_of_size 32), length-ids_of_size 32)) in
      (
        after_loop x storage world codec key result,
        ap (Option.map (after_loop x storage world codec key)) ends,
      )
