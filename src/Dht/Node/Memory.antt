-- ===== src/Dht/Node/Memory.antt =====
-- What a node of mesh-dht/src/node.rs over the in-memory store of storage.rs answers to FIND_VALUE.
use mars_protocol.Common.{
  ℕ, zero, suc, ◌≤◌, min, ◌≡◌, ◌≢◌, ap, sym, ◌∙◌, subst, some, List, [], ◌∷◌, length, take, ok,
  Elem, IsClock, take_of_length-le, inl, inr,
}
use mathlib.Core.Option.{some-injective}
use mars_protocol.Core.External.{External}
use mars_protocol.Core.Descriptor.{Descriptor, validate}
use mars_protocol.Core.Message.{FindValue}
use mars_protocol.Dht.Distance.Metric.{IsKey}
use mars_protocol.Dht.Storage.{DescriptorStore, get_descriptors_at}
use mars_protocol.Dht.Storage.Invariant.{IsValid}
use mars_protocol.Dht.Storage.Serve.{IsServed, stored, get_descriptors_at_iff}
use mars_protocol.Dht.Node.Interface.{memory_storage}
use mars_protocol.Dht.Node.{DhtNode, handle_find_value}
use mars_protocol.Dht.Node.Found.{LetsQuery, empty_or_not, handle_find_value-IsFindValueAnswer}

Elem_of_take : {A : Type 0} (k : ℕ) (xs : List A) (a : A) → Elem a (take k xs) → Elem a xs
Elem_of_take zero xs a m = elim m [ ]
Elem_of_take (suc k) [] a m = elim m [ ]
Elem_of_take (suc k) (b ∷ xs) a (inl same) = inl same
Elem_of_take (suc k) (b ∷ xs) a (inr m) = inr (Elem_of_take k xs a m)

module _ (x : External) (n : DhtNode DescriptorStore) (v : IsValid x n.store) (req : FindValue)
    (seen now : ℕ) where
  abbrev IsReply : List Descriptor → Type 0
  IsReply ds = (handle_find_value x (memory_storage x) n req seen now).0.descriptors ≡ some ds

  abbrev MayGet : Descriptor → Type 0
  MayGet d = Elem d (stored x n.store v req.key) × IsServed n.store.revoked req.filters now d

  -- By a clock below 2^63 and for a key of 32 bytes, a node with a valid in-memory store that lets
  -- the query through answers FIND_VALUE only with descriptors that are stored under the key, list
  -- it, were found valid when they came in, are not revoked, are alive and pass the filters; and
  -- it returns each of those if all that can be read fit in what the request asks for and the
  -- server allows.
  pub handle_find_value-memory :
      IsClock now
      → IsKey req.key
      → LetsQuery x (memory_storage x) n req.key
      → ((ds : List Descriptor) (d : Descriptor)
          → IsReply ds
          → Elem d ds
          → MayGet d × Elem req.key d.routing_keys × ((t : ℕ) × (validate x d t ≡ ok tt)))
        × ((d : Descriptor)
            → MayGet d
            → length (get_descriptors_at n.store req.key req.filters now)
              ≤ min req.max_results n.config.max_find_value_results
            → (ds : List Descriptor) × IsReply ds × Elem d ds)
  handle_find_value-memory clock key lets =
      let found = get_descriptors_at n.store req.key req.filters now in
      let allowance = min req.max_results n.config.max_find_value_results in
      let answer = handle_find_value-IsFindValueAnswer x (memory_storage x) n req seen now key in
      let facts =
        λ (d : Descriptor). get_descriptors_at_iff x n.store v req.key req.filters now d clock in
      let given = λ (ne : found ≢ []). ap (λ r. r.descriptors) (answer.hit lets ne) in
      (
        λ ds d e m. elim (empty_or_not found) [
          | inl nothing ↦ absurd (cc (ap (λ r. r.descriptors) (answer.missing lets nothing), e))
          | inr ne ↦
              let cut : take allowance found ≡ ds = some-injective _ _ (sym (given ne) ∙ e) in
              let here : Elem d found =
                Elem_of_take allowance found d (subst (Elem d) (sym cut) m) in
              let (listed, accepted) = (facts d).1 here in ((facts d).0.0 here, listed, accepted)
        ],
        λ d may few.
            let here = (facts d).0.1 may in
            let ne : found ≢ [] = λ e. elim (subst (Elem d) e here) [ ] in
            (found, given ne ∙ ap some (take_of_length-le allowance found few), here),
      )
