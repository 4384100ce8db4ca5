-- ===== src/Dht/Node/Found.antt =====
-- What a node of mesh-dht/src/node.rs answers to FIND_VALUE.
use mars_protocol.Common.{
  Result-cases, ℕ, min, ◌≡◌, ◌≢◌, ◌⊎◌, refl, ap, sym, ◌∙◌, subst, none, some, Option-cases, List,
  [], ◌∷◌, ok, inl, inr, ltb, length, length-take, take, if◌then◌else◌, Bool-cases, arith,
  take_of_length-le,
}
use mathlib.Core.Option.{some-injective}
use mars_protocol.Core.External.{External}
use mars_protocol.Core.Hash.{Hash}
use mars_protocol.Core.Identity.{identity_eq}
use mars_protocol.Core.Descriptor.{Descriptor}
use mars_protocol.Core.Message.{FindValue, FindValueResult}
use mars_protocol.Dht.Distance.Metric.{IsKey}
use mars_protocol.Dht.Routing.{closest_nodes, bucket_size}
use mars_protocol.Dht.Node.Interface.{DescriptorStorage, ProtocolHook}
use mars_protocol.Dht.Node.{
  DhtNode, update_routing_table, find_value_result, answer_find_value, handle_find_value, HookCall,
  post_query,
}

-- A list that was cut to `max` elements, as the source does it, is its first `max` elements.
cut_is_take :
    {A : Type 0} (max : ℕ) (xs : List A)
    → (if ltb max (length xs) then take max xs else xs) ≡ take max xs
cut_is_take max xs = elim (Bool-cases (ltb max (length xs))) [
  | inl long ↦ rw long refl
  | inr short ↦ rw short (sym (take_of_length-le max xs (ground arith)))
]

pub empty_or_not : {A : Type 0} (xs : List A) → (xs ≡ []) ⊎ (xs ≢ [])
empty_or_not [] = inl refl
empty_or_not (x ∷ xs) = inr (λ e. absurd cc)

module _ (x : External) {S : Type 0} (storage : DescriptorStorage S) where
  -- whether the hooks let a query through
  abbrev pub LetsQuery : DhtNode S → Hash → Type 0
  LetsQuery n key = (h : ProtocolHook) → n.hooks ≡ some h → h.pre_query key ≡ ok tt

  abbrev found : DhtNode S → FindValue → ℕ → List Descriptor
  found n req now = (storage.get_descriptors n.store req.key req.filters now).0

  -- the storage behind that read
  abbrev pub after_read : DhtNode S → FindValue → ℕ → S
  after_read n req now = (storage.get_descriptors n.store req.key req.filters now).1

  abbrev allowance : DhtNode S → FindValue → ℕ
  allowance n req = min req.max_results n.config.max_find_value_results

  -- `m` is the node with the sender in its table
  pub record IsFindValueAnswer (n m : DhtNode S) (req : FindValue) (now : ℕ)
      (r : FindValueResult × DhtNode S × List HookCall) : Type 0 where
    pub refused :
        (LetsQuery n req.key → ⊥) → r ≡ (record { descriptors = none; nodes = none }, m, [])
    pub missing :
        LetsQuery n req.key
        → found n req now ≡ []
        → r.0 ≡ record {
          descriptors = none;
          nodes = some (closest_nodes x m.routing_table req.key bucket_size);
        }
    pub hit :
        LetsQuery n req.key
        → found n req now ≢ []
        → r.0
          ≡ record { descriptors = some (take (allowance n req) (found n req now)); nodes = none }
    pub after : LetsQuery n req.key → r.1 ≡ record m { store = after_read n req now }
    pub called :
        (h : ProtocolHook)
        → n.hooks ≡ some h
        → LetsQuery n req.key
        → r.2 ≡ post_query req.key (min (allowance n req) (length (found n req now))) ∷ []

  result_missing :
      (m : DhtNode S) (req : FindValue)
      → find_value_result x storage m req [] ≡ record {
        descriptors = none;
        nodes = some (closest_nodes x m.routing_table req.key bucket_size);
      }
  unfolding find_value_result
  result_missing m req = refl

  result_hit :
      (m : DhtNode S) (req : FindValue) (ds : List Descriptor)
      → ds ≢ []
      → find_value_result x storage m req ds
        ≡ record { descriptors = some (take (allowance m req) ds); nodes = none }
  unfolding find_value_result
  result_hit m req [] ne = absurd (ne refl)
  result_hit m req (d ∷ ds) ne =
      ap (λ es. record { descriptors = some es; nodes = none })
        (cut_is_take (allowance m req) (d ∷ ds))

  module _ (n : DhtNode S) (req : FindValue) (seen now : ℕ) where
    abbrev updated : DhtNode S
    updated = update_routing_table x storage n req.sender req.sender_addr seen

    counted :
        (ds : List Descriptor)
        → (elim (find_value_result x storage updated req ds).descriptors [
          | none ↦ 0
          | some es ↦ length es
        ])
          ≡ min (allowance n req) (length ds)
    unfolding update_routing_table
    counted [] = rw (result_missing updated req) (omega arith)
    counted (d ∷ ds) =
        rw (result_hit updated req (d ∷ ds) (λ e. absurd cc))
          (length-take (allowance n req) (d ∷ ds))

    answered :
        LetsQuery n req.key
        → IsFindValueAnswer n updated req now (answer_find_value x storage updated req now)
    unfolding update_routing_table find_value_result
    answered lets = record {
      refused = λ no. absurd (no lets);
      missing = λ l e. rw e (result_missing updated req);
      hit = λ l ne. result_hit updated req (found n req now) ne;
      after = λ l. refl;
      called = λ h e l. rw (e, counted (found n req now)) refl;
    }

    pub handle_find_value-IsFindValueAnswer :
        IsKey req.key
        → IsFindValueAnswer n
            (update_routing_table x storage n req.sender req.sender_addr seen)
            req
            now
            (handle_find_value x storage n req seen now)
    unfolding handle_find_value update_routing_table
    handle_find_value-IsFindValueAnswer key =
        let claim = IsFindValueAnswer n updated req now in
        elim (Option-cases n.hooks) [
          | inl plain ↦
              let e : handle_find_value x storage n req seen now
                  ≡ answer_find_value x storage updated req now =
                simp (handle_find_value, plain) refl in
              subst claim (sym e) (answered (λ h e. absurd cc))
          | inr (h, hooked) ↦ elim (Result-cases (h.pre_query req.key)) [
            | inl (u, good) ↦
                let e : handle_find_value x storage n req seen now
                    ≡ answer_find_value x storage updated req now =
                  simp (handle_find_value, hooked, good) refl in
                subst claim (sym e) (
                  answered (λ g f.
                    subst (λ k. k.pre_query req.key ≡ ok tt) (some-injective h g (sym hooked ∙ f))
                      good))
            | inr (reason, bad) ↦
                let no : LetsQuery n req.key → ⊥ = λ lets. absurd (cc (lets h hooked, bad)) in
                let e : handle_find_value x storage n req seen now
                    ≡ (record { descriptors = none; nodes = none }, updated, []) =
                  simp (handle_find_value, hooked, bad) refl in
                subst claim (sym e) (record {
                  refused = λ c. refl;
                  missing = λ lets. absurd (no lets);
                  hit = λ lets. absurd (no lets);
                  after = λ lets. absurd (no lets);
                  called = λ g f lets. absurd (no lets);
                })
          ]
        ]
