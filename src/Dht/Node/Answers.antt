-- ===== src/Dht/Node/Answers.antt =====
-- What the handlers of mesh-dht/src/node.rs answer.
use mars_protocol.Common.{
  Result-cases, ℕ, ◌≡◌, ◌↔◌, refl, ap, sym, ◌∙◌, subst, Option, none, some, Option-cases, List, [],
  ◌∷◌, ok, inl, inr, if◌then◌else◌, true, false, Bool-cases, ◌==◌, eq_iff, arith,
}
use mathlib.Core.Option.{some-injective}
use mars_protocol.Core.External.{External}
use mars_protocol.Core.Identity.{Identity, identity_eq}
use mars_protocol.Core.Descriptor.{Descriptor}
use mars_protocol.Core.Message.{Store}
use mars_protocol.Dht.Node.Interface.{DescriptorStorage, ProtocolHook}
use mars_protocol.Dht.Node.{
  DhtNode, verify_sender_binding, update_routing_table, store_and_ack, handle_store, StoreAck,
  hook_reason, HookCall, post_store,
}

-- The binding of a sender holds exactly if the connection was authenticated as the sender.
pub verify_sender_binding_iff :
    (x : External) (sender : Identity) (peer : Option Identity)
    → (verify_sender_binding x sender peer ≡ ok tt) ↔ (peer ≡ some sender)
unfolding verify_sender_binding
verify_sender_binding_iff x sender none = (λ e. absurd cc, λ e. absurd cc)
verify_sender_binding_iff x sender (some peer) = elim (Bool-cases (sender == peer)) [
  | inl same ↦ rw same (λ e. ap some (sym ((eq_iff sender peer).0 same)), λ e. refl)
  | inr other ↦ rw other (
    λ e. absurd cc,
    λ e. absurd (ground (arith, (eq_iff sender peer).1 (sym (some-injective peer sender e)))),
  )
]

module _ (x : External) {S : Type 0} (storage : DescriptorStorage S) where
  -- whether the hooks let a STORE through
  abbrev pub LetsStore : DhtNode S → Descriptor → Type 0
  LetsStore n d = (h : ProtocolHook) → n.hooks ≡ some h → h.pre_store d ≡ ok tt

  -- A STORE
  pub record IsStoreAnswer (n : DhtNode S) (req : Store) (now : ℕ)
      (r : StoreAck × DhtNode S × List HookCall) : Type 0 where
    pub stored : (r.0.stored ≡ true) ↔ (
        LetsStore n req.descriptor
        × ((storage.store_descriptor n.store req.descriptor now).0 ≡ ok tt))
    pub reason : (r.0.stored ≡ true) ↔ (r.0.reason ≡ none)
    pub refused : (LetsStore n req.descriptor → ⊥) → r.1.store ≡ n.store
    pub written :
        LetsStore n req.descriptor
        → r.1.store ≡ (storage.store_descriptor n.store req.descriptor now).1
    pub called :
        (h : ProtocolHook)
        → n.hooks ≡ some h
        → r.2 ≡ (if r.0.stored then post_store req.descriptor ∷ [] else [])

  module _ (n : DhtNode S) (req : Store) (seen now : ℕ) where
    acked :
        LetsStore n req.descriptor
        → IsStoreAnswer n req now (
            store_and_ack x storage
              (update_routing_table x storage n req.sender req.sender_addr seen)
              req.descriptor
              now)
    unfolding store_and_ack update_routing_table
    acked lets = elim (Result-cases (storage.store_descriptor n.store req.descriptor now).0) [
      | inl (u, good) ↦
          rw (store_and_ack, good)
            (record {
              stored = (λ e. (lets, good), λ e. refl);
              reason = (λ e. refl, λ e. refl);
              refused = λ no. absurd (no lets);
              written = λ l. refl;
              called = λ h e. rw e refl;
            })
      | inr (e, bad) ↦
          rw (store_and_ack, bad)
            (record {
              stored = (λ c. absurd cc, λ c. absurd (cc (c.1, bad)));
              reason = (λ c. absurd cc, λ c. absurd cc);
              refused = λ no. absurd (no lets);
              written = λ l. refl;
              called = λ h c. refl;
            })
    ]

    -- A STORE is acknowledged as stored exactly if the hook, when there is one, lets it through
    -- and the storage takes it; otherwise the acknowledgement carries a reason. A refused STORE
    -- never reaches the storage, any other does, and post_store is called exactly once for a STORE
    -- that succeeded.
    pub handle_store-IsStoreAnswer : IsStoreAnswer n req now (handle_store x storage n req seen now)
    unfolding handle_store update_routing_table
    handle_store-IsStoreAnswer =
        let m = update_routing_table x storage n req.sender req.sender_addr seen in
        elim (Option-cases n.hooks) [
          | inl plain ↦
              let e : handle_store x storage n req seen now
                  ≡ store_and_ack x storage m req.descriptor now =
                simp (handle_store, plain) refl in
              subst (IsStoreAnswer n req now) (sym e) (acked (λ h e. absurd cc))
          | inr (h, hooked) ↦ elim (Result-cases (h.pre_store req.descriptor)) [
            | inl (u, good) ↦
                let e : handle_store x storage n req seen now
                    ≡ store_and_ack x storage m req.descriptor now =
                  simp (handle_store, hooked, good) refl in
                subst (IsStoreAnswer n req now) (sym e) (
                  acked (λ g f.
                    subst (λ k. k.pre_store req.descriptor ≡ ok tt)
                      (some-injective h g (sym hooked ∙ f)) good))
            | inr (reason, bad) ↦
                let no : LetsStore n req.descriptor → ⊥ =
                  λ lets. absurd (cc (lets h hooked, bad)) in
                let e : handle_store x storage n req seen now
                    ≡ (record { stored = false; reason = some (hook_reason reason) }, m, []) =
                  simp (handle_store, hooked, bad) refl in
                subst (IsStoreAnswer n req now) (sym e) (record {
                  stored = (λ c. absurd cc, λ c. absurd (no c.0));
                  reason = (λ c. absurd cc, λ c. absurd cc);
                  refused = λ c. refl;
                  written = λ lets. absurd (no lets);
                  called = λ g e. refl;
                })
          ]
        ]
