-- ===== src/Dht/Storage/Runs.antt =====
-- Runs of the methods of mesh-dht/src/storage.rs: what holds of every store that they make.
use mars_protocol.Common.{
  any_iff, ℕ, ◌≢◌, sym, subst, true, Option, List, Elem, All, All_of_Elem, Elem_of_retain, arith,
  nat_eq, list_eq,
}
use mars_protocol.Core.External.{External}
use mars_protocol.Core.Hash.{Hash, hash_eq}
use mars_protocol.Core.Identity.{identity_eq}
use mars_protocol.Core.Descriptor.{Descriptor}
use mars_protocol.Core.Message.{FilterSet}
use mars_protocol.Dht.Storage.Invariant.{
  IsValid, new-IsValid, store_descriptor_at-IsValid, evict_expired_at-IsValid,
}
use mars_protocol.Dht.Storage.Serve.{get_is_retain}
use mars_protocol.Dht.Storage.{
  DescriptorStore, dedup_key_eq, new, store_descriptor_at, evict_expired_at, is_served,
  get_descriptors_at,
}
use mars_protocol.Dht.Storage.Later.{
  Later, Later-refl, Later-trans, store_descriptor_at-Later, evict_expired_at-Later,
}

unserved :
    (revoked : List Hash) (filters : Option FilterSet) (now : ℕ) (d : Descriptor)
    → Elem d.id revoked
    → is_served revoked filters now d ≢ true
unfolding is_served
unserved revoked filters now d m e = absurd (ground (arith, (any_iff d.id revoked).1 m))

module _ (x : External) where
  -- one call of a method that writes, and any number of them
  pub data Step (s : DescriptorStore) : DescriptorStore → Type 0 where
    store_step : (d : Descriptor) (now : ℕ) → Step s (store_descriptor_at x s d now).1
    evict_step : (now : ℕ) → Step s (evict_expired_at s now)

  pub data Reaches (s : DescriptorStore) : DescriptorStore → Type 0 where
    start : Reaches s s
    next : {t u : DescriptorStore} → Reaches s t → Step t u → Reaches s u

  Step-Later : (s t : DescriptorStore) → Step s t → Later s t
  Step-Later s _ (store_step d now) = store_descriptor_at-Later x s d now
  Step-Later s _ (evict_step now) = evict_expired_at-Later x s now

  -- Whatever STOREs and removals follow, a revoked id stays revoked, the sequence of a slot does
  -- not go down, and the rotation of an identity gets a greater number or stays with its
  -- successor.
  pub Reaches-Later : (s t : DescriptorStore) → Reaches s t → Later s t
  Reaches-Later s _ start = Later-refl s
  Reaches-Later s _ (next {t = t} {u = u} r p) =
      Later-trans (Reaches-Later s t r) (Step-Later t u p)

  Reaches-IsValid_from : (s t : DescriptorStore) → IsValid x s → Reaches s t → IsValid x t
  Reaches-IsValid_from s _ v start = v
  Reaches-IsValid_from s _ v (next {t = t} r (store_step d now)) =
      store_descriptor_at-IsValid x t d now (Reaches-IsValid_from s t v r)
  Reaches-IsValid_from s _ v (next {t = t} r (evict_step now)) =
      evict_expired_at-IsValid x t now (Reaches-IsValid_from s t v r)

  -- Every store that STOREs and removals make from the empty one is valid.
  pub Reaches-IsValid : (s : DescriptorStore) → Reaches new s → IsValid x s
  Reaches-IsValid s r = Reaches-IsValid_from new s (new-IsValid x) r

  -- Once an id is revoked in a valid store, no reader gets a descriptor with that id any more,
  -- whatever STOREs and removals follow, under any key, with any filters and at any time.
  pub revoked_never_served :
      (s t : DescriptorStore) (id : Hash) (key : Hash) (filters : Option FilterSet) (now : ℕ)
      → IsValid x s
      → Elem id s.revoked
      → Reaches s t
      → All (λ d. d.id ≢ id) (get_descriptors_at t key filters now)
  revoked_never_served s t id key filters now v gone r =
      rw (get_is_retain x t (Reaches-IsValid_from s t v r) key filters now) (
        All_of_Elem _ _ (λ d m e.
          let passed = (Elem_of_retain (is_served t.revoked filters now) d _ m).1 in
          let listed = (Reaches-Later s t r).revoked id gone in
          unserved t.revoked filters now d (subst (λ h. Elem h t.revoked) (sym e) listed) passed))
