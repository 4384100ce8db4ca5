-- ===== src/Dht/Storage/Invariant.antt =====
-- The invariant of the store in mesh-dht/src/storage.rs, which every method keeps on every branch.
use mars_protocol.Common.{
  ℕ, ◌≡◌, refl, sym, subst, ◌∙◌, List, [], ◌∷◌, Elem, HashMap, eq_iff, lookup, lookup-insert,
  lookup-insert_self, Distinct, insert-Distinct, map_values-Distinct, arith, some, ok, nat_eq,
  list_eq,
}
use mars_protocol.Core.External.{External}
use mars_protocol.Core.Hash.{Hash, hash_eq}
use mars_protocol.Core.Descriptor.{Descriptor, validate}
use mars_protocol.Dht.Storage.Shrinks.{
  AllStored, AllStored-accept, OnlyShrinks, same, filtered, compacted, Shrinks-AllStored,
  Shrinks-Distinct, process-OnlyShrinks,
}
use mars_protocol.Dht.Storage.Cases.{store-StoreCase, rejected, limited, stale, written, recorded}
use mars_protocol.Dht.Storage.{
  DescriptorStore, DedupKey, Index, dedup_key, dedup_key_eq, new, retain_all, push_under, accept,
  store_descriptor_at, evict_expired_at,
}

push_under-Distinct :
    (keys : List Hash) (d : Descriptor) (store : Index)
    → Distinct store
    → Distinct (push_under keys d store)
unfolding push_under
push_under-Distinct [] d store h = h
push_under-Distinct (key ∷ keys) d store h =
    push_under-Distinct keys d _ (insert-Distinct key _ store h)

module _ (x : External) where
  -- What the store keeps under a key: the descriptor lists that key, it was once found valid, and its
  -- sequence is the latest of its slot.
  pub record IsHeld (sequences : HashMap DedupKey ℕ) (key : Hash) (d : Descriptor) : Type 0 where
    pub listed : Elem key d.routing_keys
    pub accepted : (t : ℕ) × (validate x d t ≡ ok tt)
    pub tracked : lookup (dedup_key d) sequences ≡ some d.sequence

  pub record IsValid (s : DescriptorStore) : Type 0 where
    pub distinct : Distinct s.store
    pub held : AllStored (IsHeld s.sequences) s.store

  IsValid-recorded :
      (s : DescriptorStore) (d : Descriptor) (now : ℕ) → IsValid s → IsValid (recorded x s d now)
  IsValid-recorded s d now v = record { distinct = v.distinct; held = v.held }

  -- The empty store is valid.
  pub new-IsValid : IsValid new
  unfolding new
  new-IsValid = record { distinct = tt; held = tt }

  accept-IsValid :
      (s : DescriptorStore) (d : Descriptor) (t : ℕ)
      → IsValid s
      → validate x d t ≡ ok tt
      → IsValid (accept x s d)
  unfolding retain_all
  accept-IsValid s d t v good =
      let s' = accept x s d in
      record {
        distinct =
            push_under-Distinct d.routing_keys d _ (map_values-Distinct _ s.store v.distinct);
        held =
            AllStored-accept (IsHeld s'.sequences) x s d (IsHeld s.sequences) v.held
              (λ key e h ne. record {
                listed = h.listed;
                accepted = h.accepted;
                tracked =
                    lookup-insert (dedup_key d) (dedup_key e) d.sequence s.sequences
                    ∙ ground (arith, h.tracked, eq_iff (dedup_key d) (dedup_key e), ne);
              })
              (λ key m. record {
                listed = m;
                accepted = (t, good);
                tracked = lookup-insert_self (dedup_key d) d.sequence s.sequences;
              });
      }

  shrunk-IsValid : (s t : DescriptorStore) → OnlyShrinks s t → IsValid s → IsValid t
  shrunk-IsValid s t o v = record {
    distinct = Shrinks-Distinct o.store v.distinct;
    held =
        subst (λ q. AllStored (IsHeld q) t.store) (sym o.sequences)
          (Shrinks-AllStored (IsHeld s.sequences) o.store v.held);
  }

  -- On every branch a STORE keeps the store valid: no key twice in the index, every descriptor
  -- under a key lists that key, was found valid when it came in, and has the latest sequence of
  -- its slot.
  pub store_descriptor_at-IsValid :
      (s : DescriptorStore) (d : Descriptor) (now : ℕ)
      → IsValid s
      → IsValid (store_descriptor_at x s d now).1
  store_descriptor_at-IsValid s d now v = elim (store-StoreCase x s d now) [
    | rejected e bad here ↦ rw here v
    | limited good refused here ↦ rw here (IsValid-recorded s d now v)
    | stale current good allowed known older here ↦ rw here (IsValid-recorded s d now v)
    | written fresh here ↦
        let start = recorded x s d now in
        rw here (
          shrunk-IsValid _ _ (process-OnlyShrinks x (accept x start d) d)
            (accept-IsValid start d now (IsValid-recorded s d now v) fresh.valid))
  ]

  -- So does the removal of what has expired.
  pub evict_expired_at-IsValid :
      (s : DescriptorStore) (now : ℕ) → IsValid s → IsValid (evict_expired_at s now)
  unfolding evict_expired_at
  evict_expired_at-IsValid s now v =
      shrunk-IsValid s _
        (record { store = compacted (filtered _ same); sequences = refl; rate_limiter = refl }) v
