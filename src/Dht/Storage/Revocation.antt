-- ===== src/Dht/Storage/Revocation.antt =====
-- Revocations in mesh-dht/src/storage.rs: who may revoke what, and what is left of the target.
use mars_protocol.Common.{
  ℕ, ◌≡◌, ◌≢◌, refl, sym, ap, ◌∙◌, false, some, find, Elem, All_of_Elem, lookup-insert_self,
  All-Elem, ◌==◌, eq_iff, lookup, arith, Option-cases, inl, inr, Result, ok, err, nat_eq, list_eq,
}
use mars_protocol.Core.External.{External}
use mars_protocol.Core.Hash.{
  Hash, hash_eq, schema_hash_core_revocation, schema_hash_core_key_rotation,
}
use mars_protocol.Core.Identity.{identity_eq}
use mars_protocol.Core.Descriptor.{Descriptor}
use mars_protocol.Dht.Storage.Parse.{
  StoreError, ValidationFailure, revocation_target, validation_failed,
  revocation_publisher_mismatch,
}
use mars_protocol.Dht.Storage.Shrinks.{AllStored, AllStored-accept, stored_at, AllStored-drop_empty}
use mars_protocol.Dht.Storage.Cases.{store-IsFresh, IsFresh, recorded}
use mars_protocol.Dht.Storage.Later.{set_insert_adds}
use mars_protocol.Dht.Storage.Write.{under, accept_adds, accept_keeps}
use mars_protocol.Dht.Storage.{
  DescriptorStore, dedup_key, dedup_key_eq, all_stored, revoke, process_revocation, and_then,
  accept, process, store_descriptor_at,
}
use mars_protocol.Dht.Storage.Search.{
  find_sound, find_complete, All-all_stored, Elem-all_stored, AllStored_of_all_stored,
  AllStored-without,
}

module _ (x : External) where
  -- a revocation of `target`
  pub record Revokes (d : Descriptor) (target : Hash) : Type 0 where
    pub schema : d.schema_hash ≡ schema_hash_core_revocation x
    pub only : d.schema_hash ≢ schema_hash_core_key_rotation x
    pub names : revocation_target x d.payload ≡ ok target

  process-Revokes :
      (s : DescriptorStore) (d : Descriptor) (target : Hash)
      → Revokes d target
      → process x s d ≡ revoke s d target
  unfolding process process_revocation
  process-Revokes s d target r =
      let plain : (d.schema_hash == schema_hash_core_key_rotation x) ≡ false =
        ground (arith, eq_iff d.schema_hash (schema_hash_core_key_rotation x), r.only) in
      let special = (eq_iff d.schema_hash (schema_hash_core_revocation x)).1 r.schema in
      rw (special, process_revocation, r.names, plain) (unchanged (revoke s d target))
    where
      unchanged :
          (p : Result StoreError (Unit {0}) × DescriptorStore) → and_then p (λ s'. (ok tt, s')) ≡ p
      unchanged (ok tt, t) = refl
      unchanged (err e, t) = refl

  -- what an accepted revocation leaves
  pub record IsRevoked (s' : DescriptorStore) (target : Hash) : Type 0 where
    pub recorded : Elem target s'.revoked
    pub removed : AllStored (λ key e. e.id ≢ target) s'.store

  -- what a refused one leaves
  pub record IsRefused (s s' : DescriptorStore) (d : Descriptor) : Type 0 where
    pub unchanged : s'.revoked ≡ s.revoked
    pub taken_back : AllStored (λ key e. e.id ≢ d.id) s'.store

  revoke_own :
      (s : DescriptorStore) (d : Descriptor) (target : Hash)
      → AllStored (λ key e. e.id ≡ target → e.publisher ≡ d.publisher) s.store
      → ((revoke s d target).0 ≡ ok tt) × IsRevoked (revoke s d target).1 target
  unfolding revoke
  revoke_own s d target own =
      let test = λ (e : Descriptor). e.id == target in
      elim (Option-cases (find test (all_stored s.store))) [
        | inl unknown ↦
            rw (revoke, unknown)
              (
                refl,
                record {
                  recorded = set_insert_adds target s.revoked;
                  removed =
                      AllStored_of_all_stored (λ e. e.id ≢ target) s.store
                        (All_of_Elem _ _
                          (λ e m i. find_complete test _ e m ((eq_iff e.id target).1 i) unknown));
                },
              )
        | inr (e, known) ↦
            let found =
              find_sound test (λ f. f.id ≡ target → f.publisher ≡ d.publisher) _ e
                (All-all_stored (λ f. f.id ≡ target → f.publisher ≡ d.publisher) s.store own)
                known in
            let same =
              (eq_iff d.publisher e.publisher).1 (sym (found.0 ((eq_iff e.id target).0 found.1))) in
            rw (revoke, known, same)
              (
                refl,
                record {
                  recorded = set_insert_adds target _;
                  removed =
                      AllStored-drop_empty (λ key f. f.id ≢ target) _
                        (AllStored-without target s.store);
                },
              )
      ]

  revoke_foreign :
      (s : DescriptorStore) (d e : Descriptor) (target key : Hash)
      → Elem e (under s.store key)
      → e.id ≡ target
      → AllStored (λ key f. f.id ≡ target → f.publisher ≢ d.publisher) s.store
      → ((revoke s d target).0 ≡ err revocation_publisher_mismatch)
        × IsRefused s (revoke s d target).1 d
  unfolding revoke
  revoke_foreign s d e target key m i foreign =
      let test = λ (f : Descriptor). f.id == target in
      elim (Option-cases (find test (all_stored s.store))) [
        | inl unknown ↦ absurd (
            find_complete test _ e (Elem-all_stored e s.store key m) ((eq_iff e.id target).1 i)
              unknown)
        | inr (f, known) ↦
            let found =
              find_sound test (λ f. f.id ≡ target → f.publisher ≢ d.publisher) _ f
                (All-all_stored (λ f. f.id ≡ target → f.publisher ≢ d.publisher) s.store foreign)
                known in
            let other : (d.publisher == f.publisher) ≡ false =
              ground
                (arith, eq_iff d.publisher f.publisher, found.0 ((eq_iff f.id target).0 found.1)) in
            rw (revoke, known, other)
              (refl, record { unchanged = refl; taken_back = AllStored-without d.id s.store })
      ]

  module _ (s : DescriptorStore) (d : Descriptor) (target : Hash) (now : ℕ) (r : Revokes d target)
      (f : IsFresh x s d now) where
    runs : store_descriptor_at x s d now ≡ revoke (accept x (recorded x s d now) d) d target
    runs = store-IsFresh x s d now f ∙ process-Revokes _ d target r

    -- A revocation that passes the checks of a STORE, where the schemas of revocation and rotation
    -- have different hashes, succeeds if its publisher published every stored descriptor that has
    -- the target id, and so whoever sends it if none is stored: the id is then in the revoked set
    -- and no descriptor with that id is stored any more.
    pub store_descriptor_at-own_revocation :
        AllStored (λ key e. e.id ≡ target → e.publisher ≡ d.publisher) s.store
        → ((store_descriptor_at x s d now).0 ≡ ok tt)
          × IsRevoked (store_descriptor_at x s d now).1 target
    store_descriptor_at-own_revocation own = rw runs (
        revoke_own (accept x (recorded x s d now) d) d target (
          AllStored-accept (λ key e. e.id ≡ target → e.publisher ≡ d.publisher) x
            (recorded x s d now) d (λ key e. e.id ≡ target → e.publisher ≡ d.publisher) own
            (λ key e h ne i. h i) (λ key m i. refl)))

    -- A revocation that passes the checks of a STORE, of a stored descriptor that someone else
    -- published, is refused: the revoked set stays as it is and the revocation is not kept. It is
    -- supposed that no descriptor with the target id is the revoker's own and that the revocation
    -- does not name its own id.
    pub store_descriptor_at-foreign_revocation :
        (e : Descriptor) (key : Hash)
        → Elem e (under s.store key)
        → e.id ≡ target
        → AllStored (λ key g. g.id ≡ target → g.publisher ≢ d.publisher) s.store
        → d.id ≢ target
        → ((store_descriptor_at x s d now).0 ≡ err revocation_publisher_mismatch)
          × IsRefused s (store_descriptor_at x s d now).1 d
    store_descriptor_at-foreign_revocation e key m i foreign other =
        let start = recorded x s d now in
        let apart : dedup_key e ≢ dedup_key d = λ q.
          All-Elem _ e (under s.store key)
            (stored_at (λ key g. g.id ≡ target → g.publisher ≢ d.publisher) key s.store foreign) m i
            (ap (λ k. k.publisher) q) in
        let answer =
          revoke_foreign (accept x start d) d e target key (accept_keeps x start d e key apart m) i
            (AllStored-accept (λ key g. g.id ≡ target → g.publisher ≢ d.publisher) x start d
              (λ key g. g.id ≡ target → g.publisher ≢ d.publisher) foreign (λ key g h ne. h)
              (λ key n j. absurd (other j))) in
        rw runs
          (answer.0, record { unchanged = answer.1.unchanged; taken_back = answer.1.taken_back })

  -- A revocation that passes the checks of a STORE, with a payload that cannot be read, is
  -- answered with an error, and still it is stored under all its keys and its sequence is
  -- recorded.
  pub store_descriptor_at-unreadable_revocation :
      (s : DescriptorStore) (d : Descriptor) (now : ℕ) (e : ValidationFailure)
      → d.schema_hash ≡ schema_hash_core_revocation x
      → revocation_target x d.payload ≡ err e
      → IsFresh x s d now
      → ((store_descriptor_at x s d now).0 ≡ err (validation_failed e))
        × ((key : Hash)
            → Elem key d.routing_keys
            → Elem d (under (store_descriptor_at x s d now).1.store key))
        × (lookup (dedup_key d) (store_descriptor_at x s d now).1.sequences ≡ some d.sequence)
  unfolding process process_revocation
  store_descriptor_at-unreadable_revocation s d now e schema bad f =
      let special = (eq_iff d.schema_hash (schema_hash_core_revocation x)).1 schema in
      rw (store-IsFresh x s d now f, process, special, process_revocation, bad)
        (
          refl,
          λ key m. accept_adds x (recorded x s d now) d key m,
          lookup-insert_self (dedup_key d) d.sequence s.sequences,
        )
