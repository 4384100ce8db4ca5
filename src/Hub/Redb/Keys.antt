-- ===== src/Hub/Redb/Keys.antt =====
-- Lookups in the tables of mesh-hub/src/storage/redb.rs after a removal.
use mars_protocol.Common.{
  ◌≡◌, none, [], ◌∷◌, arith, HashMap, lookup, if◌then◌else◌, Eq, ◌==◌, eq_iff,
}
use mars_protocol.Hub.Redb.{remove_key}

module _ {K V : Type 0} ⦃e : Eq K⦄ where
  pub lookup-remove_key :
      (k probe : K) (m : HashMap K V)
      → lookup probe (remove_key k m) ≡ (if k == probe then none else lookup probe m)
  unfolding lookup remove_key
  lookup-remove_key k probe [] = ground arith
  lookup-remove_key k probe ((j, v) ∷ m) =
      ground (arith, lookup-remove_key k probe m, eq_iff j k, eq_iff j probe, eq_iff k probe)
