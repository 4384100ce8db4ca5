-- ===== src/Dht/Lookup/Digests.antt =====
-- The ids of nodes are finitely many: BLAKE3 hashes of 32 bytes, mesh-core/src/hash.rs. They bound the
-- rounds of a lookup, mesh-dht/src/node.rs.
use mars_protocol.Common.{
  ℕ, zero, suc, ◌*◌, ◌^◌, ◌<◌, ◌≡◌, inl, inr, refl, ◌∙◌, ap, sym, subst, List, [], ◌∷◌, ◌++◌, Elem,
  Elem-append_left, Elem-append_right, All, IsByte, length, length-append, Bytes, arith, map,
  Bool-cases, ◌==◌, eq_iff, nat_eq,
}
use native.Mathlib.Nat.{pow-suc}
use mars_protocol.Core.External.{External, HashLaws}
use mars_protocol.Core.Hash.{Hash, alg_blake3}
use mars_protocol.Core.Identity.{Identity, node_id}

-- the digests whose first byte is below a bound
prefixed : ℕ → List Bytes → List Bytes
prefixed zero ds = []
prefixed (suc b) ds = map (◌∷◌ b) ds ++ prefixed b ds

all_bytes : ℕ → List Bytes
all_bytes zero = [] ∷ []
all_bytes (suc n) = prefixed 256 (all_bytes n)

length-map : {A B : Type 0} (f : A → B) (xs : List A) → length (map f xs) ≡ length xs
length-map f [] = refl
length-map f (a ∷ xs) = ap suc (length-map f xs)

Elem-map : {A B : Type 0} (f : A → B) (a : A) (xs : List A) → Elem a xs → Elem (f a) (map f xs)
Elem-map f a [] h = elim h [ ]
Elem-map f a (c ∷ xs) (inl e) = inl (ap f e)
Elem-map f a (c ∷ xs) (inr h) = inr (Elem-map f a xs h)

length-prefixed : (b : ℕ) (ds : List Bytes) → length (prefixed b ds) ≡ b * length ds
unfolding prefixed
length-prefixed zero ds = omega arith
length-prefixed (suc b) ds = grind (
  arith,
  length-append (map (◌∷◌ b) ds) (prefixed b ds),
  length-map (◌∷◌ b) ds,
  length-prefixed b ds,
)

Elem-prefixed :
    (bound b : ℕ) (d : Bytes) (ds : List Bytes)
    → b < bound
    → Elem d ds
    → Elem (b ∷ d) (prefixed bound ds)
unfolding prefixed
Elem-prefixed zero b d ds h m = absurd (omega arith)
Elem-prefixed (suc bound) b d ds h m = elim (Bool-cases (bound == b)) [
  | inl same ↦ Elem-append_left (b ∷ d) (map (◌∷◌ bound) ds) (prefixed bound ds) (
      subst (λ c. Elem (b ∷ d) (map (◌∷◌ c) ds)) (sym ((eq_iff bound b).0 same))
        (Elem-map (◌∷◌ b) d ds m))
  | inr other ↦
      Elem-append_right (b ∷ d) (map (◌∷◌ bound) ds) (prefixed bound ds)
        (Elem-prefixed bound b d ds (ground arith) m)
]

length-all_bytes : (n : ℕ) → length (all_bytes n) ≡ 256 ^ n
unfolding all_bytes
length-all_bytes zero = refl
length-all_bytes (suc n) =
    omega (arith, pow-suc 256 n, length-prefixed 256 (all_bytes n), length-all_bytes n)

Elem-all_bytes : (d : Bytes) → All IsByte d → Elem d (all_bytes (length d))
unfolding all_bytes
Elem-all_bytes [] h = inl refl
Elem-all_bytes (b ∷ d) h = Elem-prefixed 256 b d (all_bytes (length d)) h.0 (Elem-all_bytes d h.1)

-- the ids of digests of `n` bytes
pub ids_of_size : ℕ → List Hash
ids_of_size n = map (λ d. record { algorithm = alg_blake3; digest = d }) (all_bytes n)

pub length-ids_of_size : (n : ℕ) → length (ids_of_size n) ≡ 256 ^ n
unfolding ids_of_size
length-ids_of_size n = length-map _ (all_bytes n) ∙ length-all_bytes n

pub node_id-Elem :
    (x : External) → HashLaws x → (i : Identity) → Elem (node_id x i) (ids_of_size 32)
unfolding ids_of_size node_id
node_id-Elem x laws i =
    Elem-map (λ (d : Bytes). record { algorithm = alg_blake3; digest = d }) (x.blake3 i.public_key)
      (all_bytes 32)
      (subst (λ n. Elem (x.blake3 i.public_key) (all_bytes n)) (laws.length-blake3 i.public_key)
        (Elem-all_bytes (x.blake3 i.public_key) (laws.blake3-IsByte i.public_key)))
