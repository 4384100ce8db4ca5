-- ===== src/Dht/Storage/Search.antt =====
-- Searches over all descriptors of the store of mesh-dht/src/storage.rs, and what a filter by id leaves.
use mars_protocol.Common.{
  ◌≡◌, ◌≢◌, sym, subst, Bool, true, not, none, some, List, [], ◌∷◌, ◌++◌, find, Elem,
  Elem-append_left, Elem-append_right, All, All-append, All-retain_test, All-map, if◌then◌else◌,
  ◌==◌, eq_iff, lookup, unwrap_or, map_values, arith, Bool-cases, inl, inr, nat_eq, list_eq,
}
use mars_protocol.Core.Hash.{Hash, hash_eq}
use mars_protocol.Core.Identity.{identity_eq}
use mars_protocol.Core.Descriptor.{Descriptor}
use mars_protocol.Dht.Storage.Shrinks.{AllStored}
use mars_protocol.Dht.Storage.Write.{under}
use mars_protocol.Dht.Storage.{Index, dedup_key_eq, all_stored, retain_all}

pub All-append_left :
    (P : Descriptor → Type 0) (xs ys : List Descriptor) → All P (xs ++ ys) → All P xs
All-append_left P [] ys h = tt
All-append_left P (x ∷ xs) ys h = (h.0, All-append_left P xs ys h.1)

pub All-append_right :
    (P : Descriptor → Type 0) (xs ys : List Descriptor) → All P (xs ++ ys) → All P ys
All-append_right P [] ys h = h
All-append_right P (x ∷ xs) ys h = All-append_right P xs ys h.1

pub find_sound :
    {A : Type 0} (test : A → Bool) (P : A → Type 0) (xs : List A) (a : A)
    → All P xs
    → find test xs ≡ some a
    → P a × (test a ≡ true)
find_sound test P [] a h e = absurd cc
find_sound test P (x ∷ xs) a h e = elim (Bool-cases (test x)) [
  | inl hit ↦
      let same : x ≡ a = ground arith in (subst P same h.0, subst (λ y. test y ≡ true) same hit)
  | inr miss ↦ find_sound test P xs a h.1 (ground arith)
]

pub find_complete :
    {A : Type 0} (test : A → Bool) (xs : List A) (a : A)
    → Elem a xs
    → test a ≡ true
    → find test xs ≢ none
find_complete test [] a m t e = elim m [ ]
find_complete test (x ∷ xs) a (inl same) t e =
    absurd (ground (arith, subst (λ y. test y ≡ true) (sym same) t))
find_complete test (x ∷ xs) a (inr m) t e = find_complete test xs a m t (ground arith)

pub All-all_stored :
    (P : Descriptor → Type 0) (store : Index)
    → AllStored (λ key. P) store
    → All P (all_stored store)
unfolding all_stored
All-all_stored P [] h = tt
All-all_stored P ((key, ds) ∷ store) h =
    All-append P ds (all_stored store) h.0 (All-all_stored P store h.1)

pub Elem-all_stored :
    (e : Descriptor) (store : Index) (key : Hash)
    → Elem e (under store key)
    → Elem e (all_stored store)
unfolding all_stored lookup
Elem-all_stored e [] key m = elim m [ ]
Elem-all_stored e ((k, ds) ∷ store) key m = elim (Bool-cases (k == key)) [
  | inl same ↦
      Elem-append_left e ds (all_stored store)
        (subst (λ b. Elem e (unwrap_or (if b then some ds else lookup key store) [])) same m)
  | inr other ↦ Elem-append_right e ds (all_stored store) (
      Elem-all_stored e store key
        (subst (λ b. Elem e (unwrap_or (if b then some ds else lookup key store) [])) other m))
]

pub AllStored_of_all_stored :
    (P : Descriptor → Type 0) (store : Index)
    → All P (all_stored store)
    → AllStored (λ key. P) store
unfolding all_stored
AllStored_of_all_stored P [] h = tt
AllStored_of_all_stored P ((key, ds) ∷ store) h = (
  All-append_left P ds (all_stored store) h,
  AllStored_of_all_stored P store (All-append_right P ds (all_stored store) h),
)

-- what a filter by id leaves
pub AllStored-without :
    (id : Hash) (store : Index)
    → AllStored (λ key d. d.id ≢ id) (retain_all (λ d. not (d.id == id)) store)
unfolding retain_all map_values
AllStored-without id [] = tt
AllStored-without id ((key, ds) ∷ store) = (
  All-map _ _ (λ d t e. ground (arith, (eq_iff d.id id).1 e)) (All-retain_test _ ds),
  AllStored-without id store,
)
