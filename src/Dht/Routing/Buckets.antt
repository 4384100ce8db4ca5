-- ===== src/Dht/Routing/Buckets.antt =====
-- The operations on one bucket keep it small, in place and without a node twice.
use mars_protocol.Common.{
  ◌+◌, ◌≤◌, ◌<◌, ◌≡◌, ◌≢◌, inl, inr, refl, sym, ap, subst, Bool, true, false, not, List, [], ◌∷◌,
  ◌++◌, length, length-append, length-retain-le, retain, All, All-retain, arith, Bool-cases,
  Option-cases, ltb, ◌==◌, eq_iff,
}
use mars_protocol.Core.External.{External}
use mars_protocol.Core.Hash.{Hash, hash_eq}
use mars_protocol.Core.Identity.{Identity, identity_eq, node_id}
use mars_protocol.Core.Message.{NodeInfo}
use mars_protocol.Dht.Routing.{
  bucket_full, bucket_size, extract, challenge, add_to_bucket, resolve_in_bucket,
}
use mars_protocol.Dht.Routing.Extract.{
  Extracted, extract-none, extract-some, Unseen, DistinctNodes, All-middle, All-push,
  Distinct-middle, Distinct-push, Distinct-retain,
}

-- A bucket whose nodes all satisfy `P`: at most 20 of them, and none twice.
pub record IsBucket (P : Identity → Type 0) (es : List NodeInfo) : Type 0 where
  pub small : length es ≤ bucket_size
  pub placed : All (λ e. P e.identity) es
  pub distinct : DistinctNodes es

length-push : (es : List NodeInfo) (a : NodeInfo) → length (es ++ a ∷ []) ≡ length es + 1
length-push es a = length-append es (a ∷ [])

module _ (P : Identity → Type 0) where
  -- a node moved to the end, in place of one that passes the test
  IsBucket-move :
      {test : NodeInfo → Bool} {es rest : List NodeInfo} {f : NodeInfo} (a : NodeInfo)
      → IsBucket P es
      → Extracted test es f rest
      → a.identity ≡ f.identity
      → IsBucket P (rest ++ a ∷ [])
  IsBucket-move {es = es} {rest = rest} {f = f} a b x same =
      let (p, placed) =
        All-middle (λ e. P e.identity) x.before x.after
          (subst (All (λ e. P e.identity)) x.whole b.placed) in
      let (u, distinct) =
        Distinct-middle x.before x.after f (subst DistinctNodes x.whole b.distinct) in
      record {
        small = omega (
          arith,
          b.small,
          ap length x.whole,
          ap length x.without,
          length-append x.before (f ∷ x.after),
          length-append x.before x.after,
          length-push rest a,
        );
        placed = rw x.without (All-push (λ e. P e.identity) _ placed (subst P (sym same) p));
        distinct =
            rw x.without (
              Distinct-push _ a distinct
                (subst (λ i. Unseen i (x.before ++ x.after)) (sym same) u));
      }

  pub IsBucket-push :
      (es : List NodeInfo) (a : NodeInfo)
      → IsBucket P es
      → length es < bucket_size
      → P a.identity
      → Unseen a.identity es
      → IsBucket P (es ++ a ∷ [])
  IsBucket-push es a b room p u = record {
    small = omega (arith, length-push es a);
    placed = All-push (λ e. P e.identity) es b.placed p;
    distinct = Distinct-push es a b.distinct u;
  }

  pub IsBucket-retain :
      (test : NodeInfo → Bool) (es : List NodeInfo) → IsBucket P es → IsBucket P (retain test es)
  IsBucket-retain test es b = record {
    small = omega (arith, b.small, length-retain-le test es);
    placed = All-retain (λ e. P e.identity) test es b.placed;
    distinct = Distinct-retain test es b.distinct;
  }

-- What a challenge says of the bucket `es` that a node was added to: its entries stay, it is full,
-- its first node is to be asked, and the candidate is the new node, which it does not hold.
pub record Challenge (es after : List NodeInfo) (node lrs candidate : NodeInfo) : Type 0 where
  pub kept : after ≡ es
  pub full : bucket_size ≤ length es
  pub rest : List NodeInfo
  pub head : es ≡ lrs ∷ rest
  pub same : candidate ≡ node
  pub unseen : Unseen node.identity es

module _ (x : External) (P : Identity → Type 0) where
  Unseen-of_none :
      (es : List NodeInfo) (node : NodeInfo)
      → All (λ e. (e.identity == node.identity) ≡ false) es
      → Unseen node.identity es
  Unseen-of_none [] node h = tt
  Unseen-of_none (e ∷ es) node h =
      ((λ q. cc ((eq_iff e.identity node.identity).1 q, h.0)), Unseen-of_none es node h.1)

  -- `add_to_bucket` keeps the bucket well formed, on every branch.
  pub add_to_bucket-IsBucket :
      (es : List NodeInfo) (node : NodeInfo)
      → IsBucket P es
      → P node.identity
      → IsBucket P (add_to_bucket x es node).0
  unfolding add_to_bucket
  add_to_bucket-IsBucket es node b p =
      elim (Option-cases (extract (λ e. e.identity == node.identity) es)) [
        | inl new ↦
            let u =
              Unseen-of_none es node (extract-none (λ e. e.identity == node.identity) es new) in
            elim (Bool-cases (ltb (length es) bucket_size)) [
              | inl room ↦
                  rw (new, add_to_bucket, room) (IsBucket-push P es node b (ground arith) p u)
              | inr full ↦ rw (new, add_to_bucket, full) b
            ]
        | inr ((f, rest), found) ↦
            let t = extract-some (λ e. e.identity == node.identity) es found in
            rw (found, add_to_bucket)
              (IsBucket-move P node b t (sym ((eq_iff f.identity node.identity).0 t.passes)))
      ]

  challenge_head :
      (es : List NodeInfo) (node lrs candidate : NodeInfo)
      → challenge es node ≡ bucket_full lrs candidate
      → (rest : List NodeInfo) × (es ≡ lrs ∷ rest) × (candidate ≡ node)
  challenge_head [] node lrs candidate h = absurd (ground arith)
  challenge_head (e ∷ es) node lrs candidate h = (es, ground arith, ground arith)

  -- The challenge that a full bucket issues: the bucket is left alone, its first node is to be asked,
  -- and the candidate is the new node, which the bucket does not hold.
  pub add_to_bucket-bucket_full :
      (es : List NodeInfo) (node lrs candidate : NodeInfo)
      → (add_to_bucket x es node).1 ≡ bucket_full lrs candidate
      → Challenge es (add_to_bucket x es node).0 node lrs candidate
  unfolding add_to_bucket
  add_to_bucket-bucket_full es node lrs candidate h =
      elim (Option-cases (extract (λ e. e.identity == node.identity) es)) [
        | inl new ↦
            let full : challenge es node ≡ bucket_full lrs candidate = ground arith in
            let (rest, head, same) = challenge_head es node lrs candidate full in
            record {
              kept = ground arith;
              full = ground arith;
              rest = rest;
              head = head;
              same = same;
              unseen =
                  Unseen-of_none es node (extract-none (λ e. e.identity == node.identity) es new);
            }
        | inr ((f, rest), found) ↦ absurd (ground arith)
      ]

  -- An answered challenge, or one that was not, keeps the bucket well formed, if the candidate is not
  -- in the bucket.
  pub resolve_in_bucket-IsBucket :
      (es : List NodeInfo) (lrs_id : Hash) (candidate : NodeInfo) (responded : Bool)
      → IsBucket P es
      → P candidate.identity
      → Unseen candidate.identity es
      → IsBucket P (resolve_in_bucket x es lrs_id candidate responded)
  unfolding resolve_in_bucket
  resolve_in_bucket-IsBucket es lrs_id candidate true b p u =
      elim (Option-cases (extract (λ e. node_id x e.identity == lrs_id) es)) [
        | inl gone ↦ rw (gone, resolve_in_bucket) b
        | inr ((f, rest), found) ↦
            rw (found, resolve_in_bucket)
              (IsBucket-move P f b (extract-some (λ e. node_id x e.identity == lrs_id) es found)
                refl)
      ]
  resolve_in_bucket-IsBucket es lrs_id candidate false b p u =
      let test = λ (e : NodeInfo). not (node_id x e.identity == lrs_id) in
      let kept = IsBucket-retain P test es b in
      elim (Bool-cases (ltb (length (retain test es)) bucket_size)) [
        | inl room ↦ rw room (
            IsBucket-push P (retain test es) candidate kept (ground arith) p
              (All-retain (λ e. e.identity ≢ candidate.identity) test es u))
        | inr full ↦ rw full kept
      ]
