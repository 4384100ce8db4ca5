-- ===== src/Hub/Tenants/Charges.antt =====
-- What `deduct_mu` of mesh-hub/src/tenant.rs charges.
use mathlib.Core.Option
use mars_protocol.Common.{
  ℕ, ◌+◌, ◌-◌, ◌^◌, ◌<◌, ◌≤◌, All, ◌≡◌, ◌≢◌, inl, inr, refl, sym, ◌∙◌, subst, true, false,
  Bool-cases, Option-cases, none, some, List, [], ◌∷◌, find, if◌then◌else◌, ◌==◌, eq_iff, nat_eq,
  list_eq, arith, Result, ok, err, Text,
}
use mars_protocol.Hub.Policy.{ℤ, pos, negsuc, ltb_int, Tenant}
use mars_protocol.Hub.Tenants.{
  TenantManager, MuError, insufficient_balance, no_rows, pos_part, neg_part, sub_int, update_tenant,
  get_tenant, deduct_mu,
}

-- a number that SQLite keeps as an integer
abbrev pub IsI64 : ℤ → Type 0
IsI64 a = (pos_part a < 2 ^ 63) × (neg_part a ≤ 2 ^ 63)

-- the difference does not pass the largest i64
abbrev pub HasRoom : ℤ → ℤ → Type 0
HasRoom balance cost = pos_part balance + neg_part cost < neg_part balance + pos_part cost + 2 ^ 63

-- the account after a charge
abbrev pub charged : ℤ → Tenant → Tenant
charged cost t = record t { mu_balance = sub_int t.mu_balance cost }

-- What is left of a sufficient balance is not negative.
sub_int-covered :
    (a b : ℤ)
    → ltb_int a b ≡ false
    → (n : ℕ) × (sub_int a b ≡ pos n) × (pos_part a + neg_part b ≡ neg_part a + pos_part b + n)
unfolding sub_int
sub_int-covered (pos a) (pos b) h = (a - b, ground arith, ground arith)
sub_int-covered (pos a) (negsuc b) h = (a + (b + 1), ground arith, ground arith)
sub_int-covered (negsuc a) (pos b) h = absurd cc
sub_int-covered (negsuc a) (negsuc b) h = (b - a, ground arith, ground arith)

-- the accounts with the one charged
abbrev charge_all : TenantManager → Text → ℤ → TenantManager
charge_all m id cost = record m { tenants = update_tenant id (charged cost) m.tenants }

find-update_tenant :
    (id probe : Text) (cost : ℤ) (ts : List Tenant)
    → find (λ t. t.id == probe) (update_tenant id (charged cost) ts) ≡ (
        if id == probe
        then Option.map (charged cost) (find (λ t. t.id == probe) ts)
        else find (λ t. t.id == probe) ts)
unfolding update_tenant
find-update_tenant id probe cost [] = ground arith
find-update_tenant id probe cost (t ∷ ts) =
    ground (
      arith,
      find-update_tenant id probe cost ts,
      eq_iff t.id id,
      eq_iff t.id probe,
      eq_iff id probe,
    )

-- a charge that went through
pub record IsCharge (m after : TenantManager) (id : Text) (cost : ℤ) : Type 0 where
  pub account : Tenant
  pub known : get_tenant m id ≡ some account
  pub covered : ltb_int account.mu_balance cost ≡ false
  pub left : ℕ
  pub balance : sub_int account.mu_balance cost ≡ pos left
  pub exact :
      pos_part account.mu_balance + neg_part cost
      ≡ neg_part account.mu_balance + pos_part cost + left
  pub still_i64 : IsI64 (charged cost account).mu_balance
  pub charged_one : get_tenant after id ≡ some (charged cost account)
  pub others : (probe : Text) → probe ≢ id → get_tenant after probe ≡ get_tenant m probe

module _ (m : TenantManager) (id : Text) (cost : ℤ) (t : Tenant)
    (known : get_tenant m id ≡ some t) where
  paid_into :
      ltb_int t.mu_balance cost ≡ false → deduct_mu m id cost ≡ (ok tt, charge_all m id cost)
  unfolding deduct_mu
  paid_into enough = rw (deduct_mu, known, enough) refl

  short_of :
      ltb_int t.mu_balance cost ≡ true
      → deduct_mu m id cost ≡ (err (insufficient_balance t.mu_balance cost), m)
  unfolding deduct_mu
  short_of short = rw (deduct_mu, known, short) refl

  charge_all-IsCharge :
      HasRoom t.mu_balance cost
      → ltb_int t.mu_balance cost ≡ false
      → IsCharge m (charge_all m id cost) id cost
  unfolding get_tenant
  charge_all-IsCharge room enough =
      let (n, balance, exact) = sub_int-covered t.mu_balance cost enough in
      record {
        account = t;
        known = known;
        covered = enough;
        left = n;
        balance = balance;
        exact = exact;
        still_i64 = subst IsI64 (sym balance) (omega arith, omega arith);
        charged_one = find-update_tenant id id cost m.tenants ∙ ground (arith, eq_iff id id);
        others = λ probe apart.
            find-update_tenant id probe cost m.tenants ∙ ground (arith, eq_iff id probe);
      }

unknown_to :
    (m : TenantManager) (id : Text) (cost : ℤ)
    → get_tenant m id ≡ none
    → deduct_mu m id cost ≡ (err no_rows, m)
unfolding deduct_mu
unknown_to m id cost unknown = rw (deduct_mu, unknown) refl

-- the answers to a deduction
abbrev pub IsDeduction :
    TenantManager → Text → ℤ → Result MuError (Unit {0}) × TenantManager → Type 0
IsDeduction m id cost (r, after) =
    (r ≡ ok tt → IsCharge m after id cost)
    × ((e : MuError) → r ≡ err e → after ≡ m)
    × ((t : Tenant) → get_tenant m id ≡ some t → ltb_int t.mu_balance cost ≡ false → r ≡ ok tt)

-- If the balances and the cost are integers of 64 bits, and the balance less the cost does not
-- pass the largest of them, a deduction succeeds exactly if the account exists and its balance
-- covers the cost: it is then lower by the cost, not negative and still of 64 bits, and no other
-- account changes. A refused one changes nothing.
pub deduct_mu-IsDeduction :
    (m : TenantManager) (id : Text) (cost : ℤ)
    → All (λ t. IsI64 t.mu_balance) m.tenants
    → IsI64 cost
    → ((t : Tenant) → get_tenant m id ≡ some t → HasRoom t.mu_balance cost)
    → IsDeduction m id cost (deduct_mu m id cost)
deduct_mu-IsDeduction m id cost stored fits room = elim (Option-cases (get_tenant m id)) [
  | inl unknown ↦
      subst (IsDeduction m id cost) (sym (unknown_to m id cost unknown))
        (λ h. absurd cc, λ e h. refl, λ t known enough. absurd (ground arith))
  | inr (t, known) ↦ elim (Bool-cases (ltb_int t.mu_balance cost)) [
    | inl short ↦
        subst (IsDeduction m id cost) (sym (short_of m id cost t known short))
          (λ h. absurd cc, λ e h. refl, λ u same enough. absurd (ground arith))
    | inr enough ↦ subst (IsDeduction m id cost) (sym (paid_into m id cost t known enough)) (
      λ h. charge_all-IsCharge m id cost t known (room t known) enough,
      λ e h. absurd cc,
      λ u same paid. refl,
    )
  ]
]
