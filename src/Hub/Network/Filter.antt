-- ===== src/Hub/Network/Filter.antt =====
-- What `validate_outbound_addr` of mesh-hub/src/network.rs lets through.
use mars_protocol.Common.{
  ℕ, ◌+◌, ◌*◌, ◌≡◌, ◌↔◌, ◌⊎◌, inl, inr, refl, ◌∙◌, subst, false, List, any, arith, Elem, any_iff,
  Bool-cases, Result-cases, ok, Result, Text, ◌==◌, list_eq, nat_eq, ap,
}
use mars_protocol.Hub.Network.{
  Ipv4Addr, Ipv6Addr, v6, SocketAddr, is_private_ip, validate_outbound_addr, is_loopback_v6,
  is_unspecified_v6, is_ula, is_link_local_v6,
}
use mars_protocol.Hub.Network.Blocks.{IsAddress, IsReserved, is_private_ip_iff}

-- ::ffff:a.b.c.d, by which a dual-stack socket reaches the IPv4 address
abbrev pub to_ipv6_mapped : Ipv4Addr → Ipv6Addr
to_ipv6_mapped a = record {
  s0 = 0;
  s1 = 0;
  s2 = 0;
  s3 = 0;
  s4 = 0;
  s5 = 0xffff;
  s6 = a.o0 * 256 + a.o1;
  s7 = a.o2 * 256 + a.o3;
}

module _ (parse : Text → Result Text SocketAddr) where
  passes :
      (addr : Text) (allowlist : List Text) (s : SocketAddr)
      → parse addr ≡ ok s
      → Elem addr allowlist ⊎ (is_private_ip s.ip ≡ false)
      → validate_outbound_addr parse addr allowlist ≡ ok s
  unfolding validate_outbound_addr
  passes addr allowlist s e (inl m) =
      simp (e, validate_outbound_addr, (any_iff addr allowlist).1 m) refl
  passes addr allowlist s e (inr p) = elim (Bool-cases (any (λ a. a == addr) allowlist)) [
    | inl hit ↦ simp (e, validate_outbound_addr, hit) refl
    | inr miss ↦ simp (e, validate_outbound_addr, miss, p) refl
  ]

  passed :
      (addr : Text) (allowlist : List Text) (s : SocketAddr)
      → validate_outbound_addr parse addr allowlist ≡ ok s
      → (parse addr ≡ ok s) × (Elem addr allowlist ⊎ (is_private_ip s.ip ≡ false))
  unfolding validate_outbound_addr
  passed addr allowlist s h = elim (Result-cases (parse addr)) [
    | inr (e, bad) ↦ absurd (ground arith)
    | inl (found, good) ↦ elim (Bool-cases (any (λ a. a == addr) allowlist)) [
      | inl hit ↦ (ground arith, inl ((any_iff addr allowlist).0 hit))
      | inr miss ↦ elim (Bool-cases (is_private_ip found.ip)) [
        | inl bad ↦ absurd (ground arith)
        | inr free ↦
            let same : found ≡ s = ground arith in
            (good ∙ ap ok same, inr (subst (λ r. is_private_ip r.ip ≡ false) same free))
      ]
    ]
  ]

  -- For an address of octets or of segments of 16 bits, the filter lets an outbound address
  -- through, as the address that its text reads as, exactly if its text is on the allowlist or the
  -- address is neither 0.0.0.0 nor in one of the blocks 10.0.0.0/8, 100.64.0.0/10, 127.0.0.0/8,
  -- 169.254.0.0/16, 172.16.0.0/12 and 192.168.0.0/16, nor one of ::, ::1, fc00::/7 and fe80::/10.
  pub validate_outbound_addr_iff :
      (addr : Text) (allowlist : List Text) (s : SocketAddr)
      → IsAddress s.ip
      → (validate_outbound_addr parse addr allowlist ≡ ok s)
        ↔ ((parse addr ≡ ok s) × (Elem addr allowlist ⊎ (IsReserved s.ip → ⊥)))
  validate_outbound_addr_iff addr allowlist s well =
      let (reserved, private) = is_private_ip_iff s.ip well in
      (
        λ h.
            let (reads, free) = passed addr allowlist s h in
            (
              reads,
              elim free [
                | inl listed ↦ inl listed
                | inr public ↦ inr (λ r. absurd (cc (private r, public)))
              ],
            ),
        λ h. passes addr allowlist s h.0 (elim h.1 [
          | inl listed ↦ inl listed
          | inr outside ↦ inr (elim (Bool-cases (is_private_ip s.ip)) [
            | inl hit ↦ absurd (outside (reserved hit))
            | inr miss ↦ miss
          ])
        ]),
      )

  -- The filter lets every IPv4-mapped IPv6 address through, also that of a private or loopback
  -- IPv4 address, whatever the allowlist.
  pub validate_outbound_addr-mapped :
      (addr : Text) (allowlist : List Text) (a : Ipv4Addr) (port : ℕ)
      → parse addr ≡ ok (record { ip = v6 (to_ipv6_mapped a); port = port })
      → validate_outbound_addr parse addr allowlist
        ≡ ok (record { ip = v6 (to_ipv6_mapped a); port = port })
  unfolding is_private_ip is_loopback_v6 is_unspecified_v6 is_ula is_link_local_v6
  validate_outbound_addr-mapped addr allowlist a port e = passes addr allowlist _ e (inr refl)
