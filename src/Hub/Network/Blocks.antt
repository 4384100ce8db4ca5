-- ===== src/Hub/Network/Blocks.antt =====
-- Which addresses `is_private_ip` of mesh-hub/src/network.rs refuses, as blocks of addresses.
use mars_protocol.Common.{
  ℕ, ◌+◌, ◌*◌, ◌≤◌, ◌≡◌, ◌↔◌, ◌⊎◌, refl, Bool, true, ◌&&◌, arith, ◌==◌, nat_eq, IsByte, IsU16,
  if◌then◌else◌, not, leb,
}
use mars_protocol.Common.Bits.{holds_below, holds_below_sound}
use Prim.Native.Nat.{bit_and}
use mars_protocol.Hub.Network.{
  Ipv4Addr, Ipv6Addr, IpAddr, v4, v6, is_loopback, is_private, is_link_local, is_unspecified,
  is_cgn, is_loopback_v6, is_unspecified_v6, is_ula, is_link_local_v6, is_private_ip,
}

pub record IsIpv4 (a : Ipv4Addr) : Type 0 where
  pub b0 : IsByte a.o0
  pub b1 : IsByte a.o1
  pub b2 : IsByte a.o2
  pub b3 : IsByte a.o3

pub record IsIpv6 (a : Ipv6Addr) : Type 0 where
  pub w0 : IsU16 a.s0
  pub w1 : IsU16 a.s1
  pub w2 : IsU16 a.s2
  pub w3 : IsU16 a.s3
  pub w4 : IsU16 a.s4
  pub w5 : IsU16 a.s5
  pub w6 : IsU16 a.s6
  pub w7 : IsU16 a.s7

-- the address as a number of 32 bits
abbrev pub to_u32 : Ipv4Addr → ℕ
to_u32 a = a.o0 * 16777216 + a.o1 * 65536 + a.o2 * 256 + a.o3

-- the block of the addresses from `base` to the last one, both included
abbrev pub Within : ℕ → ℕ → ℕ → Type 0
Within base last n = (base ≤ n) × (n ≤ last)

-- 0.0.0.0, 10.0.0.0/8, 100.64.0.0/10, 127.0.0.0/8, 169.254.0.0/16, 172.16.0.0/12 and 192.168.0.0/16
abbrev pub Reserved4 : ℕ → Type 0
Reserved4 n =
    (n ≡ 0)
    ⊎ Within 0x0a000000 0x0affffff n
    ⊎ Within 0x64400000 0x647fffff n
    ⊎ Within 0x7f000000 0x7fffffff n
    ⊎ Within 0xa9fe0000 0xa9feffff n
    ⊎ Within 0xac100000 0xac1fffff n
    ⊎ Within 0xc0a80000 0xc0a8ffff n

-- ::, ::1, fc00::/7 and fe80::/10
abbrev pub Reserved6 : Ipv6Addr → Type 0
Reserved6 a =
    ((a.s0 ≡ 0)
      × (a.s1 ≡ 0)
      × (a.s2 ≡ 0)
      × (a.s3 ≡ 0)
      × (a.s4 ≡ 0)
      × (a.s5 ≡ 0)
      × (a.s6 ≡ 0)
      × (a.s7 ≤ 1))
    ⊎ Within 0xfc00 0xfdff a.s0
    ⊎ Within 0xfe80 0xfebf a.s0

-- whether a masked number is compared as a range is
abbrev agrees : Bool → Bool → Bool
agrees a b = if a then b else not b

cgn_table : holds_below 256 (λ b. agrees (bit_and b 0xC0 == 64) (leb 64 b && leb b 127)) ≡ true
unfolding holds_below
cgn_table = refl

ula_table :
    holds_below 65536 (λ s. agrees (bit_and s 0xfe00 == 0xfc00) (leb 0xfc00 s && leb s 0xfdff))
    ≡ true
unfolding holds_below
ula_table = refl

link_local_table :
    holds_below 65536 (λ s. agrees (bit_and s 0xffc0 == 0xfe80) (leb 0xfe80 s && leb s 0xfebf))
    ≡ true
unfolding holds_below
link_local_table = refl

agrees_eq : (a b : Bool) → agrees a b ≡ true → a ≡ b
agrees_eq a b h = ground arith

cgn_range : (b : ℕ) → IsByte b → (bit_and b 0xC0 == 64) ≡ (leb 64 b && leb b 127)
cgn_range b h = agrees_eq _ _ (holds_below_sound 256 _ b cgn_table h)

ula_range : (s : ℕ) → IsU16 s → (bit_and s 0xfe00 == 0xfc00) ≡ (leb 0xfc00 s && leb s 0xfdff)
ula_range s h = agrees_eq _ _ (holds_below_sound 65536 _ s ula_table h)

link_local_range : (s : ℕ) → IsU16 s → (bit_and s 0xffc0 == 0xfe80) ≡ (leb 0xfe80 s && leb s 0xfebf)
link_local_range s h = agrees_eq _ _ (holds_below_sound 65536 _ s link_local_table h)

-- An IPv4 address is counted as private exactly if it is 0.0.0.0 or lies in one of the blocks
-- 10.0.0.0/8, 100.64.0.0/10, 127.0.0.0/8, 169.254.0.0/16, 172.16.0.0/12 and 192.168.0.0/16.
pub is_private_ip-v4_iff :
    (a : Ipv4Addr) → IsIpv4 a → (is_private_ip (v4 a) ≡ true) ↔ Reserved4 (to_u32 a)
unfolding is_private_ip is_loopback is_private is_link_local is_unspecified is_cgn
is_private_ip-v4_iff a h = rw (cgn_range a.o1 h.b1) (ground arith)

pub is_private_ip-v6_iff : (a : Ipv6Addr) → IsU16 a.s0 → (is_private_ip (v6 a) ≡ true) ↔ Reserved6 a
unfolding is_private_ip is_loopback_v6 is_unspecified_v6 is_ula is_link_local_v6
is_private_ip-v6_iff a h = rw (ula_range a.s0 h, link_local_range a.s0 h) (ground arith)

-- the numbers of an address are octets or segments of 16 bits
abbrev pub IsAddress : IpAddr → Type 0
IsAddress (v4 a) = IsIpv4 a
IsAddress (v6 a) = IsIpv6 a

-- in one of the blocks that are not for the outside
abbrev pub IsReserved : IpAddr → Type 0
IsReserved (v4 a) = Reserved4 (to_u32 a)
IsReserved (v6 a) = Reserved6 a

pub is_private_ip_iff : (ip : IpAddr) → IsAddress ip → (is_private_ip ip ≡ true) ↔ IsReserved ip
is_private_ip_iff (v4 a) h = is_private_ip-v4_iff a h
is_private_ip_iff (v6 a) h = is_private_ip-v6_iff a h.w0
