-- ===== src/Hub/Network.antt =====
-- mesh-hub/src/network.rs: the filter on outbound addresses against server-side request forgery.
-- An address is its octets or its segments, as std::net gives them. Reading the text of an address is
-- the standard library's, so a parameter.
pub mod Blocks
pub mod Filter
use mars_protocol.Common.{
  ℕ, Bool, true, false, ◌&&◌, ◌||◌, List, any, if◌then◌else◌, leb, ◌==◌, nat_eq, list_eq, Result,
  ok, err, Text,
}
use Prim.Native.Nat.{bit_and}

pub record Ipv4Addr : Type 0 where
  pub o0 : ℕ
  pub o1 : ℕ
  pub o2 : ℕ
  pub o3 : ℕ

pub record Ipv6Addr : Type 0 where
  pub s0 : ℕ
  pub s1 : ℕ
  pub s2 : ℕ
  pub s3 : ℕ
  pub s4 : ℕ
  pub s5 : ℕ
  pub s6 : ℕ
  pub s7 : ℕ

pub data IpAddr : Type 0 where
  v4 : Ipv4Addr → IpAddr
  v6 : Ipv6Addr → IpAddr

pub record SocketAddr : Type 0 where
  pub ip : IpAddr
  pub port : ℕ

-- the errors, with the values that their texts show
pub data AddressValidationError : Type 0 where
  parse_error : Text → Text → AddressValidationError
  private_address : Text → AddressValidationError

-- `Ipv4Addr::is_loopback`, `is_private`, `is_link_local` and `is_unspecified` of std::net
unfoldable pub is_loopback : Ipv4Addr → Bool
is_loopback a = a.o0 == 127

unfoldable pub is_private : Ipv4Addr → Bool
is_private a =
    a.o0 == 10 || (a.o0 == 172 && leb 16 a.o1 && leb a.o1 31) || (a.o0 == 192 && a.o1 == 168)

unfoldable pub is_link_local : Ipv4Addr → Bool
is_link_local a = a.o0 == 169 && a.o1 == 254

unfoldable pub is_unspecified : Ipv4Addr → Bool
is_unspecified a = a.o0 == 0 && a.o1 == 0 && a.o2 == 0 && a.o3 == 0

-- `Ipv6Addr::is_loopback` and `is_unspecified`
abbrev pub leading_zeros_v6 : Ipv6Addr → Bool
leading_zeros_v6 a =
    a.s0 == 0 && a.s1 == 0 && a.s2 == 0 && a.s3 == 0 && a.s4 == 0 && a.s5 == 0 && a.s6 == 0

unfoldable pub is_loopback_v6 : Ipv6Addr → Bool
is_loopback_v6 a = leading_zeros_v6 a && a.s7 == 1

unfoldable pub is_unspecified_v6 : Ipv6Addr → Bool
is_unspecified_v6 a = leading_zeros_v6 a && a.s7 == 0

unfoldable pub is_cgn : Ipv4Addr → Bool
is_cgn ip = ip.o0 == 100 && bit_and ip.o1 0xC0 == 64

unfoldable pub is_ula : Ipv6Addr → Bool
is_ula ip = bit_and ip.s0 0xfe00 == 0xfc00

unfoldable pub is_link_local_v6 : Ipv6Addr → Bool
is_link_local_v6 ip = bit_and ip.s0 0xffc0 == 0xfe80

unfoldable pub is_private_ip : IpAddr → Bool
is_private_ip (v4 a) =
    is_loopback a || is_private a || is_link_local a || is_unspecified a || is_cgn a
is_private_ip (v6 a) = is_loopback_v6 a || is_unspecified_v6 a || is_ula a || is_link_local_v6 a

module _ (parse : Text → Result Text SocketAddr) where
  unfoldable pub validate_outbound_addr :
      Text → List Text → Result AddressValidationError SocketAddr
  validate_outbound_addr addr allowlist = elim (parse addr) [
    | err e ↦ err (parse_error addr e)
    | ok socket_addr ↦
        if any (λ a. a == addr) allowlist
        then ok socket_addr
        else if is_private_ip socket_addr.ip
        then err (private_address addr)
        else ok socket_addr
  ]
