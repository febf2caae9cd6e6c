-- ===== src/Ingest/UrlGuard.antt =====
-- ingest/url.rs: the check that keeps URL ingestion away from private addresses. The URL's host comes
-- parsed from a library; reading an address in its textual form, `parse::<IpAddr>()`, is a parameter.
pub mod Ranges
use Prim.Native.Nat.{bit_and}
use wend_rag.Base.{
  ℕ, zero, ◌+◌, ◌-◌, ◌*◌, ◌/◌, ◌%◌, ◌^◌, List, [], ◌∷◌, Option, none, some, Bool, true, false, ◌&&◌,
  ◌||◌, leb, ltb, ◌==◌, if◌then◌else◌,
}
use wend_rag.Base.Text.{Text, codes, text_eq, ends_with}
use wend_rag.Base.Unicode.{Unicode}

-- The four octets of an address.
pub record Ipv4Addr : Type 0 where
  pub a : ℕ
  pub b : ℕ
  pub c : ℕ
  pub d : ℕ

-- The eight segments of 16 bits.
pub record Ipv6Addr : Type 0 where
  pub s0 : ℕ
  pub s1 : ℕ
  pub s2 : ℕ
  pub s3 : ℕ
  pub s4 : ℕ
  pub s5 : ℕ
  pub s6 : ℕ
  pub s7 : ℕ

pub data IpAddr : Type 0 where
  v4 : Ipv4Addr → IpAddr
  v6 : Ipv6Addr → IpAddr

pub data Host : Type 0 where
  ipv4 : Ipv4Addr → Host
  ipv6 : Ipv6Addr → Host
  domain : Text → Host

-- The methods of `Ipv4Addr`, in the order in which they are called.
unfoldable pub is_private : Ipv4Addr → Bool
is_private ip =
    ip.a == 10 || (ip.a == 172 && leb 16 ip.b && leb ip.b 31) || (ip.a == 192 && ip.b == 168)

unfoldable pub is_documentation : Ipv4Addr → Bool
is_documentation ip =
    (ip.a == 192 && ip.b == 0 && ip.c == 2)
    || (ip.a == 198 && ip.b == 51 && ip.c == 100)
    || (ip.a == 203 && ip.b == 0 && ip.c == 113)

unfoldable pub is_blocked_ipv4 : Ipv4Addr → Bool
unfolding is_private is_documentation
is_blocked_ipv4 ip =
    is_private ip
    || ip.a == 127
    || (ip.a == 169 && ip.b == 254)
    || (leb 224 ip.a && leb ip.a 239)
    || (ip.a == 255 && ip.b == 255 && ip.c == 255 && ip.d == 255)
    || is_documentation ip
    || (ip.a == 0 && ip.b == 0 && ip.c == 0 && ip.d == 0)

unfoldable pub starts_zero : Ipv6Addr → Bool
starts_zero ip = ip.s0 == 0 && ip.s1 == 0 && ip.s2 == 0 && ip.s3 == 0 && ip.s4 == 0

unfoldable pub to_ipv4_mapped : Ipv6Addr → Option Ipv4Addr
unfolding starts_zero
to_ipv4_mapped ip =
    if starts_zero ip && ip.s5 == 0xffff
    then some record { a = ip.s6 / 256; b = ip.s6 % 256; c = ip.s7 / 256; d = ip.s7 % 256 }
    else none

unfoldable pub is_ipv6_unique_local : Ipv6Addr → Bool
is_ipv6_unique_local ip = bit_and ip.s0 0xfe00 == 0xfc00

unfoldable pub is_ipv6_link_local : Ipv6Addr → Bool
is_ipv6_link_local ip = bit_and ip.s0 0xffc0 == 0xfe80

-- The tests of an address that is no mapped one.
unfoldable pub is_blocked_native : Ipv6Addr → Bool
unfolding starts_zero is_ipv6_unique_local is_ipv6_link_local
is_blocked_native ip =
    let low_zero = starts_zero ip && ip.s5 == 0 && ip.s6 == 0 in
    (low_zero && ip.s7 == 1)
    || bit_and ip.s0 0xff00 == 0xff00
    || is_ipv6_unique_local ip
    || is_ipv6_link_local ip
    || (low_zero && ip.s7 == 0)

unfoldable pub is_blocked_ipv6 : Ipv6Addr → Bool
is_blocked_ipv6 ip = elim (to_ipv4_mapped ip) [
  | none ↦ is_blocked_native ip
  | some mapped ↦ is_blocked_ipv4 mapped
]

unfoldable pub is_blocked_ip : IpAddr → Bool
is_blocked_ip (v4 ip) = is_blocked_ipv4 ip
is_blocked_ip (v6 ip) = is_blocked_ipv6 ip

-- `parse::<u32>()`: an optional plus sign, then digits, at least one, below 2 ^ 32.
unfoldable pub digits_from : ℕ → Text → Option ℕ
digits_from n [] = some n
digits_from n (c ∷ s) =
    let rest = digits_from (n * 10 + (c - b'0')) s in
    if leb b'0' c && leb c b'9' && ltb (n * 10 + (c - b'0')) (2 ^ 32) then rest else none

unfoldable pub parse_u32 : Text → Option ℕ
unfolding digits_from
parse_u32 [] = none
parse_u32 (c ∷ []) = digits_from 0 (c ∷ [])
parse_u32 (c ∷ e ∷ s) = if c == b'+' then digits_from 0 (e ∷ s) else digits_from 0 (c ∷ e ∷ s)

-- `Ipv4Addr::from(u32)`
unfoldable pub of_u32 : ℕ → Ipv4Addr
of_u32 n = record { a = n / 2 ^ 24; b = (n / 2 ^ 16) % 256; c = (n / 2 ^ 8) % 256; d = n % 256 }

-- Why a URL is refused; the source's error has the reason as a text.
pub data Refusal : Type 0 where
  restricted_address restricted_decimal restricted_domain : Refusal

unfoldable pub is_restricted_name : Text → Bool
unfolding text_eq ends_with
is_restricted_name name =
    text_eq name (codes "localhost")
    || ends_with name (codes ".local")
    || ends_with name (codes ".internal")
    || ends_with name (codes ".localhost")

module _ (unicode : Unicode) (parse_ip : Text → Option IpAddr) where
  unfoldable pub check_name : Text → Option Refusal
  check_name name =
      if is_restricted_name (unicode.to_lowercase name) then some restricted_domain else none

  unfoldable pub check_decimal : Text → Option ℕ → Option Refusal
  check_decimal name none = check_name name
  check_decimal name (some n) =
      if is_blocked_ipv4 (of_u32 n) then some restricted_decimal else check_name name

  unfoldable pub check_domain : Text → Option IpAddr → Option Refusal
  check_domain name none = check_decimal name (parse_u32 name)
  check_domain name (some ip) =
      if is_blocked_ip ip then some restricted_address else check_name name

  -- `none` where the source returns `Ok(())`.
  unfoldable pub validate_url_not_private : Option Host → Option Refusal
  validate_url_not_private none = none
  validate_url_not_private (some (ipv4 ip)) =
      if is_blocked_ipv4 ip then some restricted_address else none
  validate_url_not_private (some (ipv6 ip)) =
      if is_blocked_ipv6 ip then some restricted_address else none
  validate_url_not_private (some (domain name)) = check_domain name (parse_ip name)

-- `ValidatingResolver`: what the system's resolver returned, if each address may be reached; `none`
-- where the source returns an error.
unfoldable pub all_allowed : List IpAddr → Bool
all_allowed [] = true
all_allowed (ip ∷ ips) = if is_blocked_ip ip then false else all_allowed ips

unfoldable pub resolve : List IpAddr → Option (List IpAddr)
unfolding all_allowed
resolve [] = none
resolve (ip ∷ ips) = if all_allowed (ip ∷ ips) then some (ip ∷ ips) else none
