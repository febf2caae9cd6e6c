-- ===== src/Ingest/UrlGuard/Ranges.antt =====
-- The addresses that the check of ingest/url.rs lets through, as numbers.
use wend_rag.Base.{
  ℕ, ◌+◌, ◌*◌, ◌^◌, ◌≤◌, ◌<◌, Option, none, some, Bool, true, false, if◌then◌else◌, ◌⊎◌, ◌≡◌, refl,
  sym, ap, ◌∙◌, subst, arith,
}
use wend_rag.Base.Text.{Text}
use wend_rag.Base.Unicode.{Unicode}
use wend_rag.Ingest.UrlGuard.{
  Ipv4Addr, Ipv6Addr, IpAddr, v4, v6, Host, ipv4, ipv6, domain, is_blocked_ipv4, to_ipv4_mapped,
  is_blocked_native, is_blocked_ipv6, is_blocked_ip, parse_u32, of_u32, Refusal, restricted_address,
  restricted_decimal, check_name, check_decimal, check_domain, validate_url_not_private,
}

abbrev pub IsAddress : Ipv4Addr → Type 0
IsAddress ip = (ip.a < 256) × (ip.b < 256) × (ip.c < 256) × (ip.d < 256)

abbrev pub number_of : Ipv4Addr → ℕ
number_of ip = ip.a * 2 ^ 24 + ip.b * 2 ^ 16 + ip.c * 2 ^ 8 + ip.d

-- One of the ranges: 10.0.0.0/8, 172.16.0.0/12, 192.168.0.0/16, 127.0.0.0/8, 169.254.0.0/16,
-- 224.0.0.0/4, 255.255.255.255, the three for documentation, and 0.0.0.0.
abbrev pub InRange : ℕ → ℕ → ℕ → Type 0
InRange base size n = (base ≤ n) × (n < base + size)

abbrev pub IsRestricted : ℕ → Type 0
IsRestricted n =
    InRange 167772160 (2 ^ 24) n
    ⊎ InRange 2886729728 (2 ^ 20) n
    ⊎ InRange 3232235520 (2 ^ 16) n
    ⊎ InRange 2130706432 (2 ^ 24) n
    ⊎ InRange 2851995648 (2 ^ 16) n
    ⊎ InRange 3758096384 (2 ^ 28) n
    ⊎ InRange 4294967295 1 n
    ⊎ InRange 3221225984 (2 ^ 8) n
    ⊎ InRange 3325256704 (2 ^ 8) n
    ⊎ InRange 3405803776 (2 ^ 8) n
    ⊎ InRange 0 1 n

restricted_blocked :
    (ip : Ipv4Addr) → IsAddress ip → IsRestricted (number_of ip) → is_blocked_ipv4 ip ≡ true
unfolding is_blocked_ipv4
restricted_blocked ip h r = ground arith

abbrev pub mapped_of : IpAddr → Option Ipv4Addr
mapped_of (v4 ip) = some ip
mapped_of (v6 ip) = to_ipv4_mapped ip

abbrev pub decimal_of : Option ℕ → Option Ipv4Addr
decimal_of none = none
decimal_of (some n) = some (of_u32 n)

abbrev pub parsed_or : Option IpAddr → Option Ipv4Addr → Option Ipv4Addr
parsed_or none decimal = decimal
parsed_or (some ip) decimal = mapped_of ip

-- The IPv4 address that a host spells out: as such, mapped into IPv6, or, where the URL has it for a
-- name, in the textual form of an address or as a decimal number.
abbrev pub spelled : (Text → Option IpAddr) → Host → Option Ipv4Addr
spelled parse_ip (ipv4 ip) = some ip
spelled parse_ip (ipv6 ip) = to_ipv4_mapped ip
spelled parse_ip (domain name) = parsed_or (parse_ip name) (decimal_of (parse_u32 name))

mapped_blocked :
    (ip : Ipv6Addr) (m : Ipv4Addr)
    → to_ipv4_mapped ip ≡ some m
    → is_blocked_ipv6 ip ≡ is_blocked_ipv4 m
unfolding is_blocked_ipv6
mapped_blocked ip m e =
    ap (λ o. elim o [ none ↦ is_blocked_native ip | some mapped ↦ is_blocked_ipv4 mapped ]) e

ip_blocked :
    (ip : IpAddr) (m : Ipv4Addr) → mapped_of ip ≡ some m → is_blocked_ip ip ≡ is_blocked_ipv4 m
unfolding is_blocked_ip
ip_blocked (v4 ip) m e = ap is_blocked_ipv4 (some-injective e)
  where
    some-injective : {x y : Ipv4Addr} → some x ≡ some y → x ≡ y
    some-injective q = cc
ip_blocked (v6 ip) m e = mapped_blocked ip m e

refused :
    (b : Bool) (r : Refusal) (o : Option Refusal) → (if b then some r else o) ≡ none → b ≡ false
refused true r o h = cc
refused false r o h = refl

-- A URL that the check lets through does not spell out a restricted IPv4 address in any of the ways
-- that the check knows: the number of the address lies in none of the ranges.
pub validate_url_not_private-IsRestricted :
    (unicode : Unicode) (parse_ip : Text → Option IpAddr) (host : Host) (ip : Ipv4Addr)
    → IsAddress ip
    → spelled parse_ip host ≡ some ip
    → validate_url_not_private unicode parse_ip (some host) ≡ none
    → ¬ IsRestricted (number_of ip)
unfolding validate_url_not_private
validate_url_not_private-IsRestricted unicode parse_ip host ip h same allowed restricted =
    absurd
      (differ (is_blocked_ipv4 ip) (restricted_blocked ip h restricted) (free host same allowed))
  where
    differ : (b : Bool) → b ≡ true → b ≡ false → ⊥
    differ true p q = cc
    differ false p q = cc

    some-injective : {x y : Ipv4Addr} → some x ≡ some y → x ≡ y
    some-injective q = cc

    free_name :
        (name : Text) (parsed : Option IpAddr) (number : Option ℕ)
        → parse_u32 name ≡ number
        → parsed_or parsed (decimal_of number) ≡ some ip
        → check_domain unicode parse_ip name parsed ≡ none
        → is_blocked_ipv4 ip ≡ false
    free_name name none none e q a = cc
    free_name name none (some n) e q a =
        let shown : check_decimal unicode parse_ip name (some n) ≡ none =
          subst (λ o. check_decimal unicode parse_ip name o ≡ none) e (unfold check_domain in a) in
        ap is_blocked_ipv4 (sym (some-injective q))
        ∙ refused (is_blocked_ipv4 (of_u32 n)) restricted_decimal (check_name unicode parse_ip name)
            (unfold check_decimal in shown)
    free_name name (some addr) number e q a =
        sym (ip_blocked addr ip q)
        ∙ refused (is_blocked_ip addr) restricted_address (check_name unicode parse_ip name)
            (unfold check_domain in a)

    free :
        (host : Host)
        → spelled parse_ip host ≡ some ip
        → validate_url_not_private unicode parse_ip (some host) ≡ none
        → is_blocked_ipv4 ip ≡ false
    free (ipv4 addr) q a =
        ap is_blocked_ipv4 (sym (some-injective q))
        ∙ refused (is_blocked_ipv4 addr) restricted_address none a
    free (ipv6 addr) q a =
        sym (mapped_blocked addr ip q) ∙ refused (is_blocked_ipv6 addr) restricted_address none a
    free (domain name) q a = free_name name (parse_ip name) (parse_u32 name) refl q a
