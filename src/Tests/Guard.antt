-- ===== src/Tests/Guard.antt =====
-- ingest/url.rs at the host `134744072`, which is 8.8.8.8.
use wend_rag.Base.{Option, none, some, ◌≡◌, refl, arith}
use wend_rag.Base.Unicode.{ascii}
use wend_rag.Base.Text.{Text, codes, text_eq, starts_with, ends_with}
use wend_rag.Ingest.UrlGuard.{
  Ipv4Addr, IpAddr, Host, domain, parse_u32, digits_from, of_u32, is_private, is_documentation,
  is_blocked_ipv4, is_restricted_name, check_name, check_decimal, check_domain,
  validate_url_not_private,
}
use wend_rag.Ingest.UrlGuard.Ranges.{
  number_of, IsRestricted, spelled, validate_url_not_private-IsRestricted,
}

abbrev address : Ipv4Addr
address = record { a = 8; b = 8; c = 8; d = 8 }

abbrev no_literal : Text → Option IpAddr
no_literal name = none

abbrev host : Host
host = domain (codes "134744072")

spelled_out : spelled no_literal host ≡ some address
unfolding parse_u32 digits_from of_u32
spelled_out = refl

let_through : validate_url_not_private ascii no_literal (some host) ≡ none
unfolding validate_url_not_private check_domain check_decimal check_name parse_u32 digits_from
    of_u32 is_blocked_ipv4 is_private is_documentation is_restricted_name text_eq ends_with
    starts_with
let_through = refl

validate_url_not_private-IsRestricted_example : ¬ IsRestricted (number_of address)
validate_url_not_private-IsRestricted_example =
    validate_url_not_private-IsRestricted ascii no_literal host address
      (omega arith, omega arith, omega arith, omega arith) spelled_out let_through
