-- ===== src/Stdlib/NetGuard/Tests.antt =====
-- Names that resolve to concrete addresses.
use workflow_engine.Prelude.{
  ℕ, ◌<◌, ◌/◌, ◌%◌, ◌≡◌, refl, String, true, false, Option, none, some, List, [], ◌∷◌, All,
  if◌then◌else◌, ◌==◌, string_eq, arith,
}
use workflow_engine.Stdlib.HardenedFetch.{private_ip}
use workflow_engine.Stdlib.NetGuard.{
  Parsed, ipv4, ipv6, IpAddr, unwrap, in_blocked_cidr, is_blocked_address, has_zone_identifier,
  bare, host_blocked, check_addresses, assert_host_is_public, opens_bracket, closes_bracket,
  before_last, after_first,
}
use workflow_engine.Stdlib.NetGuard.Blocks.{octets, in_block, is_special}
use workflow_engine.Stdlib.NetGuard.Public.{PrefixMatch, is_blocked_address-special, let_through}

-- A parser of five texts; an IPv4 address is its number.
abbrev parser : String → Option (Parsed ℕ ℕ)
parser text =
    if text == "169.254.169.254"
    then some (ipv4 2852039166)
    else if text == "::ffff:10.0.0.1"
    then some (ipv6 167772161)
    else if text == "93.184.216.34"
    then some (ipv4 1572395042)
    else none

abbrev ip : IpAddr ℕ ℕ
ip = record {
  parse = parser;
  is_ipv4_mapped_address = λ a. true;
  to_ipv4_address = λ a. a;
  match_ipv4 =
      λ v c. in_block (octets (v / 16777216 % 256) (v / 65536 % 256) (v / 256 % 256) (v % 256)) c;
  match_ipv6 = λ a c. false;
}

octets_bounded :
    (v : ℕ)
    → (v / 16777216 % 256 < 256) × (v / 65536 % 256 < 256) × (v / 256 % 256 < 256) × (v % 256 < 256)
octets_bounded v = (omega arith, omega arith, omega arith, omega arith)

abbrev ip_prefix : PrefixMatch ip
ip_prefix = record {
  first = λ v. v / 16777216 % 256;
  second = λ v. v / 65536 % 256;
  third = λ v. v / 256 % 256;
  fourth = λ v. v % 256;
  is_octets = octets_bounded;
  match_ipv4-block = λ v c. refl;
}

-- A private address inside an IPv6 one is blocked.
is_blocked_address-special_example : is_blocked_address ip "::ffff:10.0.0.1" ≡ true
unfolding is_special unwrap
is_blocked_address-special_example =
    is_blocked_address-special ip ip_prefix "::ffff:10.0.0.1" (ipv6 167772161) 167772161 refl
      (refl, refl)

abbrev resolver : String → Option (List String)
resolver name =
    if name == "example.org"
    then some ("93.184.216.34" ∷ [])
    else if name == "::1"
    then some ("::1" ∷ [])
    else if name == "rebinding"
    then some ("93.184.216.34" ∷ "169.254.169.254" ∷ [])
    else none

let_through_example :
    (has_zone_identifier "example.org" ≡ false)
    × ((rest : List String) × (resolver (bare "example.org") ≡ some ("93.184.216.34" ∷ rest))
        × All (λ a. is_blocked_address ip a ≡ false) ("93.184.216.34" ∷ rest))
unfolding assert_host_is_public check_addresses has_zone_identifier bare opens_bracket
    closes_bracket is_blocked_address in_blocked_cidr unwrap in_block
let_through_example = let_through ip resolver "example.org" "93.184.216.34" refl

rebinding_test : assert_host_is_public ip resolver false "rebinding" ≡ host_blocked private_ip
unfolding assert_host_is_public check_addresses has_zone_identifier bare opens_bracket
    closes_bracket is_blocked_address in_blocked_cidr unwrap in_block
rebinding_test = refl

bracket_test : bare "[::1]" ≡ "::1"
unfolding bare opens_bracket closes_bracket before_last after_first
bracket_test = refl
