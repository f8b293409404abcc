-- ===== src/Stdlib/NetGuard.antt =====
-- packages/sandbox-stdlib/src/net-guard/index.ts: which addresses a guest may reach. The parser of
-- addresses and their match with a block (ipaddr.js) and the resolution of names are parameters.
pub mod Blocks
pub mod Public
mod Tests
use Prim.Native.Char.{code}
use Prim.Native.String
use workflow_engine.Prelude.{
  ℕ, Bool, String, true, false, ◌&&◌, ◌||◌, Option, none, some, List, [], ◌∷◌, any, ◌==◌, nat_eq,
  if◌then◌else◌, head?,
}
use workflow_engine.Stdlib.HardenedFetch.{Reason, private_ip, zone_id}

-- A block of IPv4 addresses as it is written: four octets and the length of the prefix.
pub record Cidr : Type 0 where
  pub first : ℕ
  pub second : ℕ
  pub third : ℕ
  pub fourth : ℕ
  pub bits : ℕ

-- A block of IPv6 addresses: its text before the slash and the length of the prefix.
pub record CidrV6 : Type 0 where
  pub prefix : String
  pub bits : ℕ

abbrev pub cidr : ℕ → ℕ → ℕ → ℕ → ℕ → Cidr
cidr a b c d n = record { first = a; second = b; third = c; fourth = d; bits = n }

abbrev pub blocked_cidrs_ipv4 : List Cidr
blocked_cidrs_ipv4 =
    cidr 0 0 0 0 8
    ∷ cidr 10 0 0 0 8
    ∷ cidr 100 64 0 0 10
    ∷ cidr 127 0 0 0 8
    ∷ cidr 169 254 0 0 16
    ∷ cidr 172 16 0 0 12
    ∷ cidr 192 0 0 0 24
    ∷ cidr 192 0 2 0 24
    ∷ cidr 192 88 99 0 24
    ∷ cidr 192 168 0 0 16
    ∷ cidr 198 18 0 0 15
    ∷ cidr 198 51 100 0 24
    ∷ cidr 203 0 113 0 24
    ∷ cidr 224 0 0 0 4
    ∷ cidr 240 0 0 0 4
    ∷ cidr 255 255 255 255 32
    ∷ []

abbrev pub cidr6 : String → ℕ → CidrV6
cidr6 prefix n = record { prefix = prefix; bits = n }

abbrev pub blocked_cidrs_ipv6 : List CidrV6
blocked_cidrs_ipv6 =
    cidr6 "::" 128 ∷ cidr6 "::1" 128 ∷ cidr6 "100::" 64 ∷ cidr6 "fc00::" 7 ∷ cidr6 "fe80::" 10 ∷ []

pub data Parsed (V4 V6 : Type 0) : Type 0 where
  ipv4 : V4 → Parsed V4 V6
  ipv6 : V6 → Parsed V4 V6

-- What is used of ipaddr.js.
pub record IpAddr (V4 V6 : Type 0) : Type 0 where
  pub parse : String → Option (Parsed V4 V6)
  pub is_ipv4_mapped_address : V6 → Bool
  pub to_ipv4_address : V6 → V4
  pub match_ipv4 : V4 → Cidr → Bool
  pub match_ipv6 : V6 → CidrV6 → Bool

module _ {V4 V6 : Type 0} (ip : IpAddr V4 V6) where
  -- An IPv4 address in an IPv6 one is taken out of it.
  pub unwrap : Parsed V4 V6 → Parsed V4 V6
  unwrap (ipv4 a) = ipv4 a
  unwrap (ipv6 a) = if ip.is_ipv4_mapped_address a then ipv4 (ip.to_ipv4_address a) else ipv6 a

  pub in_blocked_cidr : Parsed V4 V6 → Bool
  in_blocked_cidr (ipv4 a) = any (ip.match_ipv4 a) blocked_cidrs_ipv4
  in_blocked_cidr (ipv6 a) = any (ip.match_ipv6 a) blocked_cidrs_ipv6

  pub is_blocked_address : String → Bool
  is_blocked_address address = elim (ip.parse address) [
    | none ↦ true
    | some parsed ↦ in_blocked_cidr (unwrap parsed)
  ]

pub has_zone_identifier : String → Bool
has_zone_identifier String.[] = false
has_zone_identifier (String.◌∷◌ c s) = code c == b'%' || has_zone_identifier s

opens_bracket : String → Bool
opens_bracket String.[] = false
opens_bracket (String.◌∷◌ c s) = code c == b'['

-- A text without its first character.
after_first : String → String
after_first String.[] = ""
after_first (String.◌∷◌ c s) = s

-- Whether a text ends in a closing bracket, and the text without its last character.
closes_bracket : String → Bool
closes_bracket String.[] = false
closes_bracket (String.◌∷◌ c String.[]) = code c == b']'
closes_bracket (String.◌∷◌ c (String.◌∷◌ d s)) = closes_bracket (String.◌∷◌ d s)

before_last : String → String
before_last String.[] = ""
before_last (String.◌∷◌ c String.[]) = ""
before_last (String.◌∷◌ c (String.◌∷◌ d s)) = String.◌∷◌ c (before_last (String.◌∷◌ d s))

-- The name without the brackets of an IPv6 literal.
pub bare : String → String
bare hostname =
    if opens_bracket hostname && closes_bracket hostname
    then before_last (after_first hostname)
    else hostname

pub data HostCheck : Type 0 where
  public_address : String → HostCheck
  host_blocked : Reason → HostCheck
  lookup_failed no_addresses : HostCheck

module _ {V4 V6 : Type 0} (ip : IpAddr V4 V6) where
  -- The addresses that the name resolves to, or `none` where the resolution fails; `disabled` is the
  -- switch of the tests.
  pub check_addresses : Bool → Option (List String) → HostCheck
  check_addresses disabled none = lookup_failed
  check_addresses disabled (some []) = no_addresses
  check_addresses disabled (some (a ∷ addresses)) =
      if disabled
      then public_address a
      else if any (is_blocked_address ip) (a ∷ addresses)
      then host_blocked private_ip
      else public_address a

  pub assert_host_is_public : (String → Option (List String)) → Bool → String → HostCheck
  assert_host_is_public lookup disabled hostname =
      if has_zone_identifier hostname
      then host_blocked zone_id
      else check_addresses disabled (lookup (bare hostname))
