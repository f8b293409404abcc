-- ===== src/Stdlib/NetGuard/Public.antt =====
-- net-guard/index.ts: the address that a guest's connection gets.
use workflow_engine.Prelude.{
  ℕ, ◌<◌, ◌≡◌, refl, ap, ◌∙◌, Bool, String, true, false, Option, none, some, List, [], ◌∷◌, any,
  All, Bool-cases, subst, inl, inr,
}
use workflow_engine.Stdlib.NetGuard.{
  Cidr, Parsed, ipv4, ipv6, IpAddr, unwrap, in_blocked_cidr, is_blocked_address,
  has_zone_identifier, bare, public_address, check_addresses, assert_host_is_public,
  blocked_cidrs_ipv4,
}
use workflow_engine.Stdlib.NetGuard.Blocks.{octets, in_block, is_special, blocked_octets}

-- An IPv4 address is four octets, and it matches a block if it begins with its prefix.
pub record PrefixMatch {V4 V6 : Type 0} (ip : IpAddr V4 V6) : Type 0 where
  pub first : V4 → ℕ
  pub second : V4 → ℕ
  pub third : V4 → ℕ
  pub fourth : V4 → ℕ
  pub is_octets : (v : V4) → (first v < 256) × (second v < 256) × (third v < 256) × (fourth v < 256)
  pub match_ipv4-block :
      (v : V4) (c : Cidr)
      → ip.match_ipv4 v c ≡ in_block (octets (first v) (second v) (third v) (fourth v)) c

any_cong : {A : Type 0} (p q : A → Bool) (xs : List A) → ((a : A) → p a ≡ q a) → any p xs ≡ any q xs
any_cong p q [] h = refl
any_cong p q (x ∷ xs) h = rw (h x, any_cong p q xs h) refl

none_of : {A : Type 0} (p : A → Bool) (xs : List A) → any p xs ≡ false → All (λ a. p a ≡ false) xs
none_of p [] h = tt
none_of p (x ∷ xs) h = elim (Bool-cases (p x)) [
  | inl t ↦ absurd (cc (rw t at h))
  | inr f ↦ (f, none_of p xs (rw f at h))
]

module _ {V4 V6 : Type 0} (ip : IpAddr V4 V6) where
  -- The IPv4 address that a parsed address is, or that stands inside an IPv6 one.
  abbrev pub Carries : Parsed V4 V6 → V4 → Type 0
  Carries (ipv4 a) v = a ≡ v
  Carries (ipv6 a) v = (ip.is_ipv4_mapped_address a ≡ true) × (ip.to_ipv4_address a ≡ v)

  unwrap-Carries : (parsed : Parsed V4 V6) (v : V4) → Carries parsed v → unwrap ip parsed ≡ ipv4 v
  unfolding unwrap
  unwrap-Carries (ipv4 a) v h = ap ipv4 h
  unwrap-Carries (ipv6 a) v (t, h) = rw t (ap ipv4 h)

  -- An address that the parser reads as an IPv4 address, written as such or inside an IPv6 one, is
  -- blocked exactly if its octets are those of a special range.
  pub is_blocked_address-special :
      (law : PrefixMatch ip) (address : String) (parsed : Parsed V4 V6) (v : V4)
      → ip.parse address ≡ some parsed
      → Carries parsed v
      → is_blocked_address ip address ≡ is_special (law.first v) (law.second v) (law.third v)
  unfolding is_blocked_address in_blocked_cidr
  is_blocked_address-special law address parsed v p u =
      let (ha, hb, hc, hd) = law.is_octets v in
      rw (p, is_blocked_address)
        (ap (in_blocked_cidr ip) (unwrap-Carries parsed v u)
          ∙ any_cong _ _ blocked_cidrs_ipv4 (law.match_ipv4-block v)
          ∙ blocked_octets (law.first v) (law.second v) (law.third v) (law.fourth v) ha hb hc hd)

  -- An address without a reading is refused.
  pub unread_blocked :
      (address : String) → ip.parse address ≡ none → is_blocked_address ip address ≡ true
  unfolding is_blocked_address
  unread_blocked address h = rw (h, is_blocked_address) refl

  addresses_checked :
      (found : Option (List String)) (address : String)
      → check_addresses ip false found ≡ public_address address
      → (rest : List String) × (found ≡ some (address ∷ rest))
        × All (λ a. is_blocked_address ip a ≡ false) (address ∷ rest)
  unfolding check_addresses
  addresses_checked none address h = absurd (cc h)
  addresses_checked (some []) address h = absurd (cc h)
  addresses_checked (some (a ∷ addresses)) address h =
      elim (Bool-cases (any (is_blocked_address ip) (a ∷ addresses))) [
        | inl t ↦ absurd (cc (rw t at h))
        | inr f ↦
            (let passed = rw f at h in
              let same : a ≡ address = cc passed in
              (
                addresses,
                ap (λ x. some (x ∷ addresses)) same,
                subst (λ x. All (λ b. is_blocked_address ip b ≡ false) (x ∷ addresses)) same
                    (none_of (is_blocked_address ip) (a ∷ addresses) f),
              ))
      ]

  -- Where a name is let through while the protection is on, it has no zone identifier, the address is
  -- the first one that it resolves to, and none of the addresses that it resolves to is blocked.
  pub let_through :
      (lookup : String → Option (List String)) (hostname address : String)
      → assert_host_is_public ip lookup false hostname ≡ public_address address
      → (has_zone_identifier hostname ≡ false)
        × ((rest : List String) × (lookup (bare hostname) ≡ some (address ∷ rest))
            × All (λ a. is_blocked_address ip a ≡ false) (address ∷ rest))
  unfolding assert_host_is_public
  let_through lookup hostname address h = elim (Bool-cases (has_zone_identifier hostname)) [
    | inl t ↦ absurd (cc (rw t at h))
    | inr f ↦ (f, addresses_checked (lookup (bare hostname)) address (rw f at h))
  ]
