-- ===== src/Stdlib/NetGuard/Blocks.antt =====
-- net-guard/index.ts: the blocked IPv4 addresses by their octets.
use workflow_engine.Prelude.{
  ℕ, ◌+◌, ◌-◌, ◌*◌, ◌/◌, ◌^◌, ◌<◌, ◌≡◌, Bool, false, ◌&&◌, ◌||◌, any, leb, ◌==◌, nat_eq, arith,
}
use workflow_engine.Stdlib.NetGuard.{Cidr, blocked_cidrs_ipv4}

-- A block has the addresses that begin with its prefix.
unfoldable pub in_block : ℕ → Cidr → Bool
in_block n c =
    n / 2 ^ (32 - c.bits)
    == (c.first * 16777216 + c.second * 65536 + c.third * 256 + c.fourth) / 2 ^ (32 - c.bits)

-- The special addresses by the octets of the address.
unfoldable pub is_special : ℕ → ℕ → ℕ → Bool
is_special a b c =
    a == 0
    || a == 10
    || a == 127
    || leb 224 a
    || (a == 100 && leb 64 b && leb b 127)
    || (a == 169 && b == 254)
    || (a == 172 && leb 16 b && leb b 31)
    || (a == 192 && (b == 168 || (b == 0 && (c == 0 || c == 2)) || (b == 88 && c == 99)))
    || (a == 198 && (b == 18 || b == 19 || (b == 51 && c == 100)))
    || (a == 203 && b == 0 && c == 113)

abbrev pub octets : ℕ → ℕ → ℕ → ℕ → ℕ
octets a b c d = a * 16777216 + b * 65536 + c * 256 + d

-- A block of eight, sixteen or twenty-four bits is told by as many octets.
prefix8 :
    (a b c d k : ℕ)
    → b < 256
    → c < 256
    → d < 256
    → (octets a b c d / 16777216 == octets k 0 0 0 / 16777216) ≡ (a == k)
prefix8 a b c d k hb hc hd = ground arith

prefix16 :
    (a b c d k l : ℕ)
    → b < 256
    → c < 256
    → d < 256
    → l < 256
    → (octets a b c d / 65536 == octets k l 0 0 / 65536) ≡ (a == k && b == l)
prefix16 a b c d k l hb hc hd hl = ground arith

prefix24 :
    (a b c d k l m : ℕ)
    → b < 256
    → c < 256
    → d < 256
    → l < 256
    → m < 256
    → (octets a b c d / 256 == octets k l m 0 / 256) ≡ (a == k && (b == l && c == m))
prefix24 a b c d k l m hb hc hd hl hm = ground arith

-- The blocks that end within an octet.
carrier :
    (a b c d : ℕ)
    → b < 256
    → c < 256
    → d < 256
    → (octets a b c d / 4194304 == octets 100 64 0 0 / 4194304)
      ≡ (a == 100 && (leb 64 b && leb b 127))
carrier a b c d hb hc hd = ground arith

private :
    (a b c d : ℕ)
    → b < 256
    → c < 256
    → d < 256
    → (octets a b c d / 1048576 == octets 172 16 0 0 / 1048576)
      ≡ (a == 172 && (leb 16 b && leb b 31))
private a b c d hb hc hd = ground arith

benchmark :
    (a b c d : ℕ)
    → b < 256
    → c < 256
    → d < 256
    → (octets a b c d / 131072 == octets 198 18 0 0 / 131072) ≡ (a == 198 && (b == 18 || b == 19))
benchmark a b c d hb hc hd = ground arith

multicast :
    (a b c d : ℕ)
    → b < 256
    → c < 256
    → d < 256
    → (octets a b c d / 268435456 == octets 224 0 0 0 / 268435456) ≡ (leb 224 a && leb a 239)
multicast a b c d hb hc hd = ground arith

reserved :
    (a b c d : ℕ)
    → a < 256
    → b < 256
    → c < 256
    → d < 256
    → (octets a b c d / 268435456 == octets 240 0 0 0 / 268435456) ≡ leb 240 a
reserved a b c d ha hb hc hd = ground arith

broadcast :
    (a b c d : ℕ)
    → b < 256
    → c < 256
    → d < 256
    → (octets a b c d / 1 == octets 255 255 255 255 / 1)
      ≡ (a == 255 && (b == 255 && (c == 255 && d == 255)))
broadcast a b c d hb hc hd = ground arith

special_octets :
    (a b c d : ℕ)
    → (a == 0
        || (a == 10
            || (a == 100 && (leb 64 b && leb b 127)
                || (a == 127
                    || (a == 169 && b == 254
                        || (a == 172 && (leb 16 b && leb b 31)
                            || (a == 192 && (b == 0 && c == 0)
                                || (a == 192 && (b == 0 && c == 2)
                                    || (a == 192 && (b == 88 && c == 99)
                                        || (a == 192 && b == 168
                                            || (a == 198 && (b == 18 || b == 19)
                                                || (a == 198 && (b == 51 && c == 100)
                                                    || (a == 203 && (b == 0 && c == 113)
                                                        || (leb 224 a && leb a 239
                                                            || (leb 240 a
                                                            || (a == 255
                                                            && (b == 255 && (c == 255 && d == 255))
                                                            || false))))))))))))))))
      ≡ is_special a b c
unfolding is_special
special_octets a b c d = ground arith

pub blocked_octets :
    (a b c d : ℕ)
    → a < 256
    → b < 256
    → c < 256
    → d < 256
    → any (in_block (octets a b c d)) blocked_cidrs_ipv4 ≡ is_special a b c
unfolding in_block is_special
blocked_octets a b c d ha hb hc hd =
    rw
      (
        prefix8 a b c d 0 hb hc hd,
        prefix8 a b c d 10 hb hc hd,
        carrier a b c d hb hc hd,
        prefix8 a b c d 127 hb hc hd,
        prefix16 a b c d 169 254 hb hc hd (omega arith),
        private a b c d hb hc hd,
      )
      (rw
        (
          prefix24 a b c d 192 0 0 hb hc hd (omega arith) (omega arith),
          prefix24 a b c d 192 0 2 hb hc hd (omega arith) (omega arith),
          prefix24 a b c d 192 88 99 hb hc hd (omega arith) (omega arith),
          prefix16 a b c d 192 168 hb hc hd (omega arith),
          benchmark a b c d hb hc hd,
          prefix24 a b c d 198 51 100 hb hc hd (omega arith) (omega arith),
          prefix24 a b c d 203 0 113 hb hc hd (omega arith) (omega arith),
        )
        (rw (multicast a b c d hb hc hd, reserved a b c d ha hb hc hd, broadcast a b c d hb hc hd)
          (special_octets a b c d)))
