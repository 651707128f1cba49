-- ===== src/Egress/Blocks.antt =====
-- The address table of src/web/fetch/egress.rs against the address blocks that it names, written as
-- a base and a prefix length over the whole address.
use web_agent_research.Prelude.{
  ℕ, zero, suc, ◌+◌, ◌*◌, ◌/◌, ◌^◌, ◌<◌, ◌≡◌, refl, Bool, true, false, not, ◌&&◌, ◌||◌, arith, ◌==◌,
  if◌then◌else◌, ◌%◌,
}
use Prim.Native.Nat.{bit_and}
use web_agent_research.Egress.{
  Ipv4Addr, is_forbidden_v4, in_range, Ipv6Addr, carries_v4, forbidden_prefix, is_forbidden_v6,
  embedded_v4,
}

abbrev pub value4 : Ipv4Addr → ℕ
value4 ip = ip.a * 2 ^ 24 + ip.b * 2 ^ 16 + ip.c * 2 ^ 8 + ip.d

pub record IsV4 (ip : Ipv4Addr) : Type 0 where
  pub a : ip.a < 256
  pub b : ip.b < 256
  pub c : ip.c < 256
  pub d : ip.d < 256

-- `value` lies in the block of `base` whose addresses differ in the low `free` bits.
abbrev in_block : ℕ → ℕ → ℕ → Bool
in_block value base free = value / 2 ^ free == base / 2 ^ free

abbrev at4 : ℕ → ℕ → ℕ → ℕ → ℕ
at4 a b c d = a * 2 ^ 24 + b * 2 ^ 16 + c * 2 ^ 8 + d

-- 0.0.0.0/8, 10.0.0.0/8, 127.0.0.0/8, 100.64.0.0/10, 169.254.0.0/16, 172.16.0.0/12,
-- 192.168.0.0/16, 192.0.2.0/24, 198.51.100.0/24, 203.0.113.0/24, 224.0.0.0/4, 255.255.255.255/32
pub in_blocks4 : ℕ → Bool
in_blocks4 v =
    in_block v (at4 0 0 0 0) 24
    || in_block v (at4 10 0 0 0) 24
    || in_block v (at4 127 0 0 0) 24
    || in_block v (at4 100 64 0 0) 22
    || in_block v (at4 169 254 0 0) 16
    || in_block v (at4 172 16 0 0) 20
    || in_block v (at4 192 168 0 0) 16
    || in_block v (at4 192 0 2 0) 8
    || in_block v (at4 198 51 100 0) 8
    || in_block v (at4 203 0 113 0) 8
    || in_block v (at4 224 0 0 0) 28
    || in_block v (at4 255 255 255 255) 0

-- The prefixes of an address, by its octets.
prefixes :
    (ip : Ipv4Addr)
    → IsV4 ip
    → (value4 ip / 2 ^ 24 ≡ ip.a)
      × (value4 ip / 2 ^ 22 ≡ ip.a * 4 + ip.b / 64)
      × (value4 ip / 2 ^ 20 ≡ ip.a * 16 + ip.b / 16)
      × (value4 ip / 2 ^ 16 ≡ ip.a * 256 + ip.b)
      × (value4 ip / 2 ^ 8 ≡ ip.a * 65536 + ip.b * 256 + ip.c)
      × (value4 ip / 2 ^ 28 ≡ ip.a / 16)
prefixes ip v = omega arith

module _ (ip : Ipv4Addr) (v : IsV4 ip) where
  byte_block : (k : ℕ) → (ip.a == k) ≡ in_block (value4 ip) (at4 k 0 0 0) 24
  byte_block k = ground (arith, prefixes ip v)

  two_block : (k l : ℕ) → l < 256 → (ip.a == k && ip.b == l) ≡ in_block (value4 ip) (at4 k l 0 0) 16
  two_block k l h = ground (arith, prefixes ip v)

  three_block :
      (k l m : ℕ)
      → l < 256
      → m < 256
      → (ip.a == k && ip.b == l && ip.c == m) ≡ in_block (value4 ip) (at4 k l m 0) 8
  three_block k l m h h' = ground (arith, prefixes ip v)

  cgnat_block : (ip.a == 100 && in_range 64 127 ip.b) ≡ in_block (value4 ip) (at4 100 64 0 0) 22
  cgnat_block = ground (arith, prefixes ip v)

  private_block : (ip.a == 172 && in_range 16 31 ip.b) ≡ in_block (value4 ip) (at4 172 16 0 0) 20
  private_block = ground (arith, prefixes ip v)

  multicast_block : in_range 224 239 ip.a ≡ in_block (value4 ip) (at4 224 0 0 0) 28
  multicast_block = ground (arith, prefixes ip v)

  broadcast_block :
      (ip.a == 255 && ip.b == 255 && ip.c == 255 && ip.d == 255)
      ≡ in_block (value4 ip) (at4 255 255 255 255) 0
  broadcast_block = ground (arith, prefixes ip v)

  -- For every IPv4 address the table refuses exactly the listed blocks.
  pub is_forbidden_v4-blocks : is_forbidden_v4 ip ≡ in_blocks4 (value4 ip)
  unfolding is_forbidden_v4 in_blocks4
  is_forbidden_v4-blocks = cc (
    byte_block 0,
    byte_block 10,
    byte_block 127,
    cgnat_block,
    two_block 169 254 (omega arith),
    private_block,
    two_block 192 168 (omega arith),
    three_block 192 0 2 (omega arith) (omega arith),
    three_block 198 51 100 (omega arith) (omega arith),
    three_block 203 0 113 (omega arith) (omega arith),
    multicast_block,
    broadcast_block,
  )

-- `test` holds of each number below the bound.
each_below : (ℕ → Bool) → ℕ → Bool
each_below test zero = true
each_below test (suc bound) = each_below test bound && test bound

each_below_lem :
    (test : ℕ → Bool) (bound n : ℕ) → n < bound → each_below test bound ≡ true → test n ≡ true
unfolding each_below
each_below_lem test (suc bound) n lt h = ground (arith, each_below_lem test bound n)
each_below_lem test zero n lt h = absurd (omega arith)

same : Bool → Bool → Bool
same true b = b
same false b = not b

same_lem : (a b : Bool) → same a b ≡ true → a ≡ b
unfolding same
same_lem true true h = refl
same_lem true false h = cc
same_lem false true h = cc
same_lem false false h = refl

masks : ℕ → Bool
masks x =
    same (bit_and x 0xffc0 == 0xfe80) (x / 64 == 0x3fa)
    && same (bit_and x 0xfe00 == 0xfc00) (x / 512 == 0x7e)
    && same (bit_and x 0xff00 == 0xff00) (x / 256 == 0xff)
    && same (bit_and x 0xf000 == 0) (x / 4096 == 0)

masks_table : each_below masks 65536 ≡ true
unfolding each_below masks same
masks_table = refl

four_same :
    (a b c d e f g h : Bool)
    → (same a b && same c d && same e f && same g h) ≡ true
    → (a ≡ b) × (c ≡ d) × (e ≡ f) × (g ≡ h)
unfolding same
four_same a b c d e f g h p = ground arith

masks_lem :
    (x : ℕ)
    → x < 65536
    → ((bit_and x 0xffc0 == 0xfe80) ≡ (x / 64 == 0x3fa))
      × ((bit_and x 0xfe00 == 0xfc00) ≡ (x / 512 == 0x7e))
      × ((bit_and x 0xff00 == 0xff00) ≡ (x / 256 == 0xff))
      × ((bit_and x 0xf000 == 0) ≡ (x / 4096 == 0))
unfolding masks
masks_lem x h = four_same _ _ _ _ _ _ _ _ (each_below_lem masks 65536 x h masks_table)

abbrev pub value6 : Ipv6Addr → ℕ
value6 ip =
    ip.s0 * 2 ^ 112
    + ip.s1 * 2 ^ 96
    + ip.s2 * 2 ^ 80
    + ip.s3 * 2 ^ 64
    + ip.s4 * 2 ^ 48
    + ip.s5 * 2 ^ 32
    + ip.s6 * 2 ^ 16
    + ip.s7

pub record IsV6 (ip : Ipv6Addr) : Type 0 where
  pub s0 : ip.s0 < 65536
  pub s1 : ip.s1 < 65536
  pub s2 : ip.s2 < 65536
  pub s3 : ip.s3 < 65536
  pub s4 : ip.s4 < 65536
  pub s5 : ip.s5 < 65536
  pub s6 : ip.s6 < 65536
  pub s7 : ip.s7 < 65536

-- fe80::/10, fc00::/7, ff00::/8, 2001:db8::/32, 3fff::/20
pub in_blocks6 : ℕ → Bool
in_blocks6 v =
    in_block v (0xfe80 * 2 ^ 112) 118
    || in_block v (0xfc00 * 2 ^ 112) 121
    || in_block v (0xff00 * 2 ^ 112) 120
    || in_block v (0x2001 * 2 ^ 112 + 0xdb8 * 2 ^ 96) 96
    || in_block v (0x3fff * 2 ^ 112) 108

-- `::/96` or `::ffff:0:0/96`
pub is_mapped : ℕ → Bool
is_mapped v = in_block v 0 32 || in_block v (0xffff * 2 ^ 32) 32

module _ (ip : Ipv6Addr) (v : IsV6 ip) where
  prefixes6 :
      (value6 ip / 2 ^ 118 ≡ ip.s0 / 64)
      × (value6 ip / 2 ^ 121 ≡ ip.s0 / 512)
      × (value6 ip / 2 ^ 120 ≡ ip.s0 / 256)
      × (value6 ip / 2 ^ 96 ≡ ip.s0 * 65536 + ip.s1)
      × (value6 ip / 2 ^ 108 ≡ ip.s0 * 16 + ip.s1 / 4096)
  prefixes6 = omega arith

  mapped : carries_v4 ip ≡ is_mapped (value6 ip)
  unfolding is_mapped
  mapped = ground arith

  low32 : value6 ip % 2 ^ 32 ≡ value4 (embedded_v4 ip)
  low32 = omega arith

  documentation_block :
      (ip.s0 == 0x2001 && ip.s1 == 0x0db8)
      ≡ in_block (value6 ip) (0x2001 * 2 ^ 112 + 0xdb8 * 2 ^ 96) 96
  documentation_block = ground (arith, prefixes6, v.s1)

  rfc9637_block :
      (ip.s0 == 0x3fff && bit_and ip.s1 0xf000 == 0) ≡ in_block (value6 ip) (0x3fff * 2 ^ 112) 108
  rfc9637_block = ground (arith, prefixes6, v.s1, masks_lem ip.s1 v.s1)

  prefix_blocks : forbidden_prefix ip ≡ in_blocks6 (value6 ip)
  unfolding in_blocks6
  prefix_blocks =
      let (p, q, r, _, _) = prefixes6 in
      let (m, n, o, _) = masks_lem ip.s0 v.s0 in
      cc (p, q, r, m, n, o, documentation_block, rfc9637_block)

  -- For every IPv6 address the table refuses exactly: an IPv4-mapped or IPv4-compatible address
  -- whose low 32 bits are a refused IPv4 address, and any other address in the listed blocks.
  pub is_forbidden_v6-blocks :
      is_forbidden_v6 ip
      ≡ (if is_mapped (value6 ip) then in_blocks4 (value6 ip % 2 ^ 32) else in_blocks6 (value6 ip))
  unfolding is_forbidden_v6
  is_forbidden_v6-blocks =
      cc (mapped, low32, prefix_blocks, is_forbidden_v4-blocks (embedded_v4 ip) (omega (arith, v)))
