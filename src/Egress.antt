-- ===== src/Egress.antt =====
-- src/web/fetch/egress.rs: which addresses a fetch may reach, and the points at which that is
-- checked. An address is its octets or segments; DNS answers are arguments.
pub mod Blocks
pub mod Reach
use web_agent_research.Prelude.{
  [], ℕ, ◌/◌, ◌%◌, Bool, true, false, ◌&&◌, ◌||◌, Option, none, some, List, ◌∷◌, Text, codes,
  is_empty, text_eq, leb, ◌==◌, if◌then◌else◌,
}
use Prim.Native.Nat.{bit_and}

pub record Ipv4Addr : Type 0 where
  pub a : ℕ
  pub b : ℕ
  pub c : ℕ
  pub d : ℕ

pub record Ipv6Addr : Type 0 where
  pub s0 : ℕ
  pub s1 : ℕ
  pub s2 : ℕ
  pub s3 : ℕ
  pub s4 : ℕ
  pub s5 : ℕ
  pub s6 : ℕ
  pub s7 : ℕ

pub data IpAddr : Type 0 where
  v4 : Ipv4Addr → IpAddr
  v6 : Ipv6Addr → IpAddr

-- `(lo..=hi).contains(&x)`
abbrev pub in_range : ℕ → ℕ → ℕ → Bool
in_range lo hi x = leb lo x && leb x hi

unfoldable pub is_forbidden_v4 : Ipv4Addr → Bool
is_forbidden_v4 ip =
    a == 0
    || a == 10
    || a == 127
    || (a == 100 && in_range 64 127 b)
    || (a == 169 && b == 254)
    || (a == 172 && in_range 16 31 b)
    || (a == 192 && b == 168)
    || (a == 192 && b == 0 && c == 2)
    || (a == 198 && b == 51 && c == 100)
    || (a == 203 && b == 0 && c == 113)
    || in_range 224 239 a
    || (a == 255 && b == 255 && c == 255 && ip.d == 255)
  where
    open ip use {a, b, c}

-- The IPv4 address in the low 32 bits; `as u8` takes the low byte.
abbrev pub embedded_v4 : Ipv6Addr → Ipv4Addr
embedded_v4 ip = record { a = ip.s6 / 256; b = ip.s6 % 256; c = ip.s7 / 256; d = ip.s7 % 256 }

-- IPv4-mapped `::ffff:0:0/96` or IPv4-compatible `::/96`.
abbrev pub carries_v4 : Ipv6Addr → Bool
carries_v4 ip =
    ip.s0 == 0
    && ip.s1 == 0
    && ip.s2 == 0
    && ip.s3 == 0
    && ip.s4 == 0
    && (ip.s5 == 0 || ip.s5 == 0xffff)

abbrev forbidden_prefix : Ipv6Addr → Bool
forbidden_prefix ip =
    bit_and ip.s0 0xffc0 == 0xfe80
    || bit_and ip.s0 0xfe00 == 0xfc00
    || bit_and ip.s0 0xff00 == 0xff00
    || (ip.s0 == 0x2001 && ip.s1 == 0x0db8)
    || (ip.s0 == 0x3fff && bit_and ip.s1 0xf000 == 0)

unfoldable pub is_forbidden_v6 : Ipv6Addr → Bool
is_forbidden_v6 ip = if carries_v4 ip then is_forbidden_v4 (embedded_v4 ip) else forbidden_prefix ip

unfoldable pub is_forbidden_ip : IpAddr → Bool
is_forbidden_ip (v4 ip) = is_forbidden_v4 ip
is_forbidden_ip (v6 ip) = is_forbidden_v6 ip

pub data EgressPolicy : Type 0 where
  public_only allow_private : EgressPolicy

-- `EgressPolicy::from_env`, at the value of the variable.
unfoldable pub from_env : Option Text → EgressPolicy
unfolding text_eq
from_env none = public_only
from_env (some value) = if text_eq value (codes "1") then allow_private else public_only

abbrev pub enforced : EgressPolicy → Bool
enforced public_only = true
enforced allow_private = false

-- A parsed URL's host, as the `url` crate gives it.
pub data Host : Type 0 where
  domain : Text → Host
  ipv4 : Ipv4Addr → Host
  ipv6 : Ipv6Addr → Host

-- A refused target: the address that the message names, with the domain that resolved to it.
pub data Denied : Type 0 where
  literal : IpAddr → Denied
  resolved : Text → Option IpAddr → Denied

pub data Check : Type 0 where
  allowed : Check
  denied : Denied → Check

abbrev pub check_ip : IpAddr → Check
check_ip ip = if is_forbidden_ip ip then denied (literal ip) else allowed

-- The host of a URL that has one is `some`.
unfoldable pub check_url_host : Option Host → EgressPolicy → Check
check_url_host host allow_private = allowed
check_url_host (some (ipv4 ip)) public_only = check_ip (v4 ip)
check_url_host (some (ipv6 ip)) public_only = check_ip (v6 ip)
check_url_host _ public_only = allowed

first_forbidden : Text → List IpAddr → Check
first_forbidden host [] = allowed
first_forbidden host (ip ∷ ips) =
    if is_forbidden_ip ip then denied (resolved host (some ip)) else first_forbidden host ips

-- A failed lookup is `none`, and is left to the browser.
lookup_check : Text → Option (List IpAddr) → Check
lookup_check host none = allowed
lookup_check host (some addrs) = first_forbidden host addrs

abbrev check_domain : (Text → Option (List IpAddr)) → Option Host → EgressPolicy → Check
check_domain lookup (some (domain host)) public_only = lookup_check host (lookup host)
check_domain lookup _ _ = allowed

unfoldable pub check_resolved : (Text → Option (List IpAddr)) → Option Host → EgressPolicy → Check
unfolding check_url_host first_forbidden lookup_check
check_resolved lookup host policy = elim (check_url_host host policy) [
  | denied d ↦ denied d
  | allowed ↦ check_domain lookup host policy
]

-- The resolver of the static client: the public addresses, or an error when none is left.
pub data Resolved : Type 0 where
  addrs : List IpAddr → Resolved
  lookup_failed : Resolved
  refused : Denied → Resolved

public_ips : List IpAddr → List IpAddr
public_ips [] = []
public_ips (ip ∷ ips) = let rest = public_ips ips in if is_forbidden_ip ip then rest else ip ∷ rest

abbrev head? : List IpAddr → Option IpAddr
head? [] = none
head? (ip ∷ ips) = some ip

resolve_answer : Text → Option (List IpAddr) → Resolved
resolve_answer host none = lookup_failed
resolve_answer host (some found) =
    if is_empty (public_ips found)
    then refused (resolved host (head? found))
    else addrs (public_ips found)

unfoldable pub resolve : (Text → Option (List IpAddr)) → Text → Resolved
unfolding resolve_answer public_ips
resolve lookup host = resolve_answer host (lookup host)

abbrev pub max_redirects : ℕ
max_redirects = 10

pub data Redirect : Type 0 where
  follow : Redirect
  too_many : Redirect
  stop : Denied → Redirect

abbrev redirect_check : Check → Redirect
redirect_check allowed = follow
redirect_check (denied d) = stop d

-- `previous` counts the URLs of the chain so far.
unfoldable pub redirect_policy : EgressPolicy → ℕ → Option Host → Redirect
unfolding check_url_host
redirect_policy policy previous host =
    if leb max_redirects previous then too_many else redirect_check (check_url_host host policy)
