-- ===== src/Egress/Reach.antt =====
-- Which addresses a static fetch connects to under `PublicOnly`: the first request and every
-- redirect hop together with the resolver (src/web/fetch/egress.rs).
use web_agent_research.Prelude.{
  [], ℕ, zero, suc, ◌≤◌, ◌≡◌, refl, ap, ◌↔◌, false, Option, none, some, List, ◌∷◌, arith, Text,
  is_empty, if◌then◌else◌, length, get_elem?, All,
}
use mathlib.Core.Path.{subst}
use web_agent_research.Egress.{
  IpAddr, Host, domain, ipv4, ipv6, v4, v6, public_only, allowed, is_forbidden_ip, check_url_host,
  check_resolved, first_forbidden, lookup_check, resolve, Resolved, Ipv4Addr, Ipv6Addr,
  lookup_failed, resolved, head?, addrs, refused, resolve_answer, public_ips, redirect_policy,
  follow, max_redirects,
}

abbrev pub IsPublic : IpAddr → Type 0
IsPublic ip = is_forbidden_ip ip ≡ false

abbrev pub Answers : Type 0
Answers = Text → Option (List IpAddr)

-- The addresses that a request to a host may connect to: the literal, or what the client's
-- resolver hands on for the domain.
pub data Connects (lookup : Answers) : Option Host → IpAddr → Type 0 where
  to_v4 : (ip : Ipv4Addr) → Connects lookup (some (ipv4 ip)) (v4 ip)
  to_v6 : (ip : Ipv6Addr) → Connects lookup (some (ipv6 ip)) (v6 ip)
  to_domain :
      (name : Text) (found : List IpAddr) (i : ℕ) (ip : IpAddr)
      → resolve lookup name ≡ addrs found
      → get_elem? found i ≡ some ip
      → Connects lookup (some (domain name)) ip

-- A chain of requests: the first one passes `normalize_url`'s host check, and each redirect is
-- followed when the policy says so. The number counts the URLs of the chain.
pub data Chain : ℕ → Option Host → Type 0 where
  start : {host : Option Host} → check_url_host host public_only ≡ allowed → Chain 1 host
  hop :
      {n : ℕ} {host next : Option Host}
      → Chain n host
      → redirect_policy public_only n next ≡ follow
      → Chain (suc n) next

public_ips-IsPublic : (found : List IpAddr) → All IsPublic (public_ips found)
unfolding public_ips
public_ips-IsPublic [] = tt
public_ips-IsPublic (ip ∷ ips) = ground (arith, public_ips-IsPublic ips)

list_of : Resolved → List IpAddr
list_of (addrs l) = l
list_of lookup_failed = []
list_of (refused d) = []

addrs_inj : {l m : List IpAddr} → addrs l ≡ addrs m → l ≡ m
unfolding list_of
addrs_inj e = ap list_of e

All-get_elem? :
    (ips : List IpAddr) (i : ℕ) (ip : IpAddr)
    → All IsPublic ips
    → get_elem? ips i ≡ some ip
    → IsPublic ip
All-get_elem? [] i ip h e = ground arith
All-get_elem? (x ∷ xs) zero ip h e = ground arith
All-get_elem? (x ∷ xs) (suc i) ip h e = All-get_elem? xs i ip h.1 e

resolve_answer-IsPublic :
    (name : Text) (answer : Option (List IpAddr)) (found : List IpAddr)
    → resolve_answer name answer ≡ addrs found
    → (All IsPublic found) × (1 ≤ length found)
unfolding resolve_answer
resolve_answer-IsPublic name none found h = absurd (ground arith)
resolve_answer-IsPublic name (some raw) found h = go (public_ips raw) (public_ips-IsPublic raw) h
  where
    go :
        (ips : List IpAddr)
        → All IsPublic ips
        → (if is_empty ips then refused (resolved name (head? raw)) else addrs ips) ≡ addrs found
        → (All IsPublic found) × (1 ≤ length found)
    go [] a e = absurd (ground arith)
    go (x ∷ xs) a e = subst (λ l. (All IsPublic l) × (1 ≤ length l)) (addrs_inj e) (a, omega arith)

-- What the resolver hands on is what the lookup found without the refused addresses, and it is
-- public; it hands on at least one address.
pub resolve-IsPublic :
    (lookup : Answers) (name : Text) (found : List IpAddr)
    → resolve lookup name ≡ addrs found
    → All IsPublic found × (1 ≤ length found)
unfolding resolve
resolve-IsPublic lookup name found h = resolve_answer-IsPublic name (lookup name) found h

allowed-IsPublic :
    (lookup : Answers) (host : Option Host) (ip : IpAddr)
    → check_url_host host public_only ≡ allowed
    → Connects lookup host ip
    → IsPublic ip
unfolding check_url_host
allowed-IsPublic lookup host ip h (to_v4 i) = ground arith
allowed-IsPublic lookup host ip h (to_v6 i) = ground arith
allowed-IsPublic lookup host ip h (to_domain name found i ip' e m) =
    All-get_elem? found i ip' (resolve-IsPublic lookup name found e).0 m

Chain-allowed :
    {n : ℕ} {host : Option Host} → Chain n host → check_url_host host public_only ≡ allowed
unfolding redirect_policy
Chain-allowed (start h) = h
Chain-allowed (hop c h) = ground arith

Chain-bound : {n : ℕ} {host : Option Host} → Chain n host → n ≤ max_redirects
unfolding redirect_policy
Chain-bound (start h) = omega arith
Chain-bound (hop c h) = ground arith

-- Under `PublicOnly` every address that a request of a chain connects to is outside the refused
-- table, whatever the DNS answers and the redirects are, and a chain has at most ten URLs, the one
-- first asked for among them, so that at most nine redirects are followed.
pub Chain-IsPublic :
    {n : ℕ} {host : Option Host} (lookup : Answers) (ip : IpAddr)
    → Chain n host
    → Connects lookup host ip
    → IsPublic ip × (n ≤ max_redirects)
Chain-IsPublic {host = host} lookup ip c k =
    (allowed-IsPublic lookup host ip (Chain-allowed c) k, Chain-bound c)

first_forbidden-IsPublic :
    (name : Text) (found : List IpAddr) → first_forbidden name found ≡ allowed → All IsPublic found
unfolding first_forbidden
first_forbidden-IsPublic name [] h = tt
first_forbidden-IsPublic name (ip ∷ ips) h = ground (arith, first_forbidden-IsPublic name ips)

IsPublic-first_forbidden :
    (name : Text) (found : List IpAddr) → All IsPublic found → first_forbidden name found ≡ allowed
unfolding first_forbidden
IsPublic-first_forbidden name [] h = refl
IsPublic-first_forbidden name (ip ∷ ips) h = ground (arith, IsPublic-first_forbidden name ips)

-- When the lookup answers, `check_resolved` lets a domain pass under `PublicOnly` exactly when all
-- the addresses of the answer are public.
pub check_resolved_domain :
    (lookup : Answers) (name : Text) (found : List IpAddr)
    → lookup name ≡ some found
    → (check_resolved lookup (some (domain name)) public_only ≡ allowed) ↔ All IsPublic found
unfolding check_resolved
check_resolved_domain lookup name found h =
    rw (h, lookup_check) (first_forbidden-IsPublic name found, IsPublic-first_forbidden name found)
