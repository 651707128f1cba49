-- ===== src/Tests/Web.antt =====
-- Runs of the egress checks, the search input and the settings of the governor.
use web_agent_research.Prelude.{
  ℕ, zero, suc, ◌+◌, ◌-◌, ◌*◌, ◌/◌, ◌%◌, ◌^◌, ◌≤◌, ◌<◌, min, max, ◌≡◌, refl, sym, ap, ◌∙◌, ◌≢◌, ◌↔◌,
  ◌⊎◌, inl, Bool, true, false, not, ◌&&◌, ◌||◌, Option, none, some, List, [], ◌∷◌, ◌++◌, map,
  append-nil, append_assoc, arith, Text, codes, is_empty, text_eq, text_eq_iff, contains, join,
  is_whitespace, is_blank, show, ltb, leb, ◌==◌, if◌then◌else◌, ltb→lt, lt→ltb, leb→le, if_true,
  if_false, ==_iff, Bool-cases, Option-cases, length, take, drop, get_elem?, length-append,
  take-append-drop, length-take, length-drop, length-map, concat, All, All-append,
}
use web_agent_research.Prelude.{refl, inr}
use web_agent_research.Egress.{
  Ipv4Addr, Ipv6Addr, v4, Host, domain, ipv4, is_forbidden_v4, is_forbidden_v6, check_resolved,
  public_only, allowed, max_redirects,
}
use web_agent_research.Egress.Blocks.{
  in_blocks4, in_blocks6, is_mapped, value4, value6, is_forbidden_v4-blocks, is_forbidden_v6-blocks,
}
use web_agent_research.Egress.Reach.{
  IsPublic, Answers, to_domain, Chain, start, hop, Chain-IsPublic,
}
use web_agent_research.Search.{brave, bing, challenge, upstream, SearchInput, duck_duck_go}
use web_agent_research.Search.Input.{IsValid, validate-IsValid}
use web_agent_research.Config.{
  Env, suspension_for, max_suspension, pick_gap, resolve_gap, enabled_providers, named_providers,
  has,
}
use web_agent_research.Config.Limits.{suspension_for-le-max}
use web_agent_research.Config.Tokens.{Token, IsToken}
use web_agent_research.Config.Named.{enabled_providers-tokens}
use web_agent_research.Config.Engines.{IsAscending, enabled_providers-IsAscending}

abbrev metadata : Ipv4Addr
metadata = record { a = 169; b = 254; c = 169; d = 254 }

abbrev example_com : Ipv4Addr
example_com = record { a = 93; b = 184; c = 216; d = 34 }

is_forbidden_v4-blocks_example : is_forbidden_v4 metadata ≡ in_blocks4 (value4 metadata)
is_forbidden_v4-blocks_example =
    is_forbidden_v4-blocks metadata
      (record { a = omega arith; b = omega arith; c = omega arith; d = omega arith })

-- ::ffff:127.0.0.1
abbrev mapped_loopback : Ipv6Addr
mapped_loopback = record {
  s0 = 0;
  s1 = 0;
  s2 = 0;
  s3 = 0;
  s4 = 0;
  s5 = 0xffff;
  s6 = 0x7f00;
  s7 = 1;
}

is_forbidden_v6-blocks_example : is_forbidden_v6 mapped_loopback ≡ (
    if is_mapped (value6 mapped_loopback)
    then in_blocks4 (value6 mapped_loopback % 2 ^ 32)
    else in_blocks6 (value6 mapped_loopback))
is_forbidden_v6-blocks_example = is_forbidden_v6-blocks mapped_loopback (record {
  s0 = omega arith;
  s1 = omega arith;
  s2 = omega arith;
  s3 = omega arith;
  s4 = omega arith;
  s5 = omega arith;
  s6 = omega arith;
  s7 = omega arith;
})

-- A name that answers a public and a private address.
abbrev lookup : Answers
lookup name = some (v4 metadata ∷ v4 example_com ∷ [])

abbrev site : Host
site = domain (codes "example.com")

chain : Chain 2 (some site)
unfolding web_agent_research.Egress.check_url_host web_agent_research.Egress.is_forbidden_ip
    is_forbidden_v4 web_agent_research.Egress.redirect_policy
chain = hop (start {host = some (ipv4 example_com)} refl) refl

Chain-IsPublic_example : IsPublic (v4 example_com) × (2 ≤ max_redirects)
unfolding web_agent_research.Egress.resolve web_agent_research.Egress.is_forbidden_ip
    is_forbidden_v4
Chain-IsPublic_example =
    Chain-IsPublic lookup (v4 example_com) chain
      (to_domain (codes "example.com") (v4 example_com ∷ []) 0 (v4 example_com) refl refl)

abbrev two_queries : SearchInput
two_queries = record { queries = codes "rust" ∷ codes "tokio" ∷ []; top_k = 30; recency = none }

validate-IsValid_example : IsValid two_queries
unfolding web_agent_research.Search.validate web_agent_research.Search.trim
    web_agent_research.Prelude.is_whitespace web_agent_research.Prelude.is_blank
validate-IsValid_example =
    validate-IsValid (codes " rust " ∷ codes " " ∷ codes "tokio" ∷ []) (some 99) none refl

abbrev env : Env
env = record { number = λ key. none; engines = some (codes "bing, brave,bing") }

suspension_for-le-max_example : 120_000_000_000 ≤ max_suspension env
unfolding suspension_for max_suspension web_agent_research.Config.challenge_secs
    web_agent_research.Config.forbidden_secs web_agent_research.Config.rate_secs
    web_agent_research.Config.upstream_secs web_agent_research.Config.timeout_secs
suspension_for-le-max_example =
    suspension_for-le-max env (upstream bing (codes "slow down") (some 429) (some 120))
      {s = record { duration = 120_000_000_000; reason = codes "retry_after" }} refl

enabled_providers-IsAscending_example :
    IsAscending (enabled_providers env) × (1 ≤ length (enabled_providers env))
enabled_providers-IsAscending_example = enabled_providers-IsAscending env

-- `bing, DDG `
abbrev first_token : Token
first_token = record { engine = bing; before = []; word = codes "bing"; after = [] }

abbrev second_token : Token
second_token = record {
  engine = duck_duck_go;
  before = codes " ";
  word = codes "DDG";
  after = codes " ";
}

abbrev two_engines : Env
two_engines = record { number = λ key. none; engines = some (codes "bing, DDG ") }

written : All IsToken (first_token ∷ second_token ∷ [])
unfolding web_agent_research.Prelude.is_whitespace
written = (
  record {
    name = codes "bing";
    named = inl refl;
    written = (inl refl, (inl refl, (inl refl, (inl refl, record {}))));
    before = record {};
    after = record {};
  },
  (
    record {
      name = codes "ddg";
      named = inr (inl refl);
      written = (
        inr (omega arith, omega arith, refl),
        (inr (omega arith, omega arith, refl), (inr (omega arith, omega arith, refl), record {})),
      );
      before = (refl, record {});
      after = (refl, record {});
    },
    record {},
  ),
)

enabled_providers-tokens_example :
    has duck_duck_go (enabled_providers two_engines) ≡ has duck_duck_go (bing ∷ duck_duck_go ∷ [])
unfolding web_agent_research.Prelude.join
enabled_providers-tokens_example =
    enabled_providers-tokens two_engines duck_duck_go first_token (second_token ∷ []) written refl
