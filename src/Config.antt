-- ===== src/Config.antt =====
-- src/web/search/governor/config.rs: what the environment configures of the engines. The
-- environment is the number that each variable parses to (`env_u64_opt`), and the text of
-- `SEARCH_ENGINES`.
pub mod Limits
pub mod Engines
pub mod Tokens
pub mod Named
use web_agent_research.Prelude.{
  [], ℕ, ◌+◌, ◌-◌, ◌*◌, ◌/◌, ◌^◌, Bool, false, ◌&&◌, ◌||◌, Option, none, List, ◌∷◌, ◌++◌, map, Text,
  codes, is_empty, text_eq, ltb, leb, ◌==◌, if◌then◌else◌, max, min, some,
}
use web_agent_research.Search.{
  SearchProvider, duck_duck_go, startpage, brave, yahoo, bing, crates_io, priority, id, trim,
  SearchProviderError, empty_query, too_many_queries, challenge, timeout, upstream, suspended,
  throttled, all_failed,
}

pub record Env : Type 0 where
  pub number : Text → Option ℕ
  pub engines : Option Text

abbrev pub all_providers : List SearchProvider
all_providers = startpage ∷ brave ∷ yahoo ∷ duck_duck_go ∷ bing ∷ crates_io ∷ []

abbrev pub or_else {ℓ} : {A : Type ℓ} → Option A → A → A
or_else none d = d
or_else (some a) d = a

abbrev pub env_u64 : Env → Text → ℕ → ℕ
env_u64 env key default = or_else (env.number key) default

-- `to_uppercase` and `to_lowercase` on ASCII letters; what they do to the few other characters that have
-- an ASCII letter as their other case (the Kelvin sign) is left out.
abbrev upper : ℕ → ℕ
upper c = if leb b'a' c && leb c b'z' then c - 32 else c

abbrev pub lower : ℕ → ℕ
lower c = if leb b'A' c && leb c b'Z' then c + 32 else c

pub engine_key : Text → SearchProvider → Text → Text
engine_key before provider after = before ++ map upper (id provider) ++ after

-- The engine's variable, else the variable for all engines, else the default.
unfoldable pub three_tiers : Env → Text → Text → ℕ → ℕ
three_tiers env engine_name global_name hardcoded =
    env_u64 env engine_name (env_u64 env global_name hardcoded)

-- The parts of a text between the commas.
pub split_comma : Text → List Text
split_comma [] = [] ∷ []
split_comma (c ∷ s) = add (split_comma s)
  where
    add : List Text → List Text
    add [] = []
    add (t ∷ ts) = if c == b',' then [] ∷ t ∷ ts else (c ∷ t) ∷ ts

provider_of : Text → Option SearchProvider
provider_of t =
    if text_eq t (codes "duckduckgo") || text_eq t (codes "ddg")
    then some duck_duck_go
    else if text_eq t (codes "startpage") || text_eq t (codes "sp")
    then some startpage
    else if text_eq t (codes "brave")
    then some brave
    else if text_eq t (codes "yahoo")
    then some yahoo
    else if text_eq t (codes "bing")
    then some bing
    else if text_eq t (codes "cratesio") || text_eq t (codes "crates.io")
    then some crates_io
    else none

-- `sort_by_key(priority)`, stable; `HashSet::insert` keeps the first of equal providers.
insert : SearchProvider → List SearchProvider → List SearchProvider
insert p [] = p ∷ []
insert p (q ∷ qs) = if leb (priority p) (priority q) then p ∷ q ∷ qs else q ∷ insert p qs

abbrev sort : List SearchProvider → List SearchProvider
sort [] = []
sort (p ∷ ps) = insert p (sort ps)

abbrev pub has : SearchProvider → List SearchProvider → Bool
has p [] = false
has p (q ∷ qs) = priority p == priority q || has p qs

retain_first : List SearchProvider → List SearchProvider → List SearchProvider
retain_first seen [] = []
retain_first seen (p ∷ ps) =
    let skip = retain_first seen ps in
    let keep = p ∷ retain_first (p ∷ seen) ps in if has p seen then skip else keep

pub providers_of : List Text → List SearchProvider
providers_of [] = []
providers_of (t ∷ ts) = elim (provider_of (map lower (trim t))) [
  | none ↦ providers_of ts
  | some p ↦ p ∷ providers_of ts
]

unfoldable pub default_providers : List SearchProvider
unfolding insert priority
default_providers = sort (duck_duck_go ∷ brave ∷ yahoo ∷ bing ∷ crates_io ∷ [])

-- The engines that `SEARCH_ENGINES` names, as often as it names them.
unfoldable pub named_providers : Env → List SearchProvider
unfolding providers_of split_comma provider_of text_eq trim
named_providers env =
    providers_of (split_comma (or_else env.engines (codes "duckduckgo,brave,yahoo,bing,cratesio")))

pub sorted_or_default : List SearchProvider → List SearchProvider
sorted_or_default found = if is_empty found then default_providers else sort found

unfoldable pub enabled_providers : Env → List SearchProvider
unfolding retain_first named_providers default_providers sorted_or_default
enabled_providers env = sorted_or_default (retain_first [] (named_providers env))

-- A duration in nanoseconds.
abbrev pub seconds : ℕ → ℕ
seconds n = n * 1_000_000_000

abbrev pub millis : ℕ → ℕ
millis n = n * 1_000_000

unfoldable pub challenge_secs : Env → ℕ
challenge_secs env = env_u64 env (codes "SEARCH_SUSPEND_CHALLENGE_SECS") 3600

unfoldable pub forbidden_secs : Env → ℕ
forbidden_secs env = env_u64 env (codes "SEARCH_SUSPEND_403_SECS") 180

unfoldable pub rate_secs : Env → ℕ
rate_secs env = env_u64 env (codes "SEARCH_SUSPEND_429_SECS") 180

unfoldable pub upstream_secs : Env → ℕ
upstream_secs env = env_u64 env (codes "SEARCH_SUSPEND_UPSTREAM_SECS") 30

unfoldable pub timeout_secs : Env → ℕ
timeout_secs env = env_u64 env (codes "SEARCH_SUSPEND_TIMEOUT_SECS") 0

unfoldable pub max_suspension : Env → ℕ
max_suspension env = seconds (
    max (challenge_secs env)
      (max (forbidden_secs env) (max (rate_secs env) (max (upstream_secs env) (timeout_secs env)))))

pub record Suspension : Type 0 where
  pub duration : ℕ
  pub reason : Text

abbrev suspension : ℕ → Text → Option Suspension
suspension secs reason = some (record { duration = seconds secs; reason = reason })

-- A mapping to zero seconds is no suspension.
abbrev positive_suspension : ℕ → Text → Option Suspension
positive_suspension secs reason = if ltb 0 secs then suspension secs reason else none

status_suspension : Env → Option ℕ → Option Suspension
status_suspension env none = none
status_suspension env (some status) =
    if status == 403
    then suspension (forbidden_secs env) (codes "http_403")
    else if status == 429
    then suspension (rate_secs env) (codes "http_429")
    else if leb 500 status && leb status 599
    then positive_suspension (upstream_secs env) (codes "upstream")
    else none

unfoldable pub suspension_for : Env → SearchProviderError → Option Suspension
unfolding status_suspension
suspension_for env (challenge p d) = suspension (challenge_secs env) (codes "challenge")
suspension_for env (upstream p d status (some secs)) =
    some
      (record { duration = min (seconds secs) (max_suspension env); reason = codes "retry_after" })
suspension_for env (upstream p d status none) = status_suspension env status
suspension_for env (timeout p q) = positive_suspension (timeout_secs env) (codes "timeout")
suspension_for env empty_query = none
suspension_for env (too_many_queries g m) = none
suspension_for env (suspended p r s) = none
suspension_for env (throttled p d) = none
suspension_for env (all_failed f c) = none

unfoldable pub engine_gap_default_ms : SearchProvider → ℕ × ℕ
engine_gap_default_ms bing = (1000, 2000)
engine_gap_default_ms yahoo = (1000, 2000)
engine_gap_default_ms crates_io = (1000, 1500)
engine_gap_default_ms brave = (1500, 4000)
engine_gap_default_ms duck_duck_go = (1500, 4000)
engine_gap_default_ms startpage = (1500, 4000)

unfoldable pub resolve_gap : Env → SearchProvider → ℕ × ℕ
unfolding three_tiers engine_key
resolve_gap env p =
    let gap_min =
      three_tiers env (engine_key (codes "SEARCH_PACE_") p (codes "_MIN_MS"))
        (codes "SEARCH_PACE_MIN_MS") (engine_gap_default_ms p).0 in
    let gap_max =
      three_tiers env (engine_key (codes "SEARCH_PACE_") p (codes "_MAX_MS"))
        (codes "SEARCH_PACE_MAX_MS") (engine_gap_default_ms p).1 in
    (millis gap_min, millis (max gap_max gap_min))

-- `draw lo hi` is the number that the generator gives in the range, in milliseconds.
unfoldable pub pick_gap : (ℕ → ℕ → ℕ) → ℕ → ℕ → ℕ
pick_gap draw gap_min gap_max =
    if leb gap_max gap_min
    then gap_min
    else millis (draw (gap_min / 1_000_000) (gap_max / 1_000_000))

unfoldable pub engine_max_pages_default : SearchProvider → ℕ
engine_max_pages_default yahoo = 3
engine_max_pages_default duck_duck_go = 5
engine_max_pages_default bing = 1
engine_max_pages_default brave = 1
engine_max_pages_default startpage = 1
engine_max_pages_default crates_io = 1

unfoldable pub resolve_max_pages : Env → SearchProvider → ℕ
unfolding three_tiers engine_key
resolve_max_pages env p =
    max
      (three_tiers env (engine_key (codes "SEARCH_MAX_PAGES_") p []) (codes "SEARCH_MAX_PAGES")
        (engine_max_pages_default p))
      1

unfoldable pub engine_concurrency_default : SearchProvider → ℕ
engine_concurrency_default bing = 2
engine_concurrency_default yahoo = 2
engine_concurrency_default brave = 1
engine_concurrency_default duck_duck_go = 1
engine_concurrency_default startpage = 1
engine_concurrency_default crates_io = 1

unfoldable pub resolve_concurrency : Env → SearchProvider → ℕ
unfolding three_tiers engine_key
resolve_concurrency env p =
    max
      (three_tiers env (engine_key (codes "SEARCH_CONCURRENCY_") p []) (codes "SEARCH_CONCURRENCY")
        (engine_concurrency_default p))
      1

unfoldable pub engine_cap_default : SearchProvider → ℕ
engine_cap_default bing = 200
engine_cap_default yahoo = 200
engine_cap_default startpage = 200
engine_cap_default crates_io = 30
engine_cap_default brave = 10
engine_cap_default duck_duck_go = 10

unfoldable pub resolve_caps_per_engine : Env → SearchProvider → ℕ
unfolding three_tiers engine_key
resolve_caps_per_engine env p =
    min
      (three_tiers env (engine_key (codes "SEARCH_MAX_REQUESTS_PER_ENGINE_") p [])
        (codes "SEARCH_MAX_REQUESTS_PER_ENGINE") (engine_cap_default p))
      (2 ^ 32 - 1)

unfoldable pub resolve_max_queries_per_engine : Env → SearchProvider → ℕ
unfolding three_tiers engine_key
resolve_max_queries_per_engine env p =
    three_tiers env (engine_key (codes "SEARCH_MAX_QUERIES_PER_ENGINE_PER_CALL_") p [])
      (codes "SEARCH_MAX_QUERIES_PER_ENGINE_PER_CALL") 4
