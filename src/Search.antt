-- ===== src/Search.antt =====
-- src/web/search/types.rs: engines, their errors and the validated input of a search.
pub mod Input
use web_agent_research.Prelude.{
  [], ℕ, min, max, Bool, true, false, Option, none, some, List, ◌∷◌, Text, codes, is_empty,
  is_whitespace, is_blank, ltb, if◌then◌else◌, length,
}

pub data SearchProvider : Type 0 where
  duck_duck_go startpage brave yahoo bing crates_io : SearchProvider

unfoldable pub priority : SearchProvider → ℕ
priority startpage = 0
priority brave = 1
priority yahoo = 2
priority duck_duck_go = 3
priority bing = 4
priority crates_io = 5

pub data Recency : Type 0 where
  day week month year : Recency

unfoldable pub applies_recency : SearchProvider → Recency → Bool
applies_recency duck_duck_go r = true
applies_recency startpage r = true
applies_recency yahoo year = false
applies_recency yahoo r = true
applies_recency brave r = false
applies_recency bing r = false
applies_recency crates_io r = false

unfoldable pub id : SearchProvider → Text
id duck_duck_go = codes "duckduckgo"
id startpage = codes "startpage"
id brave = codes "brave"
id yahoo = codes "yahoo"
id bing = codes "bing"
id crates_io = codes "cratesio"

pub data SearchProviderError : Type 0 where
  empty_query : SearchProviderError
  too_many_queries : ℕ → ℕ → SearchProviderError
  challenge : SearchProvider → Text → SearchProviderError
  timeout : SearchProvider → Text → SearchProviderError
  upstream : SearchProvider → Text → Option ℕ → Option ℕ → SearchProviderError
  suspended : SearchProvider → ℕ → Text → SearchProviderError
  throttled : SearchProvider → Text → SearchProviderError
  all_failed : Text → Bool → SearchProviderError

pub record MergedResult : Type 0 where
  pub title : Text
  pub canonical_url : Text
  pub display_url : Text
  pub snippet : Text
  pub providers : List SearchProvider
  pub queries : List Text
  pub best_rank : ℕ
  pub hit_count : ℕ
  pub published_date : Option Text

pub record SearchInput : Type 0 where
  pub queries : List Text
  pub top_k : ℕ
  pub recency : Option Recency

abbrev pub max_queries : ℕ
max_queries = 8

abbrev pub max_query_len : ℕ
max_query_len = 500

abbrev pub default_top_k : ℕ
default_top_k = 15

abbrev pub max_top_k : ℕ
max_top_k = 30

pub data Validated : Type 0 where
  ok : SearchInput → Validated
  err : SearchProviderError → Validated

-- `trim` from the left, and from both sides.
unfoldable pub trim_start : Text → Text
trim_start [] = []
trim_start (c ∷ s) = let rest = trim_start s in if is_whitespace c then rest else c ∷ s

unfoldable pub trim_end : Text → Text
trim_end [] = []
trim_end (c ∷ s) = if is_blank (c ∷ s) then [] else c ∷ trim_end s

unfoldable pub trim : Text → Text
unfolding trim_start trim_end
trim s = trim_end (trim_start s)

kept_queries : List Text → List Text
kept_queries [] = []
kept_queries (q ∷ qs) =
    let rest = kept_queries qs in if is_empty (trim q) then rest else trim q ∷ rest

-- The length of the first query that is too long.
over_long : List Text → Option ℕ
over_long [] = none
over_long (q ∷ qs) = if ltb max_query_len (length q) then some (length q) else over_long qs

abbrev clamp_top_k : Option ℕ → ℕ
clamp_top_k none = default_top_k
clamp_top_k (some k) = min (max k 1) max_top_k

unfoldable pub validate : List Text → Option ℕ → Option Recency → Validated
unfolding kept_queries over_long
validate queries top_k recency =
    let kept = kept_queries queries in
    if is_empty kept
    then err empty_query
    else if ltb max_queries (length kept)
    then err (too_many_queries (length kept) max_queries)
    else elim (over_long kept) [
      | some got ↦ err (too_many_queries got max_query_len)
      | none ↦ ok (record { queries = kept; top_k = clamp_top_k top_k; recency = recency })
    ]
