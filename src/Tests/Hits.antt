-- ===== src/Tests/Hits.antt =====
-- Hits of two engines, merged.
use web_agent_research.Prelude.{
  ℕ, ◌≤◌, ◌≡◌, refl, ◌⊎◌, none, some, List, [], ◌∷◌, Text, codes, is_whitespace, is_blank,
}
use web_agent_research.Search.{SearchProvider}
use web_agent_research.Dedup.{SearchResult, Group, lookup, grouped}
use web_agent_research.Dedup.Legs.{count_of}
use web_agent_research.Dedup.Merged.{has_key, IsMerged, grouped-IsMerged}

abbrev hit : SearchProvider → Text → Text → ℕ → SearchResult
hit provider url snippet rank = record {
  title = codes "T";
  url = url;
  snippet = snippet;
  provider = provider;
  query = codes "q";
  rank = rank;
  published_date = none;
}

abbrev hits : List SearchResult
hits =
    hit SearchProvider.brave (codes "a.x") (codes "s") 3
    ∷ hit SearchProvider.yahoo (codes "a.x") (codes "longer") 1
    ∷ hit SearchProvider.brave (codes "b.x") [] 0
    ∷ []

grouped-IsMerged_example :
    ((lookup (codes "a.x") (grouped (λ url. url) hits (codes "q" ∷ [])) ≡ none)
      × (count_of (has_key (λ url. url) (codes "a.x")) hits ≡ 0))
    ⊎ ((g : Group) × ((lookup (codes "a.x") (grouped (λ url. url) hits (codes "q" ∷ [])) ≡ some g)
          × ((1 ≤ count_of (has_key (λ url. url) (codes "a.x")) hits)
              × IsMerged (λ url. url) (codes "a.x") hits g.merged)))
unfolding is_blank is_whitespace
grouped-IsMerged_example = grouped-IsMerged (λ url. url) hits (codes "q" ∷ []) (codes "a.x") refl
