-- ===== src/Search/Input.antt =====
-- What a validated search input satisfies, and when validation fails (src/web/search/types.rs).
use web_agent_research.Prelude.{
  [], ℕ, ◌≤◌, ◌≡◌, sym, ap, false, Option, none, List, ◌∷◌, arith, Text, is_empty, if◌then◌else◌,
  length, All,
}
use mathlib.Core.Path.{subst}
use web_agent_research.Search.{
  clamp_top_k, SearchInput, Recency, ok, validate, trim, kept_queries, over_long, max_queries,
  max_query_len, max_top_k,
}

abbrev pub IsQuery : Text → Type 0
IsQuery q = (1 ≤ length q) × (length q ≤ max_query_len)

pub record IsValid (i : SearchInput) : Type 0 where
  pub some_query : 1 ≤ length i.queries
  pub few_queries : length i.queries ≤ max_queries
  pub each_query : All IsQuery i.queries
  pub top_k_low : 1 ≤ i.top_k
  pub top_k_high : i.top_k ≤ max_top_k

positive : (qs : List Text) → is_empty qs ≡ false → 1 ≤ length qs
positive [] h = absurd (ground arith)
positive (q ∷ qs) h = omega arith

keep_lem :
    (t : Text) (ts : List Text)
    → All (λ q. 1 ≤ length q) ts
    → All (λ q. 1 ≤ length q) (if is_empty t then ts else t ∷ ts)
keep_lem [] ts h = h
keep_lem (c ∷ t) ts h = (omega arith, h)

kept_nonempty : (qs : List Text) → All (λ q. 1 ≤ length q) (kept_queries qs)
unfolding kept_queries
kept_nonempty [] = tt
kept_nonempty (q ∷ qs) = keep_lem (trim q) (kept_queries qs) (kept_nonempty qs)

over_long-none :
    (qs : List Text) → over_long qs ≡ none → All (λ q. 1 ≤ length q) qs → All IsQuery qs
unfolding over_long
over_long-none [] h k = tt
over_long-none (q ∷ qs) h k = ground (arith, over_long-none qs)

module _ (queries : List Text) (top_k : Option ℕ) (recency : Option Recency) where
  validate_inv :
      {i : SearchInput}
      → validate queries top_k recency ≡ ok i
      → (is_empty i.queries ≡ false)
        × (length i.queries ≤ max_queries)
        × (over_long i.queries ≡ none)
        × (i ≡ record {
          queries = kept_queries queries;
          top_k = clamp_top_k top_k;
          recency = recency;
        })
  unfolding validate
  validate_inv h = ground arith

  -- A validated input has one to eight queries of one to 500 characters each, and a result count
  -- from 1 to 30, whatever the caller gives.
  pub validate-IsValid : {i : SearchInput} → validate queries top_k recency ≡ ok i → IsValid i
  validate-IsValid {i} h =
      let (nonempty, few, short, e) = validate_inv h in
      record {
        some_query = positive i.queries nonempty;
        few_queries = few;
        each_query =
            over_long-none i.queries short (
              subst (All (λ q. 1 ≤ length q)) (sym (ap (λ j. j.queries) e))
                (kept_nonempty queries));
        top_k_low = ground arith;
        top_k_high = ground arith;
      }
