-- ===== src/Config/Named.antt =====
-- The engines that `SEARCH_ENGINES` names (src/web/search/governor/config.rs).
use web_agent_research.Prelude.{
  ◌≡◌, refl, sym, ◌∙◌, ◌≢◌, inl, inr, true, false, some, List, [], ◌∷◌, map, arith, codes, join,
  ◌==◌, Bool-cases, length, All, ap,
}
use web_agent_research.Search.{SearchProvider, priority}
use web_agent_research.Config.{
  has, retain_first, Env, enabled_providers, named_providers, sorted_or_default, split_comma,
  providers_of, or_else,
}
use web_agent_research.Config.Engines.{has-sort}
use web_agent_research.Config.Tokens.{Token, IsToken, text_of, providers_of-tokens}

has_seen :
    (p q : SearchProvider) (l : List SearchProvider)
    → has q l ≡ true
    → has p l ≡ false
    → (priority p == priority q) ≡ false
has_seen p q [] h k = cc
has_seen p q (r ∷ rs) h k = ground (arith, has_seen p q rs)

has-retain_first :
    (p : SearchProvider) (seen ps : List SearchProvider)
    → has p seen ≡ false
    → has p (retain_first seen ps) ≡ has p ps
unfolding retain_first
has-retain_first p seen [] h = refl
has-retain_first p seen (q ∷ qs) h = elim (Bool-cases (has q seen)) [
  | inl e ↦ rw e (ground (arith, has_seen p q seen, has-retain_first p seen qs h))
  | inr e ↦ rw e (elim (Bool-cases (priority p == priority q)) [
    | inl same ↦ rw same
    | inr other ↦ rw other (has-retain_first p (q ∷ seen) qs (rw (other, h)))
  ])
]

has-sorted_or_default :
    (p : SearchProvider) (ps : List SearchProvider)
    → ps ≢ []
    → has p (sorted_or_default ps) ≡ has p ps
unfolding sorted_or_default
has-sorted_or_default p [] h = absurd (h refl)
has-sorted_or_default p (q ∷ qs) h = has-sort p (q ∷ qs)

retain_first-ne-nil : (ps : List SearchProvider) → ps ≢ [] → retain_first [] ps ≢ []
unfolding retain_first
retain_first-ne-nil [] h = absurd (h refl)
retain_first-ne-nil (p ∷ ps) h = λ e. ground arith

has-enabled_providers :
    (env : Env) (p : SearchProvider)
    → named_providers env ≢ []
    → has p (enabled_providers env) ≡ has p (named_providers env)
has-enabled_providers env p h =
    unfold enabled_providers in
    has-sorted_or_default p (retain_first [] (named_providers env))
      (retain_first-ne-nil (named_providers env) h)
    ∙ has-retain_first p [] (named_providers env) refl

named_providers-tokens :
    (env : Env) (token : Token) (tokens : List Token)
    → All IsToken (token ∷ tokens)
    → env.engines ≡ some (join (codes ",") (map text_of (token ∷ tokens)))
    → named_providers env ≡ map (λ t. t.engine) (token ∷ tokens)
unfolding named_providers
named_providers-tokens env token tokens h e =
    ap (λ o. providers_of (split_comma (or_else o (codes "duckduckgo,brave,yahoo,bing,cratesio"))))
      e
    ∙ providers_of-tokens token tokens h

-- Where `SEARCH_ENGINES` is a list of engines' names, one at least, each in any mix of lower and upper
-- case and with any white space around it, separated by commas, exactly the engines so named are
-- enabled. A name is one of `duckduckgo`, `ddg`, `startpage`, `sp`, `brave`, `yahoo`, `bing`,
-- `cratesio` and `crates.io`.
pub enabled_providers-tokens :
    (env : Env) (p : SearchProvider) (token : Token) (tokens : List Token)
    → All IsToken (token ∷ tokens)
    → env.engines ≡ some (join (codes ",") (map text_of (token ∷ tokens)))
    → has p (enabled_providers env) ≡ has p (map (λ t. t.engine) (token ∷ tokens))
enabled_providers-tokens env p token tokens h e =
    let named = named_providers-tokens env token tokens h e in
    has-enabled_providers env p (λ none_named.
      let bad : length (map (λ (t : Token). t.engine) (token ∷ tokens)) ≡ 0 =
        ap length (sym named ∙ none_named) in
      omega arith)
    ∙ ap (has p) named
