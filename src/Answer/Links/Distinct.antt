-- ===== src/Answer/Links/Distinct.antt =====
-- Citations are kept once (`dedupe_links` and `citations_in`, src/research/agent_loop/answer.rs).
use web_agent_research.Prelude.{
  text_eq_iff, if_true, if_false, sym, ◌∙◌, ap, arith, ◌≡◌, refl, sym, ap, ◌∙◌, ◌≢◌, ◌⊎◌, inl, inr,
  true, false, some, List, [], ◌∷◌, map, arith, Text, text_eq, text_eq_iff, contains, if_true,
  if_false, Bool-cases, Option-cases, All,
}
use mathlib.Core.Path.{subst}
use web_agent_research.Synthesis.{Citation}
use web_agent_research.Answer.Links.{
  ParsedLink, url_of, dedupe_from, distinct_urls, find_citation, section_of,
}

abbrev pub citation_url : Citation → Text
citation_url citation = citation.url

abbrev pub AreDistinct : List Text → Type 0
AreDistinct [] = Unit
AreDistinct (url ∷ urls) = All (λ u. u ≢ url) urls × AreDistinct urls

abbrev pub IsIn : Citation → List Citation → Type 0
IsIn citation [] = ⊥
IsIn citation (c ∷ citations) = (citation ≡ c) ⊎ IsIn citation citations

contains-≢ :
    (seen : List Text) (url u : Text) → contains seen url ≡ false → contains seen u ≡ true → url ≢ u
contains-≢ seen url u no_url has_u e = let same = ap (contains seen) e in ground arith

distinct_urls-absent :
    (urls seen : List Text) (u : Text)
    → contains seen u ≡ true
    → All (λ v. v ≢ u) (distinct_urls seen urls)
unfolding distinct_urls contains
distinct_urls-absent [] seen u h = record {}
distinct_urls-absent (url ∷ urls) seen u h = elim (Bool-cases (contains seen url)) [
  | inl e ↦ rw e (distinct_urls-absent urls seen u h)
  | inr e ↦
      let later = distinct_urls-absent urls (url ∷ seen) u (ground arith) in
      rw e (contains-≢ seen url u e h, later)
]

pub distinct_urls-AreDistinct : (urls seen : List Text) → AreDistinct (distinct_urls seen urls)
unfolding distinct_urls contains
distinct_urls-AreDistinct [] seen = record {}
distinct_urls-AreDistinct (url ∷ urls) seen = elim (Bool-cases (contains seen url)) [
  | inl e ↦ rw e (distinct_urls-AreDistinct urls seen)
  | inr e ↦ rw e (
    distinct_urls-absent urls (url ∷ seen) url (rw ((text_eq_iff url url).1 refl) refl),
    distinct_urls-AreDistinct urls (url ∷ seen),
  )
]

-- The citations' URLs are the links' URLs, each once.
pub dedupe_from-distinct_urls :
    (links : List ParsedLink) (seen : List Text)
    → map citation_url (dedupe_from seen links) ≡ distinct_urls seen (map url_of links)
unfolding dedupe_from distinct_urls
dedupe_from-distinct_urls [] seen = refl
dedupe_from-distinct_urls (link ∷ links) seen = elim (Bool-cases (contains seen link.url)) [
  | inl e ↦ rw e (dedupe_from-distinct_urls links seen)
  | inr e ↦ rw e (ap (◌∷◌ link.url) (dedupe_from-distinct_urls links (link.url ∷ seen)))
]

find_citation-IsIn :
    (url : Text) (citations : List Citation) (c : Citation)
    → find_citation url citations ≡ some c
    → IsIn c citations × (c.url ≡ url)
find_citation-IsIn url [] c e = ground arith
find_citation-IsIn url (d ∷ citations) c e = elim (Bool-cases (text_eq d.url url)) [
  | inl t ↦
      let same : some d ≡ some c = sym (if_true _ _ t) ∙ e in
      let same_one : d ≡ c = ground arith in
      (inl (sym same_one), ap citation_url (sym same_one) ∙ (text_eq_iff d.url url).0 t)
  | inr f ↦
      let (here, same) = find_citation-IsIn url citations c (sym (if_false _ _ f) ∙ e) in
      (inr here, same)
]

-- A section cites what the whole answer cites, each URL at most once.
pub record IsSection (global section : List Citation) : Type 0 where
  pub cited : All (λ c. IsIn c global) section
  pub distinct : AreDistinct (map citation_url section)

section_of-absent :
    (urls : List Text) (global : List Citation) (u : Text)
    → All (λ v. v ≢ u) urls
    → All (λ v. v ≢ u) (map citation_url (section_of urls global))
section_of-absent [] global u h = record {}
section_of-absent (url ∷ urls) global u (h, hs) = elim (Option-cases (find_citation url global)) [
  | inl e ↦ rw e (section_of-absent urls global u hs)
  | inr (c, e) ↦
      let (here, same) = find_citation-IsIn url global c e in
      rw e (subst (λ v. v ≢ u) (sym same) h, section_of-absent urls global u hs)
]

pub section_of-IsSection :
    (urls : List Text) (global : List Citation)
    → AreDistinct urls
    → IsSection global (section_of urls global)
section_of-IsSection [] global h = record { cited = record {}; distinct = record {} }
section_of-IsSection (url ∷ urls) global (h, hs) =
    let later = section_of-IsSection urls global hs in
    elim (Option-cases (find_citation url global)) [
      | inl e ↦ rw e later
      | inr (c, e) ↦
          let (here, same) = find_citation-IsIn url global c e in
          let absent = section_of-absent urls global url h in
          rw e (record {
            cited = (here, later.cited);
            distinct = (
              subst (λ w. All (λ v. v ≢ w) (map citation_url (section_of urls global))) (sym same)
                  absent,
              later.distinct,
            );
          })
    ]
