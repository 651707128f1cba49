-- ===== src/Answer/Fetched.antt =====
-- The citations that an answer keeps (`retain_fetched_citations`,
-- src/research/agent_loop/answer.rs).
use web_agent_research.Prelude.{
  ◌≡◌, refl, sym, ◌∙◌, ◌≢◌, inl, inr, true, ◌&&◌, List, [], ◌∷◌, map, Text, is_empty, contains,
  if_true, if_false, Bool-cases, length-map, All, ap,
}
use mathlib.Core.Path.{subst}
use web_agent_research.Synthesis.{Citation, ThemeSection, Synthesis}
use web_agent_research.Answer.Links.Distinct.{AreDistinct, IsIn, citation_url}
use web_agent_research.Answer.Grounded.{IsParsed, SectionsCite}
use web_agent_research.Answer.{no_points, retain, retain_theme, retain_fetched_citations}

module _ (dedup_key : Text → Text) (fetched : List Text) where
  abbrev pub IsFetched : Citation → Type 0
  IsFetched citation = contains fetched (dedup_key citation.url) ≡ true

  abbrev kept : List Citation → List Citation
  kept = retain dedup_key fetched

  retain-IsFetched : (citations : List Citation) → All IsFetched (kept citations)
  retain-IsFetched [] = record {}
  retain-IsFetched (c ∷ citations) = elim (Bool-cases (contains fetched (dedup_key c.url))) [
    | inl e ↦ subst (All IsFetched) (sym (if_true _ _ e)) (e, retain-IsFetched citations)
    | inr e ↦ subst (All IsFetched) (sym (if_false _ _ e)) (retain-IsFetched citations)
  ]

  retain-IsIn :
      (c : Citation) (citations : List Citation)
      → IsFetched c
      → IsIn c citations
      → IsIn c (kept citations)
  retain-IsIn c [] f h = h
  retain-IsIn c (d ∷ citations) f (inl same) =
      let here : contains fetched (dedup_key d.url) ≡ true =
        subst (λ x. contains fetched (dedup_key x.url) ≡ true) same f in
      rw here (inl same)
  retain-IsIn c (d ∷ citations) f (inr h) = elim (Bool-cases (contains fetched (dedup_key d.url))) [
    | inl e ↦ rw e (inr (retain-IsIn c citations f h))
    | inr e ↦ rw e (retain-IsIn c citations f h)
  ]

  retain-added :
      (c : Citation) (citations : List Citation) → IsIn c (kept citations) → IsIn c citations
  retain-added c [] h = h
  retain-added c (d ∷ citations) h = elim (Bool-cases (contains fetched (dedup_key d.url))) [
    | inl e ↦ elim (subst (IsIn c) (if_true _ _ e) h) [
      | inl same ↦ inl same
      | inr later ↦ inr (retain-added c citations later)
    ]
    | inr e ↦ inr (retain-added c citations (subst (IsIn c) (if_false _ _ e) h))
  ]

  retain-absent :
      (citations : List Citation) (url : Text)
      → All (λ u. u ≢ url) (map citation_url citations)
      → All (λ u. u ≢ url) (map citation_url (kept citations))
  retain-absent [] url h = record {}
  retain-absent (c ∷ citations) url (h, hs) =
      elim (Bool-cases (contains fetched (dedup_key c.url))) [
        | inl e ↦ rw e (h, retain-absent citations url hs)
        | inr e ↦ rw e (retain-absent citations url hs)
      ]

  retain-AreDistinct :
      (citations : List Citation)
      → AreDistinct (map citation_url citations)
      → AreDistinct (map citation_url (kept citations))
  retain-AreDistinct [] h = record {}
  retain-AreDistinct (c ∷ citations) (h, hs) =
      elim (Bool-cases (contains fetched (dedup_key c.url))) [
        | inl e ↦ rw e (retain-absent citations c.url h, retain-AreDistinct citations hs)
        | inr e ↦ rw e (retain-AreDistinct citations hs)
      ]

  retain-cited :
      (global section : List Citation)
      → All (λ c. IsIn c global) section
      → All (λ c. IsIn c (kept global)) (kept section)
  retain-cited global [] h = record {}
  retain-cited global (c ∷ section) (h, hs) =
      elim (Bool-cases (contains fetched (dedup_key c.url))) [
        | inl e ↦ let here = retain-IsIn c global e h in rw e (here, retain-cited global section hs)
        | inr e ↦ rw e (retain-cited global section hs)
      ]

  retain_themes-SectionsCite :
      (global : List Citation) (sections : List ThemeSection)
      → SectionsCite global sections
      → SectionsCite (kept global) (map (retain_theme dedup_key fetched) sections)
  retain_themes-SectionsCite global [] h = record {}
  retain_themes-SectionsCite global (section ∷ sections) (h, hs) = (
    record {
      cited = retain-cited global section.citations h.cited;
      distinct = retain-AreDistinct section.citations h.distinct;
    },
    retain_themes-SectionsCite global sections hs,
  )

  no_points-retain :
      (sections : List ThemeSection)
      → no_points (map (retain_theme dedup_key fetched) sections) ≡ no_points sections
  no_points-retain [] = refl
  no_points-retain (section ∷ sections) =
      ap (λ b. is_empty section.points && b) (no_points-retain sections)

  -- The citations that are kept: those of fetched pages, no more and no fewer.
  pub record AreKept (before after : List Citation) : Type 0 where
    pub fetched_only : All IsFetched after
    pub none_added : (c : Citation) → IsIn c after → IsIn c before
    pub none_lost : (c : Citation) → IsIn c before → IsFetched c → IsIn c after

  abbrev pub AreThemesKept : List ThemeSection → List ThemeSection → Type 0
  AreThemesKept [] [] = Unit
  AreThemesKept [] (theme ∷ after) = ⊥
  AreThemesKept (theme ∷ before) [] = ⊥
  AreThemesKept (theme ∷ before) (theme' ∷ after) =
      ((theme'.title ≡ theme.title)
        × (theme'.points ≡ theme.points)
        × AreKept theme.citations theme'.citations)
      × AreThemesKept before after

  retain-AreKept : (citations : List Citation) → AreKept citations (kept citations)
  retain-AreKept citations = record {
    fetched_only = retain-IsFetched citations;
    none_added = λ c i. retain-added c citations i;
    none_lost = λ c i f. retain-IsIn c citations f i;
  }

  retain_themes-AreThemesKept :
      (themes : List ThemeSection)
      → AreThemesKept themes (map (retain_theme dedup_key fetched) themes)
  retain_themes-AreThemesKept [] = record {}
  retain_themes-AreThemesKept (theme ∷ themes) =
      ((refl, refl, retain-AreKept theme.citations), retain_themes-AreThemesKept themes)

  -- What an answer keeps.
  pub record IsGrounded (s k : Synthesis) : Type 0 where
    pub same_summary : k.summary ≡ s.summary
    pub citations : AreKept s.citations k.citations
    pub themes : AreThemesKept s.themes k.themes
    pub parsed : IsParsed k

  -- Of a parsed answer, the whole answer and each of its themes keep exactly their citations of pages
  -- that were fetched; the summary, the themes in their order, their titles and their points stay as
  -- they were, each URL is still cited once, and the themes still cite what the whole answer cites.
  pub retain_fetched_citations-IsGrounded :
      (s : Synthesis) → IsParsed s → IsGrounded s (retain_fetched_citations dedup_key fetched s)
  unfolding retain_fetched_citations
  retain_fetched_citations-IsGrounded s h = record {
    same_summary = refl;
    citations = retain-AreKept s.citations;
    themes = retain_themes-AreThemesKept s.themes;
    parsed = record {
      summary = h.summary;
      themes = rw (length-map (retain_theme dedup_key fetched) s.themes) h.themes;
      points = no_points-retain s.themes ∙ h.points;
      distinct = retain-AreDistinct s.citations h.distinct;
      sections = retain_themes-SectionsCite s.citations s.themes h.sections;
    };
  }
