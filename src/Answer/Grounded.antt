-- ===== src/Answer/Grounded.antt =====
-- What holds of every parsed answer (`parse_answer`, src/research/agent_loop/answer.rs).
use web_agent_research.Prelude.{
  ℕ, suc, ◌≤◌, ◌≡◌, refl, sym, ◌⊎◌, inl, inr, true, false, ◌&&◌, none, some, List, [], ◌∷◌, ◌++◌,
  map, arith, Text, codes, is_empty, join, is_whitespace, is_blank, if_true, if_false, Bool-cases,
  length, take, All,
}
use mathlib.Core.Path.{subst}
use web_agent_research.Runner.{SynthesisSize}
use web_agent_research.Synthesis.{Citation, Point, ThemeSection, Synthesis}
use web_agent_research.Answer.Links.{scan_links, dedupe_links, citations_in, url_of}
use web_agent_research.Answer.Links.Distinct.{
  AreDistinct, IsIn, IsSection, citation_url, distinct_urls-AreDistinct, dedupe_from-distinct_urls,
  section_of-IsSection,
}
use web_agent_research.Answer.Block.{split_inclusive, answer_block}
use web_agent_research.Answer.{
  Theme, zones, summary_of, pieces, to_word, non_empty_words, theme_section, no_points, push_point,
  with_point, sections_of, synthesis_of, parse_answer,
}

abbrev pub SectionsCite : List Citation → List ThemeSection → Type 0
SectionsCite global = All (λ section. IsSection global section.citations)

-- A parsed answer: a summary, at least one theme, at least one point, each URL cited once, and in
-- the themes only what the whole answer cites.
pub record IsParsed (s : Synthesis) : Type 0 where
  pub summary : is_blank s.summary ≡ false
  pub themes : 1 ≤ length s.themes
  pub points : no_points s.themes ≡ false
  pub distinct : AreDistinct (map citation_url s.citations)
  pub sections : SectionsCite s.citations s.themes

is_blank-append : (w x : Text) → is_blank w ≡ false → is_blank (w ++ x) ≡ false
unfolding is_blank
is_blank-append [] x h = absurd (ground arith)
is_blank-append (c ∷ w) x h = elim (Bool-cases (is_whitespace c)) [
  | inl e ↦ let later : is_blank w ≡ false = ground arith in rw e (is_blank-append w x later)
  | inr e ↦ rw e refl
]

-- The first word, which shows.
abbrev Shows : List Text → Type 0
Shows [] = ⊥
Shows (word ∷ words) = is_blank word ≡ false

words-Shows : (body : Text) → is_blank body ≡ false → Shows (non_empty_words (pieces body))
unfolding is_blank pieces
words-Shows [] h = absurd (ground arith)
words-Shows (c ∷ body) h = elim (Bool-cases (is_whitespace c)) [
  | inl e ↦ let later : is_blank body ≡ false = ground arith in rw e (words-Shows body later)
  | inr e ↦ rw e (to_word-Shows c (pieces body) e)
]
  where
    to_word-Shows :
        (c : ℕ) (words : List Text)
        → is_whitespace c ≡ false
        → Shows (non_empty_words (to_word c words))
    to_word-Shows c [] e = rw e refl
    to_word-Shows c (word ∷ words) e = rw e refl

join-Shows :
    (n : ℕ) (words : List Text)
    → Shows words
    → is_blank (join (codes " ") (take (suc n) words)) ≡ false
unfolding join
join-Shows n [] h = absurd h
join-Shows n (word ∷ words) h = joined (take n words)
  where
    joined : (rest : List Text) → is_blank (join (codes " ") (word ∷ rest)) ≡ false
    joined [] = h
    joined (next ∷ rest) =
        is_blank-append (word ++ codes " ") _ (is_blank-append word (codes " ") h)

summary_of-blank :
    (body : Text) (zone : List Text)
    → is_blank body ≡ false
    → is_blank (summary_of body zone) ≡ false
unfolding summary_of
summary_of-blank body zone h = elim (Bool-cases (is_blank (join (codes " ") zone))) [
  | inl e ↦ rw e (join-Shows 23 (non_empty_words (pieces body)) (words-Shows body h))
  | inr e ↦ rw e e
]

theme_section-IsSection :
    (citations : List Citation) (theme : Theme)
    → IsSection citations (theme_section citations theme).citations
unfolding theme_section citations_in
theme_section-IsSection citations theme =
    section_of-IsSection _ citations (distinct_urls-AreDistinct (map url_of (scan_links _)) [])

theme_sections-SectionsCite :
    (citations : List Citation) (themes : List Theme)
    → SectionsCite citations (map (theme_section citations) themes)
theme_sections-SectionsCite citations [] = record {}
theme_sections-SectionsCite citations (theme ∷ themes) =
    (theme_section-IsSection citations theme, theme_sections-SectionsCite citations themes)

whole-IsSection :
    (citations : List Citation)
    → AreDistinct (map citation_url citations)
    → IsSection citations citations
whole-IsSection citations h = record { cited = all_in citations; distinct = h }
  where
    later :
        (c : Citation) (l : List Citation) (k : List Citation)
        → All (λ d. IsIn d l) k
        → All (λ d. IsIn d (c ∷ l)) k
    later c l [] h = record {}
    later c l (d ∷ k) (h, hs) = (inr h, later c l k hs)

    all_in : (l : List Citation) → All (λ c. IsIn c l) l
    all_in [] = record {}
    all_in (c ∷ l) = (inl refl, later c l l (all_in l))

push_point-SectionsCite :
    (global : List Citation) (point : Point) (sections : List ThemeSection)
    → SectionsCite global sections
    → SectionsCite global (push_point point sections)
push_point-SectionsCite global point [] h = h
push_point-SectionsCite global point (section ∷ sections) h = h

push_point_shows :
    (point : Point) (section : ThemeSection) (sections : List ThemeSection)
    → no_points (push_point point (section ∷ sections)) ≡ false
push_point_shows point section sections = shown section.points
  where
    shown : (points : List Point) → (is_empty (points ++ point ∷ []) && no_points sections) ≡ false
    shown [] = refl
    shown (p ∷ points) = refl

-- The themes of an answer.
pub record AreSections (global : List Citation) (sections : List ThemeSection) : Type 0 where
  pub some_theme : 1 ≤ length sections
  pub some_point : no_points sections ≡ false
  pub cite : SectionsCite global sections

with_point-AreSections :
    (global : List Citation) (point : Point) (section : ThemeSection) (sections : List ThemeSection)
    → SectionsCite global (section ∷ sections)
    → AreSections global (with_point point (section ∷ sections))
with_point-AreSections global point section sections h =
    elim (Bool-cases (no_points (section ∷ sections))) [
      | inl e ↦ rw e (record {
        some_theme = omega arith;
        some_point = push_point_shows point section sections;
        cite = push_point-SectionsCite global point (section ∷ sections) h;
      })
      | inr e ↦ rw e (record { some_theme = omega arith; some_point = e; cite = h })
    ]

sections_of-AreSections :
    (summary : Text) (citations : List Citation) (themes : List Theme)
    → AreDistinct (map citation_url citations)
    → AreSections citations (sections_of summary citations themes)
unfolding sections_of
sections_of-AreSections summary citations [] h = record {
  some_theme = omega arith;
  some_point = refl;
  cite = (whole-IsSection citations h, record {});
}
sections_of-AreSections summary citations (theme ∷ themes) h =
    with_point-AreSections citations _ _ _ (theme_sections-SectionsCite citations (theme ∷ themes))

synthesis_of-IsParsed :
    (body : Text) (size : SynthesisSize) (zone : List Text) (themes : List Theme)
    → is_blank body ≡ false
    → IsParsed (synthesis_of body size (zone, themes))
unfolding dedupe_links
synthesis_of-IsParsed body size zone themes h =
    let links = scan_links body in
    let distinct =
      subst AreDistinct (sym (dedupe_from-distinct_urls links []))
        (distinct_urls-AreDistinct (map url_of links) []) in
    let sections =
      sections_of-AreSections (summary_of body zone) (dedupe_links links) themes distinct in
    record {
      summary = summary_of-blank body zone h;
      themes = sections.some_theme;
      points = sections.some_point;
      distinct = distinct;
      sections = sections.cite;
    }

-- A final reply is refused exactly when its answer part is blank. Otherwise the parsed answer has the
-- requested size, a summary that is not blank, at least one theme and at least one point; it cites
-- each URL once, and each theme cites, once each, only what the whole answer cites.
pub parse_answer-IsParsed :
    (text : Text) (size : SynthesisSize)
    → ((is_blank (answer_block text) ≡ true) × (parse_answer text size ≡ none))
      ⊎ ((s : Synthesis) × ((parse_answer text size ≡ some s)
            × ((is_blank (answer_block text) ≡ false) × ((s.size ≡ size) × IsParsed s))))
unfolding parse_answer
parse_answer-IsParsed text size = elim (Bool-cases (is_blank (answer_block text))) [
  | inl e ↦ inl (e, if_true _ _ e)
  | inr e ↦ inr (
    synthesis_of (answer_block text) size (zones (split_inclusive (answer_block text))),
    (
      if_false _ _ e,
      (
        e,
        (
          refl,
          synthesis_of-IsParsed (answer_block text) size
              (zones (split_inclusive (answer_block text))).0
              (zones (split_inclusive (answer_block text))).1 e,
        ),
      ),
    ),
  )
]
