-- ===== src/Answer.antt =====
-- src/research/agent_loop/answer.rs: `parse_answer`, from the text of a final reply to the typed answer,
-- and the citations that it may keep. `dedup_key` of src/web/search/dedup.rs, which rests on the
-- `url` crate, is a parameter.
pub mod Links
pub mod Bullets
pub mod Block
pub mod Grounded
pub mod Fetched
use web_agent_research.Prelude.{
  ℕ, zero, suc, ◌+◌, ◌-◌, ◌*◌, ◌/◌, ◌%◌, ◌^◌, ◌≤◌, ◌<◌, min, max, ◌≡◌, refl, sym, ap, ◌∙◌, ◌≢◌, ◌↔◌,
  ◌⊎◌, inl, inr, Bool, true, false, not, ◌&&◌, ◌||◌, Option, none, some, List, [], ◌∷◌, ◌++◌, map,
  append-nil, append_assoc, arith, Text, codes, is_empty, text_eq, text_eq_iff, contains, join,
  is_whitespace, is_blank, show, ltb, leb, ◌==◌, if◌then◌else◌, ltb→lt, lt→ltb, leb→le, if_true,
  if_false, ==_iff, Bool-cases, Option-cases, length, take, drop, get_elem?, length-append,
  take-append-drop, length-take, length-drop, length-map, concat, All, All-append,
}
use web_agent_research.Search.{trim}
use web_agent_research.Runner.{SynthesisSize}
use web_agent_research.Synthesis.{Citation, Point, ThemeSection, Synthesis, no_verification}
use web_agent_research.Answer.Links.{scan_links, dedupe_links, citations_in, starts_with}
use web_agent_research.Answer.Bullets.{parse_point, bullet_text}
use web_agent_research.Answer.Block.{split_inclusive, answer_block}

-- A theme's title and its lines.
pub record Theme : Type 0 where
  pub title : Text
  pub lines : List Text

-- `strip_prefix("## ")` and `trim`; `none` for another line.
abbrev heading : Text → Option Text
heading line = if starts_with (codes "## ") line then some (trim (drop 3 line)) else none

-- A line at what follows it: a heading takes the lines up to the next one.
abbrev add_line : Text → List Text × List Theme → Option Text → List Text × List Theme
add_line line (zone, themes) none = (if is_empty line then zone else line ∷ zone, themes)
add_line line (zone, themes) (some []) = (zone, themes)
add_line line (zone, themes) (some (c ∷ title)) =
    ([], record { title = c ∷ title; lines = zone } ∷ themes)

-- The lines before the first heading, and the themes. A line's end goes with `trim`.
unfoldable pub zones : List Text → List Text × List Theme
unfolding trim starts_with
zones [] = ([], [])
zones (raw ∷ raws) = add_line (trim raw) (zones raws) (heading (trim raw))

-- `split_whitespace`
abbrev pub to_word : ℕ → List Text → List Text
to_word c [] = (c ∷ []) ∷ []
to_word c (word ∷ words) = (c ∷ word) ∷ words

unfoldable pub pieces : Text → List Text
unfolding is_whitespace
pieces [] = [] ∷ []
pieces (c ∷ text) = let rest = pieces text in if is_whitespace c then [] ∷ rest else to_word c rest

abbrev pub non_empty_words : List Text → List Text
non_empty_words [] = []
non_empty_words (word ∷ words) =
    let rest = non_empty_words words in if is_empty word then rest else word ∷ rest

unfoldable pub summary_of : Text → List Text → Text
unfolding join is_blank pieces
summary_of body zone =
    let summary = join (codes " ") zone in
    if is_blank summary then join (codes " ") (take 24 (non_empty_words (pieces body))) else summary

abbrev push_bullet : Option Text → List Point → List Point
push_bullet none points = points
push_bullet (some text) points = parse_point text ∷ points

abbrev bullet_points : List Text → List Point
bullet_points [] = []
bullet_points (line ∷ lines) = push_bullet (bullet_text line) (bullet_points lines)

-- A theme with no bullets is one point, if it has text.
abbrev points_or_text : List Point → Text → List Point
points_or_text (point ∷ points) text = point ∷ points
points_or_text [] text = if is_blank text then [] else parse_point text ∷ []

unfoldable pub theme_section : List Citation → Theme → ThemeSection
unfolding parse_point bullet_text join is_blank citations_in
theme_section citations theme = record {
  title = theme.title;
  points = points_or_text (bullet_points theme.lines) (join (codes " ") theme.lines);
  citations = citations_in (join (codes "\n") theme.lines) citations;
}

abbrev pub no_points : List ThemeSection → Bool
no_points [] = true
no_points (section ∷ sections) = is_empty section.points && no_points sections

abbrev push_point : Point → List ThemeSection → List ThemeSection
push_point point [] = []
push_point point (section ∷ sections) =
    record section { points = section.points ++ point ∷ [] } ∷ sections

abbrev with_point : Point → List ThemeSection → List ThemeSection
with_point point sections = if no_points sections then push_point point sections else sections

unfoldable pub sections_of : Text → List Citation → List Theme → List ThemeSection
unfolding theme_section
sections_of summary citations [] =
    record { title = codes "Findings"; points = parse_point summary ∷ []; citations = citations }
    ∷ []
sections_of summary citations (theme ∷ themes) =
    with_point (parse_point summary) (map (theme_section citations) (theme ∷ themes))

abbrev synthesis_of : Text → SynthesisSize → List Text × List Theme → Synthesis
synthesis_of body size (zone, themes) =
    let summary = summary_of body zone in
    let citations = dedupe_links (scan_links body) in
    record {
      size = size;
      summary = summary;
      themes = sections_of summary citations themes;
      citations = citations;
      verification = no_verification;
    }

-- `none` is `AnswerError::EmptyAnswer`.
unfoldable pub parse_answer : Text → SynthesisSize → Option Synthesis
unfolding answer_block zones summary_of sections_of is_blank
parse_answer text size =
    let body = answer_block text in
    if is_blank body then none else some (synthesis_of body size (zones (split_inclusive body)))

module _ (dedup_key : Text → Text) (fetched : List Text) where
  -- `Vec::retain`
  abbrev pub retain : List Citation → List Citation
  retain [] = []
  retain (citation ∷ citations) =
      let rest = retain citations in
      if contains fetched (dedup_key citation.url) then citation ∷ rest else rest

  abbrev pub retain_theme : ThemeSection → ThemeSection
  retain_theme theme = record theme { citations = retain theme.citations }

  unfoldable pub retain_fetched_citations : Synthesis → Synthesis
  unfolding contains
  retain_fetched_citations s = record s {
    citations = retain s.citations;
    themes = map retain_theme s.themes;
  }
