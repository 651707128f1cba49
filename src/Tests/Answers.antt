-- ===== src/Tests/Answers.antt =====
-- Answers out of final replies.
use web_agent_research.Prelude.{
  ap, length, ◌≡◌, ap, ◌≢◌, ◌⊎◌, inl, inr, true, false, none, some, List, [], ◌∷◌, map, arith, Text,
  codes, text_eq, is_whitespace, is_blank, length, refl,
}
use web_agent_research.Runner.{medium}
use web_agent_research.Search.{trim}
use web_agent_research.Synthesis.{Citation, Synthesis, new, ThemeSection, no_verification}
use web_agent_research.Answer.Links.{scan_links, url_of, is_target}
use web_agent_research.Answer.Links.Printed.{
  Item, IsItem, print_all, item_link, scan_links-print_all,
}
use web_agent_research.Answer.Block.{answer_block}
use web_agent_research.Answer.Block.Chosen.{text_of, reply_lines, answer_block-reply_lines}
use web_agent_research.Answer.{parse_answer, retain_fetched_citations}
use web_agent_research.Answer.Grounded.{IsParsed, parse_answer-IsParsed}
use web_agent_research.Answer.Fetched.{IsGrounded, retain_fetched_citations-IsGrounded}

abbrev reply : Text
reply =
    codes
      "I looked.\n<answer>\nTwo. [A](https://a.x/p)\n## T\n- b [A](https://a.x/p)\n</answer>\nDone.\n"

parse_answer-IsParsed_example :
    ((is_blank (answer_block reply) ≡ true) × (parse_answer reply medium ≡ none))
    ⊎ ((s : Synthesis) × ((parse_answer reply medium ≡ some s)
          × ((is_blank (answer_block reply) ≡ false) × ((s.size ≡ medium) × IsParsed s))))
parse_answer-IsParsed_example = parse_answer-IsParsed reply medium

abbrev a_page : Citation
a_page = new (codes "https://a.x/p") none

abbrev b_page : Citation
b_page = new (codes "https://b.x/") none

abbrev theme : ThemeSection
theme = record {
  title = codes "T";
  points = record { text = codes "b"; links = []; quote = none; support = a_page.support } ∷ [];
  citations = b_page ∷ [];
}

abbrev parsed : Synthesis
parsed = record {
  size = medium;
  summary = codes "Two.";
  themes = theme ∷ [];
  citations = a_page ∷ b_page ∷ [];
  verification = no_verification;
}

differ : (b_page.url) ≢ a_page.url
unfolding text_eq
differ e = omega (arith, ap length e)

parsed-IsParsed : IsParsed parsed
unfolding is_blank is_whitespace
parsed-IsParsed = record {
  summary = refl;
  themes = omega arith;
  points = refl;
  distinct = ((differ, record {}), (record {}, record {}));
  sections = (
    record { cited = (inr (inl refl), record {}); distinct = (record {}, record {}) },
    record {},
  );
}

retain_fetched_citations-IsGrounded_example :
    IsGrounded
      (λ url. url)
      (codes "https://a.x/p" ∷ [])
      parsed
      (retain_fetched_citations (λ url. url) (codes "https://a.x/p" ∷ []) parsed)
retain_fetched_citations-IsGrounded_example =
    retain_fetched_citations-IsGrounded (λ url. url) (codes "https://a.x/p" ∷ []) parsed
      parsed-IsParsed

abbrev answer_lines : List Text
answer_lines = codes "Two." ∷ []

answer_block-reply_lines_example :
    answer_block (
      text_of (
        reply_lines
          (codes "I looked." ∷ [])
          (codes " <Answer>")
          answer_lines
          (codes "</answer>")
          (codes "Done." ∷ [])))
    ≡ text_of answer_lines
unfolding web_agent_research.Answer.Block.is_tag is_whitespace is_blank
answer_block-reply_lines_example =
    answer_block-reply_lines (codes "I looked." ∷ []) (codes " <Answer>") answer_lines
      (codes "</answer>") (codes "Done." ∷ []) (omega arith) refl ((refl, refl), record {}) refl
      ((refl, refl), record {})

abbrev item : Item
item = record { plain = codes "See "; label = codes " A [1"; target = codes "https://a.x/p" }

item-IsItem : IsItem item
unfolding web_agent_research.Answer.Links.any_whitespace web_agent_research.Answer.Links.starts_with
    trim is_blank
item-IsItem = record {
  no_open = omega arith;
  no_close = omega arith;
  no_paren = omega arith;
  is_link = refl;
  trimmed = refl;
}

scan_links-print_all_example :
    scan_links (print_all (item ∷ item ∷ []) (codes ".")) ≡ map item_link (item ∷ item ∷ [])
scan_links-print_all_example =
    scan_links-print_all (item ∷ item ∷ []) (codes ".") (item-IsItem, (item-IsItem, record {}))
      (omega arith)
