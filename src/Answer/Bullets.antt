-- ===== src/Answer/Bullets.antt =====
-- src/research/agent_loop/answer.rs: a bullet of the answer, its text, its links and its quote.
use web_agent_research.Prelude.{
  ℕ, Bool, true, ◌&&◌, ◌||◌, Option, none, some, List, [], ◌∷◌, ◌++◌, map, Text, codes, is_empty,
  leb, ◌==◌, if◌then◌else◌, drop,
}
use web_agent_research.Config.{lower}
use web_agent_research.Search.{trim, trim_end}
use web_agent_research.Synthesis.{Point, unchecked}
use web_agent_research.Answer.Links.{url_of, scan_links, distinct_urls, find, before, starts_with}

abbrev pub quote_marker : Text
quote_marker = codes "(quote:"

abbrev marker_here : Text → Option (Text × Text)
marker_here text =
    if starts_with quote_marker (map lower text) then some ([], drop 7 text) else none

abbrev last_or : ℕ → Option (Text × Text) → Option (Text × Text) → Option (Text × Text)
last_or c none here = here
last_or c (some parts) here = before c (some parts)

-- `rfind` of the marker in any letter case: the text before the last one and the text after it.
rfind_marker : Text → Option (Text × Text)
unfolding starts_with
rfind_marker [] = none
rfind_marker (c ∷ text) = last_or c (rfind_marker text) (marker_here (c ∷ text))

-- U+201C and U+201D are the curly quotation marks.
is_mark : ℕ → Bool
is_mark c = c == b'"' || (c == 8220 || c == 8221)

abbrev is_close : ℕ → Bool
is_close c = c == b')'

-- `rfind` of a character: the text before the last one, and the text from it on.
abbrev rfind : (ℕ → Bool) → Text → Option (Text × Text)
rfind test [] = none
rfind test (c ∷ text) = last_or c (rfind test text) (if test c then some ([], c ∷ text) else none)

-- The quote and the tail, where the text is cut before and after a `)`.
abbrev at_paren : Text → Option (Text × Text) → Option (Text × Text)
at_paren front none = none
at_paren front (some (middle, tail)) = some (front ++ middle, tail)

-- The first `)` after the last mark.
abbrev after_mark : Option (Text × Text) → Option (Text × Text)
after_mark none = none
after_mark (some (front, [])) = none
after_mark (some (front, mark ∷ rest)) = at_paren (front ++ mark ∷ []) (find b')' rest)

-- The last `)`.
abbrev last_paren : Option (Text × Text) → Text × Text → Text × Text
last_paren none whole = whole
last_paren (some (front, [])) whole = whole
last_paren (some (front, paren ∷ tail)) whole = (front, tail)

abbrev close_or : Option (Text × Text) → Text → Text × Text
close_or none text = last_paren (rfind is_close text) (text, [])
close_or (some parts) text = parts

trim_marks_start : Text → Text
unfolding is_mark
trim_marks_start [] = []
trim_marks_start (c ∷ s) = let rest = trim_marks_start s in if is_mark c then rest else c ∷ s

all_marks : Text → Bool
unfolding is_mark
all_marks [] = true
all_marks (c ∷ s) = is_mark c && all_marks s

trim_marks_end : Text → Text
unfolding all_marks
trim_marks_end [] = []
trim_marks_end (c ∷ s) = let rest = trim_marks_end s in if all_marks (c ∷ s) then [] else c ∷ rest

quote_of : Text → Option Text
unfolding trim_marks_start trim_marks_end trim
quote_of inner =
    let quote = trim (trim_marks_end (trim_marks_start (trim inner))) in
    if is_empty quote then none else some quote

abbrev plain_point : Text → List Text → Point
plain_point raw links = record { text = raw; links = links; quote = none; support = unchecked }

abbrev quoted_point : Text → List Text → Text → Text × Text → Point
quoted_point front links raw (inner, tail) = record {
  text = trim (trim_end front ++ trim tail);
  links = links;
  quote = quote_of inner;
  support = unchecked;
}

abbrev point_of : Text → List Text → Option (Text × Text) → Point
point_of raw links none = plain_point raw links
point_of raw links (some (front, after_marker)) =
    quoted_point front links raw (close_or (after_mark (rfind is_mark after_marker)) after_marker)

unfoldable pub parse_point : Text → Point
unfolding rfind_marker quote_of scan_links distinct_urls find
parse_point raw = point_of raw (distinct_urls [] (map url_of (scan_links raw))) (rfind_marker raw)

abbrev non_blank : Text → Option Text
non_blank text = if is_empty text then none else some text

abbrev skip_digits : Text → Text
skip_digits [] = []
skip_digits (c ∷ s) = let rest = skip_digits s in if leb b'0' c && leb c b'9' then rest else c ∷ s

-- `. ` after at least one digit.
abbrev numbered_text : Text → Option Text
numbered_text [] = none
numbered_text (c ∷ []) = none
numbered_text (c ∷ d ∷ rest) = if c == b'.' && d == b' ' then non_blank (trim rest) else none

abbrev numbered : Text → Option Text
numbered [] = none
numbered (c ∷ s) = if leb b'0' c && leb c b'9' then numbered_text (skip_digits s) else none

unfoldable pub bullet_text : Text → Option Text
unfolding trim starts_with
bullet_text line =
    if starts_with (codes "- ") line || starts_with (codes "* ") line
    then non_blank (trim (drop 2 line))
    else numbered line
