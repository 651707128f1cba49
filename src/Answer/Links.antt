-- ===== src/Answer/Links.antt =====
-- src/research/agent_loop/answer.rs: the inline links of a text and the citations that they make. The
-- code's byte positions become the texts on their two sides, since every delimiter is ASCII.
pub mod Distinct
pub mod Printed
use web_agent_research.Prelude.{
  ℕ, zero, suc, ◌+◌, ◌-◌, ◌*◌, ◌/◌, ◌%◌, ◌^◌, ◌≤◌, ◌<◌, min, max, ◌≡◌, refl, sym, ap, ◌∙◌, ◌≢◌, ◌↔◌,
  ◌⊎◌, inl, inr, Bool, true, false, ◌&&◌, ◌||◌, Option, none, some, List, [], ◌∷◌, ◌++◌, map,
  append-nil, append_assoc, arith, Text, codes, is_empty, text_eq, text_eq_iff, contains, join,
  is_whitespace, is_blank, show, ltb, leb, ◌==◌, if◌then◌else◌, ltb→lt, lt→ltb, leb→le, if_true,
  if_false, ==_iff, Bool-cases, Option-cases, length, take, drop, get_elem?, length-append,
  take-append-drop, length-take, length-drop, length-map, concat, All, All-append, not,
}
use web_agent_research.Search.{trim}
use web_agent_research.Synthesis.{Citation, new}

pub record ParsedLink : Type 0 where
  pub title : Option Text
  pub url : Text

-- `starts_with`, in the letters' case.
unfoldable pub starts_with : Text → Text → Bool
starts_with [] text = true
starts_with (p ∷ prefix) [] = false
starts_with (p ∷ prefix) (c ∷ text) = c == p && starts_with prefix text

-- What `before` puts in front of the first part.
abbrev pub before : ℕ → Option (Text × Text) → Option (Text × Text)
before c none = none
before c (some (front, rest)) = some (c ∷ front, rest)

-- `find(c)`: the text before the first `c` and the text after it.
unfoldable pub find : ℕ → Text → Option (Text × Text)
find c [] = none
find c (x ∷ s) = let later = find c s in if x == c then some ([], s) else before x later

unfoldable pub any_whitespace : Text → Bool
unfolding is_whitespace
any_whitespace [] = false
any_whitespace (c ∷ s) = is_whitespace c || any_whitespace s

abbrev pub is_target : Text → Bool
is_target target =
    not (is_empty target)
    && (not (any_whitespace target)
        && (starts_with (codes "http://") target || starts_with (codes "https://") target))

abbrev pub title_of : Text → Option Text
title_of title = if is_empty title then none else some title

abbrev pub link_of : Text → Text → List ParsedLink
link_of title_raw target_raw =
    let target = trim target_raw in
    if is_target target then record { title = title_of (trim title_raw); url = target } ∷ [] else []

-- After a label: the target, where a `(` follows at once; `more` scans what is left.
abbrev pub after_paren : (Text → List ParsedLink) → Text → Option (Text × Text) → List ParsedLink
after_paren more title_raw none = []
after_paren more title_raw (some (target_raw, rest)) = link_of title_raw target_raw ++ more rest

abbrev pub after_label : (Text → List ParsedLink) → Option (Text × Text) → List ParsedLink
after_label more none = []
after_label more (some (title_raw, [])) = []
after_label more (some (title_raw, c ∷ rest)) =
    if c == b'(' then after_paren more title_raw (find b')' rest) else more (c ∷ rest)

abbrev pub after_open : (Text → List ParsedLink) → Option (Text × Text) → List ParsedLink
after_open more none = []
after_open more (some (skipped, rest)) = after_label more (find b']' rest)

-- The `while` of `scan_links`; each round takes at least one character.
unfoldable pub scan : ℕ → Text → List ParsedLink
unfolding find any_whitespace trim starts_with
scan zero text = []
scan (suc fuel) text = after_open (scan fuel) (find b'[' text)

unfoldable pub scan_links : Text → List ParsedLink
scan_links text = scan (suc (length text)) text

-- `HashSet::insert` for each link; the first link of a URL is kept.
unfoldable pub dedupe_from : List Text → List ParsedLink → List Citation
unfolding contains
dedupe_from seen [] = []
dedupe_from seen (link ∷ links) =
    let known = contains seen link.url in
    let rest = dedupe_from (if known then seen else link.url ∷ seen) links in
    if known then rest else new link.url link.title ∷ rest

unfoldable pub dedupe_links : List ParsedLink → List Citation
dedupe_links links = dedupe_from [] links

-- The URLs of the links, each once, in order.
abbrev pub url_of : ParsedLink → Text
url_of link = link.url

unfoldable pub distinct_urls : List Text → List Text → List Text
unfolding contains
distinct_urls seen [] = []
distinct_urls seen (url ∷ urls) =
    let known = contains seen url in
    let rest = distinct_urls (if known then seen else url ∷ seen) urls in
    if known then rest else url ∷ rest

abbrev pub find_citation : Text → List Citation → Option Citation
find_citation url [] = none
find_citation url (citation ∷ citations) =
    if text_eq citation.url url then some citation else find_citation url citations

abbrev pub push_found : Option Citation → List Citation → List Citation
push_found none section = section
push_found (some citation) section = citation ∷ section

abbrev pub section_of : List Text → List Citation → List Citation
section_of [] global = []
section_of (url ∷ urls) global = push_found (find_citation url global) (section_of urls global)

unfoldable pub citations_in : Text → List Citation → List Citation
unfolding scan_links distinct_urls text_eq
citations_in text global = section_of (distinct_urls [] (map url_of (scan_links text))) global
