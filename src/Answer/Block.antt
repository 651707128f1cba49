-- ===== src/Answer/Block.antt =====
-- src/research/agent_loop/answer.rs: the part of a final reply that is the answer.
pub mod Chosen
use web_agent_research.Prelude.{
  ℕ, zero, suc, ◌+◌, ◌-◌, ◌*◌, ◌/◌, ◌%◌, ◌^◌, ◌≤◌, ◌<◌, min, max, ◌≡◌, refl, sym, ap, ◌∙◌, ◌≢◌, ◌↔◌,
  ◌⊎◌, inl, inr, Bool, true, false, not, ◌&&◌, ◌||◌, Option, none, some, List, [], ◌∷◌, ◌++◌, map,
  append-nil, append_assoc, arith, Text, codes, is_empty, text_eq, text_eq_iff, contains, join,
  is_whitespace, is_blank, show, ltb, leb, ◌==◌, if◌then◌else◌, ltb→lt, lt→ltb, leb→le, if_true,
  if_false, ==_iff, Bool-cases, Option-cases, length, take, drop, get_elem?, length-append,
  take-append-drop, length-take, length-drop, length-map, concat, All, All-append,
}
use web_agent_research.Config.{lower}
use web_agent_research.Search.{trim}

abbrev pub answer_open : Text
answer_open = codes "<answer>"

abbrev pub answer_close : Text
answer_close = codes "</answer>"

-- A line with what is before it.
abbrev pub to_first : ℕ → List Text → List Text
to_first c [] = (c ∷ []) ∷ []
to_first c (line ∷ lines) = (c ∷ line) ∷ lines

-- `split_inclusive('\n')`
unfoldable pub split_inclusive : Text → List Text
split_inclusive [] = []
split_inclusive (c ∷ text) =
    let rest = split_inclusive text in if c == 10 then (10 ∷ []) ∷ rest else to_first c rest

-- `eq_ignore_ascii_case` on the trimmed line.
unfoldable pub is_tag : Text → Text → Bool
unfolding text_eq trim
is_tag tag line = text_eq (map lower (trim line)) tag

-- The loop's variables: the text since the opening line, and the last closed block.
pub record Scan : Type 0 where
  pub open_text : Option Text
  pub block : Option Text

abbrev pub none_yet : Scan
none_yet = record { open_text = none; block = none }

abbrev pub extended : Text → Option Text → Option Text
extended line none = none
extended line (some text) = some (text ++ line)

abbrev pub closed : Scan → Option Text → Scan
closed s none = s
closed s (some text) = record { open_text = none; block = some text }

abbrev pub take_answer_line : Scan → Text → Scan
take_answer_line s line =
    if is_tag answer_open line
    then record s { open_text = some [] }
    else if is_tag answer_close line
    then closed s s.open_text
    else record s { open_text = extended line s.open_text }

unfoldable pub scan_lines : Scan → List Text → Scan
unfolding is_tag
scan_lines s [] = s
scan_lines s (line ∷ lines) = scan_lines (take_answer_line s line) lines

abbrev pub chosen : Text → Option Text → Option Text → Text
chosen body (some block) open_text = block
chosen body none (some text) = text
chosen body none none = body

unfoldable pub answer_block : Text → Text
unfolding scan_lines split_inclusive
answer_block body =
    let s = scan_lines none_yet (split_inclusive body) in chosen body s.block s.open_text
