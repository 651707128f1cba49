-- ===== src/Answer/Block/Chosen.antt =====
-- What `answer_block` (src/research/agent_loop/answer.rs) takes of a reply.
use web_agent_research.Prelude.{
  ◌≡◌, refl, sym, ◌∙◌, ◌≢◌, true, false, Option, none, some, List, [], ◌∷◌, ◌++◌, map, append-nil,
  append_assoc, arith, Text, text_eq, text_eq_iff, ◌==◌, if_true, concat, All, ap, if_false,
}
use web_agent_research.Config.{lower}
use web_agent_research.Search.{trim}
use web_agent_research.Answer.Block.{
  answer_open, answer_close, to_first, split_inclusive, is_tag, Scan, none_yet, extended,
  take_answer_line, scan_lines, chosen, answer_block,
}

-- A line with its end.
abbrev pub line_of : Text → Text
line_of text = text ++ 10 ∷ []

abbrev pub text_of : List Text → Text
text_of lines = concat (map line_of lines)

abbrev pub IsOneLine : Text → Type 0
IsOneLine text = All (λ c. c ≢ 10) text

split_inclusive-line_of :
    (text rest : Text)
    → IsOneLine text
    → split_inclusive (line_of text ++ rest) ≡ line_of text ∷ split_inclusive rest
unfolding split_inclusive
split_inclusive-line_of [] rest h = refl
split_inclusive-line_of (c ∷ text) rest (hc, hs) =
    let plain : (c == 10) ≡ false = ground arith in
    if_false _ _ plain ∙ ap (to_first c) (split_inclusive-line_of text rest hs)

split_inclusive-text_of :
    (lines : List Text) → All IsOneLine lines → split_inclusive (text_of lines) ≡ map line_of lines
unfolding split_inclusive
split_inclusive-text_of [] h = refl
split_inclusive-text_of (line ∷ lines) (h, hs) =
    split_inclusive-line_of line (text_of lines) h
    ∙ ap (◌∷◌ (line_of line)) (split_inclusive-text_of lines hs)

scan_lines-append :
    (a b : List Text) (s : Scan) → scan_lines s (a ++ b) ≡ scan_lines (scan_lines s a) b
unfolding scan_lines
scan_lines-append [] b s = refl
scan_lines-append (line ∷ a) b s = scan_lines-append a b (take_answer_line s line)

abbrev pub NoTag : Text → Type 0
NoTag line =
    (is_tag answer_open (line_of line) ≡ false) × (is_tag answer_close (line_of line) ≡ false)

take_answer_line-NoTag :
    (s : Scan) (line : Text)
    → NoTag line
    → take_answer_line s (line_of line)
      ≡ record s { open_text = extended (line_of line) s.open_text }
take_answer_line-NoTag s line (no_open, no_close) = if_false _ _ no_open ∙ if_false _ _ no_close

-- Lines inside a block join its text; outside they change nothing.
inside :
    (lines : List Text) (text : Text) (block : Option Text)
    → All NoTag lines
    → scan_lines (record { open_text = some text; block = block }) (map line_of lines)
      ≡ record { open_text = some (text ++ text_of lines); block = block }
unfolding scan_lines
inside [] text block h =
    ap (λ t. record { open_text = some t; block = block }) (sym (append-nil text))
inside (line ∷ lines) text block (h, hs) =
    let s : Scan = record { open_text = some text; block = block } in
    ap (λ t. scan_lines t (map line_of lines)) (take_answer_line-NoTag s line h)
    ∙ inside lines (text ++ line_of line) block hs
    ∙ ap (λ t. record { open_text = some t; block = block })
        (append_assoc text (line_of line) (text_of lines))

outside :
    (lines : List Text) (block : Option Text)
    → All NoTag lines
    → scan_lines (record { open_text = none; block = block }) (map line_of lines)
      ≡ record { open_text = none; block = block }
unfolding scan_lines
outside [] block h = refl
outside (line ∷ lines) block (h, hs) =
    ap (λ t. scan_lines t (map line_of lines))
      (take_answer_line-NoTag (record { open_text = none; block = block }) line h)
    ∙ outside lines block hs

-- A line is not both tags.
tags_differ : (line : Text) → is_tag answer_close line ≡ true → is_tag answer_open line ≡ false
unfolding is_tag text_eq
tags_differ line h =
    let same = (text_eq_iff (map lower (trim line)) answer_close).0 h in
    ap (λ t. text_eq t answer_open) same

map-append : (a b : List Text) → map line_of (a ++ b) ≡ map line_of a ++ map line_of b
map-append [] b = refl
map-append (line ∷ a) b = ap (◌∷◌ (line_of line)) (map-append a b)

-- The lines of a reply whose last block stands between an opening and a closing line.
abbrev pub reply_lines : List Text → Text → List Text → Text → List Text → List Text
reply_lines remarks opening lines closing more = remarks ++ (opening ∷ (lines ++ (closing ∷ more)))

-- Of a reply in lines, the answer is the text between an opening tag line and the next closing tag
-- line, where no tag line follows: whatever stands before the block, remarks, tags in a line with
-- other text or earlier blocks, and whatever text stands after it, is left out.
pub answer_block-reply_lines :
    (remarks : List Text) (opening : Text) (lines : List Text) (closing : Text) (more : List Text)
    → All IsOneLine (reply_lines remarks opening lines closing more)
    → is_tag answer_open (line_of opening) ≡ true
    → All NoTag lines
    → is_tag answer_close (line_of closing) ≡ true
    → All NoTag more
    → answer_block (text_of (reply_lines remarks opening lines closing more)) ≡ text_of lines
unfolding answer_block scan_lines
answer_block-reply_lines remarks opening lines closing more whole opens inner closes later =
    let all_lines = reply_lines remarks opening lines closing more in
    let before = scan_lines none_yet (map line_of remarks) in
    let opened : Scan = record before { open_text = some [] } in
    let full : Scan = record { open_text = some (text_of lines); block = before.block } in
    let shut : Scan = record { open_text = none; block = some (text_of lines) } in
    let scanned : scan_lines none_yet (map line_of all_lines) ≡ shut =
      ap (scan_lines none_yet) (map-append remarks _)
      ∙ scan_lines-append (map line_of remarks) _ none_yet
      ∙ ap (λ s. scan_lines s (map line_of (lines ++ (closing ∷ more)))) (if_true _ _ opens)
      ∙ ap (scan_lines opened) (map-append lines (closing ∷ more))
      ∙ scan_lines-append (map line_of lines) _ opened
      ∙ ap (λ s. scan_lines s (map line_of (closing ∷ more))) (inside lines [] before.block inner)
      ∙ ap (λ s. scan_lines s (map line_of more))
          (if_false _ _ (tags_differ (line_of closing) closes) ∙ if_true _ _ closes)
      ∙ outside more (some (text_of lines)) later in
    ap
      (λ l.
        chosen (text_of all_lines) (scan_lines none_yet l).block (scan_lines none_yet l).open_text)
      (split_inclusive-text_of all_lines whole)
    ∙ ap (λ s. chosen (text_of all_lines) s.block s.open_text) scanned
