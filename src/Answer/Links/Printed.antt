-- ===== src/Answer/Links/Printed.antt =====
-- The scanner of links finds the links that a text prints (`scan_links`,
-- src/research/agent_loop/answer.rs).
use web_agent_research.Prelude.{
  length-append, if_true, ℕ, zero, suc, ◌≤◌, ◌<◌, ◌≡◌, refl, ◌∙◌, ◌≢◌, true, false, none, some,
  List, [], ◌∷◌, ◌++◌, map, arith, Text, ◌==◌, if◌then◌else◌, if_true, length, length-append, All,
  ap, if_false,
}
use web_agent_research.Search.{trim}
use web_agent_research.Answer.Links.{
  ParsedLink, before, find, is_target, title_of, link_of, after_paren, after_label, after_open,
  scan, scan_links,
}

abbrev pub Avoids : ℕ → Text → Type 0
Avoids c text = All (λ x. x ≢ c) text

find-Avoids :
    (c : ℕ) (front rest : Text) → Avoids c front → find c (front ++ c ∷ rest) ≡ some (front, rest)
unfolding find
find-Avoids c [] rest h = let same : (c == c) ≡ true = ground arith in if_true _ _ same
find-Avoids c (x ∷ front) rest (h, hs) =
    let other : (x == c) ≡ false = ground arith in
    if_false _ _ other ∙ ap (before x) (find-Avoids c front rest hs)

find_nothing : (c : ℕ) (text : Text) → Avoids c text → find c text ≡ none
unfolding find
find_nothing c [] h = refl
find_nothing c (x ∷ text) (h, hs) =
    let other : (x == c) ≡ false = ground arith in
    if_false _ _ other ∙ ap (before x) (find_nothing c text hs)

-- A text with a link after it: the text, the link's label and its target.
pub record Item : Type 0 where
  pub plain : Text
  pub label : Text
  pub target : Text

pub record IsItem (item : Item) : Type 0 where
  pub no_open : Avoids b'[' item.plain
  pub no_close : Avoids b']' item.label
  pub no_paren : Avoids b')' item.target
  pub is_link : is_target item.target ≡ true
  pub trimmed : trim item.target ≡ item.target

abbrev pub print : Item → Text → Text
print item rest = item.plain ++ b'[' ∷ (item.label ++ b']' ∷ (b'(' ∷ (item.target ++ b')' ∷ rest)))

abbrev pub print_all : List Item → Text → Text
print_all [] tail = tail
print_all (item ∷ items) tail = print item (print_all items tail)

abbrev pub item_link : Item → ParsedLink
item_link item = record { title = title_of (trim item.label); url = item.target }

link_of-IsItem : (item : Item) → IsItem item → link_of item.label item.target ≡ item_link item ∷ []
link_of-IsItem item h =
    ap
      (λ u. if is_target u then record { title = title_of (trim item.label); url = u } ∷ [] else [])
      h.trimmed
    ∙ if_true _ _ h.is_link

scan-print_all :
    (items : List Item) (tail : Text) (fuel : ℕ)
    → All IsItem items
    → Avoids b'[' tail
    → length items < fuel
    → scan fuel (print_all items tail) ≡ map item_link items
unfolding scan
scan-print_all items tail zero h t enough = absurd (omega arith)
scan-print_all [] tail (suc fuel) h t enough =
    ap (after_open (scan fuel)) (find_nothing b'[' tail t)
scan-print_all (item ∷ items) tail (suc fuel) (h, hs) t enough =
    let rest = print_all items tail in
    ap (after_open (scan fuel)) (find-Avoids b'[' item.plain _ h.no_open)
    ∙ ap (after_label (scan fuel)) (find-Avoids b']' item.label _ h.no_close)
    ∙ ap (after_paren (scan fuel) item.label) (find-Avoids b')' item.target rest h.no_paren)
    ∙ ap (λ l. l ++ scan fuel rest) (link_of-IsItem item h)
    ∙ ap (◌∷◌ (item_link item)) (scan-print_all items tail fuel hs t (omega arith))

length-print_all : (items : List Item) (tail : Text) → length items ≤ length (print_all items tail)
length-print_all [] tail = omega arith
length-print_all (item ∷ items) tail =
    let rest = print_all items tail in
    let after = item.target ++ b')' ∷ rest in
    let labelled = item.label ++ b']' ∷ (b'(' ∷ after) in
    omega (
      arith,
      length-print_all items tail,
      length-append item.plain (b'[' ∷ labelled),
      length-append item.label (b']' ∷ (b'(' ∷ after)),
      length-append item.target (b')' ∷ rest),
    )

-- Texts with links between them, printed: the scanner gives exactly the links, in order, each with
-- its trimmed label as title, where no `[` stands outside the links, no `]` in a label and no `)` in a
-- target, and the targets are http or https URLs with no space.
pub scan_links-print_all :
    (items : List Item) (tail : Text)
    → All IsItem items
    → Avoids b'[' tail
    → scan_links (print_all items tail) ≡ map item_link items
unfolding scan_links
scan_links-print_all items tail h t =
    scan-print_all items tail _ h t (omega (arith, length-print_all items tail))
