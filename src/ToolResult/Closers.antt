-- ===== src/ToolResult/Closers.antt =====
-- `escape_closers` (src/research/agent_loop/result.rs): third-party text cannot close its
-- container.
use web_agent_research.Prelude.{
  ◌+◌, ◌≤◌, ◌≡◌, refl, sym, ap, ◌∙◌, ◌≢◌, ◌⊎◌, inl, inr, Bool, true, false, ◌&&◌, ◌||◌, [], ◌∷◌,
  ◌++◌, arith, Text, codes, ◌==◌, All,
}
use web_agent_research.ToolResult.{starts_with, closes, escape_closers, page_tag, hit_tag}

-- The code's own test, at every position of the text.
abbrev slash_closes : Text → Bool
slash_closes [] = false
slash_closes (d ∷ after) = d == b'/' && closes after

abbrev pub has_closer : Text → Bool
has_closer [] = false
has_closer (c ∷ text) = (c == b'<' && slash_closes text) || has_closer text

starts_with-escape_closers :
    (tag text : Text)
    → All (λ t. (t ≢ 60)) tag
    → starts_with tag (escape_closers text) ≡ starts_with tag text
unfolding starts_with escape_closers
starts_with-escape_closers [] text h = refl
starts_with-escape_closers (t ∷ tag) [] h = refl
starts_with-escape_closers (t ∷ tag) (c ∷ []) h = refl
starts_with-escape_closers (t ∷ tag) (c ∷ d ∷ after) (ht, hs) =
    ground (arith, starts_with-escape_closers tag (d ∷ after) hs)

closes-escape_closers : (text : Text) → closes (escape_closers text) ≡ closes text
unfolding closes
closes-escape_closers text = rw (
  starts_with-escape_closers page_tag text (ground arith),
  starts_with-escape_closers hit_tag text (ground arith),
)

slash_closes-escape_closers : (text : Text) → slash_closes (escape_closers text) ≡ slash_closes text
unfolding escape_closers
slash_closes-escape_closers [] = refl
slash_closes-escape_closers (d ∷ []) = refl
slash_closes-escape_closers (d ∷ e ∷ after) = ground (arith, closes-escape_closers (e ∷ after))

has_closer-escape_closers : (text : Text) → has_closer (escape_closers text) ≡ false
unfolding escape_closers
has_closer-escape_closers [] = refl
has_closer-escape_closers (c ∷ []) = ground arith
has_closer-escape_closers (c ∷ d ∷ after) = ground (
  arith,
  has_closer-escape_closers after,
  has_closer-escape_closers (d ∷ after),
  closes-escape_closers after,
  slash_closes-escape_closers (d ∷ after),
)

-- Escaping changes no text that holds no closing tag of a container.
pub escape_closers_unchanged : (text : Text) → has_closer text ≡ false → escape_closers text ≡ text
unfolding escape_closers
escape_closers_unchanged [] h = refl
escape_closers_unchanged (c ∷ []) h = refl
escape_closers_unchanged (c ∷ d ∷ after) h =
    ground (arith, escape_closers_unchanged after, escape_closers_unchanged (d ∷ after))

-- A tag as a text spells it, each letter in lower or in upper case (32 below it).
abbrev pub IsSpelled : Text → Text → Type 0
IsSpelled [] [] = Unit
IsSpelled [] (c ∷ word) = ⊥
IsSpelled (t ∷ tag) [] = ⊥
IsSpelled (t ∷ tag) (c ∷ word) = ((c ≡ t) ⊎ (c + 32 ≡ t)) × IsSpelled tag word

-- The end tag of a page or Hit container stands somewhere in the text.
pub record HasEndTag (text : Text) : Type 0 where
  pub before : Text
  pub word : Text
  pub after : Text
  pub spelled : IsSpelled (codes "page") word ⊎ IsSpelled (codes "hit") word
  pub there : text ≡ before ++ (60 ∷ 47 ∷ word ++ after)

starts_with-IsSpelled :
    (tag word after : Text)
    → All (λ t. (97 ≤ t) × (t ≤ 122)) tag
    → IsSpelled tag word
    → starts_with tag (word ++ after) ≡ true
unfolding starts_with
starts_with-IsSpelled [] [] after h s = refl
starts_with-IsSpelled [] (c ∷ word) after h s = elim s [ ]
starts_with-IsSpelled (t ∷ tag) [] after h s = elim s [ ]
starts_with-IsSpelled (t ∷ tag) (c ∷ word) after ((low, high), hs) (inl same, s) =
    ground (arith, starts_with-IsSpelled tag word after hs s)
starts_with-IsSpelled (t ∷ tag) (c ∷ word) after ((low, high), hs) (inr upper, s) =
    ground (arith, starts_with-IsSpelled tag word after hs s)

closes-IsSpelled :
    (word after : Text)
    → IsSpelled (codes "page") word ⊎ IsSpelled (codes "hit") word
    → closes (word ++ after) ≡ true
unfolding closes
closes-IsSpelled word after (inl s) =
    let page = starts_with-IsSpelled page_tag word after (ground arith) s in ground arith
closes-IsSpelled word after (inr s) =
    let hit = starts_with-IsSpelled hit_tag word after (ground arith) s in ground arith

has_closer-append :
    (before text : Text) → has_closer text ≡ true → has_closer (before ++ text) ≡ true
has_closer-append [] text h = h
has_closer-append (c ∷ before) text h = let later = has_closer-append before text h in ground arith

-- After escaping, the end tag of no page or Hit container, `</page` or `</hit` with each letter in
-- lower or upper case, stands anywhere in the text, whatever the text.
pub escape_closers-HasEndTag : (text : Text) → ¬ HasEndTag (escape_closers text)
escape_closers-HasEndTag text end =
    let closer = closes-IsSpelled end.word end.after end.spelled in
    let here : has_closer (60 ∷ 47 ∷ end.word ++ end.after) ≡ true = rw closer refl in
    let found : has_closer (end.before ++ (60 ∷ 47 ∷ end.word ++ end.after)) ≡ true =
      has_closer-append end.before _ here in
    let bad : false ≡ true =
      sym (has_closer-escape_closers text) ∙ ap has_closer end.there ∙ found in
    ground arith
