-- ===== src/Sse.antt =====
-- src/llm/stream/sse.rs: the incremental decoder of Server-Sent Events. `String::from_utf8_lossy` is
-- the parameter `decode`: the framing works on bytes, whatever a line decodes to.
pub mod Chunks
pub mod Frames
use web_agent_research.Prelude.{
  ℕ, zero, suc, ◌+◌, ◌-◌, ◌*◌, ◌/◌, ◌%◌, ◌^◌, ◌≤◌, ◌<◌, min, max, ◌≡◌, refl, sym, ap, ◌∙◌, ◌≢◌, ◌↔◌,
  ◌⊎◌, inl, inr, Bool, true, false, not, ◌&&◌, ◌||◌, Option, none, some, List, [], ◌∷◌, ◌++◌, map,
  append-nil, append_assoc, arith, Text, codes, is_empty, text_eq, text_eq_iff, contains, join,
  is_whitespace, is_blank, show, ltb, leb, ◌==◌, if◌then◌else◌, ltb→lt, lt→ltb, leb→le, if_true,
  if_false, ==_iff, Bool-cases, Option-cases, length, take, drop, get_elem?, length-append,
  take-append-drop, length-take, length-drop, length-map, concat, All, All-append,
}

pub record SseParser : Type 0 where
  pub line : List ℕ
  pub payload : Text
  pub has_data : Bool

abbrev pub default : SseParser
default = record { line = []; payload = []; has_data = false }

-- `rest.iter().position(|&b| b == b'\n')`
newline_at : List ℕ → Option ℕ
newline_at [] = none
newline_at (b ∷ rest) =
    if b == 10 then some 0 else elim (newline_at rest) [ none ↦ none | some i ↦ some (suc i) ]

-- `if self.line.last() == Some(&b'\r') { self.line.pop(); }`
unfoldable pub pop_return : List ℕ → List ℕ
pop_return [] = []
pop_return (b ∷ []) = if b == 13 then [] else b ∷ []
pop_return (b ∷ c ∷ line) = b ∷ pop_return (c ∷ line)

-- `split_once(':')`, with the whole line and no value where there is no colon.
split_colon : Text → Text × Text
split_colon [] = ([], [])
split_colon (c ∷ text) =
    let (field, value) = split_colon text in if c == b':' then ([], text) else (c ∷ field, value)

abbrev strip_space : Text → Text
strip_space [] = []
strip_space (c ∷ value) = if c == b' ' then value else c ∷ value

abbrev is_comment : Text → Bool
is_comment [] = false
is_comment (c ∷ line) = c == b':'

module _ (decode : List ℕ → Text) where
  -- A decoded line at the parser, whose line buffer is taken.
  pub take_text : Text → SseParser → List Text → SseParser × List Text
  unfolding split_colon
  take_text line p payloads =
      let (field, value) = split_colon line in
      if is_empty line
      then (if p.has_data
          then (record p { payload = []; has_data = false }, payloads ++ p.payload ∷ [])
          else (p, payloads))
      else if is_comment line
      then (p, payloads)
      else if not (text_eq field (codes "data"))
      then (p, payloads)
      else (
        record p {
          payload = (if p.has_data then p.payload ++ 10 ∷ [] else p.payload) ++ strip_space value;
          has_data = true;
        },
        payloads,
      )

  pub take_line : SseParser → List Text → SseParser × List Text
  unfolding take_text
  take_line p payloads = take_text (decode p.line) (record p { line = [] }) payloads

  -- The line that ends at `end`, and what is after it in the chunk.
  abbrev pub end_line : ℕ → List ℕ → SseParser → List Text → List ℕ × (SseParser × List Text)
  end_line end rest p payloads = (
    drop (suc end) rest,
    take_line (record p { line = pop_return (p.line ++ take end rest) }) payloads,
  )

  -- A round of the `while`: `more` goes on with the rest of the chunk after a line.
  abbrev pub round :
      (List ℕ → SseParser → List Text → SseParser × List Text)
      → List ℕ
      → SseParser
      → List Text
      → Option ℕ
      → SseParser × List Text
  round more rest p payloads none = (record p { line = p.line ++ rest }, payloads)
  round more rest p payloads (some end) =
      let (rest', (p', payloads')) = end_line end rest p payloads in more rest' p' payloads'

  -- The `while` of `push`; each round takes at least one byte of the chunk.
  push_loop : ℕ → List ℕ → SseParser → List Text → SseParser × List Text
  push_loop zero rest p payloads = (p, payloads)
  push_loop (suc fuel) rest p payloads = round (push_loop fuel) rest p payloads (newline_at rest)

  unfoldable pub push : List ℕ → SseParser → List Text → SseParser × List Text
  unfolding push_loop take_line newline_at pop_return
  push chunk p payloads = push_loop (suc (length chunk)) chunk p payloads
