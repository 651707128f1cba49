-- ===== src/Sse/Chunks.antt =====
-- `push` (src/llm/stream/sse.rs) against a decoder that reads one byte at a time, and over chunks.
use web_agent_research.Prelude.{
  ℕ, zero, suc, ◌≤◌, ◌<◌, ◌≡◌, refl, sym, ap, ◌∙◌, ◌⊎◌, inl, inr, true, false, none, some, List, [],
  ◌∷◌, ◌++◌, append-nil, append_assoc, arith, Text, ◌==◌, if◌then◌else◌, Bool-cases, Option-cases,
  length, take, drop, length-drop, Bool,
}
use web_agent_research.Sse.{
  SseParser, round, newline_at, pop_return, take_line, push_loop, push, take_text,
}

newline_at-none :
    (b : ℕ) (rest : List ℕ)
    → newline_at (b ∷ rest) ≡ none
    → ((b == 10) ≡ false) × (newline_at rest ≡ none)
unfolding newline_at
newline_at-none b rest h = ground arith

newline_at-some :
    (b : ℕ) (rest : List ℕ) (i : ℕ)
    → newline_at (b ∷ rest) ≡ some i
    → (((b == 10) ≡ true) × (i ≡ 0))
      ⊎ (((b == 10) ≡ false) × ((j : ℕ) × (newline_at rest ≡ some j) × (i ≡ suc j)))
unfolding newline_at
newline_at-some b rest i h = elim (Bool-cases (b == 10)) [
  | inl e ↦ inl (e, ground arith)
  | inr e ↦ elim (Option-cases (newline_at rest)) [
    | inl n ↦ absurd (ground arith)
    | inr (j, s) ↦ inr (e, (j, s, ground arith))
  ]
]

newline_at_pos : (rest : List ℕ) (i : ℕ) → newline_at rest ≡ some i → 1 ≤ length rest
unfolding newline_at
newline_at_pos [] i h = absurd (ground arith)
newline_at_pos (b ∷ rest) i h = omega arith

module _ (decode : List ℕ → Text) where
  -- The reference: a line feed ends the line, any other byte is part of it.
  abbrev pub byte : ℕ → SseParser × List Text → SseParser × List Text
  byte b (p, payloads) =
      if b == 10
      then take_line decode (record p { line = pop_return p.line }) payloads
      else (record p { line = p.line ++ b ∷ [] }, payloads)

  unfoldable pub feed : List ℕ → SseParser × List Text → SseParser × List Text
  feed [] s = s
  feed (b ∷ rest) s = feed rest (byte b s)

  pub feed-append : (a b : List ℕ) (s : SseParser × List Text) → feed (a ++ b) s ≡ feed b (feed a s)
  unfolding feed
  feed-append [] b s = refl
  feed-append (x ∷ a) b s = feed-append a b (byte x s)

  -- A stretch with no line feed.
  feed_plain :
      (rest : List ℕ) (p : SseParser) (payloads : List Text)
      → newline_at rest ≡ none
      → feed rest (p, payloads) ≡ (record p { line = p.line ++ rest }, payloads)
  unfolding feed newline_at
  feed_plain [] p payloads h = rw (append-nil p.line)
  feed_plain (b ∷ rest) p payloads h =
      let (e, more) = newline_at-none b rest h in
      rw (e, feed_plain rest (record p { line = p.line ++ b ∷ [] }) payloads more)
        (ap (λ l. (record p { line = l }, payloads)) (append_assoc p.line (b ∷ []) rest))

  -- A stretch up to its first line feed.
  feed_line :
      (rest : List ℕ) (i : ℕ) (p : SseParser) (payloads : List Text)
      → newline_at rest ≡ some i
      → feed rest (p, payloads)
        ≡ feed
            (drop (suc i) rest)
            (take_line decode (record p { line = pop_return (p.line ++ take i rest) }) payloads)
  unfolding feed newline_at
  feed_line [] i p payloads h = ground arith
  feed_line (b ∷ rest) i p payloads h = elim (newline_at-some b rest i h) [
    | inl (e, first) ↦ rw (first, append-nil p.line, e)
    | inr (e, (j, more, later)) ↦
        rw (e, later, feed_line rest j (record p { line = p.line ++ b ∷ [] }) payloads more)
          (ap
            (λ l.
              feed (drop (suc j) rest)
                (take_line decode (record p { line = pop_return l }) payloads))
            (append_assoc p.line (b ∷ []) (take j rest)))
  ]

  -- The payloads before a chunk stay in front.
  abbrev pub front : List Text → SseParser × List Text → SseParser × List Text
  front a s = (s.0, a ++ s.1)

  if-front :
      (a : List Text) (test : Bool) (s t : SseParser × List Text)
      → front a (if test then s else t) ≡ (if test then front a s else front a t)
  if-front a true s t = refl
  if-front a false s t = refl

  take_line-front :
      (p : SseParser) (a b : List Text)
      → take_line decode p (a ++ b) ≡ front a (take_line decode p b)
  unfolding take_line take_text
  take_line-front p a b = ground (arith, append_assoc a b (p.payload ∷ []))

  byte-front :
      (x : ℕ) (p : SseParser) (a b : List Text) → byte x (p, a ++ b) ≡ front a (byte x (p, b))
  byte-front x p a b =
      rw (take_line-front (record p { line = pop_return p.line }) a b)
        (sym (if-front a (x == 10) _ _))

  pub feed-front :
      (rest : List ℕ) (p : SseParser) (a b : List Text)
      → feed rest (p, a ++ b) ≡ front a (feed rest (p, b))
  unfolding feed
  feed-front [] p a b = refl
  feed-front (x ∷ rest) p a b =
      ap (feed rest) (byte-front x p a b) ∙ feed-front rest (byte x (p, b)).0 a (byte x (p, b)).1

  push_loop-feed :
      (fuel : ℕ) (rest : List ℕ) (p : SseParser) (payloads : List Text)
      → length rest < fuel
      → push_loop decode fuel rest p payloads ≡ feed rest (p, payloads)
  unfolding push_loop
  push_loop-feed zero rest p payloads h = absurd (omega arith)
  push_loop-feed (suc fuel) rest p payloads h = elim (Option-cases (newline_at rest)) [
    | inl e ↦
        ap (round decode (push_loop decode fuel) rest p payloads) e
        ∙ sym (feed_plain rest p payloads e)
    | inr (i, e) ↦
        let size = length-drop (suc i) rest in
        let some_byte = newline_at_pos rest i e in
        ap (round decode (push_loop decode fuel) rest p payloads) e
        ∙ push_loop-feed fuel (drop (suc i) rest) _ _ (omega (arith, size, some_byte, h))
        ∙ sym (feed_line rest i p payloads e)
  ]

  -- Decoding a chunk by lines, as the code does, is decoding it byte by byte.
  pub push-feed :
      (chunk : List ℕ) (p : SseParser) (payloads : List Text)
      → push decode chunk p payloads ≡ feed chunk (p, payloads)
  unfolding push
  push-feed chunk p payloads = push_loop-feed (suc (length chunk)) chunk p payloads (omega arith)

  -- Where the network cuts the body does not matter: two chunks one after the other leave the same
  -- state and the same payloads as both in one, for every parser state and every decoding of a line.
  pub push-append :
      (a b : List ℕ) (p : SseParser) (payloads : List Text)
      → push decode (a ++ b) p payloads
        ≡ push decode b (push decode a p payloads).0 (push decode a p payloads).1
  push-append a b p payloads =
      push-feed (a ++ b) p payloads
      ∙ feed-append a b (p, payloads)
      ∙ rw (push-feed a p payloads) (sym (push-feed b _ _))
