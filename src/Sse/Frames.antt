-- ===== src/Sse/Frames.antt =====
-- Framed events (src/llm/stream/sse.rs): what the decoder makes of a stream of `data:` events.
use web_agent_research.Prelude.{
  ℕ, ◌≤◌, ◌<◌, ◌≡◌, refl, ap, ◌∙◌, ◌≢◌, Bool, true, false, List, [], ◌∷◌, ◌++◌, map, append-nil,
  append_assoc, arith, Text, codes, text_eq, join, ◌==◌, if◌then◌else◌, if_false, length, All,
}
use web_agent_research.Sse.{SseParser, default, pop_return, take_line, take_text, push, split_colon}
use web_agent_research.Sse.Chunks.{feed, push-feed}

-- A line of an event as a server sends it, `data: <text>` and a line feed; an event: its lines and
-- an empty one; and a stream of events.
abbrev pub data_line : List ℕ → List ℕ
data_line text = codes "data: " ++ text ++ 10 ∷ []

abbrev pub event_lines : List (List ℕ) → List ℕ
event_lines [] = 10 ∷ []
event_lines (text ∷ more) = data_line text ++ event_lines more

abbrev pub stream_of : List (List (List ℕ)) → List ℕ
stream_of [] = []
stream_of (event ∷ events) = event_lines event ++ stream_of events

-- An ASCII line that framing keeps: no line feed in it, and no carriage return at its end.
pub record IsLine (text : List ℕ) : Type 0 where
  pub ascii : All (λ b. b < 128) text
  pub one_line : All (λ b. b ≢ 10) text
  pub no_return : pop_return text ≡ text

abbrev pub IsEvent : List (List ℕ) → Type 0
IsEvent event = All IsLine event × (1 ≤ length event)

pop_return-data :
    (text : List ℕ)
    → pop_return text ≡ text
    → pop_return (codes "data: " ++ text) ≡ codes "data: " ++ text
unfolding pop_return
pop_return-data [] h = refl
pop_return-data (c ∷ text) h = ap (λ t. codes "data: " ++ t) h

module _ (decode : List ℕ → Text) (ascii : (l : List ℕ) → All (λ b. b < 128) l → decode l ≡ l) where
  feed_text :
      (text rest : List ℕ) (p : SseParser) (payloads : List Text)
      → All (λ b. b ≢ 10) text
      → feed decode (text ++ rest) (p, payloads)
        ≡ feed decode rest (record p { line = p.line ++ text }, payloads)
  unfolding feed
  feed_text [] rest p payloads h = rw (append-nil p.line)
  feed_text (b ∷ text) rest p payloads (hb, hs) =
      let plain : (b == 10) ≡ false = ground arith in
      ap (feed decode (text ++ rest)) (if_false _ _ plain)
      ∙ feed_text text rest (record p { line = p.line ++ b ∷ [] }) payloads hs
      ∙ ap (λ l. feed decode rest (record p { line = l }, payloads))
          (append_assoc p.line (b ∷ []) text)

  -- A line that holds `data: ` and an ASCII text.
  take_data :
      (text : List ℕ) (p : SseParser) (payloads : List Text)
      → IsLine text
      → take_line decode (record p { line = pop_return (codes "data: " ++ text) }) payloads ≡ (
        record {
          line = [];
          payload = (if p.has_data then p.payload ++ 10 ∷ [] else p.payload) ++ text;
          has_data = true;
        },
        payloads,
      )
  unfolding take_line take_text split_colon text_eq
  take_data text p payloads h =
      rw
        (
          pop_return-data text h.no_return,
          ascii (codes "data: " ++ text) (
            omega arith,
            (omega arith, (omega arith, (omega arith, (omega arith, (omega arith, h.ascii))))),
          ),
        )
        refl

  abbrev open_with : Text → SseParser
  open_with payload = record { line = []; payload = payload; has_data = true }

  -- The line's text joins the open event.
  feed_data_line :
      (text rest : List ℕ) (payload : Text) (has_data : Bool) (payloads : List Text)
      → IsLine text
      → feed decode
          (data_line text ++ rest)
          (record { line = []; payload = payload; has_data = has_data }, payloads)
        ≡ feed decode rest
            (open_with ((if has_data then payload ++ 10 ∷ [] else payload) ++ text), payloads)
  unfolding feed
  feed_data_line text rest payload has_data payloads h = rw (append_assoc text (10 ∷ []) rest) (
      feed_text text (10 ∷ rest)
        (record { line = codes "data: "; payload = payload; has_data = has_data }) payloads
        h.one_line
      ∙ ap (feed decode rest) (
          take_data text (record { line = []; payload = payload; has_data = has_data }) payloads h))

  -- The empty line ends the event.
  feed_end :
      (d : Text) (rest : List ℕ) (payloads : List Text)
      → feed decode (10 ∷ rest) (open_with d, payloads)
        ≡ feed decode rest (default, payloads ++ d ∷ [])
  unfolding feed take_line take_text pop_return split_colon
  feed_end d rest payloads = rw (ascii [] (record {})) refl

  -- What the later lines make of an open event's text.
  abbrev extend : Text → List Text → Text
  extend d [] = d
  extend d (t ∷ ts) = extend ((d ++ 10 ∷ []) ++ t) ts

  extend-append : (a d : Text) (ts : List Text) → extend (a ++ d) ts ≡ a ++ extend d ts
  extend-append a d [] = refl
  extend-append a d (t ∷ ts) =
      ap (λ x. extend x ts) (rw (append_assoc a d (10 ∷ [])) (append_assoc a (d ++ 10 ∷ []) t))
      ∙ extend-append a ((d ++ 10 ∷ []) ++ t) ts

  extend-join : (t : Text) (ts : List Text) → extend t ts ≡ join (codes "\n") (t ∷ ts)
  unfolding join
  extend-join t [] = refl
  extend-join t (u ∷ ts) =
      extend-append (t ++ 10 ∷ []) u ts ∙ ap (λ x. (t ++ 10 ∷ []) ++ x) (extend-join u ts)

  feed_lines :
      (event : List (List ℕ)) (d : Text) (rest : List ℕ) (payloads : List Text)
      → All IsLine event
      → feed decode (event_lines event ++ rest) (open_with d, payloads)
        ≡ feed decode rest (default, payloads ++ extend d event ∷ [])
  feed_lines [] d rest payloads h = feed_end d rest payloads
  feed_lines (text ∷ event) d rest payloads (h, hs) =
      ap (λ l. feed decode l (open_with d, payloads))
        (append_assoc (data_line text) (event_lines event) rest)
      ∙ feed_data_line text (event_lines event ++ rest) d true payloads h
      ∙ feed_lines event ((d ++ 10 ∷ []) ++ text) rest payloads hs

  feed_event :
      (event : List (List ℕ)) (rest : List ℕ) (payloads : List Text)
      → IsEvent event
      → feed decode (event_lines event ++ rest) (default, payloads)
        ≡ feed decode rest (default, payloads ++ join (codes "\n") event ∷ [])
  feed_event [] rest payloads (h, n) = absurd (omega arith)
  feed_event (text ∷ event) rest payloads ((h, hs), n) =
      ap (λ l. feed decode l (default, payloads))
        (append_assoc (data_line text) (event_lines event) rest)
      ∙ feed_data_line text (event_lines event ++ rest) [] false payloads h
      ∙ feed_lines event text rest payloads hs
      ∙ ap (λ t. feed decode rest (default, payloads ++ t ∷ [])) (extend-join text event)

  feed_stream :
      (events : List (List (List ℕ))) (payloads : List Text)
      → All IsEvent events
      → feed decode (stream_of events) (default, payloads)
        ≡ (default, payloads ++ map (join (codes "\n")) events)
  unfolding feed
  feed_stream [] payloads h = rw (append-nil payloads) refl
  feed_stream (event ∷ events) payloads (h, hs) =
      feed_event event (stream_of events) payloads h
      ∙ feed_stream events (payloads ++ join (codes "\n") event ∷ []) hs
      ∙ ap (λ t. (default, t))
          (append_assoc payloads (join (codes "\n") event ∷ []) (map (join (codes "\n")) events))

  -- A stream of events, each of at least one `data:` line of ASCII text, pushed as one chunk after a
  -- prefix that left no open line or event, gives back exactly the events, in order, each with its
  -- lines joined by a line feed, and leaves the parser as new.
  pub push-stream_of :
      (events : List (List (List ℕ))) (payloads : List Text)
      → All IsEvent events
      → push decode (stream_of events) default payloads
        ≡ (default, payloads ++ map (join (codes "\n")) events)
  push-stream_of events payloads h =
      push-feed decode (stream_of events) default payloads ∙ feed_stream events payloads h
