-- ===== src/Stream/Openai/Reply.antt =====
-- The reply of a whole stream of chunks (src/llm/stream/openai.rs), out of bytes that the network cuts
-- anywhere (src/llm/stream.rs).
use web_agent_research.Prelude.{
  ℕ, ◌<◌, ◌≡◌, refl, ◌∙◌, true, false, not, Option, none, some, List, [], ◌∷◌, ◌++◌, map, Text,
  codes, is_empty, text_eq, join, get_elem?, concat, All, ap, if_false,
}
use web_agent_research.Search.{trim}
use web_agent_research.Llm.{ChatResult, replied, LlmReply, RequestedToolCall}
use web_agent_research.Sse.Frames.{IsEvent, stream_of}
use web_agent_research.Stream.{
  LlmEvent, more, chunk, after_chunk, after_payload, feed_all, read_sse,
}
use web_agent_research.Stream.Whole.{finishes, read_sse-stream_of, feed_all-append}
use web_agent_research.Stream.Openai.{
  Chunk, Payload, decoded, State, empty_state, apply_choices, later_usage, feed, finish, openai,
  reply_of, take_chunk, take_payload, cut_short,
}
use web_agent_research.Stream.Openai.Calls.{mine, HasIndex, AtIndex}
use web_agent_research.Stream.Openai.Requests.{Ascends, call_at, calls_of, requests-AtIndex}
use web_agent_research.Stream.Openai.Taken.{
  Brought, chunks_bring, HasTaken, HasTaken-both, HasTaken-nothing, apply_choices-HasTaken,
}

-- A payload that decodes to a chunk with no error in it.
pub record IsChunkOf (from_str : Text → Payload) (payload : Text) (c : Chunk) : Type 0 where
  pub some_text : is_empty (trim payload) ≡ false
  pub not_done : text_eq (trim payload) (codes "[DONE]") ≡ false
  pub decodes : from_str (trim payload) ≡ decoded c
  pub no_error : c.error ≡ none

abbrev pub AreChunksOf : (Text → Payload) → List Text → List Chunk → Type 0
AreChunksOf from_str [] [] = Unit
AreChunksOf from_str [] (c ∷ chunks) = ⊥
AreChunksOf from_str (payload ∷ payloads) [] = ⊥
AreChunksOf from_str (payload ∷ payloads) (c ∷ chunks) =
    IsChunkOf from_str payload c × AreChunksOf from_str payloads chunks

abbrev with_usage : State → Chunk → State
with_usage s c = record s { usage = later_usage s.usage c.usage }

abbrev chunk_state : State → Chunk → State
chunk_state s c = (apply_choices (with_usage s c) c.choices).0

abbrev all_state : State → List Chunk → State
all_state s [] = s
all_state s (c ∷ chunks) = all_state (chunk_state s c) chunks

with_usage-HasTaken :
    (s s' : State) (c : Chunk) (b : Brought) → HasTaken (with_usage s c) s' b → HasTaken s s' b
with_usage-HasTaken s s' c b h = record {
  output = h.output;
  refusal = h.refusal;
  seen = h.seen;
  entries = h.entries;
  ascending = h.ascending;
}

all_state-HasTaken :
    (chunks : List Chunk) (s : State) → HasTaken s (all_state s chunks) (chunks_bring chunks)
all_state-HasTaken [] s = HasTaken-nothing s
all_state-HasTaken (c ∷ chunks) s =
    HasTaken-both s (chunk_state s c) _ _ _
      (with_usage-HasTaken s _ c _ (apply_choices-HasTaken c.choices (with_usage s c)))
      (all_state-HasTaken chunks (chunk_state s c))

module _ (decode : List ℕ → Text) (from_str : Text → Payload) where
  feed-IsChunkOf :
      (s : State) (payload : Text) (c : Chunk)
      → IsChunkOf from_str payload c
      → feed from_str s payload
        ≡ (more (chunk_state s c), (apply_choices (with_usage s c) c.choices).1)
  unfolding feed
  feed-IsChunkOf s payload c h =
      if_false _ _ h.some_text
      ∙ if_false _ _ h.not_done
      ∙ ap (take_payload s) h.decodes
      ∙ ap (take_chunk s c) h.no_error

  feed_all-AreChunksOf :
      (payloads : List Text) (chunks : List Chunk) (s : State)
      → AreChunksOf from_str payloads chunks
      → (events : List LlmEvent) × (feed_all decode (openai from_str) payloads s
          ≡ (more (all_state s chunks), events))
  unfolding feed_all
  feed_all-AreChunksOf [] [] s h = ([], refl)
  feed_all-AreChunksOf [] (c ∷ chunks) s h = elim h [ ]
  feed_all-AreChunksOf (payload ∷ payloads) [] s h = elim h [ ]
  feed_all-AreChunksOf (payload ∷ payloads) (c ∷ chunks) s (h, hs) =
      let (events, e) = feed_all-AreChunksOf payloads chunks (chunk_state s c) hs in
      let first = (apply_choices (with_usage s c) c.choices).1 in
      (
        first ++ events,
        ap (after_payload decode (openai from_str) (feed_all decode (openai from_str) payloads))
              (feed-IsChunkOf s payload c h)
            ∙ ap (λ t. (t.0, first ++ t.1)) e,
      )

  -- The payload that ends a stream, after the chunks.
  finish-done :
      (payloads : List Text) (chunks : List Chunk) (s : State)
      → AreChunksOf from_str payloads chunks
      → (after_chunk decode
          (openai from_str)
          (finishes decode (openai from_str))
          (feed_all decode (openai from_str) (payloads ++ codes "[DONE]" ∷ []) s)).0
        ≡ finish (record (all_state s chunks) { ended = true })
  unfolding feed_all feed trim finish web_agent_research.Prelude.is_whitespace
      web_agent_research.Prelude.is_blank
  finish-done payloads chunks s h =
      let (events, e) = feed_all-AreChunksOf payloads chunks s h in
      ap (λ t. (after_chunk decode (openai from_str) (finishes decode (openai from_str)) t).0)
        (feed_all-append decode (openai from_str) payloads (codes "[DONE]" ∷ []) s
          ∙ ap
              (after_payload decode (openai from_str)
                (feed_all decode (openai from_str) (codes "[DONE]" ∷ [])))
              e)

  cut_short-ended : (reason : Option Text) → cut_short reason true ≡ false
  cut_short-ended none = refl
  cut_short-ended (some reason) = refl

  finish-reply_of :
      (s : State)
      → s.ended ≡ true
      → s.saw_choice ≡ true
      → s.refusal ≡ []
      → finish s ≡ replied (reply_of s)
  unfolding finish
  finish-reply_of s ended seen refusal =
      if_false _ _ (ap (cut_short s.finish_reason) ended ∙ cut_short-ended s.finish_reason)
      ∙ if_false _ _ (ap not seen)
      ∙ if_false _ _ (ap (λ t. not (is_empty t)) refusal)

  -- The chunks of a stream, put together.
  pub record IsReply (calls : List RequestedToolCall) (chunks : List Chunk) (r : ChatResult)
      : Type 0 where
    pub reply : LlmReply
    pub is_reply : r ≡ replied reply
    pub output : reply.output ≡ (chunks_bring chunks).text
    pub tool_calls : reply.tool_calls ≡ calls

  -- A streamed OpenAI reply that the format's closing payload ends, each of its ASCII payloads a
  -- `data:` line of its own that decodes to a chunk without an error: however the network cuts the body, and however the
  -- fragments of the calls are spread over the chunks, the reply that the reader returns has the text
  -- of the chunks in order, and in the order of the indices, whatever gaps these have, one call for
  -- each index at which there are fragments, with the first id and the first name of these that are
  -- not empty and their arguments put together (`{}` where they are empty), provided choice 0 is
  -- there, nothing is a refusal and every fragment has its index.
  pub read_sse-IsReply :
      (ascii : (l : List ℕ) → All (λ b. b < 128) l → decode l ≡ l) (payloads : List Text)
      (chunks : List Chunk) (calls : List (ℕ × RequestedToolCall)) (pieces : List (List ℕ))
      → AreChunksOf from_str payloads chunks
      → All IsEvent (map (λ p. p ∷ []) (payloads ++ codes "[DONE]" ∷ []))
      → concat pieces ≡ stream_of (map (λ p. p ∷ []) (payloads ++ codes "[DONE]" ∷ []))
      → All HasIndex (chunks_bring chunks).calls
      → Ascends 0 calls
      → ((i : ℕ) → AtIndex (call_at i calls) (mine i (chunks_bring chunks).calls))
      → (chunks_bring chunks).seen ≡ true
      → (chunks_bring chunks).refusal ≡ []
      → IsReply (calls_of calls) chunks (read_sse decode (openai from_str) (map chunk pieces)).0
  unfolding reply_of
  read_sse-IsReply ascii payloads chunks calls pieces are framed body indexed ascends split seen
        refusal =
      let taken = all_state-HasTaken chunks empty_state in
      let end = record (all_state empty_state chunks) { ended = true } in
      record {
        reply = reply_of end;
        is_reply =
            ap (λ t. t.0) (read_sse-stream_of decode (openai from_str) ascii _ pieces framed body)
            ∙ ap
                (λ l.
                  (after_chunk decode (openai from_str) (finishes decode (openai from_str))
                    (feed_all decode (openai from_str) l empty_state)).0)
                (joined (payloads ++ codes "[DONE]" ∷ []))
            ∙ finish-done payloads chunks empty_state are
            ∙ finish-reply_of end refl (taken.seen ∙ seen) (taken.refusal ∙ refusal);
        output = taken.output;
        tool_calls =
            requests-AtIndex end.calls calls (λ i. mine i (chunks_bring chunks).calls)
              (taken.ascending (record {})) ascends split (taken.entries indexed);
      }
    where
      joined : (l : List Text) → map (join (codes "\n")) (map (λ p. p ∷ []) l) ≡ l
      joined [] = refl
      joined (p ∷ l) = ap (◌∷◌ p) (joined l)
