-- ===== src/Stream/Whole.antt =====
-- Where a streamed body is cut does not matter (`read_sse`, src/llm/stream.rs).
use web_agent_research.Prelude.{
  append-nil, append_assoc, map, concat, join, codes, All, ap, sym, refl, ◌∙◌, ◌++◌, [], ◌∷◌, List,
  ℕ, Text, ◌<◌, ◌≡◌, ℕ, ◌<◌, ◌≡◌, refl, sym, ap, ◌∙◌, List, [], ◌∷◌, ◌++◌, map, append-nil,
  append_assoc, Text, codes, join, concat, All,
}
use mathlib.Core.Path.{fun_ext}
use web_agent_research.Llm.{ChatResult}
use web_agent_research.Sse.{SseParser, default, push}
use web_agent_research.Sse.Chunks.{feed, push-feed, push-append, feed-front, front}
use web_agent_research.Sse.Frames.{stream_of, IsEvent, push-stream_of}
use web_agent_research.Stream.{
  LlmEvent, Fed, more, finished, failed, Assembler, chunk, after_payload, feed_all, after_chunk,
  read_loop, read_sse,
}

module _ {S : Type 0} (decode : List ℕ → Text) (assembler : Assembler S) where
  abbrev pub finishes : S → ChatResult × List LlmEvent
  finishes s = (assembler.finish s, [])

  -- Events before a payload or a chunk stay in front.
  payload-events :
      (next : S → Fed S × List LlmEvent) (events : List LlmEvent) (r : Fed S × List LlmEvent)
      → after_payload decode assembler next (r.0, events ++ r.1) ≡ (
        (after_payload decode assembler next r).0,
        events ++ (after_payload decode assembler next r).1,
      )
  payload-events next events (more s, es) =
      ap (λ l. ((next s).0, l)) (append_assoc events es (next s).1)
  payload-events next events (finished s, es) = refl
  payload-events next events (failed err, es) = refl

  chunk-events :
      (next : S → ChatResult × List LlmEvent) (events : List LlmEvent) (r : Fed S × List LlmEvent)
      → after_chunk decode assembler next (r.0, events ++ r.1) ≡ (
        (after_chunk decode assembler next r).0,
        events ++ (after_chunk decode assembler next r).1,
      )
  chunk-events next events (more s, es) =
      ap (λ l. ((next s).0, l)) (append_assoc events es (next s).1)
  chunk-events next events (finished s, es) = refl
  chunk-events next events (failed err, es) = refl

  payload_assoc :
      (f g : S → Fed S × List LlmEvent) (r : Fed S × List LlmEvent)
      → after_payload decode assembler (λ s. after_payload decode assembler g (f s)) r
        ≡ after_payload decode assembler g (after_payload decode assembler f r)
  payload_assoc f g (more s, events) = sym (payload-events g events (f s))
  payload_assoc f g (finished s, events) = refl
  payload_assoc f g (failed err, events) = refl

  chunk_assoc :
      (f : S → Fed S × List LlmEvent) (g : S → ChatResult × List LlmEvent)
      (r : Fed S × List LlmEvent)
      → after_chunk decode assembler (λ s. after_chunk decode assembler g (f s)) r
        ≡ after_chunk decode assembler g (after_payload decode assembler f r)
  chunk_assoc f g (more s, events) = sym (chunk-events g events (f s))
  chunk_assoc f g (finished s, events) = refl
  chunk_assoc f g (failed err, events) = refl

  pub feed_all-append :
      (a b : List Text) (s : S)
      → feed_all decode assembler (a ++ b) s
        ≡ after_payload decode assembler
            (feed_all decode assembler b)
            (feed_all decode assembler a s)
  unfolding feed_all
  feed_all-append [] b s = refl
  feed_all-append (payload ∷ a) b s =
      ap (λ next. after_payload decode assembler next (assembler.feed s payload))
        (fun_ext (feed_all-append a b))
      ∙ payload_assoc (feed_all decode assembler a) (feed_all decode assembler b)
          (assembler.feed s payload)

  push-front :
      (bytes : List ℕ) (p : SseParser) (payloads : List Text)
      → push decode bytes p payloads ≡ front decode payloads (push decode bytes p [])
  push-front bytes p payloads =
      push-feed decode bytes p payloads
      ∙ ap (λ l. feed decode bytes (p, l)) (sym (append-nil payloads))
      ∙ feed-front decode bytes p payloads []
      ∙ ap (front decode payloads) (sym (push-feed decode bytes p []))

  read_loop_whole :
      (chunks : List (List ℕ)) (p : SseParser) (s : S)
      → read_loop decode assembler (map chunk chunks) p s
        ≡ after_chunk decode assembler finishes
            (feed_all decode assembler (push decode (concat chunks) p []).1 s)
  unfolding read_loop feed feed_all
  read_loop_whole [] p s =
      ap (λ t. after_chunk decode assembler finishes (feed_all decode assembler t.1 s))
        (sym (push-feed decode [] p []))
  read_loop_whole (c ∷ chunks) p s =
      let (p', first) = push decode c p [] in
      let later = (push decode (concat chunks) p' []).1 in
      ap (λ next. after_chunk decode assembler next (feed_all decode assembler first s))
        (fun_ext (read_loop_whole chunks p'))
      ∙ chunk_assoc (feed_all decode assembler later) finishes (feed_all decode assembler first s)
      ∙ ap (after_chunk decode assembler finishes) (
          sym (feed_all-append first later s)
          ∙ ap (λ t. feed_all decode assembler t.1 s)
              (sym
                (push-append decode c (concat chunks) p [] ∙ push-front (concat chunks) p' first)))

  -- The reply and the events that the reader of a streamed body gives do not depend on where the
  -- network cuts the body: they are those of the payloads of the whole body, fed in order, up to the
  -- one that ends the stream or fails.
  pub read_sse_whole :
      (chunks : List (List ℕ))
      → read_sse decode assembler (map chunk chunks)
        ≡ after_chunk decode assembler finishes
            (feed_all decode assembler (push decode (concat chunks) default []).1 assembler.new)
  unfolding read_sse
  read_sse_whole chunks = read_loop_whole chunks default assembler.new

  -- A streamed body that is a stream of events with ASCII lines is read, however it is cut, as its
  -- events in order, each fed as the text of its lines.
  pub read_sse-stream_of :
      (ascii : (l : List ℕ) → All (λ b. b < 128) l → decode l ≡ l) (events : List (List (List ℕ)))
      (chunks : List (List ℕ))
      → All IsEvent events
      → concat chunks ≡ stream_of events
      → read_sse decode assembler (map chunk chunks)
        ≡ after_chunk decode assembler finishes
            (feed_all decode assembler (map (join (codes "\n")) events) assembler.new)
  read_sse-stream_of ascii events chunks h e =
      read_sse_whole chunks
      ∙ ap
          (λ body.
            after_chunk decode assembler finishes
              (feed_all decode assembler (push decode body default []).1 assembler.new))
          e
      ∙ ap
          (λ t. after_chunk decode assembler finishes (feed_all decode assembler t.1 assembler.new))
          (push-stream_of decode ascii events [] h)
