-- ===== src/Stream/Openai.antt =====
-- src/llm/stream/openai.rs: the assembler of OpenAI Chat Completions chunks. A payload is modelled as
-- `serde_json` decodes it (`Payload`), which is the assembler's parameter `from_str`.
pub mod Entries
pub mod Calls
pub mod Requests
pub mod Taken
pub mod Reply
use web_agent_research.Prelude.{
  ℕ, zero, suc, ◌+◌, ◌-◌, ◌*◌, ◌/◌, ◌%◌, ◌^◌, ◌≤◌, ◌<◌, min, max, ◌≡◌, refl, sym, ap, ◌∙◌, ◌≢◌, ◌↔◌,
  ◌⊎◌, inl, inr, Bool, true, false, not, ◌&&◌, ◌||◌, Option, none, some, List, [], ◌∷◌, ◌++◌, map,
  append-nil, append_assoc, arith, Text, codes, is_empty, text_eq, text_eq_iff, contains, join,
  is_whitespace, is_blank, show, ltb, leb, ◌==◌, if◌then◌else◌, ltb→lt, lt→ltb, leb→le, if_true,
  if_false, ==_iff, Bool-cases, Option-cases, length, take, drop, get_elem?, length-append,
  take-append-drop, length-take, length-drop, length-map, concat, All, All-append,
}
use web_agent_research.Search.{trim}
use web_agent_research.Llm.{
  ChatResult, replied, refused_with, GatewayError, transport, parse, empty_choices, refused,
  no_replay, LlmReply, RequestedToolCall,
}
use web_agent_research.Llm.Errors.{ErrorValue, error_object}
use web_agent_research.Response.{
  ToolFunction, ResponseUsage, unwrap_or, non_empty, name_of, arguments_of, usage_of,
}
use web_agent_research.Stream.{
  LlmEvent, text_event, thinking, tool_args, Fed, more, finished, failed, Assembler,
}

pub record DeltaToolCall : Type 0 where
  pub index : Option ℕ
  pub id : Option Text
  pub function : Option ToolFunction

pub record Delta : Type 0 where
  pub content : Option Text
  pub refusal : Option Text
  pub reasoning_content : Option Text
  pub reasoning : Option Text
  pub reasoning_details : List (Option Text)
  pub tool_calls : List DeltaToolCall

pub record ChunkChoice : Type 0 where
  pub index : Option ℕ
  pub delta : Delta
  pub finish_reason : Option Text

-- `error` is `none` for a missing and for a null field.
pub record Chunk : Type 0 where
  pub choices : List ChunkChoice
  pub usage : Option ResponseUsage
  pub error : Option ErrorValue

-- What `serde_json::from_str` gives.
pub data Payload : Type 0 where
  malformed : Text → Payload
  decoded : Chunk → Payload

pub record PartialCall : Type 0 where
  pub id : Option Text
  pub name : Option Text
  pub arguments : Option Text

abbrev pub no_call : PartialCall
no_call = record { id = none; name = none; arguments = none }

-- The calls by index, in ascending order (`BTreeMap`).
pub record State : Type 0 where
  pub output : Text
  pub refusal : Text
  pub reasoning_content : Text
  pub reasoning : Text
  pub reasoning_details : Text
  pub calls : List (ℕ × PartialCall)
  pub last_call : Option ℕ
  pub finish_reason : Option Text
  pub usage : Option ResponseUsage
  pub saw_choice : Bool
  pub ended : Bool

abbrev pub empty_state : State
empty_state = record {
  output = [];
  refusal = [];
  reasoning_content = [];
  reasoning = [];
  reasoning_details = [];
  calls = [];
  last_call = none;
  finish_reason = none;
  usage = none;
  saw_choice = false;
  ended = false;
}

abbrev pub lookup : ℕ → List (ℕ × PartialCall) → Option PartialCall
lookup i [] = none
lookup i ((j, call) ∷ calls) = if i == j then some call else lookup i calls

abbrev pub insert : ℕ → PartialCall → List (ℕ × PartialCall) → List (ℕ × PartialCall)
insert i call [] = (i, call) ∷ []
insert i call ((j, other) ∷ calls) =
    if i == j
    then (i, call) ∷ calls
    else if ltb i j
    then (i, call) ∷ (j, other) ∷ calls
    else (j, other) ∷ insert i call calls

abbrev pub keep_first : Option Text → Option Text → Option Text
keep_first none new = new
keep_first (some old) new = some old

-- `get_or_insert_with(String::new).push_str(fragment)`, for a fragment that is not empty.
abbrev pub push_fragment : Option Text → Text → Option Text
push_fragment arguments [] = arguments
push_fragment arguments (c ∷ fragment) = some (unwrap_or [] arguments ++ c ∷ fragment)

abbrev pub is_new : Option Text → Option Text → Bool
is_new none (some new) = true
is_new none none = false
is_new (some old) new = false

-- The call's index, where the fragment may omit it: the last call's, unless an `id` opens a new one.
abbrev omitted_index : Option Text → Option ℕ → ℕ → ℕ
omitted_index none (some last) size = last
omitted_index none none size = size
omitted_index (some id) last size = size

abbrev pub index_of : State → DeltaToolCall → ℕ
index_of s call =
    unwrap_or (omitted_index (non_empty call.id) s.last_call (length s.calls)) call.index

-- A fragment at the entry of its call.
abbrev pub merge_call : DeltaToolCall → PartialCall → PartialCall
merge_call call entry = record {
  id = keep_first entry.id (non_empty call.id);
  name = keep_first entry.name (non_empty (name_of call.function));
  arguments = push_fragment entry.arguments (unwrap_or [] (arguments_of call.function));
}

abbrev pub call_event : ℕ → DeltaToolCall → PartialCall → List LlmEvent
call_event index call entry =
    let fragment = unwrap_or [] (arguments_of call.function) in
    let merged = merge_call call entry in
    let announced =
      is_new entry.id (non_empty call.id)
      || is_new entry.name (non_empty (name_of call.function)) in
    if announced || not (is_empty fragment)
    then tool_args index merged.id merged.name fragment ∷ []
    else []

unfoldable pub apply_call : State → DeltaToolCall → State × List LlmEvent
apply_call s call =
    let index = index_of s call in
    let entry = unwrap_or no_call (lookup index s.calls) in
    (
      record s { calls = insert index (merge_call call entry) s.calls; last_call = some index },
      call_event index call entry,
    )

unfoldable pub apply_calls : State → List DeltaToolCall → State × List LlmEvent
unfolding apply_call
apply_calls s [] = (s, [])
apply_calls s (call ∷ calls) =
    let (s1, first) = apply_call s call in
    let (s2, rest) = apply_calls s1 calls in (s2, first ++ rest)

abbrev pub glued : Text → Option Text → Text
glued text fragment = text ++ unwrap_or [] fragment

-- An event for a fragment that is not empty.
abbrev pub event_of : (Text → LlmEvent) → Option Text → List LlmEvent
event_of event fragment = elim (non_empty fragment) [ none ↦ [] | some text ↦ event text ∷ [] ]

abbrev pub details_text : List (Option Text) → Text
details_text [] = []
details_text (text ∷ details) = unwrap_or [] text ++ details_text details

abbrev pub details_events : List (Option Text) → List LlmEvent
details_events [] = []
details_events (text ∷ details) = event_of thinking text ++ details_events details

-- The texts of a delta; the fragments that are empty change nothing.
abbrev pub apply_texts : State → Delta → State × List LlmEvent
apply_texts s delta = (
  record s {
    output = glued s.output delta.content;
    refusal = glued s.refusal delta.refusal;
    reasoning_content = glued s.reasoning_content delta.reasoning_content;
    reasoning = glued s.reasoning delta.reasoning;
    reasoning_details = s.reasoning_details ++ details_text delta.reasoning_details;
  },
  event_of text_event delta.content
      ++ (event_of thinking delta.reasoning_content
          ++ (event_of thinking delta.reasoning ++ details_events delta.reasoning_details)),
)

abbrev pub later_reason : Option Text → Option Text → Option Text
later_reason old none = old
later_reason old (some reason) = some reason

unfoldable pub apply : State → ChunkChoice → State × List LlmEvent
unfolding apply_calls
apply s choice =
    let (s1, texts) = apply_texts s choice.delta in
    let (s2, calls) = apply_calls s1 choice.delta.tool_calls in
    (
      record s2 { finish_reason = later_reason s2.finish_reason (non_empty choice.finish_reason) },
      texts ++ calls,
    )

-- Only choice 0 is read.
unfoldable pub apply_choices : State → List ChunkChoice → State × List LlmEvent
unfolding apply
apply_choices s [] = (s, [])
apply_choices s (choice ∷ choices) =
    let mine = unwrap_or 0 choice.index == 0 in
    let (s1, first) = if mine then apply (record s { saw_choice = true }) choice else (s, []) in
    let (s2, rest) = apply_choices s1 choices in (s2, first ++ rest)

abbrev later_usage : Option ResponseUsage → Option ResponseUsage → Option ResponseUsage
later_usage old none = old
later_usage old (some usage) = some usage

abbrev take_chunk : State → Chunk → Option ErrorValue → Fed State × List LlmEvent
take_chunk s chunk (some error) = (failed (error_object error), [])
take_chunk s chunk none =
    let (s', events) =
      apply_choices (record s { usage = later_usage s.usage chunk.usage }) chunk.choices in
    (more s', events)

abbrev take_payload : State → Payload → Fed State × List LlmEvent
take_payload s (malformed detail) = (failed (parse detail), [])
take_payload s (decoded chunk) = take_chunk s chunk chunk.error

unfoldable pub feed : (Text → Payload) → State → Text → Fed State × List LlmEvent
unfolding apply_choices error_object trim text_eq
feed from_str s payload =
    let text = trim payload in
    if is_empty text
    then (more s, [])
    else if text_eq text (codes "[DONE]")
    then (finished (record s { ended = true }), [])
    else take_payload s (from_str text)

abbrev pub requested : PartialCall → RequestedToolCall
requested call = record {
  id = unwrap_or [] call.id;
  name = unwrap_or [] call.name;
  arguments = unwrap_or (codes "{}") call.arguments;
}

abbrev pub requests : List (ℕ × PartialCall) → List RequestedToolCall
requests [] = []
requests ((i, call) ∷ calls) = requested call ∷ requests calls

abbrev pub non_empty_parts : List Text → List Text
non_empty_parts [] = []
non_empty_parts (part ∷ parts) =
    let rest = non_empty_parts parts in if is_empty part then rest else part ∷ rest

abbrev cut_short : Option Text → Bool → Bool
cut_short none ended = not ended
cut_short (some reason) ended = false

unfoldable pub reply_of : State → LlmReply
unfolding join
reply_of s = record {
  thinking =
      join (codes "\n")
        (non_empty_parts (s.reasoning_content ∷ s.reasoning ∷ s.reasoning_details ∷ []));
  output = s.output;
  finish_reason = s.finish_reason;
  tool_calls = requests s.calls;
  usage = usage_of s.usage;
  replay = no_replay;
}

unfoldable pub finish : State → ChatResult
unfolding reply_of
finish s =
    if cut_short s.finish_reason s.ended
    then refused_with
        (transport (codes "stream ended before a finish_reason or [DONE] (cut mid-body)"))
    else if not s.saw_choice
    then refused_with empty_choices
    else if not (is_empty s.refusal)
    then refused_with (refused s.refusal)
    else replied (reply_of s)

abbrev pub openai : (Text → Payload) → Assembler State
openai from_str = record { new = empty_state; feed = feed from_str; finish = finish }
