-- ===== src/Stream/Openai/Taken.antt =====
-- What chunks bring into the assembler's state (src/llm/stream/openai.rs).
use web_agent_research.Prelude.{
  ℕ, ◌≡◌, refl, sym, ap, ◌∙◌, inl, inr, Bool, true, false, ◌||◌, Option, List, [], ◌∷◌, ◌++◌,
  append-nil, append_assoc, Text, ◌==◌, if◌then◌else◌, Bool-cases, All,
}
use web_agent_research.Response.{unwrap_or}
use web_agent_research.Stream.Openai.{
  PartialCall, apply_texts, DeltaToolCall, ChunkChoice, Chunk, State, lookup, apply_call,
  apply_calls, apply, apply_choices,
}
use web_agent_research.Stream.Openai.Entries.{From}
use web_agent_research.Stream.Openai.Calls.{
  is_at, mine, HasIndex, merge_all, apply_calls-lookup, apply_calls-From,
}

-- What a part of a stream brings: text, refusal text, fragments of calls, and whether choice 0 was in
-- it.
pub record Brought : Type 0 where
  pub text : Text
  pub refusal : Text
  pub calls : List DeltaToolCall
  pub seen : Bool

abbrev pub nothing : Brought
nothing = record { text = []; refusal = []; calls = []; seen = false }

abbrev pub both : Brought → Brought → Brought
both a b = record {
  text = a.text ++ b.text;
  refusal = a.refusal ++ b.refusal;
  calls = a.calls ++ b.calls;
  seen = a.seen || b.seen;
}

abbrev pub choice_brings : ChunkChoice → Brought
choice_brings choice =
    if unwrap_or 0 choice.index == 0
    then record {
      text = unwrap_or [] choice.delta.content;
      refusal = unwrap_or [] choice.delta.refusal;
      calls = choice.delta.tool_calls;
      seen = true;
    }
    else nothing

abbrev pub choices_bring : List ChunkChoice → Brought
choices_bring [] = nothing
choices_bring (choice ∷ choices) = both (choice_brings choice) (choices_bring choices)

abbrev pub chunks_bring : List Chunk → Brought
chunks_bring [] = nothing
chunks_bring (c ∷ chunks) = both (choices_bring c.choices) (chunks_bring chunks)

-- What the assembler's state has taken in.
pub record HasTaken (s s' : State) (b : Brought) : Type 0 where
  pub output : s'.output ≡ s.output ++ b.text
  pub refusal : s'.refusal ≡ s.refusal ++ b.refusal
  pub seen : s'.saw_choice ≡ s.saw_choice || b.seen
  pub entries :
      All HasIndex b.calls
      → (i : ℕ) → lookup i s'.calls ≡ merge_all (mine i b.calls) (lookup i s.calls)
  pub ascending : From 0 s.calls → From 0 s'.calls

if-append :
    (test : Bool) (call : DeltaToolCall) (a b : List DeltaToolCall)
    → (if test then call ∷ (a ++ b) else a ++ b) ≡ (if test then call ∷ a else a) ++ b
if-append true call a b = refl
if-append false call a b = refl

or_assoc : (a b c : Bool) → ((a || b) || c) ≡ (a || (b || c))
or_assoc true b c = refl
or_assoc false b c = refl

mine-append : (i : ℕ) (a b : List DeltaToolCall) → mine i (a ++ b) ≡ mine i a ++ mine i b
mine-append i [] b = refl
mine-append i (call ∷ a) b =
    rw (mine-append i a b) (if-append (is_at i call.index) call (mine i a) (mine i b))

merge_all-append :
    (a b : List DeltaToolCall) (entry : Option PartialCall)
    → merge_all (a ++ b) entry ≡ merge_all b (merge_all a entry)
merge_all-append [] b entry = refl
merge_all-append (call ∷ a) b entry = merge_all-append a b _

All-left : (a b : List DeltaToolCall) → All HasIndex (a ++ b) → All HasIndex a × All HasIndex b
All-left [] b h = (record {}, h)
All-left (call ∷ a) b (h, hs) = let (l, r) = All-left a b hs in ((h, l), r)

pub HasTaken-both :
    (s s' s'' : State) (a b : Brought)
    → HasTaken s s' a
    → HasTaken s' s'' b
    → HasTaken s s'' (both a b)
HasTaken-both s s' s'' a b first second = record {
  output = second.output ∙ ap (λ t. t ++ b.text) first.output ∙ append_assoc s.output a.text b.text;
  refusal =
      second.refusal
      ∙ ap (λ t. t ++ b.refusal) first.refusal
      ∙ append_assoc s.refusal a.refusal b.refusal;
  seen = second.seen ∙ ap (λ t. t || b.seen) first.seen ∙ or_assoc s.saw_choice a.seen b.seen;
  entries = λ h i.
      let (l, r) = All-left a.calls b.calls h in
      second.entries r i
      ∙ ap (merge_all (mine i b.calls)) (first.entries l i)
      ∙ sym (merge_all-append (mine i a.calls) (mine i b.calls) (lookup i s.calls))
      ∙ ap (λ l. merge_all l (lookup i s.calls)) (sym (mine-append i a.calls b.calls));
  ascending = λ h. second.ascending (first.ascending h);
}

pub HasTaken-nothing : (s : State) → HasTaken s s nothing
HasTaken-nothing s = record {
  output = sym (append-nil s.output);
  refusal = sym (append-nil s.refusal);
  seen = or_false s.saw_choice;
  entries = λ h i. refl;
  ascending = λ h. h;
}
  where
    or_false : (b : Bool) → b ≡ (b || false)
    or_false true = refl
    or_false false = refl

-- The fields that a call's fragment leaves alone.
abbrev texts_of : State → Text × (Text × Bool)
texts_of s = (s.output, (s.refusal, s.saw_choice))

apply_calls-texts :
    (calls : List DeltaToolCall) (s : State) → texts_of (apply_calls s calls).0 ≡ texts_of s
unfolding apply_calls apply_call
apply_calls-texts [] s = refl
apply_calls-texts (call ∷ calls) s = apply_calls-texts calls (apply_call s call).0

or_true : (b : Bool) → true ≡ (b || true)
or_true true = refl
or_true false = refl

apply-HasTaken :
    (s : State) (choice : ChunkChoice)
    → HasTaken s (apply (record s { saw_choice = true }) choice).0 (record {
      text = unwrap_or [] choice.delta.content;
      refusal = unwrap_or [] choice.delta.refusal;
      calls = choice.delta.tool_calls;
      seen = true;
    })
unfolding apply
apply-HasTaken s choice =
    let s1 = (apply_texts (record s { saw_choice = true }) choice.delta).0 in
    let same = apply_calls-texts choice.delta.tool_calls s1 in
    record {
      output = ap (λ t. t.0) same;
      refusal = ap (λ t. t.1.0) same;
      seen = ap (λ t. t.1.1) same ∙ or_true s.saw_choice;
      entries = λ h i. apply_calls-lookup i choice.delta.tool_calls s1 h;
      ascending = λ h. apply_calls-From choice.delta.tool_calls s1 h;
    }

choice-HasTaken :
    (s : State) (choice : ChunkChoice)
    → HasTaken s
        (if unwrap_or 0 choice.index == 0
          then apply (record s { saw_choice = true }) choice
          else (s, [])).0
        (choice_brings choice)
choice-HasTaken s choice = elim (Bool-cases (unwrap_or 0 choice.index == 0)) [
  | inl e ↦ rw e (apply-HasTaken s choice)
  | inr e ↦ rw e (HasTaken-nothing s)
]

pub apply_choices-HasTaken :
    (choices : List ChunkChoice) (s : State)
    → HasTaken s (apply_choices s choices).0 (choices_bring choices)
unfolding apply_choices
apply_choices-HasTaken [] s = HasTaken-nothing s
apply_choices-HasTaken (choice ∷ choices) s =
    HasTaken-both s _ _ (choice_brings choice) (choices_bring choices) (choice-HasTaken s choice)
      (apply_choices-HasTaken choices _)
