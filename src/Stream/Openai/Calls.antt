-- ===== src/Stream/Openai/Calls.antt =====
-- Tool calls out of interleaved fragments (`apply_call`, src/llm/stream/openai.rs).
use web_agent_research.Prelude.{
  ℕ, ◌≤◌, ◌≡◌, refl, sym, ◌∙◌, inl, inr, Bool, false, Option, none, some, List, [], ◌∷◌, ◌++◌, map,
  append-nil, append_assoc, arith, Text, codes, ◌==◌, if◌then◌else◌, if_true, if_false, Bool-cases,
  length, length-append, concat, All, ap,
}
use web_agent_research.Llm.{RequestedToolCall}
use web_agent_research.Response.{unwrap_or, non_empty, name_of, arguments_of}
use web_agent_research.Stream.Openai.{
  index_of, DeltaToolCall, PartialCall, no_call, State, lookup, push_fragment, keep_first,
  merge_call, apply_call, apply_calls, requested,
}
use web_agent_research.Stream.Openai.Entries.{lookup-insert, From, insert-From}

-- The fragments that carry an index.
abbrev pub is_at : ℕ → Option ℕ → Bool
is_at i none = false
is_at i (some j) = i == j

abbrev pub mine : ℕ → List DeltaToolCall → List DeltaToolCall
mine i [] = []
mine i (call ∷ calls) = let rest = mine i calls in if is_at i call.index then call ∷ rest else rest

abbrev pub HasIndex : DeltaToolCall → Type 0
HasIndex call = (j : ℕ) × (call.index ≡ some j)

-- What the fragments of one call make of its entry.
abbrev pub merge_all : List DeltaToolCall → Option PartialCall → Option PartialCall
merge_all [] entry = entry
merge_all (call ∷ calls) entry = merge_all calls (some (merge_call call (unwrap_or no_call entry)))

apply_call-lookup :
    (i j : ℕ) (call : DeltaToolCall) (s : State)
    → call.index ≡ some j
    → lookup i (apply_call s call).0.calls ≡ (
        if i == j
        then some (merge_call call (unwrap_or no_call (lookup j s.calls)))
        else lookup i s.calls)
unfolding apply_call
apply_call-lookup i j call s e =
    let at : index_of s call ≡ j = rw e refl in
    lookup-insert i (index_of s call) _ s.calls
    ∙ ap
        (λ k.
          if i == k
          then some (merge_call call (unwrap_or no_call (lookup k s.calls)))
          else lookup i s.calls)
        at

merge_all-mine :
    (i j : ℕ) (call : DeltaToolCall) (calls : List DeltaToolCall) (s : State)
    → call.index ≡ some j
    → merge_all (mine i calls) (
        if i == j
        then some (merge_call call (unwrap_or no_call (lookup j s.calls)))
        else lookup i s.calls)
      ≡ merge_all (mine i (call ∷ calls)) (lookup i s.calls)
merge_all-mine i j call calls s e = elim (Bool-cases (i == j)) [
  | inl t ↦
      let same : i ≡ j = ground arith in
      ap (merge_all (mine i calls)) (if_true _ _ t)
      ∙ ap
          (λ k.
            merge_all (mine i calls)
              (some (merge_call call (unwrap_or no_call (lookup k s.calls)))))
          (sym same)
      ∙ ap (λ l. merge_all l (lookup i s.calls)) (sym (if_true _ _ (ap (is_at i) e ∙ t)))
  | inr f ↦
      ap (merge_all (mine i calls)) (if_false _ _ f)
      ∙ ap (λ l. merge_all l (lookup i s.calls)) (sym (if_false _ _ (ap (is_at i) e ∙ f)))
]

pub apply_calls-lookup :
    (i : ℕ) (calls : List DeltaToolCall) (s : State)
    → All HasIndex calls
    → lookup i (apply_calls s calls).0.calls ≡ merge_all (mine i calls) (lookup i s.calls)
unfolding apply_calls
apply_calls-lookup i [] s h = refl
apply_calls-lookup i (call ∷ calls) s ((j, e), hs) =
    apply_calls-lookup i calls (apply_call s call).0 hs
    ∙ ap (merge_all (mine i calls)) (apply_call-lookup i j call s e)
    ∙ merge_all-mine i j call calls s e

pub apply_calls-From :
    (calls : List DeltaToolCall) (s : State) → From 0 s.calls → From 0 (apply_calls s calls).0.calls
unfolding apply_calls apply_call
apply_calls-From [] s h = h
apply_calls-From (call ∷ calls) s h =
    apply_calls-From calls (apply_call s call).0 (insert-From 0 _ _ s.calls h (omega arith))

-- What the fragments of a call say, whatever the assembler does with them: the first id and the first
-- name that are not empty (an empty one where there is none), and the arguments put together, `{}` where
-- they are empty.
abbrev pub fragment_of : DeltaToolCall → Text
fragment_of call = unwrap_or [] (arguments_of call.function)

abbrev pub first_text : List (Option Text) → Text
first_text [] = []
first_text (none ∷ texts) = first_text texts
first_text (some [] ∷ texts) = first_text texts
first_text (some (c ∷ text) ∷ texts) = c ∷ text

abbrev pub or_object : Text → Text
or_object [] = codes "{}"
or_object (c ∷ text) = c ∷ text

abbrev ids : List DeltaToolCall → List (Option Text)
ids = map (λ call. call.id)

abbrev names : List DeltaToolCall → List (Option Text)
names = map (λ call. name_of call.function)

abbrev pub IsSplit : RequestedToolCall → List DeltaToolCall → Type 0
IsSplit call [] = ⊥
IsSplit call (first ∷ rest) =
    (call.id ≡ first_text (map (λ f. f.id) (first ∷ rest)))
    × (call.name ≡ first_text (map (λ f. name_of f.function) (first ∷ rest)))
    × (call.arguments ≡ or_object (concat (map fragment_of (first ∷ rest))))

-- The fragments at the index of a call, and at another index.
abbrev pub AtIndex : Option RequestedToolCall → List DeltaToolCall → Type 0
AtIndex none fragments = fragments ≡ []
AtIndex (some call) fragments = IsSplit call fragments

keep_all : Option Text → List (Option Text) → Option Text
keep_all o [] = o
keep_all o (text ∷ texts) = keep_all (keep_first o (non_empty text)) texts

keep_all-some : (t : Text) (texts : List (Option Text)) → keep_all (some t) texts ≡ some t
unfolding keep_all
keep_all-some t [] = refl
keep_all-some t (text ∷ texts) = keep_all-some t texts

keep_all-none : (texts : List (Option Text)) → unwrap_or [] (keep_all none texts) ≡ first_text texts
unfolding keep_all
keep_all-none [] = refl
keep_all-none (none ∷ texts) = keep_all-none texts
keep_all-none (some [] ∷ texts) = keep_all-none texts
keep_all-none (some (c ∷ text) ∷ texts) = ap (unwrap_or []) (keep_all-some (c ∷ text) texts)

push_all : Option Text → List DeltaToolCall → Option Text
push_all arguments [] = arguments
push_all arguments (call ∷ calls) = push_all (push_fragment arguments (fragment_of call)) calls

-- No arguments, or arguments that are not empty.
abbrev IsFull : Option Text → Type 0
IsFull none = Unit
IsFull (some text) = 1 ≤ length text

push_fragment-IsFull :
    (arguments : Option Text) (fragment : Text)
    → IsFull arguments
    → IsFull (push_fragment arguments fragment)
push_fragment-IsFull arguments [] h = h
push_fragment-IsFull arguments (c ∷ fragment) h =
    omega (arith, length-append (unwrap_or [] arguments) (c ∷ fragment))

pushed :
    (arguments : Option Text) (fragment : Text)
    → unwrap_or [] (push_fragment arguments fragment) ≡ unwrap_or [] arguments ++ fragment
pushed arguments [] = sym (append-nil (unwrap_or [] arguments))
pushed arguments (c ∷ fragment) = refl

push_all-or_object :
    (calls : List DeltaToolCall) (arguments : Option Text)
    → IsFull arguments
    → unwrap_or (codes "{}") (push_all arguments calls)
      ≡ or_object (unwrap_or [] arguments ++ concat (map fragment_of calls))
unfolding push_all
push_all-or_object [] none h = refl
push_all-or_object [] (some []) h = absurd (omega arith)
push_all-or_object [] (some (c ∷ text)) h = ap or_object (sym (append-nil (c ∷ text)))
push_all-or_object (call ∷ calls) arguments h =
    push_all-or_object calls (push_fragment arguments (fragment_of call))
      (push_fragment-IsFull arguments (fragment_of call) h)
    ∙ ap (λ t. or_object (t ++ concat (map fragment_of calls)))
        (pushed arguments (fragment_of call))
    ∙ ap or_object
        (append_assoc (unwrap_or [] arguments) (fragment_of call) (concat (map fragment_of calls)))

merge_all-some :
    (calls : List DeltaToolCall) (entry : PartialCall)
    → merge_all calls (some entry)
      ≡ some (record {
        id = keep_all entry.id (ids calls);
        name = keep_all entry.name (names calls);
        arguments = push_all entry.arguments calls;
      })
unfolding keep_all push_all
merge_all-some [] entry = refl
merge_all-some (call ∷ calls) entry = merge_all-some calls (merge_call call entry)

abbrev pub requested_at : Option PartialCall → Option RequestedToolCall
requested_at none = none
requested_at (some entry) = some (requested entry)

call_of : Text → Text → Text → RequestedToolCall
call_of id name arguments = record { id = id; name = name; arguments = arguments }

-- The fragments of a call make the call, and no fragments make none.
pub requested_at-AtIndex :
    (o : Option RequestedToolCall) (fragments : List DeltaToolCall)
    → AtIndex o fragments
    → requested_at (merge_all fragments none) ≡ o
unfolding keep_all push_all call_of
requested_at-AtIndex none fragments h = ap (λ l. requested_at (merge_all l none)) h
requested_at-AtIndex (some call) [] h = elim h [ ]
requested_at-AtIndex (some call) (first ∷ rest) (id, name, arguments) =
    let start = merge_call first no_call in
    let all_ids = keep_all-none (ids (first ∷ rest)) ∙ sym id in
    let all_names = keep_all-none (names (first ∷ rest)) ∙ sym name in
    let all_arguments = push_all-or_object (first ∷ rest) none (record {}) ∙ sym arguments in
    let texts = unwrap_or (codes "{}") (push_all none (first ∷ rest)) in
    let name_text = unwrap_or [] (keep_all none (names (first ∷ rest))) in
    ap requested_at (merge_all-some rest start)
    ∙ ap (λ i. some (call_of i name_text texts)) all_ids
    ∙ ap (λ n. some (call_of call.id n texts)) all_names
    ∙ ap (λ a. some (call_of call.id call.name a)) all_arguments
