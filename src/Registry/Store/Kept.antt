-- ===== src/Registry/Store/Kept.antt =====
-- What a tool call leaves of the run's memory (`execute`, src/research/agent_loop/registry.rs).
use web_agent_research.Prelude.{
  if_true, if_false, sym, ap, ◌∙◌, text_eq_iff, text_eq, codes, ℕ, zero, suc, ◌≡◌, refl, sym, ap,
  ◌∙◌, inl, inr, true, false, Option, none, some, List, [], ◌∷◌, ◌++◌, arith, Text, codes, text_eq,
  text_eq_iff, if_true, if_false, Bool-cases, get_elem?,
}
use mathlib.Core.Path.{subst}
use web_agent_research.Llm.{RequestedToolCall}
use web_agent_research.ToolResult.{Evidence, Served, ToolResult}
use web_agent_research.Search.{SearchInput}
use web_agent_research.Registry.{StoredPage, deliver_part}
use web_agent_research.Registry.Store.{
  Store, FetchInput, Fetched, page, no_page, Parsed, ok, bad, Backend, lookup, set_page,
  keep_delivered, deliver_at, known_page, is_seen, point_to, new_page, store_page, with_world,
  new_fetch, fetch_page, fetch_call, search_call, run_call, execute,
}

deliver_part-page :
    (call : RequestedToolCall) (stored : StoredPage) (part part_chars : ℕ) (served : Served)
    (r : ToolResult) (after : StoredPage)
    → deliver_part call stored part part_chars served ≡ some (r, after)
    → (after.page ≡ stored.page) × (stored.delivered ≡ true → after.delivered ≡ true)
unfolding deliver_part
deliver_part-page call stored part part_chars served r after e = ground arith

-- A page that is kept: its text, and that the model has seen it.
abbrev pub IsSame : StoredPage → StoredPage → Type 0
IsSame p p' = (p'.page ≡ p.page) × (p.delivered ≡ true → p'.delivered ≡ true)

abbrev pub Holds : List StoredPage → ℕ → (StoredPage → Type 0) → Type 0
Holds pages i P = (p : StoredPage) × ((get_elem? pages i ≡ some p) × P p)

-- Every key still names its page, and every page is still there.
pub record IsKept (s s' : Store) : Type 0 where
  pub keys : (k : Text) (i : ℕ) → lookup k s.fetched ≡ some i → lookup k s'.fetched ≡ some i
  pub pages : (i : ℕ) (p : StoredPage) → get_elem? s.pages i ≡ some p → Holds s'.pages i (IsSame p)

pub IsKept-refl : (s : Store) → IsKept s s
IsKept-refl s = record { keys = λ k i e. e; pages = λ i p e. (p, (e, (refl, λ d. d))) }

pub IsKept-trans : (s s' s'' : Store) → IsKept s s' → IsKept s' s'' → IsKept s s''
IsKept-trans s s' s'' a b = record {
  keys = λ k i e. b.keys k i (a.keys k i e);
  pages = λ i p e.
      let (p', (e', (same, seen))) = a.pages i p e in
      let (p'', (e'', (same', seen'))) = b.pages i p' e' in
      (p'', (e'', (same' ∙ same, λ d. seen' (seen d))));
}

set_page-Holds :
    (n : ℕ) (old new : StoredPage) (pages : List StoredPage)
    → get_elem? pages n ≡ some old
    → IsSame old new
    → (i : ℕ) (p : StoredPage) → get_elem? pages i ≡ some p
    → Holds (set_page n new pages) i (IsSame p)
set_page-Holds n old new [] e h i p f = ground arith
set_page-Holds zero old new (q ∷ pages) e h zero p f =
    let both : some old ≡ some p = sym e ∙ f in
    let same : old ≡ p = ground arith in
    (
      new,
      (
        refl,
        (
          h.0 ∙ ap (λ (x : StoredPage). x.page) same,
          λ d. h.1 (ap (λ (x : StoredPage). x.delivered) same ∙ d),
        ),
      ),
    )
set_page-Holds zero old new (q ∷ pages) e h (suc i) p f = (p, (f, (refl, λ d. d)))
set_page-Holds (suc n) old new (q ∷ pages) e h zero p f = (p, (f, (refl, λ d. d)))
set_page-Holds (suc n) old new (q ∷ pages) e h (suc i) p f =
    set_page-Holds n old new pages e h i p f

abbrev pub OnStore : {W : Type 0} → (Store → Type 0) → Option (ToolResult × (Store × W)) → Type 0
OnStore P none = Unit
OnStore P (some (r, (s, w))) = P s

abbrev pub OnDelivered : (Store → Type 0) → Option (ToolResult × Store) → Type 0
OnDelivered P none = Unit
OnDelivered P (some (r, s)) = P s

keep_delivered-IsKept :
    (s : Store) (i : ℕ) (stored : StoredPage) (d : Option (ToolResult × StoredPage))
    → get_elem? s.pages i ≡ some stored
    → ((r : ToolResult) (after : StoredPage) → d ≡ some (r, after) → IsSame stored after)
    → OnDelivered (IsKept s) (keep_delivered s i d)
keep_delivered-IsKept s i stored none e h = record {}
keep_delivered-IsKept s i stored (some (r, after)) e h = record {
  keys = λ k j f. f;
  pages = set_page-Holds i stored after s.pages e (h r after refl);
}

deliver_at-IsKept :
    (s : Store) (i : ℕ) (call : RequestedToolCall) (part part_chars : ℕ) (served : Served)
    (o : Option StoredPage)
    → get_elem? s.pages i ≡ o
    → OnDelivered (IsKept s) (deliver_at s i call part part_chars served o)
deliver_at-IsKept s i call part part_chars served none e = record {}
deliver_at-IsKept s i call part part_chars served (some stored) e =
    keep_delivered-IsKept s i stored (deliver_part call stored part part_chars served) e
      (λ r after f. deliver_part-page call stored part part_chars served r after f)

get_elem?-append :
    (pages : List StoredPage) (q : StoredPage) (i : ℕ) (p : StoredPage)
    → get_elem? pages i ≡ some p
    → get_elem? (pages ++ q ∷ []) i ≡ some p
get_elem?-append [] q i p e = ground arith
get_elem?-append (x ∷ pages) q zero p e = e
get_elem?-append (x ∷ pages) q (suc i) p e = get_elem?-append pages q i p e

-- A key that the map lacks is not one that it has.
pub key_differs :
    (key k : Text) (i : ℕ) (entries : List (Text × ℕ))
    → lookup key entries ≡ none
    → lookup k entries ≡ some i
    → text_eq key k ≡ false
key_differs key k i entries fresh e = elim (Bool-cases (text_eq key k)) [
  | inl t ↦ let same = ap (λ x. lookup x entries) ((text_eq_iff key k).0 t) in absurd (ground arith)
  | inr f ↦ f
]

pub store_page-IsKept :
    (s : Store) (requested source : Text) (evidence : Evidence) (o : Option ℕ)
    → lookup requested s.fetched ≡ none
    → lookup source s.fetched ≡ o
    → IsKept s (store_page s requested source evidence o).0
store_page-IsKept s requested source evidence (some n) fresh e = record {
  keys = λ k i f. if_false _ _ (key_differs requested k i s.fetched fresh f) ∙ f;
  pages = λ i p f. (p, (f, (refl, λ d. d)));
}
store_page-IsKept s requested source evidence none fresh e = record {
  keys = λ k i f.
      if_false _ _ (key_differs requested k i s.fetched fresh f)
      ∙ if_false _ _ (key_differs source k i s.fetched e f)
      ∙ f;
  pages = λ i p f. (p, (get_elem?-append s.pages (new_page evidence) i p f, (refl, λ d. d)));
}

OnDelivered-trans :
    (s s' : Store) (d : Option (ToolResult × Store))
    → IsKept s s'
    → OnDelivered (IsKept s') d
    → OnDelivered (IsKept s) d
OnDelivered-trans s s' none a h = record {}
OnDelivered-trans s s' (some (r, s'')) a h = IsKept-trans s s' s'' a h

module _ {W J : Type 0} (backend : Backend W J) where
  pub with_world-OnStore :
      (P : Store → Type 0) (w : W) (d : Option (ToolResult × Store))
      → OnDelivered P d
      → OnStore P (with_world backend w d)
  with_world-OnStore P w none h = record {}
  with_world-OnStore P w (some (r, s)) h = h

  known_page-IsKept :
      (s : Store) (i : ℕ) (call : RequestedToolCall) (input : FetchInput) (part_chars : ℕ)
      → OnDelivered (IsKept s) (known_page s i call input part_chars)
  known_page-IsKept s i call input part_chars =
      elim (Bool-cases (is_seen input.part (get_elem? s.pages i))) [
        | inl e ↦
            subst (OnDelivered (IsKept s)) (sym (if_true _ _ e)) (pointed (get_elem? s.pages i))
        | inr e ↦
            subst (OnDelivered (IsKept s)) (sym (if_false _ _ e))
              (deliver_at-IsKept s i call _ part_chars _ (get_elem? s.pages i) refl)
      ]
    where
      pointed : (o : Option StoredPage) → OnDelivered (IsKept s) (point_to input part_chars s o)
      pointed none = record {}
      pointed (some stored) = IsKept-refl s

  new_fetch-IsKept :
      (s : Store) (w : W) (call : RequestedToolCall) (input : FetchInput) (part_chars : ℕ)
      (fetched : Fetched)
      → lookup (backend.dedup_key input.url) s.fetched ≡ none
      → OnStore (IsKept s) (new_fetch backend s w call input part_chars fetched)
  new_fetch-IsKept s w call input part_chars (no_page reason kind) fresh = IsKept-refl s
  new_fetch-IsKept s w call input part_chars (page evidence served) fresh =
      let source = backend.dedup_key evidence.source_url in
      let requested = backend.dedup_key input.url in
      let stored = store_page s requested source evidence (lookup source s.fetched) in
      with_world-OnStore (IsKept s) w _ (
        OnDelivered-trans s stored.0 _
          (store_page-IsKept s requested source evidence (lookup source s.fetched) fresh refl)
          (deliver_at-IsKept stored.0 stored.1 call _ part_chars served _ refl))

  fetch_page-IsKept :
      (s : Store) (w : W) (call : RequestedToolCall) (args : J) (input : FetchInput)
      (part_chars : ℕ) (o : Option ℕ)
      → lookup (backend.dedup_key input.url) s.fetched ≡ o
      → OnStore (IsKept s) (fetch_page backend s w call args input part_chars o)
  fetch_page-IsKept s w call args input part_chars (some i) e =
      with_world-OnStore (IsKept s) w _ (known_page-IsKept s i call input part_chars)
  fetch_page-IsKept s w call args input part_chars none e =
      new_fetch-IsKept s _ call input part_chars (backend.fetch_web w args input.url).0 e

  run_call-IsKept :
      (s : Store) (w : W) (call : RequestedToolCall) (part_chars : ℕ) (args : Parsed J)
      → OnStore (IsKept s) (run_call backend s w call part_chars args)
  run_call-IsKept s w call part_chars (bad err) = IsKept-refl s
  run_call-IsKept s w call part_chars (ok args) =
      elim (Bool-cases (text_eq call.name (codes "search"))) [
        | inl e ↦
            subst (OnStore (IsKept s)) (sym (if_true _ _ e))
              (searched (backend.parse_search_args args))
        | inr e ↦ elim (Bool-cases (text_eq call.name (codes "fetch"))) [
          | inl f ↦
              subst (OnStore (IsKept s)) (sym (if_false _ _ e ∙ if_true _ _ f))
                (got (backend.parse_fetch_input args))
          | inr g ↦
              subst (OnStore (IsKept s)) (sym (if_false _ _ e ∙ if_false _ _ g)) (IsKept-refl s)
        ]
      ]
    where
      searched : (i : Parsed SearchInput) → OnStore (IsKept s) (search_call backend s w call i)
      searched (bad reason) = IsKept-refl s
      searched (ok input) = IsKept-refl s

      got :
          (i : Parsed FetchInput)
          → OnStore (IsKept s) (fetch_call backend s w call args part_chars i)
      got (bad reason) = IsKept-refl s
      got (ok input) = fetch_page-IsKept s w call args input part_chars _ refl

  -- Whatever a tool call does, the run forgets no page: every key still names the page it named, and
  -- every page has the same text and stays delivered once it was.
  pub execute-IsKept :
      (s : Store) (w : W) (call : RequestedToolCall) (part_chars : ℕ)
      → OnStore (IsKept s) (execute backend s w call part_chars)
  unfolding execute
  execute-IsKept s w call part_chars =
      run_call-IsKept s w call part_chars (backend.from_str call.arguments)
