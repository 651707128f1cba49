-- ===== src/Config/Tokens.antt =====
-- A written token of `SEARCH_ENGINES` (src/web/search/governor/config.rs): an engine's name in any letter
-- case, with white space around it.
use web_agent_research.Prelude.{
  ℕ, suc, ◌+◌, ◌≤◌, ◌≡◌, refl, sym, ◌∙◌, ◌≢◌, ◌⊎◌, inl, inr, true, false, ◌&&◌, ◌||◌, none, some,
  List, [], ◌∷◌, ◌++◌, map, append_assoc, arith, Text, codes, text_eq, join, is_whitespace,
  is_blank, leb, ◌==◌, if_false, Bool-cases, length, All, All-append, ap,
}
use mathlib.Core.Path.{subst}
use web_agent_research.Search.{
  SearchProvider, startpage, brave, yahoo, duck_duck_go, bing, crates_io, trim, trim_start,
  trim_end,
}
use web_agent_research.Config.{lower, split_comma, provider_of, providers_of}

abbrev pub names_of : SearchProvider → List Text
names_of duck_duck_go = codes "duckduckgo" ∷ codes "ddg" ∷ []
names_of startpage = codes "startpage" ∷ codes "sp" ∷ []
names_of brave = codes "brave" ∷ []
names_of yahoo = codes "yahoo" ∷ []
names_of bing = codes "bing" ∷ []
names_of crates_io = codes "cratesio" ∷ codes "crates.io" ∷ []

abbrev pub IsOneOf : Text → List Text → Type 0
IsOneOf name [] = ⊥
IsOneOf name (n ∷ names) = (name ≡ n) ⊎ IsOneOf name names

-- A letter of a name as it may be written.
abbrev pub IsWrittenAs : ℕ → ℕ → Type 0
IsWrittenAs t c = (c ≡ t) ⊎ ((97 ≤ t) × (t ≤ 122) × (c + 32 ≡ t))

abbrev pub IsWord : Text → Text → Type 0
IsWord [] [] = Unit
IsWord [] (c ∷ word) = ⊥
IsWord (t ∷ name) [] = ⊥
IsWord (t ∷ name) (c ∷ word) = IsWrittenAs t c × IsWord name word

pub record Token : Type 0 where
  pub engine : SearchProvider
  pub before : Text
  pub word : Text
  pub after : Text

pub record IsToken (token : Token) : Type 0 where
  pub name : Text
  pub named : IsOneOf name (names_of token.engine)
  pub written : IsWord name token.word
  pub before : All (λ c. is_whitespace c ≡ true) token.before
  pub after : All (λ c. is_whitespace c ≡ true) token.after

abbrev pub text_of : Token → Text
text_of token = token.before ++ (token.word ++ token.after)

-- The characters of the engines' names.
abbrev IsNameChar : ℕ → Type 0
IsNameChar t = (t == 46 || (leb 97 t && leb t 122)) ≡ true

IsOneOf-All :
    (P : Text → Type 0) (name : Text) (names : List Text)
    → IsOneOf name names
    → All P names
    → P name
IsOneOf-All P name [] h k = elim h [ ]
IsOneOf-All P name (n ∷ names) (inl same) (k, ks) = subst P (sym same) k
IsOneOf-All P name (n ∷ names) (inr later) (k, ks) = IsOneOf-All P name names later ks

abbrev IsName : Text → Type 0
IsName name = All IsNameChar name × (1 ≤ length name)

names_of-IsName : (p : SearchProvider) → All IsName (names_of p)
names_of-IsName duck_duck_go = ground arith
names_of-IsName startpage = ground arith
names_of-IsName brave = ground arith
names_of-IsName yahoo = ground arith
names_of-IsName bing = ground arith
names_of-IsName crates_io = ground arith

names_of-provider_of : (p : SearchProvider) → All (λ n. provider_of n ≡ some p) (names_of p)
unfolding provider_of text_eq
names_of-provider_of duck_duck_go = (refl, (refl, record {}))
names_of-provider_of startpage = (refl, (refl, record {}))
names_of-provider_of brave = (refl, record {})
names_of-provider_of yahoo = (refl, record {})
names_of-provider_of bing = (refl, record {})
names_of-provider_of crates_io = (refl, (refl, record {}))

lower_word : (name word : Text) → All IsNameChar name → IsWord name word → map lower word ≡ name
lower_word [] [] h w = refl
lower_word [] (c ∷ word) h w = elim w [ ]
lower_word (t ∷ name) [] h w = elim w [ ]
lower_word (t ∷ name) (c ∷ word) (h, hs) (w, ws) =
    let rest = lower_word name word hs ws in ground arith

-- A written character is no white space and no comma.
abbrev IsPlain : ℕ → Type 0
IsPlain c = (is_whitespace c ≡ false) × (c ≢ 44)

word_chars : (name word : Text) → All IsNameChar name → IsWord name word → All IsPlain word
unfolding is_whitespace
word_chars [] [] h w = record {}
word_chars [] (c ∷ word) h w = elim w [ ]
word_chars (t ∷ name) [] h w = elim w [ ]
word_chars (t ∷ name) (c ∷ word) (h, hs) (w, ws) = (ground arith, word_chars name word hs ws)

trim_start_before :
    (before text : Text)
    → All (λ c. is_whitespace c ≡ true) before
    → trim_start (before ++ text) ≡ trim_start text
unfolding trim_start
trim_start_before [] text h = refl
trim_start_before (c ∷ before) text (h, hs) = rw h (trim_start_before before text hs)

is_blank_after : (after : Text) → All (λ c. is_whitespace c ≡ true) after → is_blank after ≡ true
unfolding is_blank
is_blank_after [] h = refl
is_blank_after (c ∷ after) (h, hs) = let rest = is_blank_after after hs in ground arith

trim_end_after :
    (word after : Text)
    → All IsPlain word
    → All (λ c. is_whitespace c ≡ true) after
    → trim_end (word ++ after) ≡ word
unfolding trim_end is_blank
trim_end_after [] [] h k = refl
trim_end_after [] (c ∷ after) h k = rw (is_blank_after (c ∷ after) k)
trim_end_after (c ∷ word) after ((h, plain), hs) k =
    let rest = trim_end_after word after hs k in rw h (ap (◌∷◌ c) rest)

-- A token that starts with a plain character is trimmed at its start already.
trim_word :
    (before word after : Text)
    → All (λ c. is_whitespace c ≡ true) before
    → All IsPlain word
    → All (λ c. is_whitespace c ≡ true) after
    → 1 ≤ length word
    → trim (before ++ (word ++ after)) ≡ word
unfolding trim trim_start
trim_word before [] after b h a n = absurd (omega arith)
trim_word before (c ∷ word) after b ((h, plain), hs) a n =
    ap trim_end (trim_start_before before ((c ∷ word) ++ after) b ∙ if_false _ _ h)
    ∙ trim_end_after (c ∷ word) after ((h, plain), hs) a

IsWord-length : (name word : Text) → IsWord name word → length word ≡ length name
IsWord-length [] [] w = refl
IsWord-length [] (c ∷ word) w = elim w [ ]
IsWord-length (t ∷ name) [] w = elim w [ ]
IsWord-length (t ∷ name) (c ∷ word) (w, ws) = ap suc (IsWord-length name word ws)

token-provider_of :
    (token : Token)
    → IsToken token
    → provider_of (map lower (trim (text_of token))) ≡ some token.engine
token-provider_of token h =
    let (chars, long) = IsOneOf-All IsName h.name _ h.named (names_of-IsName token.engine) in
    let same = IsWord-length h.name token.word h.written in
    ap (λ t. provider_of (map lower t))
      (trim_word token.before token.word token.after h.before
        (word_chars h.name token.word chars h.written) h.after (omega arith))
    ∙ ap provider_of (lower_word h.name token.word chars h.written)
    ∙ IsOneOf-All (λ n. provider_of n ≡ some token.engine) h.name _ h.named
        (names_of-provider_of token.engine)

-- No comma.
abbrev HasNoComma : Text → Type 0
HasNoComma = All (λ c. c ≢ 44)

blank_no_comma : (text : Text) → All (λ c. is_whitespace c ≡ true) text → HasNoComma text
unfolding is_whitespace
blank_no_comma [] h = record {}
blank_no_comma (c ∷ text) (h, hs) = (λ e. ground arith, blank_no_comma text hs)

plain_no_comma : (text : Text) → All IsPlain text → HasNoComma text
plain_no_comma [] h = record {}
plain_no_comma (c ∷ text) ((w, plain), hs) = (plain, plain_no_comma text hs)

token-HasNoComma : (token : Token) → IsToken token → HasNoComma (text_of token)
token-HasNoComma token h =
    let (chars, long) = IsOneOf-All IsName h.name _ h.named (names_of-IsName token.engine) in
    All-append (λ c. c ≢ 44) token.before _ (blank_no_comma token.before h.before)
      (All-append (λ c. c ≢ 44) token.word token.after
        (plain_no_comma token.word (word_chars h.name token.word chars h.written))
        (blank_no_comma token.after h.after))

split_comma-cons : (text : Text) → (t : Text) × (ts : List Text) × (split_comma text ≡ t ∷ ts)
unfolding split_comma
split_comma-cons [] = ([], [], refl)
split_comma-cons (c ∷ text) =
    let (t, ts, e) = split_comma-cons text in
    elim (Bool-cases (c == 44)) [
      | inl comma ↦ ([], t ∷ ts, rw (e, comma) refl)
      | inr other ↦ (c ∷ t, ts, rw (e, other) refl)
    ]

split_comma-one : (text : Text) → HasNoComma text → split_comma text ≡ text ∷ []
unfolding split_comma
split_comma-one [] h = refl
split_comma-one (c ∷ text) (h, hs) =
    let rest = split_comma-one text hs in
    let no_comma : (c == 44) ≡ false = ground arith in rw (rest, no_comma) refl

split_comma-more :
    (text rest : Text) → HasNoComma text → split_comma (text ++ 44 ∷ rest) ≡ text ∷ split_comma rest
unfolding split_comma
split_comma-more [] rest h = let (t, ts, e) = split_comma-cons rest in rw e refl
split_comma-more (c ∷ text) rest (h, hs) =
    let more = split_comma-more text rest hs in
    let no_comma : (c == 44) ≡ false = ground arith in rw (more, no_comma) refl

split_comma-join :
    (text : Text) (texts : List Text)
    → All HasNoComma (text ∷ texts)
    → split_comma (join (codes ",") (text ∷ texts)) ≡ text ∷ texts
unfolding join
split_comma-join text [] (h, hs) = split_comma-one text h
split_comma-join text (u ∷ texts) (h, hs) =
    ap split_comma (append_assoc text (codes ",") (join (codes ",") (u ∷ texts)))
    ∙ split_comma-more text (join (codes ",") (u ∷ texts)) h
    ∙ ap (◌∷◌ text) (split_comma-join u texts hs)

tokens-HasNoComma : (tokens : List Token) → All IsToken tokens → All HasNoComma (map text_of tokens)
tokens-HasNoComma [] h = record {}
tokens-HasNoComma (token ∷ tokens) (h, hs) = (token-HasNoComma token h, tokens-HasNoComma tokens hs)

tokens-providers_of :
    (tokens : List Token)
    → All IsToken tokens
    → providers_of (map text_of tokens) ≡ map (λ t. t.engine) tokens
unfolding providers_of
tokens-providers_of [] h = refl
tokens-providers_of (token ∷ tokens) (h, hs) =
    ap
      (λ o. elim o [
        | none ↦ providers_of (map text_of tokens)
        | some p ↦ p ∷ providers_of (map text_of tokens)
      ])
      (token-provider_of token h)
    ∙ ap (◌∷◌ token.engine) (tokens-providers_of tokens hs)

-- The written list names the tokens' engines.
pub providers_of-tokens :
    (token : Token) (tokens : List Token)
    → All IsToken (token ∷ tokens)
    → providers_of (split_comma (join (codes ",") (map text_of (token ∷ tokens))))
      ≡ map (λ t. t.engine) (token ∷ tokens)
providers_of-tokens token tokens h =
    ap providers_of
      (split_comma-join (text_of token) (map text_of tokens) (tokens-HasNoComma (token ∷ tokens) h))
    ∙ tokens-providers_of (token ∷ tokens) h
