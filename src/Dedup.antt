-- ===== src/Dedup.antt =====
-- src/web/search/dedup.rs: raw hits of all legs folded into one result for each URL identity.
-- `dedup_key`, which rests on the `url` crate, and the arithmetic on floating point numbers (the score
-- of a group and its order) are parameters. A map is an association list; the order of its values is
-- left to the sort that follows.
pub mod Groups
pub mod Legs
pub mod Merged
use web_agent_research.Prelude.{
  ℕ, zero, suc, ◌+◌, ◌-◌, ◌*◌, ◌/◌, ◌%◌, ◌^◌, ◌≤◌, ◌<◌, min, max, ◌≡◌, refl, sym, ap, ◌∙◌, ◌≢◌, ◌↔◌,
  ◌⊎◌, inl, inr, Bool, true, false, not, ◌&&◌, ◌||◌, Option, none, some, [], ◌∷◌, ◌++◌, map,
  append-nil, append_assoc, arith, Text, codes, is_empty, text_eq, text_eq_iff, contains, join,
  is_whitespace, is_blank, show, ltb, leb, ◌==◌, if◌then◌else◌, ltb→lt, lt→ltb, leb→le, if_true,
  if_false, ==_iff, Bool-cases, Option-cases, length, take, drop, get_elem?, length-append,
  take-append-drop, length-take, length-drop, length-map, concat, All, All-append, List,
}
use web_agent_research.Search.{SearchProvider, priority, MergedResult}

pub record SearchResult : Type 0 where
  pub title : Text
  pub url : Text
  pub snippet : Text
  pub provider : SearchProvider
  pub query : Text
  pub rank : ℕ
  pub published_date : Option Text

-- A leg's engine priority and query index.
pub record Leg : Type 0 where
  pub engine : ℕ
  pub query_index : ℕ

-- The weights of the legs are 2 for a vertical and 1 for a general engine.
pub record Group : Type 0 where
  pub merged : MergedResult
  pub leg_ranks : List (ℕ × ℕ)
  pub last_leg : Leg

unfoldable pub leg_weight : SearchProvider → ℕ
leg_weight SearchProvider.crates_io = 2
leg_weight _ = 1

-- `position`
abbrev pub position : Text → List Text → Option ℕ
position q [] = none
position q (t ∷ ts) =
    if text_eq t q then some 0 else elim (position q ts) [ none ↦ none | some i ↦ some (suc i) ]

-- The index of a query that is not an input: the order in which it was first seen.
abbrev fallback_index : ℕ → Text → List Text → Option ℕ → ℕ × List Text
fallback_index size q seen (some i) = (size + i, seen)
fallback_index size q seen none = (size + length seen, seen ++ q ∷ [])

abbrev pub query_index_of : List Text → Text → List Text → Option ℕ → ℕ × List Text
query_index_of queries q seen (some i) = (i, seen)
query_index_of queries q seen none = fallback_index (length queries) q seen (position q seen)

abbrev pub leg_eq : Leg → Leg → Bool
leg_eq a b = a.engine == b.engine && a.query_index == b.query_index

abbrev leg_before : Leg → Leg → Bool
leg_before a b = ltb a.engine b.engine || (a.engine == b.engine && ltb a.query_index b.query_index)

-- The legs in ascending order, each with its rows in order of arrival.
abbrev pub add_row :
    Leg → SearchResult → List (Leg × List SearchResult) → List (Leg × List SearchResult)
add_row leg row [] = (leg, row ∷ []) ∷ []
add_row leg row ((other, rows) ∷ legs) =
    if leg_eq leg other
    then (other, rows ++ row ∷ []) ∷ legs
    else if leg_before leg other
    then (leg, row ∷ []) ∷ (other, rows) ∷ legs
    else (other, rows) ∷ add_row leg row legs

unfoldable pub group_legs :
    List Text
    → List SearchResult
    → List Text
    → List (Leg × List SearchResult)
    → List (Leg × List SearchResult)
unfolding text_eq
group_legs queries [] seen legs = legs
group_legs queries (row ∷ rows) seen legs =
    let (index, seen') = query_index_of queries row.query seen (position row.query queries) in
    group_legs queries rows seen'
      (add_row (record { engine = priority row.provider; query_index = index }) row legs)

abbrev pub leg_rows : Leg → List SearchResult → List (Leg × SearchResult)
leg_rows leg [] = []
leg_rows leg (row ∷ rows) = (leg, row) ∷ leg_rows leg rows

abbrev pub in_order : List (Leg × List SearchResult) → List (Leg × SearchResult)
in_order [] = []
in_order ((leg, rows) ∷ legs) = leg_rows leg rows ++ in_order legs

-- `str::len`, in bytes of UTF-8.
abbrev pub byte_length : Text → ℕ
byte_length [] = 0
byte_length (c ∷ s) =
    (if ltb c 128 then 1 else if ltb c 2048 then 2 else if ltb c 65536 then 3 else 4)
    + byte_length s

abbrev has_provider : SearchProvider → List SearchProvider → Bool
has_provider p [] = false
has_provider p (q ∷ ps) = priority p == priority q || has_provider p ps

-- A push and a sort by priority of a list that is sorted.
abbrev insert_provider : SearchProvider → List SearchProvider → List SearchProvider
insert_provider p [] = p ∷ []
insert_provider p (q ∷ ps) =
    if ltb (priority p) (priority q) then p ∷ q ∷ ps else q ∷ insert_provider p ps

abbrev add_provider : SearchProvider → List SearchProvider → List SearchProvider
add_provider p ps = if has_provider p ps then ps else insert_provider p ps

-- The order of texts, by their characters.
abbrev pub text_before : Text → Text → Bool
text_before [] [] = false
text_before [] (d ∷ t) = true
text_before (c ∷ s) [] = false
text_before (c ∷ s) (d ∷ t) = ltb c d || (c == d && text_before s t)

abbrev insert_query : Text → List Text → List Text
insert_query q [] = q ∷ []
insert_query q (t ∷ ts) = if text_before q t then q ∷ t ∷ ts else t ∷ insert_query q ts

abbrev add_query : Text → List Text → List Text
add_query q qs = if contains qs q then qs else insert_query q qs

-- The last leg takes the better rank.
abbrev better_last : ℕ → List (ℕ × ℕ) → List (ℕ × ℕ)
better_last rank [] = []
better_last rank ((best, weight) ∷ []) = (min best rank, weight) ∷ []
better_last rank (a ∷ b ∷ ranks) = a ∷ better_last rank (b ∷ ranks)

abbrev or_date : Option Text → Option Text → Option Text
or_date none date = date
or_date (some old) date = some old

abbrev pub merge_result : SearchResult → MergedResult → MergedResult
merge_result row m =
    let better = ltb row.rank m.best_rank in
    let longer =
      not (is_empty row.snippet) && ltb (byte_length m.snippet) (byte_length row.snippet) in
    record {
      title = if better then row.title else m.title;
      canonical_url = m.canonical_url;
      display_url = if better then row.url else m.display_url;
      snippet = if longer then row.snippet else m.snippet;
      providers = add_provider row.provider m.providers;
      queries = add_query row.query m.queries;
      best_rank = if better then row.rank else m.best_rank;
      hit_count = m.hit_count + 1;
      published_date = or_date m.published_date row.published_date;
    }

abbrev pub merge_row : Leg → SearchResult → Group → Group
merge_row leg row g = record {
  merged = merge_result row g.merged;
  leg_ranks =
      if leg_eq g.last_leg leg
      then better_last row.rank g.leg_ranks
      else g.leg_ranks ++ (row.rank, leg_weight row.provider) ∷ [];
  last_leg = leg;
}

abbrev pub new_group : Text → Leg → SearchResult → Group
new_group key leg row = record {
  merged = record {
    title = row.title;
    canonical_url = key;
    display_url = row.url;
    snippet = row.snippet;
    providers = row.provider ∷ [];
    queries = row.query ∷ [];
    best_rank = row.rank;
    hit_count = 1;
    published_date = row.published_date;
  };
  leg_ranks = (row.rank, leg_weight row.provider) ∷ [];
  last_leg = leg;
}

abbrev pub grow : Text → Leg × SearchResult → Option Group → Group
grow key (leg, row) none = new_group key leg row
grow key (leg, row) (some g) = merge_row leg row g

abbrev pub lookup : Text → List (Text × Group) → Option Group
lookup key [] = none
lookup key ((k, g) ∷ groups) = if text_eq k key then some g else lookup key groups

abbrev pub put : Text → Group → List (Text × Group) → List (Text × Group)
put key g [] = (key, g) ∷ []
put key g ((k, old) ∷ groups) =
    if text_eq k key then (k, g) ∷ groups else (k, old) ∷ put key g groups

module _ (dedup_key : Text → Text) where
  abbrev pub key_of : Leg × SearchResult → Text
  key_of (leg, row) = dedup_key row.url

  abbrev pub fold_row : List (Text × Group) → Leg × SearchResult → List (Text × Group)
  fold_row groups row =
      if is_blank (key_of row)
      then groups
      else put (key_of row) (grow (key_of row) row (lookup (key_of row) groups)) groups

  unfoldable pub fold_rows : List (Text × Group) → List (Leg × SearchResult) → List (Text × Group)
  unfolding text_eq is_blank contains leg_weight priority
  fold_rows groups [] = groups
  fold_rows groups (row ∷ rows) = fold_rows (fold_row groups row) rows

  unfoldable pub grouped : List SearchResult → List Text → List (Text × Group)
  unfolding fold_rows group_legs
  grouped results queries = fold_rows [] (in_order (group_legs queries results [] []))
