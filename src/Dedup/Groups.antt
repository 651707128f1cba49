-- ===== src/Dedup/Groups.antt =====
-- Each group stands for the hits of its key (`merge_scored`, src/web/search/dedup.rs).
use web_agent_research.Prelude.{
  sym, ◌∙◌, ap, not, ◌&&◌, is_empty, ltb→lt, ℕ, ◌≤◌, ◌≡◌, refl, sym, ap, ◌∙◌, ◌⊎◌, inl, inr, Bool,
  true, false, not, ◌&&◌, Option, none, some, List, [], ◌∷◌, ◌++◌, arith, Text, is_empty, text_eq,
  text_eq_iff, ltb, if◌then◌else◌, ltb→lt, Bool-cases, length, length-append,
}
use mathlib.Core.Path.{subst}
use web_agent_research.Search.{MergedResult}
use web_agent_research.Dedup.{
  SearchResult, Leg, Group, byte_length, merge_result, new_group, grow, lookup, put,
}

abbrev pub Row : Type 0
Row = Leg × SearchResult

if_nested :
    (b : Bool) (x y z : Option Group)
    → (if b then x else z) ≡ (if b then x else (if b then y else z))
if_nested true x y z = refl
if_nested false x y z = refl

-- A key that is not `i`, where `i` is `k`.
text_eq-false : (i j k : Text) → text_eq i j ≡ false → text_eq i k ≡ true → text_eq j k ≡ false
text_eq-false i j k e t = elim (Bool-cases (text_eq j k)) [
  | inl x ↦
      let back = (text_eq_iff i j).1 ((text_eq_iff i k).0 t ∙ sym ((text_eq_iff j k).0 x)) in
      absurd (ground arith)
  | inr f ↦ f
]

pub lookup-put :
    (k j : Text) (g : Group) (groups : List (Text × Group))
    → lookup k (put j g groups) ≡ (if text_eq j k then some g else lookup k groups)
lookup-put k j g [] = refl
lookup-put k j g ((i, old) ∷ groups) = elim (Bool-cases (text_eq i j)) [
  | inl e ↦
      let same : text_eq i k ≡ text_eq j k = ap (λ t. text_eq t k) ((text_eq_iff i j).0 e) in
      rw (e, same) (if_nested (text_eq j k) (some g) (some old) (lookup k groups))
  | inr e ↦ elim (Bool-cases (text_eq i k)) [
    | inl t ↦ rw (e, t, text_eq-false i j k e t) refl
    | inr f ↦ rw (e, f) (lookup-put k j g groups)
  ]
]

abbrev pub Any : (SearchResult → Type 0) → List Row → Type 0
Any P [] = ⊥
Any P ((leg, row) ∷ rows) = P row ⊎ Any P rows

abbrev pub Each : (SearchResult → Type 0) → List Row → Type 0
Each P [] = Unit
Each P ((leg, row) ∷ rows) = P row × Each P rows

Any-left : (P : SearchResult → Type 0) (a b : List Row) → Any P a → Any P (a ++ b)
Any-left P [] b h = elim h [ ]
Any-left P (r ∷ a) b (inl h) = inl h
Any-left P (r ∷ a) b (inr h) = inr (Any-left P a b h)

Any-right : (P : SearchResult → Type 0) (a b : List Row) → Any P b → Any P (a ++ b)
Any-right P [] b h = h
Any-right P (r ∷ a) b h = inr (Any-right P a b h)

Each-append :
    (P Q : SearchResult → Type 0) (a : List Row) (r : Row)
    → ((row : SearchResult) → P row → Q row)
    → Each P a
    → Q r.1
    → Each Q (a ++ r ∷ [])
Each-append P Q [] r f h q = (q, record {})
Each-append P Q (x ∷ a) r f (h, hs) q = (f x.1 h, Each-append P Q a r f hs q)

empty_length : (s : Text) → is_empty s ≡ true → byte_length s ≡ 0
empty_length [] e = refl
empty_length (c ∷ s) e = ground arith

-- A merged result and the rows that it stands for.
pub record IsMergeOf (key : Text) (rows : List Row) (m : MergedResult) : Type 0 where
  pub canonical : m.canonical_url ≡ key
  pub hits : m.hit_count ≡ length rows
  pub best : Each (λ row. m.best_rank ≤ row.rank) rows
  pub shown :
      Any
        (λ row. (row.rank ≡ m.best_rank) × ((row.url ≡ m.display_url) × (row.title ≡ m.title)))
        rows
  pub longest : Each (λ row. byte_length row.snippet ≤ byte_length m.snippet) rows

ltb-false : (a b : ℕ) → ltb a b ≡ false → b ≤ a
ltb-false a b h = ground arith

module _ (row : SearchResult) (m : MergedResult) where
  best_rank_le : (r : SearchResult) → m.best_rank ≤ r.rank → (merge_result row m).best_rank ≤ r.rank
  best_rank_le r h = ground arith

  best_rank_row : (merge_result row m).best_rank ≤ row.rank
  best_rank_row = ground arith

  abbrev IsShown : Bool → SearchResult → Type 0
  IsShown better r =
      (r.rank ≡ (if better then row.rank else m.best_rank))
      × ((r.url ≡ (if better then row.url else m.display_url))
          × (r.title ≡ (if better then row.title else m.title)))

  IsShown-by :
      (rows : List Row) (leg : Leg) (better : Bool)
      → Any (IsShown false) rows
      → Any (IsShown better) (rows ++ (leg, row) ∷ [])
  IsShown-by rows leg true h = Any-right (IsShown true) rows _ (inl (refl, (refl, refl)))
  IsShown-by rows leg false h = Any-left (IsShown false) rows _ h

  snippet_le :
      (empty longer : Bool) (n : ℕ)
      → (empty ≡ true → byte_length row.snippet ≡ 0)
      → longer ≡ ltb (byte_length m.snippet) (byte_length row.snippet)
      → (n ≤ byte_length m.snippet) ⊎ (n ≡ byte_length row.snippet)
      → n ≤ byte_length (if not empty && longer then row.snippet else m.snippet)
  snippet_le true longer n e l (inl h) = h
  snippet_le true longer n e l (inr h) = omega (arith, e refl)
  snippet_le false true n e l (inl h) =
      let lt = ltb→lt (byte_length m.snippet) (byte_length row.snippet) (sym l) in omega arith
  snippet_le false true n e l (inr h) = omega arith
  snippet_le false false n e l (inl h) = h
  snippet_le false false n e l (inr h) =
      rw h (ltb-false (byte_length m.snippet) (byte_length row.snippet) (sym l))

  merge_result-IsMergeOf :
      (key : Text) (rows : List Row) (leg : Leg)
      → IsMergeOf key rows m
      → IsMergeOf key (rows ++ (leg, row) ∷ []) (merge_result row m)
  merge_result-IsMergeOf key rows leg h =
      let size = length-append rows ((leg, row) ∷ []) in
      let hits = h.hits in
      let longer = ltb (byte_length m.snippet) (byte_length row.snippet) in
      record {
        canonical = h.canonical;
        hits = omega arith;
        best =
            Each-append (λ r. m.best_rank ≤ r.rank) _ rows (leg, row) best_rank_le h.best
              best_rank_row;
        shown = IsShown-by rows leg (ltb row.rank m.best_rank) h.shown;
        longest =
            Each-append (λ r. byte_length r.snippet ≤ byte_length m.snippet) _ rows (leg, row)
              (λ r le.
                snippet_le (is_empty row.snippet) longer (byte_length r.snippet)
                  (empty_length row.snippet) refl (inl le))
              h.longest
              (snippet_le (is_empty row.snippet) longer (byte_length row.snippet)
                (empty_length row.snippet) refl (inr refl));
      }

-- A group, if there is one, stands for the rows so far.
abbrev pub Stands : Text → List Row → Option Group → Type 0
Stands key rows none = rows ≡ []
Stands key rows (some g) = IsMergeOf key rows g.merged

pub grow-Stands :
    (key : Text) (rows : List Row) (o : Option Group) (row : Row)
    → Stands key rows o
    → IsMergeOf key (rows ++ row ∷ []) (grow key row o).merged
grow-Stands key rows none (leg, row) h =
    subst (λ l. IsMergeOf key (l ++ (leg, row) ∷ []) (new_group key leg row).merged) (sym h)
      (record {
        canonical = refl;
        hits = refl;
        best = (omega arith, record {});
        shown = inl (refl, (refl, refl));
        longest = (omega arith, record {});
      })
grow-Stands key rows (some g) (leg, row) h = merge_result-IsMergeOf row g.merged key rows leg h
