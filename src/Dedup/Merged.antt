-- ===== src/Dedup/Merged.antt =====
-- What the merge makes of all hits (`merge_scored`, src/web/search/dedup.rs).
use web_agent_research.Prelude.{
  ◌≤◌, ◌≡◌, refl, sym, ap, ◌∙◌, ◌⊎◌, inl, inr, Bool, true, false, none, some, List, [], ◌∷◌, ◌++◌,
  append-nil, append_assoc, arith, Text, text_eq, text_eq_iff, is_blank, if◌then◌else◌, if_true,
  if_false, Bool-cases, Option-cases, length, All,
}
use mathlib.Core.Path.{subst}
use web_agent_research.Search.{MergedResult}
use web_agent_research.Dedup.{
  byte_length, SearchResult, Group, grow, lookup, key_of, fold_row, fold_rows, grouped,
}
use web_agent_research.Dedup.Groups.{Row, Any, Each, IsMergeOf, Stands, lookup-put, grow-Stands}
use web_agent_research.Dedup.Legs.{
  count, count_of, AnyOf, sorted, Each-sorted, Any-sorted, count-sorted,
}

module _ (dedup_key : Text → Text) where
  abbrev pub has_key : Text → SearchResult → Bool
  has_key key row = text_eq (dedup_key row.url) key

  abbrev rows_at : Text → List Row → List Row
  rows_at key [] = []
  rows_at key (row ∷ rows) =
      let rest = rows_at key rows in if has_key key row.1 then row ∷ rest else rest

  blank-≢ :
      (key other : Text) → is_blank key ≡ false → is_blank other ≡ true → text_eq other key ≡ false
  blank-≢ key other shows blank = elim (Bool-cases (text_eq other key)) [
    | inl e ↦ let same = ap is_blank ((text_eq_iff other key).0 e) in absurd (ground arith)
    | inr e ↦ e
  ]

  fold_row-Stands :
      (key : Text) (done : List Row) (row : Row) (groups : List (Text × Group))
      → is_blank key ≡ false
      → Stands key done (lookup key groups)
      → Stands key (done ++ rows_at key (row ∷ [])) (lookup key (fold_row dedup_key groups row))
  fold_row-Stands key done row groups shows h =
      elim (Bool-cases (is_blank (key_of dedup_key row))) [
        | inl blank ↦ rw (blank, blank-≢ key (key_of dedup_key row) shows blank, append-nil done) h
        | inr e ↦ elim (Bool-cases (has_key key row.1)) [
          | inl same ↦
              rw (e, lookup-put key (key_of dedup_key row) _ groups, same)
                (subst (λ k. IsMergeOf key (done ++ row ∷ []) (grow k row (lookup k groups)).merged)
                  (sym ((text_eq_iff (key_of dedup_key row) key).0 same))
                  (grow-Stands key done (lookup key groups) row h))
          | inr other ↦
              rw (e, lookup-put key (key_of dedup_key row) _ groups, other, append-nil done) h
        ]
      ]

  rows_at-cons :
      (test : Bool) (row : Row) (rows : List Row)
      → (if test then row ∷ [] else []) ++ rows ≡ (if test then row ∷ rows else rows)
  rows_at-cons true row rows = refl
  rows_at-cons false row rows = refl

  fold_rows-Stands :
      (key : Text) (rows done : List Row) (groups : List (Text × Group))
      → is_blank key ≡ false
      → Stands key done (lookup key groups)
      → Stands key (done ++ rows_at key rows) (lookup key (fold_rows dedup_key groups rows))
  unfolding fold_rows
  fold_rows-Stands key [] done groups shows h = rw (append-nil done) h
  fold_rows-Stands key (row ∷ rows) done groups shows h =
      let here = rows_at key (row ∷ []) in
      subst
        (λ l. Stands key l (lookup key (fold_rows dedup_key (fold_row dedup_key groups row) rows)))
        (append_assoc done here (rows_at key rows)
          ∙ ap (λ l. done ++ l) (rows_at-cons (has_key key row.1) row (rows_at key rows)))
        (fold_rows-Stands key rows (done ++ here) (fold_row dedup_key groups row) shows
          (fold_row-Stands key done row groups shows h))

  Each-rows_at :
      (P : SearchResult → Type 0) (key : Text) (rows : List Row)
      → Each P (rows_at key rows)
      → Each (λ row. has_key key row ≡ true → P row) rows
  Each-rows_at P key [] h = record {}
  Each-rows_at P key (row ∷ rows) h = elim (Bool-cases (has_key key row.1)) [
    | inl e ↦
        let both : Each P (row ∷ rows_at key rows) = subst (Each P) (if_true _ _ e) h in
        ((λ t. both.0), Each-rows_at P key rows both.1)
    | inr e ↦
        ((λ t. absurd (ground arith)), Each-rows_at P key rows (subst (Each P) (if_false _ _ e) h))
  ]

  Any-rows_at :
      (P : SearchResult → Type 0) (key : Text) (rows : List Row)
      → Any P (rows_at key rows)
      → Any (λ row. (has_key key row ≡ true) × P row) rows
  Any-rows_at P key [] h = elim h [ ]
  Any-rows_at P key (row ∷ rows) h = elim (Bool-cases (has_key key row.1)) [
    | inl e ↦
        let either : Any P (row ∷ rows_at key rows) = subst (Any P) (if_true _ _ e) h in
        elim either [ inl p ↦ inl (e, p) | inr q ↦ inr (Any-rows_at P key rows q) ]
    | inr e ↦ inr (Any-rows_at P key rows (subst (Any P) (if_false _ _ e) h))
  ]

  length-rows_at :
      (key : Text) (rows : List Row) → length (rows_at key rows) ≡ count (has_key key) rows
  length-rows_at key [] = refl
  length-rows_at key (row ∷ rows) = ground (arith, length-rows_at key rows)

  -- A merged result stands for the hits of its key: it counts them, has the best of their ranks, shows
  -- the title and the URL of one that has that rank, and a snippet no shorter than any of theirs.
  pub record IsMerged (key : Text) (results : List SearchResult) (m : MergedResult) : Type 0 where
    pub canonical : m.canonical_url ≡ key
    pub hits : m.hit_count ≡ count_of (has_key key) results
    pub best : All (λ row. has_key key row ≡ true → m.best_rank ≤ row.rank) results
    pub shown :
        AnyOf
          (λ row.
            (has_key key row ≡ true)
            × ((row.rank ≡ m.best_rank) × ((row.url ≡ m.display_url) × (row.title ≡ m.title))))
          results
    pub longest :
        All
          (λ row. has_key key row ≡ true → byte_length row.snippet ≤ byte_length m.snippet)
          results

  count_of-AnyOf :
      (key : Text) (Q : SearchResult → Type 0) (results : List SearchResult)
      → AnyOf (λ row. (has_key key row ≡ true) × Q row) results
      → 1 ≤ count_of (has_key key) results
  count_of-AnyOf key Q [] h = elim h [ ]
  count_of-AnyOf key Q (row ∷ results) (inl (e, q)) = rw e (omega arith)
  count_of-AnyOf key Q (row ∷ results) (inr h) = omega (arith, count_of-AnyOf key Q results h)

  IsMergeOf-IsMerged :
      (key : Text) (results : List SearchResult) (queries : List Text) (m : MergedResult)
      → IsMergeOf key (rows_at key (sorted queries results [] [])) m
      → IsMerged key results m
  IsMergeOf-IsMerged key results queries m h =
      let all = sorted queries results [] [] in
      let counted = count-sorted queries (has_key key) results [] [] in
      record {
        canonical = h.canonical;
        hits = h.hits ∙ length-rows_at key all ∙ counted ∙ omega arith;
        best = (Each-sorted queries _ results [] [] (Each-rows_at _ key all h.best)).0;
        shown = elim (Any-sorted queries _ results [] [] (Any-rows_at _ key all h.shown)) [
          | inl p ↦ p
          | inr q ↦ elim q [ ]
        ];
        longest = (Each-sorted queries _ results [] [] (Each-rows_at _ key all h.longest)).0;
      }

  -- For every key that is not blank: the merge has no group for it exactly when no hit has it, and
  -- otherwise one whose result stands for all hits of the key, of whatever engine and query.
  pub grouped-IsMerged :
      (results : List SearchResult) (queries : List Text) (key : Text)
      → is_blank key ≡ false
      → ((lookup key (grouped dedup_key results queries) ≡ none)
          × (count_of (has_key key) results ≡ 0))
        ⊎ ((g : Group) × ((lookup key (grouped dedup_key results queries) ≡ some g)
              × ((1 ≤ count_of (has_key key) results) × IsMerged key results g.merged)))
  unfolding grouped
  grouped-IsMerged results queries key shows =
      let all = sorted queries results [] [] in
      let stands : Stands key (rows_at key all) (lookup key (fold_rows dedup_key [] all)) =
        fold_rows-Stands key all [] [] shows refl in
      elim (Option-cases (lookup key (fold_rows dedup_key [] all))) [
        | inl e ↦
            let none_left : rows_at key all ≡ [] = subst (Stands key (rows_at key all)) e stands in
            let counted = count-sorted queries (has_key key) results [] [] in
            let size = length-rows_at key all in
            let empty = ap length none_left in inl (e, omega arith)
        | inr (g, e) ↦
            let merge : IsMergeOf key (rows_at key all) g.merged =
              subst (Stands key (rows_at key all)) e stands in
            let merged = IsMergeOf-IsMerged key results queries g.merged merge in
            inr (g, (e, (count_of-AnyOf key _ results merged.shown, merged)))
      ]
