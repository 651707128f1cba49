-- ===== src/Dedup/Legs.antt =====
-- Sorting hits into legs keeps them all (`merge_scored`, src/web/search/dedup.rs).
use web_agent_research.Prelude.{
  ℕ, ◌+◌, ◌≡◌, refl, sym, ◌∙◌, ◌⊎◌, inl, inr, Bool, List, [], ◌∷◌, ◌++◌, append_assoc, arith, Text,
  if◌then◌else◌, Bool-cases, All, ap,
}
use mathlib.Core.Path.{subst}
use web_agent_research.Search.{priority}
use web_agent_research.Dedup.{
  SearchResult, Leg, leg_eq, add_row, leg_rows, in_order, group_legs, query_index_of, position,
  leg_before,
}
use web_agent_research.Dedup.Groups.{Row, Any, Each}

-- `rows` is `old` with a row put in.
pub record IsAdded (row : SearchResult) (old rows : List Row) : Type 0 where
  pub front : List Row
  pub back : List Row
  pub leg : Leg
  pub old_rows : old ≡ front ++ back
  pub new_rows : rows ≡ front ++ (leg, row) ∷ back

leg_rows-append :
    (leg : Leg) (rows : List SearchResult) (row : SearchResult)
    → leg_rows leg (rows ++ row ∷ []) ≡ leg_rows leg rows ++ (leg, row) ∷ []
leg_rows-append leg [] row = refl
leg_rows-append leg (r ∷ rows) row = ap (◌∷◌ (leg, r)) (leg_rows-append leg rows row)

IsAdded-front :
    (row : SearchResult) (more old rows : List Row)
    → IsAdded row old rows
    → IsAdded row (more ++ old) (more ++ rows)
IsAdded-front row more old rows h = record {
  front = more ++ h.front;
  back = h.back;
  leg = h.leg;
  old_rows = ap (λ l. more ++ l) h.old_rows ∙ sym (append_assoc more h.front h.back);
  new_rows =
      ap (λ l. more ++ l) h.new_rows ∙ sym (append_assoc more h.front ((h.leg, row) ∷ h.back));
}

add_row-IsAdded :
    (leg : Leg) (row : SearchResult) (legs : List (Leg × List SearchResult))
    → IsAdded row (in_order legs) (in_order (add_row leg row legs))
add_row-IsAdded leg row [] = record {
  front = [];
  back = [];
  leg = leg;
  old_rows = refl;
  new_rows = refl;
}
add_row-IsAdded leg row ((other, rows) ∷ legs) = elim (Bool-cases (leg_eq leg other)) [
  | inl e ↦ rw e (record {
    front = leg_rows other rows;
    back = in_order legs;
    leg = other;
    old_rows = refl;
    new_rows =
        ap (λ l. l ++ in_order legs) (leg_rows-append other rows row)
        ∙ append_assoc (leg_rows other rows) ((other, row) ∷ []) (in_order legs);
  })
  | inr e ↦ elim (Bool-cases (leg_before leg other)) [
    | inl b ↦
        rw (e, b)
          (record {
            front = [];
            back = leg_rows other rows ++ in_order legs;
            leg = leg;
            old_rows = refl;
            new_rows = refl;
          })
    | inr a ↦ rw (e, a) (IsAdded-front row (leg_rows other rows) _ _ (add_row-IsAdded leg row legs))
  ]
]

Each-middle :
    (P : SearchResult → Type 0) (front back : List Row) (leg : Leg) (row : SearchResult)
    → Each P (front ++ (leg, row) ∷ back)
    → P row × Each P (front ++ back)
Each-middle P [] back leg row h = h
Each-middle P (r ∷ front) back leg row (h, hs) =
    let (p, rest) = Each-middle P front back leg row hs in (p, (h, rest))

Any-middle :
    (P : SearchResult → Type 0) (front back : List Row) (leg : Leg) (row : SearchResult)
    → Any P (front ++ (leg, row) ∷ back)
    → P row ⊎ Any P (front ++ back)
Any-middle P [] back leg row h = h
Any-middle P (r ∷ front) back leg row (inl h) = inr (inl h)
Any-middle P (r ∷ front) back leg row (inr h) = elim (Any-middle P front back leg row h) [
  | inl p ↦ inl p
  | inr q ↦ inr (inr q)
]

-- How many rows pass a test.
abbrev pub count : (SearchResult → Bool) → List Row → ℕ
count test [] = 0
count test ((leg, row) ∷ rows) = (if test row then 1 else 0) + count test rows

count-middle :
    (test : SearchResult → Bool) (front back : List Row) (leg : Leg) (row : SearchResult)
    → count test (front ++ (leg, row) ∷ back)
      ≡ (if test row then 1 else 0) + count test (front ++ back)
count-middle test [] back leg row = refl
count-middle test (r ∷ front) back leg row = omega (arith, count-middle test front back leg row)

-- The same of a list of hits.
abbrev pub AnyOf : (SearchResult → Type 0) → List SearchResult → Type 0
AnyOf P [] = ⊥
AnyOf P (row ∷ rows) = P row ⊎ AnyOf P rows

abbrev pub count_of : (SearchResult → Bool) → List SearchResult → ℕ
count_of test [] = 0
count_of test (row ∷ rows) = (if test row then 1 else 0) + count_of test rows

module _ (queries : List Text) where
  abbrev pub sorted : List SearchResult → List Text → List (Leg × List SearchResult) → List Row
  sorted results seen legs = in_order (group_legs queries results seen legs)

  abbrev leg_of : SearchResult → List Text → Leg
  leg_of row seen = record {
    engine = priority row.provider;
    query_index = (query_index_of queries row.query seen (position row.query queries)).0;
  }

  pub Each-sorted :
      (P : SearchResult → Type 0) (results : List SearchResult) (seen : List Text)
      (legs : List (Leg × List SearchResult))
      → Each P (sorted results seen legs)
      → All P results × Each P (in_order legs)
  unfolding group_legs
  Each-sorted P [] seen legs h = (record {}, h)
  Each-sorted P (row ∷ results) seen legs h =
      let (all, now) = Each-sorted P results _ _ h in
      let added = add_row-IsAdded _ row legs in
      let (here, before) =
        Each-middle P added.front added.back added.leg row (subst (Each P) added.new_rows now) in
      ((here, all), subst (Each P) (sym added.old_rows) before)

  pub Any-sorted :
      (P : SearchResult → Type 0) (results : List SearchResult) (seen : List Text)
      (legs : List (Leg × List SearchResult))
      → Any P (sorted results seen legs)
      → AnyOf P results ⊎ Any P (in_order legs)
  unfolding group_legs
  Any-sorted P [] seen legs h = inr h
  Any-sorted P (row ∷ results) seen legs h = elim (Any-sorted P results _ _ h) [
    | inl a ↦ inl (inr a)
    | inr b ↦
        let added = add_row-IsAdded (leg_of row seen) row legs in
        elim (Any-middle P added.front added.back added.leg row (subst (Any P) added.new_rows b)) [
          | inl p ↦ inl (inl p)
          | inr q ↦ inr (subst (Any P) (sym added.old_rows) q)
        ]
  ]

  pub count-sorted :
      (test : SearchResult → Bool) (results : List SearchResult) (seen : List Text)
      (legs : List (Leg × List SearchResult))
      → count test (sorted results seen legs) ≡ count_of test results + count test (in_order legs)
  unfolding group_legs
  count-sorted test [] seen legs = omega arith
  count-sorted test (row ∷ results) seen legs =
      let added = add_row-IsAdded (leg_of row seen) row legs in
      let later =
        count-sorted test results
          (query_index_of queries row.query seen (position row.query queries)).1
          (add_row (leg_of row seen) row legs) in
      let new = ap (count test) added.new_rows in
      let old = ap (count test) added.old_rows in
      omega (arith, count-middle test added.front added.back added.leg row)
