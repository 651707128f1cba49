-- ===== src/Registry/Store/Rows.antt =====
-- One row for each page in the Session (`execute` and `first_delivery_page`,
-- src/research/agent_loop/registry.rs and result.rs).
use web_agent_research.Prelude.{
  ℕ, zero, suc, ◌≡◌, refl, sym, ◌∙◌, ◌⊎◌, inl, inr, Bool, true, false, Option, none, some, List, [],
  ◌∷◌, ◌++◌, arith, Text, text_eq, text_eq_iff, if◌then◌else◌, if_true, Bool-cases, length,
  get_elem?, ap, if_false,
}
use mathlib.Core.Path.{subst}
use web_agent_research.ToolResult.{Evidence, ToolResult, first_delivery_page}
use web_agent_research.Registry.{StoredPage}
use web_agent_research.Registry.Store.{Store, lookup, set_page, new_page, store_page}
use web_agent_research.Registry.Store.Kept.{IsKept, key_differs, store_page-IsKept}
use web_agent_research.Registry.Store.Change.{Change, same, delivers, adds}

set_page-same :
    (n : ℕ) (old new : StoredPage) (pages : List StoredPage)
    → get_elem? pages n ≡ some old
    → new.page ≡ old.page
    → (i : ℕ) (p : StoredPage) → get_elem? (set_page n new pages) i ≡ some p
    → (q : StoredPage) × ((get_elem? pages i ≡ some q) × (q.page ≡ p.page))
set_page-same n old new [] e h i p f = ground arith
set_page-same zero old new (x ∷ pages) e h zero p f =
    let both : new ≡ p = ground arith in (old, (e, sym h ∙ ap (λ (y : StoredPage). y.page) both))
set_page-same zero old new (x ∷ pages) e h (suc i) p f = (p, (f, refl))
set_page-same (suc n) old new (x ∷ pages) e h zero p f = (p, (f, refl))
set_page-same (suc n) old new (x ∷ pages) e h (suc i) p f = set_page-same n old new pages e h i p f

set_page-here :
    (n : ℕ) (old new : StoredPage) (pages : List StoredPage)
    → get_elem? pages n ≡ some old
    → get_elem? (set_page n new pages) n ≡ some new
set_page-here n old new [] e = absurd (ground arith)
set_page-here zero old new (x ∷ pages) e = refl
set_page-here (suc n) old new (x ∷ pages) e = set_page-here n old new pages e

append-last :
    (pages : List StoredPage) (q : StoredPage) (i : ℕ) (p : StoredPage)
    → get_elem? (pages ++ q ∷ []) i ≡ some p
    → (get_elem? pages i ≡ some p) ⊎ ((i ≡ length pages) × (p ≡ q))
append-last [] q zero p e = inr (refl, ground arith)
append-last [] q (suc i) p e = absurd (ground arith)
append-last (x ∷ pages) q zero p e = inl e
append-last (x ∷ pages) q (suc i) p e = elim (append-last pages q i p e) [
  | inl f ↦ inl f
  | inr (at, is) ↦ inr (ap suc at, is)
]

module _ (dedup_key : Text → Text) where
  abbrev pub key_of : Evidence → Text
  key_of evidence = dedup_key evidence.source_url

  -- Every page is named by the key of its final URL, so no two pages have the same.
  abbrev pub IsNamed : Store → Type 0
  IsNamed s =
      (i : ℕ) (p : StoredPage)
      → get_elem? s.pages i ≡ some p
      → lookup (key_of p.page) s.fetched ≡ some i

  store_page-IsNamed :
      (s : Store) (requested : Text) (evidence : Evidence) (o : Option ℕ)
      → lookup requested s.fetched ≡ none
      → lookup (key_of evidence) s.fetched ≡ o
      → IsNamed s
      → IsNamed (store_page s requested (key_of evidence) evidence o).0
  store_page-IsNamed s requested evidence (some n) fresh e named i p f =
      if_false _ _ (key_differs requested (key_of p.page) i s.fetched fresh (named i p f))
      ∙ named i p f
  store_page-IsNamed s requested evidence none fresh e named i p f =
      elim (append-last s.pages (new_page evidence) i p f) [
        | inl old ↦
            if_false _ _ (key_differs requested (key_of p.page) i s.fetched fresh (named i p old))
            ∙ if_false _ _
                (key_differs (key_of evidence) (key_of p.page) i s.fetched e (named i p old))
            ∙ named i p old
        | inr (at, is) ↦
            let key : key_of p.page ≡ key_of evidence = ap (λ (y : StoredPage). key_of y.page) is in
            ap
              (λ k.
                lookup k
                  ((requested, length s.pages) ∷ (key_of evidence, length s.pages) ∷ s.fetched))
              key
            ∙ newest (text_eq requested (key_of evidence))
            ∙ ap some (sym at)
      ]
    where
      newest :
          (b : Bool)
          → (if b
              then some (length s.pages)
              else if text_eq (key_of evidence) (key_of evidence)
              then some (length s.pages)
              else lookup (key_of evidence) s.fetched)
            ≡ some (length s.pages)
      newest true = refl
      newest false = if_true _ _ ((text_eq_iff (key_of evidence) (key_of evidence)).1 refl)

  pub Change-IsNamed :
      (s : Store) (r : ToolResult) (s' : Store) → Change dedup_key s r s' → IsNamed s → IsNamed s'
  Change-IsNamed s r s' (same _ _ h) named = named
  Change-IsNamed s r s' (delivers _ _ i stored after _ e d is) named =
      subst IsNamed (sym is) (λ j p f.
        let (q, (g, text)) = set_page-same i stored after s.pages e d.same j p f in
        ap (λ x. lookup (key_of x) s.fetched) (sym text) ∙ named j q g)
  Change-IsNamed s r s' (adds _ _ requested evidence s1 _ fresh is later) named =
      Change-IsNamed s1 r s' later (
        subst IsNamed (sym is) (
          store_page-IsNamed s requested evidence (lookup (key_of evidence) s.fetched) fresh refl
            named))

  -- The page of this URL has not been delivered; it has.
  abbrev pub NotYet : Store → Evidence → Type 0
  NotYet s e =
      (i : ℕ) (p : StoredPage)
      → lookup (key_of e) s.fetched ≡ some i
      → get_elem? s.pages i ≡ some p
      → p.delivered ≡ false

  pub record HasRow (s : Store) (e : Evidence) : Type 0 where
    pub index : ℕ
    pub stored : StoredPage
    pub found : lookup (key_of e) s.fetched ≡ some index
    pub there : get_elem? s.pages index ≡ some stored
    pub seen : stored.delivered ≡ true

  pub IsKept-NotYet : (s s' : Store) (e : Evidence) → IsKept s s' → NotYet s' e → NotYet s e
  IsKept-NotYet s s' e k h i p f g =
      let (p', (g', (text, seen))) = k.pages i p g in
      let no = h i p' (k.keys _ i f) g' in
      elim (Bool-cases p.delivered) [
        | inl d ↦ let yes_ = seen d in absurd (ground arith)
        | inr d ↦ d
      ]

  pub Change-first :
      (s : Store) (r : ToolResult) (s' : Store) (e : Evidence)
      → Change dedup_key s r s'
      → IsNamed s
      → first_delivery_page r ≡ some e
      → NotYet s e × HasRow s' e
  Change-first s r s' e (same _ _ h) named f = absurd (ground arith)
  Change-first s r s' e (delivers _ _ i stored after _ at d is) named f =
      let (undone, (done, text)) = d.first e f in
      let found : lookup (key_of e) s.fetched ≡ some i =
        ap (λ x. lookup (key_of x) s.fetched) text ∙ named i stored at in
      (
        λ j p g h. undelivered i j stored p found g at h undone,
        subst (λ x. HasRow x e) (sym is)
            (record {
              index = i;
              stored = after;
              found = found;
              there = set_page-here i stored after s.pages at;
              seen = done;
            }),
      )
    where
      undelivered :
          (i j : ℕ) (stored p : StoredPage)
          → lookup (key_of e) s.fetched ≡ some i
          → lookup (key_of e) s.fetched ≡ some j
          → get_elem? s.pages i ≡ some stored
          → get_elem? s.pages j ≡ some p
          → stored.delivered ≡ false
          → p.delivered ≡ false
      undelivered i j stored p f g at h undone =
          let equal : i ≡ j = ground arith in
          let both : some stored ≡ some p = sym at ∙ ap (get_elem? s.pages) equal ∙ h in
          let is_p : stored ≡ p = ground arith in
          ap (λ (y : StoredPage). y.delivered) (sym is_p) ∙ undone
  Change-first s r s' e (adds _ _ requested evidence s1 _ fresh is later) named f =
      let step =
        store_page-IsKept s requested (key_of evidence) evidence
          (lookup (key_of evidence) s.fetched) fresh refl in
      let kept : IsKept s s1 = subst (IsKept s) (sym is) step in
      let named1 = subst IsNamed (sym is) (
        store_page-IsNamed s requested evidence (lookup (key_of evidence) s.fetched) fresh refl
          named) in
      let (not_yet, row) = Change-first s1 r s' e later named1 f in
      (IsKept-NotYet s s1 e kept not_yet, row)
