-- ===== src/Config/Engines.antt =====
-- The engines that `SEARCH_ENGINES` enables (src/web/search/governor/config.rs).
use web_agent_research.Prelude.{
  [], All, Bool-cases, length, ◌<◌, ◌≡◌, refl, false, ◌||◌, List, ◌∷◌, arith, ◌==◌, ◌∙◌, ◌≤◌, inl,
  inr,
}
use web_agent_research.Search.{SearchProvider, priority}
use web_agent_research.Config.{
  insert, sort, has, retain_first, Env, enabled_providers, named_providers, sorted_or_default,
  default_providers,
}

-- In priority order, each engine once.
abbrev pub IsAscending : List SearchProvider → Type 0
IsAscending [] = Unit
IsAscending (p ∷ []) = Unit
IsAscending (p ∷ q ∷ qs) = (priority p < priority q) × IsAscending (q ∷ qs)

has-insert :
    (p q : SearchProvider) (qs : List SearchProvider)
    → has p (insert q qs) ≡ (priority p == priority q || has p qs)
unfolding insert
has-insert p q [] = refl
has-insert p q (r ∷ rs) = ground (arith, has-insert p q rs)

pub has-sort : (p : SearchProvider) (ps : List SearchProvider) → has p (sort ps) ≡ has p ps
has-sort p [] = refl
has-sort p (q ∷ qs) = rw (has-insert p q (sort qs), has-sort p qs)

insert-IsAscending :
    (p : SearchProvider) (qs : List SearchProvider)
    → has p qs ≡ false
    → IsAscending qs
    → IsAscending (insert p qs)
unfolding insert
insert-IsAscending p [] h a = tt
insert-IsAscending p (q ∷ []) h a = ground arith
insert-IsAscending p (q ∷ r ∷ rs) h (lt, a) = ground (arith, insert-IsAscending p (r ∷ rs))

-- No engine twice.
abbrev Unique : List SearchProvider → Type 0
Unique [] = Unit
Unique (p ∷ ps) = (has p ps ≡ false) × Unique ps

abbrev Unseen : List SearchProvider → List SearchProvider → Type 0
Unseen seen = All (λ q. has q seen ≡ false)

Unseen-cons :
    (p : SearchProvider) (seen l : List SearchProvider) → Unseen (p ∷ seen) l → Unseen seen l
Unseen-cons p seen [] h = tt
Unseen-cons p seen (q ∷ qs) (h, hs) = (ground arith, Unseen-cons p seen qs hs)

has-Unseen :
    (p : SearchProvider) (seen l : List SearchProvider) → Unseen (p ∷ seen) l → has p l ≡ false
has-Unseen p seen [] h = refl
has-Unseen p seen (q ∷ qs) (h, hs) = ground (arith, has-Unseen p seen qs hs)

retain_first-Unique :
    (seen ps : List SearchProvider)
    → Unseen seen (retain_first seen ps) × Unique (retain_first seen ps)
unfolding retain_first
retain_first-Unique seen [] = (tt, tt)
retain_first-Unique seen (p ∷ ps) = elim (Bool-cases (has p seen)) [
  | inl e ↦ rw e (retain_first-Unique seen ps)
  | inr e ↦
      let (unseen, unique) = retain_first-Unique (p ∷ seen) ps in
      rw e ((e, Unseen-cons p seen _ unseen), (has-Unseen p seen _ unseen, unique))
]

length-insert : (p : SearchProvider) (qs : List SearchProvider) → 1 ≤ length (insert p qs)
unfolding insert
length-insert p [] = omega arith
length-insert p (q ∷ qs) = ground arith

sort-IsAscending : (ps : List SearchProvider) → Unique ps → IsAscending (sort ps)
sort-IsAscending [] h = tt
sort-IsAscending (p ∷ ps) (h, hs) =
    insert-IsAscending p (sort ps) (has-sort p ps ∙ h) (sort-IsAscending ps hs)

sorted_or_default-IsAscending :
    (ps : List SearchProvider)
    → Unique ps
    → IsAscending (sorted_or_default ps) × (1 ≤ length (sorted_or_default ps))
unfolding sorted_or_default default_providers priority
sorted_or_default-IsAscending [] h = omega arith
sorted_or_default-IsAscending (p ∷ ps) h = (sort-IsAscending (p ∷ ps) h, length-insert p (sort ps))

-- The enabled engines are never empty, stand in priority order, and none stands twice, whatever
-- `SEARCH_ENGINES` holds.
pub enabled_providers-IsAscending :
    (env : Env) → IsAscending (enabled_providers env) × (1 ≤ length (enabled_providers env))
enabled_providers-IsAscending env =
    unfold enabled_providers in
    sorted_or_default-IsAscending _ (retain_first-Unique [] (named_providers env)).1
