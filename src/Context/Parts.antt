-- ===== src/Context/Parts.antt =====
-- `page_parts` and `cap_evidence` (src/research/agent_loop/context.rs): what the parts of a page
-- add up to, how large they are and where they are cut.
use native.Mathlib.Nat.{suc-add, zero-add}
use web_agent_research.Prelude.{
  [], ℕ, zero, suc, ◌+◌, ◌-◌, ◌*◌, ◌/◌, ◌≤◌, ◌<◌, ◌≡◌, ◌⊎◌, inl, inr, refl, ap, ◌∙◌, max, Bool,
  true, false, some, List, ◌∷◌, ◌++◌, arith, Text, length, take, drop, get_elem?, concat,
  take-append-drop, length-take, length-drop, leb, ◌==◌, Bool-cases, Option-cases, append-nil,
  length-append, sym, leb→le,
}
use web_agent_research.Context.{rfind_newline, cut_at, parts_loop, page_parts}

unfoldable pub ends_with_newline : Text → Bool
ends_with_newline [] = false
ends_with_newline (c ∷ []) = c == 10
ends_with_newline (c ∷ d ∷ s) = ends_with_newline (d ∷ s)

-- A part that another one follows: cut at its full size, or behind a newline in the last tenth.
pub record IsCut (n : ℕ) (p : Text) : Type 0 where
  pub long : n - n / 10 ≤ length p
  pub fits : length p ≤ n
  pub at_line_end : (length p ≡ n) ⊎ (ends_with_newline p ≡ true)

-- At least one part; each but the last is cut, and the last one fits.
abbrev pub IsParts : ℕ → List Text → Type 0
IsParts n [] = ⊥
IsParts n (p ∷ []) = length p ≤ n
IsParts n (p ∷ q ∷ ps) = IsCut n p × IsParts n (q ∷ ps)

rfind_newline_lem : (s : Text) (i : ℕ) → rfind_newline s ≡ some i → get_elem? s i ≡ some 10
unfolding rfind_newline
rfind_newline_lem [] i h = ground arith
rfind_newline_lem (c ∷ s) zero h = ground arith
rfind_newline_lem (c ∷ s) (suc i) h = ground (arith, rfind_newline_lem s i)

get_elem?-bound : (s : Text) (i c : ℕ) → get_elem? s i ≡ some c → i < length s
get_elem?-bound [] i c h = ground arith
get_elem?-bound (x ∷ s) zero c h = omega arith
get_elem?-bound (x ∷ s) (suc i) c h = omega (arith, get_elem?-bound s i c h)

get_elem?-drop : (t i : ℕ) (s : Text) → get_elem? (drop t s) i ≡ get_elem? s (t + i)
get_elem?-drop zero i s = rw zero-add
get_elem?-drop (suc t) i [] = refl
get_elem?-drop (suc t) i (x ∷ s) = rw suc-add (get_elem?-drop t i s)

get_elem?-take : (n i c : ℕ) (s : Text) → get_elem? (take n s) i ≡ some c → get_elem? s i ≡ some c
get_elem?-take zero i c s h = ground arith
get_elem?-take (suc n) i c [] h = h
get_elem?-take (suc n) zero c (x ∷ s) h = h
get_elem?-take (suc n) (suc i) c (x ∷ s) h = get_elem?-take n i c s h

ends_with_newline-take :
    (i : ℕ) (s : Text) → get_elem? s i ≡ some 10 → ends_with_newline (take (suc i) s) ≡ true
unfolding ends_with_newline
ends_with_newline-take i [] h = ground arith
ends_with_newline-take zero (x ∷ s) h = ground arith
ends_with_newline-take (suc i) (x ∷ []) h = ground arith
ends_with_newline-take (suc i) (x ∷ y ∷ s) h = ends_with_newline-take i (y ∷ s) h

module _ (n : ℕ) (rest : Text) (long : n < length rest) where
  take-IsCut :
      (c : ℕ)
      → n - n / 10 ≤ c
      → c ≤ n
      → (c ≡ n) ⊎ ((i : ℕ) × (c ≡ suc i) × (get_elem? rest i ≡ some 10))
      → IsCut n (take c rest)
  take-IsCut c low high (inl full) = record {
    long = omega (arith, length-take c rest);
    fits = omega (arith, length-take c rest);
    at_line_end = inl (omega (arith, length-take c rest));
  }
  take-IsCut c low high (inr (i, e, newline)) = record {
    long = omega (arith, length-take c rest);
    fits = omega (arith, length-take c rest);
    at_line_end = inr (rw e (ends_with_newline-take i rest newline));
  }

  -- The newline of the tail stands at its place in the whole text, inside the window.
  newline_place :
      (t i : ℕ)
      → rfind_newline (drop t (take n rest)) ≡ some i
      → (get_elem? rest (t + i) ≡ some 10) × (t + i < n)
  newline_place t i e =
      let here : get_elem? (take n rest) (t + i) ≡ some 10 =
        sym (get_elem?-drop t i (take n rest)) ∙ rfind_newline_lem _ i e in
      (
        get_elem?-take n (t + i) 10 rest here,
        omega (arith, get_elem?-bound (take n rest) (t + i) 10 here, length-take n rest),
      )

  cut_at-IsCut :
      (IsCut n (take (cut_at n (n - n / 10) rest) rest))
      × (cut_at n (n - n / 10) rest ≤ n)
      × (n - n / 10 ≤ cut_at n (n - n / 10) rest)
  unfolding cut_at
  cut_at-IsCut = elim (Option-cases (rfind_newline (drop (n - n / 10) (take n rest)))) [
    | inl e ↦
        let c : cut_at n (n - n / 10) rest ≡ n = rw (e, cut_at) refl in
        rw c (take-IsCut n (omega arith) (omega arith) (inl refl), omega arith, omega arith)
    | inr (i, e) ↦
        let c : cut_at n (n - n / 10) rest ≡ n - n / 10 + i + 1 = rw (e, cut_at) refl in
        let place = newline_place (n - n / 10) i e in
        rw c (
          take-IsCut (n - n / 10 + i + 1) (omega arith) (omega (arith, place.1))
              (inr (n - n / 10 + i, omega arith, place.0)),
          omega (arith, place.1),
          omega arith,
        )
  ]

IsParts-cons : (n : ℕ) (p : Text) (ps : List Text) → IsCut n p → IsParts n ps → IsParts n (p ∷ ps)
IsParts-cons n p [] h k = absurd k
IsParts-cons n p (q ∷ ps) h k = (h, k)

-- With more fuel than characters the loop cuts the whole text.
parts_loop_lem :
    (fuel n : ℕ) (rest : Text)
    → 1 ≤ n
    → length rest < fuel
    → (concat (parts_loop fuel n (n - n / 10) rest) ≡ rest)
      × IsParts n (parts_loop fuel n (n - n / 10) rest)
unfolding parts_loop
parts_loop_lem zero n rest positive h = absurd (omega arith)
parts_loop_lem (suc fuel) n rest positive h = elim (Bool-cases (leb (length rest) n)) [
  | inl short ↦ rw short (append-nil rest, leb→le _ _ short)
  | inr long ↦
      let over : n < length rest = ground arith in
      let cut = cut_at n (n - n / 10) rest in
      let facts = cut_at-IsCut n rest over in
      let ih =
        parts_loop_lem fuel n (drop cut rest) positive
          (omega (arith, length-drop cut rest, facts.2)) in
      rw long (
        ap (λ r. take cut rest ++ r) ih.0 ∙ take-append-drop cut rest,
        IsParts-cons n _ _ facts.0 ih.1,
      )
]

-- The parts of a page put together are the page, for every page and part size; there is at least
-- one part, and with `n` the part size (at least 1) every part but the last has at most `n`
-- characters and at least `n` less a tenth, and has exactly `n` or ends with a newline; the last
-- part has at most `n`.
pub page_parts_lem :
    (markdown : Text) (part_chars : ℕ)
    → (concat (page_parts markdown part_chars) ≡ markdown)
      × IsParts (max part_chars 1) (page_parts markdown part_chars)
unfolding page_parts
page_parts_lem markdown part_chars =
    parts_loop_lem (suc (length markdown)) (max part_chars 1) markdown (omega arith) (omega arith)

parts_count :
    (n : ℕ) (p : Text) (ps : List Text)
    → IsParts n (p ∷ ps)
    → length ps * (n - n / 10) ≤ length (concat (p ∷ ps))
parts_count n p [] h = omega arith
parts_count n p (q ∷ ps) (h, k) =
    omega (arith, h.long, length-append p (concat (q ∷ ps)), parts_count n q ps k)

parts_count_all :
    (n : ℕ) (ps : List Text) → IsParts n ps → (length ps - 1) * (n - n / 10) ≤ length (concat ps)
parts_count_all n [] h = absurd h
parts_count_all n (p ∷ ps) h =
    let e : length (p ∷ ps) - 1 ≡ length ps = omega arith in rw e (parts_count n p ps h)

-- A page has no more parts than one and its characters over nine tenths of the part size.
pub length-page_parts :
    (markdown : Text) (part_chars : ℕ)
    → (length (page_parts markdown part_chars) - 1) * (max part_chars 1 - max part_chars 1 / 10)
      ≤ length markdown
length-page_parts markdown part_chars =
    let facts = page_parts_lem markdown part_chars in
    rw facts.0 at (parts_count_all (max part_chars 1) (page_parts markdown part_chars) facts.1)
