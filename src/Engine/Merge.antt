-- ===== src/Engine/Merge.antt =====
-- What `merge_view` keeps of the two states of an engine (src/web/search/governor/persist.rs).
use web_agent_research.Prelude.{
  ℕ, ◌≤◌, ◌<◌, min, ◌≡◌, refl, ◌∙◌, ◌⊎◌, inl, inr, Option, none, some, arith, ltb, Bool-cases,
  Option-cases, ap,
}
use mathlib.Core.Path.{subst}
use web_agent_research.Engine.{EngineView, Held, later, alive, winner, hold, merge_view}

-- The suspension of `v` still counts at `now`: it has not expired, and it was recorded no earlier
-- than the last success.
pub record IsAlive (now : ℕ) (last_success : Option ℕ) (v : EngineView) (until : ℕ) : Type 0 where
  pub held : v.suspended_until ≡ some until
  pub active : now < until
  pub fresh :
      (last_success ≡ none)
      ⊎ ((at success : ℕ) × (v.suspended_at ≡ some at)
          × (last_success ≡ some success)
          × (success ≤ at))

alive→IsAlive :
    (now : ℕ) (success : Option ℕ) (v : EngineView) (h : Held)
    → alive now success v ≡ some h
    → IsAlive now success v h.until × (h.at ≡ v.suspended_at) × (h.reason ≡ v.suspend_reason)
unfolding alive
alive→IsAlive now none v h e = (
  record { held = ground arith; active = ground arith; fresh = inl refl },
  ground arith,
  ground arith,
)
alive→IsAlive now (some s) v h e = elim (Option-cases v.suspended_at) [
  | inl missing ↦ absurd (ground arith)
  | inr (at, recorded) ↦ (
    record {
      held = ground arith;
      active = ground arith;
      fresh = inr (at, s, recorded, refl, ground arith);
    },
    ground arith,
    ground arith,
  )
]

IsAlive→alive :
    (now : ℕ) (success : Option ℕ) (v : EngineView) (until : ℕ)
    → IsAlive now success v until
    → alive now success v
      ≡ some (record { until = until; at = v.suspended_at; reason = v.suspend_reason })
unfolding alive
IsAlive→alive now none v until a = ground (arith, a.held, a.active)
IsAlive→alive now (some s) v until a = ground (arith, a.held, a.active, a.fresh)

winner_cases : (l r : Option Held) (w : Held) → winner l r ≡ some w → (l ≡ some w) ⊎ (r ≡ some w)
unfolding winner
winner_cases none r w h = inr h
winner_cases (some l) none w h = inl h
winner_cases (some l) (some r) w h = ground arith

winner_above :
    (l r : Option Held) (h : Held)
    → (l ≡ some h) ⊎ (r ≡ some h)
    → (w : Held) × (winner l r ≡ some w) × (h.until ≤ w.until)
unfolding winner
winner_above none none h e = absurd (ground arith)
winner_above none (some r) h e = (r, refl, ground arith)
winner_above (some l) none h e = (l, refl, ground arith)
winner_above (some l) (some r) h e = elim (Bool-cases (ltb l.until r.until)) [
  | inl c ↦ (r, rw c, ground arith)
  | inr c ↦ (l, rw c, ground arith)
]

hold_inv :
    (v : EngineView) (cap until : ℕ) (o : Option Held)
    → (hold v cap o).suspended_until ≡ some until
    → (w : Held) × (o ≡ some w)
      × (until ≡ min w.until cap)
      × ((hold v cap o).suspended_at ≡ w.at)
      × ((hold v cap o).suspend_reason ≡ w.reason)
unfolding hold
hold_inv v cap until none h = absurd (ground arith)
hold_inv v cap until (some w) h = (w, refl, ground arith, refl, refl)

module _ (view disk : EngineView) (now cap : ℕ) where
  -- The clocks of requests and successes only move forward: the merge takes the later of the two.
  abbrev pub success : Option ℕ
  success = later view.last_success disk.last_success

  abbrev merged_times : EngineView
  merged_times = record view {
    last_request = later view.last_request disk.last_request;
    last_success = later view.last_success disk.last_success;
  }

  -- A suspension after the merge is the live suspension of one of the two sides, its expiry
  -- clamped to `cap`, with the time and the reason of that side.
  pub merge_view_source :
      (until : ℕ)
      → (merge_view view disk now cap).suspended_until ≡ some until
      → (v : EngineView) × ((v ≡ view) ⊎ (v ≡ disk))
        × (u : ℕ) × IsAlive now success v u
        × (until ≡ min u cap)
        × ((merge_view view disk now cap).suspended_at ≡ v.suspended_at)
        × ((merge_view view disk now cap).suspend_reason ≡ v.suspend_reason)
  unfolding merge_view
  merge_view_source until h =
      let (w, won, e, e_at, e_reason) =
        hold_inv merged_times cap until (winner (alive now success view) (alive now success disk))
          h in
      elim (winner_cases _ _ w won) [
        | inl l ↦
            let (a, at, reason) = alive→IsAlive now success view w l in
            (view, inl refl, w.until, a, e, e_at ∙ at, e_reason ∙ reason)
        | inr r ↦
            let (a, at, reason) = alive→IsAlive now success disk w r in
            (disk, inr refl, w.until, a, e, e_at ∙ at, e_reason ∙ reason)
      ]

  abbrev held_of : EngineView → ℕ → Held
  held_of v u = record { until = u; at = v.suspended_at; reason = v.suspend_reason }

  on_side :
      (v : EngineView) (u : ℕ)
      → (v ≡ view) ⊎ (v ≡ disk)
      → IsAlive now success v u
      → (alive now success view ≡ some (held_of v u))
        ⊎ (alive now success disk ≡ some (held_of v u))
  on_side v u (inl e) a =
      inl
        (subst (λ x. alive now success x ≡ some (held_of v u)) e (IsAlive→alive now success v u a))
  on_side v u (inr e) a =
      inr
        (subst (λ x. alive now success x ≡ some (held_of v u)) e (IsAlive→alive now success v u a))

  -- No live suspension of either side is lost, and none is shortened below the cap.
  pub merge_view_keeps :
      (v : EngineView) (u : ℕ)
      → (v ≡ view) ⊎ (v ≡ disk)
      → IsAlive now success v u
      → (until : ℕ) × ((merge_view view disk now cap).suspended_until ≡ some until)
        × (min u cap ≤ until)
        × (until ≤ cap)
  unfolding merge_view winner_above
  merge_view_keeps v u side a =
      let (w, won, above) =
        winner_above (alive now success view) (alive now success disk) (held_of v u)
          (on_side v u side a) in
      (min w.until cap, rw (merge_view, won) refl, ground arith, omega arith)

  stale :
      (v : EngineView) (u s : ℕ)
      → success ≡ some s
      → ((at : ℕ) → v.suspended_at ≡ some at → at < s)
      → IsAlive now success v u
      → ⊥
  stale v u s e h a = elim a.fresh [
    | inl never ↦ ground arith
    | inr (at, s', recorded, latest, le) ↦ ground (arith, h at)
  ]

  -- A success later than the times at which both sides' suspensions were recorded clears them:
  -- the engine is not suspended after the merge.
  pub merge_view_cleared :
      (s : ℕ)
      → success ≡ some s
      → ((at : ℕ) → view.suspended_at ≡ some at → at < s)
      → ((at : ℕ) → disk.suspended_at ≡ some at → at < s)
      → (merge_view view disk now cap).suspended_until ≡ none
  merge_view_cleared s e h k = elim (Option-cases (merge_view view disk now cap).suspended_until) [
    | inl done ↦ done
    | inr (until, held) ↦
        let (v, side, u, a, _, _, _) = merge_view_source until held in
        absurd (elim side [
          | inl p ↦ stale view u s e h (subst (λ x. IsAlive now success x u) p a)
          | inr p ↦ stale disk u s e k (subst (λ x. IsAlive now success x u) p a)
        ])
  ]

later_comm : (a b : Option ℕ) → later a b ≡ later b a
unfolding later
later_comm none none = refl
later_comm none (some b) = refl
later_comm (some a) none = refl
later_comm (some a) (some b) = ap some (omega arith)

hold_comm :
    (v d : EngineView) (cap : ℕ) (l r : Option Held)
    → (hold v cap (winner l r)).suspended_until ≡ (hold d cap (winner r l)).suspended_until
unfolding hold winner
hold_comm v d cap none none = refl
hold_comm v d cap none (some r) = refl
hold_comm v d cap (some l) none = refl
hold_comm v d cap (some l) (some r) = ground arith

-- After a merge no expiry lies past the cap, and the request count is that of this process.
pub merge_view_capped :
    (view disk : EngineView) (now cap u : ℕ)
    → (merge_view view disk now cap).suspended_until ≡ some u
    → u ≤ cap
unfolding merge_view
merge_view_capped view disk now cap u h =
    let (w, won, e, _, _) =
      hold_inv (merged_times view disk now cap) cap u
        (winner (alive now (success view disk now cap) view)
          (alive now (success view disk now cap) disk))
        h in
    omega arith

-- The expiry after a merge does not depend on which side is the disk.
pub merge_view_comm :
    (view disk : EngineView) (now cap : ℕ)
    → ((merge_view view disk now cap).suspended_until
        ≡ (merge_view disk view now cap).suspended_until)
      × ((merge_view view disk now cap).last_request ≡ (merge_view disk view now cap).last_request)
      × ((merge_view view disk now cap).last_success ≡ (merge_view disk view now cap).last_success)
unfolding merge_view
merge_view_comm view disk now cap = (
  rw (later_comm view.last_success disk.last_success) (
      hold_comm (merged_times view disk now cap) (merged_times disk view now cap) cap
        (alive now (later disk.last_success view.last_success) view)
        (alive now (later disk.last_success view.last_success) disk)),
  later_comm view.last_request disk.last_request,
  later_comm view.last_success disk.last_success,
)
