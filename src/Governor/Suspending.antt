-- ===== src/Governor/Suspending.antt =====
-- Recording a settled leg (src/web/search/governor/mod.rs): what `suspended_remaining` shows after
-- a failure and after a success.
use web_agent_research.Prelude.{
  ℕ, ◌+◌, ◌-◌, ◌/◌, ◌≤◌, ◌<◌, min, max, ◌≡◌, ap, ◌∙◌, inl, inr, Bool, false, none, some, arith,
  Text, ◌==◌, if◌then◌else◌, Option-cases, if_false,
}
use web_agent_research.Search.{SearchProvider, SearchProviderError}
use web_agent_research.Config.{Env, Suspension, max_suspension, suspension_for}
use web_agent_research.Engine.{checked_add}
use web_agent_research.Governor.{
  Governor, Views, Disk, sync, ensure_loaded, merge_all, remaining, view_or_default, record_success,
  record_failure, record_suspension, note_success, note_failure,
}
use web_agent_research.Governor.Sync.{views-sync}

remaining-note_success :
    (p : SearchProvider) (now later : ℕ) (views : Views)
    → remaining (note_success p now views) later p ≡ none
unfolding note_success remaining
remaining-note_success p now later views = ground arith

-- The views that an operation's `sync` changes: this process's, merged with the file's if there
-- is one.
abbrev before : Env → Governor → ℕ → Bool → Disk → Views
before env g now written disk =
    let (g', disk') = ensure_loaded env g now written disk in
    if g'.has_root then merge_all env g'.base now disk' g'.views else g'.views

views_after :
    (env : Env) (g : Governor) (now : ℕ) (written : Bool) (disk : Disk) (f : Views → Views)
    → (sync env
        (ensure_loaded env g now written disk).0
        now
        written
        (ensure_loaded env g now written disk).1
        f).0.views
      ≡ f (before env g now written disk)
views_after env g now written disk f =
    views-sync env (ensure_loaded env g now written disk).0 now written
      (ensure_loaded env g now written disk).1 f

pub record_success_lem :
    (env : Env) (g : Governor) (now : ℕ) (written : Bool) (disk : Disk) (p : SearchProvider)
    → g.hermetic ≡ false
    → record_success env g now written disk p
      ≡ sync env
          (ensure_loaded env g now written disk).0
          now
          written
          (ensure_loaded env g now written disk).1
          (note_success p now)
unfolding record_success
record_success_lem env g now written disk p live = if_false _ _ live

record_success_views :
    (env : Env) (g : Governor) (now : ℕ) (written : Bool) (disk : Disk) (p : SearchProvider)
    → g.hermetic ≡ false
    → (record_success env g now written disk p).0.views
      ≡ note_success p now (before env g now written disk)
record_success_views env g now written disk p live =
    ap (λ s. s.0.views) (record_success_lem env g now written disk p live)
    ∙ views_after env g now written disk (note_success p now)

-- After a recorded success the engine of a governor that is not hermetic shows as not suspended at
-- every time, as long as no other operation follows.
pub remaining-record_success :
    (env : Env) (g : Governor) (now later : ℕ) (written : Bool) (disk : Disk) (p : SearchProvider)
    → g.hermetic ≡ false
    → remaining (record_success env g now written disk p).0.views later p ≡ none
remaining-record_success env g now later written disk p live =
    rw (record_success_views env g now written disk p live) (remaining-note_success p now later _)

remaining_of_until :
    (views : Views) (later u : ℕ) (p : SearchProvider)
    → (view_or_default views p).suspended_until ≡ some u
    → later < u
    → (secs : ℕ) × (reason : Text) × (remaining views later p ≡ some (secs, reason)) × (1 ≤ secs)
unfolding remaining
remaining_of_until views later u p h lt = (
  max ((u - later) / 1_000_000_000) 1,
  (view_or_default views p).suspend_reason,
  ground arith,
  omega arith,
)

module _ (env : Env) (g : Governor) (now : ℕ) (written : Bool) (disk : Disk)
    (p : SearchProvider) where
  note_failure_until :
      (views : Views) (duration : ℕ) (reason : Text)
      → now + duration ≤ g.base.latest
      → (u : ℕ) × ((view_or_default
            (note_failure g.base p now duration reason views)
            p).suspended_until
          ≡ some u)
        × (now + duration ≤ u)
  unfolding note_failure checked_add
  note_failure_until views duration reason room =
      elim (Option-cases (view_or_default views p).suspended_until) [
        | inl e ↦ (now + duration, ground arith, omega arith)
        | inr (u, e) ↦ (max u (now + duration), ground arith, omega arith)
      ]

  pub record_failure_lem :
      (err : SearchProviderError) (s : Suspension)
      → g.hermetic ≡ false
      → suspension_for env err ≡ some s
      → record_failure env g now written disk p err ≡ record_suspension env g now written disk p s
  unfolding record_failure
  record_failure_lem err s live e = if_false _ _ live ∙ rw e

  record_suspension_lem :
      (s : Suspension)
      → (min s.duration (max_suspension env) == 0) ≡ false
      → record_suspension env g now written disk p s
        ≡ sync env
            (ensure_loaded env g now written disk).0
            now
            written
            (ensure_loaded env g now written disk).1
            (note_failure g.base p now (min s.duration (max_suspension env)) s.reason)
  unfolding record_suspension
  record_suspension_lem s e = if_false _ _ e

  record_failure_views :
      (err : SearchProviderError) (s : Suspension)
      → g.hermetic ≡ false
      → suspension_for env err ≡ some s
      → 0 < min s.duration (max_suspension env)
      → (record_failure env g now written disk p err).0.views
        ≡ note_failure g.base p now
            (min s.duration (max_suspension env))
            s.reason
            (before env g now written disk)
  record_failure_views err s live e positive =
      ap (λ s. s.0.views) (record_failure_lem err s live e ∙ record_suspension_lem s (ground arith))
      ∙ views_after env g now written disk
          (note_failure g.base p now (min s.duration (max_suspension env)) s.reason)

  -- After a failure that maps to a suspension the engine of a governor that is not hermetic shows
  -- as suspended, with at least one second left, at every moment from the failure on and before
  -- the suspension's time (or the longest configured one, if that is shorter) is over, whatever
  -- suspension was recorded before, provided that the clock can represent the end of that time
  -- (where it cannot, the code records nothing) and no other operation follows.
  pub remaining-record_failure :
      (err : SearchProviderError) (s : Suspension) (later : ℕ)
      → g.hermetic ≡ false
      → suspension_for env err ≡ some s
      → now ≤ later
      → later < now + min s.duration (max_suspension env)
      → now + min s.duration (max_suspension env) ≤ g.base.latest
      → (secs : ℕ) × (reason : Text) × (remaining
            (record_failure env g now written disk p err).0.views
            later
            p
          ≡ some (secs, reason))
        × (1 ≤ secs)
  remaining-record_failure err s later live e after h room =
      let (u, held, above) =
        note_failure_until (before env g now written disk) (min s.duration (max_suspension env))
          s.reason room in
      rw (record_failure_views err s live e (omega arith))
        (remaining_of_until _ later u p held (omega arith))
