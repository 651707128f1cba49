-- ===== src/Governor/Budget.antt =====
-- The per-run request budget under concurrent legs (src/web/search/governor/permit.rs): legs of one
-- engine hold permits, and between `pace`'s check and its reservation a leg waits out the gap, so
-- the steps of several legs interleave with each other, with aborts (fanout/mod.rs) and with the
-- outcomes that settled legs record (fanout/leg.rs), of this engine and of others.
use web_agent_research.Prelude.{
  ℕ, ◌+◌, ◌-◌, ◌%◌, ◌^◌, ◌≤◌, ◌<◌, max, ◌≡◌, refl, ◌∙◌, Bool, false, arith, if_false, ap,
}
use mathlib.Core.Path.{subst}
use web_agent_research.Search.{SearchProvider, SearchProviderError}
use web_agent_research.Config.{Env}
use web_agent_research.Governor.{
  Governor, Disk, refresh, over_budget, pace_check, pace_decide, pace_reserve, wait_until,
  record_success, record_failure, same,
}
use web_agent_research.Governor.Counts.{
  count, count-refresh, fields-refresh, count-pace_reserve, fields-pace_reserve, KeepsCount,
  KeepsCount-record_success, KeepsCount-record_failure, KeepsCount-pace_reserve,
}

-- The legs of engine `p`: `held` of them hold a permit, `waiting` of these have passed the check of
-- `pace` and not yet reserved; `sent` counts the reservations of the run.
pub record Legs : Type 0 where
  pub governor : Governor
  pub disk : Disk
  pub held : ℕ
  pub waiting : ℕ
  pub sent : ℕ

module _ (env : Env) (p : SearchProvider) where
  pub data Step (s : Legs) : Legs → Type 0 where
    -- The semaphore hands out no more permits than the engine's concurrency.
    acquire : s.held < s.governor.queues p → Step s (record s { held = s.held + 1 })
    release : s.waiting < s.held → Step s (record s { held = s.held - 1 })
    -- The fanout aborts a leg that waits out the gap, which drops its permit.
    abort : 0 < s.waiting → Step s (record s { held = s.held - 1; waiting = s.waiting - 1 })
    -- A leg of this or another engine records its outcome while it holds its permit.
    succeed :
        (q : SearchProvider) (now : ℕ) (written : Bool)
        → Step s (record s {
          governor = (record_success env s.governor now written s.disk q).0;
          disk = (record_success env s.governor now written s.disk q).1;
        })
    fail :
        (q : SearchProvider) (now : ℕ) (written : Bool) (err : SearchProviderError)
        → Step s (record s {
          governor = (record_failure env s.governor now written s.disk q err).0;
          disk = (record_failure env s.governor now written s.disk q err).1;
        })
    -- A leg of another engine reserves; its check only merges the file.
    reserve_other :
        (q : SearchProvider) (now : ℕ) (written : Bool)
        → same q p ≡ false
        → Step s (record s {
          governor = (pace_reserve env s.governor now written s.disk q).0;
          disk = (pace_reserve env s.governor now written s.disk q).1;
        })
    check :
        (now gap go : ℕ) (written : Bool)
        → s.waiting < s.held
        → (pace_check env s.governor now written s.disk p gap).1 ≡ wait_until go
        → Step s (record s {
          governor = (pace_check env s.governor now written s.disk p gap).0.0;
          disk = (pace_check env s.governor now written s.disk p gap).0.1;
          waiting = s.waiting + 1;
        })
    reserve :
        (now : ℕ) (written : Bool)
        → 0 < s.waiting
        → Step s (record s {
          governor = (pace_reserve env s.governor now written s.disk p).0;
          disk = (pace_reserve env s.governor now written s.disk p).1;
          waiting = s.waiting - 1;
          sent = s.sent + 1;
        })
    -- Another process, or this one for another purpose, changes the file; or this process
    -- merges it.
    other_disk : (disk : Disk) → Step s (record s { disk = disk })
    merge :
        (now : ℕ) (written : Bool)
        → Step s (record s {
          governor = (refresh env s.governor now written s.disk).0;
          disk = (refresh env s.governor now written s.disk).1;
        })

  pub data Run (s : Legs) : Legs → Type 0 where
    here : Run s s
    next : {t u : Legs} → Run s t → Step t u → Run s u

  -- The budget and concurrency that a run keeps, and what holds of its counters.
  pub record IsWithin (cap permits : ℕ) (s : Legs) : Type 0 where
    pub live : s.governor.hermetic ≡ false
    pub cap_kept : s.governor.max_requests_per_engine p ≡ cap
    pub permits_kept : s.governor.queues p ≡ permits
    pub held_bound : s.held ≤ permits
    pub waiting_bound : s.waiting ≤ s.held
    pub counted : count env p s.governor ≡ s.sent
    pub bounded : s.sent + s.waiting + 1 ≤ max cap 1 + permits

  -- A leg that may wait found the budget not used up.
  over_budget-false :
      (g : Governor)
      → g.hermetic ≡ false
      → over_budget g p ≡ false
      → count env p g < max (g.max_requests_per_engine p) 1
  unfolding over_budget
  over_budget-false g live h = ground arith

  pace_check_lem :
      (g : Governor) (now gap : ℕ) (written : Bool) (disk : Disk)
      → g.hermetic ≡ false
      → pace_check env g now written disk p gap
        ≡ (refresh env g now written disk, pace_decide (refresh env g now written disk).0 now p gap)
  unfolding pace_check
  pace_check_lem g now gap written disk live = if_false _ _ live

  pace_decide_open :
      (g : Governor) (now gap go : ℕ)
      → pace_decide g now p gap ≡ wait_until go
      → over_budget g p ≡ false
  unfolding pace_decide
  pace_decide_open g now gap go h = ground arith

  count_open :
      (g : Governor) (now gap go : ℕ) (written : Bool) (disk : Disk)
      → g.hermetic ≡ false
      → (pace_check env g now written disk p gap).1 ≡ wait_until go
      → count env p g < max (g.max_requests_per_engine p) 1
  count_open g now gap go written disk live h =
      let open_budget : over_budget (refresh env g now written disk).0 p ≡ false =
        pace_decide_open (refresh env g now written disk).0 now gap go
          (subst (λ r. r.1 ≡ wait_until go) (pace_check_lem g now gap written disk live) h) in
      let (_, caps, alive) = fields-refresh env p g now written disk in
      let below = over_budget-false (refresh env g now written disk).0 (alive ∙ live) open_budget in
      let same_cap = ap (λ f. f p) caps in
      omega (arith, below, same_cap, count-refresh env p g now written disk)

  module _ (cap permits : ℕ) where
    -- A step that keeps the configuration needs only its counters checked.
    with_counters :
        (s t : Legs)
        → (t.governor.queues ≡ s.governor.queues)
          × (t.governor.max_requests_per_engine ≡ s.governor.max_requests_per_engine)
          × (t.governor.hermetic ≡ s.governor.hermetic)
        → IsWithin cap permits s
        → (t.held ≤ permits) × (t.waiting ≤ t.held)
        → count env p t.governor ≡ t.sent
        → t.sent + t.waiting + 1 ≤ max cap 1 + permits
        → IsWithin cap permits t
    with_counters s t (queues, caps, live) w (held, waiting) counted bounded = record {
      live = live ∙ w.live;
      cap_kept = ap (λ f. f p) caps ∙ w.cap_kept;
      permits_kept = ap (λ f. f p) queues ∙ w.permits_kept;
      held_bound = held;
      waiting_bound = waiting;
      counted = counted;
      bounded = bounded;
    }

    check_kept :
        (s : Legs) (now gap go : ℕ) (written : Bool)
        → s.waiting < s.held
        → (pace_check env s.governor now written s.disk p gap).1 ≡ wait_until go
        → IsWithin cap permits s
        → IsWithin cap permits (record s {
          governor = (pace_check env s.governor now written s.disk p gap).0.0;
          disk = (pace_check env s.governor now written s.disk p gap).0.1;
          waiting = s.waiting + 1;
        })
    check_kept s now gap go written h opened w =
        let below = count_open s.governor now gap go written s.disk w.live opened in
        let cap_kept = w.cap_kept in
        let counted = w.counted in
        let bounded = w.bounded in
        let held_bound = w.held_bound in
        let e : (pace_check env s.governor now written s.disk p gap).0.0
            ≡ (refresh env s.governor now written s.disk).0 =
          ap (λ r. r.0.0) (pace_check_lem s.governor now gap written s.disk w.live) in
        let (queues, caps, live) = fields-refresh env p s.governor now written s.disk in
        with_counters s _
          (
            ap (λ g. g.queues) e ∙ queues,
            ap (λ g. g.max_requests_per_engine) e ∙ caps,
            ap (λ g. g.hermetic) e ∙ live,
          )
          w (held_bound, omega arith)
          (ap (count env p) e ∙ count-refresh env p s.governor now written s.disk ∙ counted)
          (omega (arith, below, cap_kept, counted, h, held_bound))

    -- A step of the governor alone that keeps the configuration and the counter.
    governor_kept :
        (s : Legs) (g : Governor) (disk : Disk)
        → KeepsCount env p s.governor g
        → IsWithin cap permits s
        → IsWithin cap permits (record s { governor = g; disk = disk })
    governor_kept s g disk (fields, same_count) w =
        with_counters s _ fields w (w.held_bound, w.waiting_bound) (same_count ∙ w.counted)
          w.bounded

    module _ (room : max cap 1 + permits ≤ 2 ^ 32) where
      reserve_kept :
          (s : Legs) (now : ℕ) (written : Bool)
          → 0 < s.waiting
          → IsWithin cap permits s
          → IsWithin cap permits (record s {
            governor = (pace_reserve env s.governor now written s.disk p).0;
            disk = (pace_reserve env s.governor now written s.disk p).1;
            waiting = s.waiting - 1;
            sent = s.sent + 1;
          })
      reserve_kept s now written h w =
          let counted = w.counted in
          let bounded = w.bounded in
          let held_bound = w.held_bound in
          let waiting_bound = w.waiting_bound in
          let number = count-pace_reserve env p s.governor now written s.disk in
          with_counters s _ (fields-pace_reserve env p s.governor now written s.disk) w
            (held_bound, omega (arith, waiting_bound))
            (number ∙ ap (λ (n : ℕ). (n + 1) % 2 ^ 32) counted ∙ omega (arith, bounded, room, h))
            (omega (arith, bounded, h))

      Step-IsWithin : {s t : Legs} → Step s t → IsWithin cap permits s → IsWithin cap permits t
      Step-IsWithin {s} (acquire h) w =
          let same_permits = w.permits_kept in
          let waiting_bound = w.waiting_bound in
          with_counters s _ (refl, refl, refl) w (omega arith, omega arith) w.counted w.bounded
      Step-IsWithin {s} (release h) w =
          let held_bound = w.held_bound in
          with_counters s _ (refl, refl, refl) w (omega arith, omega arith) w.counted w.bounded
      Step-IsWithin {s} (abort h) w =
          let held_bound = w.held_bound in
          let waiting_bound = w.waiting_bound in
          let bounded = w.bounded in
          with_counters s _ (refl, refl, refl) w (omega arith, omega arith) w.counted (omega arith)
      Step-IsWithin {s} (succeed q now written) w =
          governor_kept s _ _
            (KeepsCount-record_success env p s.governor now written s.disk q w.live) w
      Step-IsWithin {s} (fail q now written err) w =
          governor_kept s _ _
            (KeepsCount-record_failure env p s.governor now written s.disk q err w.live) w
      Step-IsWithin {s} (reserve_other q now written other) w =
          governor_kept s _ _ (KeepsCount-pace_reserve env p s.governor now written s.disk q other)
            w
      Step-IsWithin {s} (check now gap go written h opened) w =
          check_kept s now gap go written h opened w
      Step-IsWithin {s} (reserve now written h) w = reserve_kept s now written h w
      Step-IsWithin {s} (other_disk disk) w =
          with_counters s _ (refl, refl, refl) w (w.held_bound, w.waiting_bound) w.counted w.bounded
      Step-IsWithin {s} (merge now written) w =
          with_counters s _ (fields-refresh env p s.governor now written s.disk) w
            (w.held_bound, w.waiting_bound)
            (count-refresh env p s.governor now written s.disk ∙ w.counted) w.bounded

      Run-IsWithin : {s t : Legs} → Run s t → IsWithin cap permits s → IsWithin cap permits t
      Run-IsWithin here w = w
      Run-IsWithin (next run step) w = Step-IsWithin step (Run-IsWithin run w)

-- However the legs of an engine interleave, are aborted while they wait and record their outcomes,
-- and whatever other engines' legs and other processes do, the requests reserved in a run, together
-- with the legs that wait out the gap, are fewer than the cap (at least one) and the engine's
-- concurrency added up: the budget is overshot by less than the concurrency, where a run starts with
-- no leg and the counter at zero, is not hermetic, has a permit, and cap and concurrency add up to no
-- more than 2^32.
pub sent_bound :
    (env : Env) (p : SearchProvider) (g : Governor) (disk : Disk) {t : Legs}
    → g.hermetic ≡ false
    → count env p g ≡ 0
    → 1 ≤ g.queues p
    → max (g.max_requests_per_engine p) 1 + g.queues p ≤ 2 ^ 32
    → Run env p (record { governor = g; disk = disk; held = 0; waiting = 0; sent = 0 }) t
    → t.sent + t.waiting < max (g.max_requests_per_engine p) 1 + g.queues p
sent_bound env p g disk {t} live fresh permit room run =
    let w : IsWithin env p (g.max_requests_per_engine p) (g.queues p) t =
      Run-IsWithin env p (g.max_requests_per_engine p) (g.queues p) room run (record {
        live = live;
        cap_kept = refl;
        permits_kept = refl;
        held_bound = omega arith;
        waiting_bound = omega arith;
        counted = fresh;
        bounded = omega arith;
      }) in
    let bounded = w.bounded in omega arith
