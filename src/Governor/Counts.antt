-- ===== src/Governor/Counts.antt =====
-- The operations of the governor (src/web/search/governor/mod.rs and permit.rs) and an engine's request
-- counter: all but its own reservation leave it, and all leave the configuration.
use web_agent_research.Prelude.{
  ℕ, zero, suc, ◌+◌, ◌%◌, ◌^◌, min, ◌≡◌, refl, ◌∙◌, inl, inr, Bool, true, false, Option, none, some,
  arith, Text, ◌==◌, if◌then◌else◌, if_true, if_false, ==_iff, Bool-cases, Option-cases, ap, sym,
}
use mathlib.Core.Path.{subst}
use web_agent_research.Search.{
  SearchProvider, startpage, brave, yahoo, duck_duck_go, bing, crates_io, priority,
  SearchProviderError,
}
use web_agent_research.Config.{Env, Suspension, max_suspension, suspension_for}
use web_agent_research.Engine.{Base, EngineView, checked_add}
use web_agent_research.Governor.{
  Governor, Views, Disk, sync, refresh, ensure_loaded, unchanged, same, put, view_or_default,
  longer, note_success, note_failure, note_request, record_success, record_failure,
  record_suspension, pace_reserve,
}
use web_agent_research.Governor.Sync.{views-sync, fields-sync, request_count-merge_all}
use web_agent_research.Governor.Suspending.{record_success_lem, record_failure_lem}

-- An engine's priority names it.
engine_of : ℕ → SearchProvider
engine_of zero = startpage
engine_of (suc zero) = brave
engine_of (suc (suc zero)) = yahoo
engine_of (suc (suc (suc zero))) = duck_duck_go
engine_of (suc (suc (suc (suc zero)))) = bing
engine_of n = crates_io

engine_of-priority : (p : SearchProvider) → engine_of (priority p) ≡ p
unfolding engine_of priority
engine_of-priority startpage = refl
engine_of-priority brave = refl
engine_of-priority yahoo = refl
engine_of-priority duck_duck_go = refl
engine_of-priority bing = refl
engine_of-priority crates_io = refl

same_is : (p q : SearchProvider) → same p q ≡ true → p ≡ q
same_is p q h =
    let equal : priority p ≡ priority q = (==_iff (priority p) (priority q)).0 h in
    sym (engine_of-priority p) ∙ ap engine_of equal ∙ engine_of-priority q

module _ (env : Env) (p : SearchProvider) where
  abbrev pub count : Governor → ℕ
  count g = (view_or_default g.views p).request_count

  pub count-refresh :
      (g : Governor) (now : ℕ) (written : Bool) (disk : Disk)
      → count (refresh env g now written disk).0 ≡ count g
  unfolding refresh
  count-refresh g now written disk =
      ap (λ v. (view_or_default v p).request_count)
        (views-sync env (record g { loaded = true }) now written disk unchanged)
      ∙ request_count-merge_all env (record g { loaded = true }) now disk p

  pub fields-refresh :
      (g : Governor) (now : ℕ) (written : Bool) (disk : Disk)
      → ((refresh env g now written disk).0.queues ≡ g.queues)
        × ((refresh env g now written disk).0.max_requests_per_engine ≡ g.max_requests_per_engine)
        × ((refresh env g now written disk).0.hermetic ≡ g.hermetic)
  unfolding refresh
  fields-refresh g now written disk =
      fields-sync env (record g { loaded = true }) now written disk unchanged

  count-note_request :
      (now : ℕ) (views : Views)
      → (view_or_default (note_request p now views) p).request_count
        ≡ ((view_or_default views p).request_count + 1) % 2 ^ 32
  unfolding note_request
  count-note_request now views = ground arith

  pub count-pace_reserve :
      (g : Governor) (now : ℕ) (written : Bool) (disk : Disk)
      → count (pace_reserve env g now written disk p).0 ≡ (count g + 1) % 2 ^ 32
  unfolding pace_reserve
  count-pace_reserve g now written disk =
      ap (λ v. (view_or_default v p).request_count)
        (views-sync env g now written disk (note_request p now))
      ∙ count-note_request now _
      ∙ ap (λ (n : ℕ). (n + 1) % 2 ^ 32) (request_count-merge_all env g now disk p)

  pub fields-pace_reserve :
      (g : Governor) (now : ℕ) (written : Bool) (disk : Disk)
      → ((pace_reserve env g now written disk p).0.queues ≡ g.queues)
        × ((pace_reserve env g now written disk p).0.max_requests_per_engine
            ≡ g.max_requests_per_engine)
        × ((pace_reserve env g now written disk p).0.hermetic ≡ g.hermetic)
  unfolding pace_reserve
  fields-pace_reserve g now written disk = fields-sync env g now written disk (note_request p now)

  -- The configuration and the engine's counter stay.
  abbrev pub KeepsCount : Governor → Governor → Type 0
  KeepsCount g g' =
      ((g'.queues ≡ g.queues)
        × (g'.max_requests_per_engine ≡ g.max_requests_per_engine)
        × (g'.hermetic ≡ g.hermetic))
      × (count g' ≡ count g)

  KeepsCount-trans : (g g' g'' : Governor) → KeepsCount g g' → KeepsCount g' g'' → KeepsCount g g''
  KeepsCount-trans g g' g'' ((a, b, c), d) ((a', b', c'), d') = ((a' ∙ a, b' ∙ b, c' ∙ c), d' ∙ d)

  KeepsCount-sync :
      (g : Governor) (now : ℕ) (written : Bool) (disk : Disk) (f : Views → Views)
      → ((v : Views)
          → (view_or_default (f v) p).request_count ≡ (view_or_default v p).request_count)
      → KeepsCount g (sync env g now written disk f).0
  KeepsCount-sync g now written disk f h = (
    fields-sync env g now written disk f,
    ap (λ v. (view_or_default v p).request_count) (views-sync env g now written disk f)
        ∙ h _
        ∙ request_count-merge_all env g now disk p,
  )

  KeepsCount-ensure_loaded :
      (g : Governor) (now : ℕ) (written : Bool) (disk : Disk)
      → KeepsCount g (ensure_loaded env g now written disk).0
  unfolding ensure_loaded
  KeepsCount-ensure_loaded g now written disk = elim (Bool-cases g.loaded) [
    | inl e ↦
        subst (λ (r : Governor × Disk). KeepsCount g r.0) (sym (if_true _ _ e))
          ((refl, refl, refl), refl)
    | inr e ↦
        subst (λ (r : Governor × Disk). KeepsCount g r.0) (sym (if_false _ _ e))
          (fields-refresh g now written disk, count-refresh g now written disk)
  ]

  -- An operation on the loaded views.
  KeepsCount-loaded :
      (g : Governor) (now : ℕ) (written : Bool) (disk : Disk) (f : Views → Views)
      → ((v : Views)
          → (view_or_default (f v) p).request_count ≡ (view_or_default v p).request_count)
      → KeepsCount g
          (sync env
            (ensure_loaded env g now written disk).0
            now
            written
            (ensure_loaded env g now written disk).1
            f).0
  KeepsCount-loaded g now written disk f h =
      let (g', disk') = ensure_loaded env g now written disk in
      KeepsCount-trans g g' (sync env g' now written disk' f).0
        (KeepsCount-ensure_loaded g now written disk) (KeepsCount-sync g' now written disk' f h)

  put_count :
      (q : SearchProvider) (v : EngineView) (views : Views)
      → v.request_count ≡ (view_or_default views q).request_count
      → (view_or_default (put views q v) p).request_count ≡ (view_or_default views p).request_count
  put_count q v views h = elim (Bool-cases (same q p)) [
    | inl e ↦ rw e (h ∙ ap (λ x. (view_or_default views x).request_count) (same_is q p e))
    | inr e ↦ rw e
  ]

  note_success_count :
      (q : SearchProvider) (now : ℕ) (views : Views)
      → (view_or_default (note_success q now views) p).request_count
        ≡ (view_or_default views p).request_count
  unfolding note_success
  note_success_count q now views = put_count q _ views refl

  note_failure_count :
      (base : Base) (q : SearchProvider) (now duration : ℕ) (reason : Text) (views : Views)
      → (view_or_default (note_failure base q now duration reason views) p).request_count
        ≡ (view_or_default views p).request_count
  unfolding note_failure
  note_failure_count base q now duration reason views = noted (checked_add base now duration)
    where
      put_if :
          (b : Bool) (v : EngineView)
          → v.request_count ≡ (view_or_default views q).request_count
          → (view_or_default
              (put views q (if b then v else view_or_default views q))
              p).request_count
            ≡ (view_or_default views p).request_count
      put_if true v h = put_count q v views h
      put_if false v h = put_count q _ views refl

      noted :
          (o : Option ℕ)
          → (view_or_default
              (elim o [
                | none ↦ views
                | some candidate ↦ put views q (
                    if longer candidate (view_or_default views q).suspended_until
                    then record (view_or_default views q) {
                      suspended_until = some candidate;
                      suspended_at = some now;
                      suspend_reason = reason;
                    }
                    else view_or_default views q)
              ])
              p).request_count
            ≡ (view_or_default views p).request_count
      noted none = refl
      noted (some candidate) =
          put_if (longer candidate (view_or_default views q).suspended_until) _ refl

  pub KeepsCount-record_success :
      (g : Governor) (now : ℕ) (written : Bool) (disk : Disk) (q : SearchProvider)
      → g.hermetic ≡ false
      → KeepsCount g (record_success env g now written disk q).0
  KeepsCount-record_success g now written disk q live =
      subst (λ (r : Governor × Disk). KeepsCount g r.0)
        (sym (record_success_lem env g now written disk q live))
        (KeepsCount-loaded g now written disk (note_success q now) (note_success_count q now))

  KeepsCount-record_suspension :
      (g : Governor) (now : ℕ) (written : Bool) (disk : Disk) (q : SearchProvider) (s : Suspension)
      → KeepsCount g (record_suspension env g now written disk q s).0
  unfolding record_suspension
  KeepsCount-record_suspension g now written disk q s =
      let duration = min s.duration (max_suspension env) in
      elim (Bool-cases (duration == 0)) [
        | inl e ↦ rw e ((refl, refl, refl), refl)
        | inr e ↦ rw e (
            KeepsCount-loaded g now written disk (note_failure g.base q now duration s.reason)
              (note_failure_count g.base q now duration s.reason))
      ]

  unrecorded :
      (g : Governor) (now : ℕ) (written : Bool) (disk : Disk) (q : SearchProvider)
      (err : SearchProviderError)
      → g.hermetic ≡ false
      → suspension_for env err ≡ none
      → record_failure env g now written disk q err ≡ (g, disk)
  unfolding record_failure
  unrecorded g now written disk q err live e = if_false _ _ live ∙ rw e

  pub KeepsCount-record_failure :
      (g : Governor) (now : ℕ) (written : Bool) (disk : Disk) (q : SearchProvider)
      (err : SearchProviderError)
      → g.hermetic ≡ false
      → KeepsCount g (record_failure env g now written disk q err).0
  KeepsCount-record_failure g now written disk q err live =
      elim (Option-cases (suspension_for env err)) [
        | inl e ↦
            subst (λ (r : Governor × Disk). KeepsCount g r.0)
              (sym (unrecorded g now written disk q err live e)) ((refl, refl, refl), refl)
        | inr (s, e) ↦
            subst (λ (r : Governor × Disk). KeepsCount g r.0)
              (sym (record_failure_lem env g now written disk q err s live e))
              (KeepsCount-record_suspension g now written disk q s)
      ]

  note_request_other :
      (q : SearchProvider) (now : ℕ) (views : Views)
      → same q p ≡ false
      → (view_or_default (note_request q now views) p).request_count
        ≡ (view_or_default views p).request_count
  unfolding note_request
  note_request_other q now views other = rw other

  pub KeepsCount-pace_reserve :
      (g : Governor) (now : ℕ) (written : Bool) (disk : Disk) (q : SearchProvider)
      → same q p ≡ false
      → KeepsCount g (pace_reserve env g now written disk q).0
  unfolding pace_reserve
  KeepsCount-pace_reserve g now written disk q other =
      KeepsCount-sync g now written disk (note_request q now)
        (λ v. note_request_other q now v other)
