-- ===== src/Governor.antt =====
-- src/web/search/governor/mod.rs and permit.rs: suspension, budget and pacing of the engines of
-- one process, over the shared `engines.json`. `Instant::now()` is an argument, as is whether the
-- atomic write of the file succeeds; a reading of the file that fails is an empty map. The lock
-- makes each `sync` one step.
pub mod Sync
pub mod Suspending
pub mod Counts
pub mod Budget
use web_agent_research.Prelude.{
  [], ℕ, ◌+◌, ◌-◌, ◌/◌, ◌%◌, ◌^◌, min, max, Bool, true, false, Option, none, List, ◌∷◌, Text,
  text_eq, ltb, leb, ◌==◌, if◌then◌else◌, some,
}
use web_agent_research.Search.{
  SearchProvider, startpage, brave, yahoo, duck_duck_go, bing, crates_io, id, priority,
  SearchProviderError,
}
use web_agent_research.Config.{
  Env, Suspension, max_suspension, suspension_for, resolve_caps_per_engine,
  resolve_max_queries_per_engine, resolve_concurrency, all_providers,
  enabled_providers as configured_providers,
}
use web_agent_research.Engine.{
  Base, EngineView, default_view, PersistedEngine, default_persisted, is_default, map_option,
  unwrap_or, checked_add, mono_to_wall, view_from_disk, disk_from_view, merge_view,
}

-- `HashMap<SearchProvider, EngineView>` and `engines.json`.
abbrev pub Views : Type 0
Views = SearchProvider → Option EngineView

abbrev pub Disk : Type 0
Disk = Text → Option PersistedEngine

pub record Governor : Type 0 where
  pub has_root : Bool
  pub hermetic : Bool
  pub loaded : Bool
  pub views : Views
  pub queues : SearchProvider → ℕ
  pub max_requests_per_engine : SearchProvider → ℕ
  pub max_queries_per_engine : SearchProvider → ℕ
  pub base : Base

abbrev no_views : Views
no_views p = none

unfoldable pub build_queues : Env → Bool → SearchProvider → ℕ
build_queues env hermetic p = if hermetic then 1 else resolve_concurrency env p

unfoldable pub hermetic_governor : Env → Base → Governor
unfolding build_queues
hermetic_governor env base = record {
  has_root = false;
  hermetic = true;
  loaded = true;
  views = no_views;
  queues = build_queues env true;
  max_requests_per_engine = λ p. 2 ^ 32 - 1;
  max_queries_per_engine = λ p. 2 ^ 64 - 1;
  base = base;
}

unfoldable pub new : Env → Bool → Base → Governor
unfolding build_queues
new env has_root base = record {
  has_root = has_root;
  hermetic = false;
  loaded = false;
  views = no_views;
  queues = build_queues env false;
  max_requests_per_engine = resolve_caps_per_engine env;
  max_queries_per_engine = resolve_max_queries_per_engine env;
  base = base;
}

abbrev pub same : SearchProvider → SearchProvider → Bool
same p q = priority p == priority q

abbrev pub put : Views → SearchProvider → EngineView → Views
put views p v q = if same p q then some v else views q

-- The cap on an expiry at `now`: `now.checked_add(max_suspension()).unwrap_or(now)`.
abbrev pub cap_at : Env → Base → ℕ → ℕ
cap_at env base now = unwrap_or (checked_add base now (max_suspension env)) now

-- The state of an engine on disk, as this process reads it.
abbrev pub disk_view : Env → Base → ℕ → Disk → SearchProvider → EngineView
disk_view env base now disk p =
    unwrap_or
      (map_option (view_from_disk base (mono_to_wall base (cap_at env base now))) (disk (id p)))
      default_view

-- Every engine's view merged with its state on disk.
pub merge_all : Env → Base → ℕ → Disk → Views → Views
merge_all env base now disk views p = some (
    merge_view (unwrap_or (views p) default_view) (disk_view env base now disk p) now
      (cap_at env base now))

-- The map after the merge: each engine's entry from its view, unless that is empty; the entries of
-- other identifiers as they were.
write_all : Base → Views → List SearchProvider → Disk → Disk
write_all base views [] disk key = disk key
write_all base views (p ∷ ps) disk key =
    let rest = write_all base views ps disk key in
    let entry = unwrap_or (map_option (disk_from_view base) (views p)) default_persisted in
    if text_eq (id p) key then (if is_default entry then none else some entry) else rest

-- `sync`: the new views, and the new file. A map that did not change is written or not alike.
unfoldable pub sync : Env → Governor → ℕ → Bool → Disk → (Views → Views) → Governor × Disk
unfolding merge_all write_all
sync env g now written disk mutate =
    let merged = mutate (merge_all env g.base now disk g.views) in
    if g.has_root
    then (
      record g { views = merged },
      if written then write_all g.base merged all_providers disk else disk,
    )
    else (record g { views = mutate g.views }, disk)

abbrev pub unchanged : Views → Views
unchanged views = views

unfoldable pub refresh : Env → Governor → ℕ → Bool → Disk → Governor × Disk
refresh env g now written disk = sync env (record g { loaded = true }) now written disk unchanged

unfoldable pub ensure_loaded : Env → Governor → ℕ → Bool → Disk → Governor × Disk
ensure_loaded env g now written disk =
    if g.loaded then (g, disk) else refresh env g now written disk

unfoldable pub enabled_providers : Env → Governor → List SearchProvider
enabled_providers env g = if g.hermetic then all_providers else configured_providers env

-- The check on the loaded views: whole seconds left, at least one, and the reason.
unfoldable pub remaining : Views → ℕ → SearchProvider → Option (ℕ × Text)
remaining views now p = elim (views p) [
  | none ↦ none
  | some v ↦ elim v.suspended_until [
    | none ↦ none
    | some until ↦
        if leb until now
        then none
        else some (max ((until - now) / 1_000_000_000) 1, v.suspend_reason)
  ]
]

unfoldable pub suspended_remaining :
    Env → Governor → ℕ → Bool → Disk → SearchProvider → (Governor × Disk) × Option (ℕ × Text)
suspended_remaining env g now written disk p =
    let state = if g.hermetic then (g, disk) else ensure_loaded env g now written disk in
    (state, remaining state.0.views now p)

unfoldable pub over_budget : Governor → SearchProvider → Bool
over_budget g p = if g.hermetic then false else elim (g.views p) [
  | none ↦ false
  | some v ↦ leb (g.max_requests_per_engine p) v.request_count
]

abbrev pub view_or_default : Views → SearchProvider → EngineView
view_or_default views p = unwrap_or (views p) default_view

-- The closures that the operations hand to `sync`.
unfoldable pub note_success : SearchProvider → ℕ → Views → Views
note_success p now views = put views p (record (view_or_default views p) {
  last_success = some now;
  suspended_until = none;
  suspended_at = none;
  suspend_reason = [];
})

abbrev pub longer : ℕ → Option ℕ → Bool
longer candidate none = true
longer candidate (some existing) = ltb existing candidate

unfoldable pub note_failure : Base → SearchProvider → ℕ → ℕ → Text → Views → Views
note_failure base p now duration reason views = elim (checked_add base now duration) [
  | none ↦ views
  | some candidate ↦ put views p (
      if longer candidate (view_or_default views p).suspended_until
      then record (view_or_default views p) {
        suspended_until = some candidate;
        suspended_at = some now;
        suspend_reason = reason;
      }
      else view_or_default views p)
]

-- `+= 1` on a `u32` wraps in a release build.
unfoldable pub note_request : SearchProvider → ℕ → Views → Views
note_request p now views = put views p (record (view_or_default views p) {
  last_request = some now;
  request_count = ((view_or_default views p).request_count + 1) % 2 ^ 32;
})

unfoldable pub record_success : Env → Governor → ℕ → Bool → Disk → SearchProvider → Governor × Disk
record_success env g now written disk p =
    if g.hermetic
    then (g, disk)
    else let (g', disk') = ensure_loaded env g now written disk in
      sync env g' now written disk' (note_success p now)

unfoldable pub record_suspension :
    Env → Governor → ℕ → Bool → Disk → SearchProvider → Suspension → Governor × Disk
record_suspension env g now written disk p s =
    let duration = min s.duration (max_suspension env) in
    if duration == 0
    then (g, disk)
    else let (g', disk') = ensure_loaded env g now written disk in
      sync env g' now written disk' (note_failure g.base p now duration s.reason)

unfoldable pub record_failure :
    Env → Governor → ℕ → Bool → Disk → SearchProvider → SearchProviderError → Governor × Disk
record_failure env g now written disk p err =
    if g.hermetic then (g, disk) else elim (suspension_for env err) [
      | none ↦ (g, disk)
      | some s ↦ record_suspension env g now written disk p s
    ]

-- permit.rs
pub data PaceOutcome : Type 0 where
  proceed : PaceOutcome
  suspended : ℕ → Text → PaceOutcome
  throttled : PaceOutcome

-- The first half of `pace`, up to the wait: what it decides, and when it may go on.
pub data Checked : Type 0 where
  wait_until : ℕ → Checked
  refuse : PaceOutcome → Checked

-- The end of the gap: the last request and the gap behind it, or now.
abbrev pub gap_end : Views → ℕ → ℕ → SearchProvider → ℕ
gap_end views now gap p = elim (view_or_default views p).last_request [
  | none ↦ now
  | some last ↦ max now (last + gap)
]

abbrev refuse_suspended : ℕ × Text → Checked
refuse_suspended (secs, reason) = refuse (suspended secs reason)

unfoldable pub pace_decide : Governor → ℕ → SearchProvider → ℕ → Checked
pace_decide g now p gap = elim (remaining g.views now p) [
  | some r ↦ refuse_suspended r
  | none ↦ if over_budget g p then refuse throttled else wait_until (gap_end g.views now gap p)
]

unfoldable pub pace_check :
    Env → Governor → ℕ → Bool → Disk → SearchProvider → ℕ → (Governor × Disk) × Checked
pace_check env g now written disk p gap =
    if g.hermetic
    then ((g, disk), refuse proceed)
    else (refresh env g now written disk, pace_decide (refresh env g now written disk).0 now p gap)

-- The second half: the request is counted and its start recorded.
unfoldable pub pace_reserve : Env → Governor → ℕ → Bool → Disk → SearchProvider → Governor × Disk
pace_reserve env g now written disk p = sync env g now written disk (note_request p now)
