-- ===== src/Tests/Engines.antt =====
-- Runs of the merge of two views of an engine, the governor's operations, and the turn budget.
use web_agent_research.Prelude.{
  ℕ, ◌+◌, ◌-◌, ◌*◌, ◌≤◌, ◌<◌, min, ◌≡◌, refl, ◌≢◌, ◌↔◌, inl, inr, true, none, some, arith, Text,
  codes, All,
}
use web_agent_research.Search.{brave, challenge, id}
use web_agent_research.Config.{Env, Suspension, max_suspension, all_providers}
use web_agent_research.Engine.{
  Base, bias, ms, EngineView, default_view, wall_to_mono, mono_to_wall, merge_view, PersistedEngine,
  default_persisted, unwrap_or,
}
use web_agent_research.Engine.Clock.{IsSane, mono_to_wall-wall_to_mono}
use web_agent_research.Engine.Merge.{IsAlive, merge_view_keeps}
use web_agent_research.Governor.{
  Governor, Disk, new, sync, refresh, remaining, record_success, record_failure,
}
use web_agent_research.Governor.Sync.{sync_unknown, refresh_capped}
use web_agent_research.Governor.Suspending.{remaining-record_success, remaining-record_failure}
use web_agent_research.Budget.{
  default, secs, for_window, err, turn_budget, with_deadline, in_final_reserve, deadline_passed,
  min_context_chars, chars_per_token,
}
use web_agent_research.Budget.Turns.{
  IsWorkable, for_window-IsWorkable, for_window-err_iff, turn_budget_bounds,
  in_final_reserve_of_passed,
}

abbrev walled : EngineView
walled = record default_view {
  suspended_until = some 5_000;
  suspended_at = some 1_000;
  suspend_reason = codes "challenge";
}

walled-IsAlive : IsAlive 2_000 none walled 5_000
walled-IsAlive = record { held = refl; active = omega arith; fresh = inl refl }

merge_view_keeps_example :
    (until : ℕ) × ((merge_view default_view walled 2_000 4_000).suspended_until ≡ some until)
    × (min 5_000 4_000 ≤ until)
    × (until ≤ 4_000)
unfolding web_agent_research.Engine.later
merge_view_keeps_example =
    merge_view_keeps default_view walled 2_000 4_000 walled 5_000 (inr refl) walled-IsAlive

abbrev answered : EngineView
answered = record default_view { last_success = some 1_500 }

before_success : (at : ℕ) → some 1_000 ≡ some at → at < 1_500
before_success at e = ground arith

abbrev base : Base
base = record { wall_ms = bias + 1_000; mono = 10_000 * ms; latest = 10_000_000 * ms }

sane : IsSane base 500
sane = record {
  span_small = omega arith;
  wall_low = omega arith;
  wall_high = omega arith;
  mono_low = omega arith;
  mono_high = omega arith;
}

mono_to_wall-wall_to_mono_example :
    (t : ℕ) × (wall_to_mono base (bias + 1_200) ≡ some t) × (mono_to_wall base t ≡ bias + 1_200)
mono_to_wall-wall_to_mono_example =
    mono_to_wall-wall_to_mono base 500 (bias + 1_200) sane (omega arith) (omega arith)

abbrev env : Env
env = record { number = λ key. none; engines = none }

abbrev disk : Disk
disk key = none

abbrev governor : Governor
governor = new env true base

abbrev at_start : ℕ
at_start = 10_000 * ms

unknown_key : All (λ p. id p ≢ codes "old") all_providers
unfolding web_agent_research.Search.id
unknown_key = ground arith

sync_unknown_example : (sync env governor at_start true disk (λ v. v)).1 (codes "old") ≡ none
sync_unknown_example =
    sync_unknown env governor at_start true disk (λ v. v) (codes "old") unknown_key

remaining-record_success_example :
    remaining (record_success env governor at_start true disk brave).0.views at_start brave ≡ none
unfolding new
remaining-record_success_example =
    remaining-record_success env governor at_start at_start true disk brave refl

abbrev wall : Suspension
wall = record { duration = secs 3600; reason = codes "challenge" }

remaining-record_failure_example :
    (seconds : ℕ) × (reason : Text) × (remaining
        (record_failure env governor at_start true disk brave
          (challenge brave (codes "captcha"))).0.views
        at_start
        brave
      ≡ some (seconds, reason))
    × (1 ≤ seconds)
unfolding new web_agent_research.Config.suspension_for web_agent_research.Config.challenge_secs
    max_suspension
remaining-record_failure_example =
    remaining-record_failure env governor at_start true disk brave
      (challenge brave (codes "captcha")) wall at_start refl refl (omega arith) (omega arith)
      (omega arith)

for_window-IsWorkable_example :
    IsWorkable 8
      (200_000 - 8_192)
      (record default { max_turns = 8; max_context_chars = 400_000; max_part_chars = 24_000 })
unfolding for_window
for_window-IsWorkable_example = for_window-IsWorkable 8 200_000 8_192 refl

for_window-err_iff_example :
    (for_window 8 8_192 8_192 ≡ err 8_192 (8_192 - 8_192) 8_192)
    ↔ ((8_192 - 8_192) * chars_per_token < min_context_chars)
for_window-err_iff_example = for_window-err_iff 8 8_192 8_192

turn_budget_bounds_example : (10 ≤ turn_budget default 3) × (turn_budget default 3 ≤ 25)
turn_budget_bounds_example = turn_budget_bounds default 3 (omega arith)

in_final_reserve_of_passed_example :
    in_final_reserve (with_deadline default 0 (secs 600) (secs 120)) (secs 700) ≡ true
unfolding deadline_passed with_deadline
in_final_reserve_of_passed_example =
    in_final_reserve_of_passed (with_deadline default 0 (secs 600) (secs 120)) (secs 700) refl

-- A file that suspends the engine far past every configured time.
abbrev far_disk : Disk
far_disk key = some (record default_persisted {
  suspended_until_ms = some (bias + 100_000_000);
  suspended_at_ms = some (bias + 1_000);
})

abbrev far_view : EngineView
far_view = unwrap_or ((refresh env governor at_start true far_disk).0.views brave) default_view

refresh_capped_example : at_start + max_suspension env ≤ at_start + max_suspension env
unfolding new refresh sync merge_view web_agent_research.Engine.view_from_disk mono_to_wall
    max_suspension web_agent_research.Config.challenge_secs web_agent_research.Config.forbidden_secs
    web_agent_research.Config.rate_secs web_agent_research.Config.upstream_secs
    web_agent_research.Config.timeout_secs
refresh_capped_example =
    refresh_capped env governor at_start true far_disk brave far_view
      (at_start + max_suspension env) refl refl refl
