-- ===== src/Tests/Legs.antt =====
-- A run of two legs of an engine under the request budget.
use web_agent_research.Prelude.{
  false, refl, some, ℕ, ◌+◌, ◌*◌, ◌<◌, max, ◌≡◌, refl, true, none, arith,
}
use web_agent_research.Search.{brave, yahoo}
use web_agent_research.Config.{Env}
use web_agent_research.Engine.{Base, bias, ms}
use web_agent_research.Governor.{
  over_budget, Governor, Disk, new, pace_check, pace_reserve, wait_until, record_success,
}
use web_agent_research.Governor.Budget.{
  Legs, Run, here, next, acquire, check, reserve, succeed, abort, sent_bound,
}

abbrev env : Env
env = record { number = λ key. none; engines = none }

abbrev disk : Disk
disk key = none

abbrev base : Base
base = record { wall_ms = bias + 1_000; mono = 10_000 * ms; latest = 10_000_000 * ms }

abbrev governor : Governor
unfolding new
governor = new env true base

abbrev now : ℕ
now = 10_000 * ms

abbrev start : Legs
start = record { governor = governor; disk = disk; held = 0; waiting = 0; sent = 0 }

abbrev checked : Legs → Legs
checked s = record s {
  governor = (pace_check env s.governor now true s.disk yahoo 0).0.0;
  disk = (pace_check env s.governor now true s.disk yahoo 0).0.1;
  waiting = s.waiting + 1;
}

-- Two legs wait out the gap, one reserves and succeeds, and the other is aborted.
abbrev holding : Legs
holding = record start { held = 2 }

abbrev waiting : Legs
waiting = checked (checked holding)

abbrev reserved : Legs
reserved = record waiting {
  governor = (pace_reserve env waiting.governor now true waiting.disk yahoo).0;
  disk = (pace_reserve env waiting.governor now true waiting.disk yahoo).1;
  waiting = 1;
  sent = 1;
}

abbrev succeeded : Legs
succeeded = record reserved {
  governor = (record_success env reserved.governor now true reserved.disk yahoo).0;
  disk = (record_success env reserved.governor now true reserved.disk yahoo).1;
}

abbrev aborted : Legs
aborted = record succeeded { held = 1; waiting = 0 }

may_go : (pace_check env governor now true disk yahoo 0).1 ≡ wait_until now
unfolding pace_check governor web_agent_research.Governor.pace_decide
    web_agent_research.Governor.remaining web_agent_research.Governor.refresh
    web_agent_research.Governor.sync web_agent_research.Engine.merge_view
    web_agent_research.Governor.over_budget web_agent_research.Config.resolve_caps_per_engine
    web_agent_research.Config.engine_cap_default
may_go = refl

may_go_too :
    (pace_check env (checked holding).governor now true (checked holding).disk yahoo 0).1
    ≡ wait_until now
unfolding pace_check governor web_agent_research.Governor.pace_decide
    web_agent_research.Governor.remaining web_agent_research.Governor.refresh
    web_agent_research.Governor.sync web_agent_research.Engine.merge_view
    web_agent_research.Governor.over_budget web_agent_research.Config.resolve_caps_per_engine
    web_agent_research.Config.engine_cap_default web_agent_research.Prelude.text_eq
    web_agent_research.Search.id web_agent_research.Engine.disk_from_view
may_go_too = refl

run : Run env yahoo start aborted
unfolding governor web_agent_research.Config.resolve_concurrency
    web_agent_research.Config.engine_concurrency_default
run =
    let both : Run env yahoo start holding =
      next (next here (acquire (omega arith))) (acquire (omega arith)) in
    let waits : Run env yahoo start waiting =
      next (next both (check now 0 now true (omega arith) may_go))
        (check now 0 now true (omega arith) may_go_too) in
    next (next (next waits (reserve now true (omega arith))) (succeed yahoo now true))
      (abort (omega arith))

sent_bound_example :
    aborted.sent + aborted.waiting
    < max (governor.max_requests_per_engine yahoo) 1 + governor.queues yahoo
unfolding governor web_agent_research.Config.resolve_concurrency
    web_agent_research.Config.resolve_caps_per_engine web_agent_research.Config.engine_cap_default
    web_agent_research.Config.engine_concurrency_default
sent_bound_example = sent_bound env yahoo governor disk refl refl (omega arith) (omega arith) run

-- With a cap of 0 and no cache root, an engine without an entry is under the cap.
zero_cap :
    over_budget (new (record { number = λ key. some 0; engines = none }) false base) brave ≡ false
unfolding over_budget new
zero_cap = refl
