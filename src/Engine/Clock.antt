-- ===== src/Engine/Clock.antt =====
-- The bridge between the monotonic and the wall clock (src/web/search/governor/persist.rs).
use web_agent_research.Prelude.{
  ℕ, ◌+◌, ◌-◌, ◌*◌, ◌/◌, ◌^◌, ◌≤◌, ◌<◌, ◌≡◌, inl, inr, some, arith, leb, Bool-cases,
}
use web_agent_research.Engine.{Base, bias, ms, wall_to_mono, mono_to_wall}

-- A base far from the ends of `i64` and of the instants: the wall clock and every offset in use lie
-- within 2^62 milliseconds.
pub record IsSane (base : Base) (span : ℕ) : Type 0 where
  pub span_small : span < 2 ^ 62
  pub wall_low : bias ≤ base.wall_ms
  pub wall_high : base.wall_ms < bias + 2 ^ 62
  pub mono_low : span * ms ≤ base.mono
  pub mono_high : base.mono + span * ms ≤ base.latest

-- A wall time within the span of a sane base survives the way to the monotonic clock and back.
pub mono_to_wall-wall_to_mono :
    (base : Base) (span wall : ℕ)
    → IsSane base span
    → wall ≤ base.wall_ms + span
    → base.wall_ms ≤ wall + span
    → (t : ℕ) × (wall_to_mono base wall ≡ some t) × (mono_to_wall base t ≡ wall)
unfolding wall_to_mono mono_to_wall
mono_to_wall-wall_to_mono base span wall sane h k = elim (Bool-cases (leb base.wall_ms wall)) [
  | inl e ↦ (base.mono + (wall - base.wall_ms) * ms, ground arith, ground arith)
  | inr e ↦ (base.mono - (base.wall_ms - wall) * ms, ground arith, ground arith)
]

-- An instant within the span of a sane base comes back from the wall clock less than a millisecond
-- off: towards the base.
pub wall_to_mono-mono_to_wall :
    (base : Base) (span instant : ℕ)
    → IsSane base span
    → instant ≤ base.mono + span * ms
    → base.mono ≤ instant + span * ms
    → (t : ℕ) × (wall_to_mono base (mono_to_wall base instant) ≡ some t)
      × (t < instant + ms)
      × (instant < t + ms)
unfolding wall_to_mono mono_to_wall
wall_to_mono-mono_to_wall base span instant sane h k = elim (Bool-cases (leb base.mono instant)) [
  | inl e ↦ (base.mono + (instant - base.mono) / ms * ms, ground arith, ground arith, ground arith)
  | inr e ↦ (base.mono - (base.mono - instant) / ms * ms, ground arith, ground arith, ground arith)
]
