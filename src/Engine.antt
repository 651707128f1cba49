-- ===== src/Engine.antt =====
-- The governed state of one engine (src/web/search/governor/mod.rs), its shape on disk, the bridge
-- between the clocks and the merge (src/web/search/governor/persist.rs). An instant is a number of
-- nanoseconds from the earliest one that the platform can represent; an `i64` is written as its
-- distance from `i64::MIN`, so that 0 stands for `i64::MIN` and `bias` for zero.
pub mod Clock
pub mod Merge
use web_agent_research.Prelude.{
  [], ℕ, ◌+◌, ◌-◌, ◌*◌, ◌/◌, ◌%◌, ◌^◌, min, max, Bool, true, false, ◌&&◌, Option, none, some, Text,
  is_empty, ltb, leb, if◌then◌else◌,
}

abbrev pub bias : ℕ
bias = 2 ^ 63

abbrev pub i64_top : ℕ
i64_top = 2 ^ 64 - 1

-- `i64::saturating_sub`, `i64::saturating_add`, and `as i64` of an unsigned number.
abbrev pub saturating_sub : ℕ → ℕ → ℕ
saturating_sub a b = min (a + bias - b) i64_top

abbrev pub saturating_add : ℕ → ℕ → ℕ
saturating_add a b = min (a + b - bias) i64_top

abbrev pub as_i64 : ℕ → ℕ
as_i64 n = (n + bias) % 2 ^ 64

abbrev pub ms : ℕ
ms = 1_000_000

-- The base pair of a process, and the latest instant of the platform.
pub record Base : Type 0 where
  pub wall_ms : ℕ
  pub mono : ℕ
  pub latest : ℕ

unfoldable pub checked_add : Base → ℕ → ℕ → Option ℕ
checked_add base t d = if leb (t + d) base.latest then some (t + d) else none

unfoldable pub checked_sub : ℕ → ℕ → Option ℕ
checked_sub t d = if leb d t then some (t - d) else none

abbrev pub unwrap_or {ℓ} : {A : Type ℓ} → Option A → A → A
unwrap_or none d = d
unwrap_or (some a) d = a

unfoldable pub wall_to_mono : Base → ℕ → Option ℕ
unfolding checked_add checked_sub
wall_to_mono base wall =
    let delta = saturating_sub wall base.wall_ms in
    if leb bias delta
    then some (unwrap_or (checked_add base base.mono ((delta - bias) * ms)) base.mono)
    else checked_sub base.mono ((bias - delta) * ms)

unfoldable pub mono_to_wall : Base → ℕ → ℕ
mono_to_wall base instant =
    if leb base.mono instant
    then saturating_add base.wall_ms (as_i64 ((instant - base.mono) / ms))
    else saturating_sub base.wall_ms (as_i64 ((base.mono - instant) / ms))

pub record EngineView : Type 0 where
  pub suspended_until : Option ℕ
  pub suspended_at : Option ℕ
  pub suspend_reason : Text
  pub last_request : Option ℕ
  pub last_success : Option ℕ
  pub request_count : ℕ

abbrev pub default_view : EngineView
default_view = record {
  suspended_until = none;
  suspended_at = none;
  suspend_reason = [];
  last_request = none;
  last_success = none;
  request_count = 0;
}

pub record PersistedEngine : Type 0 where
  pub suspended_until_ms : Option ℕ
  pub suspended_at_ms : Option ℕ
  pub suspend_reason : Option Text
  pub last_request_ms : Option ℕ
  pub last_success_ms : Option ℕ

abbrev pub default_persisted : PersistedEngine
default_persisted = record {
  suspended_until_ms = none;
  suspended_at_ms = none;
  suspend_reason = none;
  last_request_ms = none;
  last_success_ms = none;
}

abbrev pub is_none {ℓ} : {A : Type ℓ} → Option A → Bool
is_none none = true
is_none (some a) = false

-- `entry == PersistedEngine::default()`
abbrev pub is_default : PersistedEngine → Bool
is_default e =
    is_none e.suspended_until_ms
    && is_none e.suspended_at_ms
    && is_none e.suspend_reason
    && is_none e.last_request_ms
    && is_none e.last_success_ms

abbrev pub bind {ℓ κ} : {A : Type ℓ} {B : Type κ} → Option A → (A → Option B) → Option B
bind none f = none
bind (some a) f = f a

abbrev pub map_option {ℓ κ} : {A : Type ℓ} {B : Type κ} → (A → B) → Option A → Option B
map_option f none = none
map_option f (some a) = some (f a)

unfoldable pub view_from_disk : Base → ℕ → PersistedEngine → EngineView
unfolding wall_to_mono
view_from_disk base cap_wall_ms entry = record {
  suspended_until =
      bind (map_option (λ t. min t cap_wall_ms) entry.suspended_until_ms) (wall_to_mono base);
  suspended_at = bind entry.suspended_at_ms (wall_to_mono base);
  suspend_reason = unwrap_or entry.suspend_reason [];
  last_request = bind entry.last_request_ms (wall_to_mono base);
  last_success = bind entry.last_success_ms (wall_to_mono base);
  request_count = 0;
}

unfoldable pub disk_from_view : Base → EngineView → PersistedEngine
unfolding mono_to_wall
disk_from_view base view = record {
  suspended_until_ms = map_option (mono_to_wall base) view.suspended_until;
  suspended_at_ms = map_option (mono_to_wall base) view.suspended_at;
  suspend_reason = if is_empty view.suspend_reason then none else some view.suspend_reason;
  last_request_ms = map_option (mono_to_wall base) view.last_request;
  last_success_ms = map_option (mono_to_wall base) view.last_success;
}

-- `max` of two `Option<Instant>`: `None` is the least.
unfoldable pub later : Option ℕ → Option ℕ → Option ℕ
later none b = b
later (some a) none = some a
later (some a) (some b) = some (max a b)

pub record Held : Type 0 where
  pub until : ℕ
  pub at : Option ℕ
  pub reason : Text

-- The closure `alive` of `merge_view`, at the suspension's expiry and its recorded time.
alive_at : Option ℕ → Option ℕ → ℕ → Option ℕ
alive_at at none until = some until
alive_at (some at) (some success) until = if leb success at then some until else none
alive_at none (some success) until = none

unfoldable pub alive : ℕ → Option ℕ → EngineView → Option Held
unfolding alive_at
alive now last_success v = elim v.suspended_until [
  | none ↦ none
  | some until ↦
      if ltb now until
      then map_option (λ u. record { until = u; at = v.suspended_at; reason = v.suspend_reason })
          (alive_at v.suspended_at last_success until)
      else none
]

-- Of two live suspensions the remote one wins only with a later expiry.
unfoldable pub winner : Option Held → Option Held → Option Held
winner none remote = remote
winner (some local) none = some local
winner (some local) (some remote) = if ltb local.until remote.until then some remote else some local

-- The final `match` of `merge_view`: the winner's fields clamped to `cap`, or all three cleared.
hold : EngineView → ℕ → Option Held → EngineView
hold v cap o = record v {
  suspended_until = map_option (λ h. min h.until cap) o;
  suspended_at = bind o (λ h. h.at);
  suspend_reason = unwrap_or (map_option (λ h. h.reason) o) [];
}

unfoldable pub merge_view : EngineView → EngineView → ℕ → ℕ → EngineView
unfolding later alive winner hold
merge_view view disk now cap =
    let v = record view {
      last_request = later view.last_request disk.last_request;
      last_success = later view.last_success disk.last_success;
    } in
    hold v cap (winner (alive now v.last_success view) (alive now v.last_success disk))
