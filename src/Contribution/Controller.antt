-- ===== src/Contribution/Controller.antt =====
-- `IdleSnapshot.is_idle` and `ContributionController`; the policy is `ContributionPolicy` of
-- packages/protocol/meshcompute_protocol/capability.py, by the fields that they read.
use mesh_compute.Prelude.{
  ◌+◌, ◌*◌, Bool, true, false, ◌&&◌, Option, none, some, List, [], ◌∷◌, if◌then◌else◌, nat_eq,
  list_eq,
}
use mesh_compute.Prelude.Int.{negsuc, pos, ℤ}
use mesh_compute.Python.{Floats}

pub record ContributionPolicy : Type 0 where
  pub idle_only : Bool
  pub max_gpu_percent : ℤ
  pub max_cpu_percent : ℤ
  pub idle_minutes_before_start : ℤ
  pub pause_on_user_activity : Bool
  pub require_ac_power : Bool

-- A signal that the machine does not give is none.
pub record IdleSnapshot (F : Type 0) : Type 0 where
  pub user_idle_s : Option F
  pub cpu_percent : F
  pub gpu_percent : Option F
  pub on_ac : Option Bool

pub data ContributionState : Type 0 where
  active paused : ContributionState

-- `ContributionController`, by the fields that a tick changes.
pub record Controller (F : Type 0) : Type 0 where
  pub state : ContributionState
  pub last_snapshot : Option (IdleSnapshot F)

-- `state == ContributionState.ACTIVE`
abbrev pub is_active : ContributionState → Bool
is_active active = true
is_active paused = false

unfoldable pub is_available : {F : Type 0} → Controller F → Bool
is_available c = is_active c.state

abbrev pub times_60 : ℤ → ℤ
times_60 (pos n) = pos (n * 60)
times_60 (negsuc n) = negsuc (n * 60 + 59)

-- `on_ac is False`
abbrev pub on_battery : Option Bool → Bool
on_battery none = false
on_battery (some true) = false
on_battery (some false) = true

module _ {F : Type 0} ⦃fl : Floats F⦄ (policy : ContributionPolicy) where
  -- `x is not None and x > limit`, and `x is not None and x < limit`
  abbrev pub above : ℤ → Option F → Bool
  above limit none = false
  above limit (some x) = fl.lt (fl.of_int limit) x

  abbrev pub below : F → Option F → Bool
  below limit none = false
  below limit (some x) = fl.lt x limit

  -- `policy.idle_minutes_before_start * 60`
  abbrev pub idle_seconds : F
  idle_seconds = fl.of_int (times_60 policy.idle_minutes_before_start)

  unfoldable pub is_idle : Bool → IdleSnapshot F → Bool
  is_idle check_user_activity snap =
      if policy.require_ac_power && on_battery snap.on_ac
      then false
      else if fl.lt (fl.of_int policy.max_cpu_percent) snap.cpu_percent
      then false
      else if above policy.max_gpu_percent snap.gpu_percent
      then false
      else if check_user_activity && below idle_seconds snap.user_idle_s
      then false
      else true

  -- The next state by the state and the snapshot that is read.
  unfoldable pub next_state : ContributionState → IdleSnapshot F → ContributionState
  next_state paused snap = if is_idle true snap then active else paused
  next_state active snap = if is_idle policy.pause_on_user_activity snap then active else paused

  -- `_tick`, with the snapshot that `read_idle_snapshot` gives.
  unfoldable pub tick : IdleSnapshot F → Controller F → Controller F
  tick snap c =
      if policy.idle_only
      then record { state = next_state c.state snap; last_snapshot = some snap }
      else record c { state = active }

  -- `__init__`
  abbrev pub new_controller : Controller F
  new_controller = record { state = active; last_snapshot = none }

  -- `start`, then the loop: one tick for each snapshot, the first one first.
  unfoldable pub run_ticks : List (IdleSnapshot F) → Controller F → Controller F
  run_ticks [] c = c
  run_ticks (snap ∷ snaps) c = run_ticks snaps (tick snap c)
