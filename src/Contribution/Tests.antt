-- ===== src/Contribution/Tests.antt =====
-- A node on battery, and one whose user comes back.
use mesh_compute.Prelude.{ℕ, ◌≡◌, refl, true, false, none, some, nat_eq, list_eq}
use mesh_compute.Prelude.Int.{pos}
use mesh_compute.Sample.{nat_floats}
use mesh_compute.Contribution.Controller.{
  new_controller, IdleSnapshot, Controller, is_idle, ContributionPolicy,
}

abbrev policy : ContributionPolicy
policy = record {
  idle_only = true;
  max_gpu_percent = pos 90;
  max_cpu_percent = pos 50;
  idle_minutes_before_start = pos 10;
  pause_on_user_activity = false;
  require_ac_power = true;
}

abbrev quiet : IdleSnapshot ℕ
quiet = record { user_idle_s = some 700; cpu_percent = 5; gpu_percent = none; on_ac = some true }

abbrev unplugged : IdleSnapshot ℕ
unplugged = record quiet { on_ac = some false }

abbrev back : IdleSnapshot ℕ
back = record quiet { user_idle_s = some 2 }

abbrev started : Controller ℕ
started = new_controller policy

unplugged-broken : is_idle policy false unplugged ≡ false
unfolding is_idle
unplugged-broken = refl
