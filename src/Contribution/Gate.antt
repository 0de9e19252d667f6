-- ===== src/Contribution/Gate.antt =====
-- When a node is available.
use mesh_compute.Prelude.{
  ◌≡◌, inl, inr, refl, sym, subst, ◌∙◌, Bool, true, false, List, [], ◌∷◌, ◌++◌, arith,
  if◌then◌else◌, Bool-cases, nat_eq, list_eq,
}
use mesh_compute.Python.{Floats}
use mesh_compute.Contribution.Controller.{
  is_active, ContributionState, active, paused, Controller, next_state, is_available, run_ticks,
  IdleSnapshot, is_idle, ContributionPolicy, tick,
}

is_active-if : (b : Bool) → is_active (if b then active else paused) ≡ b
is_active-if true = refl
is_active-if false = refl

module _ {F : Type 0} ⦃fl : Floats F⦄ (policy : ContributionPolicy) where
  -- Idle with the user's activity counted is idle without.
  is_idle-weaken :
      (snap : IdleSnapshot F) (b : Bool)
      → is_idle policy b snap ≡ true
      → is_idle policy false snap ≡ true
  unfolding is_idle
  is_idle-weaken snap b h = ground arith

  next_state_lem :
      (snap : IdleSnapshot F) (s : ContributionState)
      → (is_active (next_state policy s snap) ≡ true → is_idle policy false snap ≡ true)
        × (s ≡ paused → is_active (next_state policy s snap) ≡ is_idle policy true snap)
        × (s ≡ active
            → is_active (next_state policy s snap)
              ≡ is_idle policy policy.pause_on_user_activity snap)
  unfolding next_state
  next_state_lem snap paused =
      let same = is_active-if (is_idle policy true snap) in
      ((λ h. is_idle-weaken snap true (sym same ∙ h)), (λ e. same), λ e. absurd (cc e))
  next_state_lem snap active =
      let same = is_active-if (is_idle policy policy.pause_on_user_activity snap) in
      (
        (λ h. is_idle-weaken snap policy.pause_on_user_activity (sym same ∙ h)),
        (λ e. absurd (cc e)),
        λ e. same,
      )

  -- With `idle_only`, a node that is available after a tick has a snapshot within the limits on
  -- power, CPU and GPU; if it was paused, also the user has been idle for long enough. A node that
  -- was available stays so exactly when the snapshot is within those limits and, if user activity
  -- pauses, the user has been idle for long enough.
  pub tick_lem :
      (snap : IdleSnapshot F) (c : Controller F)
      → policy.idle_only ≡ true
      → (is_available (tick policy snap c) ≡ true → is_idle policy false snap ≡ true)
        × (c.state ≡ paused → is_available (tick policy snap c) ≡ is_idle policy true snap)
        × (c.state ≡ active
            → is_available (tick policy snap c) ≡ is_idle policy policy.pause_on_user_activity snap)
  unfolding tick is_available next_state is_idle
  tick_lem snap c gated = rw gated (next_state_lem snap c.state)

  run_ticks-append :
      (snaps : List (IdleSnapshot F)) (snap : IdleSnapshot F) (c : Controller F)
      → run_ticks policy (snaps ++ snap ∷ []) c ≡ tick policy snap (run_ticks policy snaps c)
  unfolding run_ticks
  run_ticks-append [] snap c = refl
  run_ticks-append (s ∷ snaps) snap c = run_ticks-append snaps snap (tick policy s c)

  -- After any history of snapshots, with `idle_only`: a node whose last snapshot breaks a limit on
  -- power, CPU or GPU is not available, whatever came before.
  pub run_ticks-overloaded :
      (snaps : List (IdleSnapshot F)) (snap : IdleSnapshot F) (c : Controller F)
      → policy.idle_only ≡ true
      → is_idle policy false snap ≡ false
      → is_available (run_ticks policy (snaps ++ snap ∷ []) c) ≡ false
  run_ticks-overloaded snaps snap c gated broken =
      elim (Bool-cases (is_available (run_ticks policy (snaps ++ snap ∷ []) c))) [
        | inr no_work ↦ no_work
        | inl working ↦ absurd (
            let (limits, _, _) = tick_lem snap (run_ticks policy snaps c) gated in
            let within =
              limits (subst (λ x. is_available x ≡ true) (run_ticks-append snaps snap c) working) in
            cc)
      ]
