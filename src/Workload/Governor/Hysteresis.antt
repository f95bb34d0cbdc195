-- ===== src/Workload/Governor/Hysteresis.antt =====
-- When `observe` sheds the optional tiers and when it gives them back.
use crypto_arc_v.Prelude.{
  ◌+◌, ◌≤◌, ◌<◌, ◌≡◌, ◌⊎◌, refl, String, Bool, true, false, not, List, [], ◌∷◌, arith, is_nil,
  length, All, leb, if◌then◌else◌, inl, inr, Bool-cases, ◌&&◌, ◌||◌, ltb, contains, All-contains,
  subst, sym,
}
use crypto_arc_v.Prelude.Int.{ℤ, leb_ℤ}
use crypto_arc_v.Number.{Number}
use crypto_arc_v.Workload.Governor.{
  CriticalMetrics, WorkloadGovernor, new, pressure_reasons, count_window, publish, observe,
  shed_order, core_tiers, allowed,
}

-- What holds between two windows.
pub record IsValid (g : WorkloadGovernor) : Type 0 where
  pub failures_pos : 1 ≤ g.consecutive_failures
  pub recovery_pos : 1 ≤ g.required_recovery_windows
  pub shed : (g.disabled ≡ []) ⊎ (g.disabled ≡ shed_order)
  pub open_streak : is_nil g.disabled ≡ true → g.failures < g.consecutive_failures
  pub open_recoveries : is_nil g.disabled ≡ true → g.recoveries ≡ 0
  pub shed_recoveries : is_nil g.disabled ≡ false → g.recoveries < g.required_recovery_windows
  pub streak : 1 ≤ g.failures → g.recoveries ≡ 0

pub new-IsValid : (f r : ℤ) → IsValid (new f r)
unfolding new
new-IsValid f r = ground arith

count_window-IsValid : (b : Bool) (g : WorkloadGovernor) → IsValid g → IsValid (count_window b g)
unfolding count_window
count_window-IsValid true g v = ground arith
count_window-IsValid false g v = ground arith

-- `publish` touches no counter.
publish-IsValid : (rs : List String) (g : WorkloadGovernor) → IsValid g → IsValid (publish rs g)
unfolding publish
publish-IsValid rs g v = record {
  failures_pos = v.failures_pos;
  recovery_pos = v.recovery_pos;
  shed = v.shed;
  open_streak = v.open_streak;
  open_recoveries = v.open_recoveries;
  shed_recoveries = v.shed_recoveries;
  streak = v.streak;
}

at_version-IsValid :
    (w : ℤ) (g : WorkloadGovernor) → IsValid g → IsValid (record g { snapshot_version = w })
at_version-IsValid w g v = record {
  failures_pos = v.failures_pos;
  recovery_pos = v.recovery_pos;
  shed = v.shed;
  open_streak = v.open_streak;
  open_recoveries = v.open_recoveries;
  shed_recoveries = v.shed_recoveries;
  streak = v.streak;
}

module _ {F : Type 0} ⦃n : Number F⦄ where
  abbrev pub has_pressure : CriticalMetrics F → Bool
  has_pressure m = not (is_nil (pressure_reasons m))

  observe_fresh :
      (m : CriticalMetrics F) (g : WorkloadGovernor)
      → leb_ℤ m.snapshot_version g.snapshot_version ≡ false
      → observe m g
        ≡ publish
            (pressure_reasons m)
            (count_window (has_pressure m) (record g { snapshot_version = m.snapshot_version }))
  unfolding observe
  observe_fresh m g e = rw e

  observe_stale :
      (m : CriticalMetrics F) (g : WorkloadGovernor)
      → leb_ℤ m.snapshot_version g.snapshot_version ≡ true
      → observe m g ≡ g
  unfolding observe
  observe_stale m g e = rw e

  pub observe-IsValid :
      (m : CriticalMetrics F) (g : WorkloadGovernor) → IsValid g → IsValid (observe m g)
  observe-IsValid m g v = elim (Bool-cases (leb_ℤ m.snapshot_version g.snapshot_version)) [
    | inl e ↦ rw (observe_stale m g e) v
    | inr e ↦
        rw (observe_fresh m g e) (
          publish-IsValid _ _
            (count_window-IsValid _ _ (at_version-IsValid m.snapshot_version g v)))
  ]

  -- The windows come in order, each with a newer version than the one before.
  abbrev pub IsFresh : ℤ → List (CriticalMetrics F) → Type 0
  IsFresh v [] = Unit
  IsFresh v (m ∷ ms) = (leb_ℤ m.snapshot_version v ≡ false) × IsFresh m.snapshot_version ms

  pub observe_all : List (CriticalMetrics F) → WorkloadGovernor → WorkloadGovernor
  observe_all [] g = g
  observe_all (m ∷ ms) g = observe_all ms (observe m g)

  observe_pressure :
      (m : CriticalMetrics F) (g : WorkloadGovernor)
      → leb_ℤ m.snapshot_version g.snapshot_version ≡ false
      → has_pressure m ≡ true
      → let g' = observe m g in
        (g'.failures ≡ g.failures + 1)
        × (g'.recoveries ≡ 0)
        × (g'.disabled
            ≡ (if leb g.consecutive_failures (g.failures + 1) then shed_order else g.disabled))
        × (g'.snapshot_version ≡ m.snapshot_version)
        × (g'.consecutive_failures ≡ g.consecutive_failures)
        × (g'.required_recovery_windows ≡ g.required_recovery_windows)
  unfolding publish count_window
  observe_pressure m g e h = rw (observe_fresh m g e) (rw h (refl, refl, refl, refl, refl, refl))

  observe_calm :
      (m : CriticalMetrics F) (g : WorkloadGovernor)
      → leb_ℤ m.snapshot_version g.snapshot_version ≡ false
      → has_pressure m ≡ false
      → is_nil g.disabled ≡ false
      → let g' = observe m g in
        (is_nil g'.disabled ≡ leb g.required_recovery_windows (g.recoveries + 1))
        × (is_nil g'.disabled ≡ false → g'.recoveries ≡ g.recoveries + 1)
        × (g'.snapshot_version ≡ m.snapshot_version)
        × (g'.required_recovery_windows ≡ g.required_recovery_windows)
  unfolding publish count_window
  observe_calm m g e h d = rw (observe_fresh m g e) (rw (h, d) (ground arith))

  observe-is_nil :
      (m : CriticalMetrics F) (g : WorkloadGovernor)
      → leb_ℤ m.snapshot_version g.snapshot_version ≡ false
      → has_pressure m ≡ false
      → is_nil g.disabled ≡ true
      → let g' = observe m g in
        (is_nil g'.disabled ≡ true) × (g'.snapshot_version ≡ m.snapshot_version)
  unfolding publish count_window
  observe-is_nil m g e h d = rw (observe_fresh m g e) (rw (h, d) (d, refl))

  -- While every window shows pressure, the optional tiers are enabled exactly until the streak of
  -- such windows, those before included, reaches `consecutive_failures`; tiers that are already shed
  -- stay shed.
  pub observe_all_pressure :
      (ms : List (CriticalMetrics F)) (g : WorkloadGovernor)
      → IsValid g
      → IsFresh g.snapshot_version ms
      → All (λ m. has_pressure m ≡ true) ms
      → is_nil (observe_all ms g).disabled
        ≡ (is_nil g.disabled && ltb (g.failures + length ms) g.consecutive_failures)
  unfolding observe_all
  observe_all_pressure [] g v f p = ground (arith, v.open_streak)
  observe_all_pressure (m ∷ ms) g v (f, fs) (p, ps) =
      let one = observe_pressure m g f p in
      let fresh : IsFresh (observe m g).snapshot_version ms =
        subst (λ w. IsFresh w ms) (sym one.3) fs in
      ground (arith, one, observe_all_pressure ms (observe m g) (observe-IsValid m g v) fresh ps)

  -- While no window shows pressure, shed tiers come back exactly when the calm windows in a row,
  -- those before included, reach `required_recovery_windows`; enabled tiers stay enabled.
  pub observe_all_calm :
      (ms : List (CriticalMetrics F)) (g : WorkloadGovernor)
      → IsValid g
      → IsFresh g.snapshot_version ms
      → All (λ m. has_pressure m ≡ false) ms
      → is_nil (observe_all ms g).disabled
        ≡ (is_nil g.disabled || leb g.required_recovery_windows (g.recoveries + length ms))
  unfolding observe_all
  observe_all_calm [] g v f p = ground (arith, v.shed_recoveries)
  observe_all_calm (m ∷ ms) g v (f, fs) (p, ps) = elim (Bool-cases (is_nil g.disabled)) [
    | inl d ↦
        let one = observe-is_nil m g f p d in
        let fresh : IsFresh (observe m g).snapshot_version ms =
          subst (λ w. IsFresh w ms) (sym one.1) fs in
        ground (arith, one, observe_all_calm ms (observe m g) (observe-IsValid m g v) fresh ps)
    | inr d ↦
        let one = observe_calm m g f p d in
        let fresh : IsFresh (observe m g).snapshot_version ms =
          subst (λ w. IsFresh w ms) (sym one.2) fs in
        ground (arith, one, observe_all_calm ms (observe m g) (observe-IsValid m g v) fresh ps)
  ]

core-ne-shed : (tier : String) → contains tier core_tiers ≡ true → contains tier shed_order ≡ false
core-ne-shed tier h =
    All-contains (λ t. contains t shed_order ≡ false) tier core_tiers
      (refl, (refl, (refl, (refl, (refl, tt))))) h

-- In every state that the governor can be in, a tier is refused exactly when the governor sheds and
-- the tier is one of the four optional ones; so no core tier is ever refused.
pub allowed_lem :
    (tier : String) (g : WorkloadGovernor)
    → IsValid g
    → allowed tier g ≡ (is_nil g.disabled || not (contains tier shed_order))
unfolding allowed
allowed_lem tier g v = ground (arith, v.shed, core-ne-shed tier)
