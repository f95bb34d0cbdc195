-- ===== src/Workload/Governor/Results.antt =====
-- `record_result` accepts the result of a job once, and the log of worker failures is bounded.
use crypto_arc_v.Prelude.{
  ◌+◌, ◌-◌, ◌≤◌, ◌≡◌, ◌⊎◌, inl, inr, refl, String, Bool, true, false, not, List, [], ◌∷◌, ◌++◌,
  arith, length, length-append, length-drop, if◌then◌else◌, ltb, Bool-cases, eq_refl, is_nil, min,
}
use crypto_arc_v.Prelude.Int.{ℤ, pos, ltb_ℤ, leb_ℤ, ◌-ℤ◌}
use crypto_arc_v.Prelude.Text.{append, take_text}
use crypto_arc_v.Number.{Number}
use crypto_arc_v.Workload.Governor.{
  CriticalMetrics, WorkloadGovernor, count_window, publish, observe, eq_ℤ, has_result, recent,
  pressure_reasons, record_result, record_worker_failure,
}

pub data Call (F : Type 0) : Type 0 where
  observe_call : CriticalMetrics F → Call F
  result_call : String → ℤ → Call F
  failure_call : String → String → Call F

-- The result of this job for this window has been taken, or its window is over.
abbrev pub IsTaken : ℤ → String → WorkloadGovernor → Type 0
IsTaken v k g =
    (ltb_ℤ v g.snapshot_version ≡ true)
    ⊎ ((eq_ℤ v g.snapshot_version ≡ true) × (has_result v k g.results ≡ true))

has_result-recent :
    (oldest v : ℤ) (k : String) (rs : List (ℤ × String))
    → leb_ℤ oldest v ≡ true
    → has_result v k (recent oldest rs) ≡ has_result v k rs
unfolding has_result recent
has_result-recent oldest v k [] h = refl
has_result-recent oldest v k ((w, j) ∷ rs) h = ground (arith, has_result-recent oldest v k rs)

count_window_keeps :
    (b : Bool) (g : WorkloadGovernor)
    → ((count_window b g).results ≡ g.results)
      × ((count_window b g).snapshot_version ≡ g.snapshot_version)
unfolding count_window
count_window_keeps true g = (refl, refl)
count_window_keeps false g = ground arith

-- The window that the pruning keeps contains the current one.
recent_window : (s v : ℤ) → eq_ℤ v s ≡ true → leb_ℤ (s -ℤ pos 5) v ≡ true
unfolding ◌-ℤ◌
recent_window s v h = ground arith

kept :
    (v w s : ℤ) (k j : String) (rs : List (ℤ × String))
    → eq_ℤ v s ≡ true
    → let added : List (ℤ × String) = (w, j) ∷ rs in
      has_result v k (if ltb 1000 (length added) then recent (s -ℤ pos 5) added else added)
      ≡ has_result v k added
kept v w s k j rs h = elim (Bool-cases (ltb 1000 (length ((w, j) ∷ rs)))) [
  | inl e ↦ rw e (has_result-recent (s -ℤ pos 5) v k ((w, j) ∷ rs) (recent_window s v h))
  | inr e ↦ rw e refl
]

pub record_result-IsTaken :
    (j : String) (w v : ℤ) (k : String) (g : WorkloadGovernor)
    → IsTaken v k g
    → IsTaken v k (record_result j w g).0
unfolding record_result
record_result-IsTaken j w v k g (inl old) = ground arith
record_result-IsTaken j w v k g (inr (now, has)) =
    ground (arith, kept v w g.snapshot_version k j g.results now)

-- An accepted result counts as taken.
accepted-IsTaken :
    (v : ℤ) (k : String) (g : WorkloadGovernor)
    → (record_result k v g).1 ≡ true
    → IsTaken v k (record_result k v g).0
unfolding record_result
accepted-IsTaken v k g h = ground (arith, kept v v g.snapshot_version k k g.results, eq_refl k)

-- A taken result is refused.
IsTaken-refused :
    (v : ℤ) (k : String) (g : WorkloadGovernor) → IsTaken v k g → (record_result k v g).1 ≡ false
unfolding record_result
IsTaken-refused v k g t = ground arith

module _ {F : Type 0} ⦃n : Number F⦄ where
  pub step : Call F → WorkloadGovernor → WorkloadGovernor
  step (observe_call m) g = observe m g
  step (result_call k v) g = (record_result k v g).0
  step (failure_call t e) g = record_worker_failure t e g

  pub run : List (Call F) → WorkloadGovernor → WorkloadGovernor
  run [] g = g
  run (c ∷ cs) g = run cs (step c g)

  -- The governor's results and window after `observe`.
  observe_keeps :
      (m : CriticalMetrics F) (g : WorkloadGovernor)
      → let g' = observe m g in
        (g'.results ≡ g.results)
        × (g'.snapshot_version ≡ (
            if leb_ℤ m.snapshot_version g.snapshot_version
            then g.snapshot_version
            else m.snapshot_version))
  unfolding observe publish
  observe_keeps m g = elim (Bool-cases (leb_ℤ m.snapshot_version g.snapshot_version)) [
    | inl e ↦ rw e (refl, refl)
    | inr e ↦ rw e (
        count_window_keeps (not (is_nil (pressure_reasons m)))
          (record g { snapshot_version = m.snapshot_version }))
  ]

  step-IsTaken :
      (c : Call F) (v : ℤ) (k : String) (g : WorkloadGovernor)
      → IsTaken v k g
      → IsTaken v k (step c g)
  unfolding step
  step-IsTaken (observe_call m) v k g t = ground (arith, observe_keeps m g)
  step-IsTaken (result_call j w) v k g t = record_result-IsTaken j w v k g t
  step-IsTaken (failure_call x e) v k g t = unfold record_worker_failure in t

  run-IsTaken :
      (cs : List (Call F)) (v : ℤ) (k : String) (g : WorkloadGovernor)
      → IsTaken v k g
      → IsTaken v k (run cs g)
  unfolding run
  run-IsTaken [] v k g t = t
  run-IsTaken (c ∷ cs) v k g t = run-IsTaken cs v k (step c g) (step-IsTaken c v k g t)

  -- Once the result of a job for a window has been accepted, it is refused for ever: whatever calls
  -- come between, the pruning of old results included.
  pub record_result_once :
      (k : String) (v : ℤ) (g : WorkloadGovernor) (cs : List (Call F))
      → (record_result k v g).1 ≡ true
      → (record_result k v (run cs (record_result k v g).0)).1 ≡ false
  record_result_once k v g cs h =
      IsTaken-refused v k _ (run-IsTaken cs v k _ (accepted-IsTaken v k g h))

-- The log of worker failures grows by one entry up to twenty, and never beyond.
pub record_worker_failure_bounded :
    (tier error : String) (g : WorkloadGovernor)
    → length g.worker_failures ≤ 20
    → let g' = record_worker_failure tier error g in
      (length g'.worker_failures ≤ 20)
      × (length g'.worker_failures ≡ min 20 (length g.worker_failures + 1))
unfolding record_worker_failure
record_worker_failure_bounded tier error g h =
    let entry = append tier (append ":" (take_text 160 error)) in
    let all = g.worker_failures ++ (entry ∷ []) in
    omega (arith, length-append g.worker_failures (entry ∷ []), length-drop (length all - 20) all)
