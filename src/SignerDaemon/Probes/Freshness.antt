-- ===== src/SignerDaemon/Probes/Freshness.antt =====
-- No address is stuck with a probe that has timed out.
use crypto_arc_v.Prelude.{
  ℕ, ◌<◌, ◌≡◌, inl, inr, refl, sym, ap, ◌∙◌, String, true, false, not, ◌&&◌, ◌||◌, some, arith,
  eq_iff, eq_refl, Bool-cases, Option-cases, str_eq, ◌==◌,
}
use crypto_arc_v.SignerDaemon.Probes.{
  Answer, Probes, new_probe, no_probes, is_registered, drop_probe, start, get_or_start_from,
  get_or_start_rpc_health_probe, finish, leave, time_out, mark_ended, mark_expired, collect, Step,
  start_step, finish_step, leave_step, time_out_step, collect_step, IsReachable, initially,
  and_then,
}

-- A registered probe belongs to its address, and one that has expired still has a thread, which will
-- drop it; a thread leaves only after it has set `done`.
pub record IsLive (st : Probes) : Type 0 where
  pub owned :
      (url : String) (i : ℕ) → st.registry url ≡ some i → (i < st.next) × ((st.probe i).url ≡ url)
  pub attended :
      (url : String) (i : ℕ)
      → st.registry url ≡ some i
      → ((st.probe i).expired && (st.probe i).ended) ≡ false
  pub finished : (i : ℕ) → (st.probe i).ended ≡ true → (st.probe i).done ≡ true

no_probes-IsLive : IsLive no_probes
unfolding no_probes new_probe
no_probes-IsLive = record {
  owned = λ url i h. absurd (ground (arith, h));
  attended = λ url i h. refl;
  finished = λ i h. h;
}

start-IsLive : (url : String) (st : Probes) → IsLive st → IsLive (start url st).0
unfolding start new_probe
start-IsLive url st v = record {
  owned = λ u i h. ground (arith, h, v.owned u i, eq_iff u url);
  attended = λ u i h. ground (arith, h, v.owned u i, v.attended u i);
  finished = λ i h. ground (arith, h, v.finished i);
}

finish-IsLive : (i : ℕ) (answer : Answer) (st : Probes) → IsLive st → IsLive (finish i answer st)
unfolding finish
finish-IsLive i answer st v = record {
  owned = λ u j h. ground (arith, v.owned u j h);
  attended = λ u j h. ground (arith, v.attended u j h);
  finished = λ j h. ground (arith, v.finished j);
}

-- The same, but for the probe `k`, which may have both expired and ended.
record IsLiveBut (k : ℕ) (st : Probes) : Type 0 where
  owned :
      (url : String) (i : ℕ) → st.registry url ≡ some i → (i < st.next) × ((st.probe i).url ≡ url)
  attended :
      (url : String) (i : ℕ)
      → st.registry url ≡ some i
      → (i == k) ≡ false
      → ((st.probe i).expired && (st.probe i).ended) ≡ false
  finished : (i : ℕ) → (st.probe i).ended ≡ true → (st.probe i).done ≡ true

is_registered-owner :
    (k : ℕ) (st : Probes) (url : String) (i : ℕ)
    → IsLiveBut k st
    → st.registry url ≡ some i
    → (i == k) ≡ true
    → is_registered (st.registry (st.probe k).url) k ≡ true
is_registered-owner k st url i v h e =
    let same : i ≡ k = ground (arith, e) in
    let own : (st.probe k).url ≡ url =
      ap (λ x. (st.probe x).url) (sym same) ∙ (v.owned url i h).1 in
    let found : st.registry (st.probe k).url ≡ some i = ap st.registry own ∙ h in
    ground (arith, found, e)

drop_probe-IsLive : (k : ℕ) (st : Probes) → IsLiveBut k st → IsLive (drop_probe k st)
unfolding drop_probe
drop_probe-IsLive k st v = elim (Bool-cases (is_registered (st.registry (st.probe k).url) k)) [
  | inr b ↦ rw b (record {
    owned = v.owned;
    attended = λ u j h. elim (Bool-cases (j == k)) [
      | inr d ↦ v.attended u j h d
      | inl d ↦ absurd (ground (arith, b, is_registered-owner k st u j v h d))
    ];
    finished = v.finished;
  })
  | inl b ↦ rw b (record {
    owned = λ u j h. ground (arith, h, v.owned u j);
    attended = λ u j h. elim (Bool-cases (j == k)) [
      | inr d ↦ ground (arith, h, v.attended u j)
      | inl d ↦
          let held : (str_eq u (st.probe k).url ≡ false) × (st.registry u ≡ some j) =
            ground (arith, h) in
          let same : j ≡ k = ground (arith, d) in
          let own : u ≡ (st.probe k).url =
            sym (v.owned u j held.1).1 ∙ ap (λ x. (st.probe x).url) same in
          absurd (ground (arith, (eq_iff u (st.probe k).url).1 own, held.0))
    ];
    finished = v.finished;
  })
]

mark_ended-IsLiveBut :
    (i : ℕ) (st : Probes) → (st.probe i).done ≡ true → IsLive st → IsLiveBut i (mark_ended i st)
unfolding mark_ended
mark_ended-IsLiveBut i st d v = record {
  owned = λ u j h. ground (arith, v.owned u j h);
  attended = λ u j h n. ground (arith, n, v.attended u j h);
  finished = λ j h. ground (arith, d, v.finished j);
}

mark_expired-IsLiveBut : (i : ℕ) (st : Probes) → IsLive st → IsLiveBut i (mark_expired i st)
unfolding mark_expired
mark_expired-IsLiveBut i st v = record {
  owned = λ u j h. ground (arith, v.owned u j h);
  attended = λ u j h n. ground (arith, n, v.attended u j h);
  finished = λ j h. ground (arith, v.finished j);
}

mark_ended-IsLive :
    (i : ℕ) (st : Probes)
    → (st.probe i).done ≡ true
    → (st.probe i).expired ≡ false
    → IsLive st
    → IsLive (mark_ended i st)
unfolding mark_ended
mark_ended-IsLive i st d e v = record {
  owned = λ u j h. ground (arith, v.owned u j h);
  attended = λ u j h. ground (arith, e, v.attended u j h);
  finished = λ j h. ground (arith, d, v.finished j);
}

mark_expired-IsLive :
    (i : ℕ) (st : Probes) → (st.probe i).done ≡ false → IsLive st → IsLive (mark_expired i st)
unfolding mark_expired
mark_expired-IsLive i st e v = record {
  owned = λ u j h. ground (arith, v.owned u j h);
  attended = λ u j h. ground (arith, e, v.attended u j h, v.finished i);
  finished = λ j h. ground (arith, v.finished j);
}

leave-IsLive : (i : ℕ) (st : Probes) → (st.probe i).done ≡ true → IsLive st → IsLive (leave i st)
unfolding leave
leave-IsLive i st d v = elim (Bool-cases (st.probe i).expired) [
  | inr e ↦ rw e (mark_ended-IsLive i st d e v)
  | inl e ↦ rw e (drop_probe-IsLive i (mark_ended i st) (mark_ended-IsLiveBut i st d v))
]

time_out-IsLive : (i : ℕ) (st : Probes) → IsLive st → IsLive (time_out i st)
unfolding time_out
time_out-IsLive i st v = elim (Bool-cases (st.probe i).done) [
  | inr e ↦ rw e (mark_expired-IsLive i st e v)
  | inl e ↦ rw e (drop_probe-IsLive i (mark_expired i st) (mark_expired-IsLiveBut i st v))
]

collect-IsLive : (i : ℕ) (st : Probes) → IsLive st → IsLive (collect i st)
unfolding collect
collect-IsLive i st v =
    drop_probe-IsLive i st
      (record { owned = v.owned; attended = λ u j h n. v.attended u j h; finished = v.finished })

get_or_start-IsLive :
    (url : String) (st : Probes) → IsLive st → IsLive (get_or_start_rpc_health_probe url st).0
unfolding get_or_start_rpc_health_probe get_or_start_from
get_or_start-IsLive url st v = elim (Option-cases (st.registry url)) [
  | inl e ↦ rw e (start-IsLive url st v)
  | inr (i, e) ↦ elim (Bool-cases (not (st.probe i).expired || not (st.probe i).done)) [
    | inl b ↦ rw (e, b) v
    | inr b ↦ rw (e, b) (start-IsLive url st v)
  ]
]

get_or_start-registered :
    (url : String) (st : Probes)
    → (get_or_start_rpc_health_probe url st).0.registry url
      ≡ some (get_or_start_rpc_health_probe url st).1
unfolding get_or_start_rpc_health_probe get_or_start_from start
get_or_start-registered url st = elim (Option-cases (st.registry url)) [
  | inl e ↦ rw e (ground (arith, eq_refl url))
  | inr (i, e) ↦ elim (Bool-cases (not (st.probe i).expired || not (st.probe i).done)) [
    | inl b ↦ ground (arith, e, b)
    | inr b ↦ ground (arith, e, b, eq_refl url)
  ]
]

Step-IsLive : {st next_st : Probes} → Step st next_st → IsLive st → IsLive next_st
Step-IsLive (start_step {st} url) v = get_or_start-IsLive url st v
Step-IsLive (finish_step {st} i answer b) v = finish-IsLive i answer st v
Step-IsLive (leave_step {st} i b d) v = leave-IsLive i st d v
Step-IsLive (time_out_step {st} i b) v = time_out-IsLive i st v
Step-IsLive (collect_step {st} i b d) v = collect-IsLive i st v

IsReachable-IsLive : {st : Probes} → IsReachable st → IsLive st
IsReachable-IsLive initially = no_probes-IsLive
IsReachable-IsLive (and_then r s) = Step-IsLive s (IsReachable-IsLive r)

-- Whatever the order of the requests' and the threads' steps, the probe that a request then gets is
-- registered under its address, was started for it, and is not one that has timed out and whose thread has
-- left: a timed-out probe is handed out only while its thread is still to finish.
pub get_or_start-IsFresh :
    (url : String) (st : Probes)
    → IsReachable st
    → let started = get_or_start_rpc_health_probe url st in
      (started.0.registry url ≡ some started.1)
      × ((started.0.probe started.1).url ≡ url)
      × (((started.0.probe started.1).expired && (started.0.probe started.1).ended) ≡ false)
get_or_start-IsFresh url st r =
    let v = get_or_start-IsLive url st (IsReachable-IsLive r) in
    let found = get_or_start-registered url st in
    (found, (v.owned url _ found).1, v.attended url _ found)
