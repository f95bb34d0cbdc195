-- ===== src/SignerDaemon/Probes.antt =====
-- The health probes of tools/local_signer_daemon.py: `submission_readiness`,
-- `get_or_start_rpc_health_probe` and `run_rpc_health_probe`. A probe is a number, what it holds is the
-- state's; each section that holds the lock is one step, and the steps of requests and of the probes'
-- threads come in any order.
pub mod Freshness
use crypto_arc_v.Prelude.{
  ℕ, suc, ◌<◌, ◌≡◌, String, Bool, true, false, not, ◌&&◌, ◌||◌, Option, some, none, if◌then◌else◌,
  str_eq, ◌==◌, ltb,
}
use crypto_arc_v.Prelude.Text.{text_length, strip}
use crypto_arc_v.SignerDaemon.Execution.{SignerDaemonConfig, has_key, min_auth_token_length}

-- The answer of `getHealth`: the result "ok", anything else, or an exception.
pub data Answer : Type 0 where
  healthy malformed failure : Answer

-- `RpcHealthProbe` with the address that its thread was started for; `answer` is `none` until `done` is
-- set, and `ended` says that its thread has left.
pub record RpcHealthProbe : Type 0 where
  pub url : String
  pub answer : Option Answer
  pub done : Bool
  pub expired : Bool
  pub ended : Bool

pub record Probes : Type 0 where
  -- `_RPC_HEALTH_PROBES`
  pub registry : String → Option ℕ
  pub probe : ℕ → RpcHealthProbe
  -- the probe that the next thread gets
  pub next : ℕ

unfoldable pub new_probe : String → RpcHealthProbe
new_probe url = record { url = url; answer = none; done = false; expired = false; ended = false }

unfoldable pub no_probes : Probes
unfolding new_probe
no_probes = record { registry = λ url. none; probe = λ i. new_probe ""; next = 0 }

abbrev pub at : {A : Type 0} → ℕ → A → (ℕ → A) → ℕ → A
at i a f j = if j == i then a else f j

abbrev pub at_url : String → Option ℕ → (String → Option ℕ) → String → Option ℕ
at_url url found f other = if str_eq other url then found else f other

-- `if _RPC_HEALTH_PROBES.get(url) is probe: _RPC_HEALTH_PROBES.pop(url, None)`
abbrev pub is_registered : Option ℕ → ℕ → Bool
is_registered none i = false
is_registered (some j) i = j == i

unfoldable pub drop_probe : ℕ → Probes → Probes
drop_probe i st =
    if is_registered (st.registry (st.probe i).url) i
    then record st { registry = at_url (st.probe i).url none st.registry }
    else st

unfoldable pub start : String → Probes → Probes × ℕ
start url st = (
  record st {
    registry = at_url url (some st.next) st.registry;
    probe = at st.next (new_probe url) st.probe;
    next = suc st.next;
  },
  st.next,
)

unfoldable pub get_or_start_from : String → Probes → Option ℕ → Probes × ℕ
get_or_start_from url st none = start url st
get_or_start_from url st (some i) =
    if not (st.probe i).expired || not (st.probe i).done then (st, i) else start url st

-- `get_or_start_rpc_health_probe`
unfoldable pub get_or_start_rpc_health_probe : String → Probes → Probes × ℕ
unfolding get_or_start_from
get_or_start_rpc_health_probe url st = get_or_start_from url st (st.registry url)

-- The thread's call has returned or raised: `probe.done.set()`
unfoldable pub finish : ℕ → Answer → Probes → Probes
finish i answer st = record st {
  probe = at i (record (st.probe i) { answer = some answer; done = true }) st.probe;
}

unfoldable pub mark_ended : ℕ → Probes → Probes
mark_ended i st = record st { probe = at i (record (st.probe i) { ended = true }) st.probe }

-- `probe.expired = True`
unfoldable pub mark_expired : ℕ → Probes → Probes
mark_expired i st = record st { probe = at i (record (st.probe i) { expired = true }) st.probe }

-- The rest of the thread's `finally`
unfoldable pub leave : ℕ → Probes → Probes
leave i st = if (st.probe i).expired then drop_probe i (mark_ended i st) else mark_ended i st

-- A request's wait has timed out.
unfoldable pub time_out : ℕ → Probes → Probes
time_out i st = if (st.probe i).done then drop_probe i (mark_expired i st) else mark_expired i st

-- A request's wait has seen `done`: both branches drop the probe.
unfoldable pub collect : ℕ → Probes → Probes
collect i st = drop_probe i st

-- What a request reads of its probe after the lock: the answer if the probe has not expired.
unfoldable pub answer_readiness : Option Answer → Bool × String
answer_readiness (some failure) = (false, "Configured Solana RPC health probe failed.")
answer_readiness (some healthy) = (true, "")
answer_readiness _ = (false, "Configured Solana RPC health probe returned a malformed response.")

-- `submission_readiness`, given what it reads of its probe: whether it has expired already, whether the
-- wait saw `done`, whether it has expired by then, and the answer.
unfoldable pub submission_readiness :
    {K F : Type 0} → SignerDaemonConfig K F → Bool → Bool → Bool → Option Answer → Bool × String
unfolding answer_readiness
submission_readiness c expired_before waited expired_after answer =
    if not (has_key c.keypair)
    then (false, "CRYPTOARC_SIGNER_PRIVATE_KEY is not configured.")
    else if not c.allow_submit
    then (false, "Signer daemon submission is disabled.")
    else if ltb (text_length (strip c.auth_token)) min_auth_token_length
    then (false, "Signer daemon auth is not configured.")
    else if expired_before || not waited || expired_after
    then (false, "Configured Solana RPC health probe timed out.")
    else answer_readiness answer

-- One step of a request or of a thread; a probe that has been started is under `next`.
pub data Step : Probes → Probes → Type 0 where
  start_step : {st : Probes} (url : String) → Step st (get_or_start_rpc_health_probe url st).0
  finish_step : {st : Probes} (i : ℕ) (answer : Answer) → i < st.next → Step st (finish i answer st)
  leave_step : {st : Probes} (i : ℕ) → i < st.next → (st.probe i).done ≡ true → Step st (leave i st)
  time_out_step : {st : Probes} (i : ℕ) → i < st.next → Step st (time_out i st)
  collect_step :
      {st : Probes} (i : ℕ) → i < st.next → (st.probe i).done ≡ true → Step st (collect i st)

pub data IsReachable : Probes → Type 0 where
  initially : IsReachable no_probes
  and_then : {st next_st : Probes} → IsReachable st → Step st next_st → IsReachable next_st
