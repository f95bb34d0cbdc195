-- ===== src/SignerDaemon/Execution.antt =====
-- `SignerDaemonConfig`, `require_auth`, `execute` and `simulate_transaction` of
-- tools/local_signer_daemon.py. A guard of `execute` raises an `HTTPException`, which is its status and
-- its detail; the signer and the RPC node are parameters, and each request to the node is recorded.
pub mod Safety
use crypto_arc_v.Prelude.{
  ℕ, String, Bool, true, false, not, ◌&&◌, ◌||◌, Option, some, none, List, [], ◌∷◌, if◌then◌else◌,
  is_empty, str_eq, ltb,
}
use crypto_arc_v.Prelude.Int.{ℤ, pos, leb_ℤ}
use crypto_arc_v.Prelude.Result.{Result, ok, err, ◌>>◌, raise_if}
use crypto_arc_v.Prelude.Text.{append, strip, text_length}
use crypto_arc_v.Number.{Number, Float}
use crypto_arc_v.HotWallet.Vault.{Signer, sign}
use crypto_arc_v.HotWallet.Submit.{
  Json, null, object, Fields, find_member, Simulation, malformed_simulation_response, Rpc, Request,
  simulate_request, send_request,
}

pub record SignerDaemonConfig (K F : Type 0) : Type 0 where
  pub host : String
  pub port : ℤ
  pub auth_token : String
  pub keypair : Option K
  pub rpc_url : String
  pub allow_submit : Bool
  pub max_trade_sol : F
  pub version : String

abbrev pub min_auth_token_length : ℕ
min_auth_token_length = 32

abbrev pub has_key : {K : Type 0} → Option K → Bool
has_key none = false
has_key (some k) = true

-- A float that is not finite, or is not above zero
abbrev pub is_no_amount : {F : Type 0} → Float F → F → Bool
is_no_amount f x = not (f.is_finite x) || f.number.le x (f.number.lit 0 0)

-- `__post_init__`
unfoldable pub post_init :
    {K F : Type 0} → Float F → SignerDaemonConfig K F → Result (SignerDaemonConfig K F)
post_init f c = do
  raise_if (not (str_eq c.host "127.0.0.1" || str_eq c.host "localhost"))
      "local signer daemon must bind localhost-only"
  raise_if (leb_ℤ c.port (pos 0)) "port must be greater than zero"
  raise_if (is_no_amount f c.max_trade_sol) "max_trade_sol must be finite and greater than zero"
  raise_if
      ((has_key c.keypair || c.allow_submit)
        && ltb (text_length (strip c.auth_token)) min_auth_token_length)
      "auth_token must be at least 32 characters when a key or submit mode is configured"
  ok c

-- `amount_sol: object | None` of the request, as `execute` reads it
pub data Amount (F : Type 0) : Type 0 where
  bool_amount : Bool → Amount F
  -- an `int` or a `float`
  number_amount : F → Amount F
  text_amount : String → Amount F
  -- `None`, a list or a dict, of which `float` raises a TypeError
  other_amount : Amount F

pub record ExecuteRequest (F : Type 0) : Type 0 where
  pub unsigned_transaction_base64 : String
  pub rpc_url : String
  pub amount_sol : Amount F

-- A response, or the status and the detail of the `HTTPException` that a handler has raised.
pub data Http (A : Type 0) : Type 0 where
  response : A → Http A
  http_error : ℕ → String → Http A
  -- any other exception
  raised : String → Http A

pub record Execution : Type 0 where
  pub transaction_signature : String
  pub signed_transaction_base64 : String
  pub signature : String
  pub simulation : Simulation

-- `simulate_transaction` from the response on, step by step
unfoldable pub daemon_verdict : (Json → String) → Option Json → Simulation
daemon_verdict dumps none = malformed_simulation_response "missing result.value.err"
daemon_verdict dumps (some null) = record { passed = true; warning = ""; error = "" }
daemon_verdict dumps (some failure) = record {
  passed = false;
  warning = "RPC simulation reported an error.";
  error = dumps failure;
}

unfoldable pub daemon_value : (Json → String) → Option Json → Simulation
unfolding daemon_verdict
daemon_value dumps none = malformed_simulation_response "missing result.value"
daemon_value dumps (some (object fields)) = daemon_verdict dumps (find_member "err" fields)
daemon_value dumps (some _) = malformed_simulation_response "result.value must be an object"

unfoldable pub daemon_result : (Json → String) → Option Json → Simulation
unfolding daemon_value
daemon_result dumps none = malformed_simulation_response "missing result"
daemon_result dumps (some (object fields)) = daemon_value dumps (find_member "value" fields)
daemon_result dumps (some _) = malformed_simulation_response "result must be an object"

-- `none` is a call that raised
unfoldable pub simulate_transaction : (Json → String) → Option Json → Simulation
unfolding daemon_result
simulate_transaction dumps none = record {
  passed = false;
  warning = "";
  error = "RPC simulation failed.";
}
simulate_transaction dumps (some (object fields)) =
    daemon_result dumps (find_member "result" fields)
simulate_transaction dumps (some _) = malformed_simulation_response "response must be an object"

-- The first guard of a row of `if failed: raise HTTPException(status, detail)` that fails.
unfoldable pub first_guard : List (Bool × (ℕ × String)) → Option (ℕ × String)
first_guard [] = none
first_guard ((failed, answer) ∷ guards) =
    let rest = first_guard guards in if failed then some answer else rest

-- `if config.auth_token and authorization != f"Bearer {config.auth_token}"`
unfoldable pub is_unauthorized : String → String → Bool
is_unauthorized auth_token authorization =
    not (is_empty auth_token) && not (str_eq authorization (append "Bearer " auth_token))

-- `float(payload.amount_sol)` of what is no `bool`; `none` if it raises
unfoldable pub amount_of : {F : Type 0} → (String → Option F) → Amount F → Option F
amount_of parse_float (bool_amount b) = none
amount_of parse_float (number_amount x) = some x
amount_of parse_float (text_amount s) = parse_float s
amount_of parse_float other_amount = none

-- No amount, or one that is not finite or not above zero: the three guards answer alike.
unfoldable pub is_bad_amount : {F : Type 0} → Float F → Option F → Bool
is_bad_amount f none = true
is_bad_amount f (some x) = is_no_amount f x

unfoldable pub is_over_cap : {F : Type 0} → Float F → F → Option F → Bool
is_over_cap f limit none = false
is_over_cap f limit (some x) = f.number.lt limit x

module _ {K F : Type 0} (f : Float F) (parse_float : String → Option F) where
  unfoldable pub execute_guards :
      SignerDaemonConfig K F → String → ExecuteRequest F → List (Bool × (ℕ × String))
  unfolding amount_of is_bad_amount is_over_cap
  execute_guards c authorization r =
      let url = strip r.rpc_url in
      let amount = amount_of parse_float r.amount_sol in
      (is_unauthorized c.auth_token authorization, (401, "signer daemon auth required"))
      ∷ (
        is_empty (strip r.unsigned_transaction_base64),
        (400, "unsigned_transaction_base64 is required"),
      )
      ∷ (not (has_key c.keypair), (409, "signer key is not configured"))
      ∷ (
        not (is_empty url) && not (str_eq url c.rpc_url),
        (400, "rpc_url must match the signer daemon configured RPC URL"),
      )
      ∷ (not c.allow_submit, (403, "signer daemon submission is disabled"))
      ∷ (is_bad_amount f amount, (400, "amount_sol must be finite and greater than zero"))
      ∷ (
        is_over_cap f c.max_trade_sol amount,
        (403, "amount exceeds signer daemon max_trade_sol policy"),
      )
      ∷ []

module _ {K : Type 0} (s : Signer K) (rpc : Rpc) where
  unfoldable pub executed : String → String → Simulation → Result String → Http Execution
  executed own signed simulation (err x) = raised x
  executed own signed simulation (ok answer) = response (record {
    transaction_signature = own;
    signed_transaction_base64 = signed;
    signature = if is_empty answer then own else answer;
    simulation = simulation;
  })

  -- What follows the signature: the simulation, and the transaction if it has passed.
  unfoldable pub send_signed : Result (String × String) → List Request × Http Execution
  unfolding executed
  send_signed (err x) = ([], raised x)
  send_signed (ok (own, signed)) =
      let simulation = simulate_transaction rpc.dumps (rpc.simulate_transaction signed) in
      if not simulation.passed
      then (simulate_request signed ∷ [], http_error 409 "simulation failed")
      else (
        simulate_request signed ∷ send_request signed ∷ [],
        executed own signed simulation (rpc.send_transaction signed),
      )

  unfoldable pub after_guards :
      Option K → String → Option (ℕ × String) → List Request × Http Execution
  unfolding send_signed
  after_guards keypair unsigned (some (status, detail)) = ([], http_error status detail)
  after_guards none unsigned none = ([], raised "NoneType has no attribute sign_message")
  after_guards (some k) unsigned none = send_signed (sign s k unsigned)

  -- `execute` behind `require_auth`: the requests to the node, and the answer.
  unfoldable pub execute :
      {F : Type 0}
      → Float F
      → (String → Option F)
      → SignerDaemonConfig K F
      → String
      → ExecuteRequest F
      → List Request × Http Execution
  unfolding after_guards
  execute f parse_float c authorization r =
      after_guards c.keypair r.unsigned_transaction_base64
        (first_guard (execute_guards f parse_float c authorization r))
