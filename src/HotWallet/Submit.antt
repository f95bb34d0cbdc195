-- ===== src/HotWallet/Submit.antt =====
-- `_simulate` and `simulate_and_submit` of backend/app/core/hot_wallet.py. The RPC node is a parameter;
-- each request that is made is recorded, so that it can be said what is sent and when.
pub mod Safety
use crypto_arc_v.Prelude.{
  ℕ, String, Bool, true, false, not, Option, some, none, List, [], ◌∷◌, if◌then◌else◌, is_empty,
  str_eq,
}
use crypto_arc_v.Prelude.Result.{Result, ok, err}
use crypto_arc_v.Prelude.Text.{append}
use crypto_arc_v.HotWallet.Vault.{Signer, HotWalletVault, sign_transaction}

-- The JSON of a response as far as `_simulate` looks into it.
mutual
  pub data Json : Type 0 where
    null : Json
    other : String → Json
    object : Fields → Json

  pub data Fields : Type 0 where
    end : Fields
    member : String → Json → Fields → Fields

-- `key in value`, and `value[key]`
unfoldable pub find_member : String → Fields → Option Json
find_member key end = none
find_member key (member k v rest) =
    let later = find_member key rest in if str_eq k key then some v else later

pub record Simulation : Type 0 where
  pub passed : Bool
  pub warning : String
  pub error : String

unfoldable pub malformed_simulation_response : String → Simulation
malformed_simulation_response detail = record {
  passed = false;
  warning = "RPC simulation response was malformed.";
  error = append "malformed RPC simulation response: " detail;
}

pub record Rpc : Type 0 where
  -- `client.rpc("simulateTransaction", …)`; `none` if it raises
  pub simulate_transaction : String → Option Json
  -- the member `result` of `client.rpc("sendTransaction", …)`, empty if it is missing; it may raise
  pub send_transaction : String → Result String
  -- `json.dumps`
  pub dumps : Json → String

-- The last step: the member `err` of the value.
unfoldable simulation_verdict : (Json → String) → Option Json → Simulation
simulation_verdict dumps none = malformed_simulation_response "missing result.value.err"
simulation_verdict dumps (some null) = record { passed = true; warning = ""; error = "" }
simulation_verdict dumps (some failure) = record {
  passed = false;
  warning = "RPC simulation reported an error.";
  error = dumps failure;
}

unfoldable simulation_value : (Json → String) → Option Json → Simulation
unfolding simulation_verdict
simulation_value dumps none = malformed_simulation_response "missing result.value"
simulation_value dumps (some (object fields)) = simulation_verdict dumps (find_member "err" fields)
simulation_value dumps (some _) = malformed_simulation_response "result.value must be an object"

unfoldable simulation_result : (Json → String) → Option Json → Simulation
unfolding simulation_value
simulation_result dumps none = malformed_simulation_response "missing result"
simulation_result dumps (some (object fields)) = simulation_value dumps (find_member "value" fields)
simulation_result dumps (some _) = malformed_simulation_response "result must be an object"

-- `_simulate`, given the response
unfoldable pub simulate : (Json → String) → Option Json → Simulation
unfolding simulation_result
simulate dumps none = record {
  passed = false;
  warning = "";
  error = "Transaction simulation failed.";
}
simulate dumps (some (object fields)) = simulation_result dumps (find_member "result" fields)
simulate dumps (some _) = malformed_simulation_response "response must be an object"

pub data Request : Type 0 where
  simulate_request : String → Request
  send_request : String → Request

pub record Submission : Type 0 where
  pub transaction_signature : String
  pub signed_transaction_base64 : String
  pub signature : String
  pub simulation : Simulation

module _ {K : Type 0} (s : Signer K) (rpc : Rpc) where
  unfoldable pub simulation_of : String → Simulation
  simulation_of signed = simulate rpc.dumps (rpc.simulate_transaction signed)

  -- What follows a simulation that has passed.
  unfoldable submit_signed : String → String → Simulation → Result String → Result Submission
  submit_signed own signed simulation (err x) = err x
  submit_signed own signed simulation (ok answer) = ok (record {
    transaction_signature = own;
    signed_transaction_base64 = signed;
    signature = if is_empty answer then own else answer;
    simulation = simulation;
  })

  unfoldable submit : Result (String × String) → List Request × Result Submission
  unfolding submit_signed
  submit (err x) = ([], err x)
  submit (ok (own, signed)) =
      let simulation = simulation_of signed in
      let detail =
        if is_empty simulation.error
        then (if is_empty simulation.warning then "simulation failed" else simulation.warning)
        else simulation.error in
      if not simulation.passed
      then (simulate_request signed ∷ [], err (append "transaction simulation failed: " detail))
      else (
        simulate_request signed ∷ send_request signed ∷ [],
        submit_signed own signed simulation (rpc.send_transaction signed),
      )

  -- The requests that are made, and the result.
  unfoldable pub simulate_and_submit :
      String → String → HotWalletVault K → List Request × Result Submission
  unfolding submit
  simulate_and_submit unsigned expected_public_key v =
      submit (sign_transaction s unsigned expected_public_key v)
