-- ===== src/Examples/Signer.antt =====
-- A signer daemon with a cap of one SOL (tools/local_signer_daemon.py).
use crypto_arc_v.Prelude.{ℕ, ◌≡◌, refl, inl, String, true, false, ◌&&◌, none, some, [], ◌∷◌, arith}
use crypto_arc_v.Prelude.Int.{pos}
use crypto_arc_v.Prelude.Result.{ok}
use crypto_arc_v.Prelude.Text.{append, strip}
use crypto_arc_v.Number.Fixed.{Fixed, fixed_float}
use crypto_arc_v.HotWallet.Vault.{Signer, sign}
use crypto_arc_v.HotWallet.Submit.{null, object, end, member, Rpc, find_member}
use crypto_arc_v.SignerDaemon.Execution.{
  SignerDaemonConfig, number_amount, ExecuteRequest, execute, first_guard, is_unauthorized,
  amount_of, is_bad_amount, is_over_cap, execute_guards, after_guards, send_signed, executed,
  simulate_transaction, daemon_result, daemon_value, daemon_verdict,
}
use crypto_arc_v.SignerDaemon.Execution.Safety.{Sends, IsPermitted, execute-Sends}
use crypto_arc_v.SignerDaemon.Probes.{
  Probes, no_probes, get_or_start_rpc_health_probe, time_out, start, finish, leave, healthy,
  IsReachable, initially, and_then, start_step, time_out_step, finish_step, leave_step, new_probe,
  get_or_start_from, mark_expired,
}
use crypto_arc_v.SignerDaemon.Probes.Freshness.{get_or_start-IsFresh}

abbrev signer : Signer ℕ
signer = record {
  pubkey = λ k. "wallet";
  to_bytes = λ k. k ∷ [];
  from_bytes = λ b. some 1;
  encode_secret = λ b t. b;
  decode_secret = λ b. some (b, "wallet");
  decode_text = λ t. some (1 ∷ []);
  encode_text = λ b. "signed";
  message_of = λ b. some b;
  sign_message = λ k m. k ∷ m;
  signature_text = λ b. "sig";
  populate = λ m signature. signature;
}

abbrev node : Rpc
node = record {
  simulate_transaction = λ t.
      some (
        object
          (member "result" (object (member "value" (object (member "err" null end)) end)) end));
  send_transaction = λ t. ok "answer";
  dumps = λ j. "{}";
}

abbrev config : SignerDaemonConfig ℕ Fixed
config = record {
  host = "127.0.0.1";
  port = pos 8799;
  auth_token = "0123456789abcdef0123456789abcdef";
  keypair = some 1;
  rpc_url = "https://node";
  allow_submit = true;
  max_trade_sol = fixed_float.number.lit 1 0;
  version = "1";
}

abbrev request : ExecuteRequest Fixed
request = record {
  unsigned_transaction_base64 = "unsigned";
  rpc_url = "";
  amount_sol = number_amount (fixed_float.number.lit 5 1);
}

abbrev bearer : String
bearer = "Bearer 0123456789abcdef0123456789abcdef"

sent : Sends "signed" (execute signer node fixed_float (λ s. none) config bearer request).0
unfolding execute first_guard is_unauthorized amount_of is_bad_amount is_over_cap execute_guards
    after_guards send_signed executed simulate_transaction daemon_result daemon_value daemon_verdict
    append strip find_member sign
sent = inl refl

execute-Sends_example :
    IsPermitted signer node fixed_float (λ s. none) config bearer request "signed"
execute-Sends_example =
    execute-Sends signer node fixed_float (λ s. none) config bearer request "signed" sent

-- The probe of the address has timed out, then its thread has left.
abbrev left : Probes
left =
    leave 0
      (finish 0 healthy (time_out 0 (get_or_start_rpc_health_probe "https://node" no_probes).0))

left-IsReachable : IsReachable left
unfolding get_or_start_rpc_health_probe get_or_start_from start no_probes new_probe time_out
    mark_expired finish
left-IsReachable =
    and_then
      (and_then
        (and_then (and_then initially (start_step "https://node")) (time_out_step 0 (omega arith)))
        (finish_step 0 healthy (omega arith)))
      (leave_step 0 (omega arith) refl)

get_or_start-IsFresh_example :
    let started = get_or_start_rpc_health_probe "https://node" left in
    (started.0.registry "https://node" ≡ some started.1)
    × ((started.0.probe started.1).url ≡ "https://node")
    × (((started.0.probe started.1).expired && (started.0.probe started.1).ended) ≡ false)
get_or_start-IsFresh_example = get_or_start-IsFresh "https://node" left left-IsReachable
