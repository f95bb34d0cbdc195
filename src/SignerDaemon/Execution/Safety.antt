-- ===== src/SignerDaemon/Execution/Safety.antt =====
-- What a transaction that the daemon sends has passed.
use crypto_arc_v.Prelude.{
  ℕ, ◌≡◌, ◌⊎◌, inl, inr, refl, sym, String, Bool, true, false, Option, some, none, List, [], ◌∷◌,
  arith, subst, false≢true, Bool-cases,
}
use crypto_arc_v.Prelude.Result.{Result, ok, err}
use crypto_arc_v.Number.{Float}
use crypto_arc_v.HotWallet.Vault.{Signer, sign}
use crypto_arc_v.HotWallet.Submit.{
  Json, null, other, object, Fields, find_member, malformed_simulation_response, Rpc, Request,
  simulate_request, send_request,
}
use crypto_arc_v.HotWallet.Submit.Safety.{IsClean, clean}
use crypto_arc_v.SignerDaemon.Execution.{
  SignerDaemonConfig, ExecuteRequest, is_no_amount, daemon_verdict, daemon_value, daemon_result,
  simulate_transaction, first_guard, is_unauthorized, amount_of, is_bad_amount, is_over_cap,
  execute_guards, send_signed, after_guards, execute,
}

daemon_verdict_passed :
    (dumps : Json → String) (answer : Option Json)
    → (daemon_verdict dumps answer).passed ≡ true
    → answer ≡ some null
unfolding daemon_verdict malformed_simulation_response
daemon_verdict_passed dumps none h = absurd (false≢true h)
daemon_verdict_passed dumps (some null) h = refl
daemon_verdict_passed dumps (some (other t)) h = absurd (false≢true h)
daemon_verdict_passed dumps (some (object fields)) h = absurd (false≢true h)

daemon_result_passed :
    (dumps : Json → String) (response : Fields) (answer value : Option Json) {result : Fields}
    → find_member "result" response ≡ some (object result)
    → find_member "value" result ≡ value
    → (daemon_value dumps value).passed ≡ true
    → IsClean (some (object response))
unfolding daemon_value malformed_simulation_response
daemon_result_passed dumps response answer none e d h = absurd (false≢true h)
daemon_result_passed dumps response answer (some null) e d h = absurd (false≢true h)
daemon_result_passed dumps response answer (some (other t)) e d h = absurd (false≢true h)
daemon_result_passed dumps response answer (some (object fields)) e d h =
    clean e d (daemon_verdict_passed dumps (find_member "err" fields) h)

daemon_response_passed :
    (dumps : Json → String) (response : Fields) (answer : Option Json)
    → find_member "result" response ≡ answer
    → (daemon_result dumps answer).passed ≡ true
    → IsClean (some (object response))
unfolding daemon_result malformed_simulation_response
daemon_response_passed dumps response none e h = absurd (false≢true h)
daemon_response_passed dumps response (some null) e h = absurd (false≢true h)
daemon_response_passed dumps response (some (other t)) e h = absurd (false≢true h)
daemon_response_passed dumps response (some (object fields)) e h =
    daemon_result_passed dumps response none (find_member "value" fields) e refl h

simulate_transaction_passed :
    (dumps : Json → String) (answer : Option Json)
    → (simulate_transaction dumps answer).passed ≡ true
    → IsClean answer
unfolding simulate_transaction malformed_simulation_response
simulate_transaction_passed dumps none h = absurd (false≢true h)
simulate_transaction_passed dumps (some null) h = absurd (false≢true h)
simulate_transaction_passed dumps (some (other t)) h = absurd (false≢true h)
simulate_transaction_passed dumps (some (object fields)) h =
    daemon_response_passed dumps fields (find_member "result" fields) refl h

-- None of the guards fails.
abbrev pub AllClear : List (Bool × (ℕ × String)) → Type 0
AllClear [] = Unit
AllClear ((failed, answer) ∷ guards) = (failed ≡ false) × AllClear guards

first_guard-AllClear :
    (guards : List (Bool × (ℕ × String))) → first_guard guards ≡ none → AllClear guards
unfolding first_guard
first_guard-AllClear [] h = tt
first_guard-AllClear ((true, answer) ∷ guards) h = absurd (cc)
first_guard-AllClear ((false, answer) ∷ guards) h = (refl, first_guard-AllClear guards h)

is_bad_amount_lem :
    {F : Type 0} (f : Float F) (amount : Option F)
    → is_bad_amount f amount ≡ false
    → (x : F) × (amount ≡ some x) × (is_no_amount f x ≡ false)
unfolding is_bad_amount
is_bad_amount_lem f none h = absurd (ground arith)
is_bad_amount_lem f (some x) h = (x, refl, h)

-- `send_request t` is one of the requests.
abbrev pub Sends : String → List Request → Type 0
Sends t [] = ⊥
Sends t (simulate_request u ∷ rest) = Sends t rest
Sends t (send_request u ∷ rest) = (t ≡ u) ⊎ Sends t rest

module _ {K F : Type 0} (s : Signer K) (rpc : Rpc) (f : Float F)
    (parse_float : String → Option F) where
  -- What a request needs for the transaction `t` to be sent.
  pub record IsPermitted (c : SignerDaemonConfig K F) (authorization : String)
      (r : ExecuteRequest F) (t : String) : Type 0 where
    pub key : K
    pub signature : String
    pub amount : F
    pub is_authorized : is_unauthorized c.auth_token authorization ≡ false
    pub is_configured : c.keypair ≡ some key
    pub is_allowed : c.allow_submit ≡ true
    pub is_amount : amount_of parse_float r.amount_sol ≡ some amount
    pub is_positive : is_no_amount f amount ≡ false
    pub is_within : f.number.lt c.max_trade_sol amount ≡ false
    pub is_signed : sign s key r.unsigned_transaction_base64 ≡ ok (signature, t)
    pub is_clean : IsClean (rpc.simulate_transaction t)

  send_signed-Sends :
      (signing : Result (String × String)) (t : String)
      → Sends t (send_signed s rpc signing).0
      → (own : String) × (signing ≡ ok (own, t)) × (IsClean (rpc.simulate_transaction t))
  unfolding send_signed
  send_signed-Sends (err x) t h = absurd h
  send_signed-Sends (ok (own, signed)) t h =
      elim (Bool-cases (simulate_transaction rpc.dumps (rpc.simulate_transaction signed)).passed) [
        | inr p ↦
            let none_sent : Sends t (simulate_request signed ∷ []) = rw p at h in absurd none_sent
        | inl p ↦
            let sent : Sends t (simulate_request signed ∷ send_request signed ∷ []) = rw p at h in
            of_sent (simulate_transaction_passed rpc.dumps (rpc.simulate_transaction signed) p) sent
      ]
    where
      of_sent :
          IsClean (rpc.simulate_transaction signed)
          → (t ≡ signed) ⊎ ⊥
          → (x : String) × (◌≡◌ {A = Result (String × String)} (ok (own, signed)) (ok (x, t)))
            × IsClean (rpc.simulate_transaction t)
      of_sent p (inl e) = (own, cc, subst (λ x. IsClean (rpc.simulate_transaction x)) (sym e) p)
      of_sent p (inr bad) = absurd bad

  after_guards-Sends :
      (c : SignerDaemonConfig K F) (authorization : String) (r : ExecuteRequest F) (t : String)
      (keypair : Option K) (first : Option (ℕ × String))
      → c.keypair ≡ keypair
      → first_guard (execute_guards f parse_float c authorization r) ≡ first
      → Sends t (after_guards s rpc keypair r.unsigned_transaction_base64 first).0
      → IsPermitted c authorization r t
  unfolding after_guards execute_guards
  after_guards-Sends c authorization r t keypair (some (status, detail)) e g h = absurd h
  after_guards-Sends c authorization r t none none e g h = absurd h
  after_guards-Sends c authorization r t (some k) none e g h =
      let (authorized, (unsigned, (configured, (url, (allowed, (bad, (over, done))))))) =
        first_guard-AllClear (execute_guards f parse_float c authorization r) g in
      let (own, signed, clean_answer) =
        send_signed-Sends (sign s k r.unsigned_transaction_base64) t h in
      let (x, found, positive) = is_bad_amount_lem f (amount_of parse_float r.amount_sol) bad in
      record {
        key = k;
        signature = own;
        amount = x;
        is_authorized = authorized;
        is_configured = e;
        is_allowed = ground (arith, allowed);
        is_amount = found;
        is_positive = positive;
        is_within = within found over;
        is_signed = signed;
        is_clean = clean_answer;
      }
    where
      within :
          {x : F}
          → amount_of parse_float r.amount_sol ≡ some x
          → is_over_cap f c.max_trade_sol (amount_of parse_float r.amount_sol) ≡ false
          → f.number.lt c.max_trade_sol x ≡ false
      within found over = unfold is_over_cap in (rw found at over)

  -- The daemon sends a transaction only for a request that carries the configured token, unless none is
  -- configured, in submit mode, with the configured key, for a finite amount above zero and within the
  -- cap; what is sent is the given transaction signed by that key, and its simulation answered that
  -- there was no error.
  pub execute-Sends :
      (c : SignerDaemonConfig K F) (authorization : String) (r : ExecuteRequest F) (t : String)
      → Sends t (execute s rpc f parse_float c authorization r).0
      → IsPermitted c authorization r t
  unfolding execute
  execute-Sends c authorization r t h =
      after_guards-Sends c authorization r t c.keypair _ refl refl h
