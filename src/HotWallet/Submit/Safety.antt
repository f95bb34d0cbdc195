-- ===== src/HotWallet/Submit/Safety.antt =====
-- Nothing is sent that was not signed by the expected key and simulated without an error.
use crypto_arc_v.Prelude.{
  ◌≡◌, ◌⊎◌, false≢true, inl, inr, refl, sym, String, true, false, Option, some, none, List, [], ◌∷◌,
  arith, is_empty, subst, str_eq, eq_iff, Option-cases, Bool-cases,
}
use crypto_arc_v.Prelude.Result.{Result, ok, err}
use crypto_arc_v.Prelude.Text.{strip}
use crypto_arc_v.HotWallet.Vault.{
  sign, Signer, HotWalletVault, sidecar_key, require_unlocked_keypair, sign_transaction,
}
use crypto_arc_v.HotWallet.Submit.{
  Json, null, other, object, Fields, Rpc, Request, simulate_request, send_request, find_member,
  simulate, simulation_verdict, simulation_value, simulation_result, malformed_simulation_response,
  simulation_of, submit, simulate_and_submit,
}

-- The response says in so many words that there was no error.
pub data IsClean : Option Json → Type 0 where
  clean :
      {response result value : Fields}
      → find_member "result" response ≡ some (object result)
      → find_member "value" result ≡ some (object value)
      → find_member "err" value ≡ some null
      → IsClean (some (object response))

verdict_passed :
    (dumps : Json → String) (answer : Option Json)
    → (simulation_verdict dumps answer).passed ≡ true
    → answer ≡ some null
unfolding simulation_verdict malformed_simulation_response
verdict_passed dumps none h = absurd (false≢true h)
verdict_passed dumps (some null) h = refl
verdict_passed dumps (some (other t)) h = absurd (false≢true h)
verdict_passed dumps (some (object fields)) h = absurd (false≢true h)

value_passed :
    (dumps : Json → String) (answer : Option Json)
    → (simulation_value dumps answer).passed ≡ true
    → (value : Fields) × (answer ≡ some (object value)) × (find_member "err" value ≡ some null)
unfolding simulation_value malformed_simulation_response
value_passed dumps none h = absurd (false≢true h)
value_passed dumps (some null) h = absurd (false≢true h)
value_passed dumps (some (other t)) h = absurd (false≢true h)
value_passed dumps (some (object fields)) h =
    (fields, refl, verdict_passed dumps (find_member "err" fields) h)

result_passed :
    (dumps : Json → String) (response : Fields) (answer : Option Json)
    → find_member "result" response ≡ answer
    → (simulation_result dumps answer).passed ≡ true
    → IsClean (some (object response))
unfolding simulation_result malformed_simulation_response
result_passed dumps response none e h = absurd (false≢true h)
result_passed dumps response (some null) e h = absurd (false≢true h)
result_passed dumps response (some (other t)) e h = absurd (false≢true h)
result_passed dumps response (some (object fields)) e h =
    let (value, e2, e3) = value_passed dumps (find_member "value" fields) h in clean e e2 e3

-- `_simulate` passes only a response whose `result.value.err` is there and is null: a response that is
-- malformed anywhere, and one that raises, fails.
pub simulate_passed :
    (dumps : Json → String) (response : Option Json)
    → (simulate dumps response).passed ≡ true
    → IsClean response
unfolding simulate malformed_simulation_response
simulate_passed dumps none h = absurd (false≢true h)
simulate_passed dumps (some null) h = absurd (false≢true h)
simulate_passed dumps (some (other t)) h = absurd (false≢true h)
simulate_passed dumps (some (object fields)) h =
    result_passed dumps fields (find_member "result" fields) refl h

module _ {K : Type 0} (s : Signer K) where
  -- What it takes for `signed` to have been signed for the wallet `expected`: the key in memory has
  -- that address, the sidecar file names it too, and the signer made `signed` from `unsigned` with it.
  pub record IsSignedFor (unsigned expected signed : String) (v : HotWalletVault K) : Type 0 where
    pub key : K
    pub signature : String
    pub is_unlocked : v.keypair ≡ some key
    pub is_expected : s.pubkey key ≡ strip expected
    pub is_named : is_empty (strip expected) ≡ false
    pub is_imported : sidecar_key v.file ≡ s.pubkey key
    pub is_signed : sign s key unsigned ≡ ok (signature, signed)

  sign_transaction_lem :
      (unsigned expected : String) (v : HotWalletVault K) {own signed : String}
      → sign_transaction s unsigned expected v ≡ ok (own, signed)
      → IsSignedFor unsigned expected signed v
  unfolding sign_transaction require_unlocked_keypair
  sign_transaction_lem unsigned expected v {own} {signed} h = elim (Option-cases v.keypair) [
    | inl e ↦ absurd (ground arith)
    | inr (k, e) ↦ elim (Bool-cases (is_empty (strip expected))) [
      | inl n ↦ absurd (ground arith)
      | inr n ↦ elim (Bool-cases (str_eq (s.pubkey k) (strip expected))) [
        | inr p ↦ absurd (ground arith)
        | inl p ↦ elim (Bool-cases (str_eq (sidecar_key v.file) (s.pubkey k))) [
          | inr q ↦ absurd (ground arith)
          | inl q ↦ record {
            key = k;
            signature = own;
            is_unlocked = e;
            is_expected = (eq_iff (s.pubkey k) (strip expected)).0 p;
            is_named = n;
            is_imported = (eq_iff (sidecar_key v.file) (s.pubkey k)).0 q;
            is_signed = ground (arith);
          }
        ]
      ]
    ]
  ]

  -- `send_request t` is one of the requests.
  abbrev pub Sends : String → List Request → Type 0
  Sends t [] = ⊥
  Sends t (simulate_request u ∷ rest) = Sends t rest
  Sends t (send_request u ∷ rest) = (t ≡ u) ⊎ Sends t rest

  module _ (rpc : Rpc) where
    submit-Sends :
        (signing : Result (String × String)) (t : String)
        → Sends t (submit s rpc signing).0
        → (own : String) × (signing ≡ ok (own, t)) × ((simulation_of s rpc t).passed ≡ true)
    unfolding submit
    submit-Sends (err x) t h = absurd h
    submit-Sends (ok (own, signed)) t h = elim (Bool-cases (simulation_of s rpc signed).passed) [
      | inr p ↦
          let none_sent : Sends t (simulate_request signed ∷ []) = rw p at h in absurd none_sent
      | inl p ↦
          let sent : Sends t (simulate_request signed ∷ send_request signed ∷ []) = rw p at h in
          of_sent p sent
    ]
      where
        of_sent :
            (simulation_of s rpc signed).passed ≡ true
            → (t ≡ signed) ⊎ ⊥
            → (x : String) × (◌≡◌ {A = Result (String × String)} (ok (own, signed)) (ok (x, t)))
              × ((simulation_of s rpc t).passed ≡ true)
        of_sent p (inl e) = (own, cc, subst (λ x. (simulation_of s rpc x).passed ≡ true) (sym e) p)
        of_sent p (inr bad) = absurd bad

    -- Whatever transaction is sent was signed with the unlocked key, whose address is the expected one
    -- and the one of the sidecar file, and its simulation answered that there was no error.
    pub simulate_and_submit-Sends :
        (unsigned expected t : String) (v : HotWalletVault K)
        → Sends t (simulate_and_submit s rpc unsigned expected v).0
        → IsSignedFor unsigned expected t v × IsClean (rpc.simulate_transaction t)
    unfolding simulate_and_submit simulation_of
    simulate_and_submit-Sends unsigned expected t v h =
        let (own, e, p) = submit-Sends (sign_transaction s unsigned expected v) t h in
        (
          sign_transaction_lem unsigned expected v e,
          simulate_passed rpc.dumps (rpc.simulate_transaction t) p,
        )
