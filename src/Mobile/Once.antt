-- ===== src/Mobile/Once.antt =====
-- A pairing code pairs one device.
use crypto_arc_v.Prelude.{
  ℕ, inl, inr, ◌≡◌, refl, sym, ap, ◌∙◌, String, true, false, Option, some, none, List, is_empty,
  str_eq, arith, eq_iff, Bool-cases, Option-cases,
}
use crypto_arc_v.Prelude.Int.{ℤ}
use crypto_arc_v.Prelude.Text.{strip}
use crypto_arc_v.Prelude.Checks.{first_failing}
use crypto_arc_v.Prelude.Result.{ok, err}
use crypto_arc_v.Mobile.Storage.{
  Platform, MobileDevice, PairingRow, Storage, or_text, put, has_device,
}
use crypto_arc_v.Mobile.Pairing.{
  pair_device, claim_guards, failed_once, claim_unless, claim_row, claim_found,
  claim_mobile_pairing_request, Credential, ClaimDraw, credential_of, claim_mobile_pairing,
  create_mobile_pairing, save_mobile_pairing_request,
}
use crypto_arc_v.Mobile.Pairing.Claims.{claim_mobile_pairing-IsPaired}
use crypto_arc_v.Mobile.Tokens.{
  validate_mobile_token, revoke_mobile_device, revoke_found, find_device,
}
use crypto_arc_v.Mobile.Steps.{
  Step, create_step, claim_step, validate_step, revoke_step, revoke_all_step, Run, Run-induction,
}

-- The documented laws of the two conversions of a time that the code relies on.
pub record IsClock (p : Platform) : Type 0 where
  pub reads : (t : ℕ) → p.fromisoformat (p.isoformat t) ≡ some t
  pub no_time : p.fromisoformat "" ≡ none

pub isoformat-non_empty : (p : Platform) (t : ℕ) → IsClock p → is_empty (p.isoformat t) ≡ false
isoformat-non_empty p t clock = elim (Bool-cases (is_empty (p.isoformat t))) [
  | inr e ↦ e
  | inl e ↦
      let none_read : p.fromisoformat (p.isoformat t) ≡ none =
        ap p.fromisoformat ((eq_iff (p.isoformat t) "").0 e) ∙ clock.no_time in
      absurd (ground (arith, clock.reads t, none_read))
]

pub record IsClaimed (id : String) (st : Storage) : Type 0 where
  pub row : PairingRow
  pub found : st.mobile_pairing_requests id ≡ some row
  pub claimed : is_empty row.claimed_at ≡ false

-- Writing a claimed row, or the row of another pairing, keeps a pairing claimed.
put-IsClaimed :
    (id other : String) (row : PairingRow) (st : Storage)
    → (str_eq id other ≡ true → is_empty row.claimed_at ≡ false)
    → IsClaimed id st
    → IsClaimed id
        (record st { mobile_pairing_requests = put other row st.mobile_pairing_requests })
put-IsClaimed id other row st h v = elim (Bool-cases (str_eq id other)) [
  | inl e ↦ record { row = row; found = rw e refl; claimed = h e }
  | inr e ↦ record { row = v.row; found = rw e v.found; claimed = v.claimed }
]

same_row :
    (id other : String) (row : PairingRow) (st : Storage) (v : IsClaimed id st)
    → st.mobile_pairing_requests other ≡ some row
    → str_eq id other ≡ true
    → is_empty row.claimed_at ≡ false
same_row id other row st v h e =
    let same : some v.row ≡ some row =
      sym v.found ∙ ap st.mobile_pairing_requests ((eq_iff id other).0 e) ∙ h in
    ap (λ o. elim o [ some r ↦ is_empty r.claimed_at | none ↦ false ]) (sym same) ∙ v.claimed

-- The devices do not matter.
devices-IsClaimed :
    (id : String) (st next : Storage)
    → next.mobile_pairing_requests ≡ st.mobile_pairing_requests
    → IsClaimed id st
    → IsClaimed id next
devices-IsClaimed id st next h v = record {
  row = v.row;
  found = ap (λ f. f id) h ∙ v.found;
  claimed = v.claimed;
}

pair_device-IsClaimed :
    (id other : String) (row : PairingRow) (device : MobileDevice) (claimed_at : String)
    (st : Storage)
    → is_empty claimed_at ≡ false
    → IsClaimed id st
    → IsClaimed id (pair_device other row device claimed_at st).1
unfolding pair_device
pair_device-IsClaimed id other row device claimed_at st h v =
    elim (Bool-cases (is_empty row.claimed_at)) [
      | inr a ↦ rw a v
      | inl a ↦ elim (Bool-cases (has_device device.id st.mobile_devices)) [
        | inl b ↦ rw (a, b) v
        | inr b ↦
            rw (a, b)
              (devices-IsClaimed id _ _ refl (
                put-IsClaimed id other
                  (record row {
                    payload = record row.payload {
                      claimed_at = claimed_at;
                      claimed_device_id = device.id;
                    };
                    claimed_at = claimed_at;
                  })
                  st (λ e. h) v))
      ]
    ]

claim_found-IsClaimed :
    (p : Platform) (id other hash : String) (device : MobileDevice) (claimed_at : String)
    (default : ℕ) (found : Option PairingRow) (st : Storage)
    → st.mobile_pairing_requests other ≡ found
    → is_empty claimed_at ≡ false
    → IsClaimed id st
    → IsClaimed id (claim_found p other hash device claimed_at default found st).1
unfolding claim_found claim_row claim_unless failed_once
claim_found-IsClaimed p id other hash device claimed_at default none st f h v = v
claim_found-IsClaimed p id other hash device claimed_at default (some row) st f h v =
    elim (Option-cases (first_failing (claim_guards p claimed_at default row))) [
      | inr (message, e) ↦ rw e v
      | inl e ↦ elim (Bool-cases (str_eq hash row.payload.code_hash)) [
        | inl c ↦ rw (e, c) (pair_device-IsClaimed id other row device claimed_at st h v)
        | inr c ↦
            rw (e, c) (put-IsClaimed id other (failed_once row) st (same_row id other row st v f) v)
      ]
    ]

create-IsClaimed :
    (p : Platform) (now : ℕ) (other : String) (draw : ℕ) (url : String) (scopes : List String)
    (ttl : ℤ) (id : String) (st : Storage)
    → st.mobile_pairing_requests other ≡ none
    → IsClaimed id st
    → IsClaimed id (create_mobile_pairing p now other draw url scopes ttl st).1
unfolding create_mobile_pairing save_mobile_pairing_request
create-IsClaimed p now other draw url scopes ttl id st h v =
    put-IsClaimed id other _ st
      (λ e.
        absurd (taken (sym v.found ∙ ap st.mobile_pairing_requests ((eq_iff id other).0 e) ∙ h)))
      v
  where
    taken : {row : PairingRow} → some row ≡ none → ⊥
    taken h = cc

validate-requests :
    (p : Platform) (now : ℕ) (token scope : String) (st : Storage)
    → (validate_mobile_token p now token scope st).1.mobile_pairing_requests
      ≡ st.mobile_pairing_requests
unfolding validate_mobile_token
validate-requests p now token scope st = elim (Bool-cases (is_empty (strip token))) [
  | inl e ↦ rw e refl
  | inr e ↦ rw e refl
]

revoke-requests :
    (p : Platform) (now : ℕ) (id : String) (st : Storage)
    → (revoke_mobile_device p now id st).1.mobile_pairing_requests ≡ st.mobile_pairing_requests
unfolding revoke_mobile_device revoke_found
revoke-requests p now id st = elim (Option-cases (find_device (strip id) st.mobile_devices)) [
  | inl e ↦ rw e refl
  | inr (row, e) ↦ rw e refl
]

Step-IsClaimed :
    (p : Platform) (id : String)
    → IsClock p
    → (st next : Storage) → Step p st next
    → IsClaimed id st
    → IsClaimed id next
unfolding claim_mobile_pairing claim_mobile_pairing_request
Step-IsClaimed p id clock st _ (create_step now other draw url scopes ttl h) v =
    create-IsClaimed p now other draw url scopes ttl id st h v
Step-IsClaimed p id clock st _ (claim_step now other code draw) v =
    claim_found-IsClaimed p id (strip other) _ _ (p.isoformat now) _
      (st.mobile_pairing_requests (strip other)) st refl (isoformat-non_empty p now clock) v
Step-IsClaimed p id clock st _ (validate_step now token scope) v =
    devices-IsClaimed id st _ (validate-requests p now token scope st) v
Step-IsClaimed p id clock st _ (revoke_step now other) v =
    devices-IsClaimed id st _ (revoke-requests p now other st) v
Step-IsClaimed p id clock st _ (revoke_all_step now) v = devices-IsClaimed id st _ refl v

or_text-claimed : (a b : String) → is_empty a ≡ false → is_empty (or_text a b) ≡ false
or_text-claimed a b h = rw (h, h) refl

claimed-refused :
    (p : Platform) (now : ℕ) (id code : String) (draw : ClaimDraw) (st : Storage)
    → IsClaimed (strip id) st
    → claim_mobile_pairing p now id code draw st
      ≡ (err "Mobile pairing code has already been claimed", st)
unfolding claim_mobile_pairing claim_mobile_pairing_request claim_found claim_row claim_unless
    claim_guards first_failing credential_of
claimed-refused p now id code draw st v =
    rw (v.found, or_text-claimed v.row.claimed_at v.row.payload.claimed_at v.claimed) refl

-- A code that has paired a device is used up: whatever calls come after the claim, in any order, each later
-- claim of the same pairing, with any code and at any time, is refused as already claimed and changes nothing.
pub claim_mobile_pairing-once :
    (p : Platform) (now later : ℕ) (id code other_code : String) (draw other_draw : ClaimDraw)
    (st next last : Storage) (c : Credential)
    → IsClock p
    → claim_mobile_pairing p now id code draw st ≡ (ok c, next)
    → Run p next last
    → claim_mobile_pairing p later id other_code other_draw last
      ≡ (err "Mobile pairing code has already been claimed", last)
claim_mobile_pairing-once p now later id code other_code draw other_draw st next last c clock h r =
    let (row, _, _, paired, _, _) = claim_mobile_pairing-IsPaired p now id code draw st next c h in
    let (after, found, at) = paired.consumed in
    let claimed : IsClaimed (strip id) next = record {
      row = after;
      found = found;
      claimed = ap is_empty at ∙ isoformat-non_empty p now clock;
    } in
    claimed-refused p later id other_code other_draw last (
      Run-induction p (IsClaimed (strip id)) (Step-IsClaimed p (strip id) clock) next last r
        claimed)
