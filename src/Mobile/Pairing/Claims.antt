-- ===== src/Mobile/Pairing/Claims.antt =====
-- What a claim of a pairing code needs, and what it changes.
use crypto_arc_v.Prelude.{
  ℕ, ◌<◌, ◌≡◌, inl, inr, refl, sym, ap, ◌∙◌, String, true, false, Option, some, none, [], ◌∷◌, ◌++◌,
  is_empty, str_eq, leb, arith, eq_iff, eq_refl, Bool-cases,
}
use crypto_arc_v.Prelude.Text.{strip}
use crypto_arc_v.Prelude.Checks.{AllPass, first_failing, AllPass-of_first_failing}
use crypto_arc_v.Prelude.Result.{Result, ok, err, ok_injective}
use crypto_arc_v.Mobile.Storage.{
  Platform, PairingRequest, MobileDevice, PairingRow, Storage, or_text, has_device,
  public_mobile_device,
}
use crypto_arc_v.Mobile.Pairing.{
  claim_times, or_default, pair_device, claim_guards, claim_unless, claim_row, claim_found,
  claim_mobile_pairing_request, Credential, ClaimDraw, new_device, credential_of,
  claim_mobile_pairing, mobile_pairing_max_failed_attempts,
}

-- What the row of a pairing has to say for a claim with a code's hash at a time to succeed.
pub record IsClaimable (p : Platform) (hash : String) (claimed_at : String) (default : ℕ)
    (row : PairingRow) : Type 0 where
  pub expires_at : ℕ
  pub now : ℕ
  pub unclaimed : (row.claimed_at ≡ "") × (row.payload.claimed_at ≡ "")
  pub expiry : p.fromisoformat (or_text row.expires_at row.payload.expires_at) ≡ some expires_at
  pub time : p.fromisoformat claimed_at ≡ some now
  pub unexpired : now < expires_at
  pub attempts : row.payload.failed_attempts < or_default row.payload.max_failed_attempts default
  pub code : hash ≡ row.payload.code_hash

claim_times-lt :
    (a b : Option ℕ)
    → leb (claim_times a b).0 (claim_times a b).1 ≡ false
    → (x : ℕ) × (y : ℕ) × (a ≡ some x) × (b ≡ some y) × (y < x)
unfolding claim_times
claim_times-lt none b h = absurd (ground arith)
claim_times-lt (some x) none h = absurd (ground arith)
claim_times-lt (some x) (some y) h = (x, y, refl, refl, ground arith)

or_text-empty : (a b : String) → is_empty (or_text a b) ≡ true → (a ≡ "") × (b ≡ "")
or_text-empty a b h = ground (arith, eq_iff a "", eq_iff b "")

-- The device that a claim adds, with the pairing's scopes.
abbrev pub scoped : PairingRow → MobileDevice → MobileDevice
scoped row device = record device { scopes = row.payload.scopes }

-- What a claim that succeeds writes.
pub record IsPaired (id : String) (device : MobileDevice) (claimed_at : String) (row : PairingRow)
    (st next : Storage) : Type 0 where
  pub fresh : has_device device.id st.mobile_devices ≡ false
  pub devices :
      next.mobile_devices
      ≡ st.mobile_devices
        ++ (record {
          id = device.id;
          payload = scoped row device;
          last_seen_at = device.last_seen_at;
          revoked_at = device.revoked_at;
        }
            ∷ [])
  pub consumed :
      (after : PairingRow) × (next.mobile_pairing_requests id ≡ some after)
      × (after.claimed_at ≡ claimed_at)

pair_device-ok :
    (id : String) (row : PairingRow) (device : MobileDevice) (claimed_at : String)
    (st next : Storage) (made : PairingRequest × MobileDevice)
    → pair_device id row device claimed_at st ≡ (ok made, next)
    → IsPaired id device claimed_at row st next × (made.1 ≡ scoped row device)
unfolding pair_device
pair_device-ok id row device claimed_at st next made h =
    elim (Bool-cases (is_empty row.claimed_at)) [
      | inr a ↦ absurd (ground (arith, h, a))
      | inl a ↦ elim (Bool-cases (has_device device.id st.mobile_devices)) [
        | inl b ↦ absurd (ground (arith, h, a, b))
        | inr b ↦
            let same = rw (a, b) at h in
            let state = sym (ap (λ x. x.1) same) in
            (
              record {
                fresh = b;
                devices = ap (λ x. x.mobile_devices) state;
                consumed = (
                  record row {
                    payload = record row.payload {
                      claimed_at = claimed_at;
                      claimed_device_id = device.id;
                    };
                    claimed_at = claimed_at;
                  },
                  ap (λ x. x.mobile_pairing_requests id) state ∙ rw (eq_refl id) refl,
                  refl,
                );
              },
              ap (λ x. x.1) (sym (ok_injective (ap (λ x. x.0) same))),
            )
      ]
    ]

IsClaimable-of_pass :
    (p : Platform) (hash claimed_at : String) (default : ℕ) (row : PairingRow)
    → AllPass (claim_guards p claimed_at default row)
    → str_eq hash row.payload.code_hash ≡ true
    → IsClaimable p hash claimed_at default row
unfolding claim_guards
IsClaimable-of_pass p hash claimed_at default row (a, (b, (c, _))) code =
    let (expires_at, now, expiry, time, unexpired) =
      claim_times-lt (p.fromisoformat (or_text row.expires_at row.payload.expires_at))
        (p.fromisoformat claimed_at) b in
    record {
      expires_at = expires_at;
      now = now;
      unclaimed = or_text-empty row.claimed_at row.payload.claimed_at (ground (arith, a));
      expiry = expiry;
      time = time;
      unexpired = unexpired;
      attempts = ground (arith, c);
      code = (eq_iff hash row.payload.code_hash).0 code;
    }

claim_unless-ok :
    (rejection : Option String) (id hash : String) (device : MobileDevice) (claimed_at : String)
    (row : PairingRow) (st next : Storage) (made : PairingRequest × MobileDevice)
    → claim_unless rejection id hash device claimed_at row st ≡ (ok made, next)
    → (rejection ≡ none)
      × (str_eq hash row.payload.code_hash ≡ true)
      × (pair_device id row device claimed_at st ≡ (ok made, next))
unfolding claim_unless
claim_unless-ok (some message) id hash device claimed_at row st next made h =
    absurd (ground (arith, h))
claim_unless-ok none id hash device claimed_at row st next made h =
    elim (Bool-cases (str_eq hash row.payload.code_hash)) [
      | inl e ↦ (refl, e, rw e at h)
      | inr e ↦ absurd (ground (arith, h, e))
    ]

claim_request-ok :
    (p : Platform) (id hash : String) (device : MobileDevice) (claimed_at : String) (default : ℕ)
    (found : Option PairingRow) (st next : Storage) (made : PairingRequest × MobileDevice)
    → claim_found p id hash device claimed_at default found st ≡ (ok made, next)
    → (row : PairingRow) × (found ≡ some row)
      × IsClaimable p hash claimed_at default row
      × IsPaired id device claimed_at row st next
      × (made.1 ≡ scoped row device)
unfolding claim_found claim_row
claim_request-ok p id hash device claimed_at default none st next made h =
    absurd (ground (arith, h))
claim_request-ok p id hash device claimed_at default (some row) st next made h =
    let (passed, code, paired) =
      claim_unless-ok (first_failing (claim_guards p claimed_at default row)) id hash device
        claimed_at row st next made h in
    let (written, device_made) = pair_device-ok id row device claimed_at st next made paired in
    (
      row,
      refl,
      IsClaimable-of_pass p hash claimed_at default row
          (AllPass-of_first_failing (claim_guards p claimed_at default row) passed) code,
      written,
      device_made,
    )

credential_of-ok :
    (token : String) (made : Result (PairingRequest × MobileDevice)) (c : Credential)
    → credential_of token made ≡ ok c
    → (pairing : PairingRequest) × (device : MobileDevice) × (made ≡ ok (pairing, device))
      × (c.token ≡ token)
      × (c.device ≡ public_mobile_device device)
unfolding credential_of
credential_of-ok token (err message) c h = absurd (ground (arith, h))
credential_of-ok token (ok (pairing, device)) c h =
    let same = sym (ok_injective h) in
    (pairing, device, refl, ap (λ x. x.token) same, ap (λ x. x.device) same)

-- A pairing is claimed only while its row exists, has not been claimed, has not expired and has failed attempts
-- left, and only with the code whose hash it keeps. The claim then adds one device, whose id is new and whose
-- scopes are the pairing's, marks the pairing as claimed, and answers with the drawn token and the device.
pub claim_mobile_pairing-IsPaired :
    (p : Platform) (now : ℕ) (id code : String) (draw : ClaimDraw) (st next : Storage)
    (c : Credential)
    → claim_mobile_pairing p now id code draw st ≡ (ok c, next)
    → (row : PairingRow) × (st.mobile_pairing_requests (strip id) ≡ some row)
      × IsClaimable p
          (p.hash_secret (strip code))
          (p.isoformat now)
          mobile_pairing_max_failed_attempts
          row
      × IsPaired (strip id) (new_device p now id draw) (p.isoformat now) row st next
      × (c.token ≡ draw.token)
      × (c.device ≡ public_mobile_device (scoped row (new_device p now id draw)))
unfolding claim_mobile_pairing claim_mobile_pairing_request
claim_mobile_pairing-IsPaired p now id code draw st next c h =
    let found = st.mobile_pairing_requests (strip id) in
    let hash = p.hash_secret (strip code) in
    let claimed =
      claim_found p (strip id) hash (new_device p now id draw) (p.isoformat now)
        mobile_pairing_max_failed_attempts found st in
    let (pairing, device, made, token, shown) =
      credential_of-ok draw.token claimed.0 c (ap (λ x. x.0) h) in
    let (row, there, claimable, paired, scoped_device) =
      claim_request-ok p (strip id) hash (new_device p now id draw) (p.isoformat now)
        mobile_pairing_max_failed_attempts found st next (pairing, device)
        (cong_pair made (ap (λ x. x.1) h)) in
    (row, there, claimable, paired, token, shown ∙ ap (λ d. public_mobile_device d) scoped_device)
  where
    cong_pair :
        {x : Result (PairingRequest × MobileDevice) × Storage}
        {a : Result (PairingRequest × MobileDevice)} {b : Storage}
        → x.0 ≡ a
        → x.1 ≡ b
        → x ≡ (a, b)
    cong_pair p q = λ i. (p i, q i)
