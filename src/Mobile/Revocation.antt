-- ===== src/Mobile/Revocation.antt =====
-- What a revoked device can still do.
pub mod Rows
pub mod Kept
use crypto_arc_v.Prelude.{
  ℕ, inl, inr, ◌≡◌, ◌≢◌, refl, sym, ap, subst, ◌∙◌, String, Bool, true, false, not, ◌||◌, Option,
  some, none, some-injective, List, [], ◌∷◌, ◌++◌, is_empty, str_eq, arith, eq_iff, Bool-cases,
  Option-cases, All, All-append, false≢true,
}
use crypto_arc_v.Prelude.Text.{strip}
use crypto_arc_v.Prelude.Checks.{first_failing}
use crypto_arc_v.Prelude.Result.{ok}
use crypto_arc_v.Mobile.Storage.{
  Platform, MobileDevice, PairingRow, DeviceRow, Storage, or_text, update_devices, has_device,
  PublicDevice,
}
use crypto_arc_v.Mobile.Pairing.{
  pair_device, claim_guards, claim_unless, claim_row, claim_found, claim_mobile_pairing_request,
  claim_mobile_pairing, create_mobile_pairing, save_mobile_pairing_request,
}
use crypto_arc_v.Mobile.Tokens.{
  validate_mobile_token, validate_found, accepted, is_refused, find_by_token_hash, touch_found,
  touch_active_mobile_device_by_token_hash, revoke_mobile_device, revoke_found, revoke_row,
  revoke_all, find_device,
}
use crypto_arc_v.Mobile.Steps.{
  Step, create_step, claim_step, validate_step, revoke_step, revoke_all_step, Run, Run-induction,
  no_rows,
}
use crypto_arc_v.Mobile.Once.{IsClock, isoformat-non_empty}
use crypto_arc_v.Mobile.Revocation.Rows.{
  IsKeyed, IsOff, IsRevoked, All-update_devices, has_device-update_devices, has_device-append,
  All-find_by_token_hash, All-find_device, find_device-id, update_devices-IsRevoked,
}
use crypto_arc_v.Mobile.Revocation.Kept.{
  touched_off, or_text-non_empty, or_text-kept, revoke_all-IsRevoked, revoke-IsRevoked,
  Step-IsRevoked, All-map,
}

accepted-row :
    (p : Platform) (now : ℕ) (scope : String) (row : Option DeviceRow) (rows : List DeviceRow)
    (found : PublicDevice)
    → accepted p now scope (touch_found (p.isoformat now) row rows).0 ≡ some found
    → (r : DeviceRow) × (row ≡ some r)
      × (found.id ≡ r.payload.id)
      × ((not (is_empty r.revoked_at) || not (is_empty r.payload.revoked_at)) ≡ false)
unfolding accepted touch_found
accepted-row p now scope none rows found h = absurd (cc)
accepted-row p now scope (some r) rows found h =
    elim (Bool-cases (not (is_empty r.revoked_at) || not (is_empty r.payload.revoked_at))) [
      | inl b ↦ absurd (ground (arith, rw b at h))
      | inr b ↦
          elim (Bool-cases
            (is_refused p now scope (record r.payload { last_seen_at = p.isoformat now }))) [
              | inl c ↦ absurd (ground (arith, rw (b, c) at h))
              | inr c ↦ (r, refl, ap (λ d. d.id) (sym (some-injective _ _ (rw (b, c) at h))), b)
            ]
    ]

validate-row :
    (p : Platform) (now : ℕ) (token scope : String) (st : Storage) (found : PublicDevice)
    → (validate_mobile_token p now token scope st).0 ≡ some found
    → (r : DeviceRow) × (find_by_token_hash (p.hash_secret (strip token)) st.mobile_devices
        ≡ some r)
      × (found.id ≡ r.payload.id)
      × ((not (is_empty r.revoked_at) || not (is_empty r.payload.revoked_at)) ≡ false)
unfolding validate_mobile_token validate_found touch_active_mobile_device_by_token_hash
validate-row p now token scope st found h = elim (Bool-cases (is_empty (strip token))) [
  | inl a ↦ absurd (ground (arith, rw a at h))
  | inr a ↦
      elim (Option-cases (find_by_token_hash (p.hash_secret (strip token)) st.mobile_devices)) [
        | inl b ↦ absurd (ground (arith, rw (a, b) at h))
        | inr (row, b) ↦ elim (Bool-cases (is_refused p now scope row.payload)) [
          | inl c ↦ absurd (ground (arith, rw (a, b, c) at h))
          | inr c ↦
              accepted-row p now scope
                (find_by_token_hash (p.hash_secret (strip token)) st.mobile_devices)
                st.mobile_devices found (rw (a, b, c) at h)
        ]
      ]
]

-- A device that is gone is not the one that a token is valid for.
IsRevoked-validate :
    (p : Platform) (now : ℕ) (token scope : String) (gone : String → Bool) (st : Storage)
    (found : PublicDevice)
    → IsRevoked gone st.mobile_devices
    → (validate_mobile_token p now token scope st).0 ≡ some found
    → gone found.id ≡ false
IsRevoked-validate p now token scope gone st found v h =
    let (r, there, same, on) = validate-row p now token scope st found h in
    let hash = p.hash_secret (strip token) in
    let keyed =
      All-find_by_token_hash (λ row. row.payload.id ≡ row.id) hash st.mobile_devices r there
        v.keyed in
    let off = All-find_by_token_hash (IsOff gone) hash st.mobile_devices r there v.revoked in
    elim (Bool-cases (gone found.id)) [
      | inr e ↦ e
      | inl e ↦ absurd (touched_off r on (off (ap gone (sym (same ∙ keyed)) ∙ e)))
    ]

-- What revokes a device: the call for its id, or the call for all devices while it is known.
pub data IsRevocation (p : Platform) (now : ℕ) (id : String) (st : Storage) : Storage → Type 0 where
  by_id :
      (device : PublicDevice)
      → (revoke_mobile_device p now id st).0 ≡ ok device
      → IsRevocation p now id st (revoke_mobile_device p now id st).1
  by_all :
      has_device (strip id) st.mobile_devices ≡ true
      → IsRevocation p now id st
          (record st { mobile_devices = (revoke_all (p.isoformat now) st.mobile_devices).0 })

update_devices-off :
    (id : String) (change : DeviceRow → DeviceRow) (rows : List DeviceRow)
    → ((row : DeviceRow)
        → (is_empty (or_text (change row).revoked_at (change row).payload.revoked_at)) ≡ false)
    → All (IsOff (λ other. str_eq other id)) (update_devices id change rows)
unfolding update_devices
update_devices-off id change [] h = tt
update_devices-off id change (row ∷ rows) h = (
  elim (Bool-cases (str_eq row.id id)) [
    | inl e ↦ rw e (λ _. h row)
    | inr e ↦ rw e (λ here. absurd (false≢true (sym e ∙ here)))
  ],
  update_devices-off id change rows h,
)

revoke-known :
    (p : Platform) (now : ℕ) (id : String) (st : Storage) (row : DeviceRow)
    → find_device (strip id) st.mobile_devices ≡ some row
    → has_device (strip id) (revoke_mobile_device p now id st).1.mobile_devices ≡ true
unfolding revoke_mobile_device revoke_found revoke_row
revoke-known p now id st row e = rw e (
    has_device-update_devices (strip id) (strip id) _ st.mobile_devices (λ r. refl)
    ∙ (find_device-id (strip id) st.mobile_devices row e).1)

HoldsAfter : (String → Bool) → Storage → Type 0
HoldsAfter gone st = IsRevoked gone st.mobile_devices

IsRevocation-IsRevoked :
    (p : Platform) (now : ℕ) (id : String) (st next : Storage)
    → IsClock p
    → IsRevoked (λ other. false) st.mobile_devices
    → IsRevocation p now id st next
    → IsRevoked (λ other. str_eq other (strip id)) next.mobile_devices
unfolding revoke_mobile_device revoke_found revoke_row
IsRevocation-IsRevoked p now id st _ clock v (by_all known) =
    revoke_all-IsRevoked (λ other. str_eq other (strip id)) (p.isoformat now) st.mobile_devices
      (isoformat-non_empty p now clock) v.keyed
      (λ other e. ap (λ i. has_device i st.mobile_devices) ((eq_iff other (strip id)).0 e) ∙ known)
IsRevocation-IsRevoked p now id st _ clock v (by_id device h) =
    let kept = revoke-IsRevoked p now id (λ other. false) st clock v in
    elim (Option-cases (find_device (strip id) st.mobile_devices)) [
      | inl e ↦ absurd (ground (arith, rw e at h))
      | inr (row, e) ↦ record {
        keyed = kept.keyed;
        known = λ other g.
            ap (λ i. has_device i (revoke_mobile_device p now id st).1.mobile_devices)
              ((eq_iff other (strip id)).0 g)
            ∙ revoke-known p now id st row e;
        revoked = rw e (
            update_devices-off (strip id) _ st.mobile_devices (λ r. or_text-kept _ _ (
              or_text-non_empty (or_text row.revoked_at row.payload.revoked_at) (p.isoformat now)
                (isoformat-non_empty p now clock))));
      }
    ]

-- A device that has been revoked, by itself or with all devices, stays out: whatever calls come before and
-- after, in any order, no token that is valid later, for whatever scope, is valid for that device.
pub revoke-validate :
    (p : Platform) (now later : ℕ) (id token scope : String) (st next last : Storage)
    (found : PublicDevice)
    → IsClock p
    → Run p no_rows st
    → IsRevocation p now id st next
    → Run p next last
    → (validate_mobile_token p later token scope last).0 ≡ some found
    → found.id ≢ strip id
unfolding HoldsAfter
revoke-validate p now later id token scope st next last found clock before revoked after h same =
    let id_test : String → Bool = λ other. str_eq other (strip id) in
    let nobody : String → Bool = λ other. false in
    let start =
      Run-induction p (HoldsAfter nobody) (Step-IsRevoked p nobody clock) no_rows st before
        (record { keyed = tt; known = λ other g. absurd (false≢true g); revoked = tt }) in
    let gone = IsRevocation-IsRevoked p now id st next clock start revoked in
    let still =
      Run-induction p (HoldsAfter id_test) (Step-IsRevoked p id_test clock) next last after gone in
    false≢true (
      sym (IsRevoked-validate p later token scope id_test last found still h)
      ∙ (eq_iff found.id (strip id)).1 same)
