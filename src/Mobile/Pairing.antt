-- ===== src/Mobile/Pairing.antt =====
-- The pairing of a mobile device: `create_mobile_pairing` and `claim_mobile_pairing` of backend/app/core/state.py with
-- the transactions of backend/app/core/storage.py that they call. The random values are arguments, as is the cleaned
-- label of a device; the operator's event log is left out.
pub mod Claims
use crypto_arc_v.Prelude.{
  ℕ, suc, ◌+◌, ◌*◌, min, max, String, not, Option, some, none, List, [], ◌∷◌, ◌++◌, if◌then◌else◌,
  is_empty, str_eq, leb, ◌==◌, contains,
}
use crypto_arc_v.Prelude.Int.{ℤ, pos, negsuc}
use crypto_arc_v.Prelude.Text.{int_text, strip}
use crypto_arc_v.Prelude.Checks.{Checks, first_failing}
use crypto_arc_v.Prelude.Result.{Result, ok, err}
use crypto_arc_v.Mobile.Scopes.{normalize_mobile_scopes}
use crypto_arc_v.Mobile.Storage.{
  Platform, PairingRequest, MobileDevice, PairingRow, Storage, or_text, put, has_device,
  PublicDevice, public_mobile_device,
}

unfoldable pub save_mobile_pairing_request : Platform → ℕ → PairingRequest → Storage → Storage
save_mobile_pairing_request p now r st = record st {
  mobile_pairing_requests =
      put r.id
        (record {
          payload = r;
          expires_at = or_text r.expires_at (or_text r.created_at (p.isoformat now));
          claimed_at = r.claimed_at;
        })
        st.mobile_pairing_requests;
}

abbrev pub mobile_pairing_max_failed_attempts : ℕ
mobile_pairing_max_failed_attempts = 5

-- `max(60, min(1800, int(ttl_seconds or 300)))`
unfoldable pub pairing_ttl : ℤ → ℕ
pairing_ttl (pos n) = max 60 (min 1800 (if n == 0 then 300 else n))
pairing_ttl (negsuc n) = 60

-- The report of a new pairing; its `manual_code` and `qr_payload` repeat these fields.
pub record PairingOffer : Type 0 where
  pub id : String
  pub code : String
  pub api_base_url : String
  pub expires_at : String
  pub scopes : List String

abbrev pub new_pairing : Platform → ℕ → String → String → String → List String → ℤ → PairingRequest
new_pairing p now pairing_id code api_base_url scopes ttl_seconds = record {
  id = pairing_id;
  created_at = p.isoformat now;
  expires_at = p.isoformat (now + pairing_ttl ttl_seconds * 1_000_000);
  claimed_at = "";
  claimed_device_id = "";
  api_base_url = strip api_base_url;
  scopes = normalize_mobile_scopes scopes;
  code_hash = p.hash_secret code;
  failed_attempts = 0;
  max_failed_attempts = mobile_pairing_max_failed_attempts;
}

-- `create_mobile_pairing`, given the id and the draw of `secrets.randbelow(900000)`
unfoldable pub create_mobile_pairing :
    Platform → ℕ → String → ℕ → String → List String → ℤ → Storage → PairingOffer × Storage
unfolding save_mobile_pairing_request
create_mobile_pairing p now pairing_id draw api_base_url scopes ttl_seconds st =
    let code = int_text (pos (draw + 100_000)) in
    let r = new_pairing p now pairing_id code api_base_url scopes ttl_seconds in
    (
      record {
        id = pairing_id;
        code = code;
        api_base_url = r.api_base_url;
        expires_at = r.expires_at;
        scopes = r.scopes;
      },
      save_mobile_pairing_request p now r st,
    )

abbrev pub datetime_max : ℕ
datetime_max = 315_537_897_599_999_999

-- When the pairing expires and when it is claimed; a text that is no time is read as expired.
unfoldable pub claim_times : Option ℕ → Option ℕ → ℕ × ℕ
claim_times (some expires_at) (some now) = (expires_at, now)
claim_times _ _ = (0, datetime_max)

-- `int(pairing.get("max_failed_attempts") or default_max_failed_attempts)`
abbrev pub or_default : ℕ → ℕ → ℕ
or_default n default = if n == 0 then default else n

-- The branch of `claim_mobile_pairing_request` that pairs the device. A failed statement raises, and the
-- transaction is not committed.
unfoldable pub pair_device :
    String
    → PairingRow
    → MobileDevice
    → String
    → Storage
    → Result (PairingRequest × MobileDevice) × Storage
unfolding has_device
pair_device pairing_id row device claimed_at st =
    let claimed_device = record device { scopes = row.payload.scopes } in
    let pairing = record row.payload {
      claimed_at = claimed_at;
      claimed_device_id = claimed_device.id;
    } in
    if not (is_empty row.claimed_at)
    then (err "Mobile pairing claim lost its conditional update", st)
    else if has_device claimed_device.id st.mobile_devices
    then (err "UNIQUE constraint failed: mobile_devices.id", st)
    else (
      ok (pairing, claimed_device),
      record {
        mobile_pairing_requests =
            put pairing_id (record row { payload = pairing; claimed_at = claimed_at })
              st.mobile_pairing_requests;
        mobile_devices =
            st.mobile_devices
            ++ (record {
              id = claimed_device.id;
              payload = claimed_device;
              last_seen_at = claimed_device.last_seen_at;
              revoked_at = claimed_device.revoked_at;
            }
                ∷ []);
      },
    )

-- The guards before the code is compared.
unfoldable pub claim_guards : Platform → String → ℕ → PairingRow → Checks
unfolding claim_times
claim_guards p claimed_at default row =
    let pairing = row.payload in
    let times =
      claim_times (p.fromisoformat (or_text row.expires_at pairing.expires_at))
        (p.fromisoformat claimed_at) in
    (
      not (is_empty (or_text row.claimed_at pairing.claimed_at)),
      "Mobile pairing code has already been claimed",
    )
    ∷ (leb times.0 times.1, "Mobile pairing code has expired")
    ∷ (
      leb (or_default pairing.max_failed_attempts default) pairing.failed_attempts,
      "Mobile pairing code has too many failed attempts",
    )
    ∷ []

unfoldable pub failed_once : PairingRow → PairingRow
failed_once row = record row {
  payload = record row.payload { failed_attempts = suc row.payload.failed_attempts };
}

unfoldable pub claim_unless :
    Option String
    → String
    → String
    → MobileDevice
    → String
    → PairingRow
    → Storage
    → Result (PairingRequest × MobileDevice) × Storage
unfolding pair_device failed_once
claim_unless (some rejection) pairing_id presented_code_hash device claimed_at row st =
    (err rejection, st)
claim_unless none pairing_id presented_code_hash device claimed_at row st =
    if not (str_eq presented_code_hash row.payload.code_hash)
    then (
      err "Invalid or expired mobile pairing code",
      record st {
        mobile_pairing_requests = put pairing_id (failed_once row) st.mobile_pairing_requests;
      },
    )
    else pair_device pairing_id row device claimed_at st

unfoldable pub claim_row :
    Platform
    → String
    → String
    → MobileDevice
    → String
    → ℕ
    → PairingRow
    → Storage
    → Result (PairingRequest × MobileDevice) × Storage
unfolding claim_guards claim_unless first_failing
claim_row p pairing_id presented_code_hash device claimed_at default row st =
    claim_unless (first_failing (claim_guards p claimed_at default row)) pairing_id
      presented_code_hash device claimed_at row st

unfoldable pub claim_found :
    Platform
    → String
    → String
    → MobileDevice
    → String
    → ℕ
    → Option PairingRow
    → Storage
    → Result (PairingRequest × MobileDevice) × Storage
unfolding claim_row
claim_found p pairing_id hash device claimed_at default none st =
    (err "Invalid or expired mobile pairing code", st)
claim_found p pairing_id hash device claimed_at default (some row) st =
    claim_row p pairing_id hash device claimed_at default row st

unfoldable pub claim_mobile_pairing_request :
    Platform
    → String
    → String
    → MobileDevice
    → String
    → ℕ
    → Storage
    → Result (PairingRequest × MobileDevice) × Storage
unfolding claim_found
claim_mobile_pairing_request p pairing_id presented_code_hash device claimed_at default st =
    claim_found p pairing_id presented_code_hash device claimed_at default
      (st.mobile_pairing_requests pairing_id) st

pub record Credential : Type 0 where
  pub token : String
  pub device : PublicDevice
  pub scopes : List String
  pub expires_at : String

-- The random values of a claim and the cleaned labels of the device.
pub record ClaimDraw : Type 0 where
  pub token : String
  pub device_id : String
  pub name : String
  pub platform : String

abbrev pub mobile_token_ttl_days : ℕ
mobile_token_ttl_days = 30

abbrev pub new_device : Platform → ℕ → String → ClaimDraw → MobileDevice
new_device p now pairing_id draw = record {
  id = draw.device_id;
  name = draw.name;
  platform = draw.platform;
  created_at = p.isoformat now;
  last_seen_at = p.isoformat now;
  expires_at = p.isoformat (now + mobile_token_ttl_days * 86_400_000_000);
  revoked_at = "";
  token_hash = p.hash_secret draw.token;
  paired_from_pairing_id = strip pairing_id;
  scopes = [];
}

unfoldable pub credential_of : String → Result (PairingRequest × MobileDevice) → Result Credential
credential_of token (err message) = err message
credential_of token (ok (pairing, device)) = ok (record {
  token = token;
  device = public_mobile_device device;
  scopes = normalize_mobile_scopes device.scopes;
  expires_at = device.expires_at;
})

unfoldable pub claim_mobile_pairing :
    Platform → ℕ → String → String → ClaimDraw → Storage → Result Credential × Storage
unfolding claim_mobile_pairing_request credential_of
claim_mobile_pairing p now pairing_id code draw st =
    let claimed =
      claim_mobile_pairing_request p (strip pairing_id) (p.hash_secret (strip code))
        (new_device p now pairing_id draw) (p.isoformat now) mobile_pairing_max_failed_attempts
        st in
    (credential_of draw.token claimed.0, claimed.1)
