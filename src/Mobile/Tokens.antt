-- ===== src/Mobile/Tokens.antt =====
-- The token of a paired device: `validate_mobile_token` and `revoke_mobile_device` of backend/app/core/state.py with
-- the transactions of backend/app/core/storage.py that they call.
use crypto_arc_v.Prelude.{
  ℕ, suc, String, Bool, not, ◌&&◌, ◌||◌, Option, some, none, List, [], ◌∷◌, if◌then◌else◌, is_empty,
  str_eq, leb, contains,
}
use crypto_arc_v.Prelude.Text.{strip}
use crypto_arc_v.Prelude.Result.{Result, ok, err}
use crypto_arc_v.Mobile.Storage.{
  Platform, MobileDevice, DeviceRow, Storage, or_text, update_devices, PublicDevice,
  public_mobile_device,
}

unfoldable pub find_by_token_hash : String → List DeviceRow → Option DeviceRow
find_by_token_hash token_hash [] = none
find_by_token_hash token_hash (row ∷ rows) =
    if str_eq row.payload.token_hash token_hash
    then some row
    else find_by_token_hash token_hash rows

unfoldable pub touch_found :
    String → Option DeviceRow → List DeviceRow → Option MobileDevice × List DeviceRow
unfolding update_devices
touch_found last_seen_at none rows = (none, rows)
touch_found last_seen_at (some row) rows =
    if not (is_empty row.revoked_at) || not (is_empty row.payload.revoked_at)
    then (none, rows)
    else let payload = record row.payload { last_seen_at = last_seen_at } in
      (
        some payload,
        update_devices row.id (λ r. record r { payload = payload; last_seen_at = last_seen_at })
            rows,
      )

unfoldable pub touch_active_mobile_device_by_token_hash :
    String → String → List DeviceRow → Option MobileDevice × List DeviceRow
unfolding find_by_token_hash touch_found
touch_active_mobile_device_by_token_hash token_hash last_seen_at rows =
    touch_found last_seen_at (find_by_token_hash token_hash rows) rows

-- `_parse_mobile_time`
unfoldable pub parse_mobile_time : Platform → String → ℕ
parse_mobile_time p value =
    if is_empty value then 0 else elim (p.fromisoformat value) [ some time ↦ time | none ↦ 0 ]

-- The three guards that `validate_mobile_token` has before and after the write.
unfoldable pub is_refused : Platform → ℕ → String → MobileDevice → Bool
unfolding parse_mobile_time
is_refused p now required_scope device =
    not (is_empty device.revoked_at)
    || leb (parse_mobile_time p device.expires_at) now
    || (not (is_empty required_scope) && not (contains required_scope device.scopes))

unfoldable pub accepted : Platform → ℕ → String → Option MobileDevice → Option PublicDevice
unfolding is_refused
accepted p now required_scope none = none
accepted p now required_scope (some device) =
    if is_refused p now required_scope device then none else some (public_mobile_device device)

unfoldable pub validate_found :
    Platform
    → ℕ
    → String
    → String
    → Option DeviceRow
    → List DeviceRow
    → Option PublicDevice × List DeviceRow
unfolding accepted is_refused touch_active_mobile_device_by_token_hash
validate_found p now token_hash required_scope none rows = (none, rows)
validate_found p now token_hash required_scope (some row) rows =
    if is_refused p now required_scope row.payload
    then (none, rows)
    else let touched = touch_active_mobile_device_by_token_hash token_hash (p.isoformat now) rows in
      (accepted p now required_scope touched.0, touched.1)

unfoldable pub validate_mobile_token :
    Platform → ℕ → String → String → Storage → Option PublicDevice × Storage
unfolding validate_found find_by_token_hash
validate_mobile_token p now token required_scope st =
    if is_empty (strip token)
    then (none, st)
    else let token_hash = p.hash_secret (strip token) in
      let validated =
        validate_found p now token_hash required_scope
          (find_by_token_hash token_hash st.mobile_devices) st.mobile_devices in
      (validated.0, record st { mobile_devices = validated.1 })

unfoldable pub find_device : String → List DeviceRow → Option DeviceRow
find_device id [] = none
find_device id (row ∷ rows) = if str_eq row.id id then some row else find_device id rows

-- `revoke_mobile_device_and_push_registrations` of the row found, without the table of push registrations
unfoldable pub revoke_row :
    String → String → DeviceRow → List DeviceRow → (MobileDevice × Bool) × List DeviceRow
unfolding update_devices
revoke_row device_id revoked_at row rows =
    let existing = or_text row.revoked_at row.payload.revoked_at in
    let effective = or_text existing revoked_at in
    let payload = record row.payload { revoked_at = effective } in
    (
      (payload, is_empty existing),
      update_devices device_id (λ r. record r { payload = payload; revoked_at = effective }) rows,
    )

unfoldable pub revoke_found :
    String → String → Option DeviceRow → Storage → Result PublicDevice × Storage
unfolding revoke_row
revoke_found device_id revoked_at none st = (err "Mobile device was not found", st)
revoke_found device_id revoked_at (some row) st =
    let revoked = revoke_row device_id revoked_at row st.mobile_devices in
    (ok (public_mobile_device revoked.0.0), record st { mobile_devices = revoked.1 })

unfoldable pub revoke_mobile_device :
    Platform → ℕ → String → Storage → Result PublicDevice × Storage
unfolding revoke_found find_device
revoke_mobile_device p now device_id st =
    revoke_found (strip device_id) (p.isoformat now)
      (find_device (strip device_id) st.mobile_devices) st

-- The rows of `revoke_all_mobile_credentials_and_push_registrations`, and how many it revoked
unfoldable pub revoke_all : String → List DeviceRow → List DeviceRow × ℕ
revoke_all revoked_at [] = ([], 0)
revoke_all revoked_at (row ∷ rows) =
    let rest = revoke_all revoked_at rows in
    if is_empty (or_text row.revoked_at row.payload.revoked_at)
    then (
      record row {
        payload = record row.payload { revoked_at = revoked_at };
        revoked_at = revoked_at;
      }
          ∷ rest.0,
      suc rest.1,
    )
    else (row ∷ rest.0, rest.1)
