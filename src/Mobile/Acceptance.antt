-- ===== src/Mobile/Acceptance.antt =====
-- The token that a claim hands out.
use crypto_arc_v.Prelude.{
  ℕ, ◌+◌, ◌*◌, ◌<◌, ◌≡◌, refl, sym, ap, ◌∙◌, String, true, false, ◌||◌, some, none, List, [], ◌∷◌,
  ◌++◌, is_empty, contains, arith, eq_iff,
}
use crypto_arc_v.Prelude.Text.{strip}
use crypto_arc_v.Prelude.Result.{ok}
use crypto_arc_v.Mobile.Storage.{
  Platform, MobileDevice, DeviceRow, Storage, PublicDevice, public_mobile_device,
}
use crypto_arc_v.Mobile.Pairing.{
  Credential, ClaimDraw, new_device, claim_mobile_pairing, mobile_token_ttl_days,
}
use crypto_arc_v.Mobile.Pairing.Claims.{claim_mobile_pairing-IsPaired, scoped}
use crypto_arc_v.Mobile.Tokens.{
  validate_mobile_token, validate_found, accepted, is_refused, parse_mobile_time,
  find_by_token_hash, touch_found, touch_active_mobile_device_by_token_hash,
}
use crypto_arc_v.Mobile.Once.{IsClock, isoformat-non_empty}

find_by_token_hash-last :
    (hash : String) (rows : List DeviceRow) (row : DeviceRow)
    → find_by_token_hash hash rows ≡ none
    → row.payload.token_hash ≡ hash
    → find_by_token_hash hash (rows ++ (row ∷ [])) ≡ some row
unfolding find_by_token_hash
find_by_token_hash-last hash [] row h e = ground (arith, e, eq_iff row.payload.token_hash hash)
find_by_token_hash-last hash (r ∷ rows) row h e =
    ground (arith, h, find_by_token_hash-last hash rows row, e)

is_refused-before_expiry :
    (p : Platform) (now expiry : ℕ) (scope : String) (d : MobileDevice)
    → IsClock p
    → d.revoked_at ≡ ""
    → d.expires_at ≡ p.isoformat expiry
    → now < expiry
    → (is_empty scope || contains scope d.scopes) ≡ true
    → is_refused p now scope d ≡ false
unfolding is_refused parse_mobile_time
is_refused-before_expiry p now expiry scope d clock on at early allowed =
    let filled : is_empty d.expires_at ≡ false =
      ap is_empty at ∙ isoformat-non_empty p expiry clock in
    let read : p.fromisoformat d.expires_at ≡ some expiry =
      ap p.fromisoformat at ∙ clock.reads expiry in
    rw (on, filled, read) (ground (arith, early, allowed))

touch_active-found :
    (hash last_seen_at : String) (rows : List DeviceRow) (row : DeviceRow)
    → find_by_token_hash hash rows ≡ some row
    → row.revoked_at ≡ ""
    → row.payload.revoked_at ≡ ""
    → (touch_active_mobile_device_by_token_hash hash last_seen_at rows).0
      ≡ some (record row.payload { last_seen_at = last_seen_at })
unfolding touch_active_mobile_device_by_token_hash touch_found
touch_active-found hash last_seen_at rows row found on on_payload =
    let open_column : is_empty row.revoked_at ≡ true = rw on refl in
    let open_payload : is_empty row.payload.revoked_at ≡ true = rw on_payload refl in
    rw (found, open_column, open_payload) refl

validate-found :
    (p : Platform) (now expiry : ℕ) (token scope : String) (st : Storage) (row : DeviceRow)
    → IsClock p
    → is_empty (strip token) ≡ false
    → find_by_token_hash (p.hash_secret (strip token)) st.mobile_devices ≡ some row
    → row.revoked_at ≡ ""
    → row.payload.revoked_at ≡ ""
    → row.payload.expires_at ≡ p.isoformat expiry
    → now < expiry
    → (is_empty scope || contains scope row.payload.scopes) ≡ true
    → (validate_mobile_token p now token scope st).0
      ≡ some (public_mobile_device (record row.payload { last_seen_at = p.isoformat now }))
unfolding validate_mobile_token validate_found accepted
validate-found p now expiry token scope st row clock some_token found on on_payload at early
      allowed =
    let touched : MobileDevice = record row.payload { last_seen_at = p.isoformat now } in
    let before =
      is_refused-before_expiry p now expiry scope row.payload clock on_payload at early allowed in
    let after =
      is_refused-before_expiry p now expiry scope touched clock on_payload at early allowed in
    let seen =
      touch_active-found (p.hash_secret (strip token)) (p.isoformat now) st.mobile_devices row found
        on on_payload in
    rw (some_token, found, before, seen, after) refl

-- The token of a claim is valid at once and until its thirty days are over, for every scope of the pairing, and
-- names the device of the claim with its new time of last use: given that a token has no white space around
-- it, and that no other device has the same hash.
pub claim_mobile_pairing-validate :
    (p : Platform) (now later : ℕ) (id code scope : String) (draw : ClaimDraw) (st next : Storage)
    (c : Credential)
    → IsClock p
    → strip draw.token ≡ draw.token
    → is_empty draw.token ≡ false
    → find_by_token_hash (p.hash_secret draw.token) st.mobile_devices ≡ none
    → claim_mobile_pairing p now id code draw st ≡ (ok c, next)
    → later < now + mobile_token_ttl_days * 86_400_000_000
    → (is_empty scope || contains scope c.device.scopes) ≡ true
    → (validate_mobile_token p later c.token scope next).0
      ≡ some (record c.device { last_seen_at = p.isoformat later })
claim_mobile_pairing-validate p now later id code scope draw st next c clock stripped filled fresh h
      early allowed =
    let (row, _, _, paired, token, device) =
      claim_mobile_pairing-IsPaired p now id code draw st next c h in
    let made = new_device p now id draw in
    let added : DeviceRow = record {
      id = made.id;
      payload = scoped row made;
      last_seen_at = made.last_seen_at;
      revoked_at = made.revoked_at;
    } in
    let same : strip c.token ≡ draw.token = ap strip token ∙ stripped in
    let found : find_by_token_hash (p.hash_secret (strip c.token)) next.mobile_devices
        ≡ some added =
      rw (same, paired.devices)
        (find_by_token_hash-last (p.hash_secret draw.token) st.mobile_devices added fresh refl) in
    validate-found p later (now + mobile_token_ttl_days * 86_400_000_000) c.token scope next added
      clock (ap is_empty same ∙ filled) found refl refl refl early
      (ap (λ d. is_empty scope || contains scope d.scopes) (sym device) ∙ allowed)
    ∙ ap (λ (d : PublicDevice). some (record d { last_seen_at = p.isoformat later })) (sym device)
