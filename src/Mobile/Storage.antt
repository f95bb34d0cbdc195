-- ===== src/Mobile/Storage.antt =====
-- The pairing requests and the devices that backend/app/core/state.py keeps in the database of
-- backend/app/core/storage.py. A time is a number of microseconds since `datetime.min`, and a text in the database.
use crypto_arc_v.Prelude.{
  ℕ, String, Bool, false, ◌||◌, Option, some, List, [], ◌∷◌, if◌then◌else◌, is_empty, str_eq,
}

-- `hashlib.sha256` of a secret and of a ticket, each behind its prefix, `datetime.isoformat`, and `datetime.fromisoformat` of a text whose
-- "Z" is replaced.
pub record Platform : Type 0 where
  pub hash_secret : String → String
  pub hash_websocket_ticket : String → String
  pub isoformat : ℕ → String
  pub fromisoformat : String → Option ℕ

pub record PairingRequest : Type 0 where
  pub id : String
  pub created_at : String
  pub expires_at : String
  pub claimed_at : String
  pub claimed_device_id : String
  pub api_base_url : String
  pub scopes : List String
  pub code_hash : String
  pub failed_attempts : ℕ
  pub max_failed_attempts : ℕ

pub record MobileDevice : Type 0 where
  pub id : String
  pub name : String
  pub platform : String
  pub created_at : String
  pub last_seen_at : String
  pub expires_at : String
  pub revoked_at : String
  pub token_hash : String
  pub paired_from_pairing_id : String
  pub scopes : List String

-- The columns that the modelled statements read, beside the payload.
pub record PairingRow : Type 0 where
  pub payload : PairingRequest
  pub expires_at : String
  pub claimed_at : String

pub record DeviceRow : Type 0 where
  pub id : String
  pub payload : MobileDevice
  pub last_seen_at : String
  pub revoked_at : String

-- The two tables: `id` is the primary key of both.
pub record Storage : Type 0 where
  pub mobile_pairing_requests : String → Option PairingRow
  pub mobile_devices : List DeviceRow

-- `a or b`
abbrev pub or_text : String → String → String
or_text a b = if is_empty a then b else a

abbrev pub put : {A : Type 0} → String → A → (String → Option A) → String → Option A
put key value rows other = if str_eq other key then some value else rows other

-- `UPDATE mobile_devices ... WHERE id = ?`
unfoldable pub update_devices : String → (DeviceRow → DeviceRow) → List DeviceRow → List DeviceRow
update_devices id change [] = []
update_devices id change (row ∷ rows) =
    (if str_eq row.id id then change row else row) ∷ update_devices id change rows

unfoldable pub has_device : String → List DeviceRow → Bool
has_device id [] = false
has_device id (row ∷ rows) = str_eq row.id id || has_device id rows

-- `_public_mobile_device`: the device without its token's hash
pub record PublicDevice : Type 0 where
  pub id : String
  pub name : String
  pub platform : String
  pub created_at : String
  pub last_seen_at : String
  pub expires_at : String
  pub revoked_at : String
  pub paired_from_pairing_id : String
  pub scopes : List String

abbrev pub public_mobile_device : MobileDevice → PublicDevice
public_mobile_device d = record {
  id = d.id;
  name = d.name;
  platform = d.platform;
  created_at = d.created_at;
  last_seen_at = d.last_seen_at;
  expires_at = d.expires_at;
  revoked_at = d.revoked_at;
  paired_from_pairing_id = d.paired_from_pairing_id;
  scopes = d.scopes;
}
