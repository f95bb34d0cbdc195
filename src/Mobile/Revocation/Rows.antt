-- ===== src/Mobile/Revocation/Rows.antt =====
-- The rows of revoked devices, and what updates keep of them.
use crypto_arc_v.Prelude.{
  inl, inr, ◌≡◌, refl, subst, ◌∙◌, String, Bool, true, false, some, List, [], ◌∷◌, ◌++◌, is_empty,
  str_eq, arith, eq_iff, Bool-cases, All, false≢true,
}
use crypto_arc_v.Mobile.Storage.{DeviceRow, or_text, update_devices, has_device}
use crypto_arc_v.Mobile.Tokens.{find_by_token_hash, find_device}

-- The payload of a row carries the row's id.
abbrev pub IsKeyed : List DeviceRow → Type 0
IsKeyed rows = All (λ row. row.payload.id ≡ row.id) rows

-- The row has been revoked if it is one of the devices `gone`.
abbrev pub IsOff : (String → Bool) → DeviceRow → Type 0
IsOff gone row =
    gone row.id ≡ true → is_empty (or_text row.revoked_at row.payload.revoked_at) ≡ false

-- The devices `gone` are known, and all have been revoked.
pub record IsRevoked (gone : String → Bool) (rows : List DeviceRow) : Type 0 where
  pub keyed : IsKeyed rows
  pub known : (id : String) → gone id ≡ true → has_device id rows ≡ true
  pub revoked : All (IsOff gone) rows

pub All-update_devices :
    (P : DeviceRow → Type 0) (other : String) (change : DeviceRow → DeviceRow)
    (rows : List DeviceRow)
    → ((row : DeviceRow) → str_eq row.id other ≡ true → P row → P (change row))
    → All P rows
    → All P (update_devices other change rows)
unfolding update_devices
All-update_devices P other change [] h ps = tt
All-update_devices P other change (row ∷ rows) h (q, qs) = (
  elim (Bool-cases (str_eq row.id other)) [ inl e ↦ rw e (h row e q) | inr e ↦ rw e q ],
  All-update_devices P other change rows h qs,
)

pub has_device-update_devices :
    (id other : String) (change : DeviceRow → DeviceRow) (rows : List DeviceRow)
    → ((row : DeviceRow) → (change row).id ≡ row.id)
    → has_device id (update_devices other change rows) ≡ has_device id rows
unfolding has_device update_devices
has_device-update_devices id other change [] h = refl
has_device-update_devices id other change (row ∷ rows) h =
    ground (arith, h row, has_device-update_devices id other change rows h)

pub has_device-append :
    (id : String) (rows others : List DeviceRow)
    → has_device id rows ≡ true
    → has_device id (rows ++ others) ≡ true
unfolding has_device
has_device-append id [] others h = absurd (false≢true h)
has_device-append id (row ∷ rows) others h = ground (arith, has_device-append id rows others)

module _ (P : DeviceRow → Type 0) where
  pub All-find_by_token_hash :
      (hash : String) (rows : List DeviceRow) (row : DeviceRow)
      → find_by_token_hash hash rows ≡ some row
      → All P rows
      → P row
  unfolding find_by_token_hash
  All-find_by_token_hash hash [] row h ps = absurd (cc)
  All-find_by_token_hash hash (r ∷ rows) row h (q, qs) =
      elim (Bool-cases (str_eq r.payload.token_hash hash)) [
        | inl e ↦ subst P (ground (arith, h, e)) q
        | inr e ↦ All-find_by_token_hash hash rows row (rw e at h) qs
      ]

  pub All-find_device :
      (id : String) (rows : List DeviceRow) (row : DeviceRow)
      → find_device id rows ≡ some row
      → All P rows
      → P row
  unfolding find_device
  All-find_device id [] row h ps = absurd (cc)
  All-find_device id (r ∷ rows) row h (q, qs) = elim (Bool-cases (str_eq r.id id)) [
    | inl e ↦ subst P (ground (arith, h, e)) q
    | inr e ↦ All-find_device id rows row (rw e at h) qs
  ]

pub find_device-id :
    (id : String) (rows : List DeviceRow) (row : DeviceRow)
    → find_device id rows ≡ some row
    → (row.id ≡ id) × (has_device id rows ≡ true)
unfolding find_device has_device
find_device-id id [] row h = absurd (cc)
find_device-id id (r ∷ rows) row h = ground (arith, h, eq_iff r.id id, find_device-id id rows row)

pub update_devices-IsRevoked :
    (gone : String → Bool) (other : String) (change : DeviceRow → DeviceRow) (rows : List DeviceRow)
    → ((row : DeviceRow) → (change row).id ≡ row.id)
    → ((row : DeviceRow)
        → str_eq row.id other ≡ true
        → row.payload.id ≡ row.id
        → (change row).payload.id ≡ (change row).id)
    → ((row : DeviceRow) → str_eq row.id other ≡ true → IsOff gone row → IsOff gone (change row))
    → IsRevoked gone rows
    → IsRevoked gone (update_devices other change rows)
update_devices-IsRevoked gone other change rows same keyed off v = record {
  keyed = All-update_devices (λ row. row.payload.id ≡ row.id) other change rows keyed v.keyed;
  known = λ id g. has_device-update_devices id other change rows same ∙ v.known id g;
  revoked = All-update_devices (IsOff gone) other change rows off v.revoked;
}
