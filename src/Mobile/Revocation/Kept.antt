-- ===== src/Mobile/Revocation/Kept.antt =====
-- Every call keeps revoked devices revoked.
use crypto_arc_v.Prelude.{
  ℕ, inl, inr, ◌≡◌, refl, sym, ap, ◌∙◌, String, Bool, true, false, not, ◌||◌, Option, some, none,
  List, [], ◌∷◌, is_empty, str_eq, arith, eq_iff, Bool-cases, Option-cases, All, All-append,
  false≢true,
}
use crypto_arc_v.Prelude.Text.{strip}
use crypto_arc_v.Prelude.Checks.{first_failing}
use crypto_arc_v.Mobile.Storage.{
  Platform, MobileDevice, PairingRow, DeviceRow, Storage, or_text, has_device,
}
use crypto_arc_v.Mobile.Pairing.{
  pair_device, claim_guards, claim_unless, claim_row, claim_found, claim_mobile_pairing_request,
  claim_mobile_pairing, create_mobile_pairing, save_mobile_pairing_request,
}
use crypto_arc_v.Mobile.Tokens.{
  validate_mobile_token, validate_found, is_refused, find_by_token_hash, touch_found,
  touch_active_mobile_device_by_token_hash, revoke_mobile_device, revoke_found, revoke_row,
  revoke_all, find_device,
}
use crypto_arc_v.Mobile.Steps.{
  Step, create_step, claim_step, validate_step, revoke_step, revoke_all_step,
}
use crypto_arc_v.Mobile.Once.{IsClock, isoformat-non_empty}
use crypto_arc_v.Mobile.Revocation.Rows.{
  IsKeyed, IsOff, IsRevoked, has_device-append, All-find_by_token_hash, All-find_device,
  find_device-id, update_devices-IsRevoked,
}

pub touched_off :
    (row : DeviceRow)
    → (not (is_empty row.revoked_at) || not (is_empty row.payload.revoked_at)) ≡ false
    → is_empty (or_text row.revoked_at row.payload.revoked_at) ≡ false
    → ⊥
touched_off row h off = ground (arith, h, off)

touch-IsRevoked :
    (gone : String → Bool) (hash last_seen_at : String) (rows : List DeviceRow)
    → IsRevoked gone rows
    → IsRevoked gone (touch_active_mobile_device_by_token_hash hash last_seen_at rows).1
unfolding touch_active_mobile_device_by_token_hash touch_found
touch-IsRevoked gone hash last_seen_at rows v = elim (Option-cases (find_by_token_hash hash rows)) [
  | inl e ↦ rw e v
  | inr (row, e) ↦
      elim (Bool-cases (not (is_empty row.revoked_at) || not (is_empty row.payload.revoked_at))) [
        | inl b ↦ rw (e, b) v
        | inr b ↦
            rw (e, b)
              (update_devices-IsRevoked gone row.id _ rows (λ r. refl)
                (λ r found keyed.
                  All-find_by_token_hash (λ row. row.payload.id ≡ row.id) hash rows row e v.keyed
                  ∙ sym ((eq_iff r.id row.id).0 found))
                (λ r found off here. absurd (
                  touched_off row b (
                    All-find_by_token_hash (IsOff gone) hash rows row e v.revoked
                      (ap gone (sym ((eq_iff r.id row.id).0 found)) ∙ here))))
                v)
      ]
]

validate-IsRevoked :
    (p : Platform) (now : ℕ) (token scope : String) (gone : String → Bool) (st : Storage)
    → IsRevoked gone st.mobile_devices
    → IsRevoked gone (validate_mobile_token p now token scope st).1.mobile_devices
unfolding validate_mobile_token validate_found
validate-IsRevoked p now token scope gone st v = elim (Bool-cases (is_empty (strip token))) [
  | inl a ↦ rw a v
  | inr a ↦
      elim (Option-cases (find_by_token_hash (p.hash_secret (strip token)) st.mobile_devices)) [
        | inl b ↦ rw (a, b) v
        | inr (row, b) ↦ elim (Bool-cases (is_refused p now scope row.payload)) [
          | inl c ↦ rw (a, b, c) v
          | inr c ↦
              rw (a, b, c)
                (touch-IsRevoked gone (p.hash_secret (strip token)) (p.isoformat now)
                  st.mobile_devices v)
        ]
      ]
]

pub or_text-non_empty : (a b : String) → is_empty b ≡ false → is_empty (or_text a b) ≡ false
or_text-non_empty a b h = elim (Bool-cases (is_empty a)) [ inl e ↦ rw e h | inr e ↦ rw (e, e) refl ]

pub or_text-kept : (a b : String) → is_empty a ≡ false → is_empty (or_text a b) ≡ false
or_text-kept a b h = rw (h, h) refl

pub revoke-IsRevoked :
    (p : Platform) (now : ℕ) (other : String) (gone : String → Bool) (st : Storage)
    → IsClock p
    → IsRevoked gone st.mobile_devices
    → IsRevoked gone (revoke_mobile_device p now other st).1.mobile_devices
unfolding revoke_mobile_device revoke_found revoke_row
revoke-IsRevoked p now other gone st clock v =
    elim (Option-cases (find_device (strip other) st.mobile_devices)) [
      | inl e ↦ rw e v
      | inr (row, e) ↦
          let held =
            All-find_device (λ row. row.payload.id ≡ row.id) (strip other) st.mobile_devices row e
              v.keyed in
          let at = (find_device-id (strip other) st.mobile_devices row e).0 in
          rw e (
            update_devices-IsRevoked gone (strip other) _ st.mobile_devices (λ r. refl)
              (λ r found keyed. held ∙ at ∙ sym ((eq_iff r.id (strip other)).0 found))
              (λ r found off here. or_text-kept _ _ (
                or_text-non_empty (or_text row.revoked_at row.payload.revoked_at) (p.isoformat now)
                  (isoformat-non_empty p now clock)))
              v)
    ]

pair_device-IsRevoked :
    (gone : String → Bool) (other : String) (row : PairingRow) (device : MobileDevice)
    (claimed_at : String) (st : Storage)
    → IsRevoked gone st.mobile_devices
    → IsRevoked gone (pair_device other row device claimed_at st).1.mobile_devices
unfolding pair_device
pair_device-IsRevoked gone other row device claimed_at st v =
    elim (Bool-cases (is_empty row.claimed_at)) [
      | inr a ↦ rw a v
      | inl a ↦ elim (Bool-cases (has_device device.id st.mobile_devices)) [
        | inl b ↦ rw (a, b) v
        | inr b ↦
            rw (a, b)
              (record {
                keyed =
                    All-append (λ row. row.payload.id ≡ row.id) st.mobile_devices _ v.keyed
                      (refl, tt);
                known = λ id g. has_device-append id st.mobile_devices _ (v.known id g);
                revoked =
                    All-append (IsOff gone) st.mobile_devices _ v.revoked
                      ((λ e. absurd (false≢true (sym b ∙ v.known device.id e))), tt);
              })
      ]
    ]

claim-IsRevoked :
    (p : Platform) (gone : String → Bool) (other hash : String) (device : MobileDevice)
    (claimed_at : String) (default : ℕ) (found : Option PairingRow) (st : Storage)
    → IsRevoked gone st.mobile_devices
    → IsRevoked gone (claim_found p other hash device claimed_at default found st).1.mobile_devices
unfolding claim_found claim_row claim_unless
claim-IsRevoked p gone other hash device claimed_at default none st v = v
claim-IsRevoked p gone other hash device claimed_at default (some row) st v =
    elim (Option-cases (first_failing (claim_guards p claimed_at default row))) [
      | inr (message, e) ↦ rw e v
      | inl e ↦ elim (Bool-cases (str_eq hash row.payload.code_hash)) [
        | inl c ↦ rw (e, c) (pair_device-IsRevoked gone other row device claimed_at st v)
        | inr c ↦ rw (e, c) v
      ]
    ]

pub All-map :
    (P Q : DeviceRow → Type 0) (rows : List DeviceRow)
    → ((row : DeviceRow) → P row → Q row)
    → All P rows
    → All Q rows
All-map P Q [] f ps = tt
All-map P Q (row ∷ rows) f (q, qs) = (f row q, All-map P Q rows f qs)

-- Every row has been revoked.
IsAllOff : List DeviceRow → Type 0
IsAllOff rows = All (λ row. is_empty (or_text row.revoked_at row.payload.revoked_at) ≡ false) rows

revoke_all-IsAllOff :
    (revoked_at : String) (rows : List DeviceRow)
    → is_empty revoked_at ≡ false
    → IsAllOff (revoke_all revoked_at rows).0
unfolding IsAllOff revoke_all
revoke_all-IsAllOff revoked_at [] h = tt
revoke_all-IsAllOff revoked_at (row ∷ rows) h =
    elim (Bool-cases (is_empty (or_text row.revoked_at row.payload.revoked_at))) [
      | inl e ↦ rw e (or_text-kept revoked_at revoked_at h, revoke_all-IsAllOff revoked_at rows h)
      | inr e ↦ rw e (e, revoke_all-IsAllOff revoked_at rows h)
    ]

revoke_all-IsKeyed :
    (revoked_at : String) (rows : List DeviceRow)
    → IsKeyed rows
    → IsKeyed (revoke_all revoked_at rows).0
unfolding revoke_all
revoke_all-IsKeyed revoked_at [] h = tt
revoke_all-IsKeyed revoked_at (row ∷ rows) (h, hs) =
    elim (Bool-cases (is_empty (or_text row.revoked_at row.payload.revoked_at))) [
      | inl e ↦ rw e (h, revoke_all-IsKeyed revoked_at rows hs)
      | inr e ↦ rw e (h, revoke_all-IsKeyed revoked_at rows hs)
    ]

has_device-revoke_all :
    (id revoked_at : String) (rows : List DeviceRow)
    → has_device id (revoke_all revoked_at rows).0 ≡ has_device id rows
unfolding revoke_all has_device
has_device-revoke_all id revoked_at [] = refl
has_device-revoke_all id revoked_at (row ∷ rows) =
    ground (arith, has_device-revoke_all id revoked_at rows)

pub revoke_all-IsRevoked :
    (gone : String → Bool) (revoked_at : String) (rows : List DeviceRow)
    → is_empty revoked_at ≡ false
    → IsKeyed rows
    → ((id : String) → gone id ≡ true → has_device id rows ≡ true)
    → IsRevoked gone (revoke_all revoked_at rows).0
unfolding IsAllOff
revoke_all-IsRevoked gone revoked_at rows h k d = record {
  keyed = revoke_all-IsKeyed revoked_at rows k;
  known = λ id g. has_device-revoke_all id revoked_at rows ∙ d id g;
  revoked =
      All-map (λ row. is_empty (or_text row.revoked_at row.payload.revoked_at) ≡ false) (IsOff gone)
        _ (λ row off here. off) (revoke_all-IsAllOff revoked_at rows h);
}

pub Step-IsRevoked :
    (p : Platform) (gone : String → Bool)
    → IsClock p
    → (st next : Storage) → Step p st next
    → IsRevoked gone st.mobile_devices
    → IsRevoked gone next.mobile_devices
unfolding create_mobile_pairing save_mobile_pairing_request claim_mobile_pairing
    claim_mobile_pairing_request
Step-IsRevoked p gone clock st _ (create_step now other draw url scopes ttl h) v = v
Step-IsRevoked p gone clock st _ (claim_step now other code draw) v =
    claim-IsRevoked p gone (strip other) _ _ _ _ (st.mobile_pairing_requests (strip other)) st v
Step-IsRevoked p gone clock st _ (validate_step now token scope) v =
    validate-IsRevoked p now token scope gone st v
Step-IsRevoked p gone clock st _ (revoke_step now other) v =
    revoke-IsRevoked p now other gone st clock v
Step-IsRevoked p gone clock st _ (revoke_all_step now) v =
    revoke_all-IsRevoked gone (p.isoformat now) st.mobile_devices (isoformat-non_empty p now clock)
      v.keyed v.known
