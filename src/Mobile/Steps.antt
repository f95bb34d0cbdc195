-- ===== src/Mobile/Steps.antt =====
-- The calls that change the two tables, in any order: each is one write transaction of
-- backend/app/core/storage.py. The id of a new pairing is drawn and has no row.
use crypto_arc_v.Prelude.{ℕ, ◌≡◌, String, none, List}
use crypto_arc_v.Prelude.Int.{ℤ}
use crypto_arc_v.Mobile.Storage.{Platform, Storage}
use crypto_arc_v.Mobile.Pairing.{ClaimDraw, create_mobile_pairing, claim_mobile_pairing}
use crypto_arc_v.Mobile.Tokens.{validate_mobile_token, revoke_mobile_device, revoke_all}

pub data Step (p : Platform) (st : Storage) : Storage → Type 0 where
  create_step :
      (now : ℕ) (id : String) (draw : ℕ) (url : String) (scopes : List String) (ttl : ℤ)
      → st.mobile_pairing_requests id ≡ none
      → Step p st (create_mobile_pairing p now id draw url scopes ttl st).1
  claim_step :
      (now : ℕ) (id code : String) (draw : ClaimDraw)
      → Step p st (claim_mobile_pairing p now id code draw st).1
  validate_step :
      (now : ℕ) (token scope : String) → Step p st (validate_mobile_token p now token scope st).1
  revoke_step : (now : ℕ) (id : String) → Step p st (revoke_mobile_device p now id st).1
  revoke_all_step :
      (now : ℕ)
      → Step p st
          (record st { mobile_devices = (revoke_all (p.isoformat now) st.mobile_devices).0 })

pub data Run (p : Platform) : Storage → Storage → Type 0 where
  stay : {st : Storage} → Run p st st
  and_then : {st mid next : Storage} → Run p st mid → Step p mid next → Run p st next

-- No pairing has been requested, and no device is known.
abbrev pub no_rows : Storage
no_rows = record { mobile_pairing_requests = λ id. none; mobile_devices = List.[] }

-- What holds of a state and is kept by every step holds after any run from it.
pub Run-induction {ℓ} :
    (p : Platform) (P : Storage → Type ℓ)
    → ((st next : Storage) → Step p st next → P st → P next)
    → (st next : Storage) → Run p st next
    → P st
    → P next
Run-induction p P kept st _ stay h = h
Run-induction p P kept st next (and_then {mid} r s) h =
    kept mid next s (Run-induction p P kept st mid r h)
