-- ===== src/Examples/Mobile.antt =====
-- Pairing a phone (backend/app/core/state.py), with times written as their bits, the lowest first.
use Prim.Native.Char.{code}
use crypto_arc_v.Prelude.{
  count, ◌≤◌, eq_iff, is_empty, false, arith, ℕ, zero, suc, ◌+◌, ◌/◌, ◌%◌, ◌<◌, ◌==◌, if◌then◌else◌,
  ◌≡◌, ◌≢◌, ◌∙◌, ap, refl, String, none, some, Option, List, [], ◌∷◌, ◌≤◌, arith,
}
use crypto_arc_v.Prelude.Int.{pos}
use crypto_arc_v.Prelude.Text.{append, strip, int_text}
use crypto_arc_v.Prelude.Checks.{first_failing}
use crypto_arc_v.Prelude.Result.{Result, ok, err}
use crypto_arc_v.Mobile.Storage.{
  has_device, Platform, Storage, PublicDevice, PairingRow, public_mobile_device, update_devices,
}
use crypto_arc_v.Mobile.Scopes.{
  normalize_mobile_scopes, is_allowed, requested_scopes, allowed_scopes, unique_from,
}
use crypto_arc_v.Mobile.Pairing.{
  PairingOffer, Credential, ClaimDraw, create_mobile_pairing, save_mobile_pairing_request,
  pairing_ttl, claim_mobile_pairing, claim_mobile_pairing_request, claim_found, claim_row,
  claim_guards, claim_times, claim_unless, failed_once, pair_device, credential_of, new_device,
  mobile_pairing_max_failed_attempts,
}
use crypto_arc_v.Mobile.Pairing.Claims.{
  IsClaimable, IsPaired, scoped, claim_mobile_pairing-IsPaired,
}
use crypto_arc_v.Prelude.Dict.{Dict, keys}
use crypto_arc_v.Mobile.Tickets.{
  MobileWebSocketTicket, issue_websocket_ticket, consume_websocket_ticket,
}
use crypto_arc_v.Mobile.Tickets.Uses.{issue_step, consume_websocket_ticket-once}
use crypto_arc_v.Mobile.Tickets.Uses
use crypto_arc_v.Mobile.Tokens.{
  validate_mobile_token, revoke_mobile_device, validate_found, find_by_token_hash, is_refused,
  accepted, touch_active_mobile_device_by_token_hash, touch_found, parse_mobile_time, revoke_found,
  revoke_row, find_device,
}
use crypto_arc_v.Mobile.Steps.{stay, and_then, create_step, claim_step, no_rows}
use crypto_arc_v.Mobile.Once.{IsClock, claim_mobile_pairing-once}
use crypto_arc_v.Mobile.Guesses.{Guess, guess_all, guess_all-claim_mobile_pairing}
use crypto_arc_v.Mobile.Acceptance.{claim_mobile_pairing-validate}
use crypto_arc_v.Mobile.Revocation.{by_id, revoke-validate}

unfoldable digit : ℕ → String → String
digit n s = elim n [ zero ↦ append "0" s | suc _ ↦ append "1" s ]

unfoldable bits : ℕ → ℕ → String
unfolding digit append
bits zero n = "."
bits (suc fuel) zero = "."
bits (suc fuel) (suc n) = digit (suc n % 2) (bits fuel (suc n / 2))

abbrev doubled : ℕ → Option ℕ → Option ℕ
doubled b none = none
doubled b (some m) = some (m + m + b)

unfoldable unbits : String → Option ℕ
unbits String.[] = none
unbits (String.◌∷◌ c s) =
    let rest = unbits s in
    if code c == 46 then some 0 else if code c == 48 then doubled 0 rest else doubled 1 rest

unbits-digit :
    (n m : ℕ) (s : String) → n < 2 → unbits s ≡ some m → unbits (digit n s) ≡ some (m + m + n)
unfolding unbits digit append
unbits-digit zero m s h e = rw e refl
unbits-digit (suc zero) m s h e = rw e refl
unbits-digit (suc (suc n)) m s h e = absurd (ground arith)

unbits-bits : (fuel n : ℕ) → n ≤ fuel → unbits (bits fuel n) ≡ some n
unfolding unbits bits
unbits-bits zero n h = ap some (omega arith)
unbits-bits (suc fuel) zero h = refl
unbits-bits (suc fuel) (suc n) h =
    unbits-digit (suc n % 2) (suc n / 2) (bits fuel (suc n / 2)) (omega arith)
      (unbits-bits fuel (suc n / 2) (omega (arith, h)))
    ∙ ap some (omega arith)

abbrev platform : Platform
platform = record {
  hash_secret = append "#";
  hash_websocket_ticket = append "#";
  isoformat = λ t. bits t t;
  fromisoformat = unbits;
}

platform-IsClock : IsClock platform
unfolding unbits
platform-IsClock = record { reads = λ t. unbits-bits t t (omega arith); no_time = refl }

abbrev created : PairingOffer × Storage
created = create_mobile_pairing platform 1000 "pair" 23_456 " https://phone " [] (pos 0) no_rows

abbrev draw : ClaimDraw
draw = record { token = "token"; device_id = "device"; name = "Phone"; platform = "android" }

abbrev credential : Credential
credential = record {
  token = "token";
  device = record {
    id = "device";
    name = "Phone";
    platform = "android";
    created_at = bits 2000 2000;
    last_seen_at = bits 2000 2000;
    expires_at = bits 2_592_000_002_000 2_592_000_002_000;
    revoked_at = "";
    paired_from_pairing_id = "pair";
    scopes = "mobile:monitor" ∷ "mobile:control" ∷ [];
  };
  scopes = "mobile:monitor" ∷ "mobile:control" ∷ [];
  expires_at = bits 2_592_000_002_000 2_592_000_002_000;
}

abbrev paired : Storage
paired = (claim_mobile_pairing platform 2000 "pair" "123456" draw created.1).1

claims : claim_mobile_pairing platform 2000 "pair" "123456" draw created.1 ≡ (ok credential, paired)
unfolding create_mobile_pairing save_mobile_pairing_request pairing_ttl claim_mobile_pairing
    claim_mobile_pairing_request claim_found claim_row claim_guards claim_times claim_unless
    failed_once pair_device credential_of normalize_mobile_scopes requested_scopes allowed_scopes
    unique_from is_allowed bits unbits append int_text strip first_failing has_device
claims = refl

claim_mobile_pairing-IsPaired_example :
    (row : PairingRow) × (created.1.mobile_pairing_requests (strip "pair") ≡ some row)
    × IsClaimable platform
        (platform.hash_secret (strip "123456"))
        (platform.isoformat 2000)
        mobile_pairing_max_failed_attempts
        row
    × IsPaired
        (strip "pair")
        (new_device platform 2000 "pair" draw)
        (platform.isoformat 2000)
        row
        created.1
        paired
    × (credential.token ≡ draw.token)
    × (credential.device ≡ public_mobile_device (scoped row (new_device platform 2000 "pair" draw)))
claim_mobile_pairing-IsPaired_example =
    claim_mobile_pairing-IsPaired platform 2000 "pair" "123456" draw created.1 paired credential
      claims

claim_mobile_pairing-once_example :
    claim_mobile_pairing platform 3000 "pair" "654321" draw
      (claim_mobile_pairing platform 2500 "pair" "000000" draw paired).1
    ≡ (
      err "Mobile pairing code has already been claimed",
      (claim_mobile_pairing platform 2500 "pair" "000000" draw paired).1,
    )
claim_mobile_pairing-once_example =
    claim_mobile_pairing-once platform 2000 3000 "pair" "123456" "654321" draw draw created.1 paired
      _ credential platform-IsClock claims (and_then stay (claim_step 2500 "pair" "000000" draw))

claim_mobile_pairing-validate_example :
    (validate_mobile_token platform 9000 "token" "mobile:control" paired).0
    ≡ some (record credential.device { last_seen_at = platform.isoformat 9000 })
unfolding strip find_by_token_hash create_mobile_pairing save_mobile_pairing_request
claim_mobile_pairing-validate_example =
    claim_mobile_pairing-validate platform 2000 9000 "pair" "123456" "mobile:control" draw created.1
      paired credential platform-IsClock refl refl refl claims (omega arith) refl

abbrev revoked : Result PublicDevice × Storage
revoked = revoke_mobile_device platform 5000 "device" paired

abbrev other : ClaimDraw
other = record { token = "other"; device_id = "tablet"; name = "Tablet"; platform = "android" }

abbrev second : PairingOffer × Storage
second = create_mobile_pairing platform 6000 "again" 1 "" [] (pos 60) revoked.1

abbrev both : Storage
both = (claim_mobile_pairing platform 7000 "again" "100001" other second.1).1

was_revoked : (d : PublicDevice) × (revoked.0 ≡ ok d)
unfolding create_mobile_pairing save_mobile_pairing_request pairing_ttl claim_mobile_pairing
    claim_mobile_pairing_request claim_found claim_row claim_guards claim_times claim_unless
    failed_once pair_device credential_of normalize_mobile_scopes requested_scopes allowed_scopes
    unique_from is_allowed bits unbits append int_text strip first_failing has_device
    revoke_mobile_device revoke_found revoke_row find_device
was_revoked = (_, refl)

still_valid :
    (d : PublicDevice) × ((validate_mobile_token platform 8000 "other" "" both).0 ≡ some d)
unfolding create_mobile_pairing save_mobile_pairing_request pairing_ttl claim_mobile_pairing
    claim_mobile_pairing_request claim_found claim_row claim_guards claim_times claim_unless
    failed_once pair_device credential_of normalize_mobile_scopes requested_scopes allowed_scopes
    unique_from is_allowed bits unbits append int_text strip first_failing has_device
    revoke_mobile_device revoke_found revoke_row find_device update_devices validate_mobile_token
    validate_found find_by_token_hash is_refused accepted touch_active_mobile_device_by_token_hash
    touch_found parse_mobile_time
still_valid = (_, refl)

no_second : revoked.1.mobile_pairing_requests "again" ≡ none
unfolding create_mobile_pairing save_mobile_pairing_request pairing_ttl claim_mobile_pairing
    claim_mobile_pairing_request claim_found claim_row claim_guards claim_times claim_unless
    failed_once pair_device credential_of normalize_mobile_scopes requested_scopes allowed_scopes
    unique_from is_allowed bits unbits append int_text strip first_failing has_device
    revoke_mobile_device revoke_found revoke_row find_device
no_second = refl

revoke-validate_example : still_valid.0.id ≢ strip "device"
unfolding create_mobile_pairing save_mobile_pairing_request
revoke-validate_example =
    revoke-validate platform 5000 8000 "device" "other" "" paired revoked.1 both still_valid.0
      platform-IsClock
      (and_then (and_then stay (create_step 1000 "pair" 23_456 " https://phone " [] (pos 0) refl))
        (claim_step 2000 "pair" "123456" draw))
      (by_id was_revoked.0 was_revoked.1)
      (and_then (and_then stay (create_step 6000 "again" 1 "" [] (pos 60) no_second))
        (claim_step 7000 "again" "100001" other))
      still_valid.1

abbrev guesses : List Guess
guesses =
    (1001, ("1", draw))
    ∷ (1002, ("2", draw))
    ∷ (1003, ("3", draw))
    ∷ (1004, ("4", draw))
    ∷ (1005, ("5", draw))
    ∷ []

guess_all-claim_mobile_pairing_example :
    (message : String) × (claim_mobile_pairing platform 2000 "pair" "123456" draw
        (guess_all platform "pair" guesses created.1)
      ≡ (err message, guess_all platform "pair" guesses created.1))
unfolding strip pairing_ttl create_mobile_pairing save_mobile_pairing_request append int_text
guess_all-claim_mobile_pairing_example =
    guess_all-claim_mobile_pairing platform 1000 2000 "pair" 23_456 " https://phone " [] (pos 0)
      no_rows guesses "123456" draw platform-IsClock refl
      (
        (omega arith, refl),
        (
          (omega arith, refl),
          ((omega arith, refl), ((omega arith, refl), ((omega arith, refl), tt))),
        ),
      )
      (omega arith)

abbrev tickets : Dict MobileWebSocketTicket
tickets =
    ("#abc", record { device_id = "device"; scope = "mobile:monitor"; expires_at = 31_000_000 })
    ∷ []

unique : (k : String) → count k (keys tickets) ≤ 1
unique k = ground arith

consume_websocket_ticket-once_example :
    (consume_websocket_ticket platform 3_000_000 9000 [] "abc"
      (issue_websocket_ticket 2_500_000 "#def" "device"
        (consume_websocket_ticket platform 2_000_000 9000 [] "abc" tickets).1).1).0
    ≡ none
unfolding strip append
consume_websocket_ticket-once_example =
    consume_websocket_ticket-once platform 2_000_000 3_000_000 9000 9000 [] [] "abc" tickets _
      unique filled (Uses.and_then Uses.stay (issue_step 2_500_000 "#def" "device" other_hash))
  where
    filled : is_empty (strip "abc") ≡ false
    filled = refl

    other_hash : "#def" ≢ append "#" (strip "abc")
    other_hash h = absurd (ground (arith, h, eq_iff "#def" "#abc"))
