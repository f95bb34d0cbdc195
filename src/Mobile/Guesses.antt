-- ===== src/Mobile/Guesses.antt =====
-- Guessing the code of a pairing.
use crypto_arc_v.Prelude.{
  ℕ, suc, ◌+◌, ◌*◌, ◌<◌, ◌≤◌, inl, inr, ◌≡◌, ◌⊎◌, refl, String, true, false, some, none, List, [],
  ◌∷◌, if◌then◌else◌, is_empty, str_eq, leb, arith, eq_refl, Bool-cases, length, All,
}
use crypto_arc_v.Prelude.Int.{ℤ, pos}
use crypto_arc_v.Prelude.Text.{strip, int_text}
use crypto_arc_v.Prelude.Checks.{first_failing}
use crypto_arc_v.Prelude.Result.{err}
use crypto_arc_v.Mobile.Storage.{Platform, PairingRow, Storage, or_text}
use crypto_arc_v.Mobile.Pairing.{
  claim_guards, claim_times, failed_once, claim_unless, claim_row, claim_found,
  claim_mobile_pairing_request, ClaimDraw, credential_of, claim_mobile_pairing,
  create_mobile_pairing, save_mobile_pairing_request, pairing_ttl, new_pairing,
}
use crypto_arc_v.Mobile.Once.{IsClock, isoformat-non_empty}

abbrev pub Guess : Type 0
Guess = ℕ × (String × ClaimDraw)

-- A sequence of claims of one pairing, each at its time with its code.
unfoldable pub guess_all : Platform → String → List Guess → Storage → Storage
guess_all p id [] st = st
guess_all p id ((now, (code, draw)) ∷ guesses) st =
    guess_all p id guesses (claim_mobile_pairing p now id code draw st).1

-- A guess that comes before the pairing expires, and whose hash is not the code's.
abbrev pub IsWrong : Platform → ℕ → String → Guess → Type 0
IsWrong p expiry code_hash (now, (code, _)) =
    (now < expiry) × (str_eq (p.hash_secret (strip code)) code_hash ≡ false)

-- The row after `n` failed attempts.
abbrev counted : ℕ → PairingRow → PairingRow
counted n row = record row { payload = record row.payload { failed_attempts = n } }

-- A row that has not been claimed, expires at `expiry`, and allows five attempts.
record IsOpen (p : Platform) (expiry : ℕ) (row : PairingRow) : Type 0 where
  unclaimed : is_empty (or_text row.claimed_at row.payload.claimed_at) ≡ true
  reads : p.fromisoformat (or_text row.expires_at row.payload.expires_at) ≡ some expiry
  limit : row.payload.max_failed_attempts ≡ 5

guards-counted :
    (p : Platform) (now expiry n : ℕ) (row : PairingRow)
    → IsClock p
    → IsOpen p expiry row
    → now < expiry
    → first_failing (claim_guards p (p.isoformat now) 5 (counted n row))
      ≡ (if leb 5 n then some "Mobile pairing code has too many failed attempts" else none)
unfolding first_failing claim_guards claim_times
guards-counted p now expiry n row clock v early =
    rw (v.unclaimed, v.reads, clock.reads now, v.limit) (ground (arith, early))

claim_mobile_pairing-wrong :
    (p : Platform) (now expiry n : ℕ) (id code : String) (draw : ClaimDraw) (row : PairingRow)
    (st : Storage)
    → IsClock p
    → IsOpen p expiry row
    → IsWrong p expiry row.payload.code_hash (now, (code, draw))
    → st.mobile_pairing_requests (strip id) ≡ some (counted n row)
    → (claim_mobile_pairing p now id code draw st).1.mobile_pairing_requests (strip id)
      ≡ some (counted (if leb 5 n then n else suc n) row)
unfolding claim_mobile_pairing claim_mobile_pairing_request claim_found claim_row claim_unless
    failed_once
claim_mobile_pairing-wrong p now expiry n id code draw row st clock v (early, wrong) found =
    let guards = guards-counted p now expiry n row clock v early in
    elim (Bool-cases (leb 5 n)) [
      | inl e ↦ rw (found, guards, e) found
      | inr e ↦ rw (found, guards, e, wrong, eq_refl (strip id)) refl
    ]

guess_all-counted :
    (p : Platform) (expiry n : ℕ) (id : String) (guesses : List Guess) (row : PairingRow)
    (st : Storage)
    → IsClock p
    → IsOpen p expiry row
    → All (IsWrong p expiry row.payload.code_hash) guesses
    → st.mobile_pairing_requests (strip id) ≡ some (counted n row)
    → (m : ℕ) × ((guess_all p id guesses st).mobile_pairing_requests (strip id)
        ≡ some (counted m row))
      × ((5 ≤ m) ⊎ (n + length guesses ≤ m))
unfolding guess_all
guess_all-counted p expiry n id [] row st clock v wrong found = (n, found, inr (omega arith))
guess_all-counted p expiry n id ((now, (code, draw)) ∷ guesses) row st clock v (w, ws) found =
    let after = claim_mobile_pairing-wrong p now expiry n id code draw row st clock v w found in
    let (m, last, many) =
      guess_all-counted p expiry (if leb 5 n then n else suc n) id guesses row
        (claim_mobile_pairing p now id code draw st).1 clock v ws after in
    (m, last, ground (arith, many))

claim_mobile_pairing-locked :
    (p : Platform) (now expiry m : ℕ) (id code : String) (draw : ClaimDraw) (row : PairingRow)
    (st : Storage)
    → IsClock p
    → IsOpen p expiry row
    → 5 ≤ m
    → st.mobile_pairing_requests (strip id) ≡ some (counted m row)
    → (message : String) × (claim_mobile_pairing p now id code draw st ≡ (err message, st))
unfolding claim_mobile_pairing claim_mobile_pairing_request claim_found claim_row claim_unless
    claim_guards claim_times first_failing credential_of
claim_mobile_pairing-locked p now expiry m id code draw row st clock v many found =
    let over : leb 5 m ≡ true = ground (arith, many) in
    elim (Bool-cases (leb expiry now)) [
      | inl e ↦ (
        "Mobile pairing code has expired",
        rw (found, v.unclaimed, v.reads, clock.reads now, e) refl,
      )
      | inr e ↦ (
        "Mobile pairing code has too many failed attempts",
        rw (found, v.unclaimed, v.reads, clock.reads now, e, v.limit, over) refl,
      )
    ]

create-IsOpen :
    (p : Platform) (now : ℕ) (id : String) (draw : ℕ) (url : String) (scopes : List String)
    (ttl : ℤ) (st : Storage)
    → IsClock p
    → (row : PairingRow) × ((create_mobile_pairing p now id draw url scopes ttl
            st).1.mobile_pairing_requests
          id
        ≡ some (counted 0 row))
      × IsOpen p (now + pairing_ttl ttl * 1_000_000) row
      × (row.payload.code_hash
          ≡ p.hash_secret (create_mobile_pairing p now id draw url scopes ttl st).0.code)
unfolding create_mobile_pairing save_mobile_pairing_request
create-IsOpen p now id draw url scopes ttl st clock =
    let expiry = now + pairing_ttl ttl * 1_000_000 in
    let filled = isoformat-non_empty p expiry clock in
    let r = new_pairing p now id (int_text (pos (draw + 100_000))) url scopes ttl in
    (
      record {
        payload = r;
        expires_at = or_text r.expires_at (or_text r.created_at (p.isoformat now));
        claimed_at = "";
      },
      rw (eq_refl id) refl,
      record { unclaimed = refl; reads = rw (filled, filled) (clock.reads expiry); limit = refl },
      refl,
    )

-- Five wrong guesses lock a pairing: after the pairing has been created, and at least five codes with
-- another hash have been presented before it expires, every claim is refused and changes nothing, also with
-- the right code and at any time.
pub guess_all-claim_mobile_pairing :
    (p : Platform) (now later : ℕ) (id : String) (draw : ℕ) (url : String) (scopes : List String)
    (ttl : ℤ) (st : Storage) (guesses : List Guess) (code : String) (claim : ClaimDraw)
    → IsClock p
    → strip id ≡ id
    → let created = create_mobile_pairing p now id draw url scopes ttl st in
      let guessed = guess_all p id guesses created.1 in
      All (IsWrong p (now + pairing_ttl ttl * 1_000_000) (p.hash_secret created.0.code)) guesses
      → 5 ≤ length guesses
      → (message : String) × (claim_mobile_pairing p later id code claim guessed
          ≡ (err message, guessed))
guess_all-claim_mobile_pairing p now later id draw url scopes ttl st guesses code claim clock
      stripped wrong many =
    let created = create_mobile_pairing p now id draw url scopes ttl st in
    let expiry = now + pairing_ttl ttl * 1_000_000 in
    let (row, found, open_row, hash) = create-IsOpen p now id draw url scopes ttl st clock in
    let there : created.1.mobile_pairing_requests (strip id) ≡ some (counted 0 row) =
      rw stripped found in
    let (m, last, enough) =
      guess_all-counted p expiry 0 id guesses row created.1 clock open_row (rw hash wrong) there in
    claim_mobile_pairing-locked p later expiry m id code claim row
      (guess_all p id guesses created.1) clock open_row (ground (arith, enough, many)) last
