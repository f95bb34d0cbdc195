-- ===== src/Auth/Login.antt =====
-- Who is let in, and the lockout.
use crypto_arc_v.Prelude.{
  ℕ, suc, ◌+◌, ◌*◌, ◌≡◌, ◌≤◌, ◌<◌, ◌⊎◌, inl, inr, refl, ap, ◌∙◌, String, Bool, true, false, Option,
  some, none, List, [], ◌∷◌, arith, Bool-cases, Option-cases, if◌then◌else◌, str_eq, eq_iff,
  eq_refl, length,
}
use crypto_arc_v.Prelude.Dict.{lookup, lookup-insert}
use crypto_arc_v.Auth.{
  Hashing, AuthManager, enabled, totp_enabled, is_locked, issue, record_failure, second_factor,
  verify_totp, is_ascii, compare_digest, login,
}

-- What a login needs to succeed while a password is set.
pub record IsCredited (h : Hashing) (now : ℕ) (password code : String) (m : AuthManager)
    : Type 0 where
  pub not_locked : is_locked now m ≡ false
  pub is_password : password ≡ m.password
  pub second : (totp_enabled m ≡ false) ⊎ (verify_totp h m.totp_secret code now ≡ some true)

none≢some : {A : Type 0} {x : A} → ◌≡◌ {A = Option A} none (some x) → ⊥
none≢some h = absurd (cc)

refused_none :
    {given : String} {m n : AuthManager}
    → ◌≡◌ {A = Option (Option String × AuthManager)} (some (none, m)) (some (some given, n))
    → ⊥
refused_none h = absurd (ground arith)

second_factor_lem :
    (token given : String) (now : ℕ) (m : AuthManager) (r : Option Bool) {n : AuthManager}
    → second_factor token now m r ≡ some (some given, n)
    → (r ≡ some true) × (given ≡ token) × (n ≡ issue token now (record m { failed_attempts = 0 }))
unfolding second_factor
second_factor_lem token given now m none h = absurd (cc)
second_factor_lem token given now m (some false) h = absurd (ground arith)
second_factor_lem token given now m (some true) {n} h = (refl, ground arith, ground arith)

issued_lookup :
    (token given : String) (now : ℕ) (m : AuthManager) {n : AuthManager}
    → given ≡ token
    → n ≡ issue token now m
    → lookup given n.sessions ≡ some (now + m.session_ttl_seconds * 1_000_000)
unfolding issue
issued_lookup token given now m e next =
    let start : some (now + m.session_ttl_seconds * 1_000_000)
        ≡ some (now + m.session_ttl_seconds * 1_000_000) =
      refl in
    rw
      (
        e,
        next,
        lookup-insert token token (now + m.session_ttl_seconds * 1_000_000) m.sessions,
        eq_refl token,
      )
      start

compare_digest_ascii :
    (a b : String) → is_ascii a ≡ true → is_ascii b ≡ true → compare_digest a b ≡ some (str_eq a b)
unfolding compare_digest
compare_digest_ascii a b p q = rw (p, q) refl

compare_digest_same : (a b : String) → compare_digest a b ≡ some true → a ≡ b
unfolding compare_digest
compare_digest_same a b e = ground (arith, e, eq_iff a b)

module _ (h : Hashing) where
  -- With a password set, a login that returns a token was given the password and, if a second factor
  -- is configured, one of its codes, outside a lockout; the failures are then forgotten and the token
  -- is a session that ends when its time to live is over.
  pub login-IsCredited :
      (token given password code : String) (now : ℕ) (m : AuthManager) {n : AuthManager}
      → enabled m ≡ true
      → login h token now password code m ≡ some (some given, n)
      → IsCredited h now password code m
        × (n.failed_attempts ≡ 0)
        × (lookup given n.sessions ≡ some (now + m.session_ttl_seconds * 1_000_000))
  unfolding login issue
  login-IsCredited token given password code now m {n} e k = elim (Bool-cases (is_locked now m)) [
    | inl a ↦ absurd (ground arith)
    | inr a ↦ elim (Option-cases (compare_digest password m.password)) [
      | inl b ↦ absurd (none≢some (rw (a, e, b) at k))
      | inr (false, b) ↦ absurd (refused_none (rw (a, e, b) at k))
      | inr (true, b) ↦
          let factor = if totp_enabled m then verify_totp h m.totp_secret code now else some true in
          let reached : second_factor token now m factor ≡ some (some given, n) =
            rw (a, e, b) at k in
          let (passed, same_token, next) = second_factor_lem token given now m factor reached in
          (
            record {
              not_locked = a;
              is_password = compare_digest_same password m.password b;
              second = answered (totp_enabled m) passed;
            },
            ap (λ x. x.failed_attempts) next,
            issued_lookup token given now (record m { failed_attempts = 0 }) same_token next,
          )
    ]
  ]
    where
      answered :
          (asked : Bool)
          → (if asked then verify_totp h m.totp_secret code now else some true) ≡ some true
          → (asked ≡ false) ⊎ (verify_totp h m.totp_secret code now ≡ some true)
      answered false p = inl refl
      answered true p = inr p

  login_wrong :
      (token password code : String) (now : ℕ) (m : AuthManager)
      → is_locked now m ≡ false
      → enabled m ≡ true
      → is_ascii m.password ≡ true
      → (is_ascii password ≡ true) × (str_eq password m.password ≡ false)
      → login h token now password code m ≡ some (none, record_failure now m)
  unfolding login issue
  login_wrong token password code now m a e ascii (p, b) =
      let differs : compare_digest password m.password ≡ some false =
        compare_digest_ascii password m.password p ascii ∙ ap some b in
      rw (a, e, differs) refl

  login_locked :
      (token password code : String) (now : ℕ) (m : AuthManager)
      → is_locked now m ≡ true
      → login h token now password code m ≡ some (none, m)
  unfolding login issue
  login_locked token password code now m a = rw a refl

  -- Guesses in a row, each at its time; the last is at the end.
  unfoldable pub guess_all : List (ℕ × String) → AuthManager → Option AuthManager
  guess_all [] m = some m
  guess_all ((now, password) ∷ guesses) m = elim (login h "" now password "" m) [
    | none ↦ none
    | some (answer, n) ↦ guess_all guesses n
  ]

  -- Wrong passwords, of ASCII characters.
  abbrev pub AllWrong : String → List (ℕ × String) → Type 0
  AllWrong secret [] = Unit
  AllWrong secret ((now, password) ∷ guesses) =
      ((is_ascii password ≡ true) × (str_eq password secret ≡ false)) × AllWrong secret guesses

  record_failure-few :
      (now : ℕ) (m : AuthManager)
      → suc m.failed_attempts ≤ 4
      → (record_failure now m).locked_until ≡ m.locked_until
  unfolding record_failure
  record_failure-few now m l = ground arith

  guess_all_few :
      (guesses : List (ℕ × String)) (m : AuthManager)
      → enabled m ≡ true
      → m.locked_until ≡ 0
      → is_ascii m.password ≡ true
      → AllWrong m.password guesses
      → m.failed_attempts + length guesses ≤ 4
      → (n : AuthManager) × (guess_all guesses m ≡ some n)
        × (n.password ≡ m.password)
        × (n.locked_until ≡ 0)
        × (n.failed_attempts ≡ m.failed_attempts + length guesses)
  unfolding guess_all record_failure
  guess_all_few [] m e z ascii w l = (m, refl, refl, z, omega arith)
  guess_all_few ((now, password) ∷ guesses) m e z ascii (w, ws) l =
      let open_ : is_locked now m ≡ false = ground (arith, z) in
      let first = login_wrong "" password "" now m open_ e ascii w in
      let kept : (record_failure now m).locked_until ≡ 0 =
        record_failure-few now m (omega arith) ∙ z in
      let (n, r, p, q, c) =
        guess_all_few guesses (record_failure now m) e kept ascii ws (omega arith) in
      (n, rw (first, guess_all) r, p, q, omega arith)

  record_failure-locks :
      (now later : ℕ) (m : AuthManager)
      → m.failed_attempts ≡ 4
      → later < now + 60_000_000
      → is_locked later (record_failure now m) ≡ true
  unfolding record_failure
  record_failure-locks now later m f l = ground (arith, f)

  -- After five wrong passwords in a row, all of ASCII characters as the right one is, from a manager
  -- without failures or a lockout, each is answered and counted, and no login succeeds for the next 60 seconds, the right password and code included, and it changes nothing.
  pub guess_all-login :
      (guesses : List (ℕ × String)) (now later : ℕ) (fifth token password code : String)
      (m : AuthManager)
      → enabled m ≡ true
      → m.failed_attempts ≡ 0
      → m.locked_until ≡ 0
      → is_ascii m.password ≡ true
      → length guesses ≡ 4
      → AllWrong m.password guesses
      → (is_ascii fifth ≡ true) × (str_eq fifth m.password ≡ false)
      → later < now + 60_000_000
      → (four : AuthManager) × (five : AuthManager) × (guess_all guesses m ≡ some four)
        × (login h "" now fifth "" four ≡ some (none, five))
        × (login h token later password code five ≡ some (none, five))
  guess_all-login guesses now later fifth token password code m e f z ascii k ws (fa, w) l =
      let (n, r, p, q, c) = guess_all_few guesses m e z ascii ws (omega arith) in
      let counted : n.failed_attempts ≡ 4 = omega arith in
      let open_ : is_locked now n ≡ false = ground (arith, q) in
      let wrong : str_eq fifth n.password ≡ false = rw p w in
      let is_on : enabled n ≡ true = rw p e in
      let locked = record_failure-locks now later n counted l in
      (
        n,
        record_failure now n,
        r,
        login_wrong "" fifth "" now n open_ is_on (rw p ascii) (fa, wrong),
        login_locked token password code later (record_failure now n) locked,
      )
