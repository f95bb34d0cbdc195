-- ===== src/Examples/Access.antt =====
-- A dashboard with a password and no second factor (backend/app/auth.py).
use crypto_arc_v.Prelude.{
  ℕ, ◌+◌, ◌*◌, ◌≡◌, refl, String, true, false, none, some, List, [], ◌∷◌, arith,
}
use crypto_arc_v.Prelude.Dict.{lookup}
use crypto_arc_v.Auth.{
  Hashing, AuthManager, login, issue, second_factor, valid, set_password, is_ascii, compare_digest,
}
use crypto_arc_v.Auth.Login.{IsCredited, login-IsCredited, guess_all, AllWrong, guess_all-login}
use crypto_arc_v.Auth.Sessions.{by_password, revoked-valid}

abbrev hashing : Hashing
hashing = record { b32decode = λ secret padding. some []; hmac_sha1 = λ key counter. [] }

abbrev manager : AuthManager
manager = record {
  password = "secret";
  totp_secret = "";
  sessions = [];
  failed_attempts = 0;
  locked_until = 0;
  session_ttl_seconds = 28_800;
}

abbrev logged_in : AuthManager
logged_in = issue "token" 1000 manager

succeeds : login hashing "token" 1000 "secret" "" manager ≡ some (some "token", logged_in)
unfolding login second_factor compare_digest is_ascii
succeeds = refl

login-IsCredited_example :
    IsCredited hashing 1000 "secret" "" manager
    × (logged_in.failed_attempts ≡ 0)
    × (lookup "token" logged_in.sessions ≡ some (1000 + 28_800 * 1_000_000))
login-IsCredited_example =
    login-IsCredited hashing "token" "token" "secret" "" 1000 manager refl succeeds

abbrev guesses : List (ℕ × String)
guesses = (1, "a") ∷ (2, "b") ∷ (3, "c") ∷ (4, "d") ∷ []

ascii_secret : is_ascii "secret" ≡ true
unfolding is_ascii
ascii_secret = refl

ascii_e : is_ascii "e" ≡ true
unfolding is_ascii
ascii_e = refl

wrong : AllWrong hashing "secret" guesses
unfolding is_ascii
wrong = ((refl, refl), ((refl, refl), ((refl, refl), ((refl, refl), tt))))

guess_all-login_example :
    (four : AuthManager) × (five : AuthManager) × (guess_all hashing guesses manager ≡ some four)
    × (login hashing "" 5 "e" "" four ≡ some (none, five))
    × (login hashing "token" 6 "secret" "" five ≡ some (none, five))
guess_all-login_example =
    guess_all-login hashing guesses 5 6 "e" "token" "secret" "" manager refl refl refl ascii_secret
      refl wrong (ascii_e, refl) (omega arith)

revoked-valid_example : (valid 2000 "token" (set_password "other" logged_in)).0 ≡ false
unfolding set_password
revoked-valid_example = revoked-valid {m = logged_in} 2000 "token" (by_password "other") refl
