-- ===== src/Auth/Sessions.antt =====
-- The life of a session.
use crypto_arc_v.Prelude.{
  ℕ, ◌+◌, ◌*◌, ◌≡◌, refl, ap, String, true, false, none, [], arith, if◌then◌else◌, is_empty,
  eq_refl, leb,
}
use crypto_arc_v.Prelude.Dict.{lookup, erase, lookup-insert}
use crypto_arc_v.Auth.{
  AuthManager, enabled, issue, valid, valid_session, set_password, set_totp_secret, disable_totp,
}

-- The changes that revoke every session.
pub data IsRevoked (m : AuthManager) : AuthManager → Type 0 where
  by_password : (password : String) → IsRevoked m (set_password password m)
  by_secret : (secret : String) → IsRevoked m (set_totp_secret secret m)
  by_disabling : IsRevoked m (disable_totp m)

unknown-valid :
    (now : ℕ) (token : String) (n : AuthManager)
    → enabled n ≡ true
    → lookup token n.sessions ≡ none
    → (valid now token n).0 ≡ false
unfolding valid valid_session
unknown-valid now token n e h = ground (arith, h)

revoked-sessions : {m n : AuthManager} → IsRevoked m n → n.sessions ≡ []
unfolding set_password set_totp_secret disable_totp
revoked-sessions (by_password password) = refl
revoked-sessions (by_secret secret) = refl
revoked-sessions by_disabling = refl

-- While a password is set, no token is valid after a change of the password or of the second factor,
-- whatever sessions there were.
pub revoked-valid :
    {m n : AuthManager} (now : ℕ) (token : String)
    → IsRevoked m n
    → enabled n ≡ true
    → (valid now token n).0 ≡ false
unfolding lookup
revoked-valid now token r e = unknown-valid now token _ e (ap (lookup token) (revoked-sessions r))

-- While a password is set, a token that was just issued is valid up to and at the end of its time to
-- live and not after it; the check that finds it expired removes it.
pub issue-valid :
    (token : String) (now later : ℕ) (m : AuthManager)
    → enabled m ≡ true
    → is_empty token ≡ false
    → ((valid later token (issue token now m)).0
        ≡ leb later (now + m.session_ttl_seconds * 1_000_000))
      × ((valid later token (issue token now m)).1 ≡ (
          if leb later (now + m.session_ttl_seconds * 1_000_000)
          then issue token now m
          else record m { sessions = erase token (issue token now m).sessions }))
unfolding valid issue
issue-valid token now later m e t =
    let found = lookup-insert token token (now + m.session_ttl_seconds * 1_000_000) m.sessions in
    let self = eq_refl token in (ground (arith, found, self), ground (arith, found, self))
