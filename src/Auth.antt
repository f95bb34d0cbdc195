-- ===== src/Auth.antt =====
-- backend/app/auth.py: the password, the second factor, the lockout and the sessions of the dashboard.
-- `time.time()` is read in microseconds and is a parameter of each call, as are the random token of
-- `issue`, the base-32 decoder and HMAC-SHA1. A call that raises returns `none`.
pub mod Login
pub mod Sessions
use crypto_arc_v.Prelude.{
  ℕ, zero, suc, ◌+◌, ◌-◌, ◌*◌, ◌/◌, ◌%◌, ◌^◌, String, Bool, true, false, not, ◌&&◌, ◌||◌, Option,
  some, none, List, [], ◌∷◌, if◌then◌else◌, is_empty, str_eq, ltb, leb, ◌==◌,
}
use Prim.Native.Char.{code}
use crypto_arc_v.Prelude.Int.{ℤ, pos, negsuc, ◌+ℤ◌}
use crypto_arc_v.Prelude.Dict.{Dict, lookup, insert, erase}
use crypto_arc_v.Prelude.Text.{text_length, append, int_text}

-- `code.replace(" ", "")`
unfoldable without_spaces : String → String
without_spaces String.[] = String.[]
without_spaces (String.◌∷◌ c s) =
    let rest = without_spaces s in
    if str_eq (String.◌∷◌ c String.[]) " " then rest else String.◌∷◌ c rest

-- `n` copies of `c` before `s`
abbrev padded : ℕ → String → String → String
padded zero c s = s
padded (suc n) c s = append c (padded n c s)

-- Whether all characters are below 128.
unfoldable pub is_ascii : String → Bool
is_ascii String.[] = true
is_ascii (String.◌∷◌ c s) = let rest = is_ascii s in ltb (code c) 128 && rest

-- `hmac.compare_digest` of two texts, which raises a TypeError if one of them is not ASCII
unfoldable pub compare_digest : String → String → Option Bool
compare_digest a b = if is_ascii a && is_ascii b then some (str_eq a b) else none

pub record Hashing : Type 0 where
  -- `base64.b32decode(secret.upper() + padding)`, of the secret and the padding
  pub b32decode : String → String → Option (List ℕ)
  -- `hmac.new(key, struct.pack(">Q", counter), sha1).digest()`
  pub hmac_sha1 : List ℕ → ℕ → List ℕ

-- `digest[i]`, which is there for the indices that `totp` reads of the 20 bytes
byte_at : ℕ → List ℕ → ℕ
byte_at i [] = 0
byte_at zero (b ∷ bs) = b
byte_at (suc i) (b ∷ bs) = byte_at i bs

last_byte : List ℕ → ℕ
last_byte [] = 0
last_byte (b ∷ []) = b
last_byte (b ∷ c ∷ bs) = last_byte (c ∷ bs)

-- `o = digest[-1] & 0x0F` and the six digits of the four bytes from there
unfoldable code_of : List ℕ → String
unfolding byte_at last_byte
code_of digest =
    let o = last_byte digest % 16 in
    let word =
      byte_at o digest * 2 ^ 24
      + byte_at (o + 1) digest * 2 ^ 16
      + byte_at (o + 2) digest * 2 ^ 8
      + byte_at (o + 3) digest in
    let value = int_text (pos (word % 2 ^ 31 % 1_000_000)) in
    padded (6 - text_length value) "0" value

-- `struct.pack` refuses a negative counter.
unfoldable totp_with : Hashing → List ℕ → ℤ → Option String
totp_with h key (pos counter) = some (code_of (h.hmac_sha1 key counter))
totp_with h key (negsuc _) = none

unfoldable pub totp : Hashing → String → ℕ → ℤ → Option String
unfolding totp_with code_of
totp h secret now offset =
    elim (h.b32decode secret (padded ((8 - text_length secret % 8) % 8) "=" "")) [
      | none ↦ none
      | some key ↦ totp_with h key (pos (now / 30_000_000) +ℤ offset)
    ]

-- The loop of `verify_totp`, which stops at the first offset whose code is the one that is given.
unfoldable pub matches_one : Hashing → String → ℕ → String → List ℤ → Option Bool
matches_one h secret now normalized [] = some false
matches_one h secret now normalized (offset ∷ offsets) =
    let rest = matches_one h secret now normalized offsets in
    elim (totp h secret now offset) [
      | none ↦ none
      | some code ↦ elim (compare_digest code normalized) [
        | none ↦ none
        | some same ↦ if same then some true else rest
      ]
    ]

-- `verify_totp` with its window of 1
unfoldable pub verify_totp : Hashing → String → String → ℕ → Option Bool
unfolding without_spaces
verify_totp h secret code now =
    if is_empty code
    then some false
    else matches_one h secret now (without_spaces code) (negsuc 0 ∷ pos 0 ∷ pos 1 ∷ [])

pub record AuthManager : Type 0 where
  pub password : String
  pub totp_secret : String
  pub sessions : Dict ℕ
  pub failed_attempts : ℕ
  pub locked_until : ℕ
  pub session_ttl_seconds : ℕ

abbrev pub enabled : AuthManager → Bool
enabled m = not (is_empty m.password)

abbrev pub totp_enabled : AuthManager → Bool
totp_enabled m = not (is_empty m.totp_secret)

unfoldable pub issue : String → ℕ → AuthManager → AuthManager
issue token now m = record m {
  sessions = insert token (now + m.session_ttl_seconds * 1_000_000) m.sessions;
}

unfoldable pub record_failure : ℕ → AuthManager → AuthManager
record_failure now m =
    let attempts = suc m.failed_attempts in
    record m {
      failed_attempts = attempts;
      locked_until = if leb 5 attempts then now + 60_000_000 else m.locked_until;
    }

-- `self.locked_until and time.time() < self.locked_until`
abbrev pub is_locked : ℕ → AuthManager → Bool
is_locked now m = not (m.locked_until == 0) && ltb now m.locked_until

-- The second factor was asked for and answered: `accepted` says how; `none` if the check raised.
unfoldable pub second_factor :
    String → ℕ → AuthManager → Option Bool → Option (Option String × AuthManager)
second_factor token now m none = none
second_factor token now m (some false) = some (none, record_failure now m)
second_factor token now m (some true) =
    some (some token, issue token now (record m { failed_attempts = 0 }))

-- `login`; `token` is the one that `issue` draws, `now` the reading of the clock.
unfoldable pub login :
    Hashing → String → ℕ → String → String → AuthManager → Option (Option String × AuthManager)
login h token now password code m =
    if is_locked now m
    then some (none, m)
    else if not (enabled m)
    then some (some token, issue token now m)
    else elim (compare_digest password m.password) [
      | none ↦ none
      | some same ↦
          if not same
          then some (none, record_failure now m)
          else second_factor token now m
              (if totp_enabled m then verify_totp h m.totp_secret code now else some true)
    ]

-- `valid`, with the sessions that are left; an empty token stands for `None` as well.
unfoldable valid_session : ℕ → String → AuthManager → Option ℕ → Bool × AuthManager
valid_session now token m none = (false, m)
valid_session now token m (some expiry) =
    if ltb expiry now then (false, record m { sessions = erase token m.sessions }) else (true, m)

unfoldable pub valid : ℕ → String → AuthManager → Bool × AuthManager
unfolding valid_session
valid now token m =
    if not (enabled m)
    then (true, m)
    else if is_empty token
    then (false, m)
    else valid_session now token m (lookup token m.sessions)

unfoldable pub set_password : String → AuthManager → AuthManager
set_password password m = record m { password = password; sessions = []; failed_attempts = 0 }

unfoldable pub set_totp_secret : String → AuthManager → AuthManager
set_totp_secret secret m = record m { totp_secret = secret; sessions = [] }

unfoldable pub disable_totp : AuthManager → AuthManager
disable_totp m = record m { totp_secret = ""; sessions = [] }

-- The dict of `rehearsal_status`.
record RehearsalStatus : Type 0 where
  password_configured : Bool
  totp_configured : Bool
  bearer_only : Bool
  active_sessions : ℕ
  password_restart : String
  totp_restart : String
  authority_changed : Bool

-- `len([expiry for expiry in self.sessions.values() if expiry >= time.time()])`
abbrev active : ℕ → Dict ℕ → ℕ
active now [] = 0
active now ((token, expiry) ∷ sessions) =
    let rest = active now sessions in if leb now expiry then suc rest else rest

abbrev rehearsal_status : ℕ → AuthManager → RehearsalStatus
rehearsal_status now m = record {
  password_configured = enabled m;
  totp_configured = totp_enabled m;
  bearer_only = true;
  active_sessions = active now m.sessions;
  password_restart = "deferred";
  totp_restart = "deferred";
  authority_changed = false;
}
