-- ===== src/Gates/Values.antt =====
-- The values of an untyped mapping, `Mapping[str, object]`, and the operations on them that the gates of
-- backend/app/core/ apply. Of a value that is no `None`, `bool`, `int` or `str` only these observations matter.
use crypto_arc_v.Prelude.{
  ℕ, ◌-◌, ltb, leb, String, Bool, true, false, not, ◌||◌, Option, some, none, if◌then◌else◌,
  is_empty, str_eq, ◌==◌,
}
use crypto_arc_v.Prelude.Int.{ℤ, pos, negsuc, ◌-ℤ◌}
use crypto_arc_v.Prelude.Text.{int_text, strip}
use crypto_arc_v.Prelude.Dict.{Dict, lookup}

pub data Value : Type 0 where
  null : Value
  flag : Bool → Value
  int : ℤ → Value
  text : String → Value
  -- a `float`, a list or a dict: `bool(x)`, `int(x)` (`some none` if it raises a TypeError or a ValueError, and `none`
  -- if it raises an OverflowError, as for an infinite float), `str(x)`, and `x == 1`
  other : Bool → Option (Option ℤ) → String → Bool → Value

abbrev pub Mapping : Type 0
Mapping = Dict Value

abbrev pub present : Option Value → Value
present none = null
present (some v) = v

-- `mapping.get(key)`
unfoldable pub get : String → Mapping → Value
get key m = present (lookup key m)

unfoldable pub truthy : Value → Bool
truthy null = false
truthy (flag b) = b
truthy (int (pos n)) = not (n == 0)
truthy (int (negsuc n)) = true
truthy (text s) = not (is_empty s)
truthy (other b _ _ _) = b

-- `value is True`
unfoldable pub is_true : Value → Bool
is_true (flag b) = b
is_true _ = false

-- `value is False`
unfoldable pub is_false : Value → Bool
is_false (flag b) = not b
is_false _ = false

-- `value == 1`
unfoldable pub is_one : Value → Bool
is_one (flag b) = b
is_one (int (pos n)) = n == 1
is_one (other _ _ _ b) = b
is_one _ = false

-- `value == s`
unfoldable pub equals_text : String → Value → Bool
equals_text s (text t) = str_eq t s
equals_text s _ = false

-- `str(value)`
unfoldable pub str : Value → String
str null = "None"
str (flag b) = if b then "True" else "False"
str (int n) = int_text n
str (text s) = s
str (other _ _ s _) = s

-- `str(value or "")`
unfoldable pub text_or_empty : Value → String
text_or_empty v = if truthy v then str v else ""

-- `str(mapping.get(key) or "").strip()`
unfoldable pub stripped : String → Mapping → String
stripped key m = strip (text_or_empty (get key m))

-- A parsed `datetime`: the local time in microseconds since the first of January of the year 1, and the offset from UTC of a
-- value that has one.
pub record Parsed : Type 0 where
  pub local : ℕ
  pub offset : Option ℤ

-- What the gates use of the standard library: `int` of a text, `datetime.fromisoformat`, `datetime.isoformat` in UTC, the
-- hexadecimal SHA-256 of a text, and `json.dumps` of a dict of texts with its keys sorted.
pub record Platform : Type 0 where
  pub parse_int : String → Option ℤ
  pub fromisoformat : String → Option Parsed
  pub isoformat : ℕ → String
  pub sha256 : String → String
  pub dumps : Dict String → String

-- The outcome of a call that may raise, if it has not.
unfoldable pub value_of : {A : Type 0} → Option (Option A) → Option A
value_of none = none
value_of (some v) = v

unfoldable pub has_raised : {A : Type 0} → Option A → Bool
has_raised none = true
has_raised (some v) = false

-- `int(value)`: `some none` if it raises what the gates catch, and `none` if it raises an OverflowError, which they do not
unfoldable pub int_of : Platform → Value → Option (Option ℤ)
int_of p null = some none
int_of p (flag b) = some (some (pos (if b then 1 else 0)))
int_of p (int n) = some (some n)
int_of p (text s) = some (p.parse_int s)
int_of p (other _ n _ _) = n

abbrev pub is_zero : Option ℤ → Bool
is_zero (some (pos n)) = n == 0
is_zero _ = false

-- `int(value or 0) == 0`, false if it raises what is caught; `none` if it raises an OverflowError
unfoldable pub zero_value : Platform → Value → Option Bool
zero_value p v =
    if truthy v then elim (int_of p v) [ none ↦ none | some n ↦ some (is_zero n) ] else some true

-- `astimezone(timezone.utc)` raises an OverflowError outside of the years 1 to 9999.
unfoldable pub utc_time : ℤ → Option (Option ℕ)
utc_time (pos n) = if leb n 315_537_897_599_999_999 then some (some n) else none
utc_time (negsuc n) = none

unfoldable pub timestamp_of : Option Parsed → Option (Option ℕ)
unfolding utc_time
timestamp_of none = some none
timestamp_of (some t) = elim t.offset [
  | none ↦ some none
  | some offset ↦ utc_time (pos t.local -ℤ offset)
]

-- `_timestamp`: a time that names its zone, in UTC; `none` if it raises
unfoldable pub timestamp : Platform → Value → Option (Option ℕ)
unfolding timestamp_of
timestamp p v = timestamp_of (p.fromisoformat (str v))

-- `at is None or at > checked_at or checked_at - at > timedelta(...)`
unfoldable pub is_stale : ℕ → ℕ → Option ℕ → Bool
is_stale limit checked_at none = true
is_stale limit checked_at (some at) = ltb checked_at at || ltb limit (checked_at - at)

-- `expires_at is None or expires_at <= checked_at`
unfoldable pub has_expired : ℕ → Option ℕ → Bool
has_expired checked_at none = true
has_expired checked_at (some expires_at) = leb expires_at checked_at
