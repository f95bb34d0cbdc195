-- ===== src/Prelude/Time.antt =====
-- Python's `datetime`: microseconds since an epoch in UTC, and whether the value carries a time zone.
use Prim.Native.Nat.{ℕ, ◌-◌, ◌/◌}
use mathlib.Core.Bool.{Bool, true}
use crypto_arc_v.Prelude.Int.{ℤ, pos}

pub record Datetime : Type 0 where
  pub aware : Bool
  pub micros : ℕ

-- `astimezone(timezone.utc)` of an aware value
abbrev pub to_utc : Datetime → Datetime
to_utc t = record t { aware = true }

-- `max(0, int((later - earlier).total_seconds()))` of two aware values
abbrev pub seconds_since : Datetime → Datetime → ℤ
seconds_since earlier later = pos ((later.micros - earlier.micros) / 1_000_000)
