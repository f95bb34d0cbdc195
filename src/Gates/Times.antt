-- ===== src/Gates/Times.antt =====
-- What the tests on the times of an authorization say.
use crypto_arc_v.Prelude.{
  ℕ, ◌-◌, ◌<◌, ◌≤◌, ◌≡◌, ◌↔◌, refl, Bool, ◌||◌, false, Option, some, none, some-injective, arith,
  ap,
}
use crypto_arc_v.Gates.Values.{value_of, has_raised, is_stale, has_expired}

pub value_of-eq_some :
    {A : Type 0} (x : Option (Option A)) {v : A} → value_of x ≡ some v → x ≡ some (some v)
unfolding value_of
value_of-eq_some none h = absurd (cc)
value_of-eq_some (some y) h = ap some h

pub has_raised-false :
    {A : Type 0} (x : Option (Option A)) {v : A} → value_of x ≡ some v → has_raised x ≡ false
unfolding value_of has_raised
has_raised-false none h = absurd (cc)
has_raised-false (some y) h = refl

pub has_raised-some : {A : Type 0} {x : Option A} {v : A} → x ≡ some v → has_raised x ≡ false
unfolding has_raised
has_raised-some h = ap has_raised h

pub five_false :
    (a b c d e : Bool)
    → a ≡ false
    → b ≡ false
    → c ≡ false
    → d ≡ false
    → e ≡ false
    → (a || b || c || d || e) ≡ false
five_false a b c d e p q r s t = ground (arith, p, q, r, s, t)

-- `at` is a time that is not in the future, and at most `limit` ago.
abbrev pub IsRecent : ℕ → ℕ → Option ℕ → Type 0
IsRecent limit checked_at at =
    (time : ℕ) × (at ≡ some time) × (time ≤ checked_at) × (checked_at - time ≤ limit)

pub is_stale_iff :
    (limit checked_at : ℕ) (at : Option ℕ)
    → (is_stale limit checked_at at ≡ false) ↔ IsRecent limit checked_at at
unfolding is_stale
is_stale_iff limit checked_at none =
    (λ h. absurd (ground arith), λ (time, h, _, _). absurd (ground (arith, h)))
is_stale_iff limit checked_at (some time) = (
  λ h. (time, refl, ground (arith, h), ground (arith, h)),
  λ (t, h, a, b). ground (arith, some-injective _ _ h, a, b),
)

pub has_expired-false :
    {c : ℕ} (at : Option ℕ) → has_expired c at ≡ false → (t : ℕ) × (at ≡ some t) × (c < t)
unfolding has_expired
has_expired-false none h = absurd (ground arith)
has_expired-false (some t) h = (t, refl, ground (arith, h))

pub has_expired-some : {c : ℕ} (expires : ℕ) → c < expires → has_expired c (some expires) ≡ false
unfolding has_expired
has_expired-some expires h = ground (arith, h)
