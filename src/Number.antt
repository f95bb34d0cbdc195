-- ===== src/Number.antt =====
-- Python's `float` and `decimal.Decimal`, which the program uses and does not implement: a type with
-- the literals, the operations and the comparisons that the code applies, and the documented laws
-- of the order as a record of their own. `lit m e` is the literal m / 10 ^ e.
pub mod Fixed
pub mod Order
use crypto_arc_v.Prelude.{
  ℕ, ◌≤◌, ◌≡◌, String, some, ◌⊎◌, Bool, true, false, not, ◌&&◌, Option, if◌then◌else◌,
}
use crypto_arc_v.Prelude.Int.{ℤ}

pub record Number (F : Type 0) : Type 0 where
  pub lit : ℕ → ℕ → F
  pub neg : F → F
  pub add : F → F → F
  pub sub : F → F → F
  pub mul : F → F → F
  -- by a divisor that is not zero
  pub div : F → F → F
  pub lt : F → F → Bool
  pub le : F → F → Bool

-- `float`: in addition `math.isfinite`, `float(int)`, `int(float)`, which raises on NaN and the infinities,
-- `round(x, digits)` and the formats `x:.nf` and `x:+.nf`.
pub record Float (F : Type 0) : Type 0 where
  pub number : Number F
  pub of_int : ℤ → F
  pub to_int : F → Option ℤ
  pub round : F → ℕ → F
  pub is_finite : F → Bool
  pub format : F → ℕ → String
  pub format_signed : F → ℕ → String

-- `Decimal`: in addition `quantize` to four places with `ROUND_DOWN`, which raises (`none`) if the
-- result has more digits than the context keeps, and `str`.
pub record Decimal (F : Type 0) : Type 0 where
  pub number : Number F
  pub quantize_down : F → Option F
  pub to_text : F → String

module _ {F : Type 0} ⦃n : Number F⦄ where
  infix 50 ◌≺◌ ◌≼◌
  abbrev pub ◌≺◌ : F → F → Type 0
  x ≺ y = n.lt x y ≡ true

  abbrev pub ◌≼◌ : F → F → Type 0
  x ≼ y = n.le x y ≡ true

  abbrev pub zero_lit : F
  zero_lit = n.lit 0 0

  -- `a == b`
  abbrev pub num_eq : F → F → Bool
  num_eq a b = n.le a b && n.le b a

  -- `max(a, b)` and `min(a, b)` keep the first argument on a tie and beside a NaN.
  unfoldable pub max_of : F → F → F
  max_of a b = if n.lt a b then b else a

  unfoldable pub min_of : F → F → F
  min_of a b = if n.lt b a then b else a

  -- `a or b`
  abbrev pub or_else : F → F → F
  or_else a b = if num_eq a zero_lit then b else a

  abbrev pub abs_of : F → F
  abs_of a = if n.lt a zero_lit then n.neg a else a

-- The order of the comparisons. A NaN is a value that is not `<=` itself; every law but `total`
-- holds beside one too.
pub record IsOrdered {F : Type 0} (n : Number F) : Type 0 where
  pub le_trans : (x y z : F) → n.le x y ≡ true → n.le y z ≡ true → n.le x z ≡ true
  pub lt_le_trans : (x y z : F) → n.lt x y ≡ true → n.le y z ≡ true → n.lt x z ≡ true
  pub le_lt_trans : (x y z : F) → n.le x y ≡ true → n.lt y z ≡ true → n.lt x z ≡ true
  pub le_of_lt : (x y : F) → n.lt x y ≡ true → n.le x y ≡ true
  pub not_le_of_lt : (x y : F) → n.lt x y ≡ true → n.le y x ≡ false
  pub refl_of_le : (x y : F) → n.le x y ≡ true → (n.le x x ≡ true) × (n.le y y ≡ true)
  pub total : (x y : F) → n.le x x ≡ true → n.le y y ≡ true → n.lt x y ≡ false → n.le y x ≡ true
  pub lit_refl : (m e : ℕ) → n.le (n.lit m e) (n.lit m e) ≡ true
  pub lit_mono : (m k e : ℕ) → m ≤ k → n.le (n.lit m e) (n.lit k e) ≡ true
  pub lit_zero : (e : ℕ) → n.lit 0 e ≡ n.lit 0 0
  pub lit_micro : n.lt (n.lit 0 0) (n.lit 1 6) ≡ true

-- `ROUND_DOWN` moves towards zero, and a product or a quotient of numbers that are not negative is
-- not negative.
pub record IsDecimal {F : Type 0} (d : Decimal F) : Type 0 where
  pub ordered : IsOrdered d.number
  pub quantize-le :
      (x y : F)
      → d.number.le (d.number.lit 0 0) x ≡ true
      → d.quantize_down x ≡ some y
      → (d.number.le (d.number.lit 0 0) y ≡ true) × (d.number.le y x ≡ true)
  pub mul_nonneg :
      (x y : F)
      → d.number.le (d.number.lit 0 0) x ≡ true
      → d.number.le (d.number.lit 0 0) y ≡ true
      → d.number.le (d.number.lit 0 0) (d.number.mul x y) ≡ true
  pub div_nonneg :
      (x y : F)
      → d.number.le (d.number.lit 0 0) x ≡ true
      → d.number.lt (d.number.lit 0 0) y ≡ true
      → d.number.le (d.number.lit 0 0) (d.number.div x y) ≡ true
