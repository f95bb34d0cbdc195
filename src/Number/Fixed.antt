-- ===== src/Number/Fixed.antt =====
-- The laws of `IsOrdered` can be met: numbers with nine decimal places, as whole multiples of
-- 10 ^ -9. The examples of the other modules run on this type.
use crypto_arc_v.Prelude.{ℕ, ◌+◌, ◌*◌, ◌/◌, ◌^◌, ◌≤◌, ◌≡◌, ap, refl, some, true, arith}
use crypto_arc_v.Prelude.Int.{ℤ, pos, negsuc, pos_part, neg_part, sub_ℕ, ltb_ℤ, leb_ℤ}
use crypto_arc_v.Number.{Number, Float, Decimal, IsOrdered, IsDecimal}

abbrev pub Fixed : Type 0
Fixed = ℤ

abbrev unit : ℕ
unit = 1_000_000_000

abbrev magnitude : ℤ → ℕ
magnitude a = pos_part a + neg_part a

-- The value with the magnitude `m` and the sign of `a * b`.
abbrev signed : ℤ → ℤ → ℕ → ℤ
signed (pos a) (pos b) m = pos m
signed (negsuc a) (negsuc b) m = pos m
signed _ _ m = sub_ℕ 0 m

instance abbrev pub fixed_number : Number Fixed
fixed_number = record {
  lit = λ m e. pos (m * unit / 10 ^ e);
  neg = λ a. sub_ℕ (neg_part a) (pos_part a);
  add = λ a b. sub_ℕ (pos_part a + pos_part b) (neg_part a + neg_part b);
  sub = λ a b. sub_ℕ (pos_part a + neg_part b) (neg_part a + pos_part b);
  mul = λ a b. signed a b (magnitude a * magnitude b / unit);
  div = λ a b. signed a b (magnitude a * unit / magnitude b);
  lt = ltb_ℤ;
  le = leb_ℤ;
}

instance abbrev pub fixed_float : Float Fixed
fixed_float = record {
  number = fixed_number;
  of_int = λ a. signed a (pos 0) (magnitude a * unit);
  to_int = λ a. some (signed a (pos 0) (magnitude a / unit));
  round = λ a digits.
      signed a (pos 0)
        ((magnitude a + unit / 10 ^ digits / 2) / (unit / 10 ^ digits) * (unit / 10 ^ digits));
  is_finite = λ a. true;
  format = λ a digits. "float";
  format_signed = λ a digits. "float";
}

instance abbrev pub fixed_decimal : Decimal Fixed
fixed_decimal = record {
  number = fixed_number;
  quantize_down = λ a. some (signed a (pos 0) (magnitude a / 100_000 * 100_000));
  to_text = λ a. "decimal";
}

div_mono : (a b d : ℕ) → a ≤ b → a / d ≤ b / d
div_mono a b d h = grind arith

lit_mono : (m k e : ℕ) → m ≤ k → m * unit / 10 ^ e ≤ k * unit / 10 ^ e
lit_mono m k e h = div_mono (m * unit) (k * unit) (10 ^ e) (omega arith)

lit_zero : (e : ℕ) → 0 * unit / 10 ^ e ≡ 0
lit_zero e = grind arith

pub fixed-IsOrdered : IsOrdered fixed_number
fixed-IsOrdered = record {
  le_trans = λ x y z h k. ground arith;
  lt_le_trans = λ x y z h k. ground arith;
  le_lt_trans = λ x y z h k. ground arith;
  le_of_lt = λ x y h. ground arith;
  not_le_of_lt = λ x y h. ground arith;
  refl_of_le = λ x y h. ground arith;
  total = λ x y h k l. ground arith;
  lit_refl = λ m e. ground arith;
  lit_mono = λ m k e h. ground (arith, lit_mono m k e h);
  lit_zero = λ e. ap pos (lit_zero e);
  lit_micro = refl;
}

pub fixed-IsDecimal : IsDecimal fixed_decimal
fixed-IsDecimal = record {
  ordered = fixed-IsOrdered;
  quantize-le = λ x y h e. ground arith;
  mul_nonneg = λ x y h k. ground arith;
  div_nonneg = λ x y h k. ground arith;
}
