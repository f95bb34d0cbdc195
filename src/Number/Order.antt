-- ===== src/Number/Order.antt =====
-- Consequences of the order laws, for clamps and guards.
use crypto_arc_v.Prelude.{◌≡◌, true, false, arith}
use crypto_arc_v.Number.{Number, IsOrdered, ◌≼◌, max_of, min_of}

module _ {F : Type 0} ⦃n : Number F⦄ (laws : IsOrdered n) where
  open laws use {le_trans, lt_le_trans, le_lt_trans, le_of_lt, not_le_of_lt, refl_of_le, total}

  -- The smaller of two numbers is below both.
  pub min_of-le : (a b : F) → a ≼ a → b ≼ b → (min_of a b ≼ a) × (min_of a b ≼ b)
  unfolding min_of
  min_of-le a b p q = ground (arith, le_of_lt b a, total b a q p)

  pub le-max_of : (a b : F) → a ≼ a → b ≼ b → (a ≼ max_of a b) × (b ≼ max_of a b)
  unfolding max_of
  le-max_of a b p q = ground (arith, le_of_lt a b, total a b p q)

  -- `x < y` and `y <= x` exclude each other, as the Boolean tests of a guard see it.
  pub not_lt_of_le : (x y : F) → y ≼ x → n.lt x y ≡ false
  not_lt_of_le x y h = ground (arith, not_le_of_lt x y)

  pub not_lt_mono : (x y z : F) → x ≼ y → n.lt z x ≡ true → n.lt z y ≡ true
  not_lt_mono x y z h k = lt_le_trans z x y k h
