-- ===== src/Wallet/Money.antt =====
-- The amounts of the wallet. Go holds them as `float64` and PostgreSQL as `NUMERIC(20, 8)`; the
-- type and its operations are a parameter, and so is what a column gives back of a value.
use aien.Prelude.{ℕ, ◌+◌, ◌-◌, ◌≡◌, refl, Bool, false, arith, ltb, leb}

pub record Money : Type 1 where
  pub Amount : Type 0
  pub zero : Amount
  pub plus : Amount → Amount → Amount
  pub minus : Amount → Amount → Amount
  -- `a < b`
  pub less : Amount → Amount → Bool
  -- `a <= b`
  pub at_most : Amount → Amount → Bool
  -- The value read back after it was written to a `NUMERIC(20, 8)` column.
  pub column : Amount → Amount

-- That one transfer of `x` between balances `u` and `v` is computed exactly, where an amount counts for
-- `units`: the written balances are the difference and the sum. It holds of `float64` if the three
-- and both results are multiples of 10⁻⁸ that the format and the column represent.
pub record IsExactAt (m : Money) (units : m.Amount → ℕ) (u v x : m.Amount) : Type 0 where
  pub subtracts : units (m.column (m.minus u x)) + units x ≡ units u
  pub adds : units (m.column (m.plus v x)) ≡ units v + units x

-- The comparisons agree with the sign of sums and differences, and rounding to a column keeps a
-- sign. It holds of `float64`, a NaN included, with which every comparison is false.
pub record IsOrdered (m : Money) : Type 0 where
  pub zero_nonneg : m.less m.zero m.zero ≡ false
  pub minus_nonneg : (a x : m.Amount) → m.less a x ≡ false → m.less (m.minus a x) m.zero ≡ false
  pub plus_nonneg :
      (a x : m.Amount)
      → m.less a m.zero ≡ false
      → m.at_most x m.zero ≡ false
      → m.less (m.plus a x) m.zero ≡ false
  pub column_nonneg : (a : m.Amount) → m.less a m.zero ≡ false → m.less (m.column a) m.zero ≡ false

-- Amounts as whole multiples of 10⁻⁸, without those below zero.
abbrev pub cents : Money
cents = record {
  Amount = ℕ;
  zero = 0;
  plus = λ a b. a + b;
  minus = λ a b. a - b;
  less = ltb;
  at_most = leb;
  column = λ a. a;
}

pub cents-IsOrdered : IsOrdered cents
cents-IsOrdered = record {
  zero_nonneg = refl;
  minus_nonneg = λ a x h. ground arith;
  plus_nonneg = λ a x h k. ground arith;
  column_nonneg = λ a h. h;
}
