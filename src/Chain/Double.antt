-- ===== src/Chain/Double.antt =====
-- The numbers of type `double`, which the system contract computes votes and prices with. The type and
-- its operations are those of the compiler and its library, so they are a parameter.
use Prim.Native.Nat.{◌+◌}
use decentral_bank.Prelude.{Bool}
use decentral_bank.Prelude.Int.{ℤ, pos, ◌+ℤ◌, ◌-ℤ◌, ◌*ℤ◌, quot, ltb_ℤ, leb_ℤ, pos_part, neg_part}

pub record Float : Type 1 where
  pub Double : Type 0
  -- `double( n )` and `int64_t( x )`
  pub of_int : ℤ → Double
  pub to_int : Double → ℤ
  pub negated : Double → Double
  pub plus : Double → Double → Double
  pub minus : Double → Double → Double
  pub times : Double → Double → Double
  pub over : Double → Double → Double
  -- `fabs` and `std::pow`
  pub fabs : Double → Double
  pub pow : Double → Double → Double
  -- `<` and `<=`
  pub less : Double → Double → Bool
  pub at_most : Double → Double → Bool
  -- the constants 0.5 and 0.04879
  pub half : Double
  pub continuous_rate : Double

-- Whole numbers, on which the contract can be run. `pow` keeps its base.
abbrev pub whole : Float
whole = record {
  Double = ℤ;
  of_int = λ n. n;
  to_int = λ x. x;
  negated = λ x. pos 0 -ℤ x;
  plus = λ x y. x +ℤ y;
  minus = λ x y. x -ℤ y;
  times = λ x y. x *ℤ y;
  over = λ x y. quot x y;
  fabs = λ x. pos (pos_part x + neg_part x);
  pow = λ x y. x;
  less = λ x y. ltb_ℤ x y;
  at_most = λ x y. leb_ℤ x y;
  half = pos 1;
  continuous_rate = pos 1;
}
