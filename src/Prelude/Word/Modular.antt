-- ===== src/Prelude/Word/Modular.antt =====
-- The operations of machine integers, read modulo 2 ^ 64.
use Prim.Native.Nat.{ℕ, ◌%◌}
use mathlib.Core.Path.{◌≡◌}
use native.Mathlib.Omega.{arith}
use decentral_bank.Prelude.Int.{ℤ, ◌+ℤ◌, ◌-ℤ◌}
use decentral_bank.Prelude.Word.{
  to_u64, to_i64, wrap_i64, add_i64, sub_i64, add_u64, sub_u64, u64_mod,
}

pub to_u64-to_i64 : (n : ℕ) → to_u64 (to_i64 n) ≡ n % u64_mod
unfolding to_u64 to_i64
to_u64-to_i64 n = ground arith

pub to_u64-add_i64 : (a b : ℤ) → to_u64 (add_i64 a b) ≡ add_u64 (to_u64 a) (to_u64 b)
unfolding add_i64 wrap_i64 add_u64 to_u64 to_i64 ◌+ℤ◌
to_u64-add_i64 a b = ground arith

pub to_u64-sub_i64 : (a b : ℤ) → to_u64 (sub_i64 a b) ≡ sub_u64 (to_u64 a) (to_u64 b)
unfolding sub_i64 wrap_i64 sub_u64 to_u64 to_i64 ◌-ℤ◌
to_u64-sub_i64 a b = ground arith
