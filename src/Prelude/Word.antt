-- ===== src/Prelude/Word.antt =====
-- The 64-bit and 32-bit machine integers of WebAssembly, where the contracts run: an `int64_t`
-- is a ℤ and a `uint64_t` a ℕ, with the wrap-around of each conversion and operation written out.
use Prim.Native.Nat.{ℕ, ◌+◌, ◌-◌, ◌*◌, ◌/◌, ◌%◌, ◌^◌, ◌<◌}
use mathlib.Core.Path.{◌≡◌}
use native.Mathlib.Omega.{arith}
use decentral_bank.Prelude.Tests.{ltb, ◌==◌, if◌then◌else◌}
use decentral_bank.Prelude.Int.{ℤ, pos, negsuc, pos_part, neg_part, ◌+ℤ◌, ◌-ℤ◌, ◌*ℤ◌, quot, eqb_ℤ}
use decentral_bank.Prelude.Results.{Result, ok, abort}
use mathlib.Core.Bool.{◌&&◌}
pub mod Modular

abbrev pub u64_mod : ℕ
u64_mod = 2 ^ 64

abbrev pub i64_bound : ℕ
i64_bound = 2 ^ 63

abbrev pub u32_mod : ℕ
u32_mod = 2 ^ 32

-- The conversion of an `int64_t` to `uint64_t`.
unfoldable pub to_u64 : ℤ → ℕ
to_u64 (pos n) = n % u64_mod
to_u64 (negsuc n) = u64_mod - 1 - n % u64_mod

-- The conversion of a `uint64_t` to `int64_t`.
unfoldable pub to_i64 : ℕ → ℤ
to_i64 n =
    if ltb (n % u64_mod) i64_bound then pos (n % u64_mod) else negsuc (u64_mod - 1 - n % u64_mod)

-- What an `int64_t` register keeps of an integer.
unfoldable pub wrap_i64 : ℤ → ℤ
unfolding to_u64 to_i64
wrap_i64 z = to_i64 (to_u64 z)

unfoldable pub add_i64 : ℤ → ℤ → ℤ
add_i64 a b = wrap_i64 (a +ℤ b)

unfoldable pub sub_i64 : ℤ → ℤ → ℤ
sub_i64 a b = wrap_i64 (a -ℤ b)

unfoldable pub mul_i64 : ℤ → ℤ → ℤ
mul_i64 a b = wrap_i64 (a *ℤ b)

-- The quotient of a division that does not trap.
unfoldable pub quot_i64 : ℤ → ℤ → ℤ
quot_i64 a b = wrap_i64 (quot a b)

unfoldable pub add_u64 : ℕ → ℕ → ℕ
add_u64 a b = (a + b) % u64_mod

unfoldable pub sub_u64 : ℕ → ℕ → ℕ
sub_u64 a b = (a + u64_mod - b % u64_mod) % u64_mod

unfoldable pub mul_u64 : ℕ → ℕ → ℕ
mul_u64 a b = (a * b) % u64_mod

unfoldable pub mul_u32 : ℕ → ℕ → ℕ
mul_u32 a b = (a * b) % u32_mod

unfoldable pub add_u32 : ℕ → ℕ → ℕ
add_u32 a b = (a + b) % u32_mod

unfoldable pub sub_u32 : ℕ → ℕ → ℕ
sub_u32 a b = (a + u32_mod - b % u32_mod) % u32_mod

-- Within its range a conversion or an operation keeps the number.
pub wrap_i64-exact : (z : ℤ) → pos_part z < i64_bound → neg_part z < i64_bound → wrap_i64 z ≡ z
unfolding wrap_i64
wrap_i64-exact (pos n) h k = ground arith
wrap_i64-exact (negsuc n) h k = ground arith

pub sub_i64-exact :
    (a b : ℤ) → pos_part (a -ℤ b) < i64_bound → neg_part (a -ℤ b) < i64_bound → sub_i64 a b ≡ a -ℤ b
unfolding sub_i64
sub_i64-exact a b h k = wrap_i64-exact (a -ℤ b) h k

pub add_i64-exact :
    (a b : ℤ) → pos_part (a +ℤ b) < i64_bound → neg_part (a +ℤ b) < i64_bound → add_i64 a b ≡ a +ℤ b
unfolding add_i64
add_i64-exact a b h k = wrap_i64-exact (a +ℤ b) h k

-- No difference of two numbers below 2 ^ 62 leaves the range.
pub sub_i64-narrow :
    (a b : ℤ)
    → pos_part a < 2 ^ 62
    → neg_part a < 2 ^ 62
    → pos_part b < 2 ^ 62
    → neg_part b < 2 ^ 62
    → sub_i64 a b ≡ a -ℤ b
unfolding ◌-ℤ◌
sub_i64-narrow a b p q r s = sub_i64-exact a b (ground arith) (ground arith)

-- `a / b` on `int64_t`, which traps at a zero divisor and where the quotient leaves the range.
unfoldable pub div_i64 : ℤ → ℤ → Result ℤ
unfolding quot_i64
div_i64 a b =
    if eqb_ℤ b (pos 0)
    then abort "integer divide by zero"
    else if eqb_ℤ a (negsuc (i64_bound - 1)) && eqb_ℤ b (negsuc 0)
    then abort "integer overflow"
    else ok (quot_i64 a b)

-- `a / b` on `uint64_t`, which traps at a zero divisor.
unfoldable pub div_u64 : ℕ → ℕ → Result ℕ
div_u64 a b = if b == 0 then abort "integer divide by zero" else ok (a / b)
