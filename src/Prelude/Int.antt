-- ===== src/Prelude/Int.antt =====
-- Signed integers over the native numbers, under the library's names (its ℤ stands on the unary ℕ).
-- Sums and orders go through the two parts of an integer, which are numbers that `omega` reads.
use Prim.Native.Nat.{ℕ, suc, ◌+◌, ◌-◌, ◌*◌, ◌/◌, ◌≤◌}
use mathlib.Core.Path.{◌≡◌, ap}
use mathlib.Core.Bool.{Bool, true, false}
use native.Mathlib.Omega.{arith}
use decentral_bank.Prelude.Tests.{ltb, leb, ◌==◌, if◌then◌else◌}

-- `negsuc n` is -(n + 1).
pub data ℤ : Type 0 where
  pos : ℕ → ℤ
  negsuc : ℕ → ℤ

abbrev pub pos_part : ℤ → ℕ
pos_part (pos n) = n
pos_part (negsuc n) = 0

abbrev pub neg_part : ℤ → ℕ
neg_part (pos n) = 0
neg_part (negsuc n) = suc n

-- a - b, as an integer.
abbrev pub sub_ℕ : ℕ → ℕ → ℤ
sub_ℕ a b = if leb b a then pos (a - b) else negsuc (b - a - 1)

infixl 65 ◌+ℤ◌ ◌-ℤ◌
infixl 70 ◌*ℤ◌
infix 50 ◌≤ℤ◌ ◌<ℤ◌
unfoldable pub ◌+ℤ◌ : ℤ → ℤ → ℤ
a +ℤ b = sub_ℕ (pos_part a + pos_part b) (neg_part a + neg_part b)

unfoldable pub ◌-ℤ◌ : ℤ → ℤ → ℤ
a -ℤ b = sub_ℕ (pos_part a + neg_part b) (neg_part a + pos_part b)

unfoldable pub ◌*ℤ◌ : ℤ → ℤ → ℤ
a *ℤ b =
    sub_ℕ (pos_part a * pos_part b + neg_part a * neg_part b)
      (pos_part a * neg_part b + neg_part a * pos_part b)

-- The quotient rounded towards zero, as C++ divides; it is 0 at a zero divisor.
unfoldable pub quot : ℤ → ℤ → ℤ
quot a b =
    sub_ℕ (pos_part a / pos_part b + neg_part a / neg_part b)
      (pos_part a / neg_part b + neg_part a / pos_part b)

abbrev pub ◌≤ℤ◌ : ℤ → ℤ → Type 0
a ≤ℤ b = pos_part a + neg_part b ≤ pos_part b + neg_part a

abbrev pub ◌<ℤ◌ : ℤ → ℤ → Type 0
a <ℤ b = suc (pos_part a + neg_part b) ≤ pos_part b + neg_part a

abbrev pub ltb_ℤ : ℤ → ℤ → Bool
ltb_ℤ a b = ltb (pos_part a + neg_part b) (pos_part b + neg_part a)

abbrev pub leb_ℤ : ℤ → ℤ → Bool
leb_ℤ a b = leb (pos_part a + neg_part b) (pos_part b + neg_part a)

abbrev pub eqb_ℤ : ℤ → ℤ → Bool
eqb_ℤ a b = (pos_part a + neg_part b) == (pos_part b + neg_part a)

-- One lemma for each operation lets `omega` work with the operations shut, at any depth.
pub +ℤ_parts :
    (a b : ℤ)
    → pos_part (a +ℤ b) + neg_part a + neg_part b ≡ neg_part (a +ℤ b) + pos_part a + pos_part b
unfolding ◌+ℤ◌
+ℤ_parts a b = ground arith

pub -ℤ_parts :
    (a b : ℤ)
    → pos_part (a -ℤ b) + neg_part a + pos_part b ≡ neg_part (a -ℤ b) + pos_part a + neg_part b
unfolding ◌-ℤ◌
-ℤ_parts a b = ground arith

pub eq_of_parts : (a b : ℤ) → pos_part a + neg_part b ≡ pos_part b + neg_part a → a ≡ b
eq_of_parts a b h = ground arith

pub ruleset int_laws = (arith, +ℤ_parts, -ℤ_parts, eq_of_parts)

-- A sum after one of its terms moves by `n`.
pub shift_term : (x' x old new n : ℤ) → x' +ℤ old ≡ x +ℤ new → new ≡ old +ℤ n → x' ≡ x +ℤ n
shift_term x' x old new n h k =
    omega (int_laws, ap pos_part h, ap neg_part h, ap pos_part k, ap neg_part k)

pub shift_term_down : (x' x old new n : ℤ) → x' +ℤ old ≡ x +ℤ new → new ≡ old -ℤ n → x' ≡ x -ℤ n
shift_term_down x' x old new n h k =
    omega (int_laws, ap pos_part h, ap neg_part h, ap pos_part k, ap neg_part k)

pub +ℤ-zero : (x : ℤ) → x +ℤ pos 0 ≡ x
+ℤ-zero x = omega int_laws

pub -ℤ-zero : (x : ℤ) → x -ℤ pos 0 ≡ x
-ℤ-zero x = omega int_laws

-- A sum of terms that count only under a test.
pub add_under :
    (b : Bool) (x y n : ℤ)
    → x ≡ y +ℤ n
    → (if b then x else pos 0) ≡ (if b then y else pos 0) +ℤ (if b then n else pos 0)
add_under true x y n h = h
add_under false x y n h = omega int_laws

pub sub_under :
    (b : Bool) (x y n : ℤ)
    → x ≡ y -ℤ n
    → (if b then x else pos 0) ≡ (if b then y else pos 0) -ℤ (if b then n else pos 0)
sub_under true x y n h = h
sub_under false x y n h = omega int_laws

pub sub_of_add : (x' x a : ℤ) → x' +ℤ a ≡ x → x' ≡ x -ℤ a
sub_of_add x' x a h = omega (int_laws, ap pos_part h, ap neg_part h)

pub -ℤ-self : (x : ℤ) → x -ℤ x ≡ pos 0
-ℤ-self x = omega int_laws

pub -ℤ-as_add : (x y a : ℤ) → x ≡ y -ℤ a → x ≡ y +ℤ (pos 0 -ℤ a)
-ℤ-as_add x y a h = omega (int_laws, ap pos_part h, ap neg_part h)

pub add_zero_eq : (x : ℤ) → x ≡ x +ℤ pos 0
add_zero_eq x = omega int_laws

pub sub_then_add : (x y z n : ℤ) → y ≡ x -ℤ n → z ≡ y +ℤ n → z ≡ x
sub_then_add x y z n h k =
    omega (int_laws, ap pos_part h, ap neg_part h, ap pos_part k, ap neg_part k)

pub add_in_turn : (x y z a b : ℤ) → y ≡ x +ℤ a → z ≡ y +ℤ b → z ≡ x +ℤ (a +ℤ b)
add_in_turn x y z a b h k =
    omega (int_laws, ap pos_part h, ap neg_part h, ap pos_part k, ap neg_part k)
