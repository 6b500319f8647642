-- ===== src/System/Stake/Balances.antt =====
-- The arithmetic of the refunds: what is left of a change, and what is requested after it.
use decentral_bank.Prelude.{ℕ, ◌≡◌, true, false, ap, sym, ◌∙◌, arith, ◌&&◌}
use decentral_bank.Prelude.Int.{
  ℤ, pos, pos_part, neg_part, ◌+ℤ◌, ◌-ℤ◌, ◌≤ℤ◌, ◌<ℤ◌, ltb_ℤ, eqb_ℤ, int_laws,
}
use decentral_bank.Prelude.Word.{add_i64, add_i64-exact}
use decentral_bank.Chain.{InRange}
use decentral_bank.System.{RefundRequest}

-- The two amounts of a refund.
abbrev pub due : ℕ → ℕ → RefundRequest → ℤ
due scope key r = r.net_amount.amount +ℤ r.cpu_amount.amount

-- A requested amount after a change, and what is left of the change, balance it.
abbrev pub Balances : ℤ → ℤ → ℤ → ℤ → Type 0
Balances requested change requested' left =
    (requested' +ℤ change ≡ requested +ℤ left) × (pos 0 ≤ℤ left)

pub below_Balances :
    (q b x l r : ℤ) → x ≡ q -ℤ b → l ≡ pos 0 -ℤ x → r ≡ pos 0 → x <ℤ pos 0 → Balances q b r l
below_Balances q b x l r h i j k = (
  omega (
    int_laws,
    ap pos_part h,
    ap neg_part h,
    ap pos_part i,
    ap neg_part i,
    ap pos_part j,
    ap neg_part j,
  ),
  omega (int_laws, ap pos_part i, ap neg_part i, k),
)

pub above_Balances : (q b x l r : ℤ) → x ≡ q -ℤ b → l ≡ pos 0 → r ≡ x → Balances q b r l
above_Balances q b x l r h i j = (
  omega (
    int_laws,
    ap pos_part h,
    ap neg_part h,
    ap pos_part i,
    ap neg_part i,
    ap pos_part j,
    ap neg_part j,
  ),
  omega (int_laws, ap pos_part i, ap neg_part i),
)

pub kept_Balances : (b l r : ℤ) → l ≡ b → r ≡ pos 0 → pos 0 ≤ℤ b → Balances (pos 0) b r l
kept_Balances b l r i j k = (
  omega (int_laws, ap pos_part i, ap neg_part i, ap pos_part j, ap neg_part j),
  omega (int_laws, ap pos_part i, ap neg_part i, k),
)

-- The two balances of a refund together.
pub both_Balances :
    (q p b c q' p' l m w' w : ℤ)
    → Balances q b q' l
    → Balances p c p' m
    → w' ≡ w +ℤ ((l +ℤ m) -ℤ (b +ℤ c))
    → Balances w (b +ℤ c) w' (l +ℤ m)
both_Balances q p b c q' p' l m w' w (h, i) (j, k) e =
    (omega (int_laws, ap pos_part e, ap neg_part e), omega (int_laws, i, k))

pub zero_due : (a b : ℤ) → (eqb_ℤ a (pos 0) && eqb_ℤ b (pos 0)) ≡ true → a +ℤ b ≡ pos 0
unfolding ◌+ℤ◌
zero_due a b h = ground arith

pub sum_up : (a b : ℤ) → pos 0 ≤ℤ a → pos 0 ≤ℤ b → pos 0 ≤ℤ a +ℤ b
sum_up a b h k = omega (int_laws, h, k)

-- A sum within the range of an asset has the sign that its machine sum has.
pub not_below :
    (a b t : ℤ) → t ≡ a +ℤ b → InRange t → ltb_ℤ (add_i64 a b) (pos 0) ≡ false → pos 0 ≤ℤ t
not_below a b t h (p, n) k =
    let e : add_i64 a b ≡ t =
      add_i64-exact a b (ground (arith, ap pos_part h)) (ground (arith, ap neg_part h)) ∙ sym h in
    ground (arith, ap pos_part e, ap neg_part e)

-- The amount of a refund moves by what is left less the change.
pub moved_due :
    (q p b c q' p' l m : ℤ)
    → Balances q b q' l
    → Balances p c p' m
    → q' +ℤ p' ≡ (q +ℤ p) +ℤ ((l +ℤ m) -ℤ (b +ℤ c))
moved_due q p b c q' p' l m (h, i) (j, k) =
    omega (int_laws, ap pos_part h, ap neg_part h, ap pos_part j, ap neg_part j)
