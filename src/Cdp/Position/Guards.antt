-- ===== src/Cdp/Position/Guards.antt =====
-- The limits that `draw` keeps: both ceilings and the liquidation ratio.
use decentral_bank.Prelude.{
  ℕ, ◌*◌, ◌/◌, ◌%◌, ◌≤◌, ◌≡◌, ◌∙◌, sym, true, some, Option-cases, ok, refl, subst, ==_refl,
  Result-cases, inl, inr, arith,
}
use native.Mathlib.Nat.{mul-le-mul_left, mul-le-mul_right, div-mul-le_self, le_trans}
use decentral_bank.Prelude.Int.{ℤ, pos, negsuc, pos_part, ◌+ℤ◌, ◌*ℤ◌, ◌≤ℤ◌}
use decentral_bank.Prelude.Word.{
  to_u64, wrap_i64, add_i64, add_i64-exact, mul_i64, mul_u64, div_u64, u64_mod,
}
use decentral_bank.Chain.{Asset, Context, Chain, IsChain, InRange}
use decentral_bank.Cdp.{Engine, Cdp, Stat, Feed}
use decentral_bank.Cdp.Wallet.{add_balance}
use decentral_bank.Cdp.Position.{is_fresh, ratio_u64, draw, mint}

-- Wrap-around only lowers the price that the ratio counts with.
hundredfold : (p : ℕ) → to_u64 (mul_i64 (pos p) (pos 100)) ≤ p * 100
unfolding to_u64 mul_i64 wrap_i64 ◌*ℤ◌
hundredfold p = ground arith

scaled :
    (r p k d u k' : ℕ)
    → u ≤ p * 100
    → k' ≤ k
    → r ≤ (u / d * k') % u64_mod / 10000
    → r * 10000 * d ≤ p * 100 * k
scaled r p k d u k' hu hk h =
    let w : ℕ = u / d in
    let a : r * 10000 ≤ w * k' = omega arith in
    let b : r * 10000 * d ≤ w * k * d = mul-le-mul_right d (le_trans a (mul-le-mul_left w hk)) in
    let e : w * d * k ≤ p * 100 * k = mul-le-mul_right k (le_trans (div-mul-le_self u d) hu) in
    omega arith

no_more : (k : ℕ) → to_u64 (pos k) ≤ k
unfolding to_u64
no_more k = omega arith

-- What the check of the ratio guarantees, whatever overflows on the way.
pub ratio_u64-covers :
    (p d k liq r : ℕ) → ratio_u64 (pos p) d (pos k) ≡ ok liq → r ≤ liq → r * 10000 * d ≤ p * 100 * k
unfolding ratio_u64 div_u64 mul_u64
ratio_u64-covers p d k liq r h le =
    scaled r p k d (to_u64 (mul_i64 (pos p) (pos 100))) (to_u64 (pos k)) (hundredfold p) (no_more k)
      (ground arith)

module _ (E : Chain) where
  open E use {find, store}

  mint-written :
      (c : Context) (owner symbl : ℕ) (q : Asset) (st : Stat) (it : Cdp) (fs : Feed)
      (s s' : Engine E)
      → mint E c owner symbl q st it fs s ≡ ok s'
      → (more : Asset) × (sum : Asset) × (E.plus it.stablecoin q ≡ some more)
        × (E.plus st.total_stablecoin q ≡ some sum)
        × (s'.cdps ≡ store s.cdps symbl owner (record it { stablecoin = more }))
        × (s'.stats ≡ store s.stats c.self symbl (record st { total_stablecoin = sum }))
  unfolding mint
  mint-written c owner symbl q st it fs s s' h =
      elim (Result-cases (add_balance E owner q c.self s.accounts)) [
        | inr (message, e₁) ↦ absurd (ground arith)
        | inl (accounts, e₁) ↦ elim (Option-cases (E.plus it.stablecoin q)) [
          | inl e₂ ↦ absurd (ground arith)
          | inr (more, e₂) ↦ elim (Option-cases (E.plus st.total_stablecoin q)) [
            | inl e₃ ↦ absurd (ground arith)
            | inr (sum, e₃) ↦ elim (Option-cases (E.plus fs.total q)) [
              | inl e₄ ↦ absurd (ground arith)
              | inr (supply, e₄) ↦ (more, sum, e₂, e₃, ground arith, ground arith)
            ]
          ]
        ]
      ]

  draw-checked :
      (c : Context) (owner symbl : ℕ) (q : Asset) (st : Stat) (it : Cdp) (fc : Feed)
      (s s' : Engine E)
      → find s.stats c.self symbl ≡ some st
      → find s.cdps symbl owner ≡ some it
      → find s.feeds c.self it.collateral.symbol.code ≡ some fc
      → draw E c owner symbl q s ≡ ok s'
      → (liq : ℕ) × (fs : Feed) × (to_u64 (add_i64 it.stablecoin.amount q.amount) ≤ st.debt_ceiling)
        × (to_u64 (add_i64 st.total_stablecoin.amount q.amount) ≤ st.global_ceil)
        × (is_fresh c.now fc.stamp ≡ true)
        × (ratio_u64 fc.price.amount
              (to_u64 (add_i64 it.stablecoin.amount q.amount))
              it.collateral.amount
            ≡ ok liq)
        × (st.liquid8_ratio ≤ liq)
        × (mint E c owner symbl q st it fs s ≡ ok s')
  unfolding draw
  draw-checked c owner symbl q st it fc s s' typed owned priced h =
      elim (Result-cases (
        ratio_u64 fc.price.amount (to_u64 (add_i64 it.stablecoin.amount q.amount))
          it.collateral.amount)) [
            | inr (message, e₁) ↦ absurd (ground arith)
            | inl (ratio, e₁) ↦ elim (Option-cases (find s.feeds c.self q.symbol.code)) [
              | inl e₂ ↦ absurd (ground arith)
              | inr (coin, e₂) ↦ (
                ratio,
                coin,
                ground arith,
                ground arith,
                ground arith,
                e₁,
                ground arith,
                ground arith,
              )
            ]
          ]

-- In range, the 64-bit sum is the sum, and a negative one stands for a large number.
u64_of_range :
    (n : ℤ) (limit : ℕ) → to_u64 n ≤ limit → InRange n → (n ≤ℤ pos limit) × (pos_part n ≤ to_u64 n)
unfolding to_u64
u64_of_range (pos m) limit h r = (omega arith, omega arith)
u64_of_range (negsuc m) limit h r = (omega arith, omega arith)

sum_below :
    (a b n : ℤ) (limit : ℕ)
    → n ≡ a +ℤ b
    → InRange n
    → to_u64 (add_i64 a b) ≤ limit
    → (n ≤ℤ pos limit) × (pos_part n ≤ to_u64 (add_i64 a b))
sum_below a b n limit e r h =
    let r' : InRange (a +ℤ b) = subst InRange e r in
    let x : add_i64 a b ≡ n = add_i64-exact a b (omega arith) (omega arith) ∙ sym e in
    rw x (u64_of_range n limit (rw x at h) r)

module _ (E : Chain) (L : IsChain E) where
  open E use {find, store}

  here : (R : Type 0) (t : E.Table R) (a b : ℕ) (r : R) → find (store t a b r) a b ≡ some r
  here R t a b r = rw (L.find-store R t a b r a b, ==_refl a, ==_refl b)

  -- After a successful `draw` on a position whose collateral `k` and its price `p` are not negative,
  -- the position's debt is within the type's debt ceiling and the type's debt within its global
  -- ceiling, the price was fresh, and the collateral is worth the liquidation ratio: the ratio times
  -- 10000 times the debt is at most 100 * p * k, over the integers. The debt has
  -- grown by the amount drawn and the collateral is unchanged.
  pub draw_limits :
      (c : Context) (owner symbl : ℕ) (q : Asset) (s s' : Engine E) (st : Stat) (it : Cdp)
      (fc : Feed) (p k : ℕ)
      → find s.stats c.self symbl ≡ some st
      → find s.cdps symbl owner ≡ some it
      → find s.feeds c.self it.collateral.symbol.code ≡ some fc
      → fc.price.amount ≡ pos p
      → it.collateral.amount ≡ pos k
      → draw E c owner symbl q s ≡ ok s'
      → (it' : Cdp) × (st' : Stat) × (find s'.cdps symbl owner ≡ some it')
        × (find s'.stats c.self symbl ≡ some st')
        × (it'.collateral ≡ it.collateral)
        × (it'.stablecoin.amount ≡ it.stablecoin.amount +ℤ q.amount)
        × (it'.stablecoin.amount ≤ℤ pos st.debt_ceiling)
        × (st'.total_stablecoin.amount ≤ℤ pos st.global_ceil)
        × (is_fresh c.now fc.stamp ≡ true)
        × (st.liquid8_ratio * 10000 * pos_part it'.stablecoin.amount ≤ p * 100 * k)
  draw_limits c owner symbl q s s' st it fc p k typed owned priced price coll h =
      let (liq, fs, below, global, fresh, rated, safe, minted) =
        draw-checked E c owner symbl q st it fc s s' typed owned priced h in
      let (more, sum, e, f, cdps, stats) = mint-written E c owner symbl q st it fs s s' minted in
      let (n, _, _, r) = L.plus_some it.stablecoin q more e in
      let (n', _, _, r') = L.plus_some st.total_stablecoin q sum f in
      let (debt, part) = sum_below _ _ more.amount st.debt_ceiling n r below in
      let (total, _) = sum_below _ _ sum.amount st.global_ceil n' r' global in
      (
        record it { stablecoin = more },
        record st { total_stablecoin = sum },
        rw cdps (here Cdp s.cdps symbl owner _),
        rw stats (here Stat s.stats c.self symbl _),
        refl,
        n,
        debt,
        total,
        fresh,
        le_trans (mul-le-mul_left (st.liquid8_ratio * 10000) part)
            (ratio_u64-covers p _ k liq st.liquid8_ratio (rw (price, coll) at rated) safe),
      )
