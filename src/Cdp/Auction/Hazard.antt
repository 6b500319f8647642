-- ===== src/Cdp/Auction/Hazard.antt =====
-- When a position can be put into liquidation (Maker/daiqcontract.cpp, `liquify`), as a bound over the
-- integers.
use decentral_bank.Prelude.{
  ok_injective, sym, ℕ, ◌+◌, ◌*◌, ◌/◌, ◌^◌, ◌≡◌, ◌≤◌, ◌<◌, ◌∙◌, refl, true, some, Result-cases, ok,
  inl, inr, arith, ◌||◌, not,
}
use decentral_bank.Prelude.Int.{pos, ◌<ℤ◌, ◌*ℤ◌, quot}
use native.Mathlib.Nat.{mul-le-mul_right}
use decentral_bank.Prelude.Word.{to_u64, to_i64, wrap_i64, mul_i64, quot_i64, div_i64}
use decentral_bank.Chain.{Asset, Context, Chain}
use decentral_bank.Cdp.{Engine, Cdp, Stat, Feed}
use decentral_bank.Cdp.Position.{is_fresh, ratio_i64}
use decentral_bank.Cdp.Auction.{start_liquidation, liquify}

shortfall :
    (r p k d w : ℕ)
    → p * 100 < (w + 1) * d
    → 0 < d
    → w * k < r * 10000
    → p * 100 * k < (r * 10000 + k) * d
shortfall r p k d w hp hd h =
    let a : p * 100 * k ≤ (w + 1) * d * k = mul-le-mul_right k (omega (arith, hp)) in
    let b : (w * k + 1) * d ≤ r * 10000 * d = mul-le-mul_right d (omega (arith, h)) in
    let e : (w + 1) * d * k ≡ w * k * d + k * d = omega arith in omega arith

mul_i64-exact : (a b : ℕ) → a * b < 2 ^ 63 → mul_i64 (pos a) (pos b) ≡ pos (a * b)
unfolding mul_i64 wrap_i64 to_u64 to_i64 ◌*ℤ◌
mul_i64-exact a b h = ground arith

div_i64-exact : (a b : ℕ) → 0 < b → a < 2 ^ 63 → div_i64 (pos a) (pos b) ≡ ok (pos (a / b))
unfolding div_i64 quot_i64 quot wrap_i64 to_u64 to_i64
div_i64-exact a b hb ha = ground arith

u64-exact : (n : ℕ) → n < 2 ^ 63 → to_u64 (pos n) ≡ n
unfolding to_u64
u64-exact n h = omega arith

-- Without overflow the ratio is that of the integers.
ratio_i64-exact :
    (p d k liq : ℕ)
    → 0 < d
    → p * 100 < 2 ^ 63
    → p * 100 / d * k < 2 ^ 63
    → ratio_i64 (pos p) (pos d) (pos k) ≡ ok liq
    → liq ≡ p * 100 / d * k / 10000
unfolding ratio_i64
ratio_i64-exact p d k liq hd hp hk h =
    let n : ℕ = p * 100 / d * k in
    let a = mul_i64-exact p 100 hp in
    let b = div_i64-exact (p * 100) d hd hp in
    let e = mul_i64-exact (p * 100 / d) k hk in
    let f = div_i64-exact n 10000 (omega arith) hk in
    let g = u64-exact (n / 10000) (omega arith) in
    ok_injective _ _ (sym h ∙ rw (a, b, e, f, g) refl)

-- What the check of the ratio guarantees.
ratio_i64-below :
    (p d k liq r : ℕ)
    → 0 < d
    → p * 100 < 2 ^ 63
    → p * 100 * k < 2 ^ 63
    → ratio_i64 (pos p) (pos d) (pos k) ≡ ok liq
    → liq < r
    → p * 100 * k < (r * 10000 + k) * d
ratio_i64-below p d k liq r hd hp hk h under =
    let w : ℕ = p * 100 / d in
    let a : w * k ≤ p * 100 * k = mul-le-mul_right k (omega arith) in
    let e = ratio_i64-exact p d k liq hd hp (omega arith) h in
    shortfall r p k d w (omega arith) hd (omega arith)

module _ (E : Chain) where
  open E use {find}

  start_liquidation-checked :
      (c : Context) (owner symbl : ℕ) (st : Stat) (it : Cdp) (fc : Feed) (s : Engine E)
      (r : Cdp × Engine E)
      → find s.feeds c.self it.collateral.symbol.code ≡ some fc
      → start_liquidation E c owner symbl st it s ≡ ok r
      → (pos 0 <ℤ it.stablecoin.amount)
        × ((is_fresh c.now fc.stamp || not st.live) ≡ true)
        × (liq : ℕ) × (ratio_i64 fc.price.amount it.stablecoin.amount it.collateral.amount ≡ ok liq)
        × (liq < st.liquid8_ratio)
  unfolding start_liquidation
  start_liquidation-checked c owner symbl st it fc s r priced h =
      elim (Result-cases (ratio_i64 fc.price.amount it.stablecoin.amount it.collateral.amount)) [
        | inr (message, e) ↦ absurd (ground arith)
        | inl (liq, e) ↦ (ground arith, ground arith, liq, e, ground arith)
      ]

  -- A live position that owes d and holds the collateral k at the price p, where 100 * p and 100 *
  -- p * k are below 2 ^ 63, can be liquidated only if it owes something, the price is fresh or the
  -- type is settled, and the collateral is worth less than the liquidation ratio and the rounding
  -- of the price per debt allow: 100 * p * k is less than (10000 * ratio + k) * d, over the
  -- integers.
  pub liquify-hazard :
      (c : Context) (bidder owner symbl : ℕ) (bidamt : Asset) (s s' : Engine E) (st : Stat)
      (it : Cdp) (fc : Feed) (p d k : ℕ)
      → find s.stats c.self symbl ≡ some st
      → find s.cdps symbl owner ≡ some it
      → find s.feeds c.self it.collateral.symbol.code ≡ some fc
      → it.live ≡ true
      → fc.price.amount ≡ pos p
      → it.stablecoin.amount ≡ pos d
      → it.collateral.amount ≡ pos k
      → p * 100 < 2 ^ 63
      → p * 100 * k < 2 ^ 63
      → liquify E c bidder owner symbl bidamt s ≡ ok s'
      → (0 < d)
        × ((is_fresh c.now fc.stamp || not st.live) ≡ true)
        × (p * 100 * k < (st.liquid8_ratio * 10000 + k) * d)
  unfolding liquify
  liquify-hazard c bidder owner symbl bidamt s s' st it fc p d k typed owned priced live price debt
        coll small_price small h =
      elim (Result-cases (start_liquidation E c owner symbl st it s)) [
        | inr (message, e) ↦ absurd (ground arith)
        | inl (r, e) ↦
            let (owes, fresh, liq, rated, under) =
              start_liquidation-checked c owner symbl st it fc s r priced e in
            let owes' : 0 < d = omega (arith, rw debt at owes) in
            (
              owes',
              fresh,
              ratio_i64-below p d k liq st.liquid8_ratio owes' small_price small
                  (rw (price, debt, coll) at rated) under,
            )
      ]
