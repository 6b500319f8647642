-- ===== src/Cdp/Flaws.antt =====
-- Where the CDP engine does not do what its comments say: each theorem is about the code as it is.
use decentral_bank.Prelude.{
  ℕ, true, sym, Option, ◌<◌, ◌≡◌, ◌≢◌, ◌∙◌, refl, none, some, Option-cases, ok, Result-cases, inl,
  inr, arith, ==_refl, if◌then◌else◌,
}
use decentral_bank.Prelude.Int.{ℤ, pos, ◌+ℤ◌, ◌*ℤ◌, ◌<ℤ◌, -ℤ-self, ltb_ℤ}
use decentral_bank.Prelude.Word.{to_u64, add_i64, mul_i64, mul_u64, div_u64, wrap_i64}
use decentral_bank.Chain.{Asset, Symbol, Context, Chain, IsChain}
use decentral_bank.Cdp.{Engine, Cdp, Stat, Feed, Bid}
use decentral_bank.Cdp.Wallet.{add_balance, sub_balance}
use decentral_bank.Cdp.Position.{ratio_u64, ratio_i64, draw, shut, return_collateral, settle_debt}
use decentral_bank.Cdp.Position.Debt.{collateral_in}
use decentral_bank.Cdp.Oracle.{averaged_price, upfeed}
use decentral_bank.Cdp.Auction.{
  with_penalty, start_liquidation, first_bid, pay_off, liquify, place_bid,
}

averaged_price-zero : (a b : ℤ) → averaged_price a b ≡ pos 0
unfolding averaged_price mul_i64 add_i64 wrap_i64 ◌*ℤ◌ ◌+ℤ◌
averaged_price-zero a b = ground arith

worthless : (d : ℕ) (k : ℤ) (liq : ℕ) → ratio_u64 (pos 0) d k ≡ ok liq → liq ≡ 0
unfolding ratio_u64 div_u64 mul_u64 mul_i64 to_u64 wrap_i64 ◌*ℤ◌
worthless d k liq h = ground arith

module _ (E : Chain) (L : IsChain E) where
  open E use {find, store}

  -- A report on a feed that exists sets its price to zero, whatever the price was and whatever is
  -- reported: the weights 17 / 20 and 3 / 20 are quotients of integers. The total is unchanged.
  pub upfeed_zero :
      (c : Context) (feeder : ℕ) (price : Asset) (y : ℕ) (symbl : Symbol) (s s' : Engine E)
      (f : Feed)
      → find s.feeds c.self symbl.code ≡ some f
      → upfeed E c feeder price y symbl s ≡ ok s'
      → (f' : Feed) × (find s'.feeds c.self symbl.code ≡ some f')
        × (f'.price.amount ≡ pos 0)
        × (f'.total ≡ f.total)
        × (f'.stamp ≡ c.now)
  unfolding upfeed
  upfeed_zero c feeder price y symbl s s' f e h =
      let f' : Feed = record f {
        price = record {
          amount = averaged_price f.price.amount price.amount;
          symbol = f.price.symbol;
        };
        stamp = c.now;
      } in
      (
        f',
        ground (
          arith,
          L.find-store Feed s.feeds c.self symbl.code f' c.self symbl.code,
          ==_refl c.self,
          ==_refl symbl.code,
        ),
        averaged_price-zero f.price.amount price.amount,
        refl,
        refl,
      )

  -- On collateral whose price is zero no `draw` succeeds, for any cdp type with a liquidation ratio
  -- above zero.
  pub draw_worthless :
      (c : Context) (owner symbl : ℕ) (q : Asset) (s s' : Engine E) (st : Stat) (it : Cdp)
      (fc : Feed)
      → find s.stats c.self symbl ≡ some st
      → find s.cdps symbl owner ≡ some it
      → find s.feeds c.self it.collateral.symbol.code ≡ some fc
      → fc.price.amount ≡ pos 0
      → 0 < st.liquid8_ratio
      → draw E c owner symbl q s ≢ ok s'
  unfolding draw
  draw_worthless c owner symbl q s s' st it fc typed owned priced zero_price above h =
      elim (Result-cases (
        ratio_u64 fc.price.amount (to_u64 (add_i64 it.stablecoin.amount q.amount))
          it.collateral.amount)) [
            | inr (message, e) ↦ ground arith
            | inl (liq, e) ↦
                let nought : liq ≡ 0 = worthless _ it.collateral.amount liq (rw zero_price at e) in
                ground arith
          ]

  -- What `shut` writes for a position that holds collateral.
  shut-written :
      (c : Context) (owner symbl : ℕ) (s s' : Engine E) (st : Stat) (it : Cdp)
      → find s.stats c.self symbl ≡ some st
      → find s.cdps symbl owner ≡ some it
      → pos 0 <ℤ it.collateral.amount
      → shut E c owner symbl s ≡ ok s'
      → (st' : Stat) × (sum : Asset) × (E.plus st.total_collateral.quantity it.collateral
          ≡ some sum)
        × (st'.total_collateral.quantity ≡ sum)
        × (s'.stats ≡ store s.stats c.self symbl st')
        × (s'.cdps ≡ E.erase s.cdps symbl owner)
  unfolding shut return_collateral
  shut-written c owner symbl s s' st it typed owned holds h =
      elim (Result-cases (
        if ltb_ℤ (pos 0) it.stablecoin.amount
        then settle_debt E owner st it s.accounts
        else ok (s.accounts, st.total_stablecoin))) [
          | inr (message, e₁) ↦ absurd (ground arith)
          | inl (paid, e₁) ↦
              elim (Result-cases
                (add_balance E owner it.collateral st.total_collateral.contract paid.0)) [
                  | inr (message, e₂) ↦ absurd (ground arith)
                  | inl (returned, e₂) ↦
                      elim (Option-cases (E.plus st.total_collateral.quantity it.collateral)) [
                        | inl e₃ ↦ absurd (ground arith)
                        | inr (sum, e₃) ↦ (
                          record st {
                            total_stablecoin = paid.1;
                            total_collateral = record {
                              quantity = sum;
                              contract = st.total_collateral.contract;
                            };
                          },
                          sum,
                          e₃,
                          refl,
                          ground arith,
                          ground arith,
                        )
                      ]
                ]
        ]

  -- Closing a position that holds collateral raises the type's total collateral by what the position
  -- held, while the sum over the positions of the type falls by it. So where the total was that sum
  -- before, it exceeds it after by twice the collateral that was paid out.
  pub shut_misbooks :
      (c : Context) (owner symbl : ℕ) (s s' : Engine E) (st : Stat) (it : Cdp)
      → find s.stats c.self symbl ≡ some st
      → find s.cdps symbl owner ≡ some it
      → pos 0 <ℤ it.collateral.amount
      → E.weigh (collateral_in symbl) s.cdps ≡ st.total_collateral.quantity.amount
      → shut E c owner symbl s ≡ ok s'
      → (st' : Stat) × (find s'.stats c.self symbl ≡ some st')
        × (st'.total_collateral.quantity.amount
            ≡ E.weigh (collateral_in symbl) s'.cdps +ℤ it.collateral.amount +ℤ it.collateral.amount)
  shut_misbooks c owner symbl s s' st it typed owned holds booked h =
      let (st', sum, e, t, stats, cdps) =
        shut-written c owner symbl s s' st it typed owned holds h in
      let (n, _, _, _) = L.plus_some st.total_collateral.quantity it.collateral sum e in
      let w : E.weigh (collateral_in symbl) (E.erase s.cdps symbl owner) +ℤ it.collateral.amount
          ≡ E.weigh (collateral_in symbl) s.cdps =
        rw (owned, ==_refl symbl) at (L.weigh-erase Cdp (collateral_in symbl) s.cdps symbl owner) in
      (
        st',
        ground (
          arith,
          stats,
          L.find-store Stat s.stats c.self symbl st' c.self symbl,
          ==_refl c.self,
          ==_refl symbl,
        ),
        rw (cdps, t, n, w, booked) refl,
      )

  -- A position without a bid that enters liquidation gets its debt with the penalty, and still no bid.
  start_liquidation-debt :
      (c : Context) (owner symbl : ℕ) (st : Stat) (it : Cdp) (s : Engine E) (r : Cdp × Engine E)
      → start_liquidation E c owner symbl st it s ≡ ok r
      → (r.0.stablecoin.amount ≡ with_penalty it.stablecoin.amount st.penalty_ratio)
        × (r.1.bids ≡ s.bids)
  unfolding start_liquidation
  start_liquidation-debt c owner symbl st it s r h =
      elim (Option-cases (find s.feeds c.self it.collateral.symbol.code)) [
        | inl e ↦ absurd (ground arith)
        | inr (fc, e) ↦
            elim (Result-cases
              (ratio_i64 fc.price.amount it.stablecoin.amount it.collateral.amount)) [
                | inr (message, f) ↦ absurd (ground arith)
                | inl (liq, f) ↦ (ground arith, ground arith)
              ]
      ]

  -- A first bid of all that a position owes leaves nothing to bid for and no iterator to its bid.
  full_bid-aborts :
      (c : Context) (bidder owner symbl : ℕ) (bidamt : Asset) (st : Stat) (it : Cdp)
      (s s' : Engine E) (r : Stat × Cdp × Option Bid × Engine E)
      → find s.bids symbl owner ≡ none
      → it.stablecoin.amount ≡ bidamt.amount
      → place_bid E c bidder owner symbl bidamt st it s ≡ ok r
      → (r.1.stablecoin.amount ≡ pos 0) × (r.2 ≡ none)
  unfolding place_bid first_bid
  full_bid-aborts c bidder owner symbl bidamt st it s s' r no_bid exact h =
      elim (Result-cases (sub_balance E bidder bidamt s.accounts)) [
        | inr (message, e₂) ↦ absurd (ground arith)
        | inl (paid, e₂) ↦ elim (Option-cases (E.minus it.stablecoin bidamt)) [
          | inl e₃ ↦ absurd (ground arith)
          | inr (rest, e₃) ↦
              let spent : rest.amount ≡ pos 0 =
                (L.minus_some it.stablecoin bidamt rest e₃).0 ∙ rw exact (-ℤ-self bidamt.amount) in
              (ground arith, ground arith)
        ]
      ]

  -- A first bid on a live position that pays all that it owes in liquidation, its debt with the
  -- penalty, always aborts, so that no position can be paid off by its first bid: the iterator to
  -- the bids stays at their end, where nothing can be erased.
  pub liquify_full_first_bid :
      (c : Context) (bidder owner symbl : ℕ) (bidamt : Asset) (s s' : Engine E) (st : Stat)
      (it : Cdp)
      → find s.stats c.self symbl ≡ some st
      → find s.cdps symbl owner ≡ some it
      → it.live ≡ true
      → find s.bids symbl owner ≡ none
      → bidamt.amount ≡ with_penalty it.stablecoin.amount st.penalty_ratio
      → liquify E c bidder owner symbl bidamt s ≢ ok s'
  unfolding liquify pay_off
  liquify_full_first_bid c bidder owner symbl bidamt s s' st it typed owned live no_bid exact h =
      elim (Result-cases (start_liquidation E c owner symbl st it s)) [
        | inr (message, e₁) ↦ ground arith
        | inl ((due, begun), e₁) ↦
            let (debt, bids) = start_liquidation-debt c owner symbl st it s (due, begun) e₁ in
            elim (Result-cases (place_bid E c bidder owner symbl bidamt st due begun)) [
              | inr (message, e₂) ↦ ground arith
              | inl (r, e₂) ↦
                  let (spent, nowhere) =
                    full_bid-aborts c bidder owner symbl bidamt st due begun s' r (rw bids no_bid)
                      (debt ∙ sym exact) e₂ in
                  ground arith
            ]
      ]
