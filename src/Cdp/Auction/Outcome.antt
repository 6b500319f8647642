-- ===== src/Cdp/Auction/Outcome.antt =====
-- What the auction of a position does to the debt, the bids and the balances.
use decentral_bank.Prelude.{
  ℕ, ◌≡◌, ◌≤◌, ◌∙◌, ap, refl, some, Option, Option-cases, Bool-cases, Result-cases, ok, inl, inr,
  arith, ◌==◌, ==_refl, if◌then◌else◌, ◌&&◌,
}
use decentral_bank.Prelude.Int.{
  ℤ, pos, ◌+ℤ◌, ◌-ℤ◌, int_laws, neg_part, pos_part, -ℤ-self, -ℤ-zero, +ℤ-zero,
}
use decentral_bank.Prelude.Word.{to_u64}
use decentral_bank.Chain.{Asset, Context, Chain, IsChain}
use decentral_bank.Cdp.{Engine, Account, Cdp, Stat, Bid, iq_symbol, iq_name}
use decentral_bank.Cdp.Wallet.{sub_balance, add_balance}
use decentral_bank.Cdp.Wallet.Ledger.{
  balance_in, part, held, add_balance-store, sub_balance-total, add_balance-total,
}
use decentral_bank.Cdp.Auction.{least_bid, outbid, award_collateral}

carried : (debt old new d rest : ℤ) → d ≡ new -ℤ old → rest ≡ debt -ℤ d → rest +ℤ new ≡ debt +ℤ old
carried debt old new d rest h k =
    omega (int_laws, ap pos_part h, ap neg_part h, ap pos_part k, ap neg_part k)

module _ (E : Chain) (L : IsChain E) where
  open E use {find, store, weigh}

  -- A successful higher bid is at least the least one. What the position still owes and the bid that
  -- stands add up to what they did before, the collateral is unchanged, and the balances of each symbol
  -- have paid the new bid and received the old one back.
  pub outbid-carries :
      (c : Context) (bidder owner symbl : ℕ) (bidamt : Asset) (st : Stat) (it : Cdp) (bt : Bid)
      (s s' : Engine E) (it' : Cdp) (bid : Option Bid)
      → outbid E c bidder owner symbl bidamt st it bt s ≡ ok (it', bid, s')
      → (bt' : Bid) × (bid ≡ some bt')
        × (find s'.bids symbl owner ≡ some bt')
        × (find s'.cdps symbl owner ≡ some it')
        × (bt'.bidder ≡ bidder)
        × (least_bid bt.bidamt.amount st.beg ≤ to_u64 bt'.bidamt.amount)
        × (it'.collateral ≡ it.collateral)
        × (it'.stablecoin.amount +ℤ bt'.bidamt.amount ≡ it.stablecoin.amount +ℤ bt.bidamt.amount)
        × ((y : ℕ)
            → weigh (balance_in y) s'.accounts
              ≡ weigh (balance_in y) s.accounts -ℤ part y bidamt +ℤ part y bt.bidamt)
  unfolding outbid
  outbid-carries c bidder owner symbl bidamt st it bt s s' it' bid h =
      elim (Result-cases (sub_balance E bidder bidamt s.accounts)) [
        | inr (message, e₁) ↦ absurd (ground arith)
        | inl ((code, debited), e₁) ↦
            elim (Result-cases (
              add_balance E bt.bidder bt.bidamt
                (if E.same_symbol it.stablecoin.symbol iq_symbol then iq_name else c.self)
                debited)) [
                  | inr (message, e₂) ↦ absurd (ground arith)
                  | inl (accounts, e₂) ↦ elim (Option-cases (E.minus bidamt bt.bidamt)) [
                    | inl e₃ ↦ absurd (ground arith)
                    | inr (difference, e₃) ↦
                        elim (Option-cases (E.minus it.stablecoin difference)) [
                          | inl e₄ ↦ absurd (ground arith)
                          | inr (rest, e₄) ↦
                              let bt' : Bid = record bt {
                                bidder = bidder;
                                bidamt = bidamt;
                                lastbid = c.now;
                              } in
                              let sold : it' ≡ record it { stablecoin = rest } = ground arith in
                              let bids : s'.bids ≡ store s.bids symbl owner bt' = ground arith in
                              let cdps : s'.cdps ≡ store s.cdps symbl owner it' = ground arith in
                              let paid : s'.accounts ≡ accounts = ground arith in
                              (
                                bt',
                                ground arith,
                                ground (
                                  arith,
                                  bids,
                                  L.find-store Bid s.bids symbl owner bt' symbl owner,
                                  ==_refl symbl,
                                  ==_refl owner,
                                ),
                                ground (
                                  arith,
                                  cdps,
                                  L.find-store Cdp s.cdps symbl owner it' symbl owner,
                                  ==_refl symbl,
                                  ==_refl owner,
                                ),
                                refl,
                                ground arith,
                                ap (λ z. z.collateral) sold,
                                rw sold (
                                    carried _ _ _ _ _
                                      ((L.minus_some bidamt bt.bidamt difference e₃).0)
                                      ((L.minus_some it.stablecoin difference rest e₄).0)),
                                λ y. rw (
                                  paid,
                                  add_balance-total E L bt.bidder bt.bidamt _ debited accounts y e₂,
                                  sub_balance-total E L bidder bidamt s.accounts code debited y e₁,
                                ),
                              )
                        ]
                  ]
                ]
      ]

  credit_of_nothing :
      (owner : ℕ) (v : Asset) (code : ℕ) (t t' : E.Table Account)
      → v.amount ≡ pos 0
      → add_balance E owner v code t ≡ ok t'
      → (y o : ℕ) → held (find t' y o) ≡ held (find t y o)
  credit_of_nothing owner v code t t' nothing h y o =
      let (a, _, w, n) = add_balance-store E L owner v code t t' h in
      let same : a.balance.amount ≡ held (find t v.symbol.code owner) =
        n ∙ ap (λ z. held (find t v.symbol.code owner) +ℤ z) nothing ∙ +ℤ-zero _ in
      elim (Bool-cases ((v.symbol.code == y) && (owner == o))) [
        | inl hit ↦
            rw (w, L.find-store Account t v.symbol.code owner a y o, hit) (ground (arith, same))
        | inr miss ↦ rw (w, L.find-store Account t v.symbol.code owner a y o, miss) refl
      ]

  nothing_awarded :
      (bt : Bid) (gone : Asset) (code : ℕ) (st st' : Stat) (it' : Cdp) (s s' : Engine E)
      → gone.amount ≡ pos 0
      → it'.collateral ≡ gone
      → st'.total_collateral.quantity.amount ≡ st.total_collateral.quantity.amount
      → add_balance E bt.bidder gone code s.accounts ≡ ok s'.accounts
      → (it'.collateral.amount ≡ pos 0)
        × (st'.total_collateral.quantity.amount ≡ st.total_collateral.quantity.amount)
        × ((y o : ℕ) → held (find s'.accounts y o) ≡ held (find s.accounts y o))
  nothing_awarded bt gone code st st' it' s s' zero sold same given = (
    ap (λ z. z.amount) sold ∙ zero,
    same,
    credit_of_nothing bt.bidder gone code s.accounts s'.accounts zero given,
  )

  -- The highest bidder of an auction whose time is over is awarded nothing: the collateral of the
  -- position becomes zero, while every balance and the type's total collateral are as they were.
  pub award_collateral-awards_nothing :
      (c : Context) (owner symbl : ℕ) (st : Stat) (it : Cdp) (bt : Bid) (s : Engine E) (st' : Stat)
      (it' : Cdp) (s' : Engine E)
      → award_collateral E c owner symbl st it bt s ≡ ok (st', it', s')
      → (it'.collateral.amount ≡ pos 0)
        × (st'.total_collateral.quantity.amount ≡ st.total_collateral.quantity.amount)
        × ((y o : ℕ) → held (find s'.accounts y o) ≡ held (find s.accounts y o))
  unfolding award_collateral
  award_collateral-awards_nothing c owner symbl st it bt s st' it' s' h =
      elim (Option-cases (E.minus it.collateral it.collateral)) [
        | inl e₁ ↦ absurd (ground arith)
        | inr (gone, e₁) ↦
            let zero : gone.amount ≡ pos 0 = (L.minus_some _ _ gone e₁).0 ∙ -ℤ-self _ in
            elim (Option-cases (find s.feeds c.self gone.symbol.code)) [
              | inl e₂ ↦ absurd (ground arith)
              | inr (fc, e₂) ↦ elim (Option-cases (E.plus fc.total gone)) [
                | inl e₃ ↦ absurd (ground arith)
                | inr (total, e₃) ↦ elim (Bool-cases (E.same_symbol gone.symbol iq_symbol)) [
                  | inl iq ↦ elim (Result-cases (add_balance E bt.bidder gone iq_name s.accounts)) [
                    | inr (message, e₄) ↦ absurd (ground arith)
                    | inl (accounts, e₄) ↦
                        nothing_awarded bt gone iq_name st st' it' s s' zero (ground arith)
                          (ground arith) (ground arith)
                  ]
                  | inr not_iq ↦
                      elim (Bool-cases
                        (E.same_symbol st.total_collateral.quantity.symbol gone.symbol)) [
                          | inl locked ↦
                              elim (Option-cases (E.minus st.total_collateral.quantity gone)) [
                                | inl e₄ ↦ absurd (ground arith)
                                | inr (left, e₄) ↦
                                    let kept : left.amount ≡ st.total_collateral.quantity.amount =
                                      (L.minus_some _ _ left e₄).0
                                      ∙ ap (λ z. st.total_collateral.quantity.amount -ℤ z) zero
                                      ∙ -ℤ-zero _ in
                                    elim (Result-cases (
                                      add_balance E bt.bidder gone st.total_collateral.contract
                                        s.accounts)) [
                                          | inr (message, e₅) ↦ absurd (ground arith)
                                          | inl (accounts, e₅) ↦
                                              nothing_awarded bt gone st.total_collateral.contract
                                                st st' it' s s' zero (ground arith) (ground arith)
                                                (ground arith)
                                        ]
                              ]
                          | inr other ↦
                              elim (Result-cases (add_balance E bt.bidder gone c.self s.accounts)) [
                                | inr (message, e₄) ↦ absurd (ground arith)
                                | inl (accounts, e₄) ↦
                                    nothing_awarded bt gone c.self st st' it' s s' zero
                                      (ground arith) (ground arith) (ground arith)
                              ]
                        ]
                ]
              ]
            ]
      ]
