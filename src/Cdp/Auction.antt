-- ===== src/Cdp/Auction.antt =====
-- `liquify`: the auction of a position whose collateral has lost its value. The source's one function
-- is cut here at its branches. A row that is modified is read back modified, as the source's
-- references `it` and `bt` into the tables are.
use decentral_bank.Prelude.{
  ℕ, ◌/◌, not, false, none, some, Option, ◌&&◌, ◌||◌, leb, ltb, if◌then◌else◌, Result, ok, ◌>>=◌,
  ◌>>◌, check, or_abort,
}
use decentral_bank.Prelude.Int.{ℤ, pos, ltb_ℤ, eqb_ℤ}
use decentral_bank.Prelude.Word.{
  to_u64, to_i64, mul_i64, sub_i64, div_i64, add_u64, mul_u64, sub_u32,
}
use decentral_bank.Chain.{Asset, Context, Chain}
use decentral_bank.Cdp.{
  Engine, Cdp, Stat, Feed, Bid, add, subtract, asset, set_total, iq_symbol, iq_name,
}
use decentral_bank.Cdp.Wallet.{add_balance, sub_balance}
use decentral_bank.Cdp.Position.{is_fresh, ratio_i64}
pub mod Hazard
pub mod Outcome

-- `amount + ( amount * penalty_ratio ) / 100`, where the ratio makes the product a `uint64_t`
unfoldable pub with_penalty : ℤ → ℕ → ℤ
with_penalty amount ratio = to_i64 (add_u64 (to_u64 amount) (mul_u64 (to_u64 amount) ratio / 100))

-- `bidamt.amount + ( bidamt.amount * beg / 100 )`
unfoldable pub least_bid : ℤ → ℕ → ℕ
least_bid amount beg = add_u64 (to_u64 amount) (mul_u64 (to_u64 amount) beg / 100)

module _ (E : Chain) where
  open E use {find, store, erase}

  abbrev put_cdp : ℕ → ℕ → Cdp → Engine E → Engine E
  put_cdp symbl owner it s = record s { cdps = store s.cdps symbl owner it }

  -- `if ( it.live ) { ... }`: a position below its liquidation ratio enters liquidation.
  unfoldable pub start_liquidation :
      Context → ℕ → ℕ → Stat → Cdp → Engine E → Result (Cdp × Engine E)
  start_liquidation c owner symbl st it s = do
    check (ltb_ℤ (pos 0) it.stablecoin.amount) "can't liquify this cdp"
    fc ← or_abort (find s.feeds c.self it.collateral.symbol.code) "no price data"
    check (is_fresh c.now fc.stamp || not st.live) "collateral price feed data too stale"
    liq ← ratio_i64 fc.price.amount it.stablecoin.amount it.collateral.amount
    check (ltb liq st.liquid8_ratio) "must exceed liquidation ratio"
    let debt : Asset = record {
      amount = with_penalty it.stablecoin.amount st.penalty_ratio;
      symbol = it.stablecoin.symbol;
    }
    let it' = record it { live = false; stablecoin = debt }
    ok (it', put_cdp symbl owner it' s)

  -- The first bid. The iterator `bt` stays at the end of the table.
  unfoldable pub first_bid :
      Context → ℕ → ℕ → ℕ → Asset → Cdp → Engine E → Result (Cdp × Option Bid × Engine E)
  first_bid c bidder owner symbl bidamt it s = do
    check (E.same_symbol bidamt.symbol it.stablecoin.symbol) "bid is of wrong symbol"
    (_, accounts) ← sub_balance E bidder bidamt s.accounts
    stablecoin ← subtract E it.stablecoin bidamt
    let it' = record it { stablecoin = stablecoin }
    ok (
      it',
      none,
      record s {
        accounts = accounts;
        cdps = store s.cdps symbl owner it';
        bids = store s.bids symbl owner (record {
          owner = owner;
          bidder = bidder;
          bidamt = bidamt;
          started = c.now;
          lastbid = c.now;
        });
      },
    )

  -- A higher bid, which pays the last bidder back.
  unfoldable pub outbid :
      Context
      → ℕ
      → ℕ
      → ℕ
      → Asset
      → Stat
      → Cdp
      → Bid
      → Engine E
      → Result (Cdp × Option Bid × Engine E)
  outbid c bidder owner symbl bidamt st it bt s = do
    check (E.same_symbol bidamt.symbol it.stablecoin.symbol) "bid is of wrong symbol"
    check (leb (least_bid bt.bidamt.amount st.beg) (to_u64 bidamt.amount)) "bid too small"
    let contract = if E.same_symbol it.stablecoin.symbol iq_symbol then iq_name else c.self
    (_, debited) ← sub_balance E bidder bidamt s.accounts
    accounts ← add_balance E bt.bidder bt.bidamt contract debited
    difference ← subtract E bidamt bt.bidamt
    stablecoin ← subtract E it.stablecoin difference
    let it' = record it { stablecoin = stablecoin }
    let bt' = record bt { bidder = bidder; bidamt = bidamt; lastbid = c.now }
    ok (
      it',
      some bt',
      record s {
        accounts = accounts;
        cdps = store s.cdps symbl owner it';
        bids = store s.bids symbl owner bt';
      },
    )

  -- `if ( it.collateral.amount ) { ... }` of an auction whose time is over: the collateral goes to the
  -- highest bidder. It is set to zero before it is read for the three sums.
  unfoldable pub award_collateral :
      Context → ℕ → ℕ → Stat → Cdp → Bid → Engine E → Result (Stat × Cdp × Engine E)
  award_collateral c owner symbl st it bt s = do
    collateral ← subtract E it.collateral it.collateral
    let it' = record it { collateral = collateral }
    fc ← or_abort (find s.feeds c.self it'.collateral.symbol.code) "feed doesn't exist"
    total ← add E fc.total it'.collateral
    let s' = set_total E c.self it'.collateral.symbol.code fc total (put_cdp symbl owner it' s)
    let unlock = do
      locked ← subtract E st.total_collateral.quantity it'.collateral
      let st' = record st {
        total_collateral = record { quantity = locked; contract = st.total_collateral.contract };
      }
      ok (st.total_collateral.contract, st', record s' { stats = store s'.stats c.self symbl st' })
    (contract, st', s'') ←
        if E.same_symbol it'.collateral.symbol iq_symbol
        then ok (iq_name, st, s')
        else if E.same_symbol st.total_collateral.quantity.symbol it'.collateral.symbol
        then unlock
        else ok (c.self, st, s')
    accounts ← add_balance E bt.bidder it'.collateral contract s''.accounts
    ok (st', it', record s'' { accounts = accounts })

  -- What the position is sold for in the next phase, at the price of the IQ feed: a debt that is left
  -- is sold for IQ, or for the priced coin if it is in IQ.
  unfoldable pub lot_of_debt : Cdp → Feed → Result Cdp
  lot_of_debt it fv = do
    let in_iq = asset E (mul_i64 it.stablecoin.amount fv.price.amount) fv.price.symbol
    let in_coin = do
      n ← div_i64 (mul_i64 it.stablecoin.amount (pos 1000)) fv.price.amount
      asset E n iq_symbol
    lot ← if E.same_symbol it.stablecoin.symbol iq_symbol then in_iq else in_coin
    ok (record it { collateral = lot })

  -- A surplus becomes the collateral of a debt in the other currency.
  unfoldable pub lot_of_surplus : Cdp → Feed → Result Cdp
  lot_of_surplus it fv = do
    let in_iq =
        asset E (sub_i64 (pos 0) (mul_i64 it.stablecoin.amount fv.price.amount)) fv.price.symbol
    let in_coin = do
      n ← div_i64 (mul_i64 it.stablecoin.amount (pos 1000)) fv.price.amount
      asset E (sub_i64 (pos 0) n) iq_symbol
    debt ← if E.same_symbol it.stablecoin.symbol iq_symbol then in_iq else in_coin
    ok (record it { collateral = E.negated it.stablecoin; stablecoin = debt })

  -- `if ( it.stablecoin.amount ) { ... }` of an auction whose time is over: the next phase opens with
  -- this bid.
  unfoldable pub next_phase :
      Context → ℕ → ℕ → ℕ → Asset → Cdp → Bid → Engine E → Result (Cdp × Option Bid × Engine E)
  next_phase c bidder owner symbl bidamt it bt s = do
    fv ← or_abort (find s.feeds c.self iq_symbol.code) "no price data"
    check (is_fresh c.now fv.stamp) "iq price feed data too stale"
    lot ← if ltb_ℤ (pos 0) it.stablecoin.amount then lot_of_debt it fv else lot_of_surplus it fv
    check (E.same_symbol bidamt.symbol lot.stablecoin.symbol) "bid is of wrong symbol"
    (_, accounts) ← sub_balance E bidder bidamt s.accounts
    fs ← or_abort (find s.feeds c.self bidamt.symbol.code) "no price data"
    total ← subtract E fs.total bidamt
    stablecoin ← subtract E lot.stablecoin bidamt
    let it' = record lot { stablecoin = stablecoin }
    let bt' = record bt { bidder = bidder; bidamt = bidamt; started = c.now; lastbid = c.now }
    ok (
      it',
      some bt',
      set_total E c.self bidamt.symbol.code fs total (record s {
        accounts = accounts;
        cdps = store s.cdps symbl owner it';
        bids = store s.bids symbl owner bt';
      }),
    )

  -- The end of an auction whose time is over.
  unfoldable pub expire :
      Context
      → ℕ
      → ℕ
      → ℕ
      → Asset
      → Stat
      → Cdp
      → Bid
      → Engine E
      → Result (Stat × Cdp × Option Bid × Engine E)
  expire c bidder owner symbl bidamt st it bt s = do
    (st', it', s') ←
        if eqb_ℤ it.collateral.amount (pos 0)
        then ok (st, it, s)
        else award_collateral c owner symbl st it bt s
    (it'', bt', s'') ←
        if eqb_ℤ it'.stablecoin.amount (pos 0)
        then ok (it', some bt, s')
        else next_phase c bidder owner symbl bidamt it' bt s'
    ok (st', it'', bt', s'')

  -- `if ( it.stablecoin.amount == 0 ) { ... }`: the position is paid off, and goes. To erase at the end
  -- iterator aborts.
  unfoldable pub pay_off : Context → ℕ → ℕ → Stat → Cdp → Option Bid → Engine E → Result (Engine E)
  pay_off c owner symbl st it bid s = do
    bt ← or_abort bid "cannot pass end iterator to erase"
    let contract =
        if E.same_symbol it.collateral.symbol iq_symbol
        then iq_name
        else if E.same_symbol it.collateral.symbol st.total_collateral.quantity.symbol
        then st.total_collateral.contract
        else c.self
    let award = do
      accounts ← add_balance E bt.bidder it.collateral contract s.accounts
      fc ← or_abort (find s.feeds c.self it.collateral.symbol.code) "feed doesn't exist"
      total ← add E fc.total it.collateral
      ok (set_total E c.self it.collateral.symbol.code fc total (record s { accounts = accounts }))
    s' ← if eqb_ℤ it.collateral.amount (pos 0) then ok s else award
    ok (record s' { bids = erase s'.bids symbl owner; cdps = erase s'.cdps symbl owner })

  -- The branch on the bid that stands.
  unfoldable pub place_bid :
      Context
      → ℕ
      → ℕ
      → ℕ
      → Asset
      → Stat
      → Cdp
      → Engine E
      → Result (Stat × Cdp × Option Bid × Engine E)
  place_bid c bidder owner symbl bidamt st it s = elim (find s.bids symbl owner) [
    | none ↦ do (it', bt', s') ← first_bid c bidder owner symbl bidamt it s; ok (st, it', bt', s')
    | some bt ↦
        if ltb (sub_u32 c.now bt.lastbid) st.ttl && ltb (sub_u32 c.now bt.started) st.tau
        then (do
          (it', bt', s') ← outbid c bidder owner symbl bidamt st it bt s
          ok (st, it', bt', s'))
        else expire c bidder owner symbl bidamt st it bt s
  ]

  -- `liquify( bidder, owner, symbl, bidamt )`
  unfoldable pub liquify : Context → ℕ → ℕ → ℕ → Asset → Engine E → Result (Engine E)
  liquify c bidder owner symbl bidamt s = do
    check (c.has_auth bidder) "missing authority"
    check (E.code_valid symbl) "invalid cdp type symbol name"
    check (E.asset_valid bidamt && ltb_ℤ (pos 0) bidamt.amount) "bid is invalid"
    st ← or_abort (find s.stats c.self symbl) "cdp type doesn't exist"
    found ← or_abort (find s.cdps symbl owner) "this cdp doesn't exist"
    (it, s₁) ← if found.live then start_liquidation c owner symbl st found s else ok (found, s)
    (st', it', bid, s₂) ← place_bid c bidder owner symbl bidamt st it s₁
    if eqb_ℤ it'.stablecoin.amount (pos 0) then pay_off c owner symbl st' it' bid s₂ else ok s₂
