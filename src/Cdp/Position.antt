-- ===== src/Cdp/Position.antt =====
-- The actions of a position's owner: `open`, `lock`, `bail`, `draw`, `wipe` and `shut`. The checks
-- stand in the source's order; the ratios and the fee go through the machine integers.
use decentral_bank.Prelude.{
  ℕ, ◌+◌, ◌/◌, not, true, false, none, some, ◌||◌, ◌==◌, Bool, leb, ltb, if◌then◌else◌, Result, ok,
  ◌>>=◌, ◌>>◌, check, or_abort,
}
use decentral_bank.Prelude.Int.{ℤ, pos, ltb_ℤ, eqb_ℤ}
use decentral_bank.Prelude.Word.{
  to_u64, to_i64, add_i64, sub_i64, mul_i64, quot_i64, div_i64, div_u64, mul_u64, sub_u32,
}
use decentral_bank.Chain.{Asset, Context, Chain}
use decentral_bank.Cdp.{
  Engine, Account, Cdp, Stat, Feed, add, subtract, asset, set_total, feed_fresh, secyr, iq_symbol,
}
use decentral_bank.Cdp.Wallet.{add_balance, sub_balance}
pub mod Passed
pub mod Guards
pub mod Actions
pub mod Debt

-- `fc.stamp >= now() - FEED_FRESH`
unfoldable pub is_fresh : ℕ → ℕ → Bool
is_fresh now stamp = leb (sub_u32 now feed_fresh) stamp

-- `( price * 100 / stablecoin ) * collateral / 10000`, on `int64_t`
unfoldable pub ratio_i64 : ℤ → ℤ → ℤ → Result ℕ
ratio_i64 price stablecoin collateral = do
  unit ← div_i64 (mul_i64 price (pos 100)) stablecoin
  amt ← div_i64 (mul_i64 unit collateral) (pos 10000)
  ok (to_u64 amt)

-- `( price * 100 / amt ) * collateral / 10000`, where `amt` makes it a `uint64_t`
unfoldable pub ratio_u64 : ℤ → ℕ → ℤ → Result ℕ
ratio_u64 price amt collateral = do
  unit ← div_u64 (to_u64 (mul_i64 price (pos 100))) amt
  ok (mul_u64 unit (to_u64 collateral) / 10000)

-- `1000000 * stability_fee * ( now() - created ) / SECYR * ( quantity * 100 / price ) / 100000`
unfoldable pub accrued_fee : ℕ → ℕ → ℤ → ℤ → Result ℕ
accrued_fee stability_fee age quantity price = do
  units ← div_i64 (mul_i64 quantity (pos 100)) price
  ok (mul_u64 (mul_u64 (mul_u64 1000000 stability_fee) age / secyr) (to_u64 units) / 100000)

module _ (E : Chain) where
  open E use {Table, find, store, erase}

  -- `open( owner, symbl, ram_payer )`
  unfoldable pub open_cdp : Context → ℕ → ℕ → ℕ → Engine E → Result (Engine E)
  open_cdp c owner symbl ram_payer s = do
    check (c.has_auth ram_payer) "missing authority"
    check (E.code_valid symbl) "invalid symbol name"
    st ← or_abort (find s.stats c.self symbl) "cdp type doesnt exst"
    check st.live "cdp type not yet live, or in global settlement"
    fc ←
        or_abort (find s.feeds c.self st.total_collateral.quantity.symbol.code)
          "collateral feed doesn't exist"
    check (is_fresh c.now fc.stamp) "collateral price feed data too stale"
    check (elim (find s.cdps symbl owner) [ none ↦ true | some _ ↦ false ])
        "cdp of this type already exists for owner"
    collateral ← asset E (pos 0) st.total_collateral.quantity.symbol
    stablecoin ← asset E (pos 0) st.total_stablecoin.symbol
    ok (record s {
      cdps = store s.cdps symbl owner (record {
        owner = owner;
        created = c.now;
        collateral = collateral;
        stablecoin = stablecoin;
        live = true;
      });
    })

  -- The writes of `bail`.
  unfoldable pub release :
      Context → ℕ → ℕ → Asset → Stat → Cdp → Feed → Engine E → Result (Engine E)
  release c owner symbl quantity st it fc s = do
    accounts ← add_balance E owner quantity st.total_collateral.contract s.accounts
    collateral ← subtract E it.collateral quantity
    locked ← subtract E st.total_collateral.quantity quantity
    total ← add E fc.total quantity
    ok (
        set_total E c.self quantity.symbol.code fc total (record s {
          accounts = accounts;
          cdps = store s.cdps symbl owner (record it { collateral = collateral });
          stats = store s.stats c.self symbl (record st {
            total_collateral = record {
              quantity = locked;
              contract = st.total_collateral.contract;
            };
          });
        }))

  unfoldable pub bail : Context → ℕ → ℕ → Asset → Engine E → Result (Engine E)
  bail c owner symbl quantity s = do
    check (c.has_auth owner) "missing authority"
    check (E.asset_valid quantity) "invalid quantity"
    check (E.code_valid symbl) "invalid symbol name"
    check (ltb_ℤ (pos 0) quantity.amount) "must use positive quantity"
    st ← or_abort (find s.stats c.self symbl) "cdp type doesn't exist"
    check (E.same_symbol quantity.symbol st.total_collateral.quantity.symbol)
        "(cdp type, collateral symbol) mismatch"
    it ← or_abort (find s.cdps symbl owner) "(cdp type, owner) mismatch"
    check it.live "cdp is in liquidation"
    more ← or_abort (E.exceeds it.collateral quantity) "asset comparison"
    check more "can't free this much collateral, try shut?"
    fc ← or_abort (find s.feeds c.self quantity.symbol.code) "feed doesn't exist"
    check (is_fresh c.now fc.stamp || not st.live) "collateral price feed data too stale"
    amt ←
        if eqb_ℤ it.stablecoin.amount (pos 0)
        then ok st.liquid8_ratio
        else ratio_i64 fc.price.amount it.stablecoin.amount
            (sub_i64 it.collateral.amount quantity.amount)
    check (leb st.liquid8_ratio amt) "can't go below liquidation ratio"
    release c owner symbl quantity st it fc s

  -- The writes of `draw`.
  unfoldable pub mint : Context → ℕ → ℕ → Asset → Stat → Cdp → Feed → Engine E → Result (Engine E)
  mint c owner symbl quantity st it fs s = do
    accounts ← add_balance E owner quantity c.self s.accounts
    stablecoin ← add E it.stablecoin quantity
    circulating ← add E st.total_stablecoin quantity
    total ← add E fs.total quantity
    ok (
        set_total E c.self quantity.symbol.code fs total (record s {
          accounts = accounts;
          cdps = store s.cdps symbl owner (record it { stablecoin = stablecoin });
          stats = store s.stats c.self symbl (record st { total_stablecoin = circulating });
        }))

  unfoldable pub draw : Context → ℕ → ℕ → Asset → Engine E → Result (Engine E)
  draw c owner symbl quantity s = do
    check (c.has_auth owner) "missing authority"
    check (E.asset_valid quantity) "invalid quantity"
    check (E.code_valid symbl) "invalid symbol name"
    check (ltb_ℤ (pos 0) quantity.amount) "must use positive quantity"
    st ← or_abort (find s.stats c.self symbl) "cdp type doesn't exist"
    check (E.same_symbol quantity.symbol st.total_stablecoin.symbol)
        "(cdp type, stablecoin symbol) mismatch"
    check st.live "cdp type not yet live, or in global settlement"
    it ← or_abort (find s.cdps symbl owner) "(cdp type, owner) mismatch"
    check it.live "cdp is in liquidation"
    let amt = to_u64 (add_i64 it.stablecoin.amount quantity.amount)
    let gmt = to_u64 (add_i64 st.total_stablecoin.amount quantity.amount)
    check (leb amt st.debt_ceiling) "can't reach the debt ceiling"
    check (leb gmt st.global_ceil) "can't reac the global debt ceiling"
    fc ← or_abort (find s.feeds c.self it.collateral.symbol.code) "feed doesn't exist"
    check (is_fresh c.now fc.stamp) "collateral price feed data too stale"
    liq ← ratio_u64 fc.price.amount amt it.collateral.amount
    check (leb st.liquid8_ratio liq) "can't go below liquidation ratio"
    fs ← or_abort (find s.feeds c.self quantity.symbol.code) "feed doesn't exist"
    mint c owner symbl quantity st it fs s

  -- The payments and the writes of `wipe`.
  unfoldable pub repay : Context → ℕ → ℕ → Asset → Asset → Stat → Cdp → Engine E → Result (Engine E)
  repay c owner symbl quantity fee st it s = do
    (_, charged) ← sub_balance E owner fee s.accounts
    (_, accounts) ← sub_balance E owner quantity charged
    fees ← add E st.fee_balance fee
    circulating ← subtract E st.total_stablecoin quantity
    stablecoin ← subtract E it.stablecoin quantity
    fs ← or_abort (find s.feeds c.self quantity.symbol.code) "no price data"
    total ← subtract E fs.total quantity
    ok (
        set_total E c.self quantity.symbol.code fs total (record s {
          accounts = accounts;
          cdps = store s.cdps symbl owner (record it { stablecoin = stablecoin });
          stats =
              store s.stats c.self symbl
                (record st { fee_balance = fees; total_stablecoin = circulating });
        }))

  unfoldable pub wipe : Context → ℕ → ℕ → Asset → Engine E → Result (Engine E)
  wipe c owner symbl quantity s = do
    check (c.has_auth owner) "missing authority"
    check (E.code_valid symbl) "invalid symbol name"
    check (E.asset_valid quantity) "invalid quantity"
    check (ltb_ℤ (pos 0) quantity.amount) "must use positive quantity"
    st ← or_abort (find s.stats c.self symbl) "cdp type does not exist"
    check (E.same_symbol quantity.symbol st.total_stablecoin.symbol) "(cdp type, symbol) mismatch"
    it ← or_abort (find s.cdps symbl owner) "(cdp type, owner) mismatch"
    check it.live "cdp in liquidation"
    more ← or_abort (E.exceeds it.stablecoin quantity) "asset comparison"
    check more "can't wipe this much, try shut?"
    fv ← or_abort (find s.feeds c.self iq_symbol.code) "no price data"
    apr ← accrued_fee st.stability_fee (sub_u32 c.now it.created) quantity.amount fv.price.amount
    fee ← asset E (to_i64 apr) iq_symbol
    repay c owner symbl quantity fee st it s

  -- The payment and the writes of `lock`.
  unfoldable pub take_in : Context → ℕ → ℕ → Asset → Stat → Cdp → Engine E → Result (Engine E)
  take_in c owner symbl quantity st it s = do
    (contract, accounts) ← sub_balance E owner quantity s.accounts
    check (st.total_collateral.contract == contract) "no using tokens from fake contracts"
    locked ← add E st.total_collateral.quantity quantity
    collateral ← add E it.collateral quantity
    fc ← or_abort (find s.feeds c.self quantity.symbol.code) "no price data"
    total ← subtract E fc.total quantity
    ok (
        set_total E c.self quantity.symbol.code fc total (record s {
          accounts = accounts;
          cdps = store s.cdps symbl owner (record it { collateral = collateral });
          stats = store s.stats c.self symbl (record st {
            total_collateral = record {
              quantity = locked;
              contract = st.total_collateral.contract;
            };
          });
        }))

  unfoldable pub lock : Context → ℕ → ℕ → Asset → Engine E → Result (Engine E)
  lock c owner symbl quantity s = do
    check (c.has_auth owner) "missing authority"
    check (E.asset_valid quantity) "invalid quantity"
    check (E.code_valid symbl) "invalid symbol name"
    check (ltb_ℤ (pos 0) quantity.amount) "must use positive quantity"
    st ← or_abort (find s.stats c.self symbl) "cdp type doesn't exist"
    check st.live "cdp type not yet live, or in global settlement"
    check (E.same_symbol st.total_collateral.quantity.symbol quantity.symbol)
        "(cdp type, collateral symbol) mismatch"
    it ← or_abort (find s.cdps symbl owner) "this cdp doesn't exist"
    check it.live "cdp in liquidation"
    take_in c owner symbl quantity st it s

  -- The debt that `shut` takes from its owner: the accounts, and what is left of the type's total.
  unfoldable pub settle_debt : ℕ → Stat → Cdp → Table Account → Result (Table Account × Asset)
  settle_debt owner st it accounts = do
    (_, paid) ← sub_balance E owner it.stablecoin accounts
    rest ← subtract E st.total_stablecoin it.stablecoin
    ok (paid, rest)

  -- The collateral that `shut` gives back: the accounts, and the type's new total.
  unfoldable pub return_collateral : ℕ → Stat → Cdp → Table Account → Result (Table Account × Asset)
  return_collateral owner st it accounts = do
    returned ← add_balance E owner it.collateral st.total_collateral.contract accounts
    sum ← add E st.total_collateral.quantity it.collateral
    ok (returned, sum)

  unfoldable pub shut : Context → ℕ → ℕ → Engine E → Result (Engine E)
  shut c owner symbl s = do
    check (c.has_auth owner) "missing authority"
    check (E.code_valid symbl) "invalid symbol name"
    st ← or_abort (find s.stats c.self symbl) "cdp type doesn't exist"
    it ← or_abort (find s.cdps symbl owner) "this cdp doesn't exist"
    check it.live "cdp in liquidation"
    (paid, new_total_stabl) ←
        if ltb_ℤ (pos 0) it.stablecoin.amount
        then settle_debt owner st it s.accounts
        else ok (s.accounts, st.total_stablecoin)
    (returned, new_total_clatrl) ←
        if ltb_ℤ (pos 0) it.collateral.amount
        then return_collateral owner st it paid
        else ok (paid, st.total_collateral.quantity)
    ok (record s {
      accounts = returned;
      stats = store s.stats c.self symbl (record st {
        total_stablecoin = new_total_stabl;
        total_collateral = record {
          quantity = new_total_clatrl;
          contract = st.total_collateral.contract;
        };
      });
      cdps = erase s.cdps symbl owner;
    })
