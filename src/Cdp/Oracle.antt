-- ===== src/Cdp/Oracle.antt =====
-- Prices and global settlement: `upfeed` and `settle`.
use decentral_bank.Prelude.{
  ℕ, ◌/◌, ◌&&◌, ◌==◌, false, none, some, leb, if◌then◌else◌, Result, ok, ◌>>=◌, ◌>>◌, check,
  or_abort,
}
use decentral_bank.Prelude.Int.{ℤ, pos, ltb_ℤ}
use decentral_bank.Prelude.Word.{to_u64, add_i64, mul_i64, div_i64}
use decentral_bank.Chain.{Asset, Symbol, Context, Chain}
use decentral_bank.Cdp.{Engine, asset}

-- `price *= (17 / 20); price += (3 / 20) * reported`: the quotients are taken between integers.
unfoldable pub averaged_price : ℤ → ℤ → ℤ
averaged_price price reported =
    add_i64 (mul_i64 price (pos (17 / 20))) (mul_i64 (pos (3 / 20)) reported)

module _ (E : Chain) where
  open E use {find, store}

  -- `upfeed( feeder, price, cdp_type, symbl )`
  unfoldable pub upfeed : Context → ℕ → Asset → ℕ → Symbol → Engine E → Result (Engine E)
  unfolding averaged_price
  upfeed c feeder price cdp_type symbl s = do
    check (c.has_auth feeder) "missing authority"
    check (E.asset_valid price) "invalid quantity"
    check (E.symbol_valid symbl) "invalid symbol name"
    check (ltb_ℤ (pos 0) price.amount) "must use positive quantity"
    let by_feeder = do
      st ← or_abort (find s.stats c.self cdp_type) "cdp type doesn't exist"
      check (st.feeder == feeder) "account not authorized to be price feeder"
      check (E.same_symbol st.total_stablecoin.symbol price.symbol)
          "price symbol must match stablecoin symbol"
      check (E.same_symbol st.total_collateral.quantity.symbol symbl)
          "asset symbol must match collateral symbol"
    if c.has_auth c.self then ok tt else by_feeder
    elim (find s.feeds c.self symbl.code) [
      | none ↦ do
        total ← asset E (pos 0) symbl
        ok (record s {
          feeds =
              store s.feeds c.self symbl.code
                (record { total = total; price = price; stamp = c.now });
        })
      | some ft ↦ ok (record s {
        feeds = store s.feeds c.self symbl.code (record ft {
          price = record {
            amount = averaged_price ft.price.amount price.amount;
            symbol = ft.price.symbol;
          };
          stamp = c.now;
        });
      })
    ]

  -- `settle( feeder, symbl )`
  unfoldable pub settle : Context → ℕ → ℕ → Engine E → Result (Engine E)
  settle c feeder symbl s = do
    check (c.has_auth feeder) "missing authority"
    check (E.code_valid symbl) "invalid symbol name"
    st ← or_abort (find s.stats c.self symbl) "cdp type doesn't exist"
    check (ltb_ℤ (pos 0) st.total_stablecoin.amount && st.live)
        "cdp type already settled, or has 0 debt"
    check (st.feeder == feeder) "only feeder can trigger global settlement"
    fc ← or_abort (find s.feeds c.self st.total_collateral.quantity.symbol.code) "no price data"
    amt ←
        div_i64 (mul_i64 (mul_i64 fc.price.amount (pos 100)) st.total_collateral.quantity.amount)
          (mul_i64 st.total_stablecoin.amount (pos 10000))
    check (leb (to_u64 amt) st.liquid8_ratio) "no liquidation hazard for settlement"
    ok (record s { stats = store s.stats c.self symbl (record st { live = false }) })
