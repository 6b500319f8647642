-- ===== src/Token/Eosio.antt =====
-- eosio.token (decentralbank.system/eosio.token.cpp): the shared actions over the `sub_balance` that
-- keeps empty rows, and `retire`, `open` and `close`.
use decentral_bank.Prelude.{ℕ, none, some, String, leb, Result, ok, ◌>>=◌, ◌>>◌, check, or_abort}
use decentral_bank.Prelude.Int.{pos, ltb_ℤ, eqb_ℤ}
use decentral_bank.Chain.{Symbol, Asset, Context, Chain}
use decentral_bank.Token
use decentral_bank.Token.{Account, Contract}
use decentral_bank.Token.Balances.{sub_keeping}
use Prim.Native.String.{len}

module _ (E : Chain) where
  open E use {Table, find, store, erase}

  unfoldable pub sub_balance : ℕ → Asset → Table Account → Result (Table Account)
  unfolding sub_keeping
  sub_balance = sub_keeping E

  unfoldable pub transfer : Context → ℕ → ℕ → Asset → String → Contract E → Result (Contract E)
  unfolding Token.transfer
  transfer = Token.transfer E sub_balance

  unfoldable pub retire : Context → Asset → String → Contract E → Result (Contract E)
  retire c quantity memo s = do
    let symbol = quantity.symbol
    check (E.symbol_valid symbol) "invalid symbol name"
    check (leb (len memo) 256) "memo has more than 256 bytes"
    st ← or_abort (find s.stat symbol.code symbol.code) "token with symbol does not exist"
    check (c.has_auth st.issuer) "missing authority"
    check (E.asset_valid quantity) "invalid quantity"
    check (ltb_ℤ (pos 0) quantity.amount) "must retire positive quantity"
    check (E.same_symbol symbol st.supply.symbol) "symbol precision mismatch"
    supply ← or_abort (E.minus st.supply quantity) "asset subtraction"
    accounts ← sub_balance st.issuer quantity s.accounts
    ok (record s {
      accounts = accounts;
      stat = store s.stat symbol.code symbol.code (record st { supply = supply });
    })

  -- `open( owner, symbol, ram_payer )`
  unfoldable pub open_balance : Context → ℕ → Symbol → ℕ → Contract E → Result (Contract E)
  open_balance c owner symbol ram_payer s = do
    check (c.has_auth ram_payer) "missing authority"
    st ← or_abort (find s.stat symbol.code symbol.code) "symbol does not exist"
    check (E.same_symbol st.supply.symbol symbol) "symbol precision mismatch"
    elim (find s.accounts owner symbol.code) [
      | none ↦ do
        zero_balance ← or_abort (E.make_asset (pos 0) symbol) "asset construction"
        ok (record s {
          accounts = store s.accounts owner symbol.code (record { balance = zero_balance });
        })
      | some a ↦ ok s
    ]

  -- `close( owner, symbol )`
  unfoldable pub close_balance : Context → ℕ → Symbol → Contract E → Result (Contract E)
  close_balance c owner symbol s = do
    check (c.has_auth owner) "missing authority"
    a ←
        or_abort (find s.accounts owner symbol.code)
          "Balance row already deleted or never existed. Action won't have any effect."
    check (eqb_ℤ a.balance.amount (pos 0)) "Cannot close because the balance is not zero."
    ok (record s { accounts = erase s.accounts owner symbol.code })
