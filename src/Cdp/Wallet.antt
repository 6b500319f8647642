-- ===== src/Cdp/Wallet.antt =====
-- The balances that the CDP engine keeps for its users: `sub_balance`, `add_balance` and the actions
-- `deposit`, `withdraw`, `transfer` and `close`.
use decentral_bank.Prelude.{
  ℕ, not, none, some, ◌∷◌, ◌&&◌, ◌||◌, String, ◌==◌, leb, if◌then◌else◌, Result, ok, abort, ◌>>=◌,
  ◌>>◌, check, or_abort,
}
use decentral_bank.Prelude.Int.{pos, leb_ℤ, ltb_ℤ, eqb_ℤ}
use decentral_bank.Chain.{Asset, Context, Chain}
use decentral_bank.Cdp.{Account, Engine, add, subtract, set_total, iq_symbol, iq_name}
use Prim.Native.String.{len}
pub mod Ledger
pub mod Conserved
pub mod Custody

module _ (E : Chain) where
  open E use {Table, find, store}

  -- It returns the contract of the tokens.
  unfoldable pub sub_balance : ℕ → Asset → Table Account → Result (ℕ × Table Account)
  sub_balance owner value accounts = do
    from ← or_abort (find accounts value.symbol.code owner) "no balance object found"
    check (leb_ℤ value.amount from.balance.amount) "overdrawn balance"
    balance ← subtract E from.balance value
    ok (from.code, store accounts value.symbol.code owner (record from { balance = balance }))

  unfoldable pub add_balance : ℕ → Asset → ℕ → Table Account → Result (Table Account)
  add_balance owner value code accounts = elim (find accounts value.symbol.code owner) [
    | none ↦ ok (
        store accounts value.symbol.code owner
          (record { balance = value; owner = owner; code = code }))
    | some to ↦ do
      check (to.code == code) "wrong contract"
      balance ← add E to.balance value
      ok (store accounts value.symbol.code owner (record to { balance = balance }))
  ]

  -- `get_balance( contract, sym_code, owner )`
  unfoldable pub get_balance : ℕ → ℕ → Engine E → Result Asset
  get_balance code owner s = do
    ac ← or_abort (find s.accounts code owner) "unable to find key"
    ok ac.balance

  -- `deposit( from, to, quantity, memo )`, run on the `transfer` of a token contract
  unfoldable pub deposit : Context → ℕ → ℕ → Asset → String → Engine E → Result (Engine E)
  deposit c from to quantity memo s = do
    check (c.has_auth from) "missing authority"
    check (E.asset_valid quantity) "invalid quantity"
    check (ltb_ℤ (pos 0) quantity.amount) "must transfer positive quantity"
    check (leb (len memo) 256) "memo has more than 256 bytes"
    let receive = do
      check (to == c.self) "can only deposit to self"
      check (not (E.same_symbol quantity.symbol iq_symbol) || c.code == iq_name)
          "IQ deposit must come from IQ contract"
      accounts ← add_balance from quantity c.code s.accounts
      fc ← or_abort (find s.feeds c.self quantity.symbol.code) "feed doesn't exist"
      total ← add E fc.total quantity
      ok (set_total E c.self quantity.symbol.code fc total (record s { accounts = accounts }))
    if from == c.self then ok s else receive

  unfoldable pub transfer : Context → ℕ → ℕ → Asset → String → Engine E → Result (Engine E)
  transfer c from to quantity memo s = do
    check (c.has_auth from) "missing authority"
    check (c.is_account to) "to account does not exist"
    check (not (from == to)) "cannot transfer to self"
    check (E.asset_valid quantity) "invalid quantity"
    check (leb (len memo) 256) "memo has more than 256 bytes"
    check (ltb_ℤ (pos 0) quantity.amount) "must transfer positive quantity"
    (contract, debited) ← sub_balance from quantity s.accounts
    check (contract == c.self) "can only transfer stablecoin"
    accounts ← add_balance to quantity contract debited
    ok (record s { accounts = accounts })

  -- `withdraw` once the amount is known.
  unfoldable pub pay_out : Context → ℕ → Asset → String → Engine E → Result (Engine E)
  pay_out c owner quantity memo s = do
    (code, accounts) ← sub_balance owner quantity s.accounts
    check (not (owner == c.self) && not (code == c.self))
        "self cannot withdraw, cannot withdraw into self"
    fc ← or_abort (find s.feeds c.self quantity.symbol.code) "feed doesn't exist"
    total ← subtract E fc.total quantity
    ok (
        set_total E c.self quantity.symbol.code fc total (record s {
          accounts = accounts;
          payouts =
              record { code = code; to = owner; quantity = quantity; memo = memo } ∷ s.payouts;
        }))

  unfoldable pub withdraw : Context → ℕ → Asset → String → Engine E → Result (Engine E)
  withdraw c owner requested memo s = do
    check (c.has_auth owner) "missing authority"
    check (E.asset_valid requested) "invalid quantity"
    check (leb_ℤ (pos 0) requested.amount) "must transfer positive quantity"
    check (leb (len memo) 256) "memo has more than 256 bytes"
    quantity ←
        if eqb_ℤ requested.amount (pos 0)
        then get_balance requested.symbol.code owner s
        else ok requested
    pay_out c owner quantity memo s

  -- `close( owner, symbl )`. The source hands `erase` a copy of the row (`auto it`) and not the
  -- reference into the table, which the table asserts that it holds.
  unfoldable pub close : Context → ℕ → ℕ → Engine E → Result (Engine E)
  close c owner symbl s = do
    check (c.has_auth owner) "missing authority"
    it ← or_abort (find s.accounts symbl owner) "no balance object found"
    check (eqb_ℤ it.balance.amount (pos 0)) "balance must be zero"
    abort "object passed to erase is not in multi_index"
