-- ===== src/Token.antt =====
-- The token contracts: eosio.token (decentralbank.system/eosio.token.cpp and its copy in
-- SeigniorageShares/), the IQ token (Maker/everipediaiq.cpp) and the bond token (Bonds/bond.cpp).
-- They share their tables and, word for word, `create`, `issue`, `transfer` and `add_balance`, which
-- stand here; they differ in `sub_balance`, which is a parameter of this module, and in the actions
-- of the children, one for each contract.
-- The accounts charged for storage (`ram_payer`) are left out: no contract reads them back.
use decentral_bank.Prelude.{
  ℕ, Bool, not, none, some, List, ◌∷◌, String, ◌==◌, leb, if◌then◌else◌, Result, ok, ◌>>=◌, ◌>>◌,
  check, or_abort,
}
use decentral_bank.Prelude.Int.{pos, leb_ℤ, ltb_ℤ}
use decentral_bank.Prelude.Word.{sub_i64}
use decentral_bank.Chain.{Asset, Context, Chain}
use Prim.Native.String.{len}
pub mod Balances
pub mod Eosio
pub mod Seigniorage
pub mod Iq
pub mod Bond
pub mod Ledger
pub mod Passed
pub mod Supply
pub mod History
pub mod Payment
pub mod Stake
mod Tests

-- A row of `accounts`: its scope is the owner, its key the symbol code.
pub record Account : Type 0 where
  pub balance : Asset

-- A row of `stat` (`bondstats` in the bond contract): its scope and its key are the symbol code.
pub record CurrencyStats : Type 0 where
  pub supply : Asset
  pub max_supply : Asset
  pub issuer : ℕ

-- What an action leaves for the chain to do: notifications, and actions to run next in the same
-- transaction, with the authority of `actor`.
pub data Message : Type 0 where
  require_recipient : ℕ → Message
  inline_transfer : (actor contract from to : ℕ) (quantity : Asset) (memo : String) → Message
  article_propose :
      (proposer wiki_id : ℕ) (slug ipfs_hash lang_code : String) (group_id : ℕ)
      (comment memo : String)
      → Message
  article_vote :
      (voter proposal_id : ℕ) (approve : Bool) (amount : ℕ) (comment memo : String) → Message

module _ (E : Chain) where
  open E use {Table, find, store}

  pub record Contract : Type 0 where
    pub accounts : Table Account
    pub stat : Table CurrencyStats
    pub messages : List Message

  -- `add_balance( owner, value, ram_payer )`
  unfoldable pub add_balance : ℕ → Asset → Table Account → Result (Table Account)
  add_balance owner value accounts = elim (find accounts owner value.symbol.code) [
    | none ↦ ok (store accounts owner value.symbol.code (record { balance = value }))
    | some a ↦ do
      balance ← or_abort (E.plus a.balance value) "asset addition"
      ok (store accounts owner value.symbol.code (record { balance = balance }))
  ]

  -- `create( issuer, maximum_supply )`
  unfoldable pub create : Context → ℕ → Asset → Contract → Result Contract
  create c issuer maximum_supply s = do
    check (c.has_auth c.self) "missing authority"
    let symbol = maximum_supply.symbol
    check (E.symbol_valid symbol) "invalid symbol name"
    check (E.asset_valid maximum_supply) "invalid supply"
    check (ltb_ℤ (pos 0) maximum_supply.amount) "max-supply must be positive"
    check (elim (find s.stat symbol.code symbol.code) [ none ↦ Bool.true | some _ ↦ Bool.false ])
        "token with symbol already exists"
    ok (record s {
      stat = store s.stat symbol.code symbol.code (record {
        supply = record { amount = pos 0; symbol = symbol };
        max_supply = maximum_supply;
        issuer = issuer;
      });
    })

  -- `issue( to, quantity, memo )`
  unfoldable pub issue : Context → ℕ → Asset → String → Contract → Result Contract
  issue c to quantity memo s = do
    let symbol = quantity.symbol
    check (E.symbol_valid symbol) "invalid symbol name"
    check (leb (len memo) 256) "memo has more than 256 bytes"
    st ←
        or_abort (find s.stat symbol.code symbol.code)
          "token with symbol does not exist, create token before issue"
    check (c.has_auth st.issuer) "missing authority"
    check (E.asset_valid quantity) "invalid quantity"
    check (ltb_ℤ (pos 0) quantity.amount) "must issue positive quantity"
    check (E.same_symbol symbol st.supply.symbol) "symbol precision mismatch"
    check (leb_ℤ quantity.amount (sub_i64 st.max_supply.amount st.supply.amount))
        "quantity exceeds available supply"
    supply ← or_abort (E.plus st.supply quantity) "asset addition"
    accounts ← add_balance st.issuer quantity s.accounts
    ok (record {
      accounts = accounts;
      stat = store s.stat symbol.code symbol.code (record st { supply = supply });
      messages =
          if to == st.issuer
          then s.messages
          else inline_transfer st.issuer c.self st.issuer to quantity memo ∷ s.messages;
    })

  -- `get_supply( contract, symbol_code )`
  unfoldable pub get_supply : ℕ → Contract → Result Asset
  get_supply code s = do st ← or_abort (find s.stat code code) "unable to find key"; ok st.supply

  -- `get_balance( contract, owner, symbol_code )`
  unfoldable pub get_balance : ℕ → ℕ → Contract → Result Asset
  get_balance owner code s = do
    a ← or_abort (find s.accounts owner code) "unable to find key"
    ok a.balance

  module _ (sub_balance : ℕ → Asset → Table Account → Result (Table Account)) where
    -- `transfer( from, to, quantity, memo )`
    unfoldable pub transfer : Context → ℕ → ℕ → Asset → String → Contract → Result Contract
    transfer c from to quantity memo s = do
      check (not (from == to)) "cannot transfer to self"
      check (c.has_auth from) "missing authority"
      check (c.is_account to) "to account does not exist"
      let code = quantity.symbol.code
      st ← or_abort (find s.stat code code) "unable to find key"
      check (E.asset_valid quantity) "invalid quantity"
      check (ltb_ℤ (pos 0) quantity.amount) "must transfer positive quantity"
      check (E.same_symbol quantity.symbol st.supply.symbol) "symbol precision mismatch"
      check (leb (len memo) 256) "memo has more than 256 bytes"
      debited ← sub_balance from quantity s.accounts
      accounts ← add_balance to quantity debited
      ok (record s {
        accounts = accounts;
        messages = require_recipient to ∷ require_recipient from ∷ s.messages;
      })
