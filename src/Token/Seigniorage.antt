-- ===== src/Token/Seigniorage.antt =====
-- The seigniorage share token (SeigniorageShares/eosio.token.cpp), which repeats eosio.token line for
-- line.
use decentral_bank.Prelude.{ℕ, String, Result}
use decentral_bank.Chain.{Symbol, Asset, Context, Chain}
use decentral_bank.Token
use decentral_bank.Token.{Contract}
use decentral_bank.Token.Eosio

module _ (E : Chain) where
  open E use {Table}

  unfoldable pub sub_balance : ℕ → Asset → Table Token.Account → Result (Table Token.Account)
  unfolding Eosio.sub_balance
  sub_balance = Eosio.sub_balance E

  unfoldable pub add_balance : ℕ → Asset → Table Token.Account → Result (Table Token.Account)
  unfolding Token.add_balance
  add_balance = Token.add_balance E

  unfoldable pub create : Context → ℕ → Asset → Contract E → Result (Contract E)
  unfolding Token.create
  create = Token.create E

  unfoldable pub issue : Context → ℕ → Asset → String → Contract E → Result (Contract E)
  unfolding Token.issue
  issue = Token.issue E

  unfoldable pub retire : Context → Asset → String → Contract E → Result (Contract E)
  unfolding Eosio.retire
  retire = Eosio.retire E

  unfoldable pub transfer : Context → ℕ → ℕ → Asset → String → Contract E → Result (Contract E)
  unfolding Eosio.transfer
  transfer = Eosio.transfer E

  unfoldable pub open_balance : Context → ℕ → Symbol → ℕ → Contract E → Result (Contract E)
  unfolding Eosio.open_balance
  open_balance = Eosio.open_balance E

  unfoldable pub close_balance : Context → ℕ → Symbol → Contract E → Result (Contract E)
  unfolding Eosio.close_balance
  close_balance = Eosio.close_balance E
