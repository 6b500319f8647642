-- ===== src/Token/Bond.antt =====
-- The bond token (Bonds/bond.cpp): the shared actions over the `sub_balance` that erases empty rows,
-- and the table of bonds. Its `double` fields are only stored, so their type is a parameter.
use decentral_bank.Prelude.{ℕ, String, Result}
use decentral_bank.Chain.{Asset, Context, Chain}
use decentral_bank.Token
use decentral_bank.Token.{Account, Contract}
use decentral_bank.Token.Balances.{sub_erasing}

pub record BondToken (Double : Type 0) : Type 0 where
  pub id : ℕ
  pub account : ℕ
  pub face_value : Double
  pub maturity_date : ℕ
  pub interest_rate : Double

module _ (E : Chain) where
  open E use {Table, store}

  unfoldable pub sub_balance : ℕ → Asset → Table Account → Result (Table Account)
  unfolding sub_erasing
  sub_balance = sub_erasing E

  unfoldable pub add_balance : ℕ → Asset → Table Account → Result (Table Account)
  unfolding Token.add_balance
  add_balance = Token.add_balance E

  unfoldable pub create : Context → ℕ → Asset → Contract E → Result (Contract E)
  unfolding Token.create
  create = Token.create E

  unfoldable pub issue : Context → ℕ → Asset → String → Contract E → Result (Contract E)
  unfolding Token.issue
  issue = Token.issue E

  unfoldable pub transfer : Context → ℕ → ℕ → Asset → String → Contract E → Result (Contract E)
  unfolding Token.transfer
  transfer = Token.transfer E sub_balance

  -- `create_bond`; the library's `available_primary_key` is a parameter.
  module _ (Double : Type 0) (available_primary_key : Table (BondToken Double) → ℕ → ℕ) where
    unfoldable pub create_bond :
        Context → ℕ → Double → ℕ → Double → Table (BondToken Double) → Table (BondToken Double)
    create_bond c account face_value maturity_date interest_rate bonds =
        let id = available_primary_key bonds c.self in
        store bonds c.self id (record {
          id = id;
          account = account;
          face_value = face_value;
          maturity_date = maturity_date;
          interest_rate = interest_rate;
        })
