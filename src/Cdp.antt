-- ===== src/Cdp.antt =====
-- The CDP engine (Maker/daiqcontract.hpp and Maker/daiqcontract.cpp): collateralised debt positions, in
-- which an owner locks collateral and draws stablecoin against it. This file has the tables and the
-- constants; the children have the actions and what is proved of them.
-- The accounts charged for storage are left out: the contract never reads them back.
use decentral_bank.Prelude.{ℕ, Bool, List, String, Result, ok, ◌>>=◌, or_abort}
use decentral_bank.Prelude.Int.{ℤ}
use decentral_bank.Chain.{Symbol, Asset, Chain}
pub mod Wallet
pub mod Position
pub mod Auction
pub mod Governance
pub mod Oracle
pub mod Dispatch
pub mod Books
pub mod Flaws
mod Tests

-- `SECYR`, `FEED_FRESH` and `VOTE_PERIOD`, in seconds
abbrev pub secyr : ℕ
secyr = 10

abbrev pub feed_fresh : ℕ
feed_fresh = 300

abbrev pub vote_period : ℕ
vote_period = 5

-- `IQ_SYMBOL` and `IQ_NAME`
abbrev pub iq_symbol : Symbol
iq_symbol = record { code = 0x5149; precision = 3 }

abbrev pub iq_name : ℕ
iq_name = 0x56d5_7755_4971_9d60

-- `bid`: its scope is the cdp type, its key the owner of the position.
pub record Bid : Type 0 where
  pub owner : ℕ
  pub bidder : ℕ
  pub bidamt : Asset
  pub started : ℕ
  pub lastbid : ℕ

-- `cdp`: its scope is the cdp type, its key the owner.
pub record Cdp : Type 0 where
  pub owner : ℕ
  pub created : ℕ
  pub collateral : Asset
  pub stablecoin : Asset
  pub live : Bool

-- `prop`: its key is the cdp type.
pub record Prop : Type 0 where
  pub cdp_type : ℕ
  pub deadline : ℕ
  pub proposer : ℕ
  pub yay : Asset
  pub nay : Asset

-- `extended_asset`
pub record ExtendedAsset : Type 0 where
  pub quantity : Asset
  pub contract : ℕ

-- `stat`: its scope is the contract for an enacted cdp type, or the proposer; its key the cdp type.
pub record Stat : Type 0 where
  pub live : Bool
  pub last_vote : ℕ
  pub tau : ℕ
  pub ttl : ℕ
  pub feeder : ℕ
  pub cdp_type : ℕ
  pub global_ceil : ℕ
  pub debt_ceiling : ℕ
  pub stability_fee : ℕ
  pub beg : ℕ
  pub penalty_ratio : ℕ
  pub liquid8_ratio : ℕ
  pub fee_balance : Asset
  pub total_stablecoin : Asset
  pub total_collateral : ExtendedAsset

-- `feed`: its key is the symbol code of `total`.
pub record Feed : Type 0 where
  pub total : Asset
  pub price : Asset
  pub stamp : ℕ

-- `account`: its scope is a symbol code, its key the owner.
pub record Account : Type 0 where
  pub balance : Asset
  pub owner : ℕ
  pub code : ℕ

-- A deferred transaction that runs `referended( proposer, symbl )`.
pub record Deferred : Type 0 where
  pub txid : ℕ
  pub delay_sec : ℕ
  pub proposer : ℕ
  pub symbl : ℕ

-- The inline action `transfer( _self, to, quantity, memo )` of the token contract `code`.
pub record Payout : Type 0 where
  pub code : ℕ
  pub to : ℕ
  pub quantity : Asset
  pub memo : String

pub record Engine (E : Chain) : Type 0 where
  pub bids : E.Table Bid
  pub cdps : E.Table Cdp
  pub props : E.Table Prop
  pub stats : E.Table Stat
  pub feeds : E.Table Feed
  pub accounts : E.Table Account
  pub deferred : List Deferred
  pub payouts : List Payout

-- `a += b` and `a -= b` on assets, whose assertions abort.
module _ (E : Chain) where
  abbrev pub add : Asset → Asset → Result Asset
  add a b = or_abort (E.plus a b) "asset addition"

  abbrev pub subtract : Asset → Asset → Result Asset
  subtract a b = or_abort (E.minus a b) "asset subtraction"

  abbrev pub asset : ℤ → Symbol → Result Asset
  asset n s = or_abort (E.make_asset n s) "asset construction"

  -- `modify` of the row `f` of `feeds`, which gives its `total` anew.
  abbrev pub set_total : ℕ → ℕ → Feed → Asset → Engine E → Engine E
  set_total self code f total s = record s {
    feeds = E.store s.feeds self code (record f { total = total });
  }
