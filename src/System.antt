-- ===== src/System.antt =====
-- The system contract (decentralbank.system, but for eosio.token): accounts and the auction of names,
-- staking, the RAM market, the election of block producers and their pay. This file has the tables
-- (eosio.system.hpp, delegate_bandwidth.cpp, exchange_state.hpp, native.hpp), the constants and the
-- chain's calls that change state; the children have the actions.
-- Numbers of type `double` are those of a `Float`. The accounts charged for storage are left out.
use decentral_bank.Prelude.{
  ℕ, Bool, List, [], ◌∷◌, String, Option, none, some, ◌==◌, if◌then◌else◌, Result, ◌>>=◌, ok, abort,
  or_abort,
}
use decentral_bank.Prelude.Int.{ℤ, pos}
use decentral_bank.Chain.{Symbol, Asset, Context, Chain}
use decentral_bank.Chain.Double.{Float}
pub mod Exchange
pub mod Ram
pub mod Names
pub mod Params
pub mod Voting
pub mod Stake
pub mod Pay
pub mod Dispatch
mod Tests

-- `ramcore_symbol`, `ram_symbol`, and the key of the first.
abbrev pub ramcore_symbol : Symbol
ramcore_symbol = record { code = 0x45_524f_434d_4152; precision = 4 }

abbrev pub ram_symbol : Symbol
ram_symbol = record { code = 0x4d_4152; precision = 0 }

abbrev pub ramcore_key : ℕ
ramcore_key = 0x4552_4f43_4d41_5204

-- The accounts of the system, and that of the contract: the 64-bit values of their names.
abbrev pub eosio : ℕ
eosio = 0x5530_ea00_0000_0000

abbrev pub ram_account : ℕ
ram_account = 0x5530_ea02_e690_0000

abbrev pub ramfee_account : ℕ
ramfee_account = 0x5530_ea02_e692_d4a0

abbrev pub stake_account : ℕ
stake_account = 0x5530_ea03_1934_1400

abbrev pub bpay_account : ℕ
bpay_account = 0x5530_ea00_f537_8000

abbrev pub vpay_account : ℕ
vpay_account = 0x5530_ea03_7537_8000

abbrev pub names_account : ℕ
names_account = 0x5530_ea02_6692_b000

abbrev pub saving_account : ℕ
saving_account = 0x5530_ea03_06db_a6c0

-- `min_activated_stake`, and the times in seconds and microseconds.
abbrev pub min_activated_stake : ℤ
min_activated_stake = pos 1_500_000_000_000

abbrev pub useconds_per_day : ℕ
useconds_per_day = 86_400_000_000

-- `name_bid`: its key is the name.
pub record NameBid : Type 0 where
  pub newname : ℕ
  pub high_bidder : ℕ
  pub high_bid : ℤ
  pub last_bid_time : ℤ

-- `bid_refund`: its scope is the name, its key the bidder.
pub record BidRefund : Type 0 where
  pub bidder : ℕ
  pub amount : Asset

-- `user_resources`: its scope and its key are the owner.
pub record UserResources : Type 0 where
  pub owner : ℕ
  pub net_weight : Asset
  pub cpu_weight : Asset
  pub ram_bytes : ℤ

-- `delegated_bandwidth`: its scope is the delegating account, its key the receiver.
pub record DelegatedBandwidth : Type 0 where
  pub from : ℕ
  pub to : ℕ
  pub net_weight : Asset
  pub cpu_weight : Asset

-- `refund_request`: its scope and its key are the owner; its time is in seconds.
pub record RefundRequest : Type 0 where
  pub owner : ℕ
  pub request_time : ℕ
  pub net_amount : Asset
  pub cpu_amount : Asset

-- `abi_hash`
pub record AbiHash : Type 0 where
  pub owner : ℕ
  pub hash : ℕ

module _ (F : Float) where
  -- `exchange_state::connector` and `exchange_state`
  pub record Connector : Type 0 where
    pub balance : Asset
    pub weight : F.Double

  pub record ExchangeState : Type 0 where
    pub supply : Asset
    pub base : Connector
    pub quote : Connector

  -- `producer_info`, `producer_info2` and `voter_info`; a public key is a number, 0 the default key.
  pub record ProducerInfo : Type 0 where
    pub owner : ℕ
    pub total_votes : F.Double
    pub producer_key : ℕ
    pub is_active : Bool
    pub url : String
    pub unpaid_blocks : ℕ
    pub last_claim_time : ℤ
    pub location : ℕ

  pub record ProducerInfo2 : Type 0 where
    pub owner : ℕ
    pub votepay_share : F.Double
    pub last_votepay_share_update : ℤ

  pub record VoterInfo : Type 0 where
    pub owner : ℕ
    pub proxy : ℕ
    pub producers : List ℕ
    pub staked : ℤ
    pub last_vote_weight : F.Double
    pub proxied_vote_weight : F.Double
    pub is_proxy : Bool

  -- `eosio_global_state` with its two later parts. Times are microseconds, slots half seconds.
  pub record GlobalState : Type 0 where
    pub max_authority_depth : ℕ
    pub max_ram_size : ℕ
    pub total_ram_bytes_reserved : ℕ
    pub total_ram_stake : ℤ
    pub last_producer_schedule_update : ℕ
    pub last_pervote_bucket_fill : ℤ
    pub pervote_bucket : ℤ
    pub perblock_bucket : ℤ
    pub total_unpaid_blocks : ℕ
    pub total_activated_stake : ℤ
    pub thresh_activated_stake_time : ℤ
    pub last_producer_schedule_size : ℕ
    pub total_producer_vote_weight : F.Double
    pub last_name_close : ℕ
    pub new_ram_per_block : ℕ
    pub last_ram_increase : ℕ
    pub last_block_num : ℕ
    pub total_producer_votepay_share : F.Double
    pub revision : ℕ
    pub last_vpay_state_update : ℤ
    pub total_vpay_share_change_rate : F.Double

-- What the contract sends to the token contract within the same transaction.
pub data Inline : Type 0 where
  transfer : (from to : ℕ) (quantity : Asset) (memo : String) → Inline
  issue : (to : ℕ) (quantity : Asset) (memo : String) → Inline

-- A deferred action of the contract, and the transaction that holds it.
pub data Later : Type 0 where
  refund : (owner : ℕ) → Later
  bidrefund : (bidder newname : ℕ) → Later

pub record Deferred : Type 0 where
  pub id : ℕ
  pub delay_sec : ℕ
  pub action : Later

-- `cancel_deferred`
unfoldable pub cancel_deferred : ℕ → List Deferred → List Deferred
cancel_deferred id [] = []
cancel_deferred id (d ∷ ds) =
    let rest = cancel_deferred id ds in if d.id == id then rest else d ∷ rest

-- The limits of an account, which `set_resource_limits` writes.
pub record Limits : Type 0 where
  pub ram : ℤ
  pub net : ℤ
  pub cpu : ℤ

-- The transaction that runs an action: its context, the time in microseconds and the block's slot.
pub record Moment : Type 0 where
  pub at : Context
  pub time : ℤ
  pub slot : ℕ

-- The state that the actions read and write: the tables, the chain's own records of the contract, and
-- what is left for the chain to do.
pub record System (E : Chain) (F : Float) : Type 0 where
  pub voters : E.Table (VoterInfo F)
  pub producers : E.Table (ProducerInfo F)
  pub producers2 : E.Table (ProducerInfo2 F)
  pub global : GlobalState F
  pub rammarket : E.Table (ExchangeState F)
  pub namebids : E.Table NameBid
  pub bidrefunds : E.Table BidRefund
  pub userres : E.Table UserResources
  pub delband : E.Table DelegatedBandwidth
  pub refunds : E.Table RefundRequest
  pub abihash : E.Table AbiHash
  pub limits : ℕ → Limits
  pub privileged : ℕ → Bool
  pub schedule : List (ℕ × ℕ)
  pub inline : List Inline
  pub deferred : List Deferred
  pub notified : List ℕ

module _ (E : Chain) (F : Float) where
  abbrev pub asset : ℤ → Symbol → Result Asset
  asset n y = or_abort (E.make_asset n y) "asset construction"

  -- `set_resource_limits( account, ram, net, cpu )`
  abbrev pub set_limits : ℕ → Limits → System E F → System E F
  set_limits account l s = record s { limits = λ a. if a == account then l else s.limits a }

  -- An action sent to the token contract.
  abbrev pub send : Inline → System E F → System E F
  send a s = record s { inline = a ∷ s.inline }

  -- `get_core_symbol( _rammarket )`
  unfoldable pub core_symbol : ℕ → System E F → Result Symbol
  core_symbol self s = do
    m ← or_abort (E.find s.rammarket self ramcore_key) "system contract must first be initialized"
    ok m.quote.balance.symbol

  -- `emplace`, where a row under the key makes the chain abort.
  abbrev pub insert : {R : Type 0} → E.Table R → ℕ → ℕ → R → Result (E.Table R)
  insert t scope key r = elim (E.find t scope key) [
    | none ↦ ok (E.store t scope key r)
    | some _ ↦ abort "could not insert object, most likely a uniqueness constraint was violated"
  ]

  -- What the actions call of the chain's library beyond `Chain`.
  pub record Library : Type 0 where
    -- `name::suffix` and `name::to_string`
    pub suffix : ℕ → ℕ
    pub to_string : ℕ → String
    pub sha256 : List ℕ → ℕ
    -- the first row of a scope, by the index `highbid`, from a bound on, with its key
    pub by_high_bid : E.Table NameBid → ℕ → ℕ → Option (ℕ × NameBid)
    -- the rows of a scope in the order of the index `prototalvote`
    pub by_votes : E.Table (ProducerInfo F) → ℕ → List (ProducerInfo F)
    -- `std::sort` of triples of name, key and location
    pub sort : List (ℕ × ℕ × ℕ) → List (ℕ × ℕ × ℕ)
    -- `set_proposed_producers( ... ) >= 0`
    pub accepts : List (ℕ × ℕ) → Bool
